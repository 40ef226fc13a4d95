-- ===== src/Relayer/DurableQueue.antt =====
-- backend/src/relayer/durableQueue.ts: `DurableProofQueue`. The score data is opaque, and a file holds
-- the items of a snapshot: printing and reading its JSON is the platform's. The awaits of `persist`
-- are steps on the two files; `persist` and what calls it are the steps of one call in a row.
pub mod Restart
pub mod Overlap
use pactum.Prelude.{
  ℕ, List, [], ◌∷◌, map, Bool, true, false, if◌then◌else◌, ltb, length, Option, none, some, Text,
}
use pactum.Prelude.Js.{JsMap, get, put, values, text_key}

pub record BufferedProofItem (Score : Type 0) : Type 0 where
  pub stellar_address : Text
  pub score_data : Score
  pub enqueued_at : ℕ

-- An item as a file has it, which may lack its score; an item that is null has an empty address.
pub record FiledItem (Score : Type 0) : Type 0 where
  pub address : Text
  pub score : Option Score
  pub filed_at : ℕ

abbrev pub filed_item : {Score : Type 0} → BufferedProofItem Score → FiledItem Score
filed_item item = record {
  address = item.stellar_address;
  score = some item.score_data;
  filed_at = item.enqueued_at;
}

-- `persistent` says whether there is a `persistPath`, `file` what stands at it, `temp` what stands
-- at the temporary path, which all calls of `persist` share.
pub record DurableProofQueue (Score : Type 0) : Type 0 where
  pub items : JsMap Text (BufferedProofItem Score)
  pub persistent : Bool
  pub file : Option (List (FiledItem Score))
  pub temp : Option (List (FiledItem Score))

unfoldable pub is_empty_text : Text → Bool
is_empty_text [] = true
is_empty_text (_ ∷ _) = false

unfoldable pub older : Option ℕ → ℕ → Option ℕ
older none t = some t
older (some oldest) t = if ltb t oldest then some t else some oldest

module _ {Score : Type 0} where
  unfoldable pub new_queue : Bool → Option (List (FiledItem Score)) → DurableProofQueue Score
  new_queue persistent file = record {
    items = [];
    persistent = persistent;
    file = file;
    temp = none;
  }

  unfoldable pub list_items : DurableProofQueue Score → List (BufferedProofItem Score)
  list_items q = values q.items

  unfoldable pub size : DurableProofQueue Score → ℕ
  size q = length q.items

  -- The snapshot, which `persist` takes before its first await.
  unfoldable pub snapshot : DurableProofQueue Score → List (FiledItem Score)
  snapshot q = map filed_item (list_items q)

  -- `writeFile(tmp, payload)`
  unfoldable pub write_temp :
      List (FiledItem Score) → DurableProofQueue Score → DurableProofQueue Score
  write_temp payload q = record q { temp = some payload }

  -- `rename(tmp, path)`; when it fails, since another call has renamed the file, the code unlinks
  -- what stands at the path, and its second `rename` throws.
  unfoldable pub rename_temp : DurableProofQueue Score → DurableProofQueue Score
  rename_temp q = elim q.temp [
    | none ↦ record q { file = none }
    | some payload ↦ record q { file = some payload; temp = none }
  ]

  -- `persist` while no other call of it runs.
  unfoldable pub persist : DurableProofQueue Score → DurableProofQueue Score
  persist q = if q.persistent then rename_temp (write_temp (snapshot q) q) else q

  -- The body of the loop of `restore`, which passes over items without an address or a score.
  unfoldable pub restore_item :
      JsMap Text (BufferedProofItem Score) → FiledItem Score → JsMap Text (BufferedProofItem Score)
  restore_item m item = elim item.score [
    | none ↦ m
    | some score ↦
        if is_empty_text item.address
        then m
        else put m item.address (record {
          stellar_address = item.address;
          score_data = score;
          enqueued_at = item.filed_at;
        })
  ]

  unfoldable pub restore_items :
      JsMap Text (BufferedProofItem Score)
      → List (FiledItem Score)
      → JsMap Text (BufferedProofItem Score)
  restore_items m [] = m
  restore_items m (item ∷ rest) = restore_items (restore_item m item) rest

  unfoldable pub restore : DurableProofQueue Score → DurableProofQueue Score
  restore q =
      if q.persistent
      then (elim q.file [ none ↦ q | some items ↦ record q { items = restore_items [] items } ])
      else q

  unfoldable pub oldest_loop : Option ℕ → List (BufferedProofItem Score) → Option ℕ
  oldest_loop oldest [] = oldest
  oldest_loop oldest (item ∷ rest) = oldest_loop (older oldest item.enqueued_at) rest

  unfoldable pub oldest_enqueued_at : DurableProofQueue Score → Option ℕ
  oldest_enqueued_at q = oldest_loop none (list_items q)

  -- `existing?.enqueuedAt ?? now`
  unfoldable pub kept_time : Option (BufferedProofItem Score) → ℕ → ℕ
  kept_time none now = now
  kept_time (some existing) now = existing.enqueued_at

  -- `enqueue` up to `persist`.
  unfoldable pub set_item : DurableProofQueue Score → Text → Score → ℕ → DurableProofQueue Score
  set_item q address score now = record q {
    items = put q.items address (record {
      stellar_address = address;
      score_data = score;
      enqueued_at = kept_time (get q.items address) now;
    });
  }

  unfoldable pub enqueue : DurableProofQueue Score → Text → Score → ℕ → DurableProofQueue Score
  enqueue q address score now = persist (set_item q address score now)

  unfoldable pub drain :
      DurableProofQueue Score → List (BufferedProofItem Score) × DurableProofQueue Score
  drain q = (list_items q, persist (record q { items = [] }))

  unfoldable pub put_items :
      JsMap Text (BufferedProofItem Score)
      → List (BufferedProofItem Score)
      → JsMap Text (BufferedProofItem Score)
  put_items m [] = m
  put_items m (item ∷ rest) = put_items (put m item.stellar_address item) rest

  unfoldable pub replace :
      DurableProofQueue Score → List (BufferedProofItem Score) → DurableProofQueue Score
  replace q items = persist (record q { items = put_items [] items })
