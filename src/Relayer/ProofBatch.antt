-- ===== src/Relayer/ProofBatch.antt =====
-- backend/src/relayer/proofBatchEngine.ts: `ProofBatchEngine`. Its awaits split a flush in three: the
-- check, the taking of the items after `restore`, and its end, as the generator and `onBatchReady`
-- decide. Other calls come between; what `persist` awaits is one step with the call it belongs to.
pub mod Stored
pub mod Flush
use pactum.Prelude.{
  ℕ, max, zero, suc, ◌+◌, ◌-◌, get_elem?, List, [], ◌∷◌, ◌++◌, Bool, true, false, if◌then◌else◌,
  ltb, leb, ◌==◌, Option, none, some, Text,
}
use pactum.Relayer.DurableQueue.{
  BufferedProofItem, FiledItem, DurableProofQueue, new_queue, size, oldest_enqueued_at, restore,
  enqueue, drain, replace,
}

-- `waiting` counts the flushes that have passed the check, `in_flight` holds the items of each flush
-- that has taken them, and `ready` the batches handed on.
pub record ProofBatchEngine (Score : Type 0) : Type 0 where
  pub queue : DurableProofQueue Score
  pub max_batch_size : ℕ
  pub batch_ttl_ms : ℕ
  pub flushing : Bool
  pub waiting : ℕ
  pub in_flight : List (List (BufferedProofItem Score))
  pub restored : Bool
  pub ready : List (List (BufferedProofItem Score))

-- The pieces of the calls. A flush that ends is named by its place in `in_flight`.
pub data BatchCall (Score : Type 0) : Type 0 where
  enqueues : Text → Score → BatchCall Score
  flushes_if_full flushes flushes_if_due flush_resumes : BatchCall Score
  batch_succeeds batch_fails : ℕ → BatchCall Score

-- Whether the oldest item has waited for the time to live.
unfoldable pub waited : Option ℕ → ℕ → ℕ → Bool
waited none now ttl = false
waited (some oldest) now ttl = leb ttl (now - oldest)

unfoldable pub without : {A : Type 0} → List A → ℕ → List A
without [] i = []
without (x ∷ xs) zero = xs
without (x ∷ xs) (suc i) = x ∷ without xs i

-- `Math.max(1, given ?? standard)`
abbrev pub at_least_one : Option ℕ → ℕ → ℕ
at_least_one none standard = max 1 standard
at_least_one (some given) standard = max 1 given

module _ {Score : Type 0} where
  -- `persistent` and `file` say whether there is a `persistPath` and what stands there.
  unfoldable pub new_batch_engine :
      Option ℕ → Option ℕ → Bool → Option (List (FiledItem Score)) → ProofBatchEngine Score
  new_batch_engine max_batch_size batch_ttl_ms persistent file = record {
    queue = new_queue persistent file;
    max_batch_size = at_least_one max_batch_size 32;
    batch_ttl_ms = at_least_one batch_ttl_ms 10000;
    flushing = false;
    waiting = 0;
    in_flight = [];
    restored = false;
    ready = [];
  }

  unfoldable pub restore_once : ProofBatchEngine Score → ProofBatchEngine Score
  restore_once e = if e.restored then e else record e { queue = restore e.queue; restored = true }

  unfoldable pub should_flush : ProofBatchEngine Score → ℕ → Bool
  should_flush e now =
      if size e.queue == 0
      then false
      else if leb e.max_batch_size (size e.queue)
      then true
      else waited (oldest_enqueued_at e.queue) now e.batch_ttl_ms

  -- `flush` up to its first await.
  unfoldable pub begin_flush : ProofBatchEngine Score → ProofBatchEngine Score
  begin_flush e = if e.flushing then e else record e { waiting = e.waiting + 1 }

  unfoldable pub take_items : ProofBatchEngine Score → ProofBatchEngine Score
  take_items e =
      if size e.queue == 0
      then e
      else (let (items, queue) = drain e.queue in
          record e { queue = queue; flushing = true; in_flight = e.in_flight ++ items ∷ [] })

  -- `flush` from there to the call of the generator.
  unfoldable pub resume_flush : ProofBatchEngine Score → ProofBatchEngine Score
  resume_flush e =
      if e.waiting == 0 then e else take_items (restore_once (record e { waiting = e.waiting - 1 }))

  -- Both, when no call comes between.
  unfoldable pub start_flush : ProofBatchEngine Score → ProofBatchEngine Score
  start_flush e = if e.flushing then e else resume_flush (begin_flush e)

  -- `enqueue` up to the test of the size, and the test.
  unfoldable pub enqueue_item : ProofBatchEngine Score → ℕ → Text → Score → ProofBatchEngine Score
  enqueue_item e now address score =
      let e1 = restore_once e in record e1 { queue = enqueue e1.queue address score now }

  unfoldable pub flush_if_full : ProofBatchEngine Score → ProofBatchEngine Score
  flush_if_full e = if leb e.max_batch_size (size e.queue) then begin_flush e else e

  -- `enqueue`, when no call comes between.
  unfoldable pub enqueue_proof : ProofBatchEngine Score → ℕ → Text → Score → ProofBatchEngine Score
  enqueue_proof e now address score =
      let e1 = enqueue_item e now address score in
      if leb e1.max_batch_size (size e1.queue) then start_flush e1 else e1

  unfoldable pub flush_if_due : ProofBatchEngine Score → ℕ → ProofBatchEngine Score
  flush_if_due e now = let e1 = restore_once e in if should_flush e1 now then begin_flush e1 else e1

  -- The rest of a flush when its batch was made and handed on.
  unfoldable pub end_flush : ProofBatchEngine Score → ℕ → ProofBatchEngine Score
  end_flush e i = elim (get_elem? e.in_flight i) [
    | none ↦ e
    | some items ↦ record e {
      ready = e.ready ++ items ∷ [];
      in_flight = without e.in_flight i;
      flushing = false;
    }
  ]

  -- The `catch` and `finally` of a flush.
  unfoldable pub fail_flush : ProofBatchEngine Score → ℕ → ProofBatchEngine Score
  fail_flush e i = elim (get_elem? e.in_flight i) [
    | none ↦ e
    | some items ↦ record e {
      queue = replace e.queue items;
      in_flight = without e.in_flight i;
      flushing = false;
    }
  ]

  unfoldable pub batch_step : ProofBatchEngine Score → ℕ × BatchCall Score → ProofBatchEngine Score
  batch_step e (now, enqueues address score) = enqueue_item e now address score
  batch_step e (now, flushes_if_full) = flush_if_full e
  batch_step e (now, flushes) = begin_flush e
  batch_step e (now, flushes_if_due) = flush_if_due e now
  batch_step e (now, flush_resumes) = resume_flush e
  batch_step e (now, batch_succeeds i) = end_flush e i
  batch_step e (now, batch_fails i) = fail_flush e i

  unfoldable pub batch_run :
      ProofBatchEngine Score → List (ℕ × BatchCall Score) → ProofBatchEngine Score
  batch_run e [] = e
  batch_run e (call ∷ calls) = batch_run (batch_step e call) calls
