-- ===== src/Relayer/DurableQueue/Restart.antt =====
-- The items are filed under their addresses, and the file restores them after a restart.
use pactum.Prelude.{
  ℕ, ◌≡◌, refl, sym, ap, subst, ◌∙◌, inl, inr, List, [], ◌∷◌, ◌++◌, Bool, true, false, Bool-cases,
  if◌then◌else◌, map, Option-cases, Option, none, some, Text, text_eq, arith, append_assoc,
  append-nil,
}
use pactum.Prelude.Js.{JsMap, has, put, keys, values, Distinct, put-Distinct, text_key, same_refl}
use pactum.Relayer.DurableQueue.{
  BufferedProofItem, FiledItem, filed_item, snapshot, write_temp, rename_temp, restore_item,
  set_item, DurableProofQueue, is_empty_text, new_queue, list_items, persist, restore_items,
  restore, enqueue, drain, put_items, replace,
}

module _ {Score : Type 0} where
  -- Each item is filed under its own address, which is not empty.
  abbrev pub Named : JsMap Text (BufferedProofItem Score) → Type 0
  Named [] = Unit {0}
  Named ((address, item) ∷ m) =
      (item.stellar_address ≡ address) × (is_empty_text address ≡ false) × Named m

  pub record IsKeyed (m : JsMap Text (BufferedProofItem Score)) : Type 0 where
    pub distinct : Distinct (keys m)
    pub named : Named m

  put-Named :
      (m : JsMap Text (BufferedProofItem Score)) (address : Text) (item : BufferedProofItem Score)
      → Named m
      → item.stellar_address ≡ address
      → is_empty_text address ≡ false
      → Named (put m address item)
  unfolding put
  put-Named [] address item h e n = (e, n, tt)
  put-Named ((j, w) ∷ m) address item h e n = elim (Bool-cases (text_eq j address)) [
    | inl hit ↦ rw hit (e ∙ sym ((text_key.same_iff j address).0 hit), h.1, h.2)
    | inr miss ↦ rw miss (h.0, h.1, put-Named m address item h.2 e n)
  ]

  pub put-IsKeyed :
      (m : JsMap Text (BufferedProofItem Score)) (address : Text) (item : BufferedProofItem Score)
      → IsKeyed m
      → item.stellar_address ≡ address
      → is_empty_text address ≡ false
      → IsKeyed (put m address item)
  put-IsKeyed m address item h e n = record {
    distinct = put-Distinct m address item h.distinct;
    named = put-Named m address item h.named e n;
  }

  restore_item-IsKeyed :
      (m : JsMap Text (BufferedProofItem Score)) (item : FiledItem Score)
      → IsKeyed m
      → IsKeyed (restore_item m item)
  unfolding restore_item
  restore_item-IsKeyed m item h = elim (Option-cases item.score) [
    | inl bare ↦ rw (restore_item, bare) h
    | inr (score, scored) ↦ elim (Bool-cases (is_empty_text item.address)) [
      | inl empty ↦ rw (restore_item, scored, empty) h
      | inr full ↦ rw (restore_item, scored, full) (put-IsKeyed m item.address _ h refl full)
    ]
  ]

  restore_items-IsKeyed :
      (m : JsMap Text (BufferedProofItem Score)) (items : List (FiledItem Score))
      → IsKeyed m
      → IsKeyed (restore_items m items)
  unfolding restore_items
  restore_items-IsKeyed m [] h = h
  restore_items-IsKeyed m (item ∷ rest) h =
      restore_items-IsKeyed (restore_item m item) rest (restore_item-IsKeyed m item h)

  put_absent :
      (m : JsMap Text (BufferedProofItem Score)) (k : Text) (v : BufferedProofItem Score)
      → has (keys m) k ≡ false
      → put m k v ≡ m ++ (k, v) ∷ []
  unfolding put has
  put_absent [] k v h = refl
  put_absent ((j, w) ∷ m) k v h =
      let miss : text_eq j k ≡ false = ground arith in
      rw miss (ap (λ x. (j, w) ∷ x) (put_absent m k v (ground arith)))

  has_middle :
      (acc : JsMap Text (BufferedProofItem Score)) (k : Text) (v : BufferedProofItem Score)
      (m : JsMap Text (BufferedProofItem Score))
      → has (keys (acc ++ (k, v) ∷ m)) k ≡ true
  unfolding has
  has_middle [] k v m = rw (same_refl k) refl
  has_middle ((j, w) ∷ acc) k v m = rw (has_middle acc k v m) (ground arith)

  -- The key after a prefix of a map is not in the prefix.
  fresh :
      (acc : JsMap Text (BufferedProofItem Score)) (k : Text) (v : BufferedProofItem Score)
      (m : JsMap Text (BufferedProofItem Score))
      → Distinct (keys (acc ++ (k, v) ∷ m))
      → has (keys acc) k ≡ false
  unfolding has
  fresh [] k v m d = refl
  fresh ((j, w) ∷ acc) k v m d = elim (Bool-cases (text_eq j k)) [
    | inl same ↦
        let z : has (keys (acc ++ (k, v) ∷ m)) j ≡ true =
          rw ((text_key.same_iff j k).0 same) (has_middle acc k v m) in
        let y = d.0 in ground arith
    | inr distinct ↦ rw (distinct, fresh acc k v m d.1) refl
  ]

  filed :
      (acc : JsMap Text (BufferedProofItem Score)) (k : Text) (v : BufferedProofItem Score)
      (m : JsMap Text (BufferedProofItem Score))
      → v.stellar_address ≡ k
      → Distinct (keys (acc ++ (k, v) ∷ m))
      → put acc v.stellar_address v ≡ acc ++ (k, v) ∷ []
  filed acc k v m e d = ap (λ x. put acc x v) e ∙ put_absent acc k v (fresh acc k v m d)

  -- Restoring the items of a map gives the map back.
  restore_items-values :
      (acc m : JsMap Text (BufferedProofItem Score))
      → Named m
      → Distinct (keys (acc ++ m))
      → restore_items acc (map filed_item (values m)) ≡ acc ++ m
  unfolding restore_items restore_item
  restore_items-values acc [] n d = sym (append-nil acc)
  restore_items-values acc ((k, v) ∷ m) n d =
      let full : is_empty_text v.stellar_address ≡ false = rw n.0 n.1 in
      let assoc = append_assoc acc ((k, v) ∷ []) m in
      ap
        (λ b.
          restore_items (if b then acc else put acc v.stellar_address v)
            (map filed_item (values m)))
        full
      ∙ (ap (λ x. restore_items x (map filed_item (values m))) (filed acc k v m n.0 d)
          ∙ restore_items-values (acc ++ (k, v) ∷ []) m n.2
              (subst (λ l. Distinct (keys l)) (sym assoc) d)
          ∙ assoc)

  put_items-values :
      (acc m : JsMap Text (BufferedProofItem Score))
      → Named m
      → Distinct (keys (acc ++ m))
      → put_items acc (values m) ≡ acc ++ m
  unfolding put_items
  put_items-values acc [] n d = sym (append-nil acc)
  put_items-values acc ((k, v) ∷ m) n d =
      let assoc = append_assoc acc ((k, v) ∷ []) m in
      ap (λ x. put_items x (values m)) (filed acc k v m n.0 d)
      ∙ put_items-values (acc ++ (k, v) ∷ []) m n.2 (subst (λ l. Distinct (keys l)) (sym assoc) d)
      ∙ assoc

  -- A restart brings back the items.
  abbrev pub Survives : DurableProofQueue Score → Type 0
  Survives q = q.persistent ≡ true → (restore (new_queue true q.file)).items ≡ q.items

  persist-Survives : (q : DurableProofQueue Score) → IsKeyed q.items → Survives (persist q)
  unfolding persist restore new_queue list_items snapshot write_temp rename_temp
  persist-Survives q h p = elim (Bool-cases q.persistent) [
    | inl kept ↦ rw (kept, restore, persist) (restore_items-values [] q.items h.named h.distinct)
    | inr absent ↦ ground arith
  ]

  persist_items : (q : DurableProofQueue Score) → (persist q).items ≡ q.items
  unfolding persist write_temp rename_temp
  persist_items q = ground arith

  -- A queue whose items are filed under their addresses, and whose file brings them back.
  pub record IsDurable (q : DurableProofQueue Score) : Type 0 where
    pub keyed : IsKeyed q.items
    pub survives : Survives q

  persist-IsDurable : (q : DurableProofQueue Score) → IsKeyed q.items → IsDurable (persist q)
  persist-IsDurable q h = record { keyed = rw (persist_items q) h; survives = persist-Survives q h }

  -- An enqueue under an address that is not empty leaves the items filed under their addresses, if
  -- they were, and a file that brings them back after a restart.
  pub enqueue-IsDurable :
      (q : DurableProofQueue Score) (address : Text) (score : Score) (now : ℕ)
      → is_empty_text address ≡ false
      → IsKeyed q.items
      → IsDurable (enqueue q address score now)
  unfolding enqueue set_item
  enqueue-IsDurable q address score now n h =
      persist-IsDurable _ (put-IsKeyed q.items address _ h refl n)

  pub empty-IsKeyed : IsKeyed []
  empty-IsKeyed = record { distinct = tt; named = tt }

  pub drain-IsDurable : (q : DurableProofQueue Score) → IsDurable (drain q).1
  unfolding drain
  drain-IsDurable q = persist-IsDurable _ empty-IsKeyed

  -- Putting back the items of a queue gives its map back.
  pub replace-IsDurable :
      (q : DurableProofQueue Score) (m : JsMap Text (BufferedProofItem Score))
      → IsKeyed m
      → IsDurable (replace q (values m)) × ((replace q (values m)).items ≡ m)
  unfolding replace
  replace-IsDurable q m h =
      let e = put_items-values [] m h.named h.distinct in
      (persist-IsDurable _ (subst IsKeyed (sym e) h), persist_items _ ∙ e)

  -- What a new queue restores from any file is filed under addresses, and comes back after a restart.
  pub restore-IsDurable :
      (persistent : Bool) (file : Option (List (FiledItem Score)))
      → IsDurable (restore (new_queue persistent file))
  unfolding restore new_queue
  restore-IsDurable false file = record { keyed = empty-IsKeyed; survives = λ p. ground arith }
  restore-IsDurable true none = record { keyed = empty-IsKeyed; survives = λ p. refl }
  restore-IsDurable true (some items) = record {
    keyed = restore_items-IsKeyed [] items empty-IsKeyed;
    survives = λ p. refl;
  }
