-- ===== src/Rollup/Conflicts/Events.antt =====
-- What an event of the chain does to the cached query it names, and to every other.
use pactum.Prelude.{
  ℕ, ◌≡◌, ◌≢◌, refl, ap, Bool-cases, inl, inr, ◌+◌, ◌==◌, text_eq, ◌∙◌, Bool, true, false, not,
  ◌&&◌, ◌||◌, List, [], ◌∷◌, some, if◌then◌else◌, ltb, text_eq_refl, text_eq→eq, arith,
}
use pactum.Prelude.Js.{get, values, text_key, get-put}
use pactum.Rollup.Conflicts.{
  QueryClient, ChainEvent, ConflictInfo, InflightMutation, ConflictEngine, conflict_message, on_key,
  is_own_confirmation, refresh, flag, meet_mutation, meet_mutations, handle_matching,
  handle_chain_event,
}

module _ {K D : Type 0} (Q : QueryClient K D) (event : ChainEvent K D) (now : ℕ) where
  open Q use {json, hash, hash_of_json, read, write, read-write_same, read-write_other}

  abbrev Mutation : Type 0
  Mutation = InflightMutation K D

  abbrev pub any : (Mutation → Bool) → List Mutation → Bool
  any p [] = false
  any p (m ∷ ms) = p m || any p ms

  -- The mutation is of the query of the event, assumed an older version, and is confirmed by it: the
  -- event comes from the same wallet with the next version.
  abbrev pub concerns : Mutation → Bool
  concerns m = text_eq (json m.query_key) (json event.query_key)

  abbrev pub is_newer : Mutation → Bool
  is_newer m = ltb m.base_version event.version

  abbrev pub confirms : Mutation → Bool
  confirms m = text_eq m.actor_id event.actor_id && event.version == m.base_version + 1

  -- No mutation of the query is pending, or one that assumed an older version is.
  abbrev pub lands : List Mutation → Bool
  lands ms = not (any concerns ms) || any (λ m. concerns m && is_newer m) ms

  -- A mutation of the query that assumed an older version is pending and is not confirmed.
  abbrev pub overtakes : List Mutation → Bool
  overtakes ms = any (λ m. concerns m && (is_newer m && not (confirms m))) ms

  abbrev pub conflict : ConflictInfo K
  conflict = record { query_key = event.query_key; message = conflict_message; detected_at = now }

  abbrev Engine : Type 0
  Engine = ConflictEngine Q

  meet-read :
      (m : Mutation) (e : Engine)
      → read (meet_mutation Q event now m e).cache event.query_key
        ≡ (if is_newer m then some event.payload else read e.cache event.query_key)
  unfolding meet_mutation is_own_confirmation refresh flag
  meet-read m e =
      ground (arith, read-write_same e.cache event.query_key event.query_key event.payload refl)

  meet-conflict :
      (m : Mutation) (e : Engine)
      → get (meet_mutation Q event now m e).conflicts (json event.query_key) ≡ (
          if is_newer m && not (confirms m)
          then some conflict
          else get e.conflicts (json event.query_key))
  unfolding meet_mutation is_own_confirmation refresh flag
  meet-conflict m e = ground (
    arith,
    get-put e.conflicts (json event.query_key) (json event.query_key) conflict,
    text_eq_refl (json event.query_key),
  )

  loop-read :
      (ms : List Mutation) (e : Engine)
      → read (meet_mutations Q event now ms e).cache event.query_key
        ≡ (if any is_newer ms then some event.payload else read e.cache event.query_key)
  unfolding meet_mutations
  loop-read [] e = refl
  loop-read (m ∷ ms) e = ground (arith, loop-read ms (meet_mutation Q event now m e), meet-read m e)

  loop-conflict :
      (ms : List Mutation) (e : Engine)
      → get (meet_mutations Q event now ms e).conflicts (json event.query_key) ≡ (
          if any (λ m. is_newer m && not (confirms m)) ms
          then some conflict
          else get e.conflicts (json event.query_key))
  unfolding meet_mutations
  loop-conflict [] e = refl
  loop-conflict (m ∷ ms) e =
      ground (arith, loop-conflict ms (meet_mutation Q event now m e), meet-conflict m e)

  abbrev is_empty : List Mutation → Bool
  is_empty [] = true
  is_empty (_ ∷ _) = false

  matching-decides :
      (ms : List Mutation) (e : Engine)
      → (read (handle_matching Q event now ms e).cache event.query_key ≡ (
          if is_empty ms || any is_newer ms
          then some event.payload
          else read e.cache event.query_key))
        × (get (handle_matching Q event now ms e).conflicts (json event.query_key) ≡ (
            if any (λ m. is_newer m && not (confirms m)) ms
            then some conflict
            else get e.conflicts (json event.query_key)))
  unfolding handle_matching
  matching-decides [] e =
      (read-write_same e.cache event.query_key event.query_key event.payload refl, refl)
  matching-decides (m ∷ ms) e = (loop-read (m ∷ ms) e, loop-conflict (m ∷ ms) e)

  any-kept :
      (p : Mutation → Bool) (ms : List Mutation)
      → any p (on_key Q (json event.query_key) ms) ≡ any (λ m. concerns m && p m) ms
  unfolding on_key
  any-kept p [] = refl
  any-kept p (m ∷ ms) = elim (Bool-cases (concerns m)) [
    | inl same ↦ rw same (ap (λ b. p m || b) (any-kept p ms))
    | inr other ↦ rw other (any-kept p ms)
  ]

  is_empty-kept :
      (ms : List Mutation) → is_empty (on_key Q (json event.query_key) ms) ≡ not (any concerns ms)
  unfolding on_key
  is_empty-kept [] = refl
  is_empty-kept (m ∷ ms) = elim (Bool-cases (concerns m)) [
    | inl same ↦ rw same refl
    | inr other ↦ rw other (is_empty-kept ms)
  ]

  -- After an event, its query holds the data of the event when no mutation of the query is pending or
  -- one is that assumed an older version, and what it held otherwise. A conflict is flagged there
  -- exactly when such a mutation is not confirmed: the event comes from another wallet, or its
  -- version is not the next one. Queries are the same when their JSON is.
  pub handle_chain_event-decides :
      (e : ConflictEngine Q)
      → let pending = values e.inflight in
        let after = handle_chain_event Q event now e in
        (read after.cache event.query_key
          ≡ (if lands pending then some event.payload else read e.cache event.query_key))
        × (get after.conflicts (json event.query_key)
            ≡ (if overtakes pending then some conflict else get e.conflicts (json event.query_key)))
  unfolding handle_chain_event
  handle_chain_event-decides e =
      let pending = values e.inflight in
      let (held, flags) = matching-decides (on_key Q (json event.query_key) pending) e in
      (
        (rw (is_empty-kept pending, any-kept is_newer pending) at held),
        (rw (any-kept (λ m. is_newer m && not (confirms m)) pending) at flags),
      )

  abbrev Untouched : K → Engine → Engine → Type 0
  Untouched j e after =
      (read after.cache j ≡ read e.cache j)
      × (get after.conflicts (json j) ≡ get e.conflicts (json j))

  module _ (j : K) (other : hash event.query_key ≢ hash j) where
    other_json : json event.query_key ≢ json j
    other_json same = other (hash_of_json event.query_key j same)

    meet-Untouched : (m : Mutation) (e : Engine) → Untouched j e (meet_mutation Q event now m e)
    unfolding meet_mutation refresh flag
    meet-Untouched m e = ground (
      arith,
      read-write_other e.cache event.query_key j (some event.payload) other,
      get-put e.conflicts (json event.query_key) (json j) conflict,
      text_eq→eq (json event.query_key) (json j),
      other_json,
    )

    loop-Untouched :
        (ms : List Mutation) (e : Engine) → Untouched j e (meet_mutations Q event now ms e)
    unfolding meet_mutations
    loop-Untouched [] e = (refl, refl)
    loop-Untouched (m ∷ ms) e =
        let first = meet-Untouched m e in
        let rest = loop-Untouched ms (meet_mutation Q event now m e) in
        (rest.0 ∙ first.0, rest.1 ∙ first.1)

    matching-Untouched :
        (ms : List Mutation) (e : Engine) → Untouched j e (handle_matching Q event now ms e)
    unfolding handle_matching
    matching-Untouched [] e = (read-write_other e.cache event.query_key j _ other, refl)
    matching-Untouched (m ∷ ms) e = loop-Untouched (m ∷ ms) e

    -- An event changes neither the cached data nor the conflict of any query whose key has another hash
    -- than its own.
    pub handle_chain_event-isolates :
        (e : ConflictEngine Q)
        → let after = handle_chain_event Q event now e in
          (read after.cache j ≡ read e.cache j)
          × (get after.conflicts (json j) ≡ get e.conflicts (json j))
    unfolding handle_chain_event
    handle_chain_event-isolates e =
        matching-Untouched (on_key Q (json event.query_key) (values e.inflight)) e
