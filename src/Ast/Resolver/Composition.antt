-- ===== src/Ast/Resolver/Composition.antt =====
-- Composed resolvers: the earlier one wins on a field.
use pactum.Prelude.{
  ◌≡◌, refl, sym, false, ◌||◌, List, [], ◌∷◌, if◌then◌else◌, Bool-cases, inl, inr, ltb, length,
  arith, text_eq, text_eq_refl,
}
use pactum.Prelude.Js.{JsSet, has, has-add, text_key, text_eq_iff}
use pactum.Ast.Types.{Text}
use pactum.Ast.Values.{Value, missing, Fields, empty, entry, read_field}
use pactum.Ast.Resolver.{
  has_own, Resolved, verdict, errors_of, claim_error, merge_errors, merge_results,
  compose_resolvers,
}
use pactum.Ast.Resolver.Verdicts.{read-put_field, has_own-put_field, read_absent}

abbrev State : Type 0 → Type 0
State N = JsSet Text × Fields N

start-Agree : (N : Type 0) (k : Text) → has {K = Text} [] k ≡ has_own {N = N} empty k
unfolding has has_own
start-Agree N k = refl

module _ {N : Type 0} where
  abbrev Agree : State N → Type 0
  Agree state = (k : Text) → has state.0 k ≡ has_own state.1 k

  -- The error of the first resolver that has one on the field.
  unfoldable pub first_error : List (Resolved N) → Text → Value N
  first_error [] field = missing
  first_error (r ∷ rs) field =
      if has_own (errors_of r) field then read_field (errors_of r) field else first_error rs field

  claim-Agree :
      (key : Text) (error : Value N) (state : State N)
      → Agree state
      → Agree (claim_error key error state)
  unfolding claim_error
  claim-Agree key error state h k =
      ground (arith, h key, h k, has_own-put_field state.1 key k error, has-add state.0 key k)

  claim-own :
      (key : Text) (error : Value N) (state : State N) (k : Text)
      → Agree state
      → has_own (claim_error key error state).1 k ≡ (has_own state.1 k || text_eq key k)
  unfolding claim_error
  claim-own key error state k h =
      ground (arith, h key, h k, text_eq_iff key k, has_own-put_field state.1 key k error)

  claim-read :
      (key : Text) (error : Value N) (state : State N) (k : Text)
      → Agree state
      → read_field (claim_error key error state).1 k ≡ (
          if has_own state.1 k
          then read_field state.1 k
          else if text_eq key k
          then error
          else missing)
  unfolding claim_error
  claim-read key error state k h = ground (
    arith,
    h key,
    h k,
    text_eq_iff key k,
    read_absent state.1 k,
    read-put_field state.1 key k error,
  )

  merge-Agree : (fs : Fields N) (state : State N) → Agree state → Agree (merge_errors fs state)
  unfolding merge_errors
  merge-Agree empty state h = h
  merge-Agree (entry key error rest) state h = merge-Agree rest _ (claim-Agree key error state h)

  merge-own :
      (fs : Fields N) (state : State N) (k : Text)
      → Agree state
      → has_own (merge_errors fs state).1 k ≡ (has_own state.1 k || has_own fs k)
  unfolding merge_errors has_own
  merge-own empty state k h = ground arith
  merge-own (entry key error rest) state k h = ground (
    arith,
    merge-own rest (claim_error key error state) k (claim-Agree key error state h),
    claim-own key error state k h,
  )

  merge-read :
      (fs : Fields N) (state : State N) (k : Text)
      → Agree state
      → read_field (merge_errors fs state).1 k
        ≡ (if has_own state.1 k then read_field state.1 k else read_field fs k)
  unfolding merge_errors read_field
  merge-read empty state k h = ground (arith, read_absent state.1 k)
  merge-read (entry key error rest) state k h = ground (
    arith,
    merge-read rest (claim_error key error state) k (claim-Agree key error state h),
    claim-own key error state k h,
    claim-read key error state k h,
  )

  results-read :
      (results : List (Resolved N)) (state : State N) (k : Text)
      → Agree state
      → read_field (merge_results results state).1 k
        ≡ (if has_own state.1 k then read_field state.1 k else first_error results k)
  unfolding merge_results first_error
  results-read [] state k h = ground (arith, read_absent state.1 k)
  results-read (r ∷ rs) state k h = ground (
    arith,
    results-read rs (merge_errors (errors_of r) state) k (merge-Agree (errors_of r) state h),
    merge-own (errors_of r) state k h,
    merge-read (errors_of r) state k h,
  )

  unclaimed_empty :
      (claimed : JsSet Text) (fs : Fields N)
      → ltb 0 (length claimed) ≡ false
      → Agree (claimed, fs)
      → fs ≡ empty
  unfolding has has_own
  unclaimed_empty [] empty e h = refl
  unclaimed_empty [] (entry k v fs) e h = ground (arith, h k, text_eq_refl k)
  unclaimed_empty (x ∷ xs) fs e h = absurd (ground arith)

  results-Agree :
      (results : List (Resolved N)) (state : State N)
      → Agree state
      → Agree (merge_results results state)
  unfolding merge_results
  results-Agree [] state h = h
  results-Agree (r ∷ rs) state h = results-Agree rs _ (merge-Agree (errors_of r) state h)

  errors_of-verdict :
      (claimed : JsSet Text) (merged : Fields N)
      → Agree (claimed, merged)
      → errors_of (verdict claimed merged) ≡ merged
  unfolding verdict errors_of
  errors_of-verdict claimed merged h = elim (Bool-cases (ltb 0 (length claimed))) [
    | inl some_claimed ↦ rw some_claimed
    | inr none_claimed ↦ rw none_claimed (sym (unclaimed_empty claimed merged none_claimed h))
  ]

  -- Composed resolvers report on each field the error of the first resolver that has one there, and
  -- nothing where none has.
  pub compose_resolvers-first_error :
      (results : List (Resolved N)) (field : Text)
      → read_field (errors_of (compose_resolvers results)) field ≡ first_error results field
  unfolding compose_resolvers has_own
  compose_resolvers-first_error results field =
      rw (errors_of-verdict _ _ (results-Agree results ([], empty) (start-Agree N)))
        (results-read results ([], empty) field (start-Agree N))
