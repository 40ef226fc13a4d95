-- ===== src/Rpc/Pool/Attempts.antt =====
-- The loop of a call of the pool as a function of the outcomes alone.
use pactum.Prelude.{
  ℕ, zero, suc, ◌≡◌, refl, Bool, List, [], ◌∷◌, map, Option, none, some, if◌then◌else◌, Bool-cases,
  inl, inr, ◌⊎◌, ltb, take, arith,
}
use pactum.Rpc.Errors.{RpcError}
use pactum.Rpc.Pool.{Average, RpcPool}
use pactum.Rpc.Pool.Execute.{
  Outcome, answered, failed, Attempt, Execution, returned, rejected, exhausted, after_failure,
  execute_loop,
}

-- The loop on the outcomes of the attempts in order, with the last failure before them.
unfoldable pub decide :
    {T : Type 0} → (RpcError → Bool) → ℕ → Option RpcError → List (Outcome T) → Execution T
decide retried total last [] = exhausted last total
decide retried total last (answered value ∷ outcomes) = returned value
decide retried total last (failed e ∷ outcomes) =
    let rest = decide retried total (some e) outcomes in if retried e then rest else rejected e

Outcome-cases :
    {T : Type 0} (o : Outcome T) → ((v : T) × (o ≡ answered v)) ⊎ ((e : RpcError) × (o ≡ failed e))
Outcome-cases (answered v) = inl (v, refl)
Outcome-cases (failed e) = inr (e, refl)

module _ (A : Average) {T : Type 0} (retried : RpcError → Bool) (environment : ℕ → Attempt T) where
  abbrev outcome_at : ℕ → Outcome T
  outcome_at slot = (environment slot).outcome

  abbrev outcomes : ℕ → List ℕ → List (Outcome T)
  outcomes n slots = map outcome_at (take n slots)

  none_left : (remaining : ℕ) (slots : List ℕ) → remaining ≡ 0 → outcomes remaining slots ≡ []
  none_left zero slots h = refl
  none_left (suc remaining) slots h = absurd (omega arith)

  failure-decides :
      (e : RpcError) (total remaining : ℕ) (next : RpcPool A → Execution T × RpcPool A)
      (pool : RpcPool A) (rest : List (Outcome T))
      → (next pool).0 ≡ decide retried total (some e) rest
      → (remaining ≡ 0 → rest ≡ [])
      → (after_failure A retried environment e total remaining next pool).0
        ≡ decide retried total none (failed e ∷ rest)
  unfolding after_failure decide
  failure-decides e total remaining next pool rest h k = elim (Bool-cases (retried e)) [
    | inr final ↦ rw final
    | inl again ↦ elim (Bool-cases (ltb 0 remaining)) [
      | inl more ↦ rw again (rw more h)
      | inr last ↦ rw again (rw last (rw (k (ground arith))))
    ]
  ]

  pub loop-decides :
      (total remaining : ℕ) (slots : List ℕ) (last : Option RpcError) (pool : RpcPool A)
      → (execute_loop A retried environment total remaining slots last pool).0
        ≡ decide retried total last (outcomes remaining slots)
  unfolding execute_loop decide
  loop-decides total zero slots last pool = refl
  loop-decides total (suc remaining) [] last pool = refl
  loop-decides total (suc remaining) (slot ∷ slots) last pool =
      elim (Outcome-cases (environment slot).outcome) [
        | inl (value, e) ↦ rw (e, execute_loop)
        | inr (error, e) ↦
            rw (e, execute_loop)
              (failure-decides error total remaining
                (execute_loop A retried environment total remaining slots (some error)) _
                (outcomes remaining slots) (loop-decides total remaining slots (some error) _)
                (none_left remaining slots))
      ]
