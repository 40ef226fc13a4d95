-- ===== src/Ast/Resolver/Verdicts.antt =====
-- What the resolvers report: when a form is accepted, which error a field gets, and who wins where
-- resolvers are composed.
use pactum.Prelude.{
  ℕ, ◌<◌, ◌≡◌, refl, sym, ◌∙◌, ap, Bool, true, false, ◌||◌, List, [], ◌∷◌, if◌then◌else◌,
  Bool-cases, inl, inr, ltb, length, ◌↔◌, All, arith, text_eq,
}
use pactum.Prelude.Js.{JsSet, has, add, text_key, text_eq_iff}
use pactum.Ast.Types.{Text}
use pactum.Ast.Values.{Script, Value, missing, Fields, empty, entry, read_field}
use pactum.Ast.Compiler.{EvalContext}
use pactum.Ast.Compiler.Rules.{CompiledRule}
use pactum.Ast.Resolver.{
  has_own, put_field, accepted, rejected, verdict, errors_of, resolve_rule, resolve_loop, resolve,
}

length-add : (s : JsSet Text) (k : Text) → 0 < length (add s k)
unfolding add
length-add [] k = omega arith
length-add (x ∷ xs) k = omega arith

module _ {N : Type 0} where
  pub read-put_field :
      (fs : Fields N) (k j : Text) (v : Value N)
      → read_field (put_field fs k v) j ≡ (if text_eq k j then v else read_field fs j)
  unfolding put_field read_field
  read-put_field empty k j v = refl
  read-put_field (entry i w fs) k j v =
      ground (arith, read-put_field fs k j v, text_eq_iff i k, text_eq_iff k j, text_eq_iff i j)

  pub has_own-put_field :
      (fs : Fields N) (k j : Text) (v : Value N)
      → has_own (put_field fs k v) j ≡ (text_eq k j || has_own fs j)
  unfolding put_field has_own
  has_own-put_field empty k j v = refl
  has_own-put_field (entry i w fs) k j v =
      ground (arith, has_own-put_field fs k j v, text_eq_iff i k, text_eq_iff k j, text_eq_iff i j)

  pub read_absent : (fs : Fields N) (k : Text) → has_own fs k ≡ false → read_field fs k ≡ missing
  unfolding read_field has_own
  read_absent empty k h = refl
  read_absent (entry i w fs) k h = ground (arith, read_absent fs k)

  verdict-accepted :
      (claimed : JsSet Text) (errors : Fields N)
      → verdict claimed errors ≡ accepted
      → length claimed ≡ 0
  unfolding verdict
  verdict-accepted claimed errors h = ground arith

not_zero : (n : ℕ) → n ≡ 0 → 0 < n → ⊥
not_zero n e h = omega arith

pub or_true : (b : Bool) → (b || true) ≡ true
or_true true = refl
or_true false = refl

module _ (S : Script) where
  open S use {Num}

  abbrev State : Type 0
  State = JsSet Text × Fields Num

  module _ (ctx : EvalContext S) where
    abbrev Passes : CompiledRule S → Type 0
    Passes r = r.test ctx ≡ true

    rule-Passes :
        (r : CompiledRule S) (state : State) → Passes r → resolve_rule S r ctx state ≡ state
    unfolding resolve_rule
    rule-Passes r state h = ground (arith, or_true (has state.0 r.target))

    claim_stays :
        (r : CompiledRule S) (state : State)
        → 0 < length state.0
        → 0 < length (resolve_rule S r ctx state).0
    unfolding resolve_rule
    claim_stays r state h = ground (arith, length-add state.0 r.target)

    rule_fails :
        (r : CompiledRule S) (errors : Fields Num)
        → r.test ctx ≡ false
        → 0 < length (resolve_rule S r ctx ([], errors)).0
    unfolding resolve_rule has
    rule_fails r errors h = ground (arith, length-add [] r.target)

    All-Passes :
        (rules : List (CompiledRule S)) (state : State)
        → All Passes rules
        → resolve_loop S rules ctx state ≡ state
    unfolding resolve_loop
    All-Passes [] state h = refl
    All-Passes (r ∷ rs) state h = rw (rule-Passes r state h.0) (All-Passes rs state h.1)

    claims_stay :
        (rules : List (CompiledRule S)) (state : State)
        → 0 < length state.0
        → 0 < length (resolve_loop S rules ctx state).0
    unfolding resolve_loop
    claims_stay [] state h = h
    claims_stay (r ∷ rs) state h = claims_stay rs _ (claim_stays r state h)

    no_claim :
        (rules : List (CompiledRule S)) (errors : Fields Num)
        → length (resolve_loop S rules ctx ([], errors)).0 ≡ 0
        → All Passes rules
    unfolding resolve_loop
    no_claim [] errors h = tt
    no_claim (r ∷ rs) errors h = elim (Bool-cases (r.test ctx)) [
      | inl passes ↦ (
        passes,
        no_claim rs errors (
            ap (λ s. length (resolve_loop S rs ctx s).0) (sym (rule-Passes r ([], errors) passes))
            ∙ h),
      )
      | inr fails ↦ absurd (
          not_zero _ h
            (claims_stay rs (resolve_rule S r ctx ([], errors)) (rule_fails r errors fails)))
    ]

    -- The resolver accepts the values exactly when every rule passes.
    pub resolve-accepted_iff :
        (rules : List (CompiledRule S)) → (resolve S rules ctx ≡ accepted) ↔ All Passes rules
    unfolding resolve verdict
    resolve-accepted_iff rules = (
      λ e. no_claim rules empty (verdict-accepted _ _ e),
      λ h. rw (All-Passes rules ([], empty) h),
    )

    -- The errors of the result are those that the loop has collected.
    pub errors_of-resolve :
        (rules : List (CompiledRule S))
        → errors_of (resolve S rules ctx) ≡ (resolve_loop S rules ctx ([], empty)).1
    unfolding resolve verdict errors_of
    errors_of-resolve rules =
        elim (Bool-cases (ltb 0 (length (resolve_loop S rules ctx ([], empty)).0))) [
          | inl some_claimed ↦ rw some_claimed
          | inr none_claimed ↦
              rw (All-Passes rules ([], empty) (no_claim rules empty (ground arith)))
        ]

    pub resolve_not_accepted :
        (rules : List (CompiledRule S))
        → ¬ All Passes rules
        → resolve S rules ctx ≡ rejected (resolve_loop S rules ctx ([], empty)).1
    unfolding resolve verdict
    resolve_not_accepted rules h =
        elim (Bool-cases (ltb 0 (length (resolve_loop S rules ctx ([], empty)).0))) [
          | inl some_claimed ↦ rw some_claimed
          | inr none_claimed ↦ absurd (h (no_claim rules empty (ground arith)))
        ]
