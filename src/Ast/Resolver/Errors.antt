-- ===== src/Ast/Resolver/Errors.antt =====
-- Which error a field gets, and the fields for which none is reported.
use pactum.Prelude.{
  ◌≡◌, refl, ◌∙◌, ap, true, false, not, ◌&&◌, ◌||◌, List, [], ◌∷◌, Option, none, some,
  if◌then◌else◌, Bool-cases, inl, inr, All, arith, codes, text_eq,
}
use pactum.Prelude.Js.{JsSet, has, has-add, text_key, text_eq_iff}
use pactum.Ast.Types.{Text}
use pactum.Ast.Values.{Script, Value, missing, Fields, empty, split, read_field}
use pactum.Ast.Compiler.Words.{is_reserved}
use pactum.Ast.Compiler.{EvalContext}
use pactum.Ast.Compiler.Rules.{CompiledRule}
use pactum.Ast.Resolver.{
  is_inherited, has_own, put_field, set_at, set_field_error, field_error, rejected, errors_of,
  resolve_rule, resolve_loop, resolve,
}
use pactum.Ast.Resolver.Verdicts.{
  read-put_field, has_own-put_field, read_absent, or_true, errors_of-resolve, resolve_not_accepted,
}

module _ (S : Script) where
  open S use {Num}

  abbrev State : Type 0
  State = JsSet Text × Fields Num

  -- A field at the top of the form, whose name no object inherits.
  pub record IsPlain (r : CompiledRule S) : Type 0 where
    pub one_segment : split b'.' r.target ≡ r.target ∷ []
    pub not_reserved : is_reserved r.target ≡ false
    pub not_inherited : is_inherited r.target ≡ false

  -- A field at the top of the form that each object inherits.
  pub record IsHidden (r : CompiledRule S) : Type 0 where
    pub one_segment : split b'.' r.target ≡ r.target ∷ []
    pub not_reserved : is_reserved r.target ≡ false
    pub inherited : is_inherited r.target ≡ true

  abbrev Agree : State → Type 0
  Agree state = (k : Text) → has state.0 k ≡ has_own state.1 k

  -- The message of the first rule on the field that fails.
  unfoldable pub first_failure : List (CompiledRule S) → EvalContext S → Text → Option Text
  first_failure [] ctx field = none
  first_failure (r ∷ rs) ctx field =
      if text_eq r.target field && not (r.test ctx)
      then some r.notice
      else first_failure rs ctx field

  abbrev pub reported : Option Text → Value Num
  reported none = missing
  reported (some message) = field_error (codes "ast") message

  module _ (ctx : EvalContext S) (r : CompiledRule S) (plain : IsPlain r) where
    plain_error :
        (errors : Fields Num)
        → has_own errors r.target ≡ false
        → set_field_error errors r.target (field_error (codes "ast") r.notice)
          ≡ put_field errors r.target (field_error (codes "ast") r.notice)
    unfolding set_field_error set_at
    plain_error errors h =
        rw plain.one_segment (rw plain.not_reserved (rw h (rw plain.not_inherited)))

    step-Agree : (state : State) → Agree state → Agree (resolve_rule S r ctx state)
    unfolding resolve_rule
    step-Agree state h k = elim (Bool-cases (has state.0 r.target)) [
      | inl old ↦ rw old (h k)
      | inr new ↦ ground (
        arith,
        new,
        h r.target,
        h k,
        plain_error state.1,
        has_own-put_field state.1 r.target k (field_error (codes "ast") r.notice),
        has-add state.0 r.target k,
      )
    ]

    step-own :
        (state : State) (k : Text)
        → Agree state
        → has_own (resolve_rule S r ctx state).1 k
          ≡ (has_own state.1 k || (text_eq r.target k && not (r.test ctx)))
    unfolding resolve_rule
    step-own state k h = ground (
      arith,
      h r.target,
      h k,
      plain_error state.1,
      text_eq_iff r.target k,
      has_own-put_field state.1 r.target k (field_error (codes "ast") r.notice),
    )

    step-read :
        (state : State) (k : Text)
        → Agree state
        → read_field (resolve_rule S r ctx state).1 k ≡ (
            if has_own state.1 k
            then read_field state.1 k
            else reported (if text_eq r.target k && not (r.test ctx) then some r.notice else none))
    unfolding resolve_rule
    step-read state k h = ground (
      arith,
      h r.target,
      h k,
      plain_error state.1,
      text_eq_iff r.target k,
      read_absent state.1 k,
      read-put_field state.1 r.target k (field_error (codes "ast") r.notice),
    )

  module _ (ctx : EvalContext S) where
    loop-read :
        (rules : List (CompiledRule S)) (state : State) (k : Text)
        → All IsPlain rules
        → Agree state
        → read_field (resolve_loop S rules ctx state).1 k ≡ (
            if has_own state.1 k
            then read_field state.1 k
            else reported (first_failure rules ctx k))
    unfolding resolve_loop first_failure
    loop-read [] state k p h = ground (arith, read_absent state.1 k)
    loop-read (r ∷ rs) state k p h = ground (
      arith,
      loop-read rs (resolve_rule S r ctx state) k p.1 (step-Agree ctx r p.0 state h),
      step-own ctx r p.0 state k h,
      step-read ctx r p.0 state k h,
    )

    -- When every rule stands on an undotted field whose name is neither reserved nor inherited by objects,
    -- each field gets the message of its first failing rule,
    -- and a field without a failing rule gets none.
    pub resolve-first_failure :
        (rules : List (CompiledRule S)) (field : Text)
        → All IsPlain rules
        → read_field (errors_of (resolve S rules ctx)) field
          ≡ reported (first_failure rules ctx field)
    unfolding has has_own
    resolve-first_failure rules field p =
        rw (errors_of-resolve S ctx rules) (loop-read rules ([], empty) field p (λ k. refl))

    hidden_rule :
        (r : CompiledRule S) (state : State) → IsHidden r → (resolve_rule S r ctx state).1 ≡ state.1
    unfolding resolve_rule set_field_error set_at
    hidden_rule r state h =
        rw h.one_segment
          (rw h.not_reserved (rw h.inherited (ground (arith, or_true (has_own state.1 r.target)))))

    hidden_loop :
        (rules : List (CompiledRule S)) (state : State)
        → All IsHidden rules
        → (resolve_loop S rules ctx state).1 ≡ state.1
    unfolding resolve_loop
    hidden_loop [] state h = refl
    hidden_loop (r ∷ rs) state h =
        hidden_loop rs (resolve_rule S r ctx state) h.1 ∙ hidden_rule r state h.0

    -- Where every rule stands on a field whose name each object inherits, such as toString, a form
    -- that fails is rejected without any error.
    pub resolve-unreported :
        (rules : List (CompiledRule S))
        → All IsHidden rules
        → ¬ All (λ r. r.test ctx ≡ true) rules
        → resolve S rules ctx ≡ rejected empty
    resolve-unreported rules h fails =
        resolve_not_accepted S ctx rules fails ∙ ap rejected (hidden_loop rules ([], empty) h)
