-- ===== src/Ast/Compiler/RuleSets.antt =====
-- Whole rule sets: a set within the language and the limits is compiled, and each compiled rule
-- tests what the rule says.
use pactum.Prelude.{
  ℕ, suc, ◌+◌, ◌≤◌, ◌<◌, ◌≡◌, refl, ap, Bool, not, ◌||◌, List, [], ◌∷◌, Option, none, some,
  Bool-cases, inl, inr, ltb, length, arith, codes,
}
use pactum.Prelude.Results.{ok, err, ◌>>=◌}
use pactum.Ast.Types.{
  Text, num, Expr, lit, field, neg, all_of, any_of, compare, calc, in_set, matches, call, Rule,
}
use pactum.Ast.Binary.Encode.Bytes.{height}
use pactum.Ast.Values.{
  Script, Value, missing, scalar, array, object, Items, end, item, Fields, empty, entry, size,
  own_field, read_field,
}
use pactum.Ast.Runtime.{truthy, equals}
use pactum.Ast.Compiler.Errors.{Step, AstPath, Compiles}
use pactum.Ast.Compiler.Words.{
  max_rules, max_nodes_per_rule, max_depth, max_message_len, assert_valid_field_path,
}
use pactum.Ast.Compiler.{items_of, EvalContext, CompiledExpr, compile_expr}
use pactum.Ast.Compiler.Rules.{
  enough_fuel, CompiledRule, message_of, id_of, compile_when, test_rule, compile_rule_fields,
  compile_rule, compile_rules, is_version_1, compile_rule_set,
}
use pactum.Ast.Compiler.Documents.{text_value, document, nodes, IsFieldPath, eval, IsAdmissible}
use pactum.Ast.Compiler.Meaning.{compile_expr-document}
use pactum.Ast.Compiler.Spelling.{Yields, bind, field_path_passes}

module _ {N : Type 0} where
  abbrev optional_text : Option Text → Value N
  optional_text none = missing
  optional_text (some t) = text_value t

  abbrev optional_document : Option (Expr N) → Value N
  optional_document none = missing
  optional_document (some e) = document e

  abbrev rule_fields : Rule N → Fields N
  rule_fields r = entry (codes "field") (text_value r.field_name) (
      entry (codes "message") (text_value r.message) (
        entry (codes "assert") (document r.check) (
          entry (codes "when") (optional_document r.guard)
            (entry (codes "id") (optional_text r.id) empty))))

  abbrev pub rule_items : List (Rule N) → Items N
  rule_items [] = end
  rule_items (r ∷ rs) = item (object (rule_fields r)) (rule_items rs)

  abbrev guard_nodes : Option (Expr N) → ℕ
  guard_nodes none = 0
  guard_nodes (some e) = nodes e

module _ (S : Script) where
  open S use {Num, of_nat, num_eq-of_nat}

  -- `{ version: 1, rules: […] }`
  abbrev pub rule_set_document : List (Rule Num) → Value Num
  rule_set_document rules = object (
      entry (codes "version") (scalar (num (of_nat 1)))
        (entry (codes "rules") (array (rule_items rules)) empty))

  abbrev IsAdmissibleGuard : Option (Expr Num) → Type 0
  IsAdmissibleGuard none = Unit {0}
  IsAdmissibleGuard (some e) = IsAdmissible S e × (height e ≤ max_depth)

  pub record IsAdmissibleRule (r : Rule Num) : Type 0 where
    pub path_valid : IsFieldPath r.field_name
    pub message_there : 0 < length r.message
    pub message_short : length r.message ≤ max_message_len
    pub check_valid : IsAdmissible S r.check
    pub check_shallow : height r.check ≤ max_depth
    pub guard_valid : IsAdmissibleGuard r.guard
    pub in_budget : nodes r.check + guard_nodes r.guard ≤ max_nodes_per_rule

  abbrev pub AreAdmissibleRules : List (Rule Num) → Type 0
  AreAdmissibleRules [] = Unit {0}
  AreAdmissibleRules (r ∷ rs) = IsAdmissibleRule r × AreAdmissibleRules rs

  -- A rule holds unless its guard does and its check does not.
  unfoldable pub holds : Expr Num → Option (Expr Num) → EvalContext S → Bool
  holds check none ctx = truthy S (eval S check ctx)
  holds check (some guard) ctx = not (truthy S (eval S guard ctx)) || truthy S (eval S check ctx)

  abbrev pub Implements : Rule Num → CompiledRule S → Type 0
  Implements r c =
      (c.target ≡ r.field_name)
      × (c.notice ≡ r.message)
      × (c.ident ≡ r.id)
      × ((ctx : EvalContext S) → c.test ctx ≡ holds r.check r.guard ctx)

  abbrev pub ImplementsAll : List (Rule Num) → List (CompiledRule S) → Type 0
  ImplementsAll [] [] = Unit {0}
  ImplementsAll (r ∷ rs) (c ∷ cs) = Implements r c × ImplementsAll rs cs
  ImplementsAll _ _ = ⊥

  abbrev pub Returns : {A : Type 0} → (A → Type 0) → Compiles A → Type 0
  Returns Q (ok a) = Q a
  Returns Q (err e) = ⊥

  chain :
      {A B : Type 0} (Q : A → Type 0) (Q' : B → Type 0) (m : Compiles A) (f : A → Compiles B)
      → Returns Q m
      → ((a : A) → Q a → Returns Q' (f a))
      → Returns Q' (m >>= f)
  chain Q Q' (ok a) f h k = k a h
  chain Q Q' (err e) f h k = absurd h

  after :
      {A B : Type 0} (Q : A → ℕ → Type 0) (Q' : B → Type 0) (m : Compiles (A × ℕ))
      (f : A × ℕ → Compiles B)
      → Yields Q m
      → ((a : A) (n : ℕ) → Q a n → Returns Q' (f (a, n)))
      → Returns Q' (m >>= f)
  after Q Q' (ok (a, n)) f h k = k a n h
  after Q Q' (err e) f h k = absurd h

  message_passes :
      (t : Text) (path : AstPath)
      → 0 < length t
      → length t ≤ max_message_len
      → message_of S (text_value t) path ≡ ok t
  unfolding message_of
  message_passes t path h k = ground arith

  id_passes : (id : Option Text) (path : AstPath) → id_of S (optional_text id) path ≡ ok id
  unfolding id_of
  id_passes none path = refl
  id_passes (some t) path = refl

  abbrev MeantGuard : Option (Expr Num) → Option (CompiledExpr S) → ℕ → Type 0
  MeantGuard none none m = Unit {0}
  MeantGuard (some e) (some f) m = (ctx : EvalContext S) → f ctx ≡ eval S e ctx
  MeantGuard _ _ m = ⊥

  document_object : (e : Expr Num) → (fs : Fields Num) × (document e ≡ object fs)
  unfolding document
  document_object (lit v) = (_, refl)
  document_object (field name) = (_, refl)
  document_object (neg e) = (_, refl)
  document_object (all_of es) = (_, refl)
  document_object (any_of es) = (_, refl)
  document_object (compare op l r) = (_, refl)
  document_object (calc op l r) = (_, refl)
  document_object (in_set v es) = (_, refl)
  document_object (matches v pattern flags) = (_, refl)
  document_object (call fn es) = (_, refl)

  when_passes :
      (guard : Option (Expr Num)) (path : AstPath) (n : ℕ)
      → IsAdmissibleGuard guard
      → n + guard_nodes guard ≤ max_nodes_per_rule
      → Yields (MeantGuard guard) (compile_when S (optional_document guard) path n)
  unfolding compile_when
  when_passes none path n a b = tt
  when_passes (some e) path n a b =
      let (fs, shape) = document_object e in
      rw shape (
        bind (λ f m. (m ≡ n + nodes e) × ((ctx : EvalContext S) → f ctx ≡ eval S e ctx))
          (MeantGuard (some e)) (compile_expr S (enough_fuel S) 0 (object fs) path n) _
          (rw (← shape) (compile_expr-document S e path n a.0 a.1 b)) (λ f m p. p.1))

  tests :
      (check : Expr Num) (guard : Option (Expr Num)) (f : CompiledExpr S)
      (g : Option (CompiledExpr S)) (m : ℕ) (ctx : EvalContext S)
      → f ctx ≡ eval S check ctx
      → MeantGuard guard g m
      → test_rule S f g ctx ≡ holds check guard ctx
  unfolding test_rule holds
  tests check none f none m ctx p q = ap (truthy S) p
  tests check none f (some g) m ctx p q = absurd q
  tests check (some e) f none m ctx p q = absurd q
  tests check (some e) f (some g) m ctx p q = cc (p, q ctx)

  rule_passes :
      (r : Rule Num) (path : AstPath)
      → IsAdmissibleRule r
      → Returns (Implements r) (compile_rule S (object (rule_fields r)) path)
  unfolding compile_rule compile_rule_fields read_field own_field assert_valid_field_path
  rule_passes r path a = rw (field_path_passes r.field_name (Step.field ∷ path) a.path_valid) (
      rw (message_passes r.message (Step.message ∷ path) a.message_there a.message_short) (
        rw (id_passes r.id (Step.id ∷ path)) (
          after _ (Implements r)
            (compile_expr S (enough_fuel S) 0 (document r.check) (Step.assert ∷ path) 0) _
            (compile_expr-document S r.check (Step.assert ∷ path) 0 a.check_valid a.check_shallow
              (omega (arith, a.in_budget)))
            λ f n p.
              after _ (Implements r)
                (compile_when S (optional_document r.guard) (Step.when ∷ path) n) _
                (when_passes r.guard (Step.when ∷ path) n a.guard_valid
                  (omega (arith, a.in_budget)))
                λ g m q. (refl, refl, refl, λ ctx. tests r.check r.guard f g m ctx (p.1 ctx) q))))

  rules_pass :
      (rs : List (Rule Num)) (i : ℕ)
      → AreAdmissibleRules rs
      → Returns (ImplementsAll rs) (compile_rules S (rule_items rs) i)
  unfolding compile_rules
  rules_pass [] i a = tt
  rules_pass (r ∷ rs) i a =
      chain (Implements r) (ImplementsAll (r ∷ rs)) (compile_rule S (object (rule_fields r)) _) _
        (rule_passes r _ a.0)
        λ c p.
          chain (ImplementsAll rs) (ImplementsAll (r ∷ rs))
            (compile_rules S (rule_items rs) (i + 1)) _ (rules_pass rs (i + 1) a.1) λ cs q. (p, q)

  size-rule_items : (rs : List (Rule Num)) → size (rule_items rs) ≡ length rs
  size-rule_items [] = refl
  size-rule_items (r ∷ rs) = ap suc (size-rule_items rs)

  -- A rule set of at most 200 rules, each within the language and the limits, is compiled from its
  -- document, and each compiled rule has the field, message and id of its rule and passes in a
  -- context exactly when the rule holds there.
  pub compile_rule_set-document :
      (rs : List (Rule Num))
      → AreAdmissibleRules rs
      → length rs ≤ max_rules
      → Returns (ImplementsAll rs) (compile_rule_set S (rule_set_document rs))
  unfolding compile_rule_set read_field is_version_1 equals items_of
  compile_rule_set-document rs a h =
      rw (num_eq-of_nat 1) (elim (Bool-cases (ltb max_rules (size (rule_items rs)))) [
        | inl many ↦ absurd (ground (arith, size-rule_items rs))
        | inr few ↦ rw few (rules_pass rs 0 a)
      ])
