-- ===== src/Ast/Compiler/Rules.antt =====
-- frontend/src/lib/ast/compiler.ts: rules and rule sets.
use pactum.Prelude.{
  ℕ, ◌+◌, Bool, false, not, ◌||◌, List, [], ◌∷◌, Option, none, some, ◌==◌, ltb, length, codes,
}
use pactum.Prelude.Results.{ok, ◌>>=◌}
use pactum.Ast.Types.{Text, num, str}
use pactum.Ast.Values.{
  Script, Value, missing, scalar, object, Items, end, item, Fields, size, own_field, read_field,
}
use pactum.Ast.Runtime.{truthy, equals}
use pactum.Ast.Compiler.Errors.{
  rule_not_object, message_invalid, message_too_long, id_not_string, assert_missing,
  rule_set_not_object, version_unsupported, rules_not_array, too_many_rules, Step, AstPath,
  Compiles, fail, refuse_if,
}
use pactum.Ast.Compiler.Words.{max_rules, max_message_len, assert_valid_field_path}
use pactum.Ast.Compiler.{known, items_of, EvalContext, CompiledExpr, compile_expr}

module _ (S : Script) where
  open S use {Num}

  pub record CompiledRule : Type 0 where
    pub target : Text
    pub notice : Text
    pub ident : Option Text
    pub test : EvalContext S → Bool

  -- Depths 0 to 64 are compiled and 65 is refused.
  abbrev pub enough_fuel : ℕ
  enough_fuel = 66

  unfoldable pub message_of : Value Num → AstPath → Compiles Text
  message_of (scalar (str message)) path =
      refuse_if (length message == 0) message_invalid path
        (refuse_if (ltb max_message_len (length message)) message_too_long path (ok message))
  message_of _ path = fail message_invalid path

  unfoldable pub id_of : Value Num → AstPath → Compiles (Option Text)
  id_of missing path = ok none
  id_of (scalar (str id)) path = ok (some id)
  id_of _ path = fail id_not_string path

  -- `rule.when === undefined ? null : compileExpr(…)`
  unfoldable pub compile_when : Value Num → AstPath → ℕ → Compiles (Option (CompiledExpr S) × ℕ)
  compile_when missing path nodes = ok (none, nodes)
  compile_when guard path nodes = do
    (f, nodes1) ← compile_expr S enough_fuel 0 guard path nodes
    ok (some f, nodes1)

  unfoldable pub test_rule : CompiledExpr S → Option (CompiledExpr S) → EvalContext S → Bool
  test_rule assert none ctx = truthy S (assert ctx)
  test_rule assert (some when) ctx = not (truthy S (when ctx)) || truthy S (assert ctx)

  unfoldable pub compile_rule_fields : Fields Num → AstPath → Compiles CompiledRule
  compile_rule_fields rule path = do
    field ← assert_valid_field_path (read_field rule (codes "field")) (Step.field ∷ path)
    message ← message_of (read_field rule (codes "message")) (Step.message ∷ path)
    id ← id_of (read_field rule (codes "id")) (Step.id ∷ path)
    check ← known (own_field rule (codes "assert")) assert_missing path
    (assert, nodes) ← compile_expr S enough_fuel 0 check (Step.assert ∷ path) 0
    (when, nodes1) ← compile_when (read_field rule (codes "when")) (Step.when ∷ path) nodes
    ok (record { target = field; notice = message; ident = id; test = test_rule assert when })

  unfoldable pub compile_rule : Value Num → AstPath → Compiles CompiledRule
  compile_rule (object rule) path = compile_rule_fields rule path
  compile_rule _ path = fail rule_not_object path

  unfoldable pub compile_rules : Items Num → ℕ → Compiles (List CompiledRule)
  compile_rules end i = ok []
  compile_rules (item rule rules) i = do
    first ← compile_rule rule (Step.index i ∷ Step.rules ∷ [])
    rest ← compile_rules rules (i + 1)
    ok (first ∷ rest)

  -- `input.version !== 1`
  unfoldable pub is_version_1 : Value Num → Bool
  is_version_1 (scalar v) = equals S v (num (S.of_nat 1))
  is_version_1 _ = false

  unfoldable pub compile_rule_set : Value Num → Compiles (List CompiledRule)
  compile_rule_set (object input) =
      refuse_if (not (is_version_1 (read_field input (codes "version")))) version_unsupported
        (Step.version ∷ [])
        (do
          rules ← items_of (read_field input (codes "rules")) rules_not_array (Step.rules ∷ [])
          refuse_if (ltb max_rules (size rules)) too_many_rules (Step.rules ∷ [])
              (compile_rules rules 0))
  compile_rule_set _ = fail rule_set_not_object []
