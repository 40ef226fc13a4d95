-- ===== src/Ast/Compiler.antt =====
-- frontend/src/lib/ast/compiler.ts: an untrusted expression is checked and turned into a closure. The
-- recursion of `compileExpr` runs on fuel; the guard on `depth` stops it before the fuel does.
pub mod Errors
pub mod Words
pub mod Rules
pub mod Limits
pub mod Checks
pub mod Documents
pub mod Meaning
pub mod Operands
pub mod Spelling
pub mod RuleSets
use pactum.Prelude.{
  ℕ, zero, suc, ◌+◌, Bool, true, false, not, ◌&&◌, ◌||◌, List, [], ◌∷◌, Option, none, some,
  if◌then◌else◌, ◌==◌, ltb, length, codes,
}
use pactum.Prelude.Results.{ok, err, ◌>>=◌}
use pactum.Ast.Types.{Text, RuntimeValue, null, bool, num, str, FnName, now}
use pactum.Ast.Values.{
  Script, Value, missing, scalar, array, object, Items, end, item, Fields, size, own_field,
  read_field, split, own_property,
}
use pactum.Ast.Runtime.{
  stringify, truthy, equals, apply_compare, apply_arith, apply_fn, normalize_field_value,
}
use pactum.Ast.Regex.{assert_safe_regex_pattern}
use pactum.Ast.Compiler.Errors.{
  operands_not_array, too_many_operands, too_many_nodes, too_deep, not_an_object, kind_missing,
  kind_unknown, literal_invalid, literal_not_finite, literal_too_long, compare_unknown,
  arith_unknown, pattern_not_string, pattern_too_long, flags_invalid, regex_invalid, fn_unknown,
  args_not_array, wrong_arity, rule_not_object, message_invalid, message_too_long, id_not_string,
  assert_missing, rule_set_not_object, version_unsupported, rules_not_array, too_many_rules,
  out_of_fuel, Message, Step, AstPath, Compiles, fail, refuse_if,
}
use pactum.Ast.Compiler.Words.{
  max_rules, max_nodes_per_rule, max_depth, max_operands, max_string_literal_len, max_message_len,
  max_regex_len, max_match_input_len, Kind, not_, and, or, arith_, in_, match_, kind_of,
  compare_op_of, arith_op_of, fn_of, fn_arity, assert_valid_field_path,
}

-- `if (!found) throw …`
abbrev pub known {ℓ} : {A : Type ℓ} → Option A → Message → AstPath → Compiles A
known none what place = fail what place
known (some a) what place = ok a

-- The word that a value names, if it is a string.
unfoldable pub word : {N A : Type 0} → (Text → Option A) → Value N → Option A
word look (scalar (str t)) = look t
word look _ = none

-- /^[imsu]*$/
unfoldable pub flags_allowed : Text → Bool
flags_allowed [] = true
flags_allowed (c ∷ cs) = (c == b'i' || (c == b'm' || (c == b's' || c == b'u'))) && flags_allowed cs

unfoldable pub flags_of : {N : Type 0} → Value N → AstPath → Compiles Text
flags_of missing path = ok []
flags_of (scalar (str flags)) path =
    refuse_if (not (flags_allowed flags)) flags_invalid path (ok flags)
flags_of _ path = fail flags_invalid path

unfoldable pub pattern_of : {N : Type 0} → Value N → AstPath → Compiles Text
pattern_of (scalar (str pattern)) path =
    refuse_if (ltb max_regex_len (length pattern)) pattern_too_long path (ok pattern)
pattern_of _ path = fail pattern_not_string path

unfoldable pub items_of : {N : Type 0} → Value N → Message → AstPath → Compiles (Items N)
items_of (array items) what path = ok items
items_of _ what path = fail what path

module _ (S : Script) where
  open S use {Num, is_finite, regexp}

  pub record EvalContext : Type 0 where
    pub values : Value Num
    pub time : Num

  abbrev pub CompiledExpr : Type 0
  CompiledExpr = EvalContext → RuntimeValue Num

  -- A compiled expression, and the budget's `nodes` after it.
  abbrev pub Compiled : Type 0
  Compiled = Compiles (CompiledExpr × ℕ)

  -- `compileExpr` one level down.
  abbrev pub Child : Type 0
  Child = Value Num → AstPath → ℕ → Compiled

  -- The loop of `compileField`'s closure.
  unfoldable pub read_path : List Text → Value Num → RuntimeValue Num
  read_path [] current = normalize_field_value S current
  read_path (segment ∷ segments) current = elim (own_property S current segment) [
    | none ↦ null
    | some inner ↦ read_path segments inner
  ]

  unfoldable pub compile_field : Value Num → AstPath → Compiles CompiledExpr
  compile_field name path = do
    text ← assert_valid_field_path name path
    ok (λ ctx. read_path (split b'.' text) ctx.values)

  unfoldable pub literal_of : Value Num → AstPath → Compiles (RuntimeValue Num)
  literal_of (scalar (num n)) path =
      refuse_if (not (is_finite n)) literal_not_finite path (ok (num n))
  literal_of (scalar (str s)) path =
      refuse_if (ltb max_string_literal_len (length s)) literal_too_long path (ok (str s))
  literal_of (scalar v) path = ok v
  literal_of _ path = fail literal_invalid path

  -- `nodes.map((node, i) => compileExpr(node, `${path}[${i}]`, depth, budget))`
  unfoldable pub compile_items :
      Child → Items Num → AstPath → ℕ → ℕ → Compiles (List CompiledExpr × ℕ)
  compile_items child end path i nodes = ok ([], nodes)
  compile_items child (item v vs) path i nodes = do
    (f, nodes1) ← child v (Step.index i ∷ path) nodes
    (fs, nodes2) ← compile_items child vs path (i + 1) nodes1
    ok (f ∷ fs, nodes2)

  unfoldable pub compile_operand_list :
      Child → Value Num → AstPath → ℕ → Compiles (List CompiledExpr × ℕ)
  compile_operand_list child operands path nodes = do
    items ← items_of operands operands_not_array path
    refuse_if (ltb max_operands (size items)) too_many_operands path
        (compile_items child items path 0 nodes)

  -- The loops of the closures of `and`, `or` and `in`.
  unfoldable pub all_hold : List CompiledExpr → EvalContext → Bool
  all_hold [] ctx = true
  all_hold (f ∷ fs) ctx = if not (truthy S (f ctx)) then false else all_hold fs ctx

  unfoldable pub any_holds : List CompiledExpr → EvalContext → Bool
  any_holds [] ctx = false
  any_holds (f ∷ fs) ctx = if truthy S (f ctx) then true else any_holds fs ctx

  unfoldable pub any_equals : RuntimeValue Num → List CompiledExpr → EvalContext → Bool
  any_equals v [] ctx = false
  any_equals v (f ∷ fs) ctx = if equals S v (f ctx) then true else any_equals v fs ctx

  -- The closure of `match`.
  unfoldable pub test_regex : (Text → Bool) → RuntimeValue Num → Bool
  test_regex test v =
      let s = stringify S v in if ltb max_match_input_len (length s) then false else test s

  unfoldable pub compile_match : Child → Fields Num → AstPath → ℕ → Compiled
  compile_match child node path nodes = do
    pattern ← pattern_of (read_field node (codes "pattern")) (Step.pattern ∷ path)
    flags ← flags_of (read_field node (codes "flags")) (Step.flags ∷ path)
    test ← known (regexp pattern flags) regex_invalid (Step.pattern ∷ path)
    checked ← assert_safe_regex_pattern pattern (Step.pattern ∷ path)
    (value, nodes1) ← child (read_field node (codes "value")) (Step.value ∷ path) nodes
    ok (λ ctx. bool (test_regex test (value ctx)), nodes1)

  -- `args[0]`
  unfoldable pub first_item : Items Num → Value Num
  first_item end = missing
  first_item (item v vs) = v

  -- `now` is compiled without its arguments; the arity has been checked.
  unfoldable pub compile_args : Child → FnName → Items Num → AstPath → ℕ → Compiled
  compile_args child now args path nodes = ok (λ ctx. num ctx.time, nodes)
  compile_args child fn args path nodes = do
    (f, nodes1) ← child (first_item args) (Step.index 0 ∷ path) nodes
    ok (λ ctx. apply_fn S fn (f ctx), nodes1)

  unfoldable pub compile_call : Child → Fields Num → AstPath → ℕ → Compiled
  compile_call child node path nodes = do
    fn ← known (word fn_of (read_field node (codes "fn"))) fn_unknown (Step.fn ∷ path)
    args ← items_of (read_field node (codes "args")) args_not_array (Step.args ∷ path)
    refuse_if (not (size args == fn_arity fn)) wrong_arity (Step.args ∷ path)
        (compile_args child fn args (Step.args ∷ path) nodes)

  -- The two operands of a comparison or a calculation.
  unfoldable pub compile_sides :
      Child → Fields Num → AstPath → ℕ → Compiles ((CompiledExpr × CompiledExpr) × ℕ)
  compile_sides child node path nodes = do
    (left, nodes1) ← child (read_field node (codes "left")) (Step.left ∷ path) nodes
    (right, nodes2) ← child (read_field node (codes "right")) (Step.right ∷ path) nodes1
    ok ((left, right), nodes2)

  -- The `switch` of `compileExpr`.
  unfoldable pub compile_kind : Child → Kind → Fields Num → AstPath → ℕ → Compiled
  compile_kind child Kind.lit node path nodes = do
    literal ← literal_of (read_field node (codes "value")) path
    ok (λ ctx. literal, nodes)
  compile_kind child Kind.field node path nodes = do
    f ← compile_field (read_field node (codes "name")) (Step.name ∷ path)
    ok (f, nodes)
  compile_kind child not_ node path nodes = do
    (f, nodes1) ← child (read_field node (codes "operand")) (Step.operand ∷ path) nodes
    ok (λ ctx. bool (not (truthy S (f ctx))), nodes1)
  compile_kind child and node path nodes = do
    (fs, nodes1) ←
        compile_operand_list child (read_field node (codes "operands")) (Step.operands ∷ path) nodes
    ok (λ ctx. bool (all_hold fs ctx), nodes1)
  compile_kind child or node path nodes = do
    (fs, nodes1) ←
        compile_operand_list child (read_field node (codes "operands")) (Step.operands ∷ path) nodes
    ok (λ ctx. bool (any_holds fs ctx), nodes1)
  compile_kind child Kind.compare node path nodes = do
    op ← known (word compare_op_of (read_field node (codes "op"))) compare_unknown (Step.op ∷ path)
    ((left, right), nodes1) ← compile_sides child node path nodes
    ok (λ ctx. bool (apply_compare S op (left ctx) (right ctx)), nodes1)
  compile_kind child arith_ node path nodes = do
    op ← known (word arith_op_of (read_field node (codes "op"))) arith_unknown (Step.op ∷ path)
    ((left, right), nodes1) ← compile_sides child node path nodes
    ok (λ ctx. apply_arith S op (left ctx) (right ctx), nodes1)
  compile_kind child in_ node path nodes = do
    (value, nodes1) ← child (read_field node (codes "value")) (Step.value ∷ path) nodes
    (set, nodes2) ←
        compile_operand_list child (read_field node (codes "set")) (Step.set ∷ path) nodes1
    ok (λ ctx. bool (any_equals (value ctx) set ctx), nodes2)
  compile_kind child match_ node path nodes = compile_match child node path nodes
  compile_kind child Kind.call node path nodes = compile_call child node path nodes

  unfoldable pub compile_named : Child → Value Num → Fields Num → AstPath → ℕ → Compiled
  compile_named child (scalar (str kind)) node path nodes = do
    k ← known (kind_of kind) kind_unknown path
    compile_kind child k node path nodes
  compile_named child _ node path nodes = fail kind_missing path

  unfoldable pub compile_object : Child → Value Num → AstPath → ℕ → Compiled
  compile_object child (object node) path nodes =
      compile_named child (read_field node (codes "kind")) node path nodes
  compile_object child _ path nodes = fail not_an_object path

  unfoldable pub compile_expr : ℕ → ℕ → Child
  compile_expr zero depth node path nodes = fail out_of_fuel path
  compile_expr (suc fuel) depth node path nodes =
      refuse_if (ltb max_nodes_per_rule (nodes + 1)) too_many_nodes path (
        refuse_if (ltb max_depth depth) too_deep path
          (compile_object (λ v p n. compile_expr fuel (depth + 1) v p n) node path (nodes + 1)))
