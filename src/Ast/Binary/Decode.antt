-- ===== src/Ast/Binary/Decode.antt =====
-- The deserializers of binary.ts. The recursion of `deserializeExpr` runs on fuel; the guard on
-- `depth` stops it before the fuel does.
pub mod Nodes
pub mod RoundTrip
pub mod RuleSets
pub mod Total
pub mod Reads
use pactum.Prelude.{
  ℕ, zero, suc, ◌+◌, List, [], ◌∷◌, Bool, true, false, ◌&&◌, if◌then◌else◌, ltb, ◌==◌, get_or,
  Option, none, some,
}
use pactum.Prelude.Results.{Result, ok, err, ◌>>=◌}
use pactum.Ast.Types.{
  RuntimeValue, null, bool, num, str, Expr, Exprs, lit, field, neg, all_of, any_of, compare, calc,
  in_set, matches, call, nil, cons, Rule, RuleSet,
}
use pactum.Ast.Binary.Platform.{Platform}
use pactum.Ast.Binary.Tags.{tag_to_compare_op, tag_to_arith_op, tag_to_fn_name}
use pactum.Ast.Binary.Reader.{
  CodecError, invalid_value_tag, unknown_compare_op, unknown_arith_op, unknown_fn, unknown_expr_tag,
  invalid_magic, unsupported_version, out_of_fuel, BinaryReader, Read, new_reader, read_u8,
  read_u32, read_bytes, read_f64, read_string, read_opt_string,
}
use pactum.Ast.Binary.Encode.{magic_header, max_expr_depth, guard_depth}

-- `if (!op) throw …`
abbrev pub known {ℓ} : {A : Type ℓ} → Option A → CodecError → Result CodecError A
known none e = err e
known (some a) e = ok a

-- Depths 0 to 64 are read and 65 is refused.
abbrev pub enough_fuel : ℕ
enough_fuel = 66

unfoldable pub has_magic : List ℕ → Bool
has_magic magic =
    get_or magic 0 0 == 0x50
    && (get_or magic 1 0 == 0x41 && (get_or magic 2 0 == 0x53 && get_or magic 3 0 == 0x54))

module _ (P : Platform) where
  open P use {Num}

  -- The `switch` of `deserializeRuntimeValue`.
  unfoldable pub read_value : ℕ → BinaryReader → Read (RuntimeValue Num)
  read_value tag r =
      if tag == 0
      then ok (null, r)
      else if tag == 1
      then ok (bool false, r)
      else if tag == 2
      then ok (bool true, r)
      else if tag == 3
      then (do (x, r1) ← read_f64 P r; ok (num x, r1))
      else if tag == 4
      then (do (s, r1) ← read_string P r; ok (str s, r1))
      else err invalid_value_tag

  unfoldable pub deserialize_value : BinaryReader → Read (RuntimeValue Num)
  deserialize_value r = do (tag, r1) ← read_u8 r; read_value tag r1

  abbrev pub ReadExpr : Type 0
  ReadExpr = BinaryReader → Read (Expr Num)

  -- `for (let i = 0; i < count; i++) operands.push(deserializeExpr(reader, depth + 1))`
  unfoldable pub read_operands : ReadExpr → ℕ → BinaryReader → Read (Exprs Num)
  read_operands child zero r = ok (nil, r)
  read_operands child (suc count) r = do
    (e, r1) ← child r
    (es, r2) ← read_operands child count r1
    ok (cons e es, r2)

  unfoldable pub read_counted : ReadExpr → BinaryReader → Read (Exprs Num)
  read_counted child r = do (count, r1) ← read_u32 r; read_operands child count r1

  unfoldable pub read_compare : ReadExpr → BinaryReader → Read (Expr Num)
  read_compare child r = do
    (op_tag, r1) ← read_u8 r
    op ← known (tag_to_compare_op op_tag) unknown_compare_op
    (left, r2) ← child r1
    (right, r3) ← child r2
    ok (compare op left right, r3)

  unfoldable pub read_calc : ReadExpr → BinaryReader → Read (Expr Num)
  read_calc child r = do
    (op_tag, r1) ← read_u8 r
    op ← known (tag_to_arith_op op_tag) unknown_arith_op
    (left, r2) ← child r1
    (right, r3) ← child r2
    ok (calc op left right, r3)

  unfoldable pub read_in_set : ReadExpr → BinaryReader → Read (Expr Num)
  read_in_set child r = do
    (value, r1) ← child r
    (set, r2) ← read_counted child r1
    ok (in_set value set, r2)

  unfoldable pub read_matches : ReadExpr → BinaryReader → Read (Expr Num)
  read_matches child r = do
    (value, r1) ← child r
    (pattern, r2) ← read_string P r1
    (flags, r3) ← read_opt_string P r2
    ok (matches value pattern flags, r3)

  unfoldable pub read_call : ReadExpr → BinaryReader → Read (Expr Num)
  read_call child r = do
    (fn_tag, r1) ← read_u8 r
    fn ← known (tag_to_fn_name fn_tag) unknown_fn
    (args, r2) ← read_counted child r1
    ok (call fn args, r2)

  -- The `switch` of `deserializeExpr`, `child` its recursive call.
  unfoldable pub read_node : ReadExpr → ℕ → BinaryReader → Read (Expr Num)
  read_node child tag r =
      if tag == 1
      then (do (v, r1) ← deserialize_value r; ok (lit v, r1))
      else if tag == 2
      then (do (s, r1) ← read_string P r; ok (field s, r1))
      else if tag == 3
      then (do (e, r1) ← child r; ok (neg e, r1))
      else if tag == 4
      then (do (es, r1) ← read_counted child r; ok (all_of es, r1))
      else if tag == 5
      then (do (es, r1) ← read_counted child r; ok (any_of es, r1))
      else if tag == 6
      then read_compare child r
      else if tag == 7
      then read_calc child r
      else if tag == 8
      then read_in_set child r
      else if tag == 9
      then read_matches child r
      else if tag == 10
      then read_call child r
      else err unknown_expr_tag

  unfoldable pub deserialize_expr : ℕ → BinaryReader → ℕ → Read (Expr Num)
  deserialize_expr zero r depth = err out_of_fuel
  deserialize_expr (suc fuel) r depth =
      guard_depth depth
        do (tag, r1) ← read_u8 r; read_node (λ r2. deserialize_expr fuel r2 (depth + 1)) tag r1

  unfoldable pub deserialize_when : BinaryReader → Read (Option (Expr Num))
  deserialize_when r = do
    (has_when, r1) ← read_u8 r
    if has_when == 0
        then ok (none, r1)
        else (do (e, r2) ← deserialize_expr enough_fuel r1 0; ok (some e, r2))

  unfoldable pub deserialize_rule : BinaryReader → Read (Rule Num)
  deserialize_rule r = do
    (name, r1) ← read_string P r
    (message, r2) ← read_string P r1
    (id, r3) ← read_opt_string P r2
    (check, r4) ← deserialize_expr enough_fuel r3 0
    (guard, r5) ← deserialize_when r4
    ok (record { field_name = name; message = message; check = check; guard = guard; id = id }, r5)

  unfoldable pub deserialize_rules : ℕ → BinaryReader → Read (List (Rule Num))
  deserialize_rules zero r = ok ([], r)
  deserialize_rules (suc count) r = do
    (rule, r1) ← deserialize_rule r
    (rules, r2) ← deserialize_rules count r1
    ok (rule ∷ rules, r2)

  deserialize_counted : BinaryReader → Result CodecError (RuleSet Num)
  deserialize_counted r = do
    (count, r1) ← read_u32 r
    (rules, r2) ← deserialize_rules count r1
    ok (record { version = 1; rules = rules })

  deserialize_versioned : BinaryReader → Result CodecError (RuleSet Num)
  unfolding deserialize_counted
  deserialize_versioned r = do
    (version, r1) ← read_u32 r
    if version == 1 then deserialize_counted r1 else err unsupported_version

  unfoldable pub deserialize_rule_set : List ℕ → Result CodecError (RuleSet Num)
  unfolding deserialize_versioned
  deserialize_rule_set bytes = do
    (magic, r1) ← read_bytes (new_reader bytes) 4
    if has_magic magic then deserialize_versioned r1 else err invalid_magic
