-- ===== src/Ast/Binary/Encode.antt =====
-- The serializers of binary.ts.
pub mod Bytes
pub mod Writes
pub mod RuleSets
use pactum.Prelude.{
  ℕ, suc, ◌+◌, List, [], ◌∷◌, if◌then◌else◌, ltb, length, replicate, Option, none, some,
}
use pactum.Prelude.Results.{Result, ok, err, ◌>>=◌}
use pactum.Ast.Types.{
  RuntimeValue, null, bool, num, str, Expr, Exprs, lit, field, neg, all_of, any_of, compare, calc,
  in_set, matches, call, nil, cons, Rule, RuleSet,
}
use pactum.Ast.Binary.Platform.{Platform}
use pactum.Ast.Binary.Tags.{compare_op_to_tag, arith_op_to_tag, fn_name_to_tag}
use pactum.Ast.Binary.Reader.{CodecError, too_deep}
use pactum.Ast.Binary.Writer.{
  BinaryWriter, write_u8, write_u32, write_bytes, write_f64, write_string, write_opt_string,
  to_bytes,
}

abbrev pub Write : Type 0
Write = Result CodecError BinaryWriter

abbrev pub max_expr_depth : ℕ
max_expr_depth = 64

-- "PAST"
abbrev pub magic_header : List ℕ
magic_header = 0x50 ∷ 0x41 ∷ 0x53 ∷ 0x54 ∷ []

-- `new BinaryWriter()` with its default capacity, which is positive.
unfoldable pub fresh_writer : BinaryWriter
fresh_writer = record { buffer = replicate 1024 0; offset = 0 }

-- `operands.length`
unfoldable pub size : {N : Type 0} → Exprs N → ℕ
size nil = 0
size (cons e es) = suc (size es)

-- The guard on `depth` with which `serializeExpr` and `deserializeExpr` begin.
abbrev pub guard_depth {ℓ} : {A : Type ℓ} → ℕ → Result CodecError A → Result CodecError A
guard_depth depth body = if ltb max_expr_depth depth then err too_deep else body

module _ (P : Platform) where
  open P use {Num}

  unfoldable pub serialize_value : RuntimeValue Num → BinaryWriter → BinaryWriter
  serialize_value null w = write_u8 w 0
  serialize_value (bool b) w = write_u8 w (if b then 2 else 1)
  serialize_value (num x) w = write_f64 P (write_u8 w 3) x
  serialize_value (str s) w = write_string P (write_u8 w 4) s

  unfoldable mutual
    unfolding size

    pub serialize_expr : Expr Num → BinaryWriter → ℕ → Write
    serialize_expr (lit value) w depth =
        guard_depth depth (ok (serialize_value value (write_u8 w 1)))
    serialize_expr (field name) w depth =
        guard_depth depth (ok (write_string P (write_u8 w 2) name))
    serialize_expr (neg operand) w depth =
        guard_depth depth (serialize_expr operand (write_u8 w 3) (depth + 1))
    serialize_expr (all_of operands) w depth =
        guard_depth depth
          (serialize_exprs operands (write_u32 (write_u8 w 4) (size operands)) (depth + 1))
    serialize_expr (any_of operands) w depth =
        guard_depth depth
          (serialize_exprs operands (write_u32 (write_u8 w 5) (size operands)) (depth + 1))
    serialize_expr (compare op left right) w depth = guard_depth depth do
      w1 ← serialize_expr left (write_u8 (write_u8 w 6) (compare_op_to_tag op)) (depth + 1)
      serialize_expr right w1 (depth + 1)
    serialize_expr (calc op left right) w depth = guard_depth depth do
      w1 ← serialize_expr left (write_u8 (write_u8 w 7) (arith_op_to_tag op)) (depth + 1)
      serialize_expr right w1 (depth + 1)
    serialize_expr (in_set value set) w depth = guard_depth depth do
      w1 ← serialize_expr value (write_u8 w 8) (depth + 1)
      serialize_exprs set (write_u32 w1 (size set)) (depth + 1)
    serialize_expr (matches value pattern flags) w depth = guard_depth depth do
      w1 ← serialize_expr value (write_u8 w 9) (depth + 1)
      ok (write_opt_string P (write_string P w1 pattern) flags)
    serialize_expr (call fn args) w depth = guard_depth depth (
        serialize_exprs args (write_u32 (write_u8 (write_u8 w 10) (fn_name_to_tag fn)) (size args))
          (depth + 1))

    pub serialize_exprs : Exprs Num → BinaryWriter → ℕ → Write
    serialize_exprs nil w depth = ok w
    serialize_exprs (cons e es) w depth = do
      w1 ← serialize_expr e w depth
      serialize_exprs es w1 depth

  -- `if (rule.when) … else writeU8(0)`
  unfoldable pub serialize_when : Option (Expr Num) → BinaryWriter → Write
  serialize_when none w = ok (write_u8 w 0)
  serialize_when (some e) w = serialize_expr e (write_u8 w 1) 0

  unfoldable pub serialize_rule : Rule Num → BinaryWriter → Write
  serialize_rule rule w = do
    let w1 = write_string P w rule.field_name
    let w2 = write_string P w1 rule.message
    let w3 = write_opt_string P w2 rule.id
    w4 ← serialize_expr rule.check w3 0
    serialize_when rule.guard w4

  unfoldable pub serialize_rules : List (Rule Num) → BinaryWriter → Write
  serialize_rules [] w = ok w
  serialize_rules (rule ∷ rules) w = do w1 ← serialize_rule rule w; serialize_rules rules w1

  unfoldable pub serialize_rule_set : RuleSet Num → Result CodecError (List ℕ)
  serialize_rule_set rule_set = do
    let w1 = write_bytes fresh_writer magic_header
    let w2 = write_u32 w1 rule_set.version
    let w3 = write_u32 w2 (length rule_set.rules)
    w4 ← serialize_rules rule_set.rules w3
    ok (to_bytes w4)
