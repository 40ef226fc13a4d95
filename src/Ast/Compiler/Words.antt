-- ===== src/Ast/Compiler/Words.antt =====
-- frontend/src/lib/ast/compiler.ts: the limits, the words of the language (node kinds, operators,
-- functions) and the field paths.
use pactum.Prelude.{
  ℕ, Bool, true, not, ◌&&◌, ◌||◌, List, [], ◌∷◌, Option, none, some, if◌then◌else◌, ◌==◌, ltb, leb,
  length, text_eq, codes,
}
use pactum.Prelude.Results.{ok, ◌>>=◌}
use pactum.Ast.Types.{
  Text, str, CompareOp, eq, ne, gt, ge, lt, le, ArithOp, add, sub, mul, div, rem, FnName, now,
  to_number, to_date, len, lower, upper, trim, is_blank, abs, days, hours,
}
use pactum.Ast.Values.{Value, scalar, split}
use pactum.Ast.Compiler.Errors.{
  path_empty, path_too_long, segment_empty, segment_reserved, segment_invalid, AstPath, Compiles,
  fail, refuse_if,
}

-- `LIMITS`
abbrev pub max_rules : ℕ
max_rules = 200

abbrev pub max_nodes_per_rule : ℕ
max_nodes_per_rule = 500

abbrev pub max_depth : ℕ
max_depth = 64

abbrev pub max_operands : ℕ
max_operands = 100

abbrev pub max_string_literal_len : ℕ
max_string_literal_len = 4096

abbrev pub max_message_len : ℕ
max_message_len = 512

abbrev pub max_regex_len : ℕ
max_regex_len = 512

abbrev pub max_field_path_segments : ℕ
max_field_path_segments = 16

abbrev pub max_match_input_len : ℕ
max_match_input_len = 8192

pub data Kind : Type 0 where
  lit field not_ and or compare arith_ in_ match_ call : Kind

-- The cases of the `switch` on `kind`.
unfoldable pub kind_of : Text → Option Kind
unfolding text_eq
kind_of t =
    if text_eq t (codes "lit")
    then some Kind.lit
    else if text_eq t (codes "field")
    then some Kind.field
    else if text_eq t (codes "not")
    then some not_
    else if text_eq t (codes "and")
    then some and
    else if text_eq t (codes "or")
    then some or
    else if text_eq t (codes "compare")
    then some Kind.compare
    else if text_eq t (codes "arith")
    then some arith_
    else if text_eq t (codes "in")
    then some in_
    else if text_eq t (codes "match")
    then some match_
    else if text_eq t (codes "call")
    then some Kind.call
    else none

-- COMPARE_OPS
unfoldable pub compare_op_of : Text → Option CompareOp
unfolding text_eq
compare_op_of t =
    if text_eq t (codes "==")
    then some eq
    else if text_eq t (codes "!=")
    then some ne
    else if text_eq t (codes ">")
    then some gt
    else if text_eq t (codes ">=")
    then some ge
    else if text_eq t (codes "<")
    then some lt
    else if text_eq t (codes "<=")
    then some le
    else none

-- ARITH_OPS
unfoldable pub arith_op_of : Text → Option ArithOp
unfolding text_eq
arith_op_of t =
    if text_eq t (codes "+")
    then some add
    else if text_eq t (codes "-")
    then some sub
    else if text_eq t (codes "*")
    then some mul
    else if text_eq t (codes "/")
    then some div
    else if text_eq t (codes "%")
    then some rem
    else none

-- The own properties of FN_ARITY.
unfoldable pub fn_of : Text → Option FnName
unfolding text_eq
fn_of t =
    if text_eq t (codes "now")
    then some now
    else if text_eq t (codes "toNumber")
    then some to_number
    else if text_eq t (codes "toDate")
    then some to_date
    else if text_eq t (codes "len")
    then some len
    else if text_eq t (codes "lower")
    then some lower
    else if text_eq t (codes "upper")
    then some upper
    else if text_eq t (codes "trim")
    then some trim
    else if text_eq t (codes "isBlank")
    then some is_blank
    else if text_eq t (codes "abs")
    then some abs
    else if text_eq t (codes "days")
    then some days
    else if text_eq t (codes "hours")
    then some hours
    else none

unfoldable pub fn_arity : FnName → ℕ
fn_arity now = 0
fn_arity _ = 1

-- /^[A-Za-z0-9_]+$/ on a segment that is not empty.
unfoldable pub is_segment_char : ℕ → Bool
is_segment_char c =
    (leb b'A' c && leb c b'Z')
    || ((leb b'a' c && leb c b'z') || ((leb b'0' c && leb c b'9') || c == b'_'))

unfoldable pub is_segment_text : Text → Bool
is_segment_text [] = true
is_segment_text (c ∷ cs) = is_segment_char c && is_segment_text cs

-- RESERVED_SEGMENTS
unfoldable pub is_reserved : Text → Bool
is_reserved s =
    text_eq s (codes "__proto__")
    || (text_eq s (codes "prototype") || text_eq s (codes "constructor"))

-- The loop of `assertValidFieldPath`.
unfoldable pub check_segments : AstPath → List Text → Compiles (Unit {0})
check_segments path [] = ok tt
check_segments path (s ∷ ss) = refuse_if (length s == 0) segment_empty path (
    refuse_if (is_reserved s) segment_reserved path
      (refuse_if (not (is_segment_text s)) segment_invalid path (check_segments path ss)))

unfoldable pub check_field_path : Text → AstPath → Compiles Text
check_field_path name path = refuse_if (length name == 0) path_empty path (
    refuse_if (ltb max_field_path_segments (length (split b'.' name))) path_too_long path
      (check_segments path (split b'.' name) >>= λ checked. ok name))

unfoldable pub assert_valid_field_path : {N : Type 0} → Value N → AstPath → Compiles Text
assert_valid_field_path (scalar (str name)) path = check_field_path name path
assert_valid_field_path _ path = fail path_empty path
