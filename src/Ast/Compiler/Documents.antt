-- ===== src/Ast/Compiler/Documents.antt =====
-- What a rule means, independently of compiler.ts: an evaluator on expression trees, the document
-- that writes a tree as the JSON of types.ts, and the conditions under which it is within the
-- language.
use pactum.Prelude.{
  ℕ, suc, ◌+◌, ◌≤◌, ◌<◌, ◌≡◌, Bool, true, false, not, ◌&&◌, ◌||◌, List, [], ◌∷◌, Option, none, some,
  length, All, codes,
}
use pactum.Prelude.Results.{ok}
use pactum.Ast.Types.{
  Text, RuntimeValue, null, bool, num, str, CompareOp, eq, ne, gt, ge, lt, le, ArithOp, add, sub,
  mul, div, rem, FnName, now, to_number, to_date, len, lower, upper, trim, is_blank, abs, days,
  hours, Expr, Exprs, lit, field, neg, all_of, any_of, compare, calc, in_set, matches, call, nil,
  cons,
}
use pactum.Ast.Values.{
  Script, Value, missing, scalar, array, object, Items, end, item, Fields, empty, entry, split,
}
use pactum.Ast.Runtime.{truthy, equals, apply_compare, apply_arith, apply_fn}
use pactum.Ast.Regex.{assert_safe_regex_pattern}
use pactum.Ast.Compiler.Errors.{AstPath}
use pactum.Ast.Compiler.Words.{
  max_operands, max_string_literal_len, max_regex_len, max_field_path_segments, fn_arity,
  is_segment_text, is_reserved,
}
use pactum.Ast.Compiler.{flags_allowed, EvalContext, read_path, test_regex}

abbrev pub compare_word : CompareOp → Text
compare_word eq = codes "=="
compare_word ne = codes "!="
compare_word gt = codes ">"
compare_word ge = codes ">="
compare_word lt = codes "<"
compare_word le = codes "<="

abbrev pub arith_word : ArithOp → Text
arith_word add = codes "+"
arith_word sub = codes "-"
arith_word mul = codes "*"
arith_word div = codes "/"
arith_word rem = codes "%"

abbrev pub fn_word : FnName → Text
fn_word now = codes "now"
fn_word to_number = codes "toNumber"
fn_word to_date = codes "toDate"
fn_word len = codes "len"
fn_word lower = codes "lower"
fn_word upper = codes "upper"
fn_word trim = codes "trim"
fn_word is_blank = codes "isBlank"
fn_word abs = codes "abs"
fn_word days = codes "days"
fn_word hours = codes "hours"

abbrev pub flags_text : Option Text → Text
flags_text none = []
flags_text (some flags) = flags

module _ {N : Type 0} where
  abbrev pub text_value : Text → Value N
  text_value t = scalar (str t)

  -- `{ kind, … }`
  abbrev pub node_value : Text → Fields N → Value N
  node_value kind fields = object (entry (codes "kind") (text_value kind) fields)

  abbrev pub flags_value : Option Text → Value N
  flags_value none = missing
  flags_value (some flags) = text_value flags

  -- The fields of a comparison or a calculation, and of a match.
  abbrev pub sides : Text → Text → Value N → Value N → Fields N
  sides kind op l r =
      entry (codes "kind") (text_value kind) (
        entry (codes "op") (text_value op) (entry (codes "left") l (entry (codes "right") r empty)))

  abbrev pub match_fields : Value N → Text → Option Text → Fields N
  match_fields v pattern flags = entry (codes "kind") (text_value (codes "match")) (
      entry (codes "value") v (
        entry (codes "pattern") (text_value pattern)
          (entry (codes "flags") (flags_value flags) empty)))

  abbrev pub count : Exprs N → ℕ
  count nil = 0
  count (cons e es) = suc (count es)

unfoldable mutual
  pub document : {N : Type 0} → Expr N → Value N
  document (lit v) = node_value (codes "lit") (entry (codes "value") (scalar v) empty)
  document (field name) = node_value (codes "field") (entry (codes "name") (text_value name) empty)
  document (neg e) = node_value (codes "not") (entry (codes "operand") (document e) empty)
  document (all_of es) =
      node_value (codes "and") (entry (codes "operands") (array (documents es)) empty)
  document (any_of es) =
      node_value (codes "or") (entry (codes "operands") (array (documents es)) empty)
  document (compare op l r) =
      object (sides (codes "compare") (compare_word op) (document l) (document r))
  document (calc op l r) = object (sides (codes "arith") (arith_word op) (document l) (document r))
  document (in_set v es) =
      node_value (codes "in")
        (entry (codes "value") (document v) (entry (codes "set") (array (documents es)) empty))
  document (matches v pattern flags) = object (match_fields (document v) pattern flags)
  document (call fn es) = node_value (codes "call") (
      entry (codes "fn") (text_value (fn_word fn))
        (entry (codes "args") (array (documents es)) empty))

  pub documents : {N : Type 0} → Exprs N → Items N
  documents nil = end
  documents (cons e es) = item (document e) (documents es)

-- The budget that an expression needs.
unfoldable mutual
  pub nodes : {N : Type 0} → Expr N → ℕ
  nodes (lit v) = 1
  nodes (field name) = 1
  nodes (neg e) = 1 + nodes e
  nodes (all_of es) = 1 + nodes_in es
  nodes (any_of es) = 1 + nodes_in es
  nodes (compare op l r) = 1 + nodes l + nodes r
  nodes (calc op l r) = 1 + nodes l + nodes r
  nodes (in_set v es) = 1 + nodes v + nodes_in es
  nodes (matches v pattern flags) = 1 + nodes v
  nodes (call fn es) = 1 + nodes_in es

  pub nodes_in : {N : Type 0} → Exprs N → ℕ
  nodes_in nil = 0
  nodes_in (cons e es) = nodes e + nodes_in es

abbrev pub IsSegment : Text → Type 0
IsSegment s = (0 < length s) × (is_reserved s ≡ false) × (is_segment_text s ≡ true)

abbrev pub IsFieldPath : Text → Type 0
IsFieldPath name =
    (0 < length name)
    × (length (split b'.' name) ≤ max_field_path_segments)
    × All IsSegment (split b'.' name)

module _ (S : Script) where
  open S use {Num, is_finite, regexp}

  unfoldable pub all_truthy : List (RuntimeValue Num) → Bool
  all_truthy [] = true
  all_truthy (v ∷ vs) = truthy S v && all_truthy vs

  unfoldable pub any_truthy : List (RuntimeValue Num) → Bool
  any_truthy [] = false
  any_truthy (v ∷ vs) = truthy S v || any_truthy vs

  unfoldable pub any_equal : RuntimeValue Num → List (RuntimeValue Num) → Bool
  any_equal v [] = false
  any_equal v (w ∷ ws) = equals S v w || any_equal v ws

  unfoldable pub first_value : FnName → EvalContext S → List (RuntimeValue Num) → RuntimeValue Num
  first_value now ctx vs = num ctx.time
  first_value fn ctx [] = null
  first_value fn ctx (v ∷ vs) = apply_fn S fn v

  unfoldable pub match_value : Option (Text → Bool) → RuntimeValue Num → Bool
  match_value none v = false
  match_value (some test) v = test_regex S test v

  unfoldable mutual
    pub eval : Expr Num → EvalContext S → RuntimeValue Num
    eval (lit v) ctx = v
    eval (field name) ctx = read_path S (split b'.' name) ctx.values
    eval (neg e) ctx = bool (not (truthy S (eval e ctx)))
    eval (all_of es) ctx = bool (all_truthy (evals es ctx))
    eval (any_of es) ctx = bool (any_truthy (evals es ctx))
    eval (compare op l r) ctx = bool (apply_compare S op (eval l ctx) (eval r ctx))
    eval (calc op l r) ctx = apply_arith S op (eval l ctx) (eval r ctx)
    eval (in_set v es) ctx = bool (any_equal (eval v ctx) (evals es ctx))
    eval (matches v pattern flags) ctx =
        bool (match_value (regexp pattern (flags_text flags)) (eval v ctx))
    eval (call fn es) ctx = first_value fn ctx (evals es ctx)

    pub evals : Exprs Num → EvalContext S → List (RuntimeValue Num)
    evals nil ctx = []
    evals (cons e es) ctx = eval e ctx ∷ evals es ctx

  abbrev pub IsLiteral : RuntimeValue Num → Type 0
  IsLiteral (num n) = is_finite n ≡ true
  IsLiteral (str s) = length s ≤ max_string_literal_len
  IsLiteral v = Unit {0}

  abbrev pub IsRegex : Text → Text → Type 0
  IsRegex pattern flags =
      (length pattern ≤ max_regex_len)
      × (flags_allowed flags ≡ true)
      × (test : Text → Bool) × (regexp pattern flags ≡ some test)
      × ((path : AstPath) → assert_safe_regex_pattern pattern path ≡ ok tt)

  -- What the compiler asks of a tree, besides its size and its depth.
  abbrev mutual
    pub IsAdmissible : Expr Num → Type 0
    IsAdmissible (lit v) = IsLiteral v
    IsAdmissible (field name) = IsFieldPath name
    IsAdmissible (neg e) = IsAdmissible e
    IsAdmissible (all_of es) = (count es ≤ max_operands) × AreAdmissible es
    IsAdmissible (any_of es) = (count es ≤ max_operands) × AreAdmissible es
    IsAdmissible (compare op l r) = IsAdmissible l × IsAdmissible r
    IsAdmissible (calc op l r) = IsAdmissible l × IsAdmissible r
    IsAdmissible (in_set v es) = IsAdmissible v × (count es ≤ max_operands) × AreAdmissible es
    IsAdmissible (matches v pattern flags) = IsAdmissible v × IsRegex pattern (flags_text flags)
    IsAdmissible (call fn es) = (count es ≡ fn_arity fn) × AreAdmissible es

    pub AreAdmissible : Exprs Num → Type 0
    AreAdmissible nil = Unit {0}
    AreAdmissible (cons e es) = IsAdmissible e × AreAdmissible es
