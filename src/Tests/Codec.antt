-- ===== src/Tests/Codec.antt =====
-- Runs of the codec, on a platform with two numbers and a text codec that keeps every unit.
use pactum.Prelude.{
  ℕ, zero, suc, ap, ◌≡◌, refl, List, [], ◌∷◌, Bool, true, false, length, get_or, ◌==◌, replicate,
  none, some, Text, arith, ◌<◌, ◌≤◌, ◌^◌,
}
use pactum.Prelude.Results.{ok}
use pactum.Ast.Types.{
  Expr, lit, field, neg, all_of, compare, call, nil, cons, str, num, eq, len, RuleSet,
}
use pactum.Ast.Binary.Platform.{Platform}
use pactum.Ast.Binary.Reader.{new_reader}
use pactum.Ast.Binary.Reader.Cursor.{IsPortable}
use pactum.Ast.Binary.Encode.{serialize_rule_set, max_expr_depth, size}
use pactum.Ast.Binary.Encode.Bytes.{height, rule_set_bytes, IsPortableRuleSet}
use pactum.Ast.Binary.Encode.RuleSets.{serialize_rule_set-bytes, AreShallow}
use pactum.Ast.Binary.Decode.{deserialize_rule_set, deserialize_expr, enough_fuel}
use pactum.Ast.Binary.Decode.RuleSets.{deserialize-serialize}
use pactum.Ast.Binary.Decode.Total.{deserialize_expr-Ensures}
use pactum.Ast.Binary.Decode.Reads.{Ensures}

abbrev two_numbers_bytes : Bool → List ℕ
two_numbers_bytes true = replicate 8 1
two_numbers_bytes false = replicate 8 0

two_numbers_length : (x : Bool) → length (two_numbers_bytes x) ≡ 8
two_numbers_length true = refl
two_numbers_length false = refl

abbrev two_numbers_value : List ℕ → Bool
two_numbers_value bs = get_or bs 0 0 == 1

two_numbers_inverse : (x : Bool) → two_numbers_value (two_numbers_bytes x) ≡ x
two_numbers_inverse true = refl
two_numbers_inverse false = refl

abbrev demo : Platform
demo = record {
  Num = Bool;
  f64_bytes = two_numbers_bytes;
  f64_value = two_numbers_value;
  utf8_encode = λ s. s;
  utf8_decode = λ bs. bs;
  length-f64_bytes = two_numbers_length;
  f64_value-f64_bytes = two_numbers_inverse;
}

abbrev terms : Text
terms = b't' ∷ b'x' ∷ []

-- tx == "x" && len(tx)
abbrev check : Expr Bool
check = all_of (
    cons (compare eq (field terms) (lit (str (b'x' ∷ []))))
      (cons (call len (cons (field terms) nil)) nil))

abbrev rules : RuleSet Bool
rules = record {
  version = 1;
  rules =
      record {
        field_name = terms;
        message = b'?' ∷ [];
        check = check;
        guard = some (lit (num true));
        id = none;
      }
      ∷ [];
}

portable : (s : Text) → length s < 2 ^ 32 → IsPortable demo s
portable s h = record { decodes = refl; short = h }

rules-IsPortable : IsPortableRuleSet demo rules
unfolding size height
rules-IsPortable = record {
  version_known = refl;
  few = omega arith;
  rules_portable = (
    record {
      field_portable = portable terms (omega arith);
      message_portable = portable (b'?' ∷ []) (omega arith);
      id_portable = tt;
      check_portable = (
        omega arith,
        (
          (portable terms (omega arith), portable (b'x' ∷ []) (omega arith)),
          ((omega arith, (portable terms (omega arith), tt)), tt),
        ),
      );
      check_shallow = omega arith;
      guard_portable = (tt, omega arith);
    },
    tt,
  );
}

deserialize-serialize_example :
    (bytes : List ℕ) × (serialize_rule_set demo rules ≡ ok bytes)
    × (deserialize_rule_set demo bytes ≡ ok rules)
deserialize-serialize_example = deserialize-serialize demo rules rules-IsPortable

rules-AreShallow : AreShallow demo rules.rules
unfolding height
rules-AreShallow = (omega arith, omega arith, tt)

serialize_rule_set-bytes_example : serialize_rule_set demo rules ≡ ok (rule_set_bytes demo rules)
serialize_rule_set-bytes_example = serialize_rule_set-bytes demo rules rules-AreShallow

abbrev negations : ℕ → Expr Bool
negations zero = lit (num true)
negations (suc n) = neg (negations n)

height-negations : (n : ℕ) → height (negations n) ≡ n
unfolding height
height-negations zero = refl
height-negations (suc n) = ap suc (height-negations n)

deserialize_expr-Ensures_example :
    Ensures
      (new_reader (3 ∷ 2 ∷ 255 ∷ []))
      (λ e. height e ≤ max_expr_depth)
      (deserialize_expr demo enough_fuel (new_reader (3 ∷ 2 ∷ 255 ∷ [])) 0)
deserialize_expr-Ensures_example = deserialize_expr-Ensures demo (new_reader (3 ∷ 2 ∷ 255 ∷ []))
