-- ===== src/Tests/Rules.antt =====
-- Runs of the rule compiler and of the resolver, where numbers are naturals with a NaN: a form whose
-- `age` is checked unless it is blank.
use pactum.Prelude.{
  ℕ, ◌+◌, ◌-◌, ◌*◌, ◌/◌, ◌%◌, ◌≡◌, ◌≢◌, ◌↔◌, refl, Bool, true, false, [], ◌∷◌, Option, none, some,
  ◌==◌, ltb, if◌then◌else◌, All, Text, text_eq, codes, arith,
}
use pactum.Prelude.Results.{err}
use pactum.Prelude.Int.{pos_part}
use pactum.Ast.Types.{Expr, lit, field, neg, compare, call, nil, cons, num, ge, is_blank, Rule}
use pactum.Ast.Values.{Script, object, scalar, Fields, empty, entry, split, prepend, read_field}
use pactum.Ast.Binary.Encode.Bytes.{height}
use pactum.Ast.Compiler.Errors.{AstValidationError, out_of_fuel, nested_quantifiers}
use pactum.Ast.Compiler.Words.{is_reserved, is_segment_text, is_segment_char, fn_arity}
use pactum.Ast.Compiler.{EvalContext}
use pactum.Ast.Compiler.Rules.{CompiledRule, compile_rule_set}
use pactum.Ast.Compiler.Documents.{nodes, IsFieldPath}
use pactum.Ast.Compiler.RuleSets.{
  compile_rule_set-document, rule_set_document, IsAdmissibleRule, ImplementsAll, Returns,
}
use pactum.Ast.Regex.{
  assert_safe_regex_pattern, consume_lazy, judge_height, parse_alternation, parse_alternatives,
  parse_concatenation, parse_quantified, parse_quantifier, parse_atom, close_group,
  skip_group_prefix, repeats,
}
use pactum.Ast.Regex.Total.{assert_safe_regex_pattern-ends}
use pactum.Ast.Resolver.{
  accepted, rejected, resolve, errors_of, field_error, is_inherited, compose_resolvers,
}
use pactum.Ast.Resolver.Verdicts.{resolve-accepted_iff}
use pactum.Ast.Resolver.Errors.{
  resolve-first_failure, resolve-unreported, IsPlain, IsHidden, first_failure, reported,
}
use pactum.Ast.Resolver.Composition.{compose_resolvers-first_error, first_error}

abbrev both : (ℕ → ℕ → ℕ) → Option ℕ → Option ℕ → Option ℕ
both f (some a) (some b) = some (f a b)
both f _ _ = none

abbrev test_both : (ℕ → ℕ → Bool) → Option ℕ → Option ℕ → Bool
test_both f (some a) (some b) = f a b
test_both f _ _ = false

abbrev is_none : Option ℕ → Bool
is_none none = true
is_none (some n) = false

num_same : (n : ℕ) → (n == n) ≡ true
num_same n = ground arith

abbrev script : Script
script = record {
  Num = Option ℕ;
  nan = none;
  of_nat = λ n. some n;
  of_bigint = λ z. some (pos_part z);
  is_nan = is_none;
  is_finite = λ n. if is_none n then false else true;
  num_eq = test_both ◌==◌;
  num_lt = test_both ltb;
  plus = both ◌+◌;
  minus = both ◌-◌;
  times = both ◌*◌;
  divided = both ◌/◌;
  remainder = both ◌%◌;
  absolute = λ n. n;
  parse_number = λ t. none;
  number_text = λ n. [];
  parse_date = λ t. none;
  to_lower_case = λ t. t;
  to_upper_case = λ t. t;
  trim_text = λ t. t;
  regexp = λ pattern flags. none;
  is_nan-nan = refl;
  num_eq-of_nat = num_same;
}

abbrev age : Text
age = codes "age"

abbrev adult : Expr (Option ℕ)
adult = compare ge (field age) (lit (num (some 18)))

abbrev adult_rule : Rule (Option ℕ)
adult_rule = record {
  field_name = age;
  message = codes "too young";
  check = adult;
  guard = some (neg (call is_blank (cons (field age) nil)));
  id = none;
}

age-IsFieldPath : IsFieldPath age
unfolding split prepend is_reserved is_segment_text is_segment_char text_eq
age-IsFieldPath = (omega arith, omega arith, ((omega arith, refl, refl), tt))

adult_rule-IsAdmissible : IsAdmissibleRule script adult_rule
unfolding nodes fn_arity height
adult_rule-IsAdmissible = record {
  path_valid = age-IsFieldPath;
  message_there = omega arith;
  message_short = omega arith;
  check_valid = (age-IsFieldPath, refl);
  check_shallow = omega arith;
  guard_valid = ((refl, (age-IsFieldPath, tt)), omega arith);
  in_budget = omega arith;
}

compile_rule_set-document_example :
    Returns script
      (ImplementsAll script (adult_rule ∷ []))
      (compile_rule_set script (rule_set_document script (adult_rule ∷ [])))
compile_rule_set-document_example =
    compile_rule_set-document script (adult_rule ∷ []) (adult_rule-IsAdmissible, tt) (omega arith)

abbrev nested_error : AstValidationError
nested_error = record { message = nested_quantifiers; path = [] }

nested_refused : assert_safe_regex_pattern (codes "(a+)+") [] ≡ err nested_error
unfolding assert_safe_regex_pattern judge_height parse_alternation parse_alternatives
    parse_concatenation parse_quantified parse_quantifier parse_atom close_group skip_group_prefix
    repeats consume_lazy
nested_refused = refl

assert_safe_regex_pattern-ends_example : nested_error.message ≢ out_of_fuel
assert_safe_regex_pattern-ends_example =
    assert_safe_regex_pattern-ends (codes "(a+)+") [] nested_error nested_refused

abbrev young : EvalContext script
young = record { values = object (entry age (scalar (num (some 9))) empty); time = some 0 }

-- A compiled rule that always fails.
abbrev failing : Text → CompiledRule script
failing target = record { target = target; notice = codes "no"; ident = none; test = λ ctx. false }

resolve-accepted_iff_example :
    (resolve script (failing age ∷ []) young ≡ accepted)
    ↔ All (λ r. r.test young ≡ true) (failing age ∷ [])
resolve-accepted_iff_example = resolve-accepted_iff script young (failing age ∷ [])

age-IsPlain : IsPlain script (failing age)
unfolding split prepend is_reserved is_inherited text_eq
age-IsPlain = record { one_segment = refl; not_reserved = refl; not_inherited = refl }

to_string-IsHidden : IsHidden script (failing (codes "toString"))
unfolding split prepend is_reserved is_inherited text_eq
to_string-IsHidden = record { one_segment = refl; not_reserved = refl; inherited = refl }

resolve-first_failure_example :
    read_field (errors_of (resolve script (failing age ∷ []) young)) age
    ≡ reported script (first_failure script (failing age ∷ []) young age)
resolve-first_failure_example =
    resolve-first_failure script young (failing age ∷ []) age (age-IsPlain, tt)

resolve-unreported_example : resolve script (failing (codes "toString") ∷ []) young ≡ rejected empty
resolve-unreported_example =
    resolve-unreported script young (failing (codes "toString") ∷ []) (to_string-IsHidden, tt)
      (λ h. let e : false ≡ true = h.0 in cc)

abbrev wrong : Text → Fields (Option ℕ)
wrong notice = entry age (field_error (codes "ast") notice) empty

compose_resolvers-first_error_example :
    read_field
      (errors_of
        (compose_resolvers (rejected (wrong (codes "a")) ∷ rejected (wrong (codes "b")) ∷ [])))
      age
    ≡ first_error (rejected (wrong (codes "a")) ∷ rejected (wrong (codes "b")) ∷ []) age
compose_resolvers-first_error_example =
    compose_resolvers-first_error (rejected (wrong (codes "a")) ∷ rejected (wrong (codes "b")) ∷ [])
      age
