-- ===== src/Ast/Compiler/Errors.antt =====
-- frontend/src/lib/ast/errors.ts, the errors that compiler.ts throws: what is wrong, and where.
use pactum.Prelude.{ℕ, List, Bool, if◌then◌else◌}
use pactum.Prelude.Results.{Result, err}

-- The texts of the messages, each under a name. `out_of_fuel` is the model's own.
pub data Message : Type 0 where
  path_empty path_too_long segment_empty segment_reserved segment_invalid : Message
  repetition_too_large nested_quantifiers : Message
  operands_not_array too_many_operands : Message
  too_many_nodes too_deep not_an_object kind_missing kind_unknown : Message
  literal_invalid literal_not_finite literal_too_long : Message
  compare_unknown arith_unknown : Message
  pattern_not_string pattern_too_long flags_invalid regex_invalid : Message
  fn_unknown args_not_array wrong_arity : Message
  rule_not_object message_invalid message_too_long id_not_string assert_missing : Message
  rule_set_not_object version_unsupported rules_not_array too_many_rules : Message
  out_of_fuel : Message

-- `rules[2].assert.left` as the list of its steps, the last one first.
pub data Step : Type 0 where
  index : ℕ → Step
  rules version assert when field message id name operand operands op left right : Step
  value set pattern flags fn args : Step

abbrev pub AstPath : Type 0
AstPath = List Step

pub record AstValidationError : Type 0 where
  pub message : Message
  pub path : AstPath

abbrev pub Compiles {ℓ} : Type ℓ → Type ℓ
Compiles A = Result AstValidationError A

-- `throw new AstValidationError(message, path)`
abbrev pub fail {ℓ} : {A : Type ℓ} → Message → AstPath → Compiles A
fail what place = err (record { message = what; path = place })

-- `if (test) throw new AstValidationError(message, path);` and the code after it.
abbrev pub refuse_if {ℓ} : {A : Type ℓ} → Bool → Message → AstPath → Compiles A → Compiles A
refuse_if test what place rest = if test then fail what place else rest
