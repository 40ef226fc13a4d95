-- ===== src/Ast/Resolver.antt =====
-- frontend/src/lib/ast/resolver.ts: compiled rules become the resolver of a form, and resolvers are
-- composed. What a rule's test throws is not modelled: a compiled test is total.
pub mod Verdicts
pub mod Errors
pub mod Composition
use pactum.Prelude.{
  ℕ, Bool, true, false, not, ◌&&◌, ◌||◌, List, [], ◌∷◌, Option, none, some, if◌then◌else◌, ltb,
  length, text_eq, codes,
}
use pactum.Prelude.Js.{JsSet, has, add, text_key}
use pactum.Ast.Types.{Text, str}
use pactum.Ast.Values.{
  Script, Value, missing, scalar, array, object, Fields, empty, entry, split, read_field,
}
use pactum.Ast.Compiler.Words.{is_reserved}
use pactum.Ast.Compiler.{EvalContext}
use pactum.Ast.Compiler.Rules.{CompiledRule}

-- `key in {}`: the names of Object.prototype.
unfoldable pub is_inherited : Text → Bool
is_inherited key =
    text_eq key (codes "constructor")
    || (text_eq key (codes "__defineGetter__")
        || (text_eq key (codes "__defineSetter__")
            || (text_eq key (codes "hasOwnProperty")
                || (text_eq key (codes "__lookupGetter__")
                    || (text_eq key (codes "__lookupSetter__")
                        || (text_eq key (codes "isPrototypeOf")
                            || (text_eq key (codes "propertyIsEnumerable")
                                || (text_eq key (codes "toString")
                                    || (text_eq key (codes "valueOf")
                                        || (text_eq key (codes "__proto__")
                                            || text_eq key (codes "toLocaleString")))))))))))

module _ {N : Type 0} where
  unfoldable pub has_own : Fields N → Text → Bool
  has_own empty key = false
  has_own (entry k v fs) key = text_eq k key || has_own fs key

  -- `fields[key] = value`
  unfoldable pub put_field : Fields N → Text → Value N → Fields N
  put_field empty key value = entry key value empty
  put_field (entry k v fs) key value =
      if text_eq k key then entry k value fs else entry k v (put_field fs key value)

  -- The object that `cursor[segment]` is, or is made.
  unfoldable pub object_at : Value N → Fields N
  object_at (object fields) = fields
  object_at _ = empty

  -- `setFieldError` from a segment on. An array is no error value.
  unfoldable pub set_at : Fields N → List Text → Value N → Fields N
  set_at cursor [] error = cursor
  set_at cursor (leaf ∷ []) error =
      if is_reserved leaf
      then cursor
      else if has_own cursor leaf || is_inherited leaf
      then cursor
      else put_field cursor leaf error
  set_at cursor (segment ∷ next ∷ segments) error =
      let inner = set_at (object_at (read_field cursor segment)) (next ∷ segments) error in
      if is_reserved segment then cursor else put_field cursor segment (object inner)

  unfoldable pub set_field_error : Fields N → Text → Value N → Fields N
  set_field_error errors path error = set_at errors (split b'.' path) error

  -- `{ type, message }`
  abbrev pub field_error : Text → Text → Value N
  field_error type message = object (
      entry (codes "type") (scalar (str type))
        (entry (codes "message") (scalar (str message)) empty))

  -- `Object.keys(fields)`
  abbrev pub field_names : Fields N → List Text
  field_names empty = []
  field_names (entry k v fs) = k ∷ field_names fs

-- `{ values, errors: {} }` and `{ values: {}, errors }`.
pub data Resolved (N : Type 0) : Type 0 where
  accepted : Resolved N
  rejected : Fields N → Resolved N

-- `evaluateInWasmSandbox`: it throws, or says whether the values are valid, with the errors.
pub data SandboxOutcome (N : Type 0) : Type 0 where
  threw : SandboxOutcome N
  checked : Bool → List (Text × Value N) → SandboxOutcome N

module _ {N : Type 0} where
  -- `claimed.size > 0 ? … : …`
  unfoldable pub verdict : JsSet Text → Fields N → Resolved N
  verdict claimed errors = if ltb 0 (length claimed) then rejected errors else accepted

  -- The errors of a result.
  unfoldable pub errors_of : Resolved N → Fields N
  errors_of accepted = empty
  errors_of (rejected errors) = errors

  -- The loop of `composeResolvers` over the errors of one resolver, and its body.
  unfoldable pub claim_error : Text → Value N → JsSet Text × Fields N → JsSet Text × Fields N
  claim_error key error (claimed, merged) =
      if has claimed key then (claimed, merged) else (add claimed key, put_field merged key error)

  unfoldable pub merge_errors : Fields N → JsSet Text × Fields N → JsSet Text × Fields N
  merge_errors empty state = state
  merge_errors (entry key error rest) state = merge_errors rest (claim_error key error state)

  unfoldable pub merge_results : List (Resolved N) → JsSet Text × Fields N → JsSet Text × Fields N
  merge_results [] state = state
  merge_results (result ∷ results) state =
      merge_results results (merge_errors (errors_of result) state)

  -- `composeResolvers`, on what the resolvers return for the values.
  unfoldable pub compose_resolvers : List (Resolved N) → Resolved N
  compose_resolvers results =
      let (claimed, merged) = merge_results results ([], empty) in verdict claimed merged

  unfoldable pub set_all : List (Text × Value N) → Fields N → Fields N
  set_all [] errors = errors
  set_all ((field, error) ∷ rest) errors = set_all rest (set_field_error errors field error)

  unfoldable pub or_root : Fields N → Fields N
  or_root empty =
      entry (codes "root") (field_error (codes "ast_wasm") (codes "Validation failed.")) empty
  or_root errors = errors

  -- The resolver of `createWasmAstResolver`, from the outcome of the sandbox.
  unfoldable pub resolve_in_sandbox : SandboxOutcome N → Resolved N
  resolve_in_sandbox threw = accepted
  resolve_in_sandbox (checked valid errors) =
      if valid then accepted else rejected (or_root (set_all errors empty))

module _ (S : Script) where
  open S use {Num}

  -- The loop of the resolver of `createAstResolver`, and its body.
  unfoldable pub resolve_rule :
      CompiledRule S → EvalContext S → JsSet Text × Fields Num → JsSet Text × Fields Num
  resolve_rule rule ctx (claimed, errors) =
      if has claimed rule.target || rule.test ctx then (claimed, errors) else (
        add claimed rule.target,
        set_field_error errors rule.target (field_error (codes "ast") rule.notice),
      )

  unfoldable pub resolve_loop :
      List (CompiledRule S) → EvalContext S → JsSet Text × Fields Num → JsSet Text × Fields Num
  resolve_loop [] ctx state = state
  resolve_loop (rule ∷ rules) ctx state = resolve_loop rules ctx (resolve_rule rule ctx state)

  unfoldable pub resolve : List (CompiledRule S) → EvalContext S → Resolved Num
  resolve rules ctx =
      let (claimed, errors) = resolve_loop rules ctx ([], empty) in verdict claimed errors
