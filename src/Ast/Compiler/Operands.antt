-- ===== src/Ast/Compiler/Operands.antt =====
-- The operands of a node: what their compilation yields when each of them is compiled.
use pactum.Prelude.{
  ℕ, ◌+◌, ◌≤◌, ◌≡◌, refl, ap, true, List, [], ◌∷◌, Option, none, some, Bool-cases, inl, inr, ltb,
  length, arith,
}
use pactum.Prelude.Results.{ok}
use pactum.Ast.Types.{
  Text, RuntimeValue, null, bool, num, str, FnName, now, Expr, Exprs, matches, call, nil, cons,
}
use pactum.Ast.Values.{Script, scalar, array, size, read_field}
use pactum.Ast.Runtime.{apply_fn}
use pactum.Ast.Compiler.Errors.{Step, AstPath}
use pactum.Ast.Compiler.Words.{max_nodes_per_rule, max_operands, max_regex_len, fn_arity}
use pactum.Ast.Compiler.{
  flags_allowed, flags_of, pattern_of, items_of, EvalContext, CompiledExpr, Child, literal_of,
  compile_items, compile_operand_list, all_hold, any_holds, any_equals, test_regex, compile_match,
  first_item, compile_args, compile_sides,
}
use pactum.Ast.Compiler.Documents.{
  text_value, flags_value, flags_text, count, sides, match_fields, document, documents, nodes,
  nodes_in, all_truthy, any_truthy, any_equal, first_value, match_value, eval, evals, IsLiteral,
  IsRegex,
}
use pactum.Ast.Compiler.Spelling.{Yields, bind, size-documents}

module _ (S : Script) where
  open S use {Num, is_finite, regexp}

  abbrev Values : Type 0
  Values = List (RuntimeValue Num)

  abbrev run : List (CompiledExpr S) → EvalContext S → Values
  run [] ctx = []
  run (f ∷ fs) ctx = f ctx ∷ run fs ctx

  pub all_hold_lem :
      (fs : List (CompiledExpr S)) (ctx : EvalContext S)
      → all_hold S fs ctx ≡ all_truthy S (run fs ctx)
  unfolding all_hold all_truthy
  all_hold_lem [] ctx = refl
  all_hold_lem (f ∷ fs) ctx = ground (arith, all_hold_lem fs ctx)

  pub any_holds_lem :
      (fs : List (CompiledExpr S)) (ctx : EvalContext S)
      → any_holds S fs ctx ≡ any_truthy S (run fs ctx)
  unfolding any_holds any_truthy
  any_holds_lem [] ctx = refl
  any_holds_lem (f ∷ fs) ctx = ground (arith, any_holds_lem fs ctx)

  pub any_equals_lem :
      (v : RuntimeValue Num) (fs : List (CompiledExpr S)) (ctx : EvalContext S)
      → any_equals S v fs ctx ≡ any_equal S v (run fs ctx)
  unfolding any_equals any_equal
  any_equals_lem v [] ctx = refl
  any_equals_lem v (f ∷ fs) ctx = ground (arith, any_equals_lem v fs ctx)

  pub literal_passes :
      (v : RuntimeValue Num) (path : AstPath) → IsLiteral S v → literal_of S (scalar v) path ≡ ok v
  unfolding literal_of
  literal_passes null path h = refl
  literal_passes (bool b) path h = refl
  literal_passes (num n) path h = rw h
  literal_passes (str s) path h = ground arith

  -- What the compilation of `e` yields when it starts at the count `n`.
  abbrev pub Meant : Expr Num → ℕ → CompiledExpr S → ℕ → Type 0
  Meant e n f m = (m ≡ n + nodes e) × ((ctx : EvalContext S) → f ctx ≡ eval S e ctx)

  abbrev pub MeantAll : Exprs Num → ℕ → List (CompiledExpr S) → ℕ → Type 0
  MeantAll es n fs m = (m ≡ n + nodes_in es) × ((ctx : EvalContext S) → run fs ctx ≡ evals S es ctx)

  -- `child` compiles any subexpression of `e` in its place.
  abbrev pub Compiles_ : Child S → Expr Num → Type 0
  Compiles_ child e =
      (path : AstPath) (n : ℕ)
      → n + nodes e ≤ max_nodes_per_rule
      → Yields (Meant e n) (child (document e) path n)

  abbrev pub CompilesAll : Child S → Exprs Num → Type 0
  CompilesAll child nil = Unit {0}
  CompilesAll child (cons e es) = Compiles_ child e × CompilesAll child es

  items_mean :
      (child : Child S) (es : Exprs Num) (path : AstPath) (i n : ℕ)
      → CompilesAll child es
      → n + nodes_in es ≤ max_nodes_per_rule
      → Yields (MeantAll es n) (compile_items S child (documents es) path i n)
  unfolding compile_items document eval nodes
  items_mean child nil path i n h b = (omega arith, λ ctx. refl)
  items_mean child (cons e es) path i n h b =
      bind (Meant e n) (MeantAll (cons e es) n) (child (document e) (Step.index i ∷ path) n) _
        (h.0 _ n (omega arith))
        λ f n1 p.
          bind (MeantAll es n1) (MeantAll (cons e es) n)
            (compile_items S child (documents es) path (i + 1) n1) _
            (items_mean child es path (i + 1) n1 h.1 (omega arith))
            λ fs n2 q. (omega arith, λ ctx. cc (p.1 ctx, q.1 ctx))

  pub operands_mean :
      (child : Child S) (es : Exprs Num) (path : AstPath) (n : ℕ)
      → CompilesAll child es
      → count es ≤ max_operands
      → n + nodes_in es ≤ max_nodes_per_rule
      → Yields (MeantAll es n) (compile_operand_list S child (array (documents es)) path n)
  unfolding compile_operand_list items_of
  operands_mean child es path n h c b = elim (Bool-cases (ltb max_operands (size (documents es)))) [
    | inl many ↦ absurd (ground (arith, size-documents es))
    | inr few ↦ rw few (items_mean child es path 0 n h b)
  ]

  abbrev pub MeantSides : Expr Num → Expr Num → ℕ → CompiledExpr S × CompiledExpr S → ℕ → Type 0
  MeantSides l r n (f, g) m =
      (m ≡ n + nodes l + nodes r)
      × ((ctx : EvalContext S) → (f ctx ≡ eval S l ctx) × (g ctx ≡ eval S r ctx))

  pub sides_mean :
      (child : Child S) (kind op : Text) (l r : Expr Num) (path : AstPath) (n : ℕ)
      → Compiles_ child l
      → Compiles_ child r
      → n + nodes l + nodes r ≤ max_nodes_per_rule
      → Yields
          (MeantSides l r n)
          (compile_sides S child (sides kind op (document l) (document r)) path n)
  unfolding compile_sides read_field
  sides_mean child kind op l r path n h k b =
      bind (Meant l n) (MeantSides l r n) (child (document l) (Step.left ∷ path) n) _
        (h _ n (omega arith))
        λ f n1 p.
          bind (Meant r n1) (MeantSides l r n) (child (document r) (Step.right ∷ path) n1) _
            (k _ n1 (omega arith)) λ g n2 q. (omega arith, λ ctx. (p.1 ctx, q.1 ctx))

  pattern_passes :
      (pattern : Text) (path : AstPath)
      → length pattern ≤ max_regex_len
      → pattern_of {N = Num} (text_value pattern) path ≡ ok pattern
  unfolding pattern_of
  pattern_passes pattern path h = ground arith

  flags_pass :
      (flags : Option Text) (path : AstPath)
      → flags_allowed (flags_text flags) ≡ true
      → flags_of {N = Num} (flags_value flags) path ≡ ok (flags_text flags)
  unfolding flags_of
  flags_pass none path h = refl
  flags_pass (some flags) path h = rw h

  pub match_means :
      (child : Child S) (e : Expr Num) (pattern : Text) (flags : Option Text) (path : AstPath)
      (n : ℕ)
      → Compiles_ child e
      → IsRegex S pattern (flags_text flags)
      → n + nodes e ≤ max_nodes_per_rule
      → Yields
          (λ f m.
            (m ≡ n + nodes e)
            × ((ctx : EvalContext S) → f ctx ≡ eval S (matches e pattern flags) ctx))
          (compile_match S child (match_fields (document e) pattern flags) path n)
  unfolding compile_match read_field eval match_value nodes
  match_means child e pattern flags path n h r b =
      rw (pattern_passes pattern (Step.pattern ∷ path) r.0) (
        rw (flags_pass flags (Step.flags ∷ path) r.1) (
          rw r.3 (
            rw (r.4 (Step.pattern ∷ path)) (
              bind (Meant e n) _ (child (document e) (Step.value ∷ path) n) _ (h _ n b)
                λ f m p. (p.0, λ ctx. ap (λ v. bool (test_regex S r.2 v)) (p.1 ctx))))))

  pub args_mean :
      (child : Child S) (fn : FnName) (es : Exprs Num) (path : AstPath) (n : ℕ)
      → CompilesAll child es
      → count es ≡ fn_arity fn
      → n + nodes_in es ≤ max_nodes_per_rule
      → Yields
          (λ f m. (m ≡ n + nodes_in es) × ((ctx : EvalContext S) → f ctx ≡ eval S (call fn es) ctx))
          (compile_args S child fn (documents es) path n)
  unfolding compile_args document first_item fn_arity eval first_value nodes
  args_mean child now nil path n h c b = (omega arith, λ ctx. refl)
  args_mean child now (cons e es) path n h c b = absurd (omega arith)
  args_mean child _ nil path n h c b = absurd (omega arith)
  args_mean child _ (cons e (cons e' es)) path n h c b = absurd (omega arith)
  args_mean child fn (cons e nil) path n h c b =
      bind (Meant e n) _ (child (document e) (Step.index 0 ∷ path) n) _ (h.0 _ n (omega arith))
        λ f m p. (omega arith, λ ctx. ap (apply_fn S fn) (p.1 ctx))
