-- ===== src/Ast/Compiler/Meaning.antt =====
-- The compiler accepts every tree that is within the language and its limits, and what it makes of
-- the tree computes what the tree means.
use pactum.Prelude.{
  ℕ, zero, suc, ◌+◌, ◌≤◌, ◌<◌, ◌≡◌, refl, ◌∙◌, ap, not, ◌∷◌, Bool-cases, inl, inr, ltb, arith,
  codes,
}
use pactum.Prelude.Results.{ok}
use pactum.Ast.Types.{
  Text, bool, Expr, Exprs, lit, field, neg, all_of, any_of, compare, calc, in_set, matches, call,
  nil, cons,
}
use pactum.Ast.Binary.Encode.Bytes.{height, heights}
use pactum.Ast.Values.{Script, Value, split, read_field}
use pactum.Ast.Runtime.{truthy}
use pactum.Ast.Compiler.Errors.{Step, AstPath}
use pactum.Ast.Compiler.Words.{
  max_nodes_per_rule, max_depth, kind_of, fn_arity, assert_valid_field_path,
}
use pactum.Ast.Compiler.{
  word, items_of, EvalContext, CompiledExpr, Child, read_path, compile_field, compile_operand_list,
  compile_match, compile_args, compile_call, compile_sides, compile_kind, compile_named,
  compile_object, compile_expr,
}
use pactum.Ast.Compiler.Rules.{enough_fuel}
use pactum.Ast.Compiler.Documents.{
  compare_word, arith_word, text_value, count, document, nodes, IsFieldPath, all_truthy, any_truthy,
  eval, IsAdmissible, AreAdmissible,
}
use pactum.Ast.Compiler.Operands.{
  CompilesAll, Compiles_, Meant, MeantAll, MeantSides, all_hold_lem, any_equals_lem, any_holds_lem,
  args_mean, literal_passes, match_means, operands_mean, sides_mean,
}
use pactum.Ast.Compiler.Spelling.{
  Yields, arith_word_lem, arity_passes, bind, compare_word_lem, field_path_passes, fn_word_lem,
  restart, size-documents,
}

module _ (S : Script) where
  open S use {Num}

  field_compiles :
      (name : Text) (path : AstPath)
      → IsFieldPath name
      → compile_field S (text_value name) path
        ≡ ok (λ ctx. read_path S (split b'.' name) ctx.values)
  unfolding compile_field assert_valid_field_path
  field_compiles name path h = rw (field_path_passes name path h)

  -- The guards of `compileExpr` let a node through.
  guards_pass :
      (fuel depth n : ℕ) (v : Value Num) (path : AstPath) (Q : CompiledExpr S → ℕ → Type 0)
      → n + 1 ≤ max_nodes_per_rule
      → depth ≤ max_depth
      → Yields Q (compile_object S (λ w p m. compile_expr S fuel (depth + 1) w p m) v path (n + 1))
      → Yields Q (compile_expr S (suc fuel) depth v path n)
  unfolding compile_expr
  guards_pass fuel depth n v path Q b d h = elim (Bool-cases (ltb max_nodes_per_rule (n + 1))) [
    | inl full ↦ absurd (ground arith)
    | inr room ↦ elim (Bool-cases (ltb max_depth depth)) [
      | inl deep ↦ absurd (ground arith)
      | inr fits ↦ rw room (rw fits h)
    ]
  ]

  -- One node, its subexpressions compiled by `child`.
  module _ (child : Child S) where
    abbrev Subs : Expr Num → Type 0
    Subs (lit v) = Unit {0}
    Subs (field name) = Unit {0}
    Subs (neg e) = Compiles_ S child e
    Subs (all_of es) = CompilesAll S child es
    Subs (any_of es) = CompilesAll S child es
    Subs (compare op l r) = Compiles_ S child l × Compiles_ S child r
    Subs (calc op l r) = Compiles_ S child l × Compiles_ S child r
    Subs (in_set v es) = Compiles_ S child v × CompilesAll S child es
    Subs (matches v pattern flags) = Compiles_ S child v
    Subs (call fn es) = CompilesAll S child es

    node_means :
        (e : Expr Num) (path : AstPath) (n : ℕ)
        → IsAdmissible S e
        → Subs e
        → n + nodes e ≤ max_nodes_per_rule
        → Yields (Meant S e n) (compile_object S child (document e) path (n + 1))
    unfolding document compile_object compile_named kind_of compile_kind read_field nodes eval word
        compile_call items_of
    node_means (lit v) path n a s b = rw (literal_passes S v path a) (omega arith, λ ctx. refl)
    node_means (field name) path n a s b =
        rw (field_compiles name (Step.name ∷ path) a) (omega arith, λ ctx. refl)
    node_means (neg e) path n a s b =
        bind (Meant S e (n + 1)) (Meant S (neg e) n)
          (child (document e) (Step.operand ∷ path) (n + 1)) _ (s _ (n + 1) (omega arith))
          λ f m p. (omega arith, λ ctx. ap (λ v. bool (not (truthy S v))) (p.1 ctx))
    node_means (all_of es) path n a s b =
        bind (MeantAll S es (n + 1)) (Meant S (all_of es) n)
          (compile_operand_list S child _ _ (n + 1)) _
          (operands_mean S child es (Step.operands ∷ path) (n + 1) s a.0 (omega arith))
          λ fs m p.
            (omega arith, λ ctx. ap bool (all_hold_lem S fs ctx ∙ ap (all_truthy S) (p.1 ctx)))
    node_means (any_of es) path n a s b =
        bind (MeantAll S es (n + 1)) (Meant S (any_of es) n)
          (compile_operand_list S child _ _ (n + 1)) _
          (operands_mean S child es (Step.operands ∷ path) (n + 1) s a.0 (omega arith))
          λ fs m p.
            (omega arith, λ ctx. ap bool (any_holds_lem S fs ctx ∙ ap (any_truthy S) (p.1 ctx)))
    node_means (compare op l r) path n a s b = rw (compare_word_lem op) (
        bind (MeantSides S l r (n + 1)) (Meant S (compare op l r) n)
          (compile_sides S child _ path (n + 1)) _
          (sides_mean S child (codes "compare") (compare_word op) l r path (n + 1) s.0 s.1
            (omega arith))
          λ fg m p. (omega arith, λ ctx. cc ((p.1 ctx).0, (p.1 ctx).1)))
    node_means (calc op l r) path n a s b = rw (arith_word_lem op) (
        bind (MeantSides S l r (n + 1)) (Meant S (calc op l r) n)
          (compile_sides S child _ path (n + 1)) _
          (sides_mean S child (codes "arith") (arith_word op) l r path (n + 1) s.0 s.1
            (omega arith))
          λ fg m p. (omega arith, λ ctx. cc ((p.1 ctx).0, (p.1 ctx).1)))
    node_means (in_set v es) path n a s b =
        bind (Meant S v (n + 1)) (Meant S (in_set v es) n)
          (child (document v) (Step.value ∷ path) (n + 1)) _ (s.0 _ (n + 1) (omega arith))
          λ f m p.
            bind (MeantAll S es m) (Meant S (in_set v es) n) (compile_operand_list S child _ _ m) _
              (operands_mean S child es (Step.set ∷ path) m s.1 a.1 (omega arith))
              λ fs m' q. (
                omega arith,
                λ ctx. ap bool (any_equals_lem S (f ctx) fs ctx ∙ cc (p.1 ctx, q.1 ctx)),
              )
    node_means (matches v pattern flags) path n a s b =
        restart (compile_match S child _ path (n + 1))
          (match_means S child v pattern flags path (n + 1) s a.1 (omega arith))
          (λ f m p. (omega arith, p.1))
    node_means (call fn es) path n a s b = rw (fn_word_lem fn) (
        rw (size-documents es) (
          rw (arity_passes (count es) (fn_arity fn) a.0) (
            restart (compile_args S child fn _ _ (n + 1))
              (args_mean S child fn es (Step.args ∷ path) (n + 1) s a.0 (omega arith))
              (λ f m p. (omega arith, p.1)))))

  -- The recursive call of `compileExpr`.
  abbrev below : ℕ → ℕ → Child S
  below fuel depth v path n = compile_expr S fuel (depth + 1) v path n

  mutual
    unfolding nodes height

    expr-means :
        (e : Expr Num) (fuel depth : ℕ) (path : AstPath) (n : ℕ)
        → IsAdmissible S e
        → depth + height e ≤ max_depth
        → max_depth < depth + fuel
        → n + nodes e ≤ max_nodes_per_rule
        → Yields (Meant S e n) (compile_expr S fuel depth (document e) path n)
    expr-means e zero depth path n a d f b = absurd (omega arith)
    expr-means (lit v) (suc fuel) depth path n a d f b =
        guards_pass fuel depth n _ path (Meant S (lit v) n) (omega arith) (omega arith)
          (node_means (below fuel depth) (lit v) path n a (tt) b)
    expr-means (field name) (suc fuel) depth path n a d f b =
        guards_pass fuel depth n _ path (Meant S (field name) n) (omega arith) (omega arith)
          (node_means (below fuel depth) (field name) path n a (tt) b)
    expr-means (neg e) (suc fuel) depth path n a d f b =
        guards_pass fuel depth n _ path (Meant S (neg e) n) (omega arith) (omega arith) (
          node_means (below fuel depth) (neg e) path n a
            (λ p m k. expr-means e fuel (depth + 1) p m a (omega arith) (omega arith) k) b)
    expr-means (all_of es) (suc fuel) depth path n a d f b =
        guards_pass fuel depth n _ path (Meant S (all_of es) n) (omega arith) (omega arith) (
          node_means (below fuel depth) (all_of es) path n a
            (exprs-mean es fuel depth a.1 (omega arith) (omega arith)) b)
    expr-means (any_of es) (suc fuel) depth path n a d f b =
        guards_pass fuel depth n _ path (Meant S (any_of es) n) (omega arith) (omega arith) (
          node_means (below fuel depth) (any_of es) path n a
            (exprs-mean es fuel depth a.1 (omega arith) (omega arith)) b)
    expr-means (compare op l r) (suc fuel) depth path n a d f b =
        guards_pass fuel depth n _ path (Meant S (compare op l r) n) (omega arith) (omega arith) (
          node_means (below fuel depth) (compare op l r) path n a
            (
              (λ p m k. expr-means l fuel (depth + 1) p m a.0 (omega arith) (omega arith) k),
              (λ p m k. expr-means r fuel (depth + 1) p m a.1 (omega arith) (omega arith) k),
            )
            b)
    expr-means (calc op l r) (suc fuel) depth path n a d f b =
        guards_pass fuel depth n _ path (Meant S (calc op l r) n) (omega arith) (omega arith) (
          node_means (below fuel depth) (calc op l r) path n a
            (
              (λ p m k. expr-means l fuel (depth + 1) p m a.0 (omega arith) (omega arith) k),
              (λ p m k. expr-means r fuel (depth + 1) p m a.1 (omega arith) (omega arith) k),
            )
            b)
    expr-means (in_set v es) (suc fuel) depth path n a d f b =
        guards_pass fuel depth n _ path (Meant S (in_set v es) n) (omega arith) (omega arith) (
          node_means (below fuel depth) (in_set v es) path n a
            (
              (λ p m k. expr-means v fuel (depth + 1) p m a.0 (omega arith) (omega arith) k),
              exprs-mean es fuel depth a.2 (omega arith) (omega arith),
            )
            b)
    expr-means (matches v pattern flags) (suc fuel) depth path n a d f b =
        guards_pass fuel depth n _ path (Meant S (matches v pattern flags) n) (omega arith)
          (omega arith)
          (node_means (below fuel depth) (matches v pattern flags) path n a
            (λ p m k. expr-means v fuel (depth + 1) p m a.0 (omega arith) (omega arith) k) b)
    expr-means (call fn es) (suc fuel) depth path n a d f b =
        guards_pass fuel depth n _ path (Meant S (call fn es) n) (omega arith) (omega arith) (
          node_means (below fuel depth) (call fn es) path n a
            (exprs-mean es fuel depth a.1 (omega arith) (omega arith)) b)

    exprs-mean :
        (es : Exprs Num) (fuel depth : ℕ)
        → AreAdmissible S es
        → depth + heights es ≤ max_depth
        → max_depth < depth + suc fuel
        → CompilesAll S (below fuel depth) es
    exprs-mean nil fuel depth a d f = tt
    exprs-mean (cons e es) fuel depth a d f = (
      (λ p m k. expr-means e fuel (depth + 1) p m a.0 (omega arith) (omega arith) k),
      exprs-mean es fuel depth a.1 (omega arith) (omega arith),
    )

  -- A tree within the language and the limits is compiled from its document, for the budget of its
  -- nodes, and the compiled expression computes in every context what the tree means.
  pub compile_expr-document :
      (e : Expr Num) (path : AstPath) (n : ℕ)
      → IsAdmissible S e
      → height e ≤ max_depth
      → n + nodes e ≤ max_nodes_per_rule
      → Yields
          (λ f m. (m ≡ n + nodes e) × ((ctx : EvalContext S) → f ctx ≡ eval S e ctx))
          (compile_expr S (enough_fuel S) 0 (document e) path n)
  compile_expr-document e path n a d b =
      expr-means e (enough_fuel S) 0 path n a (omega arith) (omega arith) b
