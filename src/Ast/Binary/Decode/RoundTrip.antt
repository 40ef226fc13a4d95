-- ===== src/Ast/Binary/Decode/RoundTrip.antt =====
-- Reading the bytes of the format gives back the expression, the rule and the rule set.
use pactum.Prelude.{ℕ, zero, suc, ◌+◌, ◌≤◌, ◌<◌, ◌≡◌, List, ◌++◌, ltb, false, arith}
use pactum.Ast.Types.{
  Expr, Exprs, lit, field, neg, all_of, any_of, compare, calc, in_set, matches, call, nil, cons,
}
use pactum.Ast.Binary.Platform.{Platform}
use pactum.Ast.Binary.Reader.{Read, BinaryReader}
use pactum.Ast.Binary.Reader.Cursor.{
  At, Returns, Returns-ok, Returns-bind, read_u8-Returns, read_string-Returns,
}
use pactum.Ast.Binary.Encode.{max_expr_depth, guard_depth}
use pactum.Ast.Binary.Encode.Bytes.{
  expr_bytes, exprs_bytes, height, heights, IsPortableExpr, IsPortableExprs,
}
use pactum.Ast.Binary.Decode.{read_node, deserialize_expr}
use pactum.Ast.Binary.Decode.Nodes.{
  AllRead, deserialize_value-Returns, read_counted-Returns, read_compare-Returns, read_calc-Returns,
  read_in_set-Returns, read_matches-Returns, read_call-Returns,
}

module _ (P : Platform) where
  open P use {Num}

  not_deep :
      {A : Type 0} (depth : ℕ) {m : Read A} {a : A} {rest : List ℕ}
      → depth ≤ max_expr_depth
      → Returns m a rest
      → Returns (guard_depth depth m) a rest
  not_deep depth h r = let e : ltb max_expr_depth depth ≡ false = ground arith in rw e r

  mutual
    unfolding deserialize_expr read_node expr_bytes exprs_bytes height heights

    pub expr_reads :
        (e : Expr Num) (fuel depth : ℕ) (r : BinaryReader) (rest : List ℕ)
        → height e < fuel
        → depth + height e ≤ max_expr_depth
        → IsPortableExpr P e
        → At r (expr_bytes P e ++ rest)
        → Returns (deserialize_expr P fuel r depth) e rest
    expr_reads e zero depth r rest f d p h = absurd (omega arith)
    expr_reads (lit v) (suc fuel) depth r rest f d p h = not_deep depth (omega arith) (
        Returns-bind _ (read_u8-Returns r 1 _ h) λ r1 h1.
          Returns-bind _ (deserialize_value-Returns P v r1 rest p h1)
            λ r2 h2. Returns-ok (lit v) h2)
    expr_reads (field s) (suc fuel) depth r rest f d p h = not_deep depth (omega arith) (
        Returns-bind _ (read_u8-Returns r 2 _ h) λ r1 h1.
          Returns-bind _ (read_string-Returns P r1 s rest p h1) λ r2 h2. Returns-ok (field s) h2)
    expr_reads (neg e) (suc fuel) depth r rest f d p h = not_deep depth (omega arith) (
        Returns-bind _ (read_u8-Returns r 3 _ h) λ r1 h1.
          Returns-bind _ (expr_reads e fuel (depth + 1) r1 rest (omega arith) (omega arith) p h1)
            λ r2 h2. Returns-ok (neg e) h2)
    expr_reads (all_of es) (suc fuel) depth r rest f d p h = not_deep depth (omega arith) (
        Returns-bind _ (read_u8-Returns r 4 _ h) λ r1 h1.
          Returns-bind _
            (read_counted-Returns P _ es r1 rest p.0
              (exprs_read es fuel (depth + 1) (omega arith) (omega arith) p.1) h1)
            λ r2 h2. Returns-ok (all_of es) h2)
    expr_reads (any_of es) (suc fuel) depth r rest f d p h = not_deep depth (omega arith) (
        Returns-bind _ (read_u8-Returns r 5 _ h) λ r1 h1.
          Returns-bind _
            (read_counted-Returns P _ es r1 rest p.0
              (exprs_read es fuel (depth + 1) (omega arith) (omega arith) p.1) h1)
            λ r2 h2. Returns-ok (any_of es) h2)
    expr_reads (compare op left right) (suc fuel) depth r rest f d p h =
        not_deep depth (omega arith) (
          Returns-bind _ (read_u8-Returns r 6 _ h) λ r1 h1.
            read_compare-Returns P _ r1 rest op left right
              (λ r2 rest2 h2.
                expr_reads left fuel (depth + 1) r2 rest2 (omega arith) (omega arith) p.0 h2)
              (λ r2 rest2 h2.
                expr_reads right fuel (depth + 1) r2 rest2 (omega arith) (omega arith) p.1 h2)
              h1)
    expr_reads (calc op left right) (suc fuel) depth r rest f d p h = not_deep depth (omega arith) (
        Returns-bind _ (read_u8-Returns r 7 _ h) λ r1 h1.
          read_calc-Returns P _ r1 rest op left right
            (λ r2 rest2 h2.
              expr_reads left fuel (depth + 1) r2 rest2 (omega arith) (omega arith) p.0 h2)
            (λ r2 rest2 h2.
              expr_reads right fuel (depth + 1) r2 rest2 (omega arith) (omega arith) p.1 h2)
            h1)
    expr_reads (in_set v es) (suc fuel) depth r rest f d p h = not_deep depth (omega arith) (
        Returns-bind _ (read_u8-Returns r 8 _ h) λ r1 h1.
          read_in_set-Returns P _ r1 rest v es
            (λ r2 rest2 h2.
              expr_reads v fuel (depth + 1) r2 rest2 (omega arith) (omega arith) p.0 h2)
            p.1 (exprs_read es fuel (depth + 1) (omega arith) (omega arith) p.2) h1)
    expr_reads (matches v q fl) (suc fuel) depth r rest f d p h = not_deep depth (omega arith) (
        Returns-bind _ (read_u8-Returns r 9 _ h) λ r1 h1.
          read_matches-Returns P _ r1 rest v q fl
            (λ r2 rest2 h2.
              expr_reads v fuel (depth + 1) r2 rest2 (omega arith) (omega arith) p.0 h2)
            p.1 p.2 h1)
    expr_reads (call fn es) (suc fuel) depth r rest f d p h = not_deep depth (omega arith) (
        Returns-bind _ (read_u8-Returns r 10 _ h) λ r1 h1.
          read_call-Returns P _ r1 rest fn es p.0
            (exprs_read es fuel (depth + 1) (omega arith) (omega arith) p.1) h1)

    exprs_read :
        (es : Exprs Num) (fuel depth : ℕ)
        → heights es ≤ fuel
        → depth + heights es ≤ max_expr_depth + 1
        → IsPortableExprs P es
        → AllRead P (λ r. deserialize_expr P fuel r depth) es
    exprs_read nil fuel depth f d p = tt
    exprs_read (cons e es) fuel depth f d p = (
      λ r rest h. expr_reads e fuel depth r rest (omega arith) (omega arith) p.0 h,
      exprs_read es fuel depth (omega arith) (omega arith) p.1,
    )
