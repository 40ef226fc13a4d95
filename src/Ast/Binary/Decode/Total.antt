-- ===== src/Ast/Binary/Decode/Total.antt =====
-- What holds of a read of any bytes, well formed or not: it ends, it stays inside the buffer, and
-- what it returns is within the depth limit.
use pactum.Prelude.{ℕ, zero, suc, ◌+◌, ◌≤◌, inl, inr, length, ltb, ◌==◌, Bool-cases, arith, some}
use pactum.Ast.Types.{
  Expr, Exprs, nil, cons, num, str, lit, field, neg, all_of, any_of, compare, calc, in_set, matches,
  call,
}
use pactum.Ast.Binary.Platform.{Platform}
use pactum.Ast.Binary.Reader.{
  BinaryReader, read_u8, read_u32, read_bytes, read_f64, read_string, read_opt_string,
}
use pactum.Ast.Binary.Tags.{tag_to_compare_op, tag_to_arith_op, tag_to_fn_name}
use pactum.Ast.Binary.Encode.{max_expr_depth}
use pactum.Ast.Binary.Encode.Bytes.{height, heights}
use pactum.Ast.Binary.Decode.{
  ReadExpr, deserialize_value, read_value, read_operands, read_counted, read_compare, read_calc,
  read_in_set, read_matches, read_call, read_node, deserialize_expr, enough_fuel,
}
use pactum.Ast.Binary.Decode.Reads.{
  Any, Ensures, Ensures-map, bind, branch, bytes_end, lookup_ends, primitive, return, stays,
  then_ok, u32_ends, u8_ends,
}

module _ (P : Platform) where
  open P use {Num, utf8_decode}

  f64_ends : (r : BinaryReader) → Ensures r Any (read_f64 P r)
  unfolding read_f64
  f64_ends r = primitive r 8 _

  string_ends : (r : BinaryReader) → Ensures r Any (read_string P r)
  unfolding read_string
  string_ends r =
      bind r Any Any (read_u32 r) _ (u32_ends r)
        λ n r1 i1 _. then_ok r1 Any Any (read_bytes r1 n) utf8_decode (bytes_end r1 n) (λ _ _. tt)

  opt_string_ends : (r : BinaryReader) → Ensures r Any (read_opt_string P r)
  unfolding read_opt_string
  opt_string_ends r = bind r Any Any (read_u8 r) _ (u8_ends r) λ flag r1 i1 _.
      branch r1 Any (flag == 0) _ _ (stays r1 i1, tt)
        (then_ok r1 Any Any (read_string P r1) some (string_ends r1) (λ _ _. tt))

  read_value_ends :
      (t : ℕ) (r : BinaryReader) → r.offset ≤ length r.buffer → Ensures r Any (read_value P t r)
  unfolding read_value
  read_value_ends t r i =
      branch r Any (t == 0) _ _ (stays r i, tt)
        (branch r Any (t == 1) _ _ (stays r i, tt)
          (branch r Any (t == 2) _ _ (stays r i, tt)
            (branch r Any (t == 3) _ _
              (then_ok r Any Any (read_f64 P r) num (f64_ends r) (λ _ _. tt))
              (branch r Any (t == 4) _ _
                (then_ok r Any Any (read_string P r) str (string_ends r) (λ _ _. tt)) (λ e. cc)))))

  value_ends : (r : BinaryReader) → Ensures r Any (deserialize_value P r)
  unfolding deserialize_value
  value_ends r = bind r Any Any (read_u8 r) _ (u8_ends r) λ t r1 i1 _. read_value_ends t r1 i1

  -- Below `depth` children are read that keep within the limit.
  module _ (depth : ℕ) (child : ReadExpr P) where
    abbrev IsWithin : Expr Num → Type 0
    IsWithin e = depth + height e ≤ max_expr_depth

    abbrev AreWithin : Exprs Num → Type 0
    AreWithin es = depth + heights es ≤ max_expr_depth

    module _ (at_limit : depth ≤ max_expr_depth)
        (child_ends : (r : BinaryReader)
          → Ensures r (λ e. depth + 1 + height e ≤ max_expr_depth) (child r)) where
      operands_end :
          (n : ℕ) (r : BinaryReader)
          → r.offset ≤ length r.buffer
          → Ensures r AreWithin (read_operands P child n r)
      unfolding read_operands heights
      operands_end zero r i = return r AreWithin nil i (omega arith)
      operands_end (suc n) r i = bind r _ AreWithin (child r) _ (child_ends r) λ e r1 i1 h.
          then_ok r1 AreWithin AreWithin (read_operands P child n r1) (cons e)
            (operands_end n r1 i1) (λ es hs. omega arith)

      counted_ends : (r : BinaryReader) → Ensures r AreWithin (read_counted P child r)
      unfolding read_counted
      counted_ends r =
          bind r Any AreWithin (read_u32 r) _ (u32_ends r) λ n r1 i1 _. operands_end n r1 i1

      compare_ends : (r : BinaryReader) → Ensures r IsWithin (read_compare P child r)
      unfolding read_compare height
      compare_ends r = bind r Any IsWithin (read_u8 r) _ (u8_ends r) λ t r1 i1 _.
          lookup_ends r1 IsWithin (tag_to_compare_op t) _ _ (λ e. cc)
            λ op. bind r1 _ IsWithin (child r1) _ (child_ends r1) λ l r2 i2 hl.
              then_ok r2 _ IsWithin (child r2) (compare op l) (child_ends r2) (λ e h. omega arith)

      calc_ends : (r : BinaryReader) → Ensures r IsWithin (read_calc P child r)
      unfolding read_calc height
      calc_ends r = bind r Any IsWithin (read_u8 r) _ (u8_ends r) λ t r1 i1 _.
          lookup_ends r1 IsWithin (tag_to_arith_op t) _ _ (λ e. cc)
            λ op. bind r1 _ IsWithin (child r1) _ (child_ends r1) λ l r2 i2 hl.
              then_ok r2 _ IsWithin (child r2) (calc op l) (child_ends r2) (λ e h. omega arith)

      in_set_ends : (r : BinaryReader) → Ensures r IsWithin (read_in_set P child r)
      unfolding read_in_set height
      in_set_ends r = bind r _ IsWithin (child r) _ (child_ends r) λ v r1 i1 hv.
          then_ok r1 AreWithin IsWithin (read_counted P child r1) (in_set v) (counted_ends r1)
            (λ es h. omega arith)

      matches_end : (r : BinaryReader) → Ensures r IsWithin (read_matches P child r)
      unfolding read_matches height
      matches_end r = bind r _ IsWithin (child r) _ (child_ends r) λ v r1 i1 hv.
          bind r1 Any IsWithin (read_string P r1) _ (string_ends r1) λ p r2 i2 _.
            then_ok r2 Any IsWithin (read_opt_string P r2) (matches v p) (opt_string_ends r2)
              (λ f h. omega arith)

      call_ends : (r : BinaryReader) → Ensures r IsWithin (read_call P child r)
      unfolding read_call height
      call_ends r = bind r Any IsWithin (read_u8 r) _ (u8_ends r) λ t r1 i1 _.
          lookup_ends r1 IsWithin (tag_to_fn_name t) _ _ (λ e. cc)
            λ fn.
              then_ok r1 AreWithin IsWithin (read_counted P child r1) (call fn) (counted_ends r1)
                (λ es h. omega arith)

      node_ends : (t : ℕ) (r : BinaryReader) → Ensures r IsWithin (read_node P child t r)
      unfolding read_node height
      node_ends t r =
          branch r IsWithin (t == 1) _ _
            (then_ok r Any IsWithin (deserialize_value P r) lit (value_ends r) (λ _ _. omega arith))
            (branch r IsWithin (t == 2) _ _
              (then_ok r Any IsWithin (read_string P r) field (string_ends r) (λ _ _. omega arith))
              (branch r IsWithin (t == 3) _ _
                (then_ok r _ IsWithin (child r) neg (child_ends r) (λ e h. omega arith))
                (branch r IsWithin (t == 4) _ _
                  (then_ok r AreWithin IsWithin (read_counted P child r) all_of (counted_ends r)
                    (λ _ h. h))
                  (branch r IsWithin (t == 5) _ _
                    (then_ok r AreWithin IsWithin (read_counted P child r) any_of (counted_ends r)
                      (λ _ h. h))
                    (branch r IsWithin (t == 6) _ _ (compare_ends r) (
                      branch r IsWithin (t == 7) _ _ (calc_ends r) (
                        branch r IsWithin (t == 8) _ _ (in_set_ends r) (
                          branch r IsWithin (t == 9) _ _ (matches_end r)
                            (branch r IsWithin (t == 10) _ _ (call_ends r) (λ e. cc))))))))))

  expr_ends :
      (fuel depth : ℕ) (r : BinaryReader)
      → max_expr_depth + 2 ≤ depth + fuel
      → depth ≤ max_expr_depth + 1
      → Ensures r (λ e. depth + height e ≤ max_expr_depth) (deserialize_expr P fuel r depth)
  unfolding deserialize_expr
  expr_ends zero depth r f d = absurd (omega arith)
  expr_ends (suc fuel) depth r f d = elim (Bool-cases (ltb max_expr_depth depth)) [
    | inl deep ↦ rw (deep, Ensures) (λ e. cc)
    | inr fits ↦
        rw (fits, Ensures)
          (bind r Any _ (read_u8 r) _ (u8_ends r) λ t r1 i1 _.
            node_ends depth _ (ground arith)
              (λ r2. expr_ends fuel (depth + 1) r2 (omega arith) (ground arith)) t r1)
  ]

  -- `deserializeExpr` on any bytes: it never runs out of fuel, it reads only inside the buffer, and
  -- an expression that it returns is no deeper than the limit.
  pub deserialize_expr-Ensures :
      (r : BinaryReader)
      → Ensures r (λ e. height e ≤ max_expr_depth) (deserialize_expr P enough_fuel r 0)
  deserialize_expr-Ensures r =
      Ensures-map r _ _ (deserialize_expr P enough_fuel r 0)
        (expr_ends enough_fuel 0 r (omega arith) (omega arith)) (λ e h. omega arith)
