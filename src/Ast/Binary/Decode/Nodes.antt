-- ===== src/Ast/Binary/Decode/Nodes.antt =====
-- Each case of `read_node` gives back its node, if its child reads give back the operands.
use pactum.Prelude.{ℕ, ◌^◌, ◌<◌, List, ◌∷◌, ◌++◌, append_assoc, true, false, Option}
use pactum.Ast.Types.{
  RuntimeValue, null, bool, num, str, Expr, Exprs, compare, calc, in_set, matches, call, nil, cons,
  Text, CompareOp, ArithOp, FnName,
}
use pactum.Ast.Binary.Platform.{Platform}
use pactum.Ast.Binary.Tags.{
  compare_op_to_tag, arith_op_to_tag, fn_name_to_tag, compare_op-tag, arith_op-tag, fn_name-tag,
}
use pactum.Ast.Binary.Writer.{u32_bytes}
use pactum.Ast.Binary.Writer.Content.{string_bytes, opt_string_bytes}
use pactum.Ast.Binary.Reader.{BinaryReader}
use pactum.Ast.Binary.Reader.Cursor.{
  At, Returns, Returns-ok, Returns-bind, read_u8-Returns, read_u32-Returns, read_f64-Returns,
  read_string-Returns, read_opt_string-Returns, IsPortable, IsPortable?,
}
use pactum.Ast.Binary.Encode.{size}
use pactum.Ast.Binary.Encode.Bytes.{value_bytes, expr_bytes, exprs_bytes, IsPortableValue}
use pactum.Ast.Binary.Decode.{
  ReadExpr, deserialize_value, read_value, read_operands, read_counted, read_compare, read_calc,
  read_in_set, read_matches, read_call,
}

-- To regroup what lies ahead of the reader.
pub regroup :
    {r : BinaryReader} (xs ys rest : List ℕ) → At r ((xs ++ ys) ++ rest) → At r (xs ++ (ys ++ rest))
regroup xs ys rest h = rw (append_assoc xs ys rest) at h

module _ (P : Platform) where
  open P use {Num}

  pub deserialize_value-Returns :
      (v : RuntimeValue Num) (r : BinaryReader) (rest : List ℕ)
      → IsPortableValue P v
      → At r (value_bytes P v ++ rest)
      → Returns (deserialize_value P r) v rest
  unfolding deserialize_value read_value value_bytes
  deserialize_value-Returns null r rest p h =
      Returns-bind _ (read_u8-Returns r 0 rest h) λ r1 h1. Returns-ok null h1
  deserialize_value-Returns (bool true) r rest p h =
      Returns-bind _ (read_u8-Returns r 2 rest h) λ r1 h1. Returns-ok (bool true) h1
  deserialize_value-Returns (bool false) r rest p h =
      Returns-bind _ (read_u8-Returns r 1 rest h) λ r1 h1. Returns-ok (bool false) h1
  deserialize_value-Returns (num x) r rest p h =
      Returns-bind _ (read_u8-Returns r 3 _ h)
        λ r1 h1. Returns-bind _ (read_f64-Returns P r1 x rest h1) λ r2 h2. Returns-ok (num x) h2
  deserialize_value-Returns (str s) r rest p h =
      Returns-bind _ (read_u8-Returns r 4 _ h) λ r1 h1.
        Returns-bind _ (read_string-Returns P r1 s rest p h1) λ r2 h2. Returns-ok (str s) h2

  -- `child` reads `e` back wherever it stands.
  abbrev pub Reads : ReadExpr P → Expr Num → Type 0
  Reads child e =
      (r : BinaryReader) (rest : List ℕ) → At r (expr_bytes P e ++ rest) → Returns (child r) e rest

  abbrev pub AllRead : ReadExpr P → Exprs Num → Type 0
  AllRead child nil = Unit
  AllRead child (cons e es) = Reads child e × AllRead child es

  pub read_operands-Returns :
      (child : ReadExpr P) (es : Exprs Num) (r : BinaryReader) (rest : List ℕ)
      → AllRead child es
      → At r (exprs_bytes P es ++ rest)
      → Returns (read_operands P child (size es) r) es rest
  unfolding read_operands exprs_bytes size
  read_operands-Returns child nil r rest c h = Returns-ok nil h
  read_operands-Returns child (cons e es) r rest c h =
      Returns-bind _ (c.0 r _ (regroup (expr_bytes P e) (exprs_bytes P es) rest h)) λ r1 h1.
        Returns-bind _ (read_operands-Returns child es r1 rest c.1 h1)
          λ r2 h2. Returns-ok (cons e es) h2

  pub read_counted-Returns :
      (child : ReadExpr P) (es : Exprs Num) (r : BinaryReader) (rest : List ℕ)
      → size es < 2 ^ 32
      → AllRead child es
      → At r ((u32_bytes (size es) ++ exprs_bytes P es) ++ rest)
      → Returns (read_counted P child r) es rest
  unfolding read_counted
  read_counted-Returns child es r rest small c h =
      Returns-bind _
        (read_u32-Returns r (size es) _ small
          (regroup (u32_bytes (size es)) (exprs_bytes P es) rest h))
        λ r1 h1. read_operands-Returns child es r1 rest c h1

  module _ (child : ReadExpr P) (r : BinaryReader) (rest : List ℕ) where
    pub read_compare-Returns :
        (op : CompareOp) (left right : Expr Num)
        → Reads child left
        → Reads child right
        → At r (compare_op_to_tag op ∷ ((expr_bytes P left ++ expr_bytes P right) ++ rest))
        → Returns (read_compare P child r) (compare op left right) rest
    unfolding read_compare
    read_compare-Returns op left right cl cr h = Returns-bind _ (read_u8-Returns r _ _ h) λ r1 h1.
        rw (compare_op-tag op) (
          Returns-bind _ (cl r1 _ (regroup (expr_bytes P left) (expr_bytes P right) rest h1))
            λ r2 h2. Returns-bind _ (cr r2 rest h2) λ r3 h3. Returns-ok (compare op left right) h3)

    pub read_calc-Returns :
        (op : ArithOp) (left right : Expr Num)
        → Reads child left
        → Reads child right
        → At r (arith_op_to_tag op ∷ ((expr_bytes P left ++ expr_bytes P right) ++ rest))
        → Returns (read_calc P child r) (calc op left right) rest
    unfolding read_calc
    read_calc-Returns op left right cl cr h = Returns-bind _ (read_u8-Returns r _ _ h) λ r1 h1.
        rw (arith_op-tag op) (
          Returns-bind _ (cl r1 _ (regroup (expr_bytes P left) (expr_bytes P right) rest h1))
            λ r2 h2. Returns-bind _ (cr r2 rest h2) λ r3 h3. Returns-ok (calc op left right) h3)

    pub read_in_set-Returns :
        (v : Expr Num) (es : Exprs Num)
        → Reads child v
        → size es < 2 ^ 32
        → AllRead child es
        → At r ((expr_bytes P v ++ (u32_bytes (size es) ++ exprs_bytes P es)) ++ rest)
        → Returns (read_in_set P child r) (in_set v es) rest
    unfolding read_in_set
    read_in_set-Returns v es cv small c h =
        Returns-bind _
          (cv r _ (regroup (expr_bytes P v) (u32_bytes (size es) ++ exprs_bytes P es) rest h))
          λ r1 h1.
            Returns-bind _ (read_counted-Returns child es r1 rest small c h1)
              λ r2 h2. Returns-ok (in_set v es) h2

    pub read_matches-Returns :
        (v : Expr Num) (p : Text) (f : Option Text)
        → Reads child v
        → IsPortable P p
        → IsPortable? P f
        → At r ((expr_bytes P v ++ (string_bytes P p ++ opt_string_bytes P f)) ++ rest)
        → Returns (read_matches P child r) (matches v p f) rest
    unfolding read_matches
    read_matches-Returns v p f cv pp pf h =
        Returns-bind _
          (cv r _ (regroup (expr_bytes P v) (string_bytes P p ++ opt_string_bytes P f) rest h))
          λ r1 h1.
            Returns-bind _
              (read_string-Returns P r1 p _ pp
                (regroup (string_bytes P p) (opt_string_bytes P f) rest h1))
              λ r2 h2.
                Returns-bind _ (read_opt_string-Returns P r2 f rest pf h2)
                  λ r3 h3. Returns-ok (matches v p f) h3

    pub read_call-Returns :
        (fn : FnName) (es : Exprs Num)
        → size es < 2 ^ 32
        → AllRead child es
        → At r (fn_name_to_tag fn ∷ ((u32_bytes (size es) ++ exprs_bytes P es) ++ rest))
        → Returns (read_call P child r) (call fn es) rest
    unfolding read_call
    read_call-Returns fn es small c h = Returns-bind _ (read_u8-Returns r _ _ h) λ r1 h1.
        rw (fn_name-tag fn) (
          Returns-bind _ (read_counted-Returns child es r1 rest small c h1)
            λ r2 h2. Returns-ok (call fn es) h2)
