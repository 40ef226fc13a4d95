-- ===== src/Ast/Binary/Encode/Writes.antt =====
-- What the serializers append, and when they refuse.
use pactum.Prelude.{
  ℕ, ◌+◌, ◌%◌, ◌≤◌, ◌<◌, ◌≡◌, refl, ◌⊎◌, inl, inr, List, [], ◌∷◌, ◌++◌, ltb, true, false,
  Bool-cases, arith,
}
use pactum.Prelude.Results.{ok, err, ◌>>=◌}
use pactum.Ast.Types.{
  RuntimeValue, null, bool, num, str, Expr, Exprs, lit, field, neg, all_of, any_of, compare, calc,
  in_set, matches, call, nil, cons,
}
use pactum.Ast.Binary.Platform.{Platform}
use pactum.Ast.Binary.Tags.{
  compare_op_to_tag, arith_op_to_tag, fn_name_to_tag, compare_op-byte, arith_op-byte, fn_name-byte,
}
use pactum.Ast.Binary.Reader.{too_deep}
use pactum.Ast.Binary.Writer.{BinaryWriter, write_u8, write_u32}
use pactum.Ast.Binary.Writer.Content.{
  IsValid, Appends, Appends-trans, Appends-refl, write_u8-Appends, write_u32-Appends,
  write_f64-Appends, write_string-Appends, write_opt_string-Appends,
}
use pactum.Ast.Binary.Encode.{
  Write, max_expr_depth, guard_depth, size, serialize_value, serialize_expr, serialize_exprs,
}
use pactum.Ast.Binary.Encode.Bytes.{value_bytes, expr_bytes, exprs_bytes, height, heights}

-- The serializer succeeds and appends `bytes`.
pub record Writes (w : BinaryWriter) (m : Write) (bytes : List ℕ) : Type 0 where
  pub writer : BinaryWriter
  pub result : m ≡ ok writer
  pub appends : Appends w writer bytes

-- A step that cannot fail, in front of one that can.
pub after :
    {w w1 : BinaryWriter} {xs ys : List ℕ} {m : Write}
    → Appends w w1 xs
    → (IsValid w1 → Writes w1 m ys)
    → Writes w m (xs ++ ys)
after a k =
    let r = k a.valid in
    record { writer = r.writer; result = r.result; appends = Appends-trans a r.appends }

pub done : {w w1 : BinaryWriter} {xs : List ℕ} → Appends w w1 xs → Writes w (ok w1) xs
done {w1} a = record { writer = w1; result = refl; appends = a }

pub chain :
    {w : BinaryWriter} {m : Write} {xs ys : List ℕ} (f : BinaryWriter → Write)
    → Writes w m xs
    → ((w1 : BinaryWriter) → IsValid w1 → Writes w1 (f w1) ys)
    → Writes w (m >>= f) (xs ++ ys)
chain f h k = rw h.result (after h.appends (k h.writer))

shallow :
    {w : BinaryWriter} {m : Write} {bytes : List ℕ} (depth : ℕ)
    → depth ≤ max_expr_depth
    → Writes w m bytes
    → Writes w (guard_depth depth m) bytes
shallow depth h r = let e : ltb max_expr_depth depth ≡ false = ground arith in rw e r

-- The tag byte.
pub tag : (w : BinaryWriter) (t : ℕ) → IsValid w → t % 256 ≡ t → Appends w (write_u8 w t) (t ∷ [])
tag w t v e = rw e at (write_u8-Appends w t v)

guarded :
    (depth : ℕ) {m : Write}
    → (depth ≤ max_expr_depth → m ≡ err too_deep)
    → guard_depth depth m ≡ err too_deep
guarded depth k = elim (Bool-cases (ltb max_expr_depth depth)) [
  | inl over ↦ rw over
  | inr fits ↦ rw fits (k (ground arith))
]

le_or_lt : (a b : ℕ) → (a ≤ b) ⊎ (b < a)
le_or_lt a b = grind arith

u8 : (w : BinaryWriter) (t : ℕ) → IsValid w → IsValid (write_u8 w t)
u8 w t v = (write_u8-Appends w t v).valid

u32 : (w : BinaryWriter) (n : ℕ) → IsValid w → IsValid (write_u32 w n)
u32 w n v = (write_u32-Appends w n v).valid

module _ (P : Platform) where
  open P use {Num}

  serialize_value-Appends :
      (value : RuntimeValue Num) (w : BinaryWriter)
      → IsValid w
      → Appends w (serialize_value P value w) (value_bytes P value)
  unfolding serialize_value value_bytes
  serialize_value-Appends null w v = tag w 0 v refl
  serialize_value-Appends (bool true) w v = tag w 2 v refl
  serialize_value-Appends (bool false) w v = tag w 1 v refl
  serialize_value-Appends (num x) w v =
      let t = tag w 3 v refl in Appends-trans t (write_f64-Appends P _ x t.valid)
  serialize_value-Appends (str s) w v =
      let t = tag w 4 v refl in Appends-trans t (write_string-Appends P _ s t.valid)

  mutual
    unfolding serialize_expr serialize_exprs expr_bytes exprs_bytes height heights

    serialize_expr-Writes :
        (e : Expr Num) (w : BinaryWriter) (depth : ℕ)
        → IsValid w
        → depth + height e ≤ max_expr_depth
        → Writes w (serialize_expr P e w depth) (expr_bytes P e)
    serialize_expr-Writes (lit value) w depth v h =
        shallow depth (omega arith)
          (after (tag w 1 v refl) λ v1. done (serialize_value-Appends value _ v1))
    serialize_expr-Writes (field name) w depth v h =
        shallow depth (omega arith)
          (after (tag w 2 v refl) λ v1. done (write_string-Appends P _ name v1))
    serialize_expr-Writes (neg e) w depth v h =
        shallow depth (omega arith)
          (after (tag w 3 v refl) λ v1. serialize_expr-Writes e _ (depth + 1) v1 (omega arith))
    serialize_expr-Writes (all_of es) w depth v h = shallow depth (omega arith) (
        after (tag w 4 v refl) λ v1.
          after (write_u32-Appends _ (size es) v1)
            λ v2. serialize_exprs-Writes es _ (depth + 1) v2 (omega arith))
    serialize_expr-Writes (any_of es) w depth v h = shallow depth (omega arith) (
        after (tag w 5 v refl) λ v1.
          after (write_u32-Appends _ (size es) v1)
            λ v2. serialize_exprs-Writes es _ (depth + 1) v2 (omega arith))
    serialize_expr-Writes (compare op l r) w depth v h = shallow depth (omega arith) (
        after (tag w 6 v refl) λ v1. after (tag _ _ v1 (compare_op-byte op)) λ v2.
          chain _ (serialize_expr-Writes l _ (depth + 1) v2 (omega arith))
            λ w3 v3. serialize_expr-Writes r w3 (depth + 1) v3 (omega arith))
    serialize_expr-Writes (calc op l r) w depth v h = shallow depth (omega arith) (
        after (tag w 7 v refl) λ v1. after (tag _ _ v1 (arith_op-byte op)) λ v2.
          chain _ (serialize_expr-Writes l _ (depth + 1) v2 (omega arith))
            λ w3 v3. serialize_expr-Writes r w3 (depth + 1) v3 (omega arith))
    serialize_expr-Writes (in_set e es) w depth v h = shallow depth (omega arith) (
        after (tag w 8 v refl) λ v1.
          chain _ (serialize_expr-Writes e _ (depth + 1) v1 (omega arith)) λ w2 v2.
            after (write_u32-Appends w2 (size es) v2)
              λ v3. serialize_exprs-Writes es _ (depth + 1) v3 (omega arith))
    serialize_expr-Writes (matches e p f) w depth v h = shallow depth (omega arith) (
        after (tag w 9 v refl) λ v1.
          chain _ (serialize_expr-Writes e _ (depth + 1) v1 (omega arith)) λ w2 v2.
            after (write_string-Appends P w2 p v2) λ v3. done (write_opt_string-Appends P _ f v3))
    serialize_expr-Writes (call fn es) w depth v h = shallow depth (omega arith) (
        after (tag w 10 v refl) λ v1. after (tag _ _ v1 (fn_name-byte fn)) λ v2.
          after (write_u32-Appends _ (size es) v2)
            λ v3. serialize_exprs-Writes es _ (depth + 1) v3 (omega arith))

    serialize_exprs-Writes :
        (es : Exprs Num) (w : BinaryWriter) (depth : ℕ)
        → IsValid w
        → depth + heights es ≤ max_expr_depth + 1
        → Writes w (serialize_exprs P es w depth) (exprs_bytes P es)
    serialize_exprs-Writes nil w depth v h = done (Appends-refl v)
    serialize_exprs-Writes (cons e es) w depth v h =
        chain _ (serialize_expr-Writes e w depth v (omega arith))
          λ w1 v1. serialize_exprs-Writes es w1 depth v1 (omega arith)

  -- Below the depth limit `serializeExpr` appends the bytes of the format.
  pub serialize_expr-appends :
      (e : Expr Num) (w : BinaryWriter) (depth : ℕ)
      → IsValid w
      → depth + height e ≤ max_expr_depth
      → Writes w (serialize_expr P e w depth) (expr_bytes P e)
  serialize_expr-appends e w depth v h = serialize_expr-Writes e w depth v h

  mutual
    unfolding serialize_expr serialize_exprs height heights

    refuses :
        (e : Expr Num) (w : BinaryWriter) (depth : ℕ)
        → IsValid w
        → max_expr_depth < depth + height e
        → serialize_expr P e w depth ≡ err too_deep
    refuses (lit value) w depth v h = guarded depth λ d. absurd (omega arith)
    refuses (field name) w depth v h = guarded depth λ d. absurd (omega arith)
    refuses (neg e) w depth v h =
        guarded depth λ d. refuses e _ (depth + 1) (u8 w 3 v) (omega arith)
    refuses (all_of es) w depth v h =
        guarded depth λ d.
          refuses_list es _ (depth + 1) (u32 _ (size es) (u8 w 4 v)) (omega arith) (omega arith)
    refuses (any_of es) w depth v h =
        guarded depth λ d.
          refuses_list es _ (depth + 1) (u32 _ (size es) (u8 w 5 v)) (omega arith) (omega arith)
    refuses (compare op l r) w depth v h =
        let v2 = u8 _ (compare_op_to_tag op) (u8 w 6 v) in
        guarded depth λ d. elim (le_or_lt (depth + 1 + height l) max_expr_depth) [
          | inr deep ↦ rw (refuses l _ (depth + 1) v2 deep)
          | inl fits ↦
              let left = serialize_expr-Writes l _ (depth + 1) v2 fits in
              rw left.result (refuses r _ (depth + 1) left.appends.valid (omega arith))
        ]
    refuses (calc op l r) w depth v h =
        let v2 = u8 _ (arith_op_to_tag op) (u8 w 7 v) in
        guarded depth λ d. elim (le_or_lt (depth + 1 + height l) max_expr_depth) [
          | inr deep ↦ rw (refuses l _ (depth + 1) v2 deep)
          | inl fits ↦
              let left = serialize_expr-Writes l _ (depth + 1) v2 fits in
              rw left.result (refuses r _ (depth + 1) left.appends.valid (omega arith))
        ]
    refuses (in_set e es) w depth v h = guarded depth λ d.
        elim (le_or_lt (depth + 1 + height e) max_expr_depth) [
          | inr deep ↦ rw (refuses e _ (depth + 1) (u8 w 8 v) deep)
          | inl fits ↦
              let left = serialize_expr-Writes e _ (depth + 1) (u8 w 8 v) fits in
              rw left.result (
                refuses_list es _ (depth + 1) (u32 _ (size es) left.appends.valid) (omega arith)
                  (omega arith))
        ]
    refuses (matches e p f) w depth v h =
        guarded depth λ d. rw (refuses e _ (depth + 1) (u8 w 9 v) (omega arith))
    refuses (call fn es) w depth v h = guarded depth λ d.
        refuses_list es _ (depth + 1) (u32 _ (size es) (u8 _ (fn_name_to_tag fn) (u8 w 10 v)))
          (omega arith) (omega arith)

    refuses_list :
        (es : Exprs Num) (w : BinaryWriter) (depth : ℕ)
        → IsValid w
        → depth ≤ max_expr_depth + 1
        → max_expr_depth + 1 < depth + heights es
        → serialize_exprs P es w depth ≡ err too_deep
    refuses_list nil w depth v h0 h = absurd (omega arith)
    refuses_list (cons e es) w depth v h0 h = elim (le_or_lt (depth + height e) max_expr_depth) [
      | inr deep ↦ rw (refuses e w depth v deep)
      | inl fits ↦
          let first = serialize_expr-Writes e w depth v fits in
          rw first.result (refuses_list es _ depth first.appends.valid h0 (omega arith))
    ]

  -- An expression whose deepest node would stand below the depth limit, counted from the depth that it
  -- is written at, is refused with the error of the limit, whatever a valid writer holds.
  pub serialize_expr-refuses :
      (e : Expr Num) (w : BinaryWriter) (depth : ℕ)
      → IsValid w
      → max_expr_depth < depth + height e
      → serialize_expr P e w depth ≡ err too_deep
  serialize_expr-refuses e w depth v h = refuses e w depth v h
