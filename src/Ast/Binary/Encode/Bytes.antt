-- ===== src/Ast/Binary/Encode/Bytes.antt =====
-- The binary format, independent of the writer: the bytes of an expression, its height, and which
-- rule sets the format can carry.
use pactum.Prelude.{
  ℕ, suc, ◌^◌, ◌≤◌, ◌<◌, max, ◌≡◌, List, [], ◌∷◌, ◌++◌, if◌then◌else◌, length, Option, none, some,
}
use pactum.Ast.Types.{
  RuntimeValue, null, bool, num, str, Expr, Exprs, lit, field, neg, all_of, any_of, compare, calc,
  in_set, matches, call, nil, cons, Rule, RuleSet,
}
use pactum.Ast.Binary.Platform.{Platform}
use pactum.Ast.Binary.Tags.{compare_op_to_tag, arith_op_to_tag, fn_name_to_tag}
use pactum.Ast.Binary.Writer.{u32_bytes}
use pactum.Ast.Binary.Writer.Content.{string_bytes, opt_string_bytes}
use pactum.Ast.Binary.Reader.Cursor.{IsPortable, IsPortable?}
use pactum.Ast.Binary.Encode.{size, magic_header, max_expr_depth}

module _ (P : Platform) where
  open P use {Num, f64_bytes}

  unfoldable pub value_bytes : RuntimeValue Num → List ℕ
  value_bytes null = 0 ∷ []
  value_bytes (bool b) = (if b then 2 else 1) ∷ []
  value_bytes (num x) = 3 ∷ f64_bytes x
  value_bytes (str s) = 4 ∷ string_bytes P s

  unfoldable mutual
    pub expr_bytes : Expr Num → List ℕ
    expr_bytes (lit value) = 1 ∷ value_bytes value
    expr_bytes (field name) = 2 ∷ string_bytes P name
    expr_bytes (neg operand) = 3 ∷ expr_bytes operand
    expr_bytes (all_of es) = 4 ∷ u32_bytes (size es) ++ exprs_bytes es
    expr_bytes (any_of es) = 5 ∷ u32_bytes (size es) ++ exprs_bytes es
    expr_bytes (compare op l r) = 6 ∷ compare_op_to_tag op ∷ expr_bytes l ++ expr_bytes r
    expr_bytes (calc op l r) = 7 ∷ arith_op_to_tag op ∷ expr_bytes l ++ expr_bytes r
    expr_bytes (in_set v es) = 8 ∷ expr_bytes v ++ (u32_bytes (size es) ++ exprs_bytes es)
    expr_bytes (matches v p f) = 9 ∷ expr_bytes v ++ (string_bytes P p ++ opt_string_bytes P f)
    expr_bytes (call fn es) = 10 ∷ fn_name_to_tag fn ∷ u32_bytes (size es) ++ exprs_bytes es

    pub exprs_bytes : Exprs Num → List ℕ
    exprs_bytes nil = []
    exprs_bytes (cons e es) = expr_bytes e ++ exprs_bytes es

  unfoldable pub when_bytes : Option (Expr Num) → List ℕ
  when_bytes none = 0 ∷ []
  when_bytes (some e) = 1 ∷ expr_bytes e

  unfoldable pub rule_bytes : Rule Num → List ℕ
  rule_bytes r =
      string_bytes P r.field_name
      ++ (string_bytes P r.message
          ++ (opt_string_bytes P r.id ++ (expr_bytes r.check ++ when_bytes r.guard)))

  unfoldable pub rules_bytes : List (Rule Num) → List ℕ
  rules_bytes [] = []
  rules_bytes (r ∷ rs) = rule_bytes r ++ rules_bytes rs

  unfoldable pub rule_set_bytes : RuleSet Num → List ℕ
  rule_set_bytes s =
      magic_header ++ (u32_bytes s.version ++ (u32_bytes (length s.rules) ++ rules_bytes s.rules))

-- The greatest `depth` at which a node of the expression stands, the root at 0.
unfoldable mutual
  pub height : {N : Type 0} → Expr N → ℕ
  height (lit _) = 0
  height (field _) = 0
  height (neg e) = suc (height e)
  height (all_of es) = heights es
  height (any_of es) = heights es
  height (compare _ l r) = suc (max (height l) (height r))
  height (calc _ l r) = suc (max (height l) (height r))
  height (in_set v es) = max (suc (height v)) (heights es)
  height (matches v _ _) = suc (height v)
  height (call _ es) = heights es

  pub heights : {N : Type 0} → Exprs N → ℕ
  heights nil = 0
  heights (cons e es) = max (suc (height e)) (heights es)

module _ (P : Platform) where
  open P use {Num}

  abbrev pub IsPortableValue : RuntimeValue Num → Type 0
  IsPortableValue null = Unit
  IsPortableValue (bool b) = Unit
  IsPortableValue (num x) = Unit
  IsPortableValue (str s) = IsPortable P s

  -- Its strings survive the text codec, and its lists fit their 32-bit counts.
  abbrev mutual
    pub IsPortableExpr : Expr Num → Type 0
    IsPortableExpr (lit v) = IsPortableValue v
    IsPortableExpr (field n) = IsPortable P n
    IsPortableExpr (neg e) = IsPortableExpr e
    IsPortableExpr (all_of es) = (size es < 2 ^ 32) × IsPortableExprs es
    IsPortableExpr (any_of es) = (size es < 2 ^ 32) × IsPortableExprs es
    IsPortableExpr (compare _ l r) = IsPortableExpr l × IsPortableExpr r
    IsPortableExpr (calc _ l r) = IsPortableExpr l × IsPortableExpr r
    IsPortableExpr (in_set v es) = IsPortableExpr v × (size es < 2 ^ 32) × IsPortableExprs es
    IsPortableExpr (matches v p f) = IsPortableExpr v × IsPortable P p × IsPortable? P f
    IsPortableExpr (call _ es) = (size es < 2 ^ 32) × IsPortableExprs es

    pub IsPortableExprs : Exprs Num → Type 0
    IsPortableExprs nil = Unit
    IsPortableExprs (cons e es) = IsPortableExpr e × IsPortableExprs es

  -- `guard` and `check` of a rule start at depth 0.
  abbrev pub IsPortableWhen : Option (Expr Num) → Type 0
  IsPortableWhen none = Unit
  IsPortableWhen (some e) = IsPortableExpr e × (height e ≤ max_expr_depth)

  pub record IsPortableRule (r : Rule Num) : Type 0 where
    pub field_portable : IsPortable P r.field_name
    pub message_portable : IsPortable P r.message
    pub id_portable : IsPortable? P r.id
    pub check_portable : IsPortableExpr r.check
    pub check_shallow : height r.check ≤ max_expr_depth
    pub guard_portable : IsPortableWhen r.guard

  abbrev pub IsPortableRules : List (Rule Num) → Type 0
  IsPortableRules [] = Unit
  IsPortableRules (r ∷ rs) = IsPortableRule r × IsPortableRules rs

  pub record IsPortableRuleSet (s : RuleSet Num) : Type 0 where
    pub version_known : s.version ≡ 1
    pub few : length s.rules < 2 ^ 32
    pub rules_portable : IsPortableRules s.rules
