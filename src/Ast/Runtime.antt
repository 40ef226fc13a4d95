-- ===== src/Ast/Runtime.antt =====
-- frontend/src/lib/ast/compiler.ts, the helpers on runtime values that compiled rules call.
use pactum.Prelude.{
  Bool, true, false, not, ◌&&◌, ◌||◌, [], ◌∷◌, Option, none, some, if◌then◌else◌, ◌==◌, ltb, length,
  text_eq, codes,
}
use pactum.Ast.Types.{
  Text, RuntimeValue, null, bool, num, str, CompareOp, eq, ne, gt, ge, lt, le, ArithOp, add, sub,
  mul, div, rem, FnName, now, to_number, to_date, len, lower, upper, trim, is_blank, abs, days,
  hours,
}
use pactum.Ast.Values.{Script, Value, missing, scalar, array, object, bigint}

-- The results -1, 0 and 1 of `order`.
pub data Sign : Type 0 where
  below same above : Sign

-- `a < b` on strings, by code units.
unfoldable pub text_lt : Text → Text → Bool
text_lt xs [] = false
text_lt [] (y ∷ ys) = true
text_lt (x ∷ xs) (y ∷ ys) = ltb x y || (x == y && text_lt xs ys)

module _ (S : Script) where
  open S use {
    Num, nan, of_nat, is_nan, is_finite, num_eq, num_lt, plus, minus, times, divided, remainder,
    absolute, parse_number, number_text, parse_date, to_lower_case, to_upper_case, trim_text,
  }

  unfoldable pub stringify : RuntimeValue Num → Text
  stringify null = []
  stringify (bool true) = codes "true"
  stringify (bool false) = codes "false"
  stringify (num n) = number_text n
  stringify (str s) = s

  unfoldable pub as_number : RuntimeValue Num → Num
  as_number null = nan
  as_number (bool b) = nan
  as_number (num n) = n
  as_number (str s) =
      let trimmed = trim_text s in if length trimmed == 0 then nan else parse_number trimmed

  unfoldable pub truthy : RuntimeValue Num → Bool
  truthy null = false
  truthy (bool b) = b
  truthy (num n) = not (num_eq n (of_nat 0)) && not (is_nan n)
  truthy (str s) = ltb 0 (length s)

  unfoldable pub equals : RuntimeValue Num → RuntimeValue Num → Bool
  equals null null = true
  equals (bool true) (bool b) = b
  equals (bool false) (bool b) = not b
  equals (num m) (num n) = num_eq m n
  equals (str s) (str t) = text_eq s t
  equals _ _ = false

  unfoldable pub order : RuntimeValue Num → RuntimeValue Num → Option Sign
  order (num a) (num b) =
      if is_nan a || is_nan b
      then none
      else some (if num_lt a b then below else if num_lt b a then above else same)
  order (str a) (str b) = some (if text_lt a b then below else if text_lt b a then above else same)
  order _ _ = none

  -- The `switch` of `applyCompare` on a comparison that is not null.
  unfoldable pub by_sign : CompareOp → Sign → Bool
  by_sign gt above = true
  by_sign gt _ = false
  by_sign ge below = false
  by_sign ge _ = true
  by_sign lt below = true
  by_sign lt _ = false
  by_sign le above = false
  by_sign le _ = true
  by_sign _ _ = false

  unfoldable pub compare_ordered : CompareOp → Option Sign → Bool
  compare_ordered op none = false
  compare_ordered op (some sign) = by_sign op sign

  unfoldable pub apply_compare : CompareOp → RuntimeValue Num → RuntimeValue Num → Bool
  apply_compare eq a b = equals a b
  apply_compare ne a b = not (equals a b)
  apply_compare op a b = compare_ordered op (order a b)

  unfoldable pub calculate : ArithOp → Num → Num → RuntimeValue Num
  calculate add x y = num (plus x y)
  calculate sub x y = num (minus x y)
  calculate mul x y = num (times x y)
  calculate div x y = if num_eq y (of_nat 0) then null else num (divided x y)
  calculate rem x y = if num_eq y (of_nat 0) then null else num (remainder x y)

  unfoldable pub apply_arith : ArithOp → RuntimeValue Num → RuntimeValue Num → RuntimeValue Num
  apply_arith op a b =
      let x = as_number a in
      let y = as_number b in if is_nan x || is_nan y then null else calculate op x y

  -- `Number.isNaN(n) ? null : f(n)`
  unfoldable pub unless_nan : Num → (Num → Num) → RuntimeValue Num
  unless_nan n f = if is_nan n then null else num (f n)

  unfoldable pub date_value : RuntimeValue Num → RuntimeValue Num
  date_value (num n) = if is_finite n then num n else null
  date_value (str s) = unless_nan (parse_date s) (λ ms. ms)
  date_value _ = null

  unfoldable pub blank : RuntimeValue Num → Bool
  blank null = true
  blank v = length (trim_text (stringify v)) == 0

  -- `UNARY_FNS`; `now` is handled where it is compiled.
  unfoldable pub apply_fn : FnName → RuntimeValue Num → RuntimeValue Num
  apply_fn now v = null
  apply_fn to_number v = unless_nan (as_number v) (λ n. n)
  apply_fn to_date v = date_value v
  apply_fn len v = num (of_nat (length (stringify v)))
  apply_fn lower v = str (to_lower_case (stringify v))
  apply_fn upper v = str (to_upper_case (stringify v))
  apply_fn trim v = str (trim_text (stringify v))
  apply_fn is_blank v = bool (blank v)
  apply_fn abs v = unless_nan (as_number v) absolute
  apply_fn days v = unless_nan (as_number v) (λ n. times n (of_nat 86400000))
  apply_fn hours v = unless_nan (as_number v) (λ n. times n (of_nat 3600000))

  unfoldable pub normalize_field_value : Value Num → RuntimeValue Num
  normalize_field_value (scalar v) = v
  normalize_field_value missing = null
  normalize_field_value (bigint n) = num (S.of_bigint n)
  normalize_field_value (array items) = null
  normalize_field_value (object fields) = null
