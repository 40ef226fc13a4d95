-- ===== src/Ast/Values.antt =====
-- The values that the rule compiler and the form resolver of frontend/src/lib/ast/ handle: documents
-- parsed from JSON, form values, and what the code takes from the JavaScript language.
use pactum.Prelude.Int.{ℤ}
use pactum.Prelude.{
  ℕ, suc, ◌+◌, ◌≡◌, Bool, true, List, [], ◌∷◌, Option, none, some, if◌then◌else◌, ◌==◌, text_eq,
  codes,
}
use pactum.Ast.Types.{Text, RuntimeValue, num}

-- Numbers (IEEE doubles), `Date.parse`, the case mappings of strings and `RegExp`.
pub record Script : Type 1 where
  pub Num : Type 0
  pub nan : Num
  pub of_nat : ℕ → Num
  -- `Number(value)` of a bigint
  pub of_bigint : ℤ → Num
  pub is_nan : Num → Bool
  pub is_finite : Num → Bool
  pub num_eq : Num → Num → Bool
  pub num_lt : Num → Num → Bool
  pub plus : Num → Num → Num
  pub minus : Num → Num → Num
  pub times : Num → Num → Num
  pub divided : Num → Num → Num
  pub remainder : Num → Num → Num
  pub absolute : Num → Num
  pub parse_number : Text → Num
  pub number_text : Num → Text
  pub parse_date : Text → Num
  pub to_lower_case : Text → Text
  pub to_upper_case : Text → Text
  pub trim_text : Text → Text
  -- `new RegExp(pattern, flags)`, `none` where it throws; the value is its `test`.
  pub regexp : Text → Text → Option (Text → Bool)
  pub is_nan-nan : is_nan nan ≡ true
  pub num_eq-of_nat : (n : ℕ) → num_eq (of_nat n) (of_nat n) ≡ true

mutual
  -- An `unknown` value. `scalar` is a string, number, boolean or null.
  pub data Value (N : Type 0) : Type 0 where
    missing : Value N
    scalar : RuntimeValue N → Value N
    array : Items N → Value N
    object : Fields N → Value N
    bigint : ℤ → Value N

  pub data Items (N : Type 0) : Type 0 where
    end : Items N
    item : Value N → Items N → Items N

  pub data Fields (N : Type 0) : Type 0 where
    empty : Fields N
    entry : Text → Value N → Fields N → Fields N

module _ {N : Type 0} where
  -- `items.length`
  abbrev pub size : Items N → ℕ
  size end = 0
  size (item v vs) = suc (size vs)

  -- `Object.prototype.hasOwnProperty.call(fields, key)` and the read that follows it.
  unfoldable pub own_field : Fields N → Text → Option (Value N)
  unfolding text_eq
  own_field empty key = none
  own_field (entry k v fs) key = if text_eq k key then some v else own_field fs key

  -- `fields[key]`
  unfoldable pub read_field : Fields N → Text → Value N
  unfolding text_eq
  read_field empty key = missing
  read_field (entry k v fs) key = if text_eq k key then v else read_field fs key

-- `text.split(separator)`
unfoldable pub prepend : ℕ → List Text → List Text
prepend c [] = (c ∷ []) ∷ []
prepend c (s ∷ ss) = (c ∷ s) ∷ ss

unfoldable pub split : ℕ → Text → List Text
split separator [] = [] ∷ []
split separator (c ∷ cs) =
    let rest = split separator cs in if c == separator then [] ∷ rest else prepend c rest

module _ (S : Script) where
  open S use {Num, of_nat, number_text}

  -- An array has its indices, written in decimal, as own properties.
  unfoldable pub own_item : Items Num → ℕ → Text → Option (Value Num)
  own_item end i key = none
  own_item (item v vs) i key =
      if text_eq (number_text (of_nat i)) key then some v else own_item vs (i + 1) key

  -- An own property of an object or an array, whose `length` is one.
  unfoldable pub own_property : Value Num → Text → Option (Value Num)
  own_property (object fields) key = own_field fields key
  own_property (array items) key =
      if text_eq key (codes "length")
      then some (scalar (num (of_nat (size items))))
      else own_item items 0 key
  own_property _ key = none
