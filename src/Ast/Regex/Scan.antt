-- ===== src/Ast/Regex/Scan.antt =====
-- The helpers of the walk over a regular expression never lengthen what is left of it.
use pactum.Prelude.{
  ℕ, zero, suc, ◌+◌, ◌-◌, ◌*◌, ◌≤◌, [], ◌∷◌, Option, none, some, Bool-cases, inl, inr, length,
  arith,
}
use pactum.Ast.Types.{Text}
use pactum.Ast.Regex.{
  advance, consume_lazy, is_digit, read_digits, skip_class, skip_char_class, skip_name,
  skip_group_prefix,
}

pub length-advance : (t : Text) → length (advance t) ≤ length t
length-advance [] = omega arith
length-advance (c ∷ cs) = omega arith

pub length-consume_lazy : (t : Text) → length (consume_lazy t) ≤ length t
unfolding consume_lazy
length-consume_lazy t = ground (arith, length-advance t)

pub length-read_digits : (t : Text) (seen : Option ℕ) → length (read_digits t seen).1 ≤ length t
unfolding read_digits
length-read_digits [] seen = omega arith
length-read_digits (c ∷ cs) none = elim (Bool-cases (is_digit c)) [
  | inl digit ↦ rw digit (omega (arith, length-read_digits cs (some (c - b'0'))))
  | inr other ↦ rw other (omega arith)
]
length-read_digits (c ∷ cs) (some n) = elim (Bool-cases (is_digit c)) [
  | inl digit ↦ rw digit (omega (arith, length-read_digits cs (some (n * 10 + (c - b'0')))))
  | inr other ↦ rw other (omega arith)
]

length-skip_class : (n : ℕ) (t : Text) → length t ≤ n → length (skip_class t) ≤ length t
unfolding skip_class
length-skip_class n [] h = omega arith
length-skip_class n (c ∷ []) h = omega arith
length-skip_class zero (c ∷ d ∷ cs) h = absurd (omega arith)
length-skip_class (suc n) (c ∷ d ∷ cs) h =
    ground (arith, length-skip_class n cs (omega arith), length-skip_class n (d ∷ cs) (omega arith))

pub length-skip_char_class : (t : Text) → length (skip_char_class t) ≤ length (advance t)
unfolding skip_char_class
length-skip_char_class t = ground (
  arith,
  length-advance (advance t),
  length-skip_class (length (advance t)) (advance t) (omega arith),
  length-skip_class (length (advance t)) (advance (advance t))
      (omega (arith, length-advance (advance t))),
)

length-skip_name : (t : Text) → length (skip_name t) ≤ length t
unfolding skip_name
length-skip_name [] = omega arith
length-skip_name (c ∷ cs) = ground (arith, length-skip_name cs)

pub length-skip_group_prefix : (t : Text) → length (skip_group_prefix t) ≤ length t
unfolding skip_group_prefix
length-skip_group_prefix t = ground (
  arith,
  length-advance t,
  length-advance (advance t),
  length-advance (advance (advance t)),
  length-skip_name (advance (advance t)),
)
