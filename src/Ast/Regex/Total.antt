-- ===== src/Ast/Regex/Total.antt =====
-- The walk over a regular expression ends within its fuel, whatever the pattern is.
use pactum.Prelude.{
  ℕ, zero, suc, ◌+◌, ◌*◌, ◌≤◌, ◌≡◌, ◌≢◌, refl, ◌||◌, [], ◌∷◌, Option, none, some, Bool-cases, inl,
  inr, length, max, ltb, ◌==◌, arith,
}
use pactum.Prelude.Results.{ok, err, ◌>>=◌}
use pactum.Ast.Types.{Text}
use pactum.Ast.Compiler.Errors.{AstValidationError, out_of_fuel, AstPath}
use pactum.Ast.Regex.{
  at, advance, close_brace, read_upper, read_bounds, above_limit, skip_group_prefix, Heights,
  close_group, parse_atom, parse_quantifier, parse_quantified, parse_concatenation,
  parse_alternatives, parse_alternation, regex_fuel, after_bounds, judge_height,
  assert_safe_regex_pattern, max_regex_quantifier,
}
use pactum.Ast.Regex.Scan.{
  length-advance, length-consume_lazy, length-read_digits, length-skip_char_class,
  length-skip_group_prefix,
}

-- A walk that does not run out of fuel, with at most `n` characters left.
abbrev Leaves : ℕ → Heights → Type 0
Leaves n (ok (height, rest)) = length rest ≤ n
Leaves n (err e) = e.message ≢ out_of_fuel

grow : (n : ℕ) (r : Heights) → Leaves n r → Leaves (suc n) r
grow n (ok (height, rest)) h = omega arith
grow n (err e) h = h

bind :
    (n m : ℕ) (r : Heights) (f : ℕ × Text → Heights)
    → Leaves n r
    → ((height : ℕ) (rest : Text) → length rest ≤ n → Leaves m (f (height, rest)))
    → Leaves m (r >>= f)
bind n m (ok (height, rest)) f h k = k height rest h
bind n m (err e) f h k = h

-- What is left after the bounds of a quantifier, if they are there.
abbrev LeavesBounds : ℕ → Option ((ℕ × Option ℕ) × Text) → Type 0
LeavesBounds n none = Unit {0}
LeavesBounds n (some (bounds, rest)) = length rest ≤ n

close_brace-Leaves :
    (n least : ℕ) (most : Option ℕ) (rest : Text)
    → length rest ≤ n
    → LeavesBounds n (close_brace least (most, rest))
unfolding close_brace
close_brace-Leaves n least most rest h = elim (Bool-cases (at b'}' rest)) [
  | inl closed ↦ rw closed (omega (arith, length-advance rest))
  | inr open_ ↦ rw open_ tt
]

read_upper-Leaves :
    (n : ℕ) (least : Option ℕ) (rest : Text)
    → length rest ≤ n
    → LeavesBounds n (read_upper (least, rest))
unfolding read_upper
read_upper-Leaves n none rest h = tt
read_upper-Leaves n (some least) rest h = elim (Bool-cases (at b',' rest)) [
  | inl comma ↦ rw comma (
      close_brace-Leaves n least _ _
        (omega (arith, length-read_digits (advance rest) none, length-advance rest)))
  | inr single ↦ rw single (close_brace-Leaves n least (some least) rest h)
]

read_bounds-Leaves : (n : ℕ) (t : Text) → length t ≤ n → LeavesBounds n (read_bounds t)
unfolding read_bounds
read_bounds-Leaves n t h =
    read_upper-Leaves n _ _ (omega (arith, length-read_digits (advance t) none, length-advance t))

bounds_use :
    (n height : ℕ) (rest : Text) (path : AstPath) (b : Option ((ℕ × Option ℕ) × Text))
    → length rest ≤ n
    → LeavesBounds n b
    → Leaves n (after_bounds path (height, rest) b)
unfolding after_bounds
bounds_use n height rest path none h k = h
bounds_use n height rest path (some ((least, most), after)) h k =
    elim (Bool-cases (ltb max_regex_quantifier least || above_limit most)) [
      | inl large ↦ rw large (λ e. cc)
      | inr fits ↦ rw fits (omega (arith, length-consume_lazy after))
    ]

parse_quantifier-Leaves :
    (n height : ℕ) (rest : Text) (path : AstPath)
    → length rest ≤ n
    → Leaves n (parse_quantifier path (height, rest))
unfolding parse_quantifier
parse_quantifier-Leaves n height rest path h = elim (Bool-cases (at b'*' rest || at b'+' rest)) [
  | inl star ↦ rw star (omega (arith, length-consume_lazy (advance rest), length-advance rest))
  | inr other ↦ rw other (elim (Bool-cases (at b'?' rest)) [
    | inl optional ↦
        rw optional (omega (arith, length-consume_lazy (advance rest), length-advance rest))
    | inr other' ↦ rw other' (elim (Bool-cases (at b'{' rest)) [
      | inl brace ↦
          rw brace
            (bounds_use n height rest path (read_bounds rest) h (read_bounds-Leaves n rest h))
      | inr plain ↦ rw plain h
    ])
  ])
]

-- An atom takes a character at least.
parse_atom-Leaves :
    (alternation : Text → Heights) (n c : ℕ) (cs : Text)
    → length cs ≤ n
    → ((inner : Text) → length inner ≤ n → Leaves n (alternation inner))
    → Leaves n (parse_atom alternation (c ∷ cs))
unfolding parse_atom close_group
parse_atom-Leaves alternation n c cs h group = elim (Bool-cases (c == b'\\')) [
  | inl escape ↦ rw escape (omega (arith, length-advance cs))
  | inr other ↦ rw other (elim (Bool-cases (c == b'[')) [
    | inl class ↦ rw class (omega (arith, length-skip_char_class (c ∷ cs)))
    | inr other' ↦ rw other' (elim (Bool-cases (c == b'(')) [
      | inl opens ↦ rw opens (
          bind n n (alternation (skip_group_prefix cs)) _
            (group (skip_group_prefix cs) (omega (arith, length-skip_group_prefix cs)))
            (λ height rest k. ground (arith, length-advance rest)))
      | inr plain ↦ rw plain h
    ])
  ])
]

parse_quantified-Leaves :
    (alternation : Text → Heights) (path : AstPath) (n c : ℕ) (cs : Text)
    → length cs ≤ n
    → ((inner : Text) → length inner ≤ n → Leaves n (alternation inner))
    → Leaves n (parse_quantified path alternation (c ∷ cs))
unfolding parse_quantified
parse_quantified-Leaves alternation path n c cs h group =
    bind n n (parse_atom alternation (c ∷ cs)) _ (parse_atom-Leaves alternation n c cs h group)
      (λ height rest k. parse_quantifier-Leaves n height rest path k)

-- Two calls for each character are enough for each of the three.
mutual
  unfolding parse_concatenation parse_alternatives parse_alternation

  concatenation-Leaves :
      (path : AstPath) (fuel n : ℕ) (rest : Text) (height : ℕ)
      → length rest ≤ n
      → 2 * n + 1 ≤ fuel
      → Leaves n (parse_concatenation path fuel rest height)
  concatenation-Leaves path zero n rest height h f = absurd (omega arith)
  concatenation-Leaves path (suc fuel) n [] height h f = h
  concatenation-Leaves path (suc fuel) zero (c ∷ cs) height h f = absurd (omega arith)
  concatenation-Leaves path (suc fuel) (suc n) (c ∷ cs) height h f =
      elim (Bool-cases (c == b'|' || c == b')')) [
        | inl ends ↦ rw ends h
        | inr more ↦ rw more (
            bind n (suc n)
              (parse_quantified path (λ inner. parse_alternation path fuel inner) (c ∷ cs)) _
              (parse_quantified-Leaves _ path n c cs (omega arith)
                (λ inner k. alternation-Leaves path fuel n inner k (omega arith)))
              (λ q after k.
                grow n _ (concatenation-Leaves path fuel n after (max height q) k (omega arith))))
      ]

  alternatives-Leaves :
      (path : AstPath) (fuel n height : ℕ) (rest : Text)
      → length rest ≤ n
      → 2 * n + 1 ≤ fuel
      → Leaves n (parse_alternatives path fuel (height, rest))
  alternatives-Leaves path zero n height rest h f = absurd (omega arith)
  alternatives-Leaves path (suc fuel) n height [] h f = h
  alternatives-Leaves path (suc fuel) zero height (c ∷ cs) h f = absurd (omega arith)
  alternatives-Leaves path (suc fuel) (suc n) height (c ∷ cs) h f = elim (Bool-cases (c == b'|')) [
    | inl bar ↦ rw bar (
        bind n (suc n) (parse_concatenation path fuel cs 0) _
          (concatenation-Leaves path fuel n cs 0 (omega arith) (omega arith))
          (λ q after k.
            grow n _ (alternatives-Leaves path fuel n (max height q) after k (omega arith))))
    | inr ends ↦ rw ends h
  ]

  alternation-Leaves :
      (path : AstPath) (fuel n : ℕ) (rest : Text)
      → length rest ≤ n
      → 2 * n + 2 ≤ fuel
      → Leaves n (parse_alternation path fuel rest)
  alternation-Leaves path zero n rest h f = absurd (omega arith)
  alternation-Leaves path (suc fuel) n rest h f =
      bind n n (parse_concatenation path fuel rest 0) _
        (concatenation-Leaves path fuel n rest 0 h (omega arith))
        (λ q after k. alternatives-Leaves path fuel n q after k (omega arith))

regex_fuel_lem : (t : Text) → regex_fuel t ≡ 2 * length t + 3
regex_fuel_lem [] = refl
regex_fuel_lem (c ∷ cs) = omega (arith, regex_fuel_lem cs)

refused :
    (n : ℕ) (path : AstPath) (r : Heights) {e : AstValidationError}
    → Leaves n r
    → judge_height path r ≡ err e
    → e.message ≢ out_of_fuel
unfolding judge_height
refused n path (ok (height, rest)) h k = ground arith
refused n path (err e') h k = ground arith

-- On any pattern the walk ends within its fuel: it accepts the pattern or refuses it with an error
-- of its own.
pub assert_safe_regex_pattern-ends :
    (pattern : Text) (path : AstPath) (e : AstValidationError)
    → assert_safe_regex_pattern pattern path ≡ err e
    → e.message ≢ out_of_fuel
unfolding assert_safe_regex_pattern
assert_safe_regex_pattern-ends pattern path e h =
    refused (length pattern) path (parse_alternation path (regex_fuel pattern) pattern)
      (alternation-Leaves path (regex_fuel pattern) (length pattern) pattern (omega arith)
        (omega (arith, regex_fuel_lem pattern)))
      h
