-- ===== src/Ast/Regex.antt =====
-- frontend/src/lib/ast/compiler.ts, `assertSafeRegexPattern`: a walk over a regular expression that
-- finds its star height. `rest` is the pattern from the source's index `i` on.
pub mod Total
pub mod Scan
use pactum.Prelude.{
  ℕ, zero, suc, ◌+◌, ◌-◌, ◌*◌, ◌^◌, max, Bool, true, false, not, ◌&&◌, ◌||◌, List, [], ◌∷◌, Option,
  none, some, if◌then◌else◌, ◌==◌, ltb, leb,
}
use pactum.Prelude.Results.{ok, ◌>>=◌}
use pactum.Ast.Types.{Text}
use pactum.Ast.Compiler.Errors.{
  Message, repetition_too_large, nested_quantifiers, out_of_fuel, AstPath, Compiles, fail,
  refuse_if,
}

-- LIMITS.MAX_REGEX_QUANTIFIER
abbrev pub max_regex_quantifier : ℕ
max_regex_quantifier = 1000

-- A decimal that rounds to `Infinity` as a double.
unfoldable pub is_infinite : ℕ → Bool
is_infinite n = leb (2 ^ 1024 - 2 ^ 970) n

-- `i < n && pattern[i] === c`
abbrev pub at : ℕ → Text → Bool
at c [] = false
at c (x ∷ xs) = x == c

abbrev pub advance : Text → Text
advance [] = []
advance (x ∷ xs) = xs

unfoldable pub consume_lazy : Text → Text
consume_lazy rest = if at b'?' rest then advance rest else rest

abbrev pub is_digit : ℕ → Bool
is_digit c = leb b'0' c && leb c b'9'

-- The digits at the front, as the number read so far with whether there was one, and the rest.
unfoldable pub read_digits : Text → Option ℕ → Option ℕ × Text
read_digits [] seen = (seen, [])
read_digits (c ∷ cs) none =
    let more = read_digits cs (some (c - b'0')) in if is_digit c then more else (none, c ∷ cs)
read_digits (c ∷ cs) (some n) =
    let more = read_digits cs (some (n * 10 + (c - b'0'))) in
    if is_digit c then more else (some n, c ∷ cs)

-- A bound, closed by `}`.
unfoldable pub close_brace : ℕ → Option ℕ × Text → Option ((ℕ × Option ℕ) × Text)
close_brace least (most, rest) = if at b'}' rest then some ((least, most), advance rest) else none

unfoldable pub read_upper : Option ℕ × Text → Option ((ℕ × Option ℕ) × Text)
read_upper (none, rest) = none
read_upper (some least, rest) =
    if at b',' rest
    then close_brace least (read_digits (advance rest) none)
    else close_brace least (some least, rest)

-- `{n}`, `{n,}` or `{n,m}`: its bounds, `none` above for no upper bound.
unfoldable pub read_bounds : Text → Option ((ℕ × Option ℕ) × Text)
read_bounds rest = read_upper (read_digits (advance rest) none)

-- `max > LIMITS.MAX_REGEX_QUANTIFIER` on a finite bound
unfoldable pub above_limit : Option ℕ → Bool
above_limit none = false
above_limit (some most) = not (is_infinite most) && ltb max_regex_quantifier most

-- `!Number.isFinite(max) || max >= 2`
unfoldable pub repeats : Option ℕ → Bool
repeats none = true
repeats (some most) = is_infinite most || leb 2 most

-- The characters of a class, up to the first `]` that is not escaped.
unfoldable pub skip_class : Text → Text
skip_class [] = []
skip_class (c ∷ []) = []
skip_class (c ∷ d ∷ cs) =
    let escaped = skip_class cs in
    let plain = skip_class (d ∷ cs) in
    if c == b']' then d ∷ cs else if c == b'\\' then escaped else plain

unfoldable pub skip_char_class : Text → Text
skip_char_class rest =
    let inner = advance rest in skip_class (if at b'^' inner then advance inner else inner)

-- `(?<name>`: through the closing `>`.
unfoldable pub skip_name : Text → Text
skip_name [] = []
skip_name (c ∷ cs) = let more = skip_name cs in if c == b'>' then cs else more

unfoldable pub skip_group_prefix : Text → Text
skip_group_prefix rest =
    if at b'?' rest
    then (let kind = advance rest in
        if at b':' kind || (at b'=' kind || at b'!' kind)
        then advance kind
        else if at b'<' kind
        then (let after = advance kind in
            if at b'=' after || at b'!' after then advance after else skip_name after)
        else kind)
    else rest

-- A star height, and the rest of the pattern.
abbrev pub Heights : Type 0
Heights = Compiles (ℕ × Text)

unfoldable pub close_group : ℕ × Text → ℕ × Text
close_group (height, rest) = (height, if at b')' rest then advance rest else rest)

-- `alternation` is the recursive call for a group.
unfoldable pub parse_atom : (Text → Heights) → Text → Heights
parse_atom alternation rest =
    if at b'\\' rest
    then ok (0, advance (advance rest))
    else if at b'[' rest
    then ok (0, skip_char_class rest)
    else if at b'(' rest
    then (do group ← alternation (skip_group_prefix (advance rest)); ok (close_group group))
    else ok (0, advance rest)

-- The quantifier in braces, if it is one: a literal `{` is left where it is.
unfoldable pub after_bounds : AstPath → ℕ × Text → Option ((ℕ × Option ℕ) × Text) → Heights
after_bounds path (height, rest) none = ok (height, rest)
after_bounds path (height, rest) (some ((least, most), after)) =
    refuse_if (ltb max_regex_quantifier least || above_limit most) repetition_too_large path
      (ok (if repeats most then height + 1 else height, consume_lazy after))

-- What follows an atom of the given height.
unfoldable pub parse_quantifier : AstPath → ℕ × Text → Heights
parse_quantifier path (height, rest) =
    if at b'*' rest || at b'+' rest
    then ok (height + 1, consume_lazy (advance rest))
    else if at b'?' rest
    then ok (height, consume_lazy (advance rest))
    else if at b'{' rest
    then after_bounds path (height, rest) (read_bounds rest)
    else ok (height, rest)

unfoldable pub parse_quantified : AstPath → (Text → Heights) → Text → Heights
parse_quantified path alternation rest = do
  atom ← parse_atom alternation rest
  parse_quantifier path atom

abbrev pub ends_concatenation : Text → Bool
ends_concatenation [] = true
ends_concatenation (c ∷ cs) = c == b'|' || c == b')'

unfoldable mutual
  pub parse_concatenation : AstPath → ℕ → Text → ℕ → Heights
  parse_concatenation path zero rest height = fail out_of_fuel path
  parse_concatenation path (suc fuel) rest height =
      if ends_concatenation rest then ok (height, rest) else (do
        (h, after) ← parse_quantified path (λ inner. parse_alternation path fuel inner) rest
        parse_concatenation path fuel after (max height h))

  pub parse_alternatives : AstPath → ℕ → ℕ × Text → Heights
  parse_alternatives path zero (height, rest) = fail out_of_fuel path
  parse_alternatives path (suc fuel) (height, rest) =
      if at b'|' rest
      then (do
        (h, after) ← parse_concatenation path fuel (advance rest) 0
        parse_alternatives path fuel (max height h, after))
      else ok (height, rest)

  pub parse_alternation : AstPath → ℕ → Text → Heights
  parse_alternation path zero rest = fail out_of_fuel path
  parse_alternation path (suc fuel) rest = do
    first ← parse_concatenation path fuel rest 0
    parse_alternatives path fuel first

-- Two calls for each character, and the two around the whole.
abbrev pub regex_fuel : Text → ℕ
regex_fuel [] = 3
regex_fuel (c ∷ cs) = suc (suc (regex_fuel cs))

unfoldable pub judge_height : AstPath → Heights → Compiles (Unit {0})
judge_height path walk = do
  (height, rest) ← walk
  refuse_if (leb 2 height) nested_quantifiers path (ok tt)

unfoldable pub assert_safe_regex_pattern : Text → AstPath → Compiles (Unit {0})
assert_safe_regex_pattern pattern path =
    judge_height path (parse_alternation path (regex_fuel pattern) pattern)
