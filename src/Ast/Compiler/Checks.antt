-- ===== src/Ast/Compiler/Checks.antt =====
-- The checks of the compiler end with an error of their own, and the rules for chains of them.
use pactum.Prelude.{
  ℕ, ◌≤◌, ◌≡◌, ◌≢◌, refl, Bool, not, List, [], ◌∷◌, Option, none, some, Bool-cases, inl, inr, ltb,
  ◌==◌, length, arith,
}
use pactum.Prelude.Results.{ok, err, ◌>>=◌}
use pactum.Ast.Types.{Text, null, bool, num, str}
use pactum.Ast.Values.{Value, missing, scalar, array, object, bigint, split}
use pactum.Ast.Regex.{assert_safe_regex_pattern}
use pactum.Ast.Regex.Total.{assert_safe_regex_pattern-ends}
use pactum.Ast.Compiler.Errors.{
  segment_empty, segment_reserved, segment_invalid, path_empty, path_too_long, flags_invalid,
  pattern_too_long, Message, AstValidationError, out_of_fuel, AstPath, Compiles, refuse_if,
}
use pactum.Ast.Compiler.Words.{
  max_nodes_per_rule, max_regex_len, max_field_path_segments, is_reserved, is_segment_text,
  check_segments, check_field_path, assert_valid_field_path,
}
use pactum.Ast.Compiler.{known, flags_allowed, flags_of, pattern_of, items_of}

-- A check that does not run out of fuel.
abbrev pub Ends : {A : Type 0} → Compiles A → Type 0
Ends (ok a) = Unit {0}
Ends (err e) = e.message ≢ out_of_fuel

-- A compilation that does not, and that leaves the budget at least at `n` and within the limit.
abbrev pub Spends : {A : Type 0} → ℕ → Compiles (A × ℕ) → Type 0
Spends n (ok (a, nodes)) = (n ≤ nodes) × (nodes ≤ max_nodes_per_rule)
Spends n (err e) = e.message ≢ out_of_fuel

pub after :
    {A B : Type 0} (n : ℕ) (m : Compiles A) (f : A → Compiles (B × ℕ))
    → Ends m
    → ((a : A) → Spends n (f a))
    → Spends n (m >>= f)
after n (ok a) f h k = k a
after n (err e) f h k = h

pub bind :
    {A B : Type 0} (n : ℕ) (m : Compiles (A × ℕ)) (f : A × ℕ → Compiles (B × ℕ))
    → Spends n m
    → ((a : A) (nodes : ℕ) → n ≤ nodes → nodes ≤ max_nodes_per_rule → Spends n (f (a, nodes)))
    → Spends n (m >>= f)
bind n (ok (a, nodes)) f h k = k a nodes h.0 h.1
bind n (err e) f h k = h

pub lower : {A : Type 0} (n m : ℕ) (r : Compiles (A × ℕ)) → n ≤ m → Spends m r → Spends n r
lower n m (ok (a, nodes)) h k = (omega arith, omega arith)
lower n m (err e) h k = k

pub refused :
    {A : Type 0} (n : ℕ) (test : Bool) (what : Message) (place : AstPath) (r : Compiles (A × ℕ))
    → what ≢ out_of_fuel
    → Spends n r
    → Spends n (refuse_if test what place r)
refused n test what place r h k = elim (Bool-cases test) [
  | inl hit ↦ rw hit h
  | inr miss ↦ rw miss k
]

pub check :
    {A : Type 0} (test : Bool) (what : Message) (place : AstPath) (r : Compiles A)
    → what ≢ out_of_fuel
    → Ends r
    → Ends (refuse_if test what place r)
check test what place r h k = elim (Bool-cases test) [ inl hit ↦ rw hit h | inr miss ↦ rw miss k ]

pub then_check :
    {A B : Type 0} (m : Compiles A) (f : A → Compiles B)
    → Ends m
    → ((a : A) → Ends (f a))
    → Ends (m >>= f)
then_check (ok a) f h k = k a
then_check (err e) f h k = h

pub known_ends :
    {A : Type 0} (o : Option A) (what : Message) (place : AstPath)
    → what ≢ out_of_fuel
    → Ends (known o what place)
known_ends none what place h = h
known_ends (some a) what place h = tt

segments_end : (path : AstPath) (ss : List Text) → Ends (check_segments path ss)
unfolding check_segments
segments_end path [] = tt
segments_end path (s ∷ ss) =
    let rest : Compiles (Unit {0}) = check_segments path ss in
    let valid = refuse_if (not (is_segment_text s)) segment_invalid path rest in
    let open_ = refuse_if (is_reserved s) segment_reserved path valid in
    check (length s == 0) segment_empty path open_ (λ e. cc)
      (check (is_reserved s) segment_reserved path valid (λ e. cc)
        (check (not (is_segment_text s)) segment_invalid path rest (λ e. cc)
          (segments_end path ss)))

field_path_ends : (name : Text) (path : AstPath) → Ends (check_field_path name path)
unfolding check_field_path
field_path_ends name path =
    let segments = split b'.' name in
    let checked : Compiles Text = (check_segments path segments >>= λ done. ok name) in
    let short =
      refuse_if (ltb max_field_path_segments (length segments)) path_too_long path checked in
    check (length name == 0) path_empty path short (λ e. cc)
      (check (ltb max_field_path_segments (length segments)) path_too_long path checked (λ e. cc)
        (then_check (check_segments path segments) _ (segments_end path segments) (λ _. tt)))

pub valid_path_ends :
    {N : Type 0} (v : Value N) (path : AstPath) → Ends (assert_valid_field_path v path)
unfolding assert_valid_field_path
valid_path_ends missing path = λ e. cc
valid_path_ends (scalar null) path = λ e. cc
valid_path_ends (scalar (bool b)) path = λ e. cc
valid_path_ends (scalar (num n)) path = λ e. cc
valid_path_ends (scalar (str s)) path = field_path_ends s path
valid_path_ends (array items) path = λ e. cc
valid_path_ends (object fields) path = λ e. cc
valid_path_ends (bigint n) path = λ e. cc

pub flags_end : {N : Type 0} (v : Value N) (path : AstPath) → Ends (flags_of v path)
unfolding flags_of
flags_end missing path = tt
flags_end (scalar null) path = λ e. cc
flags_end (scalar (bool b)) path = λ e. cc
flags_end (scalar (num n)) path = λ e. cc
flags_end (scalar (str s)) path =
    check (not (flags_allowed s)) flags_invalid path (ok s) (λ e. cc) tt
flags_end (array items) path = λ e. cc
flags_end (object fields) path = λ e. cc
flags_end (bigint n) path = λ e. cc

pub pattern_ends : {N : Type 0} (v : Value N) (path : AstPath) → Ends (pattern_of v path)
unfolding pattern_of
pattern_ends missing path = λ e. cc
pattern_ends (scalar null) path = λ e. cc
pattern_ends (scalar (bool b)) path = λ e. cc
pattern_ends (scalar (num n)) path = λ e. cc
pattern_ends (scalar (str s)) path =
    check (ltb max_regex_len (length s)) pattern_too_long path (ok s) (λ e. cc) tt
pattern_ends (array items) path = λ e. cc
pattern_ends (object fields) path = λ e. cc
pattern_ends (bigint n) path = λ e. cc

pub items_end :
    {N : Type 0} (v : Value N) (what : Message) (path : AstPath)
    → what ≢ out_of_fuel
    → Ends (items_of v what path)
unfolding items_of
items_end (array items) what path h = tt
items_end missing what path h = h
items_end (scalar v) what path h = h
items_end (object fields) what path h = h
items_end (bigint n) what path h = h

pub regex_ends : (pattern : Text) (path : AstPath) → Ends (assert_safe_regex_pattern pattern path)
regex_ends pattern path = unless_fuel _ (assert_safe_regex_pattern-ends pattern path)
  where
    unless_fuel :
        (r : Compiles (Unit {0}))
        → ((e : AstValidationError) → r ≡ err e → e.message ≢ out_of_fuel)
        → Ends r
    unless_fuel (ok a) h = tt
    unless_fuel (err e) h = h e refl
