-- ===== src/Ast/Compiler/Spelling.antt =====
-- The words and the field paths of the language are recognised as they are written.
use pactum.Prelude.{ℕ, suc, ◌≡◌, refl, ap, false, not, List, [], ◌∷◌, some, ◌==◌, All, arith}
use pactum.Prelude.Results.{ok, err, ◌>>=◌}
use pactum.Ast.Types.{
  Text, CompareOp, eq, ne, gt, ge, lt, le, ArithOp, add, sub, mul, div, rem, FnName, now, to_number,
  to_date, len, lower, upper, trim, is_blank, abs, days, hours, Exprs, nil, cons,
}
use pactum.Ast.Values.{split, size}
use pactum.Ast.Compiler.Errors.{AstPath, Compiles}
use pactum.Ast.Compiler.Words.{compare_op_of, arith_op_of, fn_of, check_segments, check_field_path}
use pactum.Ast.Compiler.Documents.{
  compare_word, arith_word, fn_word, count, document, documents, IsSegment, IsFieldPath,
}

-- A compilation that succeeds with a result of which `Q` holds.
abbrev pub Yields : {A : Type 0} → (A → ℕ → Type 0) → Compiles (A × ℕ) → Type 0
Yields Q (ok (a, m)) = Q a m
Yields Q (err e) = ⊥

pub bind :
    {A B : Type 0} (Q : A → ℕ → Type 0) (Q' : B → ℕ → Type 0) (m : Compiles (A × ℕ))
    (f : A × ℕ → Compiles (B × ℕ))
    → Yields Q m
    → ((a : A) (n : ℕ) → Q a n → Yields Q' (f (a, n)))
    → Yields Q' (m >>= f)
bind Q Q' (ok (a, n)) f h k = k a n h
bind Q Q' (err e) f h k = absurd h

pub restart :
    {A : Type 0} {Q Q' : A → ℕ → Type 0} (r : Compiles (A × ℕ))
    → Yields Q r
    → ((a : A) (n : ℕ) → Q a n → Q' a n)
    → Yields Q' r
restart (ok (a, n)) h k = k a n h
restart (err e) h k = h

pub arity_passes : (m n : ℕ) → m ≡ n → not (m == n) ≡ false
arity_passes m n h = ground arith

pub compare_word_lem : (op : CompareOp) → compare_op_of (compare_word op) ≡ some op
unfolding compare_op_of
compare_word_lem eq = refl
compare_word_lem ne = refl
compare_word_lem gt = refl
compare_word_lem ge = refl
compare_word_lem lt = refl
compare_word_lem le = refl

pub arith_word_lem : (op : ArithOp) → arith_op_of (arith_word op) ≡ some op
unfolding arith_op_of
arith_word_lem add = refl
arith_word_lem sub = refl
arith_word_lem mul = refl
arith_word_lem div = refl
arith_word_lem rem = refl

pub fn_word_lem : (fn : FnName) → fn_of (fn_word fn) ≡ some fn
unfolding fn_of
fn_word_lem now = refl
fn_word_lem to_number = refl
fn_word_lem to_date = refl
fn_word_lem len = refl
fn_word_lem lower = refl
fn_word_lem upper = refl
fn_word_lem trim = refl
fn_word_lem is_blank = refl
fn_word_lem abs = refl
fn_word_lem days = refl
fn_word_lem hours = refl

segments_pass :
    (path : AstPath) (ss : List Text) → All IsSegment ss → check_segments path ss ≡ ok tt
unfolding check_segments
segments_pass path [] h = refl
segments_pass path (s ∷ ss) h = ground (arith, segments_pass path ss h.1)

pub field_path_passes :
    (name : Text) (path : AstPath) → IsFieldPath name → check_field_path name path ≡ ok name
unfolding check_field_path
field_path_passes name path h = ground (arith, segments_pass path (split b'.' name) h.2)

pub size-documents : {N : Type 0} (es : Exprs N) → size (documents es) ≡ count es
unfolding document
size-documents nil = refl
size-documents (cons e es) = ap suc (size-documents es)
