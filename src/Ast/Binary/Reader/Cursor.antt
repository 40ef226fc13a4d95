-- ===== src/Ast/Binary/Reader/Cursor.antt =====
-- What each read of the reader returns, in terms of the bytes that are still unread.
use pactum.Prelude.{
  ℕ, zero, suc, ◌+◌, ◌^◌, ◌≤◌, ◌<◌, ◌≡◌, refl, sym, ap, ◌∙◌, List, [], ◌∷◌, ◌++◌, append_assoc,
  length, length-append, length-drop, drop-drop, drop_left, take_left, take, drop, get_or, ltb,
  false, arith, Option, none, some,
}
use pactum.Prelude.Results.{ok, ◌>>=◌}
use pactum.Ast.Types.{Text}
use pactum.Ast.Binary.Platform.{Platform}
use pactum.Ast.Binary.Writer.{u32_bytes}
use pactum.Ast.Binary.Writer.Content.{string_bytes, opt_string_bytes}
use pactum.Ast.Binary.Reader.{
  BinaryReader, Read, read_bytes, read_u8, read_u32, u32_value, read_f64, read_string,
  read_opt_string,
}

abbrev pub unread : BinaryReader → List ℕ
unread r = drop r.offset r.buffer

-- The reader stands inside its buffer, before `bytes`.
pub record At (r : BinaryReader) (bytes : List ℕ) : Type 0 where
  pub inside : r.offset ≤ length r.buffer
  pub ahead : unread r ≡ bytes

-- The read succeeds with `a` and leaves `rest` unread.
pub record Returns {ℓ} {A : Type ℓ} (m : Read A) (a : A) (rest : List ℕ) : Type ℓ where
  pub reader : BinaryReader
  pub result : m ≡ ok (a, reader)
  pub at : At reader rest

pub Returns-ok {ℓ} :
    {A : Type ℓ} (a : A) {r : BinaryReader} {rest : List ℕ} → At r rest → Returns (ok (a, r)) a rest
Returns-ok a {r} h = record { reader = r; result = refl; at = h }

pub Returns-bind {ℓ κ} :
    {A : Type ℓ} {B : Type κ} {m : Read A} {a : A} {mid : List ℕ} (f : A × BinaryReader → Read B)
    {b : B} {rest : List ℕ}
    → Returns m a mid
    → ((r : BinaryReader) → At r mid → Returns (f (a, r)) b rest)
    → Returns (m >>= f) b rest
Returns-bind f h k = rw h.result (k h.reader h.at)

length-unread :
    (r : BinaryReader) (bs rest : List ℕ)
    → At r (bs ++ rest)
    → r.offset + length bs + length rest ≡ length r.buffer
length-unread r bs rest h =
    omega (arith, h.inside, length-drop r.offset r.buffer, ap length h.ahead, length-append bs rest)

pub At-advance :
    (r : BinaryReader) (bs rest : List ℕ) (n : ℕ)
    → At r (bs ++ rest)
    → length bs ≡ n
    → At (record r { offset = r.offset + n }) rest
At-advance r bs rest n h e = record {
  inside = omega (arith, length-unread r bs rest h);
  ahead = sym (drop-drop n r.offset r.buffer) ∙ ap (drop n) h.ahead ∙ drop_left bs rest n e;
}

get_or_get : (xs : List ℕ) (i v : ℕ) (ys : List ℕ) → drop i xs ≡ v ∷ ys → get_or xs i 0 ≡ v
get_or_get [] zero v ys h = cc
get_or_get [] (suc i) v ys h = cc
get_or_get (x ∷ xs) zero v ys h = ground arith
get_or_get (x ∷ xs) (suc i) v ys h = get_or_get xs i v ys h

-- Four bytes, least significant first, hold every number below 2^32.
pub u32_value-u32_bytes : (n : ℕ) → n < 2 ^ 32 → u32_value (u32_bytes n) ≡ n
unfolding u32_value u32_bytes
u32_value-u32_bytes n h = omega arith

module _ (r : BinaryReader) where
  no_eof :
      (bs rest : List ℕ) (n : ℕ)
      → At r (bs ++ rest)
      → length bs ≡ n
      → ltb (length r.buffer) (r.offset + n) ≡ false
  no_eof bs rest n h e = let l = length-unread r bs rest h in ground (arith, l)

  seen : (bs rest : List ℕ) (n : ℕ) → At r (bs ++ rest) → length bs ≡ n → take n (unread r) ≡ bs
  seen bs rest n h e = ap (take n) h.ahead ∙ take_left bs rest n e

  pub read_bytes-Returns :
      (bs rest : List ℕ) (n : ℕ)
      → At r (bs ++ rest)
      → length bs ≡ n
      → Returns (read_bytes r n) bs rest
  unfolding read_bytes
  read_bytes-Returns bs rest n h e =
      rw (no_eof bs rest n h e, seen bs rest n h e) (Returns-ok bs (At-advance r bs rest n h e))

  pub read_u8-Returns : (b : ℕ) (rest : List ℕ) → At r (b ∷ rest) → Returns (read_u8 r) b rest
  unfolding read_u8
  read_u8-Returns b rest h =
      rw (no_eof (b ∷ []) rest 1 h refl, get_or_get r.buffer r.offset b rest h.ahead)
        (Returns-ok b (At-advance r (b ∷ []) rest 1 h refl))

  pub read_u32-Returns :
      (n : ℕ) (rest : List ℕ)
      → n < 2 ^ 32
      → At r (u32_bytes n ++ rest)
      → Returns (read_u32 r) n rest
  unfolding read_u32 u32_bytes
  read_u32-Returns n rest small h =
      rw
        (
          no_eof (u32_bytes n) rest 4 h refl,
          seen (u32_bytes n) rest 4 h refl,
          u32_value-u32_bytes n small,
        )
        (Returns-ok n (At-advance r (u32_bytes n) rest 4 h refl))

module _ (P : Platform) where
  open P use {Num, f64_bytes, f64_value, utf8_encode, utf8_decode}

  -- `TextDecoder` gives back what `TextEncoder` was given: no lone surrogate, no leading byte order
  -- mark, and the length fits the 32-bit prefix.
  pub record IsPortable (s : Text) : Type 0 where
    pub decodes : utf8_decode (utf8_encode s) ≡ s
    pub short : length (utf8_encode s) < 2 ^ 32

  abbrev pub IsPortable? : Option Text → Type 0
  IsPortable? none = Unit
  IsPortable? (some s) = IsPortable s

  pub read_f64-Returns :
      (r : BinaryReader) (x : Num) (rest : List ℕ)
      → At r (f64_bytes x ++ rest)
      → Returns (read_f64 P r) x rest
  unfolding read_f64
  read_f64-Returns r x rest h =
      rw
        (
          no_eof r (f64_bytes x) rest 8 h (P.length-f64_bytes x),
          seen r (f64_bytes x) rest 8 h (P.length-f64_bytes x),
          P.f64_value-f64_bytes x,
        )
        (Returns-ok x (At-advance r (f64_bytes x) rest 8 h (P.length-f64_bytes x)))

  pub read_string-Returns :
      (r : BinaryReader) (s : Text) (rest : List ℕ)
      → IsPortable s
      → At r (string_bytes P s ++ rest)
      → Returns (read_string P r) s rest
  unfolding read_string
  read_string-Returns r s rest ok_s h =
      let bytes = utf8_encode s in
      Returns-bind _
        (read_u32-Returns r (length bytes) (bytes ++ rest) ok_s.short
          (rw (append_assoc (u32_bytes (length bytes)) bytes rest) at h))
        λ r1 h1.
          Returns-bind _ (read_bytes-Returns r1 bytes rest (length bytes) h1 refl)
            λ r2 h2. rw ok_s.decodes (Returns-ok s h2)

  pub read_opt_string-Returns :
      (r : BinaryReader) (o : Option Text) (rest : List ℕ)
      → IsPortable? o
      → At r (opt_string_bytes P o ++ rest)
      → Returns (read_opt_string P r) o rest
  unfolding read_opt_string
  read_opt_string-Returns r none rest p h =
      Returns-bind _ (read_u8-Returns r 0 rest h) λ r1 h1. Returns-ok none h1
  read_opt_string-Returns r (some s) rest p h =
      Returns-bind _ (read_u8-Returns r 1 (string_bytes P s ++ rest) h)
        λ r1 h1. Returns-bind _ (read_string-Returns r1 s rest p h1) λ r2 h2. Returns-ok (some s) h2
