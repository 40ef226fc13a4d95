-- ===== src/Ast/Binary/Decode/Reads.antt =====
-- What holds of a read of any bytes: the combinators of the proof that it ends inside the buffer.
use pactum.Prelude.{
  ℕ, ◌+◌, ◌≤◌, ◌≡◌, refl, ap, ◌∙◌, ◌≢◌, inl, inr, length, ltb, if◌then◌else◌, Bool-cases, Bool,
  true, false, arith, Option, none, some,
}
use pactum.Prelude.Results.{ok, err, ◌>>=◌}
use pactum.Ast.Binary.Reader.{
  CodecError, out_of_fuel, unexpected_eof, BinaryReader, Read, read_u8, read_u32, read_bytes,
}
use pactum.Ast.Binary.Decode.{known}

-- `r'` has moved on from `r` in the same buffer, and not past its end.
pub record Advances (r r' : BinaryReader) : Type 0 where
  pub same : r'.buffer ≡ r.buffer
  pub forward : r.offset ≤ r'.offset
  pub bounded : r'.offset ≤ length r.buffer

-- The read does not run out of fuel, and what it returns has `Q`, with the reader moved on.
abbrev pub Ensures : {A : Type 0} → BinaryReader → (A → Type 0) → Read A → Type 0
Ensures r Q (ok (a, r')) = Advances r r' × Q a
Ensures r Q (err e) = e ≢ out_of_fuel

-- For a value of which nothing is asked.
abbrev pub Any : {A : Type 0} → A → Type 0
Any a = Unit

weaken :
    {A : Type 0} {r r' : BinaryReader} (Q : A → Type 0) (m : Read A)
    → Advances r r'
    → Ensures r' Q m
    → Ensures r Q m
weaken Q (ok (a, r'')) adv h = (
  record {
    same = h.0.same ∙ adv.same;
    forward = omega (arith, adv.forward, h.0.forward);
    bounded = omega (arith, h.0.bounded, ap length adv.same);
  },
  h.1,
)
weaken Q (err e) adv h = h

pub bind :
    {A B : Type 0} (r : BinaryReader) (Q : A → Type 0) (Q' : B → Type 0) (m : Read A)
    (f : A × BinaryReader → Read B)
    → Ensures r Q m
    → ((a : A) (r' : BinaryReader) → r'.offset ≤ length r'.buffer → Q a → Ensures r' Q' (f (a, r')))
    → Ensures r Q' (m >>= f)
bind r Q Q' (ok (a, r')) f h k =
    weaken Q' (f (a, r')) h.0 (k a r' (omega (arith, h.0.bounded, ap length h.0.same)) h.1)
bind r Q Q' (err e) f h k = h

-- `r` moved on by `n` bytes that are there.
step :
    (r : BinaryReader) (n : ℕ)
    → ltb (length r.buffer) (r.offset + n) ≡ false
    → Advances r (record r { offset = r.offset + n })
step r n h = record { same = refl; forward = omega arith; bounded = ground arith }

pub primitive :
    {A : Type 0} (r : BinaryReader) (n : ℕ) (a : A)
    → Ensures r Any (
        if ltb (length r.buffer) (r.offset + n)
        then err unexpected_eof
        else ok (a, record r { offset = r.offset + n }))
primitive r n a = elim (Bool-cases (ltb (length r.buffer) (r.offset + n))) [
  | inl eof ↦ rw (eof, Ensures) (λ e. cc)
  | inr fits ↦ rw (fits, Ensures) (step r n fits, tt)
]

pub u8_ends : (r : BinaryReader) → Ensures r Any (read_u8 r)
unfolding read_u8
u8_ends r = primitive r 1 _

pub u32_ends : (r : BinaryReader) → Ensures r Any (read_u32 r)
unfolding read_u32
u32_ends r = primitive r 4 _

pub bytes_end : (r : BinaryReader) (n : ℕ) → Ensures r Any (read_bytes r n)
unfolding read_bytes
bytes_end r n = primitive r n _

pub stays : (r : BinaryReader) → r.offset ≤ length r.buffer → Advances r r
stays r h = record { same = refl; forward = omega arith; bounded = h }

-- `ok` with the reader where it stands.
pub return :
    {A : Type 0} (r : BinaryReader) (Q : A → Type 0) (a : A)
    → r.offset ≤ length r.buffer
    → Q a
    → Ensures r Q (ok (a, r))
return r Q a h q = (stays r h, q)

pub branch :
    {A : Type 0} (r : BinaryReader) (Q : A → Type 0) (b : Bool) (x y : Read A)
    → Ensures r Q x
    → Ensures r Q y
    → Ensures r Q (if b then x else y)
branch r Q true x y hx hy = hx
branch r Q false x y hx hy = hy

pub lookup_ends :
    {A B : Type 0} (r : BinaryReader) (Q : B → Type 0) (o : Option A) (e : CodecError)
    (f : A → Read B)
    → e ≢ out_of_fuel
    → ((a : A) → Ensures r Q (f a))
    → Ensures r Q (known o e >>= f)
lookup_ends r Q none e f h k = h
lookup_ends r Q (some a) e f h k = k a

pub Ensures-map :
    {A : Type 0} (r : BinaryReader) (Q Q' : A → Type 0) (m : Read A)
    → Ensures r Q m
    → ((a : A) → Q a → Q' a)
    → Ensures r Q' m
Ensures-map r Q Q' (ok (a, r')) h k = (h.0, k a h.1)
Ensures-map r Q Q' (err e) h k = h

-- A read followed by a constructor.
pub then_ok :
    {A B : Type 0} (r : BinaryReader) (Q : A → Type 0) (Q' : B → Type 0) (m : Read A) (g : A → B)
    → Ensures r Q m
    → ((a : A) → Q a → Q' (g a))
    → Ensures r Q' (m >>= λ x. ok (g x.0, x.1))
then_ok r Q Q' (ok (a, r')) g h k = (h.0, k a h.1)
then_ok r Q Q' (err e) g h k = h
