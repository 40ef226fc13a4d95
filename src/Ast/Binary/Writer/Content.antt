-- ===== src/Ast/Binary/Writer/Content.antt =====
-- What the writer promises: each write appends its bytes to those already written, whatever the
-- capacity, and `offset` stays inside the buffer.
use pactum.Prelude.{
  ℕ, zero, suc, ◌+◌, ◌-◌, ◌*◌, ◌%◌, ◌≤◌, ◌<◌, max, ◌≡◌, refl, sym, ap, ◌∙◌, inl, inr, List, [], ◌∷◌,
  ◌++◌, append_assoc, append-nil, length, length-append, length-take_le, length-replicate,
  length-set, length-drop, take_left, take-set_self, take, drop, replicate, leb, Bool-cases, arith,
  Option, none, some,
}
use native.Mathlib.Numerals.{add-one}
use pactum.Ast.Types.{Text}
use pactum.Ast.Binary.Platform.{Platform}
use pactum.Ast.Binary.Writer.{
  BinaryWriter, new_writer, grow, ensure_capacity, blit, u32_bytes, put, write_u8, write_u32,
  write_bytes, write_f64, write_string, write_opt_string, to_bytes,
}

grow-le : (fuel target cap : ℕ) → 0 < cap → target ≤ fuel + cap → target ≤ grow fuel target cap
unfolding grow
grow-le zero target cap pos h = omega arith
grow-le (suc fuel) target cap pos h = ground (arith, grow-le fuel target (cap * 2))

pub record IsValid (w : BinaryWriter) : Type 0 where
  pub within : w.offset ≤ length w.buffer

pub record Fits (w w' : BinaryWriter) (needed : ℕ) : Type 0 where
  pub offset_same : w'.offset ≡ w.offset
  pub bytes_same : to_bytes w' ≡ to_bytes w
  pub room : w.offset + needed ≤ length w'.buffer

ensure_capacity-Fits :
    (w : BinaryWriter) (needed : ℕ) → IsValid w → Fits w (ensure_capacity w needed) needed
unfolding ensure_capacity to_bytes
ensure_capacity-Fits w needed v = elim (Bool-cases (leb (w.offset + needed) (length w.buffer))) [
  | inl enough ↦
      rw (enough, ensure_capacity)
        (record { offset_same = refl; bytes_same = refl; room = ground arith })
  | inr short ↦
      rw (short, ensure_capacity)
        (record {
          offset_same = refl;
          bytes_same = take_left (take w.offset w.buffer) _ w.offset kept;
          room = omega (
            arith,
            length-append (take w.offset w.buffer) (replicate (cap - w.offset) 0),
            length-replicate {A = ℕ} (cap - w.offset) 0,
            kept,
            grow-le (w.offset + needed) (w.offset + needed) (max (length w.buffer * 2) 64),
          );
        })
]
  where
    cap : ℕ
    cap = grow (w.offset + needed) (w.offset + needed) (max (length w.buffer * 2) 64)

    kept : length (take w.offset w.buffer) ≡ w.offset
    kept = length-take_le w.offset w.buffer v.within

blit-take :
    (buf : List ℕ) (i : ℕ) (bytes : List ℕ)
    → i ≤ length buf
    → take (i + length bytes) (blit buf i bytes) ≡ take i buf ++ bytes
unfolding blit
blit-take buf i bytes h = rw (← append_assoc (take i buf) bytes (drop (i + length bytes) buf)) (
    take_left (take i buf ++ bytes) _ (i + length bytes)
      (omega (arith, length-append (take i buf) bytes, length-take_le i buf h)))

length-blit :
    (buf : List ℕ) (i : ℕ) (bytes : List ℕ)
    → i + length bytes ≤ length buf
    → length (blit buf i bytes) ≡ length buf
unfolding blit
length-blit buf i bytes h = omega (
  arith,
  length-append (take i buf) (bytes ++ drop (i + length bytes) buf),
  length-append bytes (drop (i + length bytes) buf),
  length-drop (i + length bytes) buf,
  length-take_le i buf,
)

-- `w'` holds what `w` holds, and then `bytes`.
pub record Appends (w w' : BinaryWriter) (bytes : List ℕ) : Type 0 where
  pub valid : IsValid w'
  pub appended : to_bytes w' ≡ to_bytes w ++ bytes

put-Appends : (w : BinaryWriter) (bytes : List ℕ) → IsValid w → Appends w (put w bytes) bytes
unfolding put to_bytes
put-Appends w bytes v = record {
  valid = record {
    within = omega (arith, fits.room, fits.offset_same, length-blit w'.buffer w'.offset bytes);
  };
  appended =
      blit-take w'.buffer w'.offset bytes (omega (arith, fits.room, fits.offset_same))
      ∙ ap (λ (l : List ℕ). l ++ bytes) fits.bytes_same;
}
  where
    w' : BinaryWriter
    w' = ensure_capacity w (length bytes)

    fits : Fits w w' (length bytes)
    fits = ensure_capacity-Fits w (length bytes) v

pub write_u8-Appends :
    (w : BinaryWriter) (val : ℕ) → IsValid w → Appends w (write_u8 w val) (val % 256 ∷ [])
unfolding write_u8 to_bytes
write_u8-Appends w val v = record {
  valid = record {
    within = omega (arith, fits.room, fits.offset_same, length-set w'.buffer w'.offset (val % 256));
  };
  appended =
      rw add-one
        (take-set_self w'.buffer w'.offset (val % 256) (omega (arith, fits.room, fits.offset_same)))
      ∙ ap (λ (l : List ℕ). l ++ val % 256 ∷ []) fits.bytes_same;
}
  where
    w' : BinaryWriter
    w' = ensure_capacity w 1

    fits : Fits w w' 1
    fits = ensure_capacity-Fits w 1 v

pub write_u32-Appends :
    (w : BinaryWriter) (val : ℕ) → IsValid w → Appends w (write_u32 w val) (u32_bytes val)
unfolding write_u32
write_u32-Appends w val v = put-Appends w (u32_bytes val) v

pub write_bytes-Appends :
    (w : BinaryWriter) (bytes : List ℕ) → IsValid w → Appends w (write_bytes w bytes) bytes
unfolding write_bytes
write_bytes-Appends w bytes v = put-Appends w bytes v

pub Appends-trans :
    {w w' w'' : BinaryWriter} {xs ys : List ℕ}
    → Appends w w' xs
    → Appends w' w'' ys
    → Appends w w'' (xs ++ ys)
Appends-trans {w} {xs} {ys} p q = record {
  valid = q.valid;
  appended = rw (q.appended, p.appended) (append_assoc (to_bytes w) xs ys);
}

pub Appends-refl : {w : BinaryWriter} → IsValid w → Appends w w []
Appends-refl {w} v = record { valid = v; appended = sym (append-nil (to_bytes w)) }

module _ (P : Platform) where
  open P use {Num, f64_bytes, utf8_encode}

  abbrev pub string_bytes : Text → List ℕ
  string_bytes s = u32_bytes (length (utf8_encode s)) ++ utf8_encode s

  abbrev pub opt_string_bytes : Option Text → List ℕ
  opt_string_bytes none = 0 ∷ []
  opt_string_bytes (some s) = 1 ∷ string_bytes s

  pub write_f64-Appends :
      (w : BinaryWriter) (x : Num) → IsValid w → Appends w (write_f64 P w x) (f64_bytes x)
  unfolding write_f64
  write_f64-Appends w x v = put-Appends w (f64_bytes x) v

  pub write_string-Appends :
      (w : BinaryWriter) (s : Text) → IsValid w → Appends w (write_string P w s) (string_bytes s)
  unfolding write_string
  write_string-Appends w s v =
      let first = write_u32-Appends w (length (utf8_encode s)) v in
      Appends-trans first (write_bytes-Appends _ (utf8_encode s) first.valid)

  pub write_opt_string-Appends :
      (w : BinaryWriter) (o : Option Text)
      → IsValid w
      → Appends w (write_opt_string P w o) (opt_string_bytes o)
  unfolding write_opt_string
  write_opt_string-Appends w none v = write_u8-Appends w 0 v
  write_opt_string-Appends w (some s) v =
      let first = write_u8-Appends w 1 v in
      Appends-trans first (write_string-Appends _ s first.valid)

pub new_writer-IsValid :
    (n : ℕ) (w : BinaryWriter) → new_writer n ≡ some w → IsValid w × (to_bytes w ≡ [])
unfolding new_writer to_bytes
new_writer-IsValid n w h = (record { within = ground arith }, ground arith)
