-- ===== src/Ast/Binary/Writer.antt =====
-- `class BinaryWriter` of binary.ts: a byte buffer that grows by doubling.
pub mod Content
use pactum.Prelude.{
  ℕ, zero, suc, ◌+◌, ◌-◌, ◌*◌, ◌/◌, ◌%◌, List, [], ◌∷◌, ◌++◌, Bool, if◌then◌else◌, ltb, leb, length,
  take, drop, set, replicate, max, Option, none, some,
}
use pactum.Ast.Types.{Text}
use pactum.Ast.Binary.Platform.{Platform}

pub record BinaryWriter : Type 0 where
  pub buffer : List ℕ
  pub offset : ℕ

-- `none` is the RangeError of the constructor.
unfoldable pub new_writer : ℕ → Option BinaryWriter
new_writer initial_capacity =
    if ltb initial_capacity 1
    then none
    else some (record { buffer = replicate initial_capacity 0; offset = 0 })

-- `while (offset + needed > nextCap) nextCap *= 2`
unfoldable pub grow : ℕ → ℕ → ℕ → ℕ
grow zero target cap = cap
grow (suc fuel) target cap = elim (ltb cap target) [
  | Bool.true ↦ grow fuel target (cap * 2)
  | Bool.false ↦ cap
]

unfoldable pub ensure_capacity : BinaryWriter → ℕ → BinaryWriter
ensure_capacity w needed =
    if leb (w.offset + needed) (length w.buffer)
    then w
    else let cap = grow (w.offset + needed) (w.offset + needed) (max (length w.buffer * 2) 64) in
      record w { buffer = take w.offset w.buffer ++ replicate (cap - w.offset) 0 }

-- `buffer.set(bytes, offset)`
unfoldable pub blit : List ℕ → ℕ → List ℕ → List ℕ
blit buf i bytes = take i buf ++ (bytes ++ drop (i + length bytes) buf)

-- `setUint32(_, val, true)`
unfoldable pub u32_bytes : ℕ → List ℕ
u32_bytes val = (val % 256) ∷ (val / 256 % 256) ∷ (val / 65536 % 256) ∷ (val / 16777216 % 256) ∷ []

unfoldable pub put : BinaryWriter → List ℕ → BinaryWriter
put w bytes =
    let w' = ensure_capacity w (length bytes) in
    record w' { buffer = blit w'.buffer w'.offset bytes; offset = w'.offset + length bytes }

unfoldable pub write_u8 : BinaryWriter → ℕ → BinaryWriter
write_u8 w val =
    let w' = ensure_capacity w 1 in
    record w' { buffer = set w'.buffer w'.offset (val % 256); offset = w'.offset + 1 }

unfoldable pub write_u32 : BinaryWriter → ℕ → BinaryWriter
write_u32 w val = put w (u32_bytes val)

unfoldable pub write_bytes : BinaryWriter → List ℕ → BinaryWriter
write_bytes w bytes = put w bytes

module _ (P : Platform) where
  open P use {Num, f64_bytes, utf8_encode}

  unfoldable pub write_f64 : BinaryWriter → Num → BinaryWriter
  write_f64 w val = put w (f64_bytes val)

  unfoldable pub write_string : BinaryWriter → Text → BinaryWriter
  write_string w s =
      let encoded = utf8_encode s in write_bytes (write_u32 w (length encoded)) encoded

  unfoldable pub write_opt_string : BinaryWriter → Option Text → BinaryWriter
  write_opt_string w none = write_u8 w 0
  write_opt_string w (some s) = write_string (write_u8 w 1) s

unfoldable pub to_bytes : BinaryWriter → List ℕ
to_bytes w = take w.offset w.buffer
