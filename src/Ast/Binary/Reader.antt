-- ===== src/Ast/Binary/Reader.antt =====
-- `class BinaryReader` of binary.ts: a cursor over a byte buffer, whose reads throw at its end.
pub mod Cursor
use pactum.Prelude.{
  ℕ, zero, suc, ◌+◌, ◌-◌, ◌*◌, List, [], ◌∷◌, if◌then◌else◌, ltb, ◌==◌, length, take, drop, get_or,
  Option, none, some,
}
use pactum.Prelude.Results.{Result, ok, err, ◌>>=◌}
use pactum.Ast.Types.{Text}
use pactum.Ast.Binary.Platform.{Platform}

-- What binary.ts throws.
pub data CodecError : Type 0 where
  unexpected_eof invalid_value_tag too_deep unknown_compare_op unknown_arith_op : CodecError
  unknown_fn unknown_expr_tag invalid_magic unsupported_version out_of_fuel : CodecError

pub record BinaryReader : Type 0 where
  pub buffer : List ℕ
  pub offset : ℕ

abbrev pub Read {ℓ} : Type ℓ → Type ℓ
Read A = Result CodecError (A × BinaryReader)

unfoldable pub new_reader : List ℕ → BinaryReader
new_reader bytes = record { buffer = bytes; offset = 0 }

unfoldable pub remaining : BinaryReader → ℕ
remaining r = length r.buffer - r.offset

-- The bytes of an `Uint8Array` subarray.
abbrev pub subarray : List ℕ → ℕ → ℕ → List ℕ
subarray buf from n = take n (drop from buf)

unfoldable pub read_bytes : BinaryReader → ℕ → Read (List ℕ)
read_bytes r n =
    if ltb (length r.buffer) (r.offset + n)
    then err unexpected_eof
    else ok (subarray r.buffer r.offset n, record r { offset = r.offset + n })

unfoldable pub read_u8 : BinaryReader → Read ℕ
read_u8 r =
    if ltb (length r.buffer) (r.offset + 1)
    then err unexpected_eof
    else ok (get_or r.buffer r.offset 0, record r { offset = r.offset + 1 })

-- `getUint32(_, true)`
unfoldable pub u32_value : List ℕ → ℕ
u32_value bs =
    get_or bs 0 0 + get_or bs 1 0 * 256 + get_or bs 2 0 * 65536 + get_or bs 3 0 * 16777216

unfoldable pub read_u32 : BinaryReader → Read ℕ
read_u32 r =
    if ltb (length r.buffer) (r.offset + 4)
    then err unexpected_eof
    else ok (u32_value (subarray r.buffer r.offset 4), record r { offset = r.offset + 4 })

module _ (P : Platform) where
  open P use {Num, f64_value, utf8_decode}

  unfoldable pub read_f64 : BinaryReader → Read Num
  read_f64 r =
      if ltb (length r.buffer) (r.offset + 8)
      then err unexpected_eof
      else ok (f64_value (subarray r.buffer r.offset 8), record r { offset = r.offset + 8 })

  unfoldable pub read_string : BinaryReader → Read Text
  read_string r = do (n, r1) ← read_u32 r; (bytes, r2) ← read_bytes r1 n; ok (utf8_decode bytes, r2)

  unfoldable pub read_opt_string : BinaryReader → Read (Option Text)
  read_opt_string r = do
    (flag, r1) ← read_u8 r
    if flag == 0 then ok (none, r1) else (do (s, r2) ← read_string r1; ok (some s, r2))
