-- ===== src/Ast/Binary/Platform.antt =====
-- What binary.ts takes from the JavaScript platform: IEEE doubles with `DataView.setFloat64` and
-- `getFloat64`, and `TextEncoder` and `TextDecoder`.
use pactum.Prelude.{ℕ, ◌≡◌, List, length}
use pactum.Ast.Types.{Text}

pub record Platform : Type 1 where
  pub Num : Type 0
  pub f64_bytes : Num → List ℕ
  pub f64_value : List ℕ → Num
  pub utf8_encode : Text → List ℕ
  pub utf8_decode : List ℕ → Text
  pub length-f64_bytes : (x : Num) → length (f64_bytes x) ≡ 8
  pub f64_value-f64_bytes : (x : Num) → f64_value (f64_bytes x) ≡ x
