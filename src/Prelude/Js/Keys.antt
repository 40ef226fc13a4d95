-- ===== src/Prelude/Js/Keys.antt =====
-- What a `Map` or `Set` needs of its keys.
use Prim.Native.Nat.{ℕ}
use mathlib.Core.Path.{◌≡◌, refl}
use mathlib.Core.Logic.{◌↔◌}
use mathlib.Core.Bool.{Bool, true}
use native.Mathlib.Omega.{arith}
use pactum.Prelude.Tests.{◌==◌, ==_iff}
use pactum.Prelude.Texts.{Text, text_eq, text_eq→eq, text_eq_refl}

pub record Key (K : Type 0) : Type 0 where
  pub same : K → K → Bool
  pub same_iff : (a b : K) → (same a b ≡ true) ↔ (a ≡ b)

instance abbrev pub nat_key : Key ℕ
nat_key = record { same = ◌==◌; same_iff = ==_iff }

pub text_eq_iff : (a b : Text) → (text_eq a b ≡ true) ↔ (a ≡ b)
text_eq_iff a b = (text_eq→eq a b, λ e. rw e (text_eq_refl b))

instance abbrev pub text_key : Key Text
text_key = record { same = text_eq; same_iff = text_eq_iff }

module _ {K : Type 0} ⦃key : Key K⦄ where
  pub same_refl : (a : K) → key.same a a ≡ true
  same_refl a = (key.same_iff a a).1 refl

  pub same_sym : (a b : K) → key.same a b ≡ key.same b a
  same_sym a b = ground (arith, key.same_iff a b, key.same_iff b a)
