-- ===== src/Prelude/Js/Sets.antt =====
-- `Set`: distinct elements, oldest first.
use mathlib.Core.Path.{◌≡◌, refl}
use mathlib.Core.Bool.{Bool, false, ◌||◌}
use mathlib.Core.List.{List, [], ◌∷◌}
use native.Mathlib.Omega.{arith}
use pactum.Prelude.Tests.{if◌then◌else◌}
use pactum.Prelude.Js.Keys.{Key}

abbrev pub JsSet : Type 0 → Type 0
JsSet K = List K

module _ {K : Type 0} ⦃key : Key K⦄ where
  unfoldable pub has : JsSet K → K → Bool
  has [] a = false
  has (x ∷ xs) a = key.same x a || has xs a

  unfoldable pub add : JsSet K → K → JsSet K
  add [] a = a ∷ []
  add (x ∷ xs) a = x ∷ (if key.same x a then xs else add xs a)

  unfoldable pub remove : JsSet K → K → JsSet K
  remove [] a = []
  remove (x ∷ xs) a = if key.same x a then xs else x ∷ remove xs a

  abbrev pub Distinct : JsSet K → Type 0
  Distinct [] = Unit {0}
  Distinct (x ∷ xs) = (has xs x ≡ false) × Distinct xs

  pub has-add : (s : JsSet K) (a b : K) → has (add s a) b ≡ (key.same a b || has s b)
  unfolding has add
  has-add [] a b = refl
  has-add (x ∷ xs) a b =
      ground (arith, has-add xs a b, key.same_iff x a, key.same_iff a b, key.same_iff x b)

  pub has-remove :
      (s : JsSet K) (a b : K)
      → Distinct s
      → has (remove s a) b ≡ (if key.same a b then false else has s b)
  unfolding has remove
  has-remove [] a b d = ground arith
  has-remove (x ∷ xs) a b d =
      ground
        (arith, has-remove xs a b d.1, key.same_iff x a, key.same_iff a b, key.same_iff x b, d.0)

  pub add-Distinct : (s : JsSet K) (a : K) → Distinct s → Distinct (add s a)
  unfolding add has
  add-Distinct [] a d = (refl, tt)
  add-Distinct (x ∷ xs) a d =
      ground (arith, add-Distinct xs a d.1, has-add xs a x, key.same_iff x a, key.same_iff a x)

  pub remove-Distinct : (s : JsSet K) (a : K) → Distinct s → Distinct (remove s a)
  unfolding remove has
  remove-Distinct [] a d = tt
  remove-Distinct (x ∷ xs) a d = ground (arith, remove-Distinct xs a d.1, has-remove xs a x d.1)
