-- ===== src/Prelude/Js/Maps.antt =====
-- `Map`: one entry for each key, a new key at the end.
use mathlib.Core.Path.{◌≡◌, refl, subst}
use mathlib.Core.Logic.{inl, inr}
use mathlib.Core.Bool.{true, false}
use mathlib.Core.Option.{Option, none, some}
use mathlib.Core.List.{List, [], ◌∷◌}
use native.Mathlib.Omega.{arith}
use pactum.Prelude.Tests.{if◌then◌else◌, Bool-cases}
use pactum.Prelude.Js.Keys.{Key}
use pactum.Prelude.Js.Sets.{has, Distinct}

abbrev pub JsMap : Type 0 → Type 0 → Type 0
JsMap K V = List (K × V)

module _ {K V : Type 0} ⦃key : Key K⦄ where
  unfoldable pub get : JsMap K V → K → Option V
  get [] k = none
  get ((j, v) ∷ m) k = if key.same j k then some v else get m k

  unfoldable pub put : JsMap K V → K → V → JsMap K V
  put [] k v = (k, v) ∷ []
  put ((j, w) ∷ m) k v = if key.same j k then (j, v) ∷ m else (j, w) ∷ put m k v

  unfoldable pub delete : JsMap K V → K → JsMap K V
  delete [] k = []
  delete ((j, w) ∷ m) k = if key.same j k then m else (j, w) ∷ delete m k

  abbrev pub keys : JsMap K V → List K
  keys [] = []
  keys ((k, v) ∷ m) = k ∷ keys m

  abbrev pub values : JsMap K V → List V
  values [] = []
  values ((k, v) ∷ m) = v ∷ values m

  pub get-put :
      (m : JsMap K V) (k j : K) (v : V)
      → get (put m k v) j ≡ (if key.same k j then some v else get m j)
  unfolding get put
  get-put [] k j v = refl
  get-put ((i, w) ∷ m) k j v =
      ground (arith, get-put m k j v, key.same_iff i k, key.same_iff k j, key.same_iff i j)

  pub has-keys-put :
      (m : JsMap K V) (k j : K) (v : V)
      → has (keys (put m k v)) j ≡ (if key.same k j then true else has (keys m) j)
  unfolding has put
  has-keys-put [] k j v = ground arith
  has-keys-put ((i, w) ∷ m) k j v =
      ground (arith, has-keys-put m k j v, key.same_iff i k, key.same_iff k j, key.same_iff i j)

  pub put-Distinct :
      (m : JsMap K V) (k : K) (v : V) → Distinct (keys m) → Distinct (keys (put m k v))
  unfolding put has
  put-Distinct [] k v d = (refl, tt)
  put-Distinct ((i, w) ∷ m) k v d =
      ground
        (arith, put-Distinct m k v d.1, has-keys-put m k i v, key.same_iff i k, key.same_iff k i)

  pub get_absent : (m : JsMap K V) (k : K) → has (keys m) k ≡ false → get m k ≡ none
  unfolding get has
  get_absent [] k h = refl
  get_absent ((i, w) ∷ m) k h = ground (arith, get_absent m k)

  pub get-delete :
      (m : JsMap K V) (k j : K)
      → Distinct (keys m)
      → get (delete m k) j ≡ (if key.same k j then none else get m j)
  unfolding get delete
  get-delete [] k j d = ground arith
  get-delete ((i, w) ∷ m) k j d = ground (
    arith,
    get-delete m k j d.1,
    get_absent m i d.0,
    key.same_iff i k,
    key.same_iff k j,
    key.same_iff i j,
  )

  pub has-keys-delete :
      (m : JsMap K V) (k j : K)
      → Distinct (keys m)
      → has (keys (delete m k)) j ≡ (if key.same k j then false else has (keys m) j)
  unfolding has delete
  has-keys-delete [] k j d = ground arith
  has-keys-delete ((i, w) ∷ m) k j d =
      ground (
        arith,
        has-keys-delete m k j d.1,
        d.0,
        key.same_iff i k,
        key.same_iff k j,
        key.same_iff i j,
      )

  pub delete-Distinct : (m : JsMap K V) (k : K) → Distinct (keys m) → Distinct (keys (delete m k))
  unfolding delete has
  delete-Distinct [] k d = tt
  delete-Distinct ((i, w) ∷ m) k d =
      ground (arith, delete-Distinct m k d.1, has-keys-delete m k i d.1)

  -- Every value has `P`.
  abbrev pub AllValues : (V → Type 0) → JsMap K V → Type 0
  AllValues P [] = Unit {0}
  AllValues P ((k, v) ∷ m) = P v × AllValues P m

  pub put-AllValues :
      (P : V → Type 0) (m : JsMap K V) (k : K) (v : V)
      → AllValues P m
      → P v
      → AllValues P (put m k v)
  unfolding put
  put-AllValues P [] k v h p = (p, tt)
  put-AllValues P ((i, w) ∷ m) k v h p = elim (Bool-cases (key.same i k)) [
    | inl hit ↦ rw hit (p, h.1)
    | inr miss ↦ rw miss (h.0, put-AllValues P m k v h.1 p)
  ]

  pub get-AllValues :
      (P : V → Type 0) (m : JsMap K V) (k : K) {v : V} → AllValues P m → get m k ≡ some v → P v
  unfolding get
  get-AllValues P [] k h e = cc
  get-AllValues P ((i, w) ∷ m) k {v} h e = elim (Bool-cases (key.same i k)) [
    | inl hit ↦ let e' : some w ≡ some v = (rw hit at e) in let q : w ≡ v = cc in subst P q h.0
    | inr miss ↦ get-AllValues P m k h.1 (rw miss at e)
  ]

-- `for (const v of m.values()) v = f(v)`
unfoldable pub map_values : {K V : Type 0} → (V → V) → JsMap K V → JsMap K V
map_values f [] = []
map_values f ((k, v) ∷ m) = (k, f v) ∷ map_values f m
