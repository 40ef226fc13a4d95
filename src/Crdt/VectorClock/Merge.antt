-- ===== src/Crdt/VectorClock/Merge.antt =====
-- A merge takes the larger counter of each peer, and says whether the clocks differ.
use pactum.Prelude.{
  ℕ, ◌≤◌, ◌≡◌, refl, sym, ap, subst, ◌∙◌, inl, inr, ◌↔◌, List, [], ◌∷◌, Bool, true, false, ◌||◌,
  Bool-cases, if◌then◌else◌, ltb, Text, text_eq, arith,
}
use pactum.Prelude.Js.{has, get, put, get-put, text_key, same_refl}
use pactum.Crdt.VectorClock.{
  Clock, value_or_0, counter, all_keys, max, merge_loop, merge_vector_clocks,
}
use pactum.Crdt.VectorClock.Order.{outside}

counter-put :
    (m : Clock) (x k : Text) (v : ℕ)
    → counter (put m x v) k ≡ (if text_eq x k then v else counter m k)
unfolding counter value_or_0
counter-put m x k v = rw (get-put m x k v) (ground arith)

le_max : (m n : ℕ) → (m ≤ max m n) × (n ≤ max m n)
unfolding max
le_max m n = ground arith

max_le : (m n c : ℕ) → m ≤ c → n ≤ c → max m n ≤ c
unfolding max
max_le m n c p q = ground arith

max_0 : (m n : ℕ) → m ≡ 0 → n ≡ 0 → max m n ≡ 0
unfolding max
max_0 m n p q = ground arith

lowered : (t f : Bool) → (if t then true else f) ≡ false → (t ≡ false) × (f ≡ false)
lowered true f h = ground arith
lowered false f h = (refl, h)

here : (x : Text) (ks : List Text) → has (x ∷ ks) x ≡ true
unfolding has
here x ks = rw (same_refl x) refl

later : (x : Text) (ks : List Text) (k : Text) → has ks k ≡ true → has (x ∷ ks) k ≡ true
unfolding has
later x ks k s = ground arith

both : (t : Bool) {x y : ℕ} → y ≡ x → (if t then x else y) ≡ x
both true e = refl
both false e = e

empty_counter : (k : Text) → counter [] k ≡ 0
unfolding counter value_or_0 get
empty_counter k = refl

module _ (a b : Clock) where
  merge_loop-counter :
      (m : Clock) (advanced : Bool) (ks : List Text) (k : Text)
      → counter (merge_loop a b (m, advanced) ks).0 k
        ≡ (if has ks k then max (counter a k) (counter b k) else counter m k)
  unfolding merge_loop has
  merge_loop-counter m advanced [] k = refl
  merge_loop-counter m advanced (x ∷ ks) k =
      let v = max (counter a x) (counter b x) in
      let r =
        merge_loop-counter (put m x v)
          (if ltb (counter a x) v || ltb (counter b x) v then true else advanced) ks k in
      let p = counter-put m x k v in
      elim (Bool-cases (text_eq x k)) [
        | inl same ↦
            let z : v ≡ max (counter a k) (counter b k) =
              ap (λ y. max (counter a y) (counter b y)) ((text_key.same_iff x k).0 same) in
            r ∙ rw same (both (has ks k) (p ∙ rw same z))
        | inr distinct ↦ r ∙ rw (distinct, p) (rw distinct refl)
      ]

  -- The merged clock counts, for every peer, the larger of the two counters.
  pub counter-merge_vector_clocks :
      (k : Text) → counter (merge_vector_clocks a b).0 k ≡ max (counter a k) (counter b k)
  unfolding merge_vector_clocks
  counter-merge_vector_clocks k =
      merge_loop-counter [] false (all_keys a b) k ∙ elim (Bool-cases (has (all_keys a b) k)) [
        | inl known ↦ rw known refl
        | inr unknown ↦
            let (za, zb) = outside a b k unknown in
            rw (unknown, max_0 (counter a k) (counter b k) za zb) (empty_counter k)
      ]

  -- A clock counts at least as much as the merge for every peer exactly when it counts at least as
  -- much as both clocks: the merge is their least upper bound.
  pub merge_vector_clocks-least :
      (c : Clock)
      → ((k : Text) → counter (merge_vector_clocks a b).0 k ≤ counter c k)
        ↔ ((k : Text) → (counter a k ≤ counter c k) × (counter b k ≤ counter c k))
  merge_vector_clocks-least c = (
    (λ h k.
        let m = counter-merge_vector_clocks k in
        let (p, q) = le_max (counter a k) (counter b k) in
        let r = h k in (omega (arith, m), omega (arith, m))),
    λ h k.
        rw (counter-merge_vector_clocks k)
          (max_le (counter a k) (counter b k) (counter c k) (h k).0 (h k).1),
  )

  raised : (x : Text) → Bool
  raised x =
      ltb (counter a x) (max (counter a x) (counter b x))
      || ltb (counter b x) (max (counter a x) (counter b x))

  not_raised : (x : Text) → (raised x ≡ false) ↔ (counter a x ≡ counter b x)
  unfolding raised max
  not_raised x = (ground arith, ground arith)

  merge_loop-advanced :
      (m : Clock) (advanced : Bool) (ks : List Text)
      → ((merge_loop a b (m, advanced) ks).1 ≡ false)
        ↔ ((advanced ≡ false) × ((k : Text) → has ks k ≡ true → counter a k ≡ counter b k))
  unfolding merge_loop has raised
  merge_loop-advanced m advanced [] = ((λ h. (h, λ k e. ground arith)), λ h. h.0)
  merge_loop-advanced m advanced (x ∷ ks) =
      let r =
        merge_loop-advanced (put m x (max (counter a x) (counter b x)))
          (if raised x then true else advanced) ks in
      (
        (λ h.
            let (f, rest) = r.0 h in
            let (q, e) = lowered (raised x) advanced f in
            (
              e,
              λ k s. elim (Bool-cases (text_eq x k)) [
                | inl same ↦
                    subst (λ y. counter a y ≡ counter b y) ((text_key.same_iff x k).0 same)
                      ((not_raised x).0 q)
                | inr distinct ↦ rest k (ground arith)
              ],
            )),
        λ (e, all).
            r.1 (rw ((not_raised x).1 (all x (here x ks)), e) refl, λ k s. all k (later x ks k s)),
      )

  -- A merge reports that no entry advanced exactly when the two clocks agree for every peer.
  pub merge_vector_clocks-advanced :
      ((merge_vector_clocks a b).1 ≡ false) ↔ ((k : Text) → counter a k ≡ counter b k)
  unfolding merge_vector_clocks
  merge_vector_clocks-advanced =
      let r = merge_loop-advanced [] false (all_keys a b) in
      (
        (λ h k. elim (Bool-cases (has (all_keys a b) k)) [
          | inl known ↦ (r.0 h).1 k known
          | inr unknown ↦ let (za, zb) = outside a b k unknown in za ∙ sym zb
        ]),
        λ all. r.1 (refl, λ k s. all k),
      )
