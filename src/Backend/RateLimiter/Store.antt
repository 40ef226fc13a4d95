-- ===== src/Backend/RateLimiter/Store.antt =====
-- The lists of timestamps: pruning and sweeping drop nothing that a window still sees.
use pactum.Prelude.{
  ℕ, suc, ◌+◌, ◌≤◌, ◌≡◌, refl, sym, ◌∙◌, ap, true, false, List, [], ◌∷◌, ◌++◌, if◌then◌else◌,
  Bool-cases, inl, inr, ltb, length, All, Text, arith, subst, text_eq,
}
use pactum.Prelude.Js.{
  JsMap, get, keys, has, Distinct, AllValues, get_absent, text_key, text_eq_iff,
}
use pactum.Backend.RateLimiter.{last_expired, sweep_entries, prune, timestamps_of}

-- How many of the timestamps a window sees that ends at `s`.
unfoldable pub live_count : ℕ → ℕ → List ℕ → ℕ
live_count window s [] = 0
live_count window s (t ∷ ts) =
    let rest = live_count window s ts in if ltb s (t + window) then suc rest else rest

-- Oldest first, and none after `now`.
abbrev pub IsAscending : List ℕ → Type 0
IsAscending [] = Unit {0}
IsAscending (t ∷ ts) = All (λ u. t ≤ u) ts × IsAscending ts

abbrev pub IsPast : ℕ → List ℕ → Type 0
IsPast now ts = IsAscending ts × All (λ t. t ≤ now) ts

module _ (window : ℕ) where
  pub live_count-append :
      (s : ℕ) (ts us : List ℕ)
      → live_count window s (ts ++ us) ≡ live_count window s ts + live_count window s us
  unfolding live_count
  live_count-append s [] us = omega arith
  live_count-append s (t ∷ ts) us = ground (arith, live_count-append s ts us)

  pub live_count-prune :
      (now s : ℕ) (ts : List ℕ)
      → now ≤ s
      → live_count window s (prune window now ts) ≡ live_count window s ts
  unfolding live_count prune
  live_count-prune now s [] h = refl
  live_count-prune now s (t ∷ ts) h = ground (arith, live_count-prune now s ts h)

  -- After the pruning the window that ends now sees every timestamp.
  pub length-prune :
      (now : ℕ) (ts : List ℕ) → length (prune window now ts) ≡ live_count window now ts
  unfolding live_count prune
  length-prune now [] = refl
  length-prune now (t ∷ ts) = ground (arith, length-prune now ts)

  All-prune : (P : ℕ → Type 0) (now : ℕ) (ts : List ℕ) → All P ts → All P (prune window now ts)
  unfolding prune
  All-prune P now [] h = tt
  All-prune P now (t ∷ ts) h = elim (Bool-cases (ltb now (t + window))) [
    | inl live ↦ rw live (h.0, All-prune P now ts h.1)
    | inr old ↦ rw old (All-prune P now ts h.1)
  ]

  prune-IsAscending : (now : ℕ) (ts : List ℕ) → IsAscending ts → IsAscending (prune window now ts)
  unfolding prune
  prune-IsAscending now [] h = tt
  prune-IsAscending now (t ∷ ts) h = elim (Bool-cases (ltb now (t + window))) [
    | inl live ↦ rw live (All-prune _ now ts h.0, prune-IsAscending now ts h.1)
    | inr old ↦ rw old (prune-IsAscending now ts h.1)
  ]

  pub prune-IsPast : (now : ℕ) (ts : List ℕ) → IsPast now ts → IsPast now (prune window now ts)
  prune-IsPast now ts h = (prune-IsAscending now ts h.0, All-prune _ now ts h.1)

  -- A list whose last timestamp has left the window is seen by no later window.
  expired-dead :
      (now s : ℕ) (ts : List ℕ)
      → now ≤ s
      → IsAscending ts
      → last_expired window now ts ≡ true
      → live_count window s ts ≡ 0
  unfolding live_count last_expired
  expired-dead now s [] h a e = refl
  expired-dead now s (t ∷ []) h a e = ground arith
  expired-dead now s (t ∷ u ∷ ts) h a e = ground (arith, expired-dead now s (u ∷ ts) h a.1 e, a.0.0)

  sweep-absent :
      (now : ℕ) (m : JsMap Text (List ℕ)) (k : Text)
      → has (keys m) k ≡ false
      → has (keys (sweep_entries window now m)) k ≡ false
  unfolding sweep_entries has
  sweep-absent now [] k h = refl
  sweep-absent now ((j, ts) ∷ m) k h = elim (Bool-cases (last_expired window now ts)) [
    | inl old ↦ rw old (sweep-absent now m k (ground arith))
    | inr fresh ↦ rw fresh (ground (arith, sweep-absent now m k))
  ]

  pub sweep-Distinct :
      (now : ℕ) (m : JsMap Text (List ℕ))
      → Distinct (keys m)
      → Distinct (keys (sweep_entries window now m))
  unfolding sweep_entries
  sweep-Distinct now [] d = tt
  sweep-Distinct now ((j, ts) ∷ m) d = elim (Bool-cases (last_expired window now ts)) [
    | inl old ↦ rw old (sweep-Distinct now m d.1)
    | inr fresh ↦ rw fresh (sweep-absent now m j d.0, sweep-Distinct now m d.1)
  ]

  pub sweep-AllValues :
      (P : List ℕ → Type 0) (now : ℕ) (m : JsMap Text (List ℕ))
      → AllValues P m
      → AllValues P (sweep_entries window now m)
  unfolding sweep_entries
  sweep-AllValues P now [] h = tt
  sweep-AllValues P now ((j, ts) ∷ m) h = elim (Bool-cases (last_expired window now ts)) [
    | inl old ↦ rw old (sweep-AllValues P now m h.1)
    | inr fresh ↦ rw fresh (h.0, sweep-AllValues P now m h.1)
  ]

  no_live : (s : ℕ) → live_count window s [] ≡ 0
  unfolding live_count
  no_live s = refl

  timestamps_of-cons :
      (j : Text) (ts : List ℕ) (m : JsMap Text (List ℕ)) (k : Text)
      → timestamps_of ((j, ts) ∷ m) k ≡ (if text_eq j k then ts else timestamps_of m k)
  unfolding timestamps_of get
  timestamps_of-cons j ts m k = elim (Bool-cases (text_eq j k)) [
    | inl hit ↦ rw (hit, timestamps_of)
    | inr miss ↦ rw (miss, timestamps_of)
  ]

  timestamps_of_absent :
      (m : JsMap Text (List ℕ)) (k : Text) → has (keys m) k ≡ false → timestamps_of m k ≡ []
  unfolding timestamps_of
  timestamps_of_absent m k h = rw (get_absent m k h, timestamps_of)

  swept_away :
      (now : ℕ) (j k : Text) (m : JsMap Text (List ℕ))
      → text_eq j k ≡ true
      → has (keys m) j ≡ false
      → timestamps_of (sweep_entries window now m) k ≡ []
  swept_away now j k m e h =
      let same : j ≡ k = (text_eq_iff j k).0 e in
      timestamps_of_absent (sweep_entries window now m) k (
        subst (λ i. has (keys (sweep_entries window now m)) i ≡ false) same
          (sweep-absent now m j h))

  pub live_count-sweep :
      (now s : ℕ) (m : JsMap Text (List ℕ)) (k : Text)
      → now ≤ s
      → Distinct (keys m)
      → AllValues (IsPast now) m
      → live_count window s (timestamps_of (sweep_entries window now m) k)
        ≡ live_count window s (timestamps_of m k)
  unfolding sweep_entries
  live_count-sweep now s [] k h d a = refl
  live_count-sweep now s ((j, ts) ∷ m) k h d a = elim (Bool-cases (last_expired window now ts)) [
    | inl old ↦ rw old (elim (Bool-cases (text_eq j k)) [
      | inl hit ↦
          rw (timestamps_of-cons j ts m k, hit)
            (ap (live_count window s) (swept_away now j k m hit d.0)
              ∙ no_live s
              ∙ sym (expired-dead now s ts h a.0.0 old))
      | inr miss ↦ rw (timestamps_of-cons j ts m k, miss) (live_count-sweep now s m k h d.1 a.1)
    ])
    | inr fresh ↦ rw fresh (elim (Bool-cases (text_eq j k)) [
      | inl hit ↦
          rw (
            timestamps_of-cons j ts m k,
            timestamps_of-cons j ts (sweep_entries window now m) k,
            hit,
          )
      | inr miss ↦
          rw
            (
              timestamps_of-cons j ts m k,
              timestamps_of-cons j ts (sweep_entries window now m) k,
              miss,
            )
            (live_count-sweep now s m k h d.1 a.1)
    ])
  ]
