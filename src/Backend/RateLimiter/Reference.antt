-- ===== src/Backend/RateLimiter/Reference.antt =====
-- The limiter decides as one that remembers every admitted request.
use pactum.Prelude.{
  ℕ, suc, ◌+◌, ◌≤◌, ◌≡◌, sym, ◌∙◌, Bool, true, false, ◌&&◌, List, [], ◌∷◌, ◌++◌, if◌then◌else◌,
  none, some, Option-cases, Bool-cases, inl, inr, ltb, length, All, Text, arith, text_eq,
  text_eq_refl, subst,
}
use pactum.Prelude.Js.{
  JsMap, get, put, keys, Distinct, AllValues, get-put, put-Distinct, put-AllValues, get-AllValues,
  text_key, text_eq_iff,
}
use pactum.Backend.RateLimiter.{
  RateLimiterOptions, RateLimiter, Response, limited, allowed, sweep, prune, timestamps_of,
  handle_request, sweep_interval_ms,
}
use pactum.Backend.RateLimiter.Store.{
  live_count, IsPast, live_count-append, length-prune, sweep-Distinct, sweep-AllValues,
  live_count-sweep,
}

-- Admitted requests, the last one first.
abbrev pub Log : Type 0
Log = List (Text × ℕ)

-- How many requests of a key a window sees that ends at `s`.
unfoldable pub log_count : ℕ → Text → ℕ → Log → ℕ
log_count window key s [] = 0
log_count window key s ((j, t) ∷ log) =
    let rest = log_count window key s log in
    if text_eq j key && ltb s (t + window) then suc rest else rest

unfoldable pub is_allowed : Response → Bool
is_allowed (limited retry limit reset) = false
is_allowed (allowed limit remaining reset) = true

module _ (options : RateLimiterOptions) where
  abbrev pub window : ℕ
  window = options.window_ms

  -- The answers to requests at the given times for the given keys.
  unfoldable pub serve : List (ℕ × Text) → RateLimiter → List Bool
  serve [] limiter = []
  serve ((now, key) ∷ requests) limiter =
      let (response, after) = handle_request options now key limiter in
      is_allowed response ∷ serve requests after

  -- The specification: a request is admitted when the window that ends at it has seen fewer than the
  -- maximum of its key.
  unfoldable pub admits : ℕ → Text → Log → Bool
  admits now key log = ltb (log_count window key now log) options.max_requests

  unfoldable pub reference : List (ℕ × Text) → Log → List Bool
  reference [] log = []
  reference ((now, key) ∷ requests) log =
      let admitted = admits now key log in
      admitted ∷ reference requests (if admitted then (key, now) ∷ log else log)

  pub record Agrees (now : ℕ) (limiter : RateLimiter) (log : Log) : Type 0 where
    pub distinct : Distinct (keys limiter.store)
    pub past : AllValues (IsPast now) limiter.store
    pub counts :
        (key : Text) (s : ℕ)
        → now ≤ s
        → live_count window s (timestamps_of limiter.store key) ≡ log_count window key s log

  All-later :
      (now later : ℕ) (ts : List ℕ) → now ≤ later → All (λ t. t ≤ now) ts → All (λ t. t ≤ later) ts
  All-later now later [] h a = tt
  All-later now later (t ∷ ts) h a = (omega arith, All-later now later ts h a.1)

  IsPast-later :
      (now later : ℕ) (m : JsMap Text (List ℕ))
      → now ≤ later
      → AllValues (IsPast now) m
      → AllValues (IsPast later) m
  IsPast-later now later [] h a = tt
  IsPast-later now later ((k, ts) ∷ m) h a =
      ((a.0.0, All-later now later ts h a.0.1), IsPast-later now later m h a.1)

  pub later-Agrees :
      (now later : ℕ) (limiter : RateLimiter) (log : Log)
      → now ≤ later
      → Agrees now limiter log
      → Agrees later limiter log
  later-Agrees now later limiter log h a = record {
    distinct = a.distinct;
    past = IsPast-later now later limiter.store h a.past;
    counts = λ key s k. a.counts key s (omega arith);
  }

  pub sweep-Agrees :
      (now : ℕ) (limiter : RateLimiter) (log : Log)
      → Agrees now limiter log
      → Agrees now (sweep options now limiter) log
  unfolding sweep
  sweep-Agrees now limiter log a =
      elim (Bool-cases (ltb now (limiter.last_sweep + sweep_interval_ms))) [
        | inl early ↦ rw early a
        | inr due ↦ rw due (record {
          distinct = sweep-Distinct window now limiter.store a.distinct;
          past = sweep-AllValues window _ now limiter.store a.past;
          counts = λ key s k.
              live_count-sweep window now s limiter.store key k a.distinct a.past
              ∙ a.counts key s k;
        })
      ]

  timestamps_of-put :
      (m : JsMap Text (List ℕ)) (key k : Text) (ts : List ℕ)
      → timestamps_of (put m key ts) k ≡ (if text_eq key k then ts else timestamps_of m k)
  unfolding timestamps_of
  timestamps_of-put m key k ts = elim (Bool-cases (text_eq key k)) [
    | inl hit ↦ rw (get-put m key k ts, timestamps_of) (rw hit)
    | inr miss ↦ rw (get-put m key k ts, timestamps_of) (rw miss)
  ]

  stored_none : (m : JsMap Text (List ℕ)) (key : Text) → get m key ≡ none → timestamps_of m key ≡ []
  unfolding timestamps_of
  stored_none m key e = rw (e, timestamps_of)

  stored_some :
      (m : JsMap Text (List ℕ)) (key : Text) (ts : List ℕ)
      → get m key ≡ some ts
      → timestamps_of m key ≡ ts
  unfolding timestamps_of
  stored_some m key ts e = rw (e, timestamps_of)

  All-append : (P : ℕ → Type 0) (ts : List ℕ) (t : ℕ) → All P ts → P t → All P (ts ++ t ∷ [])
  All-append P [] t h p = (p, tt)
  All-append P (u ∷ ts) t h p = (h.0, All-append P ts t h.1 p)

  pub stored-IsPast :
      (now : ℕ) (limiter : RateLimiter) (log : Log) (key : Text)
      → Agrees now limiter log
      → IsPast now (timestamps_of limiter.store key)
  stored-IsPast now limiter log key a = elim (Option-cases (get limiter.store key)) [
    | inl e ↦ rw (stored_none limiter.store key e) (tt, tt)
    | inr (ts, e) ↦
        rw (stored_some limiter.store key ts e)
          (get-AllValues (IsPast now) limiter.store key a.past e)
  ]

  pub append-IsPast : (now : ℕ) (ts : List ℕ) → IsPast now ts → IsPast now (ts ++ now ∷ [])
  append-IsPast now [] h = ((tt, tt), (omega arith, tt))
  append-IsPast now (t ∷ ts) h =
      let rest = append-IsPast now ts (h.0.1, h.1.1) in
      ((All-append _ ts now h.0.0 h.1.0, rest.0), (h.1.0, rest.1))

  pub put-Agrees :
      (now : ℕ) (key : Text) (ts : List ℕ) (limiter : RateLimiter) (log log' : Log)
      → Agrees now limiter log
      → IsPast now ts
      → ((s : ℕ) → now ≤ s → live_count window s ts ≡ log_count window key s log')
      → ((k : Text) (s : ℕ)
          → text_eq key k ≡ false
          → log_count window k s log' ≡ log_count window k s log)
      → Agrees now (record limiter { store = put limiter.store key ts }) log'
  put-Agrees now key ts limiter log log' a past same other = record {
    distinct = put-Distinct limiter.store key ts a.distinct;
    past = put-AllValues (IsPast now) limiter.store key ts a.past past;
    counts = λ k s h. elim (Bool-cases (text_eq key k)) [
      | inl hit ↦
          rw (timestamps_of-put limiter.store key k ts, hit)
            (subst (λ j. live_count window s ts ≡ log_count window j s log')
              ((text_eq_iff key k).0 hit) (same s h))
      | inr miss ↦
          rw (timestamps_of-put limiter.store key k ts, miss)
            (a.counts k s h ∙ sym (other k s miss))
    ];
  }

  pub pruned_count :
      (now : ℕ) (key : Text) (limiter : RateLimiter) (log : Log)
      → Agrees now limiter log
      → length (prune window now (timestamps_of limiter.store key)) ≡ log_count window key now log
  pruned_count now key limiter log a =
      length-prune window now (timestamps_of limiter.store key) ∙ a.counts key now (omega arith)

  pub log_count-other :
      (key k : Text) (now s : ℕ) (log : Log)
      → text_eq key k ≡ false
      → log_count window k s ((key, now) ∷ log) ≡ log_count window k s log
  unfolding log_count
  log_count-other key k now s log h = rw h

  pub log_count-same :
      (key : Text) (now s : ℕ) (log : Log) (ts : List ℕ)
      → live_count window s ts ≡ log_count window key s log
      → live_count window s (ts ++ now ∷ []) ≡ log_count window key s ((key, now) ∷ log)
  unfolding log_count live_count
  log_count-same key now s log ts h =
      ground (arith, live_count-append window s ts (now ∷ []), text_eq_refl key)
