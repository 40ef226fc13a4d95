-- ===== src/Mesh/PeerScoring/Invariant.antt =====
-- The scoring invariant: every score is between -100 and 100, and the flags say what the score says.
use pactum.Prelude.{
  ℕ, zero, suc, ◌+◌, ◌*◌, ◌/◌, ◌≤◌, ◌≡◌, inl, inr, List, [], ◌∷◌, Bool, true, false, ◌&&◌,
  Bool-cases, Option-cases, Text, arith, if◌then◌else◌,
}
use pactum.Prelude.Int.{
  ℤ, pos, negsuc, ◌+ℤ◌, ◌≤ℤ◌, ◌<ℤ◌, leb_ℤ, pos_part, neg_part, neg_ℤ, +ℤ_parts,
}
use pactum.Prelude.Js.{JsMap, get, map_values, AllValues, put-AllValues, get-AllValues, text_key}
use pactum.Mesh.Types.{PeerReputation}
use pactum.Mesh.PeerScoring.{
  ScoringConfig, Scoring, new_reputation, expired, lift_expired_ban, current_reputation, store,
  get_reputation, update_flags, clamp_score, adjust_score, record_valid_message,
  record_duplicate_message, record_invalid_message, decayed, decay_reputation, decay_scores,
  is_peer_banned,
}

-- The thresholds in their order, with room for the score of a peer whose ban has expired, and a
-- decay factor of at most 1.
pub record IsOrdered (c : ScoringConfig) : Type 0 where
  pub lowest : negsuc 9999 ≤ℤ c.ban_threshold
  pub order : c.ban_threshold ≤ℤ c.quarantine_threshold
  pub start : c.quarantine_threshold <ℤ c.initial_score
  pub start_bound : c.initial_score ≤ℤ pos 10000
  pub room : c.quarantine_threshold ≤ℤ pos 9500
  pub factor : c.decay_factor ≤ 100

pub record IsSound (c : ScoringConfig) (rep : PeerReputation) : Type 0 where
  pub low : negsuc 9999 ≤ℤ rep.score
  pub high : rep.score ≤ℤ pos 10000
  pub ban_flag : rep.is_banned ≡ leb_ℤ rep.score c.ban_threshold
  pub quarantine_flag : rep.is_quarantined ≡ leb_ℤ rep.score c.quarantine_threshold

module _ (c : ScoringConfig) (o : IsOrdered c) where
  new_reputation-IsSound : (now : ℕ) (peer : Text) → IsSound c (new_reputation c now peer)
  unfolding new_reputation
  new_reputation-IsSound now peer = ground (arith, o.lowest, o.order, o.start, o.start_bound)

  lift_expired_ban-IsSound :
      (now : ℕ) (rep : PeerReputation) → IsSound c rep → IsSound c (lift_expired_ban c now rep)
  unfolding lift_expired_ban
  lift_expired_ban-IsSound now rep h =
      elim (Bool-cases (rep.is_banned && expired rep.ban_expiry now)) [
        | inl over ↦
            rw (over, lift_expired_ban)
              (record {
                low = omega (arith, +ℤ_parts c.quarantine_threshold (pos 500));
                high = omega (arith, +ℤ_parts c.quarantine_threshold (pos 500));
                ban_flag = ground (arith, +ℤ_parts c.quarantine_threshold (pos 500));
                quarantine_flag = ground (arith, +ℤ_parts c.quarantine_threshold (pos 500));
              })
        | inr held ↦ rw (held, lift_expired_ban) h
      ]

  update_flags-IsSound :
      (now : ℕ) (rep : PeerReputation)
      → negsuc 9999 ≤ℤ rep.score
      → rep.score ≤ℤ pos 10000
      → IsSound c (update_flags c now rep)
  unfolding update_flags
  update_flags-IsSound now rep l h = ground (arith, o.order)

  clamp_score_bounds : (x : ℤ) → (negsuc 9999 ≤ℤ clamp_score x) × (clamp_score x ≤ℤ pos 10000)
  unfolding clamp_score neg_ℤ
  clamp_score_bounds x = ground arith

  adjust_score-IsSound :
      (now : ℕ) (rep : PeerReputation) (delta : ℤ) → IsSound c (adjust_score c now rep delta)
  unfolding adjust_score
  adjust_score-IsSound now rep delta =
      let (l, h) = clamp_score_bounds (rep.score +ℤ delta) in update_flags-IsSound now _ l h

-- Every record is sound.
pub record IsSoundScoring (s : Scoring) : Type 0 where
  pub ordered : IsOrdered s.config
  pub all : AllValues (IsSound s.config) s.reputations

module _ (s : Scoring) (h : IsSoundScoring s) where
  pub current_reputation-IsSound :
      (now : ℕ) (peer : Text) → IsSound s.config (current_reputation s now peer)
  unfolding current_reputation
  current_reputation-IsSound now peer = elim (Option-cases (get s.reputations peer)) [
    | inl unknown ↦
        rw (unknown, current_reputation) (new_reputation-IsSound s.config h.ordered now peer)
    | inr (rep, known) ↦
        rw (known, current_reputation)
          (lift_expired_ban-IsSound s.config h.ordered now rep
            (get-AllValues (IsSound s.config) s.reputations peer h.all known))
  ]

  store-IsSound :
      (peer : Text) (rep : PeerReputation)
      → IsSound s.config rep
      → IsSoundScoring (store s peer rep)
  unfolding store
  store-IsSound peer rep q = record {
    ordered = h.ordered;
    all = put-AllValues (IsSound s.config) s.reputations peer rep h.all q;
  }

module _ (s : Scoring) (h : IsSoundScoring s) (now : ℕ) (peer : Text) where
  get_reputation-IsSound : IsSoundScoring (get_reputation s now peer).1
  unfolding get_reputation
  get_reputation-IsSound = store-IsSound s h peer _ (current_reputation-IsSound s h now peer)

  adjusted-IsSound :
      (rep : PeerReputation) (delta : ℤ)
      → IsSoundScoring
          (store (get_reputation s now peer).1 peer (adjust_score s.config now rep delta))
  unfolding get_reputation store
  adjusted-IsSound rep delta =
      store-IsSound (store s peer (current_reputation s now peer))
        (store-IsSound s h peer _ (current_reputation-IsSound s h now peer)) peer _
        (adjust_score-IsSound s.config h.ordered now rep delta)

map_values-IsSound :
    (c : ScoringConfig) (f : PeerReputation → PeerReputation)
    → ((rep : PeerReputation) → IsSound c rep → IsSound c (f rep))
    → (m : JsMap Text PeerReputation) → AllValues (IsSound c) m
    → AllValues (IsSound c) (map_values f m)
unfolding map_values
map_values-IsSound c f keep [] h = tt
map_values-IsSound c f keep ((k, rep) ∷ m) h = (keep rep h.0, map_values-IsSound c f keep m h.1)

scaled : (n p : ℕ) → p ≤ 100 → n * p ≤ n * 100
scaled zero p h = omega arith
scaled (suc n) p h = omega (arith, scaled n p h)

rounded_up : (t n : ℕ) → t ≤ n * 100 → (t + 50) / 100 ≤ n
rounded_up t n h = omega arith

rounded_down : (t n : ℕ) → t ≤ n * 100 → (t + 49) / 100 ≤ n
rounded_down t n h = omega arith

-- The decay brings a score no further from 0.
decayed_shrinks :
    (factor : ℕ) (x : ℤ)
    → factor ≤ 100
    → (pos_part (decayed factor x) ≤ pos_part x) × (neg_part (decayed factor x) ≤ neg_part x)
unfolding decayed neg_ℤ
decayed_shrinks factor (pos n) h =
    let near = rounded_up (n * factor) n (scaled n factor h) in (omega arith, omega arith)
decayed_shrinks factor (negsuc n) h =
    let near = rounded_down (suc n * factor) (suc n) (scaled (suc n) factor h) in
    (ground arith, ground arith)

shrunk_bounds :
    (x y : ℤ)
    → negsuc 9999 ≤ℤ x
    → x ≤ℤ pos 10000
    → (pos_part y ≤ pos_part x) × (neg_part y ≤ neg_part x)
    → (negsuc 9999 ≤ℤ y) × (y ≤ℤ pos 10000)
shrunk_bounds (pos x) y l h s = omega arith
shrunk_bounds (negsuc x) y l h s = omega arith

either-IsSound :
    (c : ScoringConfig) (b : Bool) {r r' : PeerReputation}
    → IsSound c r
    → IsSound c r'
    → IsSound c (if b then r else r')
either-IsSound c true h h' = h
either-IsSound c false h h' = h'

decay_reputation-IsSound :
    (c : ScoringConfig) (now : ℕ) (rep : PeerReputation)
    → IsOrdered c
    → IsSound c rep
    → IsSound c (decay_reputation c now rep)
unfolding decay_reputation
decay_reputation-IsSound c now rep o h =
    let shrunk = decayed_shrinks c.decay_factor rep.score o.factor in
    let (l, u) = shrunk_bounds rep.score (decayed c.decay_factor rep.score) h.low h.high shrunk in
    either-IsSound c rep.is_banned h (update_flags-IsSound c o now _ l u)

-- The calls that change the scores.
pub data ScoringCall : Type 0 where
  valid duplicate : Text → ScoringCall
  invalid : Text → Bool → ScoringCall
  query : Text → ScoringCall
  decay : ScoringCall

unfoldable pub scoring_step : Scoring → ℕ × ScoringCall → Scoring
scoring_step s (now, valid p) = record_valid_message s now p
scoring_step s (now, duplicate p) = record_duplicate_message s now p
scoring_step s (now, invalid p byzantine) = record_invalid_message s now p byzantine
scoring_step s (now, query p) = (is_peer_banned s now p).1
scoring_step s (now, decay) = decay_scores s now

unfoldable pub scoring_run : Scoring → List (ℕ × ScoringCall) → Scoring
scoring_run s [] = s
scoring_run s (call ∷ calls) = scoring_run (scoring_step s call) calls

pub scoring_step-IsSound :
    (s : Scoring) (call : ℕ × ScoringCall) → IsSoundScoring s → IsSoundScoring (scoring_step s call)
unfolding scoring_step record_valid_message record_duplicate_message record_invalid_message
    is_peer_banned decay_scores
scoring_step-IsSound s (now, valid p) h = adjusted-IsSound s h now p _ _
scoring_step-IsSound s (now, duplicate p) h = adjusted-IsSound s h now p _ _
scoring_step-IsSound s (now, invalid p b) h = adjusted-IsSound s h now p _ _
scoring_step-IsSound s (now, query p) h = get_reputation-IsSound s h now p
scoring_step-IsSound s (now, decay) h = record {
  ordered = h.ordered;
  all =
      map_values-IsSound s.config _ (λ rep q. decay_reputation-IsSound s.config now rep h.ordered q)
        s.reputations h.all;
}

-- From a state with ordered thresholds whose records satisfy the same, after any calls at any times,
-- decays included: every score is between
-- -100 and 100, a peer is banned exactly if its score is at or below the ban threshold, and
-- quarantined exactly if it is at or below the quarantine threshold.
pub scoring_run-IsSound :
    (s : Scoring) (calls : List (ℕ × ScoringCall))
    → IsSoundScoring s
    → IsSoundScoring (scoring_run s calls)
unfolding scoring_run
scoring_run-IsSound s [] h = h
scoring_run-IsSound s (call ∷ calls) h =
    scoring_run-IsSound (scoring_step s call) calls (scoring_step-IsSound s call h)
