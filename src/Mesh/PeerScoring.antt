-- ===== src/Mesh/PeerScoring.antt =====
-- frontend/src/lib/mesh/peerScoring.ts: `PeerScoringManager`. The clock is an argument `now`, and
-- the XDR parser of the Stellar SDK is a parameter. Scores and the decay factor are whole hundredths:
-- the decay is computed on them exactly, where the source multiplies floats.
pub mod Invariant
pub mod Bans
use pactum.Prelude.{
  ℕ, zero, suc, ◌+◌, ◌-◌, ◌*◌, ◌/◌, ◌≤◌, List, [], ◌∷◌, Bool, true, false, ◌&&◌, ◌||◌, not,
  if◌then◌else◌, ltb, leb, ◌==◌, length, Option, none, some, Text,
}
use pactum.Prelude.Int.{ℤ, pos, negsuc, ◌+ℤ◌, neg_ℤ, leb_ℤ, min_ℤ, max_ℤ, distance}
use pactum.Prelude.Js.{JsMap, get, put, map_values, text_key}
use pactum.Mesh.Types.{SorobanIndexedEvent, PeerReputation}

-- Scores and the decay factor in hundredths, times in milliseconds.
pub record ScoringConfig : Type 0 where
  pub initial_score : ℤ
  pub valid_message_reward : ℤ
  pub duplicate_message_penalty : ℤ
  pub invalid_message_penalty : ℤ
  pub byzantine_attack_penalty : ℤ
  pub quarantine_threshold : ℤ
  pub ban_threshold : ℤ
  pub ban_duration_ms : ℕ
  pub decay_factor : ℕ

-- The defaults of the constructor.
abbrev pub default_scoring_config : ScoringConfig
default_scoring_config = record {
  initial_score = pos 0;
  valid_message_reward = pos 500;
  duplicate_message_penalty = pos 200;
  invalid_message_penalty = pos 4000;
  byzantine_attack_penalty = pos 8000;
  quarantine_threshold = negsuc 2499;
  ban_threshold = negsuc 4999;
  ban_duration_ms = 300000;
  decay_factor = 95;
}

pub record Scoring : Type 0 where
  pub reputations : JsMap Text PeerReputation
  pub config : ScoringConfig

unfoldable pub new_reputation : ScoringConfig → ℕ → Text → PeerReputation
new_reputation c now peer = record {
  peer_id = peer;
  score = c.initial_score;
  valid_messages_delivered = 0;
  duplicate_messages = 0;
  invalid_messages = 0;
  last_active = now;
  is_quarantined = false;
  is_banned = false;
  ban_expiry = none;
}

-- `existing.banExpiry && now >= existing.banExpiry`; 0 is falsy.
abbrev pub expired : Option ℕ → ℕ → Bool
expired none now = false
expired (some t) now = not (t == 0) && leb t now

unfoldable pub lift_expired_ban : ScoringConfig → ℕ → PeerReputation → PeerReputation
lift_expired_ban c now rep =
    if rep.is_banned && expired rep.ban_expiry now
    then record rep {
      is_banned = false;
      is_quarantined = false;
      score = c.quarantine_threshold +ℤ pos 500;
      ban_expiry = none;
    }
    else rep

-- The record of the peer, made or with its ban lifted; the map then holds it.
unfoldable pub current_reputation : Scoring → ℕ → Text → PeerReputation
current_reputation s now peer = elim (get s.reputations peer) [
  | none ↦ new_reputation s.config now peer
  | some rep ↦ lift_expired_ban s.config now rep
]

unfoldable pub store : Scoring → Text → PeerReputation → Scoring
store s peer rep = record s { reputations = put s.reputations peer rep }

unfoldable pub get_reputation : Scoring → ℕ → Text → PeerReputation × Scoring
get_reputation s now peer = let rep = current_reputation s now peer in (rep, store s peer rep)

unfoldable pub update_flags : ScoringConfig → ℕ → PeerReputation → PeerReputation
update_flags c now rep =
    if leb_ℤ rep.score c.ban_threshold
    then record rep {
      is_banned = true;
      is_quarantined = true;
      ban_expiry = some (now + c.ban_duration_ms);
    }
    else if leb_ℤ rep.score c.quarantine_threshold
    then record rep { is_quarantined = true; is_banned = false }
    else record rep { is_quarantined = false; is_banned = false }

-- Scores stay between -100 and 100.
unfoldable pub clamp_score : ℤ → ℤ
clamp_score x = max_ℤ (neg_ℤ (pos 10000)) (min_ℤ (pos 10000) x)

unfoldable pub adjust_score : ScoringConfig → ℕ → PeerReputation → ℤ → PeerReputation
adjust_score c now rep delta =
    update_flags c now (record rep { score = clamp_score (rep.score +ℤ delta) })

unfoldable pub record_valid_message : Scoring → ℕ → Text → Scoring
record_valid_message s now peer =
    let (rep, s1) = get_reputation s now peer in
    store s1 peer (
      adjust_score s.config now
        (record rep {
          valid_messages_delivered = rep.valid_messages_delivered + 1;
          last_active = now;
        })
        s.config.valid_message_reward)

unfoldable pub record_duplicate_message : Scoring → ℕ → Text → Scoring
record_duplicate_message s now peer =
    let (rep, s1) = get_reputation s now peer in
    store s1 peer (
      adjust_score s.config now
        (record rep { duplicate_messages = rep.duplicate_messages + 1; last_active = now })
        (neg_ℤ s.config.duplicate_message_penalty))

unfoldable pub record_invalid_message : Scoring → ℕ → Text → Bool → Scoring
record_invalid_message s now peer is_byzantine_attack =
    let (rep, s1) = get_reputation s now peer in
    let penalty =
      if is_byzantine_attack
      then s.config.byzantine_attack_penalty
      else s.config.invalid_message_penalty in
    store s1 peer (
      adjust_score s.config now
        (record rep { invalid_messages = rep.invalid_messages + 1; last_active = now })
        (neg_ℤ penalty))

-- `Math.round(score * decayFactor * 100) / 100`: to the nearest hundredth, a half rounded up.
unfoldable pub decayed : ℕ → ℤ → ℤ
decayed factor (pos s) = pos ((s * factor + 50) / 100)
decayed factor (negsuc s) = neg_ℤ (pos ((suc s * factor + 49) / 100))

unfoldable pub decay_reputation : ScoringConfig → ℕ → PeerReputation → PeerReputation
decay_reputation c now rep =
    if rep.is_banned
    then rep
    else update_flags c now (record rep { score = decayed c.decay_factor rep.score })

unfoldable pub decay_scores : Scoring → ℕ → Scoring
decay_scores s now = record s {
  reputations = map_values (decay_reputation s.config now) s.reputations;
}

-- The two queries create the record of an unknown peer, and lift an expired ban.
unfoldable pub is_peer_eligible_for_eager_gossip : Scoring → ℕ → Text → Bool × Scoring
is_peer_eligible_for_eager_gossip s now peer =
    let (rep, s1) = get_reputation s now peer in (not rep.is_banned && not rep.is_quarantined, s1)

unfoldable pub is_peer_banned : Scoring → ℕ → Text → Bool × Scoring
is_peer_banned s now peer = let (rep, s1) = get_reputation s now peer in (rep.is_banned, s1)

pub record Validation : Type 0 where
  pub is_valid : Bool
  pub is_byzantine : Bool

abbrev is_empty : Text → Bool
is_empty t = length t == 0

-- `typeof event.ledgerSeq !== 'number' || event.ledgerSeq <= 0`
abbrev bad_ledger : Option ℤ → Bool
bad_ledger none = true
bad_ledger (some n) = leb_ℤ n (pos 0)

-- `is_xdr` says whether the payload parses as an `ScVal` or as a `ContractEvent`.
unfoldable pub validate_soroban_event : (Text → Bool) → ℕ → SorobanIndexedEvent → Validation
validate_soroban_event is_xdr now event =
    if is_empty event.id
      || (is_empty event.contract_id || (is_empty event.topic || is_empty event.xdr_payload))
    then record { is_valid = false; is_byzantine = false }
    else if bad_ledger event.ledger_seq
    then record { is_valid = false; is_byzantine = true }
    else if ltb 600000 (distance (pos now) event.timestamp)
    then record { is_valid = false; is_byzantine = true }
    else if is_xdr event.xdr_payload
    then record { is_valid = true; is_byzantine = false }
    else record { is_valid = false; is_byzantine = true }
