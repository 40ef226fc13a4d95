-- ===== src/Mesh/PeerScoring/Bans.antt =====
-- How long a ban lasts.
use pactum.Prelude.{ℕ, ◌+◌, ◌≤◌, ◌<◌, ◌≡◌, true, leb, ltb, some, Text, arith}
use pactum.Prelude.Int.{ℤ, pos, ◌+ℤ◌, leb_ℤ, neg_ℤ}
use pactum.Prelude.Js.{get, get-put, same_refl, text_key}
use pactum.Mesh.Types.{PeerReputation}
use pactum.Mesh.PeerScoring.{
  ScoringConfig, Scoring, current_reputation, lift_expired_ban, store, get_reputation, update_flags,
  adjust_score, clamp_score, record_invalid_message, is_peer_banned,
  is_peer_eligible_for_eager_gossip,
}

module _ (s : Scoring) (peer : Text) where
  -- A banned peer with an expiry `t`, not 0, is banned at every time before `t`; from `t` on it is
  -- not, may take part in eager gossip, and has five points more than the quarantine threshold.
  pub ban_window :
      (rep : PeerReputation) (t now : ℕ)
      → get s.reputations peer ≡ some rep
      → rep.is_banned ≡ true
      → rep.is_quarantined ≡ true
      → rep.ban_expiry ≡ some t
      → 0 < t
      → ((is_peer_banned s now peer).0 ≡ ltb now t)
        × ((is_peer_eligible_for_eager_gossip s now peer).0 ≡ leb t now)
        × (t ≤ now → (get_reputation s now peer).0.score ≡ s.config.quarantine_threshold +ℤ pos 500)
  unfolding is_peer_banned is_peer_eligible_for_eager_gossip get_reputation current_reputation
      lift_expired_ban
  ban_window rep t now e b q x h = (ground arith, ground arith, ground arith)

  get-store : (rep : PeerReputation) → get (store s peer rep).reputations peer ≡ some rep
  unfolding store
  get-store rep = rw (get-put s.reputations peer peer rep, same_refl peer)

module _ (c : ScoringConfig) (now : ℕ) (rep : PeerReputation) (delta : ℤ) where
  adjust_score-bans :
      leb_ℤ (clamp_score (rep.score +ℤ delta)) c.ban_threshold ≡ true
      → ((adjust_score c now rep delta).is_banned ≡ true)
        × ((adjust_score c now rep delta).is_quarantined ≡ true)
        × ((adjust_score c now rep delta).ban_expiry ≡ some (now + c.ban_duration_ms))
  unfolding adjust_score update_flags
  adjust_score-bans h = ground arith

-- A forged message that brings the score to the ban threshold bans its sender: from then on
-- `isPeerBanned` holds at every time before `now + banDurationMs`, and at none from then on.
pub record_invalid_message-bans :
    (s : Scoring) (peer : Text) (now later : ℕ)
    → leb_ℤ
        (clamp_score
          ((current_reputation s now peer).score +ℤ neg_ℤ s.config.byzantine_attack_penalty))
        s.config.ban_threshold
      ≡ true
    → 0 < now + s.config.ban_duration_ms
    → (is_peer_banned (record_invalid_message s now peer true) later peer).0
      ≡ ltb later (now + s.config.ban_duration_ms)
unfolding record_invalid_message get_reputation
record_invalid_message-bans s peer now later low pos_expiry =
    let rep = current_reputation s now peer in
    let s1 = store s peer rep in
    let hit = record rep { invalid_messages = rep.invalid_messages + 1; last_active = now } in
    let delta = neg_ℤ s.config.byzantine_attack_penalty in
    let (b, q, x) = adjust_score-bans s.config now hit delta low in
    let rep' = adjust_score s.config now hit delta in
    (ban_window (store s1 peer rep') peer rep' (now + s.config.ban_duration_ms) later
      (get-store s1 peer rep') b q x pos_expiry).0
