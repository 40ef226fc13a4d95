-- ===== src/Tests/Overlay.antt =====
-- Runs of the mesh: one peer in each overlay, and messages from them.
use pactum.Prelude.{
  ℕ, ◌≡◌, refl, List, [], ◌∷◌, Bool, true, false, none, some, Bool-cases, inl, inr, subst, text_eq,
  text_eq→eq, Text, arith,
}
use pactum.Prelude.Int.{pos}
use pactum.Prelude.Js.{has, get, keys, text_key}
use pactum.Mesh.Types.{SorobanIndexedEvent, GossipData, gossip_data, ihave}
use pactum.Mesh.PeerScoring.{
  Scoring, default_scoring_config, is_peer_banned, validate_soroban_event, current_reputation,
  get_reputation, new_reputation,
}
use pactum.Mesh.PeerScoring.Invariant.{
  IsSoundScoring, ScoringCall, valid, invalid, decay, scoring_run, scoring_run-IsSound,
}
use pactum.Mesh.Plumtree.{Engine, handle_message}
use pactum.Mesh.Plumtree.Overlays.{
  MeshCall, receives, interval_fires, peer_joins, mesh_run, HasOverlays, mesh_run-HasOverlays,
}
use pactum.Mesh.Plumtree.Counts.{IsAccounted, mesh_run-IsAccounted}
use pactum.Mesh.Plumtree.Delivery.{delivered_once}

abbrev scoring : Scoring
scoring = record { reputations = []; config = default_scoring_config }

abbrev alice : Text
alice = b'a' ∷ []

abbrev bob : Text
bob = b'b' ∷ []

abbrev engine : Engine
engine = record {
  local_peer_id = b'm' ∷ b'e' ∷ [];
  eager = alice ∷ [];
  lazy = bob ∷ [];
  seen = [];
  graft_timers = [];
  pending_ihave = [];
  scoring = scoring;
  config = record { target_eager_fanout = 3; min_eager_fanout = 2; message_cache_ttl_ms = 120000 };
  sent = [];
  delivered = [];
  messages_received = 0;
  messages_relayed = 0;
  duplicates_pruned = 0;
  byzantine_dropped = 0;
}

abbrev event : SorobanIndexedEvent
event = record {
  id = b'e' ∷ [];
  contract_id = b'c' ∷ [];
  topic = b't' ∷ [];
  xdr_payload = b'x' ∷ [];
  ledger_seq = some (pos 7);
  tx_hash = [];
  timestamp = pos 1000;
  origin_peer_id = alice;
  signature = none;
}

abbrev message : GossipData
message = record {
  message_id = b'e' ∷ [];
  topic = b't' ∷ [];
  event = event;
  hop_count = 0;
  sender_id = alice;
  timestamp = 1000;
}

abbrev any_xdr : Text → Bool
any_xdr payload = true

abbrev first : ℕ → ℕ
first n = 0

abbrev calls : List (ℕ × MeshCall)
calls =
    (1000, receives alice (gossip_data message))
    ∷ (1500, receives bob (ihave ((b'z' ∷ []) ∷ []) bob 1500))
    ∷ (2000, interval_fires)
    ∷ []

only_alice : (p : Text) → has (alice ∷ []) p ≡ true → alice ≡ p
unfolding has
only_alice p h = elim (Bool-cases (text_eq alice p)) [
  | inl same ↦ text_eq→eq alice p same
  | inr distinct ↦ ground arith
]

bob_is_not_alice : has (bob ∷ []) alice ≡ false
unfolding has text_eq
bob_is_not_alice = refl

engine-HasOverlays : HasOverlays engine
unfolding has
engine-HasOverlays = record {
  eager_distinct = (refl, tt);
  lazy_distinct = (refl, tt);
  apart = λ p h. subst (λ q. has (bob ∷ []) q ≡ false) (only_alice p h) bob_is_not_alice;
}

mesh_run-HasOverlays_example : HasOverlays (mesh_run any_xdr first engine calls)
mesh_run-HasOverlays_example = mesh_run-HasOverlays any_xdr first engine calls engine-HasOverlays

engine-IsAccounted : IsAccounted engine
engine-IsAccounted = record { total = refl }

mesh_run-IsAccounted_example : IsAccounted (mesh_run any_xdr first engine calls)
mesh_run-IsAccounted_example = mesh_run-IsAccounted any_xdr first engine calls engine-IsAccounted

alice_is_not_banned : (is_peer_banned scoring 1000 alice).0 ≡ false
unfolding is_peer_banned get_reputation current_reputation new_reputation get
alice_is_not_banned = refl

event_is_valid : (validate_soroban_event any_xdr 1000 event).is_valid ≡ true
unfolding validate_soroban_event
event_is_valid = refl

nothing_seen : has (keys engine.seen) message.message_id ≡ false
unfolding has
nothing_seen = refl

abbrev later_calls : List (ℕ × MeshCall)
later_calls = (2000, peer_joins (b'd' ∷ [])) ∷ (3000, interval_fires) ∷ []

delivered_once_example :
    let e1 = handle_message any_xdr engine 1000 alice (gossip_data message) in
    let e2 = mesh_run any_xdr first e1 later_calls in
    (e1.delivered ≡ (event, alice) ∷ [])
    × ((handle_message any_xdr e2 4000 bob (gossip_data message)).delivered ≡ e2.delivered)
delivered_once_example =
    delivered_once any_xdr first engine 1000 alice message later_calls 4000 bob message
      alice_is_not_banned event_is_valid nothing_seen
      (omega arith, omega arith, (omega arith, omega arith, tt)) refl

scoring-IsSoundScoring : IsSoundScoring scoring
scoring-IsSoundScoring = record {
  ordered = record {
    lowest = omega arith;
    order = omega arith;
    start = omega arith;
    start_bound = omega arith;
    room = omega arith;
    factor = omega arith;
  };
  all = tt;
}

abbrev scoring_calls : List (ℕ × ScoringCall)
scoring_calls = (1, valid alice) ∷ (2, invalid bob false) ∷ (3, decay) ∷ []

scoring_run-IsSound_example : IsSoundScoring (scoring_run scoring scoring_calls)
scoring_run-IsSound_example = scoring_run-IsSound scoring scoring_calls scoring-IsSoundScoring
