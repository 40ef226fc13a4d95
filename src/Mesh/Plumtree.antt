-- ===== src/Mesh/Plumtree.antt =====
-- frontend/src/lib/mesh/plumtreeEngine.ts: `PlumtreeEngine`. The callbacks `sendMessage` and
-- `onDeliver` append to `sent` and `delivered`; timers are calls that the environment makes; the
-- clock is an argument `now`, and the random choice of a candidate an argument `pick`.
pub mod Overlays
pub mod Counts
pub mod Delivery
pub mod Memory
use pactum.Prelude.{
  ℕ, zero, suc, ◌+◌, ◌-◌, List, [], ◌∷◌, ◌++◌, Bool, true, false, ◌&&◌, ◌||◌, not, if◌then◌else◌,
  ltb, ◌==◌, length, get_elem?, Option, none, some, Text, text_eq,
}
use pactum.Prelude.Js.{JsMap, JsSet, has, add, remove, get, put, delete, keys, text_key}
use pactum.Mesh.Types.{
  SorobanIndexedEvent, GossipData, MeshProtocolMessage, gossip_data, ihave, graft, prune, other,
}
use pactum.Mesh.PeerScoring.{
  Scoring, is_peer_banned, is_peer_eligible_for_eager_gossip, validate_soroban_event,
  record_valid_message, record_duplicate_message, record_invalid_message,
}

pub record PlumtreeConfig : Type 0 where
  pub target_eager_fanout : ℕ
  pub min_eager_fanout : ℕ
  pub message_cache_ttl_ms : ℕ

-- `graft_timers` holds the peer that a running timer would graft, for each message id.
pub record Engine : Type 0 where
  pub local_peer_id : Text
  pub eager : JsSet Text
  pub lazy : JsSet Text
  pub seen : JsMap Text ℕ
  pub graft_timers : JsMap Text Text
  pub pending_ihave : JsSet Text
  pub scoring : Scoring
  pub config : PlumtreeConfig
  pub sent : List (Text × MeshProtocolMessage)
  pub delivered : List (SorobanIndexedEvent × Text)
  pub messages_received : ℕ
  pub messages_relayed : ℕ
  pub duplicates_pruned : ℕ
  pub byzantine_dropped : ℕ

-- The pairs of a peer and a message that a loop hands to `sendMessage`, and the scoring after it.
abbrev pub Outgoing : Type 0
Outgoing = List (Text × MeshProtocolMessage) × Scoring

unfoldable pub add_peer : Engine → ℕ → Text → Engine
add_peer e now peer =
    if text_eq peer e.local_peer_id
    then e
    else if has e.eager peer || has e.lazy peer
    then e
    else if ltb (length e.eager) e.config.target_eager_fanout
    then (let (eligible, scoring) = is_peer_eligible_for_eager_gossip e.scoring now peer in
        if eligible
        then record e { eager = add e.eager peer; scoring = scoring }
        else record e { lazy = add e.lazy peer; scoring = scoring })
    else record e { lazy = add e.lazy peer }

-- The promotion in `sendGraft`, `handleGraft` and `handleGossipData`.
unfoldable pub to_eager : Engine → Text → Engine
to_eager e peer = record e { lazy = remove e.lazy peer; eager = add e.eager peer }

-- The demotion in `handlePrune` and `handleGossipData`.
unfoldable pub to_lazy : Engine → Text → Engine
to_lazy e peer = record e { eager = remove e.eager peer; lazy = add e.lazy peer }

unfoldable pub send : Engine → Text → MeshProtocolMessage → Engine
send e peer message = record e { sent = e.sent ++ (peer, message) ∷ [] }

unfoldable pub send_graft : Engine → ℕ → Text → Option Text → Engine
send_graft e now peer message_id =
    send (to_eager e peer) peer (graft message_id e.local_peer_id now)

-- `Array.from(lazyNeighbors).filter(isPeerEligibleForEagerGossip)`
unfoldable pub eligible_peers : Scoring → ℕ → List Text → List Text × Scoring
eligible_peers s now [] = ([], s)
eligible_peers s now (p ∷ ps) =
    let (eligible, s1) = is_peer_eligible_for_eager_gossip s now p in
    let (rest, s2) = eligible_peers s1 now ps in (if eligible then p ∷ rest else rest, s2)

promote_candidate : Engine → ℕ → Option Text → Engine
promote_candidate e now none = e
promote_candidate e now (some p) = send_graft e now p none

-- `pick n` is `Math.floor(Math.random() * n)`.
unfoldable pub rebalance_overlays : (ℕ → ℕ) → Engine → ℕ → Engine
unfolding promote_candidate
rebalance_overlays pick e now =
    if ltb (length e.eager) e.config.min_eager_fanout && ltb 0 (length e.lazy)
    then (let (candidates, scoring) = eligible_peers e.scoring now e.lazy in
        promote_candidate (record e { scoring = scoring }) now
          (get_elem? candidates (pick (length candidates))))
    else e

unfoldable pub remove_peer : (ℕ → ℕ) → Engine → ℕ → Text → Engine
remove_peer pick e now peer =
    rebalance_overlays pick (record e { eager = remove e.eager peer; lazy = remove e.lazy peer })
      now

-- The loop over the eager neighbours, which passes over the peers that `skip` names.
unfoldable pub push_eagerly :
    (Text → Bool) → MeshProtocolMessage → Scoring → ℕ → List Text → Outgoing
push_eagerly skip message s now [] = ([], s)
push_eagerly skip message s now (p ∷ ps) =
    let (eligible, s1) = if skip p then (false, s) else is_peer_eligible_for_eager_gossip s now p in
    let (rest, s2) = push_eagerly skip message s1 now ps in
    (if eligible then (p, message) ∷ rest else rest, s2)

unfoldable pub relay : (Text → Bool) → MeshProtocolMessage → Engine → ℕ → Engine
relay skip message e now =
    let (out, scoring) = push_eagerly skip message e.scoring now e.eager in
    record e {
      scoring = scoring;
      sent = e.sent ++ out;
      messages_relayed = e.messages_relayed + length out;
    }

unfoldable pub publish_event : Engine → ℕ → SorobanIndexedEvent → Engine
publish_event e now event =
    let message = gossip_data (record {
      message_id = event.id;
      topic = event.topic;
      event = event;
      hop_count = 0;
      sender_id = e.local_peer_id;
      timestamp = now;
    }) in
    let e1 = relay (λ _. false) message (record e { seen = put e.seen event.id now }) now in
    record e1 { pending_ihave = add e1.pending_ihave event.id }

-- A message that was not seen: deliver it, and push it on to the eager peers but its sender.
unfoldable pub accept_novel : Engine → ℕ → Text → GossipData → Engine
accept_novel e now sender msg =
    let e1 = record e {
      seen = put e.seen msg.message_id now;
      scoring = record_valid_message e.scoring now sender;
    } in
    let e2 = if has e.lazy sender then to_eager e1 sender else e1 in
    let e3 = record e2 { delivered = e2.delivered ++ (msg.event, sender) ∷ [] } in
    let forward =
      gossip_data (record msg { hop_count = msg.hop_count + 1; sender_id = e.local_peer_id }) in
    let e4 = relay (λ p. text_eq p sender) forward e3 now in
    record e4 { pending_ihave = add e4.pending_ihave msg.message_id }

unfoldable pub prune_duplicate : Engine → ℕ → Text → Engine
prune_duplicate e now sender =
    let e1 = record e {
      scoring = record_duplicate_message e.scoring now sender;
      duplicates_pruned = e.duplicates_pruned + 1;
    } in
    if has e.eager sender then send (to_lazy e1 sender) sender (prune e.local_peer_id now) else e1

-- The loop starts a timer for each id that is neither seen nor awaited.
unfoldable pub start_graft_timers :
    JsMap Text ℕ → Text → List Text → JsMap Text Text → JsMap Text Text
start_graft_timers seen sender [] timers = timers
start_graft_timers seen sender (id ∷ ids) timers =
    start_graft_timers seen sender ids
      (if has (keys seen) id || has (keys timers) id then timers else put timers id sender)

unfoldable pub handle_ihave : Engine → Text → List Text → Engine
handle_ihave e sender ids = record e {
  graft_timers = start_graft_timers e.seen sender ids e.graft_timers;
}

unfoldable pub handle_graft : Engine → Text → Engine
handle_graft e sender = to_eager e sender

unfoldable pub handle_prune : Engine → Text → Engine
handle_prune e sender = if has e.eager sender then to_lazy e sender else e

module _ (is_xdr : Text → Bool) where
  unfoldable pub handle_gossip_data : Engine → ℕ → Text → GossipData → Engine
  handle_gossip_data e now sender msg =
      let e1 = record e { messages_received = e.messages_received + 1 } in
      let validation = validate_soroban_event is_xdr now msg.event in
      if validation.is_valid
      then (let e2 = record e1 { graft_timers = delete e.graft_timers msg.message_id } in
          if has (keys e.seen) msg.message_id
          then prune_duplicate e2 now sender
          else accept_novel e2 now sender msg)
      else record e1 {
        byzantine_dropped = e.byzantine_dropped + 1;
        scoring = record_invalid_message e.scoring now sender validation.is_byzantine;
      }

  unfoldable pub dispatch : Engine → ℕ → Text → MeshProtocolMessage → Engine
  dispatch e now sender (gossip_data msg) = handle_gossip_data e now sender msg
  dispatch e now sender (ihave ids _ _) = handle_ihave e sender ids
  dispatch e now sender (graft _ _ _) = handle_graft e sender
  dispatch e now sender (prune _ _) = handle_prune e sender
  dispatch e now sender other = e

  unfoldable pub handle_message : Engine → ℕ → Text → MeshProtocolMessage → Engine
  handle_message e now sender message =
      let (banned, scoring) = is_peer_banned e.scoring now sender in
      let e1 = record e { scoring = scoring } in
      if banned then e1 else dispatch e1 now sender message

-- The callback of a graft timer.
unfoldable pub graft_timer_fires : Engine → ℕ → Text → Engine
graft_timer_fires e now id = elim (get e.graft_timers id) [
  | none ↦ e
  | some peer ↦
      let e1 = record e { graft_timers = delete e.graft_timers id } in
      if has (keys e.seen) id then e1 else send_graft e1 now peer (some id)
]

-- The loop over the lazy neighbours.
unfoldable pub announce : MeshProtocolMessage → Scoring → ℕ → List Text → Outgoing
announce message s now [] = ([], s)
announce message s now (p ∷ ps) =
    let (banned, s1) = is_peer_banned s now p in
    let (rest, s2) = announce message s1 now ps in
    (if banned then rest else (p, message) ∷ rest, s2)

-- Entries older than the time to live are deleted.
unfoldable pub prune_old : ℕ → ℕ → JsMap Text ℕ → JsMap Text ℕ
prune_old now ttl [] = []
prune_old now ttl ((id, timestamp) ∷ m) =
    if ltb ttl (now - timestamp) then prune_old now ttl m else (id, timestamp) ∷ prune_old now ttl m

-- One round of the interval.
unfoldable pub ihave_round : Engine → ℕ → Engine
ihave_round e now =
    let e1 =
      if ltb 0 (length e.pending_ihave) && ltb 0 (length e.lazy)
      then (let (out, scoring) =
            announce (ihave e.pending_ihave e.local_peer_id now) e.scoring now e.lazy in
          record e { pending_ihave = []; scoring = scoring; sent = e.sent ++ out })
      else e in
    record e1 { seen = prune_old now e.config.message_cache_ttl_ms e1.seen }
