-- ===== src/Mesh/Plumtree/Delivery.antt =====
-- A message is delivered once while it is remembered, and pushed on to others than its sender.
use pactum.Prelude.{ℕ, ◌+◌, ◌≤◌, ◌≡◌, refl, List, [], ◌∷◌, ◌++◌, Bool, true, false, Text, arith}
use pactum.Prelude.Js.{has, delete, keys, get-put, text_key, same_refl}
use pactum.Mesh.Types.{SorobanIndexedEvent, GossipData, MeshProtocolMessage, gossip_data}
use pactum.Mesh.PeerScoring.{is_peer_banned, validate_soroban_event}
use pactum.Mesh.Plumtree.{
  Engine, relay, publish_event, accept_novel, handle_gossip_data, dispatch, handle_message,
}
use pactum.Mesh.Plumtree.Overlays.{
  MeshCall, peer_joins, peer_leaves, timer_fires, publishes, receives, interval_fires, mesh_step,
  mesh_run,
}
use pactum.Mesh.Plumtree.Counts.{branch, add_peer-Keeps, timer-Keeps, remove_peer-Keeps}
use pactum.Mesh.Plumtree.Memory.{
  Keeps-Remembers, Remembers, accept_novel-outcome, dispatch-Remembers, duplicate_delivered,
  has_found, remember, round-Remembers,
}

-- The calls happen while an entry of `since` lives.
abbrev pub InWindow : ℕ → ℕ → List (ℕ × MeshCall) → Type 0
InWindow since ttl [] = Unit {0}
InWindow since ttl ((now, _) ∷ calls) =
    (since ≤ now) × (now ≤ since + ttl) × InWindow since ttl calls

module _ (id : Text) (since ttl : ℕ) (is_xdr : Text → Bool) (pick : ℕ → ℕ) where
  handle_message-Remembers :
      (e : Engine) (now : ℕ) (sender : Text) (message : MeshProtocolMessage)
      → since ≤ now
      → Remembers id since ttl e
      → Remembers id since ttl (handle_message is_xdr e now sender message)
  unfolding handle_message
  handle_message-Remembers e now sender message w h =
      let start : Remembers id since ttl
          (record e { scoring = (is_peer_banned e.scoring now sender).1 }) =
        record { time = h.time; found = h.found; recent = h.recent; lifetime = h.lifetime } in
      branch (Remembers id since ttl) (is_peer_banned e.scoring now sender).0 _ _ (λ _. start)
        (λ _. dispatch-Remembers id since ttl is_xdr pick now w _ sender message start)

  publish_event-Remembers :
      (e : Engine) (now : ℕ) (event : SorobanIndexedEvent)
      → since ≤ now
      → Remembers id since ttl e
      → Remembers id since ttl (publish_event e now event)
  unfolding publish_event relay
  publish_event-Remembers e now event w h = remember id since ttl e _ now event.id w refl refl h

  mesh_step-Remembers :
      (e : Engine) (now : ℕ) (call : MeshCall)
      → since ≤ now
      → now ≤ since + ttl
      → Remembers id since ttl e
      → Remembers id since ttl (mesh_step is_xdr pick e (now, call))
  unfolding mesh_step
  mesh_step-Remembers e now (peer_joins p) w v h =
      Keeps-Remembers id since ttl (add_peer-Keeps e now p) h
  mesh_step-Remembers e now (peer_leaves p) w v h =
      Keeps-Remembers id since ttl (remove_peer-Keeps e now pick p) h
  mesh_step-Remembers e now (timer_fires j) w v h =
      Keeps-Remembers id since ttl (timer-Keeps e now j) h
  mesh_step-Remembers e now (publishes event) w v h = publish_event-Remembers e now event w h
  mesh_step-Remembers e now (receives sender message) w v h =
      handle_message-Remembers e now sender message w h
  mesh_step-Remembers e now (interval_fires) w v h = round-Remembers id since ttl e now v h

  mesh_run-Remembers :
      (e : Engine) (calls : List (ℕ × MeshCall))
      → InWindow since ttl calls
      → Remembers id since ttl e
      → Remembers id since ttl (mesh_run is_xdr pick e calls)
  unfolding mesh_run
  mesh_run-Remembers e [] w h = h
  mesh_run-Remembers e ((now, call) ∷ calls) w h =
      mesh_run-Remembers (mesh_step is_xdr pick e (now, call)) calls w.2
        (mesh_step-Remembers e now call w.0 w.1 h)

module _ (is_xdr : Text → Bool) (e : Engine) (now : ℕ) (sender : Text) (msg : GossipData) where
  known_id_delivers_nothing :
      has (keys e.seen) msg.message_id ≡ true
      → (handle_gossip_data is_xdr e now sender msg).delivered ≡ e.delivered
  unfolding handle_gossip_data
  known_id_delivers_nothing h =
      branch (λ e'. e'.delivered ≡ e.delivered)
        (validate_soroban_event is_xdr now msg.event).is_valid _ _
        (λ _. rw h (duplicate_delivered _ now sender)) (λ _. refl)

module _ (is_xdr : Text → Bool) (e : Engine) (now : ℕ) (sender : Text) (msg : GossipData) where
  known_message_delivers_nothing :
      has (keys e.seen) msg.message_id ≡ true
      → (handle_message is_xdr e now sender (gossip_data msg)).delivered ≡ e.delivered
  unfolding handle_message dispatch
  known_message_delivers_nothing h =
      branch (λ e'. e'.delivered ≡ e.delivered) (is_peer_banned e.scoring now sender).0 _ _
        (λ _. refl) (λ _. known_id_delivers_nothing is_xdr _ now sender msg h)

  -- The engine that `accept_novel` starts from when a message passes every check.
  unfoldable checked : Engine
  checked = record e {
    scoring = (is_peer_banned e.scoring now sender).1;
    messages_received = e.messages_received + 1;
    graft_timers = delete e.graft_timers msg.message_id;
  }

  novel_is_accepted :
      (is_peer_banned e.scoring now sender).0 ≡ false
      → (validate_soroban_event is_xdr now msg.event).is_valid ≡ true
      → has (keys e.seen) msg.message_id ≡ false
      → handle_message is_xdr e now sender (gossip_data msg) ≡ accept_novel checked now sender msg
  unfolding handle_message dispatch handle_gossip_data checked
  novel_is_accepted b v n = rw (b, v, n) refl

-- A gossip message that is not seen, valid, and from a peer that is not banned at `since` is
-- delivered once, to the end of what was delivered; and after any calls within the time to live of
-- its entry, a message with the same id, whoever sends it and whatever it carries, delivers nothing.
pub delivered_once :
    (is_xdr : Text → Bool) (pick : ℕ → ℕ) (e : Engine) (since : ℕ) (sender : Text)
    (msg : GossipData) (calls : List (ℕ × MeshCall)) (now : ℕ) (again : Text) (copy : GossipData)
    → (is_peer_banned e.scoring since sender).0 ≡ false
    → (validate_soroban_event is_xdr since msg.event).is_valid ≡ true
    → has (keys e.seen) msg.message_id ≡ false
    → InWindow since e.config.message_cache_ttl_ms calls
    → copy.message_id ≡ msg.message_id
    → let e1 = handle_message is_xdr e since sender (gossip_data msg) in
      let e2 = mesh_run is_xdr pick e1 calls in
      (e1.delivered ≡ e.delivered ++ (msg.event, sender) ∷ [])
      × ((handle_message is_xdr e2 now again (gossip_data copy)).delivered ≡ e2.delivered)
unfolding checked
delivered_once is_xdr pick e since sender msg calls now again copy b v n w same =
    rw (novel_is_accepted is_xdr e since sender msg b v n) (
      let a = accept_novel-outcome (checked is_xdr e since sender msg) since sender msg in
      let start : Remembers msg.message_id since e.config.message_cache_ttl_ms _ = record {
        time = since;
        found =
            rw
              (
                a.memory,
                get-put e.seen msg.message_id msg.message_id since,
                same_refl msg.message_id,
              )
              refl;
        recent = omega arith;
        lifetime = rw a.config_same refl;
      } in
      let h =
        mesh_run-Remembers msg.message_id since e.config.message_cache_ttl_ms is_xdr pick _ calls w
          start in
      (
        a.deliveries,
        known_message_delivers_nothing is_xdr _ now again copy
            (rw same (has_found _ msg.message_id h.found)),
      ))
