-- ===== src/Mesh/Plumtree/Counts.antt =====
-- Every message is accounted for: delivered, a duplicate, or dropped.
use pactum.Prelude.{
  ℕ, ◌+◌, ◌≡◌, refl, ap, List, [], ◌∷◌, Bool, true, false, Option, Text, arith, if◌then◌else◌,
  length, length-append,
}
use pactum.Prelude.Js.{text_key}
use pactum.Mesh.Types.{
  SorobanIndexedEvent, GossipData, MeshProtocolMessage, gossip_data, ihave, graft, prune, other,
}
use pactum.Mesh.PeerScoring.{is_peer_banned}
use pactum.Mesh.Plumtree.{
  Engine, add_peer, to_eager, to_lazy, send, send_graft, promote_candidate, rebalance_overlays,
  remove_peer, relay, publish_event, accept_novel, prune_duplicate, handle_gossip_data,
  handle_ihave, handle_graft, handle_prune, dispatch, handle_message, graft_timer_fires,
  ihave_round,
}
use pactum.Mesh.Plumtree.Overlays.{
  MeshCall, peer_joins, peer_leaves, timer_fires, publishes, receives, interval_fires, mesh_step,
  mesh_run,
}

-- Every message received was delivered, a duplicate, or dropped as invalid.
pub record IsAccounted (e : Engine) : Type 0 where
  pub total : e.messages_received ≡ length e.delivered + e.duplicates_pruned + e.byzantine_dropped

pub branch :
    (P : Engine → Type 0) (b : Bool) (x y : Engine)
    → (b ≡ true → P x)
    → (b ≡ false → P y)
    → P (if b then x else y)
branch P true x y hx hy = hx refl
branch P false x y hx hy = hy refl

-- A call that counts nothing, delivers nothing and remembers the same messages.
pub record Keeps (e e' : Engine) : Type 0 where
  pub received : e'.messages_received ≡ e.messages_received
  pub deliveries : e'.delivered ≡ e.delivered
  pub duplicates : e'.duplicates_pruned ≡ e.duplicates_pruned
  pub dropped : e'.byzantine_dropped ≡ e.byzantine_dropped
  pub memory : e'.seen ≡ e.seen
  pub config_same : e'.config ≡ e.config

Keeps-IsAccounted : {e e' : Engine} → Keeps e e' → IsAccounted e → IsAccounted e'
Keeps-IsAccounted s h = record {
  total = omega (arith, h.total, s.received, ap length s.deliveries, s.duplicates, s.dropped);
}

module _ (e : Engine) (now : ℕ) where
  pub add_peer-Keeps : (peer : Text) → Keeps e (add_peer e now peer)
  unfolding add_peer
  add_peer-Keeps peer = ground arith

  send_graft-Keeps : (peer : Text) (id : Option Text) → Keeps e (send_graft e now peer id)
  unfolding send_graft send to_eager
  send_graft-Keeps peer id = ground arith

  pub timer-Keeps : (id : Text) → Keeps e (graft_timer_fires e now id)
  unfolding graft_timer_fires send_graft send to_eager
  timer-Keeps id = ground arith

  pub remove_peer-Keeps : (pick : ℕ → ℕ) (peer : Text) → Keeps e (remove_peer pick e now peer)
  unfolding remove_peer rebalance_overlays promote_candidate send_graft send to_eager
  remove_peer-Keeps pick peer = ground arith

  pub handle_ihave-Keeps : (sender : Text) (ids : List Text) → Keeps e (handle_ihave e sender ids)
  unfolding handle_ihave
  handle_ihave-Keeps sender ids = ground arith

  pub handle_graft-Keeps : (sender : Text) → Keeps e (handle_graft e sender)
  unfolding handle_graft to_eager
  handle_graft-Keeps sender = ground arith

  pub handle_prune-Keeps : (sender : Text) → Keeps e (handle_prune e sender)
  unfolding handle_prune to_lazy
  handle_prune-Keeps sender = ground arith

  publish_event-IsAccounted :
      (event : SorobanIndexedEvent) → IsAccounted e → IsAccounted (publish_event e now event)
  unfolding publish_event relay
  publish_event-IsAccounted event h = record { total = h.total }

  round-IsAccounted : IsAccounted e → IsAccounted (ihave_round e now)
  unfolding ihave_round
  round-IsAccounted h = ground (arith, h.total)

  handle_gossip_data-IsAccounted :
      (is_xdr : Text → Bool) (sender : Text) (msg : GossipData)
      → IsAccounted e
      → IsAccounted (handle_gossip_data is_xdr e now sender msg)
  unfolding handle_gossip_data accept_novel prune_duplicate relay send to_eager to_lazy
  handle_gossip_data-IsAccounted is_xdr sender msg h =
      ground (arith, h.total, length-append e.delivered ((msg.event, sender) ∷ []))

  dispatch-IsAccounted :
      (is_xdr : Text → Bool) (sender : Text) (message : MeshProtocolMessage)
      → IsAccounted e
      → IsAccounted (dispatch is_xdr e now sender message)
  unfolding dispatch
  dispatch-IsAccounted is_xdr sender (gossip_data msg) h =
      handle_gossip_data-IsAccounted is_xdr sender msg h
  dispatch-IsAccounted is_xdr sender (ihave ids _ _) h =
      Keeps-IsAccounted (handle_ihave-Keeps sender ids) h
  dispatch-IsAccounted is_xdr sender (graft _ _ _) h =
      Keeps-IsAccounted (handle_graft-Keeps sender) h
  dispatch-IsAccounted is_xdr sender (prune _ _) h = Keeps-IsAccounted (handle_prune-Keeps sender) h
  dispatch-IsAccounted is_xdr sender other h = h

handle_message-IsAccounted :
    (is_xdr : Text → Bool) (e : Engine) (now : ℕ) (sender : Text) (message : MeshProtocolMessage)
    → IsAccounted e
    → IsAccounted (handle_message is_xdr e now sender message)
unfolding handle_message
handle_message-IsAccounted is_xdr e now sender message h =
    branch IsAccounted (is_peer_banned e.scoring now sender).0 _ _ (λ _. record { total = h.total })
      (λ _. dispatch-IsAccounted _ now is_xdr sender message (record { total = h.total }))

module _ (is_xdr : Text → Bool) (pick : ℕ → ℕ) where
  mesh_step-IsAccounted :
      (e : Engine) (call : ℕ × MeshCall)
      → IsAccounted e
      → IsAccounted (mesh_step is_xdr pick e call)
  unfolding mesh_step
  mesh_step-IsAccounted e (now, peer_joins p) h = Keeps-IsAccounted (add_peer-Keeps e now p) h
  mesh_step-IsAccounted e (now, peer_leaves p) h =
      Keeps-IsAccounted (remove_peer-Keeps e now pick p) h
  mesh_step-IsAccounted e (now, timer_fires id) h = Keeps-IsAccounted (timer-Keeps e now id) h
  mesh_step-IsAccounted e (now, publishes event) h = publish_event-IsAccounted e now event h
  mesh_step-IsAccounted e (now, receives sender message) h =
      handle_message-IsAccounted is_xdr e now sender message h
  mesh_step-IsAccounted e (now, interval_fires) h = round-IsAccounted e now h

  -- After any run, the gossip messages that passed the ban check are exactly those delivered,
  -- those pruned as duplicates and those dropped as invalid, if that held at its start.
  pub mesh_run-IsAccounted :
      (e : Engine) (calls : List (ℕ × MeshCall))
      → IsAccounted e
      → IsAccounted (mesh_run is_xdr pick e calls)
  unfolding mesh_run
  mesh_run-IsAccounted e [] h = h
  mesh_run-IsAccounted e (call ∷ calls) h =
      mesh_run-IsAccounted (mesh_step is_xdr pick e call) calls (mesh_step-IsAccounted e call h)
