-- ===== src/Mesh/Plumtree/Overlays.antt =====
-- The eager and the lazy overlay: no peer is in both, and none twice.
use pactum.Prelude.{
  ℕ, ◌≡◌, refl, inl, inr, List, [], ◌∷◌, Bool, true, false, ◌&&◌, ◌||◌, Option, none, some,
  Option-cases, Text, text_eq, arith, if◌then◌else◌, ltb, length,
}
use pactum.Prelude.Js.{
  JsSet, has, add, remove, get, keys, Distinct, has-add, has-remove, add-Distinct, remove-Distinct,
  text_key,
}
use pactum.Mesh.Types.{
  SorobanIndexedEvent, GossipData, MeshProtocolMessage, gossip_data, ihave, graft, prune, other,
}
use pactum.Mesh.PeerScoring.{
  is_peer_banned, is_peer_eligible_for_eager_gossip, validate_soroban_event,
}
use pactum.Mesh.Plumtree.{
  Engine, add_peer, to_eager, to_lazy, send, send_graft, promote_candidate, rebalance_overlays,
  remove_peer, relay, publish_event, accept_novel, prune_duplicate, handle_gossip_data,
  handle_ihave, handle_graft, handle_prune, dispatch, handle_message, graft_timer_fires,
  ihave_round,
}

pub record AreDisjoint (eager lazy : JsSet Text) : Type 0 where
  pub eager_distinct : Distinct eager
  pub lazy_distinct : Distinct lazy
  pub apart : (p : Text) → has eager p ≡ true → has lazy p ≡ false

module _ (eager lazy : JsSet Text) (p : Text) (d : AreDisjoint eager lazy) where
  promote-AreDisjoint : AreDisjoint (add eager p) (remove lazy p)
  promote-AreDisjoint = record {
    eager_distinct = add-Distinct eager p d.eager_distinct;
    lazy_distinct = remove-Distinct lazy p d.lazy_distinct;
    apart =
        λ q h. ground (arith, has-add eager p q, has-remove lazy p q d.lazy_distinct, d.apart q);
  }

  demote-AreDisjoint : AreDisjoint (remove eager p) (add lazy p)
  demote-AreDisjoint = record {
    eager_distinct = remove-Distinct eager p d.eager_distinct;
    lazy_distinct = add-Distinct lazy p d.lazy_distinct;
    apart =
        λ q h. ground (arith, has-add lazy p q, has-remove eager p q d.eager_distinct, d.apart q);
  }

  drop-AreDisjoint : AreDisjoint (remove eager p) (remove lazy p)
  drop-AreDisjoint = record {
    eager_distinct = remove-Distinct eager p d.eager_distinct;
    lazy_distinct = remove-Distinct lazy p d.lazy_distinct;
    apart = λ q h. ground (
      arith,
      has-remove lazy p q d.lazy_distinct,
      has-remove eager p q d.eager_distinct,
      d.apart q,
    );
  }

  join_eager-AreDisjoint : has lazy p ≡ false → AreDisjoint (add eager p) lazy
  join_eager-AreDisjoint out = record {
    eager_distinct = add-Distinct eager p d.eager_distinct;
    lazy_distinct = d.lazy_distinct;
    apart = λ q h. ground (arith, has-add eager p q, d.apart q, text_key.same_iff p q);
  }

  join_lazy-AreDisjoint : has eager p ≡ false → AreDisjoint eager (add lazy p)
  join_lazy-AreDisjoint out = record {
    eager_distinct = d.eager_distinct;
    lazy_distinct = add-Distinct lazy p d.lazy_distinct;
    apart = λ q h. ground (arith, has-add lazy p q, d.apart q, text_key.same_iff p q);
  }

-- The overlays of an engine.
abbrev pub HasOverlays : Engine → Type 0
HasOverlays e = AreDisjoint e.eager e.lazy

branch :
    (b : Bool) (x y : Engine)
    → (b ≡ true → HasOverlays x)
    → (b ≡ false → HasOverlays y)
    → HasOverlays (if b then x else y)
branch true x y hx hy = hx refl
branch false x y hx hy = hy refl

module _ (e : Engine) (now : ℕ) (d : HasOverlays e) where
  add_peer-HasOverlays : (peer : Text) → HasOverlays (add_peer e now peer)
  unfolding add_peer
  add_peer-HasOverlays peer =
      branch (text_eq peer e.local_peer_id) _ _ (λ _. d)
        λ _.
          branch (has e.eager peer || has e.lazy peer) _ _ (λ _. d)
            λ absent.
              branch (ltb (length e.eager) e.config.target_eager_fanout) _ _
                (λ _.
                  branch (is_peer_eligible_for_eager_gossip e.scoring now peer).0 _ _
                    (λ _. join_eager-AreDisjoint e.eager e.lazy peer d (ground arith))
                    (λ _. join_lazy-AreDisjoint e.eager e.lazy peer d (ground arith)))
                (λ _. join_lazy-AreDisjoint e.eager e.lazy peer d (ground arith))

  send_graft-HasOverlays : (peer : Text) (id : Option Text) → HasOverlays (send_graft e now peer id)
  unfolding send_graft send to_eager
  send_graft-HasOverlays peer id = promote-AreDisjoint e.eager e.lazy peer d

  candidate-HasOverlays : (o : Option Text) → HasOverlays (promote_candidate e now o)
  unfolding promote_candidate
  candidate-HasOverlays none = d
  candidate-HasOverlays (some p) = send_graft-HasOverlays p none

  publish_event-HasOverlays :
      (event : SorobanIndexedEvent) → HasOverlays (publish_event e now event)
  unfolding publish_event relay
  publish_event-HasOverlays event = d

  accept_novel-HasOverlays :
      (sender : Text) (msg : GossipData) → HasOverlays (accept_novel e now sender msg)
  unfolding accept_novel relay to_eager
  accept_novel-HasOverlays sender msg =
      branch (has e.lazy sender) _ _ (λ _. promote-AreDisjoint e.eager e.lazy sender d) (λ _. d)

  prune_duplicate-HasOverlays : (sender : Text) → HasOverlays (prune_duplicate e now sender)
  unfolding prune_duplicate send to_lazy
  prune_duplicate-HasOverlays sender =
      branch (has e.eager sender) _ _ (λ _. demote-AreDisjoint e.eager e.lazy sender d) (λ _. d)

rebalance_overlays-HasOverlays :
    (pick : ℕ → ℕ) (e : Engine) (now : ℕ)
    → HasOverlays e
    → HasOverlays (rebalance_overlays pick e now)
unfolding rebalance_overlays
rebalance_overlays-HasOverlays pick e now d =
    branch (ltb (length e.eager) e.config.min_eager_fanout && ltb 0 (length e.lazy)) _ _
      (λ _. candidate-HasOverlays _ now d _) (λ _. d)

module _ (is_xdr : Text → Bool) (e : Engine) (now : ℕ) (sender : Text) (d : HasOverlays e) where
  handle_gossip_data-HasOverlays :
      (msg : GossipData) → HasOverlays (handle_gossip_data is_xdr e now sender msg)
  unfolding handle_gossip_data
  handle_gossip_data-HasOverlays msg =
      branch (validate_soroban_event is_xdr now msg.event).is_valid _ _
        (λ _.
          branch (has (keys e.seen) msg.message_id) _ _
            (λ _. prune_duplicate-HasOverlays _ now d sender)
            (λ _. accept_novel-HasOverlays _ now d sender msg))
        (λ _. d)

  dispatch-HasOverlays :
      (message : MeshProtocolMessage) → HasOverlays (dispatch is_xdr e now sender message)
  unfolding dispatch handle_ihave handle_graft handle_prune to_eager to_lazy
  dispatch-HasOverlays (gossip_data msg) = handle_gossip_data-HasOverlays msg
  dispatch-HasOverlays (ihave ids _ _) = d
  dispatch-HasOverlays (graft _ _ _) = promote-AreDisjoint e.eager e.lazy sender d
  dispatch-HasOverlays (prune _ _) =
      branch (has e.eager sender) _ _ (λ _. demote-AreDisjoint e.eager e.lazy sender d) (λ _. d)
  dispatch-HasOverlays other = d

handle_message-HasOverlays :
    (is_xdr : Text → Bool) (e : Engine) (now : ℕ) (sender : Text) (message : MeshProtocolMessage)
    → HasOverlays e
    → HasOverlays (handle_message is_xdr e now sender message)
unfolding handle_message
handle_message-HasOverlays is_xdr e now sender message d =
    branch (is_peer_banned e.scoring now sender).0 _ _ (λ _. d)
      (λ _. dispatch-HasOverlays is_xdr _ now sender d message)

timer-HasOverlays :
    (e : Engine) (now : ℕ) (id : Text) → HasOverlays e → HasOverlays (graft_timer_fires e now id)
unfolding graft_timer_fires
timer-HasOverlays e now id d = elim (Option-cases (get e.graft_timers id)) [
  | inl idle ↦ rw (idle, graft_timer_fires) d
  | inr (peer, running) ↦
      rw (running, graft_timer_fires)
        (branch (has (keys e.seen) id) _ _ (λ _. d)
          (λ _. send_graft-HasOverlays _ now d peer (some id)))
]

round-HasOverlays : (e : Engine) (now : ℕ) → HasOverlays e → HasOverlays (ihave_round e now)
unfolding ihave_round
round-HasOverlays e now d =
    branch (ltb 0 (length e.pending_ihave) && ltb 0 (length e.lazy)) _ _ (λ _. d) (λ _. d)

-- What can happen to an engine, with the time at which it happens.
pub data MeshCall : Type 0 where
  peer_joins peer_leaves timer_fires : Text → MeshCall
  publishes : SorobanIndexedEvent → MeshCall
  receives : Text → MeshProtocolMessage → MeshCall
  interval_fires : MeshCall

module _ (is_xdr : Text → Bool) (pick : ℕ → ℕ) where
  unfoldable pub mesh_step : Engine → ℕ × MeshCall → Engine
  mesh_step e (now, peer_joins p) = add_peer e now p
  mesh_step e (now, peer_leaves p) = remove_peer pick e now p
  mesh_step e (now, timer_fires id) = graft_timer_fires e now id
  mesh_step e (now, publishes event) = publish_event e now event
  mesh_step e (now, receives sender message) = handle_message is_xdr e now sender message
  mesh_step e (now, interval_fires) = ihave_round e now

  unfoldable pub mesh_run : Engine → List (ℕ × MeshCall) → Engine
  mesh_run e [] = e
  mesh_run e (call ∷ calls) = mesh_run (mesh_step e call) calls

  mesh_step-HasOverlays :
      (e : Engine) (call : ℕ × MeshCall) → HasOverlays e → HasOverlays (mesh_step e call)
  unfolding mesh_step remove_peer
  mesh_step-HasOverlays e (now, peer_joins p) d = add_peer-HasOverlays e now d p
  mesh_step-HasOverlays e (now, peer_leaves p) d =
      rebalance_overlays-HasOverlays pick _ now (drop-AreDisjoint e.eager e.lazy p d)
  mesh_step-HasOverlays e (now, timer_fires id) d = timer-HasOverlays e now id d
  mesh_step-HasOverlays e (now, publishes event) d = publish_event-HasOverlays e now d event
  mesh_step-HasOverlays e (now, receives sender message) d =
      handle_message-HasOverlays is_xdr e now sender message d
  mesh_step-HasOverlays e (now, interval_fires) d = round-HasOverlays e now d

  -- From disjoint overlays without repetitions, any sequence of joins, departures, publications,
  -- received messages of any kind, timers and intervals leads to such overlays again.
  pub mesh_run-HasOverlays :
      (e : Engine) (calls : List (ℕ × MeshCall)) → HasOverlays e → HasOverlays (mesh_run e calls)
  unfolding mesh_run
  mesh_run-HasOverlays e [] d = d
  mesh_run-HasOverlays e (call ∷ calls) d =
      mesh_run-HasOverlays (mesh_step e call) calls (mesh_step-HasOverlays e call d)
