-- ===== src/Mesh/Plumtree/Memory.antt =====
-- What the handlers do to an entry of `seen` that is young enough.
use pactum.Prelude.{
  ℕ, ◌+◌, ◌≤◌, ◌≡◌, refl, inl, inr, [], ◌∷◌, ◌++◌, Bool, true, Bool-cases, some, Text, text_eq,
  arith,
}
use pactum.Prelude.Js.{JsMap, has, get, put, keys, get-put, text_key, get_absent}
use pactum.Mesh.Types.{GossipData, MeshProtocolMessage, gossip_data, ihave, graft, prune, other}
use pactum.Mesh.PeerScoring.{validate_soroban_event}
use pactum.Mesh.Plumtree.{
  Engine, to_eager, to_lazy, send, relay, accept_novel, prune_duplicate, handle_gossip_data,
  dispatch, ihave_round, prune_old,
}
use pactum.Mesh.Plumtree.Counts.{
  Keeps, branch, handle_ihave-Keeps, handle_graft-Keeps, handle_prune-Keeps,
}

-- `id` was seen at `since` or later, and entries live for `ttl`.
pub record Remembers (id : Text) (since ttl : ℕ) (e : Engine) : Type 0 where
  pub time : ℕ
  pub found : get e.seen id ≡ some time
  pub recent : since ≤ time
  pub lifetime : e.config.message_cache_ttl_ms ≡ ttl

pub has_found : (m : JsMap Text ℕ) (id : Text) {t : ℕ} → get m id ≡ some t → has (keys m) id ≡ true
has_found m id h = elim (Bool-cases (has (keys m) id)) [
  | inl present ↦ present
  | inr missing ↦ let n = get_absent m id missing in cc
]

prune_old-keeps :
    (now ttl : ℕ) (m : JsMap Text ℕ) (id : Text) (t : ℕ)
    → get m id ≡ some t
    → now ≤ t + ttl
    → get (prune_old now ttl m) id ≡ some t
unfolding prune_old get
prune_old-keeps now ttl [] id t h k = cc
prune_old-keeps now ttl ((i, s) ∷ m) id t h k =
    ground (arith, prune_old-keeps now ttl m id t, text_key.same_iff i id)

module _ (e : Engine) (now : ℕ) where
  round_seen : (ihave_round e now).seen ≡ prune_old now e.config.message_cache_ttl_ms e.seen
  unfolding ihave_round
  round_seen = ground arith

  round_config : (ihave_round e now).config ≡ e.config
  unfolding ihave_round
  round_config = ground arith

  -- What accepting a message does to the parts that deliver and remember.
  pub record Accepted (sender : Text) (msg : GossipData) (e' : Engine) : Type 0 where
    pub memory : e'.seen ≡ put e.seen msg.message_id now
    pub config_same : e'.config ≡ e.config
    pub deliveries : e'.delivered ≡ e.delivered ++ (msg.event, sender) ∷ []

  pub accept_novel-outcome :
      (sender : Text) (msg : GossipData) → Accepted sender msg (accept_novel e now sender msg)
  unfolding accept_novel relay to_eager
  accept_novel-outcome sender msg = ground arith

  duplicate_seen : (sender : Text) → (prune_duplicate e now sender).seen ≡ e.seen
  unfolding prune_duplicate send to_lazy
  duplicate_seen sender = ground arith

  duplicate_config : (sender : Text) → (prune_duplicate e now sender).config ≡ e.config
  unfolding prune_duplicate send to_lazy
  duplicate_config sender = ground arith

  pub duplicate_delivered : (sender : Text) → (prune_duplicate e now sender).delivered ≡ e.delivered
  unfolding prune_duplicate send to_lazy
  duplicate_delivered sender = ground arith

module _ (id : Text) (since ttl : ℕ) where
  pub Keeps-Remembers :
      {e e' : Engine} → Keeps e e' → Remembers id since ttl e → Remembers id since ttl e'
  Keeps-Remembers k h = record {
    time = h.time;
    found = rw k.memory h.found;
    recent = h.recent;
    lifetime = rw k.config_same h.lifetime;
  }

  -- A new entry made in the window.
  pub remember :
      (e e' : Engine) (now : ℕ) (j : Text)
      → since ≤ now
      → e'.seen ≡ put e.seen j now
      → e'.config ≡ e.config
      → Remembers id since ttl e
      → Remembers id since ttl e'
  remember e e' now j w s c h = elim (Bool-cases (text_eq j id)) [
    | inl same ↦ record {
      time = now;
      found = rw (s, get-put e.seen j id now, same) refl;
      recent = w;
      lifetime = rw c h.lifetime;
    }
    | inr distinct ↦ record {
      time = h.time;
      found = rw (s, get-put e.seen j id now, distinct) h.found;
      recent = h.recent;
      lifetime = rw c h.lifetime;
    }
  ]

  pub round-Remembers :
      (e : Engine) (now : ℕ)
      → now ≤ since + ttl
      → Remembers id since ttl e
      → Remembers id since ttl (ihave_round e now)
  round-Remembers e now w h = record {
    time = h.time;
    found =
        rw (round_seen e now, h.lifetime)
          (prune_old-keeps now ttl e.seen id h.time h.found (omega (arith, w, h.recent)));
    recent = h.recent;
    lifetime = rw (round_config e now) h.lifetime;
  }

  Duplicate-Remembers :
      (e : Engine) (now : ℕ) (sender : Text)
      → Remembers id since ttl e
      → Remembers id since ttl (prune_duplicate e now sender)
  Duplicate-Remembers e now sender h = record {
    time = h.time;
    found = rw (duplicate_seen e now sender) h.found;
    recent = h.recent;
    lifetime = rw (duplicate_config e now sender) h.lifetime;
  }

  accept_novel-Remembers :
      (e : Engine) (now : ℕ) (sender : Text) (msg : GossipData)
      → since ≤ now
      → Remembers id since ttl e
      → Remembers id since ttl (accept_novel e now sender msg)
  accept_novel-Remembers e now sender msg w h =
      let a = accept_novel-outcome e now sender msg in
      remember e _ now msg.message_id w a.memory a.config_same h

  module _ (is_xdr : Text → Bool) (pick : ℕ → ℕ) (now : ℕ) (w : since ≤ now) where
    handle_gossip_data-Remembers :
        (e : Engine) (sender : Text) (msg : GossipData)
        → Remembers id since ttl e
        → Remembers id since ttl (handle_gossip_data is_xdr e now sender msg)
    unfolding handle_gossip_data
    handle_gossip_data-Remembers e sender msg h =
        let start : (e' : Engine)
            → e'.seen ≡ e.seen
            → e'.config ≡ e.config
            → Remembers id since ttl e' =
          λ e' s c. record {
            time = h.time;
            found = rw s h.found;
            recent = h.recent;
            lifetime = rw c h.lifetime;
          } in
        branch (Remembers id since ttl) (validate_soroban_event is_xdr now msg.event).is_valid _ _
          (λ _.
            branch (Remembers id since ttl) (has (keys e.seen) msg.message_id) _ _
              (λ _. Duplicate-Remembers _ now sender (start _ refl refl))
              (λ _. accept_novel-Remembers _ now sender msg w (start _ refl refl)))
          (λ _. start _ refl refl)

    pub dispatch-Remembers :
        (e : Engine) (sender : Text) (message : MeshProtocolMessage)
        → Remembers id since ttl e
        → Remembers id since ttl (dispatch is_xdr e now sender message)
    unfolding dispatch
    dispatch-Remembers e sender (gossip_data msg) h = handle_gossip_data-Remembers e sender msg h
    dispatch-Remembers e sender (ihave ids _ _) h =
        Keeps-Remembers (handle_ihave-Keeps e now sender ids) h
    dispatch-Remembers e sender (graft _ _ _) h =
        Keeps-Remembers (handle_graft-Keeps e now sender) h
    dispatch-Remembers e sender (prune _ _) h = Keeps-Remembers (handle_prune-Keeps e now sender) h
    dispatch-Remembers e sender other h = h
