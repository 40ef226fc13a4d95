-- ===== src/Rollup/Conflicts.antt =====
-- frontend/src/lib/optimisticEngine.ts: in-flight mutations of cached queries against the events of the
-- chain. The code compares query keys by the text of their JSON, the cache by a hash that
-- does not see the order of the properties of an object; both are the platform's.
pub mod Events
pub mod Rollbacks
use pactum.Prelude.{
  ℕ, ◌+◌, ◌≡◌, ◌≢◌, Bool, true, false, ◌&&◌, List, [], ◌∷◌, Option, none, some, if◌then◌else◌, ltb,
  ◌==◌, Text, text_eq, codes,
}
use pactum.Prelude.Js.{JsMap, get, put, delete, values, text_key}

-- `JSON.stringify` of a key, and the `QueryClient` of react-query: its hash of a key, of which it
-- documents that it depends on the key's JSON up to the order of properties, `getQueryData` and
-- `setQueryData`, which go by the hash. Setting `undefined` changes nothing.
pub record QueryClient (K D : Type 0) : Type 1 where
  pub json : K → Text
  pub hash : K → Text
  pub hash_of_json : (k j : K) → json k ≡ json j → hash k ≡ hash j
  pub Cache : Type 0
  pub read : Cache → K → Option D
  pub write : Cache → K → Option D → Cache
  pub read-write_same :
      (c : Cache) (k j : K) (d : D) → hash k ≡ hash j → read (write c k (some d)) j ≡ some d
  pub read-write_other :
      (c : Cache) (k j : K) (v : Option D) → hash k ≢ hash j → read (write c k v) j ≡ read c j
  pub write_undefined : (c : Cache) (k : K) → write c k none ≡ c

pub record ChainEvent (K D : Type 0) : Type 0 where
  pub query_key : K
  pub version : ℕ
  pub actor_id : Text
  pub payload : D

pub record ConflictInfo (K : Type 0) : Type 0 where
  pub query_key : K
  pub message : Text
  pub detected_at : ℕ

pub record InflightMutation (K D : Type 0) : Type 0 where
  pub mutation_id : Text
  pub query_key : K
  pub base_version : ℕ
  pub actor_id : Text
  pub previous_data : Option D

abbrev pub conflict_message : Text
conflict_message =
    codes "Another update landed on-chain while your change was pending. This view was refreshed."

module _ {K D : Type 0} (Q : QueryClient K D) where
  open Q use {Cache, read, write, json}

  pub record ConflictEngine : Type 0 where
    pub inflight : JsMap Text (InflightMutation K D)
    pub conflicts : JsMap Text (ConflictInfo K)
    pub cache : Cache

  unfoldable pub begin_mutation : Text → K → ℕ → Text → Option D → ConflictEngine → ConflictEngine
  begin_mutation mutation_id key base_version actor_id optimistic e =
      let mutation : InflightMutation K D = record {
        mutation_id = mutation_id;
        query_key = key;
        base_version = base_version;
        actor_id = actor_id;
        previous_data = read e.cache key;
      } in
      record e {
        inflight = put e.inflight mutation_id mutation;
        cache = write e.cache key optimistic;
      }

  -- The end of `settleMutation`; `failed` is the outcome 'error'.
  unfoldable pub undo : Bool → InflightMutation K D → ConflictEngine → ConflictEngine
  undo failed mutation e =
      if failed
      then record e { cache = write e.cache mutation.query_key mutation.previous_data }
      else e

  unfoldable pub settle_mutation : Text → Bool → ConflictEngine → ConflictEngine
  settle_mutation mutation_id failed e = elim (get e.inflight mutation_id) [
    | none ↦ e
    | some mutation ↦ undo failed mutation (record e { inflight = delete e.inflight mutation_id })
  ]

  -- `[...inflight.values()].filter(…)`
  unfoldable pub on_key : Text → List (InflightMutation K D) → List (InflightMutation K D)
  on_key key [] = []
  on_key key (m ∷ ms) =
      let rest = on_key key ms in if text_eq (json m.query_key) key then m ∷ rest else rest

  unfoldable pub is_own_confirmation : ChainEvent K D → InflightMutation K D → Bool
  is_own_confirmation event m =
      text_eq m.actor_id event.actor_id && event.version == m.base_version + 1

  unfoldable pub refresh : ChainEvent K D → InflightMutation K D → ConflictEngine → ConflictEngine
  refresh event m e = record e {
    inflight = delete e.inflight m.mutation_id;
    cache = write e.cache event.query_key (some event.payload);
  }

  unfoldable pub flag : ChainEvent K D → ℕ → ConflictEngine → ConflictEngine
  flag event now e = record e {
    conflicts =
        put e.conflicts (json event.query_key)
          (record { query_key = event.query_key; message = conflict_message; detected_at = now });
  }

  -- The body of the loop of `handleChainEvent`, and the loop.
  unfoldable pub meet_mutation :
      ChainEvent K D → ℕ → InflightMutation K D → ConflictEngine → ConflictEngine
  meet_mutation event now m e =
      if is_own_confirmation event m
      then refresh event m e
      else if ltb m.base_version event.version
      then flag event now (refresh event m e)
      else e

  unfoldable pub meet_mutations :
      ChainEvent K D → ℕ → List (InflightMutation K D) → ConflictEngine → ConflictEngine
  meet_mutations event now [] e = e
  meet_mutations event now (m ∷ ms) e = meet_mutations event now ms (meet_mutation event now m e)

  unfoldable pub handle_matching :
      ChainEvent K D → ℕ → List (InflightMutation K D) → ConflictEngine → ConflictEngine
  handle_matching event now [] e = record e {
    cache = write e.cache event.query_key (some event.payload);
  }
  handle_matching event now (m ∷ ms) e = meet_mutations event now (m ∷ ms) e

  unfoldable pub handle_chain_event : ChainEvent K D → ℕ → ConflictEngine → ConflictEngine
  handle_chain_event event now e =
      handle_matching event now (on_key (json event.query_key) (values e.inflight)) e

  unfoldable pub get_conflict : K → ConflictEngine → Option (ConflictInfo K)
  get_conflict key e = get e.conflicts (json key)

  unfoldable pub clear_conflict : K → ConflictEngine → ConflictEngine
  clear_conflict key e = record e { conflicts = delete e.conflicts (json key) }
