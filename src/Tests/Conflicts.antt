-- ===== src/Tests/Conflicts.antt =====
-- Runs of the conflict engine on a cache that is a map: two pending mutations of one query.
use pactum.Prelude.{
  ℕ, ◌≡◌, ◌≢◌, refl, subst, [], ◌∷◌, Option, none, some, if◌then◌else◌, true, false, Text, text_eq,
  text_eq_refl, text_eq→eq, codes, arith,
}
use pactum.Prelude.Js.{JsMap, get, put, keys, has, Distinct, text_key, get-put, values}
use pactum.Rollup.Conflicts.{
  QueryClient, ChainEvent, InflightMutation, ConflictEngine, begin_mutation, settle_mutation,
  handle_chain_event,
}
use pactum.Rollup.Conflicts.Events.{
  handle_chain_event-decides, handle_chain_event-isolates, lands, overtakes, conflict,
}
use pactum.Rollup.Conflicts.Rollbacks.{
  settle_mutation-begin_mutation, settle_mutation-restores_failed, or_else,
}

abbrev write : JsMap Text ℕ → Text → Option ℕ → JsMap Text ℕ
write cache key none = cache
write cache key (some n) = put cache key n

write_same : (c : JsMap Text ℕ) (k j : Text) (d : ℕ) → k ≡ j → get (write c k (some d)) j ≡ some d
write_same c k j d same =
    subst (λ x. get (write c k (some d)) x ≡ some d) same
      (rw (get-put c k k d, text_eq_refl k) refl)

write_other : (c : JsMap Text ℕ) (k j : Text) (v : Option ℕ) → k ≢ j → get (write c k v) j ≡ get c j
write_other c k j none other = refl
write_other c k j (some d) other = ground (arith, get-put c k j d, text_eq→eq k j, other)

unequal : (x y : Text) → text_eq x y ≡ false → x ≢ y
unequal x y h e = let same : text_eq x x ≡ true = text_eq_refl x in cc

-- A key is its text.
abbrev client : QueryClient Text ℕ
client = record {
  json = λ k. k;
  hash = λ k. k;
  hash_of_json = λ k j same. same;
  Cache = JsMap Text ℕ;
  read = λ c k. get c k;
  write = write;
  read-write_same = write_same;
  read-write_other = write_other;
  write_undefined = λ c k. refl;
}

abbrev score : Text
score = codes "score"

abbrev list : Text
list = codes "list"

abbrev pending : InflightMutation Text ℕ
pending = record {
  mutation_id = codes "m";
  query_key = score;
  base_version = 4;
  actor_id = codes "G";
  previous_data = some 10;
}

abbrev engine : ConflictEngine client
engine = record {
  inflight = (codes "m", pending) ∷ [];
  conflicts = [];
  cache = (score, 11) ∷ (list, 7) ∷ [];
}

abbrev event : ChainEvent Text ℕ
event = record { query_key = score; version = 6; actor_id = codes "H"; payload = 12 }

handle_chain_event-decides_example :
    (let waiting = values engine.inflight in
      let after = handle_chain_event client event 99 engine in
      (get after.cache score
        ≡ (if lands client event 99 waiting then some 12 else get engine.cache score))
      × (get after.conflicts score ≡ (
          if overtakes client event 99 waiting
          then some (conflict client event 99)
          else get engine.conflicts score)))
handle_chain_event-decides_example = handle_chain_event-decides client event 99 engine

score_not_list : score ≢ list
unfolding text_eq
score_not_list = unequal score list refl

handle_chain_event-isolates_example :
    (let after = handle_chain_event client event 99 engine in
      (get after.cache list ≡ get engine.cache list)
      × (get after.conflicts list ≡ get engine.conflicts list))
handle_chain_event-isolates_example =
    handle_chain_event-isolates client event 99 list score_not_list engine

settle_mutation-begin_mutation_example :
    get
      (settle_mutation client
        (codes "n")
        true
        (begin_mutation client (codes "n") list 4 (codes "G") (some 8) engine)).cache
      list
    ≡ some (or_else (get engine.cache list) 8)
settle_mutation-begin_mutation_example =
    settle_mutation-begin_mutation client (codes "n") list (codes "G") 4 8 engine

ids_differ : codes "n" ≢ codes "p"
unfolding text_eq
ids_differ = unequal (codes "n") (codes "p") refl

engine-Distinct : Distinct (keys engine.inflight)
unfolding has
engine-Distinct = (refl, tt)

settle_mutation-restores_failed_example :
    get
      (settle_mutation client (codes "p") true (
        settle_mutation client (codes "n") true (
          begin_mutation client
            (codes "p")
            list
            4
            (codes "G")
            (some 9)
            (begin_mutation client (codes "n") list 4 (codes "G") (some 8) engine)))).cache
      list
    ≡ some 8
settle_mutation-restores_failed_example =
    settle_mutation-restores_failed client (codes "n") (codes "p") list (codes "G") 4 8 9 engine
      ids_differ engine-Distinct
