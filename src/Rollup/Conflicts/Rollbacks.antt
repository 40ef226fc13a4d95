-- ===== src/Rollup/Conflicts/Rollbacks.antt =====
-- What a failing mutation of a cached query leaves behind, alone and with another one on its query.
use pactum.Prelude.{
  ℕ, ◌≡◌, ◌≢◌, refl, true, Option, none, some, Text, text_eq_refl, text_eq→eq, arith,
}
use pactum.Prelude.Js.{
  JsMap, get, put, delete, keys, Distinct, text_key, get-put, get-delete, put-Distinct,
}
use pactum.Rollup.Conflicts.{
  QueryClient, InflightMutation, ConflictEngine, begin_mutation, settle_mutation, undo,
}

abbrev pub or_else : {D : Type 0} → Option D → D → D
or_else none o = o
or_else (some d) o = d

module _ {K D : Type 0} (Q : QueryClient K D) where
  open Q use {read, write, read-write_same, write_undefined}

  settle-found :
      (id : Text) (m : InflightMutation K D) (e : ConflictEngine Q)
      → get e.inflight id ≡ some m
      → settle_mutation Q id true e ≡ record e {
        inflight = delete e.inflight id;
        cache = write e.cache m.query_key m.previous_data;
      }
  unfolding settle_mutation undo
  settle-found id m e h = rw (settle_mutation, h) refl

  get-put_same : {V : Type 0} (m : JsMap Text V) (k : Text) (v : V) → get (put m k v) k ≡ some v
  get-put_same m k v = rw (get-put m k k v, text_eq_refl k) refl

  rolled_back :
      (s : Q.Cache) (key : K) (o : D) (previous : Option D)
      → read (write (write s key (some o)) key previous) key ≡ some (or_else previous o)
  rolled_back s key o none =
      rw (write_undefined (write s key (some o)) key) (read-write_same s key key o refl)
  rolled_back s key o (some d) = read-write_same (write s key (some o)) key key d refl

  -- Both of two entries are found, the second also when the first is deleted.
  get-both :
      {V : Type 0} (m : JsMap Text V) (first second : Text) (v w : V)
      → first ≢ second
      → Distinct (keys m)
      → (get (put (put m first v) second w) first ≡ some v)
        × (get (delete (put (put m first v) second w) first) second ≡ some w)
  get-both m first second v w other d =
      let both = put (put m first v) second w in
      let distinct : Distinct (keys both) =
        put-Distinct (put m first v) second w (put-Distinct m first v d) in
      (
        ground (
          arith,
          get-put (put m first v) second first w,
          get-put_same m first v,
          text_eq→eq second first,
          other,
        ),
        ground (
          arith,
          get-delete both first second distinct,
          get-put_same (put m first v) second w,
          text_eq→eq first second,
          other,
        ),
      )

  -- A mutation that settles with an error right after it began, with nothing in between, gives its
  -- query back the data from before, if there was any; where there was none, the optimistic value
  -- stays.
  pub settle_mutation-begin_mutation :
      (id : Text) (key : K) (actor : Text) (base : ℕ) (o : D) (e : ConflictEngine Q)
      → read (settle_mutation Q id true (begin_mutation Q id key base actor (some o) e)).cache key
        ≡ some (or_else (read e.cache key) o)
  unfolding begin_mutation
  settle_mutation-begin_mutation id key actor base o e =
      rw
        (settle-found id _ (begin_mutation Q id key base actor (some o) e)
          (get-put_same e.inflight id _))
        (rolled_back e.cache key o (read e.cache key))

  -- When two mutations are pending on a query and both fail, the first one first, the query holds in
  -- the end the optimistic value of the first, and not its data from before.
  pub settle_mutation-restores_failed :
      (first second : Text) (key : K) (actor : Text) (base : ℕ) (o p : D) (e : ConflictEngine Q)
      → first ≢ second
      → Distinct (keys e.inflight)
      → read
          (settle_mutation Q second true (
            settle_mutation Q first true (
              begin_mutation Q second key base actor
                (some p)
                (begin_mutation Q first key base actor (some o) e)))).cache
          key
        ≡ some o
  unfolding begin_mutation
  settle_mutation-restores_failed first second key actor base o p e other d =
      let one = begin_mutation Q first key base actor (some o) e in
      let two = begin_mutation Q second key base actor (some p) one in
      let found = get-both e.inflight first second _ _ other d in
      let start : read (write e.cache key (some o)) key ≡ some o =
        read-write_same e.cache key key o refl in
      let undone : ConflictEngine Q = record two {
        inflight = delete two.inflight first;
        cache = write two.cache key (read e.cache key);
      } in
      rw (settle-found first _ two found.0)
        (rw (settle-found second _ undone found.1) (rw start (read-write_same _ key key o refl)))
