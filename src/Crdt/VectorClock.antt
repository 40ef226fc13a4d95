-- ===== src/Crdt/VectorClock.antt =====
-- frontend/src/lib/crdt/secureVectorClock.ts: the causal order on clocks. A counter is a natural
-- number, and a peer without an entry counts 0.
pub mod Order
pub mod Merge
use pactum.Prelude.{
  ℕ, List, [], ◌∷◌, ◌++◌, Bool, true, false, ◌&&◌, ◌||◌, if◌then◌else◌, ltb, leb, Option, none,
  some, Text,
}
use pactum.Prelude.Js.{JsMap, JsSet, add, get, put, keys, text_key}

abbrev pub Clock : Type 0
Clock = JsMap Text ℕ

unfoldable pub value_or_0 : Option ℕ → ℕ
value_or_0 none = 0
value_or_0 (some n) = n

-- `clock[key] ?? 0`
unfoldable pub counter : Clock → Text → ℕ
counter c key = value_or_0 (get c key)

-- `new Set(elements)`, on top of what the set has.
unfoldable pub add_all : JsSet Text → List Text → JsSet Text
add_all s [] = s
add_all s (k ∷ ks) = add_all (add s k) ks

unfoldable pub all_keys : Clock → Clock → JsSet Text
all_keys a b = add_all [] (keys a ++ keys b)

unfoldable pub max : ℕ → ℕ → ℕ
max m n = if leb m n then n else m

unfoldable pub merge_loop : Clock → Clock → Clock × Bool → List Text → Clock × Bool
merge_loop a b (merged, advanced) [] = (merged, advanced)
merge_loop a b (merged, advanced) (key ∷ ks) =
    let va = counter a key in
    let vb = counter b key in
    let vm = max va vb in
    merge_loop a b (put merged key vm, if ltb va vm || ltb vb vm then true else advanced) ks

-- The merged clock, and whether an entry advanced.
unfoldable pub merge_vector_clocks : Clock → Clock → Clock × Bool
merge_vector_clocks a b = merge_loop a b ([], false) (all_keys a b)

unfoldable pub happens_before_loop : Clock → Clock → Bool → List Text → Bool
happens_before_loop a b has_strictly_less [] = has_strictly_less
happens_before_loop a b has_strictly_less (key ∷ ks) =
    let va = counter a key in
    let vb = counter b key in
    if ltb vb va
    then false
    else happens_before_loop a b (if ltb va vb then true else has_strictly_less) ks

unfoldable pub happens_before : Clock → Clock → Bool
happens_before a b = happens_before_loop a b false (all_keys a b)

unfoldable pub are_concurrent_loop : Clock → Clock → Bool → Bool → List Text → Bool
are_concurrent_loop a b less greater [] = less && greater
are_concurrent_loop a b less greater (key ∷ ks) =
    let va = counter a key in
    let vb = counter b key in
    are_concurrent_loop a b (if ltb va vb then true else less) (if ltb vb va then true else greater)
      ks

unfoldable pub are_concurrent : Clock → Clock → Bool
are_concurrent a b = are_concurrent_loop a b false false (all_keys a b)
