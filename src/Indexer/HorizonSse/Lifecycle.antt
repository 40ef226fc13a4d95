-- ===== src/Indexer/HorizonSse/Lifecycle.antt =====
-- What a stopped indexer does, and what the cursor says of messages whose handlers overlap.
use pactum.Prelude.{
  ◌+◌, ◌-◌, ◌≤◌, ◌≡◌, ◌∙◌, refl, inl, inr, List, [], ◌∷◌, Bool, true, false, Bool-cases, leb, none,
  some, Text, text_eq, arith,
}
use pactum.Prelude.Js.{has, add, remove, has-add, text_key, same_refl}
use pactum.Indexer.HorizonSse.{
  SseIndexer, is_exhausted, is_set, connect, open_stream, stop, message_arrives, message_settles,
  handle_stream_error, timer_fires, lost_timer_fires, add_if, start, SseCall, starts, stops,
  stream_fails, timer_ends, lost_timer_ends, cursor_arrives, arrives, settles, sse_step, sse_run,
}

-- Stopped, with no stream, no timer and no `connect` that waits for its cursor, lost ones included.
pub record IsQuiet (s : SseIndexer) : Type 0 where
  pub is_stopped : s.stopped ≡ true
  pub no_stream : s.stream ≡ none
  pub no_timer : s.timer ≡ none
  pub no_connect : s.connecting ≡ 0
  pub no_lost_stream : s.lost_streams ≡ 0
  pub no_lost_timer : s.lost_timers ≡ 0

-- No call is a start.
abbrev pub IsNoStart : SseCall → Type 0
IsNoStart starts = ⊥
IsNoStart _ = Unit {0}

abbrev pub AreNoStarts : List SseCall → Type 0
AreNoStarts [] = Unit {0}
AreNoStarts (call ∷ calls) = IsNoStart call × AreNoStarts calls

sse_step-IsQuiet :
    (s : SseIndexer) (call : SseCall) → IsNoStart call → IsQuiet s → IsQuiet (sse_step s call)
unfolding sse_step stop connect open_stream message_arrives message_settles handle_stream_error
    timer_fires lost_timer_fires is_set add_if
sse_step-IsQuiet s starts n h = elim n [ ]
sse_step-IsQuiet s stops n h = ground (arith, h)
sse_step-IsQuiet s stream_fails n h = ground (arith, h)
sse_step-IsQuiet s timer_ends n h = ground (arith, h)
sse_step-IsQuiet s lost_timer_ends n h = ground (arith, h)
sse_step-IsQuiet s (cursor_arrives readable) n h = ground (arith, h)
sse_step-IsQuiet s (arrives token) n h = ground (arith, h)
sse_step-IsQuiet s (settles token succeeds) n h = ground (arith, h)

sse_run-IsQuiet :
    (s : SseIndexer) (calls : List SseCall)
    → AreNoStarts calls
    → IsQuiet s
    → IsQuiet (sse_run s calls)
unfolding sse_run
sse_run-IsQuiet s [] n h = h
sse_run-IsQuiet s (call ∷ calls) n h =
    sse_run-IsQuiet (sse_step s call) calls n.1 (sse_step-IsQuiet s call n.0 h)

-- A stop of an indexer that has lost no stream and no timer, while no connect waits for its cursor,
-- leaves no stream and no timer, whatever calls but a start follow.
pub stop-IsQuiet :
    (s : SseIndexer) (calls : List SseCall)
    → s.connecting ≡ 0
    → s.lost_streams ≡ 0
    → s.lost_timers ≡ 0
    → AreNoStarts calls
    → IsQuiet (sse_run (stop s) calls)
unfolding stop
stop-IsQuiet s calls idle streams timers n = sse_run-IsQuiet (stop s) calls n (record {
  is_stopped = refl;
  no_stream = refl;
  no_timer = refl;
  no_connect = idle;
  no_lost_stream = streams;
  no_lost_timer = timers;
})

-- Two starts before the first cursor arrives open two streams, of which a stop closes one; two errors
-- before the first timer fires leave two timers, if the attempts allow them, of which a stop clears
-- one.
pub stop-leaks :
    (s : SseIndexer) (first second : Bool)
    → s.stopped ≡ false
    → s.stream ≡ none
    → s.options.max_reconnect_attempts ≡ none
    → let twice = open_stream (open_stream (start (start s)) first) second in
      ((stop twice).lost_streams ≡ s.lost_streams + 1)
      × ((stop (handle_stream_error (handle_stream_error s))).lost_timers
          ≡ add_if (is_set s.timer) s.lost_timers + 1)
unfolding stop start connect open_stream handle_stream_error is_exhausted is_set add_if
stop-leaks s first second running idle endless =
    let one : leb (s.connecting + 1 + 1) 0 ≡ false = ground arith in
    let two : leb (s.connecting + 1 + 1 - 1) 0 ≡ false = ground arith in
    (rw (running, idle, one, two) refl, rw (running, endless) refl)

-- While a connect waits for its cursor, a stop does not cancel it: when the cursor arrives, a stream
-- is open although the indexer is stopped, and an error of that stream does not close it.
pub open_stream_after_stop :
    (s : SseIndexer) (readable : Bool)
    → 1 ≤ s.connecting
    → let leaked = open_stream (stop s) readable in
      (leaked.stopped ≡ true)
      × (is_set leaked.stream ≡ true)
      × (handle_stream_error leaked ≡ leaked)
unfolding stop open_stream handle_stream_error is_set
open_stream_after_stop s readable waiting =
    let q : leb s.connecting 0 ≡ false = ground arith in rw q (refl, refl, refl)

has-remove_other :
    (xs : List Text) (a b : Text)
    → text_eq a b ≡ false
    → has xs b ≡ true
    → has (remove xs a) b ≡ true
unfolding has remove
has-remove_other [] a b d h = h
has-remove_other (x ∷ xs) a b d h = ground (
  arith,
  has-remove_other xs a b d,
  text_key.same_iff x a,
  text_key.same_iff x b,
  text_key.same_iff a b,
)

settle_success :
    (s : SseIndexer) (t : Text)
    → has s.in_progress t ≡ true
    → (message_settles s t true).cursor ≡ some t
unfolding message_settles
settle_success s t h = rw h refl

settle_failure :
    (s : SseIndexer) (t u : Text)
    → text_eq t u ≡ false
    → has s.in_progress u ≡ true
    → ((message_settles s t false).cursor ≡ s.cursor)
      × (has (message_settles s t false).in_progress u ≡ true)
unfolding message_settles
settle_failure s t u d h = elim (Bool-cases (has s.in_progress t)) [
  | inl known ↦ rw known (refl, has-remove_other s.in_progress t u d h)
  | inr unknown ↦ rw unknown (refl, h)
]

settle_failure_cursor : (s : SseIndexer) (t : Text) → (message_settles s t false).cursor ≡ s.cursor
unfolding message_settles
settle_failure_cursor s t = ground arith

-- The token of the last message to arrive is in progress.
arrives_last :
    (s : SseIndexer) (first second : Text)
    → s.stopped ≡ false
    → has (message_arrives (message_arrives s first) second).in_progress second ≡ true
unfolding message_arrives
arrives_last s first second running =
    rw running (rw (has-add (add s.in_progress first) second second, same_refl second) refl)

-- Two messages arrive in order at an indexer that runs: if the handler of the first fails and that of
-- the second succeeds, in either order, the cursor stands after both, so the first is not sent again.
pub overtaken_message :
    (s : SseIndexer) (first second : Text)
    → s.stopped ≡ false
    → text_eq first second ≡ false
    → let both = message_arrives (message_arrives s first) second in
      ((message_settles (message_settles both first false) second true).cursor ≡ some second)
      × ((message_settles (message_settles both second true) first false).cursor ≡ some second)
overtaken_message s first second running apart =
    let both = message_arrives (message_arrives s first) second in
    let last = arrives_last s first second running in
    (
      settle_success _ second (settle_failure both first second apart last).1,
      settle_failure_cursor _ first ∙ settle_success both second last,
    )
