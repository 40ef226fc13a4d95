-- ===== src/Indexer/HorizonSse.antt =====
-- backend/src/indexer/listener.ts: `HorizonSSEIndexer`. An awaited promise splits a method in two
-- steps: `connect` waits for the cursor, `handleMessage` for its handler and the save.
pub mod Backoff
pub mod Lifecycle
use pactum.Prelude.{
  ℕ, ◌+◌, ◌-◌, ◌*◌, ◌^◌, List, [], ◌∷◌, ◌++◌, Bool, true, false, ◌&&◌, not, if◌then◌else◌, ltb, leb,
  Option, none, some, Text,
}
use pactum.Prelude.Js.{JsSet, has, add, remove, text_key}
use pactum.Prelude.Results.{Result, ok, err}

-- `max_reconnect_attempts` is `none` for `Infinity`.
pub record SseOptions : Type 0 where
  pub initial_reconnect_delay_ms : ℕ
  pub max_reconnect_delay_ms : ℕ
  pub max_reconnect_attempts : Option ℕ

-- `stream` is the cursor of the stream that `stopStream` closes, `timer` the delay of the timer that
-- `reconnectTimer` holds; `lost_streams` and `lost_timers` count the open streams and the running
-- timers that were overwritten there, which nothing closes any more. `connecting` counts the calls of
-- `connect` that wait for the cursor, `in_progress` holds the tokens whose handlers run, `cursor` is
-- what the cursor cache holds, and `fatal` the errors reported.
pub record SseIndexer : Type 0 where
  pub options : SseOptions
  pub stream : Option (Option Text)
  pub timer : Option ℕ
  pub lost_streams : ℕ
  pub lost_timers : ℕ
  pub reconnect_attempts : ℕ
  pub stopped : Bool
  pub connecting : ℕ
  pub in_progress : JsSet Text
  pub cursor : Option Text
  pub fatal : List ℕ

pub data SseOptionError : Type 0 where
  bad_initial_delay bad_max_delay : SseOptionError

unfoldable pub or_default : Option ℕ → ℕ → ℕ
or_default none d = d
or_default (some n) d = n

unfoldable pub new_sse_indexer :
    Option ℕ → Option ℕ → Option ℕ → Option Text → Result SseOptionError SseIndexer
new_sse_indexer initial maximum attempts cursor =
    let i = or_default initial 1000 in
    let m = or_default maximum 30000 in
    if leb i 0
    then err bad_initial_delay
    else if ltb m i
    then err bad_max_delay
    else ok (record {
      options = record {
        initial_reconnect_delay_ms = i;
        max_reconnect_delay_ms = m;
        max_reconnect_attempts = attempts;
      };
      stream = none;
      timer = none;
      lost_streams = 0;
      lost_timers = 0;
      reconnect_attempts = 0;
      stopped = false;
      connecting = 0;
      in_progress = [];
      cursor = cursor;
      fatal = [];
    })

-- `value !== null`
unfoldable pub is_set : {A : Type 0} → Option A → Bool
is_set none = false
is_set (some _) = true

unfoldable pub add_if : Bool → ℕ → ℕ
add_if true n = n + 1
add_if false n = n

-- `connect` up to the read of the cursor.
unfoldable pub connect : SseIndexer → SseIndexer
connect s = if s.stopped then s else record s { connecting = s.connecting + 1 }

-- The rest of `connect`; `readable` says whether the cursor could be read.
unfoldable pub open_stream : SseIndexer → Bool → SseIndexer
open_stream s readable = if leb s.connecting 0 then s else record s {
  connecting = s.connecting - 1;
  stream = some (if readable then s.cursor else none);
  lost_streams = add_if (is_set s.stream) s.lost_streams;
}

unfoldable pub start : SseIndexer → SseIndexer
start s = if not s.stopped && is_set s.stream then s else connect (record s { stopped = false })

unfoldable pub stop : SseIndexer → SseIndexer
stop s = record s { stopped = true; timer = none; stream = none }

-- `handleMessage` up to the handler.
unfoldable pub message_arrives : SseIndexer → Text → SseIndexer
message_arrives s token =
    if s.stopped then s else record s { in_progress = add s.in_progress token }

-- The rest of `handleMessage`; `succeeds` says whether the handler and the save did.
unfoldable pub message_settles : SseIndexer → Text → Bool → SseIndexer
message_settles s token succeeds =
    if not (has s.in_progress token)
    then s
    else (let s1 = record s { in_progress = remove s.in_progress token } in
        if succeeds then record s1 { cursor = some token; reconnect_attempts = 0 } else s1)

unfoldable pub minimum : ℕ → ℕ → ℕ
minimum a b = if leb a b then a else b

unfoldable pub delay_after : SseOptions → ℕ → ℕ
delay_after o attempts =
    minimum (o.initial_reconnect_delay_ms * 2 ^ attempts) o.max_reconnect_delay_ms

-- `reconnectAttempts >= maxReconnectAttempts`
unfoldable pub is_exhausted : SseOptions → ℕ → Bool
is_exhausted o attempts = elim o.max_reconnect_attempts [ none ↦ false | some m ↦ leb m attempts ]

-- Any open stream may report an error, one that was overwritten too.
unfoldable pub handle_stream_error : SseIndexer → SseIndexer
handle_stream_error s =
    if s.stopped
    then s
    else (let s1 = record s { stream = none } in
        if is_exhausted s.options s.reconnect_attempts
        then record s1 { fatal = s.fatal ++ s.reconnect_attempts ∷ [] }
        else record s1 {
          timer = some (delay_after s.options s.reconnect_attempts);
          lost_timers = add_if (is_set s.timer) s.lost_timers;
          reconnect_attempts = s.reconnect_attempts + 1;
        })

unfoldable pub timer_fires : SseIndexer → SseIndexer
timer_fires s = if is_set s.timer then connect (record s { timer = none }) else s

-- A timer that was overwritten fires: it sets `reconnectTimer` to null all the same.
unfoldable pub lost_timer_fires : SseIndexer → SseIndexer
lost_timer_fires s =
    if leb s.lost_timers 0
    then s
    else connect
        (record s { timer = none; lost_timers = add_if (is_set s.timer) (s.lost_timers - 1) })

pub data SseCall : Type 0 where
  starts stops stream_fails timer_ends lost_timer_ends : SseCall
  cursor_arrives : Bool → SseCall
  arrives : Text → SseCall
  settles : Text → Bool → SseCall

unfoldable pub sse_step : SseIndexer → SseCall → SseIndexer
sse_step s starts = start s
sse_step s stops = stop s
sse_step s stream_fails = handle_stream_error s
sse_step s timer_ends = timer_fires s
sse_step s lost_timer_ends = lost_timer_fires s
sse_step s (cursor_arrives readable) = open_stream s readable
sse_step s (arrives token) = message_arrives s token
sse_step s (settles token succeeds) = message_settles s token succeeds

unfoldable pub sse_run : SseIndexer → List SseCall → SseIndexer
sse_run s [] = s
sse_run s (call ∷ calls) = sse_run (sse_step s call) calls
