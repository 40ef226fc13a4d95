-- ===== src/Tests/Batches.antt =====
-- Runs of the proof queue and of the stream indexer.
use pactum.Prelude.{
  ℕ, ◌≡◌, refl, List, [], ◌∷◌, true, false, ◌==◌, none, some, Text, text_eq, arith,
}
use pactum.Relayer.DurableQueue.{
  DurableProofQueue, is_empty_text, enqueue, persist, kept_time, size, set_item, rename_temp,
  write_temp, snapshot,
}
use pactum.Prelude.Js.{get, put, text_key}
use pactum.Relayer.DurableQueue.Restart.{IsDurable, empty-IsKeyed, enqueue-IsDurable}
use pactum.Relayer.ProofBatch.{
  ProofBatchEngine, BatchCall, enqueues, flushes, flushes_if_due, flush_resumes, batch_succeeds,
  batch_fails, start_flush, fail_flush,
}
use pactum.Relayer.ProofBatch.Stored.{IsStored}
use pactum.Relayer.ProofBatch.Flush.{enqueued, fail_flush-restores}
use pactum.Indexer.HorizonSse.{
  SseIndexer, SseCall, starts, stream_fails, timer_ends, cursor_arrives, arrives, settles, sse_run,
  stop, open_stream, handle_stream_error, is_set, message_arrives, message_settles,
}
use pactum.Indexer.HorizonSse.Lifecycle.{
  IsQuiet, stop-IsQuiet, open_stream_after_stop, overtaken_message,
}

abbrev ann : Text
ann = b'a' ∷ []

abbrev ben : Text
ben = b'b' ∷ []

abbrev empty : DurableProofQueue ℕ
empty = record { items = []; persistent = true; file = none; temp = none }

ann_has_address : is_empty_text ann ≡ false
unfolding is_empty_text
ann_has_address = refl

abbrev one_item : ProofBatchEngine ℕ
one_item = record {
  queue = enqueue empty ann 7 1000;
  max_batch_size = 2;
  batch_ttl_ms = 10000;
  flushing = false;
  waiting = 0;
  in_flight = [];
  restored = true;
  ready = [];
}

one_item-IsStored : IsStored one_item
one_item-IsStored = record {
  restored = refl;
  durable = enqueue-IsDurable empty ann 7 1000 ann_has_address empty-IsKeyed;
  flight = tt;
}

abbrev batch_calls : List (ℕ × BatchCall ℕ)
batch_calls =
    (2000, enqueues ann 8)
    ∷ (3000, flushes)
    ∷ (3000, flush_resumes)
    ∷ (3500, enqueues ben 9)
    ∷ (4000, batch_fails 0)
    ∷ (20000, flushes_if_due)
    ∷ (20000, flush_resumes)
    ∷ (21000, batch_succeeds 0)
    ∷ []

one_item_queued : (size one_item.queue == 0) ≡ false
unfolding size enqueue persist set_item rename_temp write_temp snapshot put get kept_time
one_item_queued = refl

fail_flush-restores_example :
    let failed = fail_flush (enqueued (start_flush one_item) ((2000, ben, 9) ∷ [])) 0 in
    (failed.queue.items ≡ one_item.queue.items) × IsDurable failed.queue
fail_flush-restores_example =
    fail_flush-restores one_item ((2000, ben, 9) ∷ []) one_item-IsStored refl refl one_item_queued

abbrev stream_indexer : SseIndexer
stream_indexer = record {
  options = record {
    initial_reconnect_delay_ms = 1000;
    max_reconnect_delay_ms = 30000;
    max_reconnect_attempts = some 5;
  };
  stream = none;
  timer = none;
  lost_streams = 0;
  lost_timers = 0;
  reconnect_attempts = 0;
  stopped = false;
  connecting = 0;
  in_progress = [];
  cursor = none;
  fatal = [];
}

abbrev sse_calls : List SseCall
sse_calls =
    starts ∷ cursor_arrives true ∷ arrives ann ∷ settles ann true ∷ stream_fails ∷ timer_ends ∷ []

abbrev stream_calls : List SseCall
stream_calls = timer_ends ∷ cursor_arrives true ∷ arrives ann ∷ stream_fails ∷ []

stop-IsQuiet_example : IsQuiet (sse_run (stop stream_indexer) stream_calls)
stop-IsQuiet_example =
    stop-IsQuiet stream_indexer stream_calls refl refl refl (tt, (tt, (tt, (tt, tt))))

open_stream_after_stop_example :
    let leaked = open_stream (stop (record stream_indexer { connecting = 1 })) true in
    (leaked.stopped ≡ true) × (is_set leaked.stream ≡ true) × (handle_stream_error leaked ≡ leaked)
open_stream_after_stop_example =
    open_stream_after_stop (record stream_indexer { connecting = 1 }) true (omega arith)

ann_is_not_ben : text_eq ann ben ≡ false
unfolding text_eq
ann_is_not_ben = refl

overtaken_message_example :
    let both = message_arrives (message_arrives stream_indexer ann) ben in
    ((message_settles (message_settles both ann false) ben true).cursor ≡ some ben)
    × ((message_settles (message_settles both ben true) ann false).cursor ≡ some ben)
overtaken_message_example = overtaken_message stream_indexer ann ben refl ann_is_not_ben
