-- ===== src/Rollup/Engine/Batches.antt =====
-- frontend/src/lib/optimisticRollup.ts: batches are sealed and submitted, and overdue commitments are
-- included by force.
use pactum.Prelude.{
  ℕ, ◌+◌, min, max, Bool, true, false, not, ◌&&◌, ◌||◌, List, [], ◌∷◌, ◌++◌, map, Option, none,
  some, if◌then◌else◌, ltb, leb, ◌==◌, length, Text,
}
use pactum.Prelude.Js.{nat_key}
use pactum.Rollup.Accumulator.{new_accumulator, root_of}
use pactum.Rollup.Engine.{
  RollupRecord, RollupBatch, RollupConfig, RollupEngine, is_pending, on_chain_finalized,
  force_include_pending, force_included,
}

unfoldable pub is_open : RollupEngine → RollupRecord → Bool
is_open e r = is_pending r.status && r.batch_sequence == e.open_batch

-- `records.filter(…)`
unfoldable pub select : (RollupRecord → Bool) → List RollupRecord → List RollupRecord
select test [] = []
select test (r ∷ rs) = let rest = select test rs in if test r then r ∷ rest else rest

unfoldable pub oldest : ℕ → List RollupRecord → ℕ
oldest time [] = time
oldest time (r ∷ rs) = oldest (min time r.enqueued_at) rs

unfoldable pub should_seal_records : RollupConfig → ℕ → List RollupRecord → Bool
should_seal_records config now [] = false
should_seal_records config now (r ∷ rs) =
    if leb config.max_batch_size (length (r ∷ rs))
    then true
    else leb (oldest r.enqueued_at rs + config.batch_ttl_ms) now

unfoldable pub should_seal : RollupConfig → ℕ → RollupEngine → Bool
should_seal config now e = should_seal_records config now (select (is_open e) e.records)

unfoldable pub close_batch : ℕ → Text → List RollupRecord → RollupEngine → RollupEngine
close_batch now root commitments e =
    let batch : RollupBatch = record {
      number = e.open_batch;
      root = root;
      commitments = commitments;
      sealed_at = now;
      submitted_at = none;
      batch_tx = none;
    } in
    record e {
      accumulator = new_accumulator;
      open_batch = e.open_batch + 1;
      open_root = none;
      pending_count =
          length
            (select (λ r. is_pending r.status && not (r.batch_sequence == e.open_batch)) e.records);
      sealed_batches = e.sealed_batches ++ batch ∷ [];
    }

unfoldable pub seal_records : ℕ → Option Text → List RollupRecord → RollupEngine → RollupEngine
seal_records now none commitments e = e
seal_records now (some root) [] e = e
seal_records now (some root) (r ∷ rs) e = close_batch now root (r ∷ rs) e

unfoldable pub seal_open_batch : ℕ → RollupEngine → RollupEngine
seal_open_batch now e = seal_records now (root_of e.accumulator) (select (is_open e) e.records) e

unfoldable pub is_some : {A : Type 0} → Option A → Bool
is_some none = false
is_some (some a) = true

-- `maybeSeal` up to the submission; `submits` says whether one is configured. The engine is sealing
-- while a batch is submitted.
unfoldable pub maybe_seal : RollupConfig → Bool → ℕ → RollupEngine → RollupEngine
maybe_seal config submits now e =
    if e.sealing || not (should_seal config now e)
    then e
    else record (seal_open_batch now e) { sealing = submits && is_some (root_of e.accumulator) }

unfoldable pub has_batch : ℕ → List RollupBatch → Option RollupBatch
has_batch number [] = none
has_batch number (b ∷ bs) =
    let rest = has_batch number bs in if b.number == number then some b else rest

unfoldable pub finalize_record : ℕ → Text → RollupRecord → RollupRecord
finalize_record number tx r =
    if r.batch_sequence == number && is_pending r.status
    then record r { status = on_chain_finalized; on_chain_tx = some tx }
    else r

unfoldable pub finalize_batch : ℕ → Text → ℕ → RollupBatch → RollupBatch
finalize_batch number tx now b =
    if b.number == number
    then record b {
      batch_tx = some tx;
      submitted_at = elim b.submitted_at [ none ↦ some now | some time ↦ some time ];
    }
    else b

unfoldable pub mark_batch_finalized : ℕ → Text → ℕ → RollupEngine → RollupEngine
mark_batch_finalized number tx now e = elim (has_batch number e.sealed_batches) [
  | none ↦ e
  | some batch ↦ record e {
    last_accepted_batch = max e.last_accepted_batch number;
    last_accepted_root = some batch.root;
    records = map (finalize_record number tx) e.records;
    sealed_batches = map (finalize_batch number tx now) e.sealed_batches;
  }
]

-- The rest of `maybeSeal`, when the submission of a batch answers or fails.
unfoldable pub submission_settles : ℕ → Option Text → ℕ → RollupEngine → RollupEngine
submission_settles number none now e = record e { sealing = false }
submission_settles number (some tx) now e = record (mark_batch_finalized number tx now e) {
  sealing = false;
}

-- The filter of `checkForcedInclusions`.
unfoldable pub is_overdue : ℕ → RollupEngine → RollupRecord → Bool
is_overdue now e r =
    is_pending r.status
    && (leb r.challenge_deadline now
        && (ltb e.last_accepted_batch r.batch_sequence
            || elim r.on_chain_tx [ none ↦ true | some tx ↦ false ]))

unfoldable pub replace_record : ℕ → RollupRecord → RollupRecord → RollupRecord
replace_record sequence new r = if r.commitment.sequence_id == sequence then new else r

-- One round of its loop: the record as the filter saw it is marked, and confirmed when the
-- inclusion answers.
unfoldable pub trigger_inclusion : RollupRecord → RollupEngine → RollupEngine
trigger_inclusion r e = record e {
  records =
      map (replace_record r.commitment.sequence_id (record r { status = force_include_pending }))
        e.records;
}

unfoldable pub confirm_inclusion : RollupRecord → Text → RollupEngine → RollupEngine
confirm_inclusion r tx e = record e {
  records =
      map
        (replace_record r.commitment.sequence_id
          (record r { status = force_included; force_include_tx = some tx }))
        e.records;
}
