-- ===== src/Rollup/Engine/Runs.antt =====
-- The order of a rollup through any calls.
use pactum.Prelude.{
  ℕ, ◌≡◌, refl, ◌∙◌, Bool, not, ◌||◌, List, [], ◌∷◌, map, Option, none, some, length, Bool-cases,
  inl, inr, Text, Bytes, arith,
}
use pactum.Prelude.Results.{Result, ok, err}
use pactum.Prelude.Js.{nat_key}
use pactum.Rollup.Accumulator.{root_of}
use pactum.Rollup.Engine.{
  MicroCommitment, RollupRecord, RollupBatch, RollupConfig, RollupEngine, RollupError, new_engine,
  enqueue, force_include_pending, force_included,
}
use pactum.Rollup.Engine.Batches.{
  select, is_open, close_batch, seal_records, seal_open_batch, maybe_seal, should_seal, has_batch,
  finalize_record, mark_batch_finalized, submission_settles, replace_record, trigger_inclusion,
  confirm_inclusion,
}
use pactum.Rollup.Engine.Sequence.{Accepts, enqueue-Accepts}
use pactum.Rollup.Engine.Numbers.{IsOrdered, new-IsOrdered, numbers-map}

-- The pieces of the calls that end at an await, in the order the environment gives them.
pub data RollupCall : Type 0 where
  enqueues : MicroCommitment → ℕ → RollupCall
  seals : Bool → ℕ → RollupCall
  settles : ℕ → Option Text → ℕ → RollupCall
  triggers : RollupRecord → RollupCall
  confirms : RollupRecord → Text → RollupCall

-- A call that throws leaves the state it found.
unfoldable pub kept_or : RollupEngine → Result RollupError RollupEngine → RollupEngine
kept_or e (err x) = e
kept_or e (ok next) = next

module _ (sha256 : Bytes → Bytes) (encode : MicroCommitment → Bytes) (config : RollupConfig) where
  unfoldable pub rollup_step : RollupCall → RollupEngine → RollupEngine
  rollup_step (enqueues c now) e = kept_or e (enqueue sha256 encode config c now e)
  rollup_step (seals submits now) e = maybe_seal config submits now e
  rollup_step (settles number tx now) e = submission_settles number tx now e
  rollup_step (triggers r) e = trigger_inclusion r e
  rollup_step (confirms r tx) e = confirm_inclusion r tx e

  unfoldable pub rollup_run : List RollupCall → RollupEngine → RollupEngine
  rollup_run [] e = e
  rollup_run (call ∷ calls) e = rollup_run calls (rollup_step call e)

module _ (sha256 : Bytes → Bytes) (encode : MicroCommitment → Bytes) (config : RollupConfig)
    (digest : (b : Bytes) → length (sha256 b) ≡ 32) where
  kept-IsOrdered :
      (c : MicroCommitment) (e : RollupEngine) (r : Result RollupError RollupEngine)
      → IsOrdered e
      → Accepts c e r
      → IsOrdered (kept_or e r)
  unfolding kept_or
  kept-IsOrdered c e (err x) ordered h = ordered
  kept-IsOrdered c e (ok next) ordered h = h.1

  seal_records-IsOrdered :
      (now : ℕ) (root : Option Text) (rs : List RollupRecord) (e : RollupEngine)
      → IsOrdered e
      → IsOrdered (seal_records now root rs e)
  unfolding seal_records close_batch
  seal_records-IsOrdered now none rs e o = o
  seal_records-IsOrdered now (some root) [] e o = o
  seal_records-IsOrdered now (some root) (r ∷ rs) e o = record {
    numbered = o.numbered;
    keyed = o.keyed;
    drained = o.drained;
  }

  maybe_seal-IsOrdered :
      (submits : Bool) (now : ℕ) (e : RollupEngine)
      → IsOrdered e
      → IsOrdered (maybe_seal config submits now e)
  unfolding maybe_seal seal_open_batch
  maybe_seal-IsOrdered submits now e o =
      elim (Bool-cases (e.sealing || not (should_seal config now e))) [
        | inl stays ↦ rw stays o
        | inr due ↦
            let s =
              seal_records-IsOrdered now (root_of e.accumulator) (select (is_open e) e.records) e
                o in
            rw due (record { numbered = s.numbered; keyed = s.keyed; drained = s.drained })
      ]

  finalized-sequence :
      (number : ℕ) (tx : Text) (r : RollupRecord)
      → (finalize_record number tx r).commitment.sequence_id ≡ r.commitment.sequence_id
  unfolding finalize_record
  finalized-sequence number tx r = ground arith

  finalized-IsOrdered :
      (number : ℕ) (tx : Text) (now : ℕ) (e : RollupEngine)
      → IsOrdered e
      → IsOrdered (mark_batch_finalized number tx now e)
  unfolding mark_batch_finalized
  finalized-IsOrdered number tx now e o = marked (has_batch number e.sealed_batches) refl
    where
      marked :
          (found : Option RollupBatch)
          → has_batch number e.sealed_batches ≡ found
          → IsOrdered (mark_batch_finalized number tx now e)
      marked none k = rw (mark_batch_finalized, k) o
      marked (some batch) k =
          rw (mark_batch_finalized, k)
            (record {
              numbered =
                  numbers-map (finalize_record number tx) e.records (finalized-sequence number tx)
                  ∙ o.numbered;
              keyed = o.keyed;
              drained = o.drained;
            })

  replaced-IsOrdered :
      (new : RollupRecord) (e : RollupEngine)
      → IsOrdered e
      → IsOrdered
          (record e { records = map (replace_record new.commitment.sequence_id new) e.records })
  unfolding replace_record
  replaced-IsOrdered new e o = record {
    numbered = numbers-map _ e.records kept ∙ o.numbered;
    keyed = o.keyed;
    drained = o.drained;
  }
    where
      kept :
          (r : RollupRecord)
          → (replace_record new.commitment.sequence_id new r).commitment.sequence_id
            ≡ r.commitment.sequence_id
      kept r = ground arith

  step-IsOrdered :
      (call : RollupCall) (e : RollupEngine)
      → IsOrdered e
      → IsOrdered (rollup_step sha256 encode config call e)
  unfolding rollup_step submission_settles trigger_inclusion confirm_inclusion
  step-IsOrdered (enqueues c now) e o =
      kept-IsOrdered c e _ o (enqueue-Accepts sha256 encode config digest c now e o)
  step-IsOrdered (seals submits now) e o = maybe_seal-IsOrdered submits now e o
  step-IsOrdered (settles number none now) e o = record {
    numbered = o.numbered;
    keyed = o.keyed;
    drained = o.drained;
  }
  step-IsOrdered (settles number (some tx) now) e o =
      let m = finalized-IsOrdered number tx now e o in
      record { numbered = m.numbered; keyed = m.keyed; drained = m.drained }
  step-IsOrdered (triggers r) e o =
      replaced-IsOrdered (record r { status = force_include_pending }) e o
  step-IsOrdered (confirms r tx) e o =
      replaced-IsOrdered (record r { status = force_included; force_include_tx = some tx }) e o

  run-IsOrdered :
      (calls : List RollupCall) (e : RollupEngine)
      → IsOrdered e
      → IsOrdered (rollup_run sha256 encode config calls e)
  unfolding rollup_run
  run-IsOrdered [] e o = o
  run-IsOrdered (call ∷ calls) e o =
      run-IsOrdered calls (rollup_step sha256 encode config call e) (step-IsOrdered call e o)

  -- With a hash of 32 bytes, after any calls on a new engine: the records stand in the order of their
  -- sequences, from 0 on and without a gap, and the buffer does not hold the next one, so that every
  -- commitment that could be applied is. Another commitment then is refused exactly when its
  -- sequence lies before the next one.
  pub rollup_run-IsOrdered :
      (calls : List RollupCall) (c : MicroCommitment) (now : ℕ)
      → let e = rollup_run sha256 encode config calls new_engine in
        IsOrdered e × Accepts c e (enqueue sha256 encode config c now e)
  rollup_run-IsOrdered calls c now =
      let o = run-IsOrdered calls new_engine new-IsOrdered in
      (o, enqueue-Accepts sha256 encode config digest c now _ o)
