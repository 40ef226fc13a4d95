-- ===== src/Relayer/ProofBatch/Stored.antt =====
-- The steps of the engine on a stored queue.
use pactum.Prelude.{
  ℕ, zero, suc, All, All-append, All-get_elem?, get_elem?, ◌≡◌, refl, inl, inr, List, [], ◌∷◌, Bool,
  true, false, if◌then◌else◌, leb, ◌==◌, Option-cases, Text,
}
use pactum.Prelude.Js.{JsMap, values, text_key}
use pactum.Relayer.DurableQueue.{BufferedProofItem, is_empty_text, list_items, size, drain}
use pactum.Relayer.DurableQueue.Restart.{
  IsKeyed, IsDurable, enqueue-IsDurable, drain-IsDurable, replace-IsDurable,
}
use pactum.Relayer.ProofBatch.{
  without, begin_flush, take_items, resume_flush, enqueue_item, flush_if_full, flushes_if_full,
  flush_resumes, ProofBatchEngine, BatchCall, enqueues, flushes, flushes_if_due, batch_succeeds,
  batch_fails, restore_once, should_flush, flush_if_due, end_flush, fail_flush, batch_step,
}

module _ {Score : Type 0} where
  -- A batch that is the items of a queue.
  abbrev pub IsBatch : List (BufferedProofItem Score) → Type 0
  IsBatch items = (m : JsMap Text (BufferedProofItem Score)) × IsKeyed m × (items ≡ values m)

  -- The queue was restored and is durable, and each batch in flight is the items of a queue.
  pub record IsStored (e : ProofBatchEngine Score) : Type 0 where
    pub restored : e.restored ≡ true
    pub durable : IsDurable e.queue
    pub flight : All IsBatch e.in_flight

  -- Every address that is enqueued is not empty.
  abbrev pub HasAddress : BatchCall Score → Type 0
  HasAddress (enqueues address _) = is_empty_text address ≡ false
  HasAddress _ = Unit {0}

  abbrev pub HaveAddresses : List (ℕ × BatchCall Score) → Type 0
  HaveAddresses [] = Unit {0}
  HaveAddresses ((_, call) ∷ calls) = HasAddress call × HaveAddresses calls

  pub branch :
      (P : ProofBatchEngine Score → Type 0) (b : Bool) {x y : ProofBatchEngine Score}
      → P x
      → P y
      → P (if b then x else y)
  branch P true p q = p
  branch P false p q = q

  restore_once_idle : (e : ProofBatchEngine Score) → e.restored ≡ true → restore_once e ≡ e
  unfolding restore_once
  restore_once_idle e r = rw r refl

  restore_once-IsStored : (e : ProofBatchEngine Score) → IsStored e → IsStored (restore_once e)
  restore_once-IsStored e h = rw (restore_once_idle e h.restored) h

  All-without :
      (bs : List (List (BufferedProofItem Score))) (i : ℕ)
      → All IsBatch bs
      → All IsBatch (without bs i)
  unfolding without
  All-without [] i h = tt
  All-without (x ∷ bs) zero h = h.1
  All-without (x ∷ bs) (suc i) h = (h.0, All-without bs i h.1)

  take_items-IsStored : (e : ProofBatchEngine Score) → IsStored e → IsStored (take_items e)
  unfolding take_items drain list_items
  take_items-IsStored e h = branch IsStored (size e.queue == 0) h (record {
    restored = h.restored;
    durable = drain-IsDurable e.queue;
    flight =
        All-append IsBatch e.in_flight (values e.queue.items) h.flight
          (e.queue.items, h.durable.keyed, refl);
  })

  begin_flush-IsStored : (e : ProofBatchEngine Score) → IsStored e → IsStored (begin_flush e)
  unfolding begin_flush
  begin_flush-IsStored e h =
      branch IsStored e.flushing h
        (record { restored = h.restored; durable = h.durable; flight = h.flight })

  resume_flush-IsStored : (e : ProofBatchEngine Score) → IsStored e → IsStored (resume_flush e)
  unfolding resume_flush
  resume_flush-IsStored e h = branch IsStored (e.waiting == 0) h (
      take_items-IsStored _ (
        restore_once-IsStored _
          (record { restored = h.restored; durable = h.durable; flight = h.flight })))

  enqueue_item-IsStored :
      (e : ProofBatchEngine Score) (now : ℕ) (address : Text) (score : Score)
      → is_empty_text address ≡ false
      → IsStored e
      → IsStored (enqueue_item e now address score)
  unfolding enqueue_item
  enqueue_item-IsStored e now address score n h =
      let h1 = restore_once-IsStored e h in
      record {
        restored = h1.restored;
        durable = enqueue-IsDurable (restore_once e).queue address score now n h1.durable.keyed;
        flight = h1.flight;
      }

  flush_if_full-IsStored : (e : ProofBatchEngine Score) → IsStored e → IsStored (flush_if_full e)
  unfolding flush_if_full
  flush_if_full-IsStored e h =
      branch IsStored (leb e.max_batch_size (size e.queue)) (begin_flush-IsStored e h) h

  flush_if_due-IsStored :
      (e : ProofBatchEngine Score) (now : ℕ) → IsStored e → IsStored (flush_if_due e now)
  unfolding flush_if_due
  flush_if_due-IsStored e now h =
      let h1 = restore_once-IsStored e h in
      branch IsStored (should_flush (restore_once e) now) (begin_flush-IsStored _ h1) h1

  end_flush-IsStored : (e : ProofBatchEngine Score) (i : ℕ) → IsStored e → IsStored (end_flush e i)
  unfolding end_flush
  end_flush-IsStored e i h = elim (Option-cases (get_elem? e.in_flight i)) [
    | inl idle ↦ rw (end_flush, idle) h
    | inr (items, running) ↦
        rw (end_flush, running)
          (record {
            restored = h.restored;
            durable = h.durable;
            flight = All-without e.in_flight i h.flight;
          })
  ]

  fail_flush-IsStored :
      (e : ProofBatchEngine Score) (i : ℕ) → IsStored e → IsStored (fail_flush e i)
  unfolding fail_flush
  fail_flush-IsStored e i h = elim (Option-cases (get_elem? e.in_flight i)) [
    | inl idle ↦ rw (fail_flush, idle) h
    | inr (items, running) ↦
        let (m, k, same) = All-get_elem? IsBatch e.in_flight i h.flight running in
        rw (fail_flush, running)
          (record {
            restored = h.restored;
            durable = rw same (replace-IsDurable e.queue m k).0;
            flight = All-without e.in_flight i h.flight;
          })
  ]

  pub batch_step-IsStored :
      (e : ProofBatchEngine Score) (now : ℕ) (call : BatchCall Score)
      → HasAddress call
      → IsStored e
      → IsStored (batch_step e (now, call))
  unfolding batch_step
  batch_step-IsStored e now (enqueues address score) n h =
      enqueue_item-IsStored e now address score n h
  batch_step-IsStored e now flushes_if_full n h = flush_if_full-IsStored e h
  batch_step-IsStored e now flushes n h = begin_flush-IsStored e h
  batch_step-IsStored e now flushes_if_due n h = flush_if_due-IsStored e now h
  batch_step-IsStored e now flush_resumes n h = resume_flush-IsStored e h
  batch_step-IsStored e now (batch_succeeds i) n h = end_flush-IsStored e i h
  batch_step-IsStored e now (batch_fails i) n h = fail_flush-IsStored e i h
