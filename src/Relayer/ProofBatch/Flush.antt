-- ===== src/Relayer/ProofBatch/Flush.antt =====
-- Runs of calls on a stored queue, and what a failing flush leaves.
use pactum.Prelude.{
  ℕ, ◌+◌, ◌-◌, ◌≡◌, refl, sym, subst, List, [], ◌∷◌, true, false, if◌then◌else◌, leb, ◌==◌, Text,
  arith,
}
use pactum.Prelude.Js.{JsMap, values, text_key}
use pactum.Relayer.DurableQueue.{BufferedProofItem, list_items, size, drain}
use pactum.Relayer.DurableQueue.Restart.{IsKeyed, IsDurable, replace-IsDurable}
use pactum.Relayer.ProofBatch.{
  begin_flush, take_items, resume_flush, enqueue_item, ProofBatchEngine, restore_once, start_flush,
  enqueue_proof, fail_flush,
}
use pactum.Relayer.ProofBatch.Stored.{IsStored, branch}

module _ {Score : Type 0} where
  -- A failing flush puts back its items, whatever the queue holds.
  fail_flush-items :
      (e : ProofBatchEngine Score) (m : JsMap Text (BufferedProofItem Score))
      → IsKeyed m
      → e.in_flight ≡ values m ∷ []
      → ((fail_flush e 0).queue.items ≡ m) × IsDurable (fail_flush e 0).queue
  unfolding fail_flush
  fail_flush-items e m k running =
      let (durable, same) = replace-IsDurable e.queue m k in
      rw (fail_flush, running) (same, durable)

  -- One flush runs, and its items are `items`.
  record IsFlushing (items : List (BufferedProofItem Score)) (e : ProofBatchEngine Score)
      : Type 0 where
    busy : e.flushing ≡ true
    flight : e.in_flight ≡ items ∷ []

  restore_once-IsFlushing :
      (e : ProofBatchEngine Score) (items : List (BufferedProofItem Score))
      → IsFlushing items e
      → IsFlushing items (restore_once e)
  unfolding restore_once
  restore_once-IsFlushing e items h =
      branch (IsFlushing items) e.restored h (record { busy = h.busy; flight = h.flight })

  -- Enqueues, with the flush that a full queue asks for.
  abbrev pub enqueued : ProofBatchEngine Score → List (ℕ × Text × Score) → ProofBatchEngine Score
  enqueued e [] = e
  enqueued e ((now, address, score) ∷ rest) = enqueued (enqueue_proof e now address score) rest

  enqueue_proof-IsFlushing :
      (e : ProofBatchEngine Score) (now : ℕ) (address : Text) (score : Score)
      (items : List (BufferedProofItem Score))
      → IsFlushing items e
      → IsFlushing items (enqueue_proof e now address score)
  unfolding enqueue_proof enqueue_item start_flush
  enqueue_proof-IsFlushing e now address score items h =
      let h1 = restore_once-IsFlushing e items h in
      let after = enqueue_item e now address score in
      let h2 : IsFlushing items after = record { busy = h1.busy; flight = h1.flight } in
      branch (IsFlushing items) (leb after.max_batch_size (size after.queue))
        (subst (λ b. IsFlushing items (if b then after else resume_flush (begin_flush after)))
          (sym h2.busy) h2)
        h2

  enqueued-IsFlushing :
      (e : ProofBatchEngine Score) (arrivals : List (ℕ × Text × Score))
      (items : List (BufferedProofItem Score))
      → IsFlushing items e
      → IsFlushing items (enqueued e arrivals)
  enqueued-IsFlushing e [] items h = h
  enqueued-IsFlushing e ((now, address, score) ∷ rest) items h =
      enqueued-IsFlushing (enqueue_proof e now address score) rest items
        (enqueue_proof-IsFlushing e now address score items h)

  start_flush-take_items :
      (e : ProofBatchEngine Score)
      → e.restored ≡ true
      → e.flushing ≡ false
      → start_flush e ≡ take_items (record e { waiting = e.waiting + 1 - 1 })
  unfolding start_flush begin_flush resume_flush restore_once
  start_flush-take_items e r idle =
      let more : (e.waiting + 1 == 0) ≡ false = ground arith in rw (idle, more, r) refl

  take_items-IsFlushing :
      (e : ProofBatchEngine Score)
      → e.in_flight ≡ []
      → (size e.queue == 0) ≡ false
      → IsFlushing (values e.queue.items) (take_items e)
  unfolding take_items drain list_items
  take_items-IsFlushing e none_running full =
      rw (take_items, full) (record { busy = refl; flight = rw none_running refl })

  start_flush-IsFlushing :
      (e : ProofBatchEngine Score)
      → e.restored ≡ true
      → e.flushing ≡ false
      → e.in_flight ≡ []
      → (size e.queue == 0) ≡ false
      → IsFlushing (values e.queue.items) (start_flush e)
  start_flush-IsFlushing e r idle none_running full =
      rw (start_flush-take_items e r idle) (take_items-IsFlushing _ none_running full)

  -- A flush of a stored queue that is not empty, with none running, takes its items; when its batch
  -- fails after any enqueues, the queue is durable and holds exactly the items that the flush took:
  -- nothing of the batch is lost, and of what was enqueued in the meantime nothing is kept.
  pub fail_flush-restores :
      (e : ProofBatchEngine Score) (arrivals : List (ℕ × Text × Score))
      → IsStored e
      → e.flushing ≡ false
      → e.in_flight ≡ []
      → (size e.queue == 0) ≡ false
      → let failed = fail_flush (enqueued (start_flush e) arrivals) 0 in
        (failed.queue.items ≡ e.queue.items) × IsDurable failed.queue
  fail_flush-restores e arrivals h idle none_running full =
      fail_flush-items (enqueued (start_flush e) arrivals) e.queue.items h.durable.keyed
        (enqueued-IsFlushing (start_flush e) arrivals (values e.queue.items)
          (start_flush-IsFlushing e h.restored idle none_running full)).flight
