-- ===== src/Relayer/DurableQueue/Overlap.antt =====
-- What two calls of `persist` that overlap leave in the file.
use pactum.Prelude.{ℕ, ◌≡◌, refl, [], none, Text, true}
use pactum.Relayer.DurableQueue.{
  DurableProofQueue, new_queue, snapshot, write_temp, rename_temp, restore, set_item,
}

module _ {Score : Type 0} where
  -- Two enqueues, the second of which starts while the first awaits the writing of the temporary file.
  abbrev pub overlapped :
      DurableProofQueue Score → Text → Score → Text → Score → ℕ → DurableProofQueue Score
  overlapped q first score second score' now =
      let one = set_item q first score now in
      let two = set_item one second score' now in
      rename_temp (rename_temp (write_temp (snapshot two) (write_temp (snapshot one) two)))

  -- When the second of two enqueues starts before the first has renamed the temporary file and both
  -- write it before either renames it, the second rename fails and the file is unlinked: both items are
  -- in the queue, and a restart brings back nothing, neither these nor what the file held before.
  pub overlapped-loses_file :
      (q : DurableProofQueue Score) (first second : Text) (score score' : Score) (now : ℕ)
      → let after = overlapped q first score second score' now in
        (after.items ≡ (set_item (set_item q first score now) second score' now).items)
        × (after.file ≡ none)
        × ((restore (new_queue true after.file)).items ≡ [])
  unfolding set_item rename_temp write_temp restore new_queue
  overlapped-loses_file q first second score score' now = (refl, refl, refl)
