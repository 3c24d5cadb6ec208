-- ===== src/Product/Jobs/Preserved.antt =====
-- A job that already has a result keeps it when a later attempt fails or is cancelled.
use unrender.Base.{false, ℕ, ◌≡◌, Option, none, some, String, arith, if◌then◌else◌}
use text.Mathlib.Text.{◌==◌ as str_eq}
use unrender.Product.Schema.{Job, Status, review, approved, failed, cancelled}
use unrender.Product.Jobs.Updates.{
  finished_failed, finished_cancelled, cancelled_queued, stopped, nonempty,
}

-- The status of a job with a result.
abbrev pub status_of_result : Option ℕ → Status
status_of_result none = review
status_of_result (some t) = approved

-- The published result, its first version, its approval and its model are the same, and the status shows them.
abbrev pub KeepsResult : Job → Job → Type 0
KeepsResult j j' =
    (j'.status ≡ status_of_result j.approved_at)
    × (j'.current_result_json ≡ j.current_result_json)
    × (j'.original_result_json ≡ j.original_result_json)
    × (j'.approved_at ≡ j.approved_at)
    × (j'.raw_result ≡ j.raw_result)
    × (j'.model_version ≡ j.model_version)

-- If the current result is a nonempty text, then a job that fails, is cancelled by its worker, is
-- cancelled while queued or is stopped by the recovery keeps the result, its original, its approval,
-- its raw text and its model, and goes back to `approved` if it was approved, to `review` otherwise.
-- If it has no current result or an empty one, the job is failed after a failure, cancelled after
-- either cancellation, and after a stopped recovery cancelled if that was requested and failed
-- otherwise.
pub settlement-KeepsResult :
    (now : ℕ) (code : String) (j : Job)
    → ((text : String)
        → j.current_result_json ≡ some text
        → str_eq text "" ≡ false
        → KeepsResult j (finished_failed now code j)
          × KeepsResult j (finished_cancelled now j)
          × KeepsResult j (cancelled_queued now j)
          × KeepsResult j (stopped now j))
      × (nonempty j.current_result_json ≡ none
          → ((finished_failed now code j).status ≡ failed)
            × ((finished_cancelled now j).status ≡ cancelled)
            × ((cancelled_queued now j).status ≡ cancelled)
            × ((stopped now j).status ≡ (if j.cancel_requested then cancelled else failed)))
unfolding finished_failed finished_cancelled cancelled_queued stopped
settlement-KeepsResult now code j = (λ text h p. ground (arith, h, p), λ h. ground (arith, h))
