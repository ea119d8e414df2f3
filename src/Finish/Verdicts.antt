-- ===== src/Finish/Verdicts.antt =====
-- What the verdicts of `observe` say.
use agcoord.Base.{
  ◌≡◌, ◌↔◌, inl, inr, true, false, ◌||◌, some, ℤ, pos, int_eq_iff, is_some, get_or, Option-cases,
  if◌then◌else◌, arith,
}
use agcoord.Run.{RunRecord, failed, is_terminal, is_land, is_publication, is_passed}
use agcoord.Finish.{
  child_outcome, lost_outcome, reported_outcome, requested_stop_outcome, publication_failure_reason,
  has_resource_observation,
}

-- The exit status that counts: a land's report, or else what the child exited with.
abbrev pub observed : RunRecord → ℤ → ℤ
observed run exit_status =
    if is_land run.kind then get_or run.reported_exit_status exit_status else exit_status

-- The verdict on a child that has exited is terminal, and it says that the run passed just when no
-- stop was asked and the status that counts is zero.
pub child_outcome-passed :
    (run : RunRecord) (exit_status : ℤ)
    → (is_terminal (child_outcome run exit_status).status ≡ true)
      × ((is_passed (child_outcome run exit_status).status ≡ true)
          ↔ ((run.cancel_requested ≡ false) × (observed run exit_status ≡ pos 0)))
unfolding child_outcome requested_stop_outcome is_terminal
child_outcome-passed run exit_status = (
  ground arith,
  (
    λ h. ground (arith, h, int_eq_iff (observed run exit_status) (pos 0)),
    λ h. ground (arith, h, int_eq_iff (observed run exit_status) (pos 0)),
  ),
)

-- The verdict on a worker that was lost is terminal, and it says that the run passed just when no
-- stop was asked and the run is a land that reported zero.
pub lost_outcome-passed :
    (run : RunRecord)
    → (is_terminal (lost_outcome run).status ≡ true)
      × ((is_passed (lost_outcome run).status ≡ true) ↔ (
          (run.cancel_requested ≡ false)
          × (is_land run.kind ≡ true)
          × (run.reported_exit_status ≡ some (pos 0))))
unfolding lost_outcome reported_outcome requested_stop_outcome is_terminal
lost_outcome-passed run = elim (Option-cases run.reported_exit_status) [
  | inl e ↦ (ground (arith, e), (λ h. ground (arith, e, h), λ h. ground (arith, e, h)))
  | inr (status, e) ↦ (
    ground (arith, e),
    (
      λ h. ground (arith, e, h, int_eq_iff status (pos 0)),
      λ h. ground (arith, e, h, int_eq_iff status (pos 0)),
    ),
  )
]

-- A failed verdict on a child names a reason just for a publication, or for a run whose memory ran
-- out.
pub child_outcome-failed :
    (run : RunRecord) (exit_status : ℤ)
    → (child_outcome run exit_status).status ≡ failed
    → is_some (child_outcome run exit_status).failure_reason
      ≡ (is_publication run.kind || has_resource_observation run "memory-oom")
unfolding child_outcome requested_stop_outcome publication_failure_reason
child_outcome-failed run exit_status h = ground (arith, h)
