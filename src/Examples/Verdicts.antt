-- ===== src/Examples/Verdicts.antt =====
-- Verdicts on the land of `Lives`, and the options of its worker.
use agcoord.Base.{String, ◌≡◌, ◌↔◌, refl, true, false, none, some, List, [], ◌∷◌, pos}
use agcoord.Run.{failed, ok, is_passed, is_terminal, is_land}
use agcoord.Finish.{
  child_outcome, lost_outcome, publication_failure_reason, has_resource_observation,
}
use agcoord.Finish.Verdicts.{observed, child_outcome-passed, lost_outcome-passed}
use agcoord.Finish.Options.{land_request_options, land_request_options_ok}
use agcoord.Submit.{SubmitRequest, validate_submit}
use agcoord.Enqueue.{request_row}
use agcoord.Examples.Lives.{spool, files, owner, request, head}
use agcoord.Examples.Gates.{publishing_land}

child_outcome-passed_example :
    (is_terminal (child_outcome publishing_land (pos 0)).status ≡ true)
    × ((is_passed (child_outcome publishing_land (pos 0)).status ≡ true)
        ↔ ((publishing_land.cancel_requested ≡ false) × (observed publishing_land (pos 0) ≡ pos 0)))
child_outcome-passed_example = child_outcome-passed publishing_land (pos 0)

lost_outcome-passed_example :
    (is_terminal (lost_outcome publishing_land).status ≡ true)
    × ((is_passed (lost_outcome publishing_land).status ≡ true) ↔ (
        (publishing_land.cancel_requested ≡ false)
        × (is_land publishing_land.kind ≡ true)
        × (publishing_land.reported_exit_status ≡ some (pos 0))))
lost_outcome-passed_example = lost_outcome-passed publishing_land

-- Publication failed with 78.
ends_failed : (child_outcome publishing_land (pos 78)).status ≡ failed
unfolding spool child_outcome publication_failure_reason has_resource_observation request_row
    agcoord.Schedule.started
ends_failed = refl

abbrev careful : SubmitRequest
careful = record request {
  environment =
      ("_AGCOORD_LAND_AVOID", head)
      ∷ ("_AGCOORD_LAND_PYTHON", "/usr/bin/python3")
      ∷ ("_AGCOORD_LAND_TARGET_SYNC", "0")
      ∷ [];
}

careful_valid : validate_submit files owner careful ≡ ok tt
unfolding spool
careful_valid = refl

careful_options :
    land_request_options (request_row 5 careful none [] 1)
    ≡ ok ("--no-target-sync" ∷ "--avoid" ∷ head ∷ [])
unfolding spool land_request_options
careful_options = refl

land_request_options_ok_example :
    (options : List String) × (land_request_options (request_row 5 careful none [] 1) ≡ ok options)
land_request_options_ok_example =
    land_request_options_ok files owner careful 5 none [] 1 refl careful_valid
