-- ===== src/Examples/Gates.antt =====
-- Receipts and the end of a publication, over the land of `Lives` and a full gate before it.

use agcoord.Base.{ℕ, ◌≡◌, ◌≢◌, ◌⊎◌, refl, true, false, none, some, [], ◌∷◌, ◌++◌, Memᴰ, Map, pos}
use agcoord.Run.{
  RunRecord, Binding, Json, number, check, full, land, merge, passed, complete, preflight, failed,
  publish_failed, Result, ok, err, load_run, publication_authoritative,
}
use agcoord.Spool.{Spool}
use agcoord.Land.{advance_land_phase}
use agcoord.Gate.{newest, reusable, same_command, ReuseRequest, reuse_row, reuse_gate}
use agcoord.Gate.Receipt.{IsReused, reuse_gate-IsReused, reuse_gate-none}
use agcoord.Finish.{
  Verdict, cancel, marked_row, finish_run, finish_row, final_verdict, authoritative,
}
use agcoord.Finish.Authority.{
  advance_land_phase-cancel, cancel-advance_land_phase, finish_run-authoritative,
}
use agcoord.Submit.{SubmitRequest}
use agcoord.Enqueue.{submit, request_row, admission_binding}
use agcoord.Merge.{receipt_matches, gate_matches, parse_int, below, floor_of, named_gate, run_id_of}
use agcoord.Enqueue.Receipts.{IsReceipt, submit-IsReceipt}
use agcoord.Life.{advanced}
use agcoord.Life.Invariant.{stepped, Reachable-IsWell}
use agcoord.Examples.Lives.{
  spool, empty, files, owner, head, request, processes, running_land, three, four, gate_passed,
  reachable, publish_land,
}

abbrev full_request : SubmitRequest
full_request = record request {
  run_id = "full-1";
  kind = full;
  publication_adapter = none;
  publication_request = none;
}

abbrev gate_run : RunRecord
gate_run =
    let row : RunRecord = request_row 1 full_request none (("cpu", admission_binding) ∷ []) 1 in
    record row {
      status = passed;
      phase = complete;
      finished_at = some 4;
      exit_status = some (pos 0);
    }

abbrev landing : Spool
landing = record three { runs = gate_run ∷ record running_land { sequence = 2 } ∷ [] }

abbrev reuse_request : ReuseRequest
reuse_request = record {
  run_id = "land-1";
  worker_pid = 10;
  worker_start_token = "t10";
  checkout = "/src/repo";
  head_sha = head;
}

-- What a test of a gate computes with.
gates : Unit {0}
unfolding spool reuse_gate newest reusable same_command receipt_matches gate_matches parse_int below
    request_row floor_of named_gate run_id_of final_verdict
gates = tt

abbrev let_off : Spool
let_off = record landing {
  runs = gate_run ∷ reuse_row "full-1" (record running_land { sequence = 2 }) ∷ [];
}

reuse_land : reuse_gate processes 9 10 reuse_request landing ≡ ok (let_off, some "full-1")
unfolding gates
reuse_land = refl

reuse_gate-IsReused_example : IsReused 9 10 reuse_request landing let_off "full-1"
reuse_gate-IsReused_example = reuse_gate-IsReused processes 9 10 reuse_request landing reuse_land

-- The receipt is too old.
no_reuse : reuse_gate processes 90 10 reuse_request landing ≡ ok (landing, none)
unfolding gates
no_reuse = refl

load_landing : load_run landing.runs "land-1" ≡ ok (record running_land { sequence = 2 })
unfolding gates
load_landing = refl

abbrev ten : ℕ
ten = 10

reuse_gate-none_example :
    (landing ≡ landing)
    × ((ten ≡ 0)
        ⊎ ((other : RunRecord)
            → Memᴰ other landing.runs
            → reusable 90 10 (record running_land { sequence = 2 }) head other ≡ false))
reuse_gate-none_example =
    reuse_gate-none processes 90 10 reuse_request landing (record running_land { sequence = 2 })
      load_landing no_reuse

abbrev tested : Spool
tested = record empty { runs = gate_run ∷ []; next_sequence = 2 }

abbrev merge_request : SubmitRequest
merge_request = record request { run_id = "merge-2"; kind = merge }

abbrev merging : Spool
merging = record tested {
  runs =
      gate_run
      ∷ request_row 8 merge_request (some "full-1") (("cpu", admission_binding) ∷ []) 2
      ∷ [];
  next_sequence = 3;
  last_activity = 8;
}

submit_merge : submit files owner 8 merge_request tested ≡ ok merging
unfolding gates
submit_merge = refl

submit-IsReceipt_example :
    (gate : RunRecord) × IsReceipt merge_request tested gate
    × (contract : Map Binding) × (merging.runs
        ≡ tested.runs ++ request_row 8 merge_request (some gate.run_id) contract 2 ∷ [])
submit-IsReceipt_example = submit-IsReceipt files owner 8 merge_request tested refl submit_merge

abbrev stopping : Spool
stopping = record three { runs = marked_row running_land ∷ [] }

cancel_land : cancel 7 "land-1" three ≡ ok stopping
unfolding gates
cancel_land = refl

advance_land_phase-cancel_example : advance_land_phase processes gate_passed stopping ≢ ok four
advance_land_phase-cancel_example =
    advance_land_phase-cancel processes 7 gate_passed three cancel_land

cancel-advance_land_phase_example : cancel 7 "land-1" four ≡ err publication_authoritative
cancel-advance_land_phase_example =
    cancel-advance_land_phase processes 7 gate_passed three refl publish_land

abbrev pub publishing_land : RunRecord
publishing_land = record running_land {
  phase = agcoord.Run.publishing;
  gate_exit_status = some (pos 0);
}

abbrev lost : Verdict
lost = record { status = failed; exit_status = pos 78; failure_reason = some publish_failed }

load_publishing : load_run four.runs "land-1" ≡ ok publishing_land
unfolding gates
load_publishing = refl

authoritative_land : authoritative publishing_land ≡ true
unfolding gates
authoritative_land = refl

abbrev ended : Spool
ended = record four { runs = finish_row 9 lost publishing_land ∷ [] }

finish_land : finish_run 9 publishing_land lost four ≡ ok ended
unfolding gates
finish_land = refl

finish_run-authoritative_example :
    load_run ended.runs "land-1" ≡ ok (finish_row 9 lost publishing_land)
unfolding agcoord.Schedule.started request_row
finish_run-authoritative_example =
    finish_run-authoritative 9 publishing_land lost four publishing_land
      (Reachable-IsWell (stepped reachable (advanced processes gate_passed publish_land)))
      load_publishing authoritative_land finish_land
