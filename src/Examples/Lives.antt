-- ===== src/Examples/Lives.antt =====
-- A land from its submission to publication.
use agcoord.Base.{String, ◌≡◌, refl, true, none, some, [], ◌∷◌, lookup, insert, pos}
use agcoord.Run.{RunRecord, number, land, publishing, ok, load_run, run_row, is_terminal}
use agcoord.Text.{identifier_valid, commit_sha_valid, trim, split_comma}
use agcoord.Process.{
  ProcessTable, process_identity, same_process, same_worker_process, direct_child_of,
}
use agcoord.Schedule.{started}
use agcoord.Spool.{Spool, metadata, set_last_activity, insert_run, update_runs, update_run}
use agcoord.Maintenance.{maintenance_record}
use agcoord.Land.{
  PhaseRequest, admitted_worker_presents, advance_land_phase, transition_valid, advance_row,
}
use agcoord.Finish.{admit_run, commit_identity, finish_run, cancel, authoritative}
use agcoord.Submit.{
  OwnerInfo, Files, SubmitRequest, validate_submit, publication_valid, request_valid,
  resources_valid,
}
use agcoord.Enqueue.{resource_contract, request_row, insert_request, submit, clear}
use agcoord.Merge.{select_gate}
use agcoord.Life.{submitted, admitted, identified, advanced}
use agcoord.Life.Invariant.{IsWell, Reachable, created, stepped, Reachable-IsWell}
use agcoord.Life.Progress.{Continues, step-Continues}

abbrev pub empty : Spool
empty = record {
  runs = [];
  leases = [];
  next_sequence = 1;
  next_lease = 1;
  meta = ("native_gate_floor", "1") ∷ [];
  guards = [];
  last_activity = 0;
}

abbrev pub files : Files
files = record { is_file = λ path. true; is_dir = λ path. true }

abbrev pub owner : OwnerInfo
owner = record { capacities = ("cpu", 4) ∷ []; resource_bindings = [] }

abbrev pub head : String
head = "0123456789abcdef0123456789abcdef01234567"

abbrev pub request : SubmitRequest
request = record {
  run_id = "land-1";
  kind = land;
  label = " land 7 ";
  agent = "agent";
  repository_id = "a";
  repository = "repo";
  worktree_id = "w1";
  checkout = "/src/repo";
  branch = "topic";
  head_sha = some head;
  resources = ("cpu", 2) ∷ [];
  gate_run_id = none;
  publication_adapter = some "github";
  publication_request = some (number 7);
  caller_pid = 7;
  command = "make" ∷ [];
  environment = ("_AGCOORD_LAND_PYTHON", "/usr/bin/python3") ∷ [];
}

-- What the operations compute with.
unfoldable pub spool : Unit {0}
unfolding submit validate_submit request_valid publication_valid resources_valid maintenance_record
    set_last_activity insert_request insert_run resource_contract request_row select_gate
    identifier_valid commit_sha_valid trim split_comma lookup insert metadata load_run run_row
    update_run update_runs started admit_run commit_identity advance_land_phase transition_valid
    advance_row admitted_worker_presents same_worker_process process_identity same_process
    direct_child_of finish_run cancel authoritative is_terminal
spool = tt

abbrev queued_land : RunRecord
queued_land = request_row 5 request none (("cpu", agcoord.Enqueue.admission_binding) ∷ []) 1

abbrev pub one : Spool
one = record empty { runs = queued_land ∷ []; next_sequence = 2; last_activity = 5 }

pub submit_land : submit files owner 5 request empty ≡ ok one
unfolding spool
submit_land = refl

abbrev pub two : Spool
two = record one { runs = started 6 queued_land ∷ [] }

admit_land : admit_run 6 "land-1" one ≡ ok two
unfolding spool
admit_land = refl

abbrev pub running_land : RunRecord
running_land = record (started 6 queued_land) {
  worker_pid = some 10;
  worker_start_token = some "t10";
  environment = [];
}

abbrev pub three : Spool
three = record two { runs = running_land ∷ [] }

identify_land : commit_identity 10 "t10" "land-1" two ≡ ok three
unfolding spool
identify_land = refl

pub reachable : Reachable three
reachable =
    stepped
      (stepped (stepped (created refl) (submitted files owner 5 request submit_land))
        (admitted 6 "land-1" admit_land))
      (identified 10 "t10" "land-1" identify_land)

Reachable-IsWell_example : IsWell three.runs
Reachable-IsWell_example = Reachable-IsWell reachable

abbrev pub processes : ProcessTable
processes = (10, record { state = "S"; parent = 1; group = 10; token = "t10" }) ∷ []

abbrev pub gate_passed : PhaseRequest
gate_passed = record {
  run_id = "land-1";
  worker_pid = 10;
  worker_start_token = "t10";
  checkout = "/src/repo";
  head_sha = head;
  new_head_sha = none;
  phase = publishing;
  gate_exit_status = some (pos 0);
}

abbrev pub four : Spool
four = record three {
  runs = record running_land { phase = publishing; gate_exit_status = some (pos 0) } ∷ [];
}

pub publish_land : advance_land_phase processes gate_passed three ≡ ok four
unfolding spool
publish_land = refl

pub load_land : load_run three.runs "land-1" ≡ ok running_land
unfolding spool
load_land = refl

step-Continues_example : Continues running_land (load_run four.runs "land-1")
step-Continues_example =
    step-Continues "land-1" (Reachable-IsWell reachable) load_land
      (advanced processes gate_passed publish_land)
