-- ===== src/Enqueue.antt =====
-- store.rs `submit` and `clear`, with resources.rs `resource_contract`. A merge names the receipt of
-- a passed full gate, or takes the newest that matches.
pub mod Receipts
use agcoord.Base.{
  ℕ, zero, suc, ◌+◌, ◌*◌, ◌-◌, ◌^◌, String, Bool, true, false, not, ◌&&◌, ◌||◌, Option, none, some,
  List, [], ◌∷◌, Map, lookup, insert, ℤ, pos, negsuc, ltb, leb, ◌==◌, str_eq, any, all, filter,
  length, codes, is_some, is_text, is_int, or_else, get_or, if◌then◌else◌,
}
use agcoord.Run.{
  RunRecord, initial_receipt, Binding, Kind, check, queued, waiting, Result, ok, err, ◌>>=◌, ◌>>◌,
  refuse_if, is_queued, is_running, is_check, is_full, is_merge, is_publication, is_passed,
  is_terminal, load_run, submission_invalid, broker_draining, run_exists, schema_invalid,
  gate_required, stale_gate_verdict, gate_mismatch, clear_live_work, clear_failed,
}
use agcoord.Text.{trim}
use agcoord.Lease.{Lease}
use agcoord.Spool.{Spool, metadata, set_last_activity, insert_run}
use agcoord.Maintenance.{maintenance_record}
use agcoord.Gate.{newest}
use agcoord.Submit.{OwnerInfo, Files, SubmitRequest, validate_submit}
use agcoord.Merge.{select_gate}

-- `Binding::admission`
abbrev pub admission_binding : Binding
admission_binding = record {
  backend = none;
  kind = "generic";
  mode = "admission-only";
  unit = "admission-unit";
  exec = false;
}

enforced_kind : String → Binding → Bool
enforced_kind kind binding = not (str_eq binding.mode "admission-only") && str_eq binding.kind kind

binding_of : Map Binding → String → Binding
binding_of bindings name = get_or (lookup name bindings) admission_binding

uses_kind : String → Map Binding → Map ℕ → Bool
unfolding enforced_kind binding_of
uses_kind kind bindings [] = false
uses_kind kind bindings ((name, units) ∷ resources) =
    enforced_kind kind (binding_of bindings name) || uses_kind kind bindings resources

bind_all : Map Binding → Map ℕ → Map Binding
unfolding binding_of
bind_all bindings [] = []
bind_all bindings ((name, units) ∷ resources) =
    insert name (binding_of bindings name) (bind_all bindings resources)

unfoldable pub resource_contract : Map ℕ → Map Binding → Result (Map Binding)
unfolding uses_kind bind_all
resource_contract resources bindings =
    refuse_if (uses_kind "storage" bindings resources && uses_kind "tmpfs" bindings resources)
      submission_invalid
    >> ok (bind_all bindings resources)

-- The row of a submission.
unfoldable pub request_row : ℕ → SubmitRequest → Option String → Map Binding → ℕ → RunRecord
request_row now request gate_run_id contract sequence = record {
  sequence = sequence;
  run_id = request.run_id;
  status = queued;
  kind = request.kind;
  phase = waiting;
  label = trim request.label;
  agent = request.agent;
  repository_id = request.repository_id;
  repository = request.repository;
  worktree_id = request.worktree_id;
  checkout = request.checkout;
  branch = request.branch;
  head_sha = request.head_sha;
  barrier = is_publication request.kind;
  resources = request.resources;
  resource_contract = contract;
  resource_receipt = initial_receipt request.resources;
  resource_state = [];
  gate_run_id = gate_run_id;
  publication_adapter = request.publication_adapter;
  publication_request = request.publication_request;
  failure_reason = none;
  gate_exit_status = none;
  reported_exit_status = none;
  caller_pid = request.caller_pid;
  command = request.command;
  environment = request.environment;
  created_at = now;
  started_at = none;
  finished_at = none;
  exit_status = none;
  worker_pid = none;
  worker_start_token = none;
  cancel_requested = false;
}

unfoldable pub insert_request : ℕ → SubmitRequest → OwnerInfo → Option String → Spool → Result Spool
insert_request now request owner gate_run_id spool =
    resource_contract request.resources owner.resource_bindings >>= λ contract.
    insert_run (request_row now request gate_run_id contract) spool

unfoldable pub insert_check : ℕ → SubmitRequest → OwnerInfo → Spool → Result Spool
insert_check now request owner spool =
    refuse_if (not (is_check request.kind)) submission_invalid
    >> insert_request now request owner none spool

unfoldable pub submit : Files → OwnerInfo → ℕ → SubmitRequest → Spool → Result Spool
submit files owner now request spool =
    validate_submit files owner request >> maintenance_record spool >>= λ marker.
    refuse_if (is_some marker) broker_draining
    >> refuse_if (any (λ run. str_eq run.run_id request.run_id) spool.runs) run_exists
    >> select_gate request spool
    >>= λ gate_run_id. insert_request now request owner gate_run_id spool >>= set_last_activity now

-- `ON DELETE CASCADE`: a lease goes with its run.
unfoldable pub cascade : List RunRecord → List Lease → List Lease
cascade runs leases =
    filter (λ lease. any (λ (run : RunRecord). str_eq run.run_id lease.run_id) runs) leases

-- `removable` says which logs can be removed; one that is not there counts as removed.
unfoldable pub clear : (String → Bool) → ℕ → Spool → Result Spool
clear removable now spool = maintenance_record spool >>= λ marker.
    refuse_if (is_some marker) broker_draining
    >> refuse_if (any (λ run. is_queued run.status || is_running run.status) spool.runs)
        clear_live_work
    >> refuse_if (any (λ run. is_terminal run.status && not (removable run.run_id)) spool.runs)
        clear_failed
    >> (let runs = filter (λ run. not (is_terminal run.status)) spool.runs in
        set_last_activity now (record spool { runs = runs; leases = cascade runs spool.leases }))
