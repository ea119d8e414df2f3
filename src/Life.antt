-- ===== src/Life.antt =====
-- The life of a run: the operations on the runs, those of a recovery apart, as steps on the spool, and
-- the moves that the steps make on single rows.
pub mod Row
pub mod Loaded
pub mod Moves
pub mod Steps
pub mod Invariant
pub mod Follows
pub mod Progress
use agcoord.Base.{
  ℕ, String, ◌≡◌, Bool, true, false, Option, none, some, List, [], ◌∷◌, ◌++◌, Map, ℤ, any, filter,
  not, ◌||◌, or_else, str_eq, All,
}
use agcoord.Run.{RunRecord, Result, ok, is_queued, is_running, is_land, is_preflight, is_terminal}
use agcoord.Process.{ProcessTable}
use agcoord.Schedule.{started}
use agcoord.Lease.{Lease}
use agcoord.Lease.Maintenance.{maintain_child_cpu_leases}
use agcoord.Spool.{Spool, update_runs}
use agcoord.Maintenance.{
  MaintenanceRecord, begin_drain, drain_status, resume, mark_maintenance_drained,
}
use agcoord.Land.{PhaseRequest, advance_land_phase, transition_valid, advance_row}
use agcoord.Gate.{
  ReuseRequest, LandResultRequest, reuse_gate, reuse_row, report_land_result, report_row,
}
use agcoord.Finish.{
  Verdict, admit_run, commit_identity, identity_row, finish_run, finish_row, final_verdict, cancel,
  cancelled_row, marked_row, authoritative, request_interruption, interruptible, stopped_row,
}
use agcoord.Submit.{OwnerInfo, Files, SubmitRequest}
use agcoord.Enqueue.{submit, request_row, clear}

-- One committed operation of the broker, a worker or a client, whatever its arguments; a verdict is
-- terminal, as each of the broker's is. The operations of a recovery are not among them.
pub data Step (s s' : Spool) : Type 0 where
  submitted :
      (files : Files) (owner : OwnerInfo) (now : ℕ) (request : SubmitRequest)
      → submit files owner now request s ≡ ok s'
      → Step s s'
  admitted : (now : ℕ) (run_id : String) → admit_run now run_id s ≡ ok s' → Step s s'
  identified :
      (pid : ℕ) (token run_id : String) → commit_identity pid token run_id s ≡ ok s' → Step s s'
  advanced :
      (processes : ProcessTable) (request : PhaseRequest)
      → advance_land_phase processes request s ≡ ok s'
      → Step s s'
  reused :
      (processes : ProcessTable) (now max_age : ℕ) (request : ReuseRequest) (source : Option String)
      → reuse_gate processes now max_age request s ≡ ok (s', source)
      → Step s s'
  reported :
      (processes : ProcessTable) (request : LandResultRequest)
      → report_land_result processes request s ≡ ok s'
      → Step s s'
  finished :
      (now : ℕ) (run : RunRecord) (verdict : Verdict)
      → is_terminal verdict.status ≡ true
      → finish_run now run verdict s ≡ ok s'
      → Step s s'
  stopped : (now : ℕ) (run_id : String) → cancel now run_id s ≡ ok s' → Step s s'
  interrupted : request_interruption s ≡ s' → Step s s'
  cleared : (removable : String → Bool) (now : ℕ) → clear removable now s ≡ ok s' → Step s s'
  drained :
      (now : ℕ) (started_at drain_id reason : String)
      → begin_drain now started_at drain_id reason s ≡ ok s'
      → Step s s'
  resumed : (owned : Bool) (drain_id : String) → resume owned drain_id s ≡ ok s' → Step s s'

-- The transaction of `start_worker` is the one step that may start a run.
unfoldable pub starts : {s s' : Spool} → Step s s' → Bool
starts (admitted now run_id h) = true
starts _ = false

-- What an operation may do to a row, with what it has found there; `b` says whether it may start a
-- run.
pub data Move (r : RunRecord) : Bool → RunRecord → Type 0 where
  admit : (now : ℕ) → is_queued r.status ≡ true → Move r true (started now r)
  identify :
      {b : Bool}
      → (pid : ℕ) (token : String) → is_running r.status ≡ true
      → Move r b (identity_row pid token r)
  advance :
      {b : Bool}
      → (request : PhaseRequest) → is_land r.kind ≡ true
      → is_running r.status ≡ true
      → r.cancel_requested ≡ false
      → transition_valid r request ≡ true
      → Move r b (advance_row request (or_else request.gate_exit_status r.gate_exit_status) r)
  reuse :
      {b : Bool}
      → (source : String) → is_land r.kind ≡ true
      → is_running r.status ≡ true
      → is_preflight r.phase ≡ true
      → r.gate_exit_status ≡ none
      → Move r b (reuse_row source r)
  report :
      {b : Bool}
      → (exit_status : ℤ) → is_land r.kind ≡ true
      → is_running r.status ≡ true
      → r.reported_exit_status ≡ none
      → Move r b (report_row exit_status r)
  finish :
      {b : Bool}
      → (now : ℕ) (verdict : Verdict) → is_running r.status ≡ true
      → is_terminal verdict.status ≡ true
      → Move r b (finish_row now (final_verdict r verdict) r)
  withdraw : {b : Bool} → (now : ℕ) → is_queued r.status ≡ true → Move r b (cancelled_row now r)
  mark : {b : Bool} → is_running r.status ≡ true → authoritative r ≡ false → Move r b (marked_row r)
  stop : {b : Bool} → interruptible r ≡ true → Move r b (stopped_row r)

-- The rows that are not matched stay, each row that is matched moves.
pub data Change (b : Bool) (runs : List RunRecord) : List RunRecord → Type 0 where
  same : Change b runs runs
  moved :
      (change : RunRecord → RunRecord) (matches : RunRecord → Bool)
      → All (λ r. matches r ≡ true → Move r b (change r)) runs
      → Change b runs (update_runs change matches runs)
  appended :
      (now : ℕ) (request : SubmitRequest) (gate_run_id : Option String)
      (contract : Map agcoord.Run.Binding) (sequence : ℕ)
      → any (λ run. str_eq run.run_id request.run_id) runs ≡ false
      → Change b runs (runs ++ request_row now request gate_run_id contract sequence ∷ [])
  history_cleared :
      any (λ run. is_queued run.status || is_running run.status) runs ≡ false
      → Change b runs (filter (λ run. not (is_terminal run.status)) runs)
