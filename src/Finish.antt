-- ===== src/Finish.antt =====
-- How a run starts and ends: broker.rs `start_worker`'s transactions, the verdict of `observe`, and
-- `finish_run`; the requests to stop, store.rs `cancel` and broker.rs `request_interruption`; and
-- store.rs `clear`.
pub mod Authority
pub mod Verdicts
pub mod Options
use agcoord.Base.{
  ℕ, ◌+◌, String, Bool, true, false, not, ◌&&◌, ◌||◌, Option, none, some, List, [], ◌∷◌, ℤ, pos,
  negsuc, ◌==◌, str_eq, any, filter, length, is_some, is_int, get_or, if◌then◌else◌,
}
use agcoord.Run.{
  RunRecord, Event, Status, passed, failed, cancelled, interrupted, complete, Result, ok, err,
  ◌>>=◌, ◌>>◌, refuse_if, FailureReason, broker_stopped, gate_failed, stale_main, head_changed,
  pr_not_ready, publish_failed, avoided_commit, merge_error, memory_oom, worker_result_lost,
  is_queued, is_running, is_terminal, is_land, is_merge, is_publication, is_gating, is_publishing,
  is_broker_stopped, load_run, run_terminal, publication_authoritative, worker_identity_mismatch,
  broker_draining, clear_live_work,
}
use agcoord.Schedule.{started}
use agcoord.Lease.{Lease}
use agcoord.Spool.{Spool, update_runs, update_run, set_last_activity}

-- The terminal status, exit status and failure reason of a run.
pub record Verdict : Type 0 where
  pub status : Status
  pub exit_status : ℤ
  pub failure_reason : Option FailureReason

-- The first transaction of `start_worker`: a row that is no longer queued is left.
unfoldable pub admit_run : ℕ → String → Spool → Result Spool
admit_run now run_id spool = load_run spool.runs run_id >>= λ current. ok (
    if is_queued current.status
    then record spool {
      runs =
          update_runs (started now) (λ run. str_eq run.run_id run_id && is_queued run.status)
            spool.runs;
    }
    else spool)

abbrev pub identity_row : ℕ → String → RunRecord → RunRecord
identity_row pid token run = record run {
  worker_pid = some pid;
  worker_start_token = some token;
  environment = [];
}

-- `identity_commit`
unfoldable pub commit_identity : ℕ → String → String → Spool → Result Spool
commit_identity pid token run_id spool = load_run spool.runs run_id >>= λ refreshed.
    refuse_if (not (is_running refreshed.status) || is_some refreshed.worker_pid)
      worker_identity_mismatch
    >> ok (update_run (identity_row pid token) run_id spool)

exit_reason : ℤ → FailureReason
exit_reason (negsuc n) = merge_error
exit_reason (pos n) =
    if n == 75
    then stale_main
    else if n == 76
    then head_changed
    else if n == 77
    then pr_not_ready
    else if n == 78
    then publish_failed
    else if n == 80
    then avoided_commit
    else merge_error

unfoldable pub publication_failure_reason : RunRecord → ℤ → Option FailureReason
unfolding exit_reason
publication_failure_reason run exit_status =
    if not (is_publication run.kind)
    then none
    else if is_land run.kind && is_gating run.phase && is_some run.gate_exit_status
    then some gate_failed
    else some (exit_reason exit_status)

unfoldable pub has_resource_observation : RunRecord → String → Bool
has_resource_observation run code =
    any (λ (event : Event). str_eq event.code code) run.resource_receipt.events

unfoldable pub requested_stop_outcome : RunRecord → Verdict
requested_stop_outcome run =
    if is_broker_stopped run.failure_reason
    then record {
      status = interrupted;
      exit_status = pos 125;
      failure_reason = some broker_stopped;
    }
    else record { status = cancelled; exit_status = pos 130; failure_reason = none }

-- `observe`, where the broker's own child has exited.
unfoldable pub child_outcome : RunRecord → ℤ → Verdict
child_outcome run exit_status =
    let observed_exit =
      (if is_land run.kind then get_or run.reported_exit_status exit_status else exit_status) in
    if run.cancel_requested
    then requested_stop_outcome run
    else if is_int (some observed_exit) (pos 0)
    then record { status = passed; exit_status = pos 0; failure_reason = none }
    else if has_resource_observation run "memory-oom"
    then record { status = failed; exit_status = observed_exit; failure_reason = some memory_oom }
    else record {
      status = failed;
      exit_status = observed_exit;
      failure_reason = publication_failure_reason run observed_exit;
    }

unfoldable pub reported_outcome : RunRecord → Option ℤ → Verdict
unfolding publication_failure_reason
reported_outcome run none = record {
  status = interrupted;
  exit_status = pos 125;
  failure_reason = some worker_result_lost;
}
reported_outcome run (some exit_status) =
    if is_int (some exit_status) (pos 0)
    then record { status = passed; exit_status = pos 0; failure_reason = none }
    else record {
      status = failed;
      exit_status = exit_status;
      failure_reason = publication_failure_reason run exit_status;
    }

-- `observe`, where a run has no child of this broker and its worker is gone.
unfoldable pub lost_outcome : RunRecord → Verdict
unfolding reported_outcome
lost_outcome run =
    if run.cancel_requested
    then requested_stop_outcome run
    else reported_outcome run (if is_land run.kind then run.reported_exit_status else none)

same_pid : Option ℕ → Option ℕ → Bool
same_pid none none = true
same_pid (some a) (some b) = a == b
same_pid _ _ = false

same_token : Option String → Option String → Bool
same_token none none = true
same_token (some a) (some b) = str_eq a b
same_token _ _ = false

abbrev pub finish_row : ℕ → Verdict → RunRecord → RunRecord
finish_row now verdict run = record run {
  status = verdict.status;
  phase = complete;
  finished_at = some now;
  exit_status = some verdict.exit_status;
  failure_reason = verdict.failure_reason;
  environment = [];
}

-- What `finish_run` decides on the row that it finds.
unfoldable pub final_verdict : RunRecord → Verdict → Verdict
final_verdict current verdict =
    if current.cancel_requested then requested_stop_outcome current else verdict

unfoldable pub finish_run : ℕ → RunRecord → Verdict → Spool → Result Spool
unfolding same_pid same_token final_verdict
finish_run now run verdict spool = load_run spool.runs run.run_id >>= λ current.
    refuse_if
      (not (is_running current.status)
        || not (same_pid current.worker_pid run.worker_pid)
        || not (same_token current.worker_start_token run.worker_start_token))
      worker_identity_mismatch
    >> ok (update_run (finish_row now (final_verdict current verdict)) run.run_id spool)

-- Where a stop may no longer be asked of a running row.
unfoldable pub authoritative : RunRecord → Bool
authoritative run = is_merge run.kind || is_land run.kind && is_publishing run.phase

abbrev pub cancelled_row : ℕ → RunRecord → RunRecord
cancelled_row now run = record run {
  status = cancelled;
  phase = complete;
  finished_at = some now;
  exit_status = some (pos 130);
  cancel_requested = true;
  environment = [];
}

abbrev pub marked_row : RunRecord → RunRecord
marked_row run = record run { cancel_requested = true }

unfoldable pub cancel : ℕ → String → Spool → Result Spool
cancel now run_id spool = load_run spool.runs run_id >>= λ run.
    refuse_if (is_terminal run.status) run_terminal
    >> refuse_if (is_running run.status && authoritative run) publication_authoritative
    >> ok (
        if is_queued run.status
        then update_run (cancelled_row now) run_id spool
        else update_run marked_row run_id spool)

abbrev pub stopped_row : RunRecord → RunRecord
stopped_row run = record run { cancel_requested = true; failure_reason = some broker_stopped }

-- The WHERE clause of `request_interruption`.
unfoldable pub interruptible : RunRecord → Bool
interruptible run =
    is_running run.status
    && not run.cancel_requested
    && not (is_merge run.kind)
    && not (is_land run.kind && is_publishing run.phase)

unfoldable pub request_interruption : Spool → Spool
request_interruption spool = record spool {
  runs = update_runs stopped_row interruptible spool.runs;
}
