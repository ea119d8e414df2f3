-- ===== src/Recovery/Complete.antt =====
-- recovery.rs `complete` and `park`, each one transaction: how a recovery ends.
use Prim.Native.String.{len}
use agcoord.Base.{
  ℕ, String, Bool, true, false, not, ◌&&◌, ◌||◌, Option, none, some, pos, lookup, leb, ◌==◌, str_eq,
  is_some, is_text, is_int, if◌then◌else◌,
}
use agcoord.Run.{
  RunRecord, Result, ok, ◌>>=◌, ◌>>◌, refuse_if, load_run, cancelled, complete as complete_phase,
  host_recovery_parked, is_queued, is_running, is_passed, host_recovery_invalid,
  host_recovery_proof_failed,
}
use agcoord.Text.{empty_text, contains}
use agcoord.Spool.{Spool, update_runs}
use agcoord.Maintenance.{
  MaintenanceRecord, remove_maintenance_guards, remove_marker, live_count, set_marker,
}
use agcoord.Recovery.{
  RecoveryRecord, Completion, Host, Machine, recovery_record, required_recovery, validate_completed,
  or_refuse,
}
use agcoord.Recovery.Operations.{any_running}

unfoldable pub cpu_at_least_one : Option ℕ → Bool
cpu_at_least_one none = false
cpu_at_least_one (some units) = leb 1 units

unfoldable pub is_one : Option ℕ → Bool
is_one none = false
is_one (some units) = units == 1

-- A passed run whose receipt shows one CPU enforced and used.
unfoldable pub proves : RunRecord → Bool
unfolding cpu_at_least_one is_one
proves proof =
    is_passed proof.status
    && is_int proof.exit_status (pos 0)
    && is_one (lookup "cpu" proof.resource_receipt.requested)
    && is_one (lookup "cpu" proof.resource_receipt.applied)
    && cpu_at_least_one (lookup "cpu" proof.resource_receipt.peak)

-- The marker after a recovery: none, or that of the drain that it interrupted.
unfoldable pub restore_marker : Option MaintenanceRecord → Spool → Spool
unfolding set_marker
restore_marker none spool = remove_marker (remove_maintenance_guards spool)
restore_marker (some drain) spool =
    set_marker (if live_count spool == 0 then "drained" else "draining") drain.drain_id drain.reason
      drain.started_at spool

unfoldable pub completion_of : RecoveryRecord → String → Spool → Completion
completion_of value proof_id spool = record {
  state = left value.original_drain;
  recovery_id = value.recovery_id;
  proof_run_id = some proof_id;
  drain_id = drain_of value.original_drain;
}
  where
    left : Option MaintenanceRecord → String
    left none = "open"
    left (some drain) = if live_count spool == 0 then "drained" else "draining"

    drain_of : Option MaintenanceRecord → Option String
    drain_of none = none
    drain_of (some drain) = some drain.drain_id

-- The answer for a recovery that has completed before.
unfoldable pub completed_before : Machine → String → Host → Result (Host × Completion)
unfolding proves
completed_before machine recovery_id host = or_refuse host.last >>= λ last.
    validate_completed machine last
    >> refuse_if (not (str_eq last.value.recovery_id recovery_id)) host_recovery_invalid
    >> or_refuse last.value.proof_run_id
    >>= λ proof_id. load_run host.spool.runs proof_id >>= λ proof.
        refuse_if (not (proves proof)) host_recovery_invalid >> ok (host, last.completion)

-- `owner` is what `owner_info` answers.
unfoldable pub finish_recovery :
    Machine → Result (Unit {0}) → String → Host → Result (Host × Completion)
unfolding proves restore_marker completion_of
finish_recovery machine owner recovery_id host =
    owner >> required_recovery machine recovery_id host >>= λ value.
    or_refuse value.proof_run_id >>= λ proof_id. load_run host.spool.runs proof_id >>= λ proof.
    refuse_if (not (str_eq value.phase "verifying") || not (proves proof))
      host_recovery_proof_failed
    >> machine.probe_digest value.probe
    >>= λ digest.
        refuse_if (not (str_eq digest value.probe_sha256) || any_running host.spool)
          host_recovery_proof_failed
        >> (let completion = completion_of value proof.run_id host.spool in
            ok (
              record {
                spool = restore_marker value.original_drain host.spool;
                recovery = none;
                last = some (record {
                  value = record value { phase = "complete" };
                  completion = completion;
                });
              },
              completion,
            ))

unfoldable pub complete : Machine → Result (Unit {0}) → String → Host → Result (Host × Completion)
unfolding completed_before finish_recovery
complete machine owner recovery_id host = recovery_record machine host >>= λ value.
    if is_some value
    then finish_recovery machine owner recovery_id host
    else completed_before machine recovery_id host

-- The two UPDATEs of `park`: a running proof is asked to stop, a queued one is cancelled.
unfoldable pub parked_run : ℕ → RunRecord → RunRecord
parked_run now run =
    if is_running run.status
    then record run { cancel_requested = true }
    else if is_queued run.status
    then record run {
      status = cancelled;
      phase = complete_phase;
      exit_status = some (pos 130);
      finished_at = some now;
      failure_reason = some host_recovery_parked;
    }
    else run

unfoldable pub park : Machine → ℕ → String → String → Host → Result Host
unfolding parked_run
park machine now recovery_id reason host =
    refuse_if (empty_text reason || not (leb (len reason) 256) || contains reason 0)
      host_recovery_invalid
    >> required_recovery machine recovery_id host
    >>= λ value. ok (record host {
      spool = record host.spool {
        runs =
            update_runs (parked_run now)
              (λ (run : RunRecord). is_text value.proof_run_id run.run_id) host.spool.runs;
      };
      recovery = some (record value { phase = "parked"; incident = some reason });
    })
