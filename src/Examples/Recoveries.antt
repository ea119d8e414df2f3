-- ===== src/Examples/Recoveries.antt =====
-- A guarded recovery of a host that was draining: its preparation, its proof and its end.
use agcoord.Base.{String, ◌≡◌, refl, false, none, some, [], ◌∷◌, Memᴰ, lookup, pos}
use agcoord.Run.{RunRecord, ok, passed, load_run, run_row, complete as complete_phase}
use agcoord.Text.{hex_digit}
use agcoord.Submit.{is_absolute}
use agcoord.Spool.{Spool}
use agcoord.Maintenance.{MaintenanceRecord, maintenance_record, set_marker}
use agcoord.Maintenance.Drain.{marker_of}
use agcoord.Recovery.{
  RecoveryRecord, Host, Machine, record_valid, validate_record, original_drain_valid,
  recovery_record, required_recovery, prove_workers_gone,
}
use agcoord.Recovery.Operations.{
  prepare, begin_recovery, guarded_record, drain_settled, filter_queued, any_running,
}
use agcoord.Recovery.Complete.{
  complete, finish_recovery, restore_marker, completion_of, proves, cpu_at_least_one, is_one,
}
use agcoord.Recovery.Phases.{Advance, stage_of, HostStep, prepared}
use agcoord.Recovery.Refines.{step-Advance, start, next, IsBounded, Trace-IsBounded}
use agcoord.Recovery.Marker.{IsProof, restored, complete-maintenance_record, filter_queued-proof}
use agcoord.Examples.Schedules.{job}
use agcoord.Examples.Drains.{draining, drain_id, drains}

abbrev digest : String
digest = "0123456789abcdef0123456789abcdef0123456789abcdef0123456789abcdef"

abbrev machine : Machine
machine = record {
  identity = "agcoord";
  probe_digest = λ path. ok digest;
  process_fields = λ pid. ok none;
  entries = [];
  prove_cgroup_empty = λ run. ok tt;
}

abbrev recovery_id : String
recovery_id = "recovery-0123456789ab"

abbrev started_at : String
started_at = "2026-01-03T00:00:00Z"

abbrev before : Host
before = record { spool = draining; recovery = none; last = none }

abbrev drain : MaintenanceRecord
drain = marker_of "draining" "2026-01-02T03:04:05.678Z" drain_id "upgrade"

abbrev guarded_value : RecoveryRecord
guarded_value = guarded_record machine recovery_id "/usr/lib/probe" digest (some drain)

abbrev guarded_host : Host
guarded_host = record {
  spool = set_marker "recovering" recovery_id "guarded native host recovery" started_at draining;
  recovery = some guarded_value;
  last = none;
}

-- What a test of a recovery computes with.
recoveries : Unit {0}
unfolding drains prepare begin_recovery guarded_record drain_settled filter_queued complete
    finish_recovery restore_marker completion_of proves cpu_at_least_one is_one record_valid
    validate_record original_drain_valid recovery_record required_recovery prove_workers_gone
    set_marker hex_digit is_absolute load_run run_row lookup
recoveries = tt

prepare_draining : prepare machine recovery_id started_at "/usr/lib/probe" before ≡ ok guarded_host
unfolding recoveries
prepare_draining = refl

first_step : HostStep machine before guarded_host
first_step = prepared recovery_id started_at "/usr/lib/probe" prepare_draining

step-Advance_example : Advance (stage_of before.recovery) (stage_of guarded_host.recovery)
step-Advance_example = step-Advance machine first_step

Trace-IsBounded_example : IsBounded (stage_of guarded_host.recovery)
Trace-IsBounded_example = Trace-IsBounded machine (next start first_step) refl

abbrev proof : RunRecord
proof =
    let run : RunRecord = job 1 "proof-1" "a" "w1" 1 in
    record run {
      status = passed;
      phase = complete_phase;
      exit_status = some (pos 0);
      resource_receipt = record {
        requested = ("cpu", 1) ∷ ("jobs", 1) ∷ [];
        applied = ("cpu", 1) ∷ [];
        peak = ("cpu", 1) ∷ [];
        events = [];
      };
    }

abbrev proved_value : RecoveryRecord
proved_value = record guarded_value {
  proof_run_id = some "proof-1";
  attempts = 1;
  phase = "verifying";
}

abbrev proved_spool : Spool
proved_spool = record guarded_host.spool { runs = proof ∷ [] }

abbrev proved_host : Host
proved_host = record { spool = proved_spool; recovery = some proved_value; last = none }

abbrev ended : Host
ended = record {
  spool = restore_marker (some drain) proved_spool;
  recovery = none;
  last = some (record {
    value = record proved_value { phase = "complete" };
    completion = completion_of proved_value "proof-1" proved_spool;
  });
}

complete_proved :
    complete machine (ok tt) recovery_id proved_host
    ≡ ok (ended, completion_of proved_value "proof-1" proved_spool)
unfolding recoveries
complete_proved = refl

complete-maintenance_record_example :
    (run : RunRecord) × (proof_id : String) × (proved_value.proof_run_id ≡ some proof_id)
    × (load_run proved_host.spool.runs proof_id ≡ ok run)
    × IsProof run
    × (proved_value.phase ≡ "verifying")
    × (any_running proved_host.spool ≡ false)
    × (ended.recovery ≡ none)
    × (maintenance_record ended.spool ≡ ok (restored proved_host.spool proved_value.original_drain))
complete-maintenance_record_example =
    complete-maintenance_record machine (ok tt) recovery_id proved_host proved_value
      (completion_of proved_value "proof-1" proved_spool) refl complete_proved

abbrev waiting_proof : RunRecord
waiting_proof = job 1 "proof-1" "a" "w1" 1

abbrev other_run : RunRecord
other_run = job 2 "check-2" "b" "w2" 1

kept_proof :
    filter_queued machine proved_host (other_run ∷ waiting_proof ∷ []) ≡ ok (waiting_proof ∷ [])
unfolding recoveries
kept_proof = refl

filter_queued-proof_example :
    Memᴰ waiting_proof (other_run ∷ waiting_proof ∷ [])
    × (proved_value.phase ≡ "verifying")
    × (proved_value.proof_run_id ≡ some waiting_proof.run_id)
filter_queued-proof_example =
    filter_queued-proof machine proved_host proved_value (other_run ∷ waiting_proof ∷ [])
      waiting_proof refl kept_proof (Memᴰ.head refl)
