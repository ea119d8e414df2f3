-- ===== src/Recovery.antt =====
-- recovery.rs: the record of a guarded host recovery, and when it is accepted. `Machine` is what the
-- broker asks of the file system and of /proc; the JSON rows of the record are values here.
pub mod Operations
pub mod Complete
pub mod Phases
pub mod Refines
pub mod Marker
use Prim.Native.String.{len}
use agcoord.Base.{
  ℕ, String, Bool, true, false, not, ◌&&◌, ◌||◌, Option, none, some, List, [], ◌∷◌, ltb, leb, ◌==◌,
  str_eq, any, all, filter, length, codes, is_some, is_text, if◌then◌else◌,
}
use agcoord.Run.{
  RunRecord, Result, ok, err, ◌>>=◌, ◌>>◌, refuse_if, is_running, host_recovery_invalid,
  host_recovery_worker_live,
}
use agcoord.Text.{empty_text, contains, hex_digit, recovery_id_valid, drain_id_valid}
use agcoord.Clock.{maintenance_time_valid}
use agcoord.Submit.{is_absolute}
use agcoord.Spool.{Spool}
use agcoord.Maintenance.{MaintenanceRecord, maintenance_record, is_recovering}

-- The fields of the JSON record; `original_drain` is `null` or the drain's four fields.
pub record RecoveryRecord : Type 0 where
  pub format : ℕ
  pub recovery_id : String
  pub identity : String
  pub probe : String
  pub probe_sha256 : String
  pub proof_run_id : Option String
  pub attempts : ℕ
  pub phase : String
  pub incident : Option String
  pub original_drain : Option MaintenanceRecord

pub record Completion : Type 0 where
  pub state : String
  pub recovery_id : String
  pub proof_run_id : Option String
  pub drain_id : Option String

-- The record of a recovery that has completed, with its `completion`.
pub record Completed : Type 0 where
  pub value : RecoveryRecord
  pub completion : Completion

-- The database with the rows `host_recovery` and `host_recovery_last` of its metadata.
pub record Host : Type 0 where
  pub spool : Spool
  pub recovery : Option RecoveryRecord
  pub last : Option Completed

-- `process_fields` gives the state and the group of a process, `entries` are the process
-- directories of /proc, and `prove_cgroup_empty` asks the cgroup backend about a run's own leaf.
pub record Machine : Type 0 where
  pub identity : String
  pub probe_digest : String → Result String
  pub process_fields : ℕ → Result (Option (String × ℕ))
  pub entries : List ℕ
  pub prove_cgroup_empty : RunRecord → Result (Unit {0})

abbrev pub max_attempts : ℕ
max_attempts = 3

unfoldable pub original_drain_valid : Option MaintenanceRecord → Bool
original_drain_valid none = true
original_drain_valid (some drain) =
    (str_eq drain.state "draining" || str_eq drain.state "drained")
    && drain_id_valid drain.drain_id
    && (not (empty_text drain.reason)
        && leb (length (codes drain.reason)) 256
        && not (contains drain.reason 0))
    && maintenance_time_valid drain.started_at

abbrev filled : Option String → Bool
filled none = true
filled (some text) = not (empty_text text)

-- An incident has 1 to 256 bytes.
abbrev pub incident_valid : Option String → Bool
incident_valid none = true
incident_valid (some text) = not (empty_text text) && leb (len text) 256

unfoldable pub active_phase : String → Bool
active_phase phase = str_eq phase "guarded" || str_eq phase "verifying" || str_eq phase "parked"

unfoldable pub record_valid : Machine → RecoveryRecord → Bool → Bool
unfolding original_drain_valid active_phase
record_valid machine value completed =
    value.format == 2
    && recovery_id_valid value.recovery_id
    && str_eq value.identity machine.identity
    && is_absolute (codes value.probe)
    && (length (codes value.probe_sha256) == 64 && all hex_digit (codes value.probe_sha256))
    && filled value.proof_run_id
    && leb value.attempts max_attempts
    && (if completed then str_eq value.phase "complete" else active_phase value.phase)
    && incident_valid value.incident
    && original_drain_valid value.original_drain

-- Two optional texts are the same.
abbrev pub same_text : Option String → Option String → Bool
same_text none none = true
same_text (some a) (some b) = str_eq a b
same_text _ _ = false

-- The completion against the drain that was kept.
unfoldable pub completion_fits : Option MaintenanceRecord → Completion → Bool
completion_fits none completion =
    str_eq completion.state "open" && not (is_some completion.drain_id)
completion_fits (some drain) completion =
    (str_eq completion.state "draining" || str_eq completion.state "drained")
    && is_text completion.drain_id drain.drain_id

-- `validate_record(value, false)`
unfoldable pub validate_record : Machine → RecoveryRecord → Result (Unit {0})
validate_record machine value =
    refuse_if (not (record_valid machine value false)) host_recovery_invalid

-- `validate_record(value, true)`
unfoldable pub validate_completed : Machine → Completed → Result (Unit {0})
unfolding completion_fits
validate_completed machine last =
    refuse_if (not (record_valid machine last.value true)) host_recovery_invalid
    >> refuse_if
        (not (
          str_eq last.completion.recovery_id last.value.recovery_id
          && same_text last.completion.proof_run_id last.value.proof_run_id
          && completion_fits last.value.original_drain last.completion))
        host_recovery_invalid

abbrev marker_id : Option MaintenanceRecord → String
marker_id none = ""
marker_id (some marker) = marker.drain_id

unfoldable pub recovery_record : Machine → Host → Result (Option RecoveryRecord)
unfolding validate_record is_recovering
recovery_record machine host =
    maintenance_record host.spool >>= λ maintenance. accepted maintenance host.recovery
  where
    accepted : Option MaintenanceRecord → Option RecoveryRecord → Result (Option RecoveryRecord)
    accepted maintenance none =
        if is_recovering maintenance then err host_recovery_invalid else ok none
    accepted maintenance (some value) =
        validate_record machine value
        >> refuse_if
            (not (is_recovering maintenance)
              || not (str_eq value.recovery_id (marker_id maintenance)))
            host_recovery_invalid
        >> ok (some value)

abbrev or_refuse {ℓ} : {A : Type ℓ} → Option A → Result A
or_refuse none = err host_recovery_invalid
or_refuse (some a) = ok a

unfoldable pub required_recovery : Machine → String → Host → Result RecoveryRecord
required_recovery machine recovery_id host = recovery_record machine host >>= or_refuse >>= λ value.
    refuse_if (not (str_eq value.recovery_id recovery_id)) host_recovery_invalid >> ok value

-- `!matches!(state, "Z" | "X")`
unfoldable pub is_present : Option (String × ℕ) → Bool
is_present none = false
is_present (some (state, group)) = not (str_eq state "Z" || str_eq state "X")

abbrev in_groups : List ℕ → Option (String × ℕ) → Bool
in_groups groups none = false
in_groups groups (some (state, group)) = any (λ pid. pid == group) groups

-- The first loop: each running row has a worker that is gone. It gives the workers' PIDs.
unfoldable pub workers_gone : Machine → List RunRecord → Result (List ℕ)
unfolding is_present
workers_gone machine [] = ok []
workers_gone machine (run ∷ runs) = worker run.worker_pid >>= λ pid.
    refuse_if (not (named run.worker_start_token)) host_recovery_invalid
    >> machine.process_fields pid
    >>= λ fields.
        refuse_if (is_present fields) host_recovery_worker_live
        >> workers_gone machine runs
        >>= λ groups. ok (pid ∷ groups)
  where
    worker : Option ℕ → Result ℕ
    worker none = err host_recovery_invalid
    worker (some pid) = if pid == 0 then err host_recovery_invalid else ok pid

    named : Option String → Bool
    named none = false
    named (some token) = not (empty_text token)

-- The second loop: no process of those groups is left.
unfoldable pub groups_gone : Machine → List ℕ → List ℕ → Result (Unit {0})
groups_gone machine groups [] = ok tt
groups_gone machine groups (pid ∷ entries) = machine.process_fields pid >>= λ fields.
    refuse_if (in_groups groups fields && is_present fields) host_recovery_worker_live
    >> groups_gone machine groups entries

unfoldable pub cgroups_empty : Machine → List RunRecord → Result (Unit {0})
cgroups_empty machine [] = ok tt
cgroups_empty machine (run ∷ runs) = machine.prove_cgroup_empty run >> cgroups_empty machine runs

abbrev no_groups : List ℕ → Bool
no_groups [] = true
no_groups _ = false

unfoldable pub prove_workers_gone : Machine → Spool → Result (Unit {0})
unfolding workers_gone groups_gone cgroups_empty
prove_workers_gone machine spool =
    let live = filter (λ (run : RunRecord). is_running run.status) spool.runs in
    workers_gone machine live >>= λ groups.
    (if no_groups groups then ok tt else groups_gone machine groups machine.entries)
    >> cgroups_empty machine live
