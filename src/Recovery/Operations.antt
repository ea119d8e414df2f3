-- ===== src/Recovery/Operations.antt =====
-- recovery.rs: `prepare`, `filter_queued` and `submit_proof`, each one transaction. An error leaves the host as it was.
use agcoord.Base.{
  ℕ, suc, String, Bool, true, false, not, ◌&&◌, ◌||◌, Option, none, some, List, [], ◌∷◌, lookup,
  leb, ◌==◌, str_eq, any, filter, length, is_some, is_text, get_or, if◌then◌else◌,
}
use agcoord.Run.{
  RunRecord, Result, ok, err, ◌>>=◌, ◌>>◌, refuse_if, load_run, is_queued, is_running, is_passed,
  is_check, host_recovery_invalid, host_recovery_settling, host_recovery_exhausted, database_error,
}
use agcoord.Spool.{Spool}
use agcoord.Maintenance.{
  MaintenanceRecord, maintenance_record, install_maintenance_guards, remove_maintenance_guards,
  live_count, set_marker,
}
use agcoord.Submit.{OwnerInfo, Files, SubmitRequest, validate_submit}
use agcoord.Enqueue.{insert_check}
use agcoord.Recovery.{
  RecoveryRecord, Host, Machine, max_attempts, recovery_record, required_recovery,
  prove_workers_gone,
}

unfoldable pub guarded_record :
    Machine → String → String → String → Option MaintenanceRecord → RecoveryRecord
guarded_record machine recovery_id probe digest original_drain = record {
  format = 2;
  recovery_id = recovery_id;
  identity = machine.identity;
  probe = probe;
  probe_sha256 = digest;
  proof_run_id = none;
  attempts = 0;
  phase = "guarded";
  incident = none;
  original_drain = original_drain;
}

-- A drain that is called drained has no live work.
unfoldable pub drain_settled : Spool → Option MaintenanceRecord → Bool
drain_settled spool none = true
drain_settled spool (some drain) = not (str_eq drain.state "drained") || live_count spool == 0

-- The arm of `prepare` for a new recovery, whose ID is drawn at random.
unfoldable pub begin_recovery : Machine → String → String → String → String → Host → Result Host
unfolding guarded_record drain_settled set_marker
begin_recovery machine recovery_id started_at probe digest host =
    maintenance_record host.spool >>= λ drain.
    refuse_if (not (drain_settled host.spool drain)) host_recovery_invalid
    >> ok (record host {
      spool =
          set_marker "recovering" recovery_id "guarded native host recovery" started_at
            (if is_some drain then host.spool else install_maintenance_guards host.spool);
      recovery = some (guarded_record machine recovery_id probe digest drain);
    })

unfoldable pub prepare : Machine → String → String → String → Host → Result Host
unfolding begin_recovery
prepare machine recovery_id started_at probe host =
    prove_workers_gone machine host.spool >> machine.probe_digest probe >>= λ digest.
    recovery_record machine host >>= prepared digest
  where
    prepared : String → Option RecoveryRecord → Result Host
    prepared digest (some value) =
        refuse_if (not (str_eq value.probe probe) || not (str_eq value.probe_sha256 digest))
          host_recovery_invalid
        >> ok host
    prepared digest none = begin_recovery machine recovery_id started_at probe digest host

-- The queued runs that may be admitted.
unfoldable pub filter_queued : Machine → Host → List RunRecord → Result (List RunRecord)
filter_queued machine host queued = recovery_record machine host >>= kept
  where
    kept : Option RecoveryRecord → Result (List RunRecord)
    kept none = ok queued
    kept (some value) =
        if str_eq value.phase "verifying"
        then (machine.probe_digest value.probe >>= λ digest.
            refuse_if (not (str_eq digest value.probe_sha256)) host_recovery_invalid
            >> ok (filter (λ (run : RunRecord). is_text value.proof_run_id run.run_id) queued))
        else ok []

-- Only the helper, on one CPU, as a check.
unfoldable pub is_proof_request : RecoveryRecord → SubmitRequest → Bool
is_proof_request value request =
    is_check request.kind
    && length request.resources == 2
    && one (lookup "cpu" request.resources)
    && one (lookup "jobs" request.resources)
    && is_probe request.command
    && not (is_some request.gate_run_id)
    && not (is_some request.publication_adapter)
    && not (is_some request.publication_request)
  where
    one : Option ℕ → Bool
    one none = false
    one (some units) = units == 1

    is_probe : List String → Bool
    is_probe (program ∷ []) = str_eq program value.probe
    is_probe _ = false

-- A proof that is queued, running or passed is not submitted again.
unfoldable pub proof_stands : RecoveryRecord → List RunRecord → Result Bool
proof_stands value runs = earlier value.proof_run_id
  where
    earlier : Option String → Result Bool
    earlier none = ok false
    earlier (some run_id) = load_run runs run_id >>= λ prior. ok (
        str_eq value.phase "verifying"
        && (is_queued prior.status || is_running prior.status || is_passed prior.status))

abbrev pub any_running : Spool → Bool
any_running spool = any (λ (run : RunRecord). is_running run.status) spool.runs

-- `runs.run_id` is the primary key.
unfoldable pub insert_proof : OwnerInfo → ℕ → SubmitRequest → Spool → Result Spool
insert_proof owner now request spool =
    refuse_if (any (λ (run : RunRecord). str_eq run.run_id request.run_id) spool.runs)
      database_error
    >> insert_check now request owner (remove_maintenance_guards spool)
    >>= λ inserted. ok (install_maintenance_guards inserted)

-- What is committed, with the answer: running out of attempts parks the recovery and is an error.
unfoldable pub submit_proof :
    Machine → Files → OwnerInfo → ℕ → String → SubmitRequest → Host → Result (Host × Result String)
unfolding is_proof_request proof_stands insert_proof
submit_proof machine files owner now recovery_id request host =
    validate_submit files owner request >> required_recovery machine recovery_id host >>= λ value.
    refuse_if (not (is_proof_request value request)) host_recovery_invalid
    >> machine.probe_digest value.probe
    >>= λ digest.
        refuse_if (not (str_eq digest value.probe_sha256)) host_recovery_invalid
        >> proof_stands value host.spool.runs
        >>= λ stands.
            if stands
            then ok (host, ok (get_or value.proof_run_id ""))
            else if leb max_attempts value.attempts
            then ok (
              record host {
                recovery =
                    some (record value {
                      phase = "parked";
                      incident = some "proof-attempts-exhausted";
                    });
              },
              err host_recovery_exhausted,
            )
            else (refuse_if (any_running host.spool) host_recovery_settling
                >> insert_proof owner now request host.spool
                >>= λ spool. ok (
                  record host {
                    spool = spool;
                    recovery = some (record value {
                      proof_run_id = some request.run_id;
                      attempts = suc value.attempts;
                      phase = "verifying";
                      incident = none;
                    });
                  },
                  ok request.run_id,
                ))
