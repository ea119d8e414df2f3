-- ===== src/Maintenance.antt =====
-- Durable draining (store.rs): the marker in the metadata with its triggers, and the operations on
-- it. `broker_pid` is the owner that holds the lock file, and `started_at` the text of `now`.
pub mod Drain
pub mod Drained
use agcoord.Base.{
  ℕ, String, Bool, true, false, not, ◌&&◌, ◌||◌, Option, none, some, List, [], ◌∷◌, Map, ltb, leb,
  ◌==◌, str_eq, any, all, filter, length, remove_key, codes, is_some, if◌then◌else◌,
}
use agcoord.Run.{
  RunRecord, Error, Result, ok, err, ◌>>=◌, ◌>>◌, refuse_if, is_queued, is_running,
  maintenance_invalid, not_draining, host_recovery_required, drain_id_invalid, drain_reason_invalid,
  drain_id_mismatch, drain_live_work, resume_owner_live,
}
use agcoord.Text.{trim, contains, empty_text, drain_id_valid, recovery_id_valid}
use agcoord.Clock.{maintenance_time_valid}
use agcoord.Spool.{Spool, metadata, set_metadata, has_guard}

pub record MaintenanceRecord : Type 0 where
  pub state : String
  pub drain_id : String
  pub reason : String
  pub started_at : String

-- `MAINTENANCE_TRIGGERS`
abbrev pub maintenance_triggers : List String
maintenance_triggers =
    "agcoord_maintenance_reject_runs" ∷ "agcoord_maintenance_reject_activity_insert"
    ∷ "agcoord_maintenance_reject_activity_update" ∷ []

abbrev pub max_reason : ℕ
max_reason = 256

abbrev pub reason_allowed : String → Bool
reason_allowed reason =
    not (empty_text reason) && leb (length (codes reason)) max_reason && not (contains reason 0)

unfoldable pub any_trigger : Spool → Bool
any_trigger spool = any (λ name. has_guard name spool) maintenance_triggers

unfoldable pub all_triggers : Spool → Bool
all_triggers spool = all (λ name. has_guard name spool) maintenance_triggers

-- The tests on the marker's four values.
unfoldable pub marker_valid : MaintenanceRecord → Bool
marker_valid record' =
    (str_eq record'.state "draining"
      || str_eq record'.state "drained"
      || str_eq record'.state "recovering")
    && (if str_eq record'.state "recovering"
        then recovery_id_valid record'.drain_id
        else drain_id_valid record'.drain_id)
    && reason_allowed record'.reason
    && maintenance_time_valid record'.started_at

unfoldable pub marked :
    Spool
    → Option String
    → Option String
    → Option String
    → Option String
    → Result (Option MaintenanceRecord)
unfolding any_trigger all_triggers
marked spool none none none none = if any_trigger spool then err maintenance_invalid else ok none
marked spool (some state) (some drain_id) (some reason) (some started_at) =
    let marker : MaintenanceRecord = record {
      state = state;
      drain_id = drain_id;
      reason = reason;
      started_at = started_at;
    } in
    if marker_valid marker && all_triggers spool then ok (some marker) else err maintenance_invalid
marked spool _ _ _ _ = err maintenance_invalid

unfoldable pub maintenance_record : Spool → Result (Option MaintenanceRecord)
unfolding marked
maintenance_record spool =
    marked spool (metadata "maintenance_state" spool) (metadata "maintenance_id" spool)
      (metadata "maintenance_reason" spool) (metadata "maintenance_started_at" spool)

unfoldable pub required : Option MaintenanceRecord → Result MaintenanceRecord
required none = err not_draining
required (some marker) = ok marker

unfoldable pub mark_maintenance_drained : Spool → Result Spool
unfolding required
mark_maintenance_drained spool = maintenance_record spool >>= required >>= λ marker.
    refuse_if (str_eq marker.state "recovering") host_recovery_required
    >> ok (
        if str_eq marker.state "drained"
        then spool
        else set_metadata "maintenance_state" "drained" spool)

unfoldable pub install_maintenance_guards : Spool → Spool
install_maintenance_guards spool = record spool { guards = maintenance_triggers }

unfoldable pub remove_maintenance_guards : Spool → Spool
remove_maintenance_guards spool = record spool { guards = [] }

unfoldable pub is_recovering : Option MaintenanceRecord → Bool
is_recovering none = false
is_recovering (some marker) = str_eq marker.state "recovering"

-- The four rows of the marker.
unfoldable pub set_marker : String → String → String → String → Spool → Spool
set_marker state drain_id reason started_at spool =
    set_metadata "maintenance_started_at" started_at (
      set_metadata "maintenance_reason" reason
        (set_metadata "maintenance_id" drain_id (set_metadata "maintenance_state" state spool)))

-- The INSERT and the marker.
unfoldable pub mark : ℕ → String → String → String → Spool → Spool
unfolding set_marker
mark now started_at drain_id reason spool =
    set_marker "draining" drain_id reason started_at
      (install_maintenance_guards (record spool { last_activity = now }))

-- `SELECT COUNT(*) FROM runs WHERE status IN ('queued', 'running')`
unfoldable pub live_count : Spool → ℕ
live_count spool = length (filter (λ run. is_queued run.status || is_running run.status) spool.runs)

unfoldable pub drain_status : Option ℕ → Spool → Result (Spool × MaintenanceRecord × ℕ)
unfolding required
drain_status broker_pid spool = maintenance_record spool >>= required >>= λ marker. ok (
    if str_eq marker.state "draining" && live_count spool == 0 && not (is_some broker_pid)
    then (
      set_metadata "maintenance_state" "drained" spool,
      record marker { state = "drained" },
      live_count spool,
    )
    else (spool, marker, live_count spool))

-- `begin_drain` up to its COMMIT, after which it reports `drain_status`.
unfoldable pub begin_drain : ℕ → String → String → String → Spool → Result Spool
unfolding is_recovering
begin_drain now started_at drain_id reason spool =
    refuse_if (not (drain_id_valid drain_id)) drain_id_invalid
    >> refuse_if (not (reason_allowed (trim reason))) drain_reason_invalid
    >> maintenance_record spool
    >>= λ current.
        refuse_if (is_recovering current) host_recovery_required
        >> ok (if is_some current then spool else mark now started_at drain_id (trim reason) spool)

-- `DELETE FROM coordinator_meta WHERE key IN (…)`
unfoldable pub remove_marker : Spool → Spool
unfolding remove_key
remove_marker spool = record spool {
  meta = remove_key "maintenance_state" (
      remove_key "maintenance_id"
        (remove_key "maintenance_reason" (remove_key "maintenance_started_at" spool.meta)));
}

-- `owned` says that another process holds the owner's lock.
unfoldable pub resume : Bool → String → Spool → Result Spool
unfolding required
resume owned drain_id spool =
    refuse_if (recovery_id_valid drain_id) host_recovery_required
    >> refuse_if (not (drain_id_valid drain_id)) drain_id_invalid
    >> refuse_if owned resume_owner_live
    >> maintenance_record spool
    >>= required
    >>= λ marker.
        refuse_if (str_eq marker.state "recovering") host_recovery_required
        >> refuse_if (not (str_eq marker.drain_id drain_id)) drain_id_mismatch
        >> refuse_if (not (live_count spool == 0)) drain_live_work
        >> ok (remove_marker (remove_maintenance_guards spool))
