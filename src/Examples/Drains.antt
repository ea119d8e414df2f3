-- ===== src/Examples/Drains.antt =====
-- A drain of an idle broker, and its end.
use agcoord.Maintenance.{drain_status}
use agcoord.Maintenance.Drained.{Reported, drain_status-maintenance_record}
use agcoord.Base.{
  remove_key, ℕ, Option, String, ◌≡◌, ◌⊎◌, refl, true, false, none, some, [], lookup, insert,
}
use agcoord.Run.{ok, err, broker_draining}
use agcoord.Text.{drain_id_valid, recovery_id_valid, trim}
use agcoord.Clock.{maintenance_time_valid, leap_year, days_of}
use agcoord.Spool.{Spool, insert_run, set_metadata}
use agcoord.Maintenance.{
  MaintenanceRecord, maintenance_record, mark, marked, marker_valid, begin_drain, is_recovering,
  live_count, remove_marker, remove_maintenance_guards, install_maintenance_guards, resume,
  required, any_trigger, all_triggers,
}
use agcoord.Maintenance.Drain.{
  marker_of, begin_drain-maintenance_record, begin_drain-submit, resume-maintenance_record,
}
use agcoord.Submit.{validate_submit}
use agcoord.Enqueue.{submit, request_row}
use agcoord.Examples.Lives.{spool, empty, files, owner, request}

abbrev pub drain_id : String
drain_id = "drain-0123456789ab"

-- What a test of a drain computes with.
unfoldable pub drains : Unit {0}
unfolding spool begin_drain mark set_metadata install_maintenance_guards is_recovering
    drain_id_valid recovery_id_valid maintenance_time_valid resume required live_count remove_key
    remove_marker remove_maintenance_guards insert lookup maintenance_record marked marker_valid
    any_trigger all_triggers trim days_of leap_year
drains = tt

leap_day : maintenance_time_valid "2024-02-29T23:59:59.5Z" ≡ true
unfolding drains
leap_day = refl

no_leap_day : maintenance_time_valid "2023-02-29T23:59:59+00:00" ≡ false
unfolding drains
no_leap_day = refl

good_time : maintenance_time_valid "2026-01-02T03:04:05.678Z" ≡ true
unfolding drains
good_time = refl

abbrev pub draining : Spool
draining = mark 3 "2026-01-02T03:04:05.678Z" drain_id "upgrade" empty

begin : begin_drain 3 "2026-01-02T03:04:05.678Z" drain_id " upgrade " empty ≡ ok draining
unfolding drains
begin = refl

begin_drain-maintenance_record_example :
    (marker : MaintenanceRecord) × (maintenance_record draining ≡ ok (some marker))
    × ((maintenance_record empty ≡ ok (some marker))
        ⊎ ((maintenance_record empty ≡ ok none)
            × (marker
                ≡ marker_of "draining" "2026-01-02T03:04:05.678Z" drain_id (trim " upgrade "))))
begin_drain-maintenance_record_example =
    begin_drain-maintenance_record 3 "2026-01-02T03:04:05.678Z" drain_id " upgrade " empty good_time
      begin

pub valid_request : validate_submit files owner request ≡ ok tt
unfolding drains
valid_request = refl

begin_drain-submit_example :
    (submit files owner 4 request draining ≡ err broker_draining)
    × (insert_run (request_row 4 request none []) draining ≡ err broker_draining)
begin_drain-submit_example =
    begin_drain-submit 3 "2026-01-02T03:04:05.678Z" drain_id " upgrade " empty files owner request 4
      (request_row 4 request none []) good_time begin valid_request

abbrev reopened : Spool
reopened = record empty { last_activity = 3 }

resume_drain : resume false drain_id draining ≡ ok reopened
unfolding drains
resume_drain = refl

resume-maintenance_record_example :
    (marker : MaintenanceRecord) × (maintenance_record draining ≡ ok (some marker))
    × (marker.drain_id ≡ drain_id)
    × (false ≡ false)
    × (live_count draining ≡ 0)
    × (maintenance_record reopened ≡ ok none)
resume-maintenance_record_example = resume-maintenance_record false drain_id draining resume_drain

abbrev drained : Spool
drained = set_metadata "maintenance_state" "drained" draining

abbrev no_owner : Option ℕ
no_owner = none

abbrev drained_marker : MaintenanceRecord
drained_marker = marker_of "drained" "2026-01-02T03:04:05.678Z" drain_id "upgrade"

status_of_drain : drain_status no_owner draining ≡ ok (drained, drained_marker, 0)
unfolding drains drain_status
status_of_drain = refl

drain_status-maintenance_record_example :
    (maintenance_record drained ≡ ok (some drained_marker))
    × (0 ≡ live_count draining)
    × ((found : MaintenanceRecord) × (maintenance_record draining ≡ ok (some found))
        × Reported no_owner draining drained found drained_marker)
drain_status-maintenance_record_example =
    drain_status-maintenance_record no_owner draining status_of_drain
