-- ===== src/Maintenance/Drain.antt =====
-- The marker of a drain, from `begin_drain` to `resume`.
use agcoord.Base.{
  ℕ, String, ◌≡◌, ◌⊎◌, inl, inr, refl, Bool, true, false, Option, none, some, lookup-insert,
  lookup-remove_key, str_eq, eq_iff, arith,
}
use agcoord.Run.{RunRecord, ok, err, broker_draining}
use agcoord.Text.{trim, drain_id_valid}
use agcoord.Clock.{maintenance_time_valid}
use agcoord.Spool.{Spool, metadata, set_metadata, insert_run, refuses_runs}
use agcoord.Maintenance.{
  MaintenanceRecord, reason_allowed, any_trigger, all_triggers, marker_valid, marked,
  maintenance_record, required, install_maintenance_guards, remove_maintenance_guards,
  is_recovering, set_marker, mark, live_count, begin_drain, remove_marker, resume,
}
use agcoord.Submit.{OwnerInfo, Files, SubmitRequest, validate_submit}
use agcoord.Enqueue.{submit}
use agcoord.Life.Loaded.{Result-cases}

abbrev pub marker_of : String → String → String → String → MaintenanceRecord
marker_of state started_at drain_id reason = record {
  state = state;
  drain_id = drain_id;
  reason = reason;
  started_at = started_at;
}

-- What the four rows say once they are set.
pub set_marker-maintenance_record :
    (state drain_id reason started_at : String) (s : Spool)
    → marker_valid (marker_of state started_at drain_id reason) ≡ true
    → all_triggers s ≡ true
    → maintenance_record (set_marker state drain_id reason started_at s)
      ≡ ok (some (marker_of state started_at drain_id reason))
unfolding maintenance_record marked set_marker set_metadata metadata all_triggers
set_marker-maintenance_record state drain_id reason started_at s v t =
    rw
      (
        lookup-insert "maintenance_started_at" "maintenance_state" started_at _,
        lookup-insert "maintenance_reason" "maintenance_state" reason _,
        lookup-insert "maintenance_id" "maintenance_state" drain_id _,
        lookup-insert "maintenance_state" "maintenance_state" state s.meta,
        lookup-insert "maintenance_started_at" "maintenance_id" started_at _,
        lookup-insert "maintenance_reason" "maintenance_id" reason _,
        lookup-insert "maintenance_id" "maintenance_id" drain_id _,
        lookup-insert "maintenance_started_at" "maintenance_reason" started_at _,
        lookup-insert "maintenance_reason" "maintenance_reason" reason _,
        lookup-insert "maintenance_started_at" "maintenance_started_at" started_at _,
      )
      (ground (arith, v, t))

mark-maintenance_record :
    (now : ℕ) (started_at drain_id reason : String) (s : Spool)
    → drain_id_valid drain_id ≡ true
    → reason_allowed reason ≡ true
    → maintenance_time_valid started_at ≡ true
    → maintenance_record (mark now started_at drain_id reason s)
      ≡ ok (some (marker_of "draining" started_at drain_id reason))
unfolding mark install_maintenance_guards all_triggers marker_valid
mark-maintenance_record now started_at drain_id reason s d r t =
    set_marker-maintenance_record "draining" drain_id reason started_at
      (install_maintenance_guards (record s { last_activity = now })) (ground (arith, d, r, t)) refl

-- If `begin_drain` succeeds at a well-formed time there is a marker: the one that was there, or a
-- new one with the given ID and the trimmed reason.
pub begin_drain-maintenance_record :
    (now : ℕ) (started_at drain_id reason : String) (s : Spool) {s' : Spool}
    → maintenance_time_valid started_at ≡ true
    → begin_drain now started_at drain_id reason s ≡ ok s'
    → (marker : MaintenanceRecord) × (maintenance_record s' ≡ ok (some marker))
      × ((maintenance_record s ≡ ok (some marker))
          ⊎ ((maintenance_record s ≡ ok none)
              × (marker ≡ marker_of "draining" started_at drain_id (trim reason))))
unfolding begin_drain is_recovering
begin_drain-maintenance_record now started_at drain_id reason s {s'} t h =
    elim (Result-cases (maintenance_record s)) [
      | inr (e, m) ↦ absurd (ground (arith, m))
      | inl (some marker, m) ↦ let e : s' ≡ s = ground (arith, m) in (marker, rw e m, inl m)
      | inl (none, m) ↦
          let g : (drain_id_valid drain_id ≡ true)
              × (reason_allowed (trim reason) ≡ true)
              × (s' ≡ mark now started_at drain_id (trim reason) s) =
            ground (arith, m) in
          (
            marker_of "draining" started_at drain_id (trim reason),
            rw g.2 (mark-maintenance_record now started_at drain_id (trim reason) s g.0 g.1 t),
            inr (m, refl),
          )
    ]

-- Behind a marker the trigger on new runs is armed.
marked-refuses :
    (s : Spool) (marker : MaintenanceRecord) (state drain_id reason started_at : Option String)
    → metadata "maintenance_state" s ≡ state
    → marked s state drain_id reason started_at ≡ ok (some marker)
    → refuses_runs s ≡ true
unfolding marked refuses_runs all_triggers marker_valid
marked-refuses s marker none none none none e h = absurd (ground arith)
marked-refuses s marker (some state) (some drain_id) (some reason) (some started_at) e h =
    ground (arith, e)
marked-refuses s marker none none none (some d) e h = absurd (ground arith)
marked-refuses s marker none none (some c) d e h = absurd (ground arith)
marked-refuses s marker none (some b) c d e h = absurd (ground arith)
marked-refuses s marker (some a) none c d e h = absurd (ground arith)
marked-refuses s marker (some a) (some b) none d e h = absurd (ground arith)
marked-refuses s marker (some a) (some b) (some c) none e h = absurd (ground arith)

maintenance_record-refuses :
    (s : Spool) (marker : MaintenanceRecord)
    → maintenance_record s ≡ ok (some marker)
    → refuses_runs s ≡ true
unfolding maintenance_record
maintenance_record-refuses s marker h = marked-refuses s marker _ _ _ _ refl h

-- After a `begin_drain` that succeeded at a well-formed time every valid submission is refused,
-- and the trigger refuses any other insertion of a run.
pub begin_drain-submit :
    (now : ℕ) (started_at drain_id reason : String) (s : Spool) {s' : Spool} (files : Files)
    (owner : OwnerInfo) (request : SubmitRequest) (later : ℕ) (row : ℕ → RunRecord)
    → maintenance_time_valid started_at ≡ true
    → begin_drain now started_at drain_id reason s ≡ ok s'
    → validate_submit files owner request ≡ ok tt
    → (submit files owner later request s' ≡ err broker_draining)
      × (insert_run row s' ≡ err broker_draining)
unfolding submit insert_run
begin_drain-submit now started_at drain_id reason s {s'} files owner request later row t h v =
    let made : (marker : MaintenanceRecord) × (maintenance_record s' ≡ ok (some marker)) × _ =
      begin_drain-maintenance_record now started_at drain_id reason s t h in
    (ground (arith, v, made.1), ground (arith, maintenance_record-refuses s' made.0 made.1))

pub remove_marker-maintenance_record :
    (s : Spool) → maintenance_record (remove_marker (remove_maintenance_guards s)) ≡ ok none
unfolding maintenance_record marked metadata remove_marker remove_maintenance_guards any_trigger
remove_marker-maintenance_record s =
    rw
      (
        lookup-remove_key "maintenance_state" "maintenance_state" _,
        lookup-remove_key "maintenance_state" "maintenance_id" _,
        lookup-remove_key "maintenance_id" "maintenance_id" _,
        lookup-remove_key "maintenance_state" "maintenance_reason" _,
        lookup-remove_key "maintenance_id" "maintenance_reason" _,
        lookup-remove_key "maintenance_reason" "maintenance_reason" _,
        lookup-remove_key "maintenance_state" "maintenance_started_at" _,
        lookup-remove_key "maintenance_id" "maintenance_started_at" _,
        lookup-remove_key "maintenance_reason" "maintenance_started_at" _,
        lookup-remove_key "maintenance_started_at" "maintenance_started_at" _,
      )
      refl

-- `resume` succeeds only for the drain's own ID, with no owner and no queued or running run left,
-- and takes the whole marker away.
pub resume-maintenance_record :
    (owned : Bool) (drain_id : String) (s : Spool) {s' : Spool}
    → resume owned drain_id s ≡ ok s'
    → (marker : MaintenanceRecord) × (maintenance_record s ≡ ok (some marker))
      × (marker.drain_id ≡ drain_id)
      × (owned ≡ false)
      × (live_count s ≡ 0)
      × (maintenance_record s' ≡ ok none)
unfolding resume required
resume-maintenance_record owned drain_id s {s'} h = elim (Result-cases (maintenance_record s)) [
  | inr (e, m) ↦ absurd (ground (arith, m))
  | inl (none, m) ↦ absurd (ground (arith, m))
  | inl (some marker, m) ↦
      let g : (str_eq marker.drain_id drain_id ≡ true)
          × (owned ≡ false)
          × (live_count s ≡ 0)
          × (s' ≡ remove_marker (remove_maintenance_guards s)) =
        ground (arith, m) in
      (
        marker,
        m,
        (eq_iff marker.drain_id drain_id).0 g.0,
        g.1,
        g.2,
        rw g.3 (remove_marker-maintenance_record s),
      )
]
