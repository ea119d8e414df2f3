-- ===== src/Maintenance/Drained.antt =====
-- store.rs `drain_status`: when a drain is called drained.
use agcoord.Base.{
  ◌∙◌, ℕ, String, ◌≡◌, ◌≢◌, ◌<◌, ◌⊎◌, inl, inr, true, false, Option, none, some, lookup-insert,
  str_eq, eq_iff, arith, sym, ap, not, is_some, ◌==◌, Bool-cases, ◌&&◌,
}
use agcoord.Run.{ok}
use agcoord.Spool.{Spool, metadata, set_metadata}
use agcoord.Maintenance.{
  MaintenanceRecord, all_triggers, marker_valid, marked, maintenance_record, required, live_count,
  drain_status,
}
use agcoord.Life.Loaded.{Result-cases}
use agcoord.Maintenance.Drain.{marker_of}

drained_marked :
    (s : Spool) (marker : MaintenanceRecord) (state drain_id reason started_at : Option String)
    → str_eq marker.state "draining" ≡ true
    → marked s state drain_id reason started_at ≡ ok (some marker)
    → marked
        (set_metadata "maintenance_state" "drained" s)
        (some "drained")
        drain_id
        reason
        started_at
      ≡ ok (some (record marker { state = "drained" }))
unfolding marked set_metadata all_triggers marker_valid
drained_marked s marker none none none none e h = absurd (ground arith)
drained_marked s marker (some state) (some drain_id) (some reason) (some started_at) e h =
    let same : marker_of state started_at drain_id reason ≡ marker = ground (arith, h) in
    let word : state ≡ "draining" =
      ap (λ (m : MaintenanceRecord). m.state) same ∙ (eq_iff marker.state "draining").0 e in
    ground (
      arith,
      h,
      ap (λ (m : MaintenanceRecord). record m { state = "drained" }) same,
      ap (λ x. str_eq x "recovering") word,
    )
drained_marked s marker none none none (some d) e h = absurd (ground arith)
drained_marked s marker none none (some c) d e h = absurd (ground arith)
drained_marked s marker none (some b) c d e h = absurd (ground arith)
drained_marked s marker (some a) none c d e h = absurd (ground arith)
drained_marked s marker (some a) (some b) none d e h = absurd (ground arith)
drained_marked s marker (some a) (some b) (some c) none e h = absurd (ground arith)

drained-maintenance_record :
    (s : Spool) (marker : MaintenanceRecord)
    → str_eq marker.state "draining" ≡ true
    → maintenance_record s ≡ ok (some marker)
    → maintenance_record (set_metadata "maintenance_state" "drained" s)
      ≡ ok (some (record marker { state = "drained" }))
unfolding maintenance_record set_metadata metadata
drained-maintenance_record s marker e h =
    rw
      (
        lookup-insert "maintenance_state" "maintenance_state" "drained" s.meta,
        lookup-insert "maintenance_state" "maintenance_id" "drained" s.meta,
        lookup-insert "maintenance_state" "maintenance_reason" "drained" s.meta,
        lookup-insert "maintenance_state" "maintenance_started_at" "drained" s.meta,
      )
      (drained_marked s marker _ _ _ _ e h)

-- What `drain_status` makes of the marker that it found: one that says "draining" is called drained,
-- with its other words kept, when no run is queued or running and there is no owner; otherwise the
-- spool and the marker stay as they are, and the marker does not say "draining", a run is live or
-- there is an owner.
abbrev pub Reported : Option ℕ → Spool → Spool → MaintenanceRecord → MaintenanceRecord → Type 0
Reported broker_pid s s' found marker =
    ((found.state ≡ "draining")
      × (live_count s ≡ 0)
      × (broker_pid ≡ none)
      × (marker ≡ record found { state = "drained" }))
    ⊎ ((s' ≡ s)
        × (marker ≡ found)
        × ((found.state ≢ "draining") ⊎ (0 < live_count s) ⊎ (is_some broker_pid ≡ true)))

not_settled :
    (broker_pid : Option ℕ) (s : Spool) (found : MaintenanceRecord)
    → (str_eq found.state "draining" && live_count s == 0 && not (is_some broker_pid)) ≡ false
    → (found.state ≢ "draining") ⊎ (0 < live_count s) ⊎ (is_some broker_pid ≡ true)
not_settled broker_pid s found c = elim (Bool-cases (str_eq found.state "draining")) [
  | inr n ↦ inl (λ e. absurd (ground (arith, n, (eq_iff found.state "draining").1 e)))
  | inl y ↦ elim (Bool-cases (is_some broker_pid)) [
    | inl o ↦ inr (inr o)
    | inr o ↦ inr (inl (ground (arith, c, y, o)))
  ]
]

-- `drain_status` reports the marker that it leaves and the count of live runs. A marker that said
-- "draining" becomes "drained", with its ID, its reason and its start kept, exactly when no run is
-- queued or running and there is no owner; any other marker, one that says "drained" among them, is
-- reported as it was found, and nothing changes.
pub drain_status-maintenance_record :
    (broker_pid : Option ℕ) (s : Spool) {s' : Spool} {marker : MaintenanceRecord} {live : ℕ}
    → drain_status broker_pid s ≡ ok (s', marker, live)
    → (maintenance_record s' ≡ ok (some marker))
      × (live ≡ live_count s)
      × ((found : MaintenanceRecord) × (maintenance_record s ≡ ok (some found))
          × Reported broker_pid s s' found marker)
unfolding drain_status required
drain_status-maintenance_record broker_pid s {s'} {marker} {live} h =
    elim (Result-cases (maintenance_record s)) [
      | inr (e, m) ↦ absurd (ground (arith, m))
      | inl (none, m) ↦ absurd (ground (arith, m))
      | inl (some found, m) ↦
          elim (Bool-cases
            (str_eq found.state "draining" && live_count s == 0 && not (is_some broker_pid))) [
              | inr c ↦
                  let g : (s' ≡ s) × (found ≡ marker) × (live ≡ live_count s) =
                    ground (arith, m, c) in
                  let k : maintenance_record s ≡ ok (some marker) = rw (sym g.1) m in
                  (rw g.0 k, g.2, (found, m, inr (g.0, sym g.1, not_settled broker_pid s found c)))
              | inl c ↦
                  let g : (s' ≡ set_metadata "maintenance_state" "drained" s)
                      × (record found { state = "drained" } ≡ marker)
                      × (live ≡ live_count s) =
                    ground (arith, m, c) in
                  (
                    rw (g.0, sym g.1) (drained-maintenance_record s found (ground (arith, c)) m),
                    g.2,
                    (
                      found,
                      m,
                      inl (
                        (eq_iff found.state "draining").0 (ground (arith, c)),
                        ground (arith, c),
                        ground (arith, c),
                        sym g.1,
                      ),
                    ),
                  )
            ]
    ]
