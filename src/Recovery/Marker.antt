-- ===== src/Recovery/Marker.antt =====
-- What the end of a recovery leaves of the maintenance marker, and what may run during one.
use agcoord.Base.{
  ℕ, ◌≤◌, pos, lookup, is_int-eq, String, ◌≡◌, ◌⊎◌, [], inl, inr, true, false, Option, none, some,
  List, Memᴰ, str_eq, eq_iff, ◌==◌, filter, is_text, if◌then◌else◌, arith, Bool-cases, Option-cases,
  mem-filter,
}
use agcoord.Run.{RunRecord, Result, ok, load_run, is_passed}
use agcoord.Life.Loaded.{Result-cases}
use agcoord.Spool.{Spool}
use agcoord.Maintenance.{
  MaintenanceRecord, marker_valid, marked, maintenance_record, all_triggers, live_count,
}
use agcoord.Maintenance.Drain.{set_marker-maintenance_record, remove_marker-maintenance_record}
use agcoord.Recovery.{
  RecoveryRecord, Completion, Host, Machine, record_valid, validate_record, original_drain_valid,
  recovery_record, required_recovery,
}
use agcoord.Recovery.Operations.{filter_queued, any_running}
use agcoord.Recovery.Complete.{
  complete, finish_recovery, restore_marker, cpu_at_least_one, is_one, proves,
}
use agcoord.Recovery.Phases.{recovery_record-stored}

marked-all_triggers :
    (s : Spool) (marker : MaintenanceRecord) (state drain_id reason started_at : Option String)
    → marked s state drain_id reason started_at ≡ ok (some marker)
    → all_triggers s ≡ true
unfolding marked
marked-all_triggers s marker none none none none h = absurd (ground arith)
marked-all_triggers s marker (some state) (some drain_id) (some reason) (some started_at) h =
    ground arith
marked-all_triggers s marker none none none (some d) h = absurd (ground arith)
marked-all_triggers s marker none none (some c) d h = absurd (ground arith)
marked-all_triggers s marker none (some b) c d h = absurd (ground arith)
marked-all_triggers s marker (some a) none c d h = absurd (ground arith)
marked-all_triggers s marker (some a) (some b) none d h = absurd (ground arith)
marked-all_triggers s marker (some a) (some b) (some c) none h = absurd (ground arith)

maintenance_record-all_triggers :
    (s : Spool) (marker : MaintenanceRecord)
    → maintenance_record s ≡ ok (some marker)
    → all_triggers s ≡ true
unfolding maintenance_record
maintenance_record-all_triggers s marker m = marked-all_triggers s marker _ _ _ _ m

-- What an accepted record says of itself and of the marker.
recovery_record-valid :
    (machine : Machine) (h : Host) {value : RecoveryRecord}
    → recovery_record machine h ≡ ok (some value)
    → (record_valid machine value false ≡ true) × (all_triggers h.spool ≡ true)
unfolding recovery_record validate_record
recovery_record-valid machine h {value} e = elim (Result-cases (maintenance_record h.spool)) [
  | inr (code, m) ↦ absurd (ground (arith, m))
  | inl (none, m) ↦ elim (Option-cases h.recovery) [
    | inl n ↦ absurd (ground (arith, m, n))
    | inr (stored, n) ↦ absurd (ground (arith, m, n))
  ]
  | inl (some marker, m) ↦ elim (Option-cases h.recovery) [
    | inl n ↦ absurd (ground (arith, m, n))
    | inr (stored, n) ↦
        let g : (record_valid machine stored false ≡ true) × (stored ≡ value) =
          ground (arith, m, n) in
        (rw g.1 at g.0, maintenance_record-all_triggers h.spool marker m)
  ]
]

-- A stored record is the one that is read.
stored-eq :
    (machine : Machine) (h : Host) (value : RecoveryRecord) {read : Option RecoveryRecord}
    → h.recovery ≡ some value
    → recovery_record machine h ≡ ok read
    → some value ≡ read
stored-eq machine h value here r = ground (arith, here, recovery_record-stored machine h r)

-- The marker of a drain that a recovery has interrupted.
abbrev pub restored : Spool → Option MaintenanceRecord → Option MaintenanceRecord
restored spool none = none
restored spool (some drain) =
    some (record drain { state = if live_count spool == 0 then "drained" else "draining" })

restore_marker-maintenance_record :
    (drain : Option MaintenanceRecord) (s : Spool)
    → original_drain_valid drain ≡ true
    → all_triggers s ≡ true
    → maintenance_record (restore_marker drain s) ≡ ok (restored s drain)
unfolding restore_marker original_drain_valid marker_valid
restore_marker-maintenance_record none s v t = remove_marker-maintenance_record s
restore_marker-maintenance_record (some drain) s v t = elim (Bool-cases (live_count s == 0)) [
  | inl e ↦ rw e (
      set_marker-maintenance_record "drained" drain.drain_id drain.reason drain.started_at s
        (ground (arith, v)) t)
  | inr e ↦ rw e (
      set_marker-maintenance_record "draining" drain.drain_id drain.reason drain.started_at s
        (ground (arith, v)) t)
]

drain_of :
    (machine : Machine) (value : RecoveryRecord)
    → record_valid machine value false ≡ true
    → original_drain_valid value.original_drain ≡ true
unfolding record_valid
drain_of machine value v = ground arith

-- A passed run whose receipt says that one CPU was asked for and enforced, and that CPU was used.
pub record IsProof (proof : RunRecord) : Type 0 where
  pub status : is_passed proof.status ≡ true
  pub exit_status : proof.exit_status ≡ some (pos 0)
  pub requested : lookup "cpu" proof.resource_receipt.requested ≡ some 1
  pub applied : lookup "cpu" proof.resource_receipt.applied ≡ some 1
  pub units : ℕ
  pub peak : lookup "cpu" proof.resource_receipt.peak ≡ some units
  pub used : 1 ≤ units

is_one-eq : (units : Option ℕ) → is_one units ≡ true → units ≡ some 1
unfolding is_one
is_one-eq none h = cc
is_one-eq (some units) h = ground (arith, h)

proves-IsProof : (proof : RunRecord) → proves proof ≡ true → IsProof proof
unfolding proves cpu_at_least_one
proves-IsProof proof h = elim (Option-cases (lookup "cpu" proof.resource_receipt.peak)) [
  | inl n ↦ absurd (ground (arith, h, n))
  | inr (units, n) ↦ record {
    status = ground (arith, h);
    exit_status = is_int-eq proof.exit_status (pos 0) (ground (arith, h));
    requested = is_one-eq (lookup "cpu" proof.resource_receipt.requested) (ground (arith, h));
    applied = is_one-eq (lookup "cpu" proof.resource_receipt.applied) (ground (arith, h));
    units = units;
    peak = n;
    used = ground (arith, h, n);
  }
]

-- A recovery in progress ends only while it is verified, behind its proof: a run that passed with
-- exit status zero and whose receipt shows one CPU asked for, one enforced, and CPU used, with no run left running; it leaves the marker of the drain that it interrupted, or
-- none, and no recovery.
pub complete-maintenance_record :
    (machine : Machine) (owner : Result (Unit {0})) (recovery_id : String) (h : Host)
    (value : RecoveryRecord) {h' : Host} (completion : Completion)
    → h.recovery ≡ some value
    → complete machine owner recovery_id h ≡ ok (h', completion)
    → (proof : RunRecord) × (proof_id : String) × (value.proof_run_id ≡ some proof_id)
      × (load_run h.spool.runs proof_id ≡ ok proof)
      × IsProof proof
      × (value.phase ≡ "verifying")
      × (any_running h.spool ≡ false)
      × (h'.recovery ≡ none)
      × (maintenance_record h'.spool ≡ ok (restored h.spool value.original_drain))
unfolding complete finish_recovery required_recovery
complete-maintenance_record machine owner recovery_id h value {h'} completion here e =
    elim (Result-cases (recovery_record machine h)) [
      | inr (code, r) ↦ absurd (ground (arith, r))
      | inl (none, r) ↦ absurd (ground (arith, stored-eq machine h value here r))
      | inl (some read, r) ↦
          let same : read ≡ value = ground (arith, stored-eq machine h value here r) in
          finished (rw same at r)
    ]
  where
    finished :
        recovery_record machine h ≡ ok (some value)
        → (proof : RunRecord) × (proof_id : String) × (value.proof_run_id ≡ some proof_id)
          × (load_run h.spool.runs proof_id ≡ ok proof)
          × IsProof proof
          × (value.phase ≡ "verifying")
          × (any_running h.spool ≡ false)
          × (h'.recovery ≡ none)
          × (maintenance_record h'.spool ≡ ok (restored h.spool value.original_drain))
    finished r = elim (Result-cases owner) [
      | inr (code, o) ↦ absurd (ground (arith, o, r))
      | inl (_, o) ↦ elim (Option-cases value.proof_run_id) [
        | inl n ↦ absurd (ground (arith, o, r, n))
        | inr (proof_id, n) ↦ elim (Result-cases (load_run h.spool.runs proof_id)) [
          | inr (code, l) ↦ absurd (ground (arith, o, r, n, l))
          | inl (proof, l) ↦ elim (Result-cases (machine.probe_digest value.probe)) [
            | inr (code, d) ↦ absurd (ground (arith, o, r, n, l, d))
            | inl (digest, d) ↦
                let g : (proves proof ≡ true)
                    × (str_eq value.phase "verifying" ≡ true)
                    × (any_running h.spool ≡ false)
                    × (h'.recovery ≡ none)
                    × (h'.spool ≡ restore_marker value.original_drain h.spool) =
                  ground (arith, o, r, n, l, d) in
                let v : (record_valid machine value false ≡ true) × (all_triggers h.spool ≡ true) =
                  recovery_record-valid machine h r in
                (
                  proof,
                  proof_id,
                  n,
                  l,
                  proves-IsProof proof g.0,
                  (eq_iff value.phase "verifying").0 g.1,
                  g.2,
                  g.3,
                  rw g.4 (
                      restore_marker-maintenance_record value.original_drain h.spool
                        (drain_of machine value v.0) v.1),
                )
          ]
        ]
      ]
    ]

is_text-some : (o : Option String) {s : String} → is_text o s ≡ true → o ≡ some s
is_text-some none h = cc
is_text-some (some a) {s} h = ground (arith, eq_iff a s)

not-mem-nil : (run : RunRecord) → Memᴰ run [] → ⊥
not-mem-nil run n = elim n [ ]

-- While a recovery is in progress no queued run is kept for admission but its proof, and that only
-- while the proof is being verified.
pub filter_queued-proof :
    (machine : Machine) (h : Host) (value : RecoveryRecord) (queued : List RunRecord)
    {kept : List RunRecord} (run : RunRecord)
    → h.recovery ≡ some value
    → filter_queued machine h queued ≡ ok kept
    → Memᴰ run kept
    → Memᴰ run queued × (value.phase ≡ "verifying") × (value.proof_run_id ≡ some run.run_id)
unfolding filter_queued
filter_queued-proof machine h value queued {kept} run here e m =
    elim (Result-cases (recovery_record machine h)) [
      | inr (code, r) ↦ absurd (ground (arith, r))
      | inl (none, r) ↦ absurd (ground (arith, stored-eq machine h value here r))
      | inl (some read, r) ↦
          let same : read ≡ value = ground (arith, stored-eq machine h value here r) in
          proof_only (rw same at r) (Bool-cases (str_eq value.phase "verifying"))
    ]
  where
    proof_only :
        recovery_record machine h ≡ ok (some value)
        → (str_eq value.phase "verifying" ≡ true) ⊎ (str_eq value.phase "verifying" ≡ false)
        → Memᴰ run queued × (value.phase ≡ "verifying") × (value.proof_run_id ≡ some run.run_id)
    proof_only r (inr other) =
        let g : kept ≡ [] = ground (arith, r, other) in absurd (not-mem-nil run (rw g at m))
    proof_only r (inl verifying) = elim (Result-cases (machine.probe_digest value.probe)) [
      | inr (code, d) ↦ absurd (ground (arith, r, verifying, d))
      | inl (digest, d) ↦
          let g : kept ≡ filter (λ (x : RunRecord). is_text value.proof_run_id x.run_id) queued =
            ground (arith, r, verifying, d) in
          let k : Memᴰ run queued × (is_text value.proof_run_id run.run_id ≡ true) =
            mem-filter (λ (x : RunRecord). is_text value.proof_run_id x.run_id) queued
              (rw g at m) in
          (k.0, (eq_iff value.phase "verifying").0 verifying, is_text-some value.proof_run_id k.1)
    ]
