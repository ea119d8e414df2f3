-- ===== src/Recovery/Refines.antt =====
-- The operations of recovery.rs keep to the phases of a recovery.
use agcoord.Base.{
  ℕ, suc, ◌≤◌, String, ◌≡◌, inl, inr, refl, true, false, none, some, str_eq, eq_iff, leb, arith,
  Bool-cases, Option-cases,
}
use agcoord.Run.{Result, load_run, ok}
use agcoord.Life.Loaded.{Result-cases}
use agcoord.Maintenance.{maintenance_record}
use agcoord.Submit.{OwnerInfo, Files, SubmitRequest, validate_submit}
use agcoord.Recovery.{
  RecoveryRecord, Completion, Host, Machine, max_attempts, validate_completed, recovery_record,
  required_recovery, prove_workers_gone,
}
use agcoord.Recovery.Operations.{
  prepare, begin_recovery, guarded_record, submit_proof, proof_stands, insert_proof,
}
use agcoord.Recovery.Complete.{complete, finish_recovery, completed_before, park}
use agcoord.Recovery.Phases.{
  guarded, verifying, parked, Stage, idle, active, Advance, stays, begins, tries, parks, ends,
  mode_of, stage_of, HostStep, prepared, submitted, completed, stopped, recovery_record-stored,
  required_recovery-stored,
}

prepare-Advance :
    (machine : Machine) (recovery_id started_at probe : String) (h : Host) {h' : Host}
    → prepare machine recovery_id started_at probe h ≡ ok h'
    → Advance (stage_of h.recovery) (stage_of h'.recovery)
unfolding prepare begin_recovery guarded_record stage_of
prepare-Advance machine recovery_id started_at probe h {h'} e =
    elim (Result-cases (prove_workers_gone machine h.spool)) [
      | inr (code, w) ↦ absurd (ground (arith, w))
      | inl (_, w) ↦ elim (Result-cases (machine.probe_digest probe)) [
        | inr (code, d) ↦ absurd (ground (arith, w, d))
        | inl (digest, d) ↦ elim (Result-cases (recovery_record machine h)) [
          | inr (code, r) ↦ absurd (ground (arith, w, d, r))
          | inl (some value, r) ↦ let g : h' ≡ h = ground (arith, w, d, r) in rw g stays
          | inl (none, r) ↦ elim (Result-cases (maintenance_record h.spool)) [
            | inr (code, m) ↦ absurd (ground (arith, w, d, r, m))
            | inl (drain, m) ↦
                let g : h'.recovery ≡ some (guarded_record machine recovery_id probe digest drain) =
                  ground (arith, w, d, r, m) in
                rw (g, recovery_record-stored machine h r) begins
          ]
        ]
      ]
    ]

park-Advance :
    (machine : Machine) (now : ℕ) (recovery_id reason : String) (h : Host) {h' : Host}
    → park machine now recovery_id reason h ≡ ok h'
    → Advance (stage_of h.recovery) (stage_of h'.recovery)
unfolding park stage_of
park-Advance machine now recovery_id reason h {h'} e =
    elim (Result-cases (required_recovery machine recovery_id h)) [
      | inr (code, r) ↦ absurd (ground (arith, r))
      | inl (value, r) ↦
          let g : h'.recovery ≡ some (record value { phase = "parked"; incident = some reason }) =
            ground (arith, r) in
          rw (g, required_recovery-stored machine recovery_id h r) (parks _)
    ]

submit_proof-Advance :
    (machine : Machine) (files : Files) (owner : OwnerInfo) (now : ℕ) (recovery_id : String)
    (request : SubmitRequest) (h : Host) {h' : Host} (answer : Result String)
    → submit_proof machine files owner now recovery_id request h ≡ ok (h', answer)
    → Advance (stage_of h.recovery) (stage_of h'.recovery)
unfolding submit_proof stage_of
submit_proof-Advance machine files owner now recovery_id request h {h'} answer e =
    elim (Result-cases (validate_submit files owner request)) [
      | inr (code, v) ↦ absurd (ground (arith, v))
      | inl (_, v) ↦ elim (Result-cases (required_recovery machine recovery_id h)) [
        | inr (code, r) ↦ absurd (ground (arith, v, r))
        | inl (value, r) ↦ submitted_of value v r
      ]
    ]
  where
    submitted_of :
        (value : RecoveryRecord)
        → validate_submit files owner request ≡ ok _
        → required_recovery machine recovery_id h ≡ ok value
        → Advance (stage_of h.recovery) (stage_of h'.recovery)
    submitted_of value v r = elim (Result-cases (machine.probe_digest value.probe)) [
      | inr (code, d) ↦ absurd (ground (arith, v, r, d))
      | inl (digest, d) ↦ elim (Result-cases (proof_stands value h.spool.runs)) [
        | inr (code, p) ↦ absurd (ground (arith, v, r, d, p))
        | inl (true, p) ↦ let g : h' ≡ h = ground (arith, v, r, d, p) in rw g stays
        | inl (false, p) ↦ elim (Bool-cases (leb max_attempts value.attempts)) [
          | inl full ↦
              let g : h'.recovery
                  ≡ some (record value {
                    phase = "parked";
                    incident = some "proof-attempts-exhausted";
                  }) =
                ground (arith, v, r, d, p, full) in
              rw (g, required_recovery-stored machine recovery_id h r) (parks _)
          | inr free ↦ elim (Result-cases (insert_proof owner now request h.spool)) [
            | inr (code, i) ↦ absurd (ground (arith, v, r, d, p, free, i))
            | inl (spool, i) ↦
                let g : h'.recovery
                    ≡ some (record value {
                      proof_run_id = some request.run_id;
                      attempts = suc value.attempts;
                      phase = "verifying";
                      incident = none;
                    }) =
                  ground (arith, v, r, d, p, free, i) in
                rw (g, required_recovery-stored machine recovery_id h r)
                  (tries _ (ground (arith, free)))
          ]
        ]
      ]
    ]

mode_of-verifying : (phase : String) → str_eq phase "verifying" ≡ true → mode_of phase ≡ verifying
unfolding mode_of
mode_of-verifying phase p = rw ((eq_iff phase "verifying").0 p) refl

finish_recovery-Advance :
    (machine : Machine) (owner : Result (Unit {0})) (recovery_id : String) (h : Host) {h' : Host}
    (completion : Completion)
    → finish_recovery machine owner recovery_id h ≡ ok (h', completion)
    → Advance (stage_of h.recovery) (stage_of h'.recovery)
unfolding finish_recovery stage_of
finish_recovery-Advance machine owner recovery_id h {h'} completion e = elim (Result-cases owner) [
  | inr (code, o) ↦ absurd (ground (arith, o))
  | inl (_, o) ↦ elim (Result-cases (required_recovery machine recovery_id h)) [
    | inr (code, r) ↦ absurd (ground (arith, o, r))
    | inl (value, r) ↦ elim (Option-cases value.proof_run_id) [
      | inl n ↦ absurd (ground (arith, o, r, n))
      | inr (proof_id, n) ↦ elim (Result-cases (load_run h.spool.runs proof_id)) [
        | inr (code, l) ↦ absurd (ground (arith, o, r, n, l))
        | inl (proof, l) ↦ elim (Result-cases (machine.probe_digest value.probe)) [
          | inr (code, d) ↦ absurd (ground (arith, o, r, n, l, d))
          | inl (digest, d) ↦
              let g : (str_eq value.phase "verifying" ≡ true) × (h'.recovery ≡ none) =
                ground (arith, o, r, n, l, d) in
              rw
                (
                  g.1,
                  required_recovery-stored machine recovery_id h r,
                  mode_of-verifying value.phase g.0,
                )
                ends
        ]
      ]
    ]
  ]
]

completed_before-same :
    (machine : Machine) (recovery_id : String) (h : Host) {h' : Host} (completion : Completion)
    → completed_before machine recovery_id h ≡ ok (h', completion)
    → h' ≡ h
unfolding completed_before
completed_before-same machine recovery_id h {h'} completion e = elim (Option-cases h.last) [
  | inl n ↦ absurd (ground (arith, n))
  | inr (last, n) ↦ elim (Result-cases (validate_completed machine last)) [
    | inr (code, v) ↦ absurd (ground (arith, n, v))
    | inl (_, v) ↦ elim (Option-cases last.value.proof_run_id) [
      | inl k ↦ absurd (ground (arith, n, v, k))
      | inr (proof_id, k) ↦ elim (Result-cases (load_run h.spool.runs proof_id)) [
        | inr (code, l) ↦ absurd (ground (arith, n, v, k, l))
        | inl (proof, l) ↦ ground (arith, n, v, k, l)
      ]
    ]
  ]
]

complete-Advance :
    (machine : Machine) (owner : Result (Unit {0})) (recovery_id : String) (h : Host) {h' : Host}
    (completion : Completion)
    → complete machine owner recovery_id h ≡ ok (h', completion)
    → Advance (stage_of h.recovery) (stage_of h'.recovery)
unfolding complete
complete-Advance machine owner recovery_id h {h'} completion e =
    elim (Result-cases (recovery_record machine h)) [
      | inr (code, r) ↦ absurd (ground (arith, r))
      | inl (some value, r) ↦
          let f : finish_recovery machine owner recovery_id h ≡ ok (h', completion) =
            ground (arith, r) in
          finish_recovery-Advance machine owner recovery_id h completion f
      | inl (none, r) ↦
          let f : completed_before machine recovery_id h ≡ ok (h', completion) =
            ground (arith, r) in
          let g : h' ≡ h = completed_before-same machine recovery_id h completion f in rw g stays
    ]

-- Every operation on a recovery that succeeds is a step of the specification.
pub step-Advance :
    (machine : Machine) {h h' : Host}
    → HostStep machine h h'
    → Advance (stage_of h.recovery) (stage_of h'.recovery)
step-Advance machine (prepared recovery_id started_at probe e) =
    prepare-Advance machine recovery_id started_at probe _ e
step-Advance machine (submitted files owner now recovery_id request answer e) =
    submit_proof-Advance machine files owner now recovery_id request _ answer e
step-Advance machine (completed owner recovery_id completion e) =
    complete-Advance machine owner recovery_id _ completion e
step-Advance machine (stopped now recovery_id reason e) =
    park-Advance machine now recovery_id reason _ e

-- Operations one after another.
pub data Trace (machine : Machine) : Host → Host → Type 0 where
  start : {h : Host} → Trace machine h h
  next : {h h' h'' : Host} → Trace machine h h' → HostStep machine h' h'' → Trace machine h h''

-- The proofs that a recovery has submitted, by its mode.
abbrev pub IsBounded : Stage → Type 0
IsBounded idle = Unit
IsBounded (active guarded n) = n ≡ 0
IsBounded (active verifying n) = (1 ≤ n) × (n ≤ max_attempts)
IsBounded (active parked n) = n ≤ max_attempts

Advance-IsBounded : {a b : Stage} → Advance a b → IsBounded a → IsBounded b
Advance-IsBounded stays i = i
Advance-IsBounded begins i = refl
Advance-IsBounded (tries mode l) i = (omega arith, omega (arith, l))
Advance-IsBounded (parks guarded) i = omega (arith, i)
Advance-IsBounded (parks verifying) i = i.1
Advance-IsBounded (parks parked) i = i
Advance-IsBounded ends i = tt

-- From a host with no recovery, after any operations in any order, a recovery that is verifying has
-- submitted one to three proofs, a guarded one none, and a parked one three at most.
pub Trace-IsBounded :
    (machine : Machine) {h h' : Host}
    → Trace machine h h'
    → h.recovery ≡ none
    → IsBounded (stage_of h'.recovery)
unfolding stage_of
Trace-IsBounded machine start n = rw n tt
Trace-IsBounded machine (next trace step) n =
    Advance-IsBounded (step-Advance machine step) (Trace-IsBounded machine trace n)
