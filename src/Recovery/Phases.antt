-- ===== src/Recovery/Phases.antt =====
-- What a recovery may do, less its files and rows, and that recovery.rs does no more.
use agcoord.Base.{
  ℕ, suc, ◌<◌, String, ◌≡◌, inl, inr, Option, none, some, str_eq, if◌then◌else◌, arith,
  Option-cases,
}
use agcoord.Run.{Result, ok}
use agcoord.Life.Loaded.{Result-cases}
use agcoord.Maintenance.{maintenance_record}
use agcoord.Submit.{OwnerInfo, Files, SubmitRequest}
use agcoord.Recovery.{
  RecoveryRecord, Completion, Host, Machine, max_attempts, recovery_record, required_recovery,
}
use agcoord.Recovery.Operations.{prepare, submit_proof}
use agcoord.Recovery.Complete.{complete, park}

pub data Mode : Type 0 where
  guarded verifying parked : Mode

-- No recovery, or one in a mode with the proofs that it has submitted.
pub data Stage : Type 0 where
  idle : Stage
  active : Mode → ℕ → Stage

-- A recovery begins guarded with no proof; it submits at most three; it may be parked at any time;
-- and it ends only from the mode in which a proof is being verified.
pub data Advance : Stage → Stage → Type 0 where
  stays : {a : Stage} → Advance a a
  begins : Advance idle (active guarded 0)
  tries :
      (mode : Mode) {n : ℕ} → n < max_attempts → Advance (active mode n) (active verifying (suc n))
  parks : (mode : Mode) {n : ℕ} → Advance (active mode n) (active parked n)
  ends : {n : ℕ} → Advance (active verifying n) idle

unfoldable pub mode_of : String → Mode
mode_of phase =
    if str_eq phase "guarded"
    then guarded
    else if str_eq phase "verifying"
    then verifying
    else parked

unfoldable pub stage_of : Option RecoveryRecord → Stage
unfolding mode_of
stage_of none = idle
stage_of (some value) = active (mode_of value.phase) value.attempts

-- The operations on the record.
pub data HostStep (machine : Machine) : Host → Host → Type 0 where
  prepared :
      {h h' : Host} (recovery_id started_at probe : String)
      → prepare machine recovery_id started_at probe h ≡ ok h'
      → HostStep machine h h'
  submitted :
      {h h' : Host} (files : Files) (owner : OwnerInfo) (now : ℕ) (recovery_id : String)
      (request : SubmitRequest) (answer : Result String)
      → submit_proof machine files owner now recovery_id request h ≡ ok (h', answer)
      → HostStep machine h h'
  completed :
      {h h' : Host} (owner : Result (Unit {0})) (recovery_id : String) (completion : Completion)
      → complete machine owner recovery_id h ≡ ok (h', completion)
      → HostStep machine h h'
  stopped :
      {h h' : Host} (now : ℕ) (recovery_id reason : String)
      → park machine now recovery_id reason h ≡ ok h'
      → HostStep machine h h'

-- The record that is accepted is the one that is stored.
pub recovery_record-stored :
    (machine : Machine) (h : Host) {value : Option RecoveryRecord}
    → recovery_record machine h ≡ ok value
    → h.recovery ≡ value
unfolding recovery_record
recovery_record-stored machine h {value} e = elim (Result-cases (maintenance_record h.spool)) [
  | inr (code, m) ↦ absurd (ground (arith, m))
  | inl (maintenance, m) ↦ elim (Option-cases h.recovery) [
    | inl n ↦ ground (arith, m, n)
    | inr (stored, n) ↦ ground (arith, m, n)
  ]
]

pub required_recovery-stored :
    (machine : Machine) (recovery_id : String) (h : Host) {value : RecoveryRecord}
    → required_recovery machine recovery_id h ≡ ok value
    → h.recovery ≡ some value
unfolding required_recovery
required_recovery-stored machine recovery_id h {value} e =
    elim (Result-cases (recovery_record machine h)) [
      | inr (code, r) ↦ absurd (ground (arith, r))
      | inl (none, r) ↦ absurd (ground (arith, r))
      | inl (some stored, r) ↦ ground (arith, r, recovery_record-stored machine h r)
    ]
