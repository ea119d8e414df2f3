-- ===== src/Life/Steps.antt =====
-- Each step changes the rows by moves alone, by a fresh row, or by a clearing of history.

use agcoord.Base.{
  ℕ, suc, String, ◌≡◌, inl, inr, sym, Bool, false, not, ◌||◌, Option, none, some, [], ◌∷◌, ◌++◌,
  Map, any, filter, str_eq, arith,
}
use agcoord.Run.{RunRecord, Binding, ok, is_queued, is_running, is_terminal}
use agcoord.Spool.{Spool, set_metadata, set_last_activity, insert_run}
use agcoord.Maintenance.{
  maintenance_record, required, begin_drain, mark, install_maintenance_guards,
  remove_maintenance_guards, remove_marker, resume,
}
use agcoord.Submit.{OwnerInfo, Files, SubmitRequest, validate_submit}
use agcoord.Enqueue.{submit, request_row, insert_request, resource_contract, clear}
use agcoord.Merge.{select_gate}
use agcoord.Life.{
  starts, Step, submitted, admitted, identified, advanced, reused, reported, finished, stopped,
  interrupted, cleared, drained, resumed, Change, same, appended, history_cleared,
}
use agcoord.Life.Loaded.{Result-cases, UniqueRuns}
use agcoord.Life.Moves.{
  advance-Change, reuse-Change, report-Change, identify-Change, finish-Change, cancel-Change,
  interrupt-Change, admit-Change,
}

set_last_activity-runs :
    (now : ℕ) (s : Spool) {s' : Spool} → set_last_activity now s ≡ ok s' → s'.runs ≡ s.runs
unfolding set_last_activity
set_last_activity-runs now s h = ground arith

-- What a submission that succeeds has found.
pub record Submission (files : Files) (owner : OwnerInfo) (now : ℕ) (request : SubmitRequest)
    (s s' : Spool) : Type 0 where
  pub gate_run_id : Option String
  pub contract : Map Binding
  pub not_draining : maintenance_record s ≡ ok none
  pub valid : validate_submit files owner request ≡ ok tt
  pub new : any (λ run. str_eq run.run_id request.run_id) s.runs ≡ false
  pub selected : select_gate request s ≡ ok gate_run_id
  pub inserted :
      s'.runs ≡ s.runs ++ request_row now request gate_run_id contract s.next_sequence ∷ []

pub submit-Submission :
    (files : Files) (owner : OwnerInfo) (now : ℕ) (request : SubmitRequest) (s : Spool) {s' : Spool}
    → submit files owner now request s ≡ ok s'
    → Submission files owner now request s s'
unfolding submit insert_request insert_run
submit-Submission files owner now request s {s'} h =
    elim (Result-cases (validate_submit files owner request)) [
      | inr (e, v) ↦ absurd (ground (arith, v))
      | inl (tt, v) ↦ elim (Result-cases (maintenance_record s)) [
        | inr (e, m) ↦ absurd (ground (arith, v, m))
        | inl (some marker, m) ↦ absurd (ground (arith, v, m))
        | inl (none, m) ↦ elim (Result-cases (select_gate request s)) [
          | inr (e, g) ↦ absurd (ground (arith, v, m, g))
          | inl (gate, g) ↦
              elim (Result-cases (resource_contract request.resources owner.resource_bindings)) [
                | inr (e, c) ↦ absurd (ground (arith, v, m, g, c))
                | inl (contract, c) ↦
                    let row : ℕ → RunRecord = request_row now request gate contract in
                    let base : Spool = record s {
                      runs = s.runs ++ row s.next_sequence ∷ [];
                      next_sequence = suc s.next_sequence;
                    } in
                    let k : (any (λ run. str_eq run.run_id request.run_id) s.runs ≡ false)
                        × (set_last_activity now base ≡ ok s') =
                      ground (arith, v, m, g, c) in
                    record {
                      gate_run_id = gate;
                      contract = contract;
                      not_draining = m;
                      valid = v;
                      new = k.0;
                      selected = g;
                      inserted = set_last_activity-runs now base k.1;
                    }
              ]
        ]
      ]
    ]

submit-Change :
    (files : Files) (owner : OwnerInfo) (now : ℕ) (request : SubmitRequest) (s : Spool) {s' : Spool}
    → submit files owner now request s ≡ ok s'
    → Change false s.runs s'.runs
submit-Change files owner now request s h =
    let k : Submission files owner now request s _ =
      submit-Submission files owner now request s h in
    rw k.inserted (appended now request k.gate_run_id k.contract s.next_sequence k.new)

pub clear_ok :
    (removable : String → Bool) (now : ℕ) (s : Spool) {s' : Spool}
    → clear removable now s ≡ ok s'
    → (any (λ run. is_queued run.status || is_running run.status) s.runs ≡ false)
      × (s'.runs ≡ filter (λ run. not (is_terminal run.status)) s.runs)
unfolding clear set_last_activity
clear_ok removable now s h = elim (Result-cases (maintenance_record s)) [
  | inr (e, m) ↦ absurd (ground (arith, m))
  | inl (marker, m) ↦ ground (arith, m)
]

drain-runs :
    (now : ℕ) (started_at drain_id reason : String) (s : Spool) {s' : Spool}
    → begin_drain now started_at drain_id reason s ≡ ok s'
    → s'.runs ≡ s.runs
unfolding begin_drain mark set_metadata install_maintenance_guards
drain-runs now started_at drain_id reason s h = elim (Result-cases (maintenance_record s)) [
  | inr (e, m) ↦ absurd (ground (arith, m))
  | inl (marker, m) ↦ ground (arith, m)
]

resume-runs :
    (owned : Bool) (drain_id : String) (s : Spool) {s' : Spool}
    → resume owned drain_id s ≡ ok s'
    → s'.runs ≡ s.runs
unfolding resume remove_marker remove_maintenance_guards required
resume-runs owned drain_id s h = elim (Result-cases (maintenance_record s)) [
  | inr (e, m) ↦ absurd (ground (arith, m))
  | inl (marker, m) ↦ ground (arith, m)
]

pub step-Change :
    {s s' : Spool} → UniqueRuns s.runs → (step : Step s s') → Change (starts step) s.runs s'.runs
unfolding starts
step-Change {s} u (submitted files owner now request h) = submit-Change files owner now request s h
step-Change {s} u (admitted now run_id h) = admit-Change s u now run_id h
step-Change {s} u (identified pid token run_id h) = identify-Change s u pid token run_id h
step-Change {s} u (advanced processes request h) = advance-Change s u processes request h
step-Change {s} u (reused processes now max_age request source h) =
    reuse-Change s u processes now max_age request source h
step-Change {s} u (reported processes request h) = report-Change s u processes request h
step-Change {s} u (finished now run verdict v h) = finish-Change s u now run verdict v h
step-Change {s} u (stopped now run_id h) = cancel-Change s u now run_id h
step-Change {s} u (interrupted h) = rw (sym h) (interrupt-Change s u)
step-Change {s} u (cleared removable now h) =
    let k : (any (λ run. is_queued run.status || is_running run.status) s.runs ≡ false)
        × (_ ≡ filter (λ run. not (is_terminal run.status)) s.runs) =
      clear_ok removable now s h in
    rw k.1 (history_cleared k.0)
step-Change {s} u (drained now started_at drain_id reason h) =
    rw (drain-runs now started_at drain_id reason s h) same
step-Change {s} u (resumed owned drain_id h) = rw (resume-runs owned drain_id s h) same
