-- ===== src/Life/Invariant.antt =====
-- What every step keeps, and how a single run may go on.

use agcoord.Base.{
  ℕ, String, ◌≡◌, inl, inr, refl, Bool, true, false, Option, List, [], ◌∷◌, ◌++◌, Map, any, filter,
  str_eq, eq_iff, All, All-filter, Bool-cases, arith,
}
use agcoord.Run.{
  RunRecord, Phase, Result, ok, err, run_row, load_run, run_unknown, is_queued, is_running,
  is_terminal,
}
use agcoord.Schedule.{started}
use agcoord.Land.{advance_row}
use agcoord.Spool.{Spool, update_runs}
use agcoord.Submit.{SubmitRequest}
use agcoord.Enqueue.{request_row}
use agcoord.Life.{Step, Move, Change, same, moved, appended, history_cleared}
use agcoord.Life.Row.{IsOrderly, move-IsOrderly}
use agcoord.Life.Loaded.{UniqueRuns}
use agcoord.Life.Steps.{step-Change}

-- The rows have different IDs, and each is in order.
pub record IsWell (runs : List RunRecord) : Type 0 where
  pub unique : UniqueRuns runs
  pub rows : All (λ r. IsOrderly r) runs

pub move-run_id : {b : Bool} {r r' : RunRecord} → Move r b r' → r'.run_id ≡ r.run_id
unfolding started advance_row
move-run_id (Move.admit now q) = refl
move-run_id (Move.identify pid token q) = refl
move-run_id (Move.advance request l q c v) = refl
move-run_id (Move.reuse source l q p g) = refl
move-run_id (Move.report exit_status l q n) = refl
move-run_id (Move.finish now verdict q v) = refl
move-run_id (Move.withdraw now q) = refl
move-run_id (Move.mark q a) = refl
move-run_id (Move.stop i) = refl

module _ (b : Bool) (change : RunRecord → RunRecord) (matches : RunRecord → Bool) where
  abbrev Moves : List RunRecord → Type 0
  Moves runs = All (λ r. matches r ≡ true → Move r b (change r)) runs

  others-update :
      (run_id : String) (runs : List RunRecord)
      → Moves runs
      → All (λ (r : RunRecord). str_eq r.run_id run_id ≡ false) runs
      → All (λ (r : RunRecord). str_eq r.run_id run_id ≡ false) (update_runs change matches runs)
  unfolding update_runs
  others-update run_id [] m h = tt
  others-update run_id (r ∷ runs) m h = elim (Bool-cases (matches r)) [
    | inl e ↦ rw e (ground (arith, h.0, move-run_id (m.0 e)), others-update run_id runs m.1 h.1)
    | inr e ↦ rw e (h.0, others-update run_id runs m.1 h.1)
  ]

  unique-update :
      (runs : List RunRecord)
      → Moves runs
      → UniqueRuns runs
      → UniqueRuns (update_runs change matches runs)
  unfolding update_runs
  unique-update [] m u = tt
  unique-update (r ∷ runs) m u = elim (Bool-cases (matches r)) [
    | inl e ↦
        rw e (
          rw (move-run_id (m.0 e)) (others-update r.run_id runs m.1 u.0),
          unique-update runs m.1 u.1,
        )
    | inr e ↦ rw e (others-update r.run_id runs m.1 u.0, unique-update runs m.1 u.1)
  ]

  rows-update :
      (runs : List RunRecord)
      → Moves runs
      → All (λ r. IsOrderly r) runs
      → All (λ r. IsOrderly r) (update_runs change matches runs)
  unfolding update_runs
  rows-update [] m h = tt
  rows-update (r ∷ runs) m h = elim (Bool-cases (matches r)) [
    | inl e ↦ rw e (move-IsOrderly h.0 (m.0 e), rows-update runs m.1 h.1)
    | inr e ↦ rw e (h.0, rows-update runs m.1 h.1)
  ]

pub All-append {ℓ κ} :
    {A : Type ℓ} (P : A → Type κ) (xs ys : List A) → All P xs → All P ys → All P (xs ++ ys)
All-append P [] ys h k = k
All-append P (x ∷ xs) ys h k = (h.0, All-append P xs ys h.1 k)

unique-append :
    (runs : List RunRecord) (row : RunRecord)
    → any (λ run. str_eq run.run_id row.run_id) runs ≡ false
    → UniqueRuns runs
    → UniqueRuns (runs ++ row ∷ [])
unique-append [] row n u = (tt, tt)
unique-append (r ∷ runs) row n u = (
  All-append _ runs (row ∷ []) u.0
      (ground (arith, eq_iff r.run_id row.run_id, eq_iff row.run_id r.run_id), tt),
  unique-append runs row (ground arith) u.1,
)

unique-filter :
    (p : RunRecord → Bool) (runs : List RunRecord) → UniqueRuns runs → UniqueRuns (filter p runs)
unique-filter p [] u = tt
unique-filter p (r ∷ runs) u = elim (Bool-cases (p r)) [
  | inl e ↦ rw e (All-filter _ p runs u.0, unique-filter p runs u.1)
  | inr e ↦ rw e (unique-filter p runs u.1)
]

request_row-IsOrderly :
    (now : ℕ) (request : SubmitRequest) (gate_run_id : Option String)
    (contract : Map agcoord.Run.Binding) (sequence : ℕ)
    → IsOrderly (request_row now request gate_run_id contract sequence)
unfolding request_row is_terminal
request_row-IsOrderly now request gate_run_id contract sequence = record {
  barriers = refl;
  fresh = λ e. (refl, refl, refl);
  done = refl;
  phases = λ e. absurd (cc);
  ungated = λ e. refl;
  gated = λ e. absurd (cc);
  kept = λ e. refl;
  left = refl;
}

Change-IsWell :
    {b : Bool} {runs runs' : List RunRecord} → Change b runs runs' → IsWell runs → IsWell runs'
unfolding request_row
Change-IsWell same w = w
Change-IsWell {b} {runs} (moved change matches m) w = record {
  unique = unique-update b change matches runs m w.unique;
  rows = rows-update b change matches runs m w.rows;
}
Change-IsWell {b} {runs} (appended now request gate contract sequence n) w = record {
  unique = unique-append runs (request_row now request gate contract sequence) n w.unique;
  rows = All-append _ runs _ w.rows (request_row-IsOrderly now request gate contract sequence, tt);
}
Change-IsWell {b} {runs} (history_cleared n) w = record {
  unique = unique-filter _ runs w.unique;
  rows = All-filter _ _ runs w.rows;
}

-- The spools that steps lead to from an empty table of runs.
pub data Reachable : Spool → Type 0 where
  created : {s : Spool} → s.runs ≡ [] → Reachable s
  stepped : {s s' : Spool} → Reachable s → Step s s' → Reachable s'

-- In every spool that the steps of `Life` lead to from an empty one, no two runs have the same ID and
-- each row is in order: publications are the barriers, a run is complete just when it is terminal,
-- only running lands go through the phases, none publishes without a gate that passed, and no
-- authoritative publication has been asked to stop.
pub Reachable-IsWell : {s : Spool} → Reachable s → IsWell s.runs
Reachable-IsWell (created e) = rw e (record { unique = tt; rows = tt })
Reachable-IsWell (stepped r step) =
    let w : IsWell _ = Reachable-IsWell r in Change-IsWell (step-Change w.unique step) w
