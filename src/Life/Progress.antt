-- ===== src/Life/Progress.antt =====
-- How a single run goes on: what an operation can never do to it.
use agcoord.Base.{
  String, ◌≡◌, ◌⊎◌, inl, inr, refl, ap, Bool, true, false, not, ◌||◌, List, [], ◌∷◌, ◌++◌, any,
  any-eq-false, filter, str_eq, All, All-mem, Bool-cases, if◌then◌else◌, arith,
}
use agcoord.Run.{
  RunRecord, Result, ok, err, run_row, load_run, run_unknown, is_queued, is_running, is_terminal,
}
use agcoord.Spool.{Spool, update_runs}
use agcoord.Life.{Step, Move, Change, same, moved, appended, history_cleared}
use agcoord.Life.Row.{IsOrderly}
use agcoord.Life.Loaded.{load_run-mem}
use agcoord.Life.Steps.{step-Change}
use agcoord.Life.Invariant.{IsWell, move-run_id}
use agcoord.Life.Follows.{Follows, Follows-refl, move-Follows}

module _ (b : Bool) (change : RunRecord → RunRecord) (matches : RunRecord → Bool) where
  load_run-update :
      (run_id : String) (runs : List RunRecord) {r : RunRecord}
      → All (λ r. matches r ≡ true → Move r b (change r)) runs
      → load_run runs run_id ≡ ok r
      → load_run (update_runs change matches runs) run_id ≡ ok (if matches r then change r else r)
  unfolding load_run run_row update_runs
  load_run-update run_id [] m h = cc
  load_run-update run_id (x ∷ runs) {r} m h = elim (Bool-cases (str_eq x.run_id run_id)) [
    | inl e ↦
        let i : x ≡ r = ground (arith, e) in
        elim (Bool-cases (matches x)) [
          | inl k ↦ ground (arith, e, i, k, move-run_id (m.0 k), ap matches i, ap change i)
          | inr k ↦ ground (arith, e, i, k, ap matches i)
        ]
    | inr e ↦
        let rest = load_run-update run_id runs {r = r} m.1 (ground (arith, e)) in
        elim (Bool-cases (matches x)) [
          | inl k ↦ ground (arith, e, k, rest, move-run_id (m.0 k))
          | inr k ↦ ground (arith, e, k, rest)
        ]
  ]

load_run-append :
    (run_id : String) (runs ys : List RunRecord) {r : RunRecord}
    → load_run runs run_id ≡ ok r
    → load_run (runs ++ ys) run_id ≡ ok r
unfolding load_run run_row
load_run-append run_id [] ys h = cc
load_run-append run_id (x ∷ runs) ys {r} h = elim (Bool-cases (str_eq x.run_id run_id)) [
  | inl e ↦ ground (arith, e)
  | inr e ↦ ground (arith, e, load_run-append run_id runs ys {r = r} (ground (arith, e)))
]

load_run-gone :
    (run_id : String) (runs : List RunRecord)
    → any (λ run. is_queued run.status || is_running run.status) runs ≡ false
    → load_run (filter (λ run. not (is_terminal run.status)) runs) run_id ≡ err run_unknown
unfolding load_run run_row is_terminal
load_run-gone run_id [] h = refl
load_run-gone run_id (x ∷ runs) h = ground (arith, load_run-gone run_id runs (ground arith))

-- What becomes of a run in one step: a later record of it, or, of a terminal run, none.
pub Continues : RunRecord → Result RunRecord → Type 0
Continues r after =
    ((r' : RunRecord) × (after ≡ ok r') × Follows r r')
    ⊎ ((is_terminal r.status ≡ true) × (after ≡ err run_unknown))

pub Change-Continues :
    {b : Bool} {runs runs' : List RunRecord} (run_id : String) {r : RunRecord}
    → IsWell runs
    → load_run runs run_id ≡ ok r
    → Change b runs runs'
    → Continues r (load_run runs' run_id)
unfolding Continues is_terminal
Change-Continues run_id {r} w l same = inl (r, l, Follows-refl r)
Change-Continues {b} {runs} run_id {r} w l (moved change matches m) =
    elim (Bool-cases (matches r)) [
      | inl e ↦ inl (
        change r,
        rw (load_run-update b change matches run_id runs m l, e) refl,
        move-Follows (All-mem (λ r. IsOrderly r) runs w.rows (load_run-mem runs run_id l).0) (
            All-mem (λ r. matches r ≡ true → Move r b (change r)) runs m
              (load_run-mem runs run_id l).0 e),
      )
      | inr e ↦
          inl (r, rw (load_run-update b change matches run_id runs m l, e) refl, Follows-refl r)
    ]
Change-Continues {b} {runs} run_id {r} w l (appended now request gate contract sequence n) =
    inl (r, load_run-append run_id runs _ l, Follows-refl r)
Change-Continues {b} {runs} run_id {r} w l (history_cleared n) = inr (
  ground (arith, any-eq-false _ runs n (load_run-mem runs run_id l).0),
  load_run-gone run_id runs n,
)

-- In a spool in good order, a step leaves of each run a later record: the same run with the same
-- claims, no earlier phase, and its gate's verdict, its reported result and a request to stop kept.
-- A terminal record stays as it is, unless a clearing of the history has removed it.
pub step-Continues :
    {s s' : Spool} (run_id : String) {r : RunRecord}
    → IsWell s.runs
    → load_run s.runs run_id ≡ ok r
    → Step s s'
    → Continues r (load_run s'.runs run_id)
step-Continues run_id w l step = Change-Continues run_id w l (step-Change w.unique step)
