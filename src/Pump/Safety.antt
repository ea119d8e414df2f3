-- ===== src/Pump/Safety.antt =====
-- A round of the pump keeps the running jobs safe.

use agcoord.Base.{
  ℕ, String, ◌≡◌, ◌≢◌, inl, inr, refl, sym, ap, true, false, ◌&&◌, Option, none, some, List, [],
  ◌∷◌, ◌++◌, Map, Memᴰ, mem-filter, mem-filter_of, mem-append_right, str_eq, eq_iff, All, All-mem,
  Bool-cases, Option-cases, arith,
}
use agcoord.Run.{
  RunRecord, Status, queued, running, passed, failed, cancelled, interrupted, ok, load_run,
  is_queued, is_running,
}
use agcoord.Schedule.{validate_active, next_admissible, blocked_by, started}
use agcoord.Schedule.Conflict.{IsSafe}
use agcoord.Schedule.Validate.{CapacitiesFit, validate_active-IsSafe}
use agcoord.Schedule.Admit.{ClaimsFit, admit-IsSafe}
use agcoord.Schedule.Lanes.{
  IsHead, next_admissible-some, next_admissible-none, admissible-blocked_by,
}
use agcoord.Spool.{Spool, update_runs}
use agcoord.Finish.{admit_run}
use agcoord.Pump.{running_of, queued_of, admit_next}
use agcoord.Life.Loaded.{Result-cases, UniqueRuns, load_run-mem, sole_row}
use agcoord.Life.Invariant.{IsWell}

is_queued-eq : (status : Status) → is_queued status ≡ true → status ≡ queued
is_queued-eq queued h = refl
is_queued-eq running h = cc
is_queued-eq passed h = cc
is_queued-eq failed h = cc
is_queued-eq cancelled h = cc
is_queued-eq interrupted h = cc

abbrev admitted_rows : ℕ → String → List RunRecord → List RunRecord
admitted_rows now run_id runs =
    update_runs (started now) (λ r. str_eq r.run_id run_id && is_queued r.status) runs

others-same :
    (now : ℕ) (run_id : String) (runs : List RunRecord)
    → All (λ (r : RunRecord). str_eq r.run_id run_id ≡ false) runs
    → admitted_rows now run_id runs ≡ runs
unfolding update_runs
others-same now run_id [] h = refl
others-same now run_id (r ∷ runs) h = ground (arith, h.0, others-same now run_id runs h.1)

-- Where the started row stands among the running ones.
record Placed (now : ℕ) (run : RunRecord) (runs : List RunRecord) : Type 0 where
  before : List RunRecord
  after : List RunRecord
  was : running_of runs ≡ before ++ after
  becomes : running_of (admitted_rows now run.run_id runs) ≡ before ++ started now run ∷ after

place :
    (now : ℕ) (run : RunRecord) (runs : List RunRecord)
    → UniqueRuns runs
    → Memᴰ run runs
    → is_queued run.status ≡ true
    → Placed now run runs
unfolding update_runs started
place now run [] u m q = elim m [ ]
place now run (x ∷ runs) u (Memᴰ.head e) q =
    let same : admitted_rows now run.run_id runs ≡ runs =
      others-same now run.run_id runs (rw e u.0) in
    record {
      before = [];
      after = running_of runs;
      was = ground (arith, ap (λ (r : RunRecord). r.status) e, q, is_queued-eq run.status);
      becomes = rw (sym e, (eq_iff run.run_id run.run_id).1 refl, q, same) refl;
    }
place now run (x ∷ runs) u (Memᴰ.tail m) q =
    let rest : Placed now run runs = place now run runs u.1 m q in
    let apart : str_eq x.run_id run.run_id ≡ false = ground (
      arith,
      All-mem (λ (r : RunRecord). str_eq r.run_id x.run_id ≡ false) runs u.0 m,
      eq_iff x.run_id run.run_id,
      eq_iff run.run_id x.run_id,
    ) in
    elim (Bool-cases (is_running x.status)) [
      | inl e ↦ record {
        before = x ∷ rest.before;
        after = rest.after;
        was = ground (arith, e, rest.was);
        becomes = ground (arith, e, apart, rest.becomes);
      }
      | inr e ↦ record {
        before = rest.before;
        after = rest.after;
        was = ground (arith, e, rest.was);
        becomes = ground (arith, e, apart, rest.becomes);
      }
    ]

admit_run-Placed :
    (now : ℕ) (run : RunRecord) (s : Spool) {s' : Spool}
    → UniqueRuns s.runs
    → Memᴰ run s.runs
    → is_queued run.status ≡ true
    → admit_run now run.run_id s ≡ ok s'
    → s'.runs ≡ admitted_rows now run.run_id s.runs
unfolding admit_run
admit_run-Placed now run s {s'} u m q h = elim (Result-cases (load_run s.runs run.run_id)) [
  | inr (e, l) ↦ absurd (ground (arith, l))
  | inl (current, l) ↦
      let found : Memᴰ current s.runs × (str_eq current.run_id run.run_id ≡ true) =
        load_run-mem s.runs run.run_id l in
      let same : current ≡ run =
        All-mem (λ (r : RunRecord). str_eq r.run_id run.run_id ≡ true → r ≡ run) s.runs
          (sole_row s.runs run.run_id u m ((eq_iff run.run_id run.run_id).1 refl)) found.0
          found.1 in
      ground (arith, l, q, ap (λ (r : RunRecord). r.status) same)
]

-- For capacities that fit i64, and in a spool in good order whose runs claim units that fit i64, a
-- round of the pump that starts a run leaves the running jobs safe: without conflicts and within
-- the capacities.
pub admit_next-IsSafe :
    (capacities : Map ℕ) (last : Option String) (now : ℕ) (s : Spool) {s' : Spool} {run : RunRecord}
    → CapacitiesFit capacities
    → IsWell s.runs
    → All (λ r. ClaimsFit r) s.runs
    → admit_next capacities last now s ≡ ok (s', some run)
    → IsSafe capacities (running_of s'.runs)
unfolding admit_next
admit_next-IsSafe capacities last now s {s'} {run} small w claims h =
    elim (Result-cases (validate_active capacities (running_of s.runs))) [
      | inr (e, v) ↦ absurd (ground (arith, v))
      | inl (tt, v) ↦
          elim (Option-cases
            (next_admissible capacities last (running_of s.runs) (queued_of s.runs))) [
              | inl n ↦ absurd (ground (arith, v, n))
              | inr (next, n) ↦ elim (Result-cases (admit_run now next.run_id s)) [
                | inr (e, a) ↦ absurd (ground (arith, v, n, a))
                | inl (t, a) ↦
                    let same : t ≡ s' = ground (arith, v, n, a) in
                    let head : IsHead capacities (running_of s.runs) (queued_of s.runs)
                        (queued_of s.runs) next =
                      next_admissible-some capacities last (running_of s.runs) (queued_of s.runs)
                        n in
                    let there : Memᴰ next s.runs × (is_queued next.status ≡ true) =
                      mem-filter (λ (r : RunRecord). is_queued r.status) s.runs
                        (rw head.place (mem-append_right head.before _ (Memᴰ.head refl))) in
                    let spot : Placed now next s.runs =
                      place now next s.runs w.unique there.0 there.1 in
                    let rows : t.runs ≡ admitted_rows now next.run_id s.runs =
                      admit_run-Placed now next s w.unique there.0 there.1 a in
                    rw (sym same, rows, spot.becomes)
                      (admit-IsSafe capacities next spot.before spot.after (queued_of s.runs) now
                        small (All-mem (λ r. ClaimsFit r) s.runs claims there.0)
                        (is_queued-eq next.status there.1)
                        (rw spot.was at
                          ((validate_active-IsSafe capacities (running_of s.runs) small).0 v))
                        (rw spot.was at (
                          admissible-blocked_by capacities (running_of s.runs) (queued_of s.runs)
                            next head.free)))
              ]
            ]
    ]

-- A round that starts nothing has left the spool alone, and every queued run is blocked.
pub admit_next-none :
    (capacities : Map ℕ) (last : Option String) (now : ℕ) (s : Spool) {s' : Spool}
    → admit_next capacities last now s ≡ ok (s', none)
    → (s' ≡ s)
      × ((run : RunRecord)
          → Memᴰ run s.runs
          → is_queued run.status ≡ true
          → blocked_by run (running_of s.runs) (queued_of s.runs) capacities ≢ [])
unfolding admit_next
admit_next-none capacities last now s {s'} h =
    elim (Result-cases (validate_active capacities (running_of s.runs))) [
      | inr (e, v) ↦ absurd (ground (arith, v))
      | inl (tt, v) ↦
          elim (Option-cases
            (next_admissible capacities last (running_of s.runs) (queued_of s.runs))) [
              | inr (next, n) ↦ elim (Result-cases (admit_run now next.run_id s)) [
                | inr (e, a) ↦ absurd (ground (arith, v, n, a))
                | inl (t, a) ↦ absurd (ground (arith, v, n, a))
              ]
              | inl n ↦ (
                ground (arith, v, n),
                λ run m q.
                    next_admissible-none capacities last (running_of s.runs) (queued_of s.runs) n
                      run (mem-filter_of (λ (r : RunRecord). is_queued r.status) s.runs m q),
              )
            ]
    ]
