-- ===== src/Pump/Service.antt =====
-- A broker at work: rounds of the pump between the operations of its clients and of its workers.

use agcoord.Base.{
  ℕ, String, ◌≡◌, sym, false, Option, none, some, [], Map, inl, inr, All, Option-cases, arith,
}
use agcoord.Run.{RunRecord, ok}
use agcoord.Schedule.{validate_active, next_admissible}
use agcoord.Schedule.Allocations.{total}
use agcoord.Schedule.Conflict.{IsSafe}
use agcoord.Schedule.Validate.{CapacitiesFit}
use agcoord.Schedule.Admit.{ClaimsFit}
use agcoord.Spool.{Spool}
use agcoord.Finish.{admit_run}
use agcoord.Life.{Step, admitted, starts}
use agcoord.Life.Loaded.{Result-cases}
use agcoord.Life.Steps.{step-Change}
use agcoord.Life.Invariant.{Reachable, created, stepped, Reachable-IsWell}
use agcoord.Pump.{running_of, queued_of, admit_next}
use agcoord.Pump.Safety.{admit_next-IsSafe, admit_next-none}
use agcoord.Pump.Shrink.{Change-IsSafe}

-- The spools of a broker with these capacities that began empty: only its pump starts runs, on rows
-- that `run_from_row` accepts; every other operation may come at any time.
pub data Serving (capacities : Map ℕ) : Spool → Type 0 where
  opened : {s : Spool} → s.runs ≡ [] → Serving capacities s
  pumped :
      {s s' : Spool} (last : Option String) (now : ℕ) (chosen : Option RunRecord)
      → Serving capacities s
      → All (λ r. ClaimsFit r) s.runs
      → admit_next capacities last now s ≡ ok (s', chosen)
      → Serving capacities s'
  served :
      {s s' : Spool}
      → Serving capacities s
      → (step : Step s s') → starts step ≡ false
      → Serving capacities s'

admit_next-admit_run :
    (capacities : Map ℕ) (last : Option String) (now : ℕ) (s : Spool) {s' : Spool} {run : RunRecord}
    → admit_next capacities last now s ≡ ok (s', some run)
    → admit_run now run.run_id s ≡ ok s'
unfolding admit_next
admit_next-admit_run capacities last now s {s'} {run} h =
    elim (Result-cases (validate_active capacities (running_of s.runs))) [
      | inr (e, v) ↦ absurd (ground (arith, v))
      | inl (tt, v) ↦
          elim (Option-cases
            (next_admissible capacities last (running_of s.runs) (queued_of s.runs))) [
              | inl n ↦ absurd (ground (arith, v, n))
              | inr (next, n) ↦ elim (Result-cases (admit_run now next.run_id s)) [
                | inr (e, a) ↦ absurd (ground (arith, v, n, a))
                | inl (t, a) ↦
                    let g : (t ≡ s') × (next ≡ run) = ground (arith, v, n, a) in
                    rw (sym g.0, sym g.1) a
              ]
            ]
    ]

Serving-Reachable : {capacities : Map ℕ} {s : Spool} → Serving capacities s → Reachable s
Serving-Reachable (opened e) = created e
Serving-Reachable {capacities} (pumped {s} last now none w c h) =
    rw (admit_next-none capacities last now s h).0 (Serving-Reachable w)
Serving-Reachable {capacities} (pumped {s} last now (some run) w c h) =
    stepped (Serving-Reachable w)
      (admitted now run.run_id (admit_next-admit_run capacities last now s h))
Serving-Reachable (served w step f) = stepped (Serving-Reachable w) step

-- Let the capacities fit i64 and the broker begin with no runs. Whatever the order of the rounds
-- of its pump, on rows whose claims fit, and of the steps of `Life`, the running jobs are safe
-- after each: no two of them conflict, and the units that they claim are within the capacities.
pub Serving-IsSafe :
    {capacities : Map ℕ} {s : Spool}
    → CapacitiesFit capacities
    → Serving capacities s
    → IsSafe capacities (running_of s.runs)
unfolding total
Serving-IsSafe small (opened e) = rw e (record { apart = tt; within = λ name. omega arith })
Serving-IsSafe {capacities} small (pumped {s} last now none w c h) =
    rw (admit_next-none capacities last now s h).0 (Serving-IsSafe small w)
Serving-IsSafe {capacities} small (pumped {s} last now (some run) w c h) =
    admit_next-IsSafe capacities last now s small (Reachable-IsWell (Serving-Reachable w)) c h
Serving-IsSafe {capacities} small (served w step f) =
    Change-IsSafe capacities f (step-Change (Reachable-IsWell (Serving-Reachable w)).unique step)
      (Serving-IsSafe small w)
