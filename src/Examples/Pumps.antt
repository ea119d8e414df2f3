-- ===== src/Examples/Pumps.antt =====
-- A round of the pump that starts the land of `Lives`, and one that starts nothing.

use agcoord.Base.{◌≡◌, ◌≢◌, refl, true, false, none, some, [], ◌∷◌, Memᴰ, All, arith}
use agcoord.Run.{RunRecord, ok, is_queued}
use agcoord.Schedule.{blocked_by}
use agcoord.Schedule.Conflict.{IsSafe}
use agcoord.Schedule.Admit.{ClaimsFit}
use agcoord.Enqueue.{request_row}
use agcoord.Life.{submitted, starts}
use agcoord.Life.Invariant.{created, stepped, Reachable-IsWell}
use agcoord.Pump.{running_of, queued_of, admit_next}
use agcoord.Pump.Safety.{admit_next-IsSafe, admit_next-none}
use agcoord.Pump.Service.{opened, pumped, served, Serving-IsSafe}
use agcoord.Examples.Schedules.{scheduler, capacities, capacities-fit}
use agcoord.Examples.Lives.{spool, files, owner, request, one, two, submit_land}

-- What a test of the pump computes with.
pump : Unit {0}
unfolding spool scheduler admit_next starts
pump = tt

start_land :
    admit_next capacities none 6 one
    ≡ ok
        (two, some (request_row 5 request none (("cpu", agcoord.Enqueue.admission_binding) ∷ []) 1))
unfolding pump
start_land = refl

claims : All (λ r. ClaimsFit r) one.runs
unfolding pump
claims = (record { distinct = (refl, tt); units_fit = λ name. ground arith }, tt)

admit_next-IsSafe_example : IsSafe capacities (running_of two.runs)
admit_next-IsSafe_example =
    admit_next-IsSafe capacities none 6 one capacities-fit
      (Reachable-IsWell (stepped (created refl) (submitted files owner 5 request submit_land)))
      claims start_land

idle : admit_next capacities none 7 two ≡ ok (two, none)
unfolding pump
idle = refl

admit_next-none_example :
    (two ≡ two)
    × ((run : RunRecord)
        → Memᴰ run two.runs
        → is_queued run.status ≡ true
        → blocked_by run (running_of two.runs) (queued_of two.runs) capacities ≢ [])
admit_next-none_example = admit_next-none capacities none 7 two idle

submitting : starts (submitted files owner 5 request submit_land) ≡ false
unfolding pump
submitting = refl

Serving-IsSafe_example : IsSafe capacities (running_of two.runs)
Serving-IsSafe_example = Serving-IsSafe capacities-fit (
    pumped none 6 _ (served (opened refl) (submitted files owner 5 request submit_land) submitting)
      claims start_land)
