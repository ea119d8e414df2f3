-- ===== src/Pump.antt =====
-- broker.rs `pump_once`: one round of its admitting loop, up to the commit of the admission. No host
-- recovery is under way, so `filter_queued` keeps every queued row.
pub mod Safety
pub mod Shrink
pub mod Service
use agcoord.Base.{ℕ, String, Bool, Option, none, some, List, Map, filter}
use agcoord.Run.{RunRecord, Result, ok, ◌>>=◌, ◌>>◌, is_queued, is_running}
use agcoord.Schedule.{validate_active, next_admissible}
use agcoord.Spool.{Spool}
use agcoord.Finish.{admit_run}

abbrev pub running_of : List RunRecord → List RunRecord
running_of runs = filter (λ run. is_running run.status) runs

abbrev pub queued_of : List RunRecord → List RunRecord
queued_of runs = filter (λ run. is_queued run.status) runs

admit_chosen : ℕ → Spool → Option RunRecord → Result (Spool × Option RunRecord)
admit_chosen now spool none = ok (spool, none)
admit_chosen now spool (some next) =
    admit_run now next.run_id spool >>= λ spool'. ok (spool', some next)

-- The spool after the round and the run that it chose.
unfoldable pub admit_next : Map ℕ → Option String → ℕ → Spool → Result (Spool × Option RunRecord)
unfolding admit_chosen
admit_next capacities last_repository now spool =
    validate_active capacities (running_of spool.runs)
    >> admit_chosen now spool
        (next_admissible capacities last_repository (running_of spool.runs) (queued_of spool.runs))
