-- ===== src/Lease/Request.antt =====
-- store.rs `request_child_cpu_lease`, `finish_child_cpu_lease` and `child_cpu_leases`.
use agcoord.Base.{
  ℕ, suc, ◌-◌, ◌^◌, String, Bool, true, false, not, ◌&&◌, ◌||◌, Option, none, some, List, [], ◌∷◌,
  ◌++◌, Map, lookup, insert, get_or, ltb, leb, ◌==◌, str_eq, any, if◌then◌else◌,
}
use agcoord.Text.{identifier_valid}
use agcoord.Run.{
  RunRecord, Result, ok, ◌>>=◌, ◌>>◌, refuse_if, load_run, lease_request_invalid,
  lease_parent_invalid, lease_budget_missing, lease_budget_exceeded, lease_exists,
  lease_owner_mismatch,
}
use agcoord.Process.{ProcessTable, same_process}
use agcoord.Spool.{Spool, set_last_activity}
use agcoord.Lease.{
  Lease, LeaseStatus, waiting, released, cancelled, is_waiting, is_live, load_child_leases,
  load_child_lease, child_lease_position, cpu_budget, owner_admitted,
}
use agcoord.Lease.Maintenance.{update, live_row}

pub record ChildLeaseRequest : Type 0 where
  pub lease_id : String
  pub run_id : String
  pub requested : ℕ
  pub minimum : ℕ
  pub owner_pid : ℕ
  pub owner_start_token : String

unfoldable pub lease_request_valid : ChildLeaseRequest → Bool
lease_request_valid request =
    identifier_valid request.lease_id
    && identifier_valid request.run_id
    && not (request.requested == 0)
    && leb request.requested (2 ^ 63 - 1)
    && not (request.minimum == 0)
    && leb request.minimum request.requested
    && not (str_eq request.owner_start_token "")

-- The row of a request, with the defaults of its columns.
abbrev pub requested_row : ℕ → ChildLeaseRequest → ℕ → Lease
requested_row now request sequence = record {
  sequence = sequence;
  lease_id = request.lease_id;
  run_id = request.run_id;
  status = waiting;
  requested = request.requested;
  minimum = request.minimum;
  granted = 0;
  owner_pid = request.owner_pid;
  owner_start_token = request.owner_start_token;
  bypass_count = 0;
  created_at = now;
  acquired_at = none;
  finished_at = none;
}

-- `INSERT INTO child_cpu_leases`, which UNIQUE and CHECK may refuse.
unfoldable pub insert_lease : ℕ → ChildLeaseRequest → Spool → Result Spool
insert_lease now request spool =
    refuse_if
      (any (λ (lease : Lease). str_eq lease.lease_id request.lease_id) spool.leases
        || request.owner_pid == 0)
      lease_exists
    >> ok (record spool {
      leases = spool.leases ++ requested_row now request spool.next_lease ∷ [];
      next_lease = suc spool.next_lease;
    })

-- Up to the COMMIT.
unfoldable pub request_child_cpu_lease : ProcessTable → ℕ → ChildLeaseRequest → Spool → Result Spool
request_child_cpu_lease processes now request spool =
    refuse_if (not (lease_request_valid request)) lease_request_invalid
    >> load_run spool.runs request.run_id
    >>= λ parent.
        refuse_if
          (not (owner_admitted processes parent request.owner_pid request.owner_start_token))
          lease_parent_invalid
        >> cpu_budget parent lease_budget_missing
        >>= λ budget.
            refuse_if (ltb budget request.minimum) lease_budget_exceeded
            >> insert_lease now request spool
            >>= set_last_activity now

-- What follows the COMMIT, and `child_cpu_lease_status`: the row with its place in the queue.
unfoldable pub child_cpu_lease_status : String → Spool → Result (Lease × Option ℕ)
child_cpu_lease_status lease_id spool = load_child_lease spool.leases lease_id >>= λ lease.
    ok (lease, child_lease_position spool.leases lease)

-- The positions that `child_cpu_leases` counts while it walks the rows.
unfoldable pub number_leases : (Lease → Bool) → Map ℕ → List Lease → List (Lease × Option ℕ)
number_leases selected positions [] = []
number_leases selected positions (lease ∷ leases) =
    let place = suc (get_or (lookup lease.run_id positions) 0) in
    let skipped = number_leases selected positions leases in
    let counted = number_leases selected (insert lease.run_id place positions) leases in
    if not (selected lease)
    then skipped
    else if is_waiting lease.status
    then (lease, some place) ∷ counted
    else (lease, none) ∷ skipped

is_run : Option String → String → Bool
is_run none run_id = true
is_run (some selected) run_id = str_eq run_id selected

listed : List RunRecord → Option String → Result (Unit {0})
listed runs none = ok tt
listed runs (some run_id) = load_run runs run_id >>= λ run. ok tt

unfoldable pub child_cpu_leases : Option String → Bool → Spool → Result (List (Lease × Option ℕ))
unfolding is_run listed
child_cpu_leases run_id include_terminal spool =
    listed spool.runs run_id >> load_child_leases spool.leases >>= λ leases. ok (
      number_leases
        (λ (lease : Lease).
          is_run run_id lease.run_id && (include_terminal || is_live lease.status))
        [] leases)

pub record ChildLeaseOwnerRequest : Type 0 where
  pub lease_id : String
  pub owner_pid : ℕ
  pub owner_start_token : String

-- `matches!(status, "released" | "cancelled")`
abbrev pub is_end : LeaseStatus → Bool
is_end released = true
is_end cancelled = true
is_end _ = false

abbrev pub end_row : LeaseStatus → ℕ → Lease → Lease
end_row status now lease = record lease { status = status; finished_at = some now }

unfoldable pub finish_child_cpu_lease :
    ProcessTable → ℕ → ChildLeaseOwnerRequest → LeaseStatus → Spool → Result Spool
finish_child_cpu_lease processes now request status spool =
    refuse_if (not (is_end status)) lease_request_invalid
    >> load_child_lease spool.leases request.lease_id
    >>= λ lease.
        refuse_if
          (not (lease.owner_pid == request.owner_pid)
            || not (str_eq lease.owner_start_token request.owner_start_token)
            || not (same_process processes request.owner_pid request.owner_start_token))
          lease_owner_mismatch
        >> set_last_activity now (record spool {
          leases =
              if is_live lease.status
              then update (end_row status now) (live_row request.lease_id) spool.leases
              else spool.leases;
        })
