-- ===== src/Lease.antt =====
-- store.rs: the child CPU leases of a run, their table and the operations on it.
pub mod Maintenance
pub mod Rows
pub mod Take
pub mod Grant
pub mod Rounds
pub mod Queue
pub mod Served
pub mod Waits
pub mod Serving
pub mod Budget
pub mod Request
pub mod Requests
use agcoord.Base.{
  ℕ, zero, suc, ◌+◌, ◌-◌, ◌^◌, min, String, Bool, true, false, not, ◌&&◌, ◌||◌, Option, none, some,
  List, [], ◌∷◌, ◌++◌, map, Map, lookup, ltb, leb, ◌==◌, str_eq, str_lt, any, all, filter, find,
  length, codes, get_or, is_some, if◌then◌else◌,
}
use agcoord.Run.{
  RunRecord, Error, Result, ok, err, ◌>>=◌, ◌>>◌, refuse_if, is_running, lease_row_invalid,
  lease_request_invalid, lease_parent_invalid, lease_budget_missing, lease_budget_exceeded,
  lease_exists, lease_unknown, lease_owner_mismatch,
}
use agcoord.Text.{identifier_valid}
use agcoord.Process.{ProcessTable, same_process, same_worker_process, is_descendant_process}

-- The CHECK constraint of `child_cpu_leases.status`.
pub data LeaseStatus : Type 0 where
  waiting active released cancelled : LeaseStatus

-- `ChildLeaseRecord`
pub record Lease : Type 0 where
  pub sequence : ℕ
  pub lease_id : String
  pub run_id : String
  pub status : LeaseStatus
  pub requested : ℕ
  pub minimum : ℕ
  pub granted : ℕ
  pub owner_pid : ℕ
  pub owner_start_token : String
  pub bypass_count : ℕ
  pub created_at : ℕ
  pub acquired_at : Option ℕ
  pub finished_at : Option ℕ

abbrev pub is_waiting : LeaseStatus → Bool
is_waiting waiting = true
is_waiting _ = false

abbrev pub is_active : LeaseStatus → Bool
is_active active = true
is_active _ = false

-- `status IN ('waiting', 'active')`
abbrev pub is_live : LeaseStatus → Bool
is_live waiting = true
is_live active = true
is_live _ = false

unfoldable pub status_coherent : LeaseStatus → Lease → Bool
status_coherent waiting lease =
    lease.granted == 0 && not (is_some lease.acquired_at) && not (is_some lease.finished_at)
status_coherent active lease =
    leb lease.minimum lease.granted && is_some lease.acquired_at && not (is_some lease.finished_at)
status_coherent released lease = is_some lease.finished_at
status_coherent cancelled lease = is_some lease.finished_at

-- What `child_lease_from_row` demands of a row: positive request, minimum and owner, and coherence.
unfoldable pub coherent : Lease → Bool
unfolding status_coherent
coherent lease =
    ltb 0 lease.requested
    && ltb 0 lease.minimum
    && ltb 0 lease.owner_pid
    && ltb 0 lease.sequence
    && identifier_valid lease.lease_id
    && identifier_valid lease.run_id
    && not (str_eq lease.owner_start_token "")
    && leb lease.minimum lease.requested
    && leb lease.granted lease.requested
    && leb lease.bypass_count 1
    && status_coherent lease.status lease

-- Rows as a query returns them, each through `child_lease_from_row`.
unfoldable pub from_rows : List Lease → Result (List Lease)
from_rows rows = if all coherent rows then ok rows else err lease_row_invalid

unfoldable pub load_child_leases : List Lease → Result (List Lease)
unfolding from_rows
load_child_leases table = from_rows table

unfoldable pub load_live_child_leases : List Lease → Result (List Lease)
unfolding from_rows
load_live_child_leases table = from_rows (filter (λ lease. is_live lease.status) table)

one_row : Option Lease → Result Lease
one_row none = err lease_unknown
one_row (some lease) = if coherent lease then ok lease else err lease_row_invalid

unfoldable pub load_child_lease : List Lease → String → Result Lease
unfolding one_row
load_child_lease table lease_id = one_row (find (λ lease. str_eq lease.lease_id lease_id) table)

unfoldable pub child_lease_position : List Lease → Lease → Option ℕ
child_lease_position table lease =
    if is_waiting lease.status
    then some (
        length (
          filter
            (λ other.
              str_eq other.run_id lease.run_id
              && is_waiting other.status
              && leb other.sequence lease.sequence)
            table))
    else none

-- `parent.resources.get("cpu")`
unfoldable pub cpu_budget : RunRecord → Error → Result ℕ
cpu_budget parent e = elim (lookup "cpu" parent.resources) [ none ↦ err e | some units ↦ ok units ]

descends_from : ProcessTable → ℕ → String → Option ℕ → Option String → Bool
descends_from processes owner_pid owner_token (some pid) (some token) =
    is_descendant_process processes owner_pid owner_token pid token
descends_from processes owner_pid owner_token _ _ = false

-- The condition that `request_child_cpu_lease` calls `admitted` and maintenance calls `valid`.
unfoldable pub owner_admitted : ProcessTable → RunRecord → ℕ → String → Bool
unfolding descends_from
owner_admitted processes parent owner_pid owner_token =
    is_running parent.status
    && not parent.cancel_requested
    && is_some parent.worker_pid
    && is_some parent.worker_start_token
    && same_worker_process processes parent.worker_pid parent.worker_start_token
    && same_process processes owner_pid owner_token
    && descends_from processes owner_pid owner_token parent.worker_pid parent.worker_start_token
