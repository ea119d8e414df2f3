-- ===== src/Schedule.antt =====
-- Admission: store.rs `allocations` and `blocked_by`; broker.rs `validate_active` and
-- `next_admissible`. A release build wraps `+` on u64, so the one unchecked sum is written so.
pub mod Allocations
pub mod Conflict
pub mod Overlap
pub mod Validate
pub mod Admit
pub mod Rotate
pub mod Lanes
pub mod Order
use agcoord.Base.{
  ℕ, ◌+◌, ◌-◌, ◌%◌, ◌^◌, String, Bool, true, false, not, ◌&&◌, ◌||◌, Option, none, some, List, [],
  ◌∷◌, ◌++◌, map, Map, lookup, insert, all_entries, ltb, leb, min, any, filter, find, get_or,
  length, str_eq, str_lt, if◌then◌else◌,
}
use agcoord.Run.{
  RunRecord, Phase, running, executing, preflight, Result, ok, err, active_state_invalid, is_queued,
  is_land,
}

abbrev pub u64_mod : ℕ
u64_mod = 2 ^ 64

-- `saturating_add` on u64
unfoldable pub saturating_add : ℕ → ℕ → ℕ
saturating_add a b = min (a + b) (u64_mod - 1)

-- The inner loop of `allocations`: one run's resources.
unfoldable pub allocate : Map ℕ → Map ℕ → Map ℕ
allocate [] selected = selected
allocate ((name, units) ∷ resources) selected =
    allocate resources
      (insert name (saturating_add (get_or (lookup name selected) 0) units) selected)

unfoldable pub allocate_runs : List RunRecord → Map ℕ → Map ℕ
allocate_runs [] selected = selected
allocate_runs (run ∷ active) selected = allocate_runs active (allocate run.resources selected)

unfoldable pub allocations : List RunRecord → Map ℕ
allocations active = allocate_runs active []

-- What the strings in `blocked_by` say: a prefix with its arguments.
pub data Blocker : Type 0 where
  active_in : String → String → Blocker
  fifo : String → String → Blocker
  barrier_in : String → String → Blocker
  resource : String → Blocker

unfoldable pub same_repository : RunRecord → RunRecord → Bool
same_repository run candidate = str_eq candidate.repository_id run.repository_id

unfoldable pub conflicts_with_barrier : RunRecord → RunRecord → Bool
conflicts_with_barrier run candidate =
    candidate.barrier || str_eq candidate.worktree_id run.worktree_id

unfoldable pub barrier_in_worktree : RunRecord → RunRecord → Bool
barrier_in_worktree run candidate =
    candidate.barrier && str_eq candidate.worktree_id run.worktree_id

unfoldable pub same_active : RunRecord → List RunRecord → List RunRecord
same_active run active = filter (same_repository run) active

unfoldable pub earlier : RunRecord → List RunRecord → List RunRecord
earlier run queued =
    filter (λ candidate. same_repository run candidate && ltb candidate.sequence run.sequence)
      queued

fifo_reason : RunRecord → Option RunRecord → List Blocker
fifo_reason run none = []
fifo_reason run (some candidate) = fifo run.repository_id candidate.run_id ∷ []

barrier_reason : RunRecord → Option RunRecord → List Blocker
barrier_reason run none = []
barrier_reason run (some candidate) = barrier_in run.repository_id candidate.run_id ∷ []

-- The reasons from the repository's lane.
unfoldable pub lane_reasons : RunRecord → List RunRecord → List RunRecord → List Blocker
unfolding fifo_reason barrier_reason
lane_reasons run active queued =
    if run.barrier
    then map (λ (candidate : RunRecord). active_in run.repository_id candidate.run_id)
        (filter (conflicts_with_barrier run) (same_active run active))
      ++ fifo_reason run (find (conflicts_with_barrier run) (earlier run queued))
    else barrier_reason run
        (find (barrier_in_worktree run) (same_active run active ++ earlier run queued))

-- `used.get(name).unwrap_or(0) + units > capacities.get(name).unwrap_or(0)`
unfoldable pub exceeds : Map ℕ → Map ℕ → String → ℕ → Bool
exceeds used capacities name units =
    ltb (get_or (lookup name capacities) 0) ((get_or (lookup name used) 0 + units) % u64_mod)

unfoldable pub resource_reasons : Map ℕ → Map ℕ → Map ℕ → List Blocker
resource_reasons used capacities [] = []
resource_reasons used capacities ((name, units) ∷ resources) =
    let rest = resource_reasons used capacities resources in
    if exceeds used capacities name units then resource name ∷ rest else rest

unfoldable pub blocked_by : RunRecord → List RunRecord → List RunRecord → Map ℕ → List Blocker
blocked_by run active queued capacities =
    if is_queued run.status
    then lane_reasons run active queued
      ++ resource_reasons (allocations active) capacities run.resources
    else []

-- The body of the second loop of `validate_active`, over the runs of one repository.
overlap_with : List RunRecord → List RunRecord → Bool
overlap_with runs [] = false
overlap_with runs (barrier ∷ others) =
    ltb 1 (length (barrier ∷ others))
    || any (λ run. not run.barrier && str_eq run.worktree_id barrier.worktree_id) runs

unfoldable pub overlapping : List RunRecord → Bool
unfolding overlap_with
overlapping runs = overlap_with runs (filter (λ run. run.barrier) runs)

-- `repositories.entry(id).or_default().push(run)` over the active runs.
unfoldable pub group : List RunRecord → Map (List RunRecord) → Map (List RunRecord)
group [] repositories = repositories
group (run ∷ active) repositories = group active (
    insert run.repository_id (get_or (lookup run.repository_id repositories) [] ++ run ∷ [])
      repositories)

abbrev pub fits : Map ℕ → String → ℕ → Bool
fits capacities name units = leb units (get_or (lookup name capacities) 0)

unfoldable pub validate_active : Map ℕ → List RunRecord → Result (Unit {0})
validate_active capacities active =
    if all_entries (fits capacities) (allocations active)
    then if all_entries (λ repository runs. not (overlapping runs)) (group active [])
      then ok tt
      else err active_state_invalid
    else err active_state_invalid

is_nil {ℓ} : {A : Type ℓ} → List A → Bool
is_nil [] = true
is_nil (x ∷ xs) = false

-- One queued run is admissible: nothing blocks it.
unfoldable pub admissible : Map ℕ → List RunRecord → List RunRecord → RunRecord → Bool
unfolding is_nil
admissible capacities active queued run = is_nil (blocked_by run active queued capacities)

-- The loop of `next_admissible`; `seen` holds the repositories that have their head.
unfoldable pub lane_heads :
    Map ℕ → List RunRecord → List RunRecord → List String → List RunRecord → List RunRecord
lane_heads capacities active queued seen [] = []
lane_heads capacities active queued seen (run ∷ rest) =
    let skip = lane_heads capacities active queued seen rest in
    let take = run ∷ lane_heads capacities active queued (run.repository_id ∷ seen) rest in
    if any (str_eq run.repository_id) seen
    then skip
    else if admissible capacities active queued run
    then take
    else skip

-- The partition: repositories after the last one served come first.
unfoldable pub rotate : Option String → List RunRecord → List RunRecord
rotate none heads = heads
rotate (some last) heads =
    filter (λ run. str_lt last run.repository_id) heads
    ++ filter (λ run. not (str_lt last run.repository_id)) heads

unfoldable pub first {ℓ} : {A : Type ℓ} → List A → Option A
first [] = none
first (x ∷ xs) = some x

unfoldable pub next_admissible :
    Map ℕ → Option String → List RunRecord → List RunRecord → Option RunRecord
unfolding first
next_admissible capacities last_repository active queued =
    first (rotate last_repository (lane_heads capacities active queued [] queued))

-- The UPDATE with which broker.rs `start_worker` admits a queued run.
unfoldable pub started : ℕ → RunRecord → RunRecord
started now run = record run {
  status = running;
  phase = if is_land run.kind then preflight else executing;
  started_at = some now;
}
