-- ===== src/Examples/Schedules.antt =====
-- Two repositories: a landing and two checks, over four CPUs.

use agcoord.Base.{
  ℕ, ◌≤◌, String, ◌≡◌, ◌≢◌, ◌↔◌, refl, true, false, none, some, List, [], ◌∷◌, Memᴰ, Map, lookup,
  insert, str_lt, arith, all_entries,
}
use agcoord.Run.{RunRecord, initial_receipt, queued, running, waiting, executing, check, land, ok}
use agcoord.Schedule.{
  saturating_add, allocate, allocate_runs, allocations, resource, barrier_in, blocked_by,
  lane_reasons, same_active, earlier, conflicts_with_barrier, barrier_in_worktree, same_repository,
  resource_reasons, exceeds, overlapping, group, validate_active, admissible, lane_heads, rotate,
  first, next_admissible, started,
}
use agcoord.Schedule.Allocations.{at, total, units_of, allocations-total}
use agcoord.Schedule.Conflict.{IsSafe, conflict}
use agcoord.Schedule.Validate.{CapacitiesFit, validate_active-IsSafe}
use agcoord.Schedule.Admit.{ClaimsFit, admit-IsSafe}
use agcoord.Schedule.Lanes.{IsHead, next_admissible-some, next_admissible-none}
use agcoord.Schedule.Order.{next_admissible-fifo, next_admissible-idle}

abbrev pub job : ℕ → String → String → String → ℕ → RunRecord
job sequence run_id repository_id worktree_id cpu = record {
  sequence = sequence;
  run_id = run_id;
  status = queued;
  kind = check;
  phase = waiting;
  label = "unit tests";
  agent = "agent";
  repository_id = repository_id;
  repository = "repo";
  worktree_id = worktree_id;
  checkout = "/src/repo";
  branch = "main";
  head_sha = none;
  barrier = false;
  resources = ("cpu", cpu) ∷ [];
  resource_contract = [];
  resource_receipt = initial_receipt (("cpu", cpu) ∷ []);
  resource_state = [];
  gate_run_id = none;
  publication_adapter = none;
  publication_request = none;
  failure_reason = none;
  gate_exit_status = none;
  reported_exit_status = none;
  caller_pid = 7;
  command = "make" ∷ [];
  environment = [];
  created_at = 1;
  started_at = none;
  finished_at = none;
  exit_status = none;
  worker_pid = none;
  worker_start_token = none;
  cancel_requested = false;
}

abbrev pub capacities : Map ℕ
capacities = ("cpu", 4) ∷ []

abbrev landing : RunRecord
landing =
    let run : RunRecord = job 1 "land-1" "a" "w1" 2 in
    record run { kind = land; barrier = true; status = running; phase = executing }

abbrev same_tree : RunRecord
same_tree = job 2 "check-2" "a" "w1" 1

abbrev other_tree : RunRecord
other_tree = job 3 "check-3" "a" "w2" 2

abbrev heavy : RunRecord
heavy = job 4 "check-4" "b" "w3" 3

-- What a test of the scheduler computes with.
unfoldable pub scheduler : Unit {0}
unfolding next_admissible lane_heads rotate first admissible blocked_by lane_reasons same_active
    earlier barrier_in_worktree conflicts_with_barrier same_repository resource_reasons exceeds
    allocations allocate_runs allocate saturating_add lookup insert validate_active all_entries
    overlapping group str_lt
scheduler = tt

-- A check in the landing's worktree waits for it, and a check of three CPUs for capacity.
blocked_by-landing :
    (blocked_by same_tree (landing ∷ []) (same_tree ∷ []) capacities ≡ barrier_in "a" "land-1" ∷ [])
    × (blocked_by heavy (landing ∷ []) (heavy ∷ []) capacities ≡ resource "cpu" ∷ [])
unfolding scheduler
blocked_by-landing = (refl, refl)

abbrev queue : List RunRecord
queue = same_tree ∷ other_tree ∷ heavy ∷ []

next_is_other_tree : next_admissible capacities none (landing ∷ []) queue ≡ some other_tree
unfolding scheduler
next_is_other_tree = refl

-- With nothing running the repository after the last one served comes first.
next_is_heavy : next_admissible capacities (some "a") [] queue ≡ some heavy
unfolding scheduler
next_is_heavy = refl

pub capacities-fit : CapacitiesFit capacities
unfolding lookup
capacities-fit name = ground arith

landing-valid : validate_active capacities (landing ∷ []) ≡ ok tt
unfolding scheduler
landing-valid = refl

landing-IsSafe : IsSafe capacities (landing ∷ [])
landing-IsSafe = (validate_active-IsSafe capacities (landing ∷ []) capacities-fit).0 landing-valid

claims : ClaimsFit other_tree
unfolding lookup
claims = record { distinct = (refl, tt); units_fit = λ name. ground arith }

other_tree_free : blocked_by other_tree (landing ∷ []) queue capacities ≡ []
unfolding scheduler
other_tree_free = refl

admit-IsSafe_example : IsSafe capacities (landing ∷ started 9 other_tree ∷ [])
admit-IsSafe_example =
    admit-IsSafe capacities other_tree (landing ∷ []) [] queue 9 capacities-fit claims refl
      landing-IsSafe other_tree_free

validate_active-IsSafe_example :
    (validate_active capacities (landing ∷ []) ≡ ok tt) ↔ IsSafe capacities (landing ∷ [])
validate_active-IsSafe_example = validate_active-IsSafe capacities (landing ∷ []) capacities-fit

allocations-total_example : at "cpu" (allocations (landing ∷ other_tree ∷ [])) ≡ 4
unfolding total units_of
allocations-total_example = allocations-total "cpu" (landing ∷ other_tree ∷ [])

next_admissible-some_example : IsHead capacities (landing ∷ []) queue queue other_tree
next_admissible-some_example =
    next_admissible-some capacities none (landing ∷ []) queue next_is_other_tree

next_admissible-none_example : blocked_by heavy (landing ∷ []) (heavy ∷ []) capacities ≢ []
unfolding scheduler
next_admissible-none_example =
    next_admissible-none capacities none (landing ∷ []) (heavy ∷ []) refl heavy (Memᴰ.head refl)

next_admissible-fifo_example : conflict other_tree same_tree ≡ false
next_admissible-fifo_example =
    next_admissible-fifo capacities (landing ∷ []) queue none (refl, (refl, (refl, tt)))
      next_is_other_tree same_tree (Memᴰ.head refl) (omega arith)

next_admissible-idle_example :
    (chosen : RunRecord) × (next_admissible capacities (some "a") [] queue ≡ some chosen)
    × Memᴰ chosen queue
    × (blocked_by chosen [] queue capacities ≡ [])
    × ((name : String) → at name chosen.resources ≤ at name capacities)
unfolding lookup
next_admissible-idle_example =
    next_admissible-idle capacities (some "a") same_tree queue (refl, tt) (λ name. ground arith)
      capacities-fit (Memᴰ.head refl) (omega arith, (omega arith, (omega arith, tt)))
      (refl, (refl, (refl, tt)))
      (λ name. ground arith, (λ name. ground arith, (λ name. ground arith, tt)))
