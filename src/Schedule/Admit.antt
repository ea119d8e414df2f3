-- ===== src/Schedule/Admit.antt =====
-- An admitted run keeps the running jobs safe.

use agcoord.Base.{
  ℕ, ◌+◌, ◌≤◌, ◌<◌, ◌^◌, String, ◌≡◌, refl, ap, inl, inr, true, false, ◌&&◌, List, [], ◌∷◌, ◌++◌,
  map, Memᴰ, Map, lookup, Distinct, str_eq, eq_iff, arith, filter, find, mem-filter_of, filter-nil,
  find-none, Bool-cases, Option-cases, mem-append_left,
}
use agcoord.Run.{RunRecord, queued, is_queued, ok}
use agcoord.Schedule.{
  allocations, same_repository, same_active, earlier, conflicts_with_barrier, barrier_in_worktree,
  lane_reasons, resource_reasons, exceeds, blocked_by, started, validate_active,
}
use agcoord.Schedule.Allocations.{
  total, at, units_of, units_of-lookup, total-append, allocations-total,
}
use agcoord.Schedule.Conflict.{conflict, conflict_comm, Apart-middle, IsSafe}
use agcoord.Schedule.Validate.{CapacitiesFit, validate_active-IsSafe}

-- What `run_from_row` checks of a run's resources: positive units within i64, one entry a name.
pub record ClaimsFit (run : RunRecord) : Type 0 where
  pub distinct : Distinct run.resources
  pub units_fit : (name : String) → at name run.resources < 2 ^ 63

pub append-nil_parts {ℓ} : {A : Type ℓ} (xs ys : List A) → xs ++ ys ≡ [] → (xs ≡ []) × (ys ≡ [])
append-nil_parts [] ys h = (refl, h)
append-nil_parts (x ∷ xs) ys h = cc

map-nil {ℓ κ} : {A : Type ℓ} {B : Type κ} (f : A → B) (xs : List A) → map f xs ≡ [] → xs ≡ []
map-nil f [] h = refl
map-nil f (x ∷ xs) h = cc

-- With no resource among the reasons, every name that the run claims is within its capacity.
pub resource_reasons-nil :
    (used capacities resources : Map ℕ)
    → resource_reasons used capacities resources ≡ []
    → (name : String) → at name used ≤ at name capacities
    → at name capacities < 2 ^ 63
    → at name resources < 2 ^ 63
    → at name used + at name resources ≤ at name capacities
unfolding resource_reasons exceeds lookup
resource_reasons-nil used capacities [] h name u c r = omega arith
resource_reasons-nil used capacities ((j, units) ∷ resources) h name u c r =
    elim (Bool-cases (str_eq j name)) [
      | inl e ↦
          let same : j ≡ name = (eq_iff j name).0 e in
          rw e (unwrapped (rw e at r) (ap (λ n. at n used) same) (ap (λ n. at n capacities) same))
      | inr e ↦
          rw e (resource_reasons-nil used capacities resources (ground arith) name u c (rw e at r))
    ]
  where
    unwrapped :
        units < 2 ^ 63
        → at j used ≡ at name used
        → at j capacities ≡ at name capacities
        → at name used + units ≤ at name capacities
    unwrapped r' e f = ground arith

-- With no reason from its lane, the run conflicts with no running job.
lane_reasons-nil :
    (run : RunRecord) (active queue : List RunRecord)
    → lane_reasons run active queue ≡ []
    → (y : RunRecord) → Memᴰ y active
    → conflict run y ≡ false
unfolding lane_reasons conflict same_active same_repository conflicts_with_barrier
    barrier_in_worktree
lane_reasons-nil run active queue h y m = elim (Bool-cases (same_repository run y)) [
  | inl e ↦ elim (Bool-cases run.barrier) [
    | inl b ↦ ground (arith, barrier_case b (mem-filter_of (same_repository run) active m e))
    | inr b ↦ ground (arith, plain_case b (mem-filter_of (same_repository run) active m e))
  ]
  | inr e ↦
      ground
        (arith, eq_iff run.repository_id y.repository_id, eq_iff y.repository_id run.repository_id)
]
  where
    barrier_case :
        run.barrier ≡ true
        → Memᴰ y (same_active run active)
        → (y.barrier ≡ false) × (str_eq run.worktree_id y.worktree_id ≡ false)
    barrier_case b n =
        let none_active : filter (conflicts_with_barrier run) (same_active run active) ≡ [] =
          map-nil _ _ (append-nil_parts _ _ (rw b at h)).0 in
        ground (
          arith,
          filter-nil (conflicts_with_barrier run) (same_active run active) none_active n,
          eq_iff run.worktree_id y.worktree_id,
          eq_iff y.worktree_id run.worktree_id,
        )

    plain_case :
        run.barrier ≡ false
        → Memᴰ y (same_active run active)
        → (y.barrier && str_eq run.worktree_id y.worktree_id) ≡ false
    plain_case b n =
        let reached : Memᴰ y (same_active run active ++ earlier run queue) =
          mem-append_left _ _ n in
        elim (Option-cases
          (find (barrier_in_worktree run) (same_active run active ++ earlier run queue))) [
            | inl e ↦ ground (
              arith,
              find-none (barrier_in_worktree run) _ e reached,
              eq_iff run.worktree_id y.worktree_id,
              eq_iff y.worktree_id run.worktree_id,
            )
            | inr (c, e) ↦ absurd (ground arith)
          ]

pub blocked_by-nil :
    (run : RunRecord) (active queue : List RunRecord) (capacities : Map ℕ)
    → run.status ≡ queued
    → blocked_by run active queue capacities ≡ []
    → (lane_reasons run active queue ≡ [])
      × (resource_reasons (allocations active) capacities run.resources ≡ [])
unfolding blocked_by
blocked_by-nil run active queue capacities q free =
    append-nil_parts (lane_reasons run active queue) _ (rw (ap (λ s. is_queued s) q) at free)

within_capacity :
    (capacities : Map ℕ) (run : RunRecord) (active : List RunRecord) (name : String)
    → ClaimsFit run
    → at name capacities < 2 ^ 63
    → total name active ≤ at name capacities
    → resource_reasons (allocations active) capacities run.resources ≡ []
    → total name active + units_of name run.resources ≤ at name capacities
within_capacity capacities run active name fit small s free = omega (
  arith,
  units_of-lookup name run.resources fit.distinct,
  allocations-total name active,
  resource_reasons-nil (allocations active) capacities run.resources free name
      (omega (arith, allocations-total name active)) small (fit.units_fit name),
)

-- For capacities and claims that fit i64, a queued run that nothing blocks may start beside
-- running jobs that are safe: they stay without conflicts and within the capacities, wherever its
-- row stands among theirs.
pub admit-IsSafe :
    (capacities : Map ℕ) (run : RunRecord) (before after queue : List RunRecord) (now : ℕ)
    → CapacitiesFit capacities
    → ClaimsFit run
    → run.status ≡ queued
    → IsSafe capacities (before ++ after)
    → blocked_by run (before ++ after) queue capacities ≡ []
    → IsSafe capacities (before ++ started now run ∷ after)
unfolding started total conflict
admit-IsSafe capacities run before after queue now small fit q s free = record {
  apart =
      Apart-middle conflict conflict_comm (started now run) before after s.apart
        (λ y m. apart_new y m);
  within = λ name. omega (
    arith,
    total-append name before after,
    total-append name before (started now run ∷ after),
    within_capacity capacities run (before ++ after) name fit (small name) (s.within name)
        reasons.1,
  );
}
  where
    reasons :
        (lane_reasons run (before ++ after) queue ≡ [])
        × (resource_reasons (allocations (before ++ after)) capacities run.resources ≡ [])
    reasons = blocked_by-nil run (before ++ after) queue capacities q free

    apart_new : (y : RunRecord) → Memᴰ y (before ++ after) → conflict (started now run) y ≡ false
    apart_new y m = lane_reasons-nil run (before ++ after) queue reasons.0 y m

-- For capacities and claims that fit i64, if `validate_active` accepts the running jobs, it
-- accepts them together with a queued run that nothing blocks, once that run has started.
pub admit-validate_active :
    (capacities : Map ℕ) (run : RunRecord) (before after queue : List RunRecord) (now : ℕ)
    → CapacitiesFit capacities
    → ClaimsFit run
    → run.status ≡ queued
    → validate_active capacities (before ++ after) ≡ ok tt
    → blocked_by run (before ++ after) queue capacities ≡ []
    → validate_active capacities (before ++ started now run ∷ after) ≡ ok tt
admit-validate_active capacities run before after queue now small fit q v free =
    (validate_active-IsSafe capacities (before ++ started now run ∷ after) small).1 (
      admit-IsSafe capacities run before after queue now small fit q
        ((validate_active-IsSafe capacities (before ++ after) small).0 v) free)
