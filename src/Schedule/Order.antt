-- ===== src/Schedule/Order.antt =====
-- The order in which queued runs are admitted: barriers in submission order, repositories in turn,
-- and no standstill while nothing runs.

use mathlib.Core.Option
use agcoord.Base.{
  ℕ, ◌≤◌, ◌<◌, ◌^◌, String, ◌≡◌, refl, inl, inr, true, false, ◌&&◌, Option, some, List, [], ◌∷◌,
  ◌++◌, map, Memᴰ, All, All-of, All-mem, Map, lookup, Distinct, eq_iff, arith, filter, find, ltb,
  mem-filter_of, mem-append_right, filter-nil_of, find-none, Bool-cases, Option-cases,
}
use agcoord.Run.{RunRecord, queued}
use agcoord.Schedule.{
  active_in, same_repository, same_active, earlier, conflicts_with_barrier, barrier_in_worktree,
  allocations, allocate_runs, lane_reasons, resource_reasons, exceeds, blocked_by, next_admissible,
}
use agcoord.Schedule.Allocations.{at}
use agcoord.Schedule.Conflict.{conflict}
use agcoord.Schedule.Admit.{resource_reasons-nil, append-nil_parts, blocked_by-nil}
use agcoord.Schedule.Lanes.{
  IsHead, next_admissible-some, next_admissible-none, admissible-blocked_by,
}

lane_reasons-fifo :
    (run : RunRecord) (active queue : List RunRecord)
    → lane_reasons run active queue ≡ []
    → (y : RunRecord) → Memᴰ y queue
    → y.sequence < run.sequence
    → conflict run y ≡ false
unfolding lane_reasons conflict earlier same_repository conflicts_with_barrier barrier_in_worktree
    same_active
lane_reasons-fifo run active queue h y m lt = elim (Bool-cases (same_repository run y)) [
  | inl e ↦ elim (Bool-cases run.barrier) [
    | inl b ↦ ground (
      arith,
      barrier_case b (before e),
      eq_iff run.worktree_id y.worktree_id,
      eq_iff y.worktree_id run.worktree_id,
    )
    | inr b ↦ ground (
      arith,
      plain_case b (before e),
      eq_iff run.worktree_id y.worktree_id,
      eq_iff y.worktree_id run.worktree_id,
    )
  ]
  | inr e ↦
      ground
        (arith, eq_iff run.repository_id y.repository_id, eq_iff y.repository_id run.repository_id)
]
  where
    before : same_repository run y ≡ true → Memᴰ y (earlier run queue)
    before e =
        mem-filter_of (λ c. same_repository run c && ltb c.sequence run.sequence) queue m
          (ground arith)

    barrier_case :
        run.barrier ≡ true → Memᴰ y (earlier run queue) → conflicts_with_barrier run y ≡ false
    barrier_case b n = elim (Option-cases (find (conflicts_with_barrier run) (earlier run queue))) [
      | inl e ↦ find-none (conflicts_with_barrier run) _ e n
      | inr (c, e) ↦ absurd (
          ground (
            arith,
            e,
            (append-nil_parts
                (map (λ (candidate : RunRecord). active_in run.repository_id candidate.run_id)
                  (filter (conflicts_with_barrier run) (same_active run active)))
                _ (rw b at h)).1,
          ))
    ]

    plain_case :
        run.barrier ≡ false → Memᴰ y (earlier run queue) → barrier_in_worktree run y ≡ false
    plain_case b n =
        elim (Option-cases
          (find (barrier_in_worktree run) (same_active run active ++ earlier run queue))) [
            | inl e ↦
                find-none (barrier_in_worktree run) _ e
                  (mem-append_right (same_active run active) _ n)
            | inr (c, e) ↦ absurd (ground arith)
          ]

IsHead-mem :
    {capacities : Map ℕ} {active queue rest : List RunRecord} {run : RunRecord}
    → IsHead capacities active queue rest run
    → Memᴰ run rest
IsHead-mem h = rw h.place (mem-append_right h.before _ (Memᴰ.head refl))

module _ (capacities : Map ℕ) (active queue : List RunRecord) where
  -- A run is admitted only if it conflicts with no run that was submitted before it and still waits:
  -- no barrier is overtaken by a barrier of its repository or by work in its worktree, and no work by
  -- a barrier in its worktree.
  pub next_admissible-fifo :
      (last : Option String) {run : RunRecord}
      → All (λ r. r.status ≡ queued) queue
      → next_admissible capacities last active queue ≡ some run
      → (y : RunRecord) → Memᴰ y queue
      → y.sequence < run.sequence
      → conflict run y ≡ false
  next_admissible-fifo last {run} q h y m lt =
      let head : IsHead capacities active queue queue run =
        next_admissible-some capacities last active queue h in
      lane_reasons-fifo run active queue
        (blocked_by-nil run active queue capacities
          (All-mem (λ r. r.status ≡ queued) queue q (IsHead-mem head))
          (admissible-blocked_by capacities active queue run head.free)).0
        y m lt

nothing_exceeds :
    (capacities resources : Map ℕ)
    → Distinct resources
    → ((name : String) → at name resources ≤ at name capacities)
    → ((name : String) → at name capacities < 2 ^ 63)
    → resource_reasons [] capacities resources ≡ []
unfolding resource_reasons exceeds lookup
nothing_exceeds capacities [] d h small = refl
nothing_exceeds capacities ((j, units) ∷ resources) d h small = ground (
  arith,
  h j,
  small j,
  (eq_iff j j).1 refl,
  nothing_exceeds capacities resources d.1 (λ name. ground (arith, h name, d.0, eq_iff j name))
      small,
)

-- The oldest waiting run starts while nothing else runs, if its claims are within the capacities.
pub blocked_by_oldest :
    (capacities : Map ℕ) (run : RunRecord) (queue : List RunRecord)
    → Distinct run.resources
    → ((name : String) → at name run.resources ≤ at name capacities)
    → ((name : String) → at name capacities < 2 ^ 63)
    → All (λ r. run.sequence ≤ r.sequence) queue
    → blocked_by run [] queue capacities ≡ []
unfolding blocked_by lane_reasons earlier same_active allocations allocate_runs
blocked_by_oldest capacities run queue d h small oldest = ground (
  arith,
  nothing_exceeds capacities run.resources d h small,
  filter-nil_of (λ c. same_repository run c && ltb c.sequence run.sequence) queue
      (All-of _ queue
        (λ r m. ground (arith, All-mem (λ x. run.sequence ≤ x.sequence) queue oldest m))),
)

-- While nothing runs, and capacities and the claims of the queue fit i64, the scheduler does not stand
-- still if the queued run of least sequence claims each name once and no more than its capacity: it
-- chooses a run of the queue that nothing blocks and whose claims are within the capacities.
pub next_admissible-idle :
    (capacities : Map ℕ) (last : Option String) (run : RunRecord) (queue : List RunRecord)
    → Distinct run.resources
    → ((name : String) → at name run.resources ≤ at name capacities)
    → ((name : String) → at name capacities < 2 ^ 63)
    → Memᴰ run queue
    → All (λ r. run.sequence ≤ r.sequence) queue
    → All (λ r. r.status ≡ queued) queue
    → All (λ (r : RunRecord). (name : String) → at name r.resources < 2 ^ 63) queue
    → (chosen : RunRecord) × (next_admissible capacities last [] queue ≡ some chosen)
      × Memᴰ chosen queue
      × (blocked_by chosen [] queue capacities ≡ [])
      × ((name : String) → at name chosen.resources ≤ at name capacities)
unfolding allocations allocate_runs lookup
next_admissible-idle capacities last run queue d h small m oldest q fit =
    elim (Option-cases (next_admissible capacities last [] queue)) [
      | inl idle ↦ absurd (
          next_admissible-none capacities last [] queue idle run m
            (blocked_by_oldest capacities run queue d h small oldest))
      | inr (chosen, n) ↦
          let head : IsHead capacities [] queue queue chosen =
            next_admissible-some capacities last [] queue n in
          let here : Memᴰ chosen queue = IsHead-mem head in
          let free : blocked_by chosen [] queue capacities ≡ [] =
            admissible-blocked_by capacities [] queue chosen head.free in
          let reasons : _ × (resource_reasons (allocations []) capacities chosen.resources ≡ []) =
            blocked_by-nil chosen [] queue capacities
              (All-mem (λ r. r.status ≡ queued) queue q here) free in
          (
            chosen,
            n,
            here,
            free,
            λ name. omega (
              arith,
              resource_reasons-nil [] capacities chosen.resources reasons.1 name (omega arith)
                  (small name)
                  (All-mem (λ (r : RunRecord). (name : String) → at name r.resources < 2 ^ 63) queue
                    fit here name),
            ),
          )
    ]
