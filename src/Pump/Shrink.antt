-- ===== src/Pump/Shrink.antt =====
-- Every step but the pump's leaves of the running jobs at most what there was.

use agcoord.Base.{
  ℕ, ◌≤◌, String, ◌≡◌, ◌⊎◌, inl, inr, refl, ap, subst, Bool, true, false, not, ◌||◌, List, [], ◌∷◌,
  ◌++◌, Map, filter, any, All, Bool-cases, arith,
}
use agcoord.Run.{
  RunRecord, Status, queued, running, passed, failed, cancelled, interrupted, is_queued, is_running,
  is_terminal,
}
use agcoord.Schedule.Allocations.{total, units_of}
use agcoord.Schedule.Conflict.{conflict, clash, Apart, IsSafe}
use agcoord.Land.{advance_row}
use agcoord.Finish.{Verdict, interruptible, final_verdict, requested_stop_outcome}
use agcoord.Spool.{update_runs}
use agcoord.Enqueue.{request_row}
use agcoord.Life.{Move, Change, same, moved, appended, history_cleared}
use agcoord.Lease.Grant.{All-map}
use agcoord.Pump.{running_of}

-- What the scheduler reads of a running job.
abbrev claim : RunRecord → String × String × Bool × Map ℕ
claim r = (r.repository_id, r.worktree_id, r.barrier, r.resources)

abbrev SameJob : RunRecord → RunRecord → Type 0
SameJob r r' = claim r' ≡ claim r

-- `ys` comes from `xs` by leaving jobs out and by what does not concern the scheduler.
data Shrinks : List RunRecord → List RunRecord → Type 0 where
  done : Shrinks [] []
  drop : {x : RunRecord} {xs ys : List RunRecord} → Shrinks xs ys → Shrinks (x ∷ xs) ys
  keep :
      {x y : RunRecord} {xs ys : List RunRecord}
      → SameJob x y
      → Shrinks xs ys
      → Shrinks (x ∷ xs) (y ∷ ys)

Shrinks-refl : (xs : List RunRecord) → Shrinks xs xs
Shrinks-refl [] = done
Shrinks-refl (x ∷ xs) = keep refl (Shrinks-refl xs)

Shrinks-All :
    {xs ys : List RunRecord} (r r' : RunRecord)
    → SameJob r r'
    → Shrinks xs ys
    → All (λ y. conflict r y ≡ false) xs
    → All (λ y. conflict r' y ≡ false) ys
unfolding conflict clash
Shrinks-All r r' j done h = tt
Shrinks-All r r' j (drop s) h = Shrinks-All r r' j s h.1
Shrinks-All r r' j (keep k s) h = (
  ground (
    arith,
    h.0,
    ap (λ c. c.0) j,
    ap (λ c. c.1) j,
    ap (λ c. c.2) j,
    ap (λ c. c.0) k,
    ap (λ c. c.1) k,
    ap (λ c. c.2) k,
  ),
  Shrinks-All r r' j s h.1,
)

Shrinks-Apart : {xs ys : List RunRecord} → Shrinks xs ys → Apart conflict xs → Apart conflict ys
Shrinks-Apart done h = tt
Shrinks-Apart (drop s) h = Shrinks-Apart s h.1
Shrinks-Apart (keep {x} {y} k s) h = (Shrinks-All x y k s h.0, Shrinks-Apart s h.1)

Shrinks-total :
    {xs ys : List RunRecord} (name : String) → Shrinks xs ys → total name ys ≤ total name xs
unfolding total
Shrinks-total name done = omega arith
Shrinks-total name (drop s) = omega (arith, Shrinks-total name s)
Shrinks-total name (keep k s) = omega (arith, Shrinks-total name s, ap (λ c. units_of name c.3) k)

Shrinks-IsSafe :
    {xs ys : List RunRecord} (capacities : Map ℕ)
    → Shrinks xs ys
    → IsSafe capacities xs
    → IsSafe capacities ys
Shrinks-IsSafe capacities s h = record {
  apart = Shrinks-Apart s h.apart;
  within = λ name. omega (arith, Shrinks-total name s, h.within name);
}

terminal_not_running : (status : Status) → is_terminal status ≡ true → is_running status ≡ false
unfolding is_terminal
terminal_not_running queued h = refl
terminal_not_running running h = cc
terminal_not_running passed h = refl
terminal_not_running failed h = refl
terminal_not_running cancelled h = refl
terminal_not_running interrupted h = refl

final_verdict-terminal :
    (r : RunRecord) (verdict : Verdict)
    → is_terminal verdict.status ≡ true
    → is_terminal (final_verdict r verdict).status ≡ true
unfolding is_terminal final_verdict requested_stop_outcome
final_verdict-terminal r verdict v = ground (arith, v)

-- A move that starts nothing leaves a running row only where there was one, and it is the same job.
move-SameJob :
    {b : Bool} {r r' : RunRecord}
    → b ≡ false
    → Move r b r'
    → (is_running r'.status ≡ false) ⊎ ((is_running r.status ≡ true) × SameJob r r')
unfolding advance_row is_terminal interruptible
move-SameJob f (Move.admit now q) = absurd (cc)
move-SameJob f (Move.identify pid token q) = inr (q, refl)
move-SameJob f (Move.advance request l q c v) = inr (q, refl)
move-SameJob f (Move.reuse source l q p g) = inr (q, refl)
move-SameJob f (Move.report exit_status l q n) = inr (q, refl)
move-SameJob {r = r} f (Move.finish now verdict q v) =
    inl (terminal_not_running (final_verdict r verdict).status (final_verdict-terminal r verdict v))
move-SameJob f (Move.withdraw now q) = inl refl
move-SameJob f (Move.mark q a) = inr (q, refl)
move-SameJob f (Move.stop i) = inr (ground (arith, i), refl)

update-Shrinks :
    (change : RunRecord → RunRecord) (matches : RunRecord → Bool) (runs : List RunRecord)
    → All (λ r. matches r ≡ true → Move r false (change r)) runs
    → Shrinks (running_of runs) (running_of (update_runs change matches runs))
unfolding update_runs
update-Shrinks change matches [] m = done
update-Shrinks change matches (r ∷ runs) m =
    let rest = update-Shrinks change matches runs m.1 in
    elim (Bool-cases (matches r)) [
      | inr e ↦ elim (Bool-cases (is_running r.status)) [
        | inl k ↦ rw (e, k) (keep refl rest)
        | inr k ↦ rw (e, k) rest
      ]
      | inl e ↦ elim (move-SameJob refl (m.0 e)) [
        | inr (k, j) ↦ elim (Bool-cases (is_running (change r).status)) [
          | inl n ↦ rw (e, k, n) (keep j rest)
          | inr n ↦ rw (e, k, n) (drop rest)
        ]
        | inl n ↦ elim (Bool-cases (is_running r.status)) [
          | inl k ↦ rw (e, k, n) (drop rest)
          | inr k ↦ rw (e, k, n) rest
        ]
      ]
    ]

running-append :
    (runs : List RunRecord) (row : RunRecord)
    → is_running row.status ≡ false
    → running_of (runs ++ row ∷ []) ≡ running_of runs
running-append [] row h = ground (arith, h)
running-append (r ∷ runs) row h = ground (arith, running-append runs row h)

running-cleared :
    (runs : List RunRecord)
    → any (λ run. is_queued run.status || is_running run.status) runs ≡ false
    → running_of (filter (λ run. not (is_terminal run.status)) runs) ≡ []
running-cleared [] h = refl
running-cleared (r ∷ runs) h = elim (Bool-cases (not (is_terminal r.status))) [
  | inl e ↦ ground (arith, e, running-cleared runs (ground arith))
  | inr e ↦ ground (arith, e, running-cleared runs (ground arith))
]

Shrinks-nil : (xs : List RunRecord) → Shrinks xs []
Shrinks-nil [] = done
Shrinks-nil (x ∷ xs) = drop (Shrinks-nil xs)

-- A change that starts nothing keeps the running jobs safe.
pub Change-IsSafe :
    {b : Bool} {runs runs' : List RunRecord} (capacities : Map ℕ)
    → b ≡ false
    → Change b runs runs'
    → IsSafe capacities (running_of runs)
    → IsSafe capacities (running_of runs')
unfolding request_row
Change-IsSafe capacities f same h = h
Change-IsSafe {b} {runs} capacities f (moved change matches m) h =
    Shrinks-IsSafe capacities
      (update-Shrinks change matches runs (
        All-map (λ r. matches r ≡ true → Move r b (change r))
          (λ r. matches r ≡ true → Move r false (change r)) runs
          (λ r p e. subst (λ c. Move r c (change r)) f (p e)) m))
      h
Change-IsSafe {b} {runs} capacities f (appended now request gate contract sequence n) h =
    rw (running-append runs (request_row now request gate contract sequence) refl) h
Change-IsSafe {b} {runs} capacities f (history_cleared n) h =
    rw (running-cleared runs n) (Shrinks-IsSafe capacities (Shrinks-nil (running_of runs)) h)
