-- ===== src/Schedule/Rotate.antt =====
-- The turn of the repositories in broker.rs `next_admissible`.

use agcoord.Base.{
  String, ◌≡◌, ap, inl, inr, not, Option, none, some, List, [], ◌∷◌, Memᴰ, str_lt, arith, filter,
  mem-filter, mem-filter_of, mem-append_cases, mem-append_left, mem-append_right, Bool-cases,
}
use agcoord.Run.{RunRecord}
use agcoord.Schedule.{rotate, first}

pub rotate-mem :
    (last : Option String) (heads : List RunRecord) {run : RunRecord}
    → Memᴰ run (rotate last heads)
    → Memᴰ run heads
unfolding rotate
rotate-mem none heads m = m
rotate-mem (some last) heads m =
    elim (mem-append_cases (filter (λ r. str_lt last r.repository_id) heads) _ m) [
      | inl a ↦ (mem-filter (λ r. str_lt last r.repository_id) heads a).0
      | inr b ↦ (mem-filter (λ r. not (str_lt last r.repository_id)) heads b).0
    ]

pub mem-rotate :
    (last : Option String) (heads : List RunRecord) {run : RunRecord}
    → Memᴰ run heads
    → Memᴰ run (rotate last heads)
unfolding rotate
mem-rotate none heads m = m
mem-rotate (some last) heads {run} m = elim (Bool-cases (str_lt last run.repository_id)) [
  | inl e ↦ mem-append_left _ _ (mem-filter_of (λ r. str_lt last r.repository_id) heads m e)
  | inr e ↦
      mem-append_right (filter (λ r. str_lt last r.repository_id) heads) _
        (mem-filter_of (λ r. not (str_lt last r.repository_id)) heads m (ap (λ b. not b) e))
]

pub first-mem : (xs : List RunRecord) {x : RunRecord} → first xs ≡ some x → Memᴰ x xs
unfolding first
first-mem [] e = cc
first-mem (y ∷ xs) e = Memᴰ.head (ground arith)

pub first-none : (xs : List RunRecord) {x : RunRecord} → first xs ≡ none → ¬ Memᴰ x xs
unfolding first
first-none [] e m = elim m [ ]
first-none (y ∷ xs) e m = cc
