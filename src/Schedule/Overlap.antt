-- ===== src/Schedule/Overlap.antt =====
-- The overlap test of broker.rs `validate_active` over the runs of one repository.

use agcoord.Base.{
  ◌≡◌, refl, ap, inl, inr, Bool, true, false, not, ◌&&◌, List, [], ◌∷◌, Memᴰ, All-of, str_eq,
  eq_iff, arith, filter, mem-filter, mem-filter_of, filter-nil, any-eq-false, any-eq-false_of,
  Bool-cases,
}
use agcoord.Run.{RunRecord}
use agcoord.Schedule.{overlapping, overlap_with}
use agcoord.Schedule.Conflict.{clash, Apart, Apart-of, Apart-filter, Apart-mem}

abbrev is_barrier : RunRecord → Bool
is_barrier run = run.barrier

abbrev joins : RunRecord → RunRecord → Bool
joins barrier run = not run.barrier && str_eq run.worktree_id barrier.worktree_id

no_barrier-Apart : (xs : List RunRecord) → filter is_barrier xs ≡ [] → Apart clash xs
unfolding clash
no_barrier-Apart xs h =
    Apart-of clash xs
      λ a b m n. ground (arith, filter-nil is_barrier xs h m, filter-nil is_barrier xs h n)

one_barrier-Apart :
    (b : RunRecord) (xs : List RunRecord)
    → filter is_barrier xs ≡ b ∷ []
    → ((y : RunRecord) → Memᴰ y xs → joins b y ≡ false)
    → Apart clash xs
unfolding clash
one_barrier-Apart b [] h free = tt
one_barrier-Apart b (x ∷ xs) h free = elim (Bool-cases x.barrier) [
  | inl e ↦ (
    All-of _ xs
        λ y m. first_is e y (filter-nil is_barrier xs (ground arith) m) (free y (Memᴰ.tail m)),
    no_barrier-Apart xs (ground arith),
  )
  | inr e ↦ (
    All-of _ xs λ y m. later y e m (free x (Memᴰ.head refl)),
    one_barrier-Apart b xs (ground arith) (λ y m. free y (Memᴰ.tail m)),
  )
]
  where
    only : filter is_barrier xs ≡ b ∷ [] → {y : RunRecord} → Memᴰ y (filter is_barrier xs) → y ≡ b
    only g m = sole (rw g at m)
      where
        sole : {y : RunRecord} → Memᴰ y (b ∷ []) → y ≡ b
        sole (Memᴰ.head i) = i
        sole (Memᴰ.tail n) = elim n [ ]

    first_is :
        x.barrier ≡ true
        → (y : RunRecord) → y.barrier ≡ false
        → joins b y ≡ false
        → clash x y ≡ false
    first_is e y n f =
        let same : x ≡ b = ground arith in
        ground (
          arith,
          ap (λ (r : RunRecord). r.worktree_id) same,
          eq_iff x.worktree_id y.worktree_id,
          eq_iff y.worktree_id b.worktree_id,
        )

    later : (y : RunRecord) → x.barrier ≡ false → Memᴰ y xs → joins b x ≡ false → clash x y ≡ false
    later y e m f = elim (Bool-cases y.barrier) [
      | inl k ↦
          let same : y ≡ b = only (rw e at h) (mem-filter_of is_barrier xs m k) in
          ground (arith, ap (λ (r : RunRecord). r.worktree_id) same)
      | inr k ↦ ground arith
    ]

-- Among the runs of one repository `validate_active` finds no overlap just when none clash.
pub overlapping-Apart : (xs : List RunRecord) → overlapping xs ≡ false → Apart clash xs
unfolding overlapping overlap_with
overlapping-Apart xs h = go (filter is_barrier xs) refl
  where
    go : (bs : List RunRecord) → filter is_barrier xs ≡ bs → Apart clash xs
    go [] e = no_barrier-Apart xs e
    go (b ∷ []) e = one_barrier-Apart b xs e λ y m. any-eq-false (joins b) xs (ground arith) m
    go (b ∷ c ∷ bs) e = absurd (ground arith)

pub Apart-overlapping : (xs : List RunRecord) → Apart clash xs → overlapping xs ≡ false
unfolding overlapping overlap_with clash
Apart-overlapping xs h = go (filter is_barrier xs) refl
  where
    clear : (b y : RunRecord) → Memᴰ b xs → b.barrier ≡ true → Memᴰ y xs → joins b y ≡ false
    clear b y m k n = elim (Apart-mem clash xs h m n) [
      | inl e ↦ ground (arith, ap (λ (r : RunRecord). r.barrier) e)
      | inr e ↦
          ground (arith, eq_iff b.worktree_id y.worktree_id, eq_iff y.worktree_id b.worktree_id)
    ]

    go : (bs : List RunRecord) → filter is_barrier xs ≡ bs → overlap_with xs bs ≡ false
    go [] e = refl
    go (b ∷ []) e =
        let found : Memᴰ b xs × (b.barrier ≡ true) =
          mem-filter is_barrier xs (rw e (Memᴰ.head refl)) in
        ground (arith, any-eq-false_of (joins b) xs (λ y n. clear b y found.0 found.1 n))
    go (b ∷ c ∷ bs) e =
        let pair : Apart clash (b ∷ c ∷ bs) = rw e at (Apart-filter clash is_barrier xs h) in
        ground (
          arith,
          pair.0.0,
          (mem-filter is_barrier {a = b} xs (rw e (Memᴰ.head refl))).1,
          (mem-filter is_barrier {a = c} xs (rw e (Memᴰ.tail (Memᴰ.head refl)))).1,
        )
