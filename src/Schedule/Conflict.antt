-- ===== src/Schedule/Conflict.antt =====
-- When running jobs are safe together: the specification that admission is held against.

use agcoord.Base.{
  ℕ, ◌≤◌, String, ◌≡◌, refl, sym, ◌∙◌, ◌⊎◌, inl, inr, Bool, false, ◌&&◌, ◌||◌, List, [], ◌∷◌, ◌++◌,
  Memᴰ, All, All-of, All-mem, All-filter, Map, str_eq, eq_iff, arith, filter, Bool-cases,
}
use agcoord.Run.{RunRecord}
use agcoord.Schedule.Allocations.{total, at}

-- Two runs of one lane that may not run at once: two barriers, or a barrier and any job in its
-- worktree.
unfoldable pub clash : RunRecord → RunRecord → Bool
clash a b =
    (a.barrier && b.barrier) || ((a.barrier || b.barrier) && str_eq a.worktree_id b.worktree_id)

-- The same over all lanes: work in two repositories never clashes.
unfoldable pub conflict : RunRecord → RunRecord → Bool
unfolding clash
conflict a b = str_eq a.repository_id b.repository_id && clash a b

-- No two of the runs stand in the relation.
abbrev pub Apart : (RunRecord → RunRecord → Bool) → List RunRecord → Type 0
Apart r [] = Unit {0}
Apart r (x ∷ xs) = All (λ y. r x y ≡ false) xs × Apart r xs

-- The running jobs are safe together: no conflict, and no resource beyond its capacity.
pub record IsSafe (capacities : Map ℕ) (active : List RunRecord) : Type 0 where
  pub apart : Apart conflict active
  pub within : (name : String) → total name active ≤ at name capacities

pub conflict_comm : (a b : RunRecord) → conflict a b ≡ false → conflict b a ≡ false
unfolding conflict
conflict_comm a b h = ground (
  arith,
  eq_iff a.repository_id b.repository_id,
  eq_iff b.repository_id a.repository_id,
  eq_iff a.worktree_id b.worktree_id,
  eq_iff b.worktree_id a.worktree_id,
)

module _ (r : RunRecord → RunRecord → Bool) where
  pub Apart-of :
      (xs : List RunRecord)
      → ((a b : RunRecord) → Memᴰ a xs → Memᴰ b xs → r a b ≡ false)
      → Apart r xs
  Apart-of [] h = tt
  Apart-of (x ∷ xs) h = (
    All-of _ xs (λ y m. h x y (Memᴰ.head refl) (Memᴰ.tail m)),
    Apart-of xs (λ a b m n. h a b (Memᴰ.tail m) (Memᴰ.tail n)),
  )

  pub Apart-filter :
      (p : RunRecord → Bool) (xs : List RunRecord) → Apart r xs → Apart r (filter p xs)
  Apart-filter p [] h = tt
  Apart-filter p (x ∷ xs) h = elim (Bool-cases (p x)) [
    | inl e ↦ rw e (All-filter _ p xs h.0, Apart-filter p xs h.1)
    | inr e ↦ rw e (Apart-filter p xs h.1)
  ]

  -- Of two members one stands before the other, unless they are the same.
  pub Apart-mem :
      {a b : RunRecord} (xs : List RunRecord)
      → Apart r xs
      → Memᴰ a xs
      → Memᴰ b xs
      → (a ≡ b) ⊎ ((r a b ≡ false) ⊎ (r b a ≡ false))
  Apart-mem [] h m n = elim m [ ]
  Apart-mem (x ∷ xs) h (Memᴰ.head e) (Memᴰ.head f) = inl (e ∙ sym f)
  Apart-mem (x ∷ xs) h (Memᴰ.head e) (Memᴰ.tail n) =
      inr (inl (rw e (All-mem (λ y. r x y ≡ false) xs h.0 n)))
  Apart-mem (x ∷ xs) h (Memᴰ.tail m) (Memᴰ.head f) =
      inr (inr (rw f (All-mem (λ y. r x y ≡ false) xs h.0 m)))
  Apart-mem (x ∷ xs) h (Memᴰ.tail m) (Memᴰ.tail n) = Apart-mem xs h.1 m n

  -- A run that is apart from all the others may stand anywhere among them.
  pub Apart-middle :
      (sym_r : (a b : RunRecord) → r a b ≡ false → r b a ≡ false) (run : RunRecord)
      (before after : List RunRecord)
      → Apart r (before ++ after)
      → ((y : RunRecord) → Memᴰ y (before ++ after) → r run y ≡ false)
      → Apart r (before ++ run ∷ after)
  Apart-middle sym_r run [] after h new = (All-of _ after new, h)
  Apart-middle sym_r run (x ∷ before) after h new =
      (All-insert before h.0, Apart-middle sym_r run before after h.1 (λ y m. new y (Memᴰ.tail m)))
    where
      All-insert :
          (xs : List RunRecord)
          → All (λ y. r x y ≡ false) (xs ++ after)
          → All (λ y. r x y ≡ false) (xs ++ run ∷ after)
      All-insert [] a = (sym_r run x (new x (Memᴰ.head refl)), a)
      All-insert (y ∷ ys) a = (a.0, All-insert ys a.1)
