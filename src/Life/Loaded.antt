-- ===== src/Life/Loaded.antt =====
-- The row that an ID loads, and the update of it.
use agcoord.Base.{
  Bool, String, ◌≡◌, ◌⊎◌, inl, inr, refl, sym, ap, true, false, List, [], ◌∷◌, Memᴰ, find,
  find-some, str_eq, eq_iff, All, All-of, All-mem, Option-cases, arith,
}
use agcoord.Run.{RunRecord, Error, Result, ok, err, run_row, load_run}
use agcoord.Spool.{Spool, update_run}
use agcoord.Life.{Move, Change, moved}

-- No two rows have the same ID: the UNIQUE constraint on `run_id`.
abbrev pub UniqueRuns : List RunRecord → Type 0
UniqueRuns [] = Unit {0}
UniqueRuns (run ∷ runs) =
    All (λ (other : RunRecord). str_eq other.run_id run.run_id ≡ false) runs × UniqueRuns runs

pub Result-cases {ℓ} :
    {A : Type ℓ} (r : Result A) → ((a : A) × (r ≡ ok a)) ⊎ ((e : Error) × (r ≡ err e))
Result-cases (ok a) = inl (a, refl)
Result-cases (err e) = inr (e, refl)

pub load_run-mem :
    (runs : List RunRecord) (run_id : String) {run : RunRecord}
    → load_run runs run_id ≡ ok run
    → Memᴰ run runs × (str_eq run.run_id run_id ≡ true)
unfolding load_run run_row
load_run-mem runs run_id {run} h = elim (Option-cases (find (λ r. str_eq r.run_id run_id) runs)) [
  | inl n ↦ absurd (ground (arith, n))
  | inr (found, n) ↦
      let e : found ≡ run = ground (arith, n) in
      rw (sym e) (find-some (λ r. str_eq r.run_id run_id) runs n)
]

-- The rows that an ID matches are the row that is loaded by it.
pub sole_row :
    (runs : List RunRecord) (run_id : String) {run : RunRecord}
    → UniqueRuns runs
    → Memᴰ run runs
    → str_eq run.run_id run_id ≡ true
    → All (λ (r : RunRecord). str_eq r.run_id run_id ≡ true → r ≡ run) runs
sole_row [] run_id u m h = tt
sole_row (x ∷ xs) run_id {run} u (Memᴰ.head e) h = (
  λ k. sym e,
  All-of _ xs λ r n k. absurd (
      ground (
        arith,
        All-mem (λ (r : RunRecord). str_eq r.run_id x.run_id ≡ false) xs u.0 n,
        eq_iff r.run_id run_id,
        eq_iff run.run_id run_id,
        eq_iff r.run_id x.run_id,
        ap (λ (r : RunRecord). r.run_id) e,
      )),
)
sole_row (x ∷ xs) run_id {run} u (Memᴰ.tail m) h = (
  λ k. absurd (
      ground (
        arith,
        All-mem (λ (r : RunRecord). str_eq r.run_id x.run_id ≡ false) xs u.0 m,
        eq_iff x.run_id run_id,
        eq_iff run.run_id run_id,
        eq_iff run.run_id x.run_id,
      )),
  sole_row xs run_id u.1 m h,
)

-- An update by ID moves the row that it has loaded.
pub update_run-Change :
    {b : Bool} (change : RunRecord → RunRecord) (run_id : String) (s : Spool) {run : RunRecord}
    → UniqueRuns s.runs
    → load_run s.runs run_id ≡ ok run
    → Move run b (change run)
    → Change b s.runs (update_run change run_id s).runs
unfolding update_run
update_run-Change change run_id s {run} u l m =
    moved change (λ r. str_eq r.run_id run_id)
      (All-of _ s.runs λ r n k.
        rw
          (All-mem (λ (r : RunRecord). str_eq r.run_id run_id ≡ true → r ≡ run) s.runs
            (sole_row s.runs run_id u (load_run-mem s.runs run_id l).0
              (load_run-mem s.runs run_id l).1)
            n k)
          m)
