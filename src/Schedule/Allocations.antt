-- ===== src/Schedule/Allocations.antt =====
-- store.rs `allocations` against a plain sum over the active runs.
use agcoord.Base.{
  ℕ, ◌+◌, ◌-◌, ◌≤◌, min, String, ◌≡◌, refl, List, [], ◌∷◌, ◌++◌, Map, lookup, insert, lookup-insert,
  insert-Distinct, Distinct, get_or, str_eq, eq_iff, arith, if◌then◌else◌,
}
use agcoord.Run.{RunRecord}
use agcoord.Schedule.{u64_mod, saturating_add, allocate, allocate_runs, allocations}

-- The units of one name in one run's resources, without a bound.
unfoldable pub units_of : String → Map ℕ → ℕ
units_of name [] = 0
units_of name ((j, units) ∷ resources) =
    (if str_eq j name then units else 0) + units_of name resources

-- The units of one name that the active runs hold together.
unfoldable pub total : String → List RunRecord → ℕ
total name [] = 0
total name (run ∷ active) = units_of name run.resources + total name active

pub total-append :
    (name : String) (xs ys : List RunRecord) → total name (xs ++ ys) ≡ total name xs + total name ys
unfolding total
total-append name [] ys = omega arith
total-append name (x ∷ xs) ys = omega (arith, total-append name xs ys)

-- A key that stands once contributes its own units.
pub units_of-lookup :
    (name : String) (resources : Map ℕ)
    → Distinct resources
    → units_of name resources ≡ get_or (lookup name resources) 0
unfolding units_of lookup
units_of-lookup name [] d = refl
units_of-lookup name ((j, units) ∷ resources) d =
    ground (arith, eq_iff j name, units_of-lookup name resources d.1, d.0)

allocate-Distinct :
    (resources selected : Map ℕ) → Distinct selected → Distinct (allocate resources selected)
unfolding allocate
allocate-Distinct [] selected d = d
allocate-Distinct ((name, units) ∷ resources) selected d =
    allocate-Distinct resources _ (insert-Distinct name _ selected d)

allocate_runs-Distinct :
    (active : List RunRecord) (selected : Map ℕ)
    → Distinct selected
    → Distinct (allocate_runs active selected)
unfolding allocate_runs
allocate_runs-Distinct [] selected d = d
allocate_runs-Distinct (run ∷ active) selected d =
    allocate_runs-Distinct active _ (allocate-Distinct run.resources selected d)

pub allocations-Distinct : (active : List RunRecord) → Distinct (allocations active)
unfolding allocations
allocations-Distinct active = allocate_runs-Distinct active [] tt

abbrev pub at : String → Map ℕ → ℕ
at name m = get_or (lookup name m) 0

saturating_add-min : (a b : ℕ) → saturating_add a b ≡ min (a + b) (u64_mod - 1)
unfolding saturating_add
saturating_add-min a b = refl

allocate-units :
    (name : String) (resources selected : Map ℕ)
    → at name selected ≤ u64_mod - 1
    → at name (allocate resources selected)
      ≡ min (at name selected + units_of name resources) (u64_mod - 1)
unfolding allocate units_of
allocate-units name [] selected h = omega arith
allocate-units name ((j, units) ∷ resources) selected h = ground (
  arith,
  lookup-insert j name (saturating_add (at j selected) units) selected,
  eq_iff j name,
  saturating_add-min (at j selected) units,
  allocate-units name resources (insert j (saturating_add (at j selected) units) selected),
)

allocate_runs-units :
    (name : String) (active : List RunRecord) (selected : Map ℕ)
    → at name selected ≤ u64_mod - 1
    → at name (allocate_runs active selected)
      ≡ min (at name selected + total name active) (u64_mod - 1)
unfolding allocate_runs total
allocate_runs-units name [] selected h = omega arith
allocate_runs-units name (run ∷ active) selected h = omega (
  arith,
  allocate-units name run.resources selected h,
  allocate_runs-units name active (allocate run.resources selected)
      (omega (arith, allocate-units name run.resources selected h)),
)

-- `allocations` holds, for every name, the sum over all active runs of the units that they declare
-- under it, capped at the largest u64.
pub allocations-total :
    (name : String) (active : List RunRecord)
    → at name (allocations active) ≡ min (total name active) (u64_mod - 1)
unfolding allocations lookup
allocations-total name active = omega (arith, allocate_runs-units name active [] (omega arith))
