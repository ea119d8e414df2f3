-- ===== src/Schedule/Validate.antt =====
-- broker.rs `validate_active` decides the specification.

use mathlib.Core.List.{append-nil, append_assoc}
use agcoord.Base.{
  ℕ, ◌<◌, ◌^◌, String, ◌≡◌, refl, ap, sym, ◌∙◌, inl, inr, ◌↔◌, Bool, true, false, not, List, [],
  ◌∷◌, ◌++◌, Memᴰ, All-of, All-mem, Map, lookup, insert, lookup-insert, insert-Distinct, Distinct,
  get_or, str_eq, eq_iff, arith, filter, mem-filter, mem-filter_of, Bool-cases, all_entries,
  all_entries-get_or, all_entries_of,
}
use agcoord.Run.{RunRecord, ok}
use agcoord.Schedule.{allocations, overlapping, overlap_with, group, fits, validate_active}
use agcoord.Schedule.Allocations.{at, allocations-total, allocations-Distinct}
use agcoord.Schedule.Conflict.{clash, conflict, Apart, IsSafe}
use agcoord.Schedule.Overlap.{overlapping-Apart, Apart-overlapping}

abbrev in_lane : String → RunRecord → Bool
in_lane repository run = str_eq run.repository_id repository

abbrev lane : String → Map (List RunRecord) → List RunRecord
lane repository repositories = get_or (lookup repository repositories) []

group-Distinct :
    (active : List RunRecord) (m : Map (List RunRecord)) → Distinct m → Distinct (group active m)
unfolding group
group-Distinct [] m d = d
group-Distinct (run ∷ active) m d =
    group-Distinct active _ (insert-Distinct run.repository_id _ m d)

-- The grouping collects the runs of each repository in their order.
lane-group :
    (repository : String) (active : List RunRecord) (m : Map (List RunRecord))
    → lane repository (group active m) ≡ lane repository m ++ filter (in_lane repository) active
unfolding group
lane-group repository [] m = sym (append-nil _)
lane-group repository (run ∷ active) m =
    lane-group repository active (insert run.repository_id pushed m)
    ∙ elim (Bool-cases (str_eq run.repository_id repository)) [
      | inl e ↦
          rw (lookup-insert run.repository_id repository pushed m, e)
            (append_assoc (lane run.repository_id m) (run ∷ []) _
              ∙ ap (λ r. lane r m ++ run ∷ filter (in_lane repository) active)
                  ((eq_iff run.repository_id repository).0 e))
      | inr e ↦ rw (lookup-insert run.repository_id repository pushed m, e)
    ]
  where
    pushed : List RunRecord
    pushed = lane run.repository_id m ++ run ∷ []

-- Runs are apart just when those of each repository are.
Apart-lanes :
    (active : List RunRecord)
    → ((repository : String) → Apart clash (filter (in_lane repository) active))
    → Apart conflict active
unfolding conflict
Apart-lanes [] h = tt
Apart-lanes (x ∷ xs) h = (
  All-of _ xs λ y m. elim (Bool-cases (str_eq y.repository_id x.repository_id)) [
    | inl e ↦ ground (
      arith,
      All-mem (λ z. clash x z ≡ false) _ own.0 (mem-filter_of (in_lane x.repository_id) xs m e),
    )
    | inr e ↦
        ground
          (arith, eq_iff x.repository_id y.repository_id, eq_iff y.repository_id x.repository_id)
  ],
  Apart-lanes xs (λ repository. shorter repository (in_lane repository x) refl),
)
  where
    own : Apart clash (x ∷ filter (in_lane x.repository_id) xs)
    own = rw ((eq_iff x.repository_id x.repository_id).1 refl) at (h x.repository_id)

    shorter :
        (repository : String) (b : Bool)
        → in_lane repository x ≡ b
        → Apart clash (filter (in_lane repository) xs)
    shorter repository true e =
        let g : Apart clash (x ∷ filter (in_lane repository) xs) = rw e at (h repository) in g.1
    shorter repository false e = rw e at (h repository)

lanes-Apart :
    (active : List RunRecord) (repository : String)
    → Apart conflict active
    → Apart clash (filter (in_lane repository) active)
unfolding conflict
lanes-Apart [] repository h = tt
lanes-Apart (x ∷ xs) repository h = elim (Bool-cases (in_lane repository x)) [
  | inl e ↦ rw e (
    All-of _ _ (λ y n. mate e y (mem-filter (in_lane repository) xs n)),
    lanes-Apart xs repository h.1,
  )
  | inr e ↦ rw e (lanes-Apart xs repository h.1)
]
  where
    mate :
        in_lane repository x ≡ true
        → (y : RunRecord) → Memᴰ y xs × (in_lane repository y ≡ true)
        → clash x y ≡ false
    mate e y (m, k) = ground (
      arith,
      All-mem (λ z. conflict x z ≡ false) xs h.0 m,
      eq_iff x.repository_id repository,
      eq_iff y.repository_id repository,
      eq_iff x.repository_id y.repository_id,
    )

-- A capacity that a broker accepts: `parse_capacities` refuses values above the largest i64.
abbrev pub CapacitiesFit : Map ℕ → Type 0
CapacitiesFit capacities = (name : String) → at name capacities < 2 ^ 63

abbrev no_overlap : String → List RunRecord → Bool
no_overlap repository runs = not (overlapping runs)

no_overlap-nil : (repository : String) → no_overlap repository [] ≡ true
unfolding overlapping overlap_with
no_overlap-nil repository = refl

fits-zero : (capacities : Map ℕ) (name : String) → fits capacities name 0 ≡ true
fits-zero capacities name = ground arith

-- The grouping of the whole list, as the filter by one repository.
lane-group_nil :
    (repository : String) (active : List RunRecord)
    → lane repository (group active []) ≡ filter (in_lane repository) active
unfolding lookup
lane-group_nil repository active = lane-group repository active []

validated-IsSafe :
    (capacities : Map ℕ) (active : List RunRecord)
    → CapacitiesFit capacities
    → all_entries (fits capacities) (allocations active) ≡ true
    → all_entries no_overlap (group active []) ≡ true
    → IsSafe capacities active
validated-IsSafe capacities active small f o = record {
  apart = Apart-lanes active λ repository. overlapping-Apart _ (
      ground (
        arith,
        lane-group_nil repository active,
        all_entries-get_or no_overlap [] (group active []) no_overlap-nil o repository,
      ));
  within = λ name. ground (
    arith,
    allocations-total name active,
    small name,
    all_entries-get_or (fits capacities) 0 (allocations active) (fits-zero capacities) f name,
  );
}

IsSafe-fits :
    (capacities : Map ℕ) (active : List RunRecord)
    → IsSafe capacities active
    → all_entries (fits capacities) (allocations active) ≡ true
IsSafe-fits capacities active s =
    all_entries_of (fits capacities) 0 (allocations active) (allocations-Distinct active)
      (fits-zero capacities) (λ name. ground (arith, allocations-total name active, s.within name))

IsSafe-no_overlap :
    (capacities : Map ℕ) (active : List RunRecord)
    → IsSafe capacities active
    → all_entries no_overlap (group active []) ≡ true
IsSafe-no_overlap capacities active s =
    all_entries_of no_overlap [] (group active []) (group-Distinct active [] tt) no_overlap-nil
      λ repository. ground (
        arith,
        lane-group_nil repository active,
        Apart-overlapping _ (lanes-Apart active repository s.apart),
      )

-- For capacities that fit i64, `validate_active` accepts the running jobs exactly when no two of
-- them conflict and the units that they hold under each name stay within its capacity.
pub validate_active-IsSafe :
    (capacities : Map ℕ) (active : List RunRecord)
    → CapacitiesFit capacities
    → (validate_active capacities active ≡ ok tt) ↔ IsSafe capacities active
unfolding validate_active
validate_active-IsSafe capacities active small = (
  (λ h. validated-IsSafe capacities active small (ground arith) (ground arith)),
  (λ s. ground (arith, IsSafe-fits capacities active s, IsSafe-no_overlap capacities active s)),
)
