-- ===== src/Lease/Rows.antt =====
-- What the updates of the lease table keep.
use agcoord.Base.{
  ℕ, subst, ◌+◌, ◌≤◌, String, ◌≡◌, refl, ap, inl, inr, Bool, true, false, ◌&&◌, List, [], ◌∷◌,
  str_eq, eq_iff, if◌then◌else◌, All, Bool-cases, arith,
}
use agcoord.Lease.{Lease, is_waiting, is_active, coherent}
use agcoord.Lease.Maintenance.{update, live_row, waiting_row, cancel_row, bypass_row, grant_row}

abbrev pub lease_ids : List Lease → List String
lease_ids [] = []
lease_ids (lease ∷ table) = lease.lease_id ∷ lease_ids table

abbrev pub UniqueIds : List String → Type 0
UniqueIds [] = Unit {0}
UniqueIds (x ∷ xs) = All (λ y. str_eq y x ≡ false) xs × UniqueIds xs

-- The UNIQUE constraint on `lease_id`.
abbrev pub Unique : List Lease → Type 0
Unique table = UniqueIds (lease_ids table)

abbrev pub IsCoherent : Lease → Type 0
IsCoherent lease = coherent lease ≡ true

-- The units granted to a run's active leases.
unfoldable pub used : String → List Lease → ℕ
used run_id [] = 0
used run_id (lease ∷ table) =
    (if str_eq lease.run_id run_id && is_active lease.status then lease.granted else 0)
    + used run_id table

module _ (change : Lease → Lease) (matches : Lease → Bool) where
  pub lease_ids-update :
      ((lease : Lease) → (change lease).lease_id ≡ lease.lease_id)
      → (table : List Lease) → lease_ids (update change matches table) ≡ lease_ids table
  unfolding update
  lease_ids-update same [] = refl
  lease_ids-update same (lease ∷ table) = ground (arith, same lease, lease_ids-update same table)

  pub update-All {κ} :
      (P Q : Lease → Type κ) (table : List Lease)
      → ((lease : Lease) → P lease → matches lease ≡ true → Q (change lease))
      → ((lease : Lease) → P lease → matches lease ≡ false → Q lease)
      → All P table
      → All Q (update change matches table)
  unfolding update
  update-All P Q [] hit miss h = tt
  update-All P Q (lease ∷ table) hit miss h = elim (Bool-cases (matches lease)) [
    | inl e ↦ rw e (hit lease h.0 e, update-All P Q table hit miss h.1)
    | inr e ↦ rw e (miss lease h.0 e, update-All P Q table hit miss h.1)
  ]

  pub update-none :
      (table : List Lease)
      → All (λ lease. matches lease ≡ false) table
      → update change matches table ≡ table
  unfolding update
  update-none [] h = refl
  update-none (lease ∷ table) h = ground (arith, h.0, update-none table h.1)

  -- A change that keeps what `used` reads.
  pub used-update :
      (run_id : String) (table : List Lease)
      → ((lease : Lease) → (change lease).run_id ≡ lease.run_id)
      → ((lease : Lease) → (change lease).status ≡ lease.status)
      → ((lease : Lease) → (change lease).granted ≡ lease.granted)
      → used run_id (update change matches table) ≡ used run_id table
  unfolding update used
  used-update run_id [] r s g = refl
  used-update run_id (lease ∷ table) r s g =
      ground (arith, r lease, s lease, g lease, used-update run_id table r s g)

pub used-cancel :
    (run_id lease_id : String) (now : ℕ) (table : List Lease)
    → used run_id (update (cancel_row now) (live_row lease_id) table) ≤ used run_id table
unfolding update used
used-cancel run_id lease_id now [] = omega arith
used-cancel run_id lease_id now (lease ∷ table) =
    ground (arith, used-cancel run_id lease_id now table)

pub ids-All :
    (lease_id : String) (table : List Lease)
    → All (λ y. str_eq y lease_id ≡ false) (lease_ids table)
    → All (λ (l : Lease). waiting_row lease_id l ≡ false) table
ids-All lease_id [] h = tt
ids-All lease_id (lease ∷ table) h = (ground (arith, h.0), ids-All lease_id table h.1)

-- A grant adds its units to the row's own run at most.
pub used-grant :
    (owner run_id lease_id : String) (granted now : ℕ) (table : List Lease)
    → Unique table
    → All (λ (l : Lease). str_eq l.lease_id lease_id ≡ true → l.run_id ≡ owner) table
    → used run_id (update (grant_row granted now) (waiting_row lease_id) table)
      ≤ used run_id table + (if str_eq owner run_id then granted else 0)
unfolding update used
used-grant owner run_id lease_id granted now [] u o = omega arith
used-grant owner run_id lease_id granted now (lease ∷ table) u o =
    elim (Bool-cases (waiting_row lease_id lease)) [
      | inl e ↦
          let same : lease.lease_id ≡ lease_id =
            (eq_iff lease.lease_id lease_id).0 (ground arith) in
          let others : All (λ y. str_eq y lease_id ≡ false) (lease_ids table) =
            subst (λ i. All (λ y. str_eq y i ≡ false) (lease_ids table)) same u.0 in
          ground (
            arith,
            e,
            o.0 (ground arith),
            ap (used run_id) (
                update-none (grant_row granted now) (waiting_row lease_id) table
                  (ids-All lease_id table others)),
          )
      | inr e ↦ ground (arith, e, used-grant owner run_id lease_id granted now table u.1 o.1)
    ]

pub cancel_row-IsCoherent :
    (now : ℕ) (lease : Lease) → IsCoherent lease → IsCoherent (cancel_row now lease)
unfolding coherent
cancel_row-IsCoherent now lease h = ground arith

pub bypass_row-IsCoherent :
    (lease : Lease) → lease.bypass_count ≡ 0 → IsCoherent lease → IsCoherent (bypass_row lease)
unfolding coherent
bypass_row-IsCoherent lease z h = ground arith

pub grant_row-IsCoherent :
    (granted now : ℕ) (lease : Lease)
    → is_waiting lease.status ≡ true
    → lease.minimum ≤ granted
    → granted ≤ lease.requested
    → IsCoherent lease
    → IsCoherent (grant_row granted now lease)
unfolding coherent
grant_row-IsCoherent granted now lease w a b h = ground arith
