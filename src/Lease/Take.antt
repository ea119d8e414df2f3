-- ===== src/Lease/Take.antt =====
-- Which waiting lease is selected, and what is left of the queue.
use agcoord.Base.{
  ℕ, zero, suc, ◌≤◌, ◌<◌, String, ◌≡◌, ◌⊎◌, inl, inr, false, none, some, List, [], ◌∷◌, leb, str_eq,
  eq_iff, All, Bool-cases, Option-cases, arith,
}
use agcoord.Lease.{Lease}
use agcoord.Lease.Maintenance.{first_fit, selected_index, take_at}
use agcoord.Lease.Rows.{lease_ids, Unique}

pub take_at-All {κ} :
    (P : Lease → Type κ) (i : ℕ) (head : Lease) (others : List Lease)
    → All P (head ∷ others)
    → P (take_at i head others).0 × All P (take_at i head others).1
unfolding take_at
take_at-All P zero head others h = h
take_at-All P (suc i) head [] h = h
take_at-All P (suc i) head (next ∷ others) h =
    let rest : P (take_at i next others).0 × All P (take_at i next others).1 =
      take_at-All P i next others h.1 in
    (rest.0, (h.0, rest.1))

abbrev pub AllIds {κ} : (String → Type κ) → List String → Type κ
AllIds P ids = All P ids

take_at-ids {κ} :
    (P : String → Type κ) (i : ℕ) (head : Lease) (others : List Lease)
    → All P (lease_ids (head ∷ others))
    → P (take_at i head others).0.lease_id × All P (lease_ids (take_at i head others).1)
unfolding take_at
take_at-ids P zero head others h = h
take_at-ids P (suc i) head [] h = h
take_at-ids P (suc i) head (next ∷ others) h =
    let rest : P (take_at i next others).0.lease_id × All P (lease_ids (take_at i next others).1) =
      take_at-ids P i next others h.1 in
    (rest.0, (h.0, rest.1))

pub ne_flip : (a b : String) → str_eq a b ≡ false → str_eq b a ≡ false
ne_flip a b h = ground (arith, eq_iff a b, eq_iff b a)

All-flip :
    (x : String) (ids : List String)
    → All (λ y. str_eq y x ≡ false) ids
    → All (λ y. str_eq x y ≡ false) ids
All-flip x [] h = tt
All-flip x (y ∷ ids) h = (ne_flip y x h.0, All-flip x ids h.1)

-- The selected lease leaves the queue: no other has its ID.
pub take_at-Unique :
    (i : ℕ) (head : Lease) (others : List Lease)
    → Unique (head ∷ others)
    → All
        (λ y. str_eq (take_at i head others).0.lease_id y ≡ false)
        (lease_ids (take_at i head others).1)
      × Unique (take_at i head others).1
unfolding take_at
take_at-Unique zero head others h = (All-flip head.lease_id (lease_ids others) h.0, h.1)
take_at-Unique (suc i) head [] h = (tt, tt)
take_at-Unique (suc i) head (next ∷ others) h =
    let rest : All (λ y. str_eq (take_at i next others).0.lease_id y ≡ false)
          (lease_ids (take_at i next others).1)
        × Unique (take_at i next others).1 =
      take_at-Unique i next others h.1 in
    let apart = take_at-ids (λ y. str_eq y head.lease_id ≡ false) i next others h.0 in
    ((apart.0, rest.0), (apart.1, rest.1))

-- A lease found by `first_fit` is there, and fits.
pub first_fit-some :
    (available : ℕ) (next : Lease) (others : List Lease) {i : ℕ}
    → first_fit available (next ∷ others) ≡ some i
    → (take_at i next others).0.minimum ≤ available
unfolding first_fit take_at
first_fit-some available next [] {i} h = elim (Bool-cases (leb next.minimum available)) [
  | inl e ↦ let zeroth : i ≡ 0 = ground arith in rw zeroth (ground arith)
  | inr e ↦ absurd (ground arith)
]
first_fit-some available next (l ∷ rest) {i} h = elim (Bool-cases (leb next.minimum available)) [
  | inl e ↦ let zeroth : i ≡ 0 = ground arith in rw zeroth (ground arith)
  | inr e ↦ elim (Option-cases (first_fit available (l ∷ rest))) [
    | inl n ↦ absurd (ground arith)
    | inr (j, n) ↦
        let later : i ≡ suc j = ground arith in rw later (first_fit-some available l rest n)
  ]
]

-- Nothing is found only if nothing fits.
pub first_fit-none :
    (available : ℕ) (leases : List Lease)
    → first_fit available leases ≡ none
    → All (λ (l : Lease). available < l.minimum) leases
unfolding first_fit
first_fit-none available [] h = tt
first_fit-none available (l ∷ leases) h =
    (ground arith, first_fit-none available leases (ground arith))

-- The selected lease fits, and it is not the head only if the head does not fit and was not passed
-- over before.
pub selected_index-some :
    (available : ℕ) (head : Lease) (others : List Lease) {i : ℕ}
    → selected_index available head others ≡ some i
    → ((i ≡ 0) × (head.minimum ≤ available))
      ⊎ ((j : ℕ) × (i ≡ suc j)
          × (head.bypass_count ≡ 0)
          × (available < head.minimum)
          × (first_fit available others ≡ some j))
unfolding selected_index
selected_index-some available head others {i} h = elim (Bool-cases (leb head.minimum available)) [
  | inl e ↦ inl (ground arith, ground arith)
  | inr e ↦ elim (Option-cases (first_fit available others)) [
    | inl n ↦ absurd (ground arith)
    | inr (j, n) ↦ inr (j, ground arith, ground arith, ground arith, n)
  ]
]

pub taken_fits :
    (available : ℕ) (head : Lease) (others : List Lease) {i : ℕ}
    → selected_index available head others ≡ some i
    → (head' : Lease) → head'.minimum ≡ head.minimum
    → (take_at i head' others).0.minimum ≤ available
unfolding take_at
taken_fits available head others {i} h head' same =
    elim (selected_index-some available head others h) [
      | inl (z, f) ↦ rw z (ground arith)
      | inr (j, z, b, f, n) ↦ rw z (beyond others n)
    ]
  where
    beyond :
        (rest : List Lease)
        → {j : ℕ} → first_fit available rest ≡ some j
        → (take_at (suc j) head' rest).0.minimum ≤ available
    beyond [] n = absurd (unfold first_fit in cc)
    beyond (next ∷ rest) n = first_fit-some available next rest n
