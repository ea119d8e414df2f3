-- ===== src/Lease/Serving.antt =====
-- The grant loop of store.rs `maintain_child_cpu_leases` serves the waiting leases as specified.
use agcoord.Base.{
  ℕ, zero, suc, ◌-◌, ◌≤◌, ◌<◌, min, String, ◌≡◌, refl, ap, sym, subst, ◌∙◌, inl, inr, true, false,
  some, List, [], ◌∷◌, ◌++◌, length, leb, ltb, ◌==◌, All, Bool-cases, Option-cases, arith,
}
use agcoord.Run.{ok}
use agcoord.Lease.{Lease}
use agcoord.Lease.Maintenance.{
  waiting_row, bypass_row, first_fit, selected_index, take_at, give, grant_one, grant_loop,
}
use agcoord.Lease.Rows.{UniqueIds, Unique, lease_ids-update}
use agcoord.Lease.Take.{first_fit-none}
use agcoord.Lease.Queue.{waiting_of}
use agcoord.Lease.Served.{
  served_row, granted_to, counted, Serves, settled, serves_head, passes_head,
}
use agcoord.Lease.Waits.{waiting_of-granted}

granted_to-Unique :
    (now units : ℕ) (lease : Lease) (table : List Lease)
    → Unique table
    → Unique (granted_to now units lease table)
granted_to-Unique now units lease table u =
    subst UniqueIds
      (sym (lease_ids-update (served_row now units) (waiting_row lease.lease_id) (λ l. refl) table))
      u

-- The first that fits has none before it that does.
first_fit-place :
    (available : ℕ) (leases : List Lease) (j : ℕ) (head : Lease)
    → first_fit available leases ≡ some j
    → (before : List Lease) × (chosen : Lease) × (after : List Lease) × (leases
        ≡ before ++ chosen ∷ after)
      × All (λ (l : Lease). available < l.minimum) before
      × (chosen.minimum ≤ available)
      × (rest : List Lease) × (take_at (suc j) head leases ≡ (chosen, head ∷ rest))
unfolding first_fit take_at
first_fit-place available [] j head h = absurd (ground (arith, h))
first_fit-place available (l ∷ leases) j head h = elim (Bool-cases (leb l.minimum available)) [
  | inl e ↦
      let z : j ≡ 0 = ground (arith, h, e) in
      ([], l, leases, refl, tt, ground (arith, e), leases, rw z refl)
  | inr e ↦ elim (Option-cases (first_fit available leases)) [
    | inl n ↦ absurd (ground (arith, h, e, n))
    | inr (i, n) ↦
        let z : j ≡ suc i = ground (arith, h, e, n) in
        let found : (before : List Lease) × (chosen : Lease) × (after : List Lease) × (leases
              ≡ before ++ chosen ∷ after)
            × All (λ (x : Lease). available < x.minimum) before
            × (chosen.minimum ≤ available)
            × (rest : List Lease) × (take_at (suc i) l leases ≡ (chosen, l ∷ rest)) =
          first_fit-place available leases i l n in
        (
          l ∷ found.0,
          found.1,
          found.2,
          rw found.3 refl,
          (ground (arith, e), found.4),
          found.5,
          l ∷ found.6,
          rw z (rw (found.7) refl),
        )
  ]
]

-- A lease that does not fit and has been passed over before ends the loop.
passed_once :
    (fuel now left : ℕ) (head : Lease) (rest table : List Lease) {table' : List Lease}
    → left < head.minimum
    → 1 ≤ head.bypass_count
    → grant_loop fuel now left (head ∷ rest) table ≡ ok table'
    → table ≡ table'
unfolding grant_loop selected_index
passed_once zero now left head rest table {table'} f b h = ground (arith, h)
passed_once (suc fuel) now left head rest table {table'} f b h = elim (Bool-cases (left == 0)) [
  | inl e ↦ ground (arith, rw e at h)
  | inr e ↦
      let small : leb head.minimum left ≡ false = ground (arith, f) in
      let many : leb 1 head.bypass_count ≡ true = ground (arith, b) in
      let g : ok table ≡ ok table' = rw (e, small, many) at h in ground (arith, g)
]

nothing_waits :
    (fuel now available : ℕ) (table : List Lease) {table' : List Lease}
    → grant_loop fuel now available [] table ≡ ok table'
    → table ≡ table'
unfolding grant_loop
nothing_waits zero now available table h = ground (arith, h)
nothing_waits (suc fuel) now available table h = ground (arith, h)

module _ (run_id : String) (now : ℕ) where
  -- The loop, started from the waiting leases of the table with fuel for each.
  pub grant_loop-Serves :
      (fuel available : ℕ) (queue table : List Lease) {table' : List Lease}
      → waiting_of run_id table ≡ queue
      → Unique table
      → length queue ≤ fuel
      → grant_loop fuel now available queue table ≡ ok table'
      → Serves run_id now available table table'
  unfolding grant_loop grant_one selected_index take_at give
  grant_loop-Serves fuel available [] table {table'} w u l h =
      let e : table ≡ table' = nothing_waits fuel now available table h in
      subst (λ t. Serves run_id now available table t) e (settled (inr (inl w)))
  grant_loop-Serves zero available (head ∷ others) table {table'} w u l h =
      absurd (ground (arith, l))
  grant_loop-Serves (suc fuel) available (head ∷ others) table {table'} w u l h =
      elim (Bool-cases (available == 0)) [
        | inl e ↦
            let same : table ≡ table' = ground (arith, rw e at h) in
            subst (λ t. Serves run_id now available table t) same
              (settled (inl (ground (arith, e))))
        | inr e ↦ elim (Bool-cases (leb head.minimum available)) [
          | inl f ↦
              let units : ℕ = min head.requested available in
              elim (Bool-cases (ltb units head.minimum)) [
                | inl g ↦ absurd (ground (arith, rw (e, f, g) at h))
                | inr g ↦
                    let h' : grant_loop fuel now (available - units) others
                          (granted_to now units head table)
                        ≡ ok table' =
                      rw (e, f, g) at h in
                    serves_head head others w (ground (arith, f)) (
                      grant_loop-Serves fuel (available - units) others
                        (granted_to now units head table)
                        (waiting_of-granted run_id now units head others table u w)
                        (granted_to-Unique now units head table u) (ground (arith, l)) h')
              ]
          | inr f ↦ elim (Bool-cases (leb 1 head.bypass_count)) [
            | inl b ↦
                let same : table ≡ table' = ground (arith, rw (e, f, b) at h) in
                subst (λ t. Serves run_id now available table t) same
                  (settled
                    (inr (inr (head, others, w, ground (arith, f), inl (ground (arith, b))))))
            | inr b ↦ elim (Option-cases (first_fit available others)) [
              | inl n ↦
                  let same : table ≡ table' = ground (arith, rw (e, f, b, n) at h) in
                  subst (λ t. Serves run_id now available table t) same
                    (settled (
                      inr (
                        inr (
                          head,
                          others,
                          w,
                          ground (arith, f),
                          inr (first_fit-none available others n),
                        ))))
              | inr (j, n) ↦
                  let found : (before : List Lease) × (chosen : Lease) × (after : List Lease)
                      × (others ≡ before ++ chosen ∷ after)
                      × All (λ (x : Lease). available < x.minimum) before
                      × (chosen.minimum ≤ available)
                      × (rest : List Lease) × (take_at (suc j) (bypass_row head) others
                          ≡ (chosen, bypass_row head ∷ rest)) =
                    first_fit-place available others j (bypass_row head) n in
                  let units : ℕ = min found.1.requested available in
                  let after : List Lease = granted_to now units found.1 (counted head table) in
                  elim (Bool-cases (ltb units found.1.minimum)) [
                    | inl g ↦ absurd (ground (arith, rw (e, f, b, n, found.7, g) at h))
                    | inr g ↦
                        let h' : grant_loop fuel now (available - units) (bypass_row head ∷ found.6)
                              after
                            ≡ ok table' =
                          rw (e, f, b, n, found.7, g) at h in
                        let same : after ≡ table' =
                          passed_once fuel now (available - units) (bypass_row head) found.6 after
                            (ground (arith, f)) (ground (arith, b)) h' in
                        subst (λ t. Serves run_id now available table t) same
                          (passes_head head found.0 found.1 found.2 (w ∙ ap (◌∷◌ head) found.3)
                            (ground (arith, f)) (ground (arith, b)) found.4 found.5)
                  ]
            ]
          ]
        ]
      ]
