-- ===== src/Lease/Requests.antt =====
-- A request and an end of a lease leave the lease table in good order.
use agcoord.Base.{
  ℕ, suc, ◌≤◌, ◌<◌, ◌^◌, String, ◌≡◌, refl, subst, sym, inl, inr, true, false, some, List, [], ◌∷◌,
  ◌++◌, any, lookup, str_eq, eq_iff, if◌then◌else◌, All, Bool-cases, Option-cases, arith,
}
use agcoord.Run.{RunRecord, ok, load_run}
use agcoord.Process.{ProcessTable, same_process}
use agcoord.Spool.{Spool, set_last_activity}
use agcoord.Lease.{
  Lease, LeaseStatus, is_active, is_live, coherent, status_coherent, cpu_budget, load_child_lease,
}
use agcoord.Lease.Maintenance.{update, live_row}
use agcoord.Lease.Rows.{
  lease_ids, UniqueIds, Unique, IsCoherent, used, lease_ids-update, update-All,
}
use agcoord.Lease.Budget.{HasBudget, IsBudgeted}
use agcoord.Lease.Request.{
  ChildLeaseRequest, lease_request_valid, requested_row, insert_lease, request_child_cpu_lease,
  ChildLeaseOwnerRequest, is_end, end_row, finish_child_cpu_lease,
}
use agcoord.Life.Loaded.{Result-cases}
use agcoord.Life.Invariant.{All-append}

set_last_activity-tables :
    (now : ℕ) (s : Spool) {s' : Spool}
    → set_last_activity now s ≡ ok s'
    → (s'.runs ≡ s.runs) × (s'.leases ≡ s.leases)
unfolding set_last_activity
set_last_activity-tables now s h = ground arith

used-append :
    (run_id : String) (table : List Lease) (row : Lease)
    → is_active row.status ≡ false
    → used run_id (table ++ row ∷ []) ≡ used run_id table
unfolding used
used-append run_id [] row h = ground arith
used-append run_id (lease ∷ table) row h = ground (arith, used-append run_id table row h)

Unique-append :
    (table : List Lease) (row : Lease)
    → any (λ (lease : Lease). str_eq lease.lease_id row.lease_id) table ≡ false
    → Unique table
    → Unique (table ++ row ∷ [])
Unique-append [] row n u = (tt, tt)
Unique-append (lease ∷ table) row n u = (
  apart table u.0
      (ground (arith, eq_iff lease.lease_id row.lease_id, eq_iff row.lease_id lease.lease_id)),
  Unique-append table row (ground arith) u.1,
)
  where
    apart :
        (xs : List Lease)
        → All (λ y. str_eq y lease.lease_id ≡ false) (lease_ids xs)
        → str_eq row.lease_id lease.lease_id ≡ false
        → All (λ y. str_eq y lease.lease_id ≡ false) (lease_ids (xs ++ row ∷ []))
    apart [] h e = (e, tt)
    apart (x ∷ xs) h e = (h.0, apart xs h.1 e)

-- The CPU units of every run fit i64, as `validate_submit` demands.
abbrev pub UnitsFit : List RunRecord → Type 0
UnitsFit runs =
    (run_id : String) (parent : RunRecord) (budget : ℕ)
    → load_run runs run_id ≡ ok parent
    → lookup "cpu" parent.resources ≡ some budget
    → budget < 2 ^ 63

-- Where the CPU units of every run fit i64, the next sequence is positive and the lease table is
-- in good order, a request that succeeds appends its waiting row behind all others, and the table
-- stays in good order.
pub request_child_cpu_lease-IsBudgeted :
    (processes : ProcessTable) (now : ℕ) (request : ChildLeaseRequest) (s : Spool) {s' : Spool}
    → UnitsFit s.runs
    → 0 < s.next_lease
    → IsBudgeted s.runs s.leases
    → request_child_cpu_lease processes now request s ≡ ok s'
    → (s'.leases ≡ s.leases ++ requested_row now request s.next_lease ∷ [])
      × IsBudgeted s'.runs s'.leases
unfolding request_child_cpu_lease insert_lease cpu_budget lease_request_valid coherent
    status_coherent
request_child_cpu_lease-IsBudgeted processes now request s {s'} fits next b h =
    elim (Result-cases (load_run s.runs request.run_id)) [
      | inr (e, l) ↦ absurd (ground (arith, l))
      | inl (parent, l) ↦ elim (Option-cases (lookup "cpu" parent.resources)) [
        | inl n ↦ absurd (ground (arith, l, n))
        | inr (budget, n) ↦
            let row : Lease = requested_row now request s.next_lease in
            let base : Spool = record s {
              leases = s.leases ++ row ∷ [];
              next_lease = suc s.next_lease;
            } in
            let g : (lease_request_valid request ≡ true)
                × (request.minimum ≤ budget)
                × (any (λ (lease : Lease). str_eq lease.lease_id request.lease_id) s.leases ≡ false)
                × (0 < request.owner_pid)
                × (set_last_activity now base ≡ ok s') =
              ground (arith, l, n) in
            let t : (s'.runs ≡ s.runs) × (s'.leases ≡ s.leases ++ row ∷ []) =
              set_last_activity-tables now base g.4 in
            (
              t.1,
              rw (t.0, t.1)
                  (record {
                    unique = Unique-append s.leases row g.2 b.unique;
                    rows =
                        All-append (λ l. IsCoherent l) s.leases _ b.rows
                          (ground (arith, g.0, g.3, next), tt);
                    homes =
                        All-append (λ (l : Lease). HasBudget s.runs l.run_id l.minimum) s.leases _
                          b.homes
                          (
                            record {
                              parent = parent;
                              budget = budget;
                              loaded = l;
                              declared = n;
                              fits = fits request.run_id parent budget l n;
                              covers = g.1;
                            },
                            tt,
                          );
                    within = λ run_id p units i d.
                        omega (
                          arith,
                          used-append run_id s.leases row refl,
                          b.within run_id p units i d,
                        );
                  }),
            )
      ]
    ]

used-end :
    (run_id lease_id : String) (status : LeaseStatus) (now : ℕ) (table : List Lease)
    → is_end status ≡ true
    → used run_id (update (end_row status now) (live_row lease_id) table) ≤ used run_id table
unfolding update used
used-end run_id lease_id status now [] e = omega arith
used-end run_id lease_id status now (lease ∷ table) e =
    ground (arith, used-end run_id lease_id status now table e)

end_row-IsCoherent :
    (status : LeaseStatus) (now : ℕ) (lease : Lease)
    → is_end status ≡ true
    → IsCoherent lease
    → IsCoherent (end_row status now lease)
unfolding coherent status_coherent
end_row-IsCoherent status now lease e h = ground (arith, e, h)

end-IsBudgeted :
    (runs : List RunRecord) (lease_id : String) (status : LeaseStatus) (now : ℕ)
    (table : List Lease)
    → is_end status ≡ true
    → IsBudgeted runs table
    → IsBudgeted runs (update (end_row status now) (live_row lease_id) table)
end-IsBudgeted runs lease_id status now table e h = record {
  unique =
      subst UniqueIds
        (sym (lease_ids-update (end_row status now) (live_row lease_id) (λ l. refl) table))
        h.unique;
  rows =
      update-All (end_row status now) (live_row lease_id) (λ l. IsCoherent l) (λ l. IsCoherent l)
        table (λ l p m. end_row-IsCoherent status now l e p) (λ l p m. p) h.rows;
  homes =
      update-All (end_row status now) (live_row lease_id)
        (λ (l : Lease). HasBudget runs l.run_id l.minimum)
        (λ (l : Lease). HasBudget runs l.run_id l.minimum) table (λ l p m. p) (λ l p m. p) h.homes;
  within = λ run_id parent budget l d.
      omega (arith, used-end run_id lease_id status now table e, h.within run_id parent budget l d);
}

-- An end of a lease that succeeds was asked for by the owner of the lease, a live process, and it
-- keeps a lease table in good order so.
pub finish_child_cpu_lease-IsBudgeted :
    (processes : ProcessTable) (now : ℕ) (request : ChildLeaseOwnerRequest) (status : LeaseStatus)
    (s : Spool) {s' : Spool}
    → IsBudgeted s.runs s.leases
    → finish_child_cpu_lease processes now request status s ≡ ok s'
    → (lease : Lease) × (load_child_lease s.leases request.lease_id ≡ ok lease)
      × (lease.owner_pid ≡ request.owner_pid)
      × (lease.owner_start_token ≡ request.owner_start_token)
      × (same_process processes request.owner_pid request.owner_start_token ≡ true)
      × IsBudgeted s'.runs s'.leases
unfolding finish_child_cpu_lease
finish_child_cpu_lease-IsBudgeted processes now request status s {s'} b h =
    elim (Result-cases (load_child_lease s.leases request.lease_id)) [
      | inr (e, l) ↦ absurd (ground (arith, l))
      | inl (lease, l) ↦
          let leases : List Lease =
            (if is_live lease.status
              then update (end_row status now) (live_row request.lease_id) s.leases
              else s.leases) in
          let g : (is_end status ≡ true)
              × (lease.owner_pid ≡ request.owner_pid)
              × (str_eq lease.owner_start_token request.owner_start_token ≡ true)
              × (same_process processes request.owner_pid request.owner_start_token ≡ true)
              × (set_last_activity now (record s { leases = leases }) ≡ ok s') =
            ground (arith, l) in
          let t : (s'.runs ≡ s.runs) × (s'.leases ≡ leases) =
            set_last_activity-tables now (record s { leases = leases }) g.4 in
          (
            lease,
            l,
            g.1,
            (eq_iff lease.owner_start_token request.owner_start_token).0 g.2,
            g.3,
            rw (t.0, t.1)
                (elim (Bool-cases (is_live lease.status)) [
                  | inl e ↦ rw e (end-IsBudgeted s.runs request.lease_id status now s.leases g.0 b)
                  | inr e ↦ rw e b
                ]),
          )
    ]
