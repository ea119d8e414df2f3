-- ===== src/Lease/Budget.antt =====
-- Maintenance always succeeds on a table in good order, and leaves one.
use agcoord.Base.{
  ℕ, ◌-◌, ◌≤◌, ◌<◌, ◌^◌, String, ◌≡◌, refl, ap, subst, sym, inl, inr, false, not, ◌||◌, some, List,
  [], ◌∷◌, ltb, any, length, true, Memᴰ, mem-filter, All-of, filter, lookup, str_eq, str_lt, eq_iff,
  All, All-filter, Bool-cases, arith,
}
use agcoord.Run.{RunRecord, Error, Result, ok, load_run, is_running, lease_row_invalid}
use agcoord.Process.{ProcessTable}
use agcoord.Lease.{Lease, is_active, is_live, cpu_budget, owner_admitted}
use agcoord.Lease.Maintenance.{
  update, live_row, cancel_row, cancel_orphans, set_insert, run_ids, of_run, checked_total,
  grant_loop, schedule_run, schedule_runs, maintain_child_cpu_leases,
}
use agcoord.Lease.Rows.{
  UniqueIds, Unique, IsCoherent, used, lease_ids-update, update-All, used-cancel,
  cancel_row-IsCoherent,
}
use agcoord.Lease.Grant.{Loop, Spent}
use agcoord.Lease.Rounds.{grant_loop_ok}
use agcoord.Lease.Served.{Maintains, unchanged, cancels, tends, Maintains-join}
use agcoord.Lease.Serving.{grant_loop-Serves}
use agcoord.Lease.Queue.{load_live_ok, checked_total-used, waiting_of, waiting_of-Loop}

-- The run of a lease is there, and its CPU units fit i64 and cover the lease's minimum.
pub record HasBudget (runs : List RunRecord) (run_id : String) (minimum : ℕ) : Type 0 where
  pub parent : RunRecord
  pub budget : ℕ
  pub loaded : load_run runs run_id ≡ ok parent
  pub declared : lookup "cpu" parent.resources ≡ some budget
  pub fits : budget < 2 ^ 63
  pub covers : minimum ≤ budget

-- The lease table in good order over the rows of the runs.
pub record IsBudgeted (runs : List RunRecord) (table : List Lease) : Type 0 where
  pub unique : Unique table
  pub rows : All (λ l. IsCoherent l) table
  pub homes : All (λ (l : Lease). HasBudget runs l.run_id l.minimum) table
  pub within :
      (run_id : String) (parent : RunRecord) (budget : ℕ)
      → load_run runs run_id ≡ ok parent
      → lookup "cpu" parent.resources ≡ some budget
      → used run_id table ≤ budget

cpu_budget_ok :
    (parent : RunRecord) (e : Error) {units : ℕ}
    → lookup "cpu" parent.resources ≡ some units
    → cpu_budget parent e ≡ ok units
unfolding cpu_budget
cpu_budget_ok parent e d = rw (d, cpu_budget)

module _ (processes : ProcessTable) (runs : List RunRecord) (now : ℕ) (start : List Lease) where
  abbrev Succeeds : List Lease → Result (List Lease) → Type 0
  Succeeds before r =
      (table : List Lease) × (r ≡ ok table)
      × IsBudgeted runs table
      × Maintains processes runs now start before table

  cancel-IsBudgeted :
      (lease_id : String) (table : List Lease)
      → IsBudgeted runs table
      → IsBudgeted runs (update (cancel_row now) (live_row lease_id) table)
  cancel-IsBudgeted lease_id table h = record {
    unique =
        subst UniqueIds
          (sym (lease_ids-update (cancel_row now) (live_row lease_id) (λ l. refl) table)) h.unique;
    rows =
        update-All (cancel_row now) (live_row lease_id) (λ l. IsCoherent l) (λ l. IsCoherent l)
          table (λ l p e. cancel_row-IsCoherent now l p) (λ l p e. p) h.rows;
    homes =
        update-All (cancel_row now) (live_row lease_id)
          (λ (l : Lease). HasBudget runs l.run_id l.minimum)
          (λ (l : Lease). HasBudget runs l.run_id l.minimum) table (λ l p e. p) (λ l p e. p)
          h.homes;
    within = λ run_id parent budget l d.
        omega (arith, used-cancel run_id lease_id now table, h.within run_id parent budget l d);
  }

  cancel_orphans_ok :
      (leases table : List Lease)
      → All (λ (l : Lease). HasBudget runs l.run_id l.minimum) leases
      → All (λ (l : Lease). Memᴰ l start × (is_live l.status ≡ true)) leases
      → IsBudgeted runs table
      → Succeeds table (cancel_orphans processes runs now leases table)
  unfolding cancel_orphans
  cancel_orphans_ok [] table k m h = (table, refl, h, unchanged)
  cancel_orphans_ok (lease ∷ leases) table k m h =
      rw k.0.loaded
        (elim (Bool-cases
          (owner_admitted processes k.0.parent lease.owner_pid lease.owner_start_token)) [
            | inl e ↦ rw e (cancel_orphans_ok leases table k.1 m.1 h)
            | inr e ↦
                let rest : Succeeds (update (cancel_row now) (live_row lease.lease_id) table) _ =
                  cancel_orphans_ok leases (update (cancel_row now) (live_row lease.lease_id) table)
                    k.1 m.1 (cancel-IsBudgeted lease.lease_id table h) in
                rw e
                  (rest.0, rest.1, rest.2, cancels lease k.0.parent m.0.0 m.0.1 k.0.loaded e rest.3)
          ])

  schedule_run_ok :
      (run_id : String) (minimum : ℕ) (table : List Lease)
      → HasBudget runs run_id minimum
      → IsBudgeted runs table
      → Succeeds table (schedule_run runs now run_id table)
  unfolding schedule_run
  schedule_run_ok run_id minimum table k h =
      rw k.loaded
        (elim (Bool-cases (not (is_running k.parent.status) || k.parent.cancel_requested)) [
          | inl e ↦ rw e (table, refl, h, unchanged)
          | inr e ↦
              rw
                (
                  e,
                  cpu_budget_ok k.parent lease_row_invalid k.declared,
                  load_live_ok table h.rows,
                  sum,
                  room,
                )
                (granted (ground (arith, e)) (ground (arith, e)) (
                  grant_loop_ok (HasBudget runs) run_id _ now (k.budget - used run_id table)
                    (waiting_of run_id table) table
                    (waiting_of-Loop (HasBudget runs) run_id table h.unique h.rows h.homes)))
        ])
    where
      small : used run_id table ≤ k.budget
      small = h.within run_id k.parent k.budget k.loaded k.declared

      sum :
          checked_total 0
            (of_run run_id (λ l. is_active l.status) (filter (λ l. is_live l.status) table))
          ≡ ok (used run_id table)
      sum =
          ground
            (arith, small, k.fits, checked_total-used run_id 0 table (omega (arith, small, k.fits)))

      room : ltb k.budget (used run_id table) ≡ false
      room = ground (arith, small)

      granted :
          is_running k.parent.status ≡ true
          → k.parent.cancel_requested ≡ false
          → (table' : List Lease) × (grant_loop
                (length (waiting_of run_id table))
                now
                (k.budget - used run_id table)
                (waiting_of run_id table)
                table
              ≡ ok table')
            × Loop (HasBudget runs) run_id [] table'
            × Spent run_id (k.budget - used run_id table) table table'
          → Succeeds table (
              grant_loop
                (length (waiting_of run_id table))
                now
                (k.budget - used run_id table)
                (waiting_of run_id table)
                table)
      granted live asked (table', e, l, s) = (
        table',
        e,
        record {
          unique = l.unique;
          rows = l.rows;
          homes = l.homes;
          within = λ other parent budget o d. elim (Bool-cases (str_eq run_id other)) [
            | inl f ↦
                let same : run_id ≡ other = (eq_iff run_id other).0 f in
                let mine : some k.budget ≡ some budget =
                  cc (k.loaded, o, k.declared, d, ap (load_run runs) same) in
                ground (arith, s.own, small, ap (λ r. used r table') same)
            | inr f ↦ omega (arith, s.others other f, h.within other parent budget o d)
          ];
        },
        tends run_id k.parent k.budget k.loaded live asked k.declared
            (grant_loop-Serves run_id now (length (waiting_of run_id table))
              (k.budget - used run_id table) (waiting_of run_id table) table refl h.unique
              (omega arith) e)
            unchanged,
      )

  schedule_runs_ok :
      (ids : List String) (table : List Lease)
      → All (λ run_id. (minimum : ℕ) × HasBudget runs run_id minimum) ids
      → IsBudgeted runs table
      → Succeeds table (schedule_runs runs now ids table)
  unfolding schedule_runs
  schedule_runs_ok [] table k h = (table, refl, h, unchanged)
  schedule_runs_ok (run_id ∷ ids) table k h =
      let first : Succeeds table (schedule_run runs now run_id table) =
        schedule_run_ok run_id k.0.0 table k.0.1 h in
      let rest : Succeeds first.0 (schedule_runs runs now ids first.0) =
        schedule_runs_ok ids first.0 k.1 first.2 in
      rw first.1 (rest.0, rest.1, rest.2, Maintains-join first.3 rest.3)

set_insert-All {κ} :
    (P : String → Type κ) (name : String) (names : List String)
    → P name
    → All P names
    → All P (set_insert name names)
unfolding set_insert
set_insert-All P name [] p h = (p, tt)
set_insert-All P name (x ∷ names) p h = elim (Bool-cases (str_eq name x)) [
  | inl e ↦ rw e h
  | inr e ↦ elim (Bool-cases (str_lt name x)) [
    | inl f ↦ rw (e, f) (p, h)
    | inr f ↦ rw (e, f) (h.0, set_insert-All P name names p h.1)
  ]
]

run_ids-All :
    (runs : List RunRecord) (leases : List Lease)
    → All (λ (l : Lease). HasBudget runs l.run_id l.minimum) leases
    → All (λ run_id. (minimum : ℕ) × HasBudget runs run_id minimum) (run_ids leases)
unfolding run_ids
run_ids-All runs [] h = tt
run_ids-All runs (lease ∷ leases) h =
    set_insert-All _ lease.run_id (run_ids leases) (lease.minimum, h.0)
      (run_ids-All runs leases h.1)

live_mem :
    (table : List Lease)
    → All
        (λ (l : Lease). Memᴰ l table × (is_live l.status ≡ true))
        (filter (λ l. is_live l.status) table)
live_mem table = All-of _ _ (λ l m. mem-filter (λ x. is_live x.status) table m)

-- Over a lease table in good order maintenance succeeds, whatever processes are left, and the table
-- that it leaves is in good order: its rows are coherent, and no run's active leases are granted more
-- than its CPU units. All that has changed is that live leases whose owner is gone are cancelled, and
-- that running parents are served: the oldest waiting lease is granted while it fits; one that does
-- not fit is passed over only if it has not been before, for the first that fits, which is counted
-- on it and ends the round.
pub maintain-IsBudgeted :
    (processes : ProcessTable) (runs : List RunRecord) (now : ℕ) (table : List Lease)
    → IsBudgeted runs table
    → (table' : List Lease) × (maintain_child_cpu_leases processes runs now table ≡ ok table')
      × IsBudgeted runs table'
      × Maintains processes runs now table table table'
unfolding maintain_child_cpu_leases
maintain-IsBudgeted processes runs now table h =
    elim (Bool-cases (any (λ l. is_live l.status) table)) [
      | inr e ↦ rw e (table, refl, h, unchanged)
      | inl e ↦
          let orphans =
            cancel_orphans_ok processes runs now table (filter (λ l. is_live l.status) table) table
              (All-filter _ (λ l. is_live l.status) table h.homes) (live_mem table) h in
          let rest =
            schedule_runs_ok processes runs now table _ orphans.0
              (run_ids-All runs _ (All-filter _ (λ l. is_live l.status) orphans.0 orphans.2.homes))
              orphans.2 in
          rw (e, load_live_ok table h.rows, orphans.1, load_live_ok orphans.0 orphans.2.rows)
            (rest.0, rest.1, rest.2, Maintains-join orphans.3 rest.3)
    ]
