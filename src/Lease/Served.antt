-- ===== src/Lease/Served.antt =====
-- What store.rs `maintain_child_cpu_leases` may do, said of the table alone.
use agcoord.Base.{
  ℕ, ◌+◌, ◌-◌, ◌≤◌, ◌<◌, min, String, ◌≡◌, ◌⊎◌, true, false, lookup, some, List, [], ◌∷◌, ◌++◌,
  Memᴰ, All,
}
use agcoord.Run.{RunRecord, ok, load_run, is_running}
use agcoord.Process.{ProcessTable}
use agcoord.Lease.{Lease, active, cancelled, is_live, owner_admitted}
use agcoord.Lease.Maintenance.{update, waiting_row, live_row}
use agcoord.Lease.Rows.{used}
use agcoord.Lease.Grant.{named}
use agcoord.Lease.Queue.{waiting_of}

-- The lease becomes active with the units.
abbrev pub served_row : ℕ → ℕ → Lease → Lease
served_row now units lease = record lease {
  status = active;
  granted = units;
  acquired_at = some now;
}

abbrev pub granted_to : ℕ → ℕ → Lease → List Lease → List Lease
granted_to now units lease table = update (served_row now units) (waiting_row lease.lease_id) table

-- The lease has been passed over once more.
abbrev pub counted : Lease → List Lease → List Lease
counted lease table =
    update (λ l. record l { bypass_count = l.bypass_count + 1 }) (named lease.lease_id) table

module _ (run_id : String) (now : ℕ) where
  -- Nothing more can be granted: no units are left, nothing waits, or the oldest waiting lease does
  -- not fit, and it has been passed over before or no other fits.
  abbrev pub Settled : ℕ → List Lease → Type 0
  Settled available table =
      (available ≡ 0)
      ⊎ (waiting_of run_id table ≡ [])
      ⊎ ((head : Lease) × (others : List Lease) × (waiting_of run_id table ≡ head ∷ others)
          × (available < head.minimum)
          × ((1 ≤ head.bypass_count) ⊎ All (λ (l : Lease). available < l.minimum) others))

  -- The oldest waiting lease is granted while it fits. If it does not fit and has not been passed over
  -- before, the first of the others that fits is granted in its place, which is counted, and that is
  -- all.
  pub data Serves : ℕ → List Lease → List Lease → Type 0 where
    settled :
        {available : ℕ} {table : List Lease}
        → Settled available table
        → Serves available table table
    serves_head :
        {available : ℕ} {table table' : List Lease} (head : Lease) (others : List Lease)
        → waiting_of run_id table ≡ head ∷ others
        → head.minimum ≤ available
        → Serves
            (available - min head.requested available)
            (granted_to now (min head.requested available) head table)
            table'
        → Serves available table table'
    passes_head :
        {available : ℕ} {table : List Lease} (head : Lease) (before : List Lease) (chosen : Lease)
        (after : List Lease)
        → waiting_of run_id table ≡ head ∷ before ++ chosen ∷ after
        → available < head.minimum
        → head.bypass_count ≡ 0
        → All (λ (l : Lease). available < l.minimum) before
        → chosen.minimum ≤ available
        → Serves available table
            (granted_to now (min chosen.requested available) chosen (counted head table))

-- Maintenance of a table that began as `start`: live leases of it whose owner is gone are cancelled,
-- and running parents that are not asked to stop are served what is left of their CPU units.
pub data Maintains (processes : ProcessTable) (runs : List RunRecord) (now : ℕ) (start : List Lease)
    : List Lease → List Lease → Type 0 where
  unchanged : {table : List Lease} → Maintains processes runs now start table table
  cancels :
      {table table' : List Lease} (lease : Lease) (parent : RunRecord)
      → Memᴰ lease start
      → is_live lease.status ≡ true
      → load_run runs lease.run_id ≡ ok parent
      → owner_admitted processes parent lease.owner_pid lease.owner_start_token ≡ false
      → Maintains processes runs now start
          (update
            (λ l. record l { status = cancelled; finished_at = some now })
            (live_row lease.lease_id)
            table)
          table'
      → Maintains processes runs now start table table'
  tends :
      {table table' table'' : List Lease} (run_id : String) (parent : RunRecord) (budget : ℕ)
      → load_run runs run_id ≡ ok parent
      → is_running parent.status ≡ true
      → parent.cancel_requested ≡ false
      → lookup "cpu" parent.resources ≡ some budget
      → Serves run_id now (budget - used run_id table) table table'
      → Maintains processes runs now start table' table''
      → Maintains processes runs now start table table''

pub Maintains-join :
    {processes : ProcessTable} {runs : List RunRecord} {now : ℕ} {start a b c : List Lease}
    → Maintains processes runs now start a b
    → Maintains processes runs now start b c
    → Maintains processes runs now start a c
Maintains-join unchanged n = n
Maintains-join (cancels lease parent m l r o rest) n =
    cancels lease parent m l r o (Maintains-join rest n)
Maintains-join (tends run_id parent budget r k c d s rest) n =
    tends run_id parent budget r k c d s (Maintains-join rest n)
