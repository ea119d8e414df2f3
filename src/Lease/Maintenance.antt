-- ===== src/Lease/Maintenance.antt =====
-- store.rs `maintain_child_cpu_leases`: orphaned leases are cancelled, and each running parent's
-- budget is handed to its waiting leases.
use agcoord.Base.{
  ℕ, zero, suc, ◌+◌, ◌-◌, ◌^◌, min, String, Bool, not, ◌&&◌, ◌||◌, Option, none, some, List, [],
  ◌∷◌, ltb, leb, ◌==◌, str_eq, str_lt, any, filter, length, if◌then◌else◌,
}
use agcoord.Run.{RunRecord, Result, ok, err, ◌>>=◌, is_running, load_run, lease_row_invalid}
use agcoord.Process.{ProcessTable}
use agcoord.Lease.{
  Lease, active, cancelled, is_waiting, is_active, is_live, load_live_child_leases, cpu_budget,
  owner_admitted,
}

-- `UPDATE child_cpu_leases SET … WHERE lease_id = … AND <condition>`
unfoldable pub update : (Lease → Lease) → (Lease → Bool) → List Lease → List Lease
update change matches [] = []
update change matches (lease ∷ table) =
    (if matches lease then change lease else lease) ∷ update change matches table

abbrev pub live_row : String → Lease → Bool
live_row lease_id lease = str_eq lease.lease_id lease_id && is_live lease.status

abbrev pub waiting_row : String → Lease → Bool
waiting_row lease_id lease = str_eq lease.lease_id lease_id && is_waiting lease.status

abbrev pub cancel_row : ℕ → Lease → Lease
cancel_row now lease = record lease { status = cancelled; finished_at = some now }

abbrev pub bypass_row : Lease → Lease
bypass_row lease = record lease { bypass_count = lease.bypass_count + 1 }

abbrev pub grant_row : ℕ → ℕ → Lease → Lease
grant_row granted now lease = record lease {
  status = active;
  granted = granted;
  acquired_at = some now;
}

-- The first loop: a lease whose parent or owner is gone is cancelled.
unfoldable pub cancel_orphans :
    ProcessTable → List RunRecord → ℕ → List Lease → List Lease → Result (List Lease)
cancel_orphans processes runs now [] table = ok table
cancel_orphans processes runs now (lease ∷ leases) table = do
  parent ← load_run runs lease.run_id
  cancel_orphans processes runs now leases (
      if owner_admitted processes parent lease.owner_pid lease.owner_start_token
      then table
      else update (cancel_row now) (live_row lease.lease_id) table)

-- `collect::<BTreeSet<_>>()`: sorted, each once.
unfoldable pub set_insert : String → List String → List String
set_insert name [] = name ∷ []
set_insert name (x ∷ xs) =
    if str_eq name x
    then x ∷ xs
    else if str_lt name x
    then name ∷ x ∷ xs
    else x ∷ set_insert name xs

unfoldable pub run_ids : List Lease → List String
unfolding set_insert
run_ids [] = []
run_ids (lease ∷ leases) = set_insert lease.run_id (run_ids leases)

-- `try_fold` with `checked_add`
unfoldable pub checked_total : ℕ → List Lease → Result ℕ
checked_total total [] = ok total
checked_total total (lease ∷ leases) =
    if ltb (total + lease.granted) (2 ^ 64)
    then checked_total (total + lease.granted) leases
    else err lease_row_invalid

-- The index of the first lease after the head that fits.
unfoldable pub first_fit : ℕ → List Lease → Option ℕ
first_fit available [] = none
first_fit available (lease ∷ leases) =
    let later = first_fit available leases in
    if leb lease.minimum available
    then some 0
    else elim later [ none ↦ none | some i ↦ some (suc i) ]

-- `selected_index`: the head if it fits; else, unless it was passed over before, the first that does.
unfoldable pub selected_index : ℕ → Lease → List Lease → Option ℕ
unfolding first_fit
selected_index available head others =
    if leb head.minimum available
    then some 0
    else if leb 1 head.bypass_count
    then none
    else elim (first_fit available others) [ none ↦ none | some i ↦ some (suc i) ]

-- `waiting.remove(index)`: the lease and the others.
unfoldable pub take_at : ℕ → Lease → List Lease → Lease × List Lease
take_at zero head others = (head, others)
take_at (suc i) head [] = (head, [])
take_at (suc i) head (next ∷ others) =
    let (selected, rest) = take_at i next others in (selected, head ∷ rest)

-- `if selected_index > 0`: the head was passed over, in the queue and in the table.
abbrev pub passed_head : ℕ → Lease → Lease
passed_head zero head = head
passed_head (suc i) head = bypass_row head

abbrev pub passed_table : ℕ → Lease → List Lease → List Lease
passed_table zero head table = table
passed_table (suc i) head table =
    update bypass_row (λ lease. str_eq lease.lease_id head.lease_id) table

-- The grant to the selected lease: the units left, the queue left and the table.
unfoldable pub give : ℕ → ℕ → Lease → List Lease → List Lease → Result (ℕ × List Lease × List Lease)
give now available selected rest table =
    let granted = min selected.requested available in
    if ltb granted selected.minimum
    then err lease_row_invalid
    else ok (
      available - granted,
      rest,
      update (grant_row granted now) (waiting_row selected.lease_id) table,
    )

-- One round of the loop.
unfoldable pub grant_one :
    ℕ → ℕ → ℕ → Lease → List Lease → List Lease → Result (ℕ × List Lease × List Lease)
unfolding give take_at
grant_one now available index head others table =
    let (selected, rest) = take_at index (passed_head index head) others in
    give now available selected rest (passed_table index head table)

-- `while available > 0 && !waiting.is_empty()`. Each round takes one lease from the list, whose
-- length is the fuel.
unfoldable pub grant_loop : ℕ → ℕ → ℕ → List Lease → List Lease → Result (List Lease)
grant_loop zero now available queue table = ok table
grant_loop (suc fuel) now available [] table = ok table
grant_loop (suc fuel) now available (head ∷ others) table =
    if available == 0 then ok table else elim (selected_index available head others) [
      | none ↦ ok table
      | some index ↦ do
        (left, rest, table') ← grant_one now available index head others table
        grant_loop fuel now left rest table'
    ]

abbrev pub of_run : String → (Lease → Bool) → List Lease → List Lease
of_run run_id test table = filter (λ lease. str_eq lease.run_id run_id && test lease) table

-- The body of the second loop, for one parent.
unfoldable pub schedule_run : List RunRecord → ℕ → String → List Lease → Result (List Lease)
schedule_run runs now run_id table = do
  parent ← load_run runs run_id
  if not (is_running parent.status) || parent.cancel_requested then ok table else do
    budget ← cpu_budget parent lease_row_invalid
    live ← load_live_child_leases table
    used ← checked_total 0 (of_run run_id (λ lease. is_active lease.status) live)
    if ltb budget used then err lease_row_invalid else do
      let queue = of_run run_id (λ lease. is_waiting lease.status) live
      grant_loop (length queue) now (budget - used) queue table

unfoldable pub schedule_runs : List RunRecord → ℕ → List String → List Lease → Result (List Lease)
schedule_runs runs now [] table = ok table
schedule_runs runs now (run_id ∷ ids) table = do
  table' ← schedule_run runs now run_id table
  schedule_runs runs now ids table'

-- An error rolls the transaction back: the caller keeps the old table.
unfoldable pub maintain_child_cpu_leases :
    ProcessTable → List RunRecord → ℕ → List Lease → Result (List Lease)
unfolding schedule_runs
maintain_child_cpu_leases processes runs now table =
    if not (any (λ lease. is_live lease.status) table) then ok table else do
      leases ← load_live_child_leases table
      table₁ ← cancel_orphans processes runs now leases table
      live ← load_live_child_leases table₁
      schedule_runs runs now (run_ids live) table₁
