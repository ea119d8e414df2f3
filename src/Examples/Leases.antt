-- ===== src/Examples/Leases.antt =====
-- A running check of two CPUs whose worker, process 10, has two children that ask for them.
use agcoord.Spool.{Spool, set_last_activity}
use agcoord.Lease.{released, load_child_lease}
use agcoord.Run.{run_row}
use agcoord.Base.{ap, ◌++◌}
use agcoord.Lease.Request.{
  ChildLeaseRequest, lease_request_valid, requested_row, insert_lease, request_child_cpu_lease,
  ChildLeaseOwnerRequest, end_row, finish_child_cpu_lease,
}
use agcoord.Lease.Requests.{
  UnitsFit, request_child_cpu_lease-IsBudgeted, finish_child_cpu_lease-IsBudgeted,
}
use agcoord.Base.{ℕ, String, ◌≡◌, refl, true, false, none, some, List, [], ◌∷◌, lookup, arith}
use agcoord.Run.{RunRecord, initial_receipt, check, executing, running, ok, load_run}
use agcoord.Process.{
  Process, ProcessTable, process_identity, round, is_descendant_process, same_process,
  same_worker_process,
}
use agcoord.Process.Descent.{Descends, is_descendant_process-Descends}
use agcoord.Lease.{
  Lease, waiting, active, cancelled, coherent, load_live_child_leases, owner_admitted, cpu_budget,
}
use agcoord.Lease.Maintenance.{
  update, cancel_orphans, run_ids, checked_total, selected_index, grant_one, grant_loop,
  schedule_run, maintain_child_cpu_leases,
}
use agcoord.Lease.Rows.{used}
use agcoord.Lease.Served.{Maintains}
use agcoord.Lease.Budget.{HasBudget, IsBudgeted, maintain-IsBudgeted}
use agcoord.Text.{identifier_valid}

abbrev worker : Process
worker = record { state = "S"; parent = 1; group = 10; token = "t10" }

abbrev helper : Process
helper = record { state = "S"; parent = 10; group = 10; token = "t11" }

abbrev processes : ProcessTable
processes = (10, worker) ∷ (11, helper) ∷ (1, record worker { parent = 0; token = "t1" }) ∷ []

-- What a test of the process table computes with.
walk : Unit {0}
unfolding is_descendant_process round process_identity same_process same_worker_process
walk = tt

helper_descends : is_descendant_process processes 11 "t11" 10 "t10" ≡ true
unfolding walk
helper_descends = refl

worker_not_below : is_descendant_process processes 10 "t10" 11 "t11" ≡ false
unfolding walk
worker_not_below = refl

is_descendant_process-Descends_example : Descends processes 10 "t10" 11 "t11"
is_descendant_process-Descends_example =
    is_descendant_process-Descends processes 11 "t11" 10 "t10" helper_descends

abbrev parent : RunRecord
parent = record {
  sequence = 1;
  run_id = "run-1";
  status = running;
  kind = check;
  phase = executing;
  label = "unit tests";
  agent = "agent";
  repository_id = "a";
  repository = "repo";
  worktree_id = "w1";
  checkout = "/src/repo";
  branch = "main";
  head_sha = none;
  barrier = false;
  resources = ("cpu", 2) ∷ [];
  resource_contract = [];
  resource_receipt = initial_receipt [];
  resource_state = [];
  gate_run_id = none;
  publication_adapter = none;
  publication_request = none;
  failure_reason = none;
  gate_exit_status = none;
  reported_exit_status = none;
  caller_pid = 7;
  command = "make" ∷ [];
  environment = [];
  created_at = 1;
  started_at = some 2;
  finished_at = none;
  exit_status = none;
  worker_pid = some 10;
  worker_start_token = some "t10";
  cancel_requested = false;
}

abbrev asking : ℕ → String → ℕ → ℕ → String → Lease
asking sequence lease_id requested owner_pid owner_start_token = record {
  sequence = sequence;
  lease_id = lease_id;
  run_id = "run-1";
  status = waiting;
  requested = requested;
  minimum = 1;
  granted = 0;
  owner_pid = owner_pid;
  owner_start_token = owner_start_token;
  bypass_count = 0;
  created_at = 3;
  acquired_at = none;
  finished_at = none;
}

abbrev first_lease : Lease
first_lease = asking 1 "lease-1" 2 11 "t11"

abbrev gone_lease : Lease
gone_lease = asking 2 "lease-2" 1 12 "t12"

abbrev table : List Lease
table = first_lease ∷ gone_lease ∷ []

-- What a test of maintenance computes with.
maintenance : Unit {0}
unfolding maintain_child_cpu_leases grant_loop grant_one selected_index run_ids checked_total
    cancel_orphans schedule_run update load_live_child_leases coherent cpu_budget owner_admitted
    walk load_run identifier_valid lookup
maintenance = tt

maintained :
    maintain_child_cpu_leases processes (parent ∷ []) 5 table
    ≡ ok (
        record first_lease { status = active; granted = 2; acquired_at = some 5 }
        ∷ record gone_lease { status = cancelled; finished_at = some 5 }
        ∷ [])
unfolding maintenance
maintained = refl

home : HasBudget (parent ∷ []) "run-1" 1
unfolding load_run lookup
home = record {
  parent = parent;
  budget = 2;
  loaded = refl;
  declared = refl;
  fits = omega arith;
  covers = omega arith;
}

used_none : (run_id : String) → used run_id table ≡ 0
unfolding used
used_none run_id = ground arith

table-IsBudgeted : IsBudgeted (parent ∷ []) table
unfolding coherent maintenance
table-IsBudgeted = record {
  unique = ((refl, tt), (tt, tt));
  rows = (refl, (refl, tt));
  homes = (home, (home, tt));
  within = λ run_id run budget l d. ground (arith, used_none run_id);
}

maintain-IsBudgeted_example :
    (table' : List Lease) × (maintain_child_cpu_leases processes (parent ∷ []) 5 table ≡ ok table')
    × IsBudgeted (parent ∷ []) table'
    × Maintains processes (parent ∷ []) 5 table table table'
maintain-IsBudgeted_example = maintain-IsBudgeted processes (parent ∷ []) 5 table table-IsBudgeted

abbrev leased : Spool
leased = record {
  runs = parent ∷ [];
  leases = table;
  next_sequence = 2;
  next_lease = 3;
  meta = [];
  guards = [];
  last_activity = 0;
}

abbrev third : ChildLeaseRequest
third = record {
  lease_id = "lease-3";
  run_id = "run-1";
  requested = 2;
  minimum = 1;
  owner_pid = 11;
  owner_start_token = "t11";
}

abbrev asked : Spool
asked = record leased {
  leases = first_lease ∷ gone_lease ∷ requested_row 6 third 3 ∷ [];
  next_lease = 4;
  last_activity = 6;
}

request_third : request_child_cpu_lease processes 6 third leased ≡ ok asked
unfolding maintenance request_child_cpu_lease lease_request_valid insert_lease set_last_activity
request_third = refl

units_fit : UnitsFit (parent ∷ [])
unfolding load_run run_row lookup
units_fit run_id run budget l d =
    ground (arith, ap (λ (r : RunRecord). lookup "cpu" r.resources) (same_parent run_id run l))
  where
    same_parent :
        (run_id : String) (run : RunRecord) → load_run (parent ∷ []) run_id ≡ ok run → parent ≡ run
    same_parent run_id run l = ground (arith, l)

request_child_cpu_lease-IsBudgeted_example :
    (asked.leases ≡ leased.leases ++ requested_row 6 third 3 ∷ [])
    × IsBudgeted asked.runs asked.leases
request_child_cpu_lease-IsBudgeted_example =
    request_child_cpu_lease-IsBudgeted processes 6 third leased units_fit (omega arith)
      table-IsBudgeted request_third

abbrev own : ChildLeaseOwnerRequest
own = record { lease_id = "lease-1"; owner_pid = 11; owner_start_token = "t11" }

abbrev given_back : Spool
given_back = record leased {
  leases = end_row released 7 first_lease ∷ gone_lease ∷ [];
  last_activity = 7;
}

finish_first : finish_child_cpu_lease processes 7 own released leased ≡ ok given_back
unfolding maintenance finish_child_cpu_lease set_last_activity load_child_lease
finish_first = refl

finish_child_cpu_lease-IsBudgeted_example :
    (lease : Lease) × (load_child_lease leased.leases "lease-1" ≡ ok lease)
    × (lease.owner_pid ≡ 11)
    × (lease.owner_start_token ≡ "t11")
    × (same_process processes 11 "t11" ≡ true)
    × IsBudgeted given_back.runs given_back.leases
finish_child_cpu_lease-IsBudgeted_example =
    finish_child_cpu_lease-IsBudgeted processes 7 own released leased table-IsBudgeted finish_first
