-- ===== src/Examples/Backends.antt =====
-- A run with one CPU binding that a cgroup enforces, from its stored row to its last clean-up.
use agcoord.Base.{
  ℕ, String, ◌≡◌, ◌⊎◌, ◌↔◌, inl, inr, refl, Bool, true, false, none, some, [], ◌∷◌, Map, lookup,
  insert, all_entries, arith, eq_iff, Distinct,
}
use agcoord.Run.{RunRecord, Binding, BackendState, ok, err, row_invalid}
use agcoord.Json.{
  object, no_fields, field, text, array, value, no_values, boolean, get, has_keys, keys_within,
  texts, strings,
}
use agcoord.Text.{identifier_valid}
use agcoord.Resources.{
  name_valid, code_valid, valid_kind_unit, to_value, bindings_value, mode_valid, parse_backend,
  parse_exec, parse_binding, parse_fields, parse_bindings, text_of,
}
use agcoord.Resources.Bindings.{entry_valid, parse_bindings-bindings_value}
use agcoord.Resources.States.{
  state_value, state_fields, backend_state_value, insert_name, sort_names, has_repeat, parse_state,
  parse_states, parse_backend_state,
}
use agcoord.Rows.{
  columns_valid, pid_valid, states_match, enforced_at, units_match, event_matches,
  receipt_matches_contract, run_from_row,
}
use agcoord.Submit.{no_entries, empty_command, bad_environment}
use agcoord.Backends.{names, done, fault, Backend, Backends, run_bindings, same_keys, bound_to}
use agcoord.Backends.Events.{has_name, event_valid, within, same_units, receipt_valid}
use agcoord.Backends.Lifecycle.{cancel_resources, finish_and_cleanup_resources}
use agcoord.Backends.Attach.{attach_resources}
use agcoord.Backends.Laws.{IsBackend, IsBroker}
use agcoord.Backends.Keeps.Cancelled.{cancel_resources-loads}
use agcoord.Backends.Scratch.{Scratch, Ready, prepare_worker_setup}
use agcoord.Backends.Keeps.Scratched.{IsScratch, holds_scratch}
use agcoord.Backends.Keeps.Readied.{HasPath, prepare_worker_setup-loads}
use agcoord.Backends.Prepare.{resource_operations, prepare_resources}
use agcoord.Backends.Keeps.Held.{required_held, prepare_resources-required_held}
use agcoord.Resources.States.Sorted.{ascending}
use agcoord.Backends.Keeps.Finished.{finish_and_cleanup_resources-loads}
use agcoord.Backends.Keeps.Attached.{attach_resources-loads}
use agcoord.Examples.Schedules.{job}

abbrev cpu_binding : Binding
cpu_binding = record {
  backend = some "cgroup-v2";
  kind = "cpu";
  mode = "required";
  unit = "logical-cpu";
  exec = false;
}

abbrev cpu_contract : Map Binding
cpu_contract = ("cpu", cpu_binding) ∷ []

abbrev cpu_state : BackendState
cpu_state = record {
  handle = object no_fields;
  resources = "cpu" ∷ [];
  finished = false;
  cancelled = false;
}

abbrev pub prepared : RunRecord
prepared =
    let run : RunRecord = job 1 "check-1" "a" "w1" 2 in
    record run { resource_contract = cpu_contract; resource_state = ("cgroup-v2", cpu_state) ∷ [] }

prepared-loads : run_from_row prepared ≡ ok prepared
unfolding run_from_row columns_valid pid_valid states_match enforced_at units_match event_matches
    receipt_matches_contract run_bindings same_keys bound_to receipt_valid same_units within
    event_valid has_name all_entries lookup insert parse_bindings parse_fields parse_binding text_of
    mode_valid parse_backend parse_exec bindings_value to_value valid_kind_unit name_valid get
    has_keys keys_within texts strings parse_backend_state parse_states parse_state has_repeat
    sort_names insert_name state_value state_fields backend_state_value no_entries empty_command
    bad_environment identifier_valid
prepared-loads = refl

abbrev waiting_run : RunRecord
waiting_run =
    let run : RunRecord = job 1 "check-1" "a" "w1" 2 in
    record run { resource_contract = cpu_contract }

waiting_run-loads : run_from_row waiting_run ≡ ok waiting_run
unfolding run_from_row columns_valid pid_valid states_match enforced_at units_match event_matches
    receipt_matches_contract run_bindings same_keys bound_to receipt_valid same_units within
    event_valid has_name all_entries lookup insert parse_bindings parse_fields parse_binding text_of
    mode_valid parse_backend parse_exec bindings_value to_value valid_kind_unit name_valid get
    has_keys keys_within texts strings parse_backend_state parse_states parse_state has_repeat
    sort_names insert_name state_value state_fields backend_state_value no_entries empty_command
    bad_environment identifier_valid
waiting_run-loads = refl

-- A kernel that answers every call, and measures all that it was asked for.
self_named :
    (m n : Map ℕ)
    → ((name : String) → has_name m name ≡ true → has_name n name ≡ true)
    → all_entries (λ name _. has_name n name) m ≡ true
unfolding all_entries has_name lookup
self_named [] n f = refl
self_named ((name, units) ∷ m) n f = ground (
  arith,
  f name,
  (eq_iff name name).1 refl,
  self_named m n (λ other h. f other (ground (arith, h))),
)

abbrev kernel : Backend
kernel = record {
  prepare = λ request. done (object no_fields);
  attach = λ pid request handle. done tt;
  usage = λ request handle. done (record { peak = request.resources; observations = [] });
  finish = λ request handle. done (record { peak = request.resources; observations = [] });
  cancel = λ request handle. fault "kill-failed";
  cleanup = λ request handle. done tt;
}

kernel-IsBackend : IsBackend kernel
unfolding code_valid
kernel-IsBackend = record {
  handles = λ request. refl;
  used = λ request handle. (self_named request.resources request.resources (λ n h. h), refl);
  finished = λ request handle. (self_named request.resources request.resources (λ n h. h), refl);
  cancelled = λ request handle. refl;
  cleaned = λ request handle. tt;
}

abbrev machine : Backends
machine = record {
  cgroup_backend = some kernel;
  project_quota_backend = none;
  resource_capabilities = no_fields;
}

machine-IsBroker : IsBroker machine
machine-IsBroker b (inl h) = let e : b ≡ kernel = ground (arith, h) in rw e kernel-IsBackend
machine-IsBroker b (inr h) = cc

-- The same machine, which says what its kernel can do.
abbrev capable : Backends
capable = record machine {
  resource_capabilities =
      field "cgroup-v2"
        (object (
          field "available" (boolean true) (
            field "kinds" (array (value (text "cpu") no_values)) (
              field "units" (array (value (text "logical-cpu") no_values))
                (field "operations" (array (texts resource_operations)) no_fields)))))
        no_fields;
}

waiting_run-bindings : run_bindings waiting_run ≡ ok cpu_contract
unfolding run_bindings same_keys parse_bindings parse_fields parse_binding text_of mode_valid
    parse_backend parse_exec bindings_value to_value valid_kind_unit name_valid get has_keys
    keys_within insert texts strings all_entries lookup
waiting_run-bindings = refl

prepare_resources-required_held_example :
    (after : RunRecord) × (starts : Bool) × (prepare_resources "2026-01-01T00:00:00Z" capable
        waiting_run
      ≡ ok (after, starts))
    × (run_from_row after ≡ ok after)
    × (((starts ≡ false) × (after.resource_state ≡ []))
        ⊎ ((starts ≡ true)
            × (required_held cpu_contract waiting_run.resources after.resource_state ≡ true)))
unfolding names ascending
prepare_resources-required_held_example =
    prepare_resources-required_held capable "2026-01-01T00:00:00Z" waiting_run cpu_contract
      machine-IsBroker refl waiting_run-loads waiting_run-bindings refl refl

abbrev mounts_nothing : Scratch
mounts_nothing = record {
  tmpfs_setup = λ request handle. done none;
  scratch_path = λ request handle. fault "quota-tree-not-ready";
}

mounts_nothing-IsScratch : IsScratch mounts_nothing
unfolding code_valid
mounts_nothing-IsScratch = record { mounts = λ request handle. tt; paths = λ request handle. refl }

prepared-bindings : run_bindings prepared ≡ ok cpu_contract
unfolding run_bindings same_keys parse_bindings parse_fields parse_binding text_of mode_valid
    parse_backend parse_exec bindings_value to_value valid_kind_unit name_valid get has_keys
    keys_within insert texts strings all_entries lookup
prepared-bindings = refl

prepare_worker_setup-loads_example :
    ((prepare_worker_setup "2026-01-01T00:00:00Z" machine mounts_nothing prepared ≡ err row_invalid)
      × (holds_scratch cpu_contract (lookup "cgroup-v2" prepared.resource_state) ≡ false))
    ⊎ ((after : Ready) × (prepare_worker_setup "2026-01-01T00:00:00Z" machine mounts_nothing
            prepared
          ≡ ok after)
        × (run_from_row after.row ≡ ok after.row)
        × HasPath after)
prepare_worker_setup-loads_example =
    prepare_worker_setup-loads machine mounts_nothing "2026-01-01T00:00:00Z" prepared cpu_contract
      machine-IsBroker mounts_nothing-IsScratch refl prepared-loads prepared-bindings
      (λ there. refl)

cancel_resources-loads_example :
    (after : RunRecord) × (live : Bool) × (cancel_resources "2026-01-01T00:00:00Z" machine prepared
        prepared
      ≡ ok (after, live))
    × (run_from_row after ≡ ok after)
cancel_resources-loads_example =
    cancel_resources-loads machine "2026-01-01T00:00:00Z" prepared machine-IsBroker refl
      prepared-loads

finish_and_cleanup_resources-loads_example :
    (after : RunRecord) × (finish_and_cleanup_resources "2026-01-01T00:00:00Z" machine prepared
      ≡ ok after)
    × (run_from_row after ≡ ok after)
    × (after.resource_state ≡ [])
finish_and_cleanup_resources-loads_example =
    finish_and_cleanup_resources-loads machine "2026-01-01T00:00:00Z" prepared machine-IsBroker refl
      prepared-loads

attach_resources-loads_example :
    (after : RunRecord) × (starts : Bool) × (attach_resources "2026-01-01T00:00:00Z" machine 10
        prepared
      ≡ ok (after, starts))
    × (run_from_row after ≡ ok after)
    × (((after.resource_state ≡ prepared.resource_state) × (starts ≡ true))
        ⊎ (after.resource_state ≡ []))
attach_resources-loads_example =
    attach_resources-loads machine "2026-01-01T00:00:00Z" 10 prepared machine-IsBroker refl
      prepared-loads

parse_bindings-bindings_value_example :
    (parse_bindings (some (bindings_value cpu_contract)) ≡ ok cpu_contract)
    ↔ (Distinct cpu_contract × (all_entries entry_valid cpu_contract ≡ true))
parse_bindings-bindings_value_example = parse_bindings-bindings_value cpu_contract

cpu_contract-stored : parse_bindings (some (bindings_value cpu_contract)) ≡ ok cpu_contract
unfolding parse_bindings parse_fields parse_binding text_of mode_valid parse_backend parse_exec
    bindings_value to_value valid_kind_unit name_valid get has_keys keys_within insert
cpu_contract-stored = refl
