-- ===== src/Backends/Prepare.antt =====
-- broker.rs `prepare_resources`, with resources.rs `capability_issue`: the backends make room for a
-- run before its worker exists.
use agcoord.Base.{
  ℕ, String, Bool, false, not, ◌||◌, Option, none, some, List, [], ◌∷◌, ◌++◌, Map, lookup, any, all,
  get_or, is_text, if◌then◌else◌,
}
use agcoord.Run.{RunRecord, Binding, Receipt, Result, ok, ◌>>=◌, ◌>>◌, refuse_if, row_invalid}
use agcoord.Json.{
  Value, Values, no_values, value, Fields, get, as_object, as_array, as_bool, as_str,
}
use agcoord.Resources.{code_valid, enforced, is_required}
use agcoord.Resources.States.{◌>>?◌}
use agcoord.Backends.{Outcome, done, fault, Backends, run_bindings, dispatch, insert_ordered}
use agcoord.Backends.Events.{append_resource_event, append_events}
use agcoord.Backends.Lifecycle.{
  Work, safe_code, is_nonempty, cleanup_resource_records, save_resource_records,
}
use agcoord.Backends.Attach.{binding_at, failure_status}

abbrev pub resource_operations : List String
resource_operations = "prepare" ∷ "attach" ∷ "usage" ∷ "finish" ∷ "cancel" ∷ "cleanup" ∷ []

holds_text : String → Values → Bool
holds_text expected no_values = false
holds_text expected (value v more) = is_text (as_str v) expected || holds_text expected more

-- The closure `contains`.
field_contains : String → String → Option Values → Bool
unfolding holds_text
field_contains name expected none = false
field_contains name expected (some values) = holds_text expected values

unfoldable pub contains_text : Fields → String → String → Bool
unfolding field_contains
contains_text capability name expected =
    field_contains name expected (get name capability >>? as_array)

unfoldable pub available : Fields → Bool
available capability = elim (get "available" capability >>? as_bool) [ none ↦ false | some b ↦ b ]

unfoldable pub reason_code : Option String → String
reason_code none = "backend-unavailable"
reason_code (some reason) = if code_valid reason then reason else "backend-unavailable"

unfoldable pub object_issue : Binding → Option Fields → Option String
object_issue binding none = some "backend-unavailable"
object_issue binding (some capability) =
    if not (available capability)
    then some (reason_code (get "reason" capability >>? as_str))
    else if not (contains_text capability "kinds" binding.kind)
    then some "kind-unsupported"
    else if not (contains_text capability "units" binding.unit)
    then some "unit-unsupported"
    else if all (contains_text capability "operations") resource_operations
    then none
    else some "lifecycle-unsupported"

unfoldable pub capability_issue : Binding → Option Value → Option String
unfolding object_issue
capability_issue binding capability = object_issue binding (capability >>? as_object)

-- The names of each backend that can enforce them, the probes' events, and whether a required
-- binding failed.
pub record Probed : Type 0 where
  pub receipt : Receipt
  pub eligible : Map (List String)
  pub required_failure : Bool

-- The arm for a binding with an issue, or with none.
unfoldable pub probe_outcome :
    String → Map Binding → String → String → Option String → Probed → Probed
probe_outcome now bindings name backend none so_far = record so_far {
  eligible =
      insert_ordered backend (get_or (lookup backend so_far.eligible) [] ++ (name ∷ []))
        so_far.eligible;
}
probe_outcome now bindings name backend (some issue) so_far = record so_far {
  receipt =
      append_resource_event now so_far.receipt backend name "probe" (failure_status bindings name)
        issue;
  required_failure = so_far.required_failure || is_required (binding_at bindings name);
}

-- The loop over `run.resources`. An enforced binding has a backend.
unfoldable pub probe_each : String → Fields → Map Binding → Map ℕ → Probed → Probed
unfolding probe_outcome
probe_each now capabilities bindings [] so_far = so_far
probe_each now capabilities bindings ((name, units) ∷ resources) so_far =
    let binding = binding_at bindings name in
    let backend = get_or binding.backend "" in
    probe_each now capabilities bindings resources (
      if enforced binding
      then probe_outcome now bindings name backend
          (capability_issue binding (get backend capabilities)) so_far
      else so_far)

pub record Prepared : Type 0 where
  pub work : Work
  pub required_failure : Bool

unfoldable pub prepare_outcome :
    String → Map Binding → String → List String → Prepared → Outcome Value → Prepared
prepare_outcome now bindings backend chosen so_far (done handle) = record so_far {
  work = record {
    receipt =
        append_events now so_far.work.receipt backend chosen "prepare" (λ name. "recorded")
          "prepared";
    state =
        insert_ordered backend
          (record { handle = handle; resources = chosen; finished = false; cancelled = false })
          so_far.work.state;
  };
}
prepare_outcome now bindings backend chosen so_far (fault code) = record {
  work = record so_far.work {
    receipt =
        append_events now so_far.work.receipt backend chosen "prepare" (failure_status bindings)
          (safe_code code "prepare-failed");
  };
  required_failure =
      so_far.required_failure || any (λ name. is_required (binding_at bindings name)) chosen;
}

unfoldable pub prepare_each :
    String → Backends → RunRecord → Map Binding → Map (List String) → Prepared → Result Prepared
unfolding prepare_outcome
prepare_each now broker run bindings [] so_far = ok so_far
prepare_each now broker run bindings ((backend, chosen) ∷ more) so_far =
    dispatch broker backend run chosen (λ b request. b.prepare request) >>= λ result.
    prepare_each now broker run bindings more
      (prepare_outcome now bindings backend chosen so_far result)

-- The row afterwards, and whether the run may start.
unfoldable pub prepare_resources : String → Backends → RunRecord → Result (RunRecord × Bool)
unfolding probe_each prepare_each
prepare_resources now broker run =
    refuse_if (is_nonempty run.resource_state) row_invalid >> run_bindings run >>= λ bindings.
    (let probed =
        probe_each now broker.resource_capabilities bindings run.resources
          (record { receipt = run.resource_receipt; eligible = []; required_failure = false }) in
      let work : Work = record { receipt = probed.receipt; state = [] } in
      let start : Prepared = record { work = work; required_failure = probed.required_failure } in
      (if probed.required_failure
        then ok start
        else prepare_each now broker run bindings probed.eligible start))
    >>= λ prepared.
        (if prepared.required_failure
          then cleanup_resource_records now broker run prepared.work
          else ok prepared.work)
        >>= save_resource_records run
        >>= λ saved. ok (saved, not prepared.required_failure)
