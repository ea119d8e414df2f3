-- ===== src/Backends/Attach.antt =====
-- broker.rs `attach_resources`: the worker's process enters each prepared backend.
use agcoord.Base.{
  ℕ, String, Bool, true, false, not, ◌&&◌, ◌||◌, List, [], ◌∷◌, Map, lookup, insert, str_eq, any,
  filter, get_or, if◌then◌else◌,
}
use agcoord.Run.{RunRecord, Binding, Receipt, BackendState, Result, ok, ◌>>=◌}
use agcoord.Resources.{is_required}
use agcoord.Enqueue.{admission_binding}
use agcoord.Rows.{run_from_row}
use agcoord.Backends.{Outcome, done, fault, Backends, run_bindings, dispatch, project_quota_name}
use agcoord.Backends.Events.{append_events}
use agcoord.Backends.Lifecycle.{
  Work, work_of, safe_code, cancel_resources, cleanup_resource_records, save_resource_records,
}

-- `bindings[name]`, for a name that the contract has.
abbrev pub binding_at : Map Binding → String → Binding
binding_at bindings name = get_or (lookup name bindings) admission_binding

-- `"failed"` for a binding that is required.
abbrev pub failure_status : Map Binding → String → String
failure_status bindings name =
    if is_required (binding_at bindings name) then "failed" else "unapplied"

abbrev pub is_scratch : Map Binding → String → Bool
is_scratch bindings name =
    str_eq (binding_at bindings name).kind "inodes"
    || str_eq (binding_at bindings name).kind "tmpfs"

-- The names that are applied as soon as the process is attached.
unfoldable pub applied_at_attach : String → Map Binding → List String → List String
applied_at_attach backend bindings chosen =
    filter (λ name. not (str_eq backend project_quota_name) && not (is_scratch bindings name))
      chosen

-- `applied.insert(name, run.resources[name])` for each name.
unfoldable pub apply_units : Map ℕ → List String → Map ℕ → Map ℕ
apply_units resources [] applied = applied
apply_units resources (name ∷ chosen) applied =
    apply_units resources chosen (insert name (get_or (lookup name resources) 0) applied)

pub record Attached : Type 0 where
  pub receipt : Receipt
  pub required_failure : Bool
  pub any_failed : Bool

unfoldable pub attach_outcome :
    String
    → RunRecord
    → Map Binding
    → String
    → List String
    → Attached
    → Outcome (Unit {0})
    → Attached
unfolding applied_at_attach apply_units
attach_outcome now run bindings backend chosen so_far (done entered) =
    let applied = applied_at_attach backend bindings chosen in
    record so_far {
      receipt =
          append_events now
            (record so_far.receipt {
              applied = apply_units run.resources applied so_far.receipt.applied;
            })
            backend applied "attach" (λ name. "applied") "applied";
    }
attach_outcome now run bindings backend chosen so_far (fault code) = record {
  receipt =
      append_events now so_far.receipt backend chosen "attach" (failure_status bindings)
        (safe_code code "attach-failed");
  required_failure =
      so_far.required_failure || any (λ name. is_required (binding_at bindings name)) chosen;
  any_failed = true;
}

unfoldable pub attach_each :
    String → Backends → ℕ → RunRecord → Map Binding → Map BackendState → Attached → Result Attached
unfolding attach_outcome
attach_each now broker pid run bindings [] so_far = ok so_far
attach_each now broker pid run bindings ((backend, own) ∷ more) so_far =
    dispatch broker backend run own.resources (λ b request. b.attach pid request own.handle)
    >>= λ result.
        attach_each now broker pid run bindings more
          (attach_outcome now run bindings backend own.resources so_far result)

-- What is left of the run's resources if a backend refused the process: it is killed through the
-- backends, the row is read again, and they are cleaned up.
unfoldable pub give_up : String → Backends → RunRecord → Receipt → Result Work
give_up now broker run receipt =
    cancel_resources now broker (record run { resource_receipt = receipt }) run >>= λ cancelled.
    run_from_row cancelled.0 >>= λ refreshed.
    cleanup_resource_records now broker run (work_of refreshed)

-- The row afterwards, and whether the run may start.
unfoldable pub attach_resources : String → Backends → ℕ → RunRecord → Result (RunRecord × Bool)
unfolding attach_each give_up
attach_resources now broker pid run = run_bindings run >>= λ bindings.
    attach_each now broker pid run bindings run.resource_state
      (record { receipt = run.resource_receipt; required_failure = false; any_failed = false })
    >>= λ attached.
        (if attached.any_failed
          then give_up now broker run attached.receipt
          else ok (record { receipt = attached.receipt; state = run.resource_state }))
        >>= save_resource_records run
        >>= λ saved. ok (saved, not attached.required_failure)
