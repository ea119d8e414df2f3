-- ===== src/Backends/Setup.antt =====
-- broker.rs `record_worker_setup` and `record_worker_setup_failure`: what the worker reports of its
-- scratch space before it runs the command.
use agcoord.Base.{
  ℕ, String, Bool, true, false, not, ◌&&◌, ◌||◌, Option, none, some, List, [], ◌∷◌, Map, lookup,
  insert, remove_key, ltb, ◌==◌, str_eq, any, all, filter, codes, is_some, get_or, if◌then◌else◌,
}
use agcoord.Run.{
  RunRecord, Binding, Receipt, BackendState, Result, ok, err, ◌>>=◌, ◌>>◌, refuse_if, row_invalid,
}
use agcoord.Text.{starts_with}
use agcoord.Resources.{code_valid, is_required}
use agcoord.Backends.{run_bindings, cgroup_name, project_quota_name}
use agcoord.Backends.Events.{append_events}
use agcoord.Backends.Lifecycle.{save_resource_records}
use agcoord.Backends.Attach.{binding_at, failure_status, is_scratch, apply_units}

-- `TmpfsSetup`: what the worker has mounted.
pub record TmpfsSetup : Type 0 where
  pub size : ℕ
  pub inodes : ℕ

pub record WorkerSetup : Type 0 where
  pub tmpfs : Option TmpfsSetup
  pub project_quota : Option String

-- `run.resource_state.get(backend).ok_or_else(…)`
unfoldable pub state_at : Option BackendState → Result BackendState
state_at none = err row_invalid
state_at (some own) = ok own

-- What tmpfs gives a name, by its binding's kind.
unfoldable pub tmpfs_units : TmpfsSetup → Map Binding → String → ℕ
tmpfs_units tmpfs bindings name =
    if str_eq (binding_at bindings name).kind "tmpfs" then tmpfs.size else tmpfs.inodes

unfoldable pub tmpfs_fits : TmpfsSetup → Map Binding → Map ℕ → String → Bool
unfolding tmpfs_units
tmpfs_fits tmpfs bindings resources name =
    not (tmpfs_units tmpfs bindings name == 0)
    && not (ltb (get_or (lookup name resources) 0) (tmpfs_units tmpfs bindings name))

unfoldable pub apply_tmpfs : TmpfsSetup → Map Binding → List String → Map ℕ → Map ℕ
apply_tmpfs tmpfs bindings [] applied = applied
apply_tmpfs tmpfs bindings (name ∷ more) applied =
    apply_tmpfs tmpfs bindings more (insert name (tmpfs_units tmpfs bindings name) applied)

-- The block for `setup.tmpfs`.
unfoldable pub tmpfs_setup :
    String → RunRecord → Map Binding → Option TmpfsSetup → Receipt → Result Receipt
unfolding state_at tmpfs_fits apply_tmpfs
tmpfs_setup now run bindings none receipt = ok receipt
tmpfs_setup now run bindings (some tmpfs) receipt =
    state_at (lookup cgroup_name run.resource_state) >>= λ own.
    (let chosen = filter (is_scratch bindings) own.resources in
      refuse_if (not (all (tmpfs_fits tmpfs bindings run.resources) chosen)) row_invalid
      >> ok (
          append_events now
            (record receipt { applied = apply_tmpfs tmpfs bindings chosen receipt.applied })
            cgroup_name chosen "attach" (λ name. "applied") "tmpfs-mounted"))

-- The block for `setup.project_quota`.
unfoldable pub quota_setup : String → RunRecord → Bool → Receipt → Result Receipt
unfolding state_at
quota_setup now run false receipt = ok receipt
quota_setup now run true receipt =
    state_at (lookup project_quota_name run.resource_state) >>= λ own. ok (
      append_events now
        (record receipt { applied = apply_units run.resources own.resources receipt.applied })
        project_quota_name own.resources "attach" (λ name. "applied") "quota-ready")

unfoldable pub record_worker_setup : String → RunRecord → WorkerSetup → Result RunRecord
unfolding tmpfs_setup quota_setup
record_worker_setup now run setup =
    if not (is_some setup.tmpfs) && not (is_some setup.project_quota)
    then ok run
    else (run_bindings run >>= λ bindings.
        tmpfs_setup now run bindings setup.tmpfs run.resource_receipt
        >>= quota_setup now run (is_some setup.project_quota)
        >>= λ receipt.
            refuse_if (is_some setup.tmpfs && is_some setup.project_quota) row_invalid
            >> save_resource_records run (record { receipt = receipt; state = run.resource_state }))

-- The receipt of a refusal, whether a required binding failed, and whether any event was recorded.
pub record Refused : Type 0 where
  pub receipt : Receipt
  pub required_failure : Bool
  pub recorded : Bool

unfoldable pub namespace_failure : String → Bool
namespace_failure code =
    starts_with (codes code) "namespace-"
    || str_eq code "controller-files-exposed"
    || str_eq code "tmpfs-namespace-required"

unfoldable pub remove_names : List String → Map ℕ → Map ℕ
remove_names [] applied = applied
remove_names (name ∷ more) applied = remove_names more (remove_key name applied)

abbrev pub is_filled {ℓ} : {A : Type ℓ} → List A → Bool
is_filled [] = false
is_filled _ = true

unfoldable pub cgroup_refusal :
    String → Map Binding → String → Option BackendState → Refused → Refused
unfolding namespace_failure remove_names
cgroup_refusal now bindings code none so_far = so_far
cgroup_refusal now bindings code (some own) so_far =
    let affected =
      filter (λ name. namespace_failure code || is_scratch bindings name) own.resources in
    let receipt : Receipt =
      (if namespace_failure code
        then record so_far.receipt { applied = remove_names affected so_far.receipt.applied }
        else so_far.receipt) in
    record {
      receipt =
          append_events now receipt cgroup_name affected "attach" (failure_status bindings) code;
      required_failure =
          so_far.required_failure
          || namespace_failure code
          || any (λ name. is_required (binding_at bindings name)) affected;
      recorded = so_far.recorded || is_filled affected;
    }

unfoldable pub quota_refusal :
    String → Map Binding → String → Option BackendState → Refused → Refused
unfolding remove_names
quota_refusal now bindings code none so_far = so_far
quota_refusal now bindings code (some own) so_far = record {
  receipt =
      append_events now
        (record so_far.receipt { applied = remove_names own.resources so_far.receipt.applied })
        project_quota_name own.resources "attach" (failure_status bindings) code;
  required_failure = true;
  recorded = so_far.recorded || is_filled own.resources;
}

-- The row afterwards, and whether the run must fail.
unfoldable pub record_worker_setup_failure : String → RunRecord → String → Result (RunRecord × Bool)
unfolding cgroup_refusal quota_refusal
record_worker_setup_failure now run code =
    refuse_if (not (code_valid code)) row_invalid >> run_bindings run >>= λ bindings.
    (let refused = quota_refusal now bindings code (lookup project_quota_name run.resource_state) (
        cgroup_refusal now bindings code (lookup cgroup_name run.resource_state) (record {
          receipt = run.resource_receipt;
          required_failure = false;
          recorded = false;
        })) in
      refuse_if (not refused.recorded) row_invalid
      >> save_resource_records run
          (record { receipt = refused.receipt; state = run.resource_state })
      >>= λ saved. ok (saved, refused.required_failure))
