-- ===== src/Backends/Scratch.antt =====
-- broker.rs `prepare_worker_setup`: the scratch space that a prepared run's worker is given.
use agcoord.Base.{
  String, Bool, true, not, ◌&&◌, ◌||◌, Option, none, some, List, [], ◌∷◌, lookup, remove_key,
  str_eq, any, filter, is_some, if◌then◌else◌,
}
use agcoord.Run.{
  RunRecord, Event, Receipt, BackendState, Result, ok, ◌>>=◌, ◌>>◌, refuse_if, row_invalid,
  config_invalid,
}
use agcoord.Json.{Value}
use agcoord.Resources.{is_required}
use agcoord.Backends.{
  Request, Outcome, done, fault, Backends, run_bindings, cgroup_request, project_quota_request,
  cgroup_name, project_quota_name,
}
use agcoord.Backends.Events.{append_events, resource_event_exists}
use agcoord.Backends.Lifecycle.{cleanup_resource_records, save_resource_records}
use agcoord.Backends.Attach.{binding_at, failure_status, is_scratch}
use agcoord.Backends.Setup.{TmpfsSetup, WorkerSetup, is_filled}

-- `CgroupBackend::tmpfs_setup` and `ProjectQuotaBackend::scratch_path`
pub record Scratch : Type 0 where
  pub tmpfs_setup : Request → Value → Outcome (Option TmpfsSetup)
  pub scratch_path : Request → Value → Outcome String

-- The row, the worker's setup, and whether the run may go on.
pub record Ready : Type 0 where
  pub row : RunRecord
  pub setup : WorkerSetup
  pub ready : Bool

-- `WorkerSetup::default()`
abbrev pub no_setup : WorkerSetup
no_setup = record { tmpfs = none; project_quota = none }

unfoldable pub tmpfs_answer :
    String → RunRecord → List String → Outcome (Option TmpfsSetup) → Result Ready
tmpfs_answer now run chosen (done tmpfs) =
    ok (record { row = run; setup = record { tmpfs = tmpfs; project_quota = none }; ready = true })
tmpfs_answer now run chosen (fault code) = run_bindings run >>= λ bindings.
    (let affected = filter (is_scratch bindings) chosen in
      refuse_if (not (is_filled affected)) row_invalid
      >> save_resource_records run (record {
        receipt =
            append_events now run.resource_receipt cgroup_name affected "attach"
              (failure_status bindings) code;
        state = run.resource_state;
      })
      >>= λ saved. ok (record {
        row = saved;
        setup = no_setup;
        ready = not (any (λ name. is_required (binding_at bindings name)) affected);
      }))

-- The block for a state of the cgroup.
unfoldable pub prepare_tmpfs :
    String → Backends → Scratch → RunRecord → Option BackendState → Result Ready
unfolding tmpfs_answer
prepare_tmpfs now broker scratch run none =
    ok (record { row = run; setup = no_setup; ready = true })
prepare_tmpfs now broker scratch run (some own) = cgroup_request run own.resources >>= λ request.
    refuse_if (not (is_some broker.cgroup_backend)) config_invalid
    >> tmpfs_answer now run own.resources (scratch.tmpfs_setup request own.handle)

unfoldable pub cleanup_failed : Receipt → Bool
cleanup_failed receipt =
    resource_event_exists receipt project_quota_name none (some "cleanup") "cleanup-failed"
    || any
        (λ (event : Event).
          str_eq event.backend project_quota_name
          && str_eq event.stage "cleanup"
          && str_eq event.status "failed")
        receipt.events

-- Without a path the quota is cleaned up and its state is dropped. The receipt is that of the run as
-- it was given.
unfoldable pub quota_answer :
    String → Backends → RunRecord → BackendState → Ready → Outcome String → Result Ready
unfolding cleanup_failed
quota_answer now broker run own so_far (done path) =
    ok (record so_far { setup = record so_far.setup { project_quota = some path } })
quota_answer now broker run own so_far (fault code) = run_bindings run >>= λ bindings.
    cleanup_resource_records now broker run (record {
      receipt =
          append_events now run.resource_receipt project_quota_name own.resources "attach"
            (failure_status bindings) code;
      state = (project_quota_name, own) ∷ [];
    })
    >>= λ work.
        save_resource_records run (record {
          receipt = work.receipt;
          state = remove_key project_quota_name run.resource_state;
        })
        >>= λ saved. ok (record so_far {
          row = saved;
          ready = not (
              any (λ name. is_required (binding_at bindings name)) own.resources
              || cleanup_failed work.receipt);
        })

-- The block for a state of the quota.
unfoldable pub prepare_quota :
    String → Backends → Scratch → RunRecord → Ready → Option BackendState → Result Ready
unfolding quota_answer
prepare_quota now broker scratch run so_far none = ok so_far
prepare_quota now broker scratch run so_far (some own) =
    project_quota_request run own.resources >>= λ request. quota_answer now broker run own so_far (
      if is_some broker.project_quota_backend
      then scratch.scratch_path request own.handle
      else fault "backend-unavailable")

unfoldable pub prepare_worker_setup : String → Backends → Scratch → RunRecord → Result Ready
unfolding prepare_tmpfs prepare_quota
prepare_worker_setup now broker scratch run =
    prepare_tmpfs now broker scratch run (lookup cgroup_name run.resource_state) >>= λ so_far.
    if so_far.ready
    then prepare_quota now broker scratch run so_far (lookup project_quota_name run.resource_state)
    else ok so_far
