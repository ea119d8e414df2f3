-- ===== src/Backends/Lifecycle.antt =====
-- broker.rs: the resources of a run, from `prepare_resources` to `finish_and_cleanup_resources`. Each
-- operation maps the run that it was given, or the receipt and the state that it works on.
use agcoord.Base.{
  String, Bool, true, false, not, ◌||◌, none, some, List, [], ◌∷◌, Map, insert, remove_key,
  all_entries, if◌then◌else◌,
}
use agcoord.Run.{RunRecord, Receipt, BackendState, Result, ok, ◌>>=◌, ◌>>◌, refuse_if, row_invalid}
use agcoord.Resources.{code_valid}
use agcoord.Rows.{run_from_row}
use agcoord.Backends.{Measurement, Outcome, done, fault, Backends, dispatch}
use agcoord.Backends.Events.{append_events, resource_event_exists, merge_measurement, receipt_valid}

-- The receipt and the state while an operation works on them.
pub record Work : Type 0 where
  pub receipt : Receipt
  pub state : Map BackendState

abbrev pub work_of : RunRecord → Work
work_of run = record { receipt = run.resource_receipt; state = run.resource_state }

-- The UPDATE of the two columns.
abbrev pub with_work : RunRecord → Work → RunRecord
with_work run work = record run { resource_receipt = work.receipt; resource_state = work.state }

unfoldable pub save_resource_records : RunRecord → Work → Result RunRecord
save_resource_records run work =
    refuse_if (not (receipt_valid work.receipt run.resources)) row_invalid
    >> ok (with_work run work)

abbrev pub is_nonempty {ℓ} : {V : Type ℓ} → Map V → Bool
is_nonempty [] = false
is_nonempty _ = true

abbrev pub status_of {ℓ} : {A : Type ℓ} → Outcome A → String
status_of (done a) = "recorded"
status_of (fault code) = "failed"

abbrev pub code_of {ℓ} : {A : Type ℓ} → String → Outcome A → String
code_of success (done a) = success
code_of success (fault code) = code

-- An error's code, if it can stand in a receipt.
abbrev pub safe_code : String → String → String
safe_code code fallback = if code_valid code then code else fallback

-- The loop of `cleanup_resource_records`, over the state as it was.
unfoldable pub cleanup_each : String → Backends → RunRecord → Map BackendState → Work → Result Work
cleanup_each now broker run [] work = ok work
cleanup_each now broker run ((backend, own) ∷ more) work =
    dispatch broker backend run own.resources (λ b request. b.cleanup request own.handle)
    >>= λ result. cleanup_each now broker run more (record {
      receipt =
          append_events now work.receipt backend own.resources "cleanup" (λ name. status_of result)
            (code_of "cleaned" result);
      state = remove_key backend work.state;
    })

unfoldable pub cleanup_resource_records : String → Backends → RunRecord → Work → Result Work
unfolding cleanup_each
cleanup_resource_records now broker run work = cleanup_each now broker run work.state work

-- The loop of `cancel_resources`: a cancelled backend is passed over.
unfoldable pub cancel_each : String → Backends → RunRecord → Map BackendState → Work → Result Work
cancel_each now broker run [] work = ok work
cancel_each now broker run ((backend, own) ∷ more) work =
    if own.cancelled
    then cancel_each now broker run more work
    else (dispatch broker backend run own.resources (λ b request. b.cancel request own.handle)
        >>= λ result. cancel_each now broker run more (record {
          receipt =
              append_events now work.receipt backend own.resources "cancel"
                (λ name. status_of result) (code_of "cancelled" result);
          state = insert backend (record own { cancelled = true }) work.state;
        }))

-- The row afterwards, and whether the run has any resources. `stored` is the row as it stands, which
-- is the run itself but in `attach_resources`; it is written if a backend was cancelled.
unfoldable pub cancel_resources :
    String → Backends → RunRecord → RunRecord → Result (RunRecord × Bool)
unfolding cancel_each save_resource_records
cancel_resources now broker run stored =
    cancel_each now broker run run.resource_state (work_of run) >>= λ work.
    (if all_entries (λ name own. own.cancelled) run.resource_state
      then ok stored
      else save_resource_records stored work)
    >>= λ saved. ok (saved, is_nonempty work.state)

-- One measurement of `capture_resource_usage`, with the flag `changed`.
unfoldable pub use_outcome :
    String
    → RunRecord
    → String
    → List String
    → Receipt
    → Outcome Measurement
    → Result (Receipt × Bool)
use_outcome now run backend chosen receipt (done measured) =
    merge_measurement now run receipt backend "usage" measured
use_outcome now run backend chosen receipt (fault code) =
    let safe = safe_code code "usage-failed" in
    if resource_event_exists receipt backend none (some "usage") safe
    then ok (receipt, false)
    else ok (append_events now receipt backend chosen "usage" (λ name. "failed") safe, true)

unfoldable pub usage_each :
    String → Backends → RunRecord → Map BackendState → Receipt × Bool → Result (Receipt × Bool)
unfolding use_outcome
usage_each now broker run [] work = ok work
usage_each now broker run ((backend, own) ∷ more) work =
    if own.finished
    then usage_each now broker run more work
    else (dispatch broker backend run own.resources (λ b request. b.usage request own.handle)
        >>= use_outcome now run backend own.resources work.0
        >>= λ merged. usage_each now broker run more (merged.0, work.1 || merged.1))

unfoldable pub capture_resource_usage : String → Backends → RunRecord → Result RunRecord
unfolding usage_each save_resource_records
capture_resource_usage now broker run =
    usage_each now broker run run.resource_state (run.resource_receipt, false) >>= λ work.
    if work.1
    then save_resource_records run (record { receipt = work.0; state = run.resource_state })
    else ok run

-- The measurement of `finish`, if there is one.
unfoldable pub merge_finish :
    String → RunRecord → String → Receipt → Outcome Measurement → Result Receipt
merge_finish now run backend receipt (done measured) =
    merge_measurement now run receipt backend "finish" measured >>= λ merged. ok merged.0
merge_finish now run backend receipt (fault code) = ok receipt

unfoldable pub finish_each : String → Backends → RunRecord → Map BackendState → Work → Result Work
unfolding merge_finish
finish_each now broker run [] work = ok work
finish_each now broker run ((backend, own) ∷ more) work =
    if own.finished
    then finish_each now broker run more work
    else (dispatch broker backend run own.resources (λ b request. b.finish request own.handle)
        >>= λ result. merge_finish now run backend work.receipt result >>= λ receipt.
            finish_each now broker run more (record {
              receipt =
                  append_events now receipt backend own.resources "finish"
                    (λ name. status_of result) (code_of "finished" result);
              state = insert backend (record own { finished = true }) work.state;
            }))

-- The row is saved between the two loops and read again.
unfoldable pub finish_and_cleanup_resources : String → Backends → RunRecord → Result RunRecord
unfolding finish_each save_resource_records cleanup_resource_records
finish_and_cleanup_resources now broker run =
    finish_each now broker run run.resource_state (work_of run)
    >>= save_resource_records run
    >>= run_from_row
    >>= λ refreshed.
        cleanup_resource_records now broker refreshed (work_of refreshed)
        >>= save_resource_records refreshed
