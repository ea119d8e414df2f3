-- ===== src/Land.antt =====
-- The protocol of a land with the broker (store.rs): proof of admission, the phases, reuse of a
-- gate, and the result. A word that is no phase is refused as `waiting` is.
use agcoord.Base.{
  ℕ, String, Bool, true, false, not, ◌&&◌, ◌||◌, Option, none, some, [], ◌∷◌, Map, ℤ, pos, leb,
  ◌==◌, str_eq, is_some, is_text, is_int, same_int, or_else, get_or, exit_range, if◌then◌else◌,
}
use agcoord.Run.{
  RunRecord, Binding, Kind, Phase, preflight, gating, publishing, Result, ok, ◌>>=◌, ◌>>◌,
  refuse_if, is_running, is_land, is_check, is_preflight, is_publishing, same_kind, load_run,
  admission_invalid, admission_mismatch, land_phase_invalid, land_identity_mismatch, land_cancelled,
}
use agcoord.Text.{commit_sha_valid}
use agcoord.Process.{ProcessTable, same_worker_process, direct_child_of}
use agcoord.Spool.{Spool, update_run}

any_entry {ℓ} : {V : Type ℓ} → (V → Bool) → Map V → Bool
any_entry p [] = false
any_entry p ((name, v) ∷ m) = p v || any_entry p m

unfoldable pub scratch_policy_declared : RunRecord → Bool
unfolding any_entry
scratch_policy_declared run =
    any_entry
      (λ (entry : Binding). str_eq entry.kind "tmpfs" || is_text entry.backend "project-quota")
      run.resource_contract

is_pid : Option ℕ → ℕ → Bool
is_pid none pid = false
is_pid (some recorded) pid = recorded == pid

child_of_recorded : ProcessTable → RunRecord → ℕ → String → Option ℕ → Option String → Bool
child_of_recorded processes run pid token (some recorded) (some recorded_token) =
    scratch_policy_declared run && direct_child_of processes pid token recorded recorded_token
child_of_recorded processes run pid token _ _ = false

unfoldable pub admitted_worker_presents : ProcessTable → RunRecord → ℕ → String → Bool
unfolding is_pid child_of_recorded
admitted_worker_presents processes run pid token =
    if is_pid run.worker_pid pid
    then is_text run.worker_start_token token
      && same_worker_process processes (some pid) (some token)
    else child_of_recorded processes run pid token run.worker_pid run.worker_start_token

pub record AdmissionRequest : Type 0 where
  pub run_id : String
  pub kind : Kind
  pub worker_pid : ℕ
  pub worker_start_token : String
  pub checkout : String
  pub head_sha : String

unfoldable pub verify_admission : ProcessTable → AdmissionRequest → Spool → Result (Unit {0})
verify_admission processes request spool =
    refuse_if (is_check request.kind) admission_invalid
    >> load_run spool.runs request.run_id
    >>= λ run.
        refuse_if
          (not (
            is_running run.status
            && same_kind run.kind request.kind
            && str_eq run.checkout request.checkout
            && is_text run.head_sha request.head_sha
            && admitted_worker_presents processes run request.worker_pid
                request.worker_start_token))
          admission_mismatch

pub record PhaseRequest : Type 0 where
  pub run_id : String
  pub worker_pid : ℕ
  pub worker_start_token : String
  pub checkout : String
  pub head_sha : String
  pub new_head_sha : Option String
  pub phase : Phase
  pub gate_exit_status : Option ℤ

abbrev pub order : Phase → Option ℕ
order preflight = some 0
order gating = some 1
order publishing = some 2
order _ = none

-- `next >= current`, where both have a place in the order.
abbrev pub follows : Option ℕ → Option ℕ → Bool
follows (some current) (some next) = leb current next
follows _ _ = false

status_allowed : Option ℤ → Bool
status_allowed none = true
status_allowed (some status) = exit_range status

new_head_allowed : RunRecord → PhaseRequest → Option ℤ → Option String → Bool
new_head_allowed run request selected none = true
new_head_allowed run request selected (some head) =
    commit_sha_valid head
    && not (str_eq head request.head_sha)
    && is_preflight run.phase
    && is_preflight request.phase
    && not (is_some selected)

-- `valid`
unfoldable pub transition_valid : RunRecord → PhaseRequest → Bool
unfolding status_allowed new_head_allowed
transition_valid run request =
    let selected = or_else request.gate_exit_status run.gate_exit_status in
    follows (order run.phase) (order request.phase)
    && status_allowed request.gate_exit_status
    && not (
        is_some run.gate_exit_status
        && is_some request.gate_exit_status
        && not (same_int run.gate_exit_status request.gate_exit_status))
    && not (is_preflight request.phase && is_some selected)
    && not (is_publishing request.phase && not (is_int selected (pos 0)))
    && new_head_allowed run request selected request.new_head_sha

unfoldable pub advance_row : PhaseRequest → Option ℤ → RunRecord → RunRecord
advance_row request selected run = record run {
  phase = request.phase;
  gate_exit_status = selected;
  head_sha = some (get_or request.new_head_sha request.head_sha);
}

unfoldable pub advance_land_phase : ProcessTable → PhaseRequest → Spool → Result Spool
advance_land_phase processes request spool = load_run spool.runs request.run_id >>= λ run.
    refuse_if (not (is_land run.kind) || not (is_running run.status)) land_phase_invalid
    >> refuse_if
        (not (admitted_worker_presents processes run request.worker_pid request.worker_start_token)
          || not (str_eq run.checkout request.checkout)
          || not (is_text run.head_sha request.head_sha))
        land_identity_mismatch
    >> refuse_if run.cancel_requested land_cancelled
    >> refuse_if (not (transition_valid run request)) land_phase_invalid
    >> ok (
        update_run (advance_row request (or_else request.gate_exit_status run.gate_exit_status))
          request.run_id spool)
