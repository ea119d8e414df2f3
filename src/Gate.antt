-- ===== src/Gate.antt =====
-- Gates (store.rs): the receipt that `reuse_gate` looks for, and `report_land_result`.
pub mod Receipt
use agcoord.Base.{
  ℕ, ◌+◌, String, Bool, true, false, not, ◌&&◌, ◌||◌, Option, none, some, List, [], ◌∷◌, ℤ, pos,
  ltb, leb, ◌==◌, str_eq, is_some, is_text, is_int, exit_range, if◌then◌else◌,
}
use agcoord.Run.{
  RunRecord, gating, Result, ok, err, ◌>>=◌, ◌>>◌, refuse_if, is_running, is_land, is_full,
  is_passed, is_preflight, is_gating, is_publishing, load_run, land_identity_mismatch,
  land_cancelled, land_result_invalid, gate_reuse_invalid,
}
use agcoord.Process.{ProcessTable}
use agcoord.Spool.{Spool, update_run}
use agcoord.Land.{admitted_worker_presents}

newer : RunRecord → Option RunRecord → RunRecord
newer run none = run
newer run (some other) = if ltb other.sequence run.sequence then run else other

-- `SELECT … WHERE … ORDER BY sequence DESC LIMIT 1`
unfoldable pub newest : (RunRecord → Bool) → List RunRecord → Option RunRecord
unfolding newer
newest matches [] = none
newest matches (run ∷ runs) =
    let rest = newest matches runs in if matches run then some (newer run rest) else rest

pub record ReuseRequest : Type 0 where
  pub run_id : String
  pub worker_pid : ℕ
  pub worker_start_token : String
  pub checkout : String
  pub head_sha : String

-- Equality of the commands' JSON.
unfoldable pub same_command : List String → List String → Bool
same_command [] [] = true
same_command (x ∷ xs) (y ∷ ys) = str_eq x y && same_command xs ys
same_command _ _ = false

-- `finished_at >= now - max_age`
finished_within : ℕ → ℕ → Option ℕ → Bool
finished_within now max_age none = false
finished_within now max_age (some finished_at) = leb now (finished_at + max_age)

-- The WHERE clause of the receipt.
unfoldable pub reusable : ℕ → ℕ → RunRecord → String → RunRecord → Bool
unfolding finished_within
reusable now max_age run head_sha candidate =
    is_full candidate.kind
    && is_passed candidate.status
    && str_eq candidate.repository_id run.repository_id
    && str_eq candidate.worktree_id run.worktree_id
    && is_text candidate.head_sha head_sha
    && same_command candidate.command run.command
    && finished_within now max_age candidate.finished_at

abbrev pub reuse_row : String → RunRecord → RunRecord
reuse_row source run = record run {
  phase = gating;
  gate_exit_status = some (pos 0);
  gate_run_id = some source;
}

reused : ReuseRequest → Spool → Option RunRecord → Spool × Option String
reused request spool none = (spool, none)
reused request spool (some source) =
    (update_run (reuse_row source.run_id) request.run_id spool, some source.run_id)

-- The receipt's run, or none where the worker has to run the gate.
unfoldable pub reuse_gate :
    ProcessTable → ℕ → ℕ → ReuseRequest → Spool → Result (Spool × Option String)
unfolding reused
reuse_gate processes now max_age request spool = load_run spool.runs request.run_id >>= λ run.
    refuse_if
      (not (is_land run.kind) || not (is_running run.status) || not (is_preflight run.phase))
      gate_reuse_invalid
    >> refuse_if
        (not (admitted_worker_presents processes run request.worker_pid request.worker_start_token)
          || not (str_eq run.checkout request.checkout)
          || not (is_text run.head_sha request.head_sha))
        land_identity_mismatch
    >> refuse_if run.cancel_requested land_cancelled
    >> refuse_if (is_some run.gate_exit_status || is_some run.gate_run_id) gate_reuse_invalid
    >> ok (
        if max_age == 0
        then (spool, none)
        else reused request spool (newest (reusable now max_age run request.head_sha) spool.runs))

pub record LandResultRequest : Type 0 where
  pub run_id : String
  pub worker_pid : ℕ
  pub worker_start_token : String
  pub exit_status : ℤ

abbrev pub report_row : ℤ → RunRecord → RunRecord
report_row exit_status run = record run { reported_exit_status = some exit_status }

unfoldable pub report_land_result : ProcessTable → LandResultRequest → Spool → Result Spool
report_land_result processes request spool =
    refuse_if (not (exit_range request.exit_status)) land_result_invalid
    >> load_run spool.runs request.run_id
    >>= λ run.
        let phase_valid =
          is_gating run.phase && is_some run.gate_exit_status
          || is_publishing run.phase && is_int run.gate_exit_status (pos 0)
          || is_preflight run.phase in
        refuse_if
          (not (is_land run.kind)
            || not (is_running run.status)
            || not (
                admitted_worker_presents processes run request.worker_pid
                  request.worker_start_token)
            || is_some run.reported_exit_status
            || not phase_valid)
          land_result_invalid
        >> ok (update_run (report_row request.exit_status) request.run_id spool)
