-- ===== src/Run.antt =====
-- The durable rows of the spool: `RunRecord` (store.rs), the words its columns hold, and the
-- stable error codes of the operations (error.rs).
use agcoord.Base.{ℕ, String, Bool, true, false, Option, none, some, List, [], Map, ℤ, find, str_eq}
use agcoord.Json.{Value}

-- The CHECK constraint of `runs.status`.
pub data Status : Type 0 where
  queued running passed failed cancelled interrupted : Status

-- The CHECK constraint of `runs.kind`.
pub data Kind : Type 0 where
  check full merge land : Kind

-- The CHECK constraint of `runs.phase`; `waiting` is the word "queued", `executing` is "running".
pub data Phase : Type 0 where
  waiting executing preflight gating publishing complete : Phase

-- The codes of `AppError`.
pub data Error : Type 0 where
  active_state_invalid run_unknown run_exists run_terminal : Error
  broker_draining gate_required stale_gate_verdict gate_mismatch schema_invalid : Error
  submission_invalid resource_unavailable clear_live_work clear_failed : Error
  publication_authoritative admission_invalid admission_mismatch : Error
  land_phase_invalid land_identity_mismatch land_cancelled land_result_invalid : Error
  gate_reuse_invalid worker_identity_mismatch worker_start_failed : Error
  lease_row_invalid lease_request_invalid lease_parent_invalid lease_budget_missing : Error
  lease_budget_exceeded lease_exists lease_unknown lease_owner_mismatch : Error
  not_draining drain_id_invalid drain_reason_invalid drain_id_mismatch drain_live_work : Error
  host_recovery_required resume_owner_live maintenance_invalid : Error
  not_running row_invalid host_recovery_invalid host_recovery_worker_live : Error
  host_recovery_exhausted host_recovery_settling host_recovery_proof_failed config_invalid : Error
  database_error : Error

-- The words that `runs.failure_reason` holds. `coded` is the code of an error.
pub data FailureReason : Type 0 where
  broker_stopped gate_failed stale_main head_changed pr_not_ready publish_failed : FailureReason
  avoided_commit merge_error memory_oom worker_result_lost : FailureReason
  resource_enforcement_failed start_failed host_recovery_parked : FailureReason
  coded : Error → FailureReason

-- What a fallible operation returns.
pub data Result {ℓ} (A : Type ℓ) : Type ℓ where
  ok : A → Result A
  err : Error → Result A

infixl 5 ◌>>=◌ ◌>>◌
abbrev pub ◌>>=◌ {ℓ κ} : {A : Type ℓ} {B : Type κ} → Result A → (A → Result B) → Result B
ok value >>= next = next value
err code >>= next = err code

abbrev pub ◌>>◌ {ℓ} : {B : Type ℓ} → Result (Unit {0}) → Result B → Result B
step >> next = step >>= λ _. next

-- `if b { return Err(e) }`
abbrev pub refuse_if : Bool → Error → Result (Unit {0})
refuse_if true code = err code
refuse_if false code = ok tt

-- `Binding`, the enforcement that a resource name is bound to (resources.rs).
pub record Binding : Type 0 where
  pub backend : Option String
  pub kind : String
  pub mode : String
  pub unit : String
  pub exec : Bool

-- A JSON value: a number that fits u64, or any other by its text.
pub data Json : Type 0 where
  number : ℕ → Json
  other : String → Json

-- An event of a resource receipt.
pub record Event : Type 0 where
  pub at : String
  pub backend : String
  pub resource : String
  pub stage : String
  pub status : String
  pub code : String

-- The JSON object `resource_receipt`.
pub record Receipt : Type 0 where
  pub requested : Map ℕ
  pub applied : Map ℕ
  pub peak : Map ℕ
  pub events : List Event

-- `BackendState`; the handle is a JSON object that its backend alone reads.
pub record BackendState : Type 0 where
  pub handle : Value
  pub resources : List String
  pub finished : Bool
  pub cancelled : Bool

-- `RunRecord`.
pub record RunRecord : Type 0 where
  pub sequence : ℕ
  pub run_id : String
  pub status : Status
  pub kind : Kind
  pub phase : Phase
  pub label : String
  pub agent : String
  pub repository_id : String
  pub repository : String
  pub worktree_id : String
  pub checkout : String
  pub branch : String
  pub head_sha : Option String
  pub barrier : Bool
  pub resources : Map ℕ
  pub resource_contract : Map Binding
  pub resource_receipt : Receipt
  pub resource_state : Map BackendState
  pub gate_run_id : Option String
  pub publication_adapter : Option String
  pub publication_request : Option Json
  pub failure_reason : Option FailureReason
  pub gate_exit_status : Option ℤ
  pub reported_exit_status : Option ℤ
  pub caller_pid : ℕ
  pub command : List String
  pub environment : Map String
  pub created_at : ℕ
  pub started_at : Option ℕ
  pub finished_at : Option ℕ
  pub exit_status : Option ℤ
  pub worker_pid : Option ℕ
  pub worker_start_token : Option String
  pub cancel_requested : Bool

-- `run.status == "queued"` and the like.
abbrev pub is_queued : Status → Bool
is_queued queued = true
is_queued _ = false

abbrev pub is_running : Status → Bool
is_running running = true
is_running _ = false

abbrev pub is_check : Kind → Bool
is_check check = true
is_check _ = false

abbrev pub is_passed : Status → Bool
is_passed passed = true
is_passed _ = false

abbrev pub is_land : Kind → Bool
is_land land = true
is_land _ = false

abbrev pub is_merge : Kind → Bool
is_merge merge = true
is_merge _ = false

abbrev pub is_full : Kind → Bool
is_full full = true
is_full _ = false

-- `matches!(kind, "merge" | "land")`
abbrev pub is_publication : Kind → Bool
is_publication merge = true
is_publication land = true
is_publication _ = false

abbrev pub is_preflight : Phase → Bool
is_preflight preflight = true
is_preflight _ = false

abbrev pub is_gating : Phase → Bool
is_gating gating = true
is_gating _ = false

abbrev pub is_publishing : Phase → Bool
is_publishing publishing = true
is_publishing _ = false

abbrev pub is_waiting_phase : Phase → Bool
is_waiting_phase waiting = true
is_waiting_phase _ = false

abbrev pub is_complete : Phase → Bool
is_complete complete = true
is_complete _ = false

-- `run.kind == request.kind`
abbrev pub same_kind : Kind → Kind → Bool
same_kind check check = true
same_kind full full = true
same_kind merge merge = true
same_kind land land = true
same_kind _ _ = false

abbrev pub is_broker_stopped : Option FailureReason → Bool
is_broker_stopped (some broker_stopped) = true
is_broker_stopped _ = false

-- store.rs `is_terminal`
unfoldable pub is_terminal : Status → Bool
is_terminal passed = true
is_terminal failed = true
is_terminal cancelled = true
is_terminal interrupted = true
is_terminal _ = false

unfoldable pub run_row : Option RunRecord → Result RunRecord
run_row none = err run_unknown
run_row (some run) = ok run

-- store.rs `load_run`, over rows that `run_from_row` accepts.
unfoldable pub load_run : List RunRecord → String → Result RunRecord
unfolding run_row
load_run runs run_id = run_row (find (λ run. str_eq run.run_id run_id) runs)

-- resources.rs `initial_receipt`
abbrev pub initial_receipt : Map ℕ → Receipt
initial_receipt resources = record { requested = resources; applied = []; peak = []; events = [] }
