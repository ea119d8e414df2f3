-- ===== src/Submit.antt =====
-- Submissions (store.rs): `validate_submit`, `insert_request`, `submit` and `clear`. `Files` is what
-- the checks ask of the file system.
use agcoord.Base.{
  ℕ, ◌-◌, ◌^◌, String, Bool, true, false, not, ◌&&◌, ◌||◌, Option, none, some, List, [], ◌∷◌, Map,
  lookup, ltb, leb, ◌==◌, str_eq, any, all, codes, is_some, is_text, get_or, if◌then◌else◌,
}
use agcoord.Run.{
  Binding, Json, number, Kind, Result, ok, ◌>>◌, refuse_if, is_check, is_merge, is_land,
  is_publication, submission_invalid, resource_unavailable,
}
use agcoord.Text.{identifier_valid, commit_sha_valid, trim, contains, empty_text, split_comma}

pub record OwnerInfo : Type 0 where
  pub capacities : Map ℕ
  pub resource_bindings : Map Binding

pub record Files : Type 0 where
  pub is_file : String → Bool
  pub is_dir : String → Bool

pub record SubmitRequest : Type 0 where
  pub run_id : String
  pub kind : Kind
  pub label : String
  pub agent : String
  pub repository_id : String
  pub repository : String
  pub worktree_id : String
  pub checkout : String
  pub branch : String
  pub head_sha : Option String
  pub resources : Map ℕ
  pub gate_run_id : Option String
  pub publication_adapter : Option String
  pub publication_request : Option Json
  pub caller_pid : ℕ
  pub command : List String
  pub environment : Map String

-- `Path::is_absolute`
unfoldable pub is_absolute : List ℕ → Bool
is_absolute [] = false
is_absolute (c ∷ cs) = c == b'/'

unfoldable pub empty_command : List String → Bool
empty_command [] = true
empty_command (program ∷ arguments) = empty_text program

unfoldable pub no_entries {ℓ} : {V : Type ℓ} → Map V → Bool
no_entries [] = true
no_entries _ = false

unfoldable pub bad_environment : Map String → Bool
bad_environment [] = false
bad_environment ((name, value) ∷ environment) =
    (empty_text name
      || contains name b'='
      || contains name 0
      || contains value 0
      || str_eq name "AGCOORD_RUN_ID")
    || bad_environment environment

-- `Value::as_u64`, above zero and at most `i64::MAX`
request_number : Option Json → Bool
request_number (some (number n)) = ltb 0 n && leb n (2 ^ 63 - 1)
request_number _ = false

unfoldable pub publication_valid : SubmitRequest → Bool
unfolding request_number
publication_valid request =
    if is_publication request.kind
    then is_text request.publication_adapter "github" && request_number request.publication_request
    else not (is_some request.publication_adapter) && not (is_some request.publication_request)

-- A setting that is absent, or "0" or "1".
unfoldable pub flag_valid : Option String → Bool
flag_valid none = true
flag_valid (some value) = str_eq value "0" || str_eq value "1"

worker_valid : Files → Option String → Bool
unfolding is_absolute
worker_valid files none = false
worker_valid files (some path) = is_absolute (codes path) && files.is_file path

unfoldable pub avoided_valid : Option String → Bool
avoided_valid none = true
avoided_valid (some value) = all commit_sha_valid (split_comma value)

unfoldable pub land_valid : Files → Map String → Bool
unfolding flag_valid worker_valid avoided_valid
land_valid files environment =
    worker_valid files (lookup "_AGCOORD_LAND_PYTHON" environment)
    && flag_valid (lookup "_AGCOORD_LAND_TARGET_SYNC" environment)
    && flag_valid (lookup "_AGCOORD_LAND_REUSE_FULL" environment)
    && avoided_valid (lookup "_AGCOORD_LAND_AVOID" environment)

head_valid : Option String → Bool
head_valid none = false
head_valid (some head) = commit_sha_valid head

-- The loop over the requested resources.
unfoldable pub resources_valid : Map ℕ → Map ℕ → Result (Unit {0})
resources_valid capacities [] = ok tt
resources_valid capacities ((name, units) ∷ resources) =
    let rest = resources_valid capacities resources in
    refuse_if (not (identifier_valid name)) submission_invalid
    >> refuse_if
        (units == 0 || ltb (2 ^ 63 - 1) units || ltb (get_or (lookup name capacities) 0) units)
        resource_unavailable
    >> rest

-- The tests before the resources, which all give the same code.
unfoldable pub request_valid : Files → SubmitRequest → Bool
unfolding empty_command no_entries bad_environment land_valid head_valid is_absolute
request_valid files request =
    identifier_valid request.run_id
    && identifier_valid request.repository_id
    && identifier_valid request.worktree_id
    && not (
        empty_text (trim request.label)
        || empty_text (trim request.repository)
        || empty_text (trim request.branch)
        || no_entries request.resources)
    && not (empty_command request.command || any (λ argument. contains argument 0) request.command)
    && not (bad_environment request.environment)
    && publication_valid request
    && (is_merge request.kind || not (is_some request.gate_run_id))
    && (not (is_land request.kind) || land_valid files request.environment)
    && is_absolute (codes request.checkout)
    && files.is_dir request.checkout
    && (is_check request.kind || head_valid request.head_sha)

unfoldable pub validate_submit : Files → OwnerInfo → SubmitRequest → Result (Unit {0})
validate_submit files owner request =
    refuse_if (not (request_valid files request)) submission_invalid
    >> resources_valid owner.capacities request.resources
