-- ===== src/Backends.antt =====
-- The resource backends as the broker drives them (broker.rs, with the requests of cgroup.rs and
-- project_quota.rs). A backend is a record of its six operations, whose answers come from the kernel.
pub mod Events
pub mod Lifecycle
pub mod Attach
pub mod Prepare
pub mod Setup
pub mod Scratch
pub mod Requests
pub mod Sound
pub mod Recorded
pub mod Measured
pub mod Laws
pub mod Keeps
pub mod Ordered
pub mod Probes
use agcoord.Base.{
  ℕ, String, Bool, true, false, not, ◌&&◌, Option, none, some, List, [], ◌∷◌, Map, lookup, str_eq,
  str_lt, is_some, is_text, all_entries, if◌then◌else◌,
}
use agcoord.Run.{
  RunRecord, Binding, Result, ok, err, ◌>>=◌, ◌>>◌, refuse_if, row_invalid, config_invalid,
}
use agcoord.Json.{Value, Fields}
use agcoord.Resources.{bindings_value, parse_bindings}

abbrev pub cgroup_name : String
cgroup_name = "cgroup-v2"

abbrev pub project_quota_name : String
project_quota_name = "project-quota"

-- `CgroupRequest`, `QuotaRequest`
pub record Request : Type 0 where
  pub run_id : String
  pub resources : Map ℕ
  pub bindings : Map Binding

pub record Observation : Type 0 where
  pub resource : String
  pub code : String

pub record Measurement : Type 0 where
  pub peak : Map ℕ
  pub observations : List Observation

-- `Result<T, CgroupError>`: an error has a code.
pub data Outcome {ℓ} (A : Type ℓ) : Type ℓ where
  done : A → Outcome A
  fault : String → Outcome A

pub record Backend : Type 0 where
  pub prepare : Request → Outcome Value
  pub attach : ℕ → Request → Value → Outcome (Unit {0})
  pub usage : Request → Value → Outcome Measurement
  pub finish : Request → Value → Outcome Measurement
  pub cancel : Request → Value → Outcome (Unit {0})
  pub cleanup : Request → Value → Outcome (Unit {0})

-- The fields of `Broker` that resources use.
pub record Backends : Type 0 where
  pub cgroup_backend : Option Backend
  pub project_quota_backend : Option Backend
  pub resource_capabilities : Fields

-- `map.keys()`
unfoldable pub names {ℓ} : {V : Type ℓ} → Map V → List String
names [] = []
names ((name, v) ∷ m) = name ∷ names m

unfoldable pub same_names : List String → List String → Bool
same_names [] [] = true
same_names (a ∷ as') (b ∷ bs) = str_eq a b && same_names as' bs
same_names _ _ = false

-- The two key sets are equal.
unfoldable pub same_keys {ℓ κ} : {V : Type ℓ} {W : Type κ} → Map V → Map W → Bool
same_keys a b =
    all_entries (λ name _. is_some (lookup name b)) a
    && all_entries (λ name _. is_some (lookup name a)) b

abbrev as_row {ℓ} : {A : Type ℓ} → Result A → Result A
as_row (ok a) = ok a
as_row (err code) = err row_invalid

unfoldable pub run_bindings : RunRecord → Result (Map Binding)
run_bindings run =
    as_row (parse_bindings (some (bindings_value run.resource_contract))) >>= λ bindings.
    refuse_if (not (same_keys bindings run.resources)) row_invalid >> ok bindings

-- Collecting into a `BTreeMap` orders the keys.
unfoldable pub insert_ordered {ℓ} : {V : Type ℓ} → String → V → Map V → Map V
insert_ordered name v [] = (name, v) ∷ []
insert_ordered name v ((key, w) ∷ m) =
    if str_eq key name
    then (name, v) ∷ m
    else if str_lt name key
    then (name, v) ∷ (key, w) ∷ m
    else (key, w) ∷ insert_ordered name v m

unfoldable pub units_at : Option ℕ → Result ℕ
units_at none = err row_invalid
units_at (some units) = ok units

unfoldable pub selected_units : Map ℕ → List String → Result (Map ℕ)
unfolding units_at insert_ordered
selected_units resources [] = ok []
selected_units resources (name ∷ more) = units_at (lookup name resources) >>= λ units.
    selected_units resources more >>= λ rest. ok (insert_ordered name units rest)

unfoldable pub bound_to : String → Option Binding → Bool
bound_to backend none = false
bound_to backend (some binding) = is_text binding.backend backend

unfoldable pub bound_resources : String → Map Binding → Map ℕ → Map ℕ
unfolding bound_to
bound_resources backend bindings [] = []
bound_resources backend bindings ((name, units) ∷ resources) =
    let rest = bound_resources backend bindings resources in
    if bound_to backend (lookup name bindings) then (name, units) ∷ rest else rest

cons_binding : String → String → Option Binding → Map Binding → Map Binding
unfolding bound_to
cons_binding backend name none rest = rest
cons_binding backend name (some binding) rest =
    if bound_to backend (some binding) then (name, binding) ∷ rest else rest

bound_bindings : String → Map Binding → Map ℕ → Map Binding
unfolding cons_binding
bound_bindings backend bindings [] = []
bound_bindings backend bindings ((name, units) ∷ resources) =
    cons_binding backend name (lookup name bindings) (bound_bindings backend bindings resources)

-- `CgroupRequest::new`, `QuotaRequest::new`
unfoldable pub request_new : String → String → Map ℕ → Map Binding → Request
unfolding bound_resources bound_bindings
request_new backend run_id resources bindings = record {
  run_id = run_id;
  resources = bound_resources backend bindings resources;
  bindings = bound_bindings backend bindings resources;
}

unfoldable pub request_of : String → RunRecord → List String → Result Request
unfolding request_new
request_of backend run chosen = run_bindings run >>= λ bindings.
    selected_units run.resources chosen >>= λ selected.
    refuse_if
      (not (same_names (names (request_new backend run.run_id selected bindings).resources) chosen))
      row_invalid
    >> ok (request_new backend run.run_id selected bindings)

abbrev pub cgroup_request : RunRecord → List String → Result Request
cgroup_request = request_of cgroup_name

abbrev pub project_quota_request : RunRecord → List String → Result Request
project_quota_request = request_of project_quota_name

-- `self.backend.ok_or_else(…).and_then(…)`
abbrev pub ask_backend {ℓ} :
    {A : Type ℓ} → Option Backend → (Backend → Request → Outcome A) → Request → Outcome A
ask_backend none call request = fault "backend-unavailable"
ask_backend (some backend) call request = call backend request

-- The choice of a backend by its name, in each of the operations below.
unfoldable pub dispatch {ℓ} :
    {A : Type ℓ}
    → Backends
    → String
    → RunRecord
    → List String
    → (Backend → Request → Outcome A)
    → Result (Outcome A)
dispatch broker backend run chosen call =
    if str_eq backend cgroup_name
    then (cgroup_request run chosen >>= λ request.
        ok (ask_backend broker.cgroup_backend call request))
    else if str_eq backend project_quota_name
    then (project_quota_request run chosen >>= λ request.
        ok (ask_backend broker.project_quota_backend call request))
    else ok (fault "backend-unavailable")
