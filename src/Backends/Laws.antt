-- ===== src/Backends/Laws.antt =====
-- What the broker relies on of a backend (cgroup.rs, project_quota.rs), and of a run's entries.
use agcoord.Base.{
  String, ◌≡◌, ◌⊎◌, refl, true, ◌&&◌, some, [], Map, lookup, all, all_entries, arith, Distinct,
  all_imply, all_entries_imply,
}
use agcoord.Run.{RunRecord, Binding, BackendState, ok}
use agcoord.Json.{Value}
use agcoord.Resources.{code_valid}
use agcoord.Resources.States.Stored.{state_valid, is_object}
use agcoord.Rows.{columns_valid, states_match, receipt_matches_contract}
use agcoord.Rows.Coherent.{IsCoherent}
use agcoord.Backends.{
  Request, Observation, Measurement, Outcome, done, fault, Backend, Backends, run_bindings,
  bound_to,
}
use agcoord.Backends.Events.{has_name, receipt_valid}
use agcoord.Backends.Lifecycle.{Work, with_work, save_resource_records, code_of}
use agcoord.Backends.Requests.{IsBound}
use agcoord.Backends.Sound.{IsSound, receipt_valid-IsSound, IsSound-receipt_valid}
use agcoord.Backends.Measured.{IsOwn}

-- An error has a code that a receipt can hold.
abbrev pub Coded {ℓ} : {A : Type ℓ} → Outcome A → Type 0
Coded (done a) = Unit
Coded (fault code) = code_valid code ≡ true

-- A measurement is of the names of its request.
abbrev pub Measures : Request → Outcome Measurement → Type 0
Measures request (fault code) = code_valid code ≡ true
Measures request (done measured) =
    (all_entries (λ name _. has_name request.resources name) measured.peak ≡ true)
    × (all (λ (o : Observation). has_name request.resources o.resource && code_valid o.code)
          measured.observations
        ≡ true)

abbrev pub Handles : Outcome Value → Type 0
Handles (done handle) = is_object handle ≡ true
Handles (fault code) = Unit

-- What a backend promises: handles are JSON objects, codes are words of `code_valid`, and it
-- measures nothing that it was not asked about.
pub record IsBackend (b : Backend) : Type 0 where
  pub handles : (request : Request) → Handles (b.prepare request)
  pub used : (request : Request) (handle : Value) → Measures request (b.usage request handle)
  pub finished : (request : Request) (handle : Value) → Measures request (b.finish request handle)
  pub cancelled : (request : Request) (handle : Value) → Coded (b.cancel request handle)
  pub cleaned : (request : Request) (handle : Value) → Coded (b.cleanup request handle)

abbrev pub IsBroker : Backends → Type 0
IsBroker broker =
    (b : Backend)
    → (broker.cgroup_backend ≡ some b) ⊎ (broker.project_quota_backend ≡ some b)
    → IsBackend b

pub Coded-code_of {ℓ} :
    {A : Type ℓ} (success : String) (result : Outcome A)
    → code_valid success ≡ true
    → Coded result
    → code_valid (code_of success result) ≡ true
Coded-code_of success (done a) s c = s
Coded-code_of success (fault code) s c = c

pub backend_unavailable-code_valid : code_valid "backend-unavailable" ≡ true
unfolding code_valid
backend_unavailable-code_valid = refl

-- What is known of a measurement that a dispatched call gave.
abbrev pub Merged : Map Binding → String → Outcome Measurement → Type 0
Merged contract backend (fault code) = code_valid code ≡ true
Merged contract backend (done measured) = IsOwn contract backend measured

pub Measures-Merged :
    (contract : Map Binding) (backend : String) (request : Request) (result : Outcome Measurement)
    → IsBound backend contract request
    → Measures request result
    → Merged contract backend result
Measures-Merged contract backend request (fault code) b m = m
Measures-Merged contract backend request (done measured) b m = record {
  peaks =
      all_entries_imply (λ name _. has_name request.resources name)
        (λ name _. bound_to backend (lookup name contract)) measured.peak (λ name units h. b name h)
        m.0;
  seen =
      all_imply (λ (o : Observation). has_name request.resources o.resource && code_valid o.code)
        (λ (o : Observation). bound_to backend (lookup o.resource contract) && code_valid o.code)
        measured.observations (λ o h. ground (arith, b o.resource, h)) m.1;
}

-- The entries of a state that fit the contract.
pub record AreOwn (contract : Map Binding) (state : Map BackendState) : Type 0 where
  pub distinct : Distinct state
  pub states : all_entries state_valid state ≡ true
  pub matched : states_match contract state ≡ true

pub nil-AreOwn : (contract : Map Binding) → AreOwn contract []
unfolding states_match all_entries
nil-AreOwn contract = record { distinct = tt; states = refl; matched = refl }

module _ (run : RunRecord) (contract : Map Binding) (work : Work) where
  pub IsSound-save :
      columns_valid run ≡ true
      → IsSound run.resources contract work.receipt
      → save_resource_records run work ≡ ok (with_work run work)
  unfolding save_resource_records
  IsSound-save c s = ground (arith, IsSound-receipt_valid run contract work.receipt c s)

  -- The row that is saved can be loaded.
  pub IsSound-IsCoherent :
      columns_valid run ≡ true
      → run_bindings run ≡ ok contract
      → IsSound run.resources contract work.receipt
      → AreOwn contract work.state
      → IsCoherent (with_work run work) contract
  unfolding columns_valid run_bindings
  IsSound-IsCoherent c r s own =
      let v : (receipt_valid work.receipt run.resources ≡ true)
          × (receipt_matches_contract contract work.receipt ≡ true) =
        IsSound-receipt_valid run contract work.receipt c s in
      record {
        columns = c;
        receipt = v.0;
        bound = r;
        distinct = own.distinct;
        states = own.states;
        matched = own.matched;
        agreed = v.1;
      }

pub IsCoherent-IsSound :
    (run : RunRecord) (contract : Map Binding)
    → IsCoherent run contract
    → IsSound run.resources contract run.resource_receipt
IsCoherent-IsSound run contract c =
    receipt_valid-IsSound run contract run.resource_receipt c.receipt c.agreed

pub IsCoherent-AreOwn :
    (run : RunRecord) (contract : Map Binding)
    → IsCoherent run contract
    → AreOwn contract run.resource_state
IsCoherent-AreOwn run contract c = record {
  distinct = c.distinct;
  states = c.states;
  matched = c.matched;
}
