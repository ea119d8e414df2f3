-- ===== src/Rows.antt =====
-- store.rs `run_from_row`: which rows of `runs` can be loaded.
pub mod Coherent
use agcoord.Base.{
  ℕ, ◌-◌, ◌^◌, String, Bool, true, false, not, ◌&&◌, ◌||◌, Option, none, some, List, [], ◌∷◌, Map,
  lookup, leb, ltb, ◌==◌, str_eq, any, all, is_text, all_entries, if◌then◌else◌,
}
use agcoord.Run.{
  RunRecord, Binding, Event, Receipt, BackendState, Result, ok, err, ◌>>=◌, ◌>>◌, refuse_if,
  row_invalid,
}
use agcoord.Text.{identifier_valid, empty_text, contains}
use agcoord.Resources.{enforced}
use agcoord.Resources.States.{parse_backend_state, backend_state_value}
use agcoord.Submit.{no_entries, empty_command, bad_environment}
use agcoord.Backends.{run_bindings, bound_to}
use agcoord.Backends.Events.{receipt_valid}

-- `i64::MAX`, `u32::MAX`
abbrev pub max_i64 : ℕ
max_i64 = 2 ^ 63 - 1

abbrev pub units_valid : String → ℕ → Bool
units_valid name units = identifier_valid name && not (units == 0) && leb units max_i64

unfoldable pub pid_valid : Option ℕ → Bool
pid_valid none = true
pid_valid (some pid) = ltb pid (2 ^ 32)

-- Every name of a state is bound to its backend.
unfoldable pub states_match : Map Binding → Map BackendState → Bool
states_match contract state =
    all_entries (λ backend own. all (λ name. bound_to backend (lookup name contract)) own.resources)
      state

unfoldable pub enforced_at : Option Binding → Bool
enforced_at none = false
enforced_at (some binding) = enforced binding

unfoldable pub units_match : Map Binding → Map ℕ → Bool
unfolding enforced_at
units_match contract units = all_entries (λ name _. enforced_at (lookup name contract)) units

unfoldable pub event_matches : Map Binding → Event → Bool
event_matches contract event = bound_to event.backend (lookup event.resource contract)

unfoldable pub receipt_matches_contract : Map Binding → Receipt → Bool
unfolding units_match event_matches
receipt_matches_contract contract receipt =
    units_match contract receipt.applied
    && units_match contract receipt.peak
    && all (event_matches contract) receipt.events

abbrev present {ℓ} : {A : Type ℓ} → Option A → Result A
present none = err row_invalid
present (some a) = ok a

-- The columns that no operation on resources writes.
unfoldable pub columns_valid : RunRecord → Bool
unfolding pid_valid
columns_valid run =
    not (no_entries run.resources)
    && all_entries units_valid run.resources
    && not (empty_command run.command || any (λ argument. contains argument 0) run.command)
    && not (bad_environment run.environment)
    && pid_valid run.worker_pid

unfoldable pub run_from_row : RunRecord → Result RunRecord
unfolding columns_valid states_match receipt_matches_contract
run_from_row run =
    refuse_if (not (columns_valid run)) row_invalid
    >> refuse_if (not (receipt_valid run.resource_receipt run.resources)) row_invalid
    >> run_bindings run
    >>= λ contract.
        present (parse_backend_state (backend_state_value run.resource_state)) >>= λ state.
        refuse_if (not (states_match contract state)) row_invalid
        >> refuse_if (not (receipt_matches_contract contract run.resource_receipt)) row_invalid
        >> ok (record run { resource_state = state })
