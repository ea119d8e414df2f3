-- ===== src/Backends/Events.antt =====
-- Receipts: their events and measurements (broker.rs), and what resources.rs accepts of one.
use agcoord.Base.{
  ℕ, String, Bool, true, false, not, ◌&&◌, ◌||◌, Option, none, some, List, [], ◌∷◌, ◌++◌, Map,
  lookup, insert, ltb, leb, ◌==◌, str_eq, any, all, filter, is_some, all_entries, if◌then◌else◌,
}
use agcoord.Run.{RunRecord, Event, Receipt, Result, ok, ◌>>◌, refuse_if, row_invalid}
use agcoord.Text.{empty_text}
use agcoord.Resources.{name_valid, code_valid}
use agcoord.Backends.{Observation, Measurement}

unfoldable pub append_resource_event :
    String → Receipt → String → String → String → String → String → Receipt
append_resource_event now receipt backend resource stage status code = record receipt {
  events =
      receipt.events
      ++ (record {
        at = now;
        backend = backend;
        resource = resource;
        stage = stage;
        status = status;
        code = code;
      }
          ∷ []);
}

-- `for name in names { append_resource_event(…)? }`, with a status for each name.
unfoldable pub append_events :
    String → Receipt → String → List String → String → (String → String) → String → Receipt
unfolding append_resource_event
append_events now receipt backend [] stage status code = receipt
append_events now receipt backend (name ∷ chosen) stage status code =
    append_events now (append_resource_event now receipt backend name stage (status name) code)
      backend chosen stage status code

abbrev same_or_none : Option String → String → Bool
same_or_none none b = true
same_or_none (some a) b = str_eq a b

unfoldable pub resource_event_exists :
    Receipt → String → Option String → Option String → String → Bool
resource_event_exists receipt backend resource stage code =
    any
      (λ (event : Event).
        str_eq event.backend backend
        && same_or_none resource event.resource
        && same_or_none stage event.stage
        && str_eq event.code code)
      receipt.events

-- A peak that is new or higher.
unfoldable pub higher : Option ℕ → ℕ → Bool
higher none units = true
higher (some previous) units = ltb previous units

unfoldable pub raise_peak : Map ℕ → String → ℕ → Map ℕ
unfolding higher
raise_peak peak name units =
    if higher (lookup name peak) units then insert name units peak else peak

-- The loop over the measured peaks.
unfoldable pub merge_peaks : Map ℕ → Map ℕ → Map ℕ
unfolding raise_peak
merge_peaks peak [] = peak
merge_peaks peak ((name, units) ∷ more) = merge_peaks (raise_peak peak name units) more

unfoldable pub peaks_change : Map ℕ → Map ℕ → Bool
unfolding raise_peak
peaks_change peak [] = false
peaks_change peak ((name, units) ∷ more) =
    higher (lookup name peak) units || peaks_change (raise_peak peak name units) more

abbrev pub recorded : String → String → String → Receipt → Observation → Receipt
recorded now backend stage receipt seen =
    if resource_event_exists receipt backend (some seen.resource) none seen.code
    then receipt
    else append_resource_event now receipt backend seen.resource stage "recorded" seen.code

-- The loop over the observations, without its flag and with it.
unfoldable pub merge_observations : String → String → String → Receipt → List Observation → Receipt
merge_observations now backend stage receipt [] = receipt
merge_observations now backend stage receipt (seen ∷ more) =
    merge_observations now backend stage (recorded now backend stage receipt seen) more

unfoldable pub observations_change : String → String → String → Receipt → List Observation → Bool
observations_change now backend stage receipt [] = false
observations_change now backend stage receipt (seen ∷ more) =
    not (resource_event_exists receipt backend (some seen.resource) none seen.code)
    || observations_change now backend stage (recorded now backend stage receipt seen) more

unfoldable pub has_name : Map ℕ → String → Bool
has_name m name = is_some (lookup name m)

-- The entries of a peak whose name has been applied.
unfoldable pub applied_peaks : Map ℕ → Map ℕ → Map ℕ
unfolding has_name
applied_peaks applied [] = []
applied_peaks applied ((name, units) ∷ more) =
    let rest = applied_peaks applied more in
    if has_name applied name then (name, units) ∷ rest else rest

unfoldable pub measurement_valid : RunRecord → Measurement → Bool
unfolding has_name
measurement_valid run measured =
    all_entries (λ name _. has_name run.resources name) measured.peak
    && all (λ (seen : Observation). has_name run.resources seen.resource && code_valid seen.code)
        measured.observations

unfoldable pub merge_measurement :
    String → RunRecord → Receipt → String → String → Measurement → Result (Receipt × Bool)
unfolding merge_peaks peaks_change merge_observations observations_change applied_peaks
    measurement_valid
merge_measurement now run receipt backend stage measured =
    refuse_if (not (measurement_valid run measured)) row_invalid
    >> (let peak = applied_peaks receipt.applied measured.peak in
        let seen =
          filter (λ (o : Observation). has_name receipt.applied o.resource) measured.observations in
        let raised : Receipt = record receipt { peak = merge_peaks receipt.peak peak } in
        ok (
          merge_observations now backend stage raised seen,
          peaks_change receipt.peak peak || observations_change now backend stage raised seen,
        ))

unfoldable pub stage_valid : String → Bool
stage_valid stage =
    str_eq stage "probe"
    || str_eq stage "prepare"
    || str_eq stage "attach"
    || str_eq stage "usage"
    || str_eq stage "finish"
    || str_eq stage "cancel"
    || str_eq stage "cleanup"

unfoldable pub status_valid : String → Bool
status_valid status =
    str_eq status "applied"
    || str_eq status "recorded"
    || str_eq status "unapplied"
    || str_eq status "failed"

unfoldable pub event_valid : Map ℕ → Event → Bool
event_valid requested event =
    not (empty_text event.at)
    && name_valid event.backend
    && has_name requested event.resource
    && stage_valid event.stage
    && status_valid event.status
    && code_valid event.code

unfoldable pub within : Option ℕ → ℕ → Bool
within none units = false
within (some limit) units = leb units limit

-- `&requested != resources` on two maps.
unfoldable pub same_units : Map ℕ → Map ℕ → Bool
same_units [] [] = true
same_units ((a, x) ∷ as') ((b, y) ∷ bs) = str_eq a b && x == y && same_units as' bs
same_units _ _ = false

-- `receipt_valid`, for a receipt of the right shape.
unfoldable pub receipt_valid : Receipt → Map ℕ → Bool
unfolding event_valid within same_units has_name
receipt_valid receipt resources =
    all_entries (λ name units. ltb 0 units) receipt.requested
    && all_entries (λ name units. ltb 0 units) receipt.applied
    && same_units receipt.requested resources
    && all_entries (λ name units. within (lookup name receipt.requested) units) receipt.applied
    && all_entries (λ name units. has_name receipt.requested name) receipt.peak
    && all (event_valid receipt.requested) receipt.events
