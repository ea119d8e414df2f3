-- ===== src/Backends/Keeps/Held.antt =====
-- broker.rs `prepare_resources`: a run starts only if every required binding is held by a backend.
use agcoord.Base.{
  ℕ, String, ◌≡◌, ◌⊎◌, inl, inr, refl, Bool, true, false, not, ◌||◌, List, [], ◌∷◌, Map, lookup,
  all, eq_iff, Distinct, if◌then◌else◌, arith, Bool-cases,
}
use agcoord.Run.{RunRecord, Binding, BackendState, Result, ok, ◌>>=◌}
use agcoord.Life.Loaded.{Result-cases}
use agcoord.Backends.{Backends, run_bindings, names}
use agcoord.Backends.Lifecycle.{is_nonempty, cleanup_resource_records, save_resource_records}
use agcoord.Backends.Prepare.{Probed, probe_each, Prepared, prepare_each, prepare_resources}
use agcoord.Text.{empty_text}
use agcoord.Rows.{run_from_row}
use agcoord.Resources.States.Sorted.{ascending}
use agcoord.Backends.Laws.{IsBroker}
use agcoord.Backends.Keeps.Started.{eligible_Distinct, prepare_resources-loads}
use agcoord.Backends.Keeps.Probed.{is_in, must_hold, probe_each-held}
use agcoord.Backends.Keeps.Required.{state_holds, prepare_each-holds}

-- Every required name of the run is held.
unfoldable pub required_held : Map Binding → Map ℕ → Map BackendState → Bool
unfolding state_holds
required_held contract resources state =
    all (λ name. not (must_hold contract name) || state_holds name state) (names resources)

required_held_intro :
    (chosen : List String) (contract : Map Binding) (state : Map BackendState)
    → ((name : String)
        → is_in name chosen ≡ true
        → must_hold contract name ≡ true
        → state_holds name state ≡ true)
    → all (λ name. not (must_hold contract name) || state_holds name state) chosen ≡ true
required_held_intro [] contract state f = refl
required_held_intro (x ∷ xs) contract state f =
    let rest : all (λ name. not (must_hold contract name) || state_holds name state) xs ≡ true =
      required_held_intro xs contract state (λ name i m. f name (ground (arith, i)) m) in
    let first : (must_hold contract x ≡ true) → (state_holds x state ≡ true) =
      f x (ground (arith, (eq_iff x x).1 refl)) in
    elim (Bool-cases (must_hold contract x)) [ inl m ↦ rw (m, first m) rest | inr m ↦ rw m rest ]

abbrev start_answer : RunRecord × Bool → Result (RunRecord × Bool)
start_answer a = ok a

module _ (broker : Backends) (now : String) (run : RunRecord) where
  -- Only what is not cleaned up may start.
  settled_start :
      (prepared : Prepared) {after : RunRecord}
      → ((if prepared.required_failure
            then cleanup_resource_records now broker run prepared.work
            else ok prepared.work)
          >>= save_resource_records run
          >>= λ saved. start_answer (saved, not prepared.required_failure))
        ≡ start_answer (after, true)
      → (prepared.required_failure ≡ false) × (after.resource_state ≡ prepared.work.state)
  unfolding save_resource_records start_answer
  settled_start prepared {after} h = elim (Bool-cases prepared.required_failure) [
    | inl k ↦
        elim (Result-cases
          (cleanup_resource_records now broker run prepared.work >>= save_resource_records run)) [
            | inl (saved, q) ↦ absurd (ground (arith, rw (k, q) at h))
            | inr (code, q) ↦ absurd (ground (arith, rw (k, q) at h))
          ]
    | inr k ↦ (k, ground (arith, rw k at h))
  ]

  prepare_resources-held :
      (contract : Map Binding) {after : RunRecord} (name : String)
      → run_bindings run ≡ ok contract
      → run.resource_state ≡ []
      → Distinct
          (probe_each now broker.resource_capabilities contract run.resources (record {
            receipt = run.resource_receipt;
            eligible = [];
            required_failure = false;
          })).eligible
      → prepare_resources now broker run ≡ ok (after, true)
      → is_in name (names run.resources) ≡ true
      → must_hold contract name ≡ true
      → state_holds name after.resource_state ≡ true
  unfolding prepare_resources lookup
  prepare_resources-held contract {after} name r n d h i m =
      let first : Probed = record {
        receipt = run.resource_receipt;
        eligible = [];
        required_failure = false;
      } in
      let probed : Probed =
        probe_each now broker.resource_capabilities contract run.resources first in
      let with_failure : Bool → Prepared = λ b. record {
        work = record { receipt = probed.receipt; state = [] };
        required_failure = b;
      } in
      let start : Prepared = with_failure probed.required_failure in
      let fresh : is_nonempty run.resource_state ≡ false = ground (arith, n) in
      elim (Result-cases (
        if probed.required_failure
        then ok start
        else prepare_each now broker run contract probed.eligible start)) [
          | inr (code, q) ↦ absurd (ground (arith, rw (fresh, r, q) at h))
          | inl (made, q) ↦
              let f : (made.required_failure ≡ false) × (after.resource_state ≡ made.work.state) =
                settled_start made (rw (fresh, r, q) at h) in
              elim (Bool-cases probed.required_failure) [
                | inl k ↦
                    let e : with_failure true ≡ made = ground (arith, rw k at q) in
                    let g : true ≡ made.required_failure = rw (← e) refl in
                    absurd (ground (arith, f.0, g))
                | inr k ↦ rw f.1 (
                    prepare_each-holds contract now broker run probed.eligible (with_failure false)
                      name (rw k at q) f.0 d (λ key there. refl)
                      (inr (
                        probe_each-held contract now broker.resource_capabilities run.resources
                            first name k (inr (i, m)),
                        m,
                      )))
              ]
        ]

-- A run whose resources are in order and that has no state yet can be prepared, if the backends keep
-- their laws, and the row that is left can be loaded. Either the run may not start and holds no
-- backend's state, or it may start and every required binding that a backend is to enforce is held
-- in the state of a backend.
pub prepare_resources-required_held :
    (broker : Backends) (now : String) (row : RunRecord) {run : RunRecord} (contract : Map Binding)
    → IsBroker broker
    → empty_text now ≡ false
    → run_from_row row ≡ ok run
    → run_bindings run ≡ ok contract
    → ascending (names run.resources) ≡ true
    → run.resource_state ≡ []
    → (after : RunRecord) × (starts : Bool) × (prepare_resources now broker run
        ≡ ok (after, starts))
      × (run_from_row after ≡ ok after)
      × (((starts ≡ false) × (after.resource_state ≡ []))
          ⊎ ((starts ≡ true) × (required_held contract run.resources after.resource_state ≡ true)))
unfolding required_held
prepare_resources-required_held broker now row {run} contract laws t h r o n =
    let made : (after : RunRecord) × (starts : Bool) × (prepare_resources now broker run
          ≡ ok (after, starts))
        × (run_from_row after ≡ ok after)
        × ((starts ≡ false) → (after.resource_state ≡ [])) =
      prepare_resources-loads broker now row laws t h o n in
    (
      made.0,
      made.1,
      made.2,
      made.3,
      elim (Bool-cases made.1) [
        | inr k ↦ inl (k, made.4 k)
        | inl k ↦ inr (
          k,
          required_held_intro (names run.resources) contract made.0.resource_state (λ name i m.
              prepare_resources-held broker now run contract name r n
                (eligible_Distinct broker now t contract row h r o) (rw k at (made.2)) i m),
        )
      ],
    )
