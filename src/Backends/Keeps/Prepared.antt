-- ===== src/Backends/Keeps/Prepared.antt =====
-- broker.rs `prepare_resources` on a coherent row.
use agcoord.Base.{
  ℕ, String, ◌≡◌, inl, inr, refl, true, false, Option, some, List, [], ◌∷◌, Map, lookup, all,
  is_some, get_or, all_entries, arith, Bool-cases,
}
use agcoord.Run.{RunRecord, Binding, BackendState, ok}
use agcoord.Text.{empty_text}
use agcoord.Json.{Value, Fields, get, as_object}
use agcoord.Resources.{code_valid, enforced}
use agcoord.Resources.States.{◌>>?◌}
use agcoord.Resources.States.Sorted.{ascending}
use agcoord.Resources.States.Stored.{state_valid, is_object}
use agcoord.Rows.{states_match}
use agcoord.Backends.{
  Outcome, done, fault, Backends, run_bindings, bound_to, dispatch, names, insert_ordered,
}
use agcoord.Backends.Events.{stage_valid, status_valid}
use agcoord.Backends.Lifecycle.{safe_code}
use agcoord.Backends.Attach.{binding_at, failure_status}
use agcoord.Backends.Prepare.{
  capability_issue, Probed, probe_outcome, probe_each, Prepared, prepare_outcome, prepare_each,
}
use agcoord.Backends.Requests.{dispatch-ok}
use agcoord.Backends.Sound.{IsSound}
use agcoord.Backends.Recorded.{append_events-IsSound}
use agcoord.Backends.Laws.{Handles, IsBroker, AreOwn}
use agcoord.Backends.Keeps.{safe_code-code_valid}
use agcoord.Backends.Keeps.Attached.{failure_status-status_valid}
use agcoord.Backends.Ordered.{
  ascending-tail, insert_ordered-ascending, all_entries-insert_ordered, ascending-Distinct,
}
use agcoord.Backends.Probes.{
  IsEligible, chosen_valid, object_issue-code_valid, probe_outcome-IsEligible,
}

prepare-literals :
    (stage_valid "prepare" ≡ true)
    × (code_valid "prepared" ≡ true)
    × (code_valid "prepare-failed" ≡ true)
    × (status_valid "recorded" ≡ true)
unfolding stage_valid code_valid status_valid
prepare-literals = (refl, refl, refl, refl)

capability_issue-code_valid :
    (binding : Binding) (capability : Option Value) (issue : String)
    → capability_issue binding capability ≡ some issue
    → code_valid issue ≡ true
unfolding capability_issue
capability_issue-code_valid binding capability issue h =
    object_issue-code_valid binding (capability >>? as_object) h

module _ (broker : Backends) (now : String) (t : empty_text now ≡ false)
    (contract : Map Binding) where
  pub probe_each-IsEligible :
      (run : RunRecord) (capabilities : Fields) (resources : Map ℕ) (so_far : Probed)
      → run_bindings run ≡ ok contract
      → ascending (names resources) ≡ true
      → all_entries (λ name _. is_some (lookup name contract)) resources ≡ true
      → IsEligible contract (names resources) so_far.eligible
      → IsSound run.resources contract so_far.receipt
      → IsEligible contract [] (probe_each now capabilities contract resources so_far).eligible
        × IsSound run.resources contract
            (probe_each now capabilities contract resources so_far).receipt
  unfolding probe_each names all_entries
  probe_each-IsEligible run capabilities [] so_far r a k i s = (i, s)
  probe_each-IsEligible run capabilities ((name, units) ∷ resources) so_far r a k i s =
      let binding : Binding = binding_at contract name in
      let issue : Option String =
        capability_issue binding (get (get_or binding.backend "") capabilities) in
      let a' : ascending (names resources) ≡ true = ascending-tail name (names resources) a in
      elim (Bool-cases (enforced binding)) [
        | inl e ↦
            let step : IsEligible contract (names resources) _ × IsSound run.resources contract _ =
              probe_outcome-IsEligible run contract now r t name (names resources) issue so_far a
                (ground (arith, k)) e (λ code h. capability_issue-code_valid binding _ code h) i
                s in
            rw (e, probe_each)
              (probe_each-IsEligible run capabilities resources
                (probe_outcome now contract name (get_or binding.backend "") issue so_far) r a'
                (ground (arith, k)) step.0 step.1)
        | inr e ↦
            rw (e, probe_each)
              (probe_each-IsEligible run capabilities resources so_far r a' (ground (arith, k))
                (record { ordered = i.ordered; valid = i.valid; before = ground (arith, i.before) })
                s)
      ]

  chosen_bound :
      (backend : String) (chosen : List String)
      → chosen_valid contract backend chosen ≡ true
      → all (λ name. bound_to backend (lookup name contract)) chosen ≡ true
  unfolding chosen_valid
  chosen_bound backend chosen v = ground arith

  chosen_ascending :
      (backend : String) (chosen : List String)
      → chosen_valid contract backend chosen ≡ true
      → ascending chosen ≡ true
  unfolding chosen_valid
  chosen_ascending backend chosen v = ground arith

  chosen_state :
      (backend : String) (chosen : List String) (handle : Value)
      → chosen_valid contract backend chosen ≡ true
      → is_object handle ≡ true
      → state_valid backend
          (record { handle = handle; resources = chosen; finished = false; cancelled = false })
        ≡ true
  unfolding chosen_valid state_valid
  chosen_state backend chosen handle v h = ground (arith, v, h)

  -- A state in order of its backends.
  abbrev pub IsPrepared : RunRecord → Prepared → Type 0
  IsPrepared run so_far =
      (ascending (names so_far.work.state) ≡ true)
      × AreOwn contract so_far.work.state
      × IsSound run.resources contract so_far.work.receipt

  prepare_outcome-IsPrepared :
      (run : RunRecord) (backend : String) (chosen : List String) (so_far : Prepared)
      (result : Outcome Value)
      → run_bindings run ≡ ok contract
      → chosen_valid contract backend chosen ≡ true
      → Handles result
      → IsPrepared run so_far
      → IsPrepared run (prepare_outcome now contract backend chosen so_far result)
  unfolding prepare_outcome states_match
  prepare_outcome-IsPrepared run backend chosen so_far (done handle) r v h p =
      let own : BackendState = record {
        handle = handle;
        resources = chosen;
        finished = false;
        cancelled = false;
      } in
      let bound : all (λ name. bound_to backend (lookup name contract)) chosen ≡ true =
        chosen_bound backend chosen v in
      let ordered : ascending (names (insert_ordered backend own so_far.work.state)) ≡ true =
        insert_ordered-ascending backend own so_far.work.state p.0 in
      (
        ordered,
        record {
          distinct = ascending-Distinct (insert_ordered backend own so_far.work.state) ordered;
          states =
              all_entries-insert_ordered state_valid backend own so_far.work.state
                (chosen_state backend chosen handle v h) p.1.states;
          matched =
              all_entries-insert_ordered
                (λ name other. all (λ n. bound_to name (lookup n contract)) other.resources) backend
                own so_far.work.state bound p.1.matched;
        },
        append_events-IsSound run contract now r t backend chosen "prepare" (λ name. "recorded")
            "prepared" so_far.work.receipt bound prepare-literals.0 (λ name. prepare-literals.3)
            prepare-literals.1 p.2,
      )
  prepare_outcome-IsPrepared run backend chosen so_far (fault code) r v h p = (
    p.0,
    p.1,
    append_events-IsSound run contract now r t backend chosen "prepare" (failure_status contract)
        (safe_code code "prepare-failed") so_far.work.receipt (chosen_bound backend chosen v)
        prepare-literals.0 (failure_status-status_valid contract)
        (safe_code-code_valid code "prepare-failed" prepare-literals.2) p.2,
  )

  pub prepare_each-IsPrepared :
      (run : RunRecord) (more : Map (List String)) (so_far : Prepared)
      → IsBroker broker
      → run_bindings run ≡ ok contract
      → all_entries (chosen_valid contract) more ≡ true
      → IsPrepared run so_far
      → (after : Prepared) × (prepare_each now broker run contract more so_far ≡ ok after)
        × IsPrepared run after
  unfolding prepare_each all_entries
  prepare_each-IsPrepared run [] so_far laws r v p = (so_far, refl, p)
  prepare_each-IsPrepared run ((backend, chosen) ∷ more) so_far laws r v p =
      let k : chosen_valid contract backend chosen ≡ true = ground (arith, v) in
      let called : (result : Outcome Value) × (dispatch broker backend run chosen
              (λ b request. b.prepare request)
            ≡ ok result)
          × Handles result =
        dispatch-ok broker backend run contract chosen (λ b request. b.prepare request) Handles r
          (chosen_ascending backend chosen k) (chosen_bound backend chosen k) tt
          (λ b request here bound. (laws b here).handles request) in
      rw called.1 (
        prepare_each-IsPrepared run more
          (prepare_outcome now contract backend chosen so_far called.0) laws r (ground (arith, v))
          (prepare_outcome-IsPrepared run backend chosen so_far called.0 r k called.2 p))
