-- ===== src/Backends/Keeps/Used.antt =====
-- broker.rs `capture_resource_usage` on a coherent row.
use agcoord.Base.{
  String, ◌≡◌, inl, inr, refl, Bool, true, false, ◌||◌, none, some, List, [], ◌∷◌, Map, lookup, all,
  Bool-cases,
}
use agcoord.Run.{RunRecord, Binding, BackendState, Receipt, ok}
use agcoord.Text.{empty_text}
use agcoord.Rows.{run_from_row}
use agcoord.Rows.Coherent.{IsCoherent, IsCoherent-run_from_row, run_from_row-IsCoherent}
use agcoord.Backends.{Measurement, Outcome, done, fault, Backends, run_bindings, bound_to, dispatch}
use agcoord.Backends.Events.{append_events, resource_event_exists}
use agcoord.Backends.Lifecycle.{
  Work, with_work, safe_code, use_outcome, usage_each, capture_resource_usage,
}
use agcoord.Backends.Requests.{dispatch-ok}
use agcoord.Backends.Sound.{IsSound}
use agcoord.Backends.Recorded.{append_events-IsSound}
use agcoord.Backends.Measured.{merge_measurement-IsSound}
use agcoord.Backends.Laws.{
  Merged, IsBroker, backend_unavailable-code_valid, Measures-Merged, AreOwn, IsSound-save,
  IsSound-IsCoherent, IsCoherent-IsSound, IsCoherent-AreOwn,
}
use agcoord.Backends.Keeps.{
  status_of-status_valid, literal-code_valid, head-AreOwn, safe_code-code_valid,
  literal-stage_valid,
}

module _ (broker : Backends) (laws : IsBroker broker) (now : String) (t : empty_text now ≡ false)
    (contract : Map Binding) where
  use_outcome-ok :
      (run : RunRecord) (backend : String) (chosen : List String) (receipt : Receipt)
      (result : Outcome Measurement)
      → run_bindings run ≡ ok contract
      → all (λ name. bound_to backend (lookup name contract)) chosen ≡ true
      → Merged contract backend result
      → IsSound run.resources contract receipt
      → (after : Receipt) × (changed : Bool) × (use_outcome now run backend chosen receipt result
          ≡ ok (after, changed))
        × IsSound run.resources contract after
  unfolding use_outcome
  use_outcome-ok run backend chosen receipt (done measured) r b m s =
      merge_measurement-IsSound run contract now r t backend "usage" receipt measured
        literal-stage_valid.1 m s
  use_outcome-ok run backend chosen receipt (fault code) r b m s =
      let safe : String = safe_code code "usage-failed" in
      elim (Bool-cases (resource_event_exists receipt backend none (some "usage") safe)) [
        | inl e ↦ (receipt, false, rw e refl, s)
        | inr e ↦ (
          append_events now receipt backend chosen "usage" (λ name. "failed") safe,
          true,
          rw e refl,
          append_events-IsSound run contract now r t backend chosen "usage" (λ name. "failed") safe
              receipt b literal-stage_valid.1
              (λ name. status_of-status_valid {A = Measurement} (fault code))
              (safe_code-code_valid code "usage-failed" literal-code_valid.3) s,
        )
      ]

  usage_each-ok :
      (run : RunRecord) (more : Map BackendState) (receipt : Receipt) (changed : Bool)
      → run_bindings run ≡ ok contract
      → AreOwn contract more
      → IsSound run.resources contract receipt
      → (after : Receipt) × (change : Bool) × (usage_each now broker run more (receipt, changed)
          ≡ ok (after, change))
        × IsSound run.resources contract after
  unfolding usage_each
  usage_each-ok run [] receipt changed r o s = (receipt, changed, refl, s)
  usage_each-ok run ((backend, own) ∷ more) receipt changed r o s =
      let h : _ × _ × _ × AreOwn contract more = head-AreOwn contract backend own more o in
      elim (Bool-cases own.finished) [
        | inl c ↦ rw c (usage_each-ok run more receipt changed r h.3 s)
        | inr c ↦
            let called : (result : Outcome Measurement) × (dispatch broker backend run own.resources
                    (λ b request. b.usage request own.handle)
                  ≡ ok result)
                × Merged contract backend result =
              dispatch-ok broker backend run contract own.resources
                (λ b request. b.usage request own.handle) (Merged contract backend) r h.0 h.1
                backend_unavailable-code_valid
                (λ b request k bound.
                  Measures-Merged contract backend request _ bound
                    ((laws b k).used request own.handle)) in
            let merged : (after : Receipt) × (change : Bool) × (use_outcome now run backend
                    own.resources receipt called.0
                  ≡ ok (after, change))
                × IsSound run.resources contract after =
              use_outcome-ok run backend own.resources receipt called.0 r h.1 called.2 s in
            rw (c, called.1, merged.2)
              (usage_each-ok run more merged.0 (changed || merged.1) r h.3 merged.3)
      ]

-- If its backends keep their laws, `capture_resource_usage` succeeds on every row that can be
-- loaded, and leaves one that can be loaded.
pub capture_resource_usage-loads :
    (broker : Backends) (now : String) (row : RunRecord) {run : RunRecord}
    → IsBroker broker
    → empty_text now ≡ false
    → run_from_row row ≡ ok run
    → (after : RunRecord) × (capture_resource_usage now broker run ≡ ok after)
      × (run_from_row after ≡ ok after)
unfolding capture_resource_usage
capture_resource_usage-loads broker now row {run} laws t h =
    let c : (contract : Map Binding) × IsCoherent run contract = run_from_row-IsCoherent row h in
    let own : AreOwn c.0 run.resource_state = IsCoherent-AreOwn run c.0 c.1 in
    let made : (after : Receipt) × (change : Bool) × (usage_each now broker run run.resource_state
            (run.resource_receipt, false)
          ≡ ok (after, change))
        × IsSound run.resources c.0 after =
      usage_each-ok broker laws now t c.0 run run.resource_state run.resource_receipt false
        c.1.bound own (IsCoherent-IsSound run c.0 c.1) in
    let work : Work = record { receipt = made.0; state = run.resource_state } in
    elim (Bool-cases made.1) [
      | inl k ↦ (
        with_work run work,
        rw (made.2, k, IsSound-save run c.0 work c.1.columns made.3) refl,
        IsCoherent-run_from_row (with_work run work) c.0
            (IsSound-IsCoherent run c.0 work c.1.columns c.1.bound made.3 own),
      )
      | inr k ↦ (run, rw (made.2, k) refl, IsCoherent-run_from_row run c.0 c.1)
    ]
