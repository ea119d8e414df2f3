-- ===== src/Backends/Keeps/Cancelled.antt =====
-- broker.rs `cancel_resources` on a coherent row.
use agcoord.Base.{
  String, ◌≡◌, inl, inr, refl, Bool, true, false, [], ◌∷◌, Map, lookup, insert, all, all_entries,
  insert-Distinct, all_entries-insert, Bool-cases,
}
use agcoord.Run.{RunRecord, Binding, BackendState, Receipt, ok}
use agcoord.Text.{empty_text}
use agcoord.Resources.States.Stored.{state_valid}
use agcoord.Rows.{columns_valid, states_match, run_from_row}
use agcoord.Rows.Coherent.{IsCoherent, IsCoherent-run_from_row, run_from_row-IsCoherent}
use agcoord.Backends.{Outcome, Backends, run_bindings, bound_to, dispatch}
use agcoord.Backends.Events.{append_events}
use agcoord.Backends.Lifecycle.{
  Work, work_of, with_work, is_nonempty, status_of, code_of, cancel_each, cancel_resources,
}
use agcoord.Backends.Requests.{dispatch-ok}
use agcoord.Backends.Sound.{IsSound}
use agcoord.Backends.Recorded.{append_events-IsSound}
use agcoord.Backends.Laws.{
  Coded, IsBroker, Coded-code_of, backend_unavailable-code_valid, AreOwn, IsSound-save,
  IsSound-IsCoherent, IsCoherent-IsSound, IsCoherent-AreOwn,
}
use agcoord.Backends.Keeps.{
  status_of-status_valid, literal-code_valid, head-AreOwn, literal-stage_valid, flags-state_valid,
}

-- A flag of one entry changes.
pub insert-AreOwn :
    (contract : Map Binding) (backend : String) (own : BackendState) (state : Map BackendState)
    → state_valid backend own ≡ true
    → all (λ name. bound_to backend (lookup name contract)) own.resources ≡ true
    → AreOwn contract state
    → AreOwn contract (insert backend own state)
unfolding states_match
insert-AreOwn contract backend own state v b a = record {
  distinct = insert-Distinct backend own state a.distinct;
  states = all_entries-insert state_valid backend own state v a.states;
  matched =
      all_entries-insert
        (λ name other. all (λ n. bound_to name (lookup n contract)) other.resources) backend own
        state b a.matched;
}

module _ (broker : Backends) (laws : IsBroker broker) (now : String) (t : empty_text now ≡ false)
    (contract : Map Binding) where
  cancel_each-ok :
      (run : RunRecord) (more : Map BackendState) (work : Work)
      → run_bindings run ≡ ok contract
      → AreOwn contract more
      → AreOwn contract work.state
      → IsSound run.resources contract work.receipt
      → (after : Work) × (cancel_each now broker run more work ≡ ok after)
        × AreOwn contract after.state
        × IsSound run.resources contract after.receipt
  unfolding cancel_each
  cancel_each-ok run [] work r o w s = (work, refl, w, s)
  cancel_each-ok run ((backend, own) ∷ more) work r o w s =
      let h : _ × _ × _ × AreOwn contract more = head-AreOwn contract backend own more o in
      elim (Bool-cases own.cancelled) [
        | inl c ↦ rw c (cancel_each-ok run more work r h.3 w s)
        | inr c ↦
            let called : (result : Outcome (Unit {0})) × (dispatch broker backend run own.resources
                    (λ b request. b.cancel request own.handle)
                  ≡ ok result)
                × Coded result =
              dispatch-ok broker backend run contract own.resources
                (λ b request. b.cancel request own.handle) Coded r h.0 h.1
                backend_unavailable-code_valid
                (λ b request k bound. (laws b k).cancelled request own.handle) in
            rw (c, called.1)
              (cancel_each-ok run more
                (record {
                  receipt =
                      append_events now work.receipt backend own.resources "cancel"
                        (λ name. status_of called.0) (code_of "cancelled" called.0);
                  state = insert backend (record own { cancelled = true }) work.state;
                })
                r h.3
                (insert-AreOwn contract backend (record own { cancelled = true }) work.state
                  (flags-state_valid backend own own.finished true h.2) h.1 w)
                (append_events-IsSound run contract now r t backend own.resources "cancel"
                  (λ name. status_of called.0) (code_of "cancelled" called.0) work.receipt h.1
                  literal-stage_valid.0 (λ name. status_of-status_valid called.0)
                  (Coded-code_of "cancelled" called.0 literal-code_valid.1 called.2) s))
      ]

  -- The row may hold an older receipt than the run, as it does in `attach_resources`.
  pub cancel_resources-ok :
      (run : RunRecord) (receipt : Receipt)
      → IsCoherent run contract
      → IsSound run.resources contract receipt
      → (work : Work) × (live : Bool) × (cancel_resources now broker run
            (record run { resource_receipt = receipt })
          ≡ ok (with_work run work, live))
        × AreOwn contract work.state
        × IsSound run.resources contract work.receipt
  unfolding cancel_resources columns_valid
  cancel_resources-ok run receipt c s =
      let own : AreOwn contract run.resource_state = IsCoherent-AreOwn run contract c in
      let made : (after : Work) × (cancel_each now broker run run.resource_state (work_of run)
            ≡ ok after)
          × AreOwn contract after.state
          × IsSound run.resources contract after.receipt =
        cancel_each-ok run run.resource_state (work_of run) c.bound own own
          (IsCoherent-IsSound run contract c) in
      elim (Bool-cases (all_entries (λ name own. own.cancelled) run.resource_state)) [
        | inl k ↦ (
          record { receipt = receipt; state = run.resource_state },
          is_nonempty made.0.state,
          rw (made.1, k) refl,
          own,
          s,
        )
        | inr k ↦ (
          made.0,
          is_nonempty made.0.state,
          rw
              (
                made.1,
                k,
                IsSound-save (record run { resource_receipt = receipt }) contract made.0 c.columns
                    made.3,
              )
              refl,
          made.2,
          made.3,
        )
      ]

-- If its backends keep their laws, `cancel_resources` succeeds on every row that can be loaded, and
-- leaves one that can be loaded.
pub cancel_resources-loads :
    (broker : Backends) (now : String) (row : RunRecord) {run : RunRecord}
    → IsBroker broker
    → empty_text now ≡ false
    → run_from_row row ≡ ok run
    → (after : RunRecord) × (live : Bool) × (cancel_resources now broker run run ≡ ok (after, live))
      × (run_from_row after ≡ ok after)
cancel_resources-loads broker now row {run} laws t h =
    let c : (contract : Map Binding) × IsCoherent run contract = run_from_row-IsCoherent row h in
    let made : (work : Work) × (live : Bool) × (cancel_resources now broker run run
          ≡ ok (with_work run work, live))
        × AreOwn c.0 work.state
        × IsSound run.resources c.0 work.receipt =
      cancel_resources-ok broker laws now t c.0 run run.resource_receipt c.1
        (IsCoherent-IsSound run c.0 c.1) in
    (
      with_work run made.0,
      made.1,
      made.2,
      IsCoherent-run_from_row (with_work run made.0) c.0
          (IsSound-IsCoherent run c.0 made.0 c.1.columns c.1.bound made.4 made.3),
    )
