-- ===== src/Backends/Keeps/Finished.antt =====
-- broker.rs `finish_and_cleanup_resources` on a coherent row.
use agcoord.Base.{String, ◌≡◌, inl, inr, refl, Bool, true, false, [], ◌∷◌, Map, insert, Bool-cases}
use agcoord.Run.{RunRecord, Binding, BackendState, Receipt, ok}
use agcoord.Text.{empty_text}
use agcoord.Resources.{code_valid}
use agcoord.Rows.{columns_valid, run_from_row}
use agcoord.Rows.Coherent.{IsCoherent, IsCoherent-run_from_row, run_from_row-IsCoherent}
use agcoord.Backends.{Measurement, Outcome, done, fault, Backends, run_bindings, dispatch}
use agcoord.Backends.Events.{append_events, merge_measurement}
use agcoord.Backends.Lifecycle.{
  Work, work_of, with_work, status_of, code_of, cleanup_each, cleanup_resource_records,
  merge_finish, finish_each, finish_and_cleanup_resources,
}
use agcoord.Backends.Requests.{dispatch-ok}
use agcoord.Backends.Sound.{IsSound}
use agcoord.Backends.Recorded.{append_events-IsSound}
use agcoord.Backends.Measured.{merge_measurement-IsSound}
use agcoord.Backends.Laws.{
  Merged, IsBroker, backend_unavailable-code_valid, Measures-Merged, AreOwn, IsSound-save,
  IsSound-IsCoherent, IsCoherent-IsSound, IsCoherent-AreOwn, nil-AreOwn,
}
use agcoord.Backends.Keeps.{
  status_of-status_valid, literal-code_valid, head-AreOwn, cleanup_each-ok, literal-stage_valid,
  flags-state_valid,
}
use agcoord.Backends.Keeps.Cancelled.{insert-AreOwn}

module _ (broker : Backends) (laws : IsBroker broker) (now : String) (t : empty_text now ≡ false)
    (contract : Map Binding) where
  merge_finish-ok :
      (run : RunRecord) (backend : String) (receipt : Receipt) (result : Outcome Measurement)
      → run_bindings run ≡ ok contract
      → Merged contract backend result
      → IsSound run.resources contract receipt
      → (after : Receipt) × (merge_finish now run backend receipt result ≡ ok after)
        × IsSound run.resources contract after
        × (code_valid (code_of "finished" result) ≡ true)
  unfolding merge_finish
  merge_finish-ok run backend receipt (fault code) r m s = (receipt, refl, s, m)
  merge_finish-ok run backend receipt (done measured) r m s =
      let merged : (after : Receipt) × (change : Bool) × (merge_measurement now run receipt backend
              "finish" measured
            ≡ ok (after, change))
          × IsSound run.resources contract after =
        merge_measurement-IsSound run contract now r t backend "finish" receipt measured
          literal-stage_valid.2 m s in
      (merged.0, rw (merged.2) refl, merged.3, literal-code_valid.2)

  finish_each-ok :
      (run : RunRecord) (more : Map BackendState) (work : Work)
      → run_bindings run ≡ ok contract
      → AreOwn contract more
      → AreOwn contract work.state
      → IsSound run.resources contract work.receipt
      → (after : Work) × (finish_each now broker run more work ≡ ok after)
        × AreOwn contract after.state
        × IsSound run.resources contract after.receipt
  unfolding finish_each
  finish_each-ok run [] work r o w s = (work, refl, w, s)
  finish_each-ok run ((backend, own) ∷ more) work r o w s =
      let h : _ × _ × _ × AreOwn contract more = head-AreOwn contract backend own more o in
      elim (Bool-cases own.finished) [
        | inl c ↦ rw c (finish_each-ok run more work r h.3 w s)
        | inr c ↦
            let called : (result : Outcome Measurement) × (dispatch broker backend run own.resources
                    (λ b request. b.finish request own.handle)
                  ≡ ok result)
                × Merged contract backend result =
              dispatch-ok broker backend run contract own.resources
                (λ b request. b.finish request own.handle) (Merged contract backend) r h.0 h.1
                backend_unavailable-code_valid
                (λ b request k bound.
                  Measures-Merged contract backend request _ bound
                    ((laws b k).finished request own.handle)) in
            let merged : (after : Receipt) × (merge_finish now run backend work.receipt called.0
                  ≡ ok after)
                × IsSound run.resources contract after
                × (code_valid (code_of "finished" called.0) ≡ true) =
              merge_finish-ok run backend work.receipt called.0 r called.2 s in
            rw (c, called.1, merged.1)
              (finish_each-ok run more
                (record {
                  receipt =
                      append_events now merged.0 backend own.resources "finish"
                        (λ name. status_of called.0) (code_of "finished" called.0);
                  state = insert backend (record own { finished = true }) work.state;
                })
                r h.3
                (insert-AreOwn contract backend (record own { finished = true }) work.state
                  (flags-state_valid backend own true own.cancelled h.2) h.1 w)
                (append_events-IsSound run contract now r t backend own.resources "finish"
                  (λ name. status_of called.0) (code_of "finished" called.0) merged.0 h.1
                  literal-stage_valid.2 (λ name. status_of-status_valid called.0) merged.3
                  merged.2))
      ]

-- If its backends keep their laws, `finish_and_cleanup_resources` succeeds on every row that can be
-- loaded, and leaves one that can be loaded and holds no backend's state.
pub finish_and_cleanup_resources-loads :
    (broker : Backends) (now : String) (row : RunRecord) {run : RunRecord}
    → IsBroker broker
    → empty_text now ≡ false
    → run_from_row row ≡ ok run
    → (after : RunRecord) × (finish_and_cleanup_resources now broker run ≡ ok after)
      × (run_from_row after ≡ ok after)
      × (after.resource_state ≡ [])
unfolding finish_and_cleanup_resources cleanup_resource_records columns_valid run_bindings
finish_and_cleanup_resources-loads broker now row {run} laws t h =
    let c : (contract : Map Binding) × IsCoherent run contract = run_from_row-IsCoherent row h in
    let own : AreOwn c.0 run.resource_state = IsCoherent-AreOwn run c.0 c.1 in
    let made : (after : Work) × (finish_each now broker run run.resource_state (work_of run)
          ≡ ok after)
        × AreOwn c.0 after.state
        × IsSound run.resources c.0 after.receipt =
      finish_each-ok broker laws now t c.0 run run.resource_state (work_of run) c.1.bound own own
        (IsCoherent-IsSound run c.0 c.1) in
    let saved : RunRecord = with_work run made.0 in
    let k : IsCoherent saved c.0 =
      IsSound-IsCoherent run c.0 made.0 c.1.columns c.1.bound made.3 made.2 in
    let cleaned : (receipt : Receipt) × (cleanup_each now broker saved made.0.state (work_of saved)
          ≡ ok (record { receipt = receipt; state = [] }))
        × IsSound run.resources c.0 receipt =
      cleanup_each-ok broker laws now t c.0 saved made.0.state made.0.receipt k.bound made.2
        made.3 in
    let work : Work = record { receipt = cleaned.0; state = [] } in
    (
      with_work run work,
      rw
          (
            made.1,
            IsSound-save run c.0 made.0 c.1.columns made.3,
            IsCoherent-run_from_row saved c.0 k,
            cleaned.1,
            IsSound-save saved c.0 work k.columns cleaned.2,
          )
          refl,
      IsCoherent-run_from_row (with_work run work) c.0
          (IsSound-IsCoherent run c.0 work c.1.columns c.1.bound cleaned.2 (nil-AreOwn c.0)),
      refl,
    )
