-- ===== src/Backends/Keeps.antt =====
-- `cleanup_resource_records` on the entries of a coherent row.
pub mod Cancelled
pub mod Used
pub mod Finished
pub mod Attached
pub mod Prepared
pub mod Probed
pub mod Required
pub mod Started
pub mod Held
pub mod Scratched
pub mod Readied
use agcoord.Base.{
  ℕ, String, ◌≡◌, inl, inr, refl, Bool, true, false, not, ◌&&◌, ◌||◌, Option, none, some, List, [],
  ◌∷◌, Map, lookup, insert, remove_key, all, str_eq, eq_iff, all_entries, Distinct, insert-Distinct,
  all_entries-insert, if◌then◌else◌, arith, Bool-cases, ap, ◌∙◌,
}
use agcoord.Run.{RunRecord, Binding, BackendState, Receipt, Result, ok, err, ◌>>=◌}
use agcoord.Text.{empty_text}
use agcoord.Resources.{code_valid}
use agcoord.Resources.States.Sorted.{ascending}
use agcoord.Resources.States.Stored.{state_valid}
use agcoord.Rows.{columns_valid, states_match, run_from_row}
use agcoord.Rows.Coherent.{IsCoherent, IsCoherent-run_from_row}
use agcoord.Backends.{
  Request, Measurement, Outcome, done, fault, Backend, Backends, run_bindings, bound_to, dispatch,
}
use agcoord.Backends.Events.{
  append_events, merge_measurement, stage_valid, status_valid, resource_event_exists,
}
use agcoord.Backends.Lifecycle.{
  Work, work_of, with_work, is_nonempty, status_of, code_of, safe_code, save_resource_records,
  cleanup_each, cleanup_resource_records, cancel_each, cancel_resources, use_outcome, usage_each,
  capture_resource_usage, merge_finish, finish_each, finish_and_cleanup_resources,
}
use agcoord.Backends.Requests.{IsBound, dispatch-ok}
use agcoord.Backends.Sound.{IsSound}
use agcoord.Backends.Recorded.{append_events-IsSound}
use agcoord.Backends.Measured.{IsOwn, merge_measurement-IsSound}
use agcoord.Backends.Laws.{
  Coded, Measures, Merged, IsBackend, IsBroker, Coded-code_of, backend_unavailable-code_valid,
  Measures-Merged, AreOwn, IsSound-save, IsSound-IsCoherent, IsCoherent-IsSound, IsCoherent-AreOwn,
}

remove_key-fresh :
    (key : String) (m : Map BackendState) → lookup key m ≡ none → remove_key key m ≡ m
unfolding remove_key lookup
remove_key-fresh key [] h = refl
remove_key-fresh key ((name, own) ∷ m) h = ground (arith, remove_key-fresh key m)

remove_key-head :
    (key : String) (own : BackendState) (m : Map BackendState)
    → lookup key m ≡ none
    → remove_key key ((key, own) ∷ m) ≡ m
unfolding remove_key
remove_key-head key own m h = ground (arith, (eq_iff key key).1 refl, remove_key-fresh key m h)

pub status_of-status_valid {ℓ} :
    {A : Type ℓ} (result : Outcome A) → status_valid (status_of result) ≡ true
unfolding status_valid
status_of-status_valid (done a) = refl
status_of-status_valid (fault code) = refl

pub literal-code_valid :
    (code_valid "cleaned" ≡ true)
    × (code_valid "cancelled" ≡ true)
    × (code_valid "finished" ≡ true)
    × (code_valid "usage-failed" ≡ true)
unfolding code_valid
literal-code_valid = (refl, refl, refl, refl)

pub literal-stage_valid :
    (stage_valid "cancel" ≡ true) × (stage_valid "usage" ≡ true) × (stage_valid "finish" ≡ true)
unfolding stage_valid
literal-stage_valid = (refl, refl, refl)

-- The flags of a state are free.
pub flags-state_valid :
    (backend : String) (own : BackendState) (finished cancelled : Bool)
    → state_valid backend own ≡ true
    → state_valid backend (record own { finished = finished; cancelled = cancelled }) ≡ true
unfolding state_valid
flags-state_valid backend own finished cancelled v = v

pub safe_code-code_valid :
    (code fallback : String)
    → code_valid fallback ≡ true
    → code_valid (safe_code code fallback) ≡ true
safe_code-code_valid code fallback f = ground arith

-- The first entry of a state, and the others.
pub head-AreOwn :
    (contract : Map Binding) (backend : String) (own : BackendState) (more : Map BackendState)
    → AreOwn contract ((backend, own) ∷ more)
    → (ascending own.resources ≡ true)
      × (all (λ name. bound_to backend (lookup name contract)) own.resources ≡ true)
      × (state_valid backend own ≡ true)
      × AreOwn contract more
unfolding all_entries states_match state_valid
head-AreOwn contract backend own more a =
    let s : all_entries state_valid ((backend, own) ∷ more) ≡ true = a.states in
    let m : states_match contract ((backend, own) ∷ more) ≡ true = a.matched in
    (
      ground (arith, s),
      ground (arith, m),
      ground (arith, s),
      record { distinct = a.distinct.1; states = ground (arith, s); matched = ground (arith, m) },
    )

module _ (broker : Backends) (laws : IsBroker broker) (now : String) (t : empty_text now ≡ false)
    (contract : Map Binding) where
  cleanup_each-cons :
      (run : RunRecord) (backend : String) (own : BackendState) (more : Map BackendState)
      (result : Outcome (Unit {0})) (work : Work)
      → dispatch broker backend run own.resources (λ b request. b.cleanup request own.handle)
        ≡ ok result
      → cleanup_each now broker run ((backend, own) ∷ more) work
        ≡ cleanup_each now broker run more (record {
          receipt =
              append_events now work.receipt backend own.resources "cleanup"
                (λ name. status_of result)
                (code_of "cleaned" result);
          state = remove_key backend work.state;
        })
  unfolding cleanup_each
  cleanup_each-cons run backend own more result work h = rw h refl

  pub cleanup_each-ok :
      (run : RunRecord) (more : Map BackendState) (receipt : Receipt)
      → run_bindings run ≡ ok contract
      → AreOwn contract more
      → IsSound run.resources contract receipt
      → (after : Receipt) × (cleanup_each now broker run more
            (record { receipt = receipt; state = more })
          ≡ ok (record { receipt = after; state = [] }))
        × IsSound run.resources contract after
  unfolding cleanup_each stage_valid
  cleanup_each-ok run [] receipt r o s = (receipt, refl, s)
  cleanup_each-ok run ((backend, own) ∷ more) receipt r o s =
      let h : _ × _ × _ × AreOwn contract more = head-AreOwn contract backend own more o in
      let called : (result : Outcome (Unit {0})) × (dispatch broker backend run own.resources
              (λ b request. b.cleanup request own.handle)
            ≡ ok result)
          × Coded result =
        dispatch-ok broker backend run contract own.resources
          (λ b request. b.cleanup request own.handle) Coded r h.0 h.1 backend_unavailable-code_valid
          (λ b request k bound. (laws b k).cleaned request own.handle) in
      let receipt' : Receipt =
        append_events now receipt backend own.resources "cleanup" (λ name. status_of called.0)
          (code_of "cleaned" called.0) in
      let rest : (after : Receipt) × (cleanup_each now broker run more
              (record { receipt = receipt'; state = more })
            ≡ ok (record { receipt = after; state = [] }))
          × IsSound run.resources contract after =
        cleanup_each-ok run more receipt' r h.3 (
          append_events-IsSound run contract now r t backend own.resources "cleanup"
            (λ name. status_of called.0) (code_of "cleaned" called.0) receipt h.1 refl
            (λ name. status_of-status_valid called.0)
            (Coded-code_of "cleaned" called.0 literal-code_valid.0 called.2) s) in
      (
        rest.0,
        cleanup_each-cons run backend own more called.0
              (record { receipt = receipt; state = (backend, own) ∷ more }) called.1
            ∙ ap
                (λ state.
                  cleanup_each now broker run more (record { receipt = receipt'; state = state }))
                (remove_key-head backend own more o.distinct.0)
            ∙ rest.1,
        rest.2,
      )
