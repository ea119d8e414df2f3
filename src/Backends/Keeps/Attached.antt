-- ===== src/Backends/Keeps/Attached.antt =====
-- broker.rs `attach_resources` on a coherent row.
use agcoord.Base.{
  ℕ, String, ◌≡◌, ◌⊎◌, filter, inl, inr, refl, Bool, true, false, not, List, [], ◌∷◌, Map, lookup,
  all, arith, Bool-cases,
}
use agcoord.Run.{RunRecord, Binding, BackendState, Receipt, ok}
use agcoord.Text.{empty_text}
use agcoord.Resources.{code_valid}
use agcoord.Rows.{columns_valid, run_from_row}
use agcoord.Rows.Coherent.{IsCoherent, IsCoherent-run_from_row, run_from_row-IsCoherent}
use agcoord.Backends.{Outcome, done, fault, Backends, run_bindings, bound_to, dispatch}
use agcoord.Backends.Events.{stage_valid, status_valid}
use agcoord.Backends.Lifecycle.{
  Work, work_of, with_work, safe_code, cleanup_each, cleanup_resource_records, cancel_resources,
}
use agcoord.Backends.Requests.{dispatch-ok}
use agcoord.Backends.Sound.{IsSound}
use agcoord.Backends.Recorded.{append_events-IsSound}
use agcoord.Backends.Laws.{
  IsBroker, AreOwn, IsSound-save, IsSound-IsCoherent, IsCoherent-IsSound, IsCoherent-AreOwn,
  nil-AreOwn,
}
use agcoord.Backends.Keeps.{head-AreOwn, cleanup_each-ok, safe_code-code_valid}
use agcoord.Resources.{is_required}
use agcoord.Backends.Attach.{
  binding_at, failure_status, applied_at_attach, apply_units, Attached, attach_outcome, attach_each,
  give_up, attach_resources,
}
use agcoord.Backends.Recorded.{apply_units-IsSound}
use agcoord.Backends.Keeps.Cancelled.{cancel_resources-ok}

attach-literals :
    (stage_valid "attach" ≡ true)
    × (code_valid "applied" ≡ true)
    × (code_valid "attach-failed" ≡ true)
    × (status_valid "applied" ≡ true)
unfolding stage_valid code_valid status_valid
attach-literals = (refl, refl, refl, refl)

pub failure_status-status_valid :
    (contract : Map Binding) (name : String) → status_valid (failure_status contract name) ≡ true
unfolding status_valid
failure_status-status_valid contract name =
    elim (Bool-cases (is_required (binding_at contract name))) [
      | inl e ↦ rw e refl
      | inr e ↦ rw e refl
    ]

filter-all {ℓ} :
    {A : Type ℓ} (p q : A → Bool) (xs : List A) → all p xs ≡ true → all p (filter q xs) ≡ true
filter-all p q [] h = refl
filter-all p q (x ∷ xs) h = ground (arith, filter-all p q xs (ground arith))

-- A required binding fails only with its backend.
abbrev Noted : Attached → Type 0
Noted attached = attached.required_failure ≡ true → attached.any_failed ≡ true

module _ (broker : Backends) (now : String) (t : empty_text now ≡ false)
    (contract : Map Binding) where
  attach_outcome-IsSound :
      (run : RunRecord) (backend : String) (chosen : List String) (so_far : Attached)
      (result : Outcome (Unit {0}))
      → columns_valid run ≡ true
      → run_bindings run ≡ ok contract
      → all (λ name. bound_to backend (lookup name contract)) chosen ≡ true
      → IsSound run.resources contract so_far.receipt
      → Noted so_far
      → IsSound run.resources contract
          (attach_outcome now run contract backend chosen so_far result).receipt
        × Noted (attach_outcome now run contract backend chosen so_far result)
  unfolding attach_outcome applied_at_attach
  attach_outcome-IsSound run backend chosen so_far (done entered) c r b s n =
      let applied : List String = applied_at_attach backend contract chosen in
      let own : all (λ name. bound_to backend (lookup name contract)) applied ≡ true =
        filter-all (λ name. bound_to backend (lookup name contract)) _ chosen b in
      (
        append_events-IsSound run contract now r t backend applied "attach" (λ name. "applied")
            "applied"
            (record so_far.receipt {
              applied = apply_units run.resources applied so_far.receipt.applied;
            })
            own attach-literals.0 (λ name. attach-literals.3) attach-literals.1
            (apply_units-IsSound run contract now r t so_far.receipt backend applied c own s),
        n,
      )
  attach_outcome-IsSound run backend chosen so_far (fault code) c r b s n = (
    append_events-IsSound run contract now r t backend chosen "attach" (failure_status contract)
        (safe_code code "attach-failed") so_far.receipt b attach-literals.0
        (failure_status-status_valid contract)
        (safe_code-code_valid code "attach-failed" attach-literals.2) s,
    λ h. refl,
  )

  attach_each-ok :
      (pid : ℕ) (run : RunRecord) (more : Map BackendState) (so_far : Attached)
      → columns_valid run ≡ true
      → run_bindings run ≡ ok contract
      → AreOwn contract more
      → IsSound run.resources contract so_far.receipt
      → Noted so_far
      → (after : Attached) × (attach_each now broker pid run contract more so_far ≡ ok after)
        × IsSound run.resources contract after.receipt
        × Noted after
  unfolding attach_each
  attach_each-ok pid run [] so_far c r o s n = (so_far, refl, s, n)
  attach_each-ok pid run ((backend, own) ∷ more) so_far c r o s n =
      let h : _ × _ × _ × AreOwn contract more = head-AreOwn contract backend own more o in
      let called : (result : Outcome (Unit {0})) × (dispatch broker backend run own.resources
              (λ b request. b.attach pid request own.handle)
            ≡ ok result)
          × Unit =
        dispatch-ok broker backend run contract own.resources
          (λ b request. b.attach pid request own.handle) (λ result. Unit) r h.0 h.1 tt
          (λ b request k bound. tt) in
      let step : IsSound run.resources contract
            (attach_outcome now run contract backend own.resources so_far called.0).receipt
          × Noted (attach_outcome now run contract backend own.resources so_far called.0) =
        attach_outcome-IsSound run backend own.resources so_far called.0 c r h.1 s n in
      rw called.1 (
        attach_each-ok pid run more
          (attach_outcome now run contract backend own.resources so_far called.0) c r h.3 step.0
          step.1)

  give_up-ok :
      (run : RunRecord) (receipt : Receipt)
      → IsBroker broker
      → IsCoherent run contract
      → IsSound run.resources contract receipt
      → (after : Receipt) × (give_up now broker run receipt
          ≡ ok (record { receipt = after; state = [] }))
        × IsSound run.resources contract after
  unfolding give_up cleanup_resource_records columns_valid run_bindings
  give_up-ok run receipt laws c s =
      let own : AreOwn contract run.resource_state = IsCoherent-AreOwn run contract c in
      let tried : Work = record { receipt = receipt; state = run.resource_state } in
      let cancelled : (work : Work) × (live : Bool) × (cancel_resources now broker
              (with_work run tried) run
            ≡ ok (with_work run work, live))
          × AreOwn contract work.state
          × IsSound run.resources contract work.receipt =
        cancel_resources-ok broker laws now t contract (with_work run tried) run.resource_receipt
          (IsSound-IsCoherent run contract tried c.columns c.bound s own)
          (IsCoherent-IsSound run contract c) in
      let saved : RunRecord = with_work run cancelled.0 in
      let k : IsCoherent saved contract =
        IsSound-IsCoherent run contract cancelled.0 c.columns c.bound cancelled.4 cancelled.3 in
      let cleaned : (after : Receipt) × (cleanup_each now broker run cancelled.0.state
              (work_of saved)
            ≡ ok (record { receipt = after; state = [] }))
          × IsSound run.resources contract after =
        cleanup_each-ok broker laws now t contract run cancelled.0.state cancelled.0.receipt c.bound
          cancelled.3 cancelled.4 in
      (cleaned.0, rw (cancelled.2, IsCoherent-run_from_row saved contract k) (cleaned.1), cleaned.2)

-- If its backends keep their laws, `attach_resources` succeeds on every row that can be loaded, and
-- leaves one that can be loaded. Either the run keeps its state and may start, or no backend's state
-- is left; a run that may not start has none.
pub attach_resources-loads :
    (broker : Backends) (now : String) (pid : ℕ) (row : RunRecord) {run : RunRecord}
    → IsBroker broker
    → empty_text now ≡ false
    → run_from_row row ≡ ok run
    → (after : RunRecord) × (starts : Bool) × (attach_resources now broker pid run
        ≡ ok (after, starts))
      × (run_from_row after ≡ ok after)
      × (((after.resource_state ≡ run.resource_state) × (starts ≡ true))
          ⊎ (after.resource_state ≡ []))
unfolding attach_resources
attach_resources-loads broker now pid row {run} laws t h =
    let c : (contract : Map Binding) × IsCoherent run contract = run_from_row-IsCoherent row h in
    let own : AreOwn c.0 run.resource_state = IsCoherent-AreOwn run c.0 c.1 in
    let made : (after : Attached) × (attach_each now broker pid run c.0 run.resource_state (record {
      receipt = run.resource_receipt;
      required_failure = false;
      any_failed = false;
    })
          ≡ ok after)
        × IsSound run.resources c.0 after.receipt
        × Noted after =
      attach_each-ok broker now t c.0 pid run run.resource_state
        (record { receipt = run.resource_receipt; required_failure = false; any_failed = false })
        c.1.columns c.1.bound own (IsCoherent-IsSound run c.0 c.1) (λ f. f) in
    elim (Bool-cases made.0.any_failed) [
      | inr k ↦
          let work : Work = record { receipt = made.0.receipt; state = run.resource_state } in
          (
            with_work run work,
            not made.0.required_failure,
            rw (c.1.bound, made.1, k, IsSound-save run c.0 work c.1.columns made.2) refl,
            IsCoherent-run_from_row (with_work run work) c.0
                (IsSound-IsCoherent run c.0 work c.1.columns c.1.bound made.2 own),
            inl (refl, ground (arith, made.3, k)),
          )
      | inl k ↦
          let gone : (after : Receipt) × (give_up now broker run made.0.receipt
                ≡ ok (record { receipt = after; state = [] }))
              × IsSound run.resources c.0 after =
            give_up-ok broker now t c.0 run made.0.receipt laws c.1 made.2 in
          let work : Work = record { receipt = gone.0; state = [] } in
          (
            with_work run work,
            not made.0.required_failure,
            rw (c.1.bound, made.1, k, gone.1, IsSound-save run c.0 work c.1.columns gone.2) refl,
            IsCoherent-run_from_row (with_work run work) c.0
                (IsSound-IsCoherent run c.0 work c.1.columns c.1.bound gone.2 (nil-AreOwn c.0)),
            inr refl,
          )
    ]
