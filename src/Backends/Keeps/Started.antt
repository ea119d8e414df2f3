-- ===== src/Backends/Keeps/Started.antt =====
-- broker.rs `prepare_resources`: the row that it leaves can be loaded.
use agcoord.Base.{
  ℕ, String, ◌≡◌, inl, inr, refl, Bool, true, false, not, List, [], ◌∷◌, Map, lookup, all, is_some,
  all_entries, Distinct, subst, if◌then◌else◌, arith, Bool-cases,
}
use agcoord.Run.{RunRecord, Binding, Receipt, ok}
use agcoord.Text.{empty_text}
use agcoord.Resources.States.Sorted.{ascending}
use agcoord.Rows.{run_from_row}
use agcoord.Rows.Coherent.{IsCoherent, IsCoherent-run_from_row, run_from_row-IsCoherent}
use agcoord.Backends.{Backends, run_bindings, names, same_keys}
use agcoord.Backends.Lifecycle.{
  Work, with_work, is_nonempty, cleanup_each, cleanup_resource_records,
}
use agcoord.Backends.Prepare.{Probed, probe_each, Prepared, prepare_each, prepare_resources}
use agcoord.Backends.Requests.{run_bindings-keys}
use agcoord.Backends.Sound.{IsSound}
use agcoord.Backends.Laws.{
  IsBroker, AreOwn, IsSound-save, IsSound-IsCoherent, IsCoherent-IsSound, nil-AreOwn,
}
use agcoord.Backends.Keeps.{cleanup_each-ok}
use agcoord.Backends.Ordered.{ascending-Distinct}
use agcoord.Backends.Probes.{IsEligible}
use agcoord.Backends.Keeps.Prepared.{probe_each-IsEligible, IsPrepared, prepare_each-IsPrepared}

module _ (broker : Backends) (now : String) (t : empty_text now ≡ false)
    (contract : Map Binding) where
  -- The backends are asked unless a probe has failed.
  ask_backends-IsPrepared :
      (run : RunRecord) (eligible : Map (List String)) (receipt : Receipt) (failed : Bool)
      → IsBroker broker
      → run_bindings run ≡ ok contract
      → IsEligible contract [] eligible
      → IsSound run.resources contract receipt
      → (after : Prepared) × ((if failed
            then ok (record {
              work = record { receipt = receipt; state = [] };
              required_failure = failed;
            })
            else prepare_each now broker run contract eligible (record {
              work = record { receipt = receipt; state = [] };
              required_failure = failed;
            }))
          ≡ ok after)
        × IsPrepared broker now t contract run after
  unfolding ascending names
  ask_backends-IsPrepared run eligible receipt true laws r i s =
      (_, refl, (refl, nil-AreOwn contract, s))
  ask_backends-IsPrepared run eligible receipt false laws r i s =
      prepare_each-IsPrepared broker now t contract run eligible
        (record { work = record { receipt = receipt; state = [] }; required_failure = false }) laws
        r i.valid (refl, nil-AreOwn contract, s)

  -- What is prepared is cleaned up if a required binding has failed.
  settle_prepared :
      (run : RunRecord) (prepared : Prepared)
      → IsBroker broker
      → IsCoherent run contract
      → IsPrepared broker now t contract run prepared
      → (work : Work) × ((if prepared.required_failure
            then cleanup_resource_records now broker run prepared.work
            else ok prepared.work)
          ≡ ok work)
        × IsSound run.resources contract work.receipt
        × AreOwn contract work.state
        × ((not prepared.required_failure ≡ false) → (work.state ≡ []))
  unfolding cleanup_resource_records
  settle_prepared run prepared laws c p = elim (Bool-cases prepared.required_failure) [
    | inr k ↦ (prepared.work, rw k refl, p.2, p.1, rw k (λ f. cc))
    | inl k ↦
        let cleaned : (receipt : Receipt) × (cleanup_each now broker run prepared.work.state
                prepared.work
              ≡ ok (record { receipt = receipt; state = [] }))
            × IsSound run.resources contract receipt =
          cleanup_each-ok broker laws now t contract run prepared.work.state prepared.work.receipt
            c.bound p.1 p.2 in
        (
          record { receipt = cleaned.0; state = [] },
          rw k cleaned.1,
          cleaned.2,
          nil-AreOwn contract,
          λ f. refl,
        )
  ]

keys_there :
    (contract : Map Binding) (resources : Map ℕ)
    → same_keys contract resources ≡ true
    → all_entries (λ name _. is_some (lookup name contract)) resources ≡ true
unfolding same_keys
keys_there contract resources k = ground arith

nil-IsEligible : (contract : Map Binding) (rest : List String) → IsEligible contract rest []
unfolding ascending names all_entries
nil-IsEligible contract rest = record { ordered = refl; valid = refl; before = free rest }
  where
    free : (rest : List String) → all (λ name. true) rest ≡ true
    free [] = refl
    free (name ∷ rest) = free rest

-- Each backend is asked once.
pub eligible_Distinct :
    (broker : Backends) (now : String) (t : empty_text now ≡ false) (contract : Map Binding)
    (row : RunRecord) {run : RunRecord}
    → run_from_row row ≡ ok run
    → run_bindings run ≡ ok contract
    → ascending (names run.resources) ≡ true
    → Distinct
        (probe_each now broker.resource_capabilities contract run.resources (record {
          receipt = run.resource_receipt;
          eligible = [];
          required_failure = false;
        })).eligible
eligible_Distinct broker now t contract row {run} h r o =
    let c : (found : Map Binding) × IsCoherent run found = run_from_row-IsCoherent row h in
    let e : c.0 ≡ contract = ground (arith, c.1.bound, r) in
    let first : Probed = record {
      receipt = run.resource_receipt;
      eligible = [];
      required_failure = false;
    } in
    let p : IsEligible contract [] _ × _ =
      probe_each-IsEligible broker now t contract run broker.resource_capabilities run.resources
        first r o (keys_there contract run.resources (run_bindings-keys run r).1)
        (nil-IsEligible contract (names run.resources))
        (IsCoherent-IsSound run contract (subst (λ found. IsCoherent run found) e c.1)) in
    ascending-Distinct _ p.0.ordered

-- A run whose resources are in order and that has no state yet can be prepared, if the backends keep
-- their laws. The row that is left can be loaded, and a run that may not start holds no backend's
-- state.
pub prepare_resources-loads :
    (broker : Backends) (now : String) (row : RunRecord) {run : RunRecord}
    → IsBroker broker
    → empty_text now ≡ false
    → run_from_row row ≡ ok run
    → ascending (names run.resources) ≡ true
    → run.resource_state ≡ []
    → (after : RunRecord) × (starts : Bool) × (prepare_resources now broker run
        ≡ ok (after, starts))
      × (run_from_row after ≡ ok after)
      × ((starts ≡ false) → (after.resource_state ≡ []))
unfolding prepare_resources cleanup_resource_records
prepare_resources-loads broker now row {run} laws t h o n =
    let c : (contract : Map Binding) × IsCoherent run contract = run_from_row-IsCoherent row h in
    let keys : _ × (same_keys c.0 run.resources ≡ true) = run_bindings-keys run c.1.bound in
    let first : Probed = record {
      receipt = run.resource_receipt;
      eligible = [];
      required_failure = false;
    } in
    let probed : Probed = probe_each now broker.resource_capabilities c.0 run.resources first in
    let p : IsEligible c.0 [] probed.eligible × IsSound run.resources c.0 probed.receipt =
      probe_each-IsEligible broker now t c.0 run broker.resource_capabilities run.resources first
        c.1.bound o (keys_there c.0 run.resources keys.1) (nil-IsEligible c.0 (names run.resources))
        (IsCoherent-IsSound run c.0 c.1) in
    let fresh : is_nonempty run.resource_state ≡ false = ground (arith, n) in
    let made : (after : Prepared) × _ × IsPrepared broker now t c.0 run after =
      ask_backends-IsPrepared broker now t c.0 run probed.eligible probed.receipt
        probed.required_failure laws c.1.bound p.0 p.1 in
    let settled : (work : Work) × _
        × IsSound run.resources c.0 work.receipt
        × AreOwn c.0 work.state
        × _ =
      settle_prepared broker now t c.0 run made.0 laws c.1 made.2 in
    (
      with_work run settled.0,
      not made.0.required_failure,
      rw (fresh, c.1.bound, made.1, settled.1, IsSound-save run c.0 settled.0 c.1.columns settled.2)
          refl,
      IsCoherent-run_from_row (with_work run settled.0) c.0
          (IsSound-IsCoherent run c.0 settled.0 c.1.columns c.1.bound settled.2 settled.3),
      settled.4,
    )
