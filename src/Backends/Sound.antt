-- ===== src/Backends/Sound.antt =====
-- Receipts that fit a run and its contract, and what the operations do to them.
use agcoord.Base.{
  ℕ, String, ◌≡◌, refl, Bool, true, ◌&&◌, List, [], ◌∷◌, Map, lookup, ltb, eq_iff, all, all_entries,
  arith, ap, ◌∙◌, all-and, all_entries-and, all_entries_imply,
}
use agcoord.Run.{RunRecord, Binding, Event, Receipt}
use agcoord.Rows.{
  columns_valid, units_match, event_matches, enforced_at, receipt_matches_contract, units_valid,
}
use agcoord.Backends.Events.{has_name, event_valid, within, same_units, receipt_valid}

abbrev pub applied_sound : Map ℕ → Map Binding → String → ℕ → Bool
applied_sound resources contract name units =
    ltb 0 units && within (lookup name resources) units && enforced_at (lookup name contract)

abbrev pub peak_sound : Map ℕ → Map Binding → String → ℕ → Bool
peak_sound resources contract name units =
    has_name resources name && enforced_at (lookup name contract)

abbrev pub event_sound : Map ℕ → Map Binding → Event → Bool
event_sound resources contract event = event_valid resources event && event_matches contract event

-- A receipt that `receipt_valid` and `run_from_row` accept for the run.
pub record IsSound (resources : Map ℕ) (contract : Map Binding) (receipt : Receipt) : Type 0 where
  pub requested : receipt.requested ≡ resources
  pub applied : all_entries (applied_sound resources contract) receipt.applied ≡ true
  pub peak : all_entries (peak_sound resources contract) receipt.peak ≡ true
  pub events : all (event_sound resources contract) receipt.events ≡ true

same_units-eq : (a b : Map ℕ) → same_units a b ≡ true → a ≡ b
unfolding same_units
same_units-eq [] [] h = refl
same_units-eq [] ((k, v) ∷ b) h = cc
same_units-eq ((k, v) ∷ a) [] h = cc
same_units-eq ((k, v) ∷ a) ((j, w) ∷ b) h =
    ground (arith, eq_iff k j, same_units-eq a b (ground arith))

same_units_refl : (a : Map ℕ) → same_units a a ≡ true
unfolding same_units
same_units_refl [] = refl
same_units_refl ((k, v) ∷ a) = ground (arith, (eq_iff k k).1 refl, same_units_refl a)

requested_units :
    (run : RunRecord) (receipt : Receipt)
    → receipt_valid receipt run.resources ≡ true
    → receipt.requested ≡ run.resources
unfolding receipt_valid
requested_units run receipt v = same_units-eq receipt.requested run.resources (ground arith)

positive_units :
    (run : RunRecord)
    → columns_valid run ≡ true
    → all_entries (λ name units. ltb 0 units) run.resources ≡ true
unfolding columns_valid
positive_units run c =
    all_entries_imply units_valid (λ name units. ltb 0 units) run.resources
      (λ name units h. ground arith) (ground arith)

module _ (run : RunRecord) (contract : Map Binding) where
  positive : String → ℕ → Bool
  positive name units = ltb 0 units

  in_limit : String → ℕ → Bool
  in_limit name units = within (lookup name run.resources) units

  in_contract : String → ℕ → Bool
  in_contract name units = enforced_at (lookup name contract)

  asked_for : String → ℕ → Bool
  asked_for name units = has_name run.resources name

  applied_parts :
      (m : Map ℕ)
      → all_entries (applied_sound run.resources contract) m
        ≡ all_entries positive m && all_entries in_limit m && all_entries in_contract m
  unfolding positive in_limit in_contract
  applied_parts m =
      all_entries-and (λ name units. ltb 0 units && within (lookup name run.resources) units)
        in_contract m
      ∙ ap (λ b. b && all_entries in_contract m) (all_entries-and positive in_limit m)

  peak_parts :
      (m : Map ℕ)
      → all_entries (peak_sound run.resources contract) m
        ≡ all_entries asked_for m && all_entries in_contract m
  unfolding asked_for in_contract
  peak_parts m = all_entries-and asked_for in_contract m

  event_parts :
      (events : List Event)
      → all (event_sound run.resources contract) events
        ≡ all (event_valid run.resources) events && all (event_matches contract) events
  event_parts events = all-and (event_valid run.resources) (event_matches contract) events

  -- The two tests, once the requested units are those of the run.
  agreed_parts :
      (receipt : Receipt)
      → (receipt.requested ≡ run.resources)
      → (receipt_valid receipt run.resources && receipt_matches_contract contract receipt) ≡ (
          all_entries positive run.resources
          && all_entries positive receipt.applied
          && all_entries in_limit receipt.applied
          && all_entries asked_for receipt.peak
          && all (event_valid run.resources) receipt.events
          && (all_entries in_contract receipt.applied
              && all_entries in_contract receipt.peak
              && all (event_matches contract) receipt.events))
  unfolding receipt_valid receipt_matches_contract units_match positive in_limit in_contract
      asked_for has_name
  agreed_parts receipt e = rw e (ground (arith, same_units_refl run.resources))

  pub receipt_valid-IsSound :
      (receipt : Receipt)
      → receipt_valid receipt run.resources ≡ true
      → receipt_matches_contract contract receipt ≡ true
      → IsSound run.resources contract receipt
  receipt_valid-IsSound receipt v m =
      let e : receipt.requested ≡ run.resources = requested_units run receipt v in
      record {
        requested = e;
        applied = ground (arith, v, m, agreed_parts receipt e, applied_parts receipt.applied);
        peak = ground (arith, v, m, agreed_parts receipt e, peak_parts receipt.peak);
        events = ground (arith, v, m, agreed_parts receipt e, event_parts receipt.events);
      }

  pub IsSound-receipt_valid :
      (receipt : Receipt)
      → columns_valid run ≡ true
      → IsSound run.resources contract receipt
      → (receipt_valid receipt run.resources ≡ true)
        × (receipt_matches_contract contract receipt ≡ true)
  unfolding positive
  IsSound-receipt_valid receipt c s = ground (
    arith,
    positive_units run c,
    agreed_parts receipt s.requested,
    applied_parts receipt.applied,
    peak_parts receipt.peak,
    event_parts receipt.events,
    s.applied,
    s.peak,
    s.events,
  )
