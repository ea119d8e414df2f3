-- ===== src/Backends/Recorded.antt =====
-- Events, applied units and measurements leave a receipt that fits its run.
use agcoord.Base.{
  ℕ, String, ◌≡◌, inl, inr, Bool, true, false, List, [], ◌∷◌, Map, lookup, insert, all, get_or,
  arith, Option-cases, all-append, all_entries-insert, all_entries-lookup,
}
use agcoord.Run.{RunRecord, Binding, Receipt, ok}
use agcoord.Text.{empty_text}
use agcoord.Resources.{code_valid}
use agcoord.Rows.{columns_valid, event_matches, enforced_at, units_valid}
use agcoord.Backends.{run_bindings, bound_to}
use agcoord.Backends.Events.{
  append_resource_event, append_events, has_name, stage_valid, status_valid, event_valid, within,
}
use agcoord.Backends.Attach.{apply_units}
use agcoord.Backends.Requests.{bound_to-requested}
use agcoord.Backends.Sound.{IsSound, applied_sound, event_sound}

module _ (run : RunRecord) (contract : Map Binding) (now : String)
    (r : run_bindings run ≡ ok contract) (t : empty_text now ≡ false) where
  abbrev pub bound : String → String → Bool
  bound backend name = bound_to backend (lookup name contract)

  pub append_resource_event-IsSound :
      (receipt : Receipt) (backend name stage status code : String)
      → bound backend name ≡ true
      → stage_valid stage ≡ true
      → status_valid status ≡ true
      → code_valid code ≡ true
      → IsSound run.resources contract receipt
      → IsSound run.resources contract
          (append_resource_event now receipt backend name stage status code)
  unfolding append_resource_event event_valid event_matches has_name
  append_resource_event-IsSound receipt backend name stage status code b g u c s = record {
    requested = s.requested;
    applied = s.applied;
    peak = s.peak;
    events = ground (
      arith,
      all-append (event_sound run.resources contract) receipt.events (
          record {
            at = now;
            backend = backend;
            resource = name;
            stage = stage;
            status = status;
            code = code;
          }
          ∷ []),
      s.events,
      bound_to-requested run contract backend name r b,
      b,
      g,
      u,
      c,
      t,
    );
  }

  pub append_events-IsSound :
      (backend : String) (chosen : List String) (stage : String) (status : String → String)
      (code : String) (receipt : Receipt)
      → all (bound backend) chosen ≡ true
      → stage_valid stage ≡ true
      → ((name : String) → status_valid (status name) ≡ true)
      → code_valid code ≡ true
      → IsSound run.resources contract receipt
      → IsSound run.resources contract (append_events now receipt backend chosen stage status code)
  unfolding append_events
  append_events-IsSound backend [] stage status code receipt b g u c s = s
  append_events-IsSound backend (name ∷ more) stage status code receipt b g u c s =
      append_events-IsSound backend more stage status code _ (ground arith) g u c (
        append_resource_event-IsSound receipt backend name stage (status name) code (ground arith) g
          (u name) c s)

  -- One name that is applied.
  insert-IsSound :
      (receipt : Receipt) (name : String) (units : ℕ)
      → applied_sound run.resources contract name units ≡ true
      → IsSound run.resources contract receipt
      → IsSound run.resources contract
          (record receipt { applied = insert name units receipt.applied })
  insert-IsSound receipt name units a s = record {
    requested = s.requested;
    applied =
        all_entries-insert (applied_sound run.resources contract) name units receipt.applied a
          s.applied;
    peak = s.peak;
    events = s.events;
  }

  pub bound-enforced_at :
      (backend name : String)
      → bound backend name ≡ true
      → enforced_at (lookup name contract) ≡ true
  unfolding enforced_at
  bound-enforced_at backend name b =
      ground (arith, bound_to-requested run contract backend name r b)

  -- All that was requested may be applied.
  requested-applied_sound :
      (backend name : String)
      → columns_valid run ≡ true
      → bound backend name ≡ true
      → applied_sound run.resources contract name (get_or (lookup name run.resources) 0) ≡ true
  unfolding columns_valid within has_name
  requested-applied_sound backend name c b = elim (Option-cases (lookup name run.resources)) [
    | inl n ↦ absurd (ground (arith, n, (bound_to-requested run contract backend name r b).0))
    | inr (units, n) ↦
        let v : units_valid name units ≡ true =
          all_entries-lookup units_valid name run.resources (ground (arith, c)) n in
        ground (arith, n, v, bound-enforced_at backend name b)
  ]

  pub apply_units-IsSound :
      (receipt : Receipt) (backend : String) (chosen : List String)
      → columns_valid run ≡ true
      → all (bound backend) chosen ≡ true
      → IsSound run.resources contract receipt
      → IsSound run.resources contract
          (record receipt { applied = apply_units run.resources chosen receipt.applied })
  unfolding apply_units
  apply_units-IsSound receipt backend [] c b s = s
  apply_units-IsSound receipt backend (name ∷ more) c b s =
      apply_units-IsSound
        (record receipt {
          applied = insert name (get_or (lookup name run.resources) 0) receipt.applied;
        })
        backend more c (ground arith)
        (insert-IsSound receipt name _ (requested-applied_sound backend name c (ground arith)) s)
