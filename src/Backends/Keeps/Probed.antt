-- ===== src/Backends/Keeps/Probed.antt =====
-- broker.rs `prepare_resources`: unless a probe fails, each required name is given to a backend.
use agcoord.Base.{
  ℕ, String, ◌≡◌, ◌⊎◌, inl, inr, refl, Bool, true, false, ◌&&◌, ◌||◌, Option, none, some, List, [],
  ◌∷◌, ◌++◌, Map, lookup, any, str_eq, eq_iff, get_or, if◌then◌else◌, arith, Bool-cases,
}
use agcoord.Run.{Binding}
use agcoord.Json.{Fields, get}
use agcoord.Resources.{enforced, is_required}
use agcoord.Backends.{names, insert_ordered}
use agcoord.Backends.Attach.{binding_at}
use agcoord.Backends.Prepare.{capability_issue, Probed, probe_outcome, probe_each}

abbrev pub is_in : String → List String → Bool
is_in name chosen = any (str_eq name) chosen

-- A backend is to be asked for the name.
unfoldable pub held : String → Map (List String) → Bool
held name eligible = any (λ (entry : String × List String). is_in name entry.1) eligible

is_in-append :
    (name : String) (xs ys : List String) → is_in name (xs ++ ys) ≡ (is_in name xs || is_in name ys)
is_in-append name [] ys = refl
is_in-append name (x ∷ xs) ys = ground (arith, is_in-append name xs ys)

held-insert :
    (name backend : String) (chosen : List String) (eligible : Map (List String))
    → is_in name chosen ≡ true
    → held name (insert_ordered backend chosen eligible) ≡ true
unfolding held insert_ordered
held-insert name backend chosen [] h = ground arith
held-insert name backend chosen ((key, xs) ∷ eligible) h =
    ground (arith, held-insert name backend chosen eligible h)

held-extend :
    (name backend added : String) (eligible : Map (List String))
    → held name eligible ≡ true
    → held name
        (insert_ordered backend (get_or (lookup backend eligible) [] ++ added ∷ []) eligible)
      ≡ true
unfolding held insert_ordered lookup
held-extend name backend added [] h = cc
held-extend name backend added ((key, xs) ∷ eligible) h =
    ground (arith, h, held-extend name backend added eligible, is_in-append name xs (added ∷ []))

-- A name must be held if its binding is required.
abbrev pub must_hold : Map Binding → String → Bool
must_hold contract name =
    enforced (binding_at contract name) && is_required (binding_at contract name)

module _ (contract : Map Binding) (now : String) where
  probe_outcome-held :
      (added backend name : String) (issue : Option String) (so_far : Probed)
      → (probe_outcome now contract added backend issue so_far).required_failure ≡ false
      → (held name so_far.eligible ≡ true) ⊎ ((name ≡ added) × (must_hold contract name ≡ true))
      → held name (probe_outcome now contract added backend issue so_far).eligible ≡ true
  unfolding probe_outcome
  probe_outcome-held added backend name none so_far f (inl h) =
      held-extend name backend added so_far.eligible h
  probe_outcome-held added backend name none so_far f (inr h) =
      held-insert name backend _ so_far.eligible (
        rw h.0 (
          ground (
            arith,
            is_in-append added (get_or (lookup backend so_far.eligible) []) (added ∷ []),
            (eq_iff added added).1 refl,
          )))
  probe_outcome-held added backend name (some issue) so_far f (inl h) = h
  probe_outcome-held added backend name (some issue) so_far f (inr h) =
      let e : is_required (binding_at contract added) ≡ true = rw h.0 at (second h.1) in
      absurd (ground (arith, f, e))
    where
      second : must_hold contract name ≡ true → is_required (binding_at contract name) ≡ true
      second m = ground arith

  -- The step of the loop, for a binding that is enforced or is not.
  abbrev probe_step : Bool → String → String → Option String → Probed → Probed
  probe_step is_enforced name backend issue so_far =
      if is_enforced then probe_outcome now contract name backend issue so_far else so_far

  probe_step_failed :
      (is_enforced : Bool) (name backend : String) (issue : Option String) (so_far : Probed)
      → (probe_step is_enforced name backend issue so_far).required_failure ≡ false
      → so_far.required_failure ≡ false
  unfolding probe_outcome
  probe_step_failed true name backend none so_far f = f
  probe_step_failed true name backend (some issue) so_far f = ground arith
  probe_step_failed false name backend issue so_far f = f

  probe_step-held :
      (is_enforced : Bool) (added backend name : String) (issue : Option String) (so_far : Probed)
      → is_enforced ≡ enforced (binding_at contract added)
      → (probe_step is_enforced added backend issue so_far).required_failure ≡ false
      → (held name so_far.eligible ≡ true) ⊎ ((name ≡ added) × (must_hold contract name ≡ true))
      → held name (probe_step is_enforced added backend issue so_far).eligible ≡ true
  probe_step-held true added backend name issue so_far e f h =
      probe_outcome-held added backend name issue so_far f h
  probe_step-held false added backend name issue so_far e f (inl h) = h
  probe_step-held false added backend name issue so_far e f (inr h) =
      let m : enforced (binding_at contract added) ≡ true = rw h.0 at (first h.1) in
      absurd (ground (arith, e, m))
    where
      first : must_hold contract name ≡ true → enforced (binding_at contract name) ≡ true
      first m = ground arith

  -- A failure stays.
  probe_each-failed :
      (capabilities : Fields) (resources : Map ℕ) (so_far : Probed)
      → (probe_each now capabilities contract resources so_far).required_failure ≡ false
      → so_far.required_failure ≡ false
  unfolding probe_each
  probe_each-failed capabilities [] so_far f = f
  probe_each-failed capabilities ((name, units) ∷ resources) so_far f =
      let binding : Binding = binding_at contract name in
      let backend : String = get_or binding.backend "" in
      let issue : Option String = capability_issue binding (get backend capabilities) in
      probe_step_failed (enforced binding) name backend issue so_far (
        probe_each-failed capabilities resources
          (probe_step (enforced binding) name backend issue so_far) f)

  pub probe_each-held :
      (capabilities : Fields) (resources : Map ℕ) (so_far : Probed) (name : String)
      → (probe_each now capabilities contract resources so_far).required_failure ≡ false
      → (held name so_far.eligible ≡ true)
        ⊎ ((is_in name (names resources) ≡ true) × (must_hold contract name ≡ true))
      → held name (probe_each now capabilities contract resources so_far).eligible ≡ true
  unfolding probe_each names
  probe_each-held capabilities [] so_far name f (inl h) = h
  probe_each-held capabilities [] so_far name f (inr h) = absurd (ground (arith, h))
  probe_each-held capabilities ((key, units) ∷ resources) so_far name f h =
      let binding : Binding = binding_at contract key in
      let backend : String = get_or binding.backend "" in
      let issue : Option String = capability_issue binding (get backend capabilities) in
      let after : Probed = probe_step (enforced binding) key backend issue so_far in
      let fine : after.required_failure ≡ false =
        probe_each-failed capabilities resources after f in
      probe_each-held capabilities resources after name f (elim h [
        | inl k ↦
            inl (probe_step-held (enforced binding) key backend name issue so_far refl fine (inl k))
        | inr k ↦ elim (Bool-cases (str_eq name key)) [
          | inl e ↦ inl (
              probe_step-held (enforced binding) key backend name issue so_far refl fine
                (inr ((eq_iff name key).0 e, k.1)))
          | inr e ↦ inr (ground (arith, k.0, e), k.1)
        ]
      ])
