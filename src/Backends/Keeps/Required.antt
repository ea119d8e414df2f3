-- ===== src/Backends/Keeps/Required.antt =====
-- broker.rs `prepare_resources`: unless a backend fails, the state has every required name.
use agcoord.Base.{
  String, ◌≡◌, ◌⊎◌, inl, inr, refl, Bool, true, false, none, List, [], ◌∷◌, Map, lookup, any,
  str_eq, eq_iff, is_some, Distinct, arith, Bool-cases,
}
use agcoord.Run.{RunRecord, Binding, BackendState, ok}
use agcoord.Life.Loaded.{Result-cases}
use agcoord.Json.{Value}
use agcoord.Resources.{is_required}
use agcoord.Backends.{Outcome, done, fault, Backends, dispatch, insert_ordered}
use agcoord.Backends.Attach.{binding_at}
use agcoord.Backends.Prepare.{Prepared, prepare_outcome, prepare_each}
use agcoord.Backends.Keeps.Probed.{is_in, held, must_hold}

-- A backend's state has the name.
unfoldable pub state_holds : String → Map BackendState → Bool
state_holds name state = any (λ (entry : String × BackendState). is_in name entry.1.resources) state

module _ (contract : Map Binding) (now : String) where
  state_holds-insert :
      (name backend : String) (own : BackendState) (state : Map BackendState)
      → is_in name own.resources ≡ true
      → state_holds name (insert_ordered backend own state) ≡ true
  unfolding state_holds insert_ordered
  state_holds-insert name backend own [] h = ground arith
  state_holds-insert name backend own ((key, other) ∷ state) h =
      ground (arith, state_holds-insert name backend own state h)

  -- An entry under a new key leaves the others.
  state_holds-fresh :
      (name backend : String) (own : BackendState) (state : Map BackendState)
      → lookup backend state ≡ none
      → state_holds name state ≡ true
      → state_holds name (insert_ordered backend own state) ≡ true
  unfolding state_holds insert_ordered lookup
  state_holds-fresh name backend own [] n h = cc
  state_holds-fresh name backend own ((key, other) ∷ state) n h =
      ground (arith, n, h, state_holds-fresh name backend own state)

  lookup-insert_ordered :
      (key backend : String) (own : BackendState) (state : Map BackendState)
      → str_eq backend key ≡ false
      → lookup key state ≡ none
      → lookup key (insert_ordered backend own state) ≡ none
  unfolding insert_ordered lookup
  lookup-insert_ordered key backend own [] d n = ground arith
  lookup-insert_ordered key backend own ((k, other) ∷ state) d n =
      ground (
        arith,
        n,
        eq_iff k backend,
        eq_iff backend k,
        lookup-insert_ordered key backend own state d,
      )

  any_required :
      (name : String) (chosen : List String)
      → is_in name chosen ≡ true
      → is_required (binding_at contract name) ≡ true
      → any (λ n. is_required (binding_at contract n)) chosen ≡ true
  any_required name [] i m = cc
  any_required name (x ∷ xs) i m = elim (Bool-cases (str_eq name x)) [
    | inr e ↦ ground (arith, any_required name xs (ground (arith, e)) m)
    | inl e ↦
        let q : is_required (binding_at contract x) ≡ true = rw ((eq_iff name x).0 e) at m in
        ground (arith, q)
  ]

  required_of :
      (name : String)
      → must_hold contract name ≡ true
      → is_required (binding_at contract name) ≡ true
  required_of name m = ground arith

  prepare_outcome-holds :
      (backend : String) (chosen : List String) (so_far : Prepared) (result : Outcome Value)
      (name : String)
      → (prepare_outcome now contract backend chosen so_far result).required_failure ≡ false
      → lookup backend so_far.work.state ≡ none
      → (state_holds name so_far.work.state ≡ true)
        ⊎ ((is_in name chosen ≡ true) × (must_hold contract name ≡ true))
      → state_holds name (prepare_outcome now contract backend chosen so_far result).work.state
        ≡ true
  unfolding prepare_outcome
  prepare_outcome-holds backend chosen so_far (done handle) name f n (inl h) =
      state_holds-fresh name backend _ so_far.work.state n h
  prepare_outcome-holds backend chosen so_far (done handle) name f n (inr h) =
      state_holds-insert name backend _ so_far.work.state h.0
  prepare_outcome-holds backend chosen so_far (fault code) name f n (inl h) = h
  prepare_outcome-holds backend chosen so_far (fault code) name f n (inr h) =
      absurd (ground (arith, f, any_required name chosen h.0 (required_of name h.1)))

  prepare_outcome-failed :
      (backend : String) (chosen : List String) (so_far : Prepared) (result : Outcome Value)
      → (prepare_outcome now contract backend chosen so_far result).required_failure ≡ false
      → so_far.required_failure ≡ false
  unfolding prepare_outcome
  prepare_outcome-failed backend chosen so_far (done handle) f = f
  prepare_outcome-failed backend chosen so_far (fault code) f = ground arith

  prepare_outcome-fresh :
      (backend : String) (chosen : List String) (so_far : Prepared) (result : Outcome Value)
      (key : String)
      → str_eq backend key ≡ false
      → lookup key so_far.work.state ≡ none
      → lookup key (prepare_outcome now contract backend chosen so_far result).work.state ≡ none
  unfolding prepare_outcome
  prepare_outcome-fresh backend chosen so_far (done handle) key d n =
      lookup-insert_ordered key backend _ so_far.work.state d n
  prepare_outcome-fresh backend chosen so_far (fault code) key d n = n

  prepare_each-failed :
      (broker : Backends) (run : RunRecord) (more : Map (List String)) (so_far : Prepared)
      {after : Prepared}
      → prepare_each now broker run contract more so_far ≡ ok after
      → after.required_failure ≡ false
      → so_far.required_failure ≡ false
  unfolding prepare_each
  prepare_each-failed broker run [] so_far {after} h f =
      let e : so_far ≡ after = ground (arith, h) in rw e f
  prepare_each-failed broker run ((backend, chosen) ∷ more) so_far {after} h f =
      elim (Result-cases (dispatch broker backend run chosen (λ b request. b.prepare request))) [
        | inr (code, d) ↦ absurd (ground (arith, h, d))
        | inl (result, d) ↦ prepare_outcome-failed backend chosen so_far result (
            prepare_each-failed broker run more
              (prepare_outcome now contract backend chosen so_far result) (rw d at h) f)
      ]

  -- A later key is another.
  other_key :
      (backend key : String) (more : Map (List String))
      → lookup backend more ≡ none
      → is_some (lookup key more) ≡ true
      → str_eq backend key ≡ false
  other_key backend key more n there = elim (Bool-cases (str_eq backend key)) [
    | inr e ↦ e
    | inl e ↦
        let n' : lookup key more ≡ none = rw ((eq_iff backend key).0 e) at n in
        absurd (ground (arith, n', there))
  ]

  pub prepare_each-holds :
      (broker : Backends) (run : RunRecord) (more : Map (List String)) (so_far : Prepared)
      {after : Prepared} (name : String)
      → prepare_each now broker run contract more so_far ≡ ok after
      → after.required_failure ≡ false
      → Distinct more
      → ((key : String) → is_some (lookup key more) ≡ true → lookup key so_far.work.state ≡ none)
      → (state_holds name so_far.work.state ≡ true)
        ⊎ ((held name more ≡ true) × (must_hold contract name ≡ true))
      → state_holds name after.work.state ≡ true
  unfolding prepare_each held lookup
  prepare_each-holds broker run [] so_far {after} name h f d n (inl k) =
      let e : so_far ≡ after = ground (arith, h) in rw e at k
  prepare_each-holds broker run [] so_far {after} name h f d n (inr k) = absurd (ground (arith, k))
  prepare_each-holds broker run ((backend, chosen) ∷ more) so_far {after} name h f d n k =
      elim (Result-cases (dispatch broker backend run chosen (λ b request. b.prepare request))) [
        | inr (code, q) ↦ absurd (ground (arith, h, q))
        | inl (result, q) ↦
            let next : Prepared = prepare_outcome now contract backend chosen so_far result in
            let h' : prepare_each now broker run contract more next ≡ ok after = rw q at h in
            let fine : next.required_failure ≡ false =
              prepare_each-failed broker run more next h' f in
            let new : lookup backend so_far.work.state ≡ none =
              n backend (ground (arith, (eq_iff backend backend).1 refl)) in
            prepare_each-holds broker run more next name h' f d.1
              (λ key there.
                prepare_outcome-fresh backend chosen so_far result key
                  (other_key backend key more d.0 there) (n key (ground (arith, there))))
              (elim k [
                | inl s ↦
                    inl (prepare_outcome-holds backend chosen so_far result name fine new (inl s))
                | inr s ↦ elim (Bool-cases (is_in name chosen)) [
                  | inl i ↦ inl (
                      prepare_outcome-holds backend chosen so_far result name fine new
                        (inr (i, s.1)))
                  | inr i ↦ inr (ground (arith, s.0, i), s.1)
                ]
              ])
      ]
