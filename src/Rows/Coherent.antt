-- ===== src/Rows/Coherent.antt =====
-- The rows that `run_from_row` accepts, part by part.
use agcoord.Base.{
  String, ◌≡◌, inl, inr, refl, true, false, Option, none, some, List, [], ◌∷◌, ◌++◌, Map, Memᴰ,
  lookup, str_eq, eq_iff, any, all, is_some, all_entries, Distinct, arith, Bool-cases, Option-cases,
  any-eq-false_of, mem-append_cases, all-mem,
}
use agcoord.Run.{RunRecord, Binding, BackendState, ok}
use agcoord.Life.Loaded.{Result-cases}
use agcoord.Resources.States.{parse_backend_state, backend_state_value}
use agcoord.Resources.States.Stored.{
  state_valid, unclaimed, parse_backend_state-valid, parse_backend_state-backend_state_value,
}
use agcoord.Backends.{run_bindings, bound_to}
use agcoord.Backends.Events.{receipt_valid}
use agcoord.Rows.{columns_valid, states_match, receipt_matches_contract, run_from_row}

pub record IsCoherent (run : RunRecord) (contract : Map Binding) : Type 0 where
  pub columns : columns_valid run ≡ true
  pub receipt : receipt_valid run.resource_receipt run.resources ≡ true
  pub bound : run_bindings run ≡ ok contract
  pub distinct : Distinct run.resource_state
  pub states : all_entries state_valid run.resource_state ≡ true
  pub matched : states_match contract run.resource_state ≡ true
  pub agreed : receipt_matches_contract contract run.resource_receipt ≡ true

pub run_from_row-IsCoherent :
    (row : RunRecord) {run : RunRecord}
    → run_from_row row ≡ ok run
    → (contract : Map Binding) × IsCoherent run contract
unfolding run_from_row run_bindings
run_from_row-IsCoherent row {run} h = elim (Result-cases (run_bindings row)) [
  | inr (e, b) ↦ absurd (ground (arith, b))
  | inl (contract, b) ↦
      elim (Option-cases (parse_backend_state (backend_state_value row.resource_state))) [
        | inl n ↦ absurd (ground (arith, b, n))
        | inr (state, p) ↦
            let g : (columns_valid row ≡ true)
                × (receipt_valid row.resource_receipt row.resources ≡ true)
                × (states_match contract state ≡ true)
                × (receipt_matches_contract contract row.resource_receipt ≡ true)
                × (run ≡ record row { resource_state = state }) =
              ground (arith, b, p) in
            let v : Distinct state × (all_entries state_valid state ≡ true) =
              parse_backend_state-valid (backend_state_value row.resource_state) p in
            (
              contract,
              rw (g.4) (record {
                columns = g.0;
                receipt = g.1;
                bound = b;
                distinct = v.0;
                states = v.1;
                matched = g.2;
                agreed = g.3;
              }),
            )
      ]
]

bound_to-eq :
    (a b : String) (binding : Option Binding)
    → bound_to a binding ≡ true
    → bound_to b binding ≡ true
    → a ≡ b
unfolding bound_to
bound_to-eq a b none h k = cc
bound_to-eq a b (some binding) h k = elim (Option-cases binding.backend) [
  | inl n ↦ absurd (ground (arith, n))
  | inr (c, n) ↦ ground (arith, n, eq_iff c a, eq_iff c b)
]

module _ (contract : Map Binding) where
  -- No claimed name is bound to a backend that is still to come.
  abbrev IsFree : Map BackendState → String → Type 0
  IsFree m name =
      (backend : String)
      → is_some (lookup backend m) ≡ true
      → bound_to backend (lookup name contract) ≡ false

  states_match-unclaimed :
      (claimed : List String) (m : Map BackendState)
      → Distinct m
      → states_match contract m ≡ true
      → ((name : String) → Memᴰ name claimed → IsFree m name)
      → unclaimed claimed m ≡ true
  unfolding states_match unclaimed lookup all_entries
  states_match-unclaimed claimed [] d s f = refl
  states_match-unclaimed claimed ((backend, own) ∷ m) d s f =
      let own_bound : all (λ name. bound_to backend (lookup name contract)) own.resources ≡ true =
        ground arith in
      ground (
        arith,
        any-eq-false_of (λ name. any (str_eq name) claimed) own.resources
            (λ name n. any-eq-false_of (str_eq name) claimed (λ c k.
              distinct name c (all-mem _ own.resources own_bound n)
                (f c k backend (ground (arith, (eq_iff backend backend).1 refl))))),
        states_match-unclaimed (own.resources ++ claimed) m d.1 (ground arith) (λ name n.
            elim (mem-append_cases own.resources claimed n) [
              | inl k ↦
                  λ other there. elsewhere name other (all-mem _ own.resources own_bound k) there
              | inr k ↦ λ other there. f name k other (ground (arith, there))
            ]),
      )
    where
      distinct :
          (name c : String)
          → bound_to backend (lookup name contract) ≡ true
          → bound_to backend (lookup c contract) ≡ false
          → str_eq name c ≡ false
      distinct name c b u = elim (Bool-cases (str_eq name c)) [
        | inr k ↦ k
        | inl k ↦
            let e : name ≡ c = (eq_iff name c).0 k in
            let v : bound_to backend (lookup c contract) ≡ true = rw e at b in
            absurd (ground (arith, u, v))
      ]

      elsewhere :
          (name other : String)
          → bound_to backend (lookup name contract) ≡ true
          → is_some (lookup other m) ≡ true
          → bound_to other (lookup name contract) ≡ false
      elsewhere name other b there = elim (Bool-cases (bound_to other (lookup name contract))) [
        | inr k ↦ k
        | inl k ↦
            let e : other ≡ backend = bound_to-eq other backend (lookup name contract) k b in
            let v : is_some (lookup backend m) ≡ true = rw e at there in
            absurd (ground (arith, v, d.0))
      ]

pub IsCoherent-run_from_row :
    (run : RunRecord) (contract : Map Binding) → IsCoherent run contract → run_from_row run ≡ ok run
unfolding run_from_row
IsCoherent-run_from_row run contract c =
    let u : unclaimed [] run.resource_state ≡ true =
      states_match-unclaimed contract [] run.resource_state c.distinct c.matched
        (λ name m. elim m [ ]) in
    ground (
      arith,
      c.columns,
      c.receipt,
      c.bound,
      c.matched,
      c.agreed,
      parse_backend_state-backend_state_value run.resource_state c.distinct c.states u,
    )
