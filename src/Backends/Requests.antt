-- ===== src/Backends/Requests.antt =====
-- The request for names in order that are bound to a backend can be made, and holds those names.
use agcoord.Base.{
  ℕ, String, ◌≡◌, ◌⊎◌, all_imply, all_entries-lookup, inl, inr, refl, true, Option, none, some,
  List, [], ◌∷◌, Map, lookup, str_eq, eq_iff, all, is_some, get_or, all_entries, Distinct, arith,
  Bool-cases, Option-cases, str_lt-str_eq,
}
use agcoord.Run.{RunRecord, Binding, ok}
use agcoord.Life.Loaded.{Result-cases}
use agcoord.Resources.{parse_bindings, bindings_value, name_valid, enforced}
use agcoord.Resources.Bindings.{entry_valid, binding_valid, backend_fits, parse_bindings-valid}
use agcoord.Resources.States.Sorted.{ascending}
use agcoord.Backends.{
  Request, Backend, Backends, Outcome, fault, names, same_names, same_keys, run_bindings,
  insert_ordered, selected_units, bound_to, bound_resources, request_new, request_of, cgroup_name,
  project_quota_name, ask_backend, dispatch,
}
use agcoord.Backends.Events.{has_name}

-- What the stored contract of a run gives.
pub run_bindings-keys :
    (run : RunRecord) {contract : Map Binding}
    → run_bindings run ≡ ok contract
    → (all_entries entry_valid contract ≡ true) × (same_keys contract run.resources ≡ true)
unfolding run_bindings
run_bindings-keys run {contract} h =
    elim (Result-cases (parse_bindings (some (bindings_value run.resource_contract)))) [
      | inr (e, p) ↦ absurd (ground (arith, p))
      | inl (parsed, p) ↦
          let v : Distinct parsed × (all_entries entry_valid parsed ≡ true) =
            parse_bindings-valid (some (bindings_value run.resource_contract)) p in
          let g : (same_keys parsed run.resources ≡ true) × (contract ≡ parsed) =
            ground (arith, p) in
          rw g.1 (v.1, g.0)
    ]

-- A name that is bound is requested, its binding is enforced, and its backend has a valid name.
pub bound_to-requested :
    (run : RunRecord) (contract : Map Binding) (backend name : String)
    → run_bindings run ≡ ok contract
    → bound_to backend (lookup name contract) ≡ true
    → (has_name run.resources name ≡ true)
      × (name_valid backend ≡ true)
      × ((binding : Binding) × (lookup name contract ≡ some binding) × (enforced binding ≡ true))
unfolding bound_to binding_valid backend_fits has_name same_keys
bound_to-requested run contract backend name r b = elim (Option-cases (lookup name contract)) [
  | inl n ↦ absurd (ground (arith, n))
  | inr (binding, l) ↦
      let k : (all_entries entry_valid contract ≡ true)
          × (same_keys contract run.resources ≡ true) =
        run_bindings-keys run r in
      let e : entry_valid name binding ≡ true =
        all_entries-lookup entry_valid name contract k.0 l in
      let there : is_some (lookup name run.resources) ≡ true =
        all_entries-lookup (λ n _. is_some (lookup n run.resources)) name contract
          (ground (arith, k.1)) l in
      elim (Option-cases binding.backend) [
        | inl n ↦ absurd (ground (arith, l, n))
        | inr (own, n) ↦
            let g : (name_valid own ≡ true) × (enforced binding ≡ true) × (own ≡ backend) =
              ground (arith, e, l, n, eq_iff own backend) in
            (there, rw (g.2) at g.0, (binding, l, g.1))
      ]
]

-- The names with their units.
pub unit_list : Map ℕ → List String → Map ℕ
unit_list resources [] = []
unit_list resources (name ∷ more) =
    (name, get_or (lookup name resources) 0) ∷ unit_list resources more

selected_units-ok :
    (resources : Map ℕ) (chosen : List String)
    → ascending chosen ≡ true
    → all (has_name resources) chosen ≡ true
    → selected_units resources chosen ≡ ok (unit_list resources chosen)
unfolding selected_units unit_list ascending has_name insert_ordered
selected_units-ok resources [] a h = refl
selected_units-ok resources (name ∷ []) a h = ground arith
selected_units-ok resources (name ∷ next ∷ more) a h = elim (Option-cases (lookup name resources)) [
  | inl n ↦ absurd (ground (arith, n))
  | inr (units, n) ↦
      rw (n, selected_units-ok resources (next ∷ more) (ground arith) (ground arith))
        (ground (arith, n, str_lt-str_eq name next, str_eq-sym next name))
]
  where
    str_eq-sym : (s t : String) → str_eq s t ≡ str_eq t s
    str_eq-sym s t = ground (arith, eq_iff s t, eq_iff t s)

bound_resources-unit_list :
    (backend : String) (contract : Map Binding) (resources : Map ℕ) (chosen : List String)
    → all (λ name. bound_to backend (lookup name contract)) chosen ≡ true
    → bound_resources backend contract (unit_list resources chosen) ≡ unit_list resources chosen
unfolding bound_resources unit_list
bound_resources-unit_list backend contract resources [] b = refl
bound_resources-unit_list backend contract resources (name ∷ more) b =
    ground (arith, bound_resources-unit_list backend contract resources more (ground arith))

names-unit_list :
    (resources : Map ℕ) (chosen : List String)
    → same_names (names (unit_list resources chosen)) chosen ≡ true
unfolding names unit_list same_names
names-unit_list resources [] = refl
names-unit_list resources (name ∷ more) =
    ground (arith, (eq_iff name name).1 refl, names-unit_list resources more)

-- Every name of a request is bound to its backend.
abbrev pub IsBound : String → Map Binding → Request → Type 0
IsBound backend contract request =
    (name : String)
    → has_name request.resources name ≡ true
    → bound_to backend (lookup name contract) ≡ true

bound_resources-bound :
    (backend : String) (contract : Map Binding) (resources : Map ℕ) (name : String)
    → has_name (bound_resources backend contract resources) name ≡ true
    → bound_to backend (lookup name contract) ≡ true
unfolding bound_resources has_name lookup
bound_resources-bound backend contract [] name h = absurd (ground arith)
bound_resources-bound backend contract ((key, units) ∷ resources) name h =
    elim (Bool-cases (bound_to backend (lookup key contract))) [
      | inr n ↦ bound_resources-bound backend contract resources name (ground (arith, n))
      | inl b ↦ elim (Bool-cases (str_eq key name)) [
        | inl e ↦ rw ((eq_iff key name).0 e) at b
        | inr n ↦ bound_resources-bound backend contract resources name (ground (arith, n, b))
      ]
    ]

pub request_of-ok :
    (run : RunRecord) (contract : Map Binding) (backend : String) (chosen : List String)
    → run_bindings run ≡ ok contract
    → ascending chosen ≡ true
    → all (λ name. bound_to backend (lookup name contract)) chosen ≡ true
    → (request : Request) × (request_of backend run chosen ≡ ok request)
      × IsBound backend contract request
unfolding request_of request_new
request_of-ok run contract backend chosen r a b =
    let requested : all (has_name run.resources) chosen ≡ true =
      all_imply (λ name. bound_to backend (lookup name contract)) (has_name run.resources) chosen
        (λ name k. (bound_to-requested run contract backend name r k).0) b in
    let units : selected_units run.resources chosen ≡ ok (unit_list run.resources chosen) =
      selected_units-ok run.resources chosen a requested in
    (
      request_new backend run.run_id (unit_list run.resources chosen) contract,
      rw (r, units)
          (ground (
            arith,
            bound_resources-unit_list backend contract run.resources chosen b,
            names-unit_list run.resources chosen,
          )),
      λ name h. bound_resources-bound backend contract (unit_list run.resources chosen) name h,
    )

-- What a call answers, if every backend that the broker has answers so.
pub dispatch-ok {ℓ} :
    {A : Type ℓ} (broker : Backends) (backend : String) (run : RunRecord) (contract : Map Binding)
    (chosen : List String) (call : Backend → Request → Outcome A) (P : Outcome A → Type 0)
    → run_bindings run ≡ ok contract
    → ascending chosen ≡ true
    → all (λ name. bound_to backend (lookup name contract)) chosen ≡ true
    → P (fault "backend-unavailable")
    → ((b : Backend) (request : Request)
        → (broker.cgroup_backend ≡ some b) ⊎ (broker.project_quota_backend ≡ some b)
        → IsBound backend contract request
        → P (call b request))
    → (result : Outcome A) × (dispatch broker backend run chosen call ≡ ok result) × P result
unfolding dispatch
dispatch-ok broker backend run contract chosen call P r a b missing answers =
    elim (Bool-cases (str_eq backend cgroup_name)) [
      | inl e ↦
          let e' : backend ≡ cgroup_name = (eq_iff backend cgroup_name).0 e in
          let made : (request : Request) × (request_of backend run chosen ≡ ok request)
              × IsBound backend contract request =
            request_of-ok run contract backend chosen r a b in
          let q : request_of cgroup_name run chosen ≡ ok made.0 = rw e' at made.1 in
          (
            ask_backend broker.cgroup_backend call made.0,
            ground (arith, e, q),
            asked_all broker.cgroup_backend made.0 (λ own k. answers own made.0 (inl k) made.2),
          )
      | inr n ↦ elim (Bool-cases (str_eq backend project_quota_name)) [
        | inr m ↦ (fault "backend-unavailable", ground (arith, n, m), missing)
        | inl e ↦
            let e' : backend ≡ project_quota_name = (eq_iff backend project_quota_name).0 e in
            let made : (request : Request) × (request_of backend run chosen ≡ ok request)
                × IsBound backend contract request =
              request_of-ok run contract backend chosen r a b in
            let q : request_of project_quota_name run chosen ≡ ok made.0 = rw e' at made.1 in
            (
              ask_backend broker.project_quota_backend call made.0,
              ground (arith, n, e, q),
              asked_all broker.project_quota_backend made.0
                  (λ own k. answers own made.0 (inr k) made.2),
            )
      ]
    ]
  where
    asked_all :
        (o : Option Backend) (request : Request)
        → ((own : Backend) → o ≡ some own → P (call own request))
        → P (ask_backend o call request)
    asked_all none request h = missing
    asked_all (some own) request h = h own refl
