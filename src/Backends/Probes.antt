-- ===== src/Backends/Probes.antt =====
-- broker.rs `prepare_resources`: the probes of a coherent row, before any backend is asked.
use agcoord.Base.{
  String, ◌≡◌, inl, inr, refl, Bool, true, false, not, ◌&&◌, Option, none, some, List, [], ◌∷◌,
  ◌++◌, Map, lookup, str_lt, eq_iff, all, is_some, get_or, all_entries, arith, Option-cases,
  all_imply, all-append, all-and, all_entries-lookup,
}
use agcoord.Run.{RunRecord, Binding, ok}
use agcoord.Text.{empty_text}
use agcoord.Json.{Fields, get, as_str}
use agcoord.Resources.{name_valid, code_valid, enforced}
use agcoord.Resources.Bindings.{entry_valid, binding_valid, backend_fits}
use agcoord.Resources.States.{is_empty_list, ◌>>?◌}
use agcoord.Resources.States.Sorted.{ascending}
use agcoord.Backends.{run_bindings, bound_to, names, insert_ordered}
use agcoord.Backends.Events.{stage_valid}
use agcoord.Backends.Attach.{binding_at, failure_status}
use agcoord.Backends.Prepare.{reason_code, object_issue, Probed, probe_outcome}
use agcoord.Backends.Requests.{run_bindings-keys}
use agcoord.Backends.Sound.{IsSound}
use agcoord.Backends.Recorded.{append_resource_event-IsSound}
use agcoord.Backends.Keeps.Attached.{failure_status-status_valid}
use agcoord.Backends.Ordered.{
  ascending-all, ascending-append, insert_ordered-ascending, all_entries-insert_ordered,
}

-- The names that a backend will be asked for.
unfoldable pub chosen_valid : Map Binding → String → List String → Bool
chosen_valid contract backend chosen =
    name_valid backend
    && not (is_empty_list chosen)
    && ascending chosen
    && all name_valid chosen
    && all (λ name. bound_to backend (lookup name contract)) chosen

-- They all come before the name.
abbrev all_before : String → Map (List String) → Bool
all_before name eligible = all_entries (λ backend chosen. all (λ c. str_lt c name) chosen) eligible

pub record IsEligible (contract : Map Binding) (rest : List String) (eligible : Map (List String))
    : Type 0 where
  pub ordered : ascending (names eligible) ≡ true
  pub valid : all_entries (chosen_valid contract) eligible ≡ true
  pub before : all (λ name. all_before name eligible) rest ≡ true

issue_literals :
    (code_valid "backend-unavailable" ≡ true)
    × (code_valid "kind-unsupported" ≡ true)
    × (code_valid "unit-unsupported" ≡ true)
    × (code_valid "lifecycle-unsupported" ≡ true)
    × (stage_valid "probe" ≡ true)
unfolding code_valid stage_valid
issue_literals = (refl, refl, refl, refl, refl)

reason_code-code_valid : (reason : Option String) → code_valid (reason_code reason) ≡ true
unfolding reason_code
reason_code-code_valid none = issue_literals.0
reason_code-code_valid (some reason) = ground (arith, issue_literals)

pub object_issue-code_valid :
    (binding : Binding) (capability : Option Fields) {issue : String}
    → object_issue binding capability ≡ some issue
    → code_valid issue ≡ true
unfolding object_issue
object_issue-code_valid binding none {issue} h =
    let e : "backend-unavailable" ≡ issue = ground (arith, h) in rw e at (issue_literals.0)
object_issue-code_valid binding (some capability) {issue} h =
    ground (arith, h, issue_literals, reason_code-code_valid (get "reason" capability >>? as_str))

-- An enforced binding of the contract has a backend, to which the name is bound.
enforced-bound :
    (run : RunRecord) (contract : Map Binding) (name : String)
    → run_bindings run ≡ ok contract
    → is_some (lookup name contract) ≡ true
    → enforced (binding_at contract name) ≡ true
    → (bound_to (get_or (binding_at contract name).backend "") (lookup name contract) ≡ true)
      × (name_valid (get_or (binding_at contract name).backend "") ≡ true)
      × (name_valid name ≡ true)
unfolding bound_to binding_valid backend_fits
enforced-bound run contract name r there e = elim (Option-cases (lookup name contract)) [
  | inl n ↦ absurd (ground (arith, n))
  | inr (binding, l) ↦
      let v : entry_valid name binding ≡ true =
        all_entries-lookup entry_valid name contract (run_bindings-keys run r).0 l in
      elim (Option-cases binding.backend) [
        | inl n ↦ absurd (ground (arith, l, n, v))
        | inr (own, n) ↦ ground (arith, l, n, v, (eq_iff own own).1 refl)
      ]
]

ascending-nil : ascending [] ≡ true
unfolding ascending
ascending-nil = refl

-- What a backend has been given so far.
record IsChosen (contract : Map Binding) (eligible : Map (List String)) (backend : String)
    (old : List String) : Type 0 where
  pub in_order : ascending old ≡ true
  pub named : all name_valid old ≡ true
  pub own : all (λ name. bound_to backend (lookup name contract)) old ≡ true
  pub below :
      (name : String) → all_before name eligible ≡ true → all (λ c. str_lt c name) old ≡ true

lookup-IsChosen :
    (contract : Map Binding) (rest : List String) (eligible : Map (List String)) (backend : String)
    → IsEligible contract rest eligible
    → IsChosen contract eligible backend (get_or (lookup backend eligible) [])
unfolding chosen_valid
lookup-IsChosen contract rest eligible backend i = elim (Option-cases (lookup backend eligible)) [
  | inl n ↦
      rw n (record { in_order = ascending-nil; named = refl; own = refl; below = λ name b. refl })
  | inr (chosen, n) ↦
      let v : chosen_valid contract backend chosen ≡ true =
        all_entries-lookup (chosen_valid contract) backend eligible i.valid n in
      rw n (record {
        in_order = ground (arith, v);
        named = ground (arith, v);
        own = ground (arith, v);
        below =
            λ name b. all_entries-lookup (λ k xs. all (λ c. str_lt c name) xs) backend eligible b n;
      })
]

module _ (run : RunRecord) (contract : Map Binding) (now : String)
    (r : run_bindings run ≡ ok contract) (t : empty_text now ≡ false) where
  -- One name that its backend can enforce, or not.
  pub probe_outcome-IsEligible :
      (name : String) (rest : List String) (issue : Option String) (so_far : Probed)
      → ascending (name ∷ rest) ≡ true
      → is_some (lookup name contract) ≡ true
      → enforced (binding_at contract name) ≡ true
      → ((code : String) → issue ≡ some code → code_valid code ≡ true)
      → IsEligible contract (name ∷ rest) so_far.eligible
      → IsSound run.resources contract so_far.receipt
      → IsEligible contract rest
          (probe_outcome now contract name
            (get_or (binding_at contract name).backend "")
            issue
            so_far).eligible
        × IsSound run.resources contract
            (probe_outcome now contract name
              (get_or (binding_at contract name).backend "")
              issue
              so_far).receipt
  unfolding probe_outcome chosen_valid
  probe_outcome-IsEligible name rest (some code) so_far a there e c i s = (
    record { ordered = i.ordered; valid = i.valid; before = ground (arith, i.before) },
    append_resource_event-IsSound run contract now r t so_far.receipt
        (get_or (binding_at contract name).backend "") name "probe" (failure_status contract name)
        code (enforced-bound run contract name r there e).0 issue_literals.4
        (failure_status-status_valid contract name) (c code refl) s,
  )
  probe_outcome-IsEligible name rest none so_far a there e c i s =
      let backend : String = get_or (binding_at contract name).backend "" in
      let own : (bound_to backend (lookup name contract) ≡ true)
          × (name_valid backend ≡ true)
          × (name_valid name ≡ true) =
        enforced-bound run contract name r there e in
      let old : List String = get_or (lookup backend so_far.eligible) [] in
      let k : IsChosen contract so_far.eligible backend old =
        lookup-IsChosen contract (name ∷ rest) so_far.eligible backend i in
      let in_order : ascending (old ++ name ∷ []) ≡ true =
        ascending-append old name k.in_order (k.below name (ground (arith, i.before))) in
      let extended : Map (List String) =
        insert_ordered backend (old ++ name ∷ []) so_far.eligible in
      (
        record {
          ordered = insert_ordered-ascending backend (old ++ name ∷ []) so_far.eligible i.ordered;
          valid =
              all_entries-insert_ordered (chosen_valid contract) backend (old ++ name ∷ [])
                so_far.eligible
                (ground (
                  arith,
                  in_order,
                  own,
                  k.named,
                  k.own,
                  all-append name_valid old (name ∷ []),
                  all-append (λ n. bound_to backend (lookup n contract)) old (name ∷ []),
                  filled old,
                ))
                i.valid;
          before =
              all_imply (λ n. all_before n so_far.eligible && str_lt name n)
                (λ n. all_before n extended) rest
                (λ n h.
                  all_entries-insert_ordered (λ b xs. all (λ c. str_lt c n) xs) backend
                    (old ++ name ∷ []) so_far.eligible
                    (ground (arith, h, k.below n, all-append (λ c. str_lt c n) old (name ∷ [])))
                    (ground (arith, h)))
                (ground (
                  arith,
                  all-and (λ n. all_before n so_far.eligible) (str_lt name) rest,
                  i.before,
                  ascending-all name rest a,
                ));
        },
        s,
      )
    where
      filled : (xs : List String) → is_empty_list (xs ++ name ∷ []) ≡ false
      filled [] = refl
      filled (x ∷ xs) = refl
