-- ===== src/Process/Descent.antt =====
-- The walk up the process tree in `is_descendant_process`: its fuel, and what a found ancestor means.
use agcoord.Base.{
  ℕ, zero, suc, ◌+◌, String, ◌≡◌, inl, inr, refl, Bool, true, false, not, Option, none, some, List,
  [], ◌∷◌, ◌==◌, eq_iff, any, length, if◌then◌else◌, Option-cases, arith,
}
use agcoord.Process.{
  Process, ProcessTable, process_identity, is_dead, Round, answer, climb, judge, to_parent, round,
  descends, is_descendant_process,
}

-- The processes of the table that the walk has not met.
abbrev unmet : List ℕ → ℕ → Bool
unmet visited p = not (any (λ q. q == p) visited)

unvisited : ProcessTable → List ℕ → ℕ
unvisited [] visited = 0
unvisited ((p, process) ∷ table) visited =
    (if unmet visited p then 1 else 0) + unvisited table visited

-- A process of the table that is alive and has the token.
pub record IsLive (table : ProcessTable) (pid : ℕ) (token : String) : Type 0 where
  pub process : Process
  pub known : process_identity table pid ≡ some process
  pub alive : is_dead process ≡ false
  pub proven : process.token ≡ token

-- Live processes, each the parent of the one before, up to the ancestor.
pub data Descends (table : ProcessTable) (ancestor : ℕ) (ancestor_token : String)
    : ℕ → String → Type 0 where
  self :
      {pid : ℕ} {token : String}
      → IsLive table pid token
      → pid ≡ ancestor
      → token ≡ ancestor_token
      → Descends table ancestor ancestor_token pid token
  child :
      {pid : ℕ} {token : String} {parent_token : String}
      → (live : IsLive table pid token)
      → Descends table ancestor ancestor_token live.process.parent parent_token
      → Descends table ancestor ancestor_token pid token

round_answer :
    (table : ProcessTable) (ancestor : ℕ) (ancestor_token : String) (visited : List ℕ) (current : ℕ)
    (expected : String)
    → round table ancestor ancestor_token visited current expected ≡ answer true
    → (live : IsLive table current expected) × (current ≡ ancestor) × (expected ≡ ancestor_token)
unfolding round judge to_parent
round_answer table ancestor ancestor_token visited current expected h =
    go (process_identity table current) refl
  where
    go :
        (o : Option Process)
        → process_identity table current ≡ o
        → (live : IsLive table current expected) × (current ≡ ancestor)
          × (expected ≡ ancestor_token)
    go none e = absurd (ground arith)
    go (some process) e =
        let found : (is_dead process ≡ false)
            × (process.token ≡ expected)
            × (current ≡ ancestor)
            × (expected ≡ ancestor_token) =
          ground (arith, eq_iff process.token expected, eq_iff process.token ancestor_token) in
        (
          record { process = process; known = e; alive = found.0; proven = found.1 },
          found.2,
          found.3,
        )

round_climb :
    (table : ProcessTable) (ancestor : ℕ) (ancestor_token : String) (visited : List ℕ) (current : ℕ)
    (expected : String) {parent : ℕ} {token : String}
    → round table ancestor ancestor_token visited current expected ≡ climb parent token
    → (live : IsLive table current expected) × (live.process.parent ≡ parent)
unfolding round judge to_parent
round_climb table ancestor ancestor_token visited current expected {parent} {token} h =
    go (process_identity table current) refl
  where
    go :
        (o : Option Process)
        → process_identity table current ≡ o
        → (live : IsLive table current expected) × (live.process.parent ≡ parent)
    go none e = absurd (ground arith)
    go (some process) e = elim (Option-cases (process_identity table process.parent)) [
      | inl n ↦ absurd (ground arith)
      | inr (p, n) ↦
          let found : (is_dead process ≡ false)
              × (process.token ≡ expected)
              × (process.parent ≡ parent) =
            ground (arith, eq_iff process.token expected) in
          (record { process = process; known = e; alive = found.0; proven = found.1 }, found.2)
    ]

descends-Descends :
    (fuel : ℕ) (table : ProcessTable) (ancestor : ℕ) (ancestor_token : String) (visited : List ℕ)
    (current : ℕ) (expected : String)
    → descends fuel table ancestor ancestor_token visited current expected ≡ true
    → Descends table ancestor ancestor_token current expected
unfolding descends
descends-Descends zero table a t v c e h = absurd (cc)
descends-Descends (suc fuel) table a t v c e h =
    go (λ parent token. descends-Descends fuel table a t (c ∷ v) parent token)
      (round table a t v c e) refl
  where
    go :
        ((parent : ℕ) (token : String)
          → descends fuel table a t (c ∷ v) parent token ≡ true
          → Descends table a t parent token)
        → (r : Round) → round table a t v c e ≡ r
        → Descends table a t c e
    go ih (answer false) i = absurd (ground arith)
    go ih (answer true) i =
        let found : (live : IsLive table c e) × (c ≡ a) × (e ≡ t) =
          round_answer table a t v c e i in
        self found.0 found.1 found.2
    go ih (climb parent token) i =
        let found : (live : IsLive table c e) × (live.process.parent ≡ parent) =
          round_climb table a t v c e i in
        child {parent_token = token} found.0 (rw found.1 (ih parent token (ground arith)))

-- `is_descendant_process` answers yes only for a live process with the given token from which a
-- chain of live parents leads to the ancestor with its token.
pub is_descendant_process-Descends :
    (table : ProcessTable) (pid : ℕ) (token : String) (ancestor : ℕ) (ancestor_token : String)
    → is_descendant_process table pid token ancestor ancestor_token ≡ true
    → Descends table ancestor ancestor_token pid token
unfolding is_descendant_process
is_descendant_process-Descends table pid token ancestor ancestor_token h =
    descends-Descends (suc (length table)) table ancestor ancestor_token [] pid token h
