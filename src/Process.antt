-- ===== src/Process.antt =====
-- platform.rs: the process table and what the broker concludes from it. `/proc` enters as one finite
-- snapshot for each operation.
pub mod Descent
use agcoord.Base.{
  ℕ, zero, suc, ◌+◌, String, Bool, true, false, not, ◌&&◌, ◌||◌, Option, none, some, List, [], ◌∷◌,
  ltb, ◌==◌, str_eq, any, length, if◌then◌else◌,
}

-- What `process_identity` reads of one process: state, parent, process group and start token.
pub record Process : Type 0 where
  pub state : String
  pub parent : ℕ
  pub group : ℕ
  pub token : String

abbrev pub ProcessTable : Type 0
ProcessTable = List (ℕ × Process)

unfoldable pub process_identity : ProcessTable → ℕ → Option Process
process_identity [] pid = none
process_identity ((p, process) ∷ table) pid =
    if p == pid then some process else process_identity table pid

-- `matches!(state, "Z" | "X")`
unfoldable pub is_dead : Process → Bool
is_dead process = str_eq process.state "Z" || str_eq process.state "X"

proven : String → Option Process → Bool
unfolding is_dead
proven token none = false
proven token (some process) = not (is_dead process) && str_eq process.token token

unfoldable pub same_process : ProcessTable → ℕ → String → Bool
unfolding proven
same_process table pid token = proven token (process_identity table pid)

child_of : ProcessTable → String → ℕ → String → Option Process → Bool
unfolding is_dead same_process
child_of table token parent_pid parent_token none = false
child_of table token parent_pid parent_token (some process) =
    if is_dead process || not (str_eq process.token token) || not (process.parent == parent_pid)
    then false
    else same_process table parent_pid parent_token

unfoldable pub direct_child_of : ProcessTable → ℕ → String → ℕ → String → Bool
unfolding child_of
direct_child_of table pid token parent_pid parent_token =
    child_of table token parent_pid parent_token (process_identity table pid)

leads_group : ℕ → String → Option Process → Bool
unfolding is_dead
leads_group pid token none = false
leads_group pid token (some process) =
    not (is_dead process) && process.group == pid && str_eq process.token token

unfoldable pub same_worker_process : ProcessTable → Option ℕ → Option String → Bool
unfolding leads_group
same_worker_process table (some pid) (some token) =
    leads_group pid token (process_identity table pid)
same_worker_process table _ _ = false

differs : ℕ → String → Option Process → Bool
differs pid token none = false
differs pid token (some process) = not (process.group == pid) || not (str_eq process.token token)

unfoldable pub worker_identity_conflicts : ProcessTable → Option ℕ → Option String → Bool
unfolding differs
worker_identity_conflicts table (some pid) (some token) =
    differs pid token (process_identity table pid)
worker_identity_conflicts table _ _ = false

-- What one round of the loop in `is_descendant_process` decides: an answer, or the next process.
pub data Round : Type 0 where
  answer : Bool → Round
  climb : ℕ → String → Round

to_parent : ℕ → Option Process → Round
to_parent parent none = answer false
to_parent parent (some process) = climb parent process.token

judge : ProcessTable → ℕ → String → ℕ → String → Option Process → Round
unfolding is_dead to_parent
judge table current expected ancestor ancestor_token none = answer false
judge table current expected ancestor ancestor_token (some process) =
    if is_dead process || not (str_eq process.token expected)
    then answer false
    else if current == ancestor
    then answer (str_eq process.token ancestor_token)
    else to_parent process.parent (process_identity table process.parent)

unfoldable pub round : ProcessTable → ℕ → String → List ℕ → ℕ → String → Round
unfolding judge
round table ancestor ancestor_token visited current expected =
    if ltb 0 current && not (any (λ p. p == current) visited)
    then judge table current expected ancestor ancestor_token (process_identity table current)
    else answer false

-- The loop on fuel; Process/Descent shows that one round for each process is enough.
unfoldable pub descends : ℕ → ProcessTable → ℕ → String → List ℕ → ℕ → String → Bool
descends zero table ancestor ancestor_token visited current expected = false
descends (suc fuel) table ancestor ancestor_token visited current expected =
    elim (round table ancestor ancestor_token visited current expected) [
      | answer b ↦ b
      | climb parent token ↦
          descends fuel table ancestor ancestor_token (current ∷ visited) parent token
    ]

unfoldable pub is_descendant_process : ProcessTable → ℕ → String → ℕ → String → Bool
unfolding descends
is_descendant_process table pid token ancestor_pid ancestor_token =
    descends (suc (length table)) table ancestor_pid ancestor_token [] pid token
