-- ===== src/Backends/Keeps/Scratched.antt =====
-- broker.rs `prepare_worker_setup` on a coherent row: the block for the cgroup.
use agcoord.Base.{
  String, ◌≡◌, ◌⊎◌, inl, inr, refl, Bool, true, false, not, Option, none, some, List, [], ◌∷◌, Map,
  lookup, all, any, filter, is_some, all_entries-lookup, arith, Bool-cases,
}
use agcoord.Run.{RunRecord, Binding, BackendState, Result, ok, err, row_invalid}
use agcoord.Text.{empty_text}
use agcoord.Json.{Value}
use agcoord.Resources.{is_required}
use agcoord.Resources.States.Sorted.{ascending}
use agcoord.Resources.States.Stored.{state_valid}
use agcoord.Rows.{states_match}
use agcoord.Rows.Coherent.{IsCoherent}
use agcoord.Backends.{Request, Outcome, done, fault, Backends, bound_to, request_of, cgroup_name}
use agcoord.Backends.Events.{append_events, stage_valid}
use agcoord.Backends.Lifecycle.{Work, work_of, with_work}
use agcoord.Backends.Attach.{binding_at, failure_status, is_scratch}
use agcoord.Backends.Setup.{TmpfsSetup, WorkerSetup, is_filled}
use agcoord.Backends.Scratch.{Scratch, Ready, no_setup, tmpfs_answer, prepare_tmpfs}
use agcoord.Backends.Requests.{request_of-ok}
use agcoord.Backends.Sound.{IsSound}
use agcoord.Backends.Recorded.{append_events-IsSound}
use agcoord.Backends.Laws.{
  Coded, IsBroker, AreOwn, IsSound-save, IsCoherent-IsSound, IsCoherent-AreOwn,
}
use agcoord.Backends.Keeps.Attached.{failure_status-status_valid}

-- The codes of the two calls can stand in a receipt.
pub record IsScratch (scratch : Scratch) : Type 0 where
  pub mounts : (request : Request) (handle : Value) → Coded (scratch.tmpfs_setup request handle)
  pub paths : (request : Request) (handle : Value) → Coded (scratch.scratch_path request handle)

-- The cgroup holds a scratch binding.
unfoldable pub holds_scratch : Map Binding → Option BackendState → Bool
holds_scratch contract none = false
holds_scratch contract (some own) = any (is_scratch contract) own.resources

pub attach-stage_valid : stage_valid "attach" ≡ true
unfolding stage_valid
attach-stage_valid = refl

all-filter : (p q : String → Bool) (xs : List String) → all p xs ≡ true → all p (filter q xs) ≡ true
all-filter p q [] h = refl
all-filter p q (x ∷ xs) h = ground (arith, h, all-filter p q xs)

is_filled-filter : (p : String → Bool) (xs : List String) → is_filled (filter p xs) ≡ any p xs
is_filled-filter p [] = refl
is_filled-filter p (x ∷ xs) = ground (arith, is_filled-filter p xs)

module _ (contract : Map Binding) where
  pub lookup-AreOwn :
      (state : Map BackendState) (backend : String) {own : BackendState}
      → AreOwn contract state
      → lookup backend state ≡ some own
      → (ascending own.resources ≡ true)
        × (all (λ name. bound_to backend (lookup name contract)) own.resources ≡ true)
        × (state_valid backend own ≡ true)
  unfolding state_valid states_match
  lookup-AreOwn state backend {own} a l =
      let v : state_valid backend own ≡ true =
        all_entries-lookup state_valid backend state a.states l in
      let m : all (λ name. bound_to backend (lookup name contract)) own.resources ≡ true =
        all_entries-lookup
          (λ key other. all (λ n. bound_to key (lookup n contract)) other.resources) backend state
          a.matched l in
      (ground (arith, v), m, v)

-- What a block leaves of the run.
pub record IsReady (run : RunRecord) (contract : Map Binding) (so_far : Ready) : Type 0 where
  pub work : Work
  pub row : so_far.row ≡ with_work run work
  pub sound : IsSound run.resources contract work.receipt
  pub own : AreOwn contract work.state

module _ (broker : Backends) (laws : IsBroker broker) (now : String) (t : empty_text now ≡ false)
    (contract : Map Binding) (run : RunRecord) (c : IsCoherent run contract) where
  given-IsReady :
      (setup : WorkerSetup)
      → IsReady run contract (record { row = run; setup = setup; ready = true })
  given-IsReady setup = record {
    work = work_of run;
    row = refl;
    sound = IsCoherent-IsSound run contract c;
    own = IsCoherent-AreOwn run contract c;
  }

  -- What the block for the cgroup answers.
  abbrev pub TmpfsAnswer : Bool → Result Ready → Type 0
  TmpfsAnswer scratch answered =
      ((answered ≡ err row_invalid) × (scratch ≡ false))
      ⊎ ((so_far : Ready) × (answered ≡ ok so_far)
          × IsReady run contract so_far
          × (so_far.setup.project_quota ≡ none)
          × (so_far.row.resource_state ≡ run.resource_state))

  tmpfs_answer-TmpfsAnswer :
      (chosen : List String) (result : Outcome (Option TmpfsSetup))
      → all (λ name. bound_to cgroup_name (lookup name contract)) chosen ≡ true
      → Coded result
      → TmpfsAnswer (any (is_scratch contract) chosen) (tmpfs_answer now run chosen result)
  unfolding tmpfs_answer
  tmpfs_answer-TmpfsAnswer chosen (done tmpfs) b k = inr (_, refl, given-IsReady _, refl, refl)
  tmpfs_answer-TmpfsAnswer chosen (fault code) b k =
      elim (Bool-cases (any (is_scratch contract) chosen)) [
        | inr n ↦ inl (rw (c.bound, is_filled-filter (is_scratch contract) chosen, n) refl, n)
        | inl n ↦
            let affected : List String = filter (is_scratch contract) chosen in
            let work : Work = record {
              receipt =
                  append_events now run.resource_receipt cgroup_name affected "attach"
                    (failure_status contract) code;
              state = run.resource_state;
            } in
            let s : IsSound run.resources contract work.receipt =
              append_events-IsSound run contract now c.bound t cgroup_name affected "attach"
                (failure_status contract) code run.resource_receipt
                (all-filter (λ name. bound_to cgroup_name (lookup name contract))
                  (is_scratch contract) chosen b)
                attach-stage_valid (failure_status-status_valid contract) k
                (IsCoherent-IsSound run contract c) in
            inr (
              record {
                row = with_work run work;
                setup = no_setup;
                ready = not (any (λ name. is_required (binding_at contract name)) affected);
              },
              rw
                  (
                    c.bound,
                    is_filled-filter (is_scratch contract) chosen,
                    n,
                    IsSound-save run contract work c.columns s,
                  )
                  refl,
              record { work = work; row = refl; sound = s; own = IsCoherent-AreOwn run contract c },
              refl,
              refl,
            )
      ]

  pub prepare_tmpfs-TmpfsAnswer :
      (scratch : Scratch) (o : Option BackendState)
      → IsScratch scratch
      → lookup cgroup_name run.resource_state ≡ o
      → (is_some o ≡ true → is_some broker.cgroup_backend ≡ true)
      → TmpfsAnswer (holds_scratch contract o) (prepare_tmpfs now broker scratch run o)
  unfolding prepare_tmpfs holds_scratch
  prepare_tmpfs-TmpfsAnswer scratch none k l there =
      inr (_, refl, given-IsReady no_setup, refl, refl)
  prepare_tmpfs-TmpfsAnswer scratch (some own) k l there =
      let v : _
          × (all (λ name. bound_to cgroup_name (lookup name contract)) own.resources ≡ true)
          × _ =
        lookup-AreOwn contract run.resource_state cgroup_name (IsCoherent-AreOwn run contract c)
          l in
      let made : (request : Request) × (request_of cgroup_name run own.resources ≡ ok request) × _ =
        request_of-ok run contract cgroup_name own.resources c.bound v.0 v.1 in
      rw (made.1, there refl)
        (tmpfs_answer-TmpfsAnswer own.resources (scratch.tmpfs_setup made.0 own.handle) v.1
          (k.mounts made.0 own.handle))
