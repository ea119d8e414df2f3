-- ===== src/Backends/Keeps/Readied.antt =====
-- broker.rs `prepare_worker_setup` on a coherent row: the block for the quota, and the whole.
use agcoord.Base.{
  String, ◌≡◌, ◌∙◌, ◌⊎◌, inl, inr, refl, Bool, true, false, not, ◌||◌, Option, none, some, [], ◌∷◌,
  Map, lookup, remove_key, lookup-remove_key, remove_key-Distinct, all_entries-remove_key, all, any,
  eq_iff, is_some, subst, all_entries, if◌then◌else◌, arith, Bool-cases,
}
use agcoord.Run.{RunRecord, Binding, BackendState, Receipt, Result, ok, err, row_invalid}
use agcoord.Text.{empty_text}
use agcoord.Resources.{is_required}
use agcoord.Resources.States.Stored.{state_valid}
use agcoord.Rows.{states_match, run_from_row}
use agcoord.Rows.Coherent.{IsCoherent, IsCoherent-run_from_row, run_from_row-IsCoherent}
use agcoord.Backends.{
  Request, Outcome, done, fault, Backends, run_bindings, bound_to, request_of, cgroup_name,
  project_quota_name,
}
use agcoord.Backends.Events.{append_events}
use agcoord.Backends.Lifecycle.{Work, with_work, cleanup_resource_records}
use agcoord.Backends.Attach.{binding_at, failure_status}
use agcoord.Backends.Scratch.{
  Scratch, Ready, quota_answer, prepare_quota, prepare_worker_setup, cleanup_failed,
}
use agcoord.Backends.Requests.{request_of-ok}
use agcoord.Backends.Sound.{IsSound}
use agcoord.Backends.Recorded.{append_events-IsSound}
use agcoord.Backends.Laws.{
  Coded, IsBroker, backend_unavailable-code_valid, AreOwn, IsSound-save, IsSound-IsCoherent,
  IsCoherent-IsSound, IsCoherent-AreOwn,
}
use agcoord.Backends.Keeps.{cleanup_each-ok}
use agcoord.Backends.Keeps.Attached.{failure_status-status_valid}
use agcoord.Backends.Keeps.Scratched.{
  IsScratch, holds_scratch, attach-stage_valid, lookup-AreOwn, IsReady, prepare_tmpfs-TmpfsAnswer,
}

module _ (contract : Map Binding) where
  remove_key-AreOwn :
      (key : String) (state : Map BackendState)
      → AreOwn contract state
      → AreOwn contract (remove_key key state)
  unfolding states_match
  remove_key-AreOwn key state a = record {
    distinct = remove_key-Distinct key state a.distinct;
    states = all_entries-remove_key state_valid key state a.states;
    matched =
        all_entries-remove_key
          (λ name other. all (λ n. bound_to name (lookup n contract)) other.resources) key state
          a.matched;
  }

  one-AreOwn :
      (backend : String) (own : BackendState)
      → state_valid backend own ≡ true
      → all (λ name. bound_to backend (lookup name contract)) own.resources ≡ true
      → AreOwn contract ((backend, own) ∷ [])
  unfolding states_match all_entries lookup
  one-AreOwn backend own v m = record {
    distinct = (refl, tt);
    states = ground arith;
    matched = ground arith;
  }

IsReady-loads :
    (run : RunRecord) (contract : Map Binding)
    → IsCoherent run contract
    → (so_far : Ready) → IsReady run contract so_far
    → run_from_row so_far.row ≡ ok so_far.row
IsReady-loads run contract c so_far i = rw (i.row) (
    IsCoherent-run_from_row (with_work run i.work) contract
      (IsSound-IsCoherent run contract i.work c.columns c.bound i.sound i.own))

go_on : (ready : Bool) (x y : Result Ready) → ready ≡ true → (if ready then x else y) ≡ x
go_on ready x y e = rw e refl

-- A setup has a quota's path just when the row has its state.
abbrev pub HasPath : Ready → Type 0
HasPath so_far =
    (so_far.ready ≡ false)
    ⊎ (is_some so_far.setup.project_quota
        ≡ is_some (lookup project_quota_name so_far.row.resource_state))

module _ (broker : Backends) (laws : IsBroker broker) (now : String) (t : empty_text now ≡ false)
    (contract : Map Binding) (run : RunRecord) (c : IsCoherent run contract) where
  -- What is known after the block for the quota.
  abbrev QuotaAnswer : Result Ready → Type 0
  QuotaAnswer answered =
      (after : Ready) × (answered ≡ ok after) × IsReady run contract after × HasPath after

  quota_answer-QuotaAnswer :
      (own : BackendState) (so_far : Ready) (result : Outcome String)
      → lookup project_quota_name run.resource_state ≡ some own
      → Coded result
      → IsReady run contract so_far
      → so_far.setup.project_quota ≡ none
      → so_far.row.resource_state ≡ run.resource_state
      → QuotaAnswer (quota_answer now broker run own so_far result)
  unfolding quota_answer cleanup_resource_records
  quota_answer-QuotaAnswer own so_far (done path) l k i n e = (
    _,
    refl,
    record { work = i.work; row = i.row; sound = i.sound; own = i.own },
    inr (rw (e, l) refl),
  )
  quota_answer-QuotaAnswer own so_far (fault code) l k i n e =
      let v : _
          × (all (λ name. bound_to project_quota_name (lookup name contract)) own.resources ≡ true)
          × (state_valid project_quota_name own ≡ true) =
        lookup-AreOwn contract run.resource_state project_quota_name
          (IsCoherent-AreOwn run contract c) l in
      let cleaned : (receipt : Receipt) × _ × IsSound run.resources contract receipt =
        cleanup_each-ok broker laws now t contract run ((project_quota_name, own) ∷ [])
          (append_events now run.resource_receipt project_quota_name own.resources "attach"
            (failure_status contract) code)
          c.bound (one-AreOwn contract project_quota_name own v.2 v.1)
          (append_events-IsSound run contract now c.bound t project_quota_name own.resources
            "attach" (failure_status contract) code run.resource_receipt v.1 attach-stage_valid
            (failure_status-status_valid contract) k (IsCoherent-IsSound run contract c)) in
      let work : Work = record {
        receipt = cleaned.0;
        state = remove_key project_quota_name run.resource_state;
      } in
      let gone : lookup project_quota_name work.state ≡ none = ground (
        arith,
        lookup-remove_key project_quota_name project_quota_name run.resource_state,
        (eq_iff project_quota_name project_quota_name).1 refl,
      ) in
      (
        record so_far {
          row = with_work run work;
          ready = not (
              any (λ name. is_required (binding_at contract name)) own.resources
              || cleanup_failed cleaned.0);
        },
        rw (c.bound, cleaned.1, IsSound-save run contract work c.columns cleaned.2) refl,
        record {
          work = work;
          row = refl;
          sound = cleaned.2;
          own =
              remove_key-AreOwn contract project_quota_name run.resource_state
                (IsCoherent-AreOwn run contract c);
        },
        inr (rw (n, gone) refl),
      )

  prepare_quota-QuotaAnswer :
      (scratch : Scratch) (so_far : Ready) (o : Option BackendState)
      → IsScratch scratch
      → lookup project_quota_name run.resource_state ≡ o
      → IsReady run contract so_far
      → so_far.setup.project_quota ≡ none
      → so_far.row.resource_state ≡ run.resource_state
      → QuotaAnswer (prepare_quota now broker scratch run so_far o)
  unfolding prepare_quota
  prepare_quota-QuotaAnswer scratch so_far none k l i n e =
      (so_far, refl, i, inr (rw (e, l, n) refl))
  prepare_quota-QuotaAnswer scratch so_far (some own) k l i n e =
      let v : _
          × (all (λ name. bound_to project_quota_name (lookup name contract)) own.resources ≡ true)
          × _ =
        lookup-AreOwn contract run.resource_state project_quota_name
          (IsCoherent-AreOwn run contract c) l in
      let made : (request : Request) × (request_of project_quota_name run own.resources
            ≡ ok request)
          × _ =
        request_of-ok run contract project_quota_name own.resources c.bound v.0 v.1 in
      let coded : Coded (
          if is_some broker.project_quota_backend
          then scratch.scratch_path made.0 own.handle
          else fault "backend-unavailable") =
        answer_of (is_some broker.project_quota_backend) (scratch.scratch_path made.0 own.handle)
          (k.paths made.0 own.handle) in
      rw (made.1) (quota_answer-QuotaAnswer own so_far _ l coded i n e)
    where
      answer_of :
          (there : Bool) (result : Outcome String)
          → Coded result
          → Coded (if there then result else fault "backend-unavailable")
      answer_of true result k = k
      answer_of false result k = backend_unavailable-code_valid

-- On a row that can be loaded, if the backends keep their laws and the cgroup's backend is there for
-- its state, `prepare_worker_setup` refuses the row only if the cgroup holds no scratch binding.
-- Otherwise it succeeds and leaves a row that can be loaded, and a run that goes on is given a
-- quota's path just when the row still has the quota's state.
pub prepare_worker_setup-loads :
    (broker : Backends) (scratch : Scratch) (now : String) (row : RunRecord) {run : RunRecord}
    (contract : Map Binding)
    → IsBroker broker
    → IsScratch scratch
    → empty_text now ≡ false
    → run_from_row row ≡ ok run
    → run_bindings run ≡ ok contract
    → (is_some (lookup cgroup_name run.resource_state) ≡ true
        → is_some broker.cgroup_backend ≡ true)
    → ((prepare_worker_setup now broker scratch run ≡ err row_invalid)
        × (holds_scratch contract (lookup cgroup_name run.resource_state) ≡ false))
      ⊎ ((after : Ready) × (prepare_worker_setup now broker scratch run ≡ ok after)
          × (run_from_row after.row ≡ ok after.row)
          × HasPath after)
unfolding prepare_worker_setup
prepare_worker_setup-loads broker scratch now row {run} contract laws k t h r there =
    let found : (own : Map Binding) × IsCoherent run own = run_from_row-IsCoherent row h in
    let same : found.0 ≡ contract = ground (arith, found.1.bound, r) in
    let c : IsCoherent run contract = subst (λ own. IsCoherent run own) same found.1 in
    elim (prepare_tmpfs-TmpfsAnswer broker laws now t contract run c scratch
      (lookup cgroup_name run.resource_state) k refl there) [
        | inl (q, n) ↦ inl (rw q refl, n)
        | inr (so_far, q, i, n, e) ↦ inr (elim (Bool-cases so_far.ready) [
          | inr f ↦ (so_far, rw (q, f) refl, IsReady-loads run contract c so_far i, inl f)
          | inl g ↦
              let a : (after : Ready) × (prepare_quota now broker scratch run so_far
                      (lookup project_quota_name run.resource_state)
                    ≡ ok after)
                  × IsReady run contract after
                  × HasPath after =
                prepare_quota-QuotaAnswer broker laws now t contract run c scratch so_far
                  (lookup project_quota_name run.resource_state) k refl i n e in
              (
                a.0,
                rw q (go_on so_far.ready _ _ g ∙ a.1),
                IsReady-loads run contract c a.0 a.2,
                a.3,
              )
        ])
      ]
