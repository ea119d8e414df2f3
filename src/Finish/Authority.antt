-- ===== src/Finish/Authority.antt =====
-- Publication and the request to stop it exclude each other.
use agcoord.Base.{
  ℕ, String, ◌≡◌, ◌≢◌, inl, inr, refl, ap, true, false, List, [], ◌∷◌, str_eq, or_else, All-mem,
  Bool-cases, arith,
}
use agcoord.Run.{
  RunRecord, ok, err, load_run, run_row, is_running, is_terminal, is_land, is_publishing, is_queued,
  publication_authoritative,
}
use agcoord.Process.{ProcessTable}
use agcoord.Spool.{Spool, update_runs, update_run}
use agcoord.Land.{PhaseRequest, advance_land_phase, advance_row}
use agcoord.Finish.{
  Verdict, cancel, cancelled_row, marked_row, authoritative, finish_run, finish_row, final_verdict,
}
use agcoord.Life.Row.{IsOrderly}
use agcoord.Life.Loaded.{Result-cases, load_run-mem}
use agcoord.Life.Invariant.{IsWell}

-- The row that an update by ID leaves.
pub load_run-update_run :
    (change : RunRecord → RunRecord) (run_id : String) (s : Spool) {run : RunRecord}
    → ((r : RunRecord) → (change r).run_id ≡ r.run_id)
    → load_run s.runs run_id ≡ ok run
    → load_run (update_run change run_id s).runs run_id ≡ ok (change run)
unfolding update_run load_run run_row update_runs
load_run-update_run change run_id s same h = go s.runs h
  where
    go :
        (runs : List RunRecord) {run : RunRecord}
        → load_run runs run_id ≡ ok run
        → load_run (update_runs change (λ r. str_eq r.run_id run_id) runs) run_id ≡ ok (change run)
    go [] h = cc
    go (x ∷ runs) {run} h = elim (Bool-cases (str_eq x.run_id run_id)) [
      | inl e ↦ let i : x ≡ run = ground (arith, e) in ground (arith, e, same x, ap change i)
      | inr e ↦ ground (arith, e, go runs {run = run} (ground (arith, e)))
    ]

-- After a cancel that succeeded no land phase of that run can be advanced.
pub advance_land_phase-cancel :
    (processes : ProcessTable) (now : ℕ) (request : PhaseRequest) (s : Spool) {s' s'' : Spool}
    → cancel now request.run_id s ≡ ok s'
    → advance_land_phase processes request s' ≢ ok s''
unfolding cancel advance_land_phase is_terminal
advance_land_phase-cancel processes now request s {s'} {s''} c a =
    elim (Result-cases (load_run s.runs request.run_id)) [
      | inr (e, l) ↦ ground (arith, l)
      | inl (run, l) ↦ elim (Bool-cases (is_queued run.status)) [
        | inl q ↦
            let e : s' ≡ update_run (cancelled_row now) request.run_id s = ground (arith, l, q) in
            let k : load_run s'.runs request.run_id ≡ ok (cancelled_row now run) =
              rw e (load_run-update_run (cancelled_row now) request.run_id s (λ r. refl) l) in
            ground (arith, k)
        | inr q ↦
            let e : s' ≡ update_run marked_row request.run_id s = ground (arith, l, q) in
            let k : load_run s'.runs request.run_id ≡ ok (marked_row run) =
              rw e (load_run-update_run marked_row request.run_id s (λ r. refl) l) in
            ground (arith, k)
      ]
    ]

-- Once a land has advanced to publishing, a request to cancel it is refused as coming too late.
pub cancel-advance_land_phase :
    (processes : ProcessTable) (now : ℕ) (request : PhaseRequest) (s : Spool) {s' : Spool}
    → is_publishing request.phase ≡ true
    → advance_land_phase processes request s ≡ ok s'
    → cancel now request.run_id s' ≡ err publication_authoritative
unfolding cancel advance_land_phase advance_row authoritative is_terminal
cancel-advance_land_phase processes now request s {s'} p a =
    elim (Result-cases (load_run s.runs request.run_id)) [
      | inr (e, l) ↦ absurd (ground (arith, l))
      | inl (run, l) ↦
          let row : RunRecord → RunRecord =
            advance_row request (or_else request.gate_exit_status run.gate_exit_status) in
          let e : (s' ≡ update_run row request.run_id s)
              × (is_land run.kind ≡ true)
              × (is_running run.status ≡ true) =
            ground (arith, l) in
          let k : load_run s'.runs request.run_id ≡ ok (row run) =
            rw e.0 (load_run-update_run row request.run_id s (λ r. refl) l) in
          ground (arith, k, e, p)
    ]

-- In a spool in good order the outcome of an authoritative publication is recorded as it was
-- observed: no request to stop replaces it.
pub finish_run-authoritative :
    (now : ℕ) (run : RunRecord) (verdict : Verdict) (s : Spool) {s' : Spool} (current : RunRecord)
    → IsWell s.runs
    → load_run s.runs run.run_id ≡ ok current
    → authoritative current ≡ true
    → finish_run now run verdict s ≡ ok s'
    → load_run s'.runs run.run_id ≡ ok (finish_row now verdict current)
unfolding finish_run final_verdict
finish_run-authoritative now run verdict s {s'} current w l a h =
    let running : is_running current.status ≡ true = ground (arith, l) in
    let kept : current.cancel_requested ≡ false =
      (All-mem (λ r. IsOrderly r) s.runs w.rows (load_run-mem s.runs run.run_id l).0).kept
        (ground (arith, running, a)) in
    let e : s' ≡ update_run (finish_row now verdict) run.run_id s = ground (arith, l, kept) in
    rw e (load_run-update_run (finish_row now verdict) run.run_id s (λ r. refl) l)
