-- ===== src/Life/Moves.antt =====
-- Each update that an operation commits moves the row that it has loaded.
use agcoord.Base.{
  ℕ, String, ◌≡◌, ◌⊎◌, inl, inr, true, false, ◌&&◌, Option, none, str_eq, or_else, All-of,
  Bool-cases, Option-cases, arith,
}
use agcoord.Run.{RunRecord, ok, load_run, is_queued, is_running, is_land, is_preflight, is_terminal}
use agcoord.Process.{ProcessTable}
use agcoord.Schedule.{started}
use agcoord.Spool.{Spool, update_runs, update_run}
use agcoord.Land.{PhaseRequest, advance_land_phase, transition_valid, advance_row}
use agcoord.Gate.{
  ReuseRequest, LandResultRequest, reuse_gate, reuse_row, report_land_result, report_row, newest,
  reusable,
}
use agcoord.Finish.{
  Verdict, admit_run, commit_identity, identity_row, finish_run, finish_row, final_verdict, cancel,
  cancelled_row, marked_row, authoritative, request_interruption, interruptible, stopped_row,
}
use agcoord.Life.{Move, Change, same, moved}
use agcoord.Life.Loaded.{UniqueRuns, Result-cases, update_run-Change}

module _ (s : Spool) (u : UniqueRuns s.runs) where
  pub advance-Change :
      (processes : ProcessTable) (request : PhaseRequest) {s' : Spool}
      → advance_land_phase processes request s ≡ ok s'
      → Change false s.runs s'.runs
  unfolding advance_land_phase
  advance-Change processes request {s'} h = elim (Result-cases (load_run s.runs request.run_id)) [
    | inr (e, l) ↦ absurd (ground (arith, l))
    | inl (run, l) ↦
        let row : RunRecord → RunRecord =
          advance_row request (or_else request.gate_exit_status run.gate_exit_status) in
        let g : (is_land run.kind ≡ true)
            × (is_running run.status ≡ true)
            × (run.cancel_requested ≡ false)
            × (transition_valid run request ≡ true)
            × (s' ≡ update_run row request.run_id s) =
          ground (arith, l) in
        rw g.4 (update_run-Change row request.run_id s u l (Move.advance request g.0 g.1 g.2 g.3))
  ]

  pub reuse-Change :
      (processes : ProcessTable) (now max_age : ℕ) (request : ReuseRequest) (source : Option String)
      {s' : Spool}
      → reuse_gate processes now max_age request s ≡ ok (s', source)
      → Change false s.runs s'.runs
  unfolding reuse_gate
  reuse-Change processes now max_age request source {s'} h =
      elim (Result-cases (load_run s.runs request.run_id)) [
        | inr (e, l) ↦ absurd (ground (arith, l))
        | inl (run, l) ↦
            elim (Option-cases (newest (reusable now max_age run request.head_sha) s.runs)) [
              | inl n ↦ let g : s' ≡ s = ground (arith, l, n) in rw g same
              | inr (gate, n) ↦
                  let g : (is_land run.kind ≡ true)
                      × (is_running run.status ≡ true)
                      × (is_preflight run.phase ≡ true)
                      × (run.gate_exit_status ≡ none)
                      × ((s' ≡ s) ⊎ (s' ≡ update_run (reuse_row gate.run_id) request.run_id s)) =
                    ground (arith, l, n) in
                  elim g.4 [
                    | inl e ↦ rw e same
                    | inr e ↦ rw e (
                        update_run-Change (reuse_row gate.run_id) request.run_id s u l
                          (Move.reuse gate.run_id g.0 g.1 g.2 g.3))
                  ]
            ]
      ]

  pub report-Change :
      (processes : ProcessTable) (request : LandResultRequest) {s' : Spool}
      → report_land_result processes request s ≡ ok s'
      → Change false s.runs s'.runs
  unfolding report_land_result
  report-Change processes request {s'} h = elim (Result-cases (load_run s.runs request.run_id)) [
    | inr (e, l) ↦ absurd (ground (arith, l))
    | inl (run, l) ↦
        let g : (is_land run.kind ≡ true)
            × (is_running run.status ≡ true)
            × (run.reported_exit_status ≡ none)
            × (s' ≡ update_run (report_row request.exit_status) request.run_id s) =
          ground (arith, l) in
        rw g.3 (
          update_run-Change (report_row request.exit_status) request.run_id s u l
            (Move.report request.exit_status g.0 g.1 g.2))
  ]

  pub identify-Change :
      (pid : ℕ) (token run_id : String) {s' : Spool}
      → commit_identity pid token run_id s ≡ ok s'
      → Change false s.runs s'.runs
  unfolding commit_identity
  identify-Change pid token run_id {s'} h = elim (Result-cases (load_run s.runs run_id)) [
    | inr (e, l) ↦ absurd (ground (arith, l))
    | inl (run, l) ↦
        let g : (is_running run.status ≡ true)
            × (s' ≡ update_run (identity_row pid token) run_id s) =
          ground (arith, l) in
        rw g.1
          (update_run-Change (identity_row pid token) run_id s u l (Move.identify pid token g.0))
  ]

  pub finish-Change :
      (now : ℕ) (run : RunRecord) (verdict : Verdict) {s' : Spool}
      → is_terminal verdict.status ≡ true
      → finish_run now run verdict s ≡ ok s'
      → Change false s.runs s'.runs
  unfolding finish_run
  finish-Change now run verdict {s'} v h = elim (Result-cases (load_run s.runs run.run_id)) [
    | inr (e, l) ↦ absurd (ground (arith, l))
    | inl (current, l) ↦
        let row : RunRecord → RunRecord = finish_row now (final_verdict current verdict) in
        let g : (is_running current.status ≡ true) × (s' ≡ update_run row run.run_id s) =
          ground (arith, l) in
        rw g.1 (update_run-Change row run.run_id s u l (Move.finish now verdict g.0 v))
  ]

  pub cancel-Change :
      (now : ℕ) (run_id : String) {s' : Spool}
      → cancel now run_id s ≡ ok s'
      → Change false s.runs s'.runs
  unfolding cancel is_terminal
  cancel-Change now run_id {s'} h = elim (Result-cases (load_run s.runs run_id)) [
    | inr (e, l) ↦ absurd (ground (arith, l))
    | inl (run, l) ↦ elim (Bool-cases (is_queued run.status)) [
      | inl q ↦
          let g : s' ≡ update_run (cancelled_row now) run_id s = ground (arith, l, q) in
          rw g (update_run-Change (cancelled_row now) run_id s u l (Move.withdraw now q))
      | inr q ↦
          let g : (is_running run.status ≡ true)
              × (authoritative run ≡ false)
              × (s' ≡ update_run marked_row run_id s) =
            ground (arith, l, q) in
          rw g.2 (update_run-Change marked_row run_id s u l (Move.mark g.0 g.1))
    ]
  ]

  pub interrupt-Change : Change false s.runs (request_interruption s).runs
  unfolding request_interruption
  interrupt-Change = moved stopped_row interruptible (All-of _ s.runs λ r n k. Move.stop k)

  pub admit-Change :
      (now : ℕ) (run_id : String) {s' : Spool}
      → admit_run now run_id s ≡ ok s'
      → Change true s.runs s'.runs
  unfolding admit_run
  admit-Change now run_id {s'} h = elim (Result-cases (load_run s.runs run_id)) [
    | inr (e, l) ↦ absurd (ground (arith, l))
    | inl (run, l) ↦ elim (Bool-cases (is_queued run.status)) [
      | inr q ↦ let g : s' ≡ s = ground (arith, l, q) in rw g same
      | inl q ↦
          let g : s'.runs
              ≡ update_runs (started now) (λ r. str_eq r.run_id run_id && is_queued r.status)
                  s.runs =
            ground (arith, l, q) in
          rw g (
            moved (started now) (λ r. str_eq r.run_id run_id && is_queued r.status)
              (All-of _ s.runs λ r n k. Move.admit now (ground (arith, k))))
    ]
  ]
