-- ===== src/Enqueue/Receipts.antt =====
-- A merge is queued only behind the receipt of a passed full gate.

use agcoord.Base.{
  ℕ, String, ◌≡◌, inl, inr, refl, sym, ap, true, false, Option, none, some, [], ◌∷◌, ◌++◌, ℤ, pos,
  is_int, is_int-eq, Memᴰ, Map, str_eq, eq_iff, or_else, ◌∙◌, arith,
}
use agcoord.Run.{RunRecord, Binding, ok, load_run, is_merge, is_full, is_passed}
use agcoord.Spool.{Spool, metadata}
use agcoord.Submit.{OwnerInfo, Files, SubmitRequest}
use agcoord.Enqueue.{submit, request_row}
use agcoord.Merge.{
  select_gate, gate_matches, floor_of, named_gate, run_id_of, receipt_matches, same_head, below,
}
use agcoord.Gate.{newest}
use agcoord.Life.Loaded.{Result-cases, load_run-mem}
use agcoord.Life.Steps.{Submission, submit-Submission}

-- A receipt for a merge: a passed full run of its repository, branch and head, of the generation
-- that the floor begins.
pub record IsReceipt (request : SubmitRequest) (s : Spool) (gate : RunRecord) : Type 0 where
  pub floor : ℤ
  pub generation : floor_of (metadata "native_gate_floor" s) ≡ ok floor
  pub there : Memᴰ gate s.runs
  pub passed_full :
      (is_full gate.kind ≡ true)
      × (is_passed gate.status ≡ true)
      × (gate.exit_status ≡ some (pos 0))
  pub repository : gate.repository_id ≡ request.repository_id
  pub branch : gate.branch ≡ request.branch
  pub head : gate.head_sha ≡ request.head_sha
  pub current : below gate.sequence floor ≡ false

same_head-eq : (a b : Option String) → same_head a b ≡ true → a ≡ b
unfolding same_head
same_head-eq none none h = refl
same_head-eq none (some b) h = cc
same_head-eq (some a) none h = cc
same_head-eq (some a) (some b) h = ground (arith, eq_iff a b)

select_gate-IsReceipt :
    (request : SubmitRequest) (s : Spool) {chosen : Option String}
    → is_merge request.kind ≡ true
    → select_gate request s ≡ ok chosen
    → (gate : RunRecord) × IsReceipt request s gate × (chosen ≡ some gate.run_id)
unfolding select_gate gate_matches
select_gate-IsReceipt request s {chosen} k h =
    elim (Result-cases (floor_of (metadata "native_gate_floor" s))) [
      | inr (e, f) ↦ absurd (ground (arith, f))
      | inl (floor, f) ↦
          elim (Result-cases (
            named_gate (
              or_else request.gate_run_id
                (run_id_of (newest (receipt_matches request floor) s.runs))))) [
                  | inr (e, n) ↦ absurd (ground (arith, f, n))
                  | inl (name, n) ↦ elim (Result-cases (load_run s.runs name)) [
                    | inr (e, l) ↦ absurd (ground (arith, f, n, l))
                    | inl (gate, l) ↦
                        let g : ((is_full gate.kind ≡ true)
                              × (is_passed gate.status ≡ true)
                              × (is_int gate.exit_status (pos 0) ≡ true))
                            × (str_eq gate.repository_id request.repository_id ≡ true)
                            × (str_eq gate.branch request.branch ≡ true)
                            × (same_head gate.head_sha request.head_sha ≡ true)
                            × (below gate.sequence floor ≡ false)
                            × (chosen ≡ some name) =
                          ground (arith, f, n, l) in
                        (
                          gate,
                          record {
                            floor = floor;
                            generation = f;
                            there = (load_run-mem s.runs name l).0;
                            passed_full = (g.0.0, g.0.1, is_int-eq gate.exit_status (pos 0) g.0.2);
                            repository = (eq_iff gate.repository_id request.repository_id).0 g.1;
                            branch = (eq_iff gate.branch request.branch).0 g.2;
                            head = same_head-eq gate.head_sha request.head_sha g.3;
                            current = g.4;
                          },
                          g.5
                              ∙ ap some (
                                  sym ((eq_iff gate.run_id name).0 (load_run-mem s.runs name l).1)),
                        )
                  ]
                ]
    ]

-- If `submit` accepts a merge, its row is appended to the rows and names, as its gate, one of them
-- that is a passed full run with exit status zero of the same repository, branch and head, and not
-- older than the gate floor.
pub submit-IsReceipt :
    (files : Files) (owner : OwnerInfo) (now : ℕ) (request : SubmitRequest) (s : Spool) {s' : Spool}
    → is_merge request.kind ≡ true
    → submit files owner now request s ≡ ok s'
    → (gate : RunRecord) × IsReceipt request s gate
      × (contract : Map Binding) × (s'.runs
          ≡ s.runs ++ request_row now request (some gate.run_id) contract s.next_sequence ∷ [])
submit-IsReceipt files owner now request s k h =
    let made : Submission files owner now request s _ =
      submit-Submission files owner now request s h in
    let g : (gate : RunRecord) × IsReceipt request s gate × (made.gate_run_id ≡ some gate.run_id) =
      select_gate-IsReceipt request s k made.selected in
    (
      g.0,
      g.1,
      made.contract,
      made.inserted
          ∙ ap
              (λ chosen.
                s.runs ++ request_row now request chosen made.contract s.next_sequence ∷ [])
              g.2,
    )
