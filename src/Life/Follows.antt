-- ===== src/Life/Follows.antt =====
-- A later record of a run, and that every move makes one.
use agcoord.Base.{
  ℕ, ◌≡◌, ◌≤◌, refl, Bool, true, Option, none, some, ℤ, is_some, same_int, int_eq_iff, arith,
}
use agcoord.Run.{
  RunRecord, Phase, waiting, executing, preflight, gating, publishing, complete, is_terminal,
}
use agcoord.Schedule.{started}
use agcoord.Land.{advance_row, transition_valid}
use agcoord.Finish.{interruptible, authoritative}
use agcoord.Life.{Move}
use agcoord.Life.Row.{IsOrderly}

-- The place of a phase in a run's life.
abbrev pub stage : Phase → ℕ
stage waiting = 0
stage executing = 1
stage preflight = 1
stage gating = 2
stage publishing = 3
stage complete = 4

-- `r'` is a later record of the run `r`.
pub record Follows (r r' : RunRecord) : Type 0 where
  -- What the run is and claims stays.
  pub run_id : r'.run_id ≡ r.run_id
  pub kind : r'.kind ≡ r.kind
  pub repository_id : r'.repository_id ≡ r.repository_id
  pub worktree_id : r'.worktree_id ≡ r.worktree_id
  pub resources : r'.resources ≡ r.resources
  pub command : r'.command ≡ r.command
  -- The phase never goes back.
  pub onward : stage r.phase ≤ stage r'.phase
  -- A terminal record is final.
  pub final : is_terminal r.status ≡ true → r' ≡ r
  -- A gate's verdict, a reported result and a request to stop are never taken back.
  pub gate : is_some r.gate_exit_status ≡ true → r'.gate_exit_status ≡ r.gate_exit_status
  pub result :
      is_some r.reported_exit_status ≡ true → r'.reported_exit_status ≡ r.reported_exit_status
  pub asked : r.cancel_requested ≡ true → r'.cancel_requested ≡ true

pub Follows-refl : (r : RunRecord) → Follows r r
Follows-refl r = record {
  run_id = refl;
  kind = refl;
  repository_id = refl;
  worktree_id = refl;
  resources = refl;
  command = refl;
  onward = omega arith;
  final = λ e. refl;
  gate = λ e. refl;
  result = λ e. refl;
  asked = λ e. e;
}

same_int-eq : (a b : Option ℤ) → same_int a b ≡ true → a ≡ b
same_int-eq none none h = refl
same_int-eq none (some b) h = cc
same_int-eq (some a) none h = cc
same_int-eq (some a) (some b) h = ground (arith, int_eq_iff a b)

pub move-Follows : {b : Bool} {r r' : RunRecord} → IsOrderly r → Move r b r' → Follows r r'
unfolding started is_terminal transition_valid advance_row authoritative interruptible
move-Follows {r} h (Move.admit now q) = record {
  run_id = refl;
  kind = refl;
  repository_id = refl;
  worktree_id = refl;
  resources = refl;
  command = refl;
  onward = ground (arith, q, h.fresh q);
  final = λ e. absurd (ground (arith, q, h.fresh q));
  gate = λ e. ground (arith, q, h.fresh q);
  result = λ e. ground (arith, q, h.fresh q);
  asked = λ e. ground (arith, q, h.fresh q);
}
move-Follows {r} h (Move.identify pid token q) = record {
  run_id = refl;
  kind = refl;
  repository_id = refl;
  worktree_id = refl;
  resources = refl;
  command = refl;
  onward = ground (arith, q);
  final = λ e. absurd (ground (arith, q));
  gate = λ e. ground (arith, q);
  result = λ e. ground (arith, q);
  asked = λ e. ground (arith, q);
}
move-Follows {r} h (Move.advance request l q c v) = record {
  run_id = refl;
  kind = refl;
  repository_id = refl;
  worktree_id = refl;
  resources = refl;
  command = refl;
  onward = ground (arith, l, q, c, v);
  final = λ e. absurd (ground (arith, l, q, c, v));
  gate = λ e. ground (arith, v, same_int-eq r.gate_exit_status request.gate_exit_status);
  result = λ e. ground (arith, l, q, c, v);
  asked = λ e. ground (arith, l, q, c, v);
}
move-Follows {r} h (Move.reuse source l q p g) = record {
  run_id = refl;
  kind = refl;
  repository_id = refl;
  worktree_id = refl;
  resources = refl;
  command = refl;
  onward = ground (arith, l, q, p, g);
  final = λ e. absurd (ground (arith, l, q, p, g));
  gate = λ e. ground (arith, l, q, p, g);
  result = λ e. ground (arith, l, q, p, g);
  asked = λ e. ground (arith, l, q, p, g);
}
move-Follows {r} h (Move.report exit_status l q n) = record {
  run_id = refl;
  kind = refl;
  repository_id = refl;
  worktree_id = refl;
  resources = refl;
  command = refl;
  onward = ground (arith, l, q, n);
  final = λ e. absurd (ground (arith, l, q, n));
  gate = λ e. ground (arith, l, q, n);
  result = λ e. ground (arith, l, q, n);
  asked = λ e. ground (arith, l, q, n);
}
move-Follows {r} h (Move.finish now verdict q v) = record {
  run_id = refl;
  kind = refl;
  repository_id = refl;
  worktree_id = refl;
  resources = refl;
  command = refl;
  onward = ground (arith, q, v);
  final = λ e. absurd (ground (arith, q, v));
  gate = λ e. ground (arith, q, v);
  result = λ e. ground (arith, q, v);
  asked = λ e. ground (arith, q, v);
}
move-Follows {r} h (Move.withdraw now q) = record {
  run_id = refl;
  kind = refl;
  repository_id = refl;
  worktree_id = refl;
  resources = refl;
  command = refl;
  onward = ground (arith, q);
  final = λ e. absurd (ground (arith, q));
  gate = λ e. ground (arith, q);
  result = λ e. ground (arith, q);
  asked = λ e. ground (arith, q);
}
move-Follows {r} h (Move.mark q a) = record {
  run_id = refl;
  kind = refl;
  repository_id = refl;
  worktree_id = refl;
  resources = refl;
  command = refl;
  onward = ground (arith, q, a);
  final = λ e. absurd (ground (arith, q, a));
  gate = λ e. ground (arith, q, a);
  result = λ e. ground (arith, q, a);
  asked = λ e. ground (arith, q, a);
}
move-Follows {r} h (Move.stop i) = record {
  run_id = refl;
  kind = refl;
  repository_id = refl;
  worktree_id = refl;
  resources = refl;
  command = refl;
  onward = ground (arith, i);
  final = λ e. absurd (ground (arith, i));
  gate = λ e. ground (arith, i);
  result = λ e. ground (arith, i);
  asked = λ e. ground (arith, i);
}
