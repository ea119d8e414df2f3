-- ===== src/Life/Row.antt =====
-- What a row of the spool looks like in each stage of its life, and that the moves keep it so.
use agcoord.Base.{Bool, ◌≡◌, true, false, ◌&&◌, ◌||◌, none, some, pos, is_int-eq, or_else, arith}
use agcoord.Run.{
  RunRecord, is_queued, is_running, is_terminal, is_land, is_publication, is_waiting_phase,
  is_preflight, is_gating, is_publishing, is_complete,
}
use agcoord.Schedule.{started}
use agcoord.Land.{transition_valid, advance_row}
use agcoord.Finish.{authoritative, interruptible, final_verdict, requested_stop_outcome}
use agcoord.Life.{Move, admit, identify, advance, reuse, report, finish, withdraw, mark, stop}

pub record IsOrderly (r : RunRecord) : Type 0 where
  -- Publications are the barriers.
  pub barriers : r.barrier ≡ is_publication r.kind
  -- A queued run has been asked nothing yet.
  pub fresh :
      is_queued r.status ≡ true
      → (r.cancel_requested ≡ false)
        × (r.gate_exit_status ≡ none)
        × (is_waiting_phase r.phase ≡ true)
  -- A run is complete when it is terminal, and only then.
  pub done : is_complete r.phase ≡ is_terminal r.status
  -- Only a land goes through the phases.
  pub phases :
      is_preflight r.phase || is_gating r.phase || is_publishing r.phase ≡ true
      → (is_land r.kind ≡ true) × (is_running r.status ≡ true)
  -- Before its gate a land has no verdict.
  pub ungated : is_preflight r.phase ≡ true → r.gate_exit_status ≡ none
  -- Publication begins only behind a gate that passed.
  pub gated : is_publishing r.phase ≡ true → r.gate_exit_status ≡ some (pos 0)
  -- Once authoritative, a publication is never asked to stop.
  pub kept : is_running r.status && authoritative r ≡ true → r.cancel_requested ≡ false
  -- Every other run leaves the queue's phase when it starts.
  pub left : is_waiting_phase r.phase ≡ is_queued r.status

pub move-IsOrderly : {b : Bool} {r r' : RunRecord} → IsOrderly r → Move r b r' → IsOrderly r'
unfolding started is_terminal transition_valid advance_row authoritative interruptible final_verdict
    requested_stop_outcome
move-IsOrderly {r} h (admit now q) = record {
  barriers = h.barriers;
  fresh = λ e. ground (arith, q, h.fresh q);
  done = ground (arith, q, h.fresh q);
  phases = λ e. ground (arith, q, h.fresh q);
  ungated = λ e. ground (arith, q, h.fresh q);
  gated = λ e. ground (arith, q, h.fresh q);
  kept = λ e. ground (arith, q, h.fresh q);
  left = ground (arith, q, h.fresh q);
}
move-IsOrderly {r} h (identify pid token q) = record {
  barriers = h.barriers;
  fresh = λ e. absurd (ground arith);
  done = h.done;
  phases = h.phases;
  ungated = h.ungated;
  gated = h.gated;
  kept = h.kept;
  left = h.left;
}
move-IsOrderly {r} h (advance request l q c v) = record {
  barriers = h.barriers;
  fresh = λ e. ground (
    arith,
    l,
    q,
    c,
    v,
    h.done,
    is_int-eq (or_else request.gate_exit_status r.gate_exit_status) (pos 0),
  );
  done = ground (
    arith,
    l,
    q,
    c,
    v,
    h.done,
    is_int-eq (or_else request.gate_exit_status r.gate_exit_status) (pos 0),
  );
  phases = λ e. ground (
    arith,
    l,
    q,
    c,
    v,
    h.done,
    is_int-eq (or_else request.gate_exit_status r.gate_exit_status) (pos 0),
  );
  ungated = λ e. ground (
    arith,
    l,
    q,
    c,
    v,
    h.done,
    is_int-eq (or_else request.gate_exit_status r.gate_exit_status) (pos 0),
  );
  gated = λ e. ground (
    arith,
    l,
    q,
    c,
    v,
    h.done,
    is_int-eq (or_else request.gate_exit_status r.gate_exit_status) (pos 0),
  );
  kept = λ e. ground (
    arith,
    l,
    q,
    c,
    v,
    h.done,
    is_int-eq (or_else request.gate_exit_status r.gate_exit_status) (pos 0),
  );
  left = ground (
    arith,
    l,
    q,
    c,
    v,
    h.done,
    is_int-eq (or_else request.gate_exit_status r.gate_exit_status) (pos 0),
  );
}
move-IsOrderly {r} h (reuse source l q p g) = record {
  barriers = h.barriers;
  fresh = λ e. ground (arith, l, q, p, h.done, h.kept);
  done = ground (arith, l, q, p, h.done, h.kept);
  phases = λ e. ground (arith, l, q, p, h.done, h.kept);
  ungated = λ e. ground (arith, l, q, p, h.done, h.kept);
  gated = λ e. ground (arith, l, q, p, h.done, h.kept);
  kept = λ e. ground (arith, l, q, p, h.done, h.kept);
  left = ground (arith, l, q, p, h.done, h.kept);
}
move-IsOrderly {r} h (report exit_status l q n) = record {
  barriers = h.barriers;
  fresh = λ e. absurd (ground arith);
  done = h.done;
  phases = h.phases;
  ungated = h.ungated;
  gated = h.gated;
  kept = h.kept;
  left = h.left;
}
move-IsOrderly {r} h (finish now verdict q v) = record {
  barriers = h.barriers;
  fresh = λ e. ground (arith, q, v);
  done = ground (arith, q, v);
  phases = λ e. ground (arith, q, v);
  ungated = λ e. ground (arith, q, v);
  gated = λ e. ground (arith, q, v);
  kept = λ e. ground (arith, q, v);
  left = ground (arith, q, v);
}
move-IsOrderly {r} h (withdraw now q) = record {
  barriers = h.barriers;
  fresh = λ e. ground (arith, q);
  done = ground (arith, q);
  phases = λ e. ground (arith, q);
  ungated = λ e. ground (arith, q);
  gated = λ e. ground (arith, q);
  kept = λ e. ground (arith, q);
  left = ground (arith, q);
}
move-IsOrderly {r} h (mark q a) = record {
  barriers = h.barriers;
  fresh = λ e. absurd (ground arith);
  done = h.done;
  phases = h.phases;
  ungated = h.ungated;
  gated = h.gated;
  kept = λ e. ground (arith, q, a);
  left = h.left;
}
move-IsOrderly {r} h (stop i) = record {
  barriers = h.barriers;
  fresh = λ e. absurd (ground arith);
  done = h.done;
  phases = h.phases;
  ungated = h.ungated;
  gated = h.gated;
  kept = λ e. ground (arith, i);
  left = h.left;
}
