-- ===== src/Merge.antt =====
-- store.rs `submit`: the gate that a merge names, or the newest receipt that it may take.
use agcoord.Base.{
  ℕ, zero, suc, ◌+◌, ◌*◌, ◌-◌, ◌^◌, String, Bool, true, false, not, ◌&&◌, Option, none, some, List,
  [], ◌∷◌, ℤ, pos, negsuc, ltb, leb, ◌==◌, str_eq, codes, is_int, or_else, if◌then◌else◌,
}
use agcoord.Run.{
  RunRecord, Result, ok, err, ◌>>=◌, ◌>>◌, refuse_if, is_full, is_merge, is_passed, load_run,
  schema_invalid, gate_required, stale_gate_verdict, gate_mismatch,
}
use agcoord.Spool.{Spool, metadata}
use agcoord.Gate.{newest}
use agcoord.Submit.{SubmitRequest}

decimal : ℕ → List ℕ → Option ℕ
decimal n [] = some n
decimal n (c ∷ cs) =
    let rest = decimal (n * 10 + (c - b'0')) cs in if leb b'0' c && leb c b'9' then rest else none

digits : List ℕ → Option ℕ
unfolding decimal
digits [] = none
digits (c ∷ cs) = decimal 0 (c ∷ cs)

positive : Option ℕ → Option ℤ
positive none = none
positive (some n) = if ltb n (2 ^ 63) then some (pos n) else none

negative : Option ℕ → Option ℤ
negative none = none
negative (some zero) = some (pos 0)
negative (some (suc n)) = if ltb n (2 ^ 63) then some (negsuc n) else none

-- `str::parse::<i64>`
unfoldable pub parse_int : List ℕ → Option ℤ
unfolding digits positive negative
parse_int [] = none
parse_int (c ∷ cs) =
    if c == b'-'
    then negative (digits cs)
    else if c == b'+'
    then positive (digits cs)
    else positive (digits (c ∷ cs))

unfoldable pub floor_of : Option String → Result ℤ
floor_of none = err schema_invalid
floor_of (some value) = elim (parse_int (codes value)) [
  | none ↦ err schema_invalid
  | some floor ↦ ok floor
]

-- `sequence < floor`
unfoldable pub below : ℕ → ℤ → Bool
below sequence (pos floor) = ltb sequence floor
below sequence (negsuc floor) = false

-- Equality of two heads, and the SQL test on them, which a missing head never meets.
unfoldable pub same_head : Option String → Option String → Bool
same_head none none = true
same_head (some a) (some b) = str_eq a b
same_head _ _ = false

known_head : Option String → Option String → Bool
known_head (some a) (some b) = str_eq a b
known_head _ _ = false

-- The WHERE clause of the receipt that a merge takes.
unfoldable pub receipt_matches : SubmitRequest → ℤ → RunRecord → Bool
unfolding known_head
receipt_matches request floor gate =
    is_full gate.kind
    && is_passed gate.status
    && is_int gate.exit_status (pos 0)
    && str_eq gate.repository_id request.repository_id
    && str_eq gate.branch request.branch
    && known_head gate.head_sha request.head_sha
    && not (below gate.sequence floor)

-- The receipt that a merge needs, whoever named it.
unfoldable pub gate_matches : SubmitRequest → RunRecord → Bool
unfolding same_head
gate_matches request gate =
    is_full gate.kind
    && is_passed gate.status
    && is_int gate.exit_status (pos 0)
    && str_eq gate.repository_id request.repository_id
    && str_eq gate.branch request.branch
    && same_head gate.head_sha request.head_sha

unfoldable pub run_id_of : Option RunRecord → Option String
run_id_of none = none
run_id_of (some run) = some run.run_id

unfoldable pub named_gate : Option String → Result String
named_gate none = err gate_required
named_gate (some run_id) = ok run_id

unfoldable pub select_gate : SubmitRequest → Spool → Result (Option String)
unfolding floor_of run_id_of named_gate
select_gate request spool =
    if not (is_merge request.kind)
    then ok request.gate_run_id
    else floor_of (metadata "native_gate_floor" spool) >>= λ floor.
        named_gate (
          or_else request.gate_run_id
            (run_id_of (newest (receipt_matches request floor) spool.runs)))
        >>= λ gate_run_id. load_run spool.runs gate_run_id >>= λ gate.
            refuse_if (below gate.sequence floor) stale_gate_verdict
            >> refuse_if (not (gate_matches request gate)) gate_mismatch
            >> ok (some gate_run_id)
