-- ===== src/Gate/Receipt.antt =====
-- A reused gate names a receipt, the newest that meets the conditions.

use agcoord.Base.{
  ℕ, String, ◌≡◌, ◌+◌, ◌≤◌, ◌<◌, ◌⊎◌, inl, inr, refl, sym, ap, Bool, true, false, ◌&&◌, none, some,
  List, [], ◌∷◌, Memᴰ, ltb, eq_iff, Bool-cases, Option-cases, arith,
}
use agcoord.Run.{RunRecord, ok, load_run, is_land, is_running, is_preflight, is_full, is_passed}
use agcoord.Process.{ProcessTable}
use agcoord.Spool.{Spool, update_run}
use agcoord.Gate.{newest, same_command, reusable, ReuseRequest, reuse_row, reuse_gate}
use agcoord.Life.Loaded.{Result-cases}

-- The newest of the rows that match.
pub record IsNewest (matches : RunRecord → Bool) (runs : List RunRecord) (run : RunRecord)
    : Type 0 where
  pub there : Memᴰ run runs
  pub meets : matches run ≡ true
  pub last :
      (other : RunRecord) → Memᴰ other runs → matches other ≡ true → other.sequence ≤ run.sequence

newest-none :
    (matches : RunRecord → Bool) (runs : List RunRecord)
    → newest matches runs ≡ none
    → (other : RunRecord) → Memᴰ other runs
    → matches other ≡ false
unfolding newest
newest-none matches [] h other m = elim m [ ]
newest-none matches (run ∷ runs) h other (Memᴰ.head e) = ground (arith, ap matches e)
newest-none matches (run ∷ runs) h other (Memᴰ.tail m) =
    newest-none matches runs (ground arith) other m

pub newest-IsNewest :
    (matches : RunRecord → Bool) (runs : List RunRecord) {run : RunRecord}
    → newest matches runs ≡ some run
    → IsNewest matches runs run
unfolding newest
newest-IsNewest matches [] h = cc
newest-IsNewest matches (x ∷ runs) {run} h = elim (Option-cases (newest matches runs)) [
  | inl n ↦
      let k : (x ≡ run) × (matches x ≡ true) = ground (arith, n) in
      rw (sym k.0) (record {
        there = Memᴰ.head refl;
        meets = k.1;
        last = λ other m e. elim m [
          | Memᴰ.head i ↦ ground (arith, ap (λ (r : RunRecord). r.sequence) i)
          | Memᴰ.tail t ↦ absurd (ground (arith, newest-none matches runs n other t))
        ];
      })
  | inr (y, n) ↦
      let ih : IsNewest matches runs y = newest-IsNewest matches runs n in
      elim (Bool-cases (matches x && ltb y.sequence x.sequence)) [
        | inl b ↦
            let k : x ≡ run = ground (arith, n, b) in
            rw (sym k) (record {
              there = Memᴰ.head refl;
              meets = ground (arith, b);
              last = λ other m e. elim m [
                | Memᴰ.head i ↦ ground (arith, ap (λ (r : RunRecord). r.sequence) i)
                | Memᴰ.tail t ↦ ground (arith, b, ih.last other t e)
              ];
            })
        | inr b ↦
            let k : y ≡ run = ground (arith, n, b) in
            rw (sym k) (record {
              there = Memᴰ.tail ih.there;
              meets = ih.meets;
              last = λ other m e. elim m [
                | Memᴰ.head i ↦
                    ground (arith, b, ap (λ (r : RunRecord). r.sequence) i, ap matches i)
                | Memᴰ.tail t ↦ ih.last other t e
              ];
            })
      ]
]

-- What a receipt has to be for the land: a passed full run of its repository, worktree and command
-- at the head, that finished within the age.
pub record IsUsable (now max_age : ℕ) (run : RunRecord) (head_sha : String) (gate : RunRecord)
    : Type 0 where
  pub passed_full : (is_full gate.kind ≡ true) × (is_passed gate.status ≡ true)
  pub repository : gate.repository_id ≡ run.repository_id
  pub worktree : gate.worktree_id ≡ run.worktree_id
  pub head : gate.head_sha ≡ some head_sha
  pub command : gate.command ≡ run.command
  pub finished : ℕ
  pub ended : gate.finished_at ≡ some finished
  pub recent : now ≤ finished + max_age

same_command-eq : (xs ys : List String) → same_command xs ys ≡ true → xs ≡ ys
unfolding same_command
same_command-eq [] [] h = refl
same_command-eq [] (y ∷ ys) h = cc
same_command-eq (x ∷ xs) [] h = cc
same_command-eq (x ∷ xs) (y ∷ ys) h =
    ground (arith, h, eq_iff x y, same_command-eq xs ys (ground (arith, h)))

same_command_self : (xs : List String) → same_command xs xs ≡ true
unfolding same_command
same_command_self [] = refl
same_command_self (x ∷ xs) = ground (arith, (eq_iff x x).1 refl, same_command_self xs)

reusable-IsUsable :
    (now max_age : ℕ) (run : RunRecord) (head_sha : String) (gate : RunRecord)
    → reusable now max_age run head_sha gate ≡ true
    → IsUsable now max_age run head_sha gate
unfolding reusable
reusable-IsUsable now max_age run head_sha gate h = elim (Option-cases gate.finished_at) [
  | inl n ↦ absurd (ground (arith, h, n))
  | inr (finished, n) ↦ elim (Option-cases gate.head_sha) [
    | inl k ↦ absurd (ground (arith, h, k))
    | inr (own, k) ↦ record {
      passed_full = ground (arith, h);
      repository = (eq_iff gate.repository_id run.repository_id).0 (ground (arith, h));
      worktree = (eq_iff gate.worktree_id run.worktree_id).0 (ground (arith, h));
      head = ground (arith, h, k, eq_iff own head_sha);
      command = same_command-eq gate.command run.command (ground (arith, h));
      finished = finished;
      ended = n;
      recent = ground (arith, h, n);
    }
  ]
]

IsUsable-reusable :
    (now max_age : ℕ) (run : RunRecord) (head_sha : String) (gate : RunRecord)
    → IsUsable now max_age run head_sha gate
    → reusable now max_age run head_sha gate ≡ true
unfolding reusable
IsUsable-reusable now max_age run head_sha gate u =
    let same : same_command gate.command run.command ≡ true =
      rw u.command (same_command_self run.command) in
    ground (
      arith,
      u.passed_full,
      (eq_iff gate.repository_id run.repository_id).1 u.repository,
      (eq_iff gate.worktree_id run.worktree_id).1 u.worktree,
      u.head,
      (eq_iff head_sha head_sha).1 refl,
      same,
      u.ended,
      u.recent,
    )

-- The gate of a land that is let off by `reuse_gate`: a land in preflight without a verdict, the
-- newest receipt that it may use, and the row that names it.
pub record IsReused (now max_age : ℕ) (request : ReuseRequest) (s s' : Spool) (source : String)
    : Type 0 where
  pub run : RunRecord
  pub gate : RunRecord
  pub loaded : load_run s.runs request.run_id ≡ ok run
  pub landing :
      (is_land run.kind ≡ true) × (is_running run.status ≡ true) × (is_preflight run.phase ≡ true)
  pub undecided : (run.gate_exit_status ≡ none) × (run.cancel_requested ≡ false)
  pub allowed : 0 < max_age
  pub there : Memᴰ gate s.runs
  pub usable : IsUsable now max_age run request.head_sha gate
  pub latest :
      (other : RunRecord)
      → Memᴰ other s.runs
      → IsUsable now max_age run request.head_sha other
      → other.sequence ≤ gate.sequence
  pub named : gate.run_id ≡ source
  pub recorded : s' ≡ update_run (reuse_row source) request.run_id s

-- If `reuse_gate` names a receipt, reuse is not switched off by an age of zero, the row is a running
-- land in preflight with no verdict and no request to stop, the receipt is the newest passed full run
-- of the same repository, worktree, head and command that finished within the age, and the land's row
-- is all that changes.
pub reuse_gate-IsReused :
    (processes : ProcessTable) (now max_age : ℕ) (request : ReuseRequest) (s : Spool) {s' : Spool}
    {source : String}
    → reuse_gate processes now max_age request s ≡ ok (s', some source)
    → IsReused now max_age request s s' source
unfolding reuse_gate
reuse_gate-IsReused processes now max_age request s {s'} {source} h =
    elim (Result-cases (load_run s.runs request.run_id)) [
      | inr (e, l) ↦ absurd (ground (arith, l))
      | inl (run, l) ↦
          elim (Option-cases (newest (reusable now max_age run request.head_sha) s.runs)) [
            | inl n ↦ absurd (ground (arith, l, n))
            | inr (gate, n) ↦
                let g : ((is_land run.kind ≡ true)
                      × (is_running run.status ≡ true)
                      × (is_preflight run.phase ≡ true))
                    × ((run.gate_exit_status ≡ none) × (run.cancel_requested ≡ false))
                    × (gate.run_id ≡ source)
                    × (s' ≡ update_run (reuse_row gate.run_id) request.run_id s)
                    × (0 < max_age) =
                  ground (arith, l, n) in
                let found : IsNewest (reusable now max_age run request.head_sha) s.runs gate =
                  newest-IsNewest (reusable now max_age run request.head_sha) s.runs n in
                record {
                  run = run;
                  gate = gate;
                  loaded = l;
                  landing = g.0;
                  undecided = g.1;
                  allowed = g.4;
                  there = found.there;
                  usable = reusable-IsUsable now max_age run request.head_sha gate found.meets;
                  latest = λ other m u.
                      found.last other m
                        (IsUsable-reusable now max_age run request.head_sha other u);
                  named = g.2;
                  recorded = rw (sym g.2) g.3;
                }
          ]
    ]

-- If `reuse_gate` names no receipt, nothing has changed, and reuse is switched off or no row is a
-- receipt that the land may use.
pub reuse_gate-none :
    (processes : ProcessTable) (now max_age : ℕ) (request : ReuseRequest) (s : Spool) {s' : Spool}
    (run : RunRecord)
    → load_run s.runs request.run_id ≡ ok run
    → reuse_gate processes now max_age request s ≡ ok (s', none)
    → (s' ≡ s)
      × ((max_age ≡ 0)
          ⊎ ((other : RunRecord)
              → Memᴰ other s.runs
              → reusable now max_age run request.head_sha other ≡ false))
unfolding reuse_gate
reuse_gate-none processes now max_age request s {s'} run l h =
    elim (Option-cases (newest (reusable now max_age run request.head_sha) s.runs)) [
      | inl n ↦ (
        ground (arith, l, n),
        inr (newest-none (reusable now max_age run request.head_sha) s.runs n),
      )
      | inr (gate, n) ↦ (ground (arith, l, n), inl (ground (arith, l, n)))
    ]
