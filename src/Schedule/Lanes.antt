-- ===== src/Schedule/Lanes.antt =====
-- broker.rs `next_admissible`: which of the queued runs is chosen.

use agcoord.Base.{
  ℕ, String, ◌≡◌, ◌≢◌, refl, ap, sym, ◌⊎◌, inl, inr, Bool, true, false, Option, none, some, List,
  [], ◌∷◌, ◌++◌, Memᴰ, All, Map, str_eq, eq_iff, arith, any, mem-cons_cases, Bool-cases,
}
use agcoord.Run.{RunRecord}
use agcoord.Schedule.{blocked_by, admissible, is_nil, lane_heads, next_admissible}
use agcoord.Schedule.Rotate.{rotate-mem, mem-rotate, first-mem, first-none}

-- `run` is the first of the queue's admissible runs in its repository.
pub record IsHead (capacities : Map ℕ) (active queue : List RunRecord) (rest : List RunRecord)
    (run : RunRecord) : Type 0 where
  pub before : List RunRecord
  pub after : List RunRecord
  pub place : rest ≡ before ++ run ∷ after
  pub passed :
      All
        (λ b.
          str_eq b.repository_id run.repository_id ≡ true
          → admissible capacities active queue b ≡ false)
        before
  pub free : admissible capacities active queue run ≡ true

module _ (capacities : Map ℕ) (active queue : List RunRecord) where
  abbrev heads : List String → List RunRecord → List RunRecord
  heads seen rest = lane_heads capacities active queue seen rest

  abbrev free : RunRecord → Bool
  free run = admissible capacities active queue run

  IsHead-cons :
      (x : RunRecord) {rest : List RunRecord} {run : RunRecord}
      → (str_eq x.repository_id run.repository_id ≡ true → free x ≡ false)
      → IsHead capacities active queue rest run
      → IsHead capacities active queue (x ∷ rest) run
  IsHead-cons x blocked h = record {
    before = x ∷ h.before;
    after = h.after;
    place = ap (◌∷◌ x) h.place;
    passed = (blocked, h.passed);
    free = h.free;
  }

  heads-IsHead :
      (seen : List String) (rest : List RunRecord) {run : RunRecord}
      → Memᴰ run (heads seen rest)
      → IsHead capacities active queue rest run × (any (str_eq run.repository_id) seen ≡ false)
  unfolding lane_heads
  heads-IsHead seen [] m = elim m [ ]
  heads-IsHead seen (x ∷ rest) {run} m = elim (Bool-cases (any (str_eq x.repository_id) seen)) [
    | inl e ↦ skipped e (heads-IsHead seen rest (rw e at m))
    | inr e ↦ elim (Bool-cases (free x)) [
      | inl a ↦ elim (mem-cons_cases (rw (e, a) at m)) [
        | inl i ↦ (chosen i a, rw i e)
        | inr n ↦ taken (heads-IsHead (x.repository_id ∷ seen) rest n)
      ]
      | inr a ↦ blocked a (heads-IsHead seen rest (rw (e, a) at m))
    ]
  ]
    where
      skipped :
          any (str_eq x.repository_id) seen ≡ true
          → IsHead capacities active queue rest run × (any (str_eq run.repository_id) seen ≡ false)
          → IsHead capacities active queue (x ∷ rest) run
            × (any (str_eq run.repository_id) seen ≡ false)
      skipped e (h, u) = (
        IsHead-cons x
            (λ s. absurd (
              ground (
                arith,
                ap (λ r. any (str_eq r) seen) ((eq_iff x.repository_id run.repository_id).0 s),
              )))
            h,
        u,
      )

      chosen : run ≡ x → free x ≡ true → IsHead capacities active queue (x ∷ rest) run
      chosen i a = record {
        before = [];
        after = rest;
        place = ap (λ r. r ∷ rest) (sym i);
        passed = tt;
        free = rw i a;
      }

      taken :
          IsHead capacities active queue rest run
            × (any (str_eq run.repository_id) (x.repository_id ∷ seen) ≡ false)
          → IsHead capacities active queue (x ∷ rest) run
            × (any (str_eq run.repository_id) seen ≡ false)
      taken (h, u) = (
        IsHead-cons x
            (λ s. absurd (
              ground (
                arith,
                eq_iff x.repository_id run.repository_id,
                eq_iff run.repository_id x.repository_id,
              )))
            h,
        ground arith,
      )

      blocked :
          free x ≡ false
          → IsHead capacities active queue rest run × (any (str_eq run.repository_id) seen ≡ false)
          → IsHead capacities active queue (x ∷ rest) run
            × (any (str_eq run.repository_id) seen ≡ false)
      blocked a (h, u) = (IsHead-cons x (λ s. a) h, u)

  pub heads_complete :
      (seen : List String) (rest : List RunRecord) {run : RunRecord}
      → Memᴰ run rest
      → free run ≡ true
      → any (str_eq run.repository_id) seen ≡ false
      → (h : RunRecord) × Memᴰ h (heads seen rest)
        × (str_eq h.repository_id run.repository_id ≡ true)
  unfolding lane_heads
  heads_complete seen [] m f u = elim m [ ]
  heads_complete seen (x ∷ rest) {run} m f u =
      elim (Bool-cases (any (str_eq x.repository_id) seen)) [
        | inl e ↦ rw e (heads_complete seen rest (later (inl e)) f u)
        | inr e ↦ elim (Bool-cases (free x)) [
          | inl a ↦ elim (Bool-cases (str_eq x.repository_id run.repository_id)) [
            | inl s ↦ rw (e, a) (x, Memᴰ.head refl, s)
            | inr s ↦
                rw (e, a)
                  (deeper (
                    heads_complete (x.repository_id ∷ seen) rest (later (inr (inl s))) f (
                      ground (
                        arith,
                        eq_iff x.repository_id run.repository_id,
                        eq_iff run.repository_id x.repository_id,
                      ))))
          ]
          | inr a ↦ rw (e, a) (heads_complete seen rest (later (inr (inr a))) f u)
        ]
      ]
    where
      same : run ≡ x → run.repository_id ≡ x.repository_id
      same i = ap (λ (r : RunRecord). r.repository_id) i

      not_run :
          (any (str_eq x.repository_id) seen ≡ true)
            ⊎ ((str_eq x.repository_id run.repository_id ≡ false) ⊎ (free x ≡ false))
          → run ≡ x
          → ⊥
      not_run (inl e) i = cc (ap (λ r. any (str_eq r) seen) (same i))
      not_run (inr (inl s)) i = ground (arith, eq_iff x.repository_id run.repository_id, same i)
      not_run (inr (inr a)) i = cc (ap (λ r. free r) i)

      later :
          (any (str_eq x.repository_id) seen ≡ true)
            ⊎ ((str_eq x.repository_id run.repository_id ≡ false) ⊎ (free x ≡ false))
          → Memᴰ run rest
      later why = elim (mem-cons_cases m) [ inl i ↦ absurd (not_run why i) | inr n ↦ n ]

      deeper :
          (h : RunRecord) × Memᴰ h (heads (x.repository_id ∷ seen) rest)
            × (str_eq h.repository_id run.repository_id ≡ true)
          → (h : RunRecord) × Memᴰ h (x ∷ heads (x.repository_id ∷ seen) rest)
            × (str_eq h.repository_id run.repository_id ≡ true)
      deeper (h, n, s) = (h, Memᴰ.tail n, s)

pub admissible-blocked_by :
    (capacities : Map ℕ) (active queue : List RunRecord) (run : RunRecord)
    → admissible capacities active queue run ≡ true
    → blocked_by run active queue capacities ≡ []
unfolding admissible is_nil
admissible-blocked_by capacities active queue run h = ground arith

pub blocked_by-admissible :
    (capacities : Map ℕ) (active queue : List RunRecord) (run : RunRecord)
    → blocked_by run active queue capacities ≡ []
    → admissible capacities active queue run ≡ true
unfolding admissible is_nil
blocked_by-admissible capacities active queue run h = rw h

module _ (capacities : Map ℕ) (last : Option String) (active queue : List RunRecord) where
  -- The chosen run stands in the queue and nothing blocks it, and every run of its repository that stands
  -- before it in the queue is blocked.
  pub next_admissible-some :
      {run : RunRecord}
      → next_admissible capacities last active queue ≡ some run
      → IsHead capacities active queue queue run
  unfolding next_admissible
  next_admissible-some h =
      (heads-IsHead capacities active queue [] queue
        (rotate-mem last (lane_heads capacities active queue [] queue) (first-mem _ h))).0

  -- If no run is chosen, each run of the queue is blocked.
  pub next_admissible-none :
      next_admissible capacities last active queue ≡ none
      → (run : RunRecord) → Memᴰ run queue
      → blocked_by run active queue capacities ≢ []
  unfolding next_admissible
  next_admissible-none h run m free =
      let found : (h : RunRecord) × Memᴰ h (lane_heads capacities active queue [] queue)
          × (str_eq h.repository_id run.repository_id ≡ true) =
        heads_complete capacities active queue [] queue m
          (blocked_by-admissible capacities active queue run free) refl in
      first-none _ h (mem-rotate last _ found.1)
