-- ===== src/Lease/Rounds.antt =====
-- The grant loop of one parent: it always ends well, keeps the rows coherent, and hands out no more
-- than what was available.
use agcoord.Base.{
  ℕ, zero, suc, ◌-◌, ◌≤◌, min, String, ◌≡◌, refl, inl, inr, some, List, [], ◌∷◌, ◌==◌, Bool-cases,
  Option-cases, arith,
}
use agcoord.Run.{Result, ok, ◌>>=◌}
use agcoord.Lease.{Lease}
use agcoord.Lease.Maintenance.{
  update, waiting_row, bypass_row, grant_row, selected_index, take_at, passed_head, passed_table,
  give, grant_one, grant_loop,
}
use agcoord.Lease.Rows.{used, used-update}
use agcoord.Lease.Take.{take_at-All, selected_index-some, taken_fits}
use agcoord.Lease.Grant.{Loop, Spent, named, bypass-Loop, grant-Loop}

module _ (Home : String → ℕ → Type 0) (run_id : String) where
  -- One round after another, from any number of rounds left.
  abbrev Ends : ℕ → List Lease → Result (List Lease) → Type 0
  Ends available table r =
      (table' : List Lease) × (r ≡ ok table')
      × Loop Home run_id [] table'
      × Spent run_id available table table'

  stop :
      (available : ℕ) (queue table : List Lease)
      → Loop Home run_id queue table
      → Ends available table (ok table)
  stop available queue table h = (
    table,
    refl,
    record {
      unique = h.unique;
      rows = h.rows;
      homes = h.homes;
      queue_unique = tt;
      tracked = tt;
      owned = tt;
      ordered = tt;
    },
    record { own = omega arith; others = λ other e. omega arith },
  )

  passed-Loop :
      (available index : ℕ) (head : Lease) (others table : List Lease)
      → selected_index available head others ≡ some index
      → Loop Home run_id (head ∷ others) table
      → Loop Home run_id (passed_head index head ∷ others) (passed_table index head table)
  passed-Loop available zero head others table s h = h
  passed-Loop available (suc j) head others table s h =
      elim (selected_index-some available head others s) [
        | inl (z, f) ↦ absurd (ground arith)
        | inr (k, z, b, f, n) ↦ bypass-Loop Home run_id head others table b h
      ]

  -- A round grants, and no more than is available.
  Grants : ℕ → List Lease → Result (ℕ × List Lease × List Lease) → Type 0
  Grants available table r =
      (left : ℕ) × (rest : List Lease) × (table' : List Lease) × (r ≡ ok (left, rest, table'))
      × Loop Home run_id rest table'
      × Spent run_id (available - left) table table'
      × (left ≤ available)

  give_ok :
      (now available index : ℕ) (head : Lease) (others table : List Lease)
      → (take_at index head others).0.minimum ≤ available
      → Loop Home run_id (head ∷ others) table
      → Grants available table
          (give now available (take_at index head others).0 (take_at index head others).1 table)
  unfolding give Grants
  give_ok now available index head others table fits h = (
    available - granted,
    (take_at index head others).1,
    update (grant_row granted now) (waiting_row selected.lease_id) table,
    ground (arith, sane, fits),
    given.0,
    record { own = omega (arith, given.1.own, small); others = given.1.others },
    omega arith,
  )
    where
      selected : Lease
      selected = (take_at index head others).0

      granted : ℕ
      granted = min selected.requested available

      sane : selected.minimum ≤ selected.requested
      sane = (take_at-All (λ (w : Lease). w.minimum ≤ w.requested) index head others h.ordered).0

      small : granted ≤ available
      small = omega arith

      given :
          Loop Home run_id
            (take_at index head others).1
            (update (grant_row granted now) (waiting_row selected.lease_id) table)
          × Spent run_id granted table
              (update (grant_row granted now) (waiting_row selected.lease_id) table)
      given =
          grant-Loop Home run_id index head others table granted now h (omega (arith, sane))
            (omega arith)

  -- One round of the loop on a selected index.
  grant_one_ok :
      (now available index : ℕ) (head : Lease) (others table : List Lease)
      → selected_index available head others ≡ some index
      → Loop Home run_id (head ∷ others) table
      → Grants available table (grant_one now available index head others table)
  unfolding grant_one Grants
  grant_one_ok now available index head others table s h =
      let given : Grants available (passed_table index head table)
          (grant_one now available index head others table) =
        give_ok now available index (passed_head index head) others (passed_table index head table)
          (taken_fits available head others s (passed_head index head) (passed_same index head))
          (passed-Loop available index head others table s h) in
      (given.0, given.1, given.2, given.3, given.4, unpassed index given.5, given.6)
    where
      passed_same : (i : ℕ) (l : Lease) → (passed_head i l).minimum ≡ l.minimum
      passed_same zero l = refl
      passed_same (suc i) l = refl

      unread : (r : String) → used r (update bypass_row (named head.lease_id) table) ≡ used r table
      unread r =
          used-update bypass_row (named head.lease_id) r table (λ l. refl) (λ l. refl) (λ l. refl)

      unpassed :
          (i : ℕ) {spent : ℕ} {t : List Lease}
          → Spent run_id spent (passed_table i head table) t
          → Spent run_id spent table t
      unpassed zero g = g
      unpassed (suc i) g = record {
        own = omega (arith, g.own, unread run_id);
        others = λ other e. omega (arith, g.others other e, unread other);
      }

  -- The loop ends well from any queue in good order, with no more than was available handed out.
  pub grant_loop_ok :
      (fuel now available : ℕ) (queue table : List Lease)
      → Loop Home run_id queue table
      → Ends available table (grant_loop fuel now available queue table)
  unfolding grant_loop Grants
  grant_loop_ok zero now available queue table h = stop available queue table h
  grant_loop_ok (suc fuel) now available [] table h = stop available [] table h
  grant_loop_ok (suc fuel) now available (head ∷ others) table h =
      elim (Bool-cases (available == 0)) [
        | inl e ↦ rw e (stop available (head ∷ others) table h)
        | inr e ↦ elim (Option-cases (selected_index available head others)) [
          | inl n ↦ rw (e, n, grant_loop) (stop available (head ∷ others) table h)
          | inr (index, n) ↦
              rw (e, n, grant_loop)
                (more index (grant_one_ok now available index head others table n h)
                  (λ left rest t l. grant_loop_ok fuel now left rest t l))
        ]
      ]
    where
      more :
          (index : ℕ)
          → Grants available table (grant_one now available index head others table)
          → ((left : ℕ) (rest t : List Lease)
              → Loop Home run_id rest t
              → Ends left t (grant_loop fuel now left rest t))
          → Ends available table (
              grant_one now available index head others table >>= λ r.
              grant_loop fuel now r.0 r.1 r.2)
      more index (left, rest, t, e, l, spent, small) ih =
          let end : Ends left t (grant_loop fuel now left rest t) = ih left rest t l in
          (
            end.0,
            rw e end.1,
            end.2,
            record {
              own = omega (arith, spent.own, end.3.own);
              others = λ other o. omega (arith, spent.others other o, end.3.others other o);
            },
          )
