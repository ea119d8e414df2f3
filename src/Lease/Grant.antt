-- ===== src/Lease/Grant.antt =====
-- What one grant and one bypass of the grant loop keep.
use agcoord.Base.{
  ℕ, ◌+◌, ◌≤◌, String, ◌≡◌, refl, subst, sym, ◌∙◌, Bool, true, false, List, [], ◌∷◌, str_eq, eq_iff,
  if◌then◌else◌, All, arith,
}
use agcoord.Lease.{Lease}
use agcoord.Lease.Maintenance.{update, waiting_row, bypass_row, grant_row, take_at}
use agcoord.Lease.Rows.{
  lease_ids, UniqueIds, Unique, IsCoherent, used, lease_ids-update, update-All, used-grant,
  bypass_row-IsCoherent, grant_row-IsCoherent,
}
use agcoord.Lease.Take.{take_at-All, take_at-Unique}

-- A row makes the claim that a queued copy of it records.
pub record SameClaim (row w : Lease) : Type 0 where
  pub run_same : row.run_id ≡ w.run_id
  pub requested_same : row.requested ≡ w.requested
  pub minimum_same : row.minimum ≡ w.minimum
  pub bypass_same : row.bypass_count ≡ w.bypass_count

-- The rows with a queued lease's ID make its claim.
abbrev pub Tracks : List Lease → Lease → Type 0
Tracks table w = All (λ row. str_eq row.lease_id w.lease_id ≡ true → SameClaim row w) table

-- What holds between two rounds, of the queue left and the table; `Home` is any fact about a lease's
-- run and minimum.
pub record Loop (Home : String → ℕ → Type 0) (run_id : String) (queue table : List Lease)
    : Type 0 where
  pub unique : Unique table
  pub rows : All (λ l. IsCoherent l) table
  pub homes : All (λ (l : Lease). Home l.run_id l.minimum) table
  pub queue_unique : Unique queue
  pub tracked : All (λ w. Tracks table w) queue
  pub owned : All (λ (w : Lease). w.run_id ≡ run_id) queue
  pub ordered : All (λ (w : Lease). w.minimum ≤ w.requested) queue

-- What a parent's share of the table may have grown by.
pub record Spent (run_id : String) (available : ℕ) (table table' : List Lease) : Type 0 where
  pub own : used run_id table' ≤ used run_id table + available
  pub others : (other : String) → str_eq run_id other ≡ false → used other table' ≤ used other table

pub All-zip {ℓ} :
    {A : Type ℓ} (P Q : A → Type 0) (xs : List A) → All P xs → All Q xs → All (λ x. P x × Q x) xs
All-zip P Q [] p q = tt
All-zip P Q (x ∷ xs) p q = ((p.0, q.0), All-zip P Q xs p.1 q.1)

pub All-map {ℓ} :
    {A : Type ℓ} (P Q : A → Type 0) (xs : List A) → ((x : A) → P x → Q x) → All P xs → All Q xs
All-map P Q [] f p = tt
All-map P Q (x ∷ xs) f p = (f x p.0, All-map P Q xs f p.1)

pub All-ids :
    (P : String → Type 0) (ls : List Lease)
    → All P (lease_ids ls)
    → All (λ (l : Lease). P l.lease_id) ls
All-ids P [] h = tt
All-ids P (l ∷ ls) h = (h.0, All-ids P ls h.1)

abbrev pub named : String → Lease → Bool
named lease_id lease = str_eq lease.lease_id lease_id

module _ (Home : String → ℕ → Type 0) (run_id : String) where
  pub bypass-Loop :
      (head : Lease) (others table : List Lease)
      → head.bypass_count ≡ 0
      → Loop Home run_id (head ∷ others) table
      → Loop Home run_id (bypass_row head ∷ others) (update bypass_row (named head.lease_id) table)
  bypass-Loop head others table z h = record {
    unique =
        subst UniqueIds (sym (lease_ids-update bypass_row (named head.lease_id) (λ l. refl) table))
          h.unique;
    rows =
        update-All bypass_row (named head.lease_id)
          (λ l. IsCoherent l × (str_eq l.lease_id head.lease_id ≡ true → SameClaim l head))
          (λ l. IsCoherent l) table (λ l p e. bypass_row-IsCoherent l ((p.1 e).bypass_same ∙ z) p.0)
          (λ l p e. p.0) (All-zip _ _ table h.rows h.tracked.0);
    homes =
        update-All bypass_row (named head.lease_id) (λ (l : Lease). Home l.run_id l.minimum)
          (λ (l : Lease). Home l.run_id l.minimum) table (λ l p e. p) (λ l p e. p) h.homes;
    queue_unique = h.queue_unique;
    tracked = (
      update-All bypass_row (named head.lease_id) _ _ table (λ l p e s. ground (arith, p s))
          (λ l p e s. absurd (cc)) h.tracked.0,
      All-map (λ (w : Lease). Tracks table w × (str_eq w.lease_id head.lease_id ≡ false)) _ others
          (λ w p.
            update-All bypass_row (named head.lease_id) _ _ table
              (λ l q e s. absurd (
                ground (
                  arith,
                  eq_iff l.lease_id head.lease_id,
                  eq_iff l.lease_id w.lease_id,
                  eq_iff w.lease_id head.lease_id,
                  p.1,
                )))
              (λ l q e s. q s) p.0)
          (All-zip _ _ others h.tracked.1 (All-ids _ others h.queue_unique.0)),
    );
    owned = h.owned;
    ordered = h.ordered;
  }

  pub grant-Loop :
      (i : ℕ) (head : Lease) (others table : List Lease) (granted now : ℕ)
      → Loop Home run_id (head ∷ others) table
      → let (selected, rest) = take_at i head others in
        selected.minimum ≤ granted
        → granted ≤ selected.requested
        → Loop Home run_id rest
            (update (grant_row granted now) (waiting_row selected.lease_id) table)
          × Spent run_id granted table
              (update (grant_row granted now) (waiting_row selected.lease_id) table)
  grant-Loop i head others table granted now h low high = (
    record {
      unique = subst UniqueIds (sym (lease_ids-update change row (λ l. refl) table)) h.unique;
      rows =
          update-All change row
            (λ l.
              IsCoherent l × (str_eq l.lease_id selected.lease_id ≡ true → SameClaim l selected))
            (λ l. IsCoherent l) table
            (λ l p e.
              grant_row-IsCoherent granted now l (ground arith) (ground (arith, p.1 (ground arith)))
                (ground (arith, p.1 (ground arith))) p.0)
            (λ l p e. p.0) (All-zip _ _ table h.rows tracked.0);
      homes =
          update-All change row (λ (l : Lease). Home l.run_id l.minimum)
            (λ (l : Lease). Home l.run_id l.minimum) table (λ l p e. p) (λ l p e. p) h.homes;
      queue_unique = (take_at-Unique i head others h.queue_unique).1;
      tracked =
          All-map (Tracks table) _ rest
            (λ w p.
              update-All change row _ _ table (λ l q e s. ground (arith, q s)) (λ l q e s. q s) p)
            tracked.1;
      owned = owned.1;
      ordered = (take_at-All (λ (w : Lease). w.minimum ≤ w.requested) i head others h.ordered).1;
    },
    record {
      own = ground (arith, bound run_id, (eq_iff run_id run_id).1 refl);
      others = λ other e. ground (arith, bound other);
    },
  )
    where
      selected : Lease
      selected = (take_at i head others).0

      rest : List Lease
      rest = (take_at i head others).1

      change : Lease → Lease
      change = grant_row granted now

      row : Lease → Bool
      row = waiting_row selected.lease_id

      tracked : Tracks table selected × All (Tracks table) rest
      tracked = take_at-All (Tracks table) i head others h.tracked

      owned : (selected.run_id ≡ run_id) × All (λ (w : Lease). w.run_id ≡ run_id) rest
      owned = take_at-All (λ (w : Lease). w.run_id ≡ run_id) i head others h.owned

      bound :
          (other : String)
          → used other (update change row table)
            ≤ used other table + (if str_eq run_id other then granted else 0)
      bound other = used-grant run_id other selected.lease_id granted now table h.unique (
          All-map (λ (l : Lease). str_eq l.lease_id selected.lease_id ≡ true → SameClaim l selected)
            _ table (λ l p e. (p e).run_same ∙ owned.0) tracked.0)
