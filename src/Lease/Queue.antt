-- ===== src/Lease/Queue.antt =====
-- The queue that one parent's loop starts from, read from a table in good order.

use agcoord.Base.{
  ℕ, ◌+◌, ◌≤◌, ◌<◌, ◌^◌, String, ◌≡◌, refl, inl, inr, Bool, true, false, ◌&&◌, List, [], ◌∷◌, all,
  filter, Memᴰ, str_eq, eq_iff, All, All-of, All-mem, All-filter, mem-filter, Bool-cases, arith,
}
use agcoord.Run.{ok}
use agcoord.Lease.{Lease, coherent, is_waiting, is_active, is_live, load_live_child_leases}
use agcoord.Lease.Maintenance.{of_run, checked_total}
use agcoord.Lease.Rows.{lease_ids, Unique, IsCoherent, used}
use agcoord.Lease.Grant.{Tracks, Loop, All-map, All-ids}

all_of-All : (table : List Lease) → All (λ l. IsCoherent l) table → all coherent table ≡ true
all_of-All [] h = refl
all_of-All (l ∷ table) h = ground (arith, h.0, all_of-All table h.1)

pub load_live_ok :
    (table : List Lease)
    → All (λ l. IsCoherent l) table
    → load_live_child_leases table ≡ ok (filter (λ l. is_live l.status) table)
unfolding load_live_child_leases
load_live_ok table h = ground (
  arith,
  all_of-All (filter (λ l. is_live l.status) table)
      (All-filter (λ l. IsCoherent l) (λ l. is_live l.status) table h),
)

-- The checked sum of a run's active leases is what they use, if that fits u64.
pub checked_total-used :
    (run_id : String) (total : ℕ) (table : List Lease)
    → total + used run_id table < 2 ^ 64
    → checked_total total
        (of_run run_id (λ l. is_active l.status) (filter (λ l. is_live l.status) table))
      ≡ ok (total + used run_id table)
unfolding checked_total used
checked_total-used run_id total [] h = ground arith
checked_total-used run_id total (l ∷ table) h =
    elim (Bool-cases (str_eq l.run_id run_id && is_active l.status)) [
      | inl e ↦
          ground (arith, e, checked_total-used run_id (total + l.granted) table (ground arith))
      | inr e ↦ ground (arith, e, checked_total-used run_id total table (ground arith))
    ]

Tracks-of : (table : List Lease) (w : Lease) → Unique table → Memᴰ w table → Tracks table w
Tracks-of [] w u m = elim m [ ]
Tracks-of (x ∷ table) w u (Memᴰ.head e) = rw e (
  (λ s. record { run_same = refl; requested_same = refl; minimum_same = refl; bypass_same = refl }),
  All-map (λ (l : Lease). str_eq l.lease_id x.lease_id ≡ false) _ table (λ l n s. absurd (cc))
      (All-ids _ table u.0),
)
Tracks-of (x ∷ table) w u (Memᴰ.tail m) = (
  (λ s. absurd (
      ground (
        arith,
        All-mem (λ (l : Lease). str_eq l.lease_id x.lease_id ≡ false) table (All-ids _ table u.0) m,
        eq_iff x.lease_id w.lease_id,
        eq_iff w.lease_id x.lease_id,
      ))),
  Tracks-of table w u.1 m,
)

ids-filter :
    (P : String → Type 0) (p : Lease → Bool) (table : List Lease)
    → All P (lease_ids table)
    → All P (lease_ids (filter p table))
ids-filter P p [] h = tt
ids-filter P p (l ∷ table) h = elim (Bool-cases (p l)) [
  | inl e ↦ rw e (h.0, ids-filter P p table h.1)
  | inr e ↦ rw e (ids-filter P p table h.1)
]

filter-Unique : (p : Lease → Bool) (table : List Lease) → Unique table → Unique (filter p table)
filter-Unique p [] h = tt
filter-Unique p (l ∷ table) h = elim (Bool-cases (p l)) [
  | inl e ↦
      rw e (ids-filter (λ y. str_eq y l.lease_id ≡ false) p table h.0, filter-Unique p table h.1)
  | inr e ↦ rw e (filter-Unique p table h.1)
]

coherent-ordered : (l : Lease) → IsCoherent l → l.minimum ≤ l.requested
unfolding coherent
coherent-ordered l h = ground arith

abbrev pub waiting_of : String → List Lease → List Lease
waiting_of run_id table =
    of_run run_id (λ l. is_waiting l.status) (filter (λ l. is_live l.status) table)

pub waiting_of-Loop :
    (Home : String → ℕ → Type 0) (run_id : String) (table : List Lease)
    → Unique table
    → All (λ l. IsCoherent l) table
    → All (λ (l : Lease). Home l.run_id l.minimum) table
    → Loop Home run_id (waiting_of run_id table) table
waiting_of-Loop Home run_id table u rows homes = record {
  unique = u;
  rows = rows;
  homes = homes;
  queue_unique = filter-Unique _ _ (filter-Unique _ table u);
  tracked = All-of (Tracks table) _ (λ w m. Tracks-of table w u (from w m));
  owned =
      All-of _ _ (λ w m. (eq_iff w.run_id run_id).0 (ground (arith, (mem-filter test live m).1)));
  ordered =
      All-of _ _ (λ w m. coherent-ordered w (All-mem (λ l. IsCoherent l) table rows (from w m)));
}
  where
    live : List Lease
    live = filter (λ l. is_live l.status) table

    test : Lease → Bool
    test l = str_eq l.run_id run_id && is_waiting l.status

    from : (w : Lease) → Memᴰ w (waiting_of run_id table) → Memᴰ w table
    from w m = (mem-filter (λ l. is_live l.status) table (mem-filter test live m).0).0
