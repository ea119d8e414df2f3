-- ===== src/Lease/Waits.antt =====
-- The waiting leases of a parent (store.rs `maintain_child_cpu_leases`), oldest first, after a grant.
use agcoord.Base.{
  ℕ, String, ◌≡◌, refl, sym, ◌∙◌, inl, inr, Bool, true, false, ◌&&◌, List, [], ◌∷◌, Memᴰ,
  mem-filter, str_eq, eq_iff, All, All-mem, Bool-cases, arith,
}
use agcoord.Lease.{Lease, LeaseStatus, waiting, active, released, cancelled, is_waiting, is_live}
use agcoord.Lease.Maintenance.{update, waiting_row}
use agcoord.Lease.Rows.{Unique, update-none, ids-All}
use agcoord.Lease.Grant.{All-ids}
use agcoord.Lease.Queue.{waiting_of}
use agcoord.Lease.Served.{served_row, granted_to}

waiting-live : (status : LeaseStatus) → is_waiting status ≡ true → is_live status ≡ true
waiting-live waiting h = refl
waiting-live active h = refl
waiting-live released h = cc
waiting-live cancelled h = cc

module _ (run_id : String) where
  waits : Lease → Bool
  waits l = str_eq l.run_id run_id && is_waiting l.status

  waiting_of-yes :
      (l : Lease) (table : List Lease)
      → waits l ≡ true
      → waiting_of run_id (l ∷ table) ≡ l ∷ waiting_of run_id table
  unfolding waits
  waiting_of-yes l table h =
      let live : is_live l.status ≡ true = waiting-live l.status (ground (arith, h)) in
      rw live (rw h refl)

  waiting_of-no :
      (l : Lease) (table : List Lease)
      → waits l ≡ false
      → waiting_of run_id (l ∷ table) ≡ waiting_of run_id table
  unfolding waits
  waiting_of-no l table h = elim (Bool-cases (is_live l.status)) [
    | inl e ↦ rw e (rw h refl)
    | inr e ↦ rw e refl
  ]

  waiting_of-mem :
      (table : List Lease) {l : Lease} → Memᴰ l (waiting_of run_id table) → Memᴰ l table
  waiting_of-mem table m =
      (mem-filter (λ l. is_live l.status) table
        (mem-filter (λ l. str_eq l.run_id run_id && is_waiting l.status) _ m).0).0

  -- The oldest waiting lease leaves the queue when it is granted.
  pub waiting_of-granted :
      (now units : ℕ) (head : Lease) (others table : List Lease)
      → Unique table
      → waiting_of run_id table ≡ head ∷ others
      → waiting_of run_id (granted_to now units head table) ≡ others
  unfolding update waits
  waiting_of-granted now units head others [] u h = absurd (ground (arith, h))
  waiting_of-granted now units head others (l ∷ table) u h = elim (Bool-cases (waits l)) [
    | inl e ↦
        let k : (l ≡ head) × (waiting_of run_id table ≡ others) =
          ground (arith, waiting_of-yes l table e, h) in
        let named_so : waiting_row head.lease_id l ≡ true =
          rw (sym k.0) (ground (arith, e, (eq_iff l.lease_id l.lease_id).1 refl)) in
        let rest : All (λ (x : Lease). waiting_row head.lease_id x ≡ false) table =
          rw (sym k.0) (ids-All l.lease_id table u.0) in
        rw (named_so, update-none (served_row now units) (waiting_row head.lease_id) table rest)
          (waiting_of-no (served_row now units l) table (ground arith) ∙ k.1)
    | inr e ↦
        let k : waiting_of run_id table ≡ head ∷ others = sym (waiting_of-no l table e) ∙ h in
        let there : Memᴰ head table = waiting_of-mem table (rw k (Memᴰ.head refl)) in
        let apart : str_eq head.lease_id l.lease_id ≡ false =
          All-mem (λ (x : Lease). str_eq x.lease_id l.lease_id ≡ false) table
            (All-ids (λ y. str_eq y l.lease_id ≡ false) table u.0) there in
        let other : waiting_row head.lease_id l ≡ false =
          ground (arith, apart, eq_iff l.lease_id head.lease_id, eq_iff head.lease_id l.lease_id) in
        rw other (
          waiting_of-no l (granted_to now units head table) e
          ∙ waiting_of-granted now units head others table u.1 k)
  ]
