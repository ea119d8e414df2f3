-- ===== src/Backends/Ordered.antt =====
-- Maps whose keys are in order, as those of a `BTreeMap`.
use agcoord.Base.{
  String, ◌≡◌, refl, Bool, true, none, List, [], ◌∷◌, ◌++◌, Map, lookup, str_lt, eq_iff, all,
  all_entries, Distinct, arith, str_lt_total, str_lt_trans, str_lt-str_eq, all_imply,
}
use agcoord.Resources.States.Sorted.{ascending}
use agcoord.Backends.{names, insert_ordered}

-- A first element is below all that follow it.
pub ascending-all :
    (a : String) (xs : List String) → ascending (a ∷ xs) ≡ true → all (str_lt a) xs ≡ true
unfolding ascending
ascending-all a [] h = refl
ascending-all a (b ∷ more) h =
    let rest : all (str_lt b) more ≡ true = ascending-all b more (ground arith) in
    let up : all (str_lt a) more ≡ true =
      all_imply (str_lt b) (str_lt a) more (λ c k. str_lt_trans a b c (ground arith) k) rest in
    ground (arith, up)

pub ascending-tail :
    (a : String) (xs : List String) → ascending (a ∷ xs) ≡ true → ascending xs ≡ true
unfolding ascending
ascending-tail a [] h = refl
ascending-tail a (b ∷ more) h = ground arith

pub ascending-append :
    (xs : List String) (a : String)
    → ascending xs ≡ true
    → all (λ x. str_lt x a) xs ≡ true
    → ascending (xs ++ a ∷ []) ≡ true
unfolding ascending
ascending-append [] a h b = refl
ascending-append (x ∷ []) a h b = ground arith
ascending-append (x ∷ y ∷ more) a h b =
    ground (arith, ascending-append (y ∷ more) a (ground arith) (ground arith))

module _ {ℓ} {V : Type ℓ} where
  pub insert_ordered-ascending :
      (k : String) (v : V) (m : Map V)
      → ascending (names m) ≡ true
      → ascending (names (insert_ordered k v m)) ≡ true
  unfolding ascending names insert_ordered
  insert_ordered-ascending k v [] h = refl
  insert_ordered-ascending k v ((j, w) ∷ []) h =
      ground (arith, eq_iff j k, str_lt_total k j, eq_iff k j)
  insert_ordered-ascending k v ((j, w) ∷ (i, u) ∷ m) h =
      let rest : ascending (names (insert_ordered k v ((i, u) ∷ m))) ≡ true =
        insert_ordered-ascending k v ((i, u) ∷ m) (ground arith) in
      ground (arith, rest, eq_iff j k, str_lt_total k j, eq_iff k j)

  pub all_entries-insert_ordered :
      (p : String → V → Bool) (k : String) (v : V) (m : Map V)
      → p k v ≡ true
      → all_entries p m ≡ true
      → all_entries p (insert_ordered k v m) ≡ true
  unfolding all_entries insert_ordered
  all_entries-insert_ordered p k v [] h a = ground arith
  all_entries-insert_ordered p k v ((j, w) ∷ m) h a =
      let rest : all_entries p (insert_ordered k v m) ≡ true =
        all_entries-insert_ordered p k v m h (ground arith) in
      ground (arith, rest)

  lookup-above : (k : String) (m : Map V) → all (str_lt k) (names m) ≡ true → lookup k m ≡ none
  unfolding lookup names
  lookup-above k [] h = refl
  lookup-above k ((j, w) ∷ m) h =
      ground (arith, str_lt-str_eq k j, eq_iff k j, eq_iff j k, lookup-above k m (ground arith))

  pub ascending-Distinct : (m : Map V) → ascending (names m) ≡ true → Distinct m
  unfolding names
  ascending-Distinct [] h = tt
  ascending-Distinct ((k, v) ∷ m) h = (
    lookup-above k m (ascending-all k (names m) h),
    ascending-Distinct m (ascending-tail k (names m) h),
  )
