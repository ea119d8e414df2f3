-- ===== src/Base/Assoc.antt =====
-- Maps as association lists with text keys (`BTreeMap<String, V>`).
use Prim.Native.String.{String}
use mathlib.Core.Path.{◌≡◌, refl}
use mathlib.Core.Logic.{inl, inr}
use mathlib.Core.Bool.{Bool, true, ◌&&◌}
use mathlib.Core.Option.{Option, none, some}
use mathlib.Core.List.{List, [], ◌∷◌, ◌++◌}
use native.Mathlib.Omega.{arith}
use text.Mathlib.Text.{◌==◌ as str_eq}
use text.Mathlib.TextEquality.{eq_iff}
use agcoord.Base.Tests.{if◌then◌else◌, get_or, is_some, Bool-cases}

abbrev pub Map {ℓ} : Type ℓ → Type ℓ
Map V = List (String × V)

module _ {ℓ} {V : Type ℓ} where
  unfoldable pub lookup : String → Map V → Option V
  lookup k [] = none
  lookup k ((j, v) ∷ m) = if str_eq j k then some v else lookup k m

  unfoldable pub insert : String → V → Map V → Map V
  insert k v [] = (k, v) ∷ []
  insert k v ((j, w) ∷ m) = if str_eq j k then (k, v) ∷ m else (j, w) ∷ insert k v m

  unfoldable pub remove_key : String → Map V → Map V
  remove_key key [] = []
  remove_key key ((name, value) ∷ m) =
      let rest = remove_key key m in if str_eq name key then rest else (name, value) ∷ rest

  pub lookup-remove_key :
      (key other : String) (m : Map V)
      → lookup other (remove_key key m) ≡ (if str_eq key other then none else lookup other m)
  unfolding remove_key lookup
  lookup-remove_key key other [] = ground arith
  lookup-remove_key key other ((name, value) ∷ m) =
      let rest = lookup-remove_key key other m in
      ground (arith, rest, eq_iff name key, eq_iff name other, eq_iff key other)

  pub lookup-insert :
      (name other : String) (value : V) (m : Map V)
      → lookup other (insert name value m)
        ≡ (if str_eq name other then some value else lookup other m)
  unfolding lookup insert
  lookup-insert name other value [] = refl
  lookup-insert name other value ((key, old) ∷ m) =
      let rest = lookup-insert name other value m in
      ground (arith, rest, eq_iff key name, eq_iff key other, eq_iff name other)

  -- A `for` loop over the entries that leaves at the first one to fail the test.
  unfoldable pub all_entries : (String → V → Bool) → Map V → Bool
  all_entries p [] = true
  all_entries p ((k, v) ∷ m) = p k v && all_entries p m

  -- No key stands twice.
  abbrev pub Distinct : Map V → Type ℓ
  Distinct [] = Unit
  Distinct ((k, v) ∷ m) = (lookup k m ≡ none) × Distinct m

  pub insert-Distinct : (k : String) (v : V) (m : Map V) → Distinct m → Distinct (insert k v m)
  unfolding insert lookup
  insert-Distinct k v [] d = (refl, tt)
  insert-Distinct k v ((j, w) ∷ m) d =
      ground (arith, eq_iff j k, lookup-insert k j v m, insert-Distinct k v m d.1, eq_iff k j)

  -- The loop checks every key with its value; keys with the default value may be left out.
  pub all_entries-get_or :
      (p : String → V → Bool) (d : V) (m : Map V)
      → ((k : String) → p k d ≡ true)
      → all_entries p m ≡ true
      → (k : String) → p k (get_or (lookup k m) d) ≡ true
  unfolding all_entries lookup
  all_entries-get_or p d [] z h k = z k
  all_entries-get_or p d ((j, v) ∷ m) z h k =
      ground (arith, eq_iff j k, all_entries-get_or p d m z (ground arith) k)

  pub all_entries_of :
      (p : String → V → Bool) (d : V) (m : Map V)
      → Distinct m
      → ((k : String) → p k d ≡ true)
      → ((k : String) → p k (get_or (lookup k m) d) ≡ true)
      → all_entries p m ≡ true
  unfolding all_entries lookup
  all_entries_of p d [] u z h = refl
  all_entries_of p d ((j, v) ∷ m) u z h = ground (
    arith,
    h j,
    (eq_iff j j).1 refl,
    all_entries_of p d m u.1 z (λ k. ground (arith, h k, z k, eq_iff j k, u.0)),
  )

  pub all_entries-insert :
      (p : String → V → Bool) (k : String) (v : V) (m : Map V)
      → p k v ≡ true
      → all_entries p m ≡ true
      → all_entries p (insert k v m) ≡ true
  unfolding all_entries insert
  all_entries-insert p k v [] h a = ground arith
  all_entries-insert p k v ((j, w) ∷ m) h a =
      let rest : all_entries p (insert k v m) ≡ true =
        all_entries-insert p k v m h (ground arith) in
      ground (arith, rest)

  pub all_entries-remove_key :
      (p : String → V → Bool) (k : String) (m : Map V)
      → all_entries p m ≡ true
      → all_entries p (remove_key k m) ≡ true
  unfolding all_entries remove_key
  all_entries-remove_key p k [] h = refl
  all_entries-remove_key p k ((j, w) ∷ m) h =
      ground (arith, all_entries-remove_key p k m (ground arith))

  pub remove_key-Distinct : (k : String) (m : Map V) → Distinct m → Distinct (remove_key k m)
  unfolding remove_key
  remove_key-Distinct k [] d = tt
  remove_key-Distinct k ((j, w) ∷ m) d =
      ground (arith, lookup-remove_key k j m, remove_key-Distinct k m d.1)

  lookup-append :
      (k : String) (v : V) (m rest : Map V) → is_some (lookup k (m ++ (k, v) ∷ rest)) ≡ true
  unfolding lookup
  lookup-append k v [] rest = ground (arith, (eq_iff k k).1 refl)
  lookup-append k v ((j, w) ∷ m) rest = ground (arith, lookup-append k v m rest)

  -- A key that is new goes to the end.
  pub insert-fresh :
      (k : String) (v : V) (m rest : Map V)
      → Distinct (m ++ (k, v) ∷ rest)
      → insert k v m ++ rest ≡ m ++ (k, v) ∷ rest
  unfolding insert
  insert-fresh k v [] rest d = refl
  insert-fresh k v ((j, w) ∷ m) rest d =
      ground (arith, eq_iff j k, lookup-append k v m rest, d.0, insert-fresh k v m rest d.1)

  pub all_entries-and :
      (p q : String → V → Bool) (m : Map V)
      → all_entries (λ k v. p k v && q k v) m ≡ all_entries p m && all_entries q m
  unfolding all_entries
  all_entries-and p q [] = refl
  all_entries-and p q ((k, v) ∷ m) = ground (arith, all_entries-and p q m)

  pub all_entries_imply :
      (p q : String → V → Bool) (m : Map V)
      → ((k : String) (v : V) → p k v ≡ true → q k v ≡ true)
      → all_entries p m ≡ true
      → all_entries q m ≡ true
  unfolding all_entries
  all_entries_imply p q [] f h = refl
  all_entries_imply p q ((k, v) ∷ m) f h =
      ground (arith, f k v, all_entries_imply p q m f (ground arith))

  pub all_entries-lookup :
      (p : String → V → Bool) (k : String) (m : Map V) {v : V}
      → all_entries p m ≡ true
      → lookup k m ≡ some v
      → p k v ≡ true
  unfolding all_entries lookup
  all_entries-lookup p k [] h l = cc
  all_entries-lookup p k ((j, w) ∷ m) {v} h l = elim (Bool-cases (str_eq j k)) [
    | inl e ↦ head ((eq_iff j k).0 e) (ground (arith, e)) (ground arith)
    | inr e ↦ all_entries-lookup p k m (ground arith) (ground (arith, e))
  ]
    where
      head : j ≡ k → w ≡ v → p j w ≡ true → p k v ≡ true
      head e f q = rw e at (rw f at q)
