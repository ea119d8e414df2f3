-- ===== src/Base/Lists.antt =====
-- Lists tested by Boolean functions, measured by the native numbers.
use Prim.Native.Nat.{ℕ, suc}
use mathlib.Core.Path.{◌≡◌, refl, sym, ap, ◌∙◌}
use mathlib.Core.Logic.{◌⊎◌, inl, inr}
use mathlib.Core.Bool.{Bool, true, false, ◌&&◌, ◌||◌}
use mathlib.Core.Option.{Option, none, some}
use mathlib.Core.List.{List, [], ◌∷◌, ◌++◌, Memᴰ}
use native.Mathlib.Omega.{arith}
use agcoord.Base.Tests.{if◌then◌else◌, Bool-cases}

-- A property of every element.
abbrev pub All {ℓ κ} : {A : Type ℓ} → (A → Type κ) → List A → Type κ
All P [] = Unit
All P (x ∷ xs) = P x × All P xs

module _ {ℓ} {A : Type ℓ} where
  abbrev pub length : List A → ℕ
  length [] = 0
  length (x ∷ xs) = suc (length xs)

  abbrev pub any : (A → Bool) → List A → Bool
  any p [] = false
  any p (x ∷ xs) = p x || any p xs

  abbrev pub all : (A → Bool) → List A → Bool
  all p [] = true
  all p (x ∷ xs) = p x && all p xs

  abbrev pub filter : (A → Bool) → List A → List A
  filter p [] = []
  filter p (x ∷ xs) = let rest = filter p xs in if p x then x ∷ rest else rest

  abbrev pub find : (A → Bool) → List A → Option A
  find p [] = none
  find p (x ∷ xs) = let rest = find p xs in if p x then some x else rest

  pub mem-cons_cases : {a x : A} {xs : List A} → Memᴰ a (x ∷ xs) → (a ≡ x) ⊎ Memᴰ a xs
  mem-cons_cases (Memᴰ.head e) = inl e
  mem-cons_cases (Memᴰ.tail m) = inr m

  pub mem-filter :
      (p : A → Bool) {a : A} (xs : List A) → Memᴰ a (filter p xs) → Memᴰ a xs × (p a ≡ true)
  mem-filter p [] m = elim m [ ]
  mem-filter p {a} (x ∷ xs) m = elim (Bool-cases (p x)) [
    | inl e ↦ kept e (λ n. mem-filter p xs n) (mem-cons_cases (rw e at m))
    | inr e ↦ dropped (mem-filter p xs (rw e at m))
  ]
    where
      dropped : Memᴰ a xs × (p a ≡ true) → Memᴰ a (x ∷ xs) × (p a ≡ true)
      dropped (n, h) = (Memᴰ.tail n, h)

      kept :
          p x ≡ true
          → (Memᴰ a (filter p xs) → Memᴰ a xs × (p a ≡ true))
          → (a ≡ x) ⊎ Memᴰ a (filter p xs)
          → Memᴰ a (x ∷ xs) × (p a ≡ true)
      kept e ih (inl i) = (Memᴰ.head i, rw i e)
      kept e ih (inr n) = dropped (ih n)

  pub mem-filter_of :
      (p : A → Bool) {a : A} (xs : List A) → Memᴰ a xs → p a ≡ true → Memᴰ a (filter p xs)
  mem-filter_of p [] m h = elim m [ ]
  mem-filter_of p (x ∷ xs) (Memᴰ.head e) h = rw (ap p (sym e) ∙ h) (Memᴰ.head e)
  mem-filter_of p (x ∷ xs) (Memᴰ.tail m) h = elim (Bool-cases (p x)) [
    | inl e ↦ rw e (Memᴰ.tail (mem-filter_of p xs m h))
    | inr e ↦ rw e (mem-filter_of p xs m h)
  ]

  pub any-eq-false :
      (p : A → Bool) {a : A} (xs : List A) → any p xs ≡ false → Memᴰ a xs → p a ≡ false
  any-eq-false p [] h m = elim m [ ]
  any-eq-false p (x ∷ xs) h (Memᴰ.head e) = ground arith
  any-eq-false p (x ∷ xs) h (Memᴰ.tail m) = any-eq-false p xs (ground arith) m

  pub any-eq-false_of :
      (p : A → Bool) (xs : List A) → ((a : A) → Memᴰ a xs → p a ≡ false) → any p xs ≡ false
  any-eq-false_of p [] h = refl
  any-eq-false_of p (x ∷ xs) h =
      ground (arith, h x (Memᴰ.head refl), any-eq-false_of p xs (λ a m. h a (Memᴰ.tail m)))

  pub find-some :
      (p : A → Bool) {a : A} (xs : List A) → find p xs ≡ some a → Memᴰ a xs × (p a ≡ true)
  find-some p [] h = cc
  find-some p {a} (x ∷ xs) h = elim (Bool-cases (p x)) [
    | inl e ↦ hit (ground arith) e
    | inr e ↦ miss (find-some p xs (ground arith))
  ]
    where
      hit : a ≡ x → p x ≡ true → Memᴰ a (x ∷ xs) × (p a ≡ true)
      hit i e = (Memᴰ.head i, rw i e)

      miss : Memᴰ a xs × (p a ≡ true) → Memᴰ a (x ∷ xs) × (p a ≡ true)
      miss (n, h') = (Memᴰ.tail n, h')

  pub find-none : (p : A → Bool) {a : A} (xs : List A) → find p xs ≡ none → Memᴰ a xs → p a ≡ false
  find-none p [] h m = elim m [ ]
  find-none p (x ∷ xs) h (Memᴰ.head e) = ground arith
  find-none p (x ∷ xs) h (Memᴰ.tail m) = find-none p xs (ground arith) m

  pub mem-append_cases : {a : A} (xs ys : List A) → Memᴰ a (xs ++ ys) → Memᴰ a xs ⊎ Memᴰ a ys
  mem-append_cases [] ys m = inr m
  mem-append_cases (x ∷ xs) ys (Memᴰ.head e) = inl (Memᴰ.head e)
  mem-append_cases (x ∷ xs) ys (Memᴰ.tail m) = elim (mem-append_cases xs ys m) [
    | inl l ↦ inl (Memᴰ.tail l)
    | inr r ↦ inr r
  ]

  pub mem-append_left : {a : A} (xs ys : List A) → Memᴰ a xs → Memᴰ a (xs ++ ys)
  mem-append_left [] ys m = elim m [ ]
  mem-append_left (x ∷ xs) ys (Memᴰ.head e) = Memᴰ.head e
  mem-append_left (x ∷ xs) ys (Memᴰ.tail m) = Memᴰ.tail (mem-append_left xs ys m)

  pub mem-append_right : {a : A} (xs ys : List A) → Memᴰ a ys → Memᴰ a (xs ++ ys)
  mem-append_right [] ys m = m
  mem-append_right (x ∷ xs) ys m = Memᴰ.tail (mem-append_right xs ys m)

  pub filter-nil : (p : A → Bool) {a : A} (xs : List A) → filter p xs ≡ [] → Memᴰ a xs → p a ≡ false
  filter-nil p [] h m = elim m [ ]
  filter-nil p (x ∷ xs) h (Memᴰ.head e) = ground arith
  filter-nil p (x ∷ xs) h (Memᴰ.tail m) = filter-nil p xs (ground arith) m

  pub All-of {κ} : (P : A → Type κ) (xs : List A) → ((a : A) → Memᴰ a xs → P a) → All P xs
  All-of P [] h = tt
  All-of P (x ∷ xs) h = (h x (Memᴰ.head refl), All-of P xs (λ a m. h a (Memᴰ.tail m)))

  pub All-mem {κ} : (P : A → Type κ) {a : A} (xs : List A) → All P xs → Memᴰ a xs → P a
  All-mem P [] h m = elim m [ ]
  All-mem P (x ∷ xs) h (Memᴰ.head e) = rw e h.0
  All-mem P (x ∷ xs) h (Memᴰ.tail m) = All-mem P xs h.1 m

  pub All-filter {κ} :
      (P : A → Type κ) (p : A → Bool) (xs : List A) → All P xs → All P (filter p xs)
  All-filter P p xs h = All-of P (filter p xs) (λ a m. All-mem P xs h (mem-filter p xs m).0)

  pub filter-nil_of : (p : A → Bool) (xs : List A) → All (λ a. p a ≡ false) xs → filter p xs ≡ []
  filter-nil_of p [] h = refl
  filter-nil_of p (x ∷ xs) h = ground (arith, h.0, filter-nil_of p xs h.1)

  pub all-mem : (p : A → Bool) {a : A} (xs : List A) → all p xs ≡ true → Memᴰ a xs → p a ≡ true
  all-mem p [] h m = elim m [ ]
  all-mem p (x ∷ xs) h (Memᴰ.head e) = ground arith
  all-mem p (x ∷ xs) h (Memᴰ.tail m) = all-mem p xs (ground arith) m

  pub all-append : (p : A → Bool) (xs ys : List A) → all p (xs ++ ys) ≡ all p xs && all p ys
  all-append p [] ys = refl
  all-append p (x ∷ xs) ys = ground (arith, all-append p xs ys)

  pub all_imply :
      (p q : A → Bool) (xs : List A)
      → ((a : A) → p a ≡ true → q a ≡ true)
      → all p xs ≡ true
      → all q xs ≡ true
  all_imply p q [] f h = refl
  all_imply p q (x ∷ xs) f h = ground (arith, f x, all_imply p q xs f (ground arith))

  pub all-and : (p q : A → Bool) (xs : List A) → all (λ a. p a && q a) xs ≡ all p xs && all q xs
  all-and p q [] = refl
  all-and p q (x ∷ xs) = ground (arith, all-and p q xs)
