-- ===== src/Base/Words.antt =====
-- The order of texts is total, and texts in order are sorted.
use Prim.Native.Nat.{ℕ}
use Prim.Native.String.{String}
use mathlib.Core.Path.{◌≡◌, refl}
use mathlib.Core.Logic.{◌⊎◌, inl, inr}
use mathlib.Core.Bool.{true, false}
use mathlib.Core.List.{List, [], ◌∷◌}
use native.Mathlib.Omega.{arith}
use text.Mathlib.Text.{◌==◌ as str_eq}
use text.Mathlib.TextEquality.{eq_iff, Char-path}
use agcoord.Base.Tests.{codes, codes_lt, str_lt, Bool-cases}

codes_eq : (s t : String) → codes s ≡ codes t → s ≡ t
codes_eq String.[] String.[] h = refl
codes_eq String.[] (String.◌∷◌ d t) h = cc
codes_eq (String.◌∷◌ c s) String.[] h = cc
codes_eq (String.◌∷◌ c s) (String.◌∷◌ d t) h =
    let head : c ≡ d = Char-path c d (cc) in
    let tail : s ≡ t = codes_eq s t (cc) in λ i. String.◌∷◌ (head i) (tail i)

codes_lt_irrefl : (xs : List ℕ) → codes_lt xs xs ≡ false
unfolding codes_lt
codes_lt_irrefl [] = refl
codes_lt_irrefl (x ∷ xs) = ground (arith, codes_lt_irrefl xs)

codes_lt_total : (xs ys : List ℕ) → codes_lt xs ys ≡ false → (codes_lt ys xs ≡ true) ⊎ (xs ≡ ys)
unfolding codes_lt
codes_lt_total [] [] h = inr refl
codes_lt_total [] (y ∷ ys) h = cc
codes_lt_total (x ∷ xs) [] h = inl refl
codes_lt_total (x ∷ xs) (y ∷ ys) h = ground (arith, codes_lt_total xs ys)

pub str_lt_irrefl : (s : String) → str_lt s s ≡ false
unfolding str_lt
str_lt_irrefl s = codes_lt_irrefl (codes s)

pub str_lt_total : (s t : String) → str_lt s t ≡ false → str_eq s t ≡ false → str_lt t s ≡ true
unfolding str_lt
str_lt_total s t h e = elim (codes_lt_total (codes s) (codes t) h) [
  | inl l ↦ l
  | inr same ↦ absurd (ground (arith, (eq_iff s t).1 (codes_eq s t same)))
]

codes_lt_asym : (xs ys : List ℕ) → codes_lt xs ys ≡ true → codes_lt ys xs ≡ false
unfolding codes_lt
codes_lt_asym xs [] h = cc
codes_lt_asym [] (y ∷ ys) h = refl
codes_lt_asym (x ∷ xs) (y ∷ ys) h = ground (arith, codes_lt_asym xs ys)

pub str_lt_asym : (s t : String) → str_lt s t ≡ true → str_lt t s ≡ false
unfolding str_lt
str_lt_asym s t h = codes_lt_asym (codes s) (codes t) h

pub str_lt-str_eq : (s t : String) → str_lt s t ≡ true → str_eq s t ≡ false
str_lt-str_eq s t h = elim (Bool-cases (str_eq s t)) [
  | inr different ↦ different
  | inl same ↦
      let e : s ≡ t = (eq_iff s t).0 same in
      let l : str_lt t t ≡ true = rw e at h in absurd (ground (arith, l, str_lt_irrefl t))
]

codes_lt_trans :
    (xs ys zs : List ℕ) → codes_lt xs ys ≡ true → codes_lt ys zs ≡ true → codes_lt xs zs ≡ true
unfolding codes_lt
codes_lt_trans xs [] zs h k = cc
codes_lt_trans xs (y ∷ ys) [] h k = cc
codes_lt_trans [] (y ∷ ys) (z ∷ zs) h k = refl
codes_lt_trans (x ∷ xs) (y ∷ ys) (z ∷ zs) h k = ground (arith, codes_lt_trans xs ys zs)

pub str_lt_trans : (s t u : String) → str_lt s t ≡ true → str_lt t u ≡ true → str_lt s u ≡ true
unfolding str_lt
str_lt_trans s t u h k = codes_lt_trans (codes s) (codes t) (codes u) h k
