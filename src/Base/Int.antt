-- ===== src/Base/Int.antt =====
-- Signed integers (`i64`) as the exit statuses use them: equality, and the range of an exit status.
use Prim.Native.Nat.{ℕ}
use mathlib.Core.Path.{◌≡◌}
use mathlib.Core.Logic.{◌↔◌}
use mathlib.Core.Bool.{Bool, true, false}
use mathlib.Core.Option.{Option, none, some}
use native.Mathlib.Omega.{arith}
use agcoord.Base.Tests.{◌==◌, leb}

-- `negsuc n` is -(n + 1).
pub data ℤ : Type 0 where
  pos : ℕ → ℤ
  negsuc : ℕ → ℤ

abbrev pub int_eq : ℤ → ℤ → Bool
int_eq (pos a) (pos b) = a == b
int_eq (negsuc a) (negsuc b) = a == b
int_eq _ _ = false

pub int_eq_iff : (a b : ℤ) → (int_eq a b ≡ true) ↔ (a ≡ b)
int_eq_iff (pos a) (pos b) = ground arith
int_eq_iff (pos a) (negsuc b) = ground arith
int_eq_iff (negsuc a) (pos b) = ground arith
int_eq_iff (negsuc a) (negsuc b) = ground arith

-- `a == Some(b)` on an optional integer.
abbrev pub is_int : Option ℤ → ℤ → Bool
is_int none b = false
is_int (some a) b = int_eq a b

-- `(0..=255).contains(&status)`
abbrev pub exit_range : ℤ → Bool
exit_range (pos n) = leb n 255
exit_range (negsuc n) = false

-- `a == b` on optional integers.
abbrev pub same_int : Option ℤ → Option ℤ → Bool
same_int none none = true
same_int (some a) (some b) = int_eq a b
same_int _ _ = false

pub is_int-eq : (a : Option ℤ) (b : ℤ) → is_int a b ≡ true → a ≡ some b
is_int-eq none b h = cc
is_int-eq (some a) b h = ground (arith, int_eq_iff a b)
