-- ===== src/Resources/States/Sorted.antt =====
-- Lists of names in order (`names.sort()` in `parse_backend_state`).
use agcoord.Base.{
  String, ◌≡◌, refl, Bool, true, false, not, ◌&&◌, List, [], ◌∷◌, str_lt, eq_iff, arith,
  str_lt_total, str_lt_asym, str_lt-str_eq,
}
use agcoord.Resources.States.{insert_name, sort_names, has_repeat}

-- Strictly in order.
unfoldable pub ascending : List String → Bool
ascending [] = true
ascending (a ∷ []) = true
ascending (a ∷ b ∷ more) = str_lt a b && ascending (b ∷ more)

-- Weakly in order.
pub sorted : List String → Bool
sorted [] = true
sorted (a ∷ []) = true
sorted (a ∷ b ∷ more) = not (str_lt b a) && sorted (b ∷ more)

sorted-insert_name :
    (name : String) (xs : List String) → sorted xs ≡ true → sorted (insert_name name xs) ≡ true
unfolding sorted insert_name
sorted-insert_name name [] h = refl
sorted-insert_name name (a ∷ []) h = ground (arith, str_lt_asym a name)
sorted-insert_name name (a ∷ b ∷ more) h =
    ground (arith, str_lt_asym a name, sorted-insert_name name (b ∷ more) (ground arith))

pub sorted-sort_names : (xs : List String) → sorted (sort_names xs) ≡ true
unfolding sorted sort_names
sorted-sort_names [] = refl
sorted-sort_names (x ∷ xs) = sorted-insert_name x (sort_names xs) (sorted-sort_names xs)

pub sorted-ascending :
    (xs : List String) → sorted xs ≡ true → has_repeat xs ≡ false → ascending xs ≡ true
unfolding sorted has_repeat ascending
sorted-ascending [] h r = refl
sorted-ascending (a ∷ []) h r = refl
sorted-ascending (a ∷ b ∷ more) h r = ground (
  arith,
  str_lt_total b a,
  eq_iff a b,
  eq_iff b a,
  sorted-ascending (b ∷ more) (ground arith) (ground arith),
)

pub ascending-sort_names : (xs : List String) → ascending xs ≡ true → sort_names xs ≡ xs
unfolding ascending sort_names insert_name
ascending-sort_names [] h = refl
ascending-sort_names (a ∷ []) h = refl
ascending-sort_names (a ∷ b ∷ more) h =
    rw (ascending-sort_names (b ∷ more) (ground arith)) (ground (arith, str_lt_asym a b))

pub ascending-has_repeat : (xs : List String) → ascending xs ≡ true → has_repeat xs ≡ false
unfolding ascending has_repeat
ascending-has_repeat [] h = refl
ascending-has_repeat (a ∷ []) h = refl
ascending-has_repeat (a ∷ b ∷ more) h =
    ground (arith, str_lt-str_eq a b, ascending-has_repeat (b ∷ more) (ground arith))
