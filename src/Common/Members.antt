-- ===== src/Common/Members.antt =====
-- Sets of numbers kept as lists without repetition: membership, removal, and counting.
use Prim.Native.Nat.{ℕ, zero, suc, ◌+◌, ◌≤◌, ◌<◌}
use mathlib.Core.Path.{◌≡◌, refl, sym}
use mathlib.Core.Logic.{◌≢◌}
use mathlib.Core.Bool.{true, false}
use mathlib.Core.List.{List, [], ◌∷◌, ◌++◌}
use native.Mathlib.Omega.{arith}
use shadowchat.Common.Tests.{if◌then◌else◌, ◌==◌}
use shadowchat.Common.Lists.{length, elem}
use shadowchat.Common.Sorting.{Absent, Distinct}

remove : ℕ → List ℕ → List ℕ
remove k [] = []
remove k (x ∷ xs) = let rest = remove k xs in if x == k then rest else x ∷ rest

elem-remove : (i k : ℕ) (xs : List ℕ) → i ≢ k → elem i (remove k xs) ≡ elem i xs
unfolding remove
elem-remove i k [] h = refl
elem-remove i k (x ∷ xs) h = ground (arith, elem-remove i k xs h)

length-remove-le : (k : ℕ) (xs : List ℕ) → length (remove k xs) ≤ length xs
unfolding remove
length-remove-le k [] = omega arith
length-remove-le k (x ∷ xs) = ground (arith, length-remove-le k xs)

length-remove-lt : (k : ℕ) (xs : List ℕ) → elem k xs ≡ true → length (remove k xs) < length xs
unfolding remove
length-remove-lt k [] h = cc
length-remove-lt k (x ∷ xs) h = ground (arith, length-remove-le k xs, length-remove-lt k xs)

-- A list with all the numbers from `lo` to `lo + n - 1` has `n` elements at least.
pub length_of_run :
    (n lo : ℕ) (xs : List ℕ) → ((i : ℕ) → lo ≤ i → i < lo + n → elem i xs ≡ true) → n ≤ length xs
length_of_run zero lo xs h = omega arith
length_of_run (suc n) lo xs h =
    let top : elem (lo + n) xs ≡ true = h (lo + n) (omega arith) (omega arith) in
    let shorter : n ≤ length (remove (lo + n) xs) =
      length_of_run n lo (remove (lo + n) xs)
        (λ i hi hj. rw (elem-remove i (lo + n) xs (omega arith)) (h i hi (omega arith))) in
    omega (arith, length-remove-lt (lo + n) xs top)

pub elem-append :
    (i k : ℕ) (xs : List ℕ) → elem i (xs ++ (k ∷ [])) ≡ (if k == i then true else elem i xs)
elem-append i k [] = refl
elem-append i k (x ∷ xs) = ground (arith, elem-append i k xs)

Absent-append_one :
    (k i : ℕ) (xs : List ℕ) → k ≢ i → Absent (λ j. j) k xs → Absent (λ j. j) k (xs ++ (i ∷ []))
Absent-append_one k i [] h a = ((λ e. h (sym e)), tt)
Absent-append_one k i (x ∷ xs) h a = (a.0, Absent-append_one k i xs h a.1)

-- A new element keeps a list without repetition.
pub Distinct-append_one :
    (xs : List ℕ) (i : ℕ)
    → elem i xs ≡ false
    → Distinct (λ j. j) xs
    → Distinct (λ j. j) (xs ++ (i ∷ []))
Distinct-append_one [] i h d = (tt, tt)
Distinct-append_one (y ∷ ys) i h d =
    (Absent-append_one y i ys (ground arith) d.0, Distinct-append_one ys i (ground arith) d.1)
