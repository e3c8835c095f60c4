-- ===== src/Common/Sorting.antt =====
-- Stable insertion sort by a number, and lists in strictly ascending order.
use Prim.Native.Nat.{ℕ, suc, ◌+◌, ◌-◌, ◌≤◌, ◌<◌}
use mathlib.Core.Path.{◌≡◌}
use mathlib.Core.Logic.{◌≢◌}
use mathlib.Core.List.{List, [], ◌∷◌}
use native.Mathlib.Omega.{arith}
use shadowchat.Common.Tests.{if◌then◌else◌, leb}
use shadowchat.Common.Lists.{length, All}

module _ {ℓ} {A : Type ℓ} (key : A → ℕ) where
  -- `a` goes before the elements whose key is not smaller.
  unfoldable pub insert_by : A → List A → List A
  insert_by a [] = a ∷ []
  insert_by a (x ∷ xs) =
      let rest = insert_by a xs in if leb (key a) (key x) then a ∷ x ∷ xs else x ∷ rest

  unfoldable pub sort_by : List A → List A
  unfolding insert_by
  sort_by [] = []
  sort_by (x ∷ xs) = insert_by x (sort_by xs)

  -- No element has the key `k`.
  abbrev pub Absent : ℕ → List A → Type 0
  Absent k = All (λ x. key x ≢ k)

  abbrev pub Distinct : List A → Type 0
  Distinct [] = Unit
  Distinct (x ∷ xs) = Absent (key x) xs × Distinct xs

  -- The keys start at `lo` or later and grow strictly.
  abbrev pub IsAscending : ℕ → List A → Type 0
  IsAscending lo [] = Unit
  IsAscending lo (x ∷ xs) = (lo ≤ key x) × IsAscending (suc (key x)) xs

  -- The keys are `lo`, `lo + 1` and so on.
  abbrev pub IsRun : ℕ → List A → Type 0
  IsRun lo [] = Unit
  IsRun lo (x ∷ xs) = (key x ≡ lo) × IsRun (suc lo) xs

  module _ {κ} (P : A → Type κ) where
    All-insert_by : (a : A) (xs : List A) → P a → All P xs → All P (insert_by a xs)
    unfolding insert_by
    All-insert_by a [] p h = (p, tt)
    All-insert_by a (x ∷ xs) p h = ground (arith, All-insert_by a xs p h.1)

    pub All-sort_by : (xs : List A) → All P xs → All P (sort_by xs)
    unfolding sort_by
    All-sort_by [] h = tt
    All-sort_by (x ∷ xs) h = All-insert_by x (sort_by xs) h.0 (All-sort_by xs h.1)

  length-insert_by : (a : A) (xs : List A) → length (insert_by a xs) ≡ suc (length xs)
  unfolding insert_by
  length-insert_by a [] = omega arith
  length-insert_by a (x ∷ xs) = ground (arith, length-insert_by a xs)

  pub length-sort_by : (xs : List A) → length (sort_by xs) ≡ length xs
  unfolding sort_by
  length-sort_by [] = omega arith
  length-sort_by (x ∷ xs) = omega (arith, length-insert_by x (sort_by xs), length-sort_by xs)

  insert_by-IsAscending :
      (a : A) (lo : ℕ) (xs : List A)
      → lo ≤ key a
      → Absent (key a) xs
      → IsAscending lo xs
      → IsAscending lo (insert_by a xs)
  unfolding insert_by
  insert_by-IsAscending a lo [] h n s = (h, tt)
  insert_by-IsAscending a lo (x ∷ xs) h n s =
      ground (arith, insert_by-IsAscending a (suc (key x)) xs)

  pub sort_by-IsAscending : (xs : List A) → Distinct xs → IsAscending 0 (sort_by xs)
  unfolding sort_by
  sort_by-IsAscending [] d = tt
  sort_by-IsAscending (x ∷ xs) d =
      insert_by-IsAscending x 0 (sort_by xs) (omega arith) (All-sort_by _ xs d.0)
        (sort_by-IsAscending xs d.1)

  length-le_of_IsAscending :
      (lo n : ℕ) (xs : List A) → All (λ x. key x < n) xs → IsAscending lo xs → length xs ≤ n - lo
  length-le_of_IsAscending lo n [] h s = omega arith
  length-le_of_IsAscending lo n (x ∷ xs) h s =
      omega (arith, length-le_of_IsAscending (suc (key x)) n xs h.1 s.1)

  IsRun-IsAscending :
      (lo n : ℕ) (xs : List A)
      → All (λ x. key x < n) xs
      → IsAscending lo xs
      → n ≤ lo + length xs
      → IsRun lo xs
  IsRun-IsAscending lo n [] h s e = tt
  IsRun-IsAscending lo n (x ∷ xs) h s e =
      let first : key x ≡ lo = omega (arith, length-le_of_IsAscending (suc (key x)) n xs h.1 s.1) in
      (first, IsRun-IsAscending (suc lo) n xs h.1 (rw (← first) s.1) (omega arith))

  -- As many distinct keys below `n` as there can be: sorting lists all of them in order.
  pub sort_by-IsRun :
      (n : ℕ) (xs : List A)
      → Distinct xs
      → All (λ x. key x < n) xs
      → n ≤ length xs
      → IsRun 0 (sort_by xs)
  sort_by-IsRun n xs d h e =
      IsRun-IsAscending 0 n (sort_by xs) (All-sort_by _ xs h) (sort_by-IsAscending xs d)
        (omega (arith, length-sort_by xs))

  -- There are at most `n` distinct keys below `n`.
  pub length-le_of_Distinct :
      (n : ℕ) (xs : List A) → Distinct xs → All (λ x. key x < n) xs → length xs ≤ n
  length-le_of_Distinct n xs d h = omega (
    arith,
    length-le_of_IsAscending 0 n (sort_by xs) (All-sort_by _ xs h) (sort_by-IsAscending xs d),
    length-sort_by xs,
  )
