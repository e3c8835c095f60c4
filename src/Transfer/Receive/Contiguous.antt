-- ===== src/Transfer/Receive/Contiguous.antt =====
-- The `while` loop that tracks the contiguous prefix.
use shadowchat.Common.{
  ℕ, zero, suc, ◌+◌, ◌-◌, ◌≤◌, ◌<◌, ◌≡◌, List, Bool-cases, true, false, inl, inr, arith, length,
  elem,
}
use native.Mathlib.Decide.{dec_lt}
use shadowchat.Common.Members.{length_of_run}
use shadowchat.Transfer.Receive.{advance}

-- `to` is the first index from `start` on that is not received.
pub record IsFirstMissing (received : List ℕ) (start to : ℕ) : Type 0 where
  pub from_start : start ≤ to
  pub missing : elem to received ≡ false
  pub prefix : (i : ℕ) → start ≤ i → i < to → elem i received ≡ true

seen_next :
    (start index : ℕ) (received : List ℕ)
    → ((i : ℕ) → start ≤ i → i < index → elem i received ≡ true)
    → elem index received ≡ true
    → (i : ℕ) → start ≤ i
    → i < index + 1
    → elem i received ≡ true
seen_next start index received seen here i a b = elim (dec_lt i index) [
  | yes q ↦ seen i a q
  | no q ↦ let e : i ≡ index = omega arith in rw e here
]

advance-IsFirstMissing_from :
    (fuel start index : ℕ) (received : List ℕ)
    → length received + start < fuel + index
    → start ≤ index
    → ((i : ℕ) → start ≤ i → i < index → elem i received ≡ true)
    → IsFirstMissing received start (advance fuel received index)
unfolding advance
advance-IsFirstMissing_from zero start index received hf hi seen =
    absurd (
      omega (arith, length_of_run (index - start) start received (λ i a b. seen i a (omega arith))))
advance-IsFirstMissing_from (suc fuel) start index received hf hi seen =
    elim (Bool-cases (elem index received)) [
      | inl here ↦ rw here (
          advance-IsFirstMissing_from fuel start (index + 1) received (omega arith) (omega arith)
            (seen_next start index received seen here))
      | inr gone ↦ rw gone (record { from_start = hi; missing = gone; prefix = seen })
    ]

-- With one round more than there are received chunks the loop ends by its test: it stops at the
-- first index that was not received, and every index before it, from where it started, was.
pub advance-IsFirstMissing :
    (received : List ℕ) (start : ℕ)
    → IsFirstMissing received start (advance (length received + 1) received start)
advance-IsFirstMissing received start =
    advance-IsFirstMissing_from (length received + 1) start start received (omega arith)
      (omega arith) (λ i a b. absurd (omega arith))
