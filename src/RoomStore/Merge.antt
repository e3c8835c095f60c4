-- ===== src/RoomStore/Merge.antt =====
-- The loop over a history bundle in frontend/src/stores/roomStore.ts: the messages that are new.
use shadowchat.Common.{
  ◌≡◌, refl, sym, ap, ◌∙◌, List, [], ◌∷◌, ◌++◌, append_assoc, append-nil, Option, String, true,
  false, eq_iff, arith, All, All-weaken, Bool-cases, inl, inr, if◌then◌else◌,
}
use mathlib.Core.Path.{subst}
use text.Mathlib.TextPositions.{eq_refl}
use shadowchat.RoomStore.State.{ChatMessage}
use shadowchat.RoomStore.Inbox.{is_known, named_by, new_messages}

-- No two messages have one id.
abbrev pub DistinctIds : List ChatMessage → Type 0
DistinctIds [] = Unit
DistinctIds (m ∷ ms) = (is_known m.id ms ≡ false) × DistinctIds ms

-- The message is in the bundle, but for the name of its sender.
abbrev pub IsFrom : List ChatMessage → ChatMessage → Type 0
IsFrom bundle m =
    (before : List ChatMessage) × (sent : ChatMessage) × (after : List ChatMessage) × (bundle
      ≡ before ++ (sent ∷ after))
    × (m ≡ record sent { sender_name = m.sender_name })

known-append :
    (id : String) (xs ys : List ChatMessage)
    → is_known id (xs ++ ys) ≡ (if is_known id xs then true else is_known id ys)
unfolding is_known
known-append id [] ys = refl
known-append id (x ∷ xs) ys = ground (arith, known-append id xs ys)

known_left :
    (id : String) (xs ys : List ChatMessage) → is_known id xs ≡ true → is_known id (xs ++ ys) ≡ true
known_left id xs ys h = known-append id xs ys ∙ rw h refl

Distinct-snoc :
    (xs : List ChatMessage) (m : ChatMessage)
    → DistinctIds xs
    → is_known m.id xs ≡ false
    → DistinctIds (xs ++ (m ∷ []))
unfolding is_known
Distinct-snoc [] m d h = (refl, tt)
Distinct-snoc (x ∷ xs) m d h = (
  known-append x.id xs (m ∷ []) ∙ ground (arith, eq_iff m.id x.id, eq_iff x.id m.id),
  Distinct-snoc xs m d.1 (ground arith),
)

new_known :
    (own : Option String) (known : List ChatMessage) (m : ChatMessage) (ms : List ChatMessage)
    → is_known m.id known ≡ true
    → new_messages own known (m ∷ ms) ≡ new_messages own known ms
unfolding new_messages
new_known own known m ms h = rw (h, new_messages) refl

new_unknown :
    (own : Option String) (known : List ChatMessage) (m : ChatMessage) (ms : List ChatMessage)
    → is_known m.id known ≡ false
    → new_messages own known (m ∷ ms)
      ≡ named_by own m ∷ new_messages own (known ++ (named_by own m ∷ [])) ms
unfolding new_messages
new_unknown own known m ms h = rw (h, new_messages) refl

pub new-DistinctIds :
    (own : Option String) (known bundle : List ChatMessage)
    → DistinctIds known
    → DistinctIds (known ++ new_messages own known bundle)
unfolding new_messages
new-DistinctIds own known [] d = rw (append-nil known) d
new-DistinctIds own known (m ∷ ms) d = elim (Bool-cases (is_known m.id known)) [
  | inl old ↦ rw (new_known own known m ms old) (new-DistinctIds own known ms d)
  | inr new ↦
      let named = named_by own m in
      rw
        (
          new_unknown own known m ms new,
          ← append_assoc known (named ∷ []) (new_messages own (known ++ (named ∷ [])) ms),
        )
        (new-DistinctIds own (known ++ (named ∷ [])) ms (Distinct-snoc known named d new))
]

abbrev pub Knows : List ChatMessage → List ChatMessage → Type 0
Knows messages bundle = All (λ m. is_known m.id messages ≡ true) bundle

-- Every message of the bundle is known after the merge.
pub new-Knows :
    (own : Option String) (known bundle : List ChatMessage)
    → Knows (known ++ new_messages own known bundle) bundle
new-Knows own known [] = tt
new-Knows own known (m ∷ ms) = elim (Bool-cases (is_known m.id known)) [
  | inl old ↦
      subst (λ l. Knows l (m ∷ ms)) (sym (ap (λ l. known ++ l) (new_known own known m ms old)))
        (known_left m.id known (new_messages own known ms) old, new-Knows own known ms)
  | inr new ↦
      let named = named_by own m in
      let longer = known ++ (named ∷ []) in
      subst (λ l. Knows l (m ∷ ms))
        (append_assoc known (named ∷ []) (new_messages own longer ms)
          ∙ sym (ap (λ l. known ++ l) (new_unknown own known m ms new)))
        (
          known_left m.id longer (new_messages own longer ms) (
              known-append m.id known (named ∷ [])
              ∙ rw new (unfold is_known in rw (eq_refl m.id) refl)),
          new-Knows own longer ms,
        )
]

-- A bundle that is known brings nothing.
pub new-nil :
    (own : Option String) (known bundle : List ChatMessage)
    → Knows known bundle
    → new_messages own known bundle ≡ []
unfolding new_messages
new-nil own known [] h = refl
new-nil own known (m ∷ ms) h = new_known own known m ms h.0 ∙ new-nil own known ms h.1

IsFrom-cons :
    (m : ChatMessage) (ms : List ChatMessage) (n : ChatMessage) → IsFrom ms n → IsFrom (m ∷ ms) n
IsFrom-cons m ms n (before, sent, after, e, same) =
    (m ∷ before, sent, after, ap (λ t. m ∷ t) e, same)

pub new-IsFrom :
    (own : Option String) (known bundle : List ChatMessage)
    → All (IsFrom bundle) (new_messages own known bundle)
unfolding new_messages
new-IsFrom own known [] = tt
new-IsFrom own known (m ∷ ms) = elim (Bool-cases (is_known m.id known)) [
  | inl old ↦
      rw (new_known own known m ms old)
        (All-weaken (IsFrom-cons m ms) (new_messages own known ms) (new-IsFrom own known ms))
  | inr new ↦
      let later = known ++ (named_by own m ∷ []) in
      rw (new_unknown own known m ms new) (
        ([], m, ms, refl, refl),
        All-weaken (IsFrom-cons m ms) (new_messages own later ms) (new-IsFrom own later ms),
      )
]
