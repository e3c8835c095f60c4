-- ===== src/RoomStore/Roles.antt =====
-- Who starts a connection in frontend/src/stores/roomStore.ts: each side compares the two ids.
use Prim.Native.Nat.{Ordering, compare as compare_ℕ}
use Prim.Native.Char.{code}
use Prim.Native.String.compare
use Prim.Native.String.{then as then_by, compare}
use text.Mathlib.Text.{is_lt}
use text.Mathlib.TextEquality.{path_by_compare}
use shadowchat.Common.{
  ℕ, ◌≡◌, ◌≢◌, refl, sym, ap, ◌∙◌, [], ◌∷◌, Option, none, some, String, Bool, false, not, str_eq,
  eq_iff, arith, Bool-cases, inl, inr, if◌then◌else◌,
}
use shadowchat.Common.Dict
use shadowchat.RoomStore.State.{Peer, RoomState}
use shadowchat.RoomStore.Basics.{Env, given, toast}
use shadowchat.RoomStore.Setup.{Setup, requirements, placeholder, begin_setup}
use shadowchat.RoomStore.Listeners.{
  text_lt, is_own, announce_peer, set_up_as, on_peer_joined, on_room_state,
}

flip : Ordering → Ordering
flip Ordering.lt = Ordering.gt
flip Ordering.eq = Ordering.eq
flip Ordering.gt = Ordering.lt

flip-then : (o r : Ordering) → flip (then_by o r) ≡ then_by (flip o) (flip r)
unfolding flip
flip-then Ordering.lt r = refl
flip-then Ordering.eq r = refl
flip-then Ordering.gt r = refl

compare_number : (m n : ℕ) → compare_ℕ n m ≡ flip (compare_ℕ m n)
unfolding flip
compare_number m n = ground arith

compare-swap : (s t : String) → compare t s ≡ flip (compare s t)
unfolding flip
compare-swap String.[] String.[] = refl
compare-swap String.[] (String.◌∷◌ d t) =
    compare.cons-nil d t ∙ sym (ap flip (compare.nil-cons d t))
compare-swap (String.◌∷◌ c s) String.[] =
    compare.nil-cons c s ∙ sym (ap flip (compare.cons-nil c s))
compare-swap (String.◌∷◌ c s) (String.◌∷◌ d t) =
    compare.cons-cons d c t s
    ∙ ap (λ o. then_by o (compare t s)) (compare_number (code c) (code d))
    ∙ ap (λ o. then_by (flip (compare_ℕ (code c) (code d))) o) (compare-swap s t)
    ∙ sym (flip-then (compare_ℕ (code c) (code d)) (compare s t))
    ∙ sym (ap flip (compare.cons-cons c d s t))

lt-flip : (o : Ordering) → o ≢ Ordering.eq → is_lt (flip o) ≡ not (is_lt o)
unfolding flip
lt-flip Ordering.lt h = refl
lt-flip Ordering.eq h = absurd (h refl)
lt-flip Ordering.gt h = refl

-- Of two different texts exactly one is the smaller.
pub text_lt-swap : (s t : String) → s ≢ t → text_lt t s ≡ not (text_lt s t)
text_lt-swap s t h =
    ap is_lt (compare-swap s t) ∙ lt-flip (compare s t) (λ e. h (path_by_compare s t e))

given-some : (o : Option String) (x : String) → given o ≡ some x → o ≡ some x
given-some none x h = cc
given-some (some s) x h = elim (Bool-cases (str_eq s "")) [
  | inl blank ↦ let bad = rw blank at h in cc
  | inr text ↦ rw text at h
]

other_id : (o : Option String) (x y : String) → given o ≡ some x → x ≢ y → is_own o y ≡ false
other_id o x y h different = ap (λ t. is_own t y) (given-some o x h) ∙ ground (arith, eq_iff y x)

module _ {Key DB : Type 0} where
  begun :
      (id : String) (is_initiator : Bool) (setup : Setup Key) (s : RoomState Key DB)
      → requirements s ≡ some setup
      → Dict.get id s.peers ≡ none
      → begin_setup id is_initiator s
        ≡ (record s { peers = Dict.set id (placeholder id is_initiator) s.peers }, some setup)
  unfolding begin_setup Dict.has
  begun id is_initiator setup s h absent = rw (h, absent, begin_setup) refl

  -- What a store makes of the id of a peer that it does not know yet.
  joined :
      (env : Env) (x y : String) (setup : Setup Key) (s : RoomState Key DB)
      → given s.peer_id ≡ some x
      → x ≢ y
      → requirements s ≡ some setup
      → Dict.get y s.peers ≡ none
      → Dict.get y (on_peer_joined env y s).0.peers ≡ some (placeholder y (text_lt x y))
  unfolding on_peer_joined toast set_up_as
  joined env x y setup s named different ready absent =
      let told = announce_peer env y s in
      ap (λ b. Dict.get y (if b then (s, none) else set_up_as (given s.peer_id) y told).0.peers)
        (other_id s.peer_id x y named different)
      ∙ ap (λ o. Dict.get y (set_up_as o y told).0.peers) named
      ∙ ap (λ t. Dict.get y t.0.peers) (begun y (text_lt x y) setup told ready absent)
      ∙ Dict.get-set_self y (placeholder y (text_lt x y)) s.peers

  -- What a newcomer makes of the one peer that the room has.
  found :
      (x y : String) (setup : Setup Key) (s : RoomState Key DB)
      → given s.peer_id ≡ some x
      → x ≢ y
      → requirements s ≡ some setup
      → Dict.get y s.peers ≡ none
      → Dict.get y (on_room_state (y ∷ []) s).0.peers ≡ some (placeholder y (text_lt x y))
  unfolding on_room_state set_up_as
  found x y setup s named different ready absent =
      ap (λ b. Dict.get y (if b then (s, none) else set_up_as (given s.peer_id) y s).0.peers)
        (other_id s.peer_id x y named different)
      ∙ ap (λ o. Dict.get y (set_up_as o y s).0.peers) named
      ∙ ap (λ t. Dict.get y t.0.peers) (begun y (text_lt x y) setup s ready absent)
      ∙ Dict.get-set_self y (placeholder y (text_lt x y)) s.peers

-- Take two stores with different ids that have what a connection needs and do not know one another.
-- The one that is in the room hears that the other has joined, and the newcomer gets a list with the
-- first. Then each has an entry for the other, and exactly one of the two is the initiator.
pub on_peer_joined-on_room_state :
    {Key DB : Type 0} (env : Env) (x y : String) (at_a at_b : Setup Key) (a b : RoomState Key DB)
    → given a.peer_id ≡ some x
    → given b.peer_id ≡ some y
    → x ≢ y
    → requirements a ≡ some at_a
    → requirements b ≡ some at_b
    → Dict.get y a.peers ≡ none
    → Dict.get x b.peers ≡ none
    → (q : Peer Key DB) × (r : Peer Key DB) × (Dict.get y (on_peer_joined env y a).0.peers ≡ some q)
      × (Dict.get x (on_room_state (x ∷ []) b).0.peers ≡ some r)
      × (r.is_initiator ≡ not q.is_initiator)
on_peer_joined-on_room_state env x y at_a at_b a b named_a named_b different ready_a ready_b new_a
      new_b =
    (
      placeholder y (text_lt x y),
      placeholder x (text_lt y x),
      joined env x y at_a a named_a different ready_a new_a,
      found y x at_b b named_b (λ e. different (sym e)) ready_b new_b,
      text_lt-swap x y different,
    )
