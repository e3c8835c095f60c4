-- ===== src/RoomStore/Sound/Turns.antt =====
-- What a step of the store of frontend/src/stores/roomStore.ts does to the entry of one peer: it advances, it
-- is set up, or it goes.
use mathlib.Core.Path.{subst}
use shadowchat.Common.{
  ◌≡◌, refl, sym, ap, ◌∙◌, List, [], ◌∷◌, Option, none, some, String, Bool, true, false, str_eq,
  eq_iff, Bool-cases, Option-cases, ◌⊎◌, inl, inr, if◌then◌else◌,
}
use shadowchat.Common.Dict
use shadowchat.UiStore.{info}
use shadowchat.RoomStore.State.{Peer, RoomState}
use shadowchat.RoomStore.Basics.{Env, given, toast, short_name, ◌+s◌}
use shadowchat.RoomStore.Peers.{drain}
use shadowchat.RoomStore.Setup.{placeholder, requirements, begin_setup}
use shadowchat.RoomStore.Session.{disconnect_room}
use shadowchat.RoomStore.Listeners.{
  text_lt, is_own, set_up_as, announce_peer, on_peer_joined, leave_peer, on_peer_left,
  on_room_state, on_offer,
}
use shadowchat.RoomStore.Advance.{Forward, Forward-refl}
use shadowchat.RoomStore.Sound.{IsSound, Holds}

module _ {Key DB : Type 0} where
  pub data Turns (id : String) (s t : RoomState Key DB) : Type 0 where
    advances : Forward (Dict.get id s.peers) (Dict.get id t.peers) → Turns id s t
    joins :
        (is_initiator : Bool)
        → Dict.get id s.peers ≡ none
        → Dict.get id t.peers ≡ some (placeholder id is_initiator)
        → Turns id s t
    leaves : Dict.get id t.peers ≡ none → Turns id s t

  -- A step ends in a sound state, and every peer's entry takes one of the turns.
  pub record Progress (s t : RoomState Key DB) : Type 0 where
    pub sound : IsSound t
    pub turns : (id : String) → Turns id s t

  pub Holds-Progress : (s t : RoomState Key DB) → Holds s t → Progress s t
  Holds-Progress s t h = record {
    sound = record { peers = h.peers; timers = h.timers };
    turns = λ id. advances (h.since id);
  }

  pub unturned :
      (id : String) (s t : RoomState Key DB)
      → Dict.get id t.peers ≡ Dict.get id s.peers
      → Turns id s t
  unturned id s t e =
      advances (subst (Forward (Dict.get id s.peers)) (sym e) (Forward-refl (Dict.get id s.peers)))

  -- Setups only: the entry is as it was, or there was none and it is set up.
  abbrev pub Joins : String → RoomState Key DB → RoomState Key DB → Type 0
  Joins id s t =
      (Dict.get id t.peers ≡ Dict.get id s.peers)
      ⊎ ((is_initiator : Bool) × (Dict.get id s.peers ≡ none)
          × (Dict.get id t.peers ≡ some (placeholder id is_initiator)))

  pub Joins-Turns : (id : String) (s t : RoomState Key DB) → Joins id s t → Turns id s t
  Joins-Turns id s t (inl same) = unturned id s t same
  Joins-Turns id s t (inr (b, before, after)) = joins b before after

  Joins-trans :
      (id : String) (s t u : RoomState Key DB) → Joins id s t → Joins id t u → Joins id s u
  Joins-trans id s t u (inl h) (inl k) = inl (k ∙ h)
  Joins-trans id s t u (inl h) (inr (b, before, after)) = inr (b, sym h ∙ before, after)
  Joins-trans id s t u (inr (b, before, after)) (inl k) = inr (b, before, k ∙ after)
  Joins-trans id s t u (inr (b, before, after)) (inr (c, gone, again)) =
      let bad : some (placeholder {Key = Key} {DB = DB} id b) ≡ none = sym after ∙ gone in cc

  placed-Joins :
      (id j : String) (b : Bool) (s : RoomState Key DB)
      → Dict.get id s.peers ≡ none
      → Joins j s (record s { peers = Dict.set id (placeholder id b) s.peers })
  placed-Joins id j b s absent = elim (Bool-cases (str_eq id j)) [
    | inl same ↦
        let e = (eq_iff id j).0 same in
        subst (λ k. Joins k s (record s { peers = Dict.set id (placeholder id b) s.peers })) e
          (inr (b, absent, Dict.get-set_self id (placeholder id b) s.peers))
    | inr other ↦
        let ne : id ≡ j → ⊥ = λ e. let yes = (eq_iff id j).1 e in cc in
        inl (Dict.get-set_ne id j (placeholder id b) s.peers ne)
  ]

  has-none :
      (id : String) (s : RoomState Key DB)
      → Dict.has id s.peers ≡ false
      → Dict.get id s.peers ≡ none
  unfolding Dict.has
  has-none id s e = elim (Option-cases (Dict.get id s.peers)) [
    | inl absent ↦ absent
    | inr (peer, there) ↦ let bad = rw there at e in cc
  ]

  pub begin_setup-Joins :
      (id j : String) (b : Bool) (s : RoomState Key DB) → Joins j s (begin_setup id b s).0
  unfolding begin_setup
  begin_setup-Joins id j b s = elim (Option-cases (requirements s)) [
    | inl missing ↦ rw (missing, begin_setup) (inl refl)
    | inr (setup, met) ↦ elim (Bool-cases (Dict.has id s.peers)) [
      | inl there ↦ rw (met, there, begin_setup) (inl refl)
      | inr absent ↦ rw (met, absent, begin_setup) (placed-Joins id j b s (has-none id s absent))
    ]
  ]

  set_up_as-Joins :
      (own : Option String) (id j : String) (s : RoomState Key DB)
      → Joins j s (set_up_as own id s).0
  unfolding set_up_as
  set_up_as-Joins none id j s = inl refl
  set_up_as-Joins (some own) id j s = begin_setup-Joins id j (text_lt own id) s

  -- A branch that returns, or that starts a setup.
  if_setup-Joins :
      (b : Bool) (own : Option String) (id j : String) (s : RoomState Key DB)
      → Joins j s (if b then (s, none) else set_up_as own id s).0
  if_setup-Joins true own id j s = inl refl
  if_setup-Joins false own id j s = set_up_as-Joins own id j s

  pub on_peer_joined-Joins :
      (env : Env) (id j : String) (s : RoomState Key DB) → Joins j s (on_peer_joined env id s).0
  unfolding on_peer_joined toast
  on_peer_joined-Joins env id j s = elim (Bool-cases (is_own s.peer_id id)) [
    | inl own ↦ rw (own, on_peer_joined) (inl refl)
    | inr other ↦
        rw (other, on_peer_joined) (set_up_as-Joins (given s.peer_id) id j (announce_peer env id s))
  ]

  pub on_room_state-Joins :
      (ids : List String) (j : String) (s : RoomState Key DB) → Joins j s (on_room_state ids s).0
  unfolding on_room_state
  on_room_state-Joins [] j s = inl refl
  on_room_state-Joins (id ∷ ids) j s =
      let next = (if is_own s.peer_id id then (s, none) else set_up_as (given s.peer_id) id s).0 in
      Joins-trans j s next (on_room_state ids next).0
        (if_setup-Joins (is_own s.peer_id id) (given s.peer_id) id j s)
        (on_room_state-Joins ids j next)

  pub on_offer-Joins : (from j : String) (s : RoomState Key DB) → Joins j s (on_offer from s).0
  unfolding on_offer
  on_offer-Joins from j s = if_setup-Joins (Dict.has from s.peers) (given s.peer_id) from j s

  pub delete-Turns :
      (id j : String) (s t : RoomState Key DB) → t.peers ≡ Dict.delete id s.peers → Turns j s t
  delete-Turns id j s t e = elim (Bool-cases (str_eq id j)) [
    | inl same ↦ leaves (
        ap (Dict.get j) e
        ∙ ap (λ k. Dict.get j (Dict.delete k s.peers)) ((eq_iff id j).0 same)
        ∙ Dict.get-delete_self j s.peers)
    | inr other ↦
        let ne : id ≡ j → ⊥ = λ h. let yes = (eq_iff id j).1 h in cc in
        unturned j s t (ap (Dict.get j) e ∙ Dict.get-delete_ne id j s.peers ne)
  ]

  leave_peer-peers :
      (id : String) (s : RoomState Key DB)
      → ((leave_peer id s).peers ≡ s.peers) ⊎ ((leave_peer id s).peers ≡ Dict.delete id s.peers)
  unfolding leave_peer
  leave_peer-peers id s = elim (Option-cases (Dict.get id s.peers)) [
    | inl none_there ↦ rw (none_there, leave_peer) (inl refl)
    | inr (peer, there) ↦ rw (there, leave_peer) (inr refl)
  ]

  same_or_deleted-Turns :
      (id j : String) (s t : RoomState Key DB)
      → (t.peers ≡ s.peers) ⊎ (t.peers ≡ Dict.delete id s.peers)
      → Turns j s t
  same_or_deleted-Turns id j s t (inl same) = unturned j s t (ap (Dict.get j) same)
  same_or_deleted-Turns id j s t (inr gone) = delete-Turns id j s t gone

  if-Turns :
      (b : Bool) (j : String) (s t u : RoomState Key DB)
      → Turns j s t
      → Turns j s u
      → Turns j s (if b then t else u)
  if-Turns true j s t u h k = h
  if-Turns false j s t u h k = k

  pub on_peer_left-Turns :
      (env : Env) (id j : String) (s : RoomState Key DB) → Turns j s (on_peer_left env id s)
  unfolding on_peer_left toast drain
  on_peer_left-Turns env id j s =
      let gone = leave_peer id (drain id s) in
      let told =
        toast env info "Peer Left" ("Connection with " +s short_name id +s " terminated.") gone in
      if-Turns s.ui.page_leaving j s gone told
        (same_or_deleted-Turns id j s gone (leave_peer-peers id (drain id s)))
        (same_or_deleted-Turns id j s told (leave_peer-peers id (drain id s)))

  pub if_gone-Turns :
      (o : Option (Peer Key DB)) (id j : String) (s : RoomState Key DB)
      → Turns j s
          (elim o [ none ↦ s | some peer ↦ record (drain id s) { peers = Dict.delete id s.peers } ])
  unfolding drain
  if_gone-Turns none id j s = unturned j s s refl
  if_gone-Turns (some peer) id j s = delete-Turns id j s _ refl

  pub disconnect_room-Turns : (j : String) (s : RoomState Key DB) → Turns j s (disconnect_room s)
  unfolding disconnect_room Dict.get
  disconnect_room-Turns j s = leaves refl
