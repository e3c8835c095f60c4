-- ===== src/RoomStore/Sound/Setups.antt =====
-- The start of a setup and the listeners of frontend/src/stores/roomStore.ts keep the peers
-- and the timers sound.
use mathlib.Core.Path.{subst}
use shadowchat.Common.{
  ◌≡◌, refl, sym, ap, List, [], ◌∷◌, Option, none, some, String, Bool, true, false, Bool-cases,
  Option-cases, inl, inr, if◌then◌else◌,
}
use shadowchat.Common.Dict
use shadowchat.UiStore.{info}
use shadowchat.WebRtc.{new_manager}
use shadowchat.RoomStore.State.{Presence, IceServer, RoomState}
use shadowchat.RoomStore.Basics.{Env, given, toast, short_name, ◌+s◌}
use shadowchat.RoomStore.Peers.{set_manager, drain}
use shadowchat.RoomStore.Setup.{Setup, placeholder, requirements, begin_setup, attach_manager}
use shadowchat.RoomStore.Listeners.{
  text_lt, is_own, set_up_as, announce_peer, on_peer_joined, leave_peer, on_peer_left,
  on_room_state, on_offer, on_presence,
}
use shadowchat.RoomStore.Advance.{Advances-same}
use shadowchat.RoomStore.Sound.{
  IsSound, set-AllGood, delete-AllGood, Holds, update_peer-Holds, if-IsSound,
}
use shadowchat.RoomStore.Sound.Managers.{set_manager-IsGood, set_manager-Advances}

module _ {Key DB : Type 0} where
  placed-IsSound :
      (id : String) (is_initiator : Bool) (s : RoomState Key DB)
      → IsSound s
      → IsSound (record s { peers = Dict.set id (placeholder id is_initiator) s.peers })
  placed-IsSound id is_initiator s h = record {
    peers =
        set-AllGood id (placeholder id is_initiator) s.peers h.peers
          (record { own_id = refl; built = tt; keyed = tt });
    timers = h.timers;
  }

  pub begin_setup-IsSound :
      (id : String) (is_initiator : Bool) (s : RoomState Key DB)
      → IsSound s
      → IsSound (begin_setup id is_initiator s).0
  unfolding begin_setup
  begin_setup-IsSound id is_initiator s h = elim (Option-cases (requirements s)) [
    | inl missing ↦
        let e : begin_setup id is_initiator s ≡ (s, none) = rw (missing, begin_setup) refl in
        subst IsSound (sym (ap (λ t. t.0) e)) h
    | inr (setup, met) ↦ elim (Bool-cases (Dict.has id s.peers)) [
      | inl there ↦
          let e : begin_setup id is_initiator s ≡ (s, none) = rw (met, there, begin_setup) refl in
          subst IsSound (sym (ap (λ t. t.0) e)) h
      | inr absent ↦
          let e : begin_setup id is_initiator s ≡ (
            record s { peers = Dict.set id (placeholder id is_initiator) s.peers },
            some setup,
          ) =
            rw (met, absent, begin_setup) refl in
          subst IsSound (sym (ap (λ t. t.0) e)) (placed-IsSound id is_initiator s h)
    ]
  ]

  set_up_as-IsSound :
      (own : Option String) (id : String) (s : RoomState Key DB)
      → IsSound s
      → IsSound (set_up_as own id s).0
  unfolding set_up_as
  set_up_as-IsSound none id s h = h
  set_up_as-IsSound (some own) id s h = begin_setup-IsSound id (text_lt own id) s h

  -- A branch that returns, or that starts a setup.
  if_setup-IsSound :
      (b : Bool) (own : Option String) (id : String) (s t : RoomState Key DB)
      → IsSound s
      → IsSound t
      → IsSound (if b then (s, none) else set_up_as own id t).0
  if_setup-IsSound true own id s t h k = h
  if_setup-IsSound false own id s t h k = set_up_as-IsSound own id t k

  pub on_peer_joined-IsSound :
      (env : Env) (id : String) (s : RoomState Key DB)
      → IsSound s
      → IsSound (on_peer_joined env id s).0
  unfolding on_peer_joined toast
  on_peer_joined-IsSound env id s h =
      if_setup-IsSound (is_own s.peer_id id) (given s.peer_id) id s (announce_peer env id s) h
        (record { peers = h.peers; timers = h.timers })

  pub on_room_state-IsSound :
      (ids : List String) (s : RoomState Key DB) → IsSound s → IsSound (on_room_state ids s).0
  unfolding on_room_state
  on_room_state-IsSound [] s h = h
  on_room_state-IsSound (id ∷ ids) s h =
      on_room_state-IsSound ids
        (if is_own s.peer_id id then (s, none) else set_up_as (given s.peer_id) id s).0
        (if_setup-IsSound (is_own s.peer_id id) (given s.peer_id) id s s h h)

  pub on_offer-IsSound :
      (from : String) (s : RoomState Key DB) → IsSound s → IsSound (on_offer from s).0
  unfolding on_offer
  on_offer-IsSound from s h =
      if_setup-IsSound (Dict.has from s.peers) (given s.peer_id) from s s h h

  pub on_presence-Holds :
      {start : RoomState Key DB} (from : String) (presence : Presence) (s : RoomState Key DB)
      → Holds start s
      → Holds start (on_presence from presence s)
  unfolding on_presence
  on_presence-Holds from presence s h =
      update_peer-Holds from (λ peer. record peer { presence = presence }) s
        (λ peer there g. (
          record { own_id = g.own_id; built = g.built; keyed = g.keyed },
          Advances-same peer _ refl refl refl refl,
        ))
        h

  leave_peer-IsSound : (id : String) (s : RoomState Key DB) → IsSound s → IsSound (leave_peer id s)
  unfolding leave_peer
  leave_peer-IsSound id s h = elim (Option-cases (Dict.get id s.peers)) [
    | inl none_there ↦
        let e : leave_peer id s ≡ s = rw (none_there, leave_peer) refl in subst IsSound (sym e) h
    | inr (peer, there) ↦
        rw (there, leave_peer)
          (record { peers = delete-AllGood id s.peers h.peers; timers = h.timers })
  ]

  pub on_peer_left-IsSound :
      (env : Env) (id : String) (s : RoomState Key DB) → IsSound s → IsSound (on_peer_left env id s)
  unfolding on_peer_left toast drain
  on_peer_left-IsSound env id s h =
      let gone =
        leave_peer-IsSound id (drain id s) (record { peers = h.peers; timers = h.timers }) in
      let left = leave_peer id (drain id s) in
      if-IsSound s.ui.page_leaving left
        (toast env info "Peer Left" ("Connection with " +s short_name id +s " terminated.") left)
        gone (record { peers = gone.peers; timers = gone.timers })

  pub attach_manager-Holds :
      {start : RoomState Key DB} (setup : Setup Key) (id : String) (is_initiator : Bool)
      (servers : List IceServer) (s : RoomState Key DB)
      → Holds start s
      → Holds start (attach_manager setup id is_initiator servers s)
  unfolding attach_manager
  attach_manager-Holds setup id is_initiator servers s h =
      update_peer-Holds id (set_manager (new_manager is_initiator)) _
        (λ peer there g. (
          set_manager-IsGood id (new_manager is_initiator) peer g,
          set_manager-Advances (new_manager is_initiator) peer,
        ))
        (record { peers = h.peers; timers = h.timers; since = h.since })
