-- ===== src/RoomStore/Listeners.antt =====
-- The listeners of `connectSignaling` in frontend/src/stores/roomStore.ts for the messages of other peers. A
-- setup that a listener starts runs up to its first wait.
use text.Mathlib.Text.{is_lt}
use Prim.Native.String.{compare}
use shadowchat.Common.{
  List, [], ◌∷◌, Option, none, some, String, Bool, false, str_eq, if◌then◌else◌,
}
use shadowchat.Common.Dict
use shadowchat.Platform.{Platform}
use shadowchat.Crypto.{KeyExchangePacket}
use shadowchat.UiStore.{info}
use shadowchat.WebRtc.{close}
use shadowchat.RoomStore.State.{
  Presence, offer_action, answer_action, ice_action, key_action, RoomState,
}
use shadowchat.RoomStore.Basics.{Env, short_name, given, ◌+s◌, update_peer, toast}
use shadowchat.RoomStore.Peers.{drain, queue_or_execute}
use shadowchat.RoomStore.Session.{close_manager}
use shadowchat.RoomStore.Setup.{Setup, begin_setup}

-- `a < b` on texts, by code points; the ids that the program makes are ASCII.
abbrev pub text_lt : String → String → Bool
text_lt a b = is_lt (compare a b)

abbrev pub is_own : Option String → String → Bool
is_own none id = false
is_own (some own) id = str_eq id own

module _ {Key DB : Type 0} where
  -- `setupWebRTCPeer(id, own < id)`, if the store has an id of its own.
  unfoldable pub set_up_as :
      Option String → String → RoomState Key DB → RoomState Key DB × Option (Setup Key)
  unfolding begin_setup
  set_up_as none id s = (s, none)
  set_up_as (some own) id s = begin_setup id (text_lt own id) s

  abbrev pub announce_peer : Env → String → RoomState Key DB → RoomState Key DB
  announce_peer env id s =
      toast env info "Peer Joined"
        ("Establishing direct P2P tunnel with " +s short_name id +s "...") s

  unfoldable pub on_peer_joined :
      Env → String → RoomState Key DB → RoomState Key DB × Option (Setup Key)
  unfolding toast set_up_as
  on_peer_joined env id s =
      if is_own s.peer_id id
      then (s, none)
      else set_up_as (given s.peer_id) id (announce_peer env id s)

  unfoldable pub leave_peer : String → RoomState Key DB → RoomState Key DB
  unfolding close
  leave_peer id s = elim (Dict.get id s.peers) [
    | none ↦ s
    | some peer ↦ record s {
      peers = Dict.delete id s.peers;
      closed_managers = close_manager peer s.closed_managers;
    }
  ]

  unfoldable pub on_peer_left : Env → String → RoomState Key DB → RoomState Key DB
  unfolding toast drain leave_peer
  on_peer_left env id s =
      let gone = leave_peer id (drain id s) in
      if s.ui.page_leaving
      then gone
      else toast env info "Peer Left" ("Connection with " +s short_name id +s " terminated.") gone

  -- The setups that the peers of a `room-state` start, with the state after all of them.
  unfoldable pub on_room_state :
      List String → RoomState Key DB → RoomState Key DB × List (String × Setup Key)
  unfolding set_up_as
  on_room_state [] s = (s, [])
  on_room_state (id ∷ ids) s =
      let (next, setup) =
        if is_own s.peer_id id then (s, none) else set_up_as (given s.peer_id) id s in
      let (end, more) = on_room_state ids next in
      (end, elim setup [ none ↦ more | some started ↦ (id, started) ∷ more ])

  -- `offer` up to its wait: an unknown peer is set up first, and the action follows the setup.
  unfoldable pub on_offer : String → RoomState Key DB → RoomState Key DB × Option (Setup Key)
  unfolding set_up_as
  on_offer from s = if Dict.has from s.peers then (s, none) else set_up_as (given s.peer_id) from s

  unfoldable pub on_presence : String → Presence → RoomState Key DB → RoomState Key DB
  unfolding update_peer
  on_presence from presence s = update_peer from (λ peer. record peer { presence = presence }) s

-- The listeners whose action waits for the manager, and the rest of `offer` after the setup.
module _ {Key DB : Type 0} (p : Platform Key DB) (env : Env) where
  unfoldable pub after_offer : String → String → RoomState Key DB → RoomState Key DB
  unfolding queue_or_execute
  after_offer from sdp s = queue_or_execute p env from (offer_action sdp) s

  unfoldable pub on_answer : String → String → RoomState Key DB → RoomState Key DB
  unfolding queue_or_execute
  on_answer from sdp s = queue_or_execute p env from (answer_action sdp) s

  unfoldable pub on_ice : String → String → RoomState Key DB → RoomState Key DB
  unfolding queue_or_execute
  on_ice from candidate s = queue_or_execute p env from (ice_action candidate) s

  unfoldable pub on_key_exchange :
      String → Option KeyExchangePacket → RoomState Key DB → RoomState Key DB
  unfolding queue_or_execute
  on_key_exchange from packet s = queue_or_execute p env from (key_action packet) s
