-- ===== src/RoomStore/Leaving.antt =====
-- After `disconnectRoom` of frontend/src/stores/roomStore.ts.
use shadowchat.Common.{◌≡◌, refl, ap, List, [], ◌∷◌, none, String, Bool}
use shadowchat.Common.Dict
use shadowchat.Platform.{Platform}
use shadowchat.RoomStore.State.{Action, RoomState}
use shadowchat.RoomStore.Basics.{Env}
use shadowchat.RoomStore.Chat.{send_chat_message}
use shadowchat.RoomStore.Peers.{pc_manager_of, push_action, queue_or_execute}
use shadowchat.RoomStore.Setup.{begin_setup}
use shadowchat.RoomStore.Session.{disconnect_room}
use shadowchat.RoomStore.Listeners.{
  set_up_as, announce_peer, on_peer_joined, on_room_state, on_offer,
}

module _ {Key DB : Type 0} (p : Platform Key DB) (env : Env) where
  room_state_left :
      (ids : List String) (s : RoomState Key DB)
      → on_room_state ids (disconnect_room s) ≡ (disconnect_room s, [])
  unfolding on_room_state disconnect_room set_up_as
  room_state_left [] s = refl
  room_state_left (id ∷ ids) s = ap (λ r. (r.0, r.1)) (room_state_left ids s)

  -- Once the room is left, the listeners of the old client, which are still registered, start no
  -- connection: the news of a peer only shows a toast, and a list of peers and an offer change nothing;
  -- a setup is refused, and a chat message goes nowhere. But an action of a peer that arrives next still
  -- goes into the queue of that peer.
  pub disconnect_room-quiet :
      (id text : String) (ids : List String) (is_initiator : Bool) (a : Action)
      (s : RoomState Key DB)
      → let left = disconnect_room s in
        (on_peer_joined env id left ≡ (announce_peer env id left, none))
        × (on_room_state ids left ≡ (left, []))
        × (on_offer id left ≡ (left, none))
        × (begin_setup id is_initiator left ≡ (left, none))
        × (send_chat_message p env text left ≡ left)
        × (queue_or_execute p env id a left ≡ push_action id a left)
  unfolding disconnect_room on_peer_joined on_offer set_up_as begin_setup send_chat_message
      queue_or_execute pc_manager_of Dict.has Dict.get
  disconnect_room-quiet id text ids is_initiator a s =
      (refl, room_state_left ids s, refl, refl, refl, refl)
