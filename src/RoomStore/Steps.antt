-- ===== src/RoomStore/Steps.antt =====
-- The steps of the store of frontend/src/stores/roomStore.ts, as a relation on its states: actions, signaling
-- messages, callbacks of connections and coordinators, and timers, in any order.
use shadowchat.Common.{◌≡◌, List, Option, String, Bool}
use shadowchat.Common.Results.{ok}
use shadowchat.Platform.{Platform}
use shadowchat.Platform.Crypto.{Bytes, KeyPair}
use shadowchat.Platform.Tables.{Role}
use shadowchat.Crypto.{KeyExchangePacket}
use shadowchat.Signaling.State.{Client}
use shadowchat.Transfer.State.{File}
use shadowchat.Transfer.Offer.{Draws}
use shadowchat.UiStore.{UiState}
use shadowchat.WebRtc.{ConnectionState, Manager}
use shadowchat.RoomStore.State.{Presence, Action, IceServer, Incoming, RoomState, initial_room}
use shadowchat.RoomStore.Basics.{Env}
use shadowchat.RoomStore.Keys.{fire_history_timer}
use shadowchat.RoomStore.Chat.{send_chat_message}
use shadowchat.RoomStore.Inbox.{on_message}
use shadowchat.RoomStore.Files.{
  initiate_file_transfer, pause_file_transfer, resume_file_transfer, cancel_file_transfer,
  accept_pending_transfer, reject_pending_transfer,
}
use shadowchat.RoomStore.Peers.{on_manager, queue_or_execute}
use shadowchat.RoomStore.Setup.{
  Setup, begin_setup, attach_manager, complete_setup, on_state_change, on_control_channel_open,
}
use shadowchat.RoomStore.Session.{
  begin_connect, set_identity, end_connect, on_connect, on_disconnect, disconnect_room,
}
use shadowchat.RoomStore.Listeners.{
  on_peer_joined, on_peer_left, on_room_state, on_offer, on_presence,
}
use shadowchat.RoomStore.Controls.{
  RestAnswer, lock_room, unlock_room, destroy_room, create_room, join_room,
}

module _ {Key DB : Type 0} (p : Platform Key DB) where
  -- The session and the room's REST actions.
  pub data SessionStep (s : RoomState Key DB) : RoomState Key DB → Type 0 where
    begins_connecting : (room : String) → SessionStep s (begin_connect room s).0
    is_identified :
        (claims : String → Option String) (env : Env) (room token : String) (role : Role)
        (x e : KeyPair Key)
        → SessionStep s (set_identity claims env room token role x e s)
    ends_connecting : (c : Option (Client KeyExchangePacket)) → SessionStep s (end_connect c s)
    connects : (env : Env) (c : Client KeyExchangePacket) → SessionStep s (on_connect env c s)
    loses_signaling : (env : Env) → SessionStep s (on_disconnect env s)
    disconnects : SessionStep s (disconnect_room s)
    creates :
        (env : Env) (name config : Bytes) (a : RestAnswer)
        → SessionStep s (create_room p env name config a s).0
    joins : (env : Env) (a : RestAnswer) → SessionStep s (join_room p env a s).0
    locks : (env : Env) (res_ok : Bool) → SessionStep s (lock_room env res_ok s)
    unlocks : (env : Env) (res_ok : Bool) → SessionStep s (unlock_room env res_ok s)
    destroys : (env : Env) (res_ok : Bool) → SessionStep s (destroy_room env res_ok s)

  -- The peers: listeners, setups, callbacks of connections, and whatever the browser does to a manager.
  pub data PeerStep (s : RoomState Key DB) : RoomState Key DB → Type 0 where
    hears_joined : (env : Env) (id : String) → PeerStep s (on_peer_joined env id s).0
    hears_left : (env : Env) (id : String) → PeerStep s (on_peer_left env id s)
    hears_room : (ids : List String) → PeerStep s (on_room_state ids s).0
    hears_offer : (from : String) → PeerStep s (on_offer from s).0
    hears_presence :
        (from : String) (presence : Presence) → PeerStep s (on_presence from presence s)
    hears_action :
        (env : Env) (id : String) (a : Action) → PeerStep s (queue_or_execute p env id a s)
    begins : (id : String) (is_initiator : Bool) → PeerStep s (begin_setup id is_initiator s).0
    attaches :
        (setup : Setup Key) (id : String) (is_initiator : Bool) (servers : List IceServer)
        → PeerStep s (attach_manager setup id is_initiator servers s)
    completes :
        (env : Env) (setup : Setup Key) (id : String) (is_initiator : Bool)
        → PeerStep s (complete_setup p env setup id is_initiator s)
    changes_state :
        (id : String) (state : ConnectionState) → PeerStep s (on_state_change id state s)
    opens : (env : Env) (id : String) → PeerStep s (on_control_channel_open p env id s)
    manages : (f : Manager → Manager) (id : String) → PeerStep s (on_manager f id s)
    retries : (env : Env) → PeerStep s (fire_history_timer p env s)
    gets_message :
        (env : Env) (remote room label : String) (m : Incoming)
        → PeerStep s (on_message p env remote room label m s)

  -- What the user does.
  pub data UserStep (s : RoomState Key DB) : RoomState Key DB → Type 0 where
    chats : (env : Env) (text : String) → UserStep s (send_chat_message p env text s)
    sends_file :
        (env : Env) (d : Draws) (peer_id : String) (file : File) {id : String}
        {t : RoomState Key DB}
        → initiate_file_transfer p env d peer_id file s ≡ ok (id, t)
        → UserStep s t
    pauses : (env : Env) (peer_id id : String) → UserStep s (pause_file_transfer p env peer_id id s)
    resumes :
        (env : Env) (peer_id id : String) → UserStep s (resume_file_transfer p env peer_id id s)
    cancels :
        (env : Env) (peer_id id : String) → UserStep s (cancel_file_transfer p env peer_id id s)
    accepts : (env : Env) (id : String) → UserStep s (accept_pending_transfer p env id s)
    rejects : (env : Env) (id : String) → UserStep s (reject_pending_transfer p env id s)

  pub data Step (s : RoomState Key DB) : RoomState Key DB → Type 0 where
    session : {t : RoomState Key DB} → SessionStep s t → Step s t
    peer : {t : RoomState Key DB} → PeerStep s t → Step s t
    user : {t : RoomState Key DB} → UserStep s t → Step s t

  pub data IsReachable : RoomState Key DB → Type 0 where
    starts : (ui : UiState) (db : DB) → IsReachable (initial_room ui db)
    goes_on : {s t : RoomState Key DB} → IsReachable s → Step s t → IsReachable t
