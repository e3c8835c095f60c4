-- ===== src/RoomStore/Peers.antt =====
-- The queue of signaling actions of frontend/src/stores/roomStore.ts: a message of a peer that has no
-- connection manager yet waits until the setup flushes it.
use shadowchat.Common.{List, [], ◌∷◌, ◌++◌, Option, none, some, String}
use shadowchat.Common.Dict
use shadowchat.Platform.{Platform}
use shadowchat.WebRtc.{Manager, handle_offer, handle_answer, add_ice_candidate}
use shadowchat.RoomStore.State.{
  Peer, Action, offer_action, answer_action, ice_action, key_action, RoomState,
}
use shadowchat.RoomStore.Basics.{Env, update_peer}
use shadowchat.RoomStore.Keys.{receive_key_exchange}

abbrev pub or_none : Option (List Action) → List Action
or_none none = []
or_none (some actions) = actions

module _ {Key DB : Type 0} where
  abbrev pub manager_of : Option (Peer Key DB) → Option Manager
  manager_of none = none
  manager_of (some peer) = peer.pc_manager

  -- `peer?.pcManager`
  unfoldable pub pc_manager_of : String → RoomState Key DB → Option Manager
  pc_manager_of id s = manager_of (Dict.get id s.peers)

  abbrev pub set_manager : Manager → Peer Key DB → Peer Key DB
  set_manager m peer = record peer { pc_manager = some m }

  -- `await peer.pcManager.method(…)`: an exception is logged, or left to nobody.
  unfoldable pub on_manager : (Manager → Manager) → String → RoomState Key DB → RoomState Key DB
  unfolding pc_manager_of update_peer
  on_manager f id s = elim (pc_manager_of id s) [
    | none ↦ s
    | some m ↦ update_peer id (set_manager (f m)) s
  ]

  abbrev pub queued : String → RoomState Key DB → List Action
  queued id s = or_none (Dict.get id s.pending_signaling_messages)

  unfoldable pub push_action : String → Action → RoomState Key DB → RoomState Key DB
  push_action id action s = record s {
    pending_signaling_messages =
        Dict.set id (queued id s ++ (action ∷ [])) s.pending_signaling_messages;
  }

  -- `drainSignalingQueue`
  unfoldable pub drain : String → RoomState Key DB → RoomState Key DB
  drain id s = record s { pending_signaling_messages = Dict.delete id s.pending_signaling_messages }

module _ {Key DB : Type 0} (p : Platform Key DB) (env : Env) where
  unfoldable pub run_action : String → Action → RoomState Key DB → RoomState Key DB
  unfolding on_manager receive_key_exchange
  run_action id (offer_action sdp) s = on_manager (λ m. (handle_offer env.rtc m).0) id s
  run_action id (answer_action sdp) s = on_manager (λ m. (handle_answer env.rtc m).0) id s
  run_action id (ice_action candidate) s = on_manager (λ m. (add_ice_candidate env.rtc m).0) id s
  run_action id (key_action packet) s = receive_key_exchange p env id packet s

  -- The loop of `flushSignalingQueue`.
  unfoldable pub run_actions : String → List Action → RoomState Key DB → RoomState Key DB
  unfolding run_action
  run_actions id [] s = s
  run_actions id (a ∷ as') s = run_actions id as' (run_action id a s)

  unfoldable pub queue_or_execute : String → Action → RoomState Key DB → RoomState Key DB
  unfolding pc_manager_of run_action push_action
  queue_or_execute id action s = elim (pc_manager_of id s) [
    | none ↦ push_action id action s
    | some m ↦ run_action id action s
  ]

  unfoldable pub flush : String → RoomState Key DB → RoomState Key DB
  unfolding run_actions drain
  flush id s = elim (Dict.get id s.pending_signaling_messages) [
    | none ↦ s
    | some actions ↦ run_actions id actions (drain id s)
  ]
