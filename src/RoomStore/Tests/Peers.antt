-- ===== src/RoomStore/Tests/Peers.antt =====
-- Runs of the connections, key exchanges and transfers of the store.
use shadowchat.Common.{
  ℕ, ◌≢◌, ◌≡◌, refl, List, [], ◌∷◌, ◌++◌, none, some, String, true, false, not, arith, eq_iff,
}
use shadowchat.Common.Dict
use shadowchat.Common.Results.{ok}
use shadowchat.Platform.Memory.{MemoryDb, sample_platform}
use shadowchat.Transfer.State.{Coordinator}
use shadowchat.WebRtc.{new_manager, initialize, set_up, send_first_offer}
use shadowchat.RoomStore.State.{
  Peer, Action, offer_action, answer_action, ice_action, history_bundle, RoomState,
}
use shadowchat.RoomStore.Basics.{put_on_line, line_open}
use shadowchat.RoomStore.Keys.{
  recent_messages, peer_line_open, try_send, send_history, finalize_key_exchange,
}
use shadowchat.RoomStore.Peers.{
  pc_manager_of, run_action, run_actions, push_action, drain, flush, queue_or_execute,
}
use shadowchat.RoomStore.Setup.{begin_setup, attach_manager, complete_setup, placeholder}
use shadowchat.RoomStore.Session.{disconnect_room}
use shadowchat.RoomStore.Listeners.{announce_peer, on_peer_joined, on_room_state, on_offer}
use shadowchat.RoomStore.Chat.{send_chat_message}
use shadowchat.RoomStore.Files.{get_transfer_blob, cancel_file_transfer, reject_pending_transfer}
use shadowchat.RoomStore.Arrival.{arrive, flush-arrive}
use shadowchat.RoomStore.Queueing.{complete_setup-arrive}
use shadowchat.RoomStore.Retries.{fire_all, try_send-gives_up, send_history-reaches}
use shadowchat.RoomStore.Roles.{on_peer_joined-on_room_state}
use shadowchat.RoomStore.Rekey.{finalize-finalize}
use shadowchat.RoomStore.Leaving.{disconnect_room-quiet}
use shadowchat.RoomStore.Cancelled.{cancel-reject}
use shadowchat.RoomStore.Tests.Samples.{
  env, shut_env, ready_peer, managed_peer, hello, room_of, with_peer, setup, packet, packet_made,
}

-- "bob" is being set up by "alice", and two actions come before the manager is there.
abbrev starting : RoomState ℕ MemoryDb
starting = with_peer "bob" (placeholder "bob" true) (room_of "alice")

abbrev early : List Action
early = offer_action "sdp" ∷ ice_action "candidate" ∷ []

get_bob : Dict.get "bob" starting.peers ≡ some (placeholder "bob" true)
unfolding Dict.get
get_bob = refl

nothing_queued : Dict.get "bob" starting.pending_signaling_messages ≡ none
unfolding Dict.get
nothing_queued = refl

initialize_works : (initialize env.rtc (new_manager true)).1 ≡ ok tt
unfolding initialize set_up send_first_offer
initialize_works = refl

complete_setup-arrive_example :
    complete_setup sample_platform env setup "bob" true
      (attach_manager setup "bob" true [] (arrive sample_platform env "bob" early starting))
    ≡ arrive sample_platform env "bob" early (
        complete_setup sample_platform env setup "bob" true
          (attach_manager setup "bob" true [] starting))
complete_setup-arrive_example =
    complete_setup-arrive sample_platform env setup "bob" true [] early packet
      (placeholder "bob" true) starting get_bob refl nothing_queued initialize_works packet_made

-- The manager is there, and an offer still waits.
abbrev between : RoomState ℕ MemoryDb
between = record (with_peer "bob" (managed_peer "bob") (room_of "alice")) {
  pending_signaling_messages = ("bob", offer_action "sdp" ∷ []) ∷ [];
}

has_manager : pc_manager_of "bob" between ≡ some (new_manager true)
unfolding pc_manager_of Dict.get
has_manager = refl

offer_waits : Dict.get "bob" between.pending_signaling_messages ≡ some (offer_action "sdp" ∷ [])
unfolding Dict.get
offer_waits = refl

flush-arrive_example :
    flush sample_platform env "bob"
      (arrive sample_platform env "bob" (ice_action "candidate" ∷ []) between)
    ≡ run_actions sample_platform env "bob"
        (offer_action "sdp" ∷ [])
        (drain "bob" (run_action sample_platform env "bob" (ice_action "candidate") between))
flush-arrive_example =
    flush-arrive sample_platform env "bob" (ice_action "candidate") (offer_action "sdp" ∷ [])
      (new_manager true) between has_manager offer_waits

-- A peer with a channel, and one message in the chat.
abbrev linked_room : RoomState ℕ MemoryDb
linked_room = record (with_peer "bob" (ready_peer "bob") (room_of "alice")) {
  messages = hello ∷ [];
}

line_shut : peer_line_open sample_platform shut_env (Dict.get "bob" linked_room.peers) ≡ false
unfolding Dict.get line_open
line_shut = refl

line_opened : peer_line_open sample_platform env (Dict.get "bob" linked_room.peers) ≡ true
unfolding Dict.get line_open
line_opened = refl

send_history-reaches_example :
    fire_all sample_platform
      ((shut_env ∷ []) ++ (env ∷ []))
      (send_history sample_platform shut_env "bob" linked_room)
    ≡ put_on_line "bob" (history_bundle (recent_messages linked_room.messages)) linked_room
send_history-reaches_example =
    send_history-reaches sample_platform shut_env env (shut_env ∷ []) "bob" hello [] linked_room
      refl refl line_shut (line_shut, tt) (omega arith) line_opened refl

try_send-gives_up_example :
    fire_all sample_platform
      ((shut_env ∷ shut_env ∷ shut_env ∷ shut_env ∷ shut_env ∷ shut_env ∷ shut_env ∷ shut_env
          ∷ shut_env ∷ [])
        ++ (shut_env ∷ []))
      (try_send sample_platform shut_env "bob" (hello ∷ []) 0 linked_room)
    ≡ linked_room
try_send-gives_up_example =
    try_send-gives_up sample_platform shut_env shut_env
      (shut_env ∷ shut_env ∷ shut_env ∷ shut_env ∷ shut_env ∷ shut_env ∷ shut_env ∷ shut_env
        ∷ shut_env ∷ [])
      "bob" (hello ∷ []) linked_room refl line_shut
      (
        line_shut,
        (
          line_shut,
          (
            line_shut,
            (line_shut, (line_shut, (line_shut, (line_shut, (line_shut, (line_shut, tt)))))),
          ),
        ),
      )
      (omega arith) line_shut

different : ◌≢◌ {A = String} "alice" "bob"
different e = let h = (eq_iff "alice" "bob").1 e in cc

on_peer_joined-on_room_state_example :
    (q : Peer ℕ MemoryDb) × (r : Peer ℕ MemoryDb) × (Dict.get "bob"
        (on_peer_joined env "bob" (room_of "alice")).0.peers
      ≡ some q)
    × (Dict.get "alice" (on_room_state ("alice" ∷ []) (room_of "bob")).0.peers ≡ some r)
    × (r.is_initiator ≡ not q.is_initiator)
on_peer_joined-on_room_state_example =
    on_peer_joined-on_room_state env "alice" "bob" setup setup (room_of "alice") (room_of "bob")
      refl refl different refl refl (unfold Dict.get in refl) (unfold Dict.get in refl)

abbrev managed_room : RoomState ℕ MemoryDb
managed_room = with_peer "bob" (managed_peer "bob") (room_of "alice")

get_managed : Dict.get "bob" managed_room.peers ≡ some (managed_peer "bob")
unfolding Dict.get
get_managed = refl

finalize-finalize_example :
    (q : Peer ℕ MemoryDb) × (c : Coordinator ℕ MemoryDb) × (Dict.get "bob"
        (finalize_key_exchange sample_platform env "bob" 9 "r"
          (finalize_key_exchange sample_platform env "bob" 5 "r" managed_room)).peers
      ≡ some q)
    × (q.room_key ≡ some 9)
    × (q.transfer_coordinator ≡ some c)
    × (c.room_key ≡ 5)
finalize-finalize_example =
    finalize-finalize sample_platform env "bob" "r" 5 9 managed_room (managed_peer "bob")
      (new_manager true) get_managed refl refl

disconnect_room-quiet_example :
    let left = disconnect_room managed_room in
    (on_peer_joined env "carol" left ≡ (announce_peer env "carol" left, none))
    × (on_room_state ("carol" ∷ []) left ≡ (left, []))
    × (on_offer "carol" left ≡ (left, none))
    × (begin_setup "carol" true left ≡ (left, none))
    × (send_chat_message sample_platform env "hi" left ≡ left)
    × (queue_or_execute sample_platform env "carol" (answer_action "sdp") left
        ≡ push_action "carol" (answer_action "sdp") left)
disconnect_room-quiet_example =
    disconnect_room-quiet sample_platform env "carol" "hi" ("carol" ∷ []) true (answer_action "sdp")
      managed_room

cancel-reject_example :
    ((cancel_file_transfer sample_platform env "bob" "f" linked_room).active_transfers
      ≡ linked_room.active_transfers)
    × ((reject_pending_transfer sample_platform env "f" linked_room).active_transfers
        ≡ linked_room.active_transfers)
    × (get_transfer_blob "f" (cancel_file_transfer sample_platform env "bob" "f" linked_room)
        ≡ none)
cancel-reject_example = cancel-reject sample_platform env "bob" "f" linked_room
