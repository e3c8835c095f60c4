-- ===== src/RoomStore/Tests/Runs.antt =====
-- A run of the store from its start to a peer with a key.
use shadowchat.Common.{ℕ, ◌≡◌, refl, [], none, some, true, false}
use shadowchat.Common.Dict
use shadowchat.Platform.Memory.{MemoryDb, empty_db, sample_platform}
use shadowchat.Platform.Sample.{pair_of}
use shadowchat.Platform.Tables.{Role}
use shadowchat.Signaling.State.{new_client}
use shadowchat.UiStore
use shadowchat.WebRtc.{initialize}
use shadowchat.RoomStore.State.{key_action, RoomState}
use shadowchat.RoomStore.Keys.{send_history, finalize_key_exchange}
use shadowchat.RoomStore.Peers.{pc_manager_of, run_action, flush, queue_or_execute}
use shadowchat.RoomStore.Setup.{begin_setup, attach_manager, complete_setup}
use shadowchat.RoomStore.Session.{set_identity, on_connect}
use shadowchat.RoomStore.Listeners.{on_peer_joined}
use shadowchat.RoomStore.Sound.{IsSound}
use shadowchat.RoomStore.Sound.Reach.{IsReachable-peers}
use shadowchat.RoomStore.Tests.Samples.{env, blank, setup, packet}
use shadowchat.Crypto.{prepare_key_exchange, complete_key_exchange, derive_shared_key}
use shadowchat.Platform.Sample.{sample_crypto, sample_codec}
use shadowchat.RoomStore.Steps.{
  is_identified, connects, hears_joined, attaches, completes, hears_action, Step, session, peer,
  IsReachable, starts, goes_on,
}
use shadowchat.RoomStore.LifeCycle.{LifeStep, standing_of, step-LifeStep}
use shadowchat.RoomStore.Keys.{key_peer, send_history, load_cached, receive_key_exchange}
use shadowchat.RoomStore.Basics.{update_peer}
use shadowchat.RoomStore.Peers.{on_manager}
use shadowchat.RoomStore.Listeners.{set_up_as}

-- The store gets its identity and its client, "bob" joins, and his key packet arrives.
abbrev identified : RoomState ℕ MemoryDb
identified = set_identity (λ part. none) env "r" "t" Role.owner (pair_of 2) (pair_of 7) blank

abbrev online_room : RoomState ℕ MemoryDb
online_room = on_connect env (new_client 0) identified

abbrev joined_room : RoomState ℕ MemoryDb
joined_room = (on_peer_joined env "bob" online_room).0

abbrev attached_room : RoomState ℕ MemoryDb
attached_room = attach_manager setup "bob" true [] joined_room

abbrev completed_room : RoomState ℕ MemoryDb
completed_room = complete_setup sample_platform env setup "bob" true attached_room

abbrev keyed_room : RoomState ℕ MemoryDb
keyed_room = queue_or_execute sample_platform env "bob" (key_action (some packet)) completed_room

-- The run up to the end of the setup.
completed-IsReachable : IsReachable sample_platform completed_room
completed-IsReachable =
    goes_on
      (goes_on
        (goes_on
          (goes_on
            (goes_on (starts UiStore.initial_state empty_db) (
              session
                (is_identified (λ part. none) env "r" "t" Role.owner (pair_of 2) (pair_of 7))))
            (session (connects env (new_client 0))))
          (peer (hears_joined env "bob")))
        (peer (attaches setup "bob" true [])))
      (peer (completes env setup "bob" true))

key_comes : Step sample_platform completed_room keyed_room
key_comes = peer (hears_action env "bob" (key_action (some packet)))

IsReachable-peers_example : IsSound keyed_room
IsReachable-peers_example =
    IsReachable-peers sample_platform (goes_on completed-IsReachable key_comes)

step-LifeStep_example :
    LifeStep
      (standing_of (Dict.get "bob" completed_room.peers))
      (standing_of (Dict.get "bob" keyed_room.peers))
step-LifeStep_example = step-LifeStep sample_platform "bob" completed-IsReachable key_comes

-- In this run the peer gets its key and, with it, its coordinator.
keyed_standing :
    standing_of (Dict.get "bob" keyed_room.peers)
    ≡ some (record { is_initiator = false; managed = true; keyed = true; coordinated = true })
unfolding set_identity on_connect on_peer_joined set_up_as begin_setup attach_manager complete_setup
    queue_or_execute on_manager pc_manager_of update_peer flush run_action receive_key_exchange
    finalize_key_exchange key_peer send_history load_cached Dict.get Dict.set Dict.has initialize
    prepare_key_exchange sample_crypto complete_key_exchange sample_codec derive_shared_key
keyed_standing = refl
