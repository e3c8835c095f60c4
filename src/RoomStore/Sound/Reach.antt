-- ===== src/RoomStore/Sound/Reach.antt =====
-- Every state that the store of frontend/src/stores/roomStore.ts reaches is sound.
use shadowchat.Common.{String}
use shadowchat.Platform.{Platform}
use shadowchat.WebRtc.{ConnectionState}
use shadowchat.RoomStore.State.{RoomState}
use shadowchat.RoomStore.Chat.{send_chat_message}
use shadowchat.RoomStore.Setup.{on_state_change}
use shadowchat.RoomStore.Sound.{IsSound, Holds, IsSound-Holds, Calm-Holds}
use shadowchat.RoomStore.Sound.Keys.{fire_history_timer-Holds}
use shadowchat.RoomStore.Sound.Managers.{on_manager-Holds}
use shadowchat.RoomStore.Sound.Queue.{queue_or_execute-Holds}
use shadowchat.RoomStore.Sound.Files.{
  initiate_file_transfer-Holds, pause_file_transfer-Holds, resume_file_transfer-Holds,
  cancel_file_transfer-Holds, accept_pending_transfer-Holds, reject_pending_transfer-Holds,
}
use shadowchat.RoomStore.Sound.Chats.{send_chat_message-Calm, on_message-Holds}
use shadowchat.RoomStore.Sound.Setups.{
  begin_setup-IsSound, on_peer_joined-IsSound, on_room_state-IsSound, on_offer-IsSound,
  on_presence-Holds, on_peer_left-IsSound, attach_manager-Holds,
}
use shadowchat.RoomStore.Sound.Callbacks.{complete_setup-Holds, on_control_channel_open-Holds}
use shadowchat.RoomStore.Sound.States.{connected-Holds, failed-Holds, if_gone-IsSound}
use shadowchat.RoomStore.Sound.Turns.{
  Progress, Holds-Progress, Joins-Turns, begin_setup-Joins, on_peer_joined-Joins,
  on_room_state-Joins, on_offer-Joins, on_peer_left-Turns, if_gone-Turns,
}
use shadowchat.Common.Dict
use shadowchat.RoomStore.Setup.{on_state_change}
use shadowchat.RoomStore.Steps.{
  PeerStep, hears_joined, hears_left, hears_room, hears_offer, hears_presence, hears_action, begins,
  attaches, completes, changes_state, opens, manages, retries, gets_message, UserStep, chats,
  sends_file, pauses, resumes, cancels, accepts, rejects, Step, session, peer, user, IsReachable,
  starts, goes_on,
}
use shadowchat.RoomStore.Sound.Sessions.{session-Progress}

module _ {Key DB : Type 0} (p : Platform Key DB) where
  pub user-Holds : {start s t : RoomState Key DB} → UserStep p s t → Holds start s → Holds start t
  user-Holds {s} (chats env text) h =
      Calm-Holds s (send_chat_message p env text s) (send_chat_message-Calm p env text s) h
  user-Holds {s} (sends_file env d peer_id file e) h =
      initiate_file_transfer-Holds p env d peer_id file s h e
  user-Holds {s} (pauses env peer_id id) h = pause_file_transfer-Holds p env peer_id id s h
  user-Holds {s} (resumes env peer_id id) h = resume_file_transfer-Holds p env peer_id id s h
  user-Holds {s} (cancels env peer_id id) h = cancel_file_transfer-Holds p env peer_id id s h
  user-Holds {s} (accepts env id) h = accept_pending_transfer-Holds p env id s h
  user-Holds {s} (rejects env id) h = reject_pending_transfer-Holds p env id s h

  state_change-Progress :
      (id : String) (state : ConnectionState) (s : RoomState Key DB)
      → IsSound s
      → Progress s (on_state_change id state s)
  unfolding on_state_change
  state_change-Progress id ConnectionState.connecting s h = Holds-Progress s s (IsSound-Holds s h)
  state_change-Progress id ConnectionState.connected s h =
      Holds-Progress s (on_state_change id ConnectionState.connected s)
        (connected-Holds id s (IsSound-Holds s h))
  state_change-Progress id ConnectionState.failed s h =
      Holds-Progress s (on_state_change id ConnectionState.failed s)
        (failed-Holds id s (IsSound-Holds s h))
  state_change-Progress id ConnectionState.closed s h = record {
    sound = if_gone-IsSound (Dict.get id s.peers) id s h;
    turns = λ j. if_gone-Turns (Dict.get id s.peers) id j s;
  }
  state_change-Progress id ConnectionState.disconnected s h = record {
    sound = if_gone-IsSound (Dict.get id s.peers) id s h;
    turns = λ j. if_gone-Turns (Dict.get id s.peers) id j s;
  }

  peer-Progress : {s t : RoomState Key DB} → PeerStep p s t → IsSound s → Progress s t
  peer-Progress {s} (hears_joined env who) h = record {
    sound = on_peer_joined-IsSound env who s h;
    turns = λ id. Joins-Turns id s _ (on_peer_joined-Joins env who id s);
  }
  peer-Progress {s} (hears_left env who) h = record {
    sound = on_peer_left-IsSound env who s h;
    turns = λ id. on_peer_left-Turns env who id s;
  }
  peer-Progress {s} (hears_room ids) h = record {
    sound = on_room_state-IsSound ids s h;
    turns = λ id. Joins-Turns id s _ (on_room_state-Joins ids id s);
  }
  peer-Progress {s} (hears_offer from) h = record {
    sound = on_offer-IsSound from s h;
    turns = λ id. Joins-Turns id s _ (on_offer-Joins from id s);
  }
  peer-Progress {s} (hears_presence from presence) h =
      Holds-Progress s _ (on_presence-Holds from presence s (IsSound-Holds s h))
  peer-Progress {s} (hears_action env id a) h =
      Holds-Progress s _ (queue_or_execute-Holds p env id a s (IsSound-Holds s h))
  peer-Progress {s} (begins who b) h = record {
    sound = begin_setup-IsSound who b s h;
    turns = λ id. Joins-Turns id s _ (begin_setup-Joins who id b s);
  }
  peer-Progress {s} (attaches setup id b servers) h =
      Holds-Progress s _ (attach_manager-Holds setup id b servers s (IsSound-Holds s h))
  peer-Progress {s} (completes env setup id b) h =
      Holds-Progress s _ (complete_setup-Holds p env setup id b s (IsSound-Holds s h))
  peer-Progress {s} (changes_state who state) h = state_change-Progress who state s h
  peer-Progress {s} (opens env id) h =
      Holds-Progress s _ (on_control_channel_open-Holds p env id s (IsSound-Holds s h))
  peer-Progress {s} (manages f id) h =
      Holds-Progress s _ (on_manager-Holds f id s (IsSound-Holds s h))
  peer-Progress {s} (retries env) h =
      Holds-Progress s _ (fire_history_timer-Holds p env s (IsSound-Holds s h))
  peer-Progress {s} (gets_message env remote room label m) h =
      Holds-Progress s _ (on_message-Holds p env remote room label m s (IsSound-Holds s h))

  pub step-Progress : {s t : RoomState Key DB} → Step p s t → IsSound s → Progress s t
  step-Progress (session step) h = session-Progress p step h
  step-Progress (peer step) h = peer-Progress step h
  step-Progress {s} {t} (user step) h = Holds-Progress s t (user-Holds step (IsSound-Holds s h))

  -- In every state that the store reaches, by any steps in any order: every peer stands under its own
  -- id; a peer that is shown as connected has a room key; a file transfer coordinator is there only
  -- together with a room key and a connection manager; and every pending retry of the history is the
  -- first to the tenth and sends at most 50 messages.
  pub IsReachable-peers : {s : RoomState Key DB} → IsReachable p s → IsSound s
  IsReachable-peers (starts ui db) = record { peers = tt; timers = tt }
  IsReachable-peers (goes_on r step) = (step-Progress step (IsReachable-peers r)).sound
