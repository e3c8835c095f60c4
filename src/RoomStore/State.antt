-- ===== src/RoomStore/State.antt =====
-- The state of frontend/src/stores/roomStore.ts: peers, chat messages, trackers of transfers, the module's
-- variables, and the stores and channels that the actions write to.
use shadowchat.Common.{ℕ, List, [], Option, none, String, Bool}
use shadowchat.Common.Dict.{Dict}
use shadowchat.Platform.Crypto.{Bytes, KeyPair}
use shadowchat.Platform.Tables.{Role, Progress}
use shadowchat.Crypto.{KeyExchangePacket}
use shadowchat.Signaling.State.{Client}
use shadowchat.Transfer.State.{Offered, Control, Coordinator}
use shadowchat.UiStore.{UiState}
use shadowchat.WebRtc.{Manager}

pub data PeerStatus : Type 0 where
  connecting key_exchanging connected failed : PeerStatus

pub data Presence : Type 0 where
  online typing idle : Presence

pub record Peer (Key DB : Type 0) : Type 0 where
  pub id : String
  pub is_initiator : Bool
  pub pc_manager : Option Manager
  pub transfer_coordinator : Option (Coordinator Key DB)
  pub room_key : Option Key
  pub status : PeerStatus
  pub presence : Presence

pub data MessageKind : Type 0 where
  text_message file_message : MessageKind

pub record ChatMessage : Type 0 where
  pub id : String
  pub peer_id : String
  pub sender_name : String
  pub text : Option String
  pub timestamp : ℕ
  pub kind : Option MessageKind
  pub transfer_id : Option String
  pub file_name : Option String
  pub file_size : Option ℕ
  pub file_type : Option String

pub data TransferDirection : Type 0 where
  incoming outgoing : TransferDirection

pub data TransferStatus : Type 0 where
  pending transferring completed failed paused : TransferStatus

-- An entry of `activeTransfers`. The numbers are fractions, as the coordinator reports them.
pub record TransferEntry : Type 0 where
  pub peer_id : String
  pub file_name : String
  pub size_bytes : ℕ
  pub file_type : String
  pub direction : TransferDirection
  pub progress : Progress
  pub speed_bytes_per_sec : Progress
  pub eta_sec : Progress
  pub status : TransferStatus

pub record RoomConfig : Type 0 where
  pub is_locked : Option Bool
  pub max_members : Option ℕ
  pub encrypted_name : Option String
  pub encrypted_config : Option String

pub data SignalingState : Type 0 where
  disconnected connecting connected : SignalingState

-- What `JSON.stringify` puts into the row of a file message.
pub record FileNote : Type 0 where
  pub kind : Option String
  pub name : Option String
  pub size : Option ℕ

-- A closure in `pendingSignalingMessages`. A payload that is not JSON is `none`.
pub data Action : Type 0 where
  offer_action answer_action ice_action : String → Action
  key_action : Option KeyExchangePacket → Action

-- A JSON text on the control channel, by what `onMessage` tells apart: the `type` of the message, and
-- for any other the frame of the coordinator.
pub data RoomFrame : Type 0 where
  key_frame : Option KeyExchangePacket → RoomFrame
  chat_frame : String → String → RoomFrame
  history_bundle : List ChatMessage → RoomFrame
  other_frame : Option Control → RoomFrame

-- The arguments of `onMessage`: a text, `none` where it is not JSON, or an `ArrayBuffer`.
pub data Incoming : Type 0 where
  text_data : Option RoomFrame → Incoming
  buffer_data : Bytes → Incoming

-- A pending `setTimeout(trySend, 150)`.
pub record HistoryTimer : Type 0 where
  pub peer : String
  pub bundle : List ChatMessage
  pub attempts : ℕ

pub record IceServer : Type 0 where
  pub urls : List String
  pub username : Option String
  pub credential : Option String

-- The arguments of a `new PeerConnectionManager(…)`.
pub record Created : Type 0 where
  pub remote : String
  pub room : String
  pub is_initiator : Bool
  pub ice_servers : List IceServer

-- The fields of `RoomState`; the variables of the module; and what lies around the store: the user
-- interface, the database, the texts that went out on control channels (with the peer, oldest
-- first), the managers that were constructed, those that the store has closed and let go, the clients
-- that it has disconnected and let go, and the number of random draws.
pub record RoomState (Key DB : Type 0) : Type 0 where
  pub room_id : Option String
  pub room_code : Option String
  pub room_role : Option Role
  pub room_config : Option RoomConfig
  pub token : Option String
  pub peer_id : Option String
  pub local_x25519_pair : Option (KeyPair Key)
  pub local_ed25519_pair : Option (KeyPair Key)
  pub signaling : Option (Client KeyExchangePacket)
  pub signaling_state : SignalingState
  pub peers : Dict (Peer Key DB)
  pub messages : List ChatMessage
  pub pending_transfers : List Offered
  pub active_transfers : Dict TransferEntry
  pub initializing_room_id : Option String
  pub pending_signaling_messages : Dict (List Action)
  pub transfer_blobs : Dict Bytes
  pub history_timers : List HistoryTimer
  pub ui : UiState
  pub db : DB
  pub sent : List (String × RoomFrame)
  pub created : List Created
  pub closed_managers : List Manager
  pub left_clients : List (Client KeyExchangePacket)
  pub draws : ℕ

-- The state that `create` starts from, with the module's variables.
abbrev pub initial_room : {Key DB : Type 0} → UiState → DB → RoomState Key DB
initial_room ui db = record {
  room_id = none;
  room_code = none;
  room_role = none;
  room_config = none;
  token = none;
  peer_id = none;
  local_x25519_pair = none;
  local_ed25519_pair = none;
  signaling = none;
  signaling_state = disconnected;
  peers = [];
  messages = [];
  pending_transfers = [];
  active_transfers = [];
  initializing_room_id = none;
  pending_signaling_messages = [];
  transfer_blobs = [];
  history_timers = [];
  ui = ui;
  db = db;
  sent = [];
  created = [];
  closed_managers = [];
  left_clients = [];
  draws = 0;
}
