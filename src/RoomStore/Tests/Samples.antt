-- ===== src/RoomStore/Tests/Samples.antt =====
-- Surroundings, peers and states for the runs of the store.
use shadowchat.Common.{ℕ, ◌∷◌, [], none, some, String, true, false, ◌≡◌, refl}
use shadowchat.Common.Results.{ok}
use shadowchat.Platform.Sample.{pair_of, sample_crypto, sample_codec}
use shadowchat.Platform.Memory.{MemoryDb, empty_db, sample_platform}
use shadowchat.Crypto.{KeyExchangePacket, prepare_key_exchange}
use shadowchat.Signaling.State.{new_client}
use shadowchat.Transfer.Send.{World}
use shadowchat.UiStore
use shadowchat.WebRtc.{Rtc, Manager, new_manager, fresh_channel}
use shadowchat.RoomStore.State.{Peer, connected, RoomState, initial_room, ChatMessage}
use shadowchat.RoomStore.Basics.{Env}
use shadowchat.RoomStore.Setup.{Setup, placeholder}
use shadowchat.RoomStore.Chat.{text_chat_message}

abbrev pub rtc : Rtc
rtc = record {
  constructed = ok tt;
  fallback = ok tt;
  offered = ok "offer";
  answered = ok "answer";
  local_set = ok tt;
  remote_set = ok tt;
}

abbrev pub idle_stream : World
idle_stream i = record {
  halted_before = false;
  random_iv = [];
  channel_open = true;
  halted_after = false;
  send_error = none;
  now = 0;
}

-- All channels are in one state.
abbrev pub env_with : String → Env
env_with state = record {
  now = 100;
  uuid = λ n. "drawn";
  random = λ n. n ∷ [];
  ready_state = λ id. state;
  sends = λ id. ok tt;
  rtc = rtc;
  stream = idle_stream;
  stringify_file = λ note. "note";
  parse_file = λ text. none;
}

abbrev pub env : Env
env = env_with "open"

abbrev pub shut_env : Env
shut_env = env_with "connecting"

-- A manager with a control channel.
abbrev pub linked : Manager
linked = record (new_manager true) { control_channel = some (fresh_channel "control") }

-- A peer with the key 3 and that channel.
abbrev pub ready_peer : String → Peer ℕ MemoryDb
ready_peer id = record (placeholder id true) {
  pc_manager = some linked;
  room_key = some 3;
  status = connected;
}

abbrev pub managed_peer : String → Peer ℕ MemoryDb
managed_peer id = record (placeholder id true) { pc_manager = some (new_manager true) }

abbrev pub blank : RoomState ℕ MemoryDb
blank = initial_room UiStore.initial_state empty_db

abbrev pub hello : ChatMessage
hello = text_chat_message "m1" "bob" "bob" "hello" 7

-- A store in the room "r" with the id of its user.
abbrev pub room_of : String → RoomState ℕ MemoryDb
room_of own = record blank {
  room_id = some "r";
  token = some "t";
  peer_id = some own;
  local_x25519_pair = some (pair_of 2);
  local_ed25519_pair = some (pair_of 7);
  signaling = some (new_client 0);
}

abbrev pub with_peer : String → Peer ℕ MemoryDb → RoomState ℕ MemoryDb → RoomState ℕ MemoryDb
with_peer id peer s = record s { peers = (id, peer) ∷ [] }

abbrev pub setup : Setup ℕ
setup = record { room = "r"; token = "t"; x25519_pair = pair_of 2; ed25519_pair = pair_of 7 }

abbrev pub packet : KeyExchangePacket
packet = record {
  x25519_jwk = ("x", sample_codec.btoa (2 ∷ [])) ∷ [];
  ed25519_jwk = ("x", sample_codec.btoa (7 ∷ [])) ∷ [];
  signature = sample_codec.btoa (10 ∷ []);
}

pub packet_made :
    prepare_key_exchange sample_platform.crypto sample_platform.codec (pair_of 2) (pair_of 7)
    ≡ ok packet
unfolding prepare_key_exchange sample_crypto sample_codec
packet_made = refl
