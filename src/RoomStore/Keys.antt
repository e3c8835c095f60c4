-- ===== src/RoomStore/Keys.antt =====
-- `finalizeKeyExchange` of frontend/src/stores/roomStore.ts: the peer gets its key and its coordinator, the
-- history goes out to it, and an empty chat is filled from the database. `trySend` is a timer.
use shadowchat.Common.{
  ℕ, ◌+◌, ◌-◌, List, [], ◌∷◌, ◌++◌, Option, none, some, String, Bool, true, false, ltb, str_eq,
  if◌then◌else◌, length, drop,
}
use shadowchat.Common.Dict
use shadowchat.Common.Results.{Result, ok, throws}
use shadowchat.Platform.{Platform}
use shadowchat.Platform.Crypto.{KeyPair}
use shadowchat.Platform.Tables.{StoredMessage}
use shadowchat.Crypto.{KeyExchangePacket, decrypt_text, complete_key_exchange}
use shadowchat.Storage.{get_room_messages}
use shadowchat.Transfer.State.{Handlers, Coordinator}
use shadowchat.Transfer.Control.{new_coordinator}
use shadowchat.WebRtc.{Manager}
use shadowchat.RoomStore.State.{
  Peer, connected, ChatMessage, file_message, FileNote, history_bundle, HistoryTimer, RoomState,
}
use shadowchat.RoomStore.Basics.{
  Env, short_name, decimal, given, ◌+s◌, update_peer, line_open, put_on_line,
}

abbrev pub all_handlers : Handlers
all_handlers = record {
  on_progress = true;
  on_incoming_transfer = true;
  on_incoming_transfer_request = true;
  on_complete = true;
  on_failed = true;
}

-- `slice(-50)`
unfoldable pub recent_messages : List ChatMessage → List ChatMessage
recent_messages messages = drop (length messages - 50) messages

abbrev pub max_history_retries : ℕ
max_history_retries = 10

-- `msg.peerId === get().peerId ? 'You' : msg.peerId.substring(0, 8)`
abbrev pub sender_of : Option String → String → String
sender_of none peer_id = short_name peer_id
sender_of (some own) peer_id = if str_eq peer_id own then "You" else short_name peer_id

-- `msg-${msg.timestamp}-${msg.peerId}`
abbrev pub cached_id : StoredMessage → String
cached_id row = "msg-" +s decimal row.timestamp +s "-" +s row.peer_id

unfoldable pub cached_text : Option String → StoredMessage → String → ChatMessage
cached_text own row text = record {
  id = cached_id row;
  peer_id = row.peer_id;
  sender_name = sender_of own row.peer_id;
  text = some text;
  timestamp = row.timestamp;
  kind = none;
  transfer_id = none;
  file_name = none;
  file_size = none;
  file_type = none;
}

unfoldable pub cached_file : Option String → StoredMessage → FileNote → ChatMessage
cached_file own row note = record {
  id = cached_id row;
  peer_id = row.peer_id;
  sender_name = sender_of own row.peer_id;
  text = none;
  timestamp = row.timestamp;
  kind = some file_message;
  transfer_id = none;
  file_name = note.name;
  file_size = note.size;
  file_type = note.kind;
}

-- What one row becomes: a text that does not decrypt, or a note that is not JSON, is skipped.
abbrev pub text_or_skip : Option String → StoredMessage → Result String → List ChatMessage
text_or_skip own row (throws e) = []
text_or_skip own row (ok text) = cached_text own row text ∷ []

abbrev pub file_or_skip : Option String → StoredMessage → Option FileNote → List ChatMessage
file_or_skip own row none = []
file_or_skip own row (some note) = cached_file own row note ∷ []

module _ {Key DB : Type 0} (p : Platform Key DB) (env : Env) where
  unfoldable pub cached_message : Key → Option String → StoredMessage → List ChatMessage
  unfolding cached_text cached_file
  cached_message key own row =
      if str_eq row.iv ""
      then file_or_skip own row (env.parse_file row.encrypted_text)
      else text_or_skip own row (decrypt_text p.crypto p.codec key row.encrypted_text row.iv)

  unfoldable pub cached_messages : Key → Option String → List StoredMessage → List ChatMessage
  unfolding cached_message
  cached_messages key own [] = []
  cached_messages key own (row ∷ rows) = cached_message key own row ++ cached_messages key own rows

  -- The branch where `transferCoordinator` is missing and `pcManager` is there.
  abbrev pub give_coordinator :
      Key → String → DB → Peer Key DB → Option (Coordinator Key DB) → Option Manager → Peer Key DB
  give_coordinator key room db peer (some c) m = peer
  give_coordinator key room db peer none none = peer
  give_coordinator key room db peer none (some m) = record peer {
    transfer_coordinator = some (new_coordinator key room all_handlers (line_open env peer) db);
  }

  unfoldable pub key_peer : Key → String → DB → Peer Key DB → Peer Key DB
  unfolding new_coordinator
  key_peer key room db peer =
      let keyed = record peer { room_key = some key; status = connected } in
      give_coordinator key room db keyed keyed.transfer_coordinator keyed.pc_manager

  abbrev pub after_send :
      Result (Unit {0}) → String → List ChatMessage → RoomState Key DB → RoomState Key DB
  after_send (throws e) from bundle s = s
  after_send (ok u) from bundle s = put_on_line from (history_bundle bundle) s

  abbrev pub peer_line_open : Option (Peer Key DB) → Bool
  peer_line_open none = false
  peer_line_open (some peer) = line_open env peer

  unfoldable pub try_send : String → List ChatMessage → ℕ → RoomState Key DB → RoomState Key DB
  try_send from bundle attempts s =
      if peer_line_open (Dict.get from s.peers)
      then after_send (env.sends from) from bundle s
      else if ltb attempts max_history_retries
      then record s {
        history_timers =
            s.history_timers
            ++ (record { peer = from; bundle = bundle; attempts = attempts + 1 } ∷ []);
      }
      else s

  -- The oldest timer fires.
  abbrev pub fire_first : List HistoryTimer → RoomState Key DB → RoomState Key DB
  fire_first [] s = s
  fire_first (t ∷ ts) s = try_send t.peer t.bundle t.attempts (record s { history_timers = ts })

  unfoldable pub fire_history_timer : RoomState Key DB → RoomState Key DB
  unfolding try_send
  fire_history_timer s = fire_first s.history_timers s

  abbrev pub send_messages : String → List ChatMessage → RoomState Key DB → RoomState Key DB
  send_messages from [] s = s
  send_messages from (m ∷ ms) s = try_send from (recent_messages (m ∷ ms)) 0 s

  unfoldable pub send_history : String → RoomState Key DB → RoomState Key DB
  unfolding try_send recent_messages
  send_history from s = send_messages from s.messages s

  abbrev pub prepend_cached : Key → String → List ChatMessage → RoomState Key DB → RoomState Key DB
  prepend_cached key room (m ∷ ms) s = s
  prepend_cached key room [] s = record s {
    messages = cached_messages key s.peer_id (get_room_messages p.dexie room s.db) ++ s.messages;
  }

  unfoldable pub load_cached : Key → String → RoomState Key DB → RoomState Key DB
  unfolding cached_messages
  load_cached key room s = prepend_cached key room s.messages s

  unfoldable pub finalize_key_exchange : String → Key → String → RoomState Key DB → RoomState Key DB
  unfolding key_peer update_peer send_history load_cached
  finalize_key_exchange from key room s =
      load_cached key room (send_history from (update_peer from (key_peer key room s.db) s))

  -- A key exchange packet that arrived: `JSON.parse`, `completeKeyExchange`, `finalizeKeyExchange`,
  -- and an exception in any of them is only logged.
  abbrev pub complete_with : String → Result Key → String → RoomState Key DB → RoomState Key DB
  complete_with from (throws e) room s = s
  complete_with from (ok key) room s = finalize_key_exchange from key room s

  abbrev pub receive_packet :
      String → Option KeyExchangePacket → Key → String → RoomState Key DB → RoomState Key DB
  receive_packet from none private_key room s = s
  receive_packet from (some packet) private_key room s =
      complete_with from (complete_key_exchange p.crypto p.codec private_key packet room) room s

  -- `if (localX25519Pair && roomId)`
  abbrev pub receive_with :
      String
      → Option KeyExchangePacket
      → Option (KeyPair Key)
      → Option String
      → RoomState Key DB
      → RoomState Key DB
  receive_with from packet none room s = s
  receive_with from packet (some pair) none s = s
  receive_with from packet (some pair) (some room) s =
      receive_packet from packet pair.private_key room s

  unfoldable pub receive_key_exchange :
      String → Option KeyExchangePacket → RoomState Key DB → RoomState Key DB
  unfolding finalize_key_exchange
  receive_key_exchange from packet s =
      receive_with from packet s.local_x25519_pair (given s.room_id) s
