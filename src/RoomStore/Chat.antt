-- ===== src/RoomStore/Chat.antt =====
-- `sendChatMessage` of frontend/src/stores/roomStore.ts, as one step.
use shadowchat.Common.{
  ℕ, ◌+◌, List, [], ◌∷◌, ◌++◌, Option, none, some, String, Bool, true, false, if◌then◌else◌,
}
use shadowchat.Common.Results.{Result, ok, throws}
use shadowchat.Platform.{Platform}
use shadowchat.Platform.Tables.{StoredMessage}
use shadowchat.Crypto.{EncryptedData, encrypt_text}
use shadowchat.UiStore.{warning}
use shadowchat.RoomStore.State.{Peer, ChatMessage, chat_frame, RoomState}
use shadowchat.RoomStore.Basics.{Env, given, ◌+s◌, toast, line_state, line_open, put_on_line}
use shadowchat.RoomStore.Events.{store_message}

-- A message of the chat with a text.
abbrev pub text_chat_message : String → String → String → String → ℕ → ChatMessage
text_chat_message id peer_id sender_name text timestamp = record {
  id = id;
  peer_id = peer_id;
  sender_name = sender_name;
  text = some text;
  timestamp = timestamp;
  kind = none;
  transfer_id = none;
  file_name = none;
  file_size = none;
  file_type = none;
}

abbrev pub text_row : String → String → String → String → ℕ → StoredMessage
text_row room peer_id encrypted_text iv timestamp = record {
  room_id = room;
  peer_id = peer_id;
  encrypted_text = encrypted_text;
  iv = iv;
  timestamp = timestamp;
}

-- The state of the loop in `sendChatMessage`.
pub record Broadcast (Key DB : Type 0) : Type 0 where
  pub room : RoomState Key DB
  pub any_sent : Bool
  pub first_enc : Option EncryptedData

abbrev pub or_first : Option EncryptedData → EncryptedData → EncryptedData
or_first none enc = enc
or_first (some first) enc = first

-- `reasons[0]`, over the peers in order.
abbrev pub reason_of : Bool → Option String → Bool → Option String
reason_of false state ready = some "Key exchange still in progress"
reason_of true state true = none
reason_of true none false = some "Channel not open (null)"
reason_of true (some state) false = some ("Channel not open (" +s state +s ")")

abbrev pub has_key : {Key : Type 0} → Option Key → Bool
has_key none = false
has_key (some k) = true

abbrev pub or_next : Option String → String → String
or_next none next = next
or_next (some reason) next = reason

module _ {Key DB : Type 0} (env : Env) where
  unfoldable pub first_reason : List (String × Peer Key DB) → String
  unfolding line_open
  first_reason [] = "No connected peers"
  first_reason ((id, peer) ∷ rest) =
      or_next (reason_of (has_key peer.room_key) (line_state env peer) (line_open env peer))
        (first_reason rest)

module _ {Key DB : Type 0} (p : Platform Key DB) (env : Env) where
  abbrev pub chat_sent :
      String → EncryptedData → Result (Unit {0}) → Broadcast Key DB → Broadcast Key DB
  chat_sent id enc (throws e) b = record b { first_enc = some (or_first b.first_enc enc) }
  chat_sent id enc (ok u) b = record {
    room = put_on_line id (chat_frame enc.ciphertext enc.iv) b.room;
    any_sent = true;
    first_enc = some (or_first b.first_enc enc);
  }

  abbrev pub chat_encrypted : String → Result EncryptedData → Broadcast Key DB → Broadcast Key DB
  chat_encrypted id (throws e) b = b
  chat_encrypted id (ok enc) b = chat_sent id enc (env.sends id) b

  -- The IV is drawn in any case.
  abbrev pub drawn : Broadcast Key DB → Broadcast Key DB
  drawn b = record b { room = record b.room { draws = b.room.draws + 1 } }

  abbrev pub chat_to : String → String → Bool → Option Key → Broadcast Key DB → Broadcast Key DB
  chat_to text id false key b = b
  chat_to text id true none b = b
  chat_to text id true (some key) b =
      chat_encrypted id (encrypt_text p.crypto p.codec key text (env.random b.room.draws)) (drawn b)

  unfoldable pub broadcast :
      String → List (String × Peer Key DB) → Broadcast Key DB → Broadcast Key DB
  unfolding line_open
  broadcast text [] b = b
  broadcast text ((id, peer) ∷ rest) b =
      broadcast text rest (chat_to text id (line_open env peer) peer.room_key b)

  -- The end of `sendChatMessage` for a message that went out.
  abbrev pub keep_sent :
      String → String → String → String → Option EncryptedData → RoomState Key DB → RoomState Key DB
  keep_sent room peer_id message_id text none s = s
  keep_sent room peer_id message_id text (some enc) s =
      let stored = store_message p env (text_row room peer_id enc.ciphertext enc.iv env.now) s in
      record stored {
        messages =
            stored.messages ++ (text_chat_message message_id peer_id "You" text env.now ∷ []);
      }

  unfoldable pub conclude_chat :
      String → String → String → String → Broadcast Key DB → RoomState Key DB
  unfolding store_message toast first_reason
  conclude_chat room peer_id message_id text b =
      if b.any_sent
      then keep_sent room peer_id message_id text b.first_enc b.room
      else toast env warning "Secure channel not ready"
          (first_reason env b.room.peers +s ". Please wait a moment and try again.") b.room

  abbrev pub start_chat :
      String → String → String → List (String × Peer Key DB) → RoomState Key DB → RoomState Key DB
  start_chat room peer_id text [] s = s
  start_chat room peer_id text (first ∷ rest) s =
      conclude_chat room peer_id (env.uuid s.draws) text (
        broadcast text (first ∷ rest)
          (record { room = record s { draws = s.draws + 1 }; any_sent = false; first_enc = none }))

  unfoldable pub send_chat_message : String → RoomState Key DB → RoomState Key DB
  unfolding broadcast conclude_chat
  send_chat_message text s = elim (given s.room_id) [
    | none ↦ s
    | some room ↦ elim (given s.peer_id) [
      | none ↦ s
      | some peer_id ↦ start_chat room peer_id text s.peers s
    ]
  ]
