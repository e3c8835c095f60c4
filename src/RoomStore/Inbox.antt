-- ===== src/RoomStore/Inbox.antt =====
-- `onMessage` of a peer connection in frontend/src/stores/roomStore.ts. A handler runs as one step. The rows
-- of a history bundle are saved after its messages are chosen.
use shadowchat.Common.{
  ◌+◌, List, [], ◌∷◌, ◌++◌, Option, none, some, String, Bool, true, false, str_eq, if◌then◌else◌,
}
use text.Mathlib.Text.{starts_with}
use shadowchat.Common.Dict
use shadowchat.Common.Results.{Result, ok, throws}
use shadowchat.Platform.{Platform}
use shadowchat.Crypto.{EncryptedData, encrypt_text, decrypt_text}
use shadowchat.Transfer.Control.{ChannelData, frame, buffer, handle_channel_message}
use shadowchat.RoomStore.State.{
  Peer, ChatMessage, MessageKind, text_message, file_message, FileNote, RoomFrame, key_frame,
  chat_frame, history_bundle, other_frame, Incoming, text_data, buffer_data, RoomState,
}
use shadowchat.RoomStore.Basics.{Env, short_name}
use shadowchat.RoomStore.Events.{file_row, store_message, call_coordinator}
use shadowchat.RoomStore.Keys.{sender_of, receive_key_exchange}
use shadowchat.RoomStore.Chat.{text_chat_message, text_row}

-- The ids that `existingIds` holds.
unfoldable pub is_known : String → List ChatMessage → Bool
is_known id [] = false
is_known id (m ∷ ms) = let rest = is_known id ms in if str_eq m.id id then true else rest

abbrev pub named_by : Option String → ChatMessage → ChatMessage
named_by own m = record m { sender_name = sender_of own m.peer_id }

-- The loop over the messages of a bundle: those that are not known yet, with the name of their sender.
unfoldable pub new_messages : Option String → List ChatMessage → List ChatMessage → List ChatMessage
unfolding is_known
new_messages own known [] = []
new_messages own known (m ∷ ms) =
    let later = new_messages own (known ++ (named_by own m ∷ [])) ms in
    let same = new_messages own known ms in
    if is_known m.id known then same else named_by own m ∷ later

module _ {Key DB : Type 0} (p : Platform Key DB) (env : Env) where
  -- A chat message that decrypts is saved and shown.
  abbrev pub show_chat :
      String → String → String → String → String → RoomState Key DB → RoomState Key DB
  show_chat remote room encrypted_text iv text s =
      let stored = store_message p env (text_row room remote encrypted_text iv env.now) s in
      record stored {
        messages =
            stored.messages
            ++ (text_chat_message (env.uuid s.draws) remote (short_name remote) text env.now ∷ []);
        draws = s.draws + 1;
      }

  abbrev pub forward : String → ChannelData → String → RoomState Key DB → RoomState Key DB
  forward label content remote s =
      call_coordinator p env (handle_channel_message p env.stream env.now label content) remote s

  -- Where the text does not decrypt, the exception ends the handler. The frame then goes to the
  -- coordinator as well, which knows no `chat`.
  abbrev pub chat_decrypted :
      String → String → String → String → Result String → RoomState Key DB → RoomState Key DB
  chat_decrypted remote room encrypted_text iv (throws e) s = s
  chat_decrypted remote room encrypted_text iv (ok text) s =
      forward "control" (frame none) remote (show_chat remote room encrypted_text iv text s)

  abbrev pub receive_chat :
      String → String → String → String → Option Key → RoomState Key DB → RoomState Key DB
  receive_chat remote room encrypted_text iv none s = forward "control" (frame none) remote s
  receive_chat remote room encrypted_text iv (some key) s =
      chat_decrypted remote room encrypted_text iv
        (decrypt_text p.crypto p.codec key encrypted_text iv) s

  abbrev pub or_blank : Option String → String
  or_blank none = ""
  or_blank (some text) = text

  abbrev pub history_note : ChatMessage → FileNote
  history_note m = record { kind = m.file_type; name = m.file_name; size = m.file_size }

  abbrev pub save_encrypted :
      String → ChatMessage → Result EncryptedData → RoomState Key DB → RoomState Key DB
  save_encrypted room m (throws e) s = s
  save_encrypted room m (ok enc) s =
      store_message p env (text_row room m.peer_id enc.ciphertext enc.iv m.timestamp) s

  abbrev pub save_text : String → Option Key → ChatMessage → RoomState Key DB → RoomState Key DB
  save_text room none m s = s
  save_text room (some key) m s =
      save_encrypted room m
        (encrypt_text p.crypto p.codec key (or_blank m.text) (env.random s.draws))
        (record s { draws = s.draws + 1 })

  abbrev pub save_history_message :
      String → Option Key → ChatMessage → Option MessageKind → RoomState Key DB → RoomState Key DB
  save_history_message room key m (some file_message) s =
      store_message p env (file_row env room m.peer_id (history_note m) m.timestamp) s
  save_history_message room key m (some text_message) s = save_text room key m s
  save_history_message room key m none s = save_text room key m s

  unfoldable pub save_history :
      String → Option Key → List ChatMessage → RoomState Key DB → RoomState Key DB
  unfolding store_message
  save_history room key [] s = s
  save_history room key (m ∷ ms) s =
      save_history room key ms (save_history_message room key m m.kind s)

  unfoldable pub receive_history :
      String → Option Key → List ChatMessage → RoomState Key DB → RoomState Key DB
  unfolding new_messages save_history
  receive_history room key bundle s =
      let fresh = new_messages s.peer_id s.messages bundle in
      let saved = save_history room key fresh s in
      record saved { messages = saved.messages ++ fresh }

  abbrev pub key_of : Option (Peer Key DB) → Option Key
  key_of none = none
  key_of (some peer) = peer.room_key

  unfoldable pub receive_frame : String → String → RoomFrame → RoomState Key DB → RoomState Key DB
  unfolding receive_key_exchange receive_history call_coordinator
  receive_frame remote room (key_frame packet) s = receive_key_exchange p env remote packet s
  receive_frame remote room (chat_frame encrypted_text iv) s =
      receive_chat remote room encrypted_text iv (key_of (Dict.get remote s.peers)) s
  receive_frame remote room (history_bundle bundle) s =
      receive_history room (key_of (Dict.get remote s.peers)) bundle s
  receive_frame remote room (other_frame m) s = forward "control" (frame m) remote s

  -- `onMessage` of the connection to `remote`, which was set up in `room`.
  unfoldable pub on_message :
      String → String → String → Incoming → RoomState Key DB → RoomState Key DB
  unfolding receive_frame
  on_message remote room label (text_data none) s = s
  on_message remote room label (text_data (some m)) s =
      if str_eq label "control" then receive_frame remote room m s else s
  on_message remote room label (buffer_data packet) s =
      if starts_with label "data-" then forward label (buffer packet) remote s else s
