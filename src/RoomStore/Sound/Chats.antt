-- ===== src/RoomStore/Sound/Chats.antt =====
-- `sendChatMessage` and `onMessage` of frontend/src/stores/roomStore.ts keep the peers and the timers sound.
use mathlib.Core.Path.{subst}
use text.Mathlib.Text.{starts_with}
use shadowchat.Common.{
  ◌+◌, ◌≡◌, refl, sym, ap, List, [], ◌∷◌, Option, none, some, String, false, str_eq, Bool-cases,
  Option-cases, inl, inr,
}
use shadowchat.Common.Dict
use shadowchat.Common.Results.{Result, ok, throws}
use shadowchat.Platform.{Platform}
use shadowchat.Crypto.{EncryptedData, encrypt_text, decrypt_text}
use shadowchat.Transfer.Control.{ChannelData, frame, buffer, handle_channel_message}
use shadowchat.RoomStore.State.{
  Peer, ChatMessage, MessageKind, text_message, file_message, RoomFrame, key_frame, chat_frame,
  history_bundle, other_frame, Incoming, text_data, buffer_data, RoomState,
}
use shadowchat.RoomStore.Basics.{Env, given, toast}
use shadowchat.RoomStore.Events.{store_message}
use shadowchat.RoomStore.Chat.{
  Broadcast, broadcast, keep_sent, conclude_chat, start_chat, send_chat_message,
}
use shadowchat.RoomStore.Inbox.{
  new_messages, show_chat, forward, chat_decrypted, receive_chat, save_encrypted, save_text,
  save_history_message, save_history, receive_history, key_of, receive_frame, on_message, or_blank,
}
use shadowchat.RoomStore.Broadcast.{broadcast-OnlySends}
use shadowchat.RoomStore.Sound.{Holds, Calm, Calm-trans, Calm-Holds, if-Holds}
use shadowchat.RoomStore.Sound.Keys.{receive_key_exchange-Holds}
use shadowchat.RoomStore.Sound.Events.{call_coordinator-Holds}

module _ {Key DB : Type 0} (p : Platform Key DB) (env : Env) where
  keep_sent-Calm :
      (room own message_id text : String) (enc : Option EncryptedData) (s : RoomState Key DB)
      → Calm s (keep_sent p env room own message_id text enc s)
  unfolding store_message
  keep_sent-Calm room own message_id text none s = (refl, refl)
  keep_sent-Calm room own message_id text (some enc) s = (refl, refl)

  conclude-Calm :
      (room own message_id text : String) (b : Broadcast Key DB)
      → Calm b.room (conclude_chat p env room own message_id text b)
  unfolding conclude_chat toast
  conclude-Calm room own message_id text b = elim (Bool-cases b.any_sent) [
    | inl sent ↦
        let e : conclude_chat p env room own message_id text b
            ≡ keep_sent p env room own message_id text b.first_enc b.room =
          rw (sent, conclude_chat) refl in
        subst (Calm b.room) (sym e) (keep_sent-Calm room own message_id text b.first_enc b.room)
    | inr unsent ↦ rw (unsent, conclude_chat) (refl, refl)
  ]

  start-Calm :
      (room own text : String) (peers : List (String × Peer Key DB)) (s : RoomState Key DB)
      → Calm s (start_chat p env room own text peers s)
  start-Calm room own text [] s = (refl, refl)
  start-Calm room own text (first ∷ rest) s =
      let b : Broadcast Key DB = record {
        room = record s { draws = s.draws + 1 };
        any_sent = false;
        first_enc = none;
      } in
      let out = broadcast p env text (first ∷ rest) b in
      let e = (broadcast-OnlySends p env text (first ∷ rest) b).2 in
      Calm-trans s out.room (conclude_chat p env room own (env.uuid s.draws) text out)
        (ap (λ t. t.peers) e, ap (λ t. t.history_timers) e)
        (conclude-Calm room own (env.uuid s.draws) text out)

  pub send_chat_message-Calm :
      (text : String) (s : RoomState Key DB) → Calm s (send_chat_message p env text s)
  unfolding send_chat_message
  send_chat_message-Calm text s = elim (Option-cases (given s.room_id)) [
    | inl no_room ↦ rw (no_room, send_chat_message) (refl, refl)
    | inr (room, in_room) ↦ elim (Option-cases (given s.peer_id)) [
      | inl no_id ↦ rw (in_room, no_id, send_chat_message) (refl, refl)
      | inr (own, named) ↦
          let e : send_chat_message p env text s ≡ start_chat p env room own text s.peers s =
            rw (in_room, named, send_chat_message) refl in
          subst (Calm s) (sym e) (start-Calm room own text s.peers s)
    ]
  ]

  save_encrypted-Calm :
      (room : String) (m : ChatMessage) (r : Result EncryptedData) (s : RoomState Key DB)
      → Calm s (save_encrypted p env room m r s)
  unfolding store_message
  save_encrypted-Calm room m (throws e) s = (refl, refl)
  save_encrypted-Calm room m (ok enc) s = (refl, refl)

  save_text-Calm :
      (room : String) (key : Option Key) (m : ChatMessage) (s : RoomState Key DB)
      → Calm s (save_text p env room key m s)
  save_text-Calm room none m s = (refl, refl)
  save_text-Calm room (some key) m s =
      save_encrypted-Calm room m
        (encrypt_text p.crypto p.codec key (or_blank p env m.text) (env.random s.draws))
        (record s { draws = s.draws + 1 })

  save_one-Calm :
      (room : String) (key : Option Key) (m : ChatMessage) (kind : Option MessageKind)
      (s : RoomState Key DB)
      → Calm s (save_history_message p env room key m kind s)
  unfolding store_message
  save_one-Calm room key m (some file_message) s = (refl, refl)
  save_one-Calm room key m (some text_message) s = save_text-Calm room key m s
  save_one-Calm room key m none s = save_text-Calm room key m s

  save_history-Calm :
      (room : String) (key : Option Key) (ms : List ChatMessage) (s : RoomState Key DB)
      → Calm s (save_history p env room key ms s)
  unfolding save_history
  save_history-Calm room key [] s = (refl, refl)
  save_history-Calm room key (m ∷ ms) s =
      let next = save_history_message p env room key m m.kind s in
      Calm-trans s next (save_history p env room key ms next) (save_one-Calm room key m m.kind s)
        (save_history-Calm room key ms next)

  forward-Holds :
      {start : RoomState Key DB} (label : String) (content : ChannelData) (remote : String)
      (s : RoomState Key DB)
      → Holds start s
      → Holds start (forward p env label content remote s)
  forward-Holds label content remote s h =
      call_coordinator-Holds p env (handle_channel_message p env.stream env.now label content)
        remote s h

  decrypted-Holds :
      {start : RoomState Key DB} (remote room ciphertext iv : String) (r : Result String)
      (s : RoomState Key DB)
      → Holds start s
      → Holds start (chat_decrypted p env remote room ciphertext iv r s)
  unfolding store_message
  decrypted-Holds remote room ciphertext iv (throws e) s h = h
  decrypted-Holds remote room ciphertext iv (ok text) s h =
      forward-Holds "control" (frame none) remote (show_chat p env remote room ciphertext iv text s)
        (record { peers = h.peers; timers = h.timers; since = h.since })

  receive_chat-Holds :
      {start : RoomState Key DB} (remote room ciphertext iv : String) (key : Option Key)
      (s : RoomState Key DB)
      → Holds start s
      → Holds start (receive_chat p env remote room ciphertext iv key s)
  receive_chat-Holds remote room ciphertext iv none s h =
      forward-Holds "control" (frame none) remote s h
  receive_chat-Holds remote room ciphertext iv (some key) s h =
      decrypted-Holds remote room ciphertext iv (decrypt_text p.crypto p.codec key ciphertext iv) s
        h

  receive_frame-Holds :
      {start : RoomState Key DB} (remote room : String) (m : RoomFrame) (s : RoomState Key DB)
      → Holds start s
      → Holds start (receive_frame p env remote room m s)
  unfolding receive_frame receive_history
  receive_frame-Holds remote room (key_frame packet) s h =
      receive_key_exchange-Holds p env remote packet s h
  receive_frame-Holds remote room (chat_frame ciphertext iv) s h =
      receive_chat-Holds remote room ciphertext iv (key_of p env (Dict.get remote s.peers)) s h
  receive_frame-Holds remote room (history_bundle bundle) s h =
      let key = key_of p env (Dict.get remote s.peers) in
      let fresh = new_messages s.peer_id s.messages bundle in
      let saved =
        Calm-Holds s (save_history p env room key fresh s) (save_history-Calm room key fresh s) h in
      record { peers = saved.peers; timers = saved.timers; since = saved.since }
  receive_frame-Holds remote room (other_frame m) s h = forward-Holds "control" (frame m) remote s h

  pub on_message-Holds :
      {start : RoomState Key DB} (remote room label : String) (m : Incoming) (s : RoomState Key DB)
      → Holds start s
      → Holds start (on_message p env remote room label m s)
  unfolding on_message
  on_message-Holds remote room label (text_data none) s h = h
  on_message-Holds remote room label (text_data (some m)) s h =
      if-Holds (str_eq label "control") (receive_frame p env remote room m s) s
        (receive_frame-Holds remote room m s h) h
  on_message-Holds remote room label (buffer_data packet) s h =
      if-Holds (starts_with label "data-") (forward p env label (buffer packet) remote s) s
        (forward-Holds label (buffer packet) remote s h) h
