-- ===== src/RoomStore/Receiving.antt =====
-- A chat frame in `onMessage` of frontend/src/stores/roomStore.ts: what it adds to the chat.
use shadowchat.Common.{
  ◌≡◌, refl, ap, ◌∙◌, [], ◌∷◌, ◌++◌, Option, none, some, String, Option-cases, inl, inr,
}
use shadowchat.Common.Dict
use shadowchat.Common.Results.{ok}
use shadowchat.Platform.{Platform}
use shadowchat.Crypto.{decrypt_text}
use shadowchat.Transfer.State.{Coordinator}
use shadowchat.RoomStore.State.{Peer, chat_frame, text_data, RoomState}
use shadowchat.RoomStore.Basics.{Env, short_name, update_peer}
use shadowchat.RoomStore.Events.{
  store_message, handle_events, called_on, after_call, call_with, call_coordinator,
}
use shadowchat.RoomStore.Inbox.{
  chat_decrypted, receive_chat, show_chat, forward, key_of, on_message,
}
use shadowchat.RoomStore.Updates.{update_peer-some, update_peer-none}
use shadowchat.Transfer.Control.{frame, handle_channel_message}
use shadowchat.RoomStore.Chat.{text_chat_message}

module _ {Key DB : Type 0} (p : Platform Key DB) (env : Env) where
  -- A frame that the coordinator does not know.
  quiet_frame : Coordinator Key DB → Coordinator Key DB
  quiet_frame = handle_channel_message p env.stream env.now "control" (frame none)

  quiet_frame_lem : (c : Coordinator Key DB) → quiet_frame c ≡ c
  unfolding quiet_frame handle_channel_message
  quiet_frame_lem c = refl

  update_peer-messages :
      (id : String) (f : Peer Key DB → Peer Key DB) (s : RoomState Key DB)
      → (update_peer id f s).messages ≡ s.messages
  update_peer-messages id f s = elim (Option-cases (Dict.get id s.peers)) [
    | inl none_there ↦ rw (update_peer-none id f s none_there) refl
    | inr (peer, there) ↦ rw (update_peer-some id f s peer there) refl
  ]

  after_call_quiet :
      (id : String) (c : Coordinator Key DB) (s : RoomState Key DB)
      → c.events ≡ []
      → (after_call p env id c s).messages ≡ s.messages
  unfolding after_call handle_events
  after_call_quiet id c s silent =
      let put = λ (peer : Peer Key DB). record peer { transfer_coordinator = some c } in
      let stored : RoomState Key DB = record s { db = c.db } in
      ap (λ es. (handle_events p env id c.room_id es (update_peer id put stored)).messages) silent
      ∙ update_peer-messages id put stored

  call_with_quiet :
      (id : String) (peer : Peer Key DB) (c : Option (Coordinator Key DB)) (s : RoomState Key DB)
      → (call_with p env quiet_frame id peer c s).messages ≡ s.messages
  call_with_quiet id peer none s = refl
  call_with_quiet id peer (some c) s =
      after_call_quiet id (quiet_frame (called_on p env peer s c)) s
        (ap (λ t. t.events) (quiet_frame_lem (called_on p env peer s c)))

  forward_quiet :
      (id : String) (s : RoomState Key DB)
      → (forward p env "control" (frame none) id s).messages ≡ s.messages
  unfolding call_coordinator quiet_frame
  forward_quiet id s = elim (Option-cases (Dict.get id s.peers)) [
    | inl none_there ↦ rw (none_there, call_coordinator) refl
    | inr (peer, there) ↦
        rw (there, call_coordinator) (call_with_quiet id peer peer.transfer_coordinator s)
  ]

  -- A chat frame that the key of its peer opens adds one message to the chat, and no other.
  pub on_message-chat :
      (remote room ciphertext iv text : String) (key : Key) (peer : Peer Key DB)
      (s : RoomState Key DB)
      → Dict.get remote s.peers ≡ some peer
      → peer.room_key ≡ some key
      → decrypt_text p.crypto p.codec key ciphertext iv ≡ ok text
      → (on_message p env remote room "control"
          (text_data (some (chat_frame ciphertext iv)))
          s).messages
        ≡ s.messages
          ++ (text_chat_message (env.uuid s.draws) remote (short_name remote) text env.now ∷ [])
  unfolding on_message store_message
  on_message-chat remote room ciphertext iv text key peer s there keyed opens =
      let at_key =
        λ (k : Option Key). (receive_chat p env remote room ciphertext iv k s).messages in
      ap at_key (ap (key_of p env) there ∙ keyed)
      ∙ ap (λ r. (chat_decrypted p env remote room ciphertext iv r s).messages) opens
      ∙ forward_quiet remote (show_chat p env remote room ciphertext iv text s)
