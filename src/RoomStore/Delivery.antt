-- ===== src/RoomStore/Delivery.antt =====
-- A chat message from `sendChatMessage` of one store to `onMessage` of another, in
-- frontend/src/stores/roomStore.ts.
use mathlib.Core.Path.{subst}
use shadowchat.Common.{
  ◌+◌, ◌≡◌, refl, sym, ap, ◌∙◌, List, [], ◌∷◌, ◌++◌, none, some, String, true, false,
}
use shadowchat.Common.Dict
use shadowchat.Common.Results.{ok}
use shadowchat.Platform.{Platform}
use shadowchat.Platform.Crypto.{DecryptsAesGcm}
use shadowchat.Platform.Encoding.{RoundTrips}
use shadowchat.RoomStore.State.{Peer, RoomFrame, chat_frame, text_data, RoomState}
use shadowchat.RoomStore.Basics.{Env, given, short_name, line_open}
use shadowchat.RoomStore.Events.{store_message}
use shadowchat.RoomStore.Inbox.{on_message}
use shadowchat.RoomStore.Chat.{
  Broadcast, chat_to, broadcast, keep_sent, conclude_chat, start_chat, send_chat_message,
  text_chat_message,
}
use shadowchat.RoomStore.Receiving.{on_message-chat}
use shadowchat.RoomStore.Broadcast.{
  Holds, Holds-Grows, broadcast-Grows, HasSent, broadcast-HasSent, broadcast-OnlySends,
  chat_to-OnlySends, Encrypts, chat_to-ready,
}

module _ {Key DB : Type 0} (p : Platform Key DB) (env : Env) where
  broadcast-append :
      (text : String) (xs ys : List (String × Peer Key DB)) (b : Broadcast Key DB)
      → broadcast p env text (xs ++ ys) b ≡ broadcast p env text ys (broadcast p env text xs b)
  unfolding broadcast
  broadcast-append text [] ys b = refl
  broadcast-append text ((id, peer) ∷ xs) ys b =
      broadcast-append text xs ys (chat_to p env text id (line_open env peer) peer.room_key b)

  abbrev first_round : RoomState Key DB → Broadcast Key DB
  first_round s = record {
    room = record s { draws = s.draws + 1 };
    any_sent = false;
    first_enc = none;
  }

  start_some :
      (room own text : String) (before : List (String × Peer Key DB)) (entry : String × Peer Key DB)
      (after : List (String × Peer Key DB)) (s : RoomState Key DB)
      → start_chat p env room own text (before ++ (entry ∷ after)) s
        ≡ conclude_chat p env room own
            (env.uuid s.draws)
            text
            (broadcast p env text (before ++ (entry ∷ after)) (first_round s))
  start_some room own text [] entry after s = refl
  start_some room own text (x ∷ xs) entry after s = refl

  conclude_sent :
      (room own message_id text : String) (b : Broadcast Key DB)
      → HasSent p env b
      → let t = conclude_chat p env room own message_id text b in
        (t.sent ≡ b.room.sent)
        × (t.messages
            ≡ b.room.messages ++ (text_chat_message message_id own "You" text env.now ∷ []))
  unfolding conclude_chat store_message
  conclude_sent room own message_id text b (any, (enc, first)) =
      let e : conclude_chat p env room own message_id text b
          ≡ keep_sent p env room own message_id text (some enc) b.room =
        rw (any, first, conclude_chat) refl in
      (ap (λ t. t.sent) e, ap (λ t. t.messages) e)

  opened :
      (text room own : String) (s : RoomState Key DB)
      → given s.room_id ≡ some room
      → given s.peer_id ≡ some own
      → send_chat_message p env text s ≡ start_chat p env room own text s.peers s
  unfolding send_chat_message
  opened text room own s in_room named = rw (in_room, named, send_chat_message) refl

  -- The sender's side.
  pub send_chat_message-delivers :
      (aes : DecryptsAesGcm p.crypto) (r : RoundTrips p.codec) (text room own id : String)
      (key : Key) (peer : Peer Key DB) (before after : List (String × Peer Key DB))
      (s : RoomState Key DB)
      → given s.room_id ≡ some room
      → given s.peer_id ≡ some own
      → s.peers ≡ before ++ ((id, peer) ∷ after)
      → peer.room_key ≡ some key
      → line_open env peer ≡ true
      → env.sends id ≡ ok tt
      → Encrypts p env key text
      → let t = send_chat_message p env text s in
        Holds p env key text id t.sent
        × (t.messages
            ≡ s.messages ++ (text_chat_message (env.uuid s.draws) own "You" text env.now ∷ []))
  unfolding broadcast
  send_chat_message-delivers aes r text room own id key peer before after s in_room named at_peer
        keyed ready sends encrypts =
      let b0 = broadcast p env text before (first_round s) in
      let b1 = chat_to p env text id true (some key) b0 in
      let b2 = broadcast p env text after b1 in
      let (holds, sent) = chat_to-ready p env aes r text id key b0 encrypts sends in
      let looped : broadcast p env text (before ++ ((id, peer) ∷ after)) (first_round s) ≡ b2 =
        broadcast-append text before ((id, peer) ∷ after) (first_round s)
        ∙ ap (λ k. broadcast p env text after (chat_to p env text id (line_open env peer) k b0))
            keyed
        ∙ ap (λ o. broadcast p env text after (chat_to p env text id o (some key) b0)) ready in
      let end : send_chat_message p env text s
          ≡ conclude_chat p env room own (env.uuid s.draws) text b2 =
        opened text room own s in_room named
        ∙ ap (λ l. start_chat p env room own text l s) at_peer
        ∙ start_some room own text before (id, peer) after s
        ∙ ap (conclude_chat p env room own (env.uuid s.draws) text) looped in
      let (log, chat) =
        conclude_sent room own (env.uuid s.draws) text b2
          (broadcast-HasSent p env text after b1 sent) in
      (
        subst (Holds p env key text id) (sym (ap (λ t. t.sent) end ∙ log)) (
            Holds-Grows p env key text id b1.room.sent b2.room.sent
              (broadcast-Grows p env text after b1) holds),
        ap (λ t. t.messages) end
            ∙ chat
            ∙ ap (λ l. l ++ (text_chat_message (env.uuid s.draws) own "You" text env.now ∷ []))
                (ap (λ t. t.messages) (broadcast-OnlySends p env text after b1).2
                  ∙ ap (λ t. t.messages) (chat_to-OnlySends p env text id true (some key) b0).2
                  ∙ ap (λ t. t.messages) (broadcast-OnlySends p env text before (first_round s)).2),
      )

-- Take a store in a room, with an id, and one of its peers: its key and the store's open control
-- channel to it are there, the channel sends, encryption under the key works, AES-GCM decrypts what it
-- encrypted, and the codecs round-trip. Then `sendChatMessage` sends that peer a frame, whatever
-- happens to the other peers, and shows the text once in the store's own chat; and any store that
-- handles this frame, from a peer for which it has the same key, shows the text as one message more
-- of that peer.
pub chat_arrives :
    {Key DB : Type 0} (p : Platform Key DB) (env there : Env) (aes : DecryptsAesGcm p.crypto)
    (r : RoundTrips p.codec) (text room own id remote other_room : String) (key : Key)
    (peer q : Peer Key DB) (before after : List (String × Peer Key DB)) (s other : RoomState Key DB)
    → given s.room_id ≡ some room
    → given s.peer_id ≡ some own
    → s.peers ≡ before ++ ((id, peer) ∷ after)
    → peer.room_key ≡ some key
    → line_open env peer ≡ true
    → env.sends id ≡ ok tt
    → Encrypts p env key text
    → Dict.get remote other.peers ≡ some q
    → q.room_key ≡ some key
    → let t = send_chat_message p env text s in
      (t.messages
        ≡ s.messages ++ (text_chat_message (env.uuid s.draws) own "You" text env.now ∷ []))
      × ((ciphertext : String) × (iv : String) × (sooner : List (String × RoomFrame))
          × (later : List (String × RoomFrame)) × (t.sent
              ≡ sooner ++ ((id, chat_frame ciphertext iv) ∷ later))
          × ((on_message p there remote other_room "control"
                (text_data (some (chat_frame ciphertext iv)))
                other).messages
              ≡ other.messages
                ++ (text_chat_message
                      (there.uuid other.draws)
                      remote
                      (short_name remote)
                      text
                      there.now
                    ∷ [])))
chat_arrives p env there aes r text room own id remote other_room key peer q before after s other
      in_room named at_peer keyed ready sends encrypts here same =
    let (holds, shown) =
      send_chat_message-delivers p env aes r text room own id key peer before after s in_room named
        at_peer keyed ready sends encrypts in
    let (ciphertext, iv, sooner, later, log, opens) = holds in
    (
      shown,
      (
        ciphertext,
        iv,
        sooner,
        later,
        log,
        on_message-chat p there remote other_room ciphertext iv text key q other here same opens,
      ),
    )
