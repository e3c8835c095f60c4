-- ===== src/RoomStore/Unsent.antt =====
-- A chat message that reaches nobody, in frontend/src/stores/roomStore.ts.
use mathlib.Core.Path.{subst}
use shadowchat.Common.{
  ◌+◌, ◌≡◌, ◌⊎◌, refl, ap, ◌∙◌, List, [], ◌∷◌, Option, none, some, String, Bool, true, false, All,
  inl, inr,
}
use shadowchat.Platform.{Platform}
use shadowchat.UiStore.{warning}
use shadowchat.RoomStore.State.{Peer, RoomState}
use shadowchat.RoomStore.Basics.{Env, given, toast, line_open, line_state, ◌+s◌}
use shadowchat.RoomStore.Chat.{
  Broadcast, chat_to, broadcast, reason_of, has_key, or_next, first_reason, conclude_chat,
  start_chat, send_chat_message,
}

module _ {Key DB : Type 0} (p : Platform Key DB) (env : Env) where
  -- No key yet, or a control channel that is not open.
  abbrev pub IsUnready : String × Peer Key DB → Type 0
  IsUnready entry = (entry.1.room_key ≡ none) ⊎ (line_open env entry.1 ≡ false)

  chat_to_no_key :
      (text id : String) (ready : Bool) (b : Broadcast Key DB)
      → chat_to p env text id ready none b ≡ b
  chat_to_no_key text id true b = refl
  chat_to_no_key text id false b = refl

  broadcast_unready :
      (text : String) (peers : List (String × Peer Key DB)) (b : Broadcast Key DB)
      → All IsUnready peers
      → broadcast p env text peers b ≡ b
  unfolding broadcast
  broadcast_unready text [] b h = refl
  broadcast_unready text ((id, peer) ∷ rest) b (inl no_key, h) =
      ap (λ k. broadcast p env text rest (chat_to p env text id (line_open env peer) k b)) no_key
      ∙ ap (λ t. broadcast p env text rest t) (chat_to_no_key text id (line_open env peer) b)
      ∙ broadcast_unready text rest b h
  broadcast_unready text ((id, peer) ∷ rest) b (inr shut, h) =
      ap (λ r. broadcast p env text rest (chat_to p env text id r peer.room_key b)) shut
      ∙ broadcast_unready text rest b h

  -- What the user is told about the first peer.
  abbrev pub reason_for : Peer Key DB → Option String
  reason_for peer = reason_of (has_key peer.room_key) (line_state env peer) (line_open env peer)

  -- Take a store in a room, with an id and with peers, of which none is ready: it has no key yet, or its
  -- control channel is not open. Then `sendChatMessage` sends nothing, saves nothing and shows no
  -- message: only the id of the message has been drawn, and one warning is shown, whose reason is that
  -- of the first peer.
  pub send_chat_message-unready :
      (text room own id : String) (peer : Peer Key DB) (rest : List (String × Peer Key DB))
      (reason : String) (s : RoomState Key DB)
      → given s.room_id ≡ some room
      → given s.peer_id ≡ some own
      → s.peers ≡ (id, peer) ∷ rest
      → All IsUnready s.peers
      → reason_for peer ≡ some reason
      → send_chat_message p env text s
        ≡ toast env warning "Secure channel not ready"
            (reason +s ". Please wait a moment and try again.")
            (record s { draws = s.draws + 1 })
  unfolding send_chat_message conclude_chat first_reason
  send_chat_message-unready text room own id peer rest reason s in_room named at_peer none_ready
        why =
      let b : Broadcast Key DB = record {
        room = record s { draws = s.draws + 1 };
        any_sent = false;
        first_enc = none;
      } in
      let told = λ (l : List (String × Peer Key DB)).
        toast env warning "Secure channel not ready"
          (first_reason env l +s ". Please wait a moment and try again.")
          (record s { draws = s.draws + 1 }) in
      let opened : send_chat_message p env text s ≡ start_chat p env room own text s.peers s =
        rw (in_room, named, send_chat_message) refl in
      opened
      ∙ ap (λ l. start_chat p env room own text l s) at_peer
      ∙ ap (conclude_chat p env room own (env.uuid s.draws) text)
          (broadcast_unready text ((id, peer) ∷ rest) b (subst (All IsUnready) at_peer none_ready))
      ∙ ap told at_peer
      ∙ ap
          (λ r.
            toast env warning "Secure channel not ready"
              (or_next r (first_reason env rest) +s ". Please wait a moment and try again.")
              (record s { draws = s.draws + 1 }))
          why
