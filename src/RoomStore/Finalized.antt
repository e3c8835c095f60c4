-- ===== src/RoomStore/Finalized.antt =====
-- What `finalizeKeyExchange` of frontend/src/stores/roomStore.ts does to the peers: the history and the cached
-- messages do not touch them.
use shadowchat.Common.{
  ℕ, ◌≡◌, ◌⊎◌, refl, ◌∙◌, List, [], ◌∷◌, Option, none, some, String, ltb, Bool-cases, inl, inr,
}
use shadowchat.Common.Dict
use shadowchat.Common.Results.{Result, ok, throws}
use shadowchat.Platform.{Platform}
use shadowchat.Platform.Crypto.{KeyPair}
use shadowchat.Crypto.{KeyExchangePacket, complete_key_exchange}
use shadowchat.Transfer.State.{Coordinator}
use shadowchat.WebRtc.{Manager}
use shadowchat.RoomStore.State.{Peer, connected, ChatMessage, RoomState}
use shadowchat.RoomStore.Basics.{Env, given, update_peer}
use shadowchat.RoomStore.Keys.{
  max_history_retries, try_send, send_history, send_messages, load_cached, prepend_cached, key_peer,
  give_coordinator, finalize_key_exchange, complete_with, receive_packet, receive_with,
  receive_key_exchange, peer_line_open, after_send,
}

module _ {Key DB : Type 0} where
  -- The peers and the queue are the same.
  abbrev pub Keeps : RoomState Key DB → RoomState Key DB → Type 0
  Keeps s t = (t.peers ≡ s.peers) × (t.pending_signaling_messages ≡ s.pending_signaling_messages)

  Keeps-trans : (s t u : RoomState Key DB) → Keeps s t → Keeps t u → Keeps s u
  Keeps-trans s t u h k = (k.0 ∙ h.0, k.1 ∙ h.1)

module _ {Key DB : Type 0} (p : Platform Key DB) (env : Env) where
  after_send-Keeps :
      (r : Result (Unit {0})) (from : String) (bundle : List ChatMessage) (s : RoomState Key DB)
      → Keeps s (after_send p env r from bundle s)
  after_send-Keeps (ok u) from bundle s = (refl, refl)
  after_send-Keeps (throws e) from bundle s = (refl, refl)

  pub try_send-Keeps :
      (from : String) (bundle : List ChatMessage) (attempts : ℕ) (s : RoomState Key DB)
      → Keeps s (try_send p env from bundle attempts s)
  unfolding try_send
  try_send-Keeps from bundle attempts s =
      elim (Bool-cases (peer_line_open p env (Dict.get from s.peers))) [
        | inl open_line ↦ rw (open_line, try_send) (after_send-Keeps (env.sends from) from bundle s)
        | inr shut ↦ elim (Bool-cases (ltb attempts max_history_retries)) [
          | inl more ↦ rw (shut, more, try_send) (refl, refl)
          | inr last ↦ rw (shut, last, try_send) (refl, refl)
        ]
      ]

  send_messages-Keeps :
      (from : String) (ms : List ChatMessage) (s : RoomState Key DB)
      → Keeps s (send_messages p env from ms s)
  send_messages-Keeps from [] s = (refl, refl)
  send_messages-Keeps from (m ∷ ms) s = try_send-Keeps from _ 0 s

  prepend_cached-Keeps :
      (key : Key) (room : String) (ms : List ChatMessage) (s : RoomState Key DB)
      → Keeps s (prepend_cached p env key room ms s)
  prepend_cached-Keeps key room [] s = (refl, refl)
  prepend_cached-Keeps key room (m ∷ ms) s = (refl, refl)

  pub finalize-Keeps :
      (from : String) (key : Key) (room : String) (s : RoomState Key DB)
      → Keeps
          (update_peer from (key_peer p env key room s.db) s)
          (finalize_key_exchange p env from key room s)
  unfolding finalize_key_exchange send_history load_cached
  finalize-Keeps from key room s =
      let keyed = update_peer from (key_peer p env key room s.db) s in
      let told = send_messages p env from keyed.messages keyed in
      Keeps-trans keyed told (finalize_key_exchange p env from key room s)
        (send_messages-Keeps from keyed.messages keyed)
        (prepend_cached-Keeps key room told.messages told)

  -- A packet that arrives ends in `finalizeKeyExchange`, or changes nothing.
  abbrev pub Finalizes : String → RoomState Key DB → RoomState Key DB → Type 0
  Finalizes from s t =
      (t ≡ s) ⊎ ((key : Key) × (room : String) × (t ≡ finalize_key_exchange p env from key room s))

  complete_with-Finalizes :
      (from : String) (r : Result Key) (room : String) (s : RoomState Key DB)
      → Finalizes from s (complete_with p env from r room s)
  complete_with-Finalizes from (throws e) room s = inl refl
  complete_with-Finalizes from (ok key) room s = inr (key, room, refl)

  receive_packet-Finalizes :
      (from : String) (packet : Option KeyExchangePacket) (private_key : Key) (room : String)
      (s : RoomState Key DB)
      → Finalizes from s (receive_packet p env from packet private_key room s)
  receive_packet-Finalizes from none private_key room s = inl refl
  receive_packet-Finalizes from (some packet) private_key room s =
      complete_with-Finalizes from (complete_key_exchange p.crypto p.codec private_key packet room)
        room s

  receive_with-Finalizes :
      (from : String) (packet : Option KeyExchangePacket) (pair : Option (KeyPair Key))
      (room : Option String) (s : RoomState Key DB)
      → Finalizes from s (receive_with p env from packet pair room s)
  receive_with-Finalizes from packet none room s = inl refl
  receive_with-Finalizes from packet (some pair) none s = inl refl
  receive_with-Finalizes from packet (some pair) (some room) s =
      receive_packet-Finalizes from packet pair.private_key room s

  pub receive_key_exchange-Finalizes :
      (from : String) (packet : Option KeyExchangePacket) (s : RoomState Key DB)
      → Finalizes from s (receive_key_exchange p env from packet s)
  unfolding receive_key_exchange
  receive_key_exchange-Finalizes from packet s =
      receive_with-Finalizes from packet s.local_x25519_pair (given s.room_id) s

  manager-give_coordinator :
      (key : Key) (room : String) (db : DB) (peer : Peer Key DB) (c : Option (Coordinator Key DB))
      (m : Option Manager)
      → (give_coordinator p env key room db peer c m).pc_manager ≡ peer.pc_manager
  manager-give_coordinator key room db peer (some c) m = refl
  manager-give_coordinator key room db peer none none = refl
  manager-give_coordinator key room db peer none (some m) = refl

  pub manager-key_peer :
      (key : Key) (room : String) (db : DB) (peer : Peer Key DB)
      → (key_peer p env key room db peer).pc_manager ≡ peer.pc_manager
  unfolding key_peer
  manager-key_peer key room db peer =
      let keyed : Peer Key DB = record peer { room_key = some key; status = connected } in
      manager-give_coordinator key room db keyed keyed.transfer_coordinator keyed.pc_manager
