-- ===== src/RoomStore/Broadcast.antt =====
-- The loop of `sendChatMessage` in frontend/src/stores/roomStore.ts: the frames that go out.
use shadowchat.Common.{
  ℕ, ◌+◌, ◌≡◌, refl, sym, ap, ◌∙◌, List, [], ◌∷◌, ◌++◌, append_assoc, append-nil, Option, none,
  some, String, Bool, true, false,
}
use shadowchat.Common.Results.{Result, ok, throws}
use shadowchat.Platform.{Platform}
use shadowchat.Platform.Crypto.{DecryptsAesGcm}
use shadowchat.Platform.Encoding.{RoundTrips}
use shadowchat.Crypto.{EncryptedData, encrypt_text, decrypt_text}
use shadowchat.Crypto.TextRoundTrip.{decrypt_text-encrypt_text}
use shadowchat.RoomStore.State.{Peer, RoomFrame, chat_frame, RoomState}
use shadowchat.RoomStore.Basics.{Env, line_open}
use shadowchat.RoomStore.Chat.{
  Broadcast, or_first, chat_sent, chat_encrypted, drawn, chat_to, broadcast,
}

module _ {Key DB : Type 0} (p : Platform Key DB) (env : Env) where
  -- A log that grew at its end.
  abbrev pub Grows : List (String × RoomFrame) → List (String × RoomFrame) → Type 0
  Grows before after = (more : List (String × RoomFrame)) × (after ≡ before ++ more)

  Grows-refl : (l : List (String × RoomFrame)) → Grows l l
  Grows-refl l = ([], sym (append-nil l))

  pub Grows-trans : (k l m : List (String × RoomFrame)) → Grows k l → Grows l m → Grows k m
  Grows-trans k l m (x, e) (y, f) = (x ++ y, f ∙ ap (λ t. t ++ y) e ∙ append_assoc k x y)

  -- The log holds a chat frame for `id` that the key opens to the text.
  abbrev pub Holds : Key → String → String → List (String × RoomFrame) → Type 0
  Holds key text id log =
      (ciphertext : String) × (iv : String) × (before : List (String × RoomFrame)) × (after : List
        (String × RoomFrame))
      × (log ≡ before ++ ((id, chat_frame ciphertext iv) ∷ after))
      × (decrypt_text p.crypto p.codec key ciphertext iv ≡ ok text)

  pub Holds-Grows :
      (key : Key) (text id : String) (l m : List (String × RoomFrame))
      → Grows l m
      → Holds key text id l
      → Holds key text id m
  Holds-Grows key text id l m (more, g) (c, iv, before, after, e, d) = (
    c,
    iv,
    before,
    after ++ more,
    g ∙ ap (λ t. t ++ more) e ∙ append_assoc before ((id, chat_frame c iv) ∷ after) more,
    d,
  )

  chat_sent-Grows :
      (id : String) (enc : EncryptedData) (r : Result (Unit {0})) (b : Broadcast Key DB)
      → Grows b.room.sent (chat_sent p env id enc r b).room.sent
  chat_sent-Grows id enc (throws e) b = Grows-refl b.room.sent
  chat_sent-Grows id enc (ok u) b = ((id, chat_frame enc.ciphertext enc.iv) ∷ [], refl)

  chat_encrypted-Grows :
      (id : String) (r : Result EncryptedData) (b : Broadcast Key DB)
      → Grows b.room.sent (chat_encrypted p env id r b).room.sent
  chat_encrypted-Grows id (throws e) b = Grows-refl b.room.sent
  chat_encrypted-Grows id (ok enc) b = chat_sent-Grows id enc (env.sends id) b

  chat_to-Grows :
      (text id : String) (ready : Bool) (key : Option Key) (b : Broadcast Key DB)
      → Grows b.room.sent (chat_to p env text id ready key b).room.sent
  chat_to-Grows text id false key b = Grows-refl b.room.sent
  chat_to-Grows text id true none b = Grows-refl b.room.sent
  chat_to-Grows text id true (some key) b =
      chat_encrypted-Grows id (encrypt_text p.crypto p.codec key text (env.random b.room.draws))
        (drawn p env b)

  pub broadcast-Grows :
      (text : String) (peers : List (String × Peer Key DB)) (b : Broadcast Key DB)
      → Grows b.room.sent (broadcast p env text peers b).room.sent
  unfolding broadcast
  broadcast-Grows text [] b = Grows-refl b.room.sent
  broadcast-Grows text ((id, peer) ∷ rest) b =
      let next = chat_to p env text id (line_open env peer) peer.room_key b in
      Grows-trans b.room.sent next.room.sent (broadcast p env text rest next).room.sent
        (chat_to-Grows text id (line_open env peer) peer.room_key b)
        (broadcast-Grows text rest next)

  -- At least one frame is out.
  abbrev pub HasSent : Broadcast Key DB → Type 0
  HasSent b = (b.any_sent ≡ true) × ((enc : EncryptedData) × (b.first_enc ≡ some enc))

  -- A round changes what went out and how much was drawn, and nothing else.
  abbrev pub OnlySends : RoomState Key DB → RoomState Key DB → Type 0
  OnlySends s t =
      (log : List (String × RoomFrame)) × (n : ℕ) × (t ≡ record s { sent = log; draws = n })

  OnlySends-trans : (s t u : RoomState Key DB) → OnlySends s t → OnlySends t u → OnlySends s u
  OnlySends-trans s t u (l, n, e) (m, k, f) =
      (m, k, f ∙ ap (λ (x : RoomState Key DB). record x { sent = m; draws = k }) e)

  or_first-some :
      (first : Option EncryptedData) (enc : EncryptedData)
      → (e : EncryptedData) × (some (or_first first enc) ≡ some e)
  or_first-some first enc = (or_first first enc, refl)

  chat_sent-HasSent :
      (id : String) (enc : EncryptedData) (r : Result (Unit {0})) (b : Broadcast Key DB)
      → HasSent b
      → HasSent (chat_sent p env id enc r b)
  chat_sent-HasSent id enc (throws e) b h = (h.0, or_first-some b.first_enc enc)
  chat_sent-HasSent id enc (ok u) b h = (refl, or_first-some b.first_enc enc)

  chat_encrypted-HasSent :
      (id : String) (r : Result EncryptedData) (b : Broadcast Key DB)
      → HasSent b
      → HasSent (chat_encrypted p env id r b)
  chat_encrypted-HasSent id (throws e) b h = h
  chat_encrypted-HasSent id (ok enc) b h = chat_sent-HasSent id enc (env.sends id) b h

  chat_to-HasSent :
      (text id : String) (ready : Bool) (key : Option Key) (b : Broadcast Key DB)
      → HasSent b
      → HasSent (chat_to p env text id ready key b)
  chat_to-HasSent text id false key b h = h
  chat_to-HasSent text id true none b h = h
  chat_to-HasSent text id true (some key) b h =
      chat_encrypted-HasSent id (encrypt_text p.crypto p.codec key text (env.random b.room.draws))
        (drawn p env b) h

  pub broadcast-HasSent :
      (text : String) (peers : List (String × Peer Key DB)) (b : Broadcast Key DB)
      → HasSent b
      → HasSent (broadcast p env text peers b)
  unfolding broadcast
  broadcast-HasSent text [] b h = h
  broadcast-HasSent text ((id, peer) ∷ rest) b h =
      broadcast-HasSent text rest (chat_to p env text id (line_open env peer) peer.room_key b)
        (chat_to-HasSent text id (line_open env peer) peer.room_key b h)

  chat_sent-OnlySends :
      (id : String) (enc : EncryptedData) (r : Result (Unit {0})) (b : Broadcast Key DB)
      → OnlySends b.room (chat_sent p env id enc r b).room
  chat_sent-OnlySends id enc (throws e) b = (b.room.sent, b.room.draws, refl)
  chat_sent-OnlySends id enc (ok u) b =
      (b.room.sent ++ ((id, chat_frame enc.ciphertext enc.iv) ∷ []), b.room.draws, refl)

  chat_encrypted-OnlySends :
      (id : String) (r : Result EncryptedData) (b : Broadcast Key DB)
      → OnlySends b.room (chat_encrypted p env id r b).room
  chat_encrypted-OnlySends id (throws e) b = (b.room.sent, b.room.draws, refl)
  chat_encrypted-OnlySends id (ok enc) b = chat_sent-OnlySends id enc (env.sends id) b

  pub chat_to-OnlySends :
      (text id : String) (ready : Bool) (key : Option Key) (b : Broadcast Key DB)
      → OnlySends b.room (chat_to p env text id ready key b).room
  chat_to-OnlySends text id false key b = (b.room.sent, b.room.draws, refl)
  chat_to-OnlySends text id true none b = (b.room.sent, b.room.draws, refl)
  chat_to-OnlySends text id true (some key) b =
      let enc = encrypt_text p.crypto p.codec key text (env.random b.room.draws) in
      let once = drawn p env b in
      OnlySends-trans b.room once.room (chat_encrypted p env id enc once).room
        (b.room.sent, b.room.draws + 1, refl) (chat_encrypted-OnlySends id enc once)

  pub broadcast-OnlySends :
      (text : String) (peers : List (String × Peer Key DB)) (b : Broadcast Key DB)
      → OnlySends b.room (broadcast p env text peers b).room
  unfolding broadcast
  broadcast-OnlySends text [] b = (b.room.sent, b.room.draws, refl)
  broadcast-OnlySends text ((id, peer) ∷ rest) b =
      let next = chat_to p env text id (line_open env peer) peer.room_key b in
      OnlySends-trans b.room next.room (broadcast p env text rest next).room
        (chat_to-OnlySends text id (line_open env peer) peer.room_key b)
        (broadcast-OnlySends text rest next)

  -- The encryption of the text under the key works, with any bytes that are drawn.
  abbrev pub Encrypts : Key → String → Type 0
  Encrypts key text =
      (n : ℕ) → (d : EncryptedData) × (encrypt_text p.crypto p.codec key text (env.random n) ≡ ok d)

  module _ (aes : DecryptsAesGcm p.crypto) (r : RoundTrips p.codec) where
    -- The round of a peer that is ready.
    pub chat_to-ready :
        (text id : String) (key : Key) (b : Broadcast Key DB)
        → Encrypts key text
        → env.sends id ≡ ok tt
        → let next = chat_to p env text id true (some key) b in
          Holds key text id next.room.sent × HasSent next
    chat_to-ready text id key b encrypts sends =
        let (d, e) = encrypts b.room.draws in
        let went : chat_to p env text id true (some key) b
            ≡ chat_sent p env id d (ok tt) (drawn p env b) =
          ap (λ r. chat_encrypted p env id r (drawn p env b)) e
          ∙ ap (λ r. chat_sent p env id d r (drawn p env b)) sends in
        rw went (
          (
            d.ciphertext,
            d.iv,
            b.room.sent,
            [],
            refl,
            decrypt_text-encrypt_text p.crypto p.codec aes r key text (env.random b.room.draws) d e,
          ),
          (refl, or_first-some b.first_enc d),
        )
