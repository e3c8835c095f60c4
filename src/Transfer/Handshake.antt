-- ===== src/Transfer/Handshake.antt =====
-- What `sendFile` tells the other side: a metadata frame that describes the file.
use shadowchat.Common.{◌≡◌, refl, ap, ◌∙◌, [], ◌∷◌, ◌++◌, some, String, true}
use shadowchat.Common.Dict
use shadowchat.Common.Results.{ok, >>=-eq-ok, ok-injective}
use shadowchat.Platform.{Platform}
use shadowchat.Platform.Crypto.{Bytes, DecryptsAesGcm, ReimportsKeys}
use shadowchat.Platform.Encoding.{RoundTrips}
use shadowchat.Crypto.{
  EncryptedData, encrypt_text, decrypt_text, generate_file_key, wrap_file_key, unwrap_file_key,
}
use shadowchat.Crypto.TextRoundTrip.{decrypt_text-encrypt_text, unwrap_file_key-wrap_file_key}
use shadowchat.Integrity.{compute_hash}
use shadowchat.Transfer.State.{File, size, Metadata, metadata, Coordinator, send_control}
use shadowchat.Transfer.Offer.{
  Draws, Sealed, frame_of, fresh_outgoing, seal_file, announce_file, send_file,
}

module _ {Key DB : Type 0} (p : Platform Key DB) where
  -- Who has the room key reads the file's name, type and key from the frame, and its size and hash
  -- are those of the file.
  pub record Describes (room_key : Key) (file : File) (key : Key) (m : Metadata) : Type 0 where
    pub name_opens :
        decrypt_text p.crypto p.codec room_key m.encrypted_name m.name_iv ≡ ok file.name
    pub kind_opens :
        decrypt_text p.crypto p.codec room_key m.encrypted_type m.type_iv ≡ ok file.kind
    pub key_opens : unwrap_file_key p.crypto p.codec room_key m.wrapped_key m.key_iv ≡ ok key
    pub sized : m.size_bytes ≡ size file
    pub hashed : compute_hash p.hasher file.content ≡ ok m.hash

  -- What a successful `sendFile` leaves: one frame more, which describes the file, and the transfer
  -- as an active one with the key of the frame.
  pub record IsOffered (d : Draws) (file : File) (s s' : Coordinator Key DB) : Type 0 where
    pub frame : Metadata
    pub key : Key
    pub sent : s'.controls ≡ s.controls ++ (metadata frame ∷ [])
    pub named : frame.transfer_id ≡ d.transfer_id
    pub describes : Describes s.room_key file key frame
    pub active : Dict.get d.transfer_id s'.active_outgoing ≡ some (fresh_outgoing file key)

  module _ (aes : DecryptsAesGcm p.crypto) (codes : RoundTrips p.codec)
      (keys : ReimportsKeys p.crypto) where
    wrapped_opens :
        (room_key file_key : Key) (seed random : Bytes) (w : EncryptedData)
        → generate_file_key p.crypto p.codec seed ≡ ok file_key
        → wrap_file_key p.crypto p.codec room_key file_key random ≡ ok w
        → unwrap_file_key p.crypto p.codec room_key w.ciphertext w.iv ≡ ok file_key
    unfolding generate_file_key wrap_file_key
    wrapped_opens room_key file_key seed random w g h =
        let (raw, x, _) = >>=-eq-ok (p.crypto.export_raw file_key) _ h in
        unwrap_file_key-wrap_file_key p.crypto p.codec aes codes room_key file_key random raw w x h
        ∙ keys seed raw file_key g x

    seal_file-Describes :
        (d : Draws) (file : File) (s : Coordinator Key DB) (sealed : Sealed Key)
        → seal_file p d file s ≡ ok sealed
        → Describes s.room_key file sealed.file_key (frame_of d.transfer_id (size file) sealed)
    unfolding seal_file
    seal_file-Describes d file s sealed h =
        let (key, g, h1) = >>=-eq-ok (generate_file_key p.crypto p.codec d.key_seed) _ h in
        let (wrapped, w, h2) =
          >>=-eq-ok (wrap_file_key p.crypto p.codec s.room_key key d.key_iv) _ h1 in
        let (name, n, h3) =
          >>=-eq-ok (encrypt_text p.crypto p.codec s.room_key file.name d.name_iv) _ h2 in
        let (kind, t, h4) =
          >>=-eq-ok (encrypt_text p.crypto p.codec s.room_key file.kind d.type_iv) _ h3 in
        let (hash, c, h5) = >>=-eq-ok (compute_hash p.hasher file.content) _ h4 in
        rw (← ok-injective h5) (record {
          name_opens =
              decrypt_text-encrypt_text p.crypto p.codec aes codes s.room_key file.name d.name_iv
                name n;
          kind_opens =
              decrypt_text-encrypt_text p.crypto p.codec aes codes s.room_key file.kind d.type_iv
                kind t;
          key_opens = wrapped_opens s.room_key key d.key_seed d.key_iv wrapped g w;
          sized = refl;
          hashed = c;
        })

    announce_file-IsOffered :
        (d : Draws) (file : File) (s : Coordinator Key DB) (sealed : Sealed Key)
        → s.control_open ≡ true
        → Describes s.room_key file sealed.file_key (frame_of d.transfer_id (size file) sealed)
        → IsOffered d file s (announce_file p d file sealed s)
    unfolding announce_file send_control
    announce_file-IsOffered d file s sealed open_now described = rw open_now (record {
      frame = frame_of d.transfer_id (size file) sealed;
      key = sealed.file_key;
      sent = refl;
      named = refl;
      describes = described;
      active = Dict.get-set_self d.transfer_id _ s.active_outgoing;
    })

    -- Where AES-GCM decrypts what it encrypted, the codecs round-trip and keys survive export and
    -- import, a `sendFile` that succeeds while the control channel is open sends one frame more,
    -- from which the room key opens the file's name, type and key, with its size and hash; and it
    -- leaves the transfer active, with the key of the frame and nothing sent.
    pub send_file-IsOffered :
        (d : Draws) (file : File) (s s' : Coordinator Key DB) (id : String)
        → s.control_open ≡ true
        → send_file p d file s ≡ ok (id, s')
        → IsOffered d file s s'
    unfolding send_file
    send_file-IsOffered d file s s' id open_now h =
        let (sealed, g, h1) = >>=-eq-ok (seal_file p d file s) _ h in
        let e : announce_file p d file sealed s ≡ s' = ap (λ r. r.1) (ok-injective h1) in
        rw (← e)
          (announce_file-IsOffered d file s sealed open_now (seal_file-Describes d file s sealed g))
