-- ===== src/Crypto/TextRoundTrip.antt =====
-- Decryption undoes encryption, for texts and for wrapped file keys.
use shadowchat.Common.{◌≡◌, true, none, [], ◌∷◌, String, arith, inl, inr}
use shadowchat.Common.Results.{ok, Result-cases}
use shadowchat.Platform.Crypto.{WebCrypto, Bytes, DecryptsAesGcm, aes_gcm, use_encrypt, use_decrypt}
use shadowchat.Platform.Encoding.{Codec, RoundTrips}
use shadowchat.Crypto.Primitives.{params}
use shadowchat.Crypto.{EncryptedData, encrypt_text, decrypt_text, wrap_file_key, unwrap_file_key}

module _ {Key : Type 0} (c : WebCrypto Key) (e : Codec) (aes : DecryptsAesGcm c)
    (r : RoundTrips e) where
  -- Where AES-GCM decrypts what it encrypted and the codecs round-trip, what `encryptText` returned
  -- for a text decrypts under the same key to that text.
  pub decrypt_text-encrypt_text :
      (key : Key) (text : String) (random : Bytes) (d : EncryptedData)
      → encrypt_text c e key text random ≡ ok d
      → decrypt_text c e key d.ciphertext d.iv ≡ ok text
  unfolding encrypt_text decrypt_text
  decrypt_text-encrypt_text key text random d h =
      elim (Result-cases (c.encrypt (params random none) key (e.encode text))) [
        | inl (cipher, q) ↦ ground (
          arith,
          q,
          aes.decrypt-encrypt (params random none) key (e.encode text) cipher q,
          r.atob-btoa cipher,
          r.atob-btoa random,
          r.decode-encode text,
        )
        | inr (x, q) ↦ ground (arith, q)
      ]

  -- Where AES-GCM decrypts what it encrypted and the codecs round-trip, unwrapping a wrapped file
  -- key imports the bytes that the key was exported as.
  pub unwrap_file_key-wrap_file_key :
      (room_key file_key : Key) (random raw : Bytes) (d : EncryptedData)
      → c.export_raw file_key ≡ ok raw
      → wrap_file_key c e room_key file_key random ≡ ok d
      → unwrap_file_key c e room_key d.ciphertext d.iv
        ≡ c.import_raw raw (aes_gcm 256) true (use_encrypt ∷ use_decrypt ∷ [])
  unfolding wrap_file_key unwrap_file_key
  unwrap_file_key-wrap_file_key room_key file_key random raw d x h =
      elim (Result-cases (c.encrypt (params random none) room_key raw)) [
        | inl (cipher, q) ↦ ground (
          arith,
          q,
          aes.decrypt-encrypt (params random none) room_key raw cipher q,
          r.atob-btoa cipher,
          r.atob-btoa random,
        )
        | inr (y, q) ↦ ground (arith, q)
      ]
