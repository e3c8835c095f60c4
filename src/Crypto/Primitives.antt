-- ===== src/Crypto/Primitives.antt =====
-- frontend/src/lib/crypto/aes.ts, keys.ts and hkdf.ts: the calls of Web Crypto with the program's
-- parameters. `random` is what `getRandomValues` or the generator draws.
use shadowchat.Common.{Bool, true, false, Option, none, some, [], ◌∷◌}
use shadowchat.Common.Results.{Result, ok, ◌>>=◌}
use shadowchat.Platform.Crypto.{
  WebCrypto, Bytes, Jwk, AesGcmParams, KeyPair, x25519, ed25519, hkdf, aes_gcm, use_encrypt,
  use_decrypt, use_sign, use_verify, derive_key_use, derive_bits_use,
}

pub record EncryptedPayload : Type 0 where
  pub ciphertext : Bytes
  pub iv : Bytes

abbrev pub or_random : Option Bytes → Bytes → Bytes
or_random none random = random
or_random (some iv) random = iv

abbrev pub params : Bytes → Option Bytes → AesGcmParams
params iv extra = record { iv = iv; tag_length = 128; additional_data = extra }

module _ {Key : Type 0} (c : WebCrypto Key) where
  unfoldable pub encrypt_aes_gcm :
      Key → Bytes → Option Bytes → Option Bytes → Bytes → Result EncryptedPayload
  encrypt_aes_gcm key plaintext iv extra random = do
    let nonce = or_random iv random
    ciphertext ← c.encrypt (params nonce extra) key plaintext
    ok (record { ciphertext = ciphertext; iv = nonce })

  unfoldable pub decrypt_aes_gcm : Key → Bytes → Bytes → Option Bytes → Result Bytes
  decrypt_aes_gcm key ciphertext iv extra = c.decrypt (params iv extra) key ciphertext

  unfoldable pub generate_x25519_key_pair : Bytes → Result (KeyPair Key)
  generate_x25519_key_pair = c.generate_key_pair x25519 true (derive_key_use ∷ derive_bits_use ∷ [])

  unfoldable pub generate_ed25519_key_pair : Bytes → Result (KeyPair Key)
  generate_ed25519_key_pair = c.generate_key_pair ed25519 true (use_sign ∷ use_verify ∷ [])

  unfoldable pub export_key_to_jwk : Key → Result Jwk
  export_key_to_jwk = c.export_jwk

  unfoldable pub import_x25519_public_key : Jwk → Result Key
  import_x25519_public_key jwk = c.import_jwk jwk x25519 true []

  unfoldable pub import_ed25519_public_key : Jwk → Result Key
  import_ed25519_public_key jwk = c.import_jwk jwk ed25519 true (use_verify ∷ [])

  unfoldable pub sign_data : Key → Bytes → Result Bytes
  sign_data = c.sign ed25519

  unfoldable pub verify_signature : Key → Bytes → Bytes → Result Bool
  verify_signature = c.verify ed25519

  -- The base key and the room key are both made non-extractable.
  unfoldable pub derive_room_key : Bytes → Bytes → Bytes → Result Key
  derive_room_key shared_secret salt info = do
    base_key ← c.import_raw shared_secret hkdf false (derive_key_use ∷ [])
    c.derive_key (record { hash = "SHA-256"; salt = salt; info = info }) base_key (aes_gcm 256)
        false (use_encrypt ∷ use_decrypt ∷ [])
