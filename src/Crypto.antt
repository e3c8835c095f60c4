-- ===== src/Crypto.antt =====
-- frontend/src/lib/engines/crypto.ts: text encryption, the signed key exchange, and the envelope
-- encryption of file keys. The bodies follow the order of the calls, each of which may throw.
pub mod Primitives
pub mod TextRoundTrip
pub mod Exchange
mod Tests
use shadowchat.Common.{Bool, true, false, none, List, [], ◌∷◌, String}
use shadowchat.Common.Results.{Result, ok, throws, ◌>>=◌}
use shadowchat.Platform.Crypto.{WebCrypto, Bytes, Jwk, KeyPair, aes_gcm, use_encrypt, use_decrypt}
use shadowchat.Platform.Encoding.{Codec}
use Primitives.{
  encrypt_aes_gcm, decrypt_aes_gcm, export_key_to_jwk, import_x25519_public_key,
  import_ed25519_public_key, sign_data, verify_signature, derive_room_key,
}

pub record EncryptedData : Type 0 where
  pub ciphertext : String
  pub iv : String

pub record KeyExchangePacket : Type 0 where
  pub x25519_jwk : Jwk
  pub ed25519_jwk : Jwk
  pub signature : String

module _ (e : Codec) where
  unfoldable pub string_to_buffer : String → Bytes
  string_to_buffer = e.encode

  unfoldable pub buffer_to_string : Bytes → String
  buffer_to_string = e.decode

  unfoldable pub base64_to_bytes : String → Result Bytes
  base64_to_bytes = e.atob

  unfoldable pub bytes_to_base64 : Bytes → String
  bytes_to_base64 = e.btoa

abbrev pub bad_signature : String
bad_signature = "Key exchange failed: identity signature verification failed"

abbrev pub room_key_info : String
room_key_info = "shadowchat-v1-room-key"

-- `if (!isSignatureValid) throw …`
abbrev pub check_signature : Bool → Result (Unit {0})
check_signature true = ok tt
check_signature false = throws bad_signature

infixl 5 ◌>>◌
abbrev pub ◌>>◌ {ℓ} : {B : Type ℓ} → Result (Unit {0}) → Result B → Result B
m >> k = m >>= λ _. k

module _ {Key : Type 0} (c : WebCrypto Key) (e : Codec) where
  unfoldable pub encrypt_text : Key → String → Bytes → Result EncryptedData
  unfolding string_to_buffer bytes_to_base64 encrypt_aes_gcm
  encrypt_text key text random = do
    p ← encrypt_aes_gcm c key (string_to_buffer e text) none none random
    ok (record { ciphertext = bytes_to_base64 e p.ciphertext; iv = bytes_to_base64 e p.iv })

  unfoldable pub decrypt_text : Key → String → String → Result String
  unfolding base64_to_bytes buffer_to_string decrypt_aes_gcm
  decrypt_text key ciphertext_base64 iv_base64 = do
    ciphertext ← base64_to_bytes e ciphertext_base64
    iv ← base64_to_bytes e iv_base64
    decrypted ← decrypt_aes_gcm c key ciphertext iv none
    ok (buffer_to_string e decrypted)

  unfoldable pub prepare_key_exchange : KeyPair Key → KeyPair Key → Result KeyExchangePacket
  unfolding string_to_buffer bytes_to_base64 export_key_to_jwk sign_data
  prepare_key_exchange x25519_pair ed25519_pair = do
    x25519_jwk ← export_key_to_jwk c x25519_pair.public_key
    ed25519_jwk ← export_key_to_jwk c ed25519_pair.public_key
    signature ←
        sign_data c ed25519_pair.private_key (string_to_buffer e (e.stringify_jwk x25519_jwk))
    ok (record {
      x25519_jwk = x25519_jwk;
      ed25519_jwk = ed25519_jwk;
      signature = bytes_to_base64 e signature;
    })

  -- The part after the check of the signature.
  unfoldable pub derive_shared_key : Key → Key → String → Result Key
  unfolding derive_room_key
  derive_shared_key local_private remote_public room_id = do
    raw_shared_secret ← c.derive_bits remote_public local_private 256
    derive_room_key c raw_shared_secret (e.encode room_id) (e.encode room_key_info)

  unfoldable pub complete_key_exchange : Key → KeyExchangePacket → String → Result Key
  unfolding string_to_buffer base64_to_bytes import_x25519_public_key import_ed25519_public_key
      verify_signature
  complete_key_exchange local_private packet room_id = do
    remote_x25519_public ← import_x25519_public_key c packet.x25519_jwk
    remote_ed25519_public ← import_ed25519_public_key c packet.ed25519_jwk
    signature_bytes ← base64_to_bytes e packet.signature
    is_signature_valid ←
        verify_signature c remote_ed25519_public signature_bytes
          (string_to_buffer e (e.stringify_jwk packet.x25519_jwk))
    check_signature is_signature_valid
    derive_shared_key local_private remote_x25519_public room_id

  unfoldable pub generate_file_key : Bytes → Result Key
  generate_file_key = c.generate_key (aes_gcm 256) true (use_encrypt ∷ use_decrypt ∷ [])

  unfoldable pub wrap_file_key : Key → Key → Bytes → Result EncryptedData
  unfolding bytes_to_base64 encrypt_aes_gcm
  wrap_file_key room_key file_key random = do
    raw_file_key ← c.export_raw file_key
    p ← encrypt_aes_gcm c room_key raw_file_key none none random
    ok (record { ciphertext = bytes_to_base64 e p.ciphertext; iv = bytes_to_base64 e p.iv })

  unfoldable pub unwrap_file_key : Key → String → String → Result Key
  unfolding base64_to_bytes decrypt_aes_gcm
  unwrap_file_key room_key wrapped_key_base64 iv_base64 = do
    ciphertext ← base64_to_bytes e wrapped_key_base64
    iv ← base64_to_bytes e iv_base64
    raw_key ← decrypt_aes_gcm c room_key ciphertext iv none
    c.import_raw raw_key (aes_gcm 256) true (use_encrypt ∷ use_decrypt ∷ [])
