-- ===== src/Platform/Crypto.antt =====
-- The Web Crypto API as lib/crypto/*.ts and lib/engines/crypto.ts call it. Randomness is an argument.
use shadowchat.Common.{ℕ, ◌≡◌, Bool, true, Option, List, [], ◌∷◌, String}
use shadowchat.Common.Dict.{Dict}
use shadowchat.Common.Results.{Result, ok}

-- An `ArrayBuffer` or a `Uint8Array`.
abbrev pub Bytes : Type 0
Bytes = List ℕ

-- A `JsonWebKey`.
abbrev pub Jwk : Type 0
Jwk = Dict String

pub record AesGcmParams : Type 0 where
  pub iv : Bytes
  pub tag_length : ℕ
  pub additional_data : Option Bytes

pub data Algorithm : Type 0 where
  x25519 ed25519 hkdf : Algorithm
  aes_gcm : ℕ → Algorithm

pub data Usage : Type 0 where
  use_encrypt use_decrypt use_sign use_verify derive_key_use derive_bits_use : Usage

pub record HkdfParams : Type 0 where
  pub hash : String
  pub salt : Bytes
  pub info : Bytes

pub record KeyPair (Key : Type 0) : Type 0 where
  pub public_key : Key
  pub private_key : Key

pub record WebCrypto (Key : Type 0) : Type 0 where
  pub encrypt : AesGcmParams → Key → Bytes → Result Bytes
  pub decrypt : AesGcmParams → Key → Bytes → Result Bytes
  pub generate_key : Algorithm → Bool → List Usage → Bytes → Result Key
  pub generate_key_pair : Algorithm → Bool → List Usage → Bytes → Result (KeyPair Key)
  pub export_raw : Key → Result Bytes
  pub import_raw : Bytes → Algorithm → Bool → List Usage → Result Key
  pub export_jwk : Key → Result Jwk
  pub import_jwk : Jwk → Algorithm → Bool → List Usage → Result Key
  pub sign : Algorithm → Key → Bytes → Result Bytes
  pub verify : Algorithm → Key → Bytes → Bytes → Result Bool
  pub derive_bits : Key → Key → ℕ → Result Bytes
  pub derive_key : HkdfParams → Key → Algorithm → Bool → List Usage → Result Key

-- AES-GCM: what was encrypted is decrypted under the same key and parameters.
pub record DecryptsAesGcm {Key : Type 0} (c : WebCrypto Key) : Type 0 where
  pub decrypt-encrypt :
      (alg : AesGcmParams) (k : Key) (plain cipher : Bytes)
      → c.encrypt alg k plain ≡ ok cipher
      → c.decrypt alg k cipher ≡ ok plain

-- A key pair as its owner uses it: the public key survives export and import, and what the private
-- key signs, the public key verifies.
pub record IsSigningPair {Key : Type 0} (c : WebCrypto Key) (p : KeyPair Key) : Type 0 where
  pub signs :
      (message signature : Bytes)
      → c.sign ed25519 p.private_key message ≡ ok signature
      → c.verify ed25519 p.public_key signature message ≡ ok true
  pub survives :
      (jwk : Jwk)
      → c.export_jwk p.public_key ≡ ok jwk
      → c.import_jwk jwk ed25519 true (use_verify ∷ []) ≡ ok p.public_key

pub record IsExchangePair {Key : Type 0} (c : WebCrypto Key) (p : KeyPair Key) : Type 0 where
  pub survives :
      (jwk : Jwk)
      → c.export_jwk p.public_key ≡ ok jwk
      → c.import_jwk jwk x25519 true [] ≡ ok p.public_key

-- Diffie-Hellman: both sides of two pairs compute the same bits.
abbrev pub Agree : {Key : Type 0} → WebCrypto Key → KeyPair Key → KeyPair Key → Type 0
Agree c p q =
    (n : ℕ)
    → c.derive_bits q.public_key p.private_key n ≡ c.derive_bits p.public_key q.private_key n

-- An AES key that was generated as extractable is what importing its exported bytes gives.
abbrev pub ReimportsKeys : {Key : Type 0} → WebCrypto Key → Type 0
ReimportsKeys {Key} c =
    (seed raw : Bytes) (k : Key)
    → c.generate_key (aes_gcm 256) true (use_encrypt ∷ use_decrypt ∷ []) seed ≡ ok k
    → c.export_raw k ≡ ok raw
    → c.import_raw raw (aes_gcm 256) true (use_encrypt ∷ use_decrypt ∷ []) ≡ ok k
