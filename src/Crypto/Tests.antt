-- ===== src/Crypto/Tests.antt =====
-- Runs of engines/crypto.ts on the sample platform.
use shadowchat.Common.{ℕ, ◌+◌, ◌≡◌, refl, [], ◌∷◌}
use shadowchat.Common.Results.{ok}
use shadowchat.Platform.Sample.{
  sample_crypto, sample_codec, sample_codec-RoundTrips, sample_crypto-DecryptsAesGcm, pair_of,
  pair_of-IsSigningPair, pair_of-IsExchangePair, pair_of-Agree,
}
use shadowchat.Crypto.{
  EncryptedData, KeyExchangePacket, encrypt_text, decrypt_text, prepare_key_exchange,
  complete_key_exchange, derive_shared_key,
}
use shadowchat.Crypto.TextRoundTrip.{decrypt_text-encrypt_text}
use shadowchat.Crypto.Exchange.{Passes, complete-eq-ok, complete-Agree}

-- "hi" under the key 3, with the IV 5, 6.
abbrev hidden : EncryptedData
hidden = record {
  ciphertext = sample_codec.btoa (107 ∷ 108 ∷ []);
  iv = sample_codec.btoa (5 ∷ 6 ∷ []);
}

decrypt_text-encrypt_text_example :
    decrypt_text sample_crypto sample_codec 3 hidden.ciphertext hidden.iv ≡ ok "hi"
decrypt_text-encrypt_text_example =
    decrypt_text-encrypt_text sample_crypto sample_codec sample_crypto-DecryptsAesGcm
      sample_codec-RoundTrips 3 "hi" (5 ∷ 6 ∷ []) hidden
      (unfold encrypt_text sample_crypto sample_codec in refl)

abbrev wrapped : EncryptedData
wrapped = record { ciphertext = sample_codec.btoa (12 ∷ []); iv = sample_codec.btoa (5 ∷ []) }

-- The packet of a peer with the X25519 key `x` and the Ed25519 key `s`.
abbrev packet_of : (x s : ℕ) → KeyExchangePacket
packet_of x s = record {
  x25519_jwk = ("x", sample_codec.btoa (x ∷ [])) ∷ [];
  ed25519_jwk = ("x", sample_codec.btoa (s ∷ [])) ∷ [];
  signature = sample_codec.btoa ((s + (x + 1)) ∷ []);
}

complete-Agree_example :
    (complete_key_exchange sample_crypto sample_codec 4 (packet_of 2 7) "room"
      ≡ derive_shared_key sample_crypto sample_codec 4 2 "room")
    × (complete_key_exchange sample_crypto sample_codec 2 (packet_of 4 1) "room"
        ≡ derive_shared_key sample_crypto sample_codec 4 2 "room")
complete-Agree_example =
    complete-Agree sample_crypto sample_codec sample_codec-RoundTrips (pair_of 4) (pair_of 1)
      (pair_of 2) (pair_of 7) (packet_of 4 1) (packet_of 2 7) "room" (pair_of-IsExchangePair 4)
      (pair_of-IsSigningPair 1) (pair_of-IsExchangePair 2) (pair_of-IsSigningPair 7)
      (pair_of-Agree 4 2) (unfold prepare_key_exchange sample_crypto sample_codec in refl)
      (unfold prepare_key_exchange sample_crypto sample_codec in refl)

completed : complete_key_exchange sample_crypto sample_codec 4 (packet_of 2 7) "room" ≡ ok 12
unfolding complete_key_exchange derive_shared_key sample_crypto sample_codec
completed = refl

complete-eq-ok_example :
    (remote : ℕ) × Passes sample_crypto sample_codec (packet_of 2 7) remote
    × (derive_shared_key sample_crypto sample_codec 4 remote "room" ≡ ok 12)
complete-eq-ok_example =
    complete-eq-ok sample_crypto sample_codec 4 (packet_of 2 7) "room" 12 completed

-- The same packet with another signature.
abbrev forged : KeyExchangePacket
forged = record (packet_of 2 7) { signature = sample_codec.btoa (99 ∷ []) }
