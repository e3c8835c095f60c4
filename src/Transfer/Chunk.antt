-- ===== src/Transfer/Chunk.antt =====
-- frontend/src/lib/engines/transfer.ts: the constants, `serializeChunk` and `deserializeChunk`. A
-- packet is one byte of type, 36 of the transfer's id, four of the index (big endian), 12 of IV, and
-- the ciphertext.
pub mod RoundTrip
use shadowchat.Common.{
  ℕ, zero, suc, ◌+◌, ◌*◌, ◌/◌, ◌%◌, ◌^◌, List, [], ◌∷◌, ◌++◌, Option, none, some, String, leb, ltb,
  ◌==◌, if◌then◌else◌, length, take, drop, Bool, false,
}
use shadowchat.Common.Results.{Result, ok, throws, ◌>>=◌}
use shadowchat.Platform.Crypto.{Bytes}
use shadowchat.Platform.Encoding.{Codec}

abbrev pub chunk_size : ℕ
chunk_size = 64 * 1024

abbrev pub buffer_high_watermark : ℕ
buffer_high_watermark = 1024 * 1024

abbrev pub buffer_low_watermark : ℕ
buffer_low_watermark = 64 * 1024

abbrev pub header_length : ℕ
header_length = 1 + 36 + 4 + 12

-- A fresh `ArrayBuffer`.
abbrev pub zeros : ℕ → Bytes
zeros zero = []
zeros (suc n) = 0 ∷ zeros n

-- `new Uint8Array(buffer).set(bytes, offset)`, which throws where the bytes do not fit.
unfoldable pub set_bytes : Bytes → ℕ → Bytes → Result Bytes
set_bytes buffer offset bytes =
    if leb (offset + length bytes) (length buffer)
    then ok (take offset buffer ++ (bytes ++ drop (offset + length bytes) buffer))
    else throws "offset is out of bounds"

-- The four bytes that `setUint32` writes: the number modulo 2 ^ 32, big endian.
abbrev pub uint32_bytes : ℕ → Bytes
uint32_bytes n = (n / 2 ^ 24 % 256) ∷ (n / 2 ^ 16 % 256) ∷ (n / 2 ^ 8 % 256) ∷ (n % 256) ∷ []

-- `getUint32` on the front of a list; a byte that is missing counts as 0, which no caller reaches.
abbrev pub read_uint32 : Bytes → ℕ
read_uint32 (a ∷ b ∷ c ∷ d ∷ rest) = a * 2 ^ 24 + b * 2 ^ 16 + c * 2 ^ 8 + d
read_uint32 _ = 0

pub record Chunk : Type 0 where
  pub transfer_id : String
  pub chunk_index : ℕ
  pub iv : Bytes
  pub ciphertext : Bytes

abbrev pub first_is : ℕ → Bytes → Bool
first_is n [] = false
first_is n (b ∷ bs) = b == n

module _ (e : Codec) where
  unfoldable pub serialize_chunk : String → ℕ → Bytes → Bytes → Result Bytes
  serialize_chunk transfer_id chunk_index iv ciphertext = do
    let id_bytes = e.encode transfer_id
    typed ← set_bytes (zeros header_length) 0 (1 ∷ [])
    named ← set_bytes typed 1 id_bytes
    numbered ← set_bytes named (1 + 36) (uint32_bytes chunk_index)
    header ← set_bytes numbered (1 + 36 + 4) iv
    ok (header ++ ciphertext)

  unfoldable pub deserialize_chunk : Bytes → Option Chunk
  deserialize_chunk packet =
      if ltb (length packet) 53
      then none
      else if first_is 1 packet
      then some (record {
        transfer_id = e.decode (take 36 (drop 1 packet));
        chunk_index = read_uint32 (drop (1 + 36) packet);
        iv = take 12 (drop (1 + 36 + 4) packet);
        ciphertext = drop (1 + 36 + 4 + 12) packet;
      })
      else none
