-- ===== src/Transfer/EndToEnd.antt =====
-- A transfer from the sender's slices to the receiver's blob.
use shadowchat.Common.{
  inl, inr, ℕ, ◌^◌, ◌≤◌, ◌<◌, ◌≡◌, refl, sym, ◌∙◌, List, [], none, some, String, true, arith,
  length, All, elem, take-append, drop-append,
}
use mathlib.Core.Path.{subst}
use shadowchat.Common.Results.{ok, or_else, throws, Result-cases, ok-injective}
use shadowchat.Platform.{Platform}
use shadowchat.Platform.Crypto.{Bytes, DecryptsAesGcm}
use shadowchat.Platform.Tables.{KeepsRows, StoresChunks}
use shadowchat.Crypto.Primitives.{params}
use shadowchat.Integrity.{compute_hash}
use shadowchat.Transfer.Chunk.{serialize_chunk, deserialize_chunk}
use shadowchat.Transfer.Chunk.RoundTrip.{deserialize-serialize}
use shadowchat.Transfer.State.{
  File, size, chunks_for, IncomingTransferState, IncomingTransferMeta, Coordinator,
}
use shadowchat.Transfer.Send.{World, make_packet}
use shadowchat.Transfer.Send.Slices.{part_of, concat-pieces}
use shadowchat.Transfer.Send.Streaming.{packet_at, IsSmooth}
use shadowchat.Transfer.Receive.Rebuild.{Decrypts}
use shadowchat.Transfer.Receive.Arrival.{Expected, Receiving, chunk_of, payload}
use shadowchat.Transfer.Overlap.{Turn, run_out, play, quiet}
use shadowchat.Transfer.Overlap.Complete.{arrivals, IsFinished, play-IsFinished}

-- What the wire format asks of a transfer: its id is 36 bytes and read back as it is, and the chunks
-- are numbered in 32 bits.
pub record FitsWire {Key DB : Type 0} (p : Platform Key DB) (id : String) (file : File)
    : Type 0 where
  pub id_length : length (p.codec.encode id) ≡ 36
  pub id_decodes : p.codec.decode (p.codec.encode id) ≡ id
  pub few_chunks : chunks_for (size file) ≤ 2 ^ 32

-- A packet that was made: its chunk was encrypted and serialized.
make_packet-eq-ok :
    {Key DB : Type 0} (p : Platform Key DB) (id : String) (file : File) (key : Key) (i : ℕ)
    (iv packet : Bytes)
    → make_packet p id file key i iv ≡ ok packet
    → (cipher : Bytes) × (p.crypto.encrypt (params iv none) key (part_of file i) ≡ ok cipher)
      × (serialize_chunk p.codec id i iv cipher ≡ ok packet)
unfolding make_packet
make_packet-eq-ok p id file key i iv packet h =
    elim (Result-cases (p.crypto.encrypt (params iv none) key (part_of file i))) [
      | inl (cipher, q) ↦ (cipher, q, rw (q, make_packet) at h)
      | inr (e, q) ↦ absurd (fails q h)
    ]
  where
    fails :
        {e : String}
        → p.crypto.encrypt (params iv none) key (part_of file i) ≡ throws e
        → make_packet p id file key i iv ≡ ok packet
        → ⊥
    fails q h = ground (arith, q)

module _ {Key DB : Type 0} (p : Platform Key DB) (w : World) (id : String) (file : File)
    (key : Key) where
  -- The ciphertext of chunk `i` under the IV of its round.
  abbrev pub ciphertext_at : ℕ → Bytes
  ciphertext_at i = or_else (p.crypto.encrypt (params (w i).random_iv none) key (part_of file i)) []

  -- What the receiver of this stream expects.
  abbrev pub expected : IncomingTransferMeta → Expected Key
  expected meta = record {
    id = id;
    key = key;
    meta = meta;
    total = chunks_for (size file);
    iv = λ i. (w i).random_iv;
    ciphertext = ciphertext_at;
  }

  module _ (wire : FitsWire p id file) (aes : DecryptsAesGcm p.crypto)
      (ivs : (i : ℕ) → length (w i).random_iv ≡ 12) (meta : IncomingTransferMeta) where
    packet_at-reads :
        (i : ℕ)
        → i < chunks_for (size file)
        → IsSmooth p w id file key i
        → deserialize_chunk p.codec (packet_at p w id file key i)
          ≡ some (chunk_of (expected meta) i)
    packet_at-reads i h s =
        let (cipher, q, made) = make_packet-eq-ok p id file key i (w i).random_iv s.packet s.made in
        let (packet, made', reads) =
          deserialize-serialize p.codec id i (w i).random_iv cipher wire.id_length wire.id_decodes
            (omega (arith, wire.few_chunks)) (ivs i) in
        let same : s.packet ≡ packet = ok-injective (sym made ∙ made') in rw (s.made, q, same) reads

    part-Decrypts :
        (i : ℕ)
        → IsSmooth p w id file key i
        → Decrypts p key (payload (expected meta)) (part_of file) i
    part-Decrypts i s =
        let (cipher, q, made) = make_packet-eq-ok p id file key i (w i).random_iv s.packet s.made in
        rw
          (
            q,
            take-append (w i).random_iv cipher 12 (ivs i),
            drop-append (w i).random_iv cipher 12 (ivs i),
          )
          (aes.decrypt-encrypt (params (w i).random_iv none) key (part_of file i) cipher q)

    module _ (k : KeepsRows p.dexie) (works : StoresChunks p.dexie)
        (smooth : (i : ℕ) → i < chunks_for (size file) → IsSmooth p w id file key i) where
      -- The same for packets that are given as they were made.
      pub delivered_packets :
          (packet : ℕ → Bytes) (us : List Turn) (incoming : IncomingTransferState Key)
          (c : Coordinator Key DB)
          → ((i : ℕ) → i < chunks_for (size file) → packet i ≡ packet_at p w id file key i)
          → 0 < size file
          → compute_hash p.hasher file.content ≡ ok meta.hash
          → All (λ i. i < chunks_for (size file)) (arrivals us)
          → ((i : ℕ) → i < chunks_for (size file) → elem i (arrivals us) ≡ true)
          → Receiving p k (expected meta) [] incoming c
          → IsFinished id meta.file_name file.content (run_out p (play p packet us (quiet c)))
      delivered_packets packet us incoming c same not_empty hash below every r =
          subst (λ blob. IsFinished id meta.file_name blob (run_out p (play p packet us (quiet c))))
            (concat-pieces file)
            (play-IsFinished p k works (expected meta) (part_of file)
              (λ i h. part-Decrypts i (smooth i h)) (rw (concat-pieces file) hash) packet
              (λ i h. rw (same i h) (packet_at-reads i h (smooth i h))) us incoming c (omega arith)
              below every r)

      -- Take a file that is not empty and a transfer id of 36 bytes that decodes to itself; let the
      -- chunks be at most 2 ^ 32, each round of the sender smooth and its IV 12 bytes long, the
      -- receiver's metadata hold the file's hash, AES-GCM decrypt what it encrypted, and the
      -- database keep its rows and store and return chunks. Let the packets that the sender's rounds
      -- make arrive in any order, each once or several times, at a receiver that is ready for this
      -- transfer, and let the steps of their handlers come in any order between the arrivals, so that
      -- handlers overlap. Once the last handlers have ended, no handler is left, the transfer is out
      -- of the map, and `onComplete` was called with the bytes of the file.
      pub delivered_file :
          (us : List Turn) (incoming : IncomingTransferState Key) (c : Coordinator Key DB)
          → 0 < size file
          → compute_hash p.hasher file.content ≡ ok meta.hash
          → All (λ i. i < chunks_for (size file)) (arrivals us)
          → ((i : ℕ) → i < chunks_for (size file) → elem i (arrivals us) ≡ true)
          → Receiving p k (expected meta) [] incoming c
          → IsFinished id meta.file_name file.content
              (run_out p (play p (packet_at p w id file key) us (quiet c)))
      delivered_file us incoming c =
          delivered_packets (packet_at p w id file key) us incoming c (λ i h. refl)
