-- ===== src/Transfer/Whole.antt =====
-- A whole transfer: what `streamOutgoing` puts on the channels, and what the receiver makes of it.
use shadowchat.Common.{
  ℕ, zero, suc, ◌+◌, ◌-◌, ◌<◌, ◌≡◌, refl, ap, ◌∙◌, List, [], ◌∷◌, ◌++◌, some, none, String, true,
  arith, length, All, elem,
}
use shadowchat.Common.Dict
use shadowchat.Common.Results.{ok}
use shadowchat.Platform.{Platform}
use shadowchat.Platform.Crypto.{Bytes, DecryptsAesGcm}
use shadowchat.Platform.Tables.{KeepsRows, StoresChunks}
use shadowchat.Integrity.{compute_hash}
use shadowchat.Transfer.State.{
  File, size, chunks_for, OutgoingTransferState, IncomingTransferState, IncomingTransferMeta,
  Coordinator,
}
use shadowchat.Transfer.Send.{World, stream_outgoing}
use shadowchat.Transfer.Send.Streaming.{packet_at, labelled, IsSmooth, stream_outgoing_all}
use shadowchat.Transfer.Receive.Arrival.{Receiving}
use shadowchat.Transfer.Overlap.{Turn, run_out, play, quiet}
use shadowchat.Transfer.Overlap.Complete.{arrivals, IsFinished}
use shadowchat.Transfer.EndToEnd.{FitsWire, expected, delivered_packets}

-- The packet at a place of what went out.
abbrev pub packet_in : List (String × Bytes) → ℕ → Bytes
packet_in [] i = []
packet_in (x ∷ xs) zero = x.1
packet_in (x ∷ xs) (suc i) = packet_in xs i

module _ {Key DB : Type 0} (p : Platform Key DB) (w : World) (id : String) where
  packet_in-labelled :
      (file : File) (key : Key) (n lo i : ℕ)
      → i < n
      → packet_in (labelled p w id file key lo n) i ≡ packet_at p w id file key (lo + i)
  packet_in-labelled file key zero lo i h = absurd (omega arith)
  packet_in-labelled file key (suc n) lo zero h =
      let e : lo ≡ lo + 0 = omega arith in ap (packet_at p w id file key) e
  packet_in-labelled file key (suc n) lo (suc i) h =
      let e : lo + 1 + i ≡ lo + suc i = omega arith in
      packet_in-labelled file key n (lo + 1) i (omega arith) ∙ ap (packet_at p w id file key) e

  length-labelled :
      (file : File) (key : Key) (n lo : ℕ) → length (labelled p w id file key lo n) ≡ n
  length-labelled file key zero lo = refl
  length-labelled file key (suc n) lo = ap suc (length-labelled file key n (lo + 1))

  module _ (o : OutgoingTransferState Key) (wire : FitsWire p id o.file)
      (aes : DecryptsAesGcm p.crypto) (ivs : (i : ℕ) → length (w i).random_iv ≡ 12)
      (meta : IncomingTransferMeta) (k : KeepsRows p.dexie) (works : StoresChunks p.dexie)
      (smooth : (i : ℕ) → i < chunks_for (size o.file) → IsSmooth p w id o.file o.file_key i) where
    -- Take an outgoing transfer of a file that is not empty, with an id of 36 bytes that decodes to
    -- itself and at most 2 ^ 32 chunks; let each round be smooth and its IV 12 bytes long, the
    -- receiver's metadata hold the file's hash, AES-GCM decrypt what it encrypted, and the database
    -- keep its rows and store and return chunks. Then `streamOutgoing` sends packets, one for each
    -- chunk, and ends the transfer. Let these packets arrive in any order, each once or several times,
    -- at a receiver that is ready for this transfer, and let the steps of their handlers come in any
    -- order between the arrivals. Once the last handlers have ended, no handler is left there, the
    -- transfer is out of the map, and `onComplete` was called with the bytes of the file.
    pub streamed_file :
        (time : ℕ) (us : List Turn) (sender receiver : Coordinator Key DB)
        (incoming : IncomingTransferState Key)
        → Dict.get id sender.active_outgoing ≡ some o
        → 0 < size o.file
        → compute_hash p.hasher o.file.content ≡ ok meta.hash
        → All (λ i. i < chunks_for (size o.file)) (arrivals us)
        → ((i : ℕ) → i < chunks_for (size o.file) → elem i (arrivals us) ≡ true)
        → Receiving p k (expected p w id o.file o.file_key meta) [] incoming receiver
        → (sent : List (String × Bytes)) × ((stream_outgoing p w id 0 time sender).packets
            ≡ sender.packets ++ sent)
          × (Dict.get id (stream_outgoing p w id 0 time sender).active_outgoing ≡ none)
          × (length sent ≡ chunks_for (size o.file))
          × IsFinished id meta.file_name o.file.content
              (run_out p (play p (packet_in sent) us (quiet receiver)))
    streamed_file time us sender receiver incoming active not_empty hash below every r =
        let n : ℕ = chunks_for (size o.file) - 0 in
        let (packets, gone) =
          stream_outgoing_all p w id o 0 time sender active (λ i a b. smooth i b) in
        (
          labelled p w id o.file o.file_key 0 n,
          packets,
          gone,
          omega (arith, length-labelled o.file o.file_key n 0),
          delivered_packets p w id o.file o.file_key wire aes ivs meta k works smooth
              (packet_in (labelled p w id o.file o.file_key 0 n)) us incoming receiver
              (λ i h.
                let e : 0 + i ≡ i = omega arith in
                packet_in-labelled o.file o.file_key n 0 i (omega arith)
                ∙ ap (packet_at p w id o.file o.file_key) e)
              not_empty hash below every r,
        )
