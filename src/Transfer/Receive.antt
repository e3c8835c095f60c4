-- ===== src/Transfer/Receive.antt =====
-- `handleDataMessage` and `reassembleFile` of frontend/src/lib/engines/transfer.ts, as a handler that
-- no other one overlaps (Transfer/Overlap splits it at its waits, and Transfer/Overlap/Alone joins the
-- two). The `catch` of `handleDataMessage` has nothing to catch: every call in its `try` swallows its
-- own failure.
pub mod Contiguous
pub mod Rebuild
pub mod Arrival
pub mod Verdict
use shadowchat.Common.{
  ℕ, zero, suc, ◌+◌, ◌*◌, min, List, [], ◌∷◌, ◌++◌, Option, none, some, String, Bool, true, false,
  ◌||◌, ltb, leb, ◌==◌, str_eq, if◌then◌else◌, length, take, drop, elem, concat,
}
use shadowchat.Common.Dict
use shadowchat.Common.Results.{Result, ok, throws, ◌>>=◌}
use shadowchat.Platform.{Platform}
use shadowchat.Platform.Crypto.{Bytes}
use shadowchat.Platform.Tables.{
  Progress, StoredChunk, StoredFileMeta, transferring, completed, failed, verifying,
}
use shadowchat.Storage.{
  save_file_meta, get_file_meta, save_chunk, get_transfer_chunks, clear_transfer_chunks,
}
use shadowchat.Crypto.Primitives.{decrypt_aes_gcm}
use shadowchat.Integrity.{compute_hash}
use shadowchat.Transfer.Chunk.{Chunk, chunk_size, deserialize_chunk}
use shadowchat.Transfer.State.{
  IncomingTransferState, Coordinator, TransferProgress, progressed, finished, percent, no_progress,
  all_done, capped, notify, set_db, drop_incoming, fail_event, save_with, update_meta, with_status,
  with_progress,
}

-- `while (receivedChunks.has(contiguousIndex)) contiguousIndex++`. The set has an element for each
-- round, so one more round than elements is enough fuel.
unfoldable pub advance : ℕ → List ℕ → ℕ → ℕ
advance zero received index = index
advance (suc fuel) received index =
    let next = advance fuel received (index + 1) in if elem index received then next else index

abbrev pub missing_chunks : String
missing_chunks = "Reassembly failed: missing chunks in IndexedDB"

abbrev pub hash_mismatch : String
hash_mismatch = "Integrity check failed: hash mismatch"

abbrev pub require : Bool → String → Result (Unit {0})
require true e = ok tt
require false e = throws e

-- The object `meta` of `reassembleFile` after its first update.
abbrev pub verifying_meta : StoredFileMeta → StoredFileMeta
verifying_meta m = with_progress (percent 999 1000) (with_status verifying m)

module _ {Key : Type 0} where
  abbrev pub received_progress : IncomingTransferState Key → Progress
  received_progress incoming = capped incoming.chunks_received_count incoming.total_chunks

  abbrev pub received_meta : IncomingTransferState Key → StoredFileMeta → StoredFileMeta
  received_meta incoming m = with_progress (received_progress incoming) (with_status transferring m)

  -- What `onProgress` is told after a chunk; the receiver reports no speed.
  unfoldable pub chunk_progress : String → IncomingTransferState Key → TransferProgress
  chunk_progress id incoming = record {
    transfer_id = id;
    bytes_transferred = min incoming.meta.size_bytes (incoming.chunks_received_count * chunk_size);
    progress = received_progress incoming;
    speed_bytes_per_sec = no_progress;
    eta_sec = no_progress;
  }

  -- The object after the chunk was saved: marked as received, counted, and the prefix tracked.
  unfoldable pub count_chunk : ℕ → IncomingTransferState Key → IncomingTransferState Key
  count_chunk index incoming =
      let received = incoming.received_chunks ++ (index ∷ []) in
      record incoming {
        received_chunks = received;
        chunks_received_count = incoming.chunks_received_count + 1;
        contiguous_index = advance (length received + 1) received incoming.contiguous_index;
      }

module _ {Key DB : Type 0} (p : Platform Key DB) where
  -- The loop that decrypts the stored chunks: 12 bytes of IV, then the ciphertext.
  unfoldable pub decrypt_chunks : Key → List StoredChunk → Result (List Bytes)
  unfolding decrypt_aes_gcm
  decrypt_chunks key [] = ok []
  decrypt_chunks key (chunk ∷ chunks) =
      let rest = decrypt_chunks key chunks in
      decrypt_aes_gcm p.crypto key (drop 12 chunk.payload) (take 12 chunk.payload) none
      >>= λ decrypted. rest >>= λ buffers. ok (decrypted ∷ buffers)

  -- The body of the `try` in `reassembleFile`, up to the integrity check: the contents of the blob.
  unfoldable pub rebuild : List StoredChunk → IncomingTransferState Key → Result Bytes
  rebuild chunks incoming = do
    counted ← require (length chunks == incoming.total_chunks) missing_chunks
    buffers ← decrypt_chunks incoming.file_key chunks
    calculated_hash ← compute_hash p.hasher (concat buffers)
    checked ← require (str_eq calculated_hash incoming.meta.hash) hash_mismatch
    ok (concat buffers)

  -- What follows once the blob is known, or an error. `meta` is the object that was read first and
  -- marked as verifying.
  unfoldable pub conclude :
      String
      → IncomingTransferState Key
      → Option StoredFileMeta
      → Result Bytes
      → Coordinator Key DB
      → Coordinator Key DB
  conclude id incoming meta (ok blob) c =
      let db = clear_transfer_chunks p.dexie id c.db in
      let saved =
        save_with p.dexie (λ m. with_progress all_done (with_status completed (verifying_meta m)))
          meta db in
      notify c.handlers.on_complete (finished id blob incoming.meta.file_name) (set_db saved c)
  conclude id incoming meta (throws error) c =
      let db = clear_transfer_chunks p.dexie id c.db in
      let saved = save_with p.dexie (λ m. with_status failed (verifying_meta m)) meta db in
      fail_event id error (set_db saved c)

  unfoldable pub reassemble_file :
      String → IncomingTransferState Key → Coordinator Key DB → Coordinator Key DB
  unfolding rebuild
  reassemble_file id incoming c =
      let meta = get_file_meta p.dexie id c.db in
      let db = save_with p.dexie verifying_meta meta c.db in
      conclude id incoming meta (rebuild (get_transfer_chunks p.dexie id db) incoming) (set_db db c)

  -- The status and the progress that follow a chunk.
  unfoldable pub report_chunk :
      String → IncomingTransferState Key → Coordinator Key DB → Coordinator Key DB
  unfolding chunk_progress
  report_chunk id incoming c =
      notify c.handlers.on_progress (progressed (chunk_progress id incoming))
        (set_db (update_meta p.dexie (received_meta incoming) id c.db) c)

  -- A chunk that was not received before is saved, counted and reported. `incoming` is the counted
  -- object, which the map holds as well.
  unfoldable pub keep_chunk :
      Chunk → IncomingTransferState Key → Coordinator Key DB → Coordinator Key DB
  keep_chunk chunk incoming c =
      let (db, _) =
        save_chunk p.dexie
          (record {
            transfer_id = chunk.transfer_id;
            chunk_index = chunk.chunk_index;
            payload = chunk.iv ++ chunk.ciphertext;
          })
          c.db in
      report_chunk chunk.transfer_id incoming (record c {
        active_incoming = Dict.set chunk.transfer_id incoming c.active_incoming;
        db = db;
      })

  -- The last chunk starts the reassembly.
  unfoldable pub store_chunk :
      Chunk → IncomingTransferState Key → Coordinator Key DB → Coordinator Key DB
  unfolding keep_chunk count_chunk
  store_chunk chunk incoming c =
      let counted = count_chunk chunk.chunk_index incoming in
      let kept = keep_chunk chunk counted c in
      if leb counted.total_chunks counted.chunks_received_count
      then reassemble_file chunk.transfer_id counted (drop_incoming chunk.transfer_id kept)
      else kept

  -- The guards of `handleDataMessage` once the packet is read.
  unfoldable pub accept_chunk :
      Chunk → Option (IncomingTransferState Key) → Coordinator Key DB → Coordinator Key DB
  accept_chunk chunk none c = c
  accept_chunk chunk (some incoming) c =
      if incoming.paused || incoming.cancelled
      then c
      else if elem chunk.chunk_index incoming.received_chunks
      then c
      else store_chunk chunk incoming c

  unfoldable pub handle_data_message : Bytes → Coordinator Key DB → Coordinator Key DB
  unfolding accept_chunk
  handle_data_message packet c = elim (deserialize_chunk p.codec packet) [
    | none ↦ c
    | some chunk ↦ accept_chunk chunk (Dict.get chunk.transfer_id c.active_incoming) c
  ]

  -- Messages of the data channels, one after the other.
  unfoldable pub deliver : List Bytes → Coordinator Key DB → Coordinator Key DB
  deliver [] c = c
  deliver (packet ∷ packets) c = deliver packets (handle_data_message packet c)
