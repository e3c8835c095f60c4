-- ===== src/Transfer/Tests/Overlap.antt =====
-- Two handlers of one transfer that overlap.
use shadowchat.Common.{ℕ, ◌+◌, ◌≡◌, refl, List, [], ◌∷◌, drop}
use shadowchat.Common.Dict
use shadowchat.Common.Results.{or_else}
use shadowchat.Platform.Crypto.{Bytes}
use shadowchat.Platform.Sample.{sample_crypto, sample_codec}
use shadowchat.Platform.Memory.{MemoryDb, memory_dexie, sample_hasher, sample_platform}
use shadowchat.Common.Sorting.{sort_by}
use shadowchat.Storage.{get_file_meta, save_chunk, get_transfer_chunks, clear_transfer_chunks}
use shadowchat.Integrity.{compute_hash}
use shadowchat.Transfer.Chunk.{set_bytes, serialize_chunk, deserialize_chunk}
use shadowchat.Transfer.State.{IncomingTransferState, Coordinator, finished, failed_with}
use shadowchat.Transfer.Receive.{missing_chunks, rebuild, decrypt_chunks}
use shadowchat.Transfer.Overlap.{Turn, arrives, resumes, run_out, play, finish, quiet}
use shadowchat.Transfer.Tests.{id, iv, expected_note, receiver}

-- A file of two chunks, of one byte each.
abbrev two_chunks : IncomingTransferState ℕ
two_chunks = record expected_note {
  meta = record expected_note.meta { size_bytes = 2; hash = sample_codec.btoa (1 ∷ 2 ∷ []) };
  total_chunks = 2;
}

abbrev ready : Coordinator ℕ MemoryDb
ready = record receiver { active_incoming = (id, two_chunks) ∷ [] }

packet : ℕ → Bytes
packet i = or_else (serialize_chunk sample_codec id i iv ((6 + i) ∷ [])) []

abbrev overlapping : List Turn
overlapping =
    arrives 0
    ∷ arrives 1
    ∷ resumes 0
    ∷ resumes 1
    ∷ resumes 0
    ∷ resumes 1
    ∷ resumes 0
    ∷ resumes 1
    ∷ resumes 0
    ∷ resumes 1
    ∷ []

-- Both handlers find the count reached and start the reassembly: the one reports the file, and the other
-- then finds its chunks gone.
reported_twice :
    drop 2
      (run_out sample_platform
        (play sample_platform packet overlapping (quiet ready))).coordinator.events
    ≡ finished id (1 ∷ 2 ∷ []) "a.txt" ∷ failed_with id missing_chunks ∷ []
unfolding packet play finish deserialize_chunk serialize_chunk set_bytes sample_codec Dict.get
    Dict.set get_file_meta memory_dexie save_chunk rebuild get_transfer_chunks sort_by
    decrypt_chunks sample_crypto compute_hash sample_hasher clear_transfer_chunks
reported_twice = refl
