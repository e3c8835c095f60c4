-- ===== src/Transfer/Tests.antt =====
-- Runs of transfer.ts on the sample platform: a file of three bytes goes from one peer to another.
pub mod Handshake
pub mod Control
pub mod Whole
pub mod Overlap
use shadowchat.Common.{
  ℕ, zero, suc, ◌-◌, ◌<◌, ◌≤◌, ◌≡◌, refl, List, [], ◌∷◌, ◌++◌, map, Option, none, some, String,
  true, false, Bool, arith, length, elem, concat, ap, filter,
}
use shadowchat.Common.Dict
use shadowchat.Common.Results.{Result, ok}
use shadowchat.Platform.Crypto.{Bytes}
use shadowchat.Platform.Encoding.{RoundTrips}
use shadowchat.Platform.Sample.{
  sample_crypto, sample_codec, sample_codec-RoundTrips, sample_crypto-DecryptsAesGcm,
}
use shadowchat.Platform.Memory.{
  MemoryDb, empty_db, sample_hasher, sample_platform, memory_dexie-KeepsRows,
  memory_dexie-StoresChunks, chunk_rows_lem,
}
use shadowchat.Platform.Tables.{of_transfer}
use shadowchat.Integrity.{compute_hash}
use shadowchat.Transfer.Chunk.{Chunk, set_bytes, serialize_chunk, deserialize_chunk}
use shadowchat.Transfer.Chunk.RoundTrip.{deserialize-serialize}
use shadowchat.Transfer.State.{
  File, size, chunks_for, OutgoingTransferState, IncomingTransferMeta, IncomingTransferState,
  Handlers, Coordinator, Event,
}
use shadowchat.Transfer.Send.{World, make_packet, stream_outgoing}
use shadowchat.Transfer.Send.Slices.{part_of, concat-pieces}
use shadowchat.Transfer.Send.Streaming.{
  packet_at, labelled, IsSmooth, stream_outgoing-packets, stream_outgoing_all,
}
use shadowchat.Transfer.Receive.{advance, reassemble_file}
use shadowchat.Transfer.Overlap.{Turn, arrives, resumes, run_out, play, quiet}
use shadowchat.Transfer.Receive.Rebuild.{pieces}
use shadowchat.Transfer.Receive.Contiguous.{IsFirstMissing, advance-IsFirstMissing}
use shadowchat.Transfer.Receive.Arrival.{Expected, Receiving}
use shadowchat.Transfer.Overlap.Complete.{arrivals, IsFinished}
use shadowchat.Transfer.Receive.Verdict.{Ends, reassemble_file-Ends}
use shadowchat.Transfer.EndToEnd.{FitsWire, expected, delivered_file}

abbrev pub id : String
id = "3f2504e0-4f89-11d3-9a0c-0305e82c3301"

abbrev pub iv : Bytes
iv = 9 ∷ 8 ∷ 7 ∷ 6 ∷ 5 ∷ 4 ∷ 3 ∷ 2 ∷ 1 ∷ 0 ∷ 1 ∷ 2 ∷ []

abbrev pub note : File
note = record { name = "a.txt"; kind = "text/plain"; content = 1 ∷ 2 ∷ 3 ∷ [] }

-- Every round is smooth.
abbrev pub calm : World
calm i = record {
  halted_before = false;
  random_iv = iv;
  channel_open = true;
  halted_after = false;
  send_error = none;
  now = i;
}

abbrev pub all_handlers : Handlers
all_handlers = record {
  on_progress = true;
  on_incoming_transfer = true;
  on_incoming_transfer_request = false;
  on_complete = true;
  on_failed = true;
}

abbrev pub note_meta : IncomingTransferMeta
note_meta = record {
  file_name = "a.txt";
  size_bytes = 3;
  file_type = "text/plain";
  hash = sample_codec.btoa (1 ∷ 2 ∷ 3 ∷ []);
}

abbrev pub offered_note : OutgoingTransferState ℕ
offered_note = record {
  file = note;
  file_key = 5;
  paused = false;
  cancelled = false;
  last_sent_index = none;
}

abbrev pub expected_note : IncomingTransferState ℕ
expected_note = record {
  meta = note_meta;
  file_key = 5;
  paused = false;
  cancelled = false;
  chunks_received_count = 0;
  total_chunks = 1;
  received_chunks = [];
  contiguous_index = 0;
}

abbrev pub sender : Coordinator ℕ MemoryDb
sender = record {
  room_key = 4;
  room_id = "room";
  handlers = all_handlers;
  active_outgoing = (id, offered_note) ∷ [];
  active_incoming = [];
  control_open = true;
  db = empty_db;
  events = [];
  controls = [];
  packets = [];
}

abbrev pub receiver : Coordinator ℕ MemoryDb
receiver = record sender { active_outgoing = []; active_incoming = (id, expected_note) ∷ [] }

pub note-IsSmooth : (i : ℕ) → i < 1 → IsSmooth sample_platform calm id note 5 i
unfolding make_packet serialize_chunk set_bytes sample_crypto sample_codec
note-IsSmooth zero h = record {
  packet = _;
  made = refl;
  not_halted_before = refl;
  opened = refl;
  not_halted_after = refl;
  not_failed = refl;
}
note-IsSmooth (suc i) h = absurd (omega arith)

-- The packet comes twice, the second time while the handler of the first one is running.
abbrev pub turns : List Turn
turns = arrives 0 ∷ resumes 0 ∷ arrives 0 ∷ resumes 0 ∷ []

pub covered : (i : ℕ) → i < 1 → elem i (arrivals turns) ≡ true
covered zero h = refl
covered (suc i) h = absurd (omega arith)

pub note-FitsWire : FitsWire sample_platform id note
note-FitsWire = record {
  id_length = unfold sample_codec in refl;
  id_decodes = sample_codec-RoundTrips.decode-encode id;
  few_chunks = omega arith;
}

pub note_hash : compute_hash sample_hasher note.content ≡ ok note_meta.hash
unfolding compute_hash sample_hasher
note_hash = refl

pub receiver-Receiving :
    Receiving sample_platform memory_dexie-KeepsRows
      (expected sample_platform calm id note 5 note_meta)
      []
      expected_note
      receiver
unfolding Dict.get
receiver-Receiving = record {
  active = refl;
  running = refl;
  kept = refl;
  same_key = refl;
  same_meta = refl;
  same_total = refl;
  marked = refl;
  counted = refl;
  stored = ap (filter (of_transfer id)) (chunk_rows_lem empty_db);
  distinct = tt;
  below = tt;
  listens = refl;
}

delivered_file_example : IsFinished id "a.txt" (1 ∷ 2 ∷ 3 ∷ []) (
    run_out sample_platform
      (play sample_platform (packet_at sample_platform calm id note 5) turns (quiet receiver)))
delivered_file_example =
    delivered_file sample_platform calm id note 5 note-FitsWire sample_crypto-DecryptsAesGcm
      (λ i. refl) note_meta memory_dexie-KeepsRows memory_dexie-StoresChunks note-IsSmooth turns
      expected_note receiver (omega arith) note_hash (omega arith, (omega arith, tt)) covered
      receiver-Receiving

pub sender_active : Dict.get id sender.active_outgoing ≡ some offered_note
unfolding Dict.get
sender_active = refl

stream_outgoing_all_example :
    ((stream_outgoing sample_platform calm id 0 100 sender).packets
      ≡ labelled sample_platform calm id note 5 0 1)
    × (Dict.get id (stream_outgoing sample_platform calm id 0 100 sender).active_outgoing ≡ none)
stream_outgoing_all_example =
    stream_outgoing_all sample_platform calm id offered_note 0 100 sender sender_active
      (λ i a b. note-IsSmooth i (omega arith))

-- The peer pauses while the first packet is on its way.
abbrev halting : World
halting i = record (calm i) { halted_after = true }

stream_outgoing-packets_example :
    (j : ℕ) × (j ≤ 1)
    × ((stream_outgoing sample_platform halting id 0 100 sender).packets
        ≡ labelled sample_platform halting id note 5 0 j)
stream_outgoing-packets_example =
    stream_outgoing-packets sample_platform halting id offered_note 0 100 sender sender_active

deserialize-serialize_example :
    (packet : Bytes) × (serialize_chunk sample_codec id 70000 iv (1 ∷ 2 ∷ []) ≡ ok packet)
    × (deserialize_chunk sample_codec packet
        ≡ some (record { transfer_id = id; chunk_index = 70000; iv = iv; ciphertext = 1 ∷ 2 ∷ [] }))
deserialize-serialize_example =
    deserialize-serialize sample_codec id 70000 iv (1 ∷ 2 ∷ []) (unfold sample_codec in refl)
      (sample_codec-RoundTrips.decode-encode id) (omega arith) refl

advance-IsFirstMissing_example :
    IsFirstMissing (2 ∷ 0 ∷ 1 ∷ 4 ∷ []) 0 (advance 5 (2 ∷ 0 ∷ 1 ∷ 4 ∷ []) 0)
advance-IsFirstMissing_example = advance-IsFirstMissing (2 ∷ 0 ∷ 1 ∷ 4 ∷ []) 0

-- No chunk is stored, so this run fails.
reassemble_file-Ends_example :
    (e : Event) × Ends sample_platform memory_dexie-KeepsRows memory_dexie-StoresChunks id
      expected_note [] e
      (reassemble_file sample_platform id expected_note receiver)
reassemble_file-Ends_example =
    reassemble_file-Ends sample_platform memory_dexie-KeepsRows memory_dexie-StoresChunks id
      expected_note receiver refl refl
