-- ===== src/Transfer/Overlap.antt =====
-- `handleDataMessage` and `reassembleFile` of frontend/src/lib/engines/transfer.ts as they overlap:
-- `handleChannelMessage` does not wait for a handler, so the next packet is handled while earlier
-- handlers wait for the database. A handler is a `Stage`, what it waits for or has to do next; each call
-- of the database and each piece of code between two waits that uses what the handlers share is a step
-- of its own. Steps of different handlers, and arrivals of packets, come in any order.
pub mod Ending
pub mod Frame
pub mod Gathering
pub mod Moves
pub mod Arrivals
pub mod Winning
pub mod Phases
pub mod Complete
pub mod Alone
use shadowchat.Common.{
  ℕ, zero, suc, ◌+◌, List, [], ◌∷◌, ◌++◌, Option, none, some, String, Bool, leb, elem, ◌||◌,
  if◌then◌else◌, length,
}
use shadowchat.Common.Dict
use shadowchat.Common.Dict.{Dict}
use shadowchat.Common.Results.{Result, ok, throws}
use shadowchat.Platform.{Platform}
use shadowchat.Platform.Crypto.{Bytes}
use shadowchat.Platform.Tables.{StoredChunk, StoredFileMeta, completed, failed}
use shadowchat.Storage.{
  save_file_meta, get_file_meta, save_chunk, get_transfer_chunks, clear_transfer_chunks,
}
use shadowchat.Transfer.Chunk.{Chunk, deserialize_chunk}
use shadowchat.Transfer.State.{
  IncomingTransferState, Coordinator, TransferProgress, progressed, finished, all_done, notify,
  set_db, drop_incoming, put_incoming, fail_event, with_status, with_progress,
}
use shadowchat.Transfer.Receive.{advance, verifying_meta, received_meta, chunk_progress, rebuild}

-- `saving` to `written` are `handleDataMessage`, the others `reassembleFile`. A stage with -ing waits
-- for a call of the database: a chunk or the record of the file to be saved, the record or the chunks to
-- be read, or the chunks to be removed. Decryption and hash use only the chunks that were read and fields
-- of the object that do not change, so they belong to the step that reads the chunks.
pub data Stage : Type 0 where
  saving : StoredChunk → Stage
  saved reading : String → Stage
  read : String → Option StoredFileMeta → Stage
  writing : String → StoredFileMeta → TransferProgress → Stage
  written : String → TransferProgress → Stage
  checking : String → Stage
  marking : String → StoredFileMeta → Stage
  fetching : String → Option StoredFileMeta → Stage
  clearing : String → Option StoredFileMeta → Result Bytes → Stage
  closing : String → StoredFileMeta → Result Bytes → Stage
  closed : String → Result Bytes → Stage

abbrev pub id_of : Stage → String
id_of (saving row) = row.transfer_id
id_of (saved id) = id
id_of (reading id) = id
id_of (read id meta) = id
id_of (writing id meta progress) = id
id_of (written id progress) = id
id_of (checking id) = id
id_of (marking id meta) = id
id_of (fetching id meta) = id
id_of (clearing id meta r) = id
id_of (closing id meta r) = id
id_of (closed id r) = id

-- What a step of a handler leaves: the object `incoming` that the handlers of a transfer share, and the
-- next stage, or none at the end.
pub record Moved (Key DB : Type 0) : Type 0 where
  pub coordinator : Coordinator Key DB
  pub object : IncomingTransferState Key
  pub next : Option Stage

-- `held` has the shared object of each transfer, also once the map has it no more.
pub record Traffic (Key DB : Type 0) : Type 0 where
  pub coordinator : Coordinator Key DB
  pub held : Dict (IncomingTransferState Key)
  pub running : List Stage

-- A packet arrives, or the handler at a place takes its next step.
pub data Turn : Type 0 where
  arrives resumes : ℕ → Turn

abbrev pub stage_at : ℕ → List Stage → Option Stage
stage_at i [] = none
stage_at zero (s ∷ ss) = some s
stage_at (suc i) (s ∷ ss) = stage_at i ss

-- The handler at a place goes on with a stage, or ends.
abbrev pub put_at : ℕ → Option Stage → List Stage → List Stage
put_at i n [] = []
put_at zero none (s ∷ ss) = ss
put_at zero (some n) (s ∷ ss) = n ∷ ss
put_at (suc i) n (s ∷ ss) = s ∷ put_at i n ss

-- How many steps a handler has left at most.
abbrev pub steps_left : Stage → ℕ
steps_left (saving row) = 12
steps_left (saved id) = 11
steps_left (reading id) = 10
steps_left (read id meta) = 9
steps_left (writing id meta progress) = 8
steps_left (written id progress) = 7
steps_left (checking id) = 6
steps_left (marking id meta) = 5
steps_left (fetching id meta) = 4
steps_left (clearing id meta r) = 3
steps_left (closing id meta r) = 2
steps_left (closed id r) = 1

abbrev pub total_of : (Stage → ℕ) → List Stage → ℕ
total_of f [] = 0
total_of f (s ∷ ss) = f s + total_of f ss

-- The record of the file at the end.
abbrev pub final_meta : Result Bytes → StoredFileMeta → StoredFileMeta
final_meta (ok blob) meta = with_progress all_done (with_status completed meta)
final_meta (throws e) meta = with_status failed meta

abbrev pub to_fetch : String → Option StoredFileMeta → Stage
to_fetch id none = fetching id none
to_fetch id (some meta) = marking id (verifying_meta meta)

abbrev pub to_close : String → Option StoredFileMeta → Result Bytes → Stage
to_close id none r = closed id r
to_close id (some meta) r = closing id (final_meta r meta) r

module _ {Key : Type 0} where
  -- `receivedChunks.add`
  abbrev pub mark_chunk : ℕ → IncomingTransferState Key → IncomingTransferState Key
  mark_chunk index o = record o { received_chunks = o.received_chunks ++ (index ∷ []) }

  -- The chunk is counted, and the prefix tracked.
  abbrev pub tally : IncomingTransferState Key → IncomingTransferState Key
  tally o = record o {
    chunks_received_count = o.chunks_received_count + 1;
    contiguous_index = advance (length o.received_chunks + 1) o.received_chunks o.contiguous_index;
  }

module _ {Key DB : Type 0} where
  -- The object in the map changes with the shared object, where it is still there.
  abbrev pub refresh : String → IncomingTransferState Key → Coordinator Key DB → Coordinator Key DB
  refresh id o c = elim (Dict.get id c.active_incoming) [ none ↦ c | some i ↦ put_incoming id o c ]

  abbrev pub moved : Coordinator Key DB → IncomingTransferState Key → Stage → Moved Key DB
  moved c o s = record { coordinator = c; object = o; next = some s }

  -- The report on a chunk, and the start of the reassembly where the count is reached by now.
  unfoldable pub end_chunk :
      String → TransferProgress → IncomingTransferState Key → Coordinator Key DB → Moved Key DB
  end_chunk id progress o c =
      let told = notify c.handlers.on_progress (progressed progress) c in
      if leb o.total_chunks o.chunks_received_count
      then moved (drop_incoming id told) o (checking id)
      else record { coordinator = told; object = o; next = none }

  abbrev pub tell_verdict :
      String → Result Bytes → IncomingTransferState Key → Coordinator Key DB → Coordinator Key DB
  tell_verdict id (ok blob) o c =
      notify c.handlers.on_complete (finished id blob o.meta.file_name) c
  tell_verdict id (throws error) o c = fail_event id error c

module _ {Key DB : Type 0} (p : Platform Key DB) where
  unfoldable pub resume : Stage → IncomingTransferState Key → Coordinator Key DB → Moved Key DB
  unfolding end_chunk
  resume (saving row) o c =
      moved (set_db (save_chunk p.dexie row c.db).0 c) o (saved row.transfer_id)
  resume (saved id) o c = moved (refresh id (tally o) c) (tally o) (reading id)
  resume (reading id) o c = moved c o (read id (get_file_meta p.dexie id c.db))
  resume (read id none) o c = end_chunk id (chunk_progress id o) o c
  resume (read id (some meta)) o c =
      moved c o (writing id (received_meta o meta) (chunk_progress id o))
  resume (writing id meta progress) o c =
      moved (set_db (save_file_meta p.dexie meta c.db) c) o (written id progress)
  resume (written id progress) o c = end_chunk id progress o c
  resume (checking id) o c = moved c o (to_fetch id (get_file_meta p.dexie id c.db))
  resume (marking id meta) o c =
      moved (set_db (save_file_meta p.dexie meta c.db) c) o (fetching id (some meta))
  resume (fetching id meta) o c =
      moved c o (clearing id meta (rebuild p (get_transfer_chunks p.dexie id c.db) o))
  resume (clearing id meta r) o c =
      moved (set_db (clear_transfer_chunks p.dexie id c.db) c) o (to_close id meta r)
  resume (closing id meta r) o c =
      moved (set_db (save_file_meta p.dexie meta c.db) c) o (closed id r)
  resume (closed id r) o c = record { coordinator = tell_verdict id r o c; object = o; next = none }

  -- A handler always has its object in `held`: `admit` puts it there.
  unfoldable pub resume_held :
      ℕ → Stage → Option (IncomingTransferState Key) → Traffic Key DB → Traffic Key DB
  unfolding resume
  resume_held i s none t = record t { running = put_at i none t.running }
  resume_held i s (some o) t =
      let m = resume s o t.coordinator in
      record {
        coordinator = m.coordinator;
        held = Dict.set (id_of s) m.object t.held;
        running = put_at i m.next t.running;
      }

  unfoldable pub resume_at : ℕ → Traffic Key DB → Traffic Key DB
  unfolding resume_held
  resume_at i t = elim (stage_at i t.running) [
    | none ↦ t
    | some s ↦ resume_held i s (Dict.get (id_of s) t.held) t
  ]

  -- The guards of `handleDataMessage`, and the start of a handler up to its first wait.
  unfoldable pub admit :
      Chunk → Option (IncomingTransferState Key) → Traffic Key DB → Traffic Key DB
  admit chunk none t = t
  admit chunk (some incoming) t =
      if incoming.paused || incoming.cancelled
      then t
      else if elem chunk.chunk_index incoming.received_chunks
      then t
      else record {
        coordinator =
            put_incoming chunk.transfer_id (mark_chunk chunk.chunk_index incoming) t.coordinator;
        held = Dict.set chunk.transfer_id (mark_chunk chunk.chunk_index incoming) t.held;
        running =
            t.running
            ++ (saving (record {
              transfer_id = chunk.transfer_id;
              chunk_index = chunk.chunk_index;
              payload = chunk.iv ++ chunk.ciphertext;
            })
                ∷ []);
      }

  unfoldable pub take_packet : Bytes → Traffic Key DB → Traffic Key DB
  unfolding admit
  take_packet packet t = elim (deserialize_chunk p.codec packet) [
    | none ↦ t
    | some chunk ↦ admit chunk (Dict.get chunk.transfer_id t.coordinator.active_incoming) t
  ]

  unfoldable pub turn : (ℕ → Bytes) → Turn → Traffic Key DB → Traffic Key DB
  unfolding take_packet resume_at
  turn packet (arrives i) t = take_packet (packet i) t
  turn packet (resumes i) t = resume_at i t

  unfoldable pub play : (ℕ → Bytes) → List Turn → Traffic Key DB → Traffic Key DB
  unfolding turn
  play packet [] t = t
  play packet (u ∷ us) t = play packet us (turn packet u t)

  -- So many steps of the first handler that runs.
  unfoldable pub finish : ℕ → Traffic Key DB → Traffic Key DB
  unfolding resume_at
  finish zero t = t
  finish (suc n) t = finish n (resume_at 0 t)

  -- The running handlers end, with no further packets.
  abbrev pub run_out : Traffic Key DB → Traffic Key DB
  run_out t = finish (total_of steps_left t.running) t

module _ {Key DB : Type 0} where
  abbrev pub with_running :
      Dict (IncomingTransferState Key) → List Stage → Coordinator Key DB → Traffic Key DB
  with_running objects ss c = record { coordinator = c; held = objects; running = ss }

  -- No handler is running.
  abbrev pub quiet : Coordinator Key DB → Traffic Key DB
  quiet c = record { coordinator = c; held = c.active_incoming; running = [] }
