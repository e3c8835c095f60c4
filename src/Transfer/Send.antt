-- ===== src/Transfer/Send.antt =====
-- `streamOutgoing` and `waitForDrain` of frontend/src/lib/engines/transfer.ts. The loop awaits in
-- every round, and what it reads after each wait is an argument, a `Round`: the flags of the transfer
-- as other handlers left them, the state of the data channel, the drawn IV, what `dc.send` throws and
-- the time. The round
-- for each index comes from `World`.
pub mod Slices
pub mod Streaming
use shadowchat.Common.{
  ℕ, zero, suc, ◌+◌, ◌-◌, ◌*◌, ◌%◌, ◌≤◌, ◌<◌, min, List, [], ◌∷◌, ◌++◌, Option, none, some, String,
  Bool, true, false, ◌||◌, ltb, ◌==◌, if◌then◌else◌, length,
}
use mathlib.Core.Option
use shadowchat.Common.Dict
use shadowchat.Common.Results.{Result, ok, throws, ◌>>=◌}
use shadowchat.Platform.{Platform}
use shadowchat.Platform.Crypto.{Bytes}
use shadowchat.Platform.Tables.{Progress, StoredFileMeta, transferring, completed, failed}
use shadowchat.Storage.{get_file_meta}
use shadowchat.Crypto.Primitives.{EncryptedPayload, encrypt_aes_gcm}
use shadowchat.Transfer.Chunk.{
  chunk_size, buffer_high_watermark, buffer_low_watermark, serialize_chunk,
}
use shadowchat.Transfer.State.{
  File, size, slice, OutgoingTransferState, Coordinator, TransferProgress, progressed, percent,
  no_progress, all_done, capped, chunks_for, notify, set_db, drop_outgoing, fail_event, save_with,
  with_status, with_progress,
}

-- How long `waitForDrain` waits, in milliseconds. `buffered` is what `bufferedAmount` reads at its two
-- reads, with no wait between them; `low_after` is when `bufferedamountlow` fires, if it does.
unfoldable pub wait_for_drain : ℕ → Option ℕ → ℕ
wait_for_drain buffered low_after =
    if ltb buffered buffer_high_watermark
    then 0
    else if ltb buffered buffer_low_watermark
    then 0
    else elim low_after [ none ↦ 30000 | some t ↦ min t 30000 ]

-- `data-${index % 4}`
unfoldable pub channel_label : ℕ → String
channel_label index =
    if index % 4 == 0
    then "data-0"
    else if index % 4 == 1
    then "data-1"
    else if index % 4 == 2
    then "data-2"
    else "data-3"

pub record Round : Type 0 where
  pub halted_before : Bool
  pub random_iv : Bytes
  pub channel_open : Bool
  pub halted_after : Bool
  pub send_error : Option String
  pub now : ℕ

abbrev pub World : Type 0
World = ℕ → Round

-- How a round ends: the loop goes on, or returns, or throws. `meta` is the object of the loop.
pub data Flow (Key DB : Type 0) : Type 0 where
  continues : Option StoredFileMeta → Coordinator Key DB → Flow Key DB
  returns : Coordinator Key DB → Flow Key DB
  raises : String → Option StoredFileMeta → Coordinator Key DB → Flow Key DB

abbrev pub not_active : String → String
not_active label =
    Prim.Native.String.◌++◌ "Data channel " (Prim.Native.String.◌++◌ label " is not active")

abbrev pub chunk_end : File → ℕ → ℕ
chunk_end file index = min (index * chunk_size + chunk_size) (size file)

abbrev pub then_go :
    {Key DB : Type 0}
    → Flow Key DB
    → (Option StoredFileMeta → Coordinator Key DB → Flow Key DB)
    → Flow Key DB
then_go (continues meta c) k = k meta c
then_go (returns c) k = returns c
then_go (raises e meta c) k = raises e meta c

module _ {Key DB : Type 0} (p : Platform Key DB) where
  -- The packet of one chunk: slice, encrypt, serialize.
  unfoldable pub make_packet : String → File → Key → ℕ → Bytes → Result Bytes
  unfolding encrypt_aes_gcm
  make_packet id file key index random_iv = do
    e ←
        encrypt_aes_gcm p.crypto key (slice file (index * chunk_size) (chunk_end file index))
          (some random_iv) none random_iv
    serialize_chunk p.codec id index random_iv e.ciphertext

  -- `outgoing.lastSentIndex = index`
  unfoldable pub mark_sent : String → ℕ → Coordinator Key DB → Coordinator Key DB
  mark_sent id index c = elim (Dict.get id c.active_outgoing) [
    | none ↦ c
    | some o ↦ record c {
      active_outgoing = Dict.set id (record o { last_sent_index = some index }) c.active_outgoing;
    }
  ]

  unfoldable pub chunk_report : String → File → ℕ → ℕ → ℕ → ℕ → TransferProgress
  chunk_report id file start_index index start_time now = record {
    transfer_id = id;
    bytes_transferred = chunk_end file index;
    progress = capped (chunk_end file index) (size file);
    speed_bytes_per_sec =
        if ltb 0 (now - start_time)
        then percent (1000 * (chunk_end file index - start_index * chunk_size)) (now - start_time)
        else no_progress;
    eta_sec =
        if ltb 0 (now - start_time)
        then percent ((size file - chunk_end file index) * (now - start_time))
            (1000 * (chunk_end file index - start_index * chunk_size))
        else no_progress;
  }

  -- What follows `dc.send(packet)` in a round.
  unfoldable pub after_send :
      String → File → ℕ → ℕ → ℕ → ℕ → Option StoredFileMeta → Coordinator Key DB → Flow Key DB
  unfolding chunk_report mark_sent
  after_send id file start_index index start_time now meta c =
      let report = chunk_report id file start_index index start_time now in
      let update = with_progress (capped (chunk_end file index) (size file)) in
      let marked = mark_sent id index c in
      continues (Option.map update meta) (
        notify marked.handlers.on_progress (progressed report)
          (set_db (save_with p.dexie update meta marked.db) marked))

  -- One round of the loop: `r` is what it reads around its waits.
  unfoldable pub stream_round :
      Round
      → String
      → File
      → Key
      → ℕ
      → ℕ
      → ℕ
      → Option StoredFileMeta
      → Coordinator Key DB
      → Flow Key DB
  unfolding after_send
  stream_round r id file key start_index index start_time meta c =
      if r.halted_before then returns c else elim (make_packet id file key index r.random_iv) [
        | throws e ↦ raises e meta c
        | ok packet ↦
            if r.channel_open
            then if r.halted_after then returns c else elim r.send_error [
              | some e ↦ raises e meta c
              | none ↦
                  after_send id file start_index index start_time r.now meta
                    (record c { packets = c.packets ++ ((channel_label index, packet) ∷ []) })
            ]
            else raises (not_active (channel_label index)) meta c
      ]

  -- `rounds` is `totalChunks - index`.
  unfoldable pub stream_loop :
      World
      → String
      → File
      → Key
      → ℕ
      → ℕ
      → ℕ
      → ℕ
      → Option StoredFileMeta
      → Coordinator Key DB
      → Flow Key DB
  stream_loop w id file key start_index start_time zero index meta c = continues meta c
  stream_loop w id file key start_index start_time (suc rounds) index meta c =
      then_go (stream_round (w index) id file key start_index index start_time meta c)
        (stream_loop w id file key start_index start_time rounds (index + 1))

  -- What follows the loop, or its `catch`.
  unfoldable pub finish_stream : String → File → Flow Key DB → Coordinator Key DB
  finish_stream id file (returns c) = c
  finish_stream id file (continues meta c) =
      let dropped = drop_outgoing id c in
      let db =
        save_with p.dexie (λ m. with_status completed (with_progress all_done m)) meta dropped.db in
      notify c.handlers.on_progress
        (progressed (record {
          transfer_id = id;
          bytes_transferred = size file;
          progress = all_done;
          speed_bytes_per_sec = no_progress;
          eta_sec = no_progress;
        }))
        (set_db db dropped)
  finish_stream id file (raises error meta c) =
      let dropped = drop_outgoing id c in
      let db = save_with p.dexie (with_status failed) meta dropped.db in
      fail_event id error (set_db db dropped)

  unfoldable pub stream_from :
      World
      → String
      → ℕ
      → ℕ
      → Option (OutgoingTransferState Key)
      → Coordinator Key DB
      → Coordinator Key DB
  unfolding finish_stream stream_loop
  stream_from w id start_index start_time none c = c
  stream_from w id start_index start_time (some outgoing) c =
      let file = outgoing.file in
      let meta = get_file_meta p.dexie id c.db in
      let db = save_with p.dexie (with_status transferring) meta c.db in
      finish_stream id file (
        stream_loop w id file outgoing.file_key start_index start_time
          (chunks_for (size file) - start_index) start_index
          (Option.map (with_status transferring) meta) (set_db db c))

  -- `streamOutgoing(transferId, startIndex)`; `start_time` is the time at its start.
  unfoldable pub stream_outgoing : World → String → ℕ → ℕ → Coordinator Key DB → Coordinator Key DB
  unfolding stream_from
  stream_outgoing w id start_index start_time c =
      stream_from w id start_index start_time (Dict.get id c.active_outgoing) c
