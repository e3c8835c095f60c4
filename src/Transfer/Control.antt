-- ===== src/Transfer/Control.antt =====
-- The control side of frontend/src/lib/engines/transfer.ts: pausing, resuming and cancelling a transfer,
-- and the frames of the peer. `JSON.stringify` and `JSON.parse` of the frames are
-- not modelled: a frame is a `Control`, and `none` one that `JSON.parse` refuses or with another type.
pub mod Cancelling
pub mod Pausing
use shadowchat.Common.{
  ℕ, ◌+◌, List, [], ◌∷◌, Option, none, some, String, Bool, true, false, ◌==◌, if◌then◌else◌,
}
use mathlib.Core.Option
use text.Mathlib.Text.{starts_with}
use shadowchat.Common.{str_eq}
use shadowchat.Common.Dict
use shadowchat.Common.Results.{Result, ok, throws, ◌>>=◌}
use shadowchat.Platform.{Platform}
use shadowchat.Platform.Crypto.{Bytes}
use shadowchat.Platform.Tables.{StoredFileMeta, pending, failed, incoming, outgoing}
use shadowchat.Storage.{save_file_meta, clear_transfer_chunks}
use shadowchat.Crypto.{
  EncryptedData, encrypt_text, decrypt_text, generate_file_key, wrap_file_key, unwrap_file_key,
}
use shadowchat.Integrity.{compute_hash}
use shadowchat.Transfer.State.{
  File, size, OutgoingTransferState, IncomingTransferState, Metadata, Control, metadata, accept,
  pause, cancel, resume_from, resume_after, Offered, incoming_transfer, incoming_transfer_request,
  for_outgoing, for_incoming, put_outgoing, put_incoming, Handlers, Coordinator, no_progress,
  chunks_for, notify, send_control, set_db, drop_outgoing, drop_incoming, fail_event, update_meta,
  with_status,
}
use shadowchat.Transfer.Offer.{accept_transfer, handle_metadata}
use shadowchat.Transfer.Send.{World, stream_outgoing}
use shadowchat.Transfer.Receive.{handle_data_message}

-- A message of a channel is a text or an `ArrayBuffer`.
pub data ChannelData : Type 0 where
  frame : Option Control → ChannelData
  buffer : Bytes → ChannelData

-- `lastReceivedChunkIndex + 1`, where -1 is `none`.
abbrev pub next_index : Option ℕ → ℕ
next_index none = 0
next_index (some i) = i + 1

module _ {Key : Type 0} where
  abbrev pub set_outgoing_paused : Bool → OutgoingTransferState Key → OutgoingTransferState Key
  set_outgoing_paused b o = record o { paused = b }

  abbrev pub set_incoming_paused : Bool → IncomingTransferState Key → IncomingTransferState Key
  set_incoming_paused b i = record i { paused = b }

module _ {Key DB : Type 0} where
  unfoldable pub new_coordinator : Key → String → Handlers → Bool → DB → Coordinator Key DB
  new_coordinator room_key room_id handlers control_open db = record {
    room_key = room_key;
    room_id = room_id;
    handlers = handlers;
    active_outgoing = [];
    active_incoming = [];
    control_open = control_open;
    db = db;
    events = [];
    controls = [];
    packets = [];
  }

  unfoldable pub pause_transfer : String → Coordinator Key DB → Coordinator Key DB
  unfolding send_control
  pause_transfer id c =
      for_incoming id
        (λ i d. send_control (pause id) (put_incoming id (set_incoming_paused true i) d))
        (for_outgoing id
          (λ o d. send_control (pause id) (put_outgoing id (set_outgoing_paused true o) d)) c)

module _ {Key DB : Type 0} (p : Platform Key DB) where
  -- The status of a transfer that failed or was cancelled.
  abbrev pub mark_failed : String → Coordinator Key DB → Coordinator Key DB
  mark_failed id c = set_db (update_meta p.dexie (with_status failed) id c.db) c

  -- `streamOutgoing` is not awaited: the part for an incoming transfer runs before its first packet.
  unfoldable pub resume_transfer : World → ℕ → String → Coordinator Key DB → Coordinator Key DB
  unfolding send_control
  resume_transfer w now id c =
      let resumed_incoming = for_incoming id λ i d.
        if i.paused
        then send_control (resume_from id i.contiguous_index)
            (put_incoming id (set_incoming_paused false i) d)
        else d in
      elim (Dict.get id c.active_outgoing) [
        | none ↦ resumed_incoming c
        | some o ↦
            if o.paused
            then stream_outgoing p w id (next_index o.last_sent_index) now (
                resumed_incoming (
                  send_control (resume_after id o.last_sent_index)
                    (put_outgoing id (set_outgoing_paused false o) c)))
            else resumed_incoming c
      ]

  unfoldable pub cancel_transfer : String → Coordinator Key DB → Coordinator Key DB
  unfolding send_control
  cancel_transfer id c =
      for_incoming id
        (λ i d.
          let told = send_control (cancel id) (drop_incoming id d) in
          mark_failed id (set_db (clear_transfer_chunks p.dexie id told.db) told))
        (for_outgoing id (λ o d. mark_failed id (send_control (cancel id) (drop_outgoing id d))) c)

  abbrev pub cancelled_by_peer : String
  cancelled_by_peer = "Transfer cancelled by peer"

  -- The `switch` of `handleControlMessage`.
  unfoldable pub handle_control : World → ℕ → Control → Coordinator Key DB → Coordinator Key DB
  unfolding handle_metadata
  handle_control w now (metadata m) c = handle_metadata p now m c
  handle_control w now (accept id) c = stream_outgoing p w id 0 now c
  handle_control w now (pause id) c =
      for_incoming id (λ i d. put_incoming id (set_incoming_paused true i) d)
        (for_outgoing id (λ o d. put_outgoing id (set_outgoing_paused true o) d) c)
  handle_control w now (resume_from id index) c =
      for_outgoing id
        (λ o d. stream_outgoing p w id index now (put_outgoing id (set_outgoing_paused false o) d))
        c
  handle_control w now (resume_after id last) c =
      for_outgoing id
        (λ o d.
          stream_outgoing p w id (next_index last) now
            (put_outgoing id (set_outgoing_paused false o) d))
        c
  handle_control w now (cancel id) c =
      for_incoming id
        (λ i d.
          let dropped = drop_incoming id d in
          fail_event id cancelled_by_peer
            (set_db (clear_transfer_chunks p.dexie id dropped.db) dropped))
        (for_outgoing id (λ o d. fail_event id cancelled_by_peer (drop_outgoing id d)) c)

  unfoldable pub handle_control_message :
      World → ℕ → Option Control → Coordinator Key DB → Coordinator Key DB
  unfolding handle_control
  handle_control_message w now none c = c
  handle_control_message w now (some m) c = handle_control w now m c

  -- Texts count on the control channel only, and buffers on the data channels only.
  unfoldable pub handle_channel_message :
      World → ℕ → String → ChannelData → Coordinator Key DB → Coordinator Key DB
  unfolding handle_control_message
  handle_channel_message w now label (frame m) c =
      if str_eq label "control" then handle_control_message w now m c else c
  handle_channel_message w now label (buffer packet) c =
      if starts_with label "data-" then handle_data_message p packet c else c
