-- ===== src/RoomStore/Events.antt =====
-- The callbacks that `finalizeKeyExchange` of frontend/src/stores/roomStore.ts gives to a file transfer
-- coordinator, and the bridge by which the store calls a coordinator's methods.
use shadowchat.Common.{
  ℕ, ◌+◌, ◌*◌, ◌/◌, ◌%◌, List, [], ◌∷◌, ◌++◌, Option, none, some, String, leb, str_eq,
  if◌then◌else◌,
}
use shadowchat.Common.Dict
use shadowchat.Platform.{Platform}
use shadowchat.Platform.Crypto.{Bytes}
use shadowchat.Platform.Tables.{StoredMessage}
use shadowchat.Storage.{save_message}
use shadowchat.Transfer.State.{
  Offered, Coordinator, Event, progressed, incoming_transfer, incoming_transfer_request, finished,
  failed_with, TransferProgress, no_progress, all_done,
}
use shadowchat.UiStore.{info, success, error}
use shadowchat.RoomStore.State.{
  Peer, ChatMessage, file_message, TransferEntry, incoming, transferring, completed, failed,
  pending, FileNote, RoomState, TransferStatus,
}
use shadowchat.RoomStore.Basics.{Env, short_name, decimal, ◌+s◌, update_peer, toast, line_open}

-- `(size / 1024 / 1024).toFixed(1)`: the quotient is exact, and a tie rounds up.
unfoldable pub megabytes : ℕ → String
megabytes size =
    let tenths = (20 * size + 1048576) / 2097152 in
    decimal (tenths / 10) +s "." +s decimal (tenths % 10)

-- `progress >= 100`
abbrev pub progress_status : TransferProgress → TransferStatus
progress_status p = if leb p.progress.whole p.progress.part then completed else transferring

abbrev pub incoming_entry : String → Offered → TransferEntry
incoming_entry from trans = record {
  peer_id = from;
  file_name = trans.file_name;
  size_bytes = trans.size_bytes;
  file_type = trans.file_type;
  direction = incoming;
  progress = no_progress;
  speed_bytes_per_sec = no_progress;
  eta_sec = no_progress;
  status = pending;
}

-- The message of a file, in the chat.
abbrev pub file_chat_message : ℕ → String → String → Offered → ChatMessage
file_chat_message now peer_id sender_name trans = record {
  id = "msg-" +s trans.transfer_id;
  peer_id = peer_id;
  sender_name = sender_name;
  text = none;
  timestamp = now;
  kind = some file_message;
  transfer_id = some trans.transfer_id;
  file_name = some trans.file_name;
  file_size = some trans.size_bytes;
  file_type = some trans.file_type;
}

module _ {Key DB : Type 0} where
  -- `const current = updatedTransfers.get(id); if (current) …`
  unfoldable pub update_transfer :
      String → (TransferEntry → TransferEntry) → RoomState Key DB → RoomState Key DB
  update_transfer id f s = elim (Dict.get id s.active_transfers) [
    | none ↦ s
    | some entry ↦ record s { active_transfers = Dict.set id (f entry) s.active_transfers }
  ]

  unfoldable pub on_progress : TransferProgress → RoomState Key DB → RoomState Key DB
  unfolding update_transfer
  on_progress p s =
      update_transfer p.transfer_id
        (λ entry. record entry {
          progress = p.progress;
          speed_bytes_per_sec = p.speed_bytes_per_sec;
          eta_sec = p.eta_sec;
          status = progress_status p;
        })
        s

  unfoldable pub on_incoming_transfer_request : Offered → RoomState Key DB → RoomState Key DB
  on_incoming_transfer_request trans s = record s {
    pending_transfers = s.pending_transfers ++ (trans ∷ []);
  }

  unfoldable pub on_failed : Env → String → String → RoomState Key DB → RoomState Key DB
  unfolding update_transfer toast
  on_failed env id message s =
      toast env error "Transfer Failed" message
        (update_transfer id (λ entry. record entry { status = failed }) s)

  unfoldable pub on_complete : Env → String → Bytes → String → RoomState Key DB → RoomState Key DB
  unfolding update_transfer toast
  on_complete env id blob name s =
      let kept = record s { transfer_blobs = Dict.set id blob s.transfer_blobs } in
      toast env success "Transfer Completed" ("Successfully received \"" +s name +s "\".") (
        update_transfer id (λ entry. record entry { progress = all_done; status = completed }) kept)

  abbrev pub show_incoming : Env → String → Offered → RoomState Key DB → RoomState Key DB
  show_incoming env from trans s = record s {
    active_transfers = Dict.set trans.transfer_id (incoming_entry from trans) s.active_transfers;
    messages = s.messages ++ (file_chat_message env.now from (short_name from) trans ∷ []);
  }

abbrev pub note_of : Offered → FileNote
note_of trans = record {
  kind = some trans.file_type;
  name = some trans.file_name;
  size = some trans.size_bytes;
}

-- The row of a file message: its IV is empty.
abbrev pub file_row : Env → String → String → FileNote → ℕ → StoredMessage
file_row env room peer_id note timestamp = record {
  room_id = room;
  peer_id = peer_id;
  encrypted_text = env.stringify_file note;
  iv = "";
  timestamp = timestamp;
}

module _ {Key DB : Type 0} (p : Platform Key DB) (env : Env) where
  -- `saveMessage` returns 0 and does not throw where the database rejects.
  unfoldable pub store_message : StoredMessage → RoomState Key DB → RoomState Key DB
  store_message row s = record s { db = (save_message p.dexie row s.db).0 }

  unfoldable pub on_incoming_transfer :
      String → String → Offered → RoomState Key DB → RoomState Key DB
  unfolding store_message toast
  on_incoming_transfer from room trans s =
      let shown =
        toast env info "Incoming File"
          ("Receiving \"" +s trans.file_name +s "\" (" +s megabytes trans.size_bytes +s " MB)...")
          (show_incoming env from trans s) in
      if str_eq room ""
      then shown
      else store_message (file_row env room from (note_of trans) env.now) shown

  -- A call of a callback by the coordinator of the peer `from`.
  unfoldable pub handle_event : String → String → Event → RoomState Key DB → RoomState Key DB
  unfolding on_progress on_incoming_transfer_request on_incoming_transfer on_complete on_failed
  handle_event from room (progressed report) s = on_progress report s
  handle_event from room (incoming_transfer trans) s = on_incoming_transfer from room trans s
  handle_event from room (incoming_transfer_request trans) s = on_incoming_transfer_request trans s
  handle_event from room (finished id blob name) s = on_complete env id blob name s
  handle_event from room (failed_with id message) s = on_failed env id message s

  unfoldable pub handle_events : String → String → List Event → RoomState Key DB → RoomState Key DB
  unfolding handle_event
  handle_events from room [] s = s
  handle_events from room (e ∷ es) s = handle_events from room es (handle_event from room e s)

  -- The coordinator as a call finds it: the database and the control channel are shared with the
  -- store, and no callback has been called yet.
  abbrev pub called_on : Peer Key DB → RoomState Key DB → Coordinator Key DB → Coordinator Key DB
  called_on peer s c = record c { db = s.db; control_open = line_open env peer; events = [] }

  -- The end of a call: the object has changed, and its callbacks are called in order.
  unfoldable pub after_call : String → Coordinator Key DB → RoomState Key DB → RoomState Key DB
  unfolding handle_events update_peer
  after_call from c s = handle_events from c.room_id c.events (
      update_peer from (λ peer. record peer { transfer_coordinator = some c })
        (record s { db = c.db }))

  abbrev pub call_with :
      (Coordinator Key DB → Coordinator Key DB)
      → String
      → Peer Key DB
      → Option (Coordinator Key DB)
      → RoomState Key DB
      → RoomState Key DB
  call_with f id peer none s = s
  call_with f id peer (some c) s = after_call id (f (called_on peer s c)) s

  -- `peer?.transferCoordinator?.method(…)`
  unfoldable pub call_coordinator :
      (Coordinator Key DB → Coordinator Key DB) → String → RoomState Key DB → RoomState Key DB
  unfolding after_call
  call_coordinator f id s = elim (Dict.get id s.peers) [
    | none ↦ s
    | some peer ↦ call_with f id peer peer.transfer_coordinator s
  ]

  -- `for (const [, peer] of get().peers) if (peer.transferCoordinator) …`
  unfoldable pub call_all :
      (Coordinator Key DB → Coordinator Key DB)
      → List (String × Peer Key DB)
      → RoomState Key DB
      → RoomState Key DB
  unfolding call_coordinator
  call_all f [] s = s
  call_all f ((id, peer) ∷ rest) s = call_all f rest (call_coordinator f id s)
