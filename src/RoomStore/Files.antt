-- ===== src/RoomStore/Files.antt =====
-- The actions of frontend/src/stores/roomStore.ts on file transfers, over the coordinators of the peers.
use shadowchat.Common.{
  List, [], ◌∷◌, ◌++◌, Option, none, some, String, not, ltb, str_eq, filter, if◌then◌else◌,
}
use shadowchat.Common.Dict
use shadowchat.Common.Results.{Result, ok, throws}
use shadowchat.Platform.{Platform}
use shadowchat.Platform.Crypto.{Bytes}
use shadowchat.Transfer.State.{File, size, Offered, Coordinator, no_progress}
use shadowchat.Transfer.Offer.{Draws, send_file, accept_transfer}
use shadowchat.Transfer.Control.{pause_transfer, resume_transfer, cancel_transfer}
use shadowchat.RoomStore.State.{Peer, TransferEntry, outgoing, paused, pending, RoomState}
use shadowchat.RoomStore.Basics.{Env, given}
use shadowchat.RoomStore.Events.{
  update_transfer, file_chat_message, note_of, file_row, store_message, called_on, after_call,
  call_coordinator, call_all,
}

abbrev pub not_connected : String
not_connected = "Peer not fully connected (secure channel pending)"

-- The file as the tracker and the message describe it.
abbrev pub described : String → File → Offered
described id file = record {
  transfer_id = id;
  file_name = file.name;
  size_bytes = size file;
  file_type = file.kind;
}

abbrev pub outgoing_entry : String → File → TransferEntry
outgoing_entry peer_id file = record {
  peer_id = peer_id;
  file_name = file.name;
  size_bytes = size file;
  file_type = file.kind;
  direction = outgoing;
  progress = no_progress;
  speed_bytes_per_sec = no_progress;
  eta_sec = no_progress;
  status = pending;
}

-- `s.peerId || ''`
abbrev pub or_empty : Option String → String
or_empty none = ""
or_empty (some id) = id

-- `pendingTransfers.find(t => t.transferId === transferId)`
unfoldable pub find_pending : String → List Offered → Option Offered
find_pending id [] = none
find_pending id (t ∷ ts) = if str_eq t.transfer_id id then some t else find_pending id ts

abbrev pub without_pending : String → List Offered → List Offered
without_pending id ts = filter (λ t. not (str_eq t.transfer_id id)) ts

module _ {Key DB : Type 0} where
  unfoldable pub get_transfer_blob : String → RoomState Key DB → Option Bytes
  get_transfer_blob id s = Dict.get id s.transfer_blobs

  -- The blob of a file with contents, the tracker, and the message.
  abbrev pub show_outgoing : Env → String → String → File → RoomState Key DB → RoomState Key DB
  show_outgoing env peer_id id file s = record s {
    transfer_blobs =
        if ltb 0 (size file) then Dict.set id file.content s.transfer_blobs else s.transfer_blobs;
    active_transfers = Dict.set id (outgoing_entry peer_id file) s.active_transfers;
    messages =
        s.messages
        ++ (file_chat_message env.now (or_empty s.peer_id) "You" (described id file) ∷ []);
  }

module _ {Key DB : Type 0} (p : Platform Key DB) (env : Env) where
  -- `initiateFileTransfer` after `sendFile` has returned. The row names the other peer as its sender.
  unfoldable pub after_send_file : String → File → String → RoomState Key DB → RoomState Key DB
  unfolding store_message
  after_send_file peer_id file id s =
      let shown = show_outgoing env peer_id id file s in
      elim (given s.room_id) [
        | none ↦ shown
        | some room ↦
            store_message p env (file_row env room peer_id (note_of (described id file)) env.now)
              shown
      ]

  unfoldable pub sent_file :
      String
      → File
      → Result (String × Coordinator Key DB)
      → RoomState Key DB
      → Result (String × RoomState Key DB)
  unfolding after_send_file after_call
  sent_file peer_id file (throws e) s = throws e
  sent_file peer_id file (ok (id, c)) s =
      ok (id, after_send_file peer_id file id (after_call p env peer_id c s))

  abbrev pub initiate_with :
      Draws
      → String
      → File
      → Peer Key DB
      → Option (Coordinator Key DB)
      → RoomState Key DB
      → Result (String × RoomState Key DB)
  initiate_with d peer_id file peer none s = throws not_connected
  initiate_with d peer_id file peer (some c) s =
      sent_file peer_id file (send_file p d file (called_on p env peer s c)) s

  -- An exception of `sendFile` passes to the caller, before the store has changed.
  unfoldable pub initiate_file_transfer :
      Draws → String → File → RoomState Key DB → Result (String × RoomState Key DB)
  unfolding sent_file
  initiate_file_transfer d peer_id file s = elim (Dict.get peer_id s.peers) [
    | none ↦ throws not_connected
    | some peer ↦ initiate_with d peer_id file peer peer.transfer_coordinator s
  ]

  abbrev pub mark_paused : String → RoomState Key DB → RoomState Key DB
  mark_paused id s = update_transfer id (λ entry. record entry { status = paused }) s

  abbrev pub pause_with :
      String → String → Option (Coordinator Key DB) → RoomState Key DB → RoomState Key DB
  pause_with peer_id id none s = s
  pause_with peer_id id (some c) s =
      mark_paused id (call_coordinator p env (pause_transfer id) peer_id s)

  unfoldable pub pause_file_transfer : String → String → RoomState Key DB → RoomState Key DB
  unfolding update_transfer call_coordinator
  pause_file_transfer peer_id id s = elim (Dict.get peer_id s.peers) [
    | none ↦ s
    | some peer ↦ pause_with peer_id id peer.transfer_coordinator s
  ]

  -- The tracker keeps the status `paused`.
  unfoldable pub resume_file_transfer : String → String → RoomState Key DB → RoomState Key DB
  unfolding call_coordinator
  resume_file_transfer peer_id id s =
      call_coordinator p env (resume_transfer p env.stream env.now id) peer_id s

  unfoldable pub cancel_file_transfer : String → String → RoomState Key DB → RoomState Key DB
  unfolding call_coordinator
  cancel_file_transfer peer_id id s =
      let called = call_coordinator p env (cancel_transfer p id) peer_id s in
      record called { transfer_blobs = Dict.delete id called.transfer_blobs }

  -- Every coordinator is asked, and the entry leaves the list of requests.
  unfoldable pub accept_pending_transfer : String → RoomState Key DB → RoomState Key DB
  unfolding call_all find_pending
  accept_pending_transfer id s = elim (find_pending id s.pending_transfers) [
    | none ↦ s
    | some t ↦
        let called = call_all p env (accept_transfer id) s.peers s in
        record called { pending_transfers = without_pending id called.pending_transfers }
  ]

  unfoldable pub reject_pending_transfer : String → RoomState Key DB → RoomState Key DB
  unfolding call_all
  reject_pending_transfer id s =
      let called = call_all p env (cancel_transfer p id) s.peers s in
      record called { pending_transfers = without_pending id called.pending_transfers }
