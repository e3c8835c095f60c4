-- ===== src/Transfer/Control/Cancelling.antt =====
-- Cancelling a transfer, by its owner and by the peer, and what comes for it afterwards.
use shadowchat.Common.{◌≡◌, refl, ap, ◌∙◌, List, [], ◌∷◌, Option, none, some, String, arith, All}
use shadowchat.Common.Dict
use shadowchat.Common.Dict.{Dict}
use shadowchat.Platform.{Platform}
use shadowchat.Platform.Crypto.{Bytes}
use shadowchat.Storage.{clear_transfer_chunks}
use shadowchat.Transfer.Chunk.{Chunk, deserialize_chunk}
use shadowchat.Transfer.State.{
  OutgoingTransferState, IncomingTransferState, Control, cancel, Coordinator, send_control, set_db,
  drop_outgoing, drop_incoming,
}
use shadowchat.Transfer.Receive.{accept_chunk, handle_data_message, deliver}
use shadowchat.Transfer.Overlap.{Stage, Traffic, admit, take_packet, with_running}
use shadowchat.Transfer.Control.{mark_failed, cancel_transfer}

module _ {Key DB : Type 0} where
  -- No transfer `id` is active, neither outgoing nor incoming.
  pub record IsGone (id : String) (c : Coordinator Key DB) : Type 0 where
    pub outgoing : Dict.get id c.active_outgoing ≡ none
    pub incoming : Dict.get id c.active_incoming ≡ none

  pub send_control-outgoing :
      (m : Control) (c : Coordinator Key DB)
      → (send_control m c).active_outgoing ≡ c.active_outgoing
  unfolding send_control
  send_control-outgoing m c = ground arith

  pub send_control-incoming :
      (m : Control) (c : Coordinator Key DB)
      → (send_control m c).active_incoming ≡ c.active_incoming
  unfolding send_control
  send_control-incoming m c = ground arith

module _ {Key DB : Type 0} (p : Platform Key DB) (id : String) where
  -- The state after the outgoing half of `cancelTransfer`.
  cancel_outgoing_lem :
      (o : Option (OutgoingTransferState Key)) (c : Coordinator Key DB)
      → Dict.get id c.active_outgoing ≡ o
      → let d : Coordinator Key DB = elim o [
        | none ↦ c
        | some x ↦ mark_failed p id (send_control (cancel id) (drop_outgoing id c))
      ] in
        (Dict.get id d.active_outgoing ≡ none) × (d.active_incoming ≡ c.active_incoming)
  cancel_outgoing_lem none c e = (e, refl)
  cancel_outgoing_lem (some x) c e = (
    ap (Dict.get id) (send_control-outgoing (cancel id) (drop_outgoing id c))
        ∙ Dict.get-delete_self id c.active_outgoing,
    send_control-incoming (cancel id) (drop_outgoing id c),
  )

  cancel_incoming_lem :
      (i : Option (IncomingTransferState Key)) (c : Coordinator Key DB)
      → Dict.get id c.active_incoming ≡ i
      → Dict.get id c.active_outgoing ≡ none
      → let told = send_control (cancel id) (drop_incoming id c) in
        IsGone id (elim i [
          | none ↦ c
          | some x ↦ mark_failed p id (set_db (clear_transfer_chunks p.dexie id told.db) told)
        ])
  cancel_incoming_lem none c e o = record { outgoing = o; incoming = e }
  cancel_incoming_lem (some x) c e o = record {
    outgoing = ap (Dict.get id) (send_control-outgoing (cancel id) (drop_incoming id c)) ∙ o;
    incoming =
        ap (Dict.get id) (send_control-incoming (cancel id) (drop_incoming id c))
        ∙ Dict.get-delete_self id c.active_incoming;
  }

  cancel_transfer-IsGone : (c : Coordinator Key DB) → IsGone id (cancel_transfer p id c)
  unfolding cancel_transfer
  cancel_transfer-IsGone c =
      let (o, same) = cancel_outgoing_lem (Dict.get id c.active_outgoing) c refl in
      cancel_incoming_lem _ _ refl o

  -- The packet of a chunk of this transfer.
  abbrev pub IsChunk : Bytes → Type 0
  IsChunk packet =
      (chunk : Chunk) × (deserialize_chunk p.codec packet ≡ some chunk) × (chunk.transfer_id ≡ id)

  handle_ignored :
      (packet : Bytes) (c : Coordinator Key DB)
      → ((chunk : Chunk) → accept_chunk p chunk (Dict.get id c.active_incoming) c ≡ c)
      → IsChunk packet
      → handle_data_message p packet c ≡ c
  unfolding handle_data_message
  handle_ignored packet c deaf (chunk, reads, same) =
      rw (reads, handle_data_message) (rw same (deaf (record chunk { transfer_id = id })))

  -- Where chunks of this transfer are not accepted, they change nothing.
  pub deliver_ignored :
      (packets : List Bytes) (c : Coordinator Key DB)
      → ((chunk : Chunk) → accept_chunk p chunk (Dict.get id c.active_incoming) c ≡ c)
      → All IsChunk packets
      → deliver p packets c ≡ c
  unfolding deliver
  deliver_ignored [] c deaf h = refl
  deliver_ignored (packet ∷ packets) c deaf h =
      ap (deliver p packets) (handle_ignored packet c deaf h.0) ∙ deliver_ignored packets c deaf h.1

  take_packet_ignored :
      (packet : Bytes) (t : Traffic Key DB)
      → ((chunk : Chunk) → admit p chunk (Dict.get id t.coordinator.active_incoming) t ≡ t)
      → IsChunk packet
      → take_packet p packet t ≡ t
  unfolding take_packet
  take_packet_ignored packet t deaf (chunk, reads, same) =
      rw (reads, take_packet) (rw same (deaf (record chunk { transfer_id = id })))

  -- Where chunks of this transfer are not accepted, their packets start no handler.
  pub take_packets_ignored :
      (packets : List Bytes) (t : Traffic Key DB)
      → ((chunk : Chunk) → admit p chunk (Dict.get id t.coordinator.active_incoming) t ≡ t)
      → All IsChunk packets
      → All (λ packet. take_packet p packet t ≡ t) packets
  take_packets_ignored [] t deaf h = tt
  take_packets_ignored (packet ∷ packets) t deaf h =
      (take_packet_ignored packet t deaf h.0, take_packets_ignored packets t deaf h.1)

  -- After `cancelTransfer` the transfer is active in neither direction, and no packet of its chunks
  -- that still arrives changes anything: whatever handlers are running and whatever objects they hold,
  -- it starts no other one.
  pub deliver-cancel_transfer :
      (packets : List Bytes) (c : Coordinator Key DB) (objects : Dict (IncomingTransferState Key))
      (ss : List Stage)
      → All IsChunk packets
      → IsGone id (cancel_transfer p id c)
        × (deliver p packets (cancel_transfer p id c) ≡ cancel_transfer p id c)
        × All
            (λ packet.
              take_packet p packet (with_running objects ss (cancel_transfer p id c))
              ≡ with_running objects ss (cancel_transfer p id c))
            packets
  deliver-cancel_transfer packets c objects ss h =
      let gone = cancel_transfer-IsGone c in
      (
        gone,
        deliver_ignored packets (cancel_transfer p id c)
            (λ chunk. rw gone.incoming (unfold accept_chunk in refl)) h,
        take_packets_ignored packets (with_running objects ss (cancel_transfer p id c))
            (λ chunk. rw gone.incoming (unfold admit in refl)) h,
      )
