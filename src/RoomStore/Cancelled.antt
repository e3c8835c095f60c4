-- ===== src/RoomStore/Cancelled.antt =====
-- The trackers of file transfers in frontend/src/stores/roomStore.ts when the user cancels or rejects one.
use shadowchat.Common.{
  ◌≡◌, refl, ap, ◌∙◌, List, [], ◌∷◌, Option, none, some, String, Bool, true, false, Option-cases,
  inl, inr, if◌then◌else◌,
}
use shadowchat.Common.Dict
use shadowchat.Platform.{Platform}
use shadowchat.Storage.{clear_transfer_chunks}
use shadowchat.Transfer.State.{
  Coordinator, Control, cancel, send_control, set_db, drop_outgoing, drop_incoming, for_outgoing,
  for_incoming,
}
use shadowchat.Transfer.Control.{mark_failed, cancel_transfer}
use shadowchat.RoomStore.State.{Peer, RoomState}
use shadowchat.RoomStore.Basics.{Env, update_peer}
use shadowchat.RoomStore.Events.{
  handle_events, called_on, after_call, call_with, call_coordinator, call_all,
}
use shadowchat.RoomStore.Files.{get_transfer_blob, cancel_file_transfer, reject_pending_transfer}
use shadowchat.RoomStore.Updates.{update_peer-some, update_peer-none}

module _ {Key DB : Type 0} (p : Platform Key DB) where
  -- Two states of a coordinator with the same calls of callbacks.
  abbrev Quiet : Coordinator Key DB → Coordinator Key DB → Type 0
  Quiet c d = d.events ≡ c.events

  if-Quiet :
      (b : Bool) (c d e : Coordinator Key DB) → Quiet c d → Quiet c e → Quiet c (if b then d else e)
  if-Quiet true c d e h k = h
  if-Quiet false c d e h k = k

  send_control-Quiet : (m : Control) (c : Coordinator Key DB) → Quiet c (send_control m c)
  unfolding send_control
  send_control-Quiet m c = if-Quiet c.control_open c _ c refl refl

  -- `const t = map.get(id); if (t) …`
  case-Quiet :
      {A : Type 0} (o : Option A) (c : Coordinator Key DB) (f : A → Coordinator Key DB)
      → ((a : A) → Quiet c (f a))
      → Quiet c (elim o [ none ↦ c | some a ↦ f a ])
  case-Quiet none c f h = refl
  case-Quiet (some a) c f h = h a

  outgoing-Quiet :
      (id : String) (c : Coordinator Key DB)
      → Quiet c (
          for_outgoing id
            (λ o d. mark_failed p id (send_control (cancel id) (drop_outgoing id d)))
            c)
  outgoing-Quiet id c =
      case-Quiet (Dict.get id c.active_outgoing) c
        (λ o. mark_failed p id (send_control (cancel id) (drop_outgoing id c)))
        (λ o. send_control-Quiet (cancel id) (drop_outgoing id c))

  incoming-Quiet :
      (id : String) (c : Coordinator Key DB)
      → Quiet c (
          for_incoming id
            (λ i d.
              let told = send_control (cancel id) (drop_incoming id d) in
              mark_failed p id (set_db (clear_transfer_chunks p.dexie id told.db) told))
            c)
  incoming-Quiet id c =
      let told = send_control (cancel id) (drop_incoming id c) in
      case-Quiet (Dict.get id c.active_incoming) c
        (λ i. mark_failed p id (set_db (clear_transfer_chunks p.dexie id told.db) told))
        (λ i. send_control-Quiet (cancel id) (drop_incoming id c))

  -- `cancelTransfer` calls no callback.
  cancel-Quiet : (id : String) (c : Coordinator Key DB) → Quiet c (cancel_transfer p id c)
  unfolding cancel_transfer
  cancel-Quiet id c = incoming-Quiet id _ ∙ outgoing-Quiet id c

module _ {Key DB : Type 0} (p : Platform Key DB) (env : Env) where
  update_peer-transfers :
      (id : String) (f : Peer Key DB → Peer Key DB) (s : RoomState Key DB)
      → (update_peer id f s).active_transfers ≡ s.active_transfers
  update_peer-transfers id f s = elim (Option-cases (Dict.get id s.peers)) [
    | inl none_there ↦ rw (update_peer-none id f s none_there) refl
    | inr (peer, there) ↦ rw (update_peer-some id f s peer there) refl
  ]

  after_call-transfers :
      (id : String) (c : Coordinator Key DB) (s : RoomState Key DB)
      → c.events ≡ []
      → (after_call p env id c s).active_transfers ≡ s.active_transfers
  unfolding after_call handle_events
  after_call-transfers id c s silent =
      let put = λ (peer : Peer Key DB). record peer { transfer_coordinator = some c } in
      let stored : RoomState Key DB = record s { db = c.db } in
      ap (λ es. (handle_events p env id c.room_id es (update_peer id put stored)).active_transfers)
        silent
      ∙ update_peer-transfers id put stored

  call_with-transfers :
      (tid id : String) (peer : Peer Key DB) (c : Option (Coordinator Key DB))
      (s : RoomState Key DB)
      → (call_with p env (cancel_transfer p tid) id peer c s).active_transfers ≡ s.active_transfers
  call_with-transfers tid id peer none s = refl
  call_with-transfers tid id peer (some c) s =
      after_call-transfers id (cancel_transfer p tid (called_on p env peer s c)) s
        (cancel-Quiet p tid (called_on p env peer s c))

  call-transfers :
      (tid id : String) (s : RoomState Key DB)
      → (call_coordinator p env (cancel_transfer p tid) id s).active_transfers ≡ s.active_transfers
  unfolding call_coordinator
  call-transfers tid id s = elim (Option-cases (Dict.get id s.peers)) [
    | inl none_there ↦ rw (none_there, call_coordinator) refl
    | inr (peer, there) ↦
        rw (there, call_coordinator) (call_with-transfers tid id peer peer.transfer_coordinator s)
  ]

  all-transfers :
      (tid : String) (peers : List (String × Peer Key DB)) (s : RoomState Key DB)
      → (call_all p env (cancel_transfer p tid) peers s).active_transfers ≡ s.active_transfers
  unfolding call_all
  all-transfers tid [] s = refl
  all-transfers tid ((id, peer) ∷ rest) s =
      all-transfers tid rest (call_coordinator p env (cancel_transfer p tid) id s)
      ∙ call-transfers tid id s

  -- A transfer that the user cancels or rejects keeps its entry in `activeTransfers` as it was, with its
  -- last status and progress, whatever the coordinators do: `cancelTransfer` reports to no callback, and
  -- the store changes no entry itself. The blob of a cancelled transfer is gone.
  pub cancel-reject :
      (peer_id id : String) (s : RoomState Key DB)
      → ((cancel_file_transfer p env peer_id id s).active_transfers ≡ s.active_transfers)
        × ((reject_pending_transfer p env id s).active_transfers ≡ s.active_transfers)
        × (get_transfer_blob id (cancel_file_transfer p env peer_id id s) ≡ none)
  unfolding cancel_file_transfer reject_pending_transfer get_transfer_blob
  cancel-reject peer_id id s = (
    call-transfers id peer_id s,
    all-transfers id s.peers s,
    Dict.get-delete_self id
        (call_coordinator p env (cancel_transfer p id) peer_id s).transfer_blobs,
  )
