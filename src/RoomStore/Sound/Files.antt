-- ===== src/RoomStore/Sound/Files.antt =====
-- The actions on file transfers in frontend/src/stores/roomStore.ts keep the peers and the timers sound.
use mathlib.Core.Path.{subst}
use shadowchat.Common.{◌≡◌, refl, sym, ap, Option, none, some, String, Option-cases, inl, inr}
use shadowchat.Common.Dict
use shadowchat.Common.Results.{Result, ok, throws, ok-injective}
use shadowchat.Platform.{Platform}
use shadowchat.Transfer.State.{File, Coordinator}
use shadowchat.Transfer.Offer.{Draws, send_file, accept_transfer}
use shadowchat.Transfer.Control.{pause_transfer, resume_transfer, cancel_transfer}
use shadowchat.RoomStore.State.{Peer, RoomState}
use shadowchat.RoomStore.Basics.{Env, given}
use shadowchat.RoomStore.Events.{store_message, called_on, after_call, call_coordinator}
use shadowchat.RoomStore.Files.{
  find_pending, after_send_file, sent_file, initiate_with, initiate_file_transfer, mark_paused,
  pause_with, pause_file_transfer, resume_file_transfer, cancel_file_transfer,
  accept_pending_transfer, reject_pending_transfer,
}
use shadowchat.RoomStore.Sound.{Holds, Calm, Calm-Holds}
use shadowchat.RoomStore.Sound.Events.{
  update_transfer-Calm, HasCoordinator, has_of, after_call-Holds, call_coordinator-Holds,
  call_all-Holds,
}

module _ {Key DB : Type 0} (p : Platform Key DB) (env : Env) where
  after_send_file-Calm :
      (peer_id : String) (file : File) (id : String) (s : RoomState Key DB)
      → Calm s (after_send_file p env peer_id file id s)
  unfolding after_send_file store_message
  after_send_file-Calm peer_id file id s = elim (Option-cases (given s.room_id)) [
    | inl no_room ↦ rw (no_room, after_send_file) (refl, refl)
    | inr (room, has) ↦ rw (has, after_send_file) (refl, refl)
  ]

  sent_file-Holds :
      {start : RoomState Key DB} (peer_id : String) (file : File)
      (r : Result (String × Coordinator Key DB)) (s : RoomState Key DB) {id : String}
      {t : RoomState Key DB}
      → HasCoordinator p env peer_id s
      → Holds start s
      → sent_file p env peer_id file r s ≡ ok (id, t)
      → Holds start t
  unfolding sent_file
  sent_file-Holds peer_id file (throws e) s has h q = cc
  sent_file-Holds peer_id file (ok (tid, c)) s has h q =
      let called = after_call p env peer_id c s in
      let end = after_send_file p env peer_id file tid called in
      subst (Holds _) (ap (λ r. r.1) (ok-injective q)) (
        Calm-Holds called end (after_send_file-Calm peer_id file tid called)
          (after_call-Holds p env peer_id c s has h))

  initiate_with-Holds :
      {start : RoomState Key DB} (d : Draws) (peer_id : String) (file : File) (peer : Peer Key DB)
      (o : Option (Coordinator Key DB)) (s : RoomState Key DB) {id : String} {t : RoomState Key DB}
      → Dict.get peer_id s.peers ≡ some peer
      → peer.transfer_coordinator ≡ o
      → Holds start s
      → initiate_with p env d peer_id file peer o s ≡ ok (id, t)
      → Holds start t
  initiate_with-Holds d peer_id file peer none s there e h q = cc
  initiate_with-Holds d peer_id file peer (some c) s there e h q =
      sent_file-Holds peer_id file (send_file p d file (called_on p env peer s c)) s
        (has_of p env peer_id s peer c there e) h q

  pub initiate_file_transfer-Holds :
      {start : RoomState Key DB} (d : Draws) (peer_id : String) (file : File) (s : RoomState Key DB)
      {id : String} {t : RoomState Key DB}
      → Holds start s
      → initiate_file_transfer p env d peer_id file s ≡ ok (id, t)
      → Holds start t
  unfolding initiate_file_transfer
  initiate_file_transfer-Holds d peer_id file s h q =
      elim (Option-cases (Dict.get peer_id s.peers)) [
        | inl none_there ↦ let bad = rw (none_there, initiate_file_transfer) at q in cc
        | inr (peer, there) ↦
            initiate_with-Holds d peer_id file peer peer.transfer_coordinator s there refl h
              (rw (there, initiate_file_transfer) at q)
      ]

  pause_with-Holds :
      {start : RoomState Key DB} (peer_id id : String) (o : Option (Coordinator Key DB))
      (s : RoomState Key DB)
      → Holds start s
      → Holds start (pause_with p env peer_id id o s)
  pause_with-Holds peer_id id none s h = h
  pause_with-Holds peer_id id (some c) s h =
      let called = call_coordinator p env (pause_transfer id) peer_id s in
      Calm-Holds called (mark_paused p env id called) (update_transfer-Calm id _ called)
        (call_coordinator-Holds p env (pause_transfer id) peer_id s h)

  pub pause_file_transfer-Holds :
      {start : RoomState Key DB} (peer_id id : String) (s : RoomState Key DB)
      → Holds start s
      → Holds start (pause_file_transfer p env peer_id id s)
  unfolding pause_file_transfer
  pause_file_transfer-Holds peer_id id s h = elim (Option-cases (Dict.get peer_id s.peers)) [
    | inl none_there ↦
        let e : pause_file_transfer p env peer_id id s ≡ s =
          rw (none_there, pause_file_transfer) refl in
        subst (Holds _) (sym e) h
    | inr (peer, there) ↦
        let o = peer.transfer_coordinator in
        let e : pause_file_transfer p env peer_id id s ≡ pause_with p env peer_id id o s =
          rw (there, pause_file_transfer) refl in
        subst (Holds _) (sym e) (pause_with-Holds peer_id id o s h)
  ]

  pub resume_file_transfer-Holds :
      {start : RoomState Key DB} (peer_id id : String) (s : RoomState Key DB)
      → Holds start s
      → Holds start (resume_file_transfer p env peer_id id s)
  unfolding resume_file_transfer
  resume_file_transfer-Holds peer_id id s h =
      call_coordinator-Holds p env (resume_transfer p env.stream env.now id) peer_id s h

  pub cancel_file_transfer-Holds :
      {start : RoomState Key DB} (peer_id id : String) (s : RoomState Key DB)
      → Holds start s
      → Holds start (cancel_file_transfer p env peer_id id s)
  unfolding cancel_file_transfer
  cancel_file_transfer-Holds peer_id id s h =
      let called = call_coordinator-Holds p env (cancel_transfer p id) peer_id s h in
      record { peers = called.peers; timers = called.timers; since = called.since }

  pub accept_pending_transfer-Holds :
      {start : RoomState Key DB} (id : String) (s : RoomState Key DB)
      → Holds start s
      → Holds start (accept_pending_transfer p env id s)
  unfolding accept_pending_transfer
  accept_pending_transfer-Holds id s h = elim (Option-cases (find_pending id s.pending_transfers)) [
    | inl unknown ↦
        let e : accept_pending_transfer p env id s ≡ s =
          rw (unknown, accept_pending_transfer) refl in
        subst (Holds _) (sym e) h
    | inr (t, known) ↦
        let called = call_all-Holds p env (accept_transfer id) s.peers s h in
        rw (known, accept_pending_transfer)
          (record { peers = called.peers; timers = called.timers; since = called.since })
  ]

  pub reject_pending_transfer-Holds :
      {start : RoomState Key DB} (id : String) (s : RoomState Key DB)
      → Holds start s
      → Holds start (reject_pending_transfer p env id s)
  unfolding reject_pending_transfer
  reject_pending_transfer-Holds id s h =
      let called = call_all-Holds p env (cancel_transfer p id) s.peers s h in
      record { peers = called.peers; timers = called.timers; since = called.since }
