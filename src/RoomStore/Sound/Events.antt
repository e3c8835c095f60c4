-- ===== src/RoomStore/Sound/Events.antt =====
-- The callbacks of the coordinators in frontend/src/stores/roomStore.ts, and the calls of the coordinators,
-- keep the peers and the timers sound.
use mathlib.Core.Path.{subst}
use shadowchat.Common.{
  ◌≡◌, refl, sym, ap, ◌∙◌, List, [], ◌∷◌, Option, none, some, String, str_eq, Bool-cases,
  Option-cases, inl, inr,
}
use shadowchat.Common.Dict
use shadowchat.Platform.{Platform}
use shadowchat.Transfer.State.{
  Coordinator, Event, progressed, incoming_transfer, incoming_transfer_request, finished,
  failed_with, Offered,
}
use shadowchat.WebRtc.{Manager}
use shadowchat.RoomStore.State.{Peer, TransferEntry, RoomState}
use shadowchat.RoomStore.Basics.{Env, update_peer, toast}
use shadowchat.RoomStore.Events.{
  update_transfer, on_progress, on_incoming_transfer_request, on_failed, on_complete, store_message,
  on_incoming_transfer, handle_event, handle_events, called_on, after_call, call_with,
  call_coordinator, call_all,
}
use shadowchat.RoomStore.Advance.{Grows-refl, Grows-some}
use shadowchat.RoomStore.Sound.{Built, Holds, update_peer-Holds, Calm, Calm-trans, Calm-Holds}

module _ {Key DB : Type 0} where
  pub update_transfer-Calm :
      (id : String) (f : TransferEntry → TransferEntry) (s : RoomState Key DB)
      → Calm s (update_transfer id f s)
  unfolding update_transfer
  update_transfer-Calm id f s = elim (Option-cases (Dict.get id s.active_transfers)) [
    | inl none_there ↦ rw (none_there, update_transfer) (refl, refl)
    | inr (entry, there) ↦ rw (there, update_transfer) (refl, refl)
  ]

  pub Built-swap :
      (c d : Coordinator Key DB) (peer : Peer Key DB)
      → peer.transfer_coordinator ≡ some c
      → Built peer.transfer_coordinator peer.room_key peer.pc_manager
      → Built (some d) peer.room_key peer.pc_manager
  Built-swap c d peer e h =
      swap c d peer.room_key peer.pc_manager
        (subst (λ o. Built o peer.room_key peer.pc_manager) e h)
    where
      swap :
          (c d : Coordinator Key DB) (k : Option Key) (m : Option Manager)
          → Built (some c) k m
          → Built (some d) k m
      swap c d (some k) (some m) h = tt
      swap c d (some k) none h = h
      swap c d none m h = absurd h

module _ {Key DB : Type 0} (p : Platform Key DB) (env : Env) where
  on_incoming-Calm :
      (from room : String) (trans : Offered) (s : RoomState Key DB)
      → Calm s (on_incoming_transfer p env from room trans s)
  unfolding on_incoming_transfer toast store_message
  on_incoming-Calm from room trans s = elim (Bool-cases (str_eq room "")) [
    | inl blank ↦ rw (blank, on_incoming_transfer) (refl, refl)
    | inr there ↦ rw (there, on_incoming_transfer) (refl, refl)
  ]

  -- A callback of a coordinator touches no peer and no timer.
  pub handle_event-Calm :
      (from room : String) (e : Event) (s : RoomState Key DB)
      → Calm s (handle_event p env from room e s)
  unfolding handle_event on_progress on_incoming_transfer_request on_complete on_failed toast
  handle_event-Calm from room (progressed report) s = update_transfer-Calm report.transfer_id _ s
  handle_event-Calm from room (incoming_transfer trans) s = on_incoming-Calm from room trans s
  handle_event-Calm from room (incoming_transfer_request trans) s = (refl, refl)
  handle_event-Calm from room (finished id blob name) s = update_transfer-Calm id _ _
  handle_event-Calm from room (failed_with id message) s = update_transfer-Calm id _ s

  pub handle_events-Calm :
      (from room : String) (es : List Event) (s : RoomState Key DB)
      → Calm s (handle_events p env from room es s)
  unfolding handle_events
  handle_events-Calm from room [] s = (refl, refl)
  handle_events-Calm from room (e ∷ es) s =
      let next = handle_event p env from room e s in
      Calm-trans s next (handle_events p env from room es next) (handle_event-Calm from room e s)
        (handle_events-Calm from room es next)

  -- The coordinator that has been called belongs to a peer that had one.
  abbrev pub HasCoordinator : String → RoomState Key DB → Type 0
  HasCoordinator id s =
      (peer : Peer Key DB)
      → Dict.get id s.peers ≡ some peer
      → (c : Coordinator Key DB) × (peer.transfer_coordinator ≡ some c)

  pub after_call-Holds :
      {start : RoomState Key DB} (id : String) (c : Coordinator Key DB) (s : RoomState Key DB)
      → HasCoordinator id s
      → Holds start s
      → Holds start (after_call p env id c s)
  unfolding after_call
  after_call-Holds id c s has h =
      let put = λ (peer : Peer Key DB). record peer { transfer_coordinator = some c } in
      let stored : RoomState Key DB = record s { db = c.db } in
      let placed = update_peer id put stored in
      Calm-Holds placed (handle_events p env id c.room_id c.events placed)
        (handle_events-Calm id c.room_id c.events placed)
        (update_peer-Holds id put stored
          (λ peer there g. (
            record {
              own_id = g.own_id;
              built = Built-swap (has peer there).0 c peer (has peer there).1 g.built;
              keyed = g.keyed;
            },
            record {
              role = refl;
              manager = Grows-refl peer.pc_manager;
              key = Grows-refl peer.room_key;
              coordinator = Grows-some peer.transfer_coordinator c;
            },
          ))
          (record { peers = h.peers; timers = h.timers; since = h.since }))

  pub has_of :
      (id : String) (s : RoomState Key DB) (peer : Peer Key DB) (c : Coordinator Key DB)
      → Dict.get id s.peers ≡ some peer
      → peer.transfer_coordinator ≡ some c
      → HasCoordinator id s
  has_of id s peer c there e q here =
      let both : some peer ≡ some q = sym there ∙ here in
      let same : peer ≡ q = cc in (c, ap (λ t. t.transfer_coordinator) (sym same) ∙ e)

  call_with-Holds :
      {start : RoomState Key DB} (f : Coordinator Key DB → Coordinator Key DB) (id : String)
      (peer : Peer Key DB) (o : Option (Coordinator Key DB)) (s : RoomState Key DB)
      → Dict.get id s.peers ≡ some peer
      → peer.transfer_coordinator ≡ o
      → Holds start s
      → Holds start (call_with p env f id peer o s)
  call_with-Holds f id peer none s there e h = h
  call_with-Holds f id peer (some c) s there e h =
      after_call-Holds id (f (called_on p env peer s c)) s (has_of id s peer c there e) h

  pub call_coordinator-Holds :
      {start : RoomState Key DB} (f : Coordinator Key DB → Coordinator Key DB) (id : String)
      (s : RoomState Key DB)
      → Holds start s
      → Holds start (call_coordinator p env f id s)
  unfolding call_coordinator
  call_coordinator-Holds f id s h = elim (Option-cases (Dict.get id s.peers)) [
    | inl none_there ↦
        let e : call_coordinator p env f id s ≡ s = rw (none_there, call_coordinator) refl in
        subst (Holds _) (sym e) h
    | inr (peer, there) ↦
        let o = peer.transfer_coordinator in
        let e : call_coordinator p env f id s ≡ call_with p env f id peer o s =
          rw (there, call_coordinator) refl in
        subst (Holds _) (sym e) (call_with-Holds f id peer o s there refl h)
  ]

  pub call_all-Holds :
      {start : RoomState Key DB} (f : Coordinator Key DB → Coordinator Key DB)
      (peers : List (String × Peer Key DB)) (s : RoomState Key DB)
      → Holds start s
      → Holds start (call_all p env f peers s)
  unfolding call_all
  call_all-Holds f [] s h = h
  call_all-Holds f ((id, peer) ∷ rest) s h =
      call_all-Holds f rest (call_coordinator p env f id s) (call_coordinator-Holds f id s h)
