-- ===== src/RoomStore/Sound/Sessions.antt =====
-- The steps of the session in frontend/src/stores/roomStore.ts keep the store sound.
use shadowchat.Common.{◌≡◌, Option, none, some, String, Bool, true, false, ◌||◌, if◌then◌else◌}
use shadowchat.Platform.{Platform}
use shadowchat.Platform.Crypto.{Bytes}
use shadowchat.RoomStore.State.{RoomState, disconnected}
use shadowchat.RoomStore.Basics.{Env, toast}
use shadowchat.RoomStore.Session.{
  is_connected, same_room, begin_connect, set_identity, end_connect, on_connect, on_disconnect,
  disconnect_room,
}
use shadowchat.RoomStore.Controls.{
  RestAnswer, rejected, not_ok, answered, may_control, lock_room, unlock_room, destroy_room,
  create_room, join_room,
}
use shadowchat.RoomStore.Sound.{IsSound, AllGood, IsPatient, Holds, IsSound-Holds, if-Holds}
use shadowchat.RoomStore.Sound.Turns.{Progress, Holds-Progress, leaves}
use shadowchat.Common.{All, [], refl, sym, ap}
use mathlib.Core.Path.{subst}
use shadowchat.Common.Dict
use shadowchat.RoomStore.Steps.{
  SessionStep, begins_connecting, is_identified, ends_connecting, connects, loses_signaling,
  disconnects, creates, joins, locks, unlocks, destroys,
}

module _ {Key DB : Type 0} (p : Platform Key DB) where
  abbrev state_of : RoomState Key DB × Bool → RoomState Key DB
  state_of r = r.0

  if_first-Holds :
      {start : RoomState Key DB} (b : Bool) (s t : RoomState Key DB)
      → Holds start s
      → Holds start t
      → Holds start (state_of (if b then (s, false) else (t, true)))
  if_first-Holds true s t h k = h
  if_first-Holds false s t h k = k

  allowed-Holds :
      {start : RoomState Key DB} (o : Option (String × String)) (res_ok : Bool)
      (s t : RoomState Key DB)
      → Holds start s
      → Holds start t
      → Holds start (elim o [ none ↦ s | some target ↦ if res_ok then t else s ])
  allowed-Holds none res_ok s t h k = h
  allowed-Holds (some target) res_ok s t h k = if-Holds res_ok t s k h

  allowed-Progress :
      (o : Option (String × String)) (res_ok : Bool) (s t : RoomState Key DB)
      → Progress s s
      → Progress s t
      → Progress s (elim o [ none ↦ s | some target ↦ if res_ok then t else s ])
  allowed-Progress none res_ok s t h k = h
  allowed-Progress (some target) true s t h k = k
  allowed-Progress (some target) false s t h k = h

  create-Holds :
      {start : RoomState Key DB} (env : Env) (name config : Bytes) (a : RestAnswer)
      (s : RoomState Key DB)
      → Holds start s
      → Holds start (create_room p env name config a s).0
  unfolding create_room
  create-Holds env name config (rejected e) s h = record {
    peers = h.peers;
    timers = h.timers;
    since = h.since;
  }
  create-Holds env name config (not_ok e) s h = record {
    peers = h.peers;
    timers = h.timers;
    since = h.since;
  }
  create-Holds env name config (answered a) s h = record {
    peers = h.peers;
    timers = h.timers;
    since = h.since;
  }

  join-Holds :
      {start : RoomState Key DB} (env : Env) (a : RestAnswer) (s : RoomState Key DB)
      → Holds start s
      → Holds start (join_room p env a s).0
  unfolding join_room
  join-Holds env (rejected e) s h = record { peers = h.peers; timers = h.timers; since = h.since }
  join-Holds env (not_ok e) s h = record { peers = h.peers; timers = h.timers; since = h.since }
  join-Holds env (answered a) s h = record { peers = h.peers; timers = h.timers; since = h.since }

  -- Whatever happens to the rest, the entries of the peers are gone.
  emptied-Progress :
      (s t : RoomState Key DB)
      → t.peers ≡ []
      → t.history_timers ≡ s.history_timers
      → IsSound s
      → Progress s t
  unfolding Dict.get
  emptied-Progress s t no_peers same h = record {
    sound = record {
      peers = subst AllGood (sym no_peers) tt;
      timers = subst (All IsPatient) (sym same) h.timers;
    };
    turns = λ id. leaves (ap (Dict.get id) no_peers);
  }

  pub session-Progress : {s t : RoomState Key DB} → SessionStep p s t → IsSound s → Progress s t
  unfolding begin_connect set_identity end_connect on_connect on_disconnect disconnect_room toast
      lock_room unlock_room destroy_room
  session-Progress {s} (begins_connecting room) h =
      let k = IsSound-Holds s h in
      Holds-Progress s _ (
        if_first-Holds (is_connected s.signaling_state || same_room s.initializing_room_id room) s _
          k (record { peers = h.peers; timers = h.timers; since = k.since }))
  session-Progress {s} (is_identified claims env room token role x e) h =
      let k = IsSound-Holds s h in
      Holds-Progress s _ (record { peers = h.peers; timers = h.timers; since = k.since })
  session-Progress {s} (ends_connecting none) h =
      let k = IsSound-Holds s h in
      Holds-Progress s _ (record { peers = h.peers; timers = h.timers; since = k.since })
  session-Progress {s} (ends_connecting (some c)) h =
      let k = IsSound-Holds s h in
      Holds-Progress s _ (record { peers = h.peers; timers = h.timers; since = k.since })
  session-Progress {s} (connects env c) h =
      let k = IsSound-Holds s h in
      Holds-Progress s _ (record { peers = h.peers; timers = h.timers; since = k.since })
  session-Progress {s} (loses_signaling env) h =
      let k = IsSound-Holds s h in
      Holds-Progress s _ (
        if-Holds s.ui.page_leaving (record s { signaling_state = disconnected }) _
          (record { peers = h.peers; timers = h.timers; since = k.since })
          (record { peers = h.peers; timers = h.timers; since = k.since }))
  session-Progress {s} disconnects h = emptied-Progress s _ refl refl h
  session-Progress {s} (creates env name config a) h =
      let k = IsSound-Holds s h in Holds-Progress s _ (create-Holds env name config a s k)
  session-Progress {s} (joins env a) h =
      let k = IsSound-Holds s h in Holds-Progress s _ (join-Holds env a s k)
  session-Progress {s} (locks env res_ok) h =
      let k = IsSound-Holds s h in
      Holds-Progress s _ (
        allowed-Holds (may_control s) res_ok s _ k
          (record { peers = h.peers; timers = h.timers; since = k.since }))
  session-Progress {s} (unlocks env res_ok) h =
      let k = IsSound-Holds s h in
      Holds-Progress s _ (
        allowed-Holds (may_control s) res_ok s _ k
          (record { peers = h.peers; timers = h.timers; since = k.since }))
  session-Progress {s} (destroys env res_ok) h =
      allowed-Progress (may_control s) res_ok s _ (Holds-Progress s s (IsSound-Holds s h))
        (emptied-Progress s _ refl refl h)
