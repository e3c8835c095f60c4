-- ===== src/RoomStore/Sound/Callbacks.antt =====
-- The callbacks of a connection in frontend/src/stores/roomStore.ts, and the end of its setup, keep the peers
-- and the timers sound.
use mathlib.Core.Path.{subst}
use shadowchat.Common.{
  ◌≡◌, refl, sym, ap, ◌∙◌, Option, none, some, String, Bool, Option-cases, inl, inr,
}
use shadowchat.Common.Dict
use shadowchat.Common.Results.{Result, ok, throws}
use shadowchat.Platform.{Platform}
use shadowchat.Platform.Crypto.{KeyPair}
use shadowchat.Crypto.{KeyExchangePacket, prepare_key_exchange}
use shadowchat.WebRtc.{initialize}
use shadowchat.RoomStore.State.{Peer, key_exchanging, connected, key_frame, RoomState}
use shadowchat.RoomStore.Basics.{Env, given, update_peer, line_open, put_on_line}
use shadowchat.RoomStore.Peers.{pc_manager_of, on_manager}
use shadowchat.RoomStore.Setup.{
  Setup, own_manager, signal_packet, announce_keys, after_initialize, complete_setup, tell_packet,
  exchange_on_open, opened_with, on_control_channel_open,
}
use shadowchat.RoomStore.Advance.{Advances-same}
use shadowchat.RoomStore.Sound.{Keyed, Holds, update_peer-Holds, if-Holds}
use shadowchat.RoomStore.Sound.Managers.{on_manager-Holds}
use shadowchat.RoomStore.Sound.Queue.{flush-Holds}

module _ {Key DB : Type 0} (p : Platform Key DB) (env : Env) where
  exchanging-Holds :
      {start : RoomState Key DB} (id : String) (s : RoomState Key DB)
      → Holds start s
      → Holds start (update_peer id (λ peer. record peer { status = key_exchanging }) s)
  exchanging-Holds id s h =
      update_peer-Holds id (λ peer. record peer { status = key_exchanging }) s
        (λ peer there g. (
          record { own_id = g.own_id; built = g.built; keyed = tt },
          Advances-same peer _ refl refl refl refl,
        ))
        h

  announce-Holds :
      {start : RoomState Key DB} (room id : String) (r : Result KeyExchangePacket)
      (s : RoomState Key DB)
      → Holds start s
      → Holds start (announce_keys p env room id r s)
  announce-Holds room id (throws e) s h = h
  announce-Holds room id (ok packet) s h = flush-Holds p env id _ (
      exchanging-Holds id (signal_packet room id packet s)
        (record { peers = h.peers; timers = h.timers; since = h.since }))

  after-Holds :
      {start : RoomState Key DB} (setup : Setup Key) (id : String) (r : Result (Unit {0}))
      (s : RoomState Key DB)
      → Holds start s
      → Holds start (after_initialize p env setup id r s)
  after-Holds setup id (throws e) s h = h
  after-Holds setup id (ok u) s h =
      announce-Holds setup.room id
        (prepare_key_exchange p.crypto p.codec setup.x25519_pair setup.ed25519_pair) s h

  pub complete_setup-Holds :
      {start : RoomState Key DB} (setup : Setup Key) (id : String) (is_initiator : Bool)
      (s : RoomState Key DB)
      → Holds start s
      → Holds start (complete_setup p env setup id is_initiator s)
  unfolding complete_setup
  complete_setup-Holds setup id is_initiator s h =
      after-Holds setup id (initialize env.rtc (own_manager is_initiator (pc_manager_of id s))).1
        (on_manager (λ m. (initialize env.rtc m).0) id s)
        (on_manager-Holds (λ m. (initialize env.rtc m).0) id s h)

  told-Holds :
      {start : RoomState Key DB} (r : Result (Unit {0})) (id room : String)
      (packet : KeyExchangePacket) (s : RoomState Key DB)
      → Holds start s
      → Holds start (elim r [
        | throws e ↦ signal_packet room id packet s
        | ok u ↦ put_on_line id (key_frame (some packet)) (signal_packet room id packet s)
      ])
  told-Holds (throws e) id room packet s h = record {
    peers = h.peers;
    timers = h.timers;
    since = h.since;
  }
  told-Holds (ok u) id room packet s h = record {
    peers = h.peers;
    timers = h.timers;
    since = h.since;
  }

  tell-Holds :
      {start : RoomState Key DB} (id : String) (peer : Peer Key DB) (room : String)
      (r : Result KeyExchangePacket) (s : RoomState Key DB)
      → Holds start s
      → Holds start (tell_packet p env id peer room r s)
  tell-Holds id peer room (throws e) s h = h
  tell-Holds id peer room (ok packet) s h =
      if-Holds (line_open env peer) _ (signal_packet room id packet s)
        (told-Holds (env.sends id) id room packet s h)
        (record { peers = h.peers; timers = h.timers; since = h.since })

  exchange-Holds :
      {start : RoomState Key DB} (id : String) (peer : Peer Key DB) (x e : Option (KeyPair Key))
      (room : Option String) (s : RoomState Key DB)
      → Holds start s
      → Holds start (exchange_on_open p env id peer x e room s)
  exchange-Holds id peer (some x) (some e) (some room) s h =
      tell-Holds id peer room (prepare_key_exchange p.crypto p.codec x e) s h
  exchange-Holds id peer none _ _ s h = h
  exchange-Holds id peer (some x) none _ s h = h
  exchange-Holds id peer (some x) (some e) none s h = h

  opened-Holds :
      {start : RoomState Key DB} (id : String) (peer : Peer Key DB) (key : Option Key)
      (s : RoomState Key DB)
      → Dict.get id s.peers ≡ some peer
      → peer.room_key ≡ key
      → Holds start s
      → Holds start (opened_with p env id peer key s)
  opened-Holds id peer none s there keyed h =
      exchange-Holds id peer s.local_x25519_pair s.local_ed25519_pair (given s.room_id) s h
  opened-Holds id peer (some key) s there keyed h =
      update_peer-Holds id (λ q. record q { status = connected }) s
        (λ q here g.
          let both : some peer ≡ some q = sym there ∙ here in
          let same : peer ≡ q = cc in
          (
            record {
              own_id = g.own_id;
              built = g.built;
              keyed = subst (Keyed connected) (sym (ap (λ t. t.room_key) (sym same) ∙ keyed)) tt;
            },
            Advances-same q _ refl refl refl refl,
          ))
        h

  pub on_control_channel_open-Holds :
      {start : RoomState Key DB} (id : String) (s : RoomState Key DB)
      → Holds start s
      → Holds start (on_control_channel_open p env id s)
  unfolding on_control_channel_open
  on_control_channel_open-Holds id s h = elim (Option-cases (Dict.get id s.peers)) [
    | inl none_there ↦
        let e : on_control_channel_open p env id s ≡ s =
          rw (none_there, on_control_channel_open) refl in
        subst (Holds _) (sym e) h
    | inr (peer, there) ↦
        let e : on_control_channel_open p env id s ≡ opened_with p env id peer peer.room_key s =
          rw (there, on_control_channel_open) refl in
        subst (Holds _) (sym e) (opened-Holds id peer peer.room_key s there refl h)
  ]
