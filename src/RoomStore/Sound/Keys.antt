-- ===== src/RoomStore/Sound/Keys.antt =====
-- `finalizeKeyExchange` of frontend/src/stores/roomStore.ts and the history's timers keep the peers and the
-- timers sound.
use mathlib.Core.Path.{subst}
use shadowchat.Common.{
  ℕ, ◌+◌, ◌≤◌, ◌≡◌, refl, sym, List, [], ◌∷◌, ◌++◌, Option, none, some, String, ltb, ltb→lt, arith,
  All, All-append, Bool-cases, inl, inr, length,
}
use shadowchat.Common.Dict
use shadowchat.Common.Results.{Result, ok, throws}
use shadowchat.Platform.{Platform}
use shadowchat.Crypto.{KeyExchangePacket}
use shadowchat.Transfer.State.{Coordinator}
use shadowchat.Transfer.Control.{new_coordinator}
use shadowchat.WebRtc.{Manager}
use shadowchat.RoomStore.State.{Peer, connected, ChatMessage, HistoryTimer, RoomState}
use shadowchat.RoomStore.Basics.{Env, update_peer, line_open}
use shadowchat.RoomStore.Keys.{
  all_handlers, recent_messages, max_history_retries, after_send, peer_line_open, try_send,
  fire_first, fire_history_timer, send_messages, send_history, prepend_cached, load_cached,
  key_peer, give_coordinator, finalize_key_exchange, receive_key_exchange,
}
use shadowchat.RoomStore.Finalized.{receive_key_exchange-Finalizes}
use shadowchat.RoomStore.Retries.{recent_messages-length}
use shadowchat.RoomStore.Advance.{Grows-refl, Grows-some, Advances, Advances-same, Advances-trans}
use shadowchat.RoomStore.Sound.{
  Built, IsGood, IsPatient, Holds, update_peer-Holds, Calm, Calm-Holds,
}

module _ {Key DB : Type 0} where
  Built-key :
      (c : Option (Coordinator Key DB)) (k : Option Key) (key : Key) (m : Option Manager)
      → Built c k m
      → Built c (some key) m
  Built-key none k key m h = tt
  Built-key (some c) (some k) key (some m) h = tt
  Built-key (some c) (some k) key none h = h
  Built-key (some c) none key m h = absurd h

module _ {Key DB : Type 0} (p : Platform Key DB) (env : Env) where
  give-IsGood :
      (id : String) (key : Key) (room : String) (db : DB) (peer : Peer Key DB)
      (c : Option (Coordinator Key DB)) (m : Option Manager)
      → peer.room_key ≡ some key
      → peer.pc_manager ≡ m
      → IsGood id peer
      → IsGood id (give_coordinator p env key room db peer c m)
  give-IsGood id key room db peer (some c) m keyed managed g = g
  give-IsGood id key room db peer none none keyed managed g = g
  give-IsGood id key room db peer none (some m) keyed managed g =
      let fresh = some (new_coordinator key room all_handlers (line_open env peer) db) in
      record {
        own_id = g.own_id;
        built =
            subst (λ k. Built fresh k peer.pc_manager) (sym keyed)
              (subst (λ o. Built fresh (some key) o) (sym managed) tt);
        keyed = g.keyed;
      }

  key_peer-IsGood :
      (id : String) (key : Key) (room : String) (db : DB) (peer : Peer Key DB)
      → IsGood id peer
      → IsGood id (key_peer p env key room db peer)
  unfolding key_peer
  key_peer-IsGood id key room db peer g =
      let keyed : Peer Key DB = record peer { room_key = some key; status = connected } in
      give-IsGood id key room db keyed keyed.transfer_coordinator keyed.pc_manager refl refl
        (record {
          own_id = g.own_id;
          built = Built-key peer.transfer_coordinator peer.room_key key peer.pc_manager g.built;
          keyed = tt;
        })

  give-Advances :
      (key : Key) (room : String) (db : DB) (peer : Peer Key DB) (c : Option (Coordinator Key DB))
      (m : Option Manager)
      → Advances peer (give_coordinator p env key room db peer c m)
  give-Advances key room db peer (some c) m = Advances-same peer _ refl refl refl refl
  give-Advances key room db peer none none = Advances-same peer _ refl refl refl refl
  give-Advances key room db peer none (some m) = record {
    role = refl;
    manager = Grows-refl peer.pc_manager;
    key = Grows-refl peer.room_key;
    coordinator = Grows-some peer.transfer_coordinator _;
  }

  key_peer-Advances :
      (key : Key) (room : String) (db : DB) (peer : Peer Key DB)
      → Advances peer (key_peer p env key room db peer)
  unfolding key_peer
  key_peer-Advances key room db peer =
      let keyed : Peer Key DB = record peer { room_key = some key; status = connected } in
      Advances-trans peer keyed (key_peer p env key room db peer)
        (record {
          role = refl;
          manager = Grows-refl peer.pc_manager;
          key = Grows-some peer.room_key key;
          coordinator = Grows-refl peer.transfer_coordinator;
        })
        (give-Advances key room db keyed keyed.transfer_coordinator keyed.pc_manager)

  after_send-Calm :
      (r : Result (Unit {0})) (from : String) (bundle : List ChatMessage) (s : RoomState Key DB)
      → Calm s (after_send p env r from bundle s)
  after_send-Calm (ok u) from bundle s = (refl, refl)
  after_send-Calm (throws e) from bundle s = (refl, refl)

  try_send-Holds :
      {start : RoomState Key DB} (from : String) (bundle : List ChatMessage) (attempts : ℕ)
      (s : RoomState Key DB)
      → length bundle ≤ 50
      → Holds start s
      → Holds start (try_send p env from bundle attempts s)
  unfolding try_send
  try_send-Holds from bundle attempts s short h =
      elim (Bool-cases (peer_line_open p env (Dict.get from s.peers))) [
        | inl opened ↦
            let went : try_send p env from bundle attempts s
                ≡ after_send p env (env.sends from) from bundle s =
              rw (opened, try_send) refl in
            subst (Holds _) (sym went) (
              Calm-Holds s (after_send p env (env.sends from) from bundle s)
                (after_send-Calm (env.sends from) from bundle s) h)
        | inr shut ↦ elim (Bool-cases (ltb attempts max_history_retries)) [
          | inr last ↦
              let same : try_send p env from bundle attempts s ≡ s =
                rw (shut, last, try_send) refl in
              subst (Holds _) (sym same) h
          | inl more ↦
              let timer : HistoryTimer = record {
                peer = from;
                bundle = bundle;
                attempts = attempts + 1;
              } in
              let longer : try_send p env from bundle attempts s
                  ≡ record s { history_timers = s.history_timers ++ (timer ∷ []) } =
                rw (shut, more, try_send) refl in
              let under = ltb→lt attempts 10 more in
              subst (Holds _) (sym longer) (record {
                peers = h.peers;
                since = h.since;
                timers =
                    All-append IsPatient s.history_timers (timer ∷ []) h.timers
                      (record { counted = omega arith; few = omega arith; short = short }, tt);
              })
        ]
      ]

  fire_first-Holds :
      {start : RoomState Key DB} (ts : List HistoryTimer) (s : RoomState Key DB)
      → All IsPatient ts
      → Holds start s
      → Holds start (fire_first p env ts s)
  fire_first-Holds [] s patient h = h
  fire_first-Holds (t ∷ ts) s patient h =
      try_send-Holds t.peer t.bundle t.attempts (record s { history_timers = ts }) patient.0.short
        (record { peers = h.peers; timers = patient.1; since = h.since })

  pub fire_history_timer-Holds :
      {start : RoomState Key DB} (s : RoomState Key DB)
      → Holds start s
      → Holds start (fire_history_timer p env s)
  unfolding fire_history_timer
  fire_history_timer-Holds s h = fire_first-Holds s.history_timers s h.timers h

  send_messages-Holds :
      {start : RoomState Key DB} (from : String) (ms : List ChatMessage) (s : RoomState Key DB)
      → Holds start s
      → Holds start (send_messages p env from ms s)
  send_messages-Holds from [] s h = h
  send_messages-Holds from (m ∷ ms) s h =
      try_send-Holds from (recent_messages (m ∷ ms)) 0 s
        (omega (arith, (recent_messages-length (m ∷ ms)).0)) h

  prepend-Calm :
      (key : Key) (room : String) (ms : List ChatMessage) (s : RoomState Key DB)
      → Calm s (prepend_cached p env key room ms s)
  prepend-Calm key room [] s = (refl, refl)
  prepend-Calm key room (m ∷ ms) s = (refl, refl)

  finalize-Holds :
      {start : RoomState Key DB} (from : String) (key : Key) (room : String) (s : RoomState Key DB)
      → Holds start s
      → Holds start (finalize_key_exchange p env from key room s)
  unfolding finalize_key_exchange send_history load_cached
  finalize-Holds from key room s h =
      let keyed = update_peer from (key_peer p env key room s.db) s in
      let told = send_messages p env from keyed.messages keyed in
      Calm-Holds told (prepend_cached p env key room told.messages told)
        (prepend-Calm key room told.messages told)
        (send_messages-Holds from keyed.messages keyed (
          update_peer-Holds from (key_peer p env key room s.db) s
            (λ peer there g.
              (key_peer-IsGood from key room s.db peer g, key_peer-Advances key room s.db peer))
            h))

  pub receive_key_exchange-Holds :
      {start : RoomState Key DB} (from : String) (packet : Option KeyExchangePacket)
      (s : RoomState Key DB)
      → Holds start s
      → Holds start (receive_key_exchange p env from packet s)
  receive_key_exchange-Holds from packet s h =
      elim (receive_key_exchange-Finalizes p env from packet s) [
        | inl e ↦ subst (Holds _) (sym e) h
        | inr (key, room, e) ↦ subst (Holds _) (sym e) (finalize-Holds from key room s h)
      ]
