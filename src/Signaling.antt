-- ===== src/Signaling.antt =====
-- frontend/src/lib/engines/signaling.ts: the WebSocket client of the signaling server. Timers, the
-- events of the sockets and the calls of the owner are operations of their own; `now` is `Date.now()`
-- and `random` is `Math.random()` in thousandths. An owner's callback is recorded, and what it does
-- is an operation after it. JSON is not modelled: messages are values.
pub mod State
pub mod Queue
pub mod Steps
pub mod Bounds
pub mod Closing
pub mod Tests
use shadowchat.Common.{
  ℕ, ◌+◌, ◌-◌, ◌*◌, ◌^◌, min, List, [], ◌∷◌, ◌++◌, Option, none, some, String, Bool, true, false,
  ◌||◌, not, ltb, leb, ◌==◌, if◌then◌else◌, length, filter,
}
use shadowchat.Common.Dict
use State.{
  Event, connect, disconnect, peer_joined, peer_left, room_state, offer, answer, ice, key_exchange,
  presence, error, name_of, Callback, external, on_connect, on_error, same_callback, QueuedMessage,
  Outbound, auth, ping, message, opened, closing, closed, Socket, Timer, Client, is_open,
  update_socket, ServerMessage, auth_result, said_peer_joined, said_peer_left, said_room_state,
  said_offer, said_answer, said_ice, said_key_exchange, said_presence, said_error, pong, unknown,
}

abbrev pub max_reconnect_attempts : ℕ
max_reconnect_attempts = 5

abbrev pub base_delay : ℕ
base_delay = 1000

abbrev pub max_queued : ℕ
max_queued = 500

-- `Math.min(15_000, baseDelay * 2 ** reconnectAttempts)`
abbrev pub delay_after : ℕ → ℕ
delay_after attempts = min 15000 (base_delay * 2 ^ attempts)

module _ {V : Type 0} where
  -- `this.listeners[event] ?? []`
  abbrev pub listeners_of : String → Client V → List Callback
  listeners_of event c = elim (Dict.get event c.listeners) [ none ↦ [] | some cbs ↦ cbs ]

  -- `on`
  unfoldable pub add_listener : String → Callback → Client V → Client V
  add_listener event cb c = record c {
    listeners = Dict.set event (listeners_of event c ++ (cb ∷ [])) c.listeners;
  }

  -- `off`
  unfoldable pub remove_listener : String → Callback → Client V → Client V
  remove_listener event cb c = record c {
    listeners = elim (Dict.get event c.listeners) [
      | none ↦ c.listeners
      | some cbs ↦ Dict.set event (filter (λ x. not (same_callback x cb)) cbs) c.listeners
    ];
  }

  -- The promise of an attempt to connect settles, and its two listeners go.
  abbrev pub settle_attempt : ℕ → Bool → Client V → Client V
  settle_attempt n resolved c =
      let off = remove_listener "error" (on_error n) (remove_listener "connect" (on_connect n) c) in
      record off { outcomes = off.outcomes ++ ((n, resolved) ∷ []) }

  abbrev pub run_callback : Event V → Callback → Client V → Client V
  run_callback e (external n) c = record c { calls = c.calls ++ ((n, e) ∷ []) }
  run_callback e (on_connect n) c = settle_attempt n true c
  run_callback e (on_error n) c = settle_attempt n false c

  unfoldable pub run_callbacks : Event V → List Callback → Client V → Client V
  run_callbacks e [] c = c
  run_callbacks e (cb ∷ cbs) c = run_callbacks e cbs (run_callback e cb c)

  unfoldable pub trigger : Event V → Client V → Client V
  unfolding run_callbacks
  trigger e c = run_callbacks e (listeners_of (name_of e) c) c

  -- `socket.send` on the socket of the client, where there is one.
  abbrev pub send_now : Outbound V → Client V → Client V
  send_now m c = elim c.socket [
    | none ↦ c
    | some k ↦ update_socket k (λ s. record s { sent = s.sent ++ (m ∷ []) }) c
  ]

  -- `this.socket?.close()`: the close event comes later.
  abbrev pub close_socket : Client V → Client V
  close_socket c = elim c.socket [
    | none ↦ c
    | some k ↦ update_socket k (λ s. record s { ready = closing }) c
  ]

  -- The delay is in 2000ths of a millisecond: `delay * (0.5 + random * 0.5)`.
  unfoldable pub schedule_reconnect : ℕ → Client V → Client V
  schedule_reconnect random c =
      if c.is_disconnecting || leb max_reconnect_attempts c.reconnect_attempts
      then c
      else record c {
        reconnect_attempts = c.reconnect_attempts + 1;
        timers =
            c.timers
            ++ (record {
              timer_id = c.next_timer;
              delay = delay_after c.reconnect_attempts * (1000 + random);
            }
                ∷ []);
        reconnect_timer = some c.next_timer;
        next_timer = c.next_timer + 1;
      }

  unfoldable pub send : String → String → Option String → List (String × V) → Client V → Client V
  send kind room target extra c =
      let m : QueuedMessage V = record {
        kind = kind;
        room = room;
        target = target;
        extra = extra;
      } in
      if is_open c
      then send_now (message m) c
      else if ltb (length c.send_queue) max_queued
      then record c { send_queue = c.send_queue ++ (m ∷ []) }
      else c

  -- `flushQueue`: the list is the queue, whose head is sent in each round.
  unfoldable pub flush_from : List (QueuedMessage V) → Client V → Client V
  flush_from [] c = c
  flush_from (m ∷ ms) c =
      let rest = flush_from ms (send_now (message m) (record c { send_queue = ms })) in
      if is_open c then rest else c

  unfoldable pub flush_queue : Client V → Client V
  unfolding flush_from
  flush_queue c = flush_from c.send_queue c

  -- `connect`. `works` tells whether the constructor of `WebSocket` returns; where it throws, the two
  -- listeners stay. The number of an attempt is that of its socket.
  unfoldable pub open_connection : Bool → Client V → Client V
  unfolding add_listener
  open_connection works c = elim c.socket [
    | some k ↦ record c {
      outcomes = c.outcomes ++ ((c.attempts, true) ∷ []);
      attempts = c.attempts + 1;
    }
    | none ↦
        let n = c.attempts in
        let listening = add_listener "error" (on_error n) (
          add_listener "connect" (on_connect n)
            (record c { is_disconnecting = false; attempts = n + 1 })) in
        if works
        then record listening {
          socket = some n;
          auth_timeouts = listening.auth_timeouts ++ (n ∷ []);
        }
        else record listening { outcomes = listening.outcomes ++ ((n, false) ∷ []) }
  ]

  -- The timeout of 10 seconds of attempt `n`.
  unfoldable pub auth_timeout : ℕ → Client V → Client V
  unfolding remove_listener
  auth_timeout n c =
      settle_attempt n false
        (record c { auth_timeouts = filter (λ m. not (m == n)) c.auth_timeouts })

  abbrev pub opened_client : ℕ → ℕ → Client V → Client V
  opened_client now k c = record (update_socket k (λ s. record s { ready = opened }) c) {
    auth_timeouts = filter (λ m. not (m == k)) c.auth_timeouts;
    last_pong_time = now;
  }

  -- `onopen` of socket `k`. Where the client has no socket, the handler throws at the send.
  unfoldable pub on_open : ℕ → ℕ → Client V → Client V
  on_open now k c = send_now auth (opened_client now k c)

  abbrev pub closed_client : ℕ → Client V → Client V
  closed_client k c = record (update_socket k (λ s. record s { ready = closed }) c) {
    heartbeat = false;
    socket = none;
  }

  -- `onclose` of socket `k`.
  unfoldable pub on_close : ℕ → ℕ → Client V → Client V
  unfolding trigger schedule_reconnect
  on_close random k c = schedule_reconnect random (trigger disconnect (closed_client k c))

  -- `this.socket?.close(); this.socket = null;`
  abbrev pub dropped : Client V → Client V
  dropped c = record (close_socket c) { socket = none }

  abbrev pub without_timer : ℕ → Client V → Client V
  without_timer t c = record c { timers = filter (λ x. not (x.timer_id == t)) c.timers }

  unfoldable pub disconnect_client : Client V → Client V
  disconnect_client c =
      let off = record c { is_disconnecting = true; heartbeat = false } in
      let cleared : Client V = elim c.reconnect_timer [
        | none ↦ off
        | some t ↦ without_timer t off
      ] in
      dropped cleared

  unfoldable pub destroy : Client V → Client V
  unfolding disconnect_client
  destroy c = record (disconnect_client c) { listeners = []; send_queue = [] }

  -- A reconnect timer fires: `connect().catch(() => {})`.
  unfoldable pub fire_timer : ℕ → Bool → Client V → Client V
  unfolding open_connection
  fire_timer t works c = open_connection works (without_timer t c)

  -- One tick of the heartbeat's interval.
  unfoldable pub beat : ℕ → ℕ → Client V → Client V
  unfolding schedule_reconnect
  beat now random c =
      if ltb 35000 (now - c.last_pong_time)
      then schedule_reconnect random (dropped c)
      else if is_open c
      then send_now ping c
      else c

  unfoldable pub handle_message : ℕ → ServerMessage V → Client V → Client V
  unfolding trigger flush_queue
  handle_message now (auth_result true) c =
      let connected = trigger connect (record c { reconnect_attempts = 0 }) in
      flush_queue (record connected { heartbeat = true })
  handle_message now (auth_result false) c = close_socket c
  handle_message now (said_peer_joined peer count) c = trigger (peer_joined peer count) c
  handle_message now (said_peer_left peer count) c = trigger (peer_left peer count) c
  handle_message now (said_room_state none count) c = trigger (room_state [] count) c
  handle_message now (said_room_state (some peers) count) c = trigger (room_state peers count) c
  handle_message now (said_offer from sdp) c = trigger (offer from sdp) c
  handle_message now (said_answer from sdp) c = trigger (answer from sdp) c
  handle_message now (said_ice from candidate) c = trigger (ice from candidate) c
  handle_message now (said_key_exchange from payload) c = trigger (key_exchange from payload) c
  handle_message now (said_presence from status) c = trigger (presence from status) c
  handle_message now (said_error code text) c = trigger (error code text) c
  handle_message now pong c = record c { last_pong_time = now }
  handle_message now unknown c = c

  -- `onmessage`: the lines that `JSON.parse` accepts, in order.
  unfoldable pub on_message : ℕ → List (ServerMessage V) → Client V → Client V
  unfolding handle_message
  on_message now [] c = c
  on_message now (m ∷ ms) c = on_message now ms (handle_message now m c)
