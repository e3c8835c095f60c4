-- ===== src/Signaling/Bounds.antt =====
-- What bounds the signaling client in every state that it can reach: the queue, the attempts to
-- reconnect and the delays of its timers.
use shadowchat.Common.{
  ℕ, ◌+◌, ◌≡◌, ◌*◌, ◌^◌, ◌≤◌, ◌<◌, List, [], ◌∷◌, ◌++◌, Option, none, some, String, Bool, true,
  false, ◌||◌, arith, All, not, ◌==◌, ◌-◌, All-append, length, length-append, ltb, leb, filter,
  Bool-cases, inl, inr, if◌then◌else◌,
}
use native.Mathlib.Nat.{mul-le-mul, one-le-pow}
use shadowchat.Signaling.State.{
  Event, disconnect, connect, peer_joined, peer_left, room_state, offer, answer, ice, key_exchange,
  presence, error, Callback, external, QueuedMessage, Outbound, auth, ping, message, Timer, Client,
  is_open, ServerMessage, auth_result, said_peer_joined, said_peer_left, said_room_state,
  said_offer, said_answer, said_ice, said_key_exchange, said_presence, said_error, pong, unknown,
}
use shadowchat.Signaling.{
  max_reconnect_attempts, max_queued, delay_after, add_listener, remove_listener, trigger, send_now,
  close_socket, schedule_reconnect, send, flush_from, flush_queue, open_connection, auth_timeout,
  on_open, on_close, disconnect_client, destroy, opened_client, closed_client, without_timer,
  dropped, fire_timer, beat, handle_message,
}
use shadowchat.Signaling.Steps.{
  Step, sends, listens, stops_listening, connects, times_out, opens, closes, disconnects, destroys,
  fires, beats, receives, scheduled_after, IsReachable, starts, follows,
}
use shadowchat.Signaling.Queue.{trigger-traffic}

-- Half a second at least, and less than 15 seconds.
abbrev pub IsShort : Timer → Type 0
IsShort t = (500 * 2000 ≤ t.delay) × (t.delay < 15000 * 2000)

delay-IsShort :
    (a r t : ℕ) → r < 1000 → IsShort (record { timer_id = t; delay = delay_after a * (1000 + r) })
delay-IsShort a r t h =
    let p : 1 ≤ 2 ^ a = one-le-pow a 2 (omega arith) in
    let low : 1000 * 1000 ≤ delay_after a * (1000 + r) =
      mul-le-mul {n₁ = 1000} {m₁ = 1000} {n₂ = delay_after a} {m₂ = 1000 + r} (omega arith)
        (omega arith) in
    let high : delay_after a * (1000 + r) ≤ 15000 * 1999 =
      mul-le-mul {n₁ = delay_after a} {m₁ = 1000 + r} {n₂ = 15000} {m₂ = 1999} (omega arith)
        (omega arith) in
    (omega arith, omega arith)

All-filter : (q : Timer → Bool) (ts : List Timer) → All IsShort ts → All IsShort (filter q ts)
All-filter q [] h = tt
All-filter q (t ∷ ts) h = elim (Bool-cases (q t)) [
  | inl y ↦ rw y (h.0, All-filter q ts h.1)
  | inr n ↦ rw n (All-filter q ts h.1)
]

module _ {V : Type 0} where
  pub record IsSound (mark : ℕ) (c : Client V) : Type 0 where
    pub few_queued : length c.send_queue ≤ 500
    pub few_attempts : c.reconnect_attempts ≤ 5
    pub delays : All IsShort c.timers
    pub tallied : c.next_timer ≡ mark + c.reconnect_attempts
    pub few_scheduled : c.next_timer ≤ mark + 5

  if-IsSound :
      {mark : ℕ} {c d : Client V} (b : Bool)
      → IsSound mark c
      → IsSound mark d
      → IsSound mark (if b then c else d)
  if-IsSound true hc hd = hc
  if-IsSound false hc hd = hd

  -- The operations on the client's socket, where there is one.
  socket-IsSound :
      {mark : ℕ} (o : Option ℕ) (f : ℕ → Client V) (c : Client V)
      → IsSound mark c
      → ((k : ℕ) → IsSound mark (f k))
      → IsSound mark (elim o [ none ↦ c | some k ↦ f k ])
  socket-IsSound none f c s h = s
  socket-IsSound (some k) f c s h = h k

  send_now-IsSound :
      {mark : ℕ} (m : Outbound V) (c : Client V) → IsSound mark c → IsSound mark (send_now m c)
  send_now-IsSound m c s = socket-IsSound c.socket _ c s (λ k. record {
    few_queued = s.few_queued;
    few_attempts = s.few_attempts;
    delays = s.delays;
    tallied = s.tallied;
    few_scheduled = s.few_scheduled;
  })

  close_socket-IsSound : {mark : ℕ} (c : Client V) → IsSound mark c → IsSound mark (close_socket c)
  close_socket-IsSound c s = socket-IsSound c.socket _ c s (λ k. record {
    few_queued = s.few_queued;
    few_attempts = s.few_attempts;
    delays = s.delays;
    tallied = s.tallied;
    few_scheduled = s.few_scheduled;
  })

  trigger-IsSound :
      {mark : ℕ} (e : Event V) (c : Client V) → IsSound mark c → IsSound mark (trigger e c)
  trigger-IsSound e c s = rw (trigger-traffic e c) (record {
    few_queued = s.few_queued;
    few_attempts = s.few_attempts;
    delays = s.delays;
    tallied = s.tallied;
    few_scheduled = s.few_scheduled;
  })

  schedule_reconnect-IsSound :
      {mark : ℕ} (random : ℕ) (c : Client V)
      → random < 1000
      → IsSound mark c
      → IsSound mark (schedule_reconnect random c)
  unfolding schedule_reconnect
  schedule_reconnect-IsSound random c h s =
      elim (Bool-cases (c.is_disconnecting || leb max_reconnect_attempts c.reconnect_attempts)) [
        | inl stop ↦ rw stop s
        | inr go ↦ rw go (record {
          few_queued = s.few_queued;
          few_attempts = ground (arith, go);
          delays =
              All-append IsShort c.timers _ s.delays
                (delay-IsShort c.reconnect_attempts random c.next_timer h, tt);
          tallied = omega (arith, s.tallied);
          few_scheduled = ground (arith, go, s.tallied);
        })
      ]

  send-IsSound :
      {mark : ℕ} (kind room : String) (target : Option String) (extra : List (String × V))
      (c : Client V)
      → IsSound mark c
      → IsSound mark (send kind room target extra c)
  unfolding send
  send-IsSound {mark = mark} kind room target extra c s =
      if-IsSound (is_open c) (send_now-IsSound _ c s) queued
    where
      m : QueuedMessage V
      m = record { kind = kind; room = room; target = target; extra = extra }

      queued : IsSound mark (
          if ltb (length c.send_queue) max_queued
          then record c { send_queue = c.send_queue ++ (m ∷ []) }
          else c)
      queued = elim (Bool-cases (ltb (length c.send_queue) max_queued)) [
        | inl room_left ↦ rw room_left (record {
          few_queued = ground (arith, room_left, length-append c.send_queue (m ∷ []));
          few_attempts = s.few_attempts;
          delays = s.delays;
          tallied = s.tallied;
          few_scheduled = s.few_scheduled;
        })
        | inr full ↦ rw full s
      ]

  flush_from-IsSound :
      {mark : ℕ} (ms : List (QueuedMessage V)) (c : Client V)
      → length ms ≤ 500
      → IsSound mark c
      → IsSound mark (flush_from ms c)
  unfolding flush_from
  flush_from-IsSound [] c h s = s
  flush_from-IsSound (m ∷ ms) c h s =
      if-IsSound (is_open c)
        (flush_from-IsSound ms (send_now (message m) (record c { send_queue = ms })) (omega arith) (
          send_now-IsSound (message m) (record c { send_queue = ms })
            (record {
              few_queued = omega arith;
              few_attempts = s.few_attempts;
              delays = s.delays;
              tallied = s.tallied;
              few_scheduled = s.few_scheduled;
            })))
        s

  remove_listener-IsSound :
      {mark : ℕ} (event : String) (cb : Callback) (c : Client V)
      → IsSound mark c
      → IsSound mark (remove_listener event cb c)
  unfolding remove_listener
  remove_listener-IsSound event cb c s = record {
    few_queued = s.few_queued;
    few_attempts = s.few_attempts;
    delays = s.delays;
    tallied = s.tallied;
    few_scheduled = s.few_scheduled;
  }

  open_connection-IsSound :
      {mark : ℕ} (works : Bool) (c : Client V)
      → IsSound mark c
      → IsSound mark (open_connection works c)
  unfolding open_connection add_listener
  open_connection-IsSound {mark = mark} works c s = go c.socket works
    where
      go : (o : Option ℕ) (b : Bool) → IsSound mark (open_connection b (record c { socket = o }))
      go (some k) b = record {
        few_queued = s.few_queued;
        few_attempts = s.few_attempts;
        delays = s.delays;
        tallied = s.tallied;
        few_scheduled = s.few_scheduled;
      }
      go none true = record {
        few_queued = s.few_queued;
        few_attempts = s.few_attempts;
        delays = s.delays;
        tallied = s.tallied;
        few_scheduled = s.few_scheduled;
      }
      go none false = record {
        few_queued = s.few_queued;
        few_attempts = s.few_attempts;
        delays = s.delays;
        tallied = s.tallied;
        few_scheduled = s.few_scheduled;
      }

  disconnect_client-IsSound :
      {mark : ℕ} (c : Client V) → IsSound mark c → IsSound mark (disconnect_client c)
  unfolding disconnect_client
  disconnect_client-IsSound {mark = mark} c s = go c.reconnect_timer c.socket
    where
      go :
          (t o : Option ℕ)
          → IsSound mark (disconnect_client (record c { reconnect_timer = t; socket = o }))
      go none none = record {
        few_queued = s.few_queued;
        few_attempts = s.few_attempts;
        delays = s.delays;
        tallied = s.tallied;
        few_scheduled = s.few_scheduled;
      }
      go none (some k) = record {
        few_queued = s.few_queued;
        few_attempts = s.few_attempts;
        delays = s.delays;
        tallied = s.tallied;
        few_scheduled = s.few_scheduled;
      }
      go (some t) none = record {
        few_queued = s.few_queued;
        few_attempts = s.few_attempts;
        delays = All-filter _ c.timers s.delays;
        tallied = s.tallied;
        few_scheduled = s.few_scheduled;
      }
      go (some t) (some k) = record {
        few_queued = s.few_queued;
        few_attempts = s.few_attempts;
        delays = All-filter _ c.timers s.delays;
        tallied = s.tallied;
        few_scheduled = s.few_scheduled;
      }

  destroy-IsSound : {mark : ℕ} (c : Client V) → IsSound mark c → IsSound mark (destroy c)
  unfolding destroy
  destroy-IsSound c s =
      let d = disconnect_client-IsSound c s in
      record {
        few_queued = omega arith;
        few_attempts = d.few_attempts;
        delays = d.delays;
        tallied = d.tallied;
        few_scheduled = d.few_scheduled;
      }

  handle_message-IsSound :
      {mark : ℕ} (now : ℕ) (m : ServerMessage V) (c : Client V)
      → IsSound mark c
      → IsSound (scheduled_after (receives now m c) mark) (handle_message now m c)
  unfolding handle_message flush_queue
  handle_message-IsSound now (auth_result true) c s =
      let t =
        trigger-IsSound connect (record c { reconnect_attempts = 0 })
          (record {
            few_queued = s.few_queued;
            few_attempts = omega arith;
            delays = s.delays;
            tallied = omega arith;
            few_scheduled = omega arith;
          }) in
      flush_from-IsSound _ _ t.few_queued (record {
        few_queued = t.few_queued;
        few_attempts = t.few_attempts;
        delays = t.delays;
        tallied = t.tallied;
        few_scheduled = t.few_scheduled;
      })
  handle_message-IsSound now (auth_result false) c s = close_socket-IsSound c s
  handle_message-IsSound now (said_room_state none count) c s =
      trigger-IsSound (room_state [] count) c s
  handle_message-IsSound now (said_room_state (some peers) count) c s =
      trigger-IsSound (room_state peers count) c s
  handle_message-IsSound now pong c s = record {
    few_queued = s.few_queued;
    few_attempts = s.few_attempts;
    delays = s.delays;
    tallied = s.tallied;
    few_scheduled = s.few_scheduled;
  }
  handle_message-IsSound now unknown c s = s
  handle_message-IsSound now (said_peer_joined peer count) c s =
      trigger-IsSound (peer_joined peer count) c s
  handle_message-IsSound now (said_peer_left peer count) c s =
      trigger-IsSound (peer_left peer count) c s
  handle_message-IsSound now (said_offer from sdp) c s = trigger-IsSound (offer from sdp) c s
  handle_message-IsSound now (said_answer from sdp) c s = trigger-IsSound (answer from sdp) c s
  handle_message-IsSound now (said_ice from candidate) c s =
      trigger-IsSound (ice from candidate) c s
  handle_message-IsSound now (said_key_exchange from payload) c s =
      trigger-IsSound (key_exchange from payload) c s
  handle_message-IsSound now (said_presence from status) c s =
      trigger-IsSound (presence from status) c s
  handle_message-IsSound now (said_error code text) c s = trigger-IsSound (error code text) c s

  Step-IsSound :
      {mark : ℕ} {c d : Client V} (step : Step c d)
      → IsSound mark c
      → IsSound (scheduled_after step mark) d
  unfolding on_open on_close auth_timeout add_listener fire_timer beat
  Step-IsSound (sends kind room target extra c) s = send-IsSound kind room target extra c s
  Step-IsSound (listens event n c) s = record {
    few_queued = s.few_queued;
    few_attempts = s.few_attempts;
    delays = s.delays;
    tallied = s.tallied;
    few_scheduled = s.few_scheduled;
  }
  Step-IsSound (stops_listening event n c) s = remove_listener-IsSound event (external n) c s
  Step-IsSound (connects works c) s = open_connection-IsSound works c s
  Step-IsSound (times_out n c) s = record {
    few_queued = s.few_queued;
    few_attempts = s.few_attempts;
    delays = s.delays;
    tallied = s.tallied;
    few_scheduled = s.few_scheduled;
  }
  Step-IsSound (opens now k c) s = send_now-IsSound auth (opened_client now k c) (record {
    few_queued = s.few_queued;
    few_attempts = s.few_attempts;
    delays = s.delays;
    tallied = s.tallied;
    few_scheduled = s.few_scheduled;
  })
  Step-IsSound (closes random k c h) s =
      schedule_reconnect-IsSound random (trigger disconnect (closed_client k c)) h (
        trigger-IsSound disconnect (closed_client k c) (record {
          few_queued = s.few_queued;
          few_attempts = s.few_attempts;
          delays = s.delays;
          tallied = s.tallied;
          few_scheduled = s.few_scheduled;
        }))
  Step-IsSound (disconnects c) s = disconnect_client-IsSound c s
  Step-IsSound (destroys c) s = destroy-IsSound c s
  Step-IsSound (fires t works c) s = open_connection-IsSound works (without_timer t c) (record {
    few_queued = s.few_queued;
    few_attempts = s.few_attempts;
    delays = All-filter (λ x. not (x.timer_id == t)) c.timers s.delays;
    tallied = s.tallied;
    few_scheduled = s.few_scheduled;
  })
  Step-IsSound (beats now random c h) s =
      let closed_now = close_socket-IsSound c s in
      if-IsSound (ltb 35000 (now - c.last_pong_time))
        (schedule_reconnect-IsSound random (dropped c) h (record {
          few_queued = closed_now.few_queued;
          few_attempts = closed_now.few_attempts;
          delays = closed_now.delays;
          tallied = closed_now.tallied;
          few_scheduled = closed_now.few_scheduled;
        }))
        (if-IsSound (is_open c) (send_now-IsSound ping c s) s)
  Step-IsSound (receives now m c) s = handle_message-IsSound now m c s

  -- In every state that the client reaches, by any operations in any order, at most 500 messages
  -- wait; the reconnections scheduled since the server last accepted the user, or since the start, are
  -- as many as the counter of attempts says, and at most five; and every pending timer has a delay of
  -- half a second at least and below 15 seconds.
  pub IsReachable-IsSound : {mark : ℕ} {c : Client V} → IsReachable mark c → IsSound mark c
  IsReachable-IsSound (starts now) = record {
    few_queued = omega arith;
    few_attempts = omega arith;
    delays = tt;
    tallied = omega arith;
    few_scheduled = omega arith;
  }
  IsReachable-IsSound (follows r step) = Step-IsSound step (IsReachable-IsSound r)
