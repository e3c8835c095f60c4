-- ===== src/Signaling/Queue.antt =====
-- The queue of messages that wait for the socket: what happens to it when the server accepts the
-- client.
use shadowchat.Common.{
  ℕ, ◌≡◌, refl, sym, ap, ◌∙◌, List, [], ◌∷◌, ◌++◌, map, some, none, true, false, append_assoc,
  append-nil, ==_iff,
}
use shadowchat.Signaling.State.{
  Event, connect, name_of, Callback, external, on_connect, on_error, QueuedMessage, Outbound,
  message, Socket, Client, is_open, is_opened, update_socket, auth_result,
}
use shadowchat.Signaling.{
  listeners_of, remove_listener, run_callbacks, trigger, send_now, flush_from, flush_queue,
  handle_message,
}

module _ {V : Type 0} where
  -- The client of `c` with the listeners, calls and outcomes of `d`.
  abbrev pub traffic_of : Client V → Client V → Client V
  traffic_of c d = record c { listeners = d.listeners; calls = d.calls; outcomes = d.outcomes }

  run_callbacks-traffic :
      (e : Event V) (cbs : List Callback) (c : Client V)
      → run_callbacks e cbs c ≡ traffic_of c (run_callbacks e cbs c)
  unfolding run_callbacks remove_listener
  run_callbacks-traffic e [] c = refl
  run_callbacks-traffic e (external n ∷ cbs) c = run_callbacks-traffic e cbs _
  run_callbacks-traffic e (on_connect n ∷ cbs) c = run_callbacks-traffic e cbs _
  run_callbacks-traffic e (on_error n ∷ cbs) c = run_callbacks-traffic e cbs _

  -- An event changes only the listeners, the calls and the outcomes.
  pub trigger-traffic : (e : Event V) (c : Client V) → trigger e c ≡ traffic_of c (trigger e c)
  unfolding trigger
  trigger-traffic e c = run_callbacks-traffic e (listeners_of (name_of e) c) c

  -- What is on socket `k`.
  abbrev pub sent_on : ℕ → Client V → List (Outbound V)
  sent_on k c = (c.sockets k).sent

  pub is_open_lem :
      (k : ℕ) (c : Client V) → c.socket ≡ some k → is_open c ≡ is_opened (c.sockets k).ready
  is_open_lem k c here =
      ap (λ o. elim o [ none ↦ false | some j ↦ is_opened (c.sockets j).ready ]) here

  -- What a send on the client's own socket does to the client.
  abbrev pub with_sent : ℕ → Outbound V → Client V → Client V
  with_sent k m c = update_socket k (λ s. record s { sent = s.sent ++ (m ∷ []) }) c

  pub send_now_lem :
      (k : ℕ) (m : Outbound V) (c : Client V) → c.socket ≡ some k → send_now m c ≡ with_sent k m c
  send_now_lem k m c here = ap (λ o. elim o [ none ↦ c | some j ↦ with_sent j m c ]) here

  sockets-with_sent :
      (k : ℕ) (m : Outbound V) (c : Client V)
      → (with_sent k m c).sockets k
        ≡ record { ready = (c.sockets k).ready; sent = (c.sockets k).sent ++ (m ∷ []) }
  sockets-with_sent k m c = rw ((==_iff k k).1 refl) refl

  flush_from_lem :
      (k : ℕ) (ms : List (QueuedMessage V)) (c : Client V)
      → c.socket ≡ some k
      → is_opened (c.sockets k).ready ≡ true
      → c.send_queue ≡ ms
      → (sent_on k (flush_from ms c) ≡ sent_on k c ++ map message ms)
        × ((flush_from ms c).send_queue ≡ [])
  unfolding flush_from
  flush_from_lem k [] c here open_now q = (sym (append-nil (sent_on k c)), q)
  flush_from_lem k (m ∷ ms) c here open_now q =
      let shifted : Client V = record c { send_queue = ms } in
      let s : (with_sent k (message m) shifted).sockets k
          ≡ record { ready = (c.sockets k).ready; sent = (c.sockets k).sent ++ (message m ∷ []) } =
        sockets-with_sent k (message m) shifted in
      let (sent, empty) =
        flush_from_lem k ms (with_sent k (message m) shifted) here
          (ap (λ (t : Socket V). is_opened t.ready) s ∙ open_now) refl in
      rw (is_open_lem k c here ∙ open_now, send_now_lem k (message m) shifted here)
        (
          sent
              ∙ ap (λ (t : Socket V). t.sent ++ map message ms) s
              ∙ append_assoc (sent_on k c) (message m ∷ []) (map message ms),
          empty,
        )

  -- When the server accepts the client over its open socket, the messages that waited go out on
  -- that socket in the order of the queue, after what is on it, and none waits any more.
  pub handle_message-flushes :
      (now k : ℕ) (c : Client V)
      → c.socket ≡ some k
      → is_opened (c.sockets k).ready ≡ true
      → (sent_on k (handle_message now (auth_result true) c)
          ≡ sent_on k c ++ map message c.send_queue)
        × ((handle_message now (auth_result true) c).send_queue ≡ [])
  unfolding handle_message flush_queue
  handle_message-flushes now k c here open_now =
      rw (trigger-traffic connect (record c { reconnect_attempts = 0 }))
        (flush_from_lem k c.send_queue _ here open_now refl)
