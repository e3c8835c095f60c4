-- ===== src/Signaling/Closing.antt =====
-- What the end of a socket does to the client: after `destroy`, and after the socket was replaced.
use shadowchat.Common.{
  ℕ, ◌≡◌, ◌≢◌, refl, sym, ap, ◌∙◌, List, [], Option, none, some, String, Bool, true, false, ◌||◌,
  Bool-cases, ==_iff, inl, inr, if◌then◌else◌, ◌==◌, length, ltb, leb,
}
use shadowchat.Common.Dict
use shadowchat.Signaling.State.{Event, Callback, disconnect, name_of, Client, is_open, is_opened}
use shadowchat.Signaling.{
  max_reconnect_attempts, max_queued, run_callbacks, trigger, schedule_reconnect, send, on_close,
  closed_client, disconnect_client, destroy,
}
use shadowchat.Signaling.Queue.{trigger-traffic}

module _ {V : Type 0} where
  trigger_silent : (e : Event V) (c : Client V) → c.listeners ≡ [] → trigger e c ≡ c
  unfolding trigger run_callbacks Dict.get
  trigger_silent e c h =
      ap
        (λ (l : Dict.Dict (List Callback)).
          run_callbacks e (elim (Dict.get (name_of e) l) [ none ↦ [] | some cbs ↦ cbs ]) c)
        h

  disconnect_client-is_disconnecting :
      (c : Client V) → (disconnect_client c).is_disconnecting ≡ true
  unfolding disconnect_client
  disconnect_client-is_disconnecting c = go c.reconnect_timer c.socket
    where
      go :
          (t o : Option ℕ)
          → (disconnect_client (record c { reconnect_timer = t; socket = o })).is_disconnecting
            ≡ true
      go none none = refl
      go none (some k) = refl
      go (some t) none = refl
      go (some t) (some k) = refl

  -- What `scheduleReconnect` leaves alone.
  pub record SameSockets (c d : Client V) : Type 0 where
    pub socket : d.socket ≡ c.socket
    pub sockets : d.sockets ≡ c.sockets

  if-SameSockets :
      {c d e : Client V} (b : Bool)
      → SameSockets c d
      → SameSockets c e
      → SameSockets c (if b then d else e)
  if-SameSockets true hd he = hd
  if-SameSockets false hd he = he

  schedule_reconnect-SameSockets :
      (random : ℕ) (c : Client V) → SameSockets c (schedule_reconnect random c)
  unfolding schedule_reconnect
  schedule_reconnect-SameSockets random c =
      if-SameSockets (c.is_disconnecting || leb max_reconnect_attempts c.reconnect_attempts)
        (record { socket = refl; sockets = refl }) (record { socket = refl; sockets = refl })

  schedule_reconnect_off :
      (random : ℕ) (c : Client V) → c.is_disconnecting ≡ true → schedule_reconnect random c ≡ c
  unfolding schedule_reconnect
  schedule_reconnect_off random c h = rw h refl

  -- Once the client is destroyed, the end of any socket calls nobody and schedules nothing: it only
  -- marks that socket as closed and the client as without a socket and a heartbeat.
  pub on_close-destroy :
      (random k : ℕ) (c : Client V) → on_close random k (destroy c) ≡ closed_client k (destroy c)
  unfolding on_close destroy
  on_close-destroy random k c =
      ap (schedule_reconnect random) (trigger_silent disconnect (closed_client k (destroy c)) refl)
      ∙ schedule_reconnect_off random (closed_client k (destroy c))
          (disconnect_client-is_disconnecting c)

  send_detached :
      (kind room : String) (target : Option String) (extra : List (String × V)) (c : Client V)
      → c.socket ≡ none
      → SameSockets c (send kind room target extra c)
  unfolding send
  send_detached kind room target extra c h =
      let shut : is_open c ≡ false =
        ap {B = Bool} (λ o. elim o [ none ↦ false | some j ↦ is_opened (c.sockets j).ready ]) h in
      rw shut (
        if-SameSockets (ltb (length c.send_queue) max_queued)
          (record { socket = refl; sockets = refl }) (record { socket = refl; sockets = refl }))

  sockets-closed_client :
      (old new : ℕ) (c : Client V) → old ≢ new → (closed_client old c).sockets new ≡ c.sockets new
  sockets-closed_client old new c differ = elim (Bool-cases (new == old)) [
    | inl same ↦ absurd (differ (sym ((==_iff new old).0 same)))
    | inr other ↦ rw other refl
  ]

  -- Where the client has a new socket, the close event of another one takes the new socket away
  -- from the client: the client has none then, and a message that is sent next leaves the new
  -- socket as it was.
  pub send-on_close :
      (random old new : ℕ) (kind room : String) (target : Option String) (extra : List (String × V))
      (c : Client V)
      → c.socket ≡ some new
      → old ≢ new
      → ((on_close random old c).socket ≡ none)
        × ((send kind room target extra (on_close random old c)).sockets new ≡ c.sockets new)
  unfolding on_close
  send-on_close random old new kind room target extra c here differ =
      let d : Client V = closed_client old c in
      let t : Client V = trigger disconnect d in
      let s = schedule_reconnect-SameSockets random t in
      let e = trigger-traffic disconnect d in
      let gone : (on_close random old c).socket ≡ none =
        s.socket ∙ ap (λ (x : Client V). x.socket) e in
      let kept : (on_close random old c).sockets new ≡ c.sockets new =
        ap (λ f. f new) (s.sockets ∙ ap (λ (x : Client V). x.sockets) e)
        ∙ sockets-closed_client old new c differ in
      (
        gone,
        ap (λ f. f new) (send_detached kind room target extra (on_close random old c) gone).sockets
            ∙ kept,
      )
