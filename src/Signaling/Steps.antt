-- ===== src/Signaling/Steps.antt =====
-- What can happen to the signaling client, as a step relation, and the states it reaches.
use shadowchat.Common.{ℕ, ◌<◌, List, Option, String, Bool, true}
use shadowchat.Signaling.State.{external, Client, new_client, ServerMessage, auth_result}
use shadowchat.Signaling.{
  add_listener, remove_listener, send, open_connection, auth_timeout, on_open, on_close,
  disconnect_client, destroy, fire_timer, beat, handle_message,
}

module _ {V : Type 0} where
  -- One operation of the owner, of a timer or of a socket; a call of `Math.random()` is below 1.
  pub data Step : Client V → Client V → Type 0 where
    sends :
        (kind room : String) (target : Option String) (extra : List (String × V)) (c : Client V)
        → Step c (send kind room target extra c)
    listens : (event : String) (n : ℕ) (c : Client V) → Step c (add_listener event (external n) c)
    stops_listening :
        (event : String) (n : ℕ) (c : Client V) → Step c (remove_listener event (external n) c)
    connects : (works : Bool) (c : Client V) → Step c (open_connection works c)
    times_out : (n : ℕ) (c : Client V) → Step c (auth_timeout n c)
    opens : (now k : ℕ) (c : Client V) → Step c (on_open now k c)
    closes : (random k : ℕ) (c : Client V) → random < 1000 → Step c (on_close random k c)
    disconnects : (c : Client V) → Step c (disconnect_client c)
    destroys : (c : Client V) → Step c (destroy c)
    fires : (t : ℕ) (works : Bool) (c : Client V) → Step c (fire_timer t works c)
    beats : (now random : ℕ) (c : Client V) → random < 1000 → Step c (beat now random c)
    receives : (now : ℕ) (m : ServerMessage V) (c : Client V) → Step c (handle_message now m c)

  -- The reconnections that were scheduled up to the last time the server accepted the user: every one of
  -- them takes a number from `next_timer`.
  abbrev pub scheduled_after : {c d : Client V} → Step c d → ℕ → ℕ
  scheduled_after (receives now (auth_result true) c) mark = c.next_timer
  scheduled_after _ mark = mark

  -- The states that the client reaches, with that number.
  pub data IsReachable : ℕ → Client V → Type 0 where
    starts : (now : ℕ) → IsReachable 0 (new_client now)
    follows :
        {mark : ℕ} {c d : Client V}
        → IsReachable mark c
        → (step : Step c d) → IsReachable (scheduled_after step mark) d
