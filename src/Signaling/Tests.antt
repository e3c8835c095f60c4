-- ===== src/Signaling/Tests.antt =====
-- Runs of the signaling client.
use shadowchat.Common.{ℕ, ◌≡◌, refl, [], ◌∷◌, some, none, true, arith}
use shadowchat.Signaling.State.{
  QueuedMessage, message, auth, opened, Client, new_client, auth_result,
}
use shadowchat.Signaling.{open_connection, on_close, closed_client, destroy, send, handle_message}
use shadowchat.Signaling.Queue.{sent_on, handle_message-flushes}
use shadowchat.Signaling.Steps.{starts, follows, connects, closes}
use shadowchat.Signaling.Bounds.{IsSound, IsReachable-IsSound}
use shadowchat.Signaling.Closing.{on_close-destroy, send-on_close}

abbrev hello : QueuedMessage ℕ
hello = record { kind = "presence"; room = "r"; target = none; extra = ("status", 1) ∷ [] }

abbrev bye : QueuedMessage ℕ
bye = record { kind = "ice"; room = "r"; target = some "peer"; extra = [] }

-- Its second socket is open and not yet accepted; two messages wait.
abbrev waiting : Client ℕ
waiting = record (new_client 0) {
  socket = some 1;
  sockets = λ k. record { ready = opened; sent = auth ∷ [] };
  send_queue = hello ∷ bye ∷ [];
  attempts = 2;
}

handle_message-flushes_example :
    (sent_on 1 (handle_message 50 (auth_result true) waiting)
      ≡ auth ∷ message hello ∷ message bye ∷ [])
    × ((handle_message 50 (auth_result true) waiting).send_queue ≡ [])
handle_message-flushes_example = handle_message-flushes 50 1 waiting refl refl

send-on_close_example :
    ((on_close 300 0 waiting).socket ≡ none)
    × ((send "offer" "r" none [] (on_close 300 0 waiting)).sockets 1 ≡ waiting.sockets 1)
send-on_close_example =
    send-on_close 300 0 1 "offer" "r" none [] waiting refl (λ e. absurd (omega (arith, e)))

on_close-destroy_example : on_close 300 1 (destroy waiting) ≡ closed_client 1 (destroy waiting)
on_close-destroy_example = on_close-destroy 300 1 waiting

-- The first socket of a client is closed before it opens.
abbrev retrying : Client ℕ
retrying = on_close 999 0 (open_connection true (new_client 0))

IsReachable-IsSound_example : IsSound 0 retrying
IsReachable-IsSound_example = IsReachable-IsSound (
    follows (follows (starts 0) (connects true (new_client 0)))
      (closes 999 0 (open_connection true (new_client 0)) (omega arith)))
