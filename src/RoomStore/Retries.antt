-- ===== src/RoomStore/Retries.antt =====
-- The history that `finalizeKeyExchange` of frontend/src/stores/roomStore.ts sends to a peer: its size, and the
-- attempts of `trySend`.
use shadowchat.Common.{
  ℕ, ◌+◌, ◌-◌, ◌≤◌, ◌<◌, min, ◌≡◌, refl, sym, ap, ◌∙◌, List, [], ◌∷◌, ◌++◌, String, true, false,
  lt→ltb, arith, length, take, length-drop, take-append-drop,
}
use shadowchat.Common.Dict
use shadowchat.Common.Results.{ok}
use shadowchat.Platform.{Platform}
use shadowchat.RoomStore.State.{ChatMessage, history_bundle, HistoryTimer, RoomState}
use shadowchat.RoomStore.Basics.{Env, put_on_line}
use shadowchat.RoomStore.Keys.{
  recent_messages, peer_line_open, try_send, fire_history_timer, send_messages, send_history,
}

-- A bundle holds the last messages of the chat: all but a front, and 50 where there are more.
pub recent_messages-length :
    (messages : List ChatMessage)
    → (length (recent_messages messages) ≡ min 50 (length messages))
      × (take (length messages - 50) messages ++ recent_messages messages ≡ messages)
unfolding recent_messages
recent_messages-length messages = (
  omega (arith, length-drop (length messages - 50) messages),
  take-append-drop (length messages - 50) messages,
)

module _ {Key DB : Type 0} (p : Platform Key DB) where
  -- The timers of the store fire, oldest first, each at a moment of its own.
  unfoldable pub fire_all : List Env → RoomState Key DB → RoomState Key DB
  unfolding fire_history_timer
  fire_all [] s = s
  fire_all (env ∷ envs) s = fire_all envs (fire_history_timer p env s)

  -- At none of these moments the control channel of the peer is open.
  abbrev pub StaysShut : String → List Env → RoomState Key DB → Type 0
  StaysShut from [] s = Unit
  StaysShut from (env ∷ envs) s =
      (peer_line_open p env (Dict.get from s.peers) ≡ false) × StaysShut from envs s

  abbrev waiting : String → List ChatMessage → ℕ → RoomState Key DB → RoomState Key DB
  waiting from bundle attempts s = record s {
    history_timers = record { peer = from; bundle = bundle; attempts = attempts } ∷ [];
  }

  try_shut :
      (env : Env) (from : String) (bundle : List ChatMessage) (attempts : ℕ) (s : RoomState Key DB)
      → peer_line_open p env (Dict.get from s.peers) ≡ false
      → s.history_timers ≡ []
      → attempts < 10
      → try_send p env from bundle attempts s ≡ waiting from bundle (attempts + 1) s
  unfolding try_send
  try_shut env from bundle attempts s shut idle few =
      let timer : HistoryTimer = record { peer = from; bundle = bundle; attempts = attempts + 1 } in
      rw (shut, lt→ltb attempts 10 few, try_send)
        (ap (λ (l : List HistoryTimer). record s { history_timers = l ++ (timer ∷ []) }) idle)

  try_last :
      (env : Env) (from : String) (bundle : List ChatMessage) (s : RoomState Key DB)
      → peer_line_open p env (Dict.get from s.peers) ≡ false
      → try_send p env from bundle 10 s ≡ s
  unfolding try_send
  try_last env from bundle s shut = rw (shut, try_send) refl

  try_open :
      (env : Env) (from : String) (bundle : List ChatMessage) (attempts : ℕ) (s : RoomState Key DB)
      → peer_line_open p env (Dict.get from s.peers) ≡ true
      → env.sends from ≡ ok tt
      → try_send p env from bundle attempts s ≡ put_on_line from (history_bundle bundle) s
  unfolding try_send
  try_open env from bundle attempts s open_line sent = rw (open_line, sent, try_send) refl

  abbrev idle : RoomState Key DB → RoomState Key DB
  idle s = record s { history_timers = [] }

  -- As long as the channel stays shut, a firing counts one attempt more.
  fire_shut :
      (envs : List Env) (from : String) (bundle : List ChatMessage) (attempts : ℕ)
      (s : RoomState Key DB)
      → StaysShut from envs s
      → attempts + length envs ≤ 10
      → fire_all envs (waiting from bundle attempts s)
        ≡ waiting from bundle (attempts + length envs) s
  unfolding fire_all fire_history_timer
  fire_shut [] from bundle attempts s shut few =
      ap (λ (n : ℕ). waiting from bundle n s) (omega arith)
  fire_shut (env ∷ envs) from bundle attempts s shut few =
      ap (λ t. fire_all envs t)
        (try_shut env from bundle attempts (idle s) shut.0 refl (omega arith))
      ∙ fire_shut envs from bundle (attempts + 1) s shut.1 (omega arith)
      ∙ ap (λ (n : ℕ). waiting from bundle n s) (omega arith)

  fire_all-append :
      (xs ys : List Env) (s : RoomState Key DB)
      → fire_all (xs ++ ys) s ≡ fire_all ys (fire_all xs s)
  unfolding fire_all
  fire_all-append [] ys s = refl
  fire_all-append (x ∷ xs) ys s = fire_all-append xs ys (fire_history_timer p x s)

  -- Where no timer is pending and the control channel of the peer is shut, the history is tried ten
  -- times more, no more: if the channel stays shut, ten firings leave the state as it was, with
  -- nothing sent and no timer pending.
  pub try_send-gives_up :
      (env last : Env) (envs : List Env) (from : String) (bundle : List ChatMessage)
      (s : RoomState Key DB)
      → s.history_timers ≡ []
      → peer_line_open p env (Dict.get from s.peers) ≡ false
      → StaysShut from envs s
      → length envs ≡ 9
      → peer_line_open p last (Dict.get from s.peers) ≡ false
      → fire_all (envs ++ (last ∷ [])) (try_send p env from bundle 0 s) ≡ s
  unfolding fire_all fire_history_timer
  try_send-gives_up env last envs from bundle s none_pending shut stays nine shut_last =
      let ten : 1 + length envs ≡ 10 = omega arith in
      ap (λ t. fire_all (envs ++ (last ∷ [])) t)
        (try_shut env from bundle 0 s shut none_pending (omega arith))
      ∙ fire_all-append envs (last ∷ []) (waiting from bundle 1 s)
      ∙ ap (λ t. fire_all (last ∷ []) t)
          (fire_shut envs from bundle 1 s stays (omega arith)
            ∙ ap (λ (n : ℕ). waiting from bundle n s) ten)
      ∙ try_last last from bundle (idle s) shut_last
      ∙ ap (λ (l : List HistoryTimer). record s { history_timers = l }) (sym none_pending)

  -- The messages of a chat that is not empty reach a peer whose control channel opens in time: if no
  -- timer is pending, the channel is shut at first and at up to nine firings, and is open and sends at
  -- the next, then exactly one bundle has gone out, with the last messages of the chat, and no timer
  -- is left.
  pub send_history-reaches :
      (env now_open : Env) (envs : List Env) (from : String) (m : ChatMessage)
      (ms : List ChatMessage) (s : RoomState Key DB)
      → s.messages ≡ m ∷ ms
      → s.history_timers ≡ []
      → peer_line_open p env (Dict.get from s.peers) ≡ false
      → StaysShut from envs s
      → length envs ≤ 9
      → peer_line_open p now_open (Dict.get from s.peers) ≡ true
      → now_open.sends from ≡ ok tt
      → fire_all (envs ++ (now_open ∷ [])) (send_history p env from s)
        ≡ put_on_line from (history_bundle (recent_messages s.messages)) s
  unfolding fire_all fire_history_timer send_history
  send_history-reaches env now_open envs from m ms s some_there none_pending shut stays nine opened
        sent =
      let bundle = recent_messages (m ∷ ms) in
      ap
        (λ (l : List ChatMessage).
          fire_all (envs ++ (now_open ∷ [])) (send_messages p env from l s))
        some_there
      ∙ ap (λ t. fire_all (envs ++ (now_open ∷ [])) t)
          (try_shut env from bundle 0 s shut none_pending (omega arith))
      ∙ fire_all-append envs (now_open ∷ []) (waiting from bundle 1 s)
      ∙ ap (λ t. fire_all (now_open ∷ []) t) (fire_shut envs from bundle 1 s stays (omega arith))
      ∙ try_open now_open from bundle (1 + length envs) (idle s) opened sent
      ∙ ap
          (λ (l : List HistoryTimer).
            put_on_line from (history_bundle bundle) (record s { history_timers = l }))
          (sym none_pending)
      ∙ ap (λ (l : List ChatMessage). put_on_line from (history_bundle (recent_messages l)) s)
          (sym some_there)
