-- ===== src/Signaling/State.antt =====
-- The data of the signaling client: events, messages, sockets and the fields of `SignalingClient`.
use shadowchat.Common.{
  ℕ, List, [], Option, none, some, String, Bool, true, false, ◌==◌, if◌then◌else◌,
}
use shadowchat.Common.Dict.{Dict}

-- `SignalingEventMap`: the events with their data. `V` is what a field of JSON holds.
pub data Event (V : Type 0) : Type 0 where
  connect disconnect : Event V
  peer_joined peer_left : String → ℕ → Event V
  room_state : List String → ℕ → Event V
  offer answer : String → String → Event V
  ice : String → V → Event V
  key_exchange presence : String → String → Event V
  error : ℕ → String → Event V

abbrev pub name_of : {V : Type 0} → Event V → String
name_of connect = "connect"
name_of disconnect = "disconnect"
name_of (peer_joined peer count) = "peer-joined"
name_of (peer_left peer count) = "peer-left"
name_of (room_state peers count) = "room-state"
name_of (offer from sdp) = "offer"
name_of (answer from sdp) = "answer"
name_of (ice from candidate) = "ice"
name_of (key_exchange from payload) = "key-exchange"
name_of (presence from status) = "presence"
name_of (error code text) = "error"

-- A listener: a callback of the owner, or one of the two that an attempt to connect adds.
pub data Callback : Type 0 where
  external on_connect on_error : ℕ → Callback

abbrev pub same_callback : Callback → Callback → Bool
same_callback (external m) (external n) = m == n
same_callback (on_connect m) (on_connect n) = m == n
same_callback (on_error m) (on_error n) = m == n
same_callback _ _ = false

pub record QueuedMessage (V : Type 0) : Type 0 where
  pub kind : String
  pub room : String
  pub target : Option String
  pub extra : List (String × V)

-- What goes out on a socket.
pub data Outbound (V : Type 0) : Type 0 where
  auth ping : Outbound V
  message : QueuedMessage V → Outbound V

pub data ReadyState : Type 0 where
  connecting opened closing closed : ReadyState

pub record Socket (V : Type 0) : Type 0 where
  pub ready : ReadyState
  pub sent : List (Outbound V)

-- A `setTimeout` for a reconnection, with its delay in 2000ths of a millisecond.
pub record Timer : Type 0 where
  pub timer_id : ℕ
  pub delay : ℕ

-- What the server says; `unknown` is a message of any other type.
pub data ServerMessage (V : Type 0) : Type 0 where
  auth_result : Bool → ServerMessage V
  said_peer_joined said_peer_left : String → ℕ → ServerMessage V
  said_room_state : Option (List String) → ℕ → ServerMessage V
  said_offer said_answer said_key_exchange said_presence : String → String → ServerMessage V
  said_ice : String → V → ServerMessage V
  said_error : ℕ → String → ServerMessage V
  pong unknown : ServerMessage V

-- The client and what lives around it: every socket it has made, the pending timers, the calls of
-- the owner's callbacks, and how the promises of `connect` settled.
pub record Client (V : Type 0) : Type 0 where
  pub socket : Option ℕ
  pub sockets : ℕ → Socket V
  pub listeners : Dict (List Callback)
  pub send_queue : List (QueuedMessage V)
  pub reconnect_timer : Option ℕ
  pub timers : List Timer
  pub next_timer : ℕ
  pub auth_timeouts : List ℕ
  pub heartbeat : Bool
  pub reconnect_attempts : ℕ
  pub is_disconnecting : Bool
  pub last_pong_time : ℕ
  pub attempts : ℕ
  pub calls : List (ℕ × Event V)
  pub outcomes : List (ℕ × Bool)

abbrev pub is_opened : ReadyState → Bool
is_opened opened = true
is_opened _ = false

module _ {V : Type 0} where
  -- `new SignalingClient(…)` at the time `now`.
  abbrev pub new_client : ℕ → Client V
  new_client now = record {
    socket = none;
    sockets = λ k. record { ready = connecting; sent = [] };
    listeners = [];
    send_queue = [];
    reconnect_timer = none;
    timers = [];
    next_timer = 0;
    auth_timeouts = [];
    heartbeat = false;
    reconnect_attempts = 0;
    is_disconnecting = false;
    last_pong_time = now;
    attempts = 0;
    calls = [];
    outcomes = [];
  }

  -- `this.socket?.readyState === WebSocket.OPEN`
  abbrev pub is_open : Client V → Bool
  is_open c = elim c.socket [ none ↦ false | some k ↦ is_opened (c.sockets k).ready ]

  abbrev pub update_socket : ℕ → (Socket V → Socket V) → Client V → Client V
  update_socket k f c = record c { sockets = λ j. if j == k then f (c.sockets j) else c.sockets j }
