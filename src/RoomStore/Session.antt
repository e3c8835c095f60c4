-- ===== src/RoomStore/Session.antt =====
-- The session of frontend/src/stores/roomStore.ts: `connectSignaling` with its listeners for `connect` and
-- `disconnect`, and `disconnectRoom`. The base64 and JSON of the token's claims are an argument.
use Prim.Native.Char.{Char, code, char}
use shadowchat.Common.{
  ◌+◌, List, [], ◌∷◌, ◌++◌, Option, none, some, String, Bool, true, false, ◌==◌, ◌||◌, str_eq,
  if◌then◌else◌,
}
use shadowchat.Platform.Crypto.{KeyPair}
use shadowchat.Platform.Tables.{Role}
use shadowchat.Crypto.{KeyExchangePacket}
use shadowchat.Signaling.State.{Client}
use shadowchat.Signaling.{disconnect_client}
use shadowchat.UiStore.{success, warning}
use shadowchat.WebRtc.{Manager, close}
use shadowchat.RoomStore.State.{
  Peer, SignalingState, disconnected, connecting, connected, RoomState,
}
use shadowchat.RoomStore.Basics.{Env, given, toast}

-- `token.split('.')[1]`, and the replacements of base64url.
unfoldable pub until_dot : String → String
until_dot String.[] = ""
until_dot (String.◌∷◌ c s) =
    let rest = until_dot s in if code c == 46 then "" else String.◌∷◌ c rest

unfoldable pub second_part : String → Option String
unfolding until_dot
second_part String.[] = none
second_part (String.◌∷◌ c s) =
    let later = second_part s in if code c == 46 then some (until_dot s) else later

abbrev pub from_url_char : Char → Char
from_url_char c = if code c == 45 then char 43 tt else if code c == 95 then char 47 tt else c

unfoldable pub from_base64url : String → String
from_base64url String.[] = ""
from_base64url (String.◌∷◌ c s) = String.◌∷◌ (from_url_char c) (from_base64url s)

-- `claims` is the `peer_id` of what `JSON.parse(window.atob(…))` gives, where it gives one.
abbrev pub claimed : (String → Option String) → Option String → Option String
claimed claims none = none
claimed claims (some part) = claims (from_base64url part)

abbrev pub or_drawn : Option String → String → String
or_drawn none drawn = drawn
or_drawn (some id) drawn = id

-- The peer id: of the state, else of the token, else drawn.
unfoldable pub active_peer_id : (String → Option String) → Option String → String → String → String
unfolding second_part from_base64url
active_peer_id claims own token drawn = elim (given own) [
  | some id ↦ id
  | none ↦ or_drawn (given (claimed claims (given (second_part token)))) drawn
]

abbrev pub is_connected : SignalingState → Bool
is_connected connected = true
is_connected connecting = false
is_connected disconnected = false

abbrev pub same_room : Option String → String → Bool
same_room none room = false
same_room (some r) room = str_eq r room

abbrev pub leave_client :
    Option (Client KeyExchangePacket)
    → List (Client KeyExchangePacket)
    → List (Client KeyExchangePacket)
leave_client none left = left
leave_client (some c) left = left ++ (disconnect_client c ∷ [])

module _ {Key DB : Type 0} where
  -- `connectSignaling` up to its wait for the keys. The flag tells whether it goes on: it does not
  -- where the store is connected or the same room is being connected.
  unfoldable pub begin_connect : String → RoomState Key DB → RoomState Key DB × Bool
  begin_connect room s =
      if is_connected s.signaling_state || same_room s.initializing_room_id room
      then (s, false)
      else (record s { initializing_room_id = some room }, true)

  -- Once the pairs are there; the id is drawn only if neither the state nor the token has one, but
  -- the count of draws goes up in any case.
  unfoldable pub set_identity :
      (String → Option String)
      → Env
      → String
      → String
      → Role
      → KeyPair Key
      → KeyPair Key
      → RoomState Key DB
      → RoomState Key DB
  unfolding active_peer_id
  set_identity claims env room token role x e s = record s {
    room_id = some room;
    token = some token;
    room_role = some role;
    peer_id = some (active_peer_id claims s.peer_id token (env.uuid s.draws));
    local_x25519_pair = some x;
    local_ed25519_pair = some e;
    signaling_state = connecting;
    draws = s.draws + 1;
  }

  -- The end: the client's `connect` has worked or not.
  unfoldable pub end_connect :
      Option (Client KeyExchangePacket) → RoomState Key DB → RoomState Key DB
  end_connect none s = record s { initializing_room_id = none }
  end_connect (some c) s = record s { signaling = some c; initializing_room_id = none }

  unfoldable pub on_connect : Env → Client KeyExchangePacket → RoomState Key DB → RoomState Key DB
  unfolding toast
  on_connect env c s =
      toast env success "Connected" "Zero-knowledge channel established with server."
        (record s { signaling = some c; signaling_state = connected })

  unfoldable pub on_disconnect : Env → RoomState Key DB → RoomState Key DB
  unfolding toast
  on_disconnect env s =
      let off = record s { signaling_state = disconnected } in
      if s.ui.page_leaving
      then off
      else toast env warning "Disconnected" "Signaling lost. Attempting auto-reconnect..." off

  -- `peer.pcManager?.close()`
  abbrev pub close_manager : Peer Key DB → List Manager → List Manager
  close_manager peer closed = elim peer.pc_manager [
    | none ↦ closed
    | some m ↦ closed ++ (close m ∷ [])
  ]

  -- `peers.forEach((p) => p.pcManager?.close())`
  unfoldable pub close_all : List (String × Peer Key DB) → List Manager → List Manager
  unfolding close
  close_all [] closed = closed
  close_all ((id, peer) ∷ rest) closed = close_all rest (close_manager peer closed)

  unfoldable pub disconnect_room : RoomState Key DB → RoomState Key DB
  unfolding close_all disconnect_client
  disconnect_room s = record s {
    closed_managers = close_all s.peers s.closed_managers;
    left_clients = leave_client s.signaling s.left_clients;
    room_id = none;
    room_code = none;
    room_role = none;
    room_config = none;
    token = none;
    peer_id = none;
    local_x25519_pair = none;
    local_ed25519_pair = none;
    signaling = none;
    signaling_state = disconnected;
    peers = [];
    messages = [];
    pending_transfers = [];
    active_transfers = [];
    transfer_blobs = [];
  }
