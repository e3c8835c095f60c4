-- ===== src/RoomStore/Setup.antt =====
-- `setupWebRTCPeer` of frontend/src/stores/roomStore.ts, and the callbacks of its `PeerConnectionManager`. The
-- setup has three steps, between which other handlers run: up to the wait for the TURN route, up to
-- the wait for `initialize`, and the rest. Its captured client is the one of the store, as long as
-- the store has one.
use shadowchat.Common.{List, [], ◌∷◌, ◌++◌, Option, none, some, String, Bool, if◌then◌else◌}
use shadowchat.Common.Dict
use shadowchat.Common.Results.{Result, ok, throws}
use shadowchat.Platform.{Platform}
use shadowchat.Platform.Crypto.{KeyPair}
use shadowchat.Crypto.{KeyExchangePacket, prepare_key_exchange}
use shadowchat.Signaling.State.{Client}
use shadowchat.Signaling.{send}
use shadowchat.WebRtc.{Manager, ConnectionState, new_manager, initialize}
use shadowchat.RoomStore.State.{
  Peer, connecting, key_exchanging, connected, failed, online, key_frame, IceServer, RoomState,
}
use shadowchat.RoomStore.Basics.{Env, given, update_peer, line_open, put_on_line}
use shadowchat.RoomStore.Peers.{pc_manager_of, set_manager, on_manager, drain, flush}

-- What `setupWebRTCPeer` takes from the state before its first wait.
pub record Setup (Key : Type 0) : Type 0 where
  pub room : String
  pub token : String
  pub x25519_pair : KeyPair Key
  pub ed25519_pair : KeyPair Key

-- The manager of the setup, as the peer has it, or as it was made.
abbrev pub own_manager : Bool → Option Manager → Manager
own_manager is_initiator none = new_manager is_initiator
own_manager is_initiator (some m) = m

module _ {Key : Type 0} where
  abbrev pub setup_of :
      Option String
      → Option String
      → Option (Client KeyExchangePacket)
      → Option (KeyPair Key)
      → Option (KeyPair Key)
      → Option (Setup Key)
  setup_of (some room) (some token) (some client) (some x) (some e) =
      some (record { room = room; token = token; x25519_pair = x; ed25519_pair = e })
  setup_of none _ _ _ _ = none
  setup_of (some room) none _ _ _ = none
  setup_of (some room) (some token) none _ _ = none
  setup_of (some room) (some token) (some client) none _ = none
  setup_of (some room) (some token) (some client) (some x) none = none

module _ {Key DB : Type 0} where
  -- The placeholder of `setupWebRTCPeer`.
  abbrev pub placeholder : String → Bool → Peer Key DB
  placeholder id is_initiator = record {
    id = id;
    is_initiator = is_initiator;
    pc_manager = none;
    transfer_coordinator = none;
    room_key = none;
    status = connecting;
    presence = online;
  }

  abbrev pub requirements : RoomState Key DB → Option (Setup Key)
  requirements s =
      setup_of (given s.room_id) (given s.token) s.signaling s.local_x25519_pair
        s.local_ed25519_pair

  -- Up to the wait for the TURN route. `none`: the function has returned.
  unfoldable pub begin_setup :
      String → Bool → RoomState Key DB → RoomState Key DB × Option (Setup Key)
  begin_setup id is_initiator s = elim (requirements s) [
    | none ↦ (s, none)
    | some setup ↦
        if Dict.has id s.peers
        then (s, none)
        else (record s { peers = Dict.set id (placeholder id is_initiator) s.peers }, some setup)
  ]

  -- From the answer of the TURN route up to the wait for `initialize`: the manager is made, and set
  -- where the peer is still there.
  unfoldable pub attach_manager :
      Setup Key → String → Bool → List IceServer → RoomState Key DB → RoomState Key DB
  unfolding update_peer
  attach_manager setup id is_initiator servers s =
      update_peer id (set_manager (new_manager is_initiator)) (record s {
        created =
            s.created
            ++ (record {
              remote = id;
              room = setup.room;
              is_initiator = is_initiator;
              ice_servers = servers;
            }
                ∷ []);
      })

  -- `onStateChange`
  unfoldable pub on_state_change : String → ConnectionState → RoomState Key DB → RoomState Key DB
  unfolding drain update_peer
  on_state_change id ConnectionState.connected s =
      update_peer id
        (λ peer. record peer {
          status = elim peer.room_key [ none ↦ key_exchanging | some key ↦ connected ];
        })
        s
  on_state_change id ConnectionState.failed s = elim (Dict.get id s.peers) [
    | none ↦ s
    | some peer ↦ drain id (update_peer id (λ q. record q { status = failed }) s)
  ]
  on_state_change id ConnectionState.closed s = elim (Dict.get id s.peers) [
    | none ↦ s
    | some peer ↦ record (drain id s) { peers = Dict.delete id s.peers }
  ]
  on_state_change id ConnectionState.disconnected s = elim (Dict.get id s.peers) [
    | none ↦ s
    | some peer ↦ record (drain id s) { peers = Dict.delete id s.peers }
  ]
  on_state_change id ConnectionState.connecting s = s

  -- `signaling?.send('key-exchange', roomId, id, { payload })`
  abbrev pub signal_packet :
      String → String → KeyExchangePacket → RoomState Key DB → RoomState Key DB
  signal_packet room id packet s = record s {
    signaling = elim s.signaling [
      | none ↦ none
      | some c ↦ some (send "key-exchange" room (some id) (("payload", packet) ∷ []) c)
    ];
  }

module _ {Key DB : Type 0} (p : Platform Key DB) (env : Env) where
  -- `setupWebRTCPeer` after `initialize`: the keys go out and the queue is flushed.
  abbrev pub announce_keys :
      String → String → Result KeyExchangePacket → RoomState Key DB → RoomState Key DB
  announce_keys room id (throws e) s = s
  announce_keys room id (ok packet) s = flush p env id (
      update_peer id (λ peer. record peer { status = key_exchanging })
        (signal_packet room id packet s))

  abbrev pub after_initialize :
      Setup Key → String → Result (Unit {0}) → RoomState Key DB → RoomState Key DB
  after_initialize setup id (throws e) s = s
  after_initialize setup id (ok u) s =
      announce_keys setup.room id
        (prepare_key_exchange p.crypto p.codec setup.x25519_pair setup.ed25519_pair) s

  -- The manager of the setup is a variable of the function: where the peer has gone meanwhile, what
  -- `initialize` does to it is lost.
  unfoldable pub complete_setup : Setup Key → String → Bool → RoomState Key DB → RoomState Key DB
  unfolding pc_manager_of on_manager update_peer flush
  complete_setup setup id is_initiator s =
      after_initialize setup id
        (initialize env.rtc (own_manager is_initiator (pc_manager_of id s))).1
        (on_manager (λ m. (initialize env.rtc m).0) id s)

  -- `onControlChannelOpen`
  abbrev pub tell_packet :
      String → Peer Key DB → String → Result KeyExchangePacket → RoomState Key DB → RoomState Key DB
  tell_packet id peer room (throws e) s = s
  tell_packet id peer room (ok packet) s =
      let signaled = signal_packet room id packet s in
      if line_open env peer
      then elim (env.sends id) [
        | throws e ↦ signaled
        | ok u ↦ put_on_line id (key_frame (some packet)) signaled
      ]
      else signaled

  abbrev pub exchange_on_open :
      String
      → Peer Key DB
      → Option (KeyPair Key)
      → Option (KeyPair Key)
      → Option String
      → RoomState Key DB
      → RoomState Key DB
  exchange_on_open id peer (some x) (some e) (some room) s =
      tell_packet id peer room (prepare_key_exchange p.crypto p.codec x e) s
  exchange_on_open id peer none _ _ s = s
  exchange_on_open id peer (some x) none _ s = s
  exchange_on_open id peer (some x) (some e) none s = s

  abbrev pub opened_with : String → Peer Key DB → Option Key → RoomState Key DB → RoomState Key DB
  opened_with id peer (some key) s = update_peer id (λ q. record q { status = connected }) s
  opened_with id peer none s =
      exchange_on_open id peer s.local_x25519_pair s.local_ed25519_pair (given s.room_id) s

  unfoldable pub on_control_channel_open : String → RoomState Key DB → RoomState Key DB
  unfolding update_peer line_open
  on_control_channel_open id s = elim (Dict.get id s.peers) [
    | none ↦ s
    | some peer ↦ opened_with id peer peer.room_key s
  ]
