-- ===== src/RoomStore/Controls.antt =====
-- The REST actions of frontend/src/stores/roomStore.ts: `createRoom`, `joinRoom`, and the owner's controls.
-- The answers of the backend are arguments; requests, which carry no state, are not modelled.
use shadowchat.Common.{◌+◌, Option, none, some, String, Bool, true, false, if◌then◌else◌}
use shadowchat.Common.Results.{Result, ok, throws}
use shadowchat.Platform.{Platform}
use shadowchat.Platform.Crypto.{Bytes}
use shadowchat.Platform.Tables.{Role, owner, member, StoredRoom}
use shadowchat.Storage.{save_room}
use shadowchat.UiStore.{info, success}
use shadowchat.RoomStore.State.{RoomConfig, RoomState}
use shadowchat.RoomStore.Basics.{Env, given, toast}
use shadowchat.RoomStore.Session.{disconnect_room}

-- The `room` of an answer with its token.
pub record RoomAnswer : Type 0 where
  pub id : String
  pub room_code : String
  pub config : RoomConfig
  pub token : String

-- How `fetch` and its JSON end: a rejection, a status that is not ok with the `error` of the body, or
-- the room.
pub data RestAnswer : Type 0 where
  rejected : String → RestAnswer
  not_ok : Option String → RestAnswer
  answered : RoomAnswer → RestAnswer

abbrev pub or_message : Option String → String → String
or_message none message = message
or_message (some e) message = e

abbrev pub is_owner : Option Role → Bool
is_owner none = false
is_owner (some owner) = true
is_owner (some member) = false

-- `{ ...s.roomConfig, is_locked }`
abbrev pub with_lock : Bool → Option RoomConfig → RoomConfig
with_lock locked none = record {
  is_locked = some locked;
  max_members = none;
  encrypted_name = none;
  encrypted_config = none;
}
with_lock locked (some c) = record c { is_locked = some locked }

module _ {Key DB : Type 0} where
  abbrev pub enter_room : Role → String → RoomAnswer → RoomState Key DB → RoomState Key DB
  enter_room role peer_id a s = record s {
    room_id = some a.id;
    room_code = some a.room_code;
    room_role = some role;
    room_config = some a.config;
    token = some a.token;
    peer_id = some peer_id;
  }

  abbrev pub set_lock : Bool → RoomState Key DB → RoomState Key DB
  set_lock locked s = record s { room_config = some (with_lock locked s.room_config) }

  -- The guards that the three controls share: `none` where the control returns at once.
  abbrev pub may_control : RoomState Key DB → Option (String × String)
  may_control s =
      if is_owner s.room_role
      then elim (given s.room_id) [
        | none ↦ none
        | some room ↦ elim (given s.token) [ none ↦ none | some token ↦ some (room, token) ]
      ]
      else none

  -- The answer of the backend is `res.ok`.
  unfoldable pub lock_room : Env → Bool → RoomState Key DB → RoomState Key DB
  unfolding toast
  lock_room env res_ok s = elim (may_control s) [
    | none ↦ s
    | some target ↦
        if res_ok
        then toast env info "Room Locked" "No new members can join this room." (set_lock true s)
        else s
  ]

  unfoldable pub unlock_room : Env → Bool → RoomState Key DB → RoomState Key DB
  unfolding toast
  unlock_room env res_ok s = elim (may_control s) [
    | none ↦ s
    | some target ↦
        if res_ok
        then toast env info "Room Unlocked" "New members can now join." (set_lock false s)
        else s
  ]

  unfoldable pub destroy_room : Env → Bool → RoomState Key DB → RoomState Key DB
  unfolding toast disconnect_room
  destroy_room env res_ok s = elim (may_control s) [
    | none ↦ s
    | some target ↦
        if res_ok
        then toast env success "Room Destroyed"
            "Ephemeral credentials cleared. All secure metadata deleted." (disconnect_room s)
        else s
  ]

abbrev pub or_text : Option String → String
or_text none = ""
or_text (some s) = s

module _ {Key DB : Type 0} (p : Platform Key DB) (env : Env) where
  abbrev pub room_row : Role → String → String → RoomAnswer → StoredRoom
  room_row role name config a = record {
    id = a.id;
    room_code = a.room_code;
    encrypted_name = name;
    encrypted_config = config;
    joined_at = env.now;
    role = role;
    room_key = none;
  }

  -- `saveRoom`, after the state is set.
  unfoldable pub keep_room : StoredRoom → RoomState Key DB → RoomState Key DB
  keep_room row s = record s { db = save_room p.dexie row s.db }

  -- The ids of the peer and of the room are drawn in this order.
  unfoldable pub create_room :
      Bytes → Bytes → RestAnswer → RoomState Key DB → RoomState Key DB × Result String
  unfolding keep_room
  create_room encrypted_name encrypted_config (rejected e) s =
      (record s { draws = s.draws + 2 }, throws e)
  create_room encrypted_name encrypted_config (not_ok e) s = (
    record s { draws = s.draws + 2 },
    throws (or_message (given e) "Failed to create secure room"),
  )
  create_room encrypted_name encrypted_config (answered a) s = (
    keep_room (room_row owner (p.codec.btoa encrypted_name) (p.codec.btoa encrypted_config) a)
        (enter_room owner (env.uuid s.draws) a (record s { draws = s.draws + 2 })),
    ok a.room_code,
  )

  unfoldable pub join_room : RestAnswer → RoomState Key DB → RoomState Key DB × Result String
  unfolding keep_room
  join_room (rejected e) s = (record s { draws = s.draws + 1 }, throws e)
  join_room (not_ok e) s =
      (record s { draws = s.draws + 1 }, throws (or_message (given e) "Failed to join secure room"))
  join_room (answered a) s = (
    keep_room
        (room_row member (or_text a.config.encrypted_name) (or_text a.config.encrypted_config) a)
        (enter_room member (env.uuid s.draws) a (record s { draws = s.draws + 1 })),
    ok a.id,
  )
