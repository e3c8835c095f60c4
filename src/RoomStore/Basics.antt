-- ===== src/RoomStore/Basics.antt =====
-- What every part of frontend/src/stores/roomStore.ts uses: the surroundings of a step, texts that are
-- given or not, toasts, numbers in texts, and the state of a control channel.
use Prim.Native.String.{◌++◌ as str_append}
use shadowchat.Common.{
  ℕ, ◌+◌, ◌/◌, ◌%◌, [], ◌∷◌, ◌++◌, Option, none, some, String, Bool, true, false, ltb, ◌==◌, str_eq,
  if◌then◌else◌,
}
use shadowchat.Common.Dict
use shadowchat.Common.Results.{Result}
use shadowchat.Platform.Crypto.{Bytes}
use shadowchat.Transfer.Send.{World}
use shadowchat.UiStore.{ToastKind, show_toast}
use shadowchat.WebRtc.{Rtc}
use shadowchat.RoomStore.State.{Peer, FileNote, RoomFrame, RoomState}

-- What a step finds outside: the time, the ids and bytes of the n-th random draw, the `readyState` of
-- a peer's control channel and how a `send` on it ends, the calls of the browser's peer connections,
-- the rounds of a stream of chunks, and the text of a file note.
pub record Env : Type 0 where
  pub now : ℕ
  pub uuid : ℕ → String
  pub random : ℕ → Bytes
  pub ready_state : String → String
  pub sends : String → Result (Unit {0})
  pub rtc : Rtc
  pub stream : World
  pub stringify_file : FileNote → String
  pub parse_file : String → Option FileNote

-- A text counts as given if it is there and not empty.
abbrev pub given : Option String → Option String
given none = none
given (some s) = if str_eq s "" then none else some s

-- `s.substring(0, n)`, by characters.
unfoldable pub first_chars : ℕ → String → String
first_chars ℕ.zero s = ""
first_chars (ℕ.suc n) String.[] = ""
first_chars (ℕ.suc n) (String.◌∷◌ c s) = String.◌∷◌ c (first_chars n s)

infixr 65 ◌+s◌
abbrev pub ◌+s◌ : String → String → String
s +s t = str_append s t

abbrev pub short_name : String → String
short_name id = first_chars 8 id

unfoldable pub digit : ℕ → String
digit d =
    if d == 0
    then "0"
    else if d == 1
    then "1"
    else if d == 2
    then "2"
    else if d == 3
    then "3"
    else if d == 4
    then "4"
    else if d == 5
    then "5"
    else if d == 6
    then "6"
    else if d == 7
    then "7"
    else if d == 8
    then "8"
    else "9"

-- A number in a template: more rounds than it has digits.
unfoldable pub digits : ℕ → ℕ → String
unfolding digit
digits ℕ.zero n = ""
digits (ℕ.suc rounds) n = elim (ltb n 10) [
  | true ↦ digit n
  | false ↦ digits rounds (n / 10) +s digit (n % 10)
]

abbrev pub decimal : ℕ → String
decimal n = digits (n + 1) n

-- `readyState === 'open'`, of a channel that may be missing.
abbrev pub is_open_state : Option String → Bool
is_open_state none = false
is_open_state (some state) = str_eq state "open"

module _ {Key DB : Type 0} where
  -- `updatedPeers.get(id)` and a change of the object, if it is there.
  unfoldable pub update_peer :
      String → (Peer Key DB → Peer Key DB) → RoomState Key DB → RoomState Key DB
  update_peer id f s = elim (Dict.get id s.peers) [
    | none ↦ s
    | some peer ↦ record s { peers = Dict.set id (f peer) s.peers }
  ]

  -- `useUIStore.getState().showToast(…)`, which draws the id of the toast.
  unfoldable pub toast : Env → ToastKind → String → String → RoomState Key DB → RoomState Key DB
  unfolding show_toast
  toast env kind title message s = record s {
    ui =
        show_toast
          (record {
            id = env.uuid s.draws;
            kind = kind;
            title = title;
            message = message;
            duration_ms = none;
          })
          s.ui;
    draws = s.draws + 1;
  }

  -- `peer.pcManager?.controlChannel?.readyState`
  abbrev pub line_state : Env → Peer Key DB → Option String
  line_state env peer = elim peer.pc_manager [
    | none ↦ none
    | some m ↦ elim m.control_channel [ none ↦ none | some dc ↦ some (env.ready_state peer.id) ]
  ]

  unfoldable pub line_open : Env → Peer Key DB → Bool
  line_open env peer = is_open_state (line_state env peer)

  -- `controlChannel.send(…)`, once it has returned.
  abbrev pub put_on_line : String → RoomFrame → RoomState Key DB → RoomState Key DB
  put_on_line id frame s = record s { sent = s.sent ++ ((id, frame) ∷ []) }
