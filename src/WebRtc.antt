-- ===== src/WebRtc.antt =====
-- frontend/src/lib/engines/webrtc.ts: `PeerConnectionManager`. What the methods of
-- `RTCPeerConnection` give is an argument, `Rtc`. Logging and the wait for ICE gathering, which
-- nothing calls, are not modelled.
pub mod Channels
pub mod Restarts
pub mod Tests
use shadowchat.Common.{
  ℕ, ◌+◌, List, [], ◌∷◌, ◌++◌, Option, none, some, String, Bool, true, false, ◌||◌, not, leb,
  str_eq, if◌then◌else◌,
}
use text.Mathlib.Text.{starts_with}
use shadowchat.Common.Dict
use shadowchat.Common.Dict.{Dict}
use shadowchat.Common.Results.{Result, ok, throws, ◌>>=◌}
use shadowchat.Transfer.Control.{ChannelData}

pub data ConnectionState : Type 0 where
  connecting connected disconnected failed closed : ConnectionState

-- An `RTCDataChannel`, as the manager sees it when it is set up.
pub record Channel : Type 0 where
  pub label : String
  pub state_open : Bool

-- What goes to the other peer through the signaling client, with its kind.
pub data Signal : Type 0 where
  sent_offer sent_answer sent_candidate : String → Signal

-- The calls of the owner's callbacks.
pub data Report : Type 0 where
  state_changed : ConnectionState → Report
  got_message : String → ChannelData → Report
  control_opened : Report

-- How the calls of the browser end: the constructor with the configured servers and with the public
-- one, the descriptions, and a candidate.
pub record Rtc : Type 0 where
  pub constructed : Result (Unit {0})
  pub fallback : Result (Unit {0})
  pub offered : Result String
  pub answered : Result String
  pub local_set : Result (Unit {0})
  pub remote_set : Result (Unit {0})

-- `pc` tells whether there is a connection, and the two flags which of its hooks are set.
pub record Manager : Type 0 where
  pub pc : Bool
  pub control_channel : Option Channel
  pub data_channels : Dict Channel
  pub is_initiator : Bool
  pub restart_count : ℕ
  pub pending_offer : Bool
  pub negotiates : Bool
  pub takes_channels : Bool
  pub signals : List Signal
  pub reports : List Report

abbrev pub max_restarts : ℕ
max_restarts = 3

abbrev pub new_manager : Bool → Manager
new_manager is_initiator = record {
  pc = false;
  control_channel = none;
  data_channels = [];
  is_initiator = is_initiator;
  restart_count = 0;
  pending_offer = false;
  negotiates = false;
  takes_channels = false;
  signals = [];
  reports = [];
}

abbrev pub report : Report → Manager → Manager
report r m = record m { reports = m.reports ++ (r ∷ []) }

abbrev pub signal : Signal → Manager → Manager
signal s m = record m { signals = m.signals ++ (s ∷ []) }

unfoldable pub setup_control_channel : Channel → Manager → Manager
setup_control_channel dc m =
    let set = record m { control_channel = some dc } in
    if dc.state_open then report control_opened set else set

unfoldable pub setup_data_channel : Channel → Manager → Manager
setup_data_channel dc m = record m { data_channels = Dict.set dc.label dc m.data_channels }

-- `createDataChannel`: a fresh channel is not open yet.
abbrev pub fresh_channel : String → Channel
fresh_channel label = record { label = label; state_open = false }

-- The four lanes of the loop in `initialize`.
unfoldable pub setup_lanes : List String → Manager → Manager
unfolding setup_data_channel
setup_lanes [] m = m
setup_lanes (label ∷ labels) m = setup_lanes labels (setup_data_channel (fresh_channel label) m)

abbrev pub lanes : List String
lanes = "data-0" ∷ "data-1" ∷ "data-2" ∷ "data-3" ∷ []

-- `new RTCPeerConnection(config)`, with the public server where it throws.
abbrev pub construct : Rtc → Result (Unit {0})
construct rtc = elim rtc.constructed [ ok u ↦ ok tt | throws e ↦ rtc.fallback ]

-- `createOffer` and `setLocalDescription`: the text of the offer.
abbrev pub make_offer : Rtc → Result String
make_offer rtc = rtc.offered >>= λ sdp. rtc.local_set >>= λ u. ok sdp

-- The end of `initialize` for the initiator: where the offer fails, the hook stays off.
unfoldable pub send_first_offer : Result String → Manager → Manager × Result (Unit {0})
send_first_offer (throws e) m = (m, throws e)
send_first_offer (ok sdp) m = (record (signal (sent_offer sdp) m) { negotiates = true }, ok tt)

abbrev pub constructed_manager : Manager → Manager
constructed_manager m = record m {
  pc = true;
  negotiates = false;
  takes_channels = not m.is_initiator;
}

-- The control channel and the four lanes, before the offer.
unfoldable pub open_channels : Manager → Manager
unfolding setup_control_channel setup_lanes
open_channels m =
    setup_lanes lanes (setup_control_channel (fresh_channel "control") (constructed_manager m))

-- `initialize` once the constructor has returned or thrown.
unfoldable pub set_up : Result (Unit {0}) → Rtc → Manager → Manager × Result (Unit {0})
unfolding open_channels send_first_offer
set_up (throws e) rtc m = (m, throws e)
set_up (ok u) rtc m =
    if m.is_initiator
    then send_first_offer (make_offer rtc) (open_channels m)
    else (record (constructed_manager m) { negotiates = true }, ok tt)

unfoldable pub initialize : Rtc → Manager → Manager × Result (Unit {0})
unfolding set_up
initialize rtc m = set_up (construct rtc) rtc m

-- `ondatachannel`
unfoldable pub on_data_channel : Channel → Manager → Manager
unfolding setup_control_channel setup_data_channel
on_data_channel dc m =
    if str_eq dc.label "control"
    then setup_control_channel dc m
    else if starts_with dc.label "data-"
    then setup_data_channel dc m
    else m

-- `onnegotiationneeded` up to its first wait, and from there on. After `close` the second half fails.
unfoldable pub negotiation_needed : Manager → Manager
negotiation_needed m =
    if not m.pc || (m.pending_offer || leb max_restarts m.restart_count)
    then m
    else record m { pending_offer = true }

unfoldable pub offer_made : Result String → Manager → Manager
offer_made (throws e) m = record m { pending_offer = false }
offer_made (ok sdp) m = record (signal (sent_offer sdp) m) {
  restart_count = m.restart_count + 1;
  pending_offer = false;
}

unfoldable pub send_answer : Result String → Manager → Manager × Result (Unit {0})
send_answer (throws e) m = (m, throws e)
send_answer (ok sdp) m = (signal (sent_answer sdp) m, ok tt)

unfoldable pub handle_offer : Rtc → Manager → Manager × Result (Unit {0})
unfolding send_answer
handle_offer rtc m =
    if m.pc
    then send_answer (rtc.remote_set >>= λ u. rtc.answered >>= λ sdp. rtc.local_set >>= λ v. ok sdp)
        m
    else (m, ok tt)

unfoldable pub handle_answer : Rtc → Manager → Manager × Result (Unit {0})
handle_answer rtc m = if m.pc then (m, rtc.remote_set) else (m, ok tt)

-- A candidate that the connection refuses is only logged, so nothing changes in any case.
unfoldable pub add_ice_candidate : Rtc → Manager → Manager × Result (Unit {0})
add_ice_candidate rtc m = (m, ok tt)

-- `onicecandidate`
unfoldable pub on_ice_candidate : Option String → Manager → Manager
on_ice_candidate none m = m
on_ice_candidate (some candidate) m = signal (sent_candidate candidate) m

-- `onconnectionstatechange`
unfoldable pub on_connection_state_change : ConnectionState → Manager → Manager
on_connection_state_change s m = if m.pc then report (state_changed s) m else m

-- `onopen` of the control channel, and `onmessage` of any channel.
unfoldable pub on_control_open : Manager → Manager
on_control_open m = report control_opened m

unfoldable pub on_channel_message : String → ChannelData → Manager → Manager
on_channel_message label content m = report (got_message label content) m

unfoldable pub close : Manager → Manager
close m = record m { control_channel = none; data_channels = []; pc = false }
