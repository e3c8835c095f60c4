-- ===== src/WebRtc/Restarts.antt =====
-- How often a connection negotiates again.
use shadowchat.Common.{
  ℕ, suc, ◌+◌, ◌≤◌, ◌<◌, ◌≡◌, List, [], ◌∷◌, ◌++◌, Option, none, some, String, Bool, true, false,
  ◌||◌, not, arith, leb, Bool-cases, inl, inr, if◌then◌else◌, str_eq,
}
use text.Mathlib.Text.{starts_with}
use shadowchat.Common.Results.{Result, ok, throws}
use shadowchat.Transfer.Control.{ChannelData}
use shadowchat.WebRtc.{
  ConnectionState, Channel, Signal, sent_offer, sent_answer, sent_candidate, Rtc, Manager,
  new_manager, max_restarts, fresh_channel, lanes, construct, make_offer, constructed_manager,
  open_channels, send_first_offer, set_up, send_answer, setup_control_channel, setup_data_channel,
  setup_lanes, initialize, on_data_channel, negotiation_needed, offer_made, handle_offer,
  handle_answer, on_ice_candidate, on_connection_state_change, on_control_open, on_channel_message,
  close,
}

-- One event at a connection. An event needs its hook, and the second half of a negotiation runs only
-- after its first half.
pub data Step : Manager → Manager → Type 0 where
  initializes : (rtc : Rtc) (m : Manager) → Step m (initialize rtc m).0
  takes_channel :
      (dc : Channel) (m : Manager) → m.takes_channels ≡ true → Step m (on_data_channel dc m)
  negotiates_again : (m : Manager) → m.negotiates ≡ true → Step m (negotiation_needed m)
  makes_offer : (r : Result String) (m : Manager) → m.pending_offer ≡ true → Step m (offer_made r m)
  takes_offer : (rtc : Rtc) (m : Manager) → Step m (handle_offer rtc m).0
  takes_answer : (rtc : Rtc) (m : Manager) → Step m (handle_answer rtc m).0
  finds_candidate : (c : Option String) (m : Manager) → Step m (on_ice_candidate c m)
  changes_state : (s : ConnectionState) (m : Manager) → Step m (on_connection_state_change s m)
  opens_control : (m : Manager) → Step m (on_control_open m)
  gets_message :
      (label : String) (d : ChannelData) (m : Manager) → Step m (on_channel_message label d m)
  closes : (m : Manager) → Step m (close m)

-- The number of calls of `initialize` after a step.
abbrev pub calls_after : {m n : Manager} → Step m n → ℕ → ℕ
calls_after (initializes rtc m) times = suc times
calls_after _ times = times

-- The states that a connection reaches with so many calls of `initialize`.
pub data IsReachable : ℕ → Manager → Type 0 where
  starts : (is_initiator : Bool) → IsReachable 0 (new_manager is_initiator)
  follows :
      {times : ℕ} {m n : Manager}
      → IsReachable times m
      → (step : Step m n) → IsReachable (calls_after step times) n

-- The offers among the signals that went out.
abbrev pub offers : List Signal → ℕ
offers [] = 0
offers (sent_offer sdp ∷ ss) = suc (offers ss)
offers (sent_answer sdp ∷ ss) = offers ss
offers (sent_candidate c ∷ ss) = offers ss

offers-append : (ss ts : List Signal) → offers (ss ++ ts) ≡ offers ss + offers ts
offers-append [] ts = omega arith
offers-append (sent_offer sdp ∷ ss) ts = omega (arith, offers-append ss ts)
offers-append (sent_answer sdp ∷ ss) ts = offers-append ss ts
offers-append (sent_candidate c ∷ ss) ts = offers-append ss ts

-- At most three restarts, and fewer while one more is on its way; and every offer that went out is the
-- first of a call of `initialize`, or a restart.
pub record IsBounded (times : ℕ) (m : Manager) : Type 0 where
  pub few : m.restart_count ≤ 3
  pub room_left : m.pending_offer ≡ true → m.restart_count < 3
  pub offered : offers m.signals ≤ times + m.restart_count

if-IsBounded :
    {times : ℕ} {m n : Manager} (b : Bool)
    → IsBounded times m
    → IsBounded times n
    → IsBounded times (if b then m else n)
if-IsBounded true hm hn = hm
if-IsBounded false hm hn = hn

if-IsBounded_pair :
    {times : ℕ} (m n : Manager × Result (Unit {0})) (b : Bool)
    → IsBounded times m.0
    → IsBounded times n.0
    → IsBounded times (if b then m else n).0
if-IsBounded_pair m n true hm hn = hm
if-IsBounded_pair m n false hm hn = hn

setup_lanes-IsBounded :
    {times : ℕ} (labels : List String) (m : Manager)
    → IsBounded times m
    → IsBounded times (setup_lanes labels m)
unfolding setup_lanes setup_data_channel
setup_lanes-IsBounded [] m b = b
setup_lanes-IsBounded (label ∷ labels) m b =
    setup_lanes-IsBounded labels (setup_data_channel (fresh_channel label) m)
      (record { few = b.few; room_left = b.room_left; offered = b.offered })

-- One more call that sent nothing.
once_more : {times : ℕ} {m : Manager} → IsBounded times m → IsBounded (suc times) m
once_more b = record { few = b.few; room_left = b.room_left; offered = omega (arith, b.offered) }

send_first_offer-IsBounded :
    {times : ℕ} (r : Result String) (m : Manager)
    → IsBounded times m
    → IsBounded (suc times) (send_first_offer r m).0
unfolding send_first_offer
send_first_offer-IsBounded (throws e) m b = once_more b
send_first_offer-IsBounded (ok sdp) m b = record {
  few = b.few;
  room_left = b.room_left;
  offered = omega (arith, offers-append m.signals (sent_offer sdp ∷ []), b.offered);
}

set_up-IsBounded :
    {times : ℕ} (r : Result (Unit {0})) (rtc : Rtc) (m : Manager)
    → IsBounded times m
    → IsBounded (suc times) (set_up r rtc m).0
unfolding set_up open_channels setup_control_channel
set_up-IsBounded (throws e) rtc m b = once_more b
set_up-IsBounded (ok u) rtc m b =
    if-IsBounded_pair _ _ m.is_initiator
      (send_first_offer-IsBounded (make_offer rtc) (open_channels m) (
        setup_lanes-IsBounded lanes
          (setup_control_channel (fresh_channel "control") (constructed_manager m))
          (record { few = b.few; room_left = b.room_left; offered = b.offered })))
      (record { few = b.few; room_left = b.room_left; offered = omega (arith, b.offered) })

send_answer-IsBounded :
    {times : ℕ} (r : Result String) (m : Manager)
    → IsBounded times m
    → IsBounded times (send_answer r m).0
unfolding send_answer
send_answer-IsBounded (throws e) m b = b
send_answer-IsBounded (ok sdp) m b = record {
  few = b.few;
  room_left = b.room_left;
  offered = omega (arith, offers-append m.signals (sent_answer sdp ∷ []), b.offered);
}

offer_made-IsBounded :
    {times : ℕ} (r : Result String) (m : Manager)
    → m.pending_offer ≡ true
    → IsBounded times m
    → IsBounded times (offer_made r m)
unfolding offer_made
offer_made-IsBounded (throws e) m h b = record {
  few = b.few;
  room_left = λ k. cc;
  offered = b.offered;
}
offer_made-IsBounded (ok sdp) m h b =
    let lt : m.restart_count < 3 = b.room_left h in
    record {
      few = omega arith;
      room_left = λ k. cc;
      offered = omega (arith, offers-append m.signals (sent_offer sdp ∷ []), b.offered);
    }

setup_control-IsBounded :
    {times : ℕ} (dc : Channel) (m : Manager)
    → IsBounded times m
    → IsBounded times (setup_control_channel dc m)
unfolding setup_control_channel
setup_control-IsBounded dc m b =
    if-IsBounded dc.state_open
      (record { few = b.few; room_left = b.room_left; offered = b.offered })
      (record { few = b.few; room_left = b.room_left; offered = b.offered })

on_data_channel-IsBounded :
    {times : ℕ} (dc : Channel) (m : Manager)
    → IsBounded times m
    → IsBounded times (on_data_channel dc m)
unfolding on_data_channel setup_data_channel
on_data_channel-IsBounded dc m b =
    if-IsBounded (str_eq dc.label "control") (setup_control-IsBounded dc m b) (
      if-IsBounded (starts_with dc.label "data-")
        (record { few = b.few; room_left = b.room_left; offered = b.offered }) b)

negotiation_needed-IsBounded :
    {times : ℕ} (m : Manager) → IsBounded times m → IsBounded times (negotiation_needed m)
unfolding negotiation_needed
negotiation_needed-IsBounded m b =
    elim (Bool-cases (not m.pc || (m.pending_offer || leb max_restarts m.restart_count))) [
      | inl stop ↦ rw stop b
      | inr go ↦
          rw go (record { few = b.few; room_left = λ h. ground (arith, go); offered = b.offered })
    ]

candidate-IsBounded :
    {times : ℕ} (c : Option String) (m : Manager)
    → IsBounded times m
    → IsBounded times (on_ice_candidate c m)
unfolding on_ice_candidate
candidate-IsBounded none m b = b
candidate-IsBounded (some c) m b = record {
  few = b.few;
  room_left = b.room_left;
  offered = omega (arith, offers-append m.signals (sent_candidate c ∷ []), b.offered);
}

Step-IsBounded :
    {times : ℕ} {m n : Manager} (step : Step m n)
    → IsBounded times m
    → IsBounded (calls_after step times) n
unfolding initialize handle_offer handle_answer on_connection_state_change on_control_open
    on_channel_message close
Step-IsBounded (initializes rtc m) b = set_up-IsBounded (construct rtc) rtc m b
Step-IsBounded (takes_channel dc m h) b = on_data_channel-IsBounded dc m b
Step-IsBounded (negotiates_again m h) b = negotiation_needed-IsBounded m b
Step-IsBounded (makes_offer r m h) b = offer_made-IsBounded r m h b
Step-IsBounded (takes_offer rtc m) b = if-IsBounded_pair _ _ m.pc (send_answer-IsBounded _ m b) b
Step-IsBounded (takes_answer rtc m) b = if-IsBounded_pair _ _ m.pc b b
Step-IsBounded (finds_candidate c m) b = candidate-IsBounded c m b
Step-IsBounded (changes_state s m) b =
    if-IsBounded m.pc (record { few = b.few; room_left = b.room_left; offered = b.offered }) b
Step-IsBounded (opens_control m) b = record {
  few = b.few;
  room_left = b.room_left;
  offered = b.offered;
}
Step-IsBounded (gets_message label d m) b = record {
  few = b.few;
  room_left = b.room_left;
  offered = b.offered;
}
Step-IsBounded (closes m) b = record { few = b.few; room_left = b.room_left; offered = b.offered }

-- In every state that a connection reaches, its count of restarts is at most three, and below three
-- while one more offer is on its way; and the offers that went out are at most one for each call of
-- `initialize` and one for each restart.
pub IsReachable-IsBounded : {times : ℕ} {m : Manager} → IsReachable times m → IsBounded times m
IsReachable-IsBounded (starts is_initiator) = record {
  few = omega arith;
  room_left = λ h. omega arith;
  offered = omega arith;
}
IsReachable-IsBounded (follows r step) = Step-IsBounded step (IsReachable-IsBounded r)
