-- ===== src/WebRtc/Tests.antt =====
-- Runs of the connection manager.
use shadowchat.Common.{ℕ, ◌≡◌, refl, true, some}
use shadowchat.Common.Results.{ok, throws}
use shadowchat.Transfer.Send.{channel_label}
use shadowchat.WebRtc.{
  Rtc, Manager, new_manager, fresh_channel, send_first_offer, set_up, initialize, open_channels,
  setup_control_channel, setup_lanes, setup_data_channel, negotiation_needed, offer_made,
}
use shadowchat.WebRtc.Channels.{HasLane, initialize-HasLane}
use shadowchat.WebRtc.Restarts.{
  starts, follows, initializes, negotiates_again, makes_offer, IsBounded, IsReachable-IsBounded,
}

-- The configured servers are refused, and all else works.
abbrev rtc : Rtc
rtc = record {
  constructed = throws "bad server";
  fallback = ok tt;
  offered = ok "offer";
  answered = ok "answer";
  local_set = ok tt;
  remote_set = ok tt;
}

set_up_works : (initialize rtc (new_manager true)).1 ≡ ok tt
unfolding initialize set_up send_first_offer
set_up_works = refl

initialize-HasLane_example :
    ((i : ℕ) → HasLane (initialize rtc (new_manager true)).0 (channel_label i))
    × ((initialize rtc (new_manager true)).0.control_channel ≡ some (fresh_channel "control"))
initialize-HasLane_example = initialize-HasLane rtc (new_manager true) refl set_up_works

abbrev ready : Manager
ready = (initialize rtc (new_manager true)).0

hooked : ready.negotiates ≡ true
unfolding initialize set_up send_first_offer
hooked = refl

asked : (negotiation_needed ready).pending_offer ≡ true
unfolding initialize set_up open_channels setup_control_channel setup_lanes setup_data_channel
    send_first_offer negotiation_needed
asked = refl

IsReachable-IsBounded_example : IsBounded 1 (offer_made (ok "again") (negotiation_needed ready))
IsReachable-IsBounded_example = IsReachable-IsBounded (
    follows
      (follows (follows (starts true) (initializes rtc (new_manager true)))
        (negotiates_again ready hooked))
      (makes_offer (ok "again") (negotiation_needed ready) asked))
