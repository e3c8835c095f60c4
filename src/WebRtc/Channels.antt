-- ===== src/WebRtc/Channels.antt =====
-- The channels that `initialize` opens, and the lanes that `streamOutgoing` sends on.
use shadowchat.Common.{
  ℕ, ◌%◌, ◌≡◌, refl, ap, ◌∙◌, List, [], ◌∷◌, some, String, Bool, true, false, is_some,
  if◌then◌else◌, str_eq, ◌==◌, Bool-cases, inl, inr,
}
use shadowchat.Common.Dict
use shadowchat.Common.Dict.{Dict}
use shadowchat.Common.Results.{Result, ok, throws}
use shadowchat.Transfer.Send.{channel_label}
use shadowchat.WebRtc.{
  Channel, Rtc, Manager, fresh_channel, lanes, construct, make_offer, setup_control_channel,
  setup_data_channel, setup_lanes, constructed_manager, open_channels, send_first_offer, set_up,
  initialize,
}

has-set_self : (k : String) (v : Channel) (m : Dict Channel) → Dict.has k (Dict.set k v m) ≡ true
unfolding Dict.has
has-set_self k v m = ap is_some (Dict.get-set_self k v m)

has-set :
    (k j : String) (v : Channel) (m : Dict Channel)
    → Dict.has j m ≡ true
    → Dict.has j (Dict.set k v m) ≡ true
unfolding Dict.has
has-set k j v m h = elim (Bool-cases (str_eq k j)) [
  | inl t ↦ rw (Dict.get-set k j v m, t) refl
  | inr f ↦ rw (Dict.get-set k j v m, f) h
]

-- There is a data channel with the label.
abbrev pub HasLane : Manager → String → Type 0
HasLane m label = Dict.has label m.data_channels ≡ true

setup_lanes-HasLane :
    (label : String) (labels : List String) (m : Manager)
    → HasLane m label
    → HasLane (setup_lanes labels m) label
unfolding setup_lanes setup_data_channel
setup_lanes-HasLane label [] m h = h
setup_lanes-HasLane label (l ∷ labels) m h =
    setup_lanes-HasLane label labels (setup_data_channel (fresh_channel l) m)
      (has-set l label (fresh_channel l) m.data_channels h)

-- A lane that is set up is there at the end.
lane_lem :
    (label : String) (labels : List String) (m : Manager)
    → HasLane (setup_lanes (label ∷ labels) m) label
unfolding setup_lanes setup_data_channel
lane_lem label labels m =
    setup_lanes-HasLane label labels (setup_data_channel (fresh_channel label) m)
      (has-set_self label (fresh_channel label) m.data_channels)

if-holds : (P : String → Type 0) (b : Bool) {s t : String} → P s → P t → P (if b then s else t)
if-holds P true hs ht = hs
if-holds P false hs ht = ht

all_lanes : (i : ℕ) (m : Manager) → HasLane (setup_lanes lanes m) (channel_label i)
unfolding setup_lanes channel_label
all_lanes i m =
    let d0 = lane_lem "data-0" ("data-1" ∷ "data-2" ∷ "data-3" ∷ []) m in
    let m1 : Manager = setup_data_channel (fresh_channel "data-0") m in
    let d1 = lane_lem "data-1" ("data-2" ∷ "data-3" ∷ []) m1 in
    let m2 : Manager = setup_data_channel (fresh_channel "data-1") m1 in
    let d2 = lane_lem "data-2" ("data-3" ∷ []) m2 in
    let d3 = lane_lem "data-3" [] (setup_data_channel (fresh_channel "data-2") m2) in
    if-holds (HasLane (setup_lanes lanes m)) (i % 4 == 0) d0 (
      if-holds (HasLane (setup_lanes lanes m)) (i % 4 == 1) d1
        (if-holds (HasLane (setup_lanes lanes m)) (i % 4 == 2) d2 d3))

no_false : false ≡ true → ⊥
no_false h = cc

first_offer-lanes :
    (r : Result String) (m : Manager)
    → (send_first_offer r m).1 ≡ ok tt
    → ((send_first_offer r m).0.data_channels ≡ m.data_channels)
      × ((send_first_offer r m).0.control_channel ≡ m.control_channel)
unfolding send_first_offer
first_offer-lanes (throws e) m h = absurd (fails h)
  where
    fails : ◌≡◌ {A = Result (Unit {0})} (throws e) (ok tt) → ⊥
    fails h = cc
first_offer-lanes (ok sdp) m h = (refl, refl)

open_channels-control :
    (m : Manager) → (open_channels m).control_channel ≡ some (fresh_channel "control")
unfolding open_channels setup_lanes setup_control_channel setup_data_channel
open_channels-control m = refl

open_channels-HasLane : (i : ℕ) (m : Manager) → HasLane (open_channels m) (channel_label i)
unfolding open_channels
open_channels-HasLane i m =
    all_lanes i (setup_control_channel (fresh_channel "control") (constructed_manager m))

-- What the initiator has once its setup is done.
abbrev IsWired : Manager → Type 0
IsWired m =
    ((i : ℕ) → HasLane m (channel_label i)) × (m.control_channel ≡ some (fresh_channel "control"))

first_offer-IsWired :
    (r : Result String) (m : Manager)
    → (send_first_offer r (open_channels m)).1 ≡ ok tt
    → IsWired (send_first_offer r (open_channels m)).0
first_offer-IsWired r m h =
    let (lanes_kept, control_kept) = first_offer-lanes r (open_channels m) h in
    (
      λ i. ap (Dict.has (channel_label i)) lanes_kept ∙ open_channels-HasLane i m,
      control_kept ∙ open_channels-control m,
    )

set_up-IsWired :
    (r : Result (Unit {0})) (rtc : Rtc) (m : Manager)
    → m.is_initiator ≡ true
    → (set_up r rtc m).1 ≡ ok tt
    → IsWired (set_up r rtc m).0
unfolding set_up
set_up-IsWired (throws e) rtc m initiator h = absurd (fails h)
  where
    fails : ◌≡◌ {A = Result (Unit {0})} (throws e) (ok tt) → ⊥
    fails h = cc
set_up-IsWired (ok u) rtc m initiator h =
    if-IsWired m.is_initiator _ _ initiator (first_offer-IsWired (make_offer rtc) m) h
  where
    if-IsWired :
        (b : Bool) (x y : Manager × Result (Unit {0}))
        → b ≡ true
        → (x.1 ≡ ok tt → IsWired x.0)
        → (if b then x else y).1 ≡ ok tt
        → IsWired (if b then x else y).0
    if-IsWired true x y e f h = f h
    if-IsWired false x y e f h = absurd (no_false e)

-- A setup of the initiator that succeeds has opened the control channel, and for every index of a
-- chunk the data channel on which `streamOutgoing` sends it.
pub initialize-HasLane :
    (rtc : Rtc) (m : Manager)
    → m.is_initiator ≡ true
    → (initialize rtc m).1 ≡ ok tt
    → ((i : ℕ) → HasLane (initialize rtc m).0 (channel_label i))
      × ((initialize rtc m).0.control_channel ≡ some (fresh_channel "control"))
unfolding initialize
initialize-HasLane rtc m initiator h = set_up-IsWired (construct rtc) rtc m initiator h
