-- ===== src/RoomStore/LifeCycle.antt =====
-- The life of a peer in the store of frontend/src/stores/roomStore.ts, as an abstract machine: what the rest of
-- the program may expect of the entry of one peer, whatever the store does.
use shadowchat.Common.{◌≡◌, refl, Option, none, some, String, Bool, true, false, ◌&&◌}
use shadowchat.Common.Dict
use shadowchat.Platform.{Platform}
use shadowchat.Transfer.State.{Coordinator}
use shadowchat.WebRtc.{Manager}
use shadowchat.RoomStore.State.{Peer, RoomState}
use shadowchat.RoomStore.Steps.{Step, IsReachable}
use shadowchat.RoomStore.Advance.{Grows, Forward}
use shadowchat.RoomStore.Sound.{Built, IsSound, get-IsGood}
use shadowchat.RoomStore.Sound.Turns.{Turns, advances, joins, leaves}
use shadowchat.RoomStore.Sound.Reach.{step-Progress, IsReachable-peers}

-- What is left of a peer's entry: its role, and whether it has a manager, a key and a coordinator.
pub record Standing : Type 0 where
  pub is_initiator : Bool
  pub managed : Bool
  pub keyed : Bool
  pub coordinated : Bool

abbrev pub is_there : {A : Type 0} → Option A → Bool
is_there none = false
is_there (some x) = true

-- The second is true if the first is.
abbrev pub Kept : Bool → Bool → Type 0
Kept false b = Unit
Kept true true = Unit
Kept true false = ⊥

-- The machine. A peer appears with nothing but its role; then its role is fixed, and what it has got it
-- keeps, until it leaves; and a coordinator comes only to a peer with a manager and a key.
pub data LifeStep : Option Standing → Option Standing → Type 0 where
  stays_out : LifeStep none none
  appears :
      (is_initiator : Bool)
      → LifeStep none (
          some (record {
            is_initiator = is_initiator;
            managed = false;
            keyed = false;
            coordinated = false;
          }))
  goes : (q : Standing) → LifeStep (some q) none
  goes_on :
      (q r : Standing)
      → r.is_initiator ≡ q.is_initiator
      → Kept q.managed r.managed
      → Kept q.keyed r.keyed
      → Kept q.coordinated r.coordinated
      → Kept r.coordinated (r.managed && r.keyed)
      → LifeStep (some q) (some r)

module _ {Key DB : Type 0} where
  abbrev pub standing : Peer Key DB → Standing
  standing peer = record {
    is_initiator = peer.is_initiator;
    managed = is_there peer.pc_manager;
    keyed = is_there peer.room_key;
    coordinated = is_there peer.transfer_coordinator;
  }

  abbrev pub standing_of : Option (Peer Key DB) → Option Standing
  standing_of none = none
  standing_of (some peer) = some (standing peer)

Grows-Kept : {A : Type 0} (o q : Option A) → Grows o q → Kept (is_there o) (is_there q)
Grows-Kept none q h = tt
Grows-Kept (some x) (some y) h = tt
Grows-Kept (some x) none h = h

module _ {Key DB : Type 0} where
  Built-Kept :
      (c : Option (Coordinator Key DB)) (k : Option Key) (m : Option Manager)
      → Built c k m
      → Kept (is_there c) (is_there m && is_there k)
  Built-Kept none k m h = tt
  Built-Kept (some c) (some k) (some m) h = tt
  Built-Kept (some c) (some k) none h = h
  Built-Kept (some c) none (some m) h = absurd h
  Built-Kept (some c) none none h = absurd h

  Forward-LifeStep :
      (id : String) (o : Option (Peer Key DB)) (q : Option (Peer Key DB)) (t : RoomState Key DB)
      → IsSound t
      → Dict.get id t.peers ≡ q
      → Forward o q
      → LifeStep (standing_of o) (standing_of q)
  Forward-LifeStep id none none t h e f = stays_out
  Forward-LifeStep id none (some r) t h e f = absurd f
  Forward-LifeStep id (some q) none t h e f = absurd f
  Forward-LifeStep id (some q) (some r) t h e f =
      let good = get-IsGood id r t.peers h.peers e in
      goes_on (standing q) (standing r) f.role (Grows-Kept q.pc_manager r.pc_manager f.manager)
        (Grows-Kept q.room_key r.room_key f.key)
        (Grows-Kept q.transfer_coordinator r.transfer_coordinator f.coordinator)
        (Built-Kept r.transfer_coordinator r.room_key r.pc_manager good.built)

  leaves-LifeStep : (o : Option (Peer Key DB)) → LifeStep (standing_of o) none
  leaves-LifeStep none = stays_out
  leaves-LifeStep (some q) = goes (standing q)

  turn-LifeStep :
      (id : String) (s t : RoomState Key DB)
      → IsSound t
      → Turns id s t
      → LifeStep (standing_of (Dict.get id s.peers)) (standing_of (Dict.get id t.peers))
  turn-LifeStep id s t h (advances f) =
      Forward-LifeStep id (Dict.get id s.peers) (Dict.get id t.peers) t h refl f
  turn-LifeStep id s t h (joins b before after) = rw (before, after) (appears b)
  turn-LifeStep id s t h (leaves gone) = rw gone (leaves-LifeStep (Dict.get id s.peers))

module _ {Key DB : Type 0} (p : Platform Key DB) where
  -- Every step of the store from a state that it reaches, whatever the step is, is a step of the
  -- machine for the entry of every peer: the entry stays out, appears with a role and without manager,
  -- key and coordinator, goes, or keeps its role and what it has got, and then has a coordinator only
  -- if it has a manager and a key.
  pub step-LifeStep :
      {s t : RoomState Key DB} (id : String)
      → IsReachable p s
      → Step p s t
      → LifeStep (standing_of (Dict.get id s.peers)) (standing_of (Dict.get id t.peers))
  step-LifeStep {s} {t} id r step =
      let progress = step-Progress p step (IsReachable-peers p r) in
      turn-LifeStep id s t progress.sound (progress.turns id)
