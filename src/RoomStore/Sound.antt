-- ===== src/RoomStore/Sound.antt =====
-- What holds of the peers and the timers of frontend/src/stores/roomStore.ts between two steps, and how the
-- common updates keep it.
pub mod Managers
pub mod Keys
pub mod Queue
pub mod Events
pub mod Files
pub mod Chats
pub mod Setups
pub mod States
pub mod Callbacks
pub mod Turns
pub mod Sessions
pub mod Reach
use shadowchat.Common.{
  ℕ, ◌+◌, ◌≤◌, ◌<◌, ◌≡◌, refl, sym, ap, ◌∙◌, List, [], ◌∷◌, ◌++◌, Option, none, some, String, Bool,
  true, false, str_eq, eq_iff, arith, All, All-append, Bool-cases, Option-cases, inl, inr,
  if◌then◌else◌, length,
}
use mathlib.Core.Path.{subst}
use shadowchat.Common.Dict
use shadowchat.Common.Dict.{Dict}
use shadowchat.Transfer.State.{Coordinator}
use shadowchat.WebRtc.{Manager}
use shadowchat.RoomStore.State.{
  Peer, PeerStatus, connecting, key_exchanging, connected, failed, HistoryTimer, RoomState,
}
use shadowchat.RoomStore.Basics.{update_peer}
use shadowchat.RoomStore.Updates.{update_peer-some, update_peer-none}
use shadowchat.RoomStore.Advance.{
  Advances, Forward, Forwards, Forward-refl, Forward-trans, update_peer-Forwards,
}

module _ {Key DB : Type 0} where
  -- A coordinator is there only together with a room key and a manager.
  abbrev pub Built : Option (Coordinator Key DB) → Option Key → Option Manager → Type 0
  Built none key manager = Unit
  Built (some c) (some key) (some manager) = Unit
  Built (some c) (some key) none = ⊥
  Built (some c) none manager = ⊥

-- A peer that is shown as connected has a room key.
abbrev pub Keyed : {Key : Type 0} → PeerStatus → Option Key → Type 0
Keyed connected none = ⊥
Keyed connected (some key) = Unit
Keyed connecting key = Unit
Keyed key_exchanging key = Unit
Keyed failed key = Unit

module _ {Key DB : Type 0} where
  pub record IsGood (id : String) (peer : Peer Key DB) : Type 0 where
    pub own_id : peer.id ≡ id
    pub built : Built peer.transfer_coordinator peer.room_key peer.pc_manager
    pub keyed : Keyed peer.status peer.room_key

  abbrev pub AllGood : Dict (Peer Key DB) → Type 0
  AllGood peers = All (λ entry. IsGood entry.0 entry.1) peers

-- A retry of the history has been counted, at most ten times, and sends at most 50 messages.
pub record IsPatient (t : HistoryTimer) : Type 0 where
  pub counted : 1 ≤ t.attempts
  pub few : t.attempts ≤ 10
  pub short : length t.bundle ≤ 50

pub record IsSound {Key DB : Type 0} (s : RoomState Key DB) : Type 0 where
  pub peers : AllGood s.peers
  pub timers : All IsPatient s.history_timers

-- From the state `o` on, only steps that let peers advance have led to `s`, which is sound.
pub record Holds {Key DB : Type 0} (o s : RoomState Key DB) : Type 0 where
  pub peers : AllGood s.peers
  pub timers : All IsPatient s.history_timers
  pub since : Forwards o s

module _ {Key DB : Type 0} where
  pub IsSound-Holds : (s : RoomState Key DB) → IsSound s → Holds s s
  IsSound-Holds s h = record {
    peers = h.peers;
    timers = h.timers;
    since = λ id. Forward-refl (Dict.get id s.peers);
  }

  pub Holds-IsSound : (o s : RoomState Key DB) → Holds o s → IsSound s
  Holds-IsSound o s h = record { peers = h.peers; timers = h.timers }

  pub get-IsGood :
      (id : String) (peer : Peer Key DB) (m : Dict (Peer Key DB))
      → AllGood m
      → Dict.get id m ≡ some peer
      → IsGood id peer
  unfolding Dict.get
  get-IsGood id peer [] h e = cc
  get-IsGood id peer ((j, q) ∷ m) h e = elim (Bool-cases (str_eq j id)) [
    | inl same ↦
        let here : some q ≡ some peer = rw same at e in
        let found : q ≡ peer = cc in
        subst (λ k. IsGood k peer) ((eq_iff j id).0 same) (subst (IsGood j) found h.0)
    | inr other ↦ get-IsGood id peer m h.1 (rw other at e)
  ]

  pub set-AllGood :
      (id : String) (peer : Peer Key DB) (m : Dict (Peer Key DB))
      → AllGood m
      → IsGood id peer
      → AllGood (Dict.set id peer m)
  unfolding Dict.set
  set-AllGood id peer [] h g = (g, tt)
  set-AllGood id peer ((j, q) ∷ m) h g = elim (Bool-cases (str_eq j id)) [
    | inl same ↦
        rw (same, Dict.set) (subst (λ k. IsGood k peer) (sym ((eq_iff j id).0 same)) g, h.1)
    | inr other ↦ rw (other, Dict.set) (h.0, set-AllGood id peer m h.1 g)
  ]

  pub delete-AllGood :
      (id : String) (m : Dict (Peer Key DB)) → AllGood m → AllGood (Dict.delete id m)
  unfolding Dict.delete
  delete-AllGood id [] h = tt
  delete-AllGood id ((j, q) ∷ m) h = elim (Bool-cases (str_eq j id)) [
    | inl same ↦ rw (same, Dict.delete) (delete-AllGood id m h.1)
    | inr other ↦ rw (other, Dict.delete) (h.0, delete-AllGood id m h.1)
  ]

  pub update_peer-AllGood :
      (id : String) (f : Peer Key DB → Peer Key DB) (s : RoomState Key DB)
      → ((peer : Peer Key DB)
          → Dict.get id s.peers ≡ some peer
          → IsGood id peer
          → IsGood id (f peer))
      → AllGood s.peers
      → AllGood (update_peer id f s).peers
  update_peer-AllGood id f s keeps h = elim (Option-cases (Dict.get id s.peers)) [
    | inl none_there ↦ rw (update_peer-none id f s none_there) h
    | inr (peer, there) ↦
        rw (update_peer-some id f s peer there) (
          set-AllGood id (f peer) s.peers h (keeps peer there (get-IsGood id peer s.peers h there)))
  ]

  pub update_peer-timers :
      (id : String) (f : Peer Key DB → Peer Key DB) (s : RoomState Key DB)
      → (update_peer id f s).history_timers ≡ s.history_timers
  update_peer-timers id f s = elim (Option-cases (Dict.get id s.peers)) [
    | inl none_there ↦ rw (update_peer-none id f s none_there) refl
    | inr (peer, there) ↦ rw (update_peer-some id f s peer there) refl
  ]

  -- An update of one peer that keeps a good peer good and lets it advance.
  pub update_peer-Holds :
      {o : RoomState Key DB} (id : String) (f : Peer Key DB → Peer Key DB) (s : RoomState Key DB)
      → ((peer : Peer Key DB)
          → Dict.get id s.peers ≡ some peer
          → IsGood id peer
          → IsGood id (f peer) × Advances peer (f peer))
      → Holds o s
      → Holds o (update_peer id f s)
  update_peer-Holds {o} id f s keeps h = record {
    peers = update_peer-AllGood id f s (λ peer there g. (keeps peer there g).0) h.peers;
    timers = subst (All IsPatient) (sym (update_peer-timers id f s)) h.timers;
    since = λ j.
        Forward-trans (Dict.get j o.peers) (Dict.get j s.peers)
          (Dict.get j (update_peer id f s).peers) (h.since j)
          (update_peer-Forwards id f s
            (λ peer there. (keeps peer there (get-IsGood id peer s.peers h.peers there)).1) j);
  }

  -- A step that leaves the peers and the timers alone.
  abbrev pub Calm : RoomState Key DB → RoomState Key DB → Type 0
  Calm s t = (t.peers ≡ s.peers) × (t.history_timers ≡ s.history_timers)

  pub Calm-trans : (s t u : RoomState Key DB) → Calm s t → Calm t u → Calm s u
  Calm-trans s t u h k = (k.0 ∙ h.0, k.1 ∙ h.1)

  pub Calm-Holds :
      {o : RoomState Key DB} (s t : RoomState Key DB) → Calm s t → Holds o s → Holds o t
  Calm-Holds {o} s t c h = record {
    peers = subst AllGood (sym c.0) h.peers;
    timers = subst (All IsPatient) (sym c.1) h.timers;
    since = λ id. subst (λ m. Forward (Dict.get id o.peers) (Dict.get id m)) (sym c.0) (h.since id);
  }

  pub if-IsSound :
      (b : Bool) (s t : RoomState Key DB) → IsSound s → IsSound t → IsSound (if b then s else t)
  if-IsSound true s t h k = h
  if-IsSound false s t h k = k

  pub if-Holds :
      {o : RoomState Key DB} (b : Bool) (s t : RoomState Key DB)
      → Holds o s
      → Holds o t
      → Holds o (if b then s else t)
  if-Holds true s t h k = h
  if-Holds false s t h k = k
