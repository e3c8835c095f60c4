-- ===== src/RoomStore/Advance.antt =====
-- How the entry of a peer in frontend/src/stores/roomStore.ts changes while the peer stays: it keeps its role,
-- and what it has got of a connection manager, a room key and a coordinator.
use mathlib.Core.Path.{subst}
use shadowchat.Common.{
  ◌≡◌, refl, sym, ◌∙◌, Option, none, some, String, str_eq, Bool-cases, Option-cases, inl, inr,
  eq_iff,
}
use shadowchat.Common.Dict
use shadowchat.RoomStore.State.{Peer, RoomState}
use shadowchat.RoomStore.Basics.{update_peer}
use shadowchat.RoomStore.Updates.{update_peer-some, update_peer-none}

-- What was there is still there, perhaps with another value.
abbrev pub Grows : {A : Type 0} → Option A → Option A → Type 0
Grows none o = Unit
Grows (some x) none = ⊥
Grows (some x) (some y) = Unit

pub Grows-refl : {A : Type 0} (o : Option A) → Grows o o
Grows-refl none = tt
Grows-refl (some x) = tt

pub Grows-some : {A : Type 0} (o : Option A) (x : A) → Grows o (some x)
Grows-some none x = tt
Grows-some (some y) x = tt

Grows-trans : {A : Type 0} (o q r : Option A) → Grows o q → Grows q r → Grows o r
Grows-trans none q r h k = tt
Grows-trans (some x) (some y) (some z) h k = tt
Grows-trans (some x) (some y) none h k = k
Grows-trans (some x) none r h k = absurd h

module _ {Key DB : Type 0} where
  pub record Advances (q r : Peer Key DB) : Type 0 where
    pub role : r.is_initiator ≡ q.is_initiator
    pub manager : Grows q.pc_manager r.pc_manager
    pub key : Grows q.room_key r.room_key
    pub coordinator : Grows q.transfer_coordinator r.transfer_coordinator

  -- Nothing but the status or the presence of the peer has changed.
  pub Advances-same :
      (q r : Peer Key DB)
      → r.is_initiator ≡ q.is_initiator
      → r.pc_manager ≡ q.pc_manager
      → r.room_key ≡ q.room_key
      → r.transfer_coordinator ≡ q.transfer_coordinator
      → Advances q r
  Advances-same q r role manager key coordinator = record {
    role = role;
    manager = subst (Grows q.pc_manager) (sym manager) (Grows-refl q.pc_manager);
    key = subst (Grows q.room_key) (sym key) (Grows-refl q.room_key);
    coordinator =
        subst (Grows q.transfer_coordinator) (sym coordinator) (Grows-refl q.transfer_coordinator);
  }

  pub Advances-trans : (q r t : Peer Key DB) → Advances q r → Advances r t → Advances q t
  Advances-trans q r t h k = record {
    role = k.role ∙ h.role;
    manager = Grows-trans q.pc_manager r.pc_manager t.pc_manager h.manager k.manager;
    key = Grows-trans q.room_key r.room_key t.room_key h.key k.key;
    coordinator =
        Grows-trans q.transfer_coordinator r.transfer_coordinator t.transfer_coordinator
          h.coordinator k.coordinator;
  }

  -- The entry of a peer before and after: the same peer has advanced, or there is none in both.
  abbrev pub Forward : Option (Peer Key DB) → Option (Peer Key DB) → Type 0
  Forward none none = Unit
  Forward none (some r) = ⊥
  Forward (some q) none = ⊥
  Forward (some q) (some r) = Advances q r

  pub Forward-refl : (o : Option (Peer Key DB)) → Forward o o
  Forward-refl none = tt
  Forward-refl (some q) = Advances-same q q refl refl refl refl

  pub Forward-trans : (o q r : Option (Peer Key DB)) → Forward o q → Forward q r → Forward o r
  Forward-trans none none r h k = k
  Forward-trans none (some q) r h k = absurd h
  Forward-trans (some o) none r h k = absurd h
  Forward-trans (some o) (some q) none h k = k
  Forward-trans (some o) (some q) (some r) h k = Advances-trans o q r h k

  abbrev pub Forwards : RoomState Key DB → RoomState Key DB → Type 0
  Forwards o s = (id : String) → Forward (Dict.get id o.peers) (Dict.get id s.peers)

  set-Forward :
      (id j : String) (f : Peer Key DB → Peer Key DB) (s : RoomState Key DB) (peer : Peer Key DB)
      → Dict.get id s.peers ≡ some peer
      → Advances peer (f peer)
      → Forward (Dict.get j s.peers) (Dict.get j (Dict.set id (f peer) s.peers))
  set-Forward id j f s peer there a = elim (Bool-cases (str_eq id j)) [
    | inl same ↦
        let e = (eq_iff id j).0 same in
        subst (λ k. Forward (Dict.get k s.peers) (Dict.get k (Dict.set id (f peer) s.peers))) e
          (rw (there, Dict.get-set_self id (f peer) s.peers) a)
    | inr other ↦
        let ne : id ≡ j → ⊥ = λ e. let yes = (eq_iff id j).1 e in cc in
        rw (Dict.get-set_ne id j (f peer) s.peers ne) (Forward-refl (Dict.get j s.peers))
  ]

  pub update_peer-Forwards :
      (id : String) (f : Peer Key DB → Peer Key DB) (s : RoomState Key DB)
      → ((peer : Peer Key DB) → Dict.get id s.peers ≡ some peer → Advances peer (f peer))
      → Forwards s (update_peer id f s)
  update_peer-Forwards id f s advances j = elim (Option-cases (Dict.get id s.peers)) [
    | inl none_there ↦ rw (update_peer-none id f s none_there) (Forward-refl (Dict.get j s.peers))
    | inr (peer, there) ↦
        rw (update_peer-some id f s peer there)
          (set-Forward id j f s peer there (advances peer there))
  ]
