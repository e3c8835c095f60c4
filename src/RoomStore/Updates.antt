-- ===== src/RoomStore/Updates.antt =====
-- What the updates of a peer, and of the rest of the state, leave alone.
use shadowchat.Common.{◌≡◌, refl, List, none, some, String, Option-cases, inl, inr}
use shadowchat.Common.Dict
use shadowchat.Common.Dict.{Dict}
use shadowchat.WebRtc.{Manager}
use shadowchat.RoomStore.State.{Peer, Action, RoomState}
use shadowchat.RoomStore.Basics.{update_peer}
use shadowchat.RoomStore.Peers.{pc_manager_of, set_manager, on_manager}

module _ {Key DB : Type 0} where
  abbrev pub with_pending : Dict (List Action) → RoomState Key DB → RoomState Key DB
  with_pending q s = record s { pending_signaling_messages = q }

  pub update_peer-some :
      (id : String) (f : Peer Key DB → Peer Key DB) (s : RoomState Key DB) (peer : Peer Key DB)
      → Dict.get id s.peers ≡ some peer
      → update_peer id f s ≡ record s { peers = Dict.set id (f peer) s.peers }
  unfolding update_peer
  update_peer-some id f s peer h = rw (h, update_peer) refl

  pub update_peer-none :
      (id : String) (f : Peer Key DB → Peer Key DB) (s : RoomState Key DB)
      → Dict.get id s.peers ≡ none
      → update_peer id f s ≡ s
  unfolding update_peer
  update_peer-none id f s h = rw (h, update_peer) refl

  pub get-update_peer :
      (id : String) (f : Peer Key DB → Peer Key DB) (s : RoomState Key DB) (peer : Peer Key DB)
      → Dict.get id s.peers ≡ some peer
      → Dict.get id (update_peer id f s).peers ≡ some (f peer)
  get-update_peer id f s peer h =
      rw (update_peer-some id f s peer h) (Dict.get-set_self id (f peer) s.peers)

  pub update_peer-with_pending :
      (id : String) (f : Peer Key DB → Peer Key DB) (q : Dict (List Action)) (s : RoomState Key DB)
      → update_peer id f (with_pending q s) ≡ with_pending q (update_peer id f s)
  unfolding update_peer
  update_peer-with_pending id f q s = elim (Option-cases (Dict.get id s.peers)) [
    | inl none_there ↦ rw (none_there, update_peer) refl
    | inr (peer, there) ↦ rw (there, update_peer) refl
  ]

  pub on_manager-some :
      (f : Manager → Manager) (id : String) (s : RoomState Key DB) (m : Manager)
      → pc_manager_of id s ≡ some m
      → on_manager f id s ≡ update_peer id (set_manager (f m)) s
  unfolding on_manager
  on_manager-some f id s m h = rw (h, on_manager) refl

  pub on_manager-none :
      (f : Manager → Manager) (id : String) (s : RoomState Key DB)
      → pc_manager_of id s ≡ none
      → on_manager f id s ≡ s
  unfolding on_manager
  on_manager-none f id s h = rw (h, on_manager) refl

  pub pc_manager_of_peer :
      (id : String) (s : RoomState Key DB) (peer : Peer Key DB)
      → Dict.get id s.peers ≡ some peer
      → pc_manager_of id s ≡ peer.pc_manager
  unfolding pc_manager_of
  pc_manager_of_peer id s peer h = rw h refl

  -- Where there is a manager there is a peer.
  pub peer_of_manager :
      (id : String) (s : RoomState Key DB) (m : Manager)
      → pc_manager_of id s ≡ some m
      → (peer : Peer Key DB) × (Dict.get id s.peers ≡ some peer) × (peer.pc_manager ≡ some m)
  unfolding pc_manager_of
  peer_of_manager id s m h = elim (Option-cases (Dict.get id s.peers)) [
    | inl none_there ↦ let bad = rw none_there at h in cc
    | inr (peer, there) ↦ (peer, there, rw there at h)
  ]
