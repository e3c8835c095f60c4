-- ===== src/RoomStore/Sound/Managers.antt =====
-- Updates of a connection manager in frontend/src/stores/roomStore.ts keep the peers and the timers sound.
use mathlib.Core.Path.{subst}
use shadowchat.Common.{refl, sym, Option, none, some, String, Option-cases, inl, inr}
use shadowchat.Transfer.State.{Coordinator}
use shadowchat.WebRtc.{Manager}
use shadowchat.RoomStore.State.{Peer, RoomState}
use shadowchat.RoomStore.Peers.{pc_manager_of, set_manager, on_manager}
use shadowchat.RoomStore.Updates.{on_manager-none, on_manager-some}
use shadowchat.RoomStore.Advance.{Grows-refl, Grows-some, Advances}
use shadowchat.RoomStore.Sound.{Built, IsGood, Holds, update_peer-Holds}

module _ {Key DB : Type 0} where
  Built-manager :
      (c : Option (Coordinator Key DB)) (k : Option Key) (old : Option Manager) (m : Manager)
      → Built c k old
      → Built c k (some m)
  Built-manager none k old m h = tt
  Built-manager (some c) (some k) old m h = tt
  Built-manager (some c) none old m h = absurd h

  pub set_manager-IsGood :
      (id : String) (m : Manager) (peer : Peer Key DB)
      → IsGood id peer
      → IsGood id (set_manager m peer)
  set_manager-IsGood id m peer g = record {
    own_id = g.own_id;
    built = Built-manager peer.transfer_coordinator peer.room_key peer.pc_manager m g.built;
    keyed = g.keyed;
  }

  pub set_manager-Advances : (m : Manager) (peer : Peer Key DB) → Advances peer (set_manager m peer)
  set_manager-Advances m peer = record {
    role = refl;
    manager = Grows-some peer.pc_manager m;
    key = Grows-refl peer.room_key;
    coordinator = Grows-refl peer.transfer_coordinator;
  }

  pub on_manager-Holds :
      {start : RoomState Key DB} (f : Manager → Manager) (id : String) (s : RoomState Key DB)
      → Holds start s
      → Holds start (on_manager f id s)
  on_manager-Holds f id s h = elim (Option-cases (pc_manager_of id s)) [
    | inl no_manager ↦ subst (Holds _) (sym (on_manager-none f id s no_manager)) h
    | inr (m, has) ↦ subst (Holds _) (sym (on_manager-some f id s m has)) (
        update_peer-Holds id (set_manager (f m)) s
          (λ peer there g. (set_manager-IsGood id (f m) peer g, set_manager-Advances (f m) peer)) h)
  ]
