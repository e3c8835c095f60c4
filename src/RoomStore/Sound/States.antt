-- ===== src/RoomStore/Sound/States.antt =====
-- `onStateChange` of frontend/src/stores/roomStore.ts keeps the peers and the timers sound.
use shadowchat.Common.{refl, Option, none, some, String}
use shadowchat.Common.Dict
use shadowchat.WebRtc.{ConnectionState}
use shadowchat.RoomStore.State.{Peer, key_exchanging, connected, failed, RoomState}
use shadowchat.RoomStore.Basics.{update_peer}
use shadowchat.RoomStore.Peers.{drain}
use shadowchat.RoomStore.Setup.{on_state_change}
use shadowchat.RoomStore.Advance.{Advances-same}
use shadowchat.RoomStore.Sound.{Keyed, IsSound, Holds, delete-AllGood, update_peer-Holds}

Keyed-state :
    {Key : Type 0} (key : Option Key)
    → Keyed (elim key [ none ↦ key_exchanging | some k ↦ connected ]) key
Keyed-state none = tt
Keyed-state (some k) = tt

module _ {Key DB : Type 0} where
  -- The cases of `onStateChange` that do something only for a peer that is there.
  if_there-Holds :
      {start : RoomState Key DB} (o : Option (Peer Key DB)) (s t : RoomState Key DB)
      → Holds start s
      → Holds start t
      → Holds start (elim o [ none ↦ s | some peer ↦ t ])
  if_there-Holds none s t h k = h
  if_there-Holds (some peer) s t h k = k

  fails-Holds :
      {start : RoomState Key DB} (id : String) (s : RoomState Key DB)
      → Holds start s
      → Holds start (drain id (update_peer id (λ q. record q { status = failed }) s))
  unfolding drain
  fails-Holds id s h =
      let k =
        update_peer-Holds id (λ q. record q { status = failed }) s
          (λ peer there g. (
            record { own_id = g.own_id; built = g.built; keyed = tt },
            Advances-same peer _ refl refl refl refl,
          ))
          h in
      record { peers = k.peers; timers = k.timers; since = k.since }

  pub failed-Holds :
      {start : RoomState Key DB} (id : String) (s : RoomState Key DB)
      → Holds start s
      → Holds start (on_state_change id ConnectionState.failed s)
  unfolding on_state_change
  failed-Holds id s h =
      if_there-Holds (Dict.get id s.peers) s
        (drain id (update_peer id (λ q. record q { status = failed }) s)) h (fails-Holds id s h)

  pub connected-Holds :
      {start : RoomState Key DB} (id : String) (s : RoomState Key DB)
      → Holds start s
      → Holds start (on_state_change id ConnectionState.connected s)
  unfolding on_state_change
  connected-Holds id s h =
      update_peer-Holds id
        (λ peer. record peer {
          status = elim peer.room_key [ none ↦ key_exchanging | some key ↦ connected ];
        })
        s
        (λ peer there g. (
          record { own_id = g.own_id; built = g.built; keyed = Keyed-state peer.room_key },
          Advances-same peer _ refl refl refl refl,
        ))
        h

  pub if_gone-IsSound :
      (o : Option (Peer Key DB)) (id : String) (s : RoomState Key DB)
      → IsSound s
      → IsSound
          (elim o [ none ↦ s | some peer ↦ record (drain id s) { peers = Dict.delete id s.peers } ])
  unfolding drain
  if_gone-IsSound none id s h = h
  if_gone-IsSound (some peer) id s h = record {
    peers = delete-AllGood id s.peers h.peers;
    timers = h.timers;
  }
