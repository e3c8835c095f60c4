-- ===== src/RoomStore/Agreement.antt =====
-- Two stores of frontend/src/stores/roomStore.ts that exchange their key packets over the signaling server.
use shadowchat.Common.{◌≡◌, refl, sym, ap, ◌∙◌, Option, none, some, String}
use shadowchat.Common.Dict
use shadowchat.Common.Results.{ok}
use shadowchat.Platform.{Platform}
use shadowchat.Platform.Crypto.{KeyPair, IsSigningPair, IsExchangePair, Agree}
use shadowchat.Platform.Encoding.{RoundTrips}
use shadowchat.Crypto.{KeyExchangePacket, prepare_key_exchange, complete_key_exchange}
use shadowchat.Crypto.Exchange.{complete-Agree}
use shadowchat.Transfer.State.{Coordinator}
use shadowchat.Transfer.Control.{new_coordinator}
use shadowchat.WebRtc.{Manager}
use shadowchat.RoomStore.State.{Peer, connected, key_action, RoomState}
use shadowchat.RoomStore.Basics.{Env, given, line_open}
use shadowchat.RoomStore.Keys.{all_handlers, finalize_key_exchange, receive_key_exchange}
use shadowchat.RoomStore.Peers.{pc_manager_of, run_action, queue_or_execute}
use shadowchat.RoomStore.Updates.{pc_manager_of_peer}
use shadowchat.RoomStore.Rekey.{get-finalize, first_key}

module _ {Key DB : Type 0} where
  -- A peer that is connected under a key, with which its coordinator works too.
  pub record IsConnected (key : Key) (o : Option (Peer Key DB)) : Type 0 where
    pub peer : Peer Key DB
    pub coordinator : Coordinator Key DB
    pub there : o ≡ some peer
    pub shown : peer.status ≡ connected
    pub keyed : peer.room_key ≡ some key
    pub coordinated : peer.transfer_coordinator ≡ some coordinator
    pub same_key : coordinator.room_key ≡ key

  -- A peer whose connection manager is there, and that has no coordinator yet.
  pub record IsWaiting (o : Option (Peer Key DB)) : Type 0 where
    pub peer : Peer Key DB
    pub manager : Manager
    pub there : o ≡ some peer
    pub managed : peer.pc_manager ≡ some manager
    pub bare : peer.transfer_coordinator ≡ none

module _ {Key DB : Type 0} (p : Platform Key DB) where
  finalize-IsConnected :
      (env : Env) (from room : String) (key : Key) (s : RoomState Key DB)
      → IsWaiting (Dict.get from s.peers)
      → IsConnected key (Dict.get from (finalize_key_exchange p env from key room s).peers)
  unfolding new_coordinator
  finalize-IsConnected env from room key s w =
      let c = new_coordinator key room all_handlers (line_open env w.peer) s.db in
      let first = first_key p env key room s.db w.peer w.manager w.bare w.managed in
      record {
        peer = record w.peer {
          room_key = some key;
          status = connected;
          transfer_coordinator = some c;
        };
        coordinator = c;
        there = get-finalize p env from key room s w.peer w.there ∙ ap (λ q. some q) first;
        shown = refl;
        keyed = refl;
        coordinated = refl;
        same_key = refl;
      }

  -- With a manager, the packet is handled at once.
  key_action-finalizes :
      (env : Env) (from room : String) (key : Key) (packet : KeyExchangePacket) (x : KeyPair Key)
      (s : RoomState Key DB)
      → IsWaiting (Dict.get from s.peers)
      → given s.room_id ≡ some room
      → s.local_x25519_pair ≡ some x
      → complete_key_exchange p.crypto p.codec x.private_key packet room ≡ ok key
      → queue_or_execute p env from (key_action (some packet)) s
        ≡ finalize_key_exchange p env from key room s
  unfolding queue_or_execute run_action receive_key_exchange
  key_action-finalizes env from room key packet x s w in_room paired completes =
      let has : pc_manager_of from s ≡ some w.manager =
        pc_manager_of_peer from s w.peer w.there ∙ w.managed in
      let at_once : queue_or_execute p env from (key_action (some packet)) s
          ≡ receive_key_exchange p env from (some packet) s =
        rw (has, queue_or_execute) refl in
      at_once ∙ rw (in_room, paired, completes, receive_key_exchange) refl

  -- Take two stores in one room whose key pairs work, agree on a secret and survive export and import.
  -- Each has the other as a peer with a connection manager and without a coordinator, the packets are
  -- those that the two stores' pairs make, the codecs round-trip, and the derivation works on one
  -- side. When each handles the other's packet, each shows the other as connected, under one and the
  -- same key, with which the file transfer coordinators of both work too.
  pub queue_or_execute-Agree :
      (r : RoundTrips p.codec) (env there : Env) (id_a id_b room : String)
      (xa sa xb sb : KeyPair Key) (packet_a packet_b : KeyExchangePacket) (key : Key)
      (a b : RoomState Key DB)
      → IsExchangePair p.crypto xa
      → IsSigningPair p.crypto sa
      → IsExchangePair p.crypto xb
      → IsSigningPair p.crypto sb
      → Agree p.crypto xa xb
      → prepare_key_exchange p.crypto p.codec xa sa ≡ ok packet_a
      → prepare_key_exchange p.crypto p.codec xb sb ≡ ok packet_b
      → given a.room_id ≡ some room
      → given b.room_id ≡ some room
      → a.local_x25519_pair ≡ some xa
      → b.local_x25519_pair ≡ some xb
      → IsWaiting (Dict.get id_b a.peers)
      → IsWaiting (Dict.get id_a b.peers)
      → complete_key_exchange p.crypto p.codec xa.private_key packet_b room ≡ ok key
      → IsConnected key
          (Dict.get id_b (queue_or_execute p env id_b (key_action (some packet_b)) a).peers)
        × IsConnected key
            (Dict.get id_a (queue_or_execute p there id_a (key_action (some packet_a)) b).peers)
  queue_or_execute-Agree r env there id_a id_b room xa sa xb sb packet_a packet_b key a b hxa hsa
        hxb hsb agree pa pb in_a in_b paired_a paired_b wa wb completes =
      let same =
        complete-Agree p.crypto p.codec r xa sa xb sb packet_a packet_b room hxa hsa hxb hsb agree
          pa pb in
      let ea = key_action-finalizes env id_b room key packet_b xa a wa in_a paired_a completes in
      let eb =
        key_action-finalizes there id_a room key packet_a xb b wb in_b paired_b
          (same.1 ∙ sym same.0 ∙ completes) in
      (
        rw ea (finalize-IsConnected env id_b room key a wa),
        rw eb (finalize-IsConnected there id_a room key b wb),
      )
