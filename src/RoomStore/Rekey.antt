-- ===== src/RoomStore/Rekey.antt =====
-- Two key exchanges with one peer, in frontend/src/stores/roomStore.ts.
use shadowchat.Common.{◌≡◌, refl, ap, ◌∙◌, none, some, String}
use shadowchat.Common.Dict
use shadowchat.Platform.{Platform}
use shadowchat.Transfer.State.{Coordinator}
use shadowchat.Transfer.Control.{new_coordinator}
use shadowchat.WebRtc.{Manager}
use shadowchat.RoomStore.State.{Peer, connected, RoomState}
use shadowchat.RoomStore.Basics.{Env, line_open}
use shadowchat.RoomStore.Keys.{all_handlers, key_peer, give_coordinator, finalize_key_exchange}
use shadowchat.RoomStore.Updates.{get-update_peer}
use shadowchat.RoomStore.Finalized.{finalize-Keeps}

module _ {Key DB : Type 0} (p : Platform Key DB) (env : Env) where
  pub get-finalize :
      (from : String) (key : Key) (room : String) (s : RoomState Key DB) (peer : Peer Key DB)
      → Dict.get from s.peers ≡ some peer
      → Dict.get from (finalize_key_exchange p env from key room s).peers
        ≡ some (key_peer p env key room s.db peer)
  get-finalize from key room s peer there =
      ap (λ m. Dict.get from m) (finalize-Keeps p env from key room s).0
      ∙ get-update_peer from (key_peer p env key room s.db) s peer there

  -- What a key exchange makes of a peer that has a manager and no coordinator.
  pub first_key :
      (key : Key) (room : String) (db : DB) (peer : Peer Key DB) (m : Manager)
      → peer.transfer_coordinator ≡ none
      → peer.pc_manager ≡ some m
      → key_peer p env key room db peer ≡ record peer {
        room_key = some key;
        status = connected;
        transfer_coordinator = some (new_coordinator key room all_handlers (line_open env peer) db);
      }
  unfolding key_peer line_open
  first_key key room db peer m bare managed =
      let keyed : Peer Key DB = record peer { room_key = some key; status = connected } in
      ap (λ c. give_coordinator p env key room db keyed c keyed.pc_manager) bare
      ∙ ap (λ o. give_coordinator p env key room db keyed none o) managed

  next_key :
      (key : Key) (room : String) (db : DB) (peer : Peer Key DB) (c : Coordinator Key DB)
      → peer.transfer_coordinator ≡ some c
      → key_peer p env key room db peer ≡ record peer { room_key = some key; status = connected }
  unfolding key_peer
  next_key key room db peer c has =
      let keyed : Peer Key DB = record peer { room_key = some key; status = connected } in
      ap (λ o. give_coordinator p env key room db keyed o keyed.pc_manager) has

  -- A peer that has a connection manager and no coordinator, and for which two key exchanges end with
  -- two keys, is left with the second key for the chat and a coordinator that still has the first:
  -- `finalizeKeyExchange` makes a coordinator only where there is none, and gives it no new key.
  pub finalize-finalize :
      (from room : String) (old new : Key) (s : RoomState Key DB) (peer : Peer Key DB) (m : Manager)
      → Dict.get from s.peers ≡ some peer
      → peer.transfer_coordinator ≡ none
      → peer.pc_manager ≡ some m
      → (q : Peer Key DB) × (c : Coordinator Key DB) × (Dict.get from
            (finalize_key_exchange p env from new room
              (finalize_key_exchange p env from old room s)).peers
          ≡ some q)
        × (q.room_key ≡ some new)
        × (q.transfer_coordinator ≡ some c)
        × (c.room_key ≡ old)
  unfolding new_coordinator
  finalize-finalize from room old new s peer m there bare managed =
      let once = finalize_key_exchange p env from old room s in
      let one = key_peer p env old room s.db peer in
      let first = first_key old room s.db peer m bare managed in
      let c = new_coordinator old room all_handlers (line_open env peer) s.db in
      let has : one.transfer_coordinator ≡ some c = ap (λ q. q.transfer_coordinator) first in
      (
        record one { room_key = some new; status = connected },
        c,
        get-finalize from new room once one (get-finalize from old room s peer there)
            ∙ ap (λ q. some q) (next_key new room once.db one c has),
        refl,
        has,
        refl,
      )
