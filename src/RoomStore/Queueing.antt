-- ===== src/RoomStore/Queueing.antt =====
-- The queue of signaling actions and the setup, in frontend/src/stores/roomStore.ts: what arrives early is as
-- good as what arrives after the setup.
use shadowchat.Common.{
  ◌≡◌, refl, sym, ap, ◌∙◌, List, [], ◌∷◌, ◌++◌, none, some, String, Bool, Option-cases, inl, inr,
}
use shadowchat.Common.Dict
use shadowchat.Common.Dict.{Dict}
use shadowchat.Common.Results.{ok}
use shadowchat.Platform.{Platform}
use shadowchat.Crypto.{KeyExchangePacket, prepare_key_exchange}
use shadowchat.WebRtc.{Manager, new_manager, initialize}
use shadowchat.RoomStore.State.{Peer, key_exchanging, Action, IceServer, RoomState}
use shadowchat.RoomStore.Basics.{Env, update_peer}
use shadowchat.RoomStore.Peers.{
  or_none, pc_manager_of, set_manager, on_manager, drain, run_actions, flush,
}
use shadowchat.RoomStore.Setup.{
  own_manager, after_initialize, announce_keys, Setup, attach_manager, complete_setup,
  signal_packet,
}
use shadowchat.RoomStore.Updates.{
  with_pending, get-update_peer, update_peer-with_pending, on_manager-some, pc_manager_of_peer,
  peer_of_manager,
}
use shadowchat.RoomStore.Arrival.{
  arrive, arrive_waits, arrive_runs, flush-none, flush-some, IsManaged, IsManaged-peer,
  on_manager-IsManaged,
}

module _ {Key DB : Type 0} (p : Platform Key DB) (env : Env) where
  -- A setup from the wait for `initialize` up to the flush.
  abbrev keyed : Setup Key → String → KeyExchangePacket → RoomState Key DB → RoomState Key DB
  keyed setup id packet s =
      update_peer id (λ peer. record peer { status = key_exchanging })
        (signal_packet setup.room id packet (on_manager (λ m. (initialize env.rtc m).0) id s))

  on_manager-with_pending :
      (f : Manager → Manager) (id : String) (q : Dict (List Action)) (s : RoomState Key DB)
      → on_manager f id (with_pending q s) ≡ with_pending q (on_manager f id s)
  unfolding pc_manager_of on_manager
  on_manager-with_pending f id q s = elim (Option-cases (pc_manager_of id s)) [
    | inl no_manager ↦ rw (no_manager, on_manager) refl
    | inr (m, has) ↦
        on_manager-some f id (with_pending q s) m has
        ∙ update_peer-with_pending id (set_manager (f m)) q s
        ∙ ap (with_pending q) (sym (on_manager-some f id s m has))
  ]

  keyed-with_pending :
      (setup : Setup Key) (id : String) (packet : KeyExchangePacket) (q : Dict (List Action))
      (s : RoomState Key DB)
      → keyed setup id packet (with_pending q s) ≡ with_pending q (keyed setup id packet s)
  keyed-with_pending setup id packet q s =
      let started = on_manager (λ m. (initialize env.rtc m).0) id s in
      ap
        (λ t.
          update_peer id (λ peer. record peer { status = key_exchanging })
            (signal_packet setup.room id packet t))
        (on_manager-with_pending (λ m. (initialize env.rtc m).0) id q s)
      ∙ update_peer-with_pending id (λ peer. record peer { status = key_exchanging }) q
          (signal_packet setup.room id packet started)

  keyed-IsManaged :
      (setup : Setup Key) (id : String) (packet : KeyExchangePacket) (s : RoomState Key DB)
      → IsManaged p env id s
      → IsManaged p env id (keyed setup id packet s)
  unfolding pc_manager_of
  keyed-IsManaged setup id packet s h =
      let (m, managed) = on_manager-IsManaged p env (λ m. (initialize env.rtc m).0) id s h in
      let sent =
        signal_packet setup.room id packet (on_manager (λ m. (initialize env.rtc m).0) id s) in
      let (peer, there, has) = peer_of_manager id sent m managed in
      IsManaged-peer p env id (keyed setup id packet s) (record peer { status = key_exchanging }) m
        (get-update_peer id (λ q. record q { status = key_exchanging }) sent peer there) has

  complete_ready :
      (setup : Setup Key) (id : String) (is_initiator : Bool) (m : Manager)
      (packet : KeyExchangePacket) (s : RoomState Key DB)
      → pc_manager_of id s ≡ some m
      → (initialize env.rtc m).1 ≡ ok tt
      → prepare_key_exchange p.crypto p.codec setup.x25519_pair setup.ed25519_pair ≡ ok packet
      → complete_setup p env setup id is_initiator s ≡ flush p env id (keyed setup id packet s)
  unfolding complete_setup
  complete_ready setup id is_initiator m packet s h works made =
      let started = on_manager (λ m. (initialize env.rtc m).0) id s in
      ap
        (λ o.
          after_initialize p env setup id (initialize env.rtc (own_manager is_initiator o)).1
            started)
        h
      ∙ ap (λ r. after_initialize p env setup id r started) works
      ∙ ap (λ r. announce_keys p env setup.room id r started) made

  attach-with_pending :
      (setup : Setup Key) (id : String) (is_initiator : Bool) (servers : List IceServer)
      (q : Dict (List Action)) (s : RoomState Key DB)
      → attach_manager setup id is_initiator servers (with_pending q s)
        ≡ with_pending q (attach_manager setup id is_initiator servers s)
  unfolding attach_manager
  attach-with_pending setup id is_initiator servers q s =
      update_peer-with_pending id (set_manager (new_manager is_initiator)) q _

  attach-pc_manager_of :
      (setup : Setup Key) (id : String) (is_initiator : Bool) (servers : List IceServer)
      (peer : Peer Key DB) (s : RoomState Key DB)
      → Dict.get id s.peers ≡ some peer
      → pc_manager_of id (attach_manager setup id is_initiator servers s)
        ≡ some (new_manager is_initiator)
  unfolding attach_manager
  attach-pc_manager_of setup id is_initiator servers peer s there =
      let set = set_manager (new_manager is_initiator) in
      pc_manager_of_peer id (attach_manager setup id is_initiator servers s) (set peer)
        (get-update_peer id set _ peer there)

  -- What the queue of `q` holds for `id` is run, and is taken out of it.
  flush-with_pending :
      (id : String) (actions : List Action) (q : Dict (List Action)) (s : RoomState Key DB)
      → Dict.get id q ≡ none
      → with_pending q s ≡ s
      → flush p env id (with_pending (Dict.set id actions q) s) ≡ run_actions p env id actions s
  unfolding drain
  flush-with_pending id actions q s empty same =
      flush-some p env id actions (with_pending (Dict.set id actions q) s)
        (Dict.get-set_self id actions q)
      ∙ ap (λ d. run_actions p env id actions (with_pending d s))
          (Dict.delete-set id actions q empty)
      ∙ ap (λ t. run_actions p env id actions t) same

  attach-pc_manager_of_pending :
      (setup : Setup Key) (id : String) (is_initiator : Bool) (servers : List IceServer)
      (peer : Peer Key DB) (q : Dict (List Action)) (s : RoomState Key DB)
      → Dict.get id s.peers ≡ some peer
      → pc_manager_of id (with_pending q (attach_manager setup id is_initiator servers s))
        ≡ some (new_manager is_initiator)
  unfolding pc_manager_of
  attach-pc_manager_of_pending setup id is_initiator servers peer q s there =
      attach-pc_manager_of setup id is_initiator servers peer s there

  -- A peer that is being set up has a placeholder and no queue yet. Whatever actions come for it
  -- before the manager is attached, in any number, the setup ends in the state in which it would end
  -- if they had come just after it: each of them is run once, in order, and none stays in the queue.
  -- This is where `initialize` and the making of the keys work.
  pub complete_setup-arrive :
      (setup : Setup Key) (id : String) (is_initiator : Bool) (servers : List IceServer)
      (actions : List Action) (packet : KeyExchangePacket) (peer : Peer Key DB)
      (s : RoomState Key DB)
      → Dict.get id s.peers ≡ some peer
      → peer.pc_manager ≡ none
      → Dict.get id s.pending_signaling_messages ≡ none
      → (initialize env.rtc (new_manager is_initiator)).1 ≡ ok tt
      → prepare_key_exchange p.crypto p.codec setup.x25519_pair setup.ed25519_pair ≡ ok packet
      → complete_setup p env setup id is_initiator
          (attach_manager setup id is_initiator servers (arrive p env id actions s))
        ≡ arrive p env id actions (
            complete_setup p env setup id is_initiator
              (attach_manager setup id is_initiator servers s))
  unfolding arrive
  complete_setup-arrive setup id b servers [] packet peer s there bare empty works made = refl
  complete_setup-arrive setup id b servers (a ∷ rest) packet peer s there bare empty works made =
      let q = s.pending_signaling_messages in
      let attached = attach_manager setup id b servers s in
      let ready = keyed setup id packet attached in
      let full = Dict.set id (a ∷ rest) q in
      let has = attach-pc_manager_of setup id b servers peer s there in
      let same : with_pending q ready ≡ ready = sym (
        ap (keyed setup id packet) (attach-with_pending setup id b servers q s)
        ∙ keyed-with_pending setup id packet q attached) in
      let waits : arrive p env id (a ∷ rest) s ≡ with_pending full s =
        arrive_waits p env id a rest s (pc_manager_of_peer id s peer there ∙ bare)
        ∙ ap (λ o. with_pending (Dict.set id (or_none o ++ (a ∷ rest)) q) s) empty in
      let done : complete_setup p env setup id b attached ≡ ready =
        complete_ready setup id b (new_manager b) packet attached has works made
        ∙ flush-none p env id ready
            (ap (λ t. Dict.get id t.pending_signaling_messages) (sym same) ∙ empty) in
      ap (λ t. complete_setup p env setup id b (attach_manager setup id b servers t)) waits
      ∙ ap (λ t. complete_setup p env setup id b t) (attach-with_pending setup id b servers full s)
      ∙ complete_ready setup id b (new_manager b) packet (with_pending full attached)
          (attach-pc_manager_of_pending setup id b servers peer full s there) works made
      ∙ ap (λ t. flush p env id t) (keyed-with_pending setup id packet full attached)
      ∙ flush-with_pending id (a ∷ rest) q ready empty same
      ∙ sym (
          arrive_runs p env id (a ∷ rest) ready (keyed-IsManaged setup id packet attached (_, has)))
      ∙ ap (λ t. arrive p env id (a ∷ rest) t) (sym done)
