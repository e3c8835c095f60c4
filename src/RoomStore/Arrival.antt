-- ===== src/RoomStore/Arrival.antt =====
-- What a signaling message of a peer meets in frontend/src/stores/roomStore.ts: without a manager it waits,
-- with one it is run.
use shadowchat.Common.{
  ◌≡◌, refl, ap, ◌∙◌, List, [], ◌∷◌, ◌++◌, append_assoc, none, some, String, Option-cases, inl, inr,
}
use shadowchat.Common.Dict
use shadowchat.Common.Dict.{Dict}
use shadowchat.Platform.{Platform}
use shadowchat.WebRtc.{Manager}
use shadowchat.RoomStore.State.{
  Peer, Action, offer_action, answer_action, ice_action, key_action, RoomState,
}
use shadowchat.RoomStore.Basics.{Env, update_peer}
use shadowchat.RoomStore.Keys.{key_peer, finalize_key_exchange}
use shadowchat.RoomStore.Peers.{
  pc_manager_of, set_manager, on_manager, queued, push_action, drain, run_action, run_actions,
  queue_or_execute, flush,
}
use shadowchat.RoomStore.Finalized.{
  finalize-Keeps, manager-key_peer, receive_key_exchange-Finalizes,
}
use shadowchat.RoomStore.Updates.{
  with_pending, update_peer-some, get-update_peer, on_manager-some, on_manager-none,
  update_peer-none, pc_manager_of_peer, peer_of_manager,
}

module _ {Key DB : Type 0} (p : Platform Key DB) (env : Env) where
  -- The signaling messages of a peer, as they come.
  unfoldable pub arrive : String → List Action → RoomState Key DB → RoomState Key DB
  unfolding queue_or_execute
  arrive id [] s = s
  arrive id (a ∷ rest) s = arrive id rest (queue_or_execute p env id a s)

  queue_waits :
      (id : String) (a : Action) (s : RoomState Key DB)
      → pc_manager_of id s ≡ none
      → queue_or_execute p env id a s ≡ push_action id a s
  unfolding queue_or_execute
  queue_waits id a s h = rw (h, queue_or_execute) refl

  queue_runs :
      (id : String) (a : Action) (s : RoomState Key DB) (m : Manager)
      → pc_manager_of id s ≡ some m
      → queue_or_execute p env id a s ≡ run_action p env id a s
  unfolding queue_or_execute
  queue_runs id a s m h = rw (h, queue_or_execute) refl

  push-pc_manager_of :
      (id : String) (a : Action) (s : RoomState Key DB)
      → pc_manager_of id (push_action id a s) ≡ pc_manager_of id s
  unfolding push_action pc_manager_of
  push-pc_manager_of id a s = refl

  push-push :
      (id : String) (a : Action) (rest : List Action) (s : RoomState Key DB)
      → with_pending
          (Dict.set id
            (queued id (push_action id a s) ++ rest)
            (push_action id a s).pending_signaling_messages)
          (push_action id a s)
        ≡ with_pending (Dict.set id (queued id s ++ (a ∷ rest)) s.pending_signaling_messages) s
  unfolding push_action
  push-push id a rest s =
      rw
        (
          Dict.get-set_self id (queued id s ++ (a ∷ [])) s.pending_signaling_messages,
          Dict.set-set id ((queued id s ++ (a ∷ [])) ++ rest) (queued id s ++ (a ∷ []))
              s.pending_signaling_messages,
          append_assoc (queued id s) (a ∷ []) rest,
        )
        refl

  -- While there is no manager, what arrives is queued behind what is there.
  pub arrive_waits :
      (id : String) (a : Action) (rest : List Action) (s : RoomState Key DB)
      → pc_manager_of id s ≡ none
      → arrive id (a ∷ rest) s
        ≡ with_pending (Dict.set id (queued id s ++ (a ∷ rest)) s.pending_signaling_messages) s
  unfolding arrive
  arrive_waits id a [] s h = rw (queue_waits id a s h) (unfold push_action in refl)
  arrive_waits id a (b ∷ rest) s h =
      ap (λ t. arrive id (b ∷ rest) t) (queue_waits id a s h)
      ∙ arrive_waits id b rest (push_action id a s) (push-pc_manager_of id a s ∙ h)
      ∙ push-push id a (b ∷ rest) s

  abbrev pub IsManaged : String → RoomState Key DB → Type 0
  IsManaged id s = (m : Manager) × (pc_manager_of id s ≡ some m)

  pub IsManaged-peer :
      (id : String) (s : RoomState Key DB) (peer : Peer Key DB) (m : Manager)
      → Dict.get id s.peers ≡ some peer
      → peer.pc_manager ≡ some m
      → IsManaged id s
  IsManaged-peer id s peer m there has = (m, pc_manager_of_peer id s peer there ∙ has)

  pub on_manager-IsManaged :
      (f : Manager → Manager) (id : String) (s : RoomState Key DB)
      → IsManaged id s
      → IsManaged id (on_manager f id s)
  on_manager-IsManaged f id s (m, h) =
      let (peer, there, has) = peer_of_manager id s m h in
      rw (on_manager-some f id s m h) (
        IsManaged-peer id (update_peer id (set_manager (f m)) s) (set_manager (f m) peer) (f m)
          (get-update_peer id (set_manager (f m)) s peer there) refl)

  finalize-IsManaged :
      (id : String) (key : Key) (room : String) (s : RoomState Key DB)
      → IsManaged id s
      → IsManaged id (finalize_key_exchange p env id key room s)
  finalize-IsManaged id key room s (m, h) =
      let (peer, there, has) = peer_of_manager id s m h in
      let keyed = key_peer p env key room s.db in
      IsManaged-peer id (finalize_key_exchange p env id key room s) (keyed peer) m
        (ap (λ d. Dict.get id d) (finalize-Keeps p env id key room s).0
          ∙ get-update_peer id keyed s peer there)
        (manager-key_peer p env key room s.db peer ∙ has)

  run_action-IsManaged :
      (id : String) (a : Action) (s : RoomState Key DB)
      → IsManaged id s
      → IsManaged id (run_action p env id a s)
  unfolding run_action
  run_action-IsManaged id (offer_action sdp) s h = on_manager-IsManaged _ id s h
  run_action-IsManaged id (answer_action sdp) s h = on_manager-IsManaged _ id s h
  run_action-IsManaged id (ice_action candidate) s h = on_manager-IsManaged _ id s h
  run_action-IsManaged id (key_action packet) s h =
      elim (receive_key_exchange-Finalizes p env id packet s) [
        | inl e ↦ rw e h
        | inr (key, room, e) ↦ rw e (finalize-IsManaged id key room s h)
      ]

  -- Where there is a manager, what arrives runs at once, in order.
  pub arrive_runs :
      (id : String) (actions : List Action) (s : RoomState Key DB)
      → IsManaged id s
      → arrive id actions s ≡ run_actions p env id actions s
  unfolding arrive run_actions
  arrive_runs id [] s h = refl
  arrive_runs id (a ∷ rest) s h =
      ap (λ t. arrive id rest t) (queue_runs id a s h.0 h.1)
      ∙ arrive_runs id rest (run_action p env id a s) (run_action-IsManaged id a s h)

  pub flush-none :
      (id : String) (s : RoomState Key DB)
      → Dict.get id s.pending_signaling_messages ≡ none
      → flush p env id s ≡ s
  unfolding flush
  flush-none id s h = rw (h, flush) refl

  pub flush-some :
      (id : String) (actions : List Action) (s : RoomState Key DB)
      → Dict.get id s.pending_signaling_messages ≡ some actions
      → flush p env id s ≡ run_actions p env id actions (drain id s)
  unfolding flush
  flush-some id actions s h = rw (h, flush) refl

  update_peer-pending :
      (id : String) (f : Peer Key DB → Peer Key DB) (s : RoomState Key DB)
      → (update_peer id f s).pending_signaling_messages ≡ s.pending_signaling_messages
  update_peer-pending id f s = elim (Option-cases (Dict.get id s.peers)) [
    | inl none_there ↦ rw (update_peer-none id f s none_there) refl
    | inr (peer, there) ↦ rw (update_peer-some id f s peer there) refl
  ]

  on_manager-pending :
      (f : Manager → Manager) (id : String) (s : RoomState Key DB)
      → (on_manager f id s).pending_signaling_messages ≡ s.pending_signaling_messages
  on_manager-pending f id s = elim (Option-cases (pc_manager_of id s)) [
    | inl no_manager ↦ rw (on_manager-none f id s no_manager) refl
    | inr (m, has) ↦
        ap (λ t. t.pending_signaling_messages) (on_manager-some f id s m has)
        ∙ update_peer-pending id (set_manager (f m)) s
  ]

  -- An action that runs queues nothing.
  pub run_action-pending :
      (id : String) (a : Action) (s : RoomState Key DB)
      → (run_action p env id a s).pending_signaling_messages ≡ s.pending_signaling_messages
  unfolding run_action
  run_action-pending id (offer_action sdp) s = on_manager-pending _ id s
  run_action-pending id (answer_action sdp) s = on_manager-pending _ id s
  run_action-pending id (ice_action candidate) s = on_manager-pending _ id s
  run_action-pending id (key_action packet) s =
      elim (receive_key_exchange-Finalizes p env id packet s) [
        | inl e ↦ ap (λ t. t.pending_signaling_messages) e
        | inr (key, room, e) ↦
            ap (λ t. t.pending_signaling_messages) e
            ∙ (finalize-Keeps p env id key room s).1
            ∙ update_peer-pending id (key_peer p env key room s.db) s
      ]

  -- Between the moment at which the manager is attached and the flush, the queue of a peer can be
  -- full while the peer has a manager. An action that arrives then is run at once, before those that
  -- have been waiting.
  pub flush-arrive :
      (id : String) (a : Action) (waiting : List Action) (m : Manager) (s : RoomState Key DB)
      → pc_manager_of id s ≡ some m
      → Dict.get id s.pending_signaling_messages ≡ some waiting
      → flush p env id (arrive id (a ∷ []) s)
        ≡ run_actions p env id waiting (drain id (run_action p env id a s))
  unfolding arrive
  flush-arrive id a waiting m s has full =
      ap (λ t. flush p env id t) (queue_runs id a s m has)
      ∙ flush-some id waiting (run_action p env id a s)
          (ap (λ d. Dict.get id d) (run_action-pending id a s) ∙ full)
