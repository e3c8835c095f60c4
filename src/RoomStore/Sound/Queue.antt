-- ===== src/RoomStore/Sound/Queue.antt =====
-- The queued actions of frontend/src/stores/roomStore.ts keep the peers and the timers sound.
use mathlib.Core.Path.{subst}
use shadowchat.Common.{◌≡◌, refl, sym, List, [], ◌∷◌, String, Option-cases, inl, inr}
use shadowchat.Common.Dict
use shadowchat.Platform.{Platform}
use shadowchat.RoomStore.State.{
  Action, offer_action, answer_action, ice_action, key_action, RoomState,
}
use shadowchat.RoomStore.Basics.{Env}
use shadowchat.RoomStore.Peers.{
  pc_manager_of, run_action, run_actions, queue_or_execute, push_action, flush, drain,
}
use shadowchat.RoomStore.Sound.{Holds}
use shadowchat.RoomStore.Sound.Keys.{receive_key_exchange-Holds}
use shadowchat.RoomStore.Sound.Managers.{on_manager-Holds}

module _ {Key DB : Type 0} (p : Platform Key DB) (env : Env) where
  run_action-Holds :
      {start : RoomState Key DB} (id : String) (a : Action) (s : RoomState Key DB)
      → Holds start s
      → Holds start (run_action p env id a s)
  unfolding run_action
  run_action-Holds id (offer_action sdp) s h = on_manager-Holds _ id s h
  run_action-Holds id (answer_action sdp) s h = on_manager-Holds _ id s h
  run_action-Holds id (ice_action candidate) s h = on_manager-Holds _ id s h
  run_action-Holds id (key_action packet) s h = receive_key_exchange-Holds p env id packet s h

  run_actions-Holds :
      {start : RoomState Key DB} (id : String) (actions : List Action) (s : RoomState Key DB)
      → Holds start s
      → Holds start (run_actions p env id actions s)
  unfolding run_actions
  run_actions-Holds id [] s h = h
  run_actions-Holds id (a ∷ rest) s h =
      run_actions-Holds id rest (run_action p env id a s) (run_action-Holds id a s h)

  pub queue_or_execute-Holds :
      {start : RoomState Key DB} (id : String) (a : Action) (s : RoomState Key DB)
      → Holds start s
      → Holds start (queue_or_execute p env id a s)
  unfolding queue_or_execute push_action
  queue_or_execute-Holds id a s h = elim (Option-cases (pc_manager_of id s)) [
    | inl no_manager ↦
        let e : queue_or_execute p env id a s ≡ push_action id a s =
          rw (no_manager, queue_or_execute) refl in
        subst (Holds _) (sym e) (record { peers = h.peers; timers = h.timers; since = h.since })
    | inr (m, has) ↦
        let e : queue_or_execute p env id a s ≡ run_action p env id a s =
          rw (has, queue_or_execute) refl in
        subst (Holds _) (sym e) (run_action-Holds id a s h)
  ]

  pub flush-Holds :
      {start : RoomState Key DB} (id : String) (s : RoomState Key DB)
      → Holds start s
      → Holds start (flush p env id s)
  unfolding flush drain
  flush-Holds id s h = elim (Option-cases (Dict.get id s.pending_signaling_messages)) [
    | inl empty ↦ let e : flush p env id s ≡ s = rw (empty, flush) refl in subst (Holds _) (sym e) h
    | inr (actions, full) ↦
        let e : flush p env id s ≡ run_actions p env id actions (drain id s) =
          rw (full, flush) refl in
        subst (Holds _) (sym e) (
          run_actions-Holds id actions (drain id s)
            (record { peers = h.peers; timers = h.timers; since = h.since }))
  ]
