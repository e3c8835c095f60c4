-- ===== src/Transfer/Control/Pausing.antt =====
-- Pausing and resuming a transfer, on the side that receives.
use shadowchat.Common.{
  ℕ, ◌≡◌, refl, ap, ◌∙◌, List, [], ◌∷◌, ◌++◌, Option, none, some, String, true, false, All,
  append_assoc,
}
use shadowchat.Common.Dict
use shadowchat.Common.Dict.{Dict}
use shadowchat.Platform.{Platform}
use shadowchat.Platform.Crypto.{Bytes}
use shadowchat.Transfer.State.{
  IncomingTransferState, pause, resume_from, resume_after, Coordinator, send_control,
}
use shadowchat.Transfer.Send.{World}
use shadowchat.Transfer.Receive.{accept_chunk, deliver}
use shadowchat.Transfer.State.{for_outgoing, for_incoming, put_incoming}
use shadowchat.Transfer.Overlap.{Stage, admit, take_packet, with_running}
use shadowchat.Transfer.Control.{
  set_incoming_paused, pause_transfer, resume_transfer, handle_control,
}
use shadowchat.Transfer.Control.Cancelling.{IsChunk, deliver_ignored, take_packets_ignored}

module _ {Key DB : Type 0} (p : Platform Key DB) (w : World) (id : String)
    (i : IncomingTransferState Key) (c : Coordinator Key DB)
    (active : Dict.get id c.active_incoming ≡ some i)
    (receives : Dict.get id c.active_outgoing ≡ none) where
  -- The receiver once the peer has paused.
  abbrev held : Coordinator Key DB
  held = put_incoming id (set_incoming_paused true i) c

  held-active : Dict.get id held.active_incoming ≡ some (set_incoming_paused true i)
  held-active = Dict.get-set_self id (set_incoming_paused true i) c.active_incoming

  paused_by_peer : (now : ℕ) → handle_control p w now (pause id) c ≡ held
  unfolding handle_control
  paused_by_peer now =
      rw (handle_control, for_outgoing, receives, for_incoming, active)
        (rw (for_outgoing, receives) refl)

  resumed_by_peer :
      (now : ℕ) (last : Option ℕ) → handle_control p w now (resume_after id last) held ≡ held
  unfolding handle_control
  resumed_by_peer now last = rw (handle_control, for_outgoing, receives) refl

  -- A receiver of an incoming transfer, with no outgoing one of its id, that gets the sender's
  -- pause frame and then the sender's resume frame keeps the transfer paused: every packet of its
  -- chunks that comes after both frames changes nothing: whatever handlers are running and whatever
  -- objects they hold, it starts no other one.
  pub deliver-resume_after :
      (now later : ℕ) (last : Option ℕ) (packets : List Bytes)
      (objects : Dict (IncomingTransferState Key)) (ss : List Stage)
      → All (IsChunk p id) packets
      → let d =
          handle_control p w later (resume_after id last) (handle_control p w now (pause id) c) in
        (deliver p packets d ≡ held)
        × All
            (λ packet.
              take_packet p packet (with_running objects ss d) ≡ with_running objects ss held)
            packets
  deliver-resume_after now later last packets objects ss h =
      rw (paused_by_peer now, resumed_by_peer later last)
        (
          deliver_ignored p id packets held (λ chunk. rw held-active (unfold accept_chunk in refl))
              h,
          take_packets_ignored p id packets (with_running objects ss held)
              (λ chunk. rw held-active (unfold admit in refl)) h,
        )

  -- The receiver once it has paused.
  abbrev told : Coordinator Key DB
  told = record held { controls = c.controls ++ (pause id ∷ []) }

  pause_transfer_lem : c.control_open ≡ true → pause_transfer id c ≡ told
  unfolding pause_transfer send_control
  pause_transfer_lem open_now =
      rw (pause_transfer, for_outgoing, receives, for_incoming, active, open_now)
        (rw (for_outgoing, receives, send_control, open_now) refl)

  -- The receiver once it has paused and resumed.
  abbrev back : Coordinator Key DB
  back = record (put_incoming id (set_incoming_paused false i) held) {
    controls = c.controls ++ (pause id ∷ resume_from id i.contiguous_index ∷ []);
  }

  resume_transfer_lem : (now : ℕ) → c.control_open ≡ true → resume_transfer p w now id told ≡ back
  unfolding resume_transfer send_control
  resume_transfer_lem now open_now =
      rw (resume_transfer, receives, for_incoming, held-active, open_now)
        (rw (append_assoc c.controls (pause id ∷ []) (resume_from id i.contiguous_index ∷ [])) refl)

  -- For an incoming transfer that is not paused, and no outgoing one with its id, while the control
  -- channel is open: `pauseTransfer` followed by `resumeTransfer` restores the entry of the
  -- transfer, and sends a pause frame and a resume frame with the entry's contiguous index.
  pub resume_transfer-pause_transfer :
      (now : ℕ)
      → i.paused ≡ false
      → c.control_open ≡ true
      → (Dict.get id (resume_transfer p w now id (pause_transfer id c)).active_incoming ≡ some i)
        × ((resume_transfer p w now id (pause_transfer id c)).controls
            ≡ c.controls ++ (pause id ∷ resume_from id i.contiguous_index ∷ []))
  resume_transfer-pause_transfer now running open_now =
      rw
        (ap (resume_transfer p w now id) (pause_transfer_lem open_now)
          ∙ resume_transfer_lem now open_now)
        (
          Dict.get-set_self id (set_incoming_paused false i) held.active_incoming ∙ rw running refl,
          refl,
        )
