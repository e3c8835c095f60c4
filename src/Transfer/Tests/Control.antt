-- ===== src/Transfer/Tests/Control.antt =====
-- The sample transfer paused, resumed and cancelled.
use shadowchat.Common.{◌≡◌, refl, [], ◌∷◌, some, none, true, All}
use shadowchat.Common.Dict
use shadowchat.Platform.Crypto.{Bytes}
use shadowchat.Platform.Sample.{sample_crypto, sample_codec}
use shadowchat.Platform.Memory.{sample_platform}
use shadowchat.Transfer.Chunk.{set_bytes, serialize_chunk, deserialize_chunk}
use shadowchat.Transfer.State.{pause, resume_from, resume_after}
use shadowchat.Transfer.Send.{make_packet}
use shadowchat.Transfer.Send.Streaming.{packet_at}
use shadowchat.Transfer.Receive.{deliver}
use shadowchat.Transfer.Overlap.{saved, take_packet, with_running}
use shadowchat.Transfer.Control.{
  set_incoming_paused, pause_transfer, resume_transfer, cancel_transfer, handle_control,
}
use shadowchat.Transfer.State.{put_incoming}
use shadowchat.Transfer.Control.Cancelling.{IsChunk, IsGone, deliver-cancel_transfer}
use shadowchat.Transfer.Control.Pausing.{deliver-resume_after, resume_transfer-pause_transfer}
use shadowchat.Transfer.Tests.{id, note, calm, expected_note, receiver}

abbrev packet : Bytes
packet = packet_at sample_platform calm id note 5 0

packet_IsChunk : IsChunk sample_platform id packet
unfolding make_packet serialize_chunk set_bytes deserialize_chunk sample_crypto sample_codec
packet_IsChunk = (_, refl, refl)

receiver_active : Dict.get id receiver.active_incoming ≡ some expected_note
unfolding Dict.get
receiver_active = refl

deliver-resume_after_example :
    let d =
      handle_control sample_platform calm 9
        (resume_after id none)
        (handle_control sample_platform calm 8 (pause id) receiver) in
    let waits = put_incoming id (set_incoming_paused true expected_note) receiver in
    (deliver sample_platform (packet ∷ []) d ≡ waits)
    × All
        (λ q.
          take_packet sample_platform q (with_running [] (saved id ∷ []) d)
          ≡ with_running [] (saved id ∷ []) waits)
        (packet ∷ [])
deliver-resume_after_example =
    deliver-resume_after sample_platform calm id expected_note receiver receiver_active
      (unfold Dict.get in refl) 8 9 none (packet ∷ []) [] (saved id ∷ []) (packet_IsChunk, tt)

resume_transfer-pause_transfer_example :
    (Dict.get id
        (resume_transfer sample_platform calm 7 id (pause_transfer id receiver)).active_incoming
      ≡ some expected_note)
    × ((resume_transfer sample_platform calm 7 id (pause_transfer id receiver)).controls
        ≡ pause id ∷ resume_from id 0 ∷ [])
resume_transfer-pause_transfer_example =
    resume_transfer-pause_transfer sample_platform calm id expected_note receiver receiver_active
      (unfold Dict.get in refl) 7 refl refl

deliver-cancel_transfer_example :
    IsGone id (cancel_transfer sample_platform id receiver)
    × (deliver sample_platform (packet ∷ []) (cancel_transfer sample_platform id receiver)
        ≡ cancel_transfer sample_platform id receiver)
    × All
        (λ q.
          take_packet sample_platform q
            (with_running [] (saved id ∷ []) (cancel_transfer sample_platform id receiver))
          ≡ with_running [] (saved id ∷ []) (cancel_transfer sample_platform id receiver))
        (packet ∷ [])
deliver-cancel_transfer_example =
    deliver-cancel_transfer sample_platform id (packet ∷ []) receiver [] (saved id ∷ [])
      (packet_IsChunk, tt)
