-- ===== src/Transfer/Tests/Whole.antt =====
-- The sample file from one peer to the other.
use shadowchat.Common.{◌≡◌, refl, List, [], ◌∷◌, length, none, String, arith}
use shadowchat.Common.Dict
use shadowchat.Platform.Crypto.{Bytes}
use shadowchat.Platform.Sample.{sample_crypto-DecryptsAesGcm}
use shadowchat.Platform.Memory.{sample_platform, memory_dexie-KeepsRows, memory_dexie-StoresChunks}
use shadowchat.Transfer.Send.{stream_outgoing}
use shadowchat.Transfer.Overlap.{run_out, play, quiet}
use shadowchat.Transfer.Overlap.Complete.{IsFinished}
use shadowchat.Transfer.Whole.{packet_in, streamed_file}
use shadowchat.Transfer.Tests.{
  id, calm, offered_note, note_meta, expected_note, sender, receiver, note-IsSmooth, note-FitsWire,
  note_hash, turns, covered, receiver-Receiving, sender_active,
}

streamed_file_example :
    (sent : List (String × Bytes)) × ((stream_outgoing sample_platform calm id 0 100 sender).packets
      ≡ sent)
    × (Dict.get id (stream_outgoing sample_platform calm id 0 100 sender).active_outgoing ≡ none)
    × (length sent ≡ 1)
    × IsFinished id "a.txt"
        (1 ∷ 2 ∷ 3 ∷ [])
        (run_out sample_platform (play sample_platform (packet_in sent) turns (quiet receiver)))
streamed_file_example =
    streamed_file sample_platform calm id offered_note note-FitsWire sample_crypto-DecryptsAesGcm
      (λ i. refl) note_meta memory_dexie-KeepsRows memory_dexie-StoresChunks note-IsSmooth 100 turns
      sender receiver expected_note sender_active (omega arith) note_hash
      (omega arith, (omega arith, tt)) covered receiver-Receiving
