-- ===== src/Transfer/Tests/Handshake.antt =====
-- The handshake of the sample transfer, and the hash of its file.
use shadowchat.Common.{ℕ, ◌≡◌, refl, [], ◌∷◌, String, ap, filter}
use shadowchat.Common.Results.{Result, ok, throws}
use shadowchat.Platform.Tables.{of_transfer}
use shadowchat.Platform.Sample.{
  sample_crypto, sample_codec, sample_codec-RoundTrips, sample_crypto-DecryptsAesGcm,
}
use shadowchat.Platform.Memory.{
  MemoryDb, empty_db, sample_hasher, sample_platform, memory_dexie-KeepsRows, chunk_rows_lem,
  sample_crypto-ReimportsKeys,
}
use shadowchat.Crypto.{generate_file_key, wrap_file_key, encrypt_text}
use shadowchat.Integrity.{compute_hash}
use shadowchat.Transfer.State.{IncomingTransferState, Metadata, Coordinator}
use shadowchat.Transfer.Offer.{Draws, seal_file, send_file, handle_metadata}
use shadowchat.Transfer.Receive.Arrival.{Receiving}
use shadowchat.Transfer.Handshake.{IsOffered, send_file-IsOffered}
use shadowchat.Transfer.Acceptance.{expects, handle_metadata-Receiving}
use shadowchat.Transfer.Tests.{id, iv, note, sender}

abbrev draws : Draws
draws = record {
  transfer_id = id;
  key_seed = 5 ∷ [];
  key_iv = 1 ∷ [];
  name_iv = 2 ∷ [];
  type_iv = 3 ∷ [];
  now = 100;
}

-- The sender before the transfer.
abbrev idle : Coordinator ℕ MemoryDb
idle = record sender { active_outgoing = [] }

abbrev state_of : Result (String × Coordinator ℕ MemoryDb) → Coordinator ℕ MemoryDb
state_of (ok (i, s)) = s
state_of (throws e) = idle

abbrev offered : Coordinator ℕ MemoryDb
offered = state_of (send_file sample_platform draws note idle)

sends : send_file sample_platform draws note idle ≡ ok (id, offered)
unfolding send_file seal_file generate_file_key wrap_file_key encrypt_text compute_hash
    sample_hasher sample_crypto sample_codec
sends = refl

send_file-IsOffered_example : IsOffered sample_platform draws note idle offered
send_file-IsOffered_example =
    send_file-IsOffered sample_platform sample_crypto-DecryptsAesGcm sample_codec-RoundTrips
      sample_crypto-ReimportsKeys draws note idle offered id refl sends

-- The offer once more, for the receiver.
note_offer : IsOffered sample_platform draws note idle offered
note_offer =
    send_file-IsOffered sample_platform sample_crypto-DecryptsAesGcm sample_codec-RoundTrips
      sample_crypto-ReimportsKeys draws note idle offered id refl sends

abbrev note_frame : Metadata
note_frame = note_offer.frame

handle_metadata-Receiving_example :
    (incoming : IncomingTransferState ℕ) × Receiving sample_platform memory_dexie-KeepsRows
      (expects sample_platform memory_dexie-KeepsRows note_frame note note_offer.key
        (λ i. iv)
        (λ i. []))
      []
      incoming
      (handle_metadata sample_platform 100 note_frame idle)
handle_metadata-Receiving_example =
    handle_metadata-Receiving sample_platform memory_dexie-KeepsRows 100 note_frame note
      note_offer.key (λ i. iv) (λ i. []) idle note_offer.describes refl
      (ap (filter (of_transfer note_frame.transfer_id)) (chunk_rows_lem empty_db))
