-- ===== src/Transfer/Offer.antt =====
-- How a transfer begins, in frontend/src/lib/engines/transfer.ts: `sendFile` on one side, and
-- `case 'metadata'` of `handleControlMessage` with `acceptTransfer` on the other.
use shadowchat.Common.{ℕ, [], none, String, true, false, if◌then◌else◌}
use shadowchat.Common.Results.{Result, ok, throws, ◌>>=◌}
use shadowchat.Platform.{Platform}
use shadowchat.Platform.Crypto.{Bytes}
use shadowchat.Platform.Tables.{StoredFileMeta, pending, incoming, outgoing}
use shadowchat.Storage.{save_file_meta}
use shadowchat.Crypto.{
  EncryptedData, encrypt_text, decrypt_text, generate_file_key, wrap_file_key, unwrap_file_key,
}
use shadowchat.Integrity.{compute_hash}
use shadowchat.Transfer.State.{
  File, size, OutgoingTransferState, IncomingTransferState, Metadata, metadata, accept, Offered,
  incoming_transfer, incoming_transfer_request, for_incoming, put_outgoing, put_incoming,
  Coordinator, no_progress, chunks_for, notify, send_control, set_db,
}

-- What `sendFile` draws and reads: the id, the file key, the IVs of the wrapped key, the name and the
-- type, and the time.
pub record Draws : Type 0 where
  pub transfer_id : String
  pub key_seed : Bytes
  pub key_iv : Bytes
  pub name_iv : Bytes
  pub type_iv : Bytes
  pub now : ℕ

-- What `sendFile` has computed before it changes anything.
pub record Sealed (Key : Type 0) : Type 0 where
  pub file_key : Key
  pub wrapped : EncryptedData
  pub name : EncryptedData
  pub kind : EncryptedData
  pub hash : String

module _ {Key : Type 0} where
  abbrev pub frame_of : String → ℕ → Sealed Key → Metadata
  frame_of id size_bytes sealed = record {
    transfer_id = id;
    encrypted_name = sealed.name.ciphertext;
    name_iv = sealed.name.iv;
    encrypted_type = sealed.kind.ciphertext;
    type_iv = sealed.kind.iv;
    size_bytes = size_bytes;
    wrapped_key = sealed.wrapped.ciphertext;
    key_iv = sealed.wrapped.iv;
    hash = sealed.hash;
  }

  abbrev pub fresh_outgoing : File → Key → OutgoingTransferState Key
  fresh_outgoing file key = record {
    file = file;
    file_key = key;
    paused = false;
    cancelled = false;
    last_sent_index = none;
  }

module _ {Key DB : Type 0} where
  unfoldable pub accept_transfer : String → Coordinator Key DB → Coordinator Key DB
  unfolding send_control
  accept_transfer id c = for_incoming id (λ i d. send_control (accept id) d) c

module _ {Key DB : Type 0} (p : Platform Key DB) where
  -- The first half of `sendFile`: the key is drawn and wrapped, name and type are encrypted, and the
  -- file is hashed. Each call may throw.
  unfoldable pub seal_file : Draws → File → Coordinator Key DB → Result (Sealed Key)
  seal_file d file c = do
    file_key ← generate_file_key p.crypto p.codec d.key_seed
    wrapped ← wrap_file_key p.crypto p.codec c.room_key file_key d.key_iv
    name ← encrypt_text p.crypto p.codec c.room_key file.name d.name_iv
    kind ← encrypt_text p.crypto p.codec c.room_key file.kind d.type_iv
    hash ← compute_hash p.hasher file.content
    ok (record { file_key = file_key; wrapped = wrapped; name = name; kind = kind; hash = hash })

  -- The second half: the row of the file, the entry of the transfer, and the metadata frame.
  unfoldable pub announce_file : Draws → File → Sealed Key → Coordinator Key DB → Coordinator Key DB
  unfolding send_control
  announce_file d file sealed c =
      let db =
        save_file_meta p.dexie
          (record {
            id = d.transfer_id;
            room_id = c.room_id;
            encrypted_name = sealed.name.ciphertext;
            encrypted_type = sealed.kind.ciphertext;
            size_bytes = size file;
            hash = sealed.hash;
            status = pending;
            direction = outgoing;
            progress = no_progress;
            added_at = d.now;
          })
          c.db in
      send_control (metadata (frame_of d.transfer_id (size file) sealed))
        (put_outgoing d.transfer_id (fresh_outgoing file sealed.file_key) (set_db db c))

  unfoldable pub send_file :
      Draws → File → Coordinator Key DB → Result (String × Coordinator Key DB)
  unfolding seal_file announce_file
  send_file d file c = do
    sealed ← seal_file d file c
    ok (d.transfer_id, announce_file d file sealed c)

  -- The three calls of the crypto engine at the start of `case 'metadata'`, each of which may throw.
  unfoldable pub open_metadata : Metadata → Coordinator Key DB → Result (String × String × Key)
  open_metadata m c = do
    file_name ← decrypt_text p.crypto p.codec c.room_key m.encrypted_name m.name_iv
    file_type ← decrypt_text p.crypto p.codec c.room_key m.encrypted_type m.type_iv
    file_key ← unwrap_file_key p.crypto p.codec c.room_key m.wrapped_key m.key_iv
    ok (file_name, file_type, file_key)

  unfoldable pub new_incoming : Metadata → String → String → Key → IncomingTransferState Key
  new_incoming m file_name file_type file_key = record {
    meta = record {
      file_name = file_name;
      size_bytes = m.size_bytes;
      file_type = file_type;
      hash = m.hash;
    };
    file_key = file_key;
    paused = false;
    cancelled = false;
    chunks_received_count = 0;
    total_chunks = chunks_for m.size_bytes;
    received_chunks = [];
    contiguous_index = 0;
  }

  -- The end of `case 'metadata'`: the owner is asked, or the transfer is accepted at once.
  unfoldable pub offer : Metadata → String → String → Coordinator Key DB → Coordinator Key DB
  unfolding accept_transfer
  offer m file_name file_type c =
      let offered : Offered = record {
        transfer_id = m.transfer_id;
        file_name = file_name;
        size_bytes = m.size_bytes;
        file_type = file_type;
      } in
      let told = notify c.handlers.on_incoming_transfer (incoming_transfer offered) c in
      if c.handlers.on_incoming_transfer_request
      then notify true (incoming_transfer_request offered) told
      else accept_transfer m.transfer_id told

  -- The row of an incoming file.
  abbrev pub incoming_row : ℕ → String → Metadata → StoredFileMeta
  incoming_row now room_id m = record {
    id = m.transfer_id;
    room_id = room_id;
    encrypted_name = m.encrypted_name;
    encrypted_type = m.encrypted_type;
    size_bytes = m.size_bytes;
    hash = m.hash;
    status = pending;
    direction = incoming;
    progress = no_progress;
    added_at = now;
  }

  -- The entry of the transfer, and the row of its file.
  abbrev pub begin_incoming :
      ℕ → Metadata → IncomingTransferState Key → Coordinator Key DB → Coordinator Key DB
  begin_incoming now m i c =
      set_db (save_file_meta p.dexie (incoming_row now c.room_id m) c.db)
        (put_incoming m.transfer_id i c)

  -- `case 'metadata'`. An exception is caught and only logged.
  unfoldable pub handle_metadata : ℕ → Metadata → Coordinator Key DB → Coordinator Key DB
  unfolding open_metadata new_incoming offer
  handle_metadata now m c = elim (open_metadata m c) [
    | throws e ↦ c
    | ok (file_name, file_type, file_key) ↦
        offer m file_name file_type
          (begin_incoming now m (new_incoming m file_name file_type file_key) c)
  ]
