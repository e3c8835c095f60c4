-- ===== src/Transfer/Acceptance.antt =====
-- What a receiver makes of the metadata frame of a transfer: `case 'metadata'`.
use shadowchat.Common.{
  ℕ, ◌≡◌, refl, ap, ◌∙◌, [], Option, none, some, String, Bool, true, false, filter, if◌then◌else◌,
  Bool,
}
use shadowchat.Common.Dict
use shadowchat.Common.Results.{ok}
use shadowchat.Platform.{Platform}
use shadowchat.Platform.Crypto.{Bytes}
use shadowchat.Platform.Tables.{KeepsRows, of_transfer}
use shadowchat.Storage.Rows.{chunks-save_file_meta}
use shadowchat.Transfer.State.{
  File, chunks_for, IncomingTransferState, Metadata, accept, Control, Handlers, Coordinator,
  send_control,
}
use shadowchat.Transfer.Offer.{
  open_metadata, new_incoming, incoming_row, begin_incoming, offer, accept_transfer,
  handle_metadata,
}
use shadowchat.Transfer.Receive.Arrival.{Expected, Receiving, Alike, notify-Alike}
use shadowchat.Transfer.Handshake.{Describes}

module _ {Key DB : Type 0} (p : Platform Key DB) where
  module _ (k : KeepsRows p.dexie) where
    -- What a receiver expects of the transfer that a frame describes.
    abbrev pub expects :
        (m : Metadata) (file : File) (key : Key) (iv ciphertext : ℕ → Bytes) → Expected Key
    expects m file key iv ciphertext = record {
      id = m.transfer_id;
      key = key;
      meta = record {
        file_name = file.name;
        size_bytes = m.size_bytes;
        file_type = file.kind;
        hash = m.hash;
      };
      total = chunks_for m.size_bytes;
      iv = iv;
      ciphertext = ciphertext;
    }

    if-Alike :
        {a x y : Coordinator Key DB} (b : Bool)
        → Alike p k a x
        → Alike p k a y
        → Alike p k a (if b then x else y)
    if-Alike true hx hy = hx
    if-Alike false hx hy = hy

    send_control-Alike :
        (frame : Control) (c : Coordinator Key DB) → Alike p k c (send_control frame c)
    unfolding send_control
    send_control-Alike frame c =
        if-Alike c.control_open (record { incoming = refl; handlers = refl; rows = refl })
          (record { incoming = refl; handlers = refl; rows = refl })

    send_if-Alike :
        (frame : Control) (found : Option (IncomingTransferState Key)) (c : Coordinator Key DB)
        → Alike p k c (elim found [ none ↦ c | some i ↦ send_control frame c ])
    send_if-Alike frame none c = record { incoming = refl; handlers = refl; rows = refl }
    send_if-Alike frame (some i) c = send_control-Alike frame c

    accept_transfer-Alike :
        (id : String) (c : Coordinator Key DB) → Alike p k c (accept_transfer id c)
    unfolding accept_transfer
    accept_transfer-Alike id c = send_if-Alike (accept id) (Dict.get id c.active_incoming) c

    Alike-trans : {a b c : Coordinator Key DB} → Alike p k a b → Alike p k b c → Alike p k a c
    Alike-trans ab bc = record {
      incoming = bc.incoming ∙ ab.incoming;
      handlers = bc.handlers ∙ ab.handlers;
      rows = bc.rows ∙ ab.rows;
    }

    offer-Alike :
        (m : Metadata) (name kind : String) (c : Coordinator Key DB)
        → Alike p k c (offer p m name kind c)
    unfolding offer
    offer-Alike m name kind c =
        if-Alike c.handlers.on_incoming_transfer_request
          (Alike-trans (notify-Alike p k c.handlers.on_incoming_transfer _ c)
            (notify-Alike p k true _ _))
          (Alike-trans (notify-Alike p k c.handlers.on_incoming_transfer _ c)
            (accept_transfer-Alike m.transfer_id _))

    open_metadata-Describes :
        (m : Metadata) (file : File) (key : Key) (c : Coordinator Key DB)
        → Describes p c.room_key file key m
        → open_metadata p m c ≡ ok (file.name, file.kind, key)
    unfolding open_metadata
    open_metadata-Describes m file key c h = rw (h.name_opens, h.kind_opens, h.key_opens) refl

    offer-Receiving :
        (m : Metadata) (file : File) (key : Key) (iv ciphertext : ℕ → Bytes)
        (c : Coordinator Key DB)
        → Dict.get m.transfer_id c.active_incoming ≡ some (new_incoming p m file.name file.kind key)
        → c.handlers.on_complete ≡ true
        → filter (of_transfer m.transfer_id) (k.chunk_rows c.db) ≡ []
        → Receiving p k
            (expects m file key iv ciphertext)
            []
            (new_incoming p m file.name file.kind key)
            (offer p m file.name file.kind c)
    unfolding new_incoming
    offer-Receiving m file key iv ciphertext c active listens clean =
        let kept = offer-Alike m file.name file.kind c in
        record {
          active = ap (Dict.get m.transfer_id) kept.incoming ∙ active;
          running = refl;
          kept = refl;
          same_key = refl;
          same_meta = refl;
          same_total = refl;
          marked = refl;
          counted = refl;
          stored = ap (filter (of_transfer m.transfer_id)) kept.rows ∙ clean;
          distinct = tt;
          below = tt;
          listens = ap (λ (t : Handlers). t.on_complete) kept.handlers ∙ listens;
        }

    -- Where the database keeps its rows, a receiver that listens to completion, handles a frame
    -- which describes a file under its room key, and has no chunk of that transfer stored, is ready
    -- to receive: the transfer is active with the file's key, name, type and hash, and no chunk is
    -- marked, counted or stored.
    pub handle_metadata-Receiving :
        (now : ℕ) (m : Metadata) (file : File) (key : Key) (iv ciphertext : ℕ → Bytes)
        (c : Coordinator Key DB)
        → Describes p c.room_key file key m
        → c.handlers.on_complete ≡ true
        → filter (of_transfer m.transfer_id) (k.chunk_rows c.db) ≡ []
        → (incoming : IncomingTransferState Key) × Receiving p k
            (expects m file key iv ciphertext)
            []
            incoming
            (handle_metadata p now m c)
    unfolding handle_metadata new_incoming
    handle_metadata-Receiving now m file key iv ciphertext c h listens clean =
        rw (handle_metadata, open_metadata-Describes m file key c h)
          (
            new_incoming p m file.name file.kind key,
            offer-Receiving m file key iv ciphertext
                (begin_incoming p now m (new_incoming p m file.name file.kind key) c)
                (Dict.get-set_self m.transfer_id _ c.active_incoming) listens
                (ap (filter (of_transfer m.transfer_id))
                    (chunks-save_file_meta p.dexie k (incoming_row p now c.room_id m) c.db)
                  ∙ clean),
          )
