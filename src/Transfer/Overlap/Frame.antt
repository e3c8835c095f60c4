-- ===== src/Transfer/Overlap/Frame.antt =====
-- What no step of a handler changes, whatever stage it is in.
use shadowchat.Common.{
  ◌≡◌, refl, sym, List, [], ◌∷◌, ◌++◌, Option, none, some, String, Bool, true, false, leb,
  Bool-cases, inl, inr, append-nil,
}
use shadowchat.Common.Dict
use shadowchat.Common.Results.{Result, ok, throws}
use shadowchat.Platform.{Platform}
use shadowchat.Platform.Crypto.{Bytes}
use shadowchat.Platform.Tables.{StoredFileMeta}
use shadowchat.Storage.{get_file_meta, save_chunk, save_file_meta, clear_transfer_chunks}
use shadowchat.Transfer.State.{
  IncomingTransferState, Coordinator, TransferProgress, Event, progressed, finished, failed_with,
  notify, set_db,
}
use shadowchat.Transfer.Receive.{chunk_progress}
use shadowchat.Transfer.Overlap.{
  Stage, saving, saved, reading, read, writing, written, checking, marking, fetching, clearing,
  closing, closed, Moved, id_of, to_fetch, tally, refresh, moved, end_chunk, tell_verdict, resume,
}
use shadowchat.Transfer.Overlap.Ending.{Next}

module _ {Key DB : Type 0} where
  -- The name of the file and the callbacks stay, the transfer does not come back into the map, events
  -- are only added, and the handler goes on with its own transfer.
  pub record Framed (id : String) (o : IncomingTransferState Key) (c : Coordinator Key DB)
      (m : Moved Key DB) : Type 0 where
    pub same_meta : m.object.meta ≡ o.meta
    pub handlers : m.coordinator.handlers ≡ c.handlers
    pub stays_gone :
        Dict.get id c.active_incoming ≡ none → Dict.get id m.coordinator.active_incoming ≡ none
    pub added : (more : List Event) × (m.coordinator.events ≡ c.events ++ more)
    pub ours : Next (λ n. id_of n ≡ id) m.next

  set_db-Framed :
      (id : String) (o : IncomingTransferState Key) (c : Coordinator Key DB) (db : DB) (n : Stage)
      → id_of n ≡ id
      → Framed id o c (moved (set_db db c) o n)
  set_db-Framed id o c db n h = record {
    same_meta = refl;
    handlers = refl;
    stays_gone = λ g. g;
    added = ([], sym (append-nil c.events));
    ours = h;
  }

  refresh-Framed :
      (id : String) (o : IncomingTransferState Key) (c : Coordinator Key DB)
      (found : Option (IncomingTransferState Key))
      → Dict.get id c.active_incoming ≡ found
      → Framed id o c (moved (refresh id (tally o) c) (tally o) (reading id))
  refresh-Framed id o c none h =
      rw (refresh, h)
        (record {
          same_meta = refl;
          handlers = refl;
          stays_gone = λ g. cc;
          added = ([], sym (append-nil c.events));
          ours = refl;
        })
  refresh-Framed id o c (some i) h =
      rw (refresh, h)
        (record {
          same_meta = refl;
          handlers = refl;
          stays_gone = λ g. cc;
          added = ([], sym (append-nil c.events));
          ours = refl;
        })

  notify-Framed :
      (id : String) (o : IncomingTransferState Key) (c : Coordinator Key DB) (b : Bool) (e : Event)
      → Framed id o c (record { coordinator = notify b e c; object = o; next = none })
  notify-Framed id o c true e = record {
    same_meta = refl;
    handlers = refl;
    stays_gone = λ g. g;
    added = (e ∷ [], refl);
    ours = tt;
  }
  notify-Framed id o c false e = record {
    same_meta = refl;
    handlers = refl;
    stays_gone = λ g. g;
    added = ([], sym (append-nil c.events));
    ours = tt;
  }

  end_chunk-Framed :
      (id : String) (progress : TransferProgress) (o : IncomingTransferState Key)
      (c : Coordinator Key DB)
      → Framed id o c (end_chunk id progress o c)
  unfolding end_chunk
  end_chunk-Framed id progress o c =
      let f = notify-Framed id o c c.handlers.on_progress (progressed progress) in
      elim (Bool-cases (leb o.total_chunks o.chunks_received_count)) [
        | inl full ↦ rw full (record {
          same_meta = refl;
          handlers = f.handlers;
          stays_gone = λ g.
              Dict.get-delete_self id
                (notify c.handlers.on_progress (progressed progress) c).active_incoming;
          added = f.added;
          ours = refl;
        })
        | inr more ↦ rw more f
      ]

  tell_verdict-Framed :
      (id : String) (r : Result Bytes) (o : IncomingTransferState Key) (c : Coordinator Key DB)
      → Framed id o c (record { coordinator = tell_verdict id r o c; object = o; next = none })
  tell_verdict-Framed id (ok blob) o c =
      notify-Framed id o c c.handlers.on_complete (finished id blob o.meta.file_name)
  tell_verdict-Framed id (throws e) o c =
      notify-Framed id o c c.handlers.on_failed (failed_with id e)

module _ {Key DB : Type 0} (p : Platform Key DB) where
  pub resume-Framed :
      (s : Stage) (o : IncomingTransferState Key) (c : Coordinator Key DB)
      → Framed (id_of s) o c (resume p s o c)
  unfolding resume
  resume-Framed (saving row) o c =
      set_db-Framed row.transfer_id o c (save_chunk p.dexie row c.db).0 (saved row.transfer_id) refl
  resume-Framed (saved id) o c = refresh-Framed id o c _ refl
  resume-Framed (reading id) o c =
      set_db-Framed id o c c.db (read id (get_file_meta p.dexie id c.db)) refl
  resume-Framed (read id none) o c = end_chunk-Framed id (chunk_progress id o) o c
  resume-Framed (read id (some meta)) o c = set_db-Framed id o c c.db _ refl
  resume-Framed (writing id meta progress) o c =
      set_db-Framed id o c (save_file_meta p.dexie meta c.db) (written id progress) refl
  resume-Framed (written id progress) o c = end_chunk-Framed id progress o c
  resume-Framed (checking id) o c = set_db-Framed id o c c.db (to_fetch id found) (go found)
    where
      found : Option StoredFileMeta
      found = get_file_meta p.dexie id c.db

      go : (meta : Option StoredFileMeta) → id_of (to_fetch id meta) ≡ id
      go none = refl
      go (some meta) = refl
  resume-Framed (marking id meta) o c =
      set_db-Framed id o c (save_file_meta p.dexie meta c.db) (fetching id (some meta)) refl
  resume-Framed (fetching id meta) o c = set_db-Framed id o c c.db _ refl
  resume-Framed (clearing id none r) o c =
      set_db-Framed id o c (clear_transfer_chunks p.dexie id c.db) (closed id r) refl
  resume-Framed (clearing id (some meta) r) o c =
      set_db-Framed id o c (clear_transfer_chunks p.dexie id c.db) _ refl
  resume-Framed (closing id meta r) o c =
      set_db-Framed id o c (save_file_meta p.dexie meta c.db) (closed id r) refl
  resume-Framed (closed id r) o c = tell_verdict-Framed id r o c
