-- ===== src/Transfer/Overlap/Alone.antt =====
-- A handler that no other one overlaps is `handle_data_message`, the handler in one step.
use shadowchat.Common.{
  ℕ, zero, suc, ◌≡◌, refl, sym, ap, ◌∙◌, [], ◌∷◌, ◌++◌, Option, none, some, String, Bool, true,
  false, leb, elem, ◌||◌, if◌then◌else◌,
}
use mathlib.Core.Path.{subst}
use shadowchat.Common.Dict
use shadowchat.Common.Dict.{Dict}
use shadowchat.Common.Results.{Result, ok, throws}
use shadowchat.Platform.{Platform}
use shadowchat.Platform.Crypto.{Bytes}
use shadowchat.Platform.Tables.{StoredFileMeta}
use shadowchat.Storage.{get_file_meta, save_chunk, save_file_meta, get_transfer_chunks}
use shadowchat.Transfer.Chunk.{Chunk, deserialize_chunk}
use shadowchat.Transfer.State.{
  IncomingTransferState, Coordinator, TransferProgress, put_incoming, progressed, notify, set_db,
  drop_incoming, save_with,
}
use shadowchat.Transfer.Receive.{
  verifying_meta, received_meta, chunk_progress, count_chunk, rebuild, conclude, reassemble_file,
  report_chunk, keep_chunk, store_chunk, accept_chunk, handle_data_message,
}
use shadowchat.Transfer.Overlap.{
  Moved, put_at, to_fetch, Stage, saving, reading, read, checking, clearing, Traffic, id_of,
  mark_chunk, tally, refresh, moved, end_chunk, resume, resume_held, resume_at, admit, take_packet,
  finish, run_out, quiet,
}
use shadowchat.Transfer.Overlap.Ending.{Next}
use shadowchat.Transfer.Overlap.Frame.{resume-Framed}

module _ {Key DB : Type 0} (p : Platform Key DB) where
  -- The steps of one handler.
  alone : ℕ → Stage → IncomingTransferState Key → Coordinator Key DB → Coordinator Key DB
  unfolding resume
  alone zero s o c = c
  alone (suc n) s o c =
      let m = resume p s o c in
      elim m.next [ none ↦ m.coordinator | some s' ↦ alone n s' m.object m.coordinator ]

  finish_nobody :
      (n : ℕ) (c : Coordinator Key DB) (held : Dict (IncomingTransferState Key))
      → (finish p n (record { coordinator = c; held = held; running = [] })).coordinator ≡ c
  unfolding finish resume_at
  finish_nobody zero c held = refl
  finish_nobody (suc n) c held = finish_nobody n c held

  finish-alone :
      (n : ℕ) (s : Stage) (o : IncomingTransferState Key) (c : Coordinator Key DB)
      (held : Dict (IncomingTransferState Key))
      → Dict.get (id_of s) held ≡ some o
      → (finish p n (record { coordinator = c; held = held; running = s ∷ [] })).coordinator
        ≡ alone n s o c
  unfolding finish resume_at resume_held alone
  finish-alone zero s o c held h = refl
  finish-alone (suc n) s o c held h =
      subst
        (λ found.
          (finish p n (
            resume_held p 0 s found
              (record { coordinator = c; held = held; running = s ∷ [] }))).coordinator
          ≡ alone (suc n) s o c)
        (sym h)
        (go (λ s' hd here. finish-alone n s' m.object m.coordinator hd here) m.next
          (resume-Framed p s o c).ours)
    where
      m : Moved Key DB
      m = resume p s o c

      go :
          ((s' : Stage) (hd : Dict (IncomingTransferState Key))
            → Dict.get (id_of s') hd ≡ some m.object
            → (finish p n
                (record { coordinator = m.coordinator; held = hd; running = s' ∷ [] })).coordinator
              ≡ alone n s' m.object m.coordinator)
          → (next : Option Stage) → Next (λ s'. id_of s' ≡ id_of s) next
          → (finish p n (record {
            coordinator = m.coordinator;
            held = Dict.set (id_of s) m.object held;
            running = put_at 0 next (s ∷ []);
          })).coordinator
            ≡ elim next [ none ↦ m.coordinator | some s' ↦ alone n s' m.object m.coordinator ]
      go again none same = finish_nobody n m.coordinator (Dict.set (id_of s) m.object held)
      go again (some s') same = again s' (Dict.set (id_of s) m.object held) (
          subst (λ id. Dict.get id (Dict.set (id_of s) m.object held) ≡ some m.object) (sym same)
            (Dict.get-set_self (id_of s) m.object held))

  alone-clearing :
      (n : ℕ) (id : String) (meta : Option StoredFileMeta) (r : Result Bytes)
      (o : IncomingTransferState Key) (c : Coordinator Key DB)
      → alone
          (suc (suc (suc n)))
          (clearing id (elim meta [ none ↦ none | some m ↦ some (verifying_meta m) ]) r)
          o
          c
        ≡ conclude p id o meta r c
  unfolding alone resume conclude
  alone-clearing n id none (ok blob) o c = refl
  alone-clearing n id none (throws e) o c = refl
  alone-clearing n id (some m) (ok blob) o c = refl
  alone-clearing n id (some m) (throws e) o c = refl

  alone-to_fetch :
      (n : ℕ) (id : String) (found : Option StoredFileMeta) (o : IncomingTransferState Key)
      (c : Coordinator Key DB)
      → let db : DB = save_with p.dexie verifying_meta found c.db in
        alone (suc (suc (suc (suc (suc n))))) (to_fetch id found) o c
        ≡ conclude p id o found (rebuild p (get_transfer_chunks p.dexie id db) o) (set_db db c)
  unfolding alone resume
  alone-to_fetch n id none o c = alone-clearing (suc n) id none _ o c
  alone-to_fetch n id (some m) o c = alone-clearing n id (some m) _ o _

  -- The test of the count, and the reassembly that may follow.
  abbrev tested : String → IncomingTransferState Key → Coordinator Key DB → Coordinator Key DB
  tested id o told =
      if leb o.total_chunks o.chunks_received_count
      then reassemble_file p id o (drop_incoming id told)
      else told

  abbrev go_on : ℕ → Moved Key DB → Coordinator Key DB
  go_on n m = elim m.next [ none ↦ m.coordinator | some s ↦ alone n s m.object m.coordinator ]

  alone-end_chunk :
      (n : ℕ) (id : String) (progress : TransferProgress) (o : IncomingTransferState Key)
      (c : Coordinator Key DB)
      → go_on (suc (suc (suc (suc (suc (suc n)))))) (end_chunk id progress o c)
        ≡ tested id o (notify c.handlers.on_progress (progressed progress) c)
  unfolding alone resume end_chunk reassemble_file
  alone-end_chunk n id progress o c = go (leb o.total_chunks o.chunks_received_count)
    where
      told : Coordinator Key DB
      told = notify c.handlers.on_progress (progressed progress) c

      go :
          (b : Bool)
          → go_on (suc (suc (suc (suc (suc (suc n)))))) (
              if b
              then moved (drop_incoming id told) o (checking id)
              else record { coordinator = told; object = o; next = none })
            ≡ (if b then reassemble_file p id o (drop_incoming id told) else told)
      go true =
          alone-to_fetch n id (get_file_meta p.dexie id (drop_incoming id told).db) o
            (drop_incoming id told)
      go false = refl

  alone-read :
      (id : String) (found : Option StoredFileMeta) (o : IncomingTransferState Key)
      (c : Coordinator Key DB)
      → alone 9 (read id found) o c
        ≡ tested id o (
            notify c.handlers.on_progress
              (progressed (chunk_progress id o))
              (set_db (save_with p.dexie (received_meta o) found c.db) c))
  unfolding alone resume
  alone-read id none o c = alone-end_chunk 2 id (chunk_progress id o) o c
  alone-read id (some m) o c =
      alone-end_chunk 0 id (chunk_progress id o) o
        (set_db (save_file_meta p.dexie (received_meta o m) c.db) c)

  refresh-put_incoming :
      (id : String) (o o' : IncomingTransferState Key) (c : Coordinator Key DB)
      → refresh id o' (put_incoming id o c) ≡ put_incoming id o' c
  refresh-put_incoming id o o' c =
      rw (refresh, Dict.get-set_self id o c.active_incoming)
        (ap (λ a. record c { active_incoming = a }) (Dict.set-set id o' o c.active_incoming))

  alone-saving :
      (chunk : Chunk) (o : IncomingTransferState Key) (c : Coordinator Key DB)
      → let marked = mark_chunk chunk.chunk_index o in
        alone 12
          (saving (record {
            transfer_id = chunk.transfer_id;
            chunk_index = chunk.chunk_index;
            payload = chunk.iv ++ chunk.ciphertext;
          }))
          marked
          (put_incoming chunk.transfer_id marked c)
        ≡ store_chunk p chunk o c
  unfolding alone resume store_chunk keep_chunk report_chunk count_chunk
  alone-saving chunk o c =
      let marked = mark_chunk chunk.chunk_index o in
      let db : DB =
        (save_chunk p.dexie
          (record {
            transfer_id = chunk.transfer_id;
            chunk_index = chunk.chunk_index;
            payload = chunk.iv ++ chunk.ciphertext;
          })
          c.db).0 in
      ap (alone 10 (reading chunk.transfer_id) (tally marked))
        (refresh-put_incoming chunk.transfer_id marked (tally marked) (set_db db c))
      ∙ alone-read chunk.transfer_id (get_file_meta p.dexie chunk.transfer_id db) (tally marked)
          (put_incoming chunk.transfer_id (tally marked) (set_db db c))

  admit-alone :
      (chunk : Chunk) (found : Option (IncomingTransferState Key)) (c : Coordinator Key DB)
      → (run_out p (admit p chunk found (quiet c))).coordinator ≡ accept_chunk p chunk found c
  unfolding admit accept_chunk
  admit-alone chunk none c = finish_nobody 0 c c.active_incoming
  admit-alone chunk (some o) c =
      go (o.paused || o.cancelled) (elem chunk.chunk_index o.received_chunks)
    where
      marked : IncomingTransferState Key
      marked = mark_chunk chunk.chunk_index o

      started : Traffic Key DB
      started = record {
        coordinator = put_incoming chunk.transfer_id marked c;
        held = Dict.set chunk.transfer_id marked c.active_incoming;
        running =
            saving (record {
              transfer_id = chunk.transfer_id;
              chunk_index = chunk.chunk_index;
              payload = chunk.iv ++ chunk.ciphertext;
            })
            ∷ [];
      }

      go :
          (stops old : Bool)
          → (run_out p (if stops then quiet c else if old then quiet c else started)).coordinator
            ≡ (if stops then c else if old then c else store_chunk p chunk o c)
      go true old = finish_nobody 0 c c.active_incoming
      go false true = finish_nobody 0 c c.active_incoming
      go false false =
          finish-alone 12 _ marked (put_incoming chunk.transfer_id marked c) started.held
            (Dict.get-set_self chunk.transfer_id marked c.active_incoming)
          ∙ alone-saving chunk o c

  -- Where no handler is running when a packet arrives, and none begins before its handler has ended,
  -- the handler is `handle_data_message`.
  run_out-take_packet :
      (packet : Bytes) (c : Coordinator Key DB)
      → (run_out p (take_packet p packet (quiet c))).coordinator ≡ handle_data_message p packet c
  unfolding take_packet handle_data_message
  run_out-take_packet packet c = go (deserialize_chunk p.codec packet)
    where
      go :
          (read_chunk : Option Chunk)
          → (run_out p (elim read_chunk [
            | none ↦ quiet c
            | some chunk ↦ admit p chunk (Dict.get chunk.transfer_id c.active_incoming) (quiet c)
          ])).coordinator
            ≡ elim read_chunk [
              | none ↦ c
              | some chunk ↦ accept_chunk p chunk (Dict.get chunk.transfer_id c.active_incoming) c
            ]
      go none = finish_nobody 0 c c.active_incoming
      go (some chunk) = admit-alone chunk (Dict.get chunk.transfer_id c.active_incoming) c
