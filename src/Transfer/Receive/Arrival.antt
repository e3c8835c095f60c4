-- ===== src/Transfer/Receive/Arrival.antt =====
-- One chunk on its way through `handleDataMessage`, as a step on the invariant of a transfer that is
-- being received.
use shadowchat.Common.{
  ℕ, ◌<◌, ◌≡◌, refl, sym, ap, ◌∙◌, List, [], ◌∷◌, ◌++◌, map, Option, none, some, String, Bool, true,
  false, arith, length, All, All-append, length-append, elem, filter,
}
use text.Mathlib.TextPositions.{eq_refl}
use shadowchat.Common.Dict
use shadowchat.Common.Members.{Distinct-append_one}
use shadowchat.Common.Sorting.{Distinct}
use shadowchat.Platform.{Platform}
use shadowchat.Platform.Crypto.{Bytes}
use shadowchat.Platform.Tables.{StoredFileMeta, StoredChunk, KeepsRows, StoresChunks, of_transfer}
use shadowchat.Storage.{get_file_meta, save_chunk}
use shadowchat.Storage.Rows.{chunks-save_file_meta, chunks-save_chunk}
use shadowchat.Transfer.Chunk.{Chunk}
use shadowchat.Transfer.State.{
  IncomingTransferState, IncomingTransferMeta, Coordinator, Handlers, Event, progressed, set_db,
  notify, save_with, update_meta,
}
use shadowchat.Transfer.Receive.{
  received_meta, chunk_progress, count_chunk, keep_chunk, report_chunk, store_chunk, accept_chunk,
}
use shadowchat.Transfer.Receive.Rebuild.{row}

-- What is fixed while a transfer is received.
pub record Expected (Key : Type 0) : Type 0 where
  pub id : String
  pub key : Key
  pub meta : IncomingTransferMeta
  pub total : ℕ
  pub iv : ℕ → Bytes
  pub ciphertext : ℕ → Bytes

module _ {Key : Type 0} (x : Expected Key) where
  -- The chunk with the index `i`, as it is read from its packet.
  abbrev pub chunk_of : ℕ → Chunk
  chunk_of i = record {
    transfer_id = x.id;
    chunk_index = i;
    iv = x.iv i;
    ciphertext = x.ciphertext i;
  }

  abbrev pub payload : ℕ → Bytes
  payload i = x.iv i ++ x.ciphertext i

module _ {Key DB : Type 0} (p : Platform Key DB) (k : KeepsRows p.dexie) where
  -- Two states with the same incoming transfers, callbacks and rows of chunks.
  pub record Alike (c c' : Coordinator Key DB) : Type 0 where
    pub incoming : c'.active_incoming ≡ c.active_incoming
    pub handlers : c'.handlers ≡ c.handlers
    pub rows : k.chunk_rows c'.db ≡ k.chunk_rows c.db

  pub notify-Alike : (b : Bool) (e : Event) (c : Coordinator Key DB) → Alike c (notify b e c)
  notify-Alike true e c = record { incoming = refl; handlers = refl; rows = refl }
  notify-Alike false e c = record { incoming = refl; handlers = refl; rows = refl }

  pub chunks-save_with :
      (f : StoredFileMeta → StoredFileMeta) (m : Option StoredFileMeta) (db : DB)
      → k.chunk_rows (save_with p.dexie f m db) ≡ k.chunk_rows db
  chunks-save_with f none db = refl
  chunks-save_with f (some m) db = chunks-save_file_meta p.dexie k (f m) db

  report_chunk-Alike :
      (id : String) (incoming : IncomingTransferState Key) (c : Coordinator Key DB)
      → Alike c (report_chunk p id incoming c)
  unfolding report_chunk
  report_chunk-Alike id incoming c =
      let db : DB = update_meta p.dexie (received_meta incoming) id c.db in
      let n =
        notify-Alike c.handlers.on_progress (progressed (chunk_progress id incoming))
          (set_db db c) in
      record {
        incoming = n.incoming;
        handlers = n.handlers;
        rows =
            n.rows ∙ chunks-save_with (received_meta incoming) (get_file_meta p.dexie id c.db) c.db;
      }

  module _ (chunk : Chunk) (incoming : IncomingTransferState Key) (c : Coordinator Key DB) where
    abbrev chunk_row : StoredChunk
    chunk_row = record {
      transfer_id = chunk.transfer_id;
      chunk_index = chunk.chunk_index;
      payload = chunk.iv ++ chunk.ciphertext;
    }

    -- What `keep_chunk` reports on: the object in the map, and the chunk in the database.
    abbrev saved_state : Coordinator Key DB
    saved_state = record c {
      active_incoming = Dict.set chunk.transfer_id incoming c.active_incoming;
      db = (save_chunk p.dexie chunk_row c.db).0;
    }

    keep_chunk-active :
        Dict.get chunk.transfer_id (keep_chunk p chunk incoming c).active_incoming ≡ some incoming
    unfolding keep_chunk
    keep_chunk-active =
        ap (Dict.get chunk.transfer_id)
          (report_chunk-Alike chunk.transfer_id incoming saved_state).incoming
        ∙ Dict.get-set_self chunk.transfer_id incoming c.active_incoming

    keep_chunk-handlers : (keep_chunk p chunk incoming c).handlers ≡ c.handlers
    unfolding keep_chunk
    keep_chunk-handlers = (report_chunk-Alike chunk.transfer_id incoming saved_state).handlers

    keep_chunk-rows :
        StoresChunks p.dexie
        → k.chunk_rows (keep_chunk p chunk incoming c).db ≡ k.chunk_rows c.db ++ (chunk_row ∷ [])
    unfolding keep_chunk
    keep_chunk-rows works =
        (report_chunk-Alike chunk.transfer_id incoming saved_state).rows
        ∙ chunks-save_chunk p.dexie k works chunk_row c.db

  pub filter_of_row-append :
      (id : String) (x : StoredChunk) (xs : List StoredChunk)
      → x.transfer_id ≡ id
      → filter (of_transfer id) (xs ++ (x ∷ [])) ≡ filter (of_transfer id) xs ++ (x ∷ [])
  filter_of_row-append id x [] h = rw (h, eq_refl id) refl
  filter_of_row-append id x (y ∷ xs) h = ground (arith, filter_of_row-append id x xs h)

  pub map-append_one :
      (f : ℕ → StoredChunk) (xs : List ℕ) (i : ℕ) → map f (xs ++ (i ∷ [])) ≡ map f xs ++ (f i ∷ [])
  map-append_one f [] i = refl
  map-append_one f (x ∷ xs) i = ap (λ t. f x ∷ t) (map-append_one f xs i)

  module _ (x : Expected Key) where
    -- The transfer is active, and the chunks `seen`, in the order of their arrival, are those that
    -- are marked, counted and stored; not all of them have come.
    pub record Receiving (seen : List ℕ) (incoming : IncomingTransferState Key)
        (c : Coordinator Key DB) : Type 0 where
      pub active : Dict.get x.id c.active_incoming ≡ some incoming
      pub running : incoming.paused ≡ false
      pub kept : incoming.cancelled ≡ false
      pub same_key : incoming.file_key ≡ x.key
      pub same_meta : incoming.meta ≡ x.meta
      pub same_total : incoming.total_chunks ≡ x.total
      pub marked : incoming.received_chunks ≡ seen
      pub counted : incoming.chunks_received_count ≡ length seen
      pub stored : filter (of_transfer x.id) (k.chunk_rows c.db) ≡ map (row x.id (payload x)) seen
      pub distinct : Distinct (λ i. i) seen
      pub below : All (λ i. i < x.total) seen
      pub listens : c.handlers.on_complete ≡ true

    -- A new chunk extends what is received.
    pub keep_chunk-Receiving :
        StoresChunks p.dexie
        → (i : ℕ) {seen : List ℕ} {incoming : IncomingTransferState Key} {c : Coordinator Key DB}
        → Receiving seen incoming c
        → i < x.total
        → elem i seen ≡ false
        → Receiving
            (seen ++ (i ∷ []))
            (count_chunk i incoming)
            (keep_chunk p (chunk_of x i) (count_chunk i incoming) c)
    unfolding count_chunk
    keep_chunk-Receiving works i {seen} {incoming} {c} r in_range new =
        let counted : IncomingTransferState Key = count_chunk i incoming in
        record {
          active = keep_chunk-active (chunk_of x i) counted c;
          running = r.running;
          kept = r.kept;
          same_key = r.same_key;
          same_meta = r.same_meta;
          same_total = r.same_total;
          marked = ap (λ t. t ++ (i ∷ [])) r.marked;
          counted = omega (arith, r.counted, length-append seen (i ∷ []));
          stored =
              ap (filter (of_transfer x.id)) (keep_chunk-rows (chunk_of x i) counted c works)
              ∙ filter_of_row-append x.id (row x.id (payload x) i) (k.chunk_rows c.db) refl
              ∙ ap (λ t. t ++ (row x.id (payload x) i ∷ [])) r.stored
              ∙ sym (map-append_one (row x.id (payload x)) seen i);
          distinct = Distinct-append_one seen i new r.distinct;
          below = All-append (λ j. j < x.total) seen _ r.below (in_range, tt);
          listens =
              ap (λ (h : Handlers). h.on_complete) (keep_chunk-handlers (chunk_of x i) counted c)
              ∙ r.listens;
        }

    -- A chunk that came before changes nothing.
    pub accept_chunk_again :
        (i : ℕ) {seen : List ℕ} {incoming : IncomingTransferState Key} {c : Coordinator Key DB}
        → Receiving seen incoming c
        → elem i seen ≡ true
        → accept_chunk p (chunk_of x i) (Dict.get x.id c.active_incoming) c ≡ c
    unfolding accept_chunk
    accept_chunk_again i r old = rw (r.active, r.running, r.kept, r.marked, old) refl

    pub accept_chunk_new :
        (i : ℕ) {seen : List ℕ} {incoming : IncomingTransferState Key} {c : Coordinator Key DB}
        → Receiving seen incoming c
        → elem i seen ≡ false
        → accept_chunk p (chunk_of x i) (Dict.get x.id c.active_incoming) c
          ≡ store_chunk p (chunk_of x i) incoming c
    unfolding accept_chunk
    accept_chunk_new i r new = rw (r.active, r.running, r.kept, r.marked, new) refl
