-- ===== src/Transfer/Overlap/Moves.antt =====
-- The steps of overlapping handlers that change what they share, before the chunks are removed.
use shadowchat.Common.{
  ℕ, ◌≤◌, ◌<◌, ◌≡◌, refl, sym, ap, ◌∙◌, inl, inr, List, [], ◌∷◌, ◌++◌, Option, none, some, String,
  true, false, arith, All-append, length-append, elem, filter, ◌==◌, leb, Bool-cases, ==_iff,
}
use shadowchat.Common.Dict
use shadowchat.Common.Members.{Distinct-append_one}
use shadowchat.Platform.{Platform}
use shadowchat.Platform.Crypto.{Bytes}
use shadowchat.Platform.Tables.{StoredChunk, KeepsRows, StoresChunks, of_transfer}
use shadowchat.Storage.{save_chunk}
use shadowchat.Storage.Rows.{chunks-save_chunk}
use shadowchat.Transfer.State.{
  IncomingTransferState, Coordinator, TransferProgress, progressed, notify, set_db,
}
use shadowchat.Transfer.Receive.Rebuild.{row}
use shadowchat.Transfer.Receive.Arrival.{
  Expected, payload, Alike, notify-Alike, filter_of_row-append, map-append_one,
}
use shadowchat.Transfer.Overlap.{
  Stage, saving, saved, reading, checking, stage_at, put_at, tally, refresh, end_chunk,
}
use shadowchat.Transfer.Overlap.Ending.{total_of-put_at, All-put_at}
use shadowchat.Transfer.Overlap.Gathering.{
  pends, uncounted, late, reassembles, is_in-append, total_of-le, Good, Gathering,
}

-- The map after a change of the shared object.
module _ {Key DB : Type 0} (id : String) (c : Coordinator Key DB) where
  refresh-active :
      (found : Option (IncomingTransferState Key))
      → Dict.get id c.active_incoming ≡ found
      → (o : IncomingTransferState Key)
      → Dict.get id (refresh id o c).active_incoming ≡ elim found [ none ↦ none | some u ↦ some o ]
  refresh-active none h o = rw (refresh, h) h
  refresh-active (some u) h o = rw (refresh, h) (Dict.get-set_self id o c.active_incoming)

  refresh-same :
      (found : Option (IncomingTransferState Key))
      → Dict.get id c.active_incoming ≡ found
      → (o : IncomingTransferState Key)
      → ((refresh id o c).handlers ≡ c.handlers) × ((refresh id o c).db ≡ c.db)
  refresh-same none h o = rw (refresh, h) (refl, refl)
  refresh-same (some u) h o = rw (refresh, h) (refl, refl)

module _ {Key DB : Type 0} (p : Platform Key DB) (k : KeepsRows p.dexie) (x : Expected Key)
    (whole : Bytes) where
  module _ (i : ℕ) {sent kept_rows : List ℕ} {o : IncomingTransferState Key}
      {c : Coordinator Key DB} {ss : List Stage} where
    -- A chunk gets into the database.
    pub saving-Gathering :
        StoresChunks p.dexie
        → (j : ℕ) → j < x.total
        → stage_at i ss ≡ some (saving (row x.id (payload x) j))
        → Gathering p k x whole sent kept_rows o c ss
        → Gathering p k x whole sent
            (kept_rows ++ (j ∷ []))
            o
            (set_db (save_chunk p.dexie (row x.id (payload x) j) c.db).0 c)
            (put_at i (some (saved x.id)) ss)
    saving-Gathering works j in_range at g =
        let r : StoredChunk = row x.id (payload x) j in
        let n = saved x.id in
        let same : (j == j) ≡ true = (==_iff j j).1 refl in
        let new : elem j kept_rows ≡ false =
          ground (arith, g.ledger j, total_of-le (pends j) i (saving r) ss at, same) in
        record {
          running = g.running;
          kept = g.kept;
          same_key = g.same_key;
          same_meta = g.same_meta;
          same_total = g.same_total;
          listens = g.listens;
          stored =
              ap (filter (of_transfer x.id)) (chunks-save_chunk p.dexie k works r c.db)
              ∙ filter_of_row-append p k x.id r (k.chunk_rows c.db) refl
              ∙ ap (λ t. t ++ (r ∷ [])) g.stored
              ∙ sym (map-append_one p k (row x.id (payload x)) kept_rows j);
          distinct = Distinct-append_one kept_rows j new g.distinct;
          below = All-append (λ i. i < x.total) kept_rows _ g.below (in_range, tt);
          ledger = λ a. ground (
            arith,
            total_of-put_at (pends a) i (some n) (saving r) ss at,
            is_in-append a j kept_rows,
            g.ledger a,
            new,
          );
          tallied = omega (
            arith,
            total_of-put_at uncounted i (some n) (saving r) ss at,
            g.tallied,
            length-append kept_rows (j ∷ []),
          );
          good = All-put_at (Good p k x whole) i (some n) ss refl g.good;
          covered = g.covered;
          last_test = elim g.last_test [
            | inl few ↦ inl few
            | inr l ↦ inr (omega (arith, total_of-put_at late i (some n) (saving r) ss at))
          ];
          ready =
              λ h. g.ready (omega (arith, total_of-put_at reassembles i (some n) (saving r) ss at));
        }

    -- A stored chunk is counted.
    pub saved-Gathering :
        stage_at i ss ≡ some (saved x.id)
        → Gathering p k x whole sent kept_rows o c ss
        → Gathering p k x whole sent kept_rows
            (tally o)
            (refresh x.id (tally o) c)
            (put_at i (some (reading x.id)) ss)
    saved-Gathering at g =
        let n = reading x.id in
        let s = saved x.id in
        let same = refresh-same x.id c _ refl (tally o) in
        record {
          running = g.running;
          kept = g.kept;
          same_key = g.same_key;
          same_meta = g.same_meta;
          same_total = g.same_total;
          listens = ap (λ h. h.on_complete) same.0 ∙ g.listens;
          stored = ap (λ db. filter (of_transfer x.id) (k.chunk_rows db)) same.1 ∙ g.stored;
          distinct = g.distinct;
          below = g.below;
          ledger = λ a. omega (arith, total_of-put_at (pends a) i (some n) s ss at, g.ledger a);
          tallied = omega (arith, total_of-put_at uncounted i (some n) s ss at, g.tallied);
          good = All-put_at (Good p k x whole) i (some n) ss refl g.good;
          covered = elim g.covered [
            | inl here ↦ inl (refresh-active x.id c (some o) here.0 (tally o), here.1)
            | inr gone ↦ inr (refresh-active x.id c none gone.0 (tally o), omega (arith, gone.1))
          ];
          last_test = let l = total_of-put_at late i (some n) s ss at in inr (omega (arith, l));
          ready = λ h.
              let before =
                g.ready (omega (arith, total_of-put_at reassembles i (some n) s ss at)) in
              (refresh-active x.id c none before.0 (tally o), omega (arith, before.1));
        }

    -- A handler tests the count: below the total it ends, and else it starts the reassembly.
    pub end_chunk-Gathering :
        (s : Stage) (progress : TransferProgress)
        → stage_at i ss ≡ some s
        → ((a : ℕ) → pends a s ≡ 0)
        → uncounted s ≡ 0
        → Gathering p k x whole sent kept_rows o c ss
        → let m = end_chunk x.id progress o c in
          Gathering p k x whole sent kept_rows m.object m.coordinator (put_at i m.next ss)
    unfolding end_chunk
    end_chunk-Gathering s progress at no_chunk no_count g =
        elim (Bool-cases (leb o.total_chunks o.chunks_received_count)) [
          | inl full ↦
              let n : Option Stage = some (checking x.id) in
              let enough : x.total ≤ o.chunks_received_count = ground (arith, full, g.same_total) in
              let gone = Dict.get-delete_self x.id told.active_incoming in
              rw full (record {
                running = g.running;
                kept = g.kept;
                same_key = g.same_key;
                same_meta = g.same_meta;
                same_total = g.same_total;
                listens = ap (λ h. h.on_complete) alike.handlers ∙ g.listens;
                stored = ap (filter (of_transfer x.id)) alike.rows ∙ g.stored;
                distinct = g.distinct;
                below = g.below;
                ledger = λ a.
                    omega (arith, total_of-put_at (pends a) i n s ss at, no_chunk a, g.ledger a);
                tallied = omega (arith, total_of-put_at uncounted i n s ss at, no_count, g.tallied);
                good = All-put_at (Good p k x whole) i n ss refl g.good;
                covered = inr (gone, enough);
                last_test =
                    inr
                      (omega (arith, total_of-put_at late i n s ss at, total_of-le late i s ss at));
                ready = λ h. (gone, enough);
              })
          | inr more ↦
              let few : o.chunks_received_count < x.total = ground (arith, more, g.same_total) in
              rw more (record {
                running = g.running;
                kept = g.kept;
                same_key = g.same_key;
                same_meta = g.same_meta;
                same_total = g.same_total;
                listens = ap (λ h. h.on_complete) alike.handlers ∙ g.listens;
                stored = ap (filter (of_transfer x.id)) alike.rows ∙ g.stored;
                distinct = g.distinct;
                below = g.below;
                ledger = λ a.
                    omega (arith, total_of-put_at (pends a) i none s ss at, no_chunk a, g.ledger a);
                tallied =
                    omega (arith, total_of-put_at uncounted i none s ss at, no_count, g.tallied);
                good = All-put_at (Good p k x whole) i none ss tt g.good;
                covered = rw alike.incoming g.covered;
                last_test = inl few;
                ready = λ h. absurd (
                    omega (
                      arith,
                      (g.ready (omega (arith, total_of-put_at reassembles i none s ss at))).1,
                    ));
              })
        ]
      where
        told : Coordinator Key DB
        told = notify c.handlers.on_progress (progressed progress) c

        alike : Alike p k c told
        alike = notify-Alike p k c.handlers.on_progress (progressed progress) c
