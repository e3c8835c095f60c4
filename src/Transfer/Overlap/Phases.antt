-- ===== src/Transfer/Overlap/Phases.antt =====
-- Every step of a handler takes a transfer on: from the gathering of its chunks to the report.
use shadowchat.Common.{
  ℕ, ◌≤◌, ◌<◌, ◌≡◌, refl, ap, ◌∙◌, ◌⊎◌, inl, inr, List, [], ◌∷◌, ◌++◌, map, Option, none, some,
  String, arith, length, All-weaken, concat,
}
use shadowchat.Common.Sorting.{sort_by, length-le_of_Distinct}
use shadowchat.Common.Results.{ok, Result}
use shadowchat.Platform.{Platform}
use shadowchat.Platform.Crypto.{Bytes}
use shadowchat.Platform.Tables.{StoredChunk, StoredFileMeta, KeepsRows, StoresChunks}
use shadowchat.Storage.{get_file_meta, save_file_meta, get_transfer_chunks, clear_transfer_chunks}
use shadowchat.Storage.Rows.{chunks-save_file_meta, get_transfer_chunks-sort_by}
use shadowchat.Integrity.{compute_hash}
use shadowchat.Transfer.State.{IncomingTransferState, Coordinator, set_db}
use shadowchat.Transfer.Receive.{rebuild, chunk_progress, received_meta}
use shadowchat.Transfer.Receive.Rebuild.{pieces, row, index_of, Decrypts, rebuild-pieces}
use shadowchat.Transfer.Receive.Arrival.{Expected, payload}
use shadowchat.Transfer.Overlap.{
  Stage, saving, saved, reading, read, writing, written, checking, marking, fetching, clearing,
  closing, closed, id_of, stage_at, put_at, to_fetch, to_close, resume,
}
use shadowchat.Transfer.Overlap.Ending.{All-put_at}
use shadowchat.Transfer.Overlap.Gathering.{
  Good, Gathering, reassembles, total_of-le, keeps-Gathering,
}
use shadowchat.Transfer.Overlap.Moves.{saving-Gathering, saved-Gathering, end_chunk-Gathering}
use shadowchat.Transfer.Overlap.Winning.{Won, HasWinner, put_at-HasWinner}

module _ {Key DB : Type 0} (p : Platform Key DB) (k : KeepsRows p.dexie)
    (works : StoresChunks p.dexie) (x : Expected Key) (part : ℕ → Bytes)
    (decrypts : (i : ℕ) → i < x.total → Decrypts p x.key (payload x) part i)
    (hash : compute_hash p.hasher (concat (pieces part 0 x.total)) ≡ ok x.meta.hash) where
  abbrev pub whole : Bytes
  whole = concat (pieces part 0 x.total)

  abbrev pub Phase : List ℕ → IncomingTransferState Key → Coordinator Key DB → List Stage → Type 0
  Phase sent o c ss =
      ((kept_rows : List ℕ) × Gathering p k x whole sent kept_rows o c ss) ⊎ Won x whole o c ss

  pub Good-id : (s : Stage) → Good p k x whole s → id_of s ≡ x.id
  Good-id (saving r) h = ap (λ (q : StoredChunk). q.transfer_id) h.0
  Good-id (saved id) h = h
  Good-id (reading id) h = h
  Good-id (read id meta) h = h
  Good-id (writing id meta progress) h = h
  Good-id (written id progress) h = h
  Good-id (checking id) h = h
  Good-id (marking id meta) h = h
  Good-id (fetching id meta) h = h
  Good-id (clearing id meta r) h = h.0
  Good-id (closing id meta r) h = absurd h
  Good-id (closed id r) h = absurd h

  module _ (i : ℕ) {sent kept_rows : List ℕ} {o : IncomingTransferState Key}
      {c : Coordinator Key DB} {ss : List Stage} where
    -- The chunks of a full transfer give the file.
    fetched :
        Gathering p k x whole sent kept_rows o c ss
        → x.total ≤ o.chunks_received_count
        → rebuild p (get_transfer_chunks p.dexie x.id c.db) o ≡ ok whole
    fetched g enough =
        let full : length kept_rows ≡ x.total =
          omega (
            arith,
            g.tallied,
            length-le_of_Distinct (λ j. j) x.total kept_rows g.distinct g.below,
          ) in
        let chunks : get_transfer_chunks p.dexie x.id c.db
            ≡ sort_by index_of (map (row x.id (payload x)) kept_rows) =
          get_transfer_chunks-sort_by p.dexie k works x.id c.db ∙ ap (sort_by index_of) g.stored in
        rw chunks (
          rebuild-pieces p x.key (payload x) part x.id x.total o kept_rows g.same_key g.same_total
            g.distinct g.below full decrypts (rw g.same_meta hash))

    cleared :
        (n : Stage) (id : String) (meta : Option StoredFileMeta) (r : Result Bytes) (db : DB)
        → stage_at i ss ≡ some (clearing id meta r)
        → (id ≡ x.id) × (r ≡ ok whole)
        → n ≡ to_close id meta r
        → Gathering p k x whole sent kept_rows o c ss
        → Won x whole o (set_db db c) (put_at i (some n) ss)
    cleared n id meta r db at h e g = record {
      same_meta = g.same_meta;
      listens = g.listens;
      gone = (g.ready (total_of-le reassembles i (clearing id meta r) ss at)).0;
      ours =
          All-put_at (λ s. id_of s ≡ x.id) i (some n) ss (rw e (named meta))
            (All-weaken Good-id ss g.good);
      ending = inl (rw e (wins meta at));
    }
      where
        named : (meta : Option StoredFileMeta) → id_of (to_close id meta r) ≡ x.id
        named none = h.0
        named (some m) = h.0

        wins :
            (meta : Option StoredFileMeta)
            → stage_at i ss ≡ some (clearing id meta r)
            → HasWinner x whole (put_at i (some (to_close id meta r)) ss)
        wins none at = put_at-HasWinner x whole i (closed id r) _ ss at h
        wins (some m) at = put_at-HasWinner x whole i _ _ ss at h

    saving_step :
        (r : StoredChunk) (j : ℕ)
        → r ≡ row x.id (payload x) j
        → j < x.total
        → stage_at i ss ≡ some (saving r)
        → Gathering p k x whole sent kept_rows o c ss
        → let m = resume p (saving r) o c in Phase sent m.object m.coordinator (put_at i m.next ss)
    unfolding resume
    saving_step r j e in_range at g = rw e (
        inl (kept_rows ++ (j ∷ []), saving-Gathering p k x whole i works j in_range (rw e at at) g))

    -- A step of a handler while the chunks are gathered.
    pub resume-Gathering :
        (s : Stage)
        → stage_at i ss ≡ some s
        → Good p k x whole s
        → Gathering p k x whole sent kept_rows o c ss
        → let m = resume p s o c in Phase sent m.object m.coordinator (put_at i m.next ss)
    unfolding resume
    resume-Gathering (saving r) at h g = saving_step r r.chunk_index h.0 h.1 at g
    resume-Gathering (saved id) at h g =
        rw h (inl (kept_rows, saved-Gathering p k x whole i (rw h at at) g))
    resume-Gathering (reading id) at h g = inl (
      kept_rows,
      keeps-Gathering p k x whole i (reading id) (read id _) c at
          ((λ a. refl), refl, refl, omega arith) h refl refl refl g,
    )
    resume-Gathering (read id none) at h g = rw h (
        inl (
          kept_rows,
          end_chunk-Gathering p k x whole i (read x.id none) (chunk_progress x.id o) (rw h at at)
              (λ a. refl) refl g,
        ))
    resume-Gathering (read id (some meta)) at h g = inl (
      kept_rows,
      keeps-Gathering p k x whole i (read id (some meta))
          (writing id (received_meta o meta) (chunk_progress id o)) c at
          ((λ a. refl), refl, refl, omega arith) h refl refl refl g,
    )
    resume-Gathering (writing id meta progress) at h g = inl (
      kept_rows,
      keeps-Gathering p k x whole i (writing id meta progress) (written id progress)
          (set_db (save_file_meta p.dexie meta c.db) c) at ((λ a. refl), refl, refl, omega arith) h
          refl refl (chunks-save_file_meta p.dexie k meta c.db) g,
    )
    resume-Gathering (written id progress) at h g = rw h (
        inl (
          kept_rows,
          end_chunk-Gathering p k x whole i (written x.id progress) progress (rw h at at)
              (λ a. refl) refl g,
        ))
    resume-Gathering (checking id) at h g = go (get_file_meta p.dexie id c.db)
      where
        go : (meta : Option StoredFileMeta) → Phase sent o c (put_at i (some (to_fetch id meta)) ss)
        go none = inl (
          kept_rows,
          keeps-Gathering p k x whole i (checking id) (fetching id none) c at
              ((λ a. refl), refl, refl, omega arith) h refl refl refl g,
        )
        go (some meta) = inl (
          kept_rows,
          keeps-Gathering p k x whole i (checking id) (to_fetch id (some meta)) c at
              ((λ a. refl), refl, refl, omega arith) h refl refl refl g,
        )
    resume-Gathering (marking id meta) at h g = inl (
      kept_rows,
      keeps-Gathering p k x whole i (marking id meta) (fetching id (some meta))
          (set_db (save_file_meta p.dexie meta c.db) c) at ((λ a. refl), refl, refl, omega arith) h
          refl refl (chunks-save_file_meta p.dexie k meta c.db) g,
    )
    resume-Gathering (fetching id meta) at h g =
        let enough = (g.ready (total_of-le reassembles i (fetching id meta) ss at)).1 in
        inl (
          kept_rows,
          keeps-Gathering p k x whole i (fetching id meta) (clearing id meta _) c at
              ((λ a. refl), refl, refl, omega arith) (h, rw h (fetched g enough)) refl refl refl g,
        )
    resume-Gathering (clearing id meta r) at h g =
        inr (cleared _ id meta r (clear_transfer_chunks p.dexie id c.db) at h refl g)
    resume-Gathering (closing id meta r) at h g = absurd h
    resume-Gathering (closed id r) at h g = absurd h
