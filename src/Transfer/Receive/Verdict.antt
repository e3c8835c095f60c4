-- ===== src/Transfer/Receive/Verdict.antt =====
-- How `reassembleFile` ends, whatever the database holds and whatever any call throws.
use shadowchat.Common.{
  ◌≡◌, refl, ap, ◌∙◌, ◌⊎◌, inl, inr, List, [], ◌∷◌, ◌++◌, Option, String, Bool, true, false, filter,
  length, concat, ◌==◌, str_eq, eq_iff,
}
use shadowchat.Common.Results.{Result, ok, throws, ◌>>=◌, >>=-eq-ok, ok-injective}
use shadowchat.Platform.{Platform, Hasher}
use shadowchat.Platform.Crypto.{Bytes}
use shadowchat.Platform.Tables.{StoredChunk, StoredFileMeta, KeepsRows, StoresChunks, of_transfer}
use shadowchat.Storage.{clear_transfer_chunks}
use shadowchat.Storage.Rows.{chunks-clear_transfer_chunks}
use shadowchat.Integrity.{compute_hash}
use shadowchat.Transfer.State.{
  IncomingTransferState, Coordinator, Event, finished, failed_with, save_with,
}
use shadowchat.Transfer.Receive.{
  require, decrypt_chunks, rebuild, conclude, reassemble_file, hash_mismatch, missing_chunks,
}
use shadowchat.Transfer.Receive.Arrival.{chunks-save_with}

-- The event that ends a transfer: a failure, or the completed file, with the announced name and
-- contents of the announced hash.
abbrev pub IsVerdict : {Key : Type 0} → Hasher → String → IncomingTransferState Key → Event → Type 0
IsVerdict h id incoming e =
    ((error : String) × (e ≡ failed_with id error))
    ⊎ ((blob : Bytes) × (compute_hash h blob ≡ ok incoming.meta.hash)
        × (e ≡ finished id blob incoming.meta.file_name))

require-eq-ok {ℓ} :
    {B : Type ℓ} (b : Bool) (e : String) (next : Result B) {r : B}
    → (require b e >>= λ _. next) ≡ ok r
    → (b ≡ true) × (next ≡ ok r)
require-eq-ok true e next h = (refl, h)
require-eq-ok false e next h = cc

module _ {Key DB : Type 0} (p : Platform Key DB) where
  -- A blob that is rebuilt has the announced hash, and the chunks were as many as announced.
  rebuild-eq-ok :
      (chunks : List StoredChunk) (incoming : IncomingTransferState Key) (blob : Bytes)
      → rebuild p chunks incoming ≡ ok blob
      → compute_hash p.hasher blob ≡ ok incoming.meta.hash
  unfolding rebuild
  rebuild-eq-ok chunks incoming blob h =
      let (counted, h1) =
        require-eq-ok (length chunks == incoming.total_chunks) missing_chunks _ h in
      let (buffers, d, h2) = >>=-eq-ok (decrypt_chunks p incoming.file_key chunks) _ h1 in
      let (hash, c, h3) = >>=-eq-ok (compute_hash p.hasher (concat buffers)) _ h2 in
      let (checked, h4) = require-eq-ok (str_eq hash incoming.meta.hash) hash_mismatch _ h3 in
      rw (← ok-injective h4) (c ∙ ap ok ((eq_iff hash incoming.meta.hash).0 checked))

  module _ (k : KeepsRows p.dexie) (works : StoresChunks p.dexie) (id : String)
      (incoming : IncomingTransferState Key) where
    -- The state behind an end of the transfer with the event `e`.
    pub record Ends (before : List Event) (e : Event) (c : Coordinator Key DB) : Type 0 where
      pub verdict : IsVerdict p.hasher id incoming e
      pub reported : c.events ≡ before ++ (e ∷ [])
      pub cleared : filter (of_transfer id) (k.chunk_rows c.db) ≡ []

    cleared_lem :
        (f : StoredFileMeta → StoredFileMeta) (meta : Option StoredFileMeta) (db : DB)
        → filter
            (of_transfer id)
            (k.chunk_rows (save_with p.dexie f meta (clear_transfer_chunks p.dexie id db)))
          ≡ []
    cleared_lem f meta db =
        ap (filter (of_transfer id))
          (chunks-save_with p k f meta (clear_transfer_chunks p.dexie id db))
        ∙ chunks-clear_transfer_chunks p.dexie k works id db

    conclude-Ends :
        (meta : Option StoredFileMeta) (r : Result Bytes) (c : Coordinator Key DB)
        → ((blob : Bytes) → r ≡ ok blob → compute_hash p.hasher blob ≡ ok incoming.meta.hash)
        → c.handlers.on_complete ≡ true
        → c.handlers.on_failed ≡ true
        → (e : Event) × Ends c.events e (conclude p id incoming meta r c)
    unfolding conclude
    conclude-Ends meta (ok blob) c hashed on_complete on_failed = rw on_complete (
      finished id blob incoming.meta.file_name,
      record {
        verdict = inr (blob, hashed blob refl, refl);
        reported = refl;
        cleared = cleared_lem _ meta c.db;
      },
    )
    conclude-Ends meta (throws error) c hashed on_complete on_failed = rw on_failed (
      failed_with id error,
      record { verdict = inl (error, refl); reported = refl; cleared = cleared_lem _ meta c.db },
    )

    -- Where the owner listens to completion and failure, and the database keeps its rows and
    -- stores, returns and deletes chunks, a reassembly reports one event, whatever chunks are
    -- stored and whatever other call throws: a failure, or a completed file that has the announced
    -- name and whose hash is the announced one. No chunk of the transfer is left in the database
    -- then.
    pub reassemble_file-Ends :
        (c : Coordinator Key DB)
        → c.handlers.on_complete ≡ true
        → c.handlers.on_failed ≡ true
        → (e : Event) × Ends c.events e (reassemble_file p id incoming c)
    unfolding reassemble_file
    reassemble_file-Ends c on_complete on_failed =
        conclude-Ends _ _ _ (λ blob. rebuild-eq-ok _ incoming blob) on_complete on_failed
