-- ===== src/Storage/Rows.antt =====
-- What the repository helpers do to the rows of the tables, also where a call rejects.
use shadowchat.Common.{
  ◌≡◌, refl, List, [], ◌∷◌, ◌++◌, String, filter, not, arith, ap, inl, inr, ◌∙◌,
}
use shadowchat.Common.Sorting.{sort_by}
use shadowchat.Common.Results.{Result-cases}
use shadowchat.Platform.Tables.{
  Dexie, StoredFileMeta, StoredChunk, KeepsRows, StoresChunks, of_transfer,
}
use shadowchat.Storage.{save_file_meta, save_chunk, get_transfer_chunks, clear_transfer_chunks}

module _ {DB : Type 0} (d : Dexie DB) (k : KeepsRows d) where
  pub chunks-save_file_meta :
      (m : StoredFileMeta) (db : DB) → k.chunk_rows (save_file_meta d m db) ≡ k.chunk_rows db
  unfolding save_file_meta
  chunks-save_file_meta m db = elim (Result-cases (d.put_file m db)) [
    | inl (db', e) ↦ rw e (k.chunks-put m db db' e)
    | inr (x, e) ↦ rw e refl
  ]

  -- A chunk that is saved goes behind the rows that are there.
  pub chunks-save_chunk :
      StoresChunks d
      → (c : StoredChunk) (db : DB)
      → k.chunk_rows (save_chunk d c db).0 ≡ k.chunk_rows db ++ (c ∷ [])
  unfolding save_chunk
  chunks-save_chunk w c db = let ((db', n), e) = w.adds c db in rw e (k.chunks-add c db db' n e)

  pub get_transfer_chunks-sort_by :
      StoresChunks d
      → (t : String) (db : DB)
      → get_transfer_chunks d t db
        ≡ sort_by (λ c. c.chunk_index) (filter (of_transfer t) (k.chunk_rows db))
  unfolding get_transfer_chunks
  get_transfer_chunks-sort_by w t db =
      let (rows, e) = w.reads t db in rw e (k.chunks-of t db rows e)

  filter-not :
      (t : String) (xs : List StoredChunk)
      → filter (of_transfer t) (filter (λ c. not (of_transfer t c)) xs) ≡ []
  filter-not t [] = refl
  filter-not t (c ∷ cs) = ground (arith, filter-not t cs)

  -- After `clearTransferChunks` no chunk of the transfer is left.
  pub chunks-clear_transfer_chunks :
      StoresChunks d
      → (t : String) (db : DB)
      → filter (of_transfer t) (k.chunk_rows (clear_transfer_chunks d t db)) ≡ []
  unfolding clear_transfer_chunks
  chunks-clear_transfer_chunks w t db =
      let (db', e) = w.deletes t db in
      rw e
        (ap (filter (of_transfer t)) (k.chunks-delete t db db' e) ∙ filter-not t (k.chunk_rows db))
