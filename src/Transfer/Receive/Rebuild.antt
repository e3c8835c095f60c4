-- ===== src/Transfer/Receive/Rebuild.antt =====
-- Reassembly from the stored chunks of a whole file, in whatever order they were stored.
use shadowchat.Common.{
  ℕ, zero, suc, ◌<◌, ◌≡◌, refl, sym, ap, ◌∙◌, List, [], ◌∷◌, map, none, String, true, arith, length,
  take, drop, All, All-weaken, concat, ◌==◌, ==_iff, eq_iff,
}
use shadowchat.Common.Sorting.{
  sort_by, Distinct, IsRun, All-sort_by, length-sort_by, sort_by-IsRun, Absent,
}
use shadowchat.Common.Results.{ok}
use shadowchat.Platform.{Platform}
use shadowchat.Platform.Crypto.{Bytes}
use shadowchat.Platform.Tables.{StoredChunk}
use shadowchat.Crypto.Primitives.{params}
use shadowchat.Integrity.{compute_hash}
use shadowchat.Transfer.State.{IncomingTransferState}
use shadowchat.Transfer.Receive.{decrypt_chunks, rebuild}

-- `n` values of a function from `lo` on.
abbrev pub pieces : (ℕ → Bytes) → ℕ → ℕ → List Bytes
pieces part lo zero = []
pieces part lo (suc n) = part lo ∷ pieces part (suc lo) n

abbrev pub index_of : StoredChunk → ℕ
index_of c = c.chunk_index

-- The row of chunk `i` of the transfer `id`.
abbrev pub row : String → (ℕ → Bytes) → ℕ → StoredChunk
row id payload i = record { transfer_id = id; chunk_index = i; payload = payload i }

module _ (id : String) (payload : ℕ → Bytes) where
  Absent-map :
      (k : ℕ) (xs : List ℕ) → Absent (λ i. i) k xs → Absent index_of k (map (row id payload) xs)
  Absent-map k [] h = tt
  Absent-map k (x ∷ xs) h = (h.0, Absent-map k xs h.1)

  Distinct-map : (xs : List ℕ) → Distinct (λ i. i) xs → Distinct index_of (map (row id payload) xs)
  Distinct-map [] h = tt
  Distinct-map (x ∷ xs) h = (Absent-map x xs h.0, Distinct-map xs h.1)

  All-map {κ} :
      (P : StoredChunk → Type κ) (xs : List ℕ)
      → All (λ i. P (row id payload i)) xs
      → All P (map (row id payload) xs)
  All-map P [] h = tt
  All-map P (x ∷ xs) h = (h.0, All-map P xs h.1)

  length-map : (xs : List ℕ) → length (map (row id payload) xs) ≡ length xs
  length-map [] = refl
  length-map (x ∷ xs) = ap suc (length-map xs)

module _ {Key DB : Type 0} (p : Platform Key DB) (key : Key) (payload part : ℕ → Bytes) where
  -- The payload of chunk `i` decrypts to its part of the file.
  abbrev pub Decrypts : ℕ → Type 0
  Decrypts i =
      p.crypto.decrypt (params (take 12 (payload i)) none) key (drop 12 (payload i)) ≡ ok (part i)

  decrypt_chunks-pieces :
      (lo : ℕ) (chunks : List StoredChunk)
      → IsRun index_of lo chunks
      → All (λ c. (c.payload ≡ payload c.chunk_index) × Decrypts c.chunk_index) chunks
      → decrypt_chunks p key chunks ≡ ok (pieces part lo (length chunks))
  unfolding decrypt_chunks
  decrypt_chunks-pieces lo [] h a = refl
  decrypt_chunks-pieces lo (c ∷ cs) h a =
      rw (a.0.0, a.0.1, decrypt_chunks-pieces (suc lo) cs h.1 a.1) (rw h.0 refl)

  module _ (id : String) (n : ℕ) (incoming : IncomingTransferState Key) where
    -- From the rows of all chunks of a file, in any order of arrival, `reassembleFile` rebuilds
    -- the parts of the file in order, where the hash is right.
    pub rebuild-pieces :
        (seen : List ℕ)
        → incoming.file_key ≡ key
        → incoming.total_chunks ≡ n
        → Distinct (λ i. i) seen
        → All (λ i. i < n) seen
        → length seen ≡ n
        → ((i : ℕ) → i < n → Decrypts i)
        → compute_hash p.hasher (concat (pieces part 0 n)) ≡ ok incoming.meta.hash
        → rebuild p (sort_by index_of (map (row id payload) seen)) incoming
          ≡ ok (concat (pieces part 0 n))
    unfolding rebuild
    rebuild-pieces seen hk ht distinct below full dec hash =
        rw (counted, hk, decrypted, hash, (eq_iff _ _).1 refl) refl
      where
        rows : List StoredChunk
        rows = map (row id payload) seen

        size_lem : length (sort_by index_of rows) ≡ n
        size_lem = length-sort_by index_of rows ∙ length-map id payload seen ∙ full

        counted : (length (sort_by index_of rows) == incoming.total_chunks) ≡ true
        counted = (==_iff _ _).1 (size_lem ∙ sym ht)

        in_order : IsRun index_of 0 (sort_by index_of rows)
        in_order =
            sort_by-IsRun index_of n rows (Distinct-map id payload seen distinct)
              (All-map id payload (λ c. c.chunk_index < n) seen below)
              (omega (arith, length-map id payload seen))

        good :
            All
              (λ c. (c.payload ≡ payload c.chunk_index) × Decrypts c.chunk_index)
              (sort_by index_of rows)
        good =
            All-sort_by index_of _ rows
              (All-map id payload _ seen (All-weaken (λ i h. (refl, dec i h)) seen below))

        decrypted : decrypt_chunks p key (sort_by index_of rows) ≡ ok (pieces part 0 n)
        decrypted =
            decrypt_chunks-pieces 0 (sort_by index_of rows) in_order good
            ∙ ap (λ t. ok (pieces part 0 t)) size_lem
