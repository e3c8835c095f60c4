-- ===== src/Transfer/Send/Slices.antt =====
-- The slices of `streamOutgoing`: chunk `i` is the bytes from `i * CHUNK_SIZE` up to the next multiple
-- or the end of the file.
use shadowchat.Common.{
  ℕ, zero, suc, ◌+◌, ◌-◌, ◌*◌, ◌≤◌, min, ◌≡◌, refl, sym, ap, ◌∙◌, ◌++◌, arith, length, take, drop,
  concat, take_all, drop_all, take-append-drop, drop-drop, length-drop, append-nil,
}
use native.Mathlib.Decide.{dec_le}
use shadowchat.Platform.Crypto.{Bytes}
use shadowchat.Transfer.Chunk.{chunk_size}
use shadowchat.Transfer.State.{File, size, slice, chunks_for}
use shadowchat.Transfer.Send.{chunk_end}
use shadowchat.Transfer.Receive.Rebuild.{pieces}

-- Chunk `i` of a file.
abbrev pub part_of : File → ℕ → Bytes
part_of file i = slice file (i * chunk_size) (chunk_end file i)

piece_at :
    (s n : ℕ) (xs : Bytes)
    → take (min (s + n) (length xs) - s) (drop s xs) ++ drop (s + n) xs ≡ drop s xs
piece_at s n xs = elim (dec_le (s + n) (length xs)) [
  | yes h ↦
      let e : min (s + n) (length xs) - s ≡ n = omega arith in
      rw (e, ← drop-drop s n (s + n) xs refl) (take-append-drop n (drop s xs))
  | no h ↦
      rw
        (
          take_all (drop s xs) (min (s + n) (length xs) - s) (omega (arith, length-drop s xs)),
          drop_all xs (s + n) (omega arith),
        )
        (append-nil (drop s xs))
]

concat-pieces_from :
    (file : File) (rounds lo : ℕ)
    → size file ≤ (lo + rounds) * chunk_size
    → concat (pieces (part_of file) lo rounds) ≡ drop (lo * chunk_size) file.content
concat-pieces_from file zero lo h = sym (drop_all file.content _ (omega arith))
concat-pieces_from file (suc rounds) lo h =
    ap (λ t. part_of file lo ++ t)
      (concat-pieces_from file rounds (suc lo) (omega arith)
        ∙ ap (λ t. drop t file.content) (omega arith))
    ∙ piece_at (lo * chunk_size) chunk_size file.content

-- The chunks of a file, one after the other, are the file.
pub concat-pieces :
    (file : File) → concat (pieces (part_of file) 0 (chunks_for (size file))) ≡ file.content
concat-pieces file = concat-pieces_from file (chunks_for (size file)) 0 (omega arith)
