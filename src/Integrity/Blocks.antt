-- ===== src/Integrity/Blocks.antt =====
-- The worker's loop covers the file, and the promise settles by the worker's last message.
use shadowchat.Common.{
  ℕ, zero, suc, ◌+◌, ◌≤◌, ◌<◌, ◌≡◌, refl, sym, ap, ◌∙◌, [], ◌∷◌, ◌++◌, String, arith, length, take,
  drop, concat, take-append-drop, length-drop, append-nil, Bool-cases, ltb, inl, inr,
}
use shadowchat.Common.Results.{Result, ok, throws}
use shadowchat.Platform.{Hasher, HashesBytes}
use shadowchat.Platform.Crypto.{Bytes}
use shadowchat.Integrity.{
  hash_chunk_size, hash_blocks, hash_progress, settle_message, settle, hash_worker, compute_hash,
}

concat-hash_blocks :
    (n fuel : ℕ) (file : Bytes)
    → 0 < n
    → length file ≤ fuel
    → concat (hash_blocks n fuel file) ≡ file
unfolding hash_blocks
concat-hash_blocks n zero [] hn h = refl
concat-hash_blocks n zero (b ∷ bs) hn h = absurd (omega arith)
concat-hash_blocks n (suc fuel) [] hn h = refl
concat-hash_blocks n (suc fuel) (b ∷ bs) hn h =
    ap (λ t. take n (b ∷ bs) ++ t)
      (concat-hash_blocks n fuel (drop n (b ∷ bs)) hn (omega (arith, length-drop n (b ∷ bs))))
    ∙ take-append-drop n (b ∷ bs)

settle-settle_message : (r : Result String) → settle (settle_message r ∷ []) ≡ r
unfolding settle settle_message
settle-settle_message (ok h) = refl
settle-settle_message (throws m) = refl

settle-progress :
    (n fuel offset size : ℕ) (r : Result String)
    → settle (hash_progress n fuel offset size ++ (settle_message r ∷ [])) ≡ r
unfolding settle hash_progress settle_message
settle-progress n zero offset size r = settle-settle_message r
settle-progress n (suc fuel) offset size r = elim (Bool-cases (ltb offset size)) [
  | inl t ↦ rw t (settle-progress n fuel (offset + n) size r)
  | inr f ↦ rw f (settle-settle_message r)
]

-- Where the digest depends on the bytes alone, the promise of `computeHash` settles by the digest
-- of the file's bytes as one block, although the worker hands over slices of 1 MB.
pub compute_hash-digest :
    (h : Hasher) (file : Bytes) → HashesBytes h → compute_hash h file ≡ h.digest (file ∷ [])
unfolding compute_hash hash_worker
compute_hash-digest h file law =
    settle-progress hash_chunk_size (length file) 0 (length file) _
    ∙ law (hash_blocks hash_chunk_size (length file) file) (file ∷ []) (
        concat-hash_blocks hash_chunk_size (length file) file (omega arith) (omega arith)
        ∙ sym (append-nil file))
