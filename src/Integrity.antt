-- ===== src/Integrity.antt =====
-- frontend/src/workers/hash.worker.ts and frontend/src/lib/crypto/integrity.ts: the hash of a file,
-- computed by a worker over slices of 1 MB.
pub mod Blocks
pub mod Tests
use shadowchat.Common.{
  ℕ, zero, suc, ◌+◌, ◌*◌, List, [], ◌∷◌, ◌++◌, String, ltb, if◌then◌else◌, length, take, drop,
}
use shadowchat.Common.Results.{Result, ok, throws}
use shadowchat.Platform.{Hasher}
use shadowchat.Platform.Crypto.{Bytes}
use shadowchat.Platform.Tables.{Progress}

abbrev pub hash_chunk_size : ℕ
hash_chunk_size = 1024 * 1024

pub data WorkerMessage : Type 0 where
  advanced : Progress → WorkerMessage
  success : String → WorkerMessage
  error : String → WorkerMessage

-- `Math.min(100, (offset / size) * 100)`
abbrev pub at_most_all : ℕ → ℕ → Progress
at_most_all offset size =
    if ltb offset size
    then record { part = offset; whole = size }
    else record { part = 1; whole = 1 }

-- What the loop hands to `update` and what it posts; `rest` is the file from `offset` on. A round
-- takes a byte at least, so the length of the file is enough fuel.
unfoldable pub hash_blocks : ℕ → ℕ → Bytes → List Bytes
hash_blocks n zero rest = []
hash_blocks n (suc fuel) [] = []
hash_blocks n (suc fuel) (b ∷ bs) = take n (b ∷ bs) ∷ hash_blocks n fuel (drop n (b ∷ bs))

unfoldable pub hash_progress : ℕ → ℕ → ℕ → ℕ → List WorkerMessage
hash_progress n zero offset size = []
hash_progress n (suc fuel) offset size =
    let more = advanced (at_most_all (offset + n) size) ∷ hash_progress n fuel (offset + n) size in
    if ltb offset size then more else []

unfoldable pub settle_message : Result String → WorkerMessage
settle_message (ok hash) = success hash
settle_message (throws message) = error message

-- The messages of the worker for one file.
unfoldable pub hash_worker : Hasher → Bytes → List WorkerMessage
unfolding hash_blocks hash_progress settle_message
hash_worker h file =
    hash_progress hash_chunk_size (length file) 0 (length file)
    ++ (settle_message (h.digest (hash_blocks hash_chunk_size (length file) file)) ∷ [])

-- `onmessage`: the first success or error settles the promise, and progress is passed on. A worker
-- that ends without either leaves the promise pending, which is no result.
unfoldable pub settle : List WorkerMessage → Result String
settle [] = throws "pending"
settle (advanced p ∷ rest) = settle rest
settle (success hash ∷ rest) = ok hash
settle (error message ∷ rest) = throws message

unfoldable pub compute_hash : Hasher → Bytes → Result String
unfolding hash_worker settle
compute_hash h file = settle (hash_worker h file)
