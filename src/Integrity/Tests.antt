-- ===== src/Integrity/Tests.antt =====
-- A run of the hash worker on the sample platform.
use shadowchat.Common.{◌≡◌, [], ◌∷◌}
use shadowchat.Platform.Memory.{sample_hasher, sample_hasher-HashesBytes}
use shadowchat.Integrity.{compute_hash}
use shadowchat.Integrity.Blocks.{compute_hash-digest}

compute_hash-digest_example :
    compute_hash sample_hasher (1 ∷ 2 ∷ 3 ∷ []) ≡ sample_hasher.digest ((1 ∷ 2 ∷ 3 ∷ []) ∷ [])
compute_hash-digest_example =
    compute_hash-digest sample_hasher (1 ∷ 2 ∷ 3 ∷ []) sample_hasher-HashesBytes
