-- ===== src/Platform/Memory.antt =====
-- A database in memory, and with it a whole platform that runs, for the examples: tables are lists
-- and maps, and the digest of a file is a text of its bytes.
use shadowchat.Common.{
  ℕ, ◌≡◌, refl, sym, ap, not, List, [], ◌∷◌, ◌++◌, length, filter, concat, str_eq,
}
use shadowchat.Common.Dict
use shadowchat.Common.Dict.{Dict}
use shadowchat.Common.Sorting.{sort_by}
use shadowchat.Common.Results.{ok, ok-injective}
use shadowchat.Platform.{Platform, Hasher, HashesBytes}
use shadowchat.Platform.Crypto.{ReimportsKeys}
use shadowchat.Platform.Tables.{
  Dexie, StoredRoom, StoredFileMeta, StoredMessage, StoredChunk, KeepsRows, StoresChunks,
  of_transfer,
}
use shadowchat.Platform.Sample.{sample_crypto, sample_codec}

pub record MemoryDb : Type 0 where
  pub rooms : List StoredRoom
  pub files : Dict StoredFileMeta
  pub messages : List StoredMessage
  pub chunks : List StoredChunk

abbrev pub empty_db : MemoryDb
empty_db = record { rooms = []; files = []; messages = []; chunks = [] }

rows_of : Dict StoredFileMeta → List StoredFileMeta
rows_of [] = []
rows_of ((id, m) ∷ rest) = m ∷ rows_of rest

unfoldable pub memory_dexie : Dexie MemoryDb
unfolding rows_of
memory_dexie = record {
  put_room = λ room db. ok (record db { rooms = room ∷ db.rooms });
  put_file = λ m db. ok (record db { files = Dict.set m.id m db.files });
  get_file = λ id db. ok (Dict.get id db.files);
  files_of_room = λ room db.
      ok (sort_by (λ m. m.added_at) (filter (λ m. str_eq m.room_id room) (rows_of db.files)));
  add_message = λ m db. ok (record db { messages = db.messages ++ (m ∷ []) }, length db.messages);
  messages_of_room =
      λ room db. ok (sort_by (λ m. m.timestamp) (filter (λ m. str_eq m.room_id room) db.messages));
  add_chunk = λ c db. ok (record db { chunks = db.chunks ++ (c ∷ []) }, length db.chunks);
  chunks_of_transfer = λ t db. ok (sort_by (λ c. c.chunk_index) (filter (of_transfer t) db.chunks));
  delete_chunks = λ t db. ok (record db { chunks = filter (λ c. not (of_transfer t c)) db.chunks });
}

pub memory_dexie-KeepsRows : KeepsRows memory_dexie
unfolding memory_dexie
memory_dexie-KeepsRows = record {
  chunk_rows = λ db. db.chunks;
  file_row = λ db id. Dict.get id db.files;
  get-row = λ id db found e. sym (ok-injective e);
  row-put = λ m db db' e j. rw (← ok-injective e) (Dict.get-set m.id j m db.files);
  chunks-put = λ m db db' e. rw (← ok-injective e) refl;
  chunks-add = λ c db db' n e. rw (← ap (λ r. r.0) (ok-injective e)) refl;
  row-add = λ c db db' n e j. rw (← ap (λ r. r.0) (ok-injective e)) refl;
  chunks-of = λ t db rows e. sym (ok-injective e);
  chunks-delete = λ t db db' e. rw (← ok-injective e) refl;
  row-delete = λ t db db' e j. rw (← ok-injective e) refl;
}

pub chunk_rows_lem : (db : MemoryDb) → memory_dexie-KeepsRows.chunk_rows db ≡ db.chunks
unfolding memory_dexie-KeepsRows
chunk_rows_lem db = refl

pub memory_dexie-StoresChunks : StoresChunks memory_dexie
unfolding memory_dexie
memory_dexie-StoresChunks = record {
  adds = λ c db. (_, refl);
  reads = λ t db. (_, refl);
  deletes = λ t db. (_, refl);
}

unfoldable pub sample_hasher : Hasher
unfolding sample_codec
sample_hasher = record { digest = λ blocks. ok (sample_codec.btoa (concat blocks)) }

pub sample_hasher-HashesBytes : HashesBytes sample_hasher
unfolding sample_hasher
sample_hasher-HashesBytes xs ys e = ap (λ t. ok (sample_codec.btoa t)) e

pub sample_crypto-ReimportsKeys : ReimportsKeys sample_crypto
unfolding sample_crypto
sample_crypto-ReimportsKeys seed raw k g e = rw (← ok-injective e) refl

abbrev pub sample_platform : Platform ℕ MemoryDb
sample_platform = record {
  crypto = sample_crypto;
  codec = sample_codec;
  hasher = sample_hasher;
  dexie = memory_dexie;
}
