-- ===== src/Platform/Tables.antt =====
-- The tables of lib/engines/storage.ts (the entities and the class `ShadowChatDatabase`), and the
-- calls of Dexie that its functions make. A call may reject.
use shadowchat.Common.{
  ℕ, ◌≡◌, Bool, not, Option, some, List, [], ◌∷◌, ◌++◌, String, str_eq, filter, if◌then◌else◌,
}
use shadowchat.Common.Sorting.{sort_by}
use shadowchat.Common.Results.{Result, ok}
use shadowchat.Platform.Crypto.{Bytes}

pub data Role : Type 0 where
  owner member : Role

pub record StoredRoom : Type 0 where
  pub id : String
  pub room_code : String
  pub encrypted_name : String
  pub encrypted_config : String
  pub joined_at : ℕ
  pub role : Role
  pub room_key : Option String

pub data FileStatus : Type 0 where
  pending transferring completed failed paused verifying : FileStatus

pub data Direction : Type 0 where
  incoming outgoing : Direction

-- A part of a whole as a fraction: 100 % is 1 / 1, and 99.9 % is 999 / 1000.
pub record Progress : Type 0 where
  pub part : ℕ
  pub whole : ℕ

pub record StoredFileMeta : Type 0 where
  pub id : String
  pub room_id : String
  pub encrypted_name : String
  pub encrypted_type : String
  pub size_bytes : ℕ
  pub hash : String
  pub status : FileStatus
  pub direction : Direction
  pub progress : Progress
  pub added_at : ℕ

-- The automatic `id` of a message or a chunk is what `add` returns, and is read nowhere.
pub record StoredMessage : Type 0 where
  pub room_id : String
  pub peer_id : String
  pub encrypted_text : String
  pub iv : String
  pub timestamp : ℕ

pub record StoredChunk : Type 0 where
  pub transfer_id : String
  pub chunk_index : ℕ
  pub payload : Bytes

pub record Dexie (DB : Type 0) : Type 0 where
  pub put_room : StoredRoom → DB → Result DB
  pub put_file : StoredFileMeta → DB → Result DB
  pub get_file : String → DB → Result (Option StoredFileMeta)
  -- `where('roomId').equals(r).sortBy('addedAt')`
  pub files_of_room : String → DB → Result (List StoredFileMeta)
  pub add_message : StoredMessage → DB → Result (DB × ℕ)
  -- `where('roomId').equals(r).sortBy('timestamp')`
  pub messages_of_room : String → DB → Result (List StoredMessage)
  pub add_chunk : StoredChunk → DB → Result (DB × ℕ)
  -- `where('transferId').equals(t).sortBy('chunkIndex')`
  pub chunks_of_transfer : String → DB → Result (List StoredChunk)
  pub delete_chunks : String → DB → Result DB

abbrev pub of_transfer : String → StoredChunk → Bool
of_transfer t c = str_eq c.transfer_id t

-- What Dexie documents of the tables, through views of their rows. A call that rejects changes
-- nothing, since it gives no new database.
pub record KeepsRows {DB : Type 0} (d : Dexie DB) : Type 0 where
  pub chunk_rows : DB → List StoredChunk
  pub file_row : DB → String → Option StoredFileMeta
  pub get-row :
      (id : String) (db : DB) (found : Option StoredFileMeta)
      → d.get_file id db ≡ ok found
      → found ≡ file_row db id
  pub row-put :
      (m : StoredFileMeta) (db db' : DB)
      → d.put_file m db ≡ ok db'
      → (j : String) → file_row db' j ≡ (if str_eq m.id j then some m else file_row db j)
  pub chunks-put :
      (m : StoredFileMeta) (db db' : DB) → d.put_file m db ≡ ok db' → chunk_rows db' ≡ chunk_rows db
  pub chunks-add :
      (c : StoredChunk) (db db' : DB) (n : ℕ)
      → d.add_chunk c db ≡ ok (db', n)
      → chunk_rows db' ≡ chunk_rows db ++ (c ∷ [])
  pub row-add :
      (c : StoredChunk) (db db' : DB) (n : ℕ)
      → d.add_chunk c db ≡ ok (db', n)
      → (j : String) → file_row db' j ≡ file_row db j
  pub chunks-of :
      (t : String) (db : DB) (rows : List StoredChunk)
      → d.chunks_of_transfer t db ≡ ok rows
      → rows ≡ sort_by (λ c. c.chunk_index) (filter (of_transfer t) (chunk_rows db))
  pub chunks-delete :
      (t : String) (db db' : DB)
      → d.delete_chunks t db ≡ ok db'
      → chunk_rows db' ≡ filter (λ c. not (of_transfer t c)) (chunk_rows db)
  pub row-delete :
      (t : String) (db db' : DB)
      → d.delete_chunks t db ≡ ok db'
      → (j : String) → file_row db' j ≡ file_row db j

-- Adding a chunk, reading the chunks back and deleting them do not reject.
pub record StoresChunks {DB : Type 0} (d : Dexie DB) : Type 0 where
  pub adds : (c : StoredChunk) (db : DB) → (r : DB × ℕ) × (d.add_chunk c db ≡ ok r)
  pub reads :
      (t : String) (db : DB) → (rows : List StoredChunk) × (d.chunks_of_transfer t db ≡ ok rows)
  pub deletes : (t : String) (db : DB) → (db' : DB) × (d.delete_chunks t db ≡ ok db')
