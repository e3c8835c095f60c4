-- ===== src/Storage.antt =====
-- frontend/src/lib/engines/storage.ts: the repository helpers over Dexie. Each swallows a rejection:
-- a write then changes nothing, and a read returns nothing.
pub mod Rows
use shadowchat.Common.{ℕ, Option, none, List, [], String}
use shadowchat.Common.Results.{or_else, ok, throws}
use shadowchat.Platform.Tables.{Dexie, StoredRoom, StoredFileMeta, StoredMessage, StoredChunk}
use mathlib.Core.List.{reverse}

module _ {DB : Type 0} (d : Dexie DB) where
  unfoldable pub save_room : StoredRoom → DB → DB
  save_room room db = or_else (d.put_room room db) db

  unfoldable pub save_file_meta : StoredFileMeta → DB → DB
  save_file_meta file db = or_else (d.put_file file db) db

  unfoldable pub get_file_meta : String → DB → Option StoredFileMeta
  get_file_meta id db = or_else (d.get_file id db) none

  unfoldable pub get_room_files : String → DB → List StoredFileMeta
  get_room_files room_id db = elim (d.files_of_room room_id db) [
    | ok rows ↦ reverse rows
    | throws e ↦ []
  ]

  -- The number is the id of the new row, and 0 after a rejection.
  unfoldable pub save_message : StoredMessage → DB → DB × ℕ
  save_message msg db = or_else (d.add_message msg db) (db, 0)

  unfoldable pub get_room_messages : String → DB → List StoredMessage
  get_room_messages room_id db = or_else (d.messages_of_room room_id db) []

  unfoldable pub save_chunk : StoredChunk → DB → DB × ℕ
  save_chunk chunk db = or_else (d.add_chunk chunk db) (db, 0)

  unfoldable pub get_transfer_chunks : String → DB → List StoredChunk
  get_transfer_chunks transfer_id db = or_else (d.chunks_of_transfer transfer_id db) []

  unfoldable pub clear_transfer_chunks : String → DB → DB
  clear_transfer_chunks transfer_id db = or_else (d.delete_chunks transfer_id db) db
