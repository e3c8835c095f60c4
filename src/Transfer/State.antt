-- ===== src/Transfer/State.antt =====
-- The state of a `FileTransferCoordinator`, what it sends and reports, and the small updates that its
-- methods share. A handler runs as one step in most files: the database calls that it awaits are made
-- in order, and no other handler comes between them. The exceptions are `streamOutgoing`, whose pauses
-- are explicit (Transfer/Send), and the handlers of packets, which overlap (Transfer/Overlap).
use shadowchat.Common.{
  ℕ, ◌+◌, ◌-◌, ◌*◌, ◌/◌, List, [], ◌∷◌, ◌++◌, Option, none, some, String, Bool, true, false, ltb,
  if◌then◌else◌, length, take, drop,
}
use shadowchat.Common.Dict
use shadowchat.Common.Dict.{Dict}
use shadowchat.Platform.Crypto.{Bytes}
use shadowchat.Platform.Tables.{Dexie, FileStatus, Progress, StoredFileMeta}
use shadowchat.Storage.{save_file_meta, get_file_meta}
use shadowchat.Transfer.Chunk.{chunk_size}

-- A `File`: its `size` is the number of its bytes.
pub record File : Type 0 where
  pub name : String
  pub kind : String
  pub content : Bytes

abbrev pub size : File → ℕ
size f = length f.content

-- `file.slice(start, end)`
abbrev pub slice : File → ℕ → ℕ → Bytes
slice f start end = take (end - start) (drop start f.content)

-- `lastSentIndex`, which starts at -1: `none`.
pub record OutgoingTransferState (Key : Type 0) : Type 0 where
  pub file : File
  pub file_key : Key
  pub paused : Bool
  pub cancelled : Bool
  pub last_sent_index : Option ℕ

pub record IncomingTransferMeta : Type 0 where
  pub file_name : String
  pub size_bytes : ℕ
  pub file_type : String
  pub hash : String

-- `received_chunks` lists the set in the order of insertion.
pub record IncomingTransferState (Key : Type 0) : Type 0 where
  pub meta : IncomingTransferMeta
  pub file_key : Key
  pub paused : Bool
  pub cancelled : Bool
  pub chunks_received_count : ℕ
  pub total_chunks : ℕ
  pub received_chunks : List ℕ
  pub contiguous_index : ℕ

pub record Metadata : Type 0 where
  pub transfer_id : String
  pub encrypted_name : String
  pub name_iv : String
  pub encrypted_type : String
  pub type_iv : String
  pub size_bytes : ℕ
  pub wrapped_key : String
  pub key_iv : String
  pub hash : String

-- The frames of the control channel, as `sendControl` builds them. A `resume` carries either the
-- receiver's `contiguousIndex` or the sender's `lastReceivedChunkIndex`, which may be -1.
pub data Control : Type 0 where
  metadata : Metadata → Control
  accept pause cancel : String → Control
  resume_from : String → ℕ → Control
  resume_after : String → Option ℕ → Control

-- The bytes per second and the seconds left, as fractions.
pub record TransferProgress : Type 0 where
  pub transfer_id : String
  pub bytes_transferred : ℕ
  pub progress : Progress
  pub speed_bytes_per_sec : Progress
  pub eta_sec : Progress

pub record Offered : Type 0 where
  pub transfer_id : String
  pub file_name : String
  pub size_bytes : ℕ
  pub file_type : String

pub data Event : Type 0 where
  progressed : TransferProgress → Event
  incoming_transfer incoming_transfer_request : Offered → Event
  finished : String → Bytes → String → Event
  failed_with : String → String → Event

-- Which of the callbacks of `FileTransferEvents` the owner has set.
pub record Handlers : Type 0 where
  pub on_progress : Bool
  pub on_incoming_transfer : Bool
  pub on_incoming_transfer_request : Bool
  pub on_complete : Bool
  pub on_failed : Bool

-- `events` lists the calls of the owner's callbacks, `controls` what went out on the control channel
-- and `packets` what went out on the data channels with their labels, oldest first.
pub record Coordinator (Key DB : Type 0) : Type 0 where
  pub room_key : Key
  pub room_id : String
  pub handlers : Handlers
  pub active_outgoing : Dict (OutgoingTransferState Key)
  pub active_incoming : Dict (IncomingTransferState Key)
  pub control_open : Bool
  pub db : DB
  pub events : List Event
  pub controls : List Control
  pub packets : List (String × Bytes)

abbrev pub percent : ℕ → ℕ → Progress
percent part whole = record { part = part; whole = whole }

abbrev pub no_progress : Progress
no_progress = percent 0 1

abbrev pub all_done : Progress
all_done = percent 1 1

-- `Math.min(99.9, (part / whole) * 100)`
abbrev pub capped : ℕ → ℕ → Progress
capped part whole = if ltb (1000 * part) (999 * whole) then percent part whole else percent 999 1000

-- `Math.ceil(size / CHUNK_SIZE)`
abbrev pub chunks_for : ℕ → ℕ
chunks_for n = (n + (chunk_size - 1)) / chunk_size

module _ {Key DB : Type 0} where
  -- `if (this.events.onX) this.events.onX(…)`
  abbrev pub notify : Bool → Event → Coordinator Key DB → Coordinator Key DB
  notify true e c = record c { events = c.events ++ (e ∷ []) }
  notify false e c = c

  unfoldable pub send_control : Control → Coordinator Key DB → Coordinator Key DB
  send_control m c = if c.control_open then record c { controls = c.controls ++ (m ∷ []) } else c

  abbrev pub set_db : DB → Coordinator Key DB → Coordinator Key DB
  set_db db c = record c { db = db }

  abbrev pub drop_outgoing : String → Coordinator Key DB → Coordinator Key DB
  drop_outgoing id c = record c { active_outgoing = Dict.delete id c.active_outgoing }

  abbrev pub drop_incoming : String → Coordinator Key DB → Coordinator Key DB
  drop_incoming id c = record c { active_incoming = Dict.delete id c.active_incoming }

  abbrev pub fail_event : String → String → Coordinator Key DB → Coordinator Key DB
  fail_event id error c = notify c.handlers.on_failed (failed_with id error) c

  -- `const t = this.activeOutgoing.get(id); if (t) f(t)`, where `f` changes the object and the state.
  abbrev pub for_outgoing :
      String
      → (OutgoingTransferState Key → Coordinator Key DB → Coordinator Key DB)
      → Coordinator Key DB
      → Coordinator Key DB
  for_outgoing id f c = elim (Dict.get id c.active_outgoing) [ none ↦ c | some o ↦ f o c ]

  abbrev pub for_incoming :
      String
      → (IncomingTransferState Key → Coordinator Key DB → Coordinator Key DB)
      → Coordinator Key DB
      → Coordinator Key DB
  for_incoming id f c = elim (Dict.get id c.active_incoming) [ none ↦ c | some i ↦ f i c ]

  abbrev pub put_outgoing :
      String → OutgoingTransferState Key → Coordinator Key DB → Coordinator Key DB
  put_outgoing id o c = record c { active_outgoing = Dict.set id o c.active_outgoing }

  abbrev pub put_incoming :
      String → IncomingTransferState Key → Coordinator Key DB → Coordinator Key DB
  put_incoming id i c = record c { active_incoming = Dict.set id i c.active_incoming }

module _ {DB : Type 0} (d : Dexie DB) where
  -- `if (meta) { meta.status = …; await saveFileMeta(meta); }`, where `meta` was read before.
  abbrev pub save_with : (StoredFileMeta → StoredFileMeta) → Option StoredFileMeta → DB → DB
  save_with f none db = db
  save_with f (some meta) db = save_file_meta d (f meta) db

  -- `const meta = await getFileMeta(id); if (meta) { …; await saveFileMeta(meta); }`
  abbrev pub update_meta : (StoredFileMeta → StoredFileMeta) → String → DB → DB
  update_meta f id db = save_with f (get_file_meta d id db) db

abbrev pub with_status : FileStatus → StoredFileMeta → StoredFileMeta
with_status s m = record m { status = s }

abbrev pub with_progress : Progress → StoredFileMeta → StoredFileMeta
with_progress p m = record m { progress = p }
