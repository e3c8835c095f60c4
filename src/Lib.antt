-- ===== src/Lib.antt =====
-- ShadowChat's frontend: chat and file transfer between two browsers over WebRTC, end to end
-- encrypted. This development models the engines under frontend/src/lib, the hash worker, the two
-- stores under frontend/src/stores, and what they promise.
--
-- The parts, and the files that model them:
-- Common: Booleans, lists, maps (Dict), sorting, results and members, shared by all parts.
-- Platform: what the program takes from the browser and from packages, as interfaces with named
--   laws: Web Crypto (Platform/Crypto), text and base64 codecs (Platform/Encoding), the Dexie tables
--   (Platform/Tables), hash-wasm (Hasher). Platform/Sample and Platform/Memory fill all of them
--   with functions that run, and prove the laws of them.
-- Storage: frontend/src/lib/engines/storage.ts. saveChunk is save_chunk, and so on; a rejected
--   call changes nothing or returns nothing, as the `catch` blocks have it.
-- Crypto: frontend/src/lib/engines/crypto.ts on top of frontend/src/lib/crypto (aes.ts, keys.ts and
--   hkdf.ts are Crypto/Primitives). An `async` function that may throw returns a Result; random
--   bytes are arguments.
-- Integrity: frontend/src/workers/hash.worker.ts and frontend/src/lib/crypto/integrity.ts.
-- Transfer: frontend/src/lib/engines/transfer.ts, by its parts. Transfer/State holds the fields of
--   FileTransferCoordinator as the record Coordinator, with what it sent and reported as lists;
--   Transfer/Chunk the packets; Transfer/Send streamOutgoing and waitForDrain; Transfer/Receive
--   handleDataMessage and reassembleFile as one step, and Transfer/Overlap both as handlers that
--   overlap, split at their waits; Transfer/Offer sendFile, the metadata frame and
--   acceptTransfer; Transfer/Control pauseTransfer, resumeTransfer, cancelTransfer and the other
--   control frames. Transfer/Handshake, Transfer/Acceptance, Transfer/EndToEnd and Transfer/Whole join
--   sender and receiver.
-- Signaling: frontend/src/lib/engines/signaling.ts, the WebSocket client, as a record Client and one
--   function for each method, timer and socket event; Signaling/Steps has the step relation.
-- WebRtc: frontend/src/lib/engines/webrtc.ts, PeerConnectionManager, with its channels and offers.
-- Voice: frontend/src/lib/engines/voice.ts, the state machine of VoiceRecorder, and computeWaveform
--   (Voice/Waveform) over the samples that the browser decodes.
-- UiStore: frontend/src/stores/uiStore.ts, with the toasts and their timers.
-- RoomStore: frontend/src/stores/roomStore.ts, which joins all of these. RoomStore/State holds the fields
--   of RoomState with the module's variables; RoomStore/Session connectSignaling and disconnectRoom;
--   RoomStore/Listeners the listeners of the signaling client; RoomStore/Setup setupWebRTCPeer and the
--   callbacks of its connection, but for onMessage, which is RoomStore/Inbox; RoomStore/Turn the list of
--   ICE servers and getApiBase; RoomStore/Peers queueOrExecuteSignaling and flushSignalingQueue;
--   RoomStore/Keys finalizeKeyExchange; RoomStore/Events the callbacks of a coordinator;
--   RoomStore/Chat sendChatMessage; RoomStore/Files the actions on transfers; RoomStore/Controls
--   createRoom, joinRoom and the owner's controls. RoomStore/Steps has the step relation, and RoomStore/LifeCycle
--   the machine for the entry of one peer.
--
-- How they interact: the coordinator calls the crypto engine for keys, names and chunks, the storage
-- for rows and chunks, and the worker for hashes; it gets its messages through
-- handle_channel_message. The room store keeps one entry for each peer, with the connection manager,
-- the room key and the coordinator of that peer. It calls a coordinator with the store's database and
-- the state of the peer's control channel, and then runs the callbacks that the coordinator has noted,
-- in order (RoomStore/Events). What a step of the store finds outside (time, random draws, channel
-- states, the browser's connections, JSON of file notes) is the record Env; answers of the backend are
-- arguments.
--
-- Concurrency: a handler of the coordinator runs as one step, with two exceptions. The loop of
-- streamOutgoing reads a `Round` in every round, which says what other handlers left behind during its
-- waits, and the theorems hold for every `World` of rounds. The handlers of packets are not waited for
-- and overlap: in Transfer/Overlap the running ones are a list of stages, which share one object for
-- each transfer; a schedule lists the arrivals of packets and the steps of handlers in any order, and
-- a handler has twelve steps at most, so that many steps for each running one are enough to end all.
-- Control frames do not come between them there. Two handlers may both reassemble a file, so that a
-- report of a failure stands beside that of the file: Transfer/Tests/Overlap is such a run.
-- Transfer/Receive is a handler that nothing overlaps, and Transfer/Overlap/Alone joins the two. The signaling client's timers and socket events are steps of their own, in any order. A
-- handler of the room store is one step, with its waits inside, but for setupWebRTCPeer, which has
-- three steps (up to the TURN route, up to `initialize`, and the rest), connectSignaling, which has
-- three, and the timer of trySend. A setup whose peer was removed and set up again during its waits
-- works on the new manager of the peer, where the source would work on its own.
--
-- Numbers are natural numbers. Progress in per cent is a fraction, delays of the signaling client
-- are in 2000ths of a millisecond, and the index of a chunk is written modulo 2 ^ 32, as setUint32
-- does. Fuel: the prefix loop of handleDataMessage has one round more than chunks were received; the
-- worker's loop has one round for each byte, and a round takes a byte at least.
--
-- Not modelled: JSON and base64 as texts, the URL of the signaling server, the requests to the
-- backend, rendering (the pages and components), animations, and the Go
-- server under backend, which is another program. Console output is left out, and a callback of an
-- owner is taken to return.
pub mod Common
pub mod Platform
pub mod Storage
pub mod Crypto
pub mod Integrity
pub mod Transfer
pub mod Signaling
pub mod WebRtc
pub mod RoomStore
pub mod Voice
pub mod UiStore
