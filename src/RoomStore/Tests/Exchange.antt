-- ===== src/RoomStore/Tests/Exchange.antt =====
-- A run in which two stores exchange their keys.
use shadowchat.Common.{ℕ, ◌≡◌, refl, some, [], ◌∷◌, true}
use shadowchat.Common.Dict
use shadowchat.Common.Results.{ok}
use shadowchat.Platform.Memory.{MemoryDb, sample_platform}
use shadowchat.Platform.Sample.{
  pair_of, sample_crypto, sample_codec, sample_codec-RoundTrips, pair_of-IsExchangePair,
  pair_of-IsSigningPair, pair_of-Agree,
}
use shadowchat.Crypto.{
  KeyExchangePacket, prepare_key_exchange, complete_key_exchange, derive_shared_key,
}
use shadowchat.WebRtc.{new_manager}
use shadowchat.RoomStore.State.{key_action, RoomState}
use shadowchat.RoomStore.Peers.{queue_or_execute}
use shadowchat.RoomStore.Agreement.{IsConnected, IsWaiting, queue_or_execute-Agree}
use shadowchat.RoomStore.Tests.Samples.{env, managed_peer, room_of, with_peer, packet, packet_made}

-- "alice" has the pairs 2 and 7, "bob" the pairs 4 and 1.
abbrev alice : RoomState ℕ MemoryDb
alice = with_peer "bob" (managed_peer "bob") (room_of "alice")

abbrev bob : RoomState ℕ MemoryDb
bob = record (with_peer "alice" (managed_peer "alice") (room_of "bob")) {
  local_x25519_pair = some (pair_of 4);
  local_ed25519_pair = some (pair_of 1);
}

abbrev packet_of_bob : KeyExchangePacket
packet_of_bob = record {
  x25519_jwk = ("x", sample_codec.btoa (4 ∷ [])) ∷ [];
  ed25519_jwk = ("x", sample_codec.btoa (1 ∷ [])) ∷ [];
  signature = sample_codec.btoa (6 ∷ []);
}

bob_waits : IsWaiting (Dict.get "bob" alice.peers)
unfolding Dict.get
bob_waits = record {
  peer = managed_peer "bob";
  manager = new_manager true;
  there = refl;
  managed = refl;
  bare = refl;
}

alice_waits : IsWaiting (Dict.get "alice" bob.peers)
unfolding Dict.get
alice_waits = record {
  peer = managed_peer "alice";
  manager = new_manager true;
  there = refl;
  managed = refl;
  bare = refl;
}

key_derived : complete_key_exchange sample_crypto sample_codec 2 packet_of_bob "r" ≡ ok 9
unfolding complete_key_exchange derive_shared_key sample_crypto sample_codec
key_derived = refl

queue_or_execute-Agree_example :
    IsConnected 9 (
      Dict.get "bob"
        (queue_or_execute sample_platform env "bob" (key_action (some packet_of_bob)) alice).peers)
    × IsConnected 9 (
        Dict.get "alice"
          (queue_or_execute sample_platform env "alice" (key_action (some packet)) bob).peers)
queue_or_execute-Agree_example =
    queue_or_execute-Agree sample_platform sample_codec-RoundTrips env env "alice" "bob" "r"
      (pair_of 2) (pair_of 7) (pair_of 4) (pair_of 1) packet packet_of_bob 9 alice bob
      (pair_of-IsExchangePair 2) (pair_of-IsSigningPair 7) (pair_of-IsExchangePair 4)
      (pair_of-IsSigningPair 1) (pair_of-Agree 2 4) packet_made
      (unfold prepare_key_exchange sample_crypto sample_codec in refl) refl refl refl refl bob_waits
      alice_waits key_derived
