-- ===== src/RoomStore/Tests/Chats.antt =====
-- Runs of the chat of the store.
use shadowchat.Common.{ℕ, ◌≡◌, refl, List, [], ◌∷◌, ◌++◌, some, String, true, inl}
use shadowchat.Common.Dict
use shadowchat.Platform.Sample.{
  sample_crypto, sample_crypto-DecryptsAesGcm, sample_codec-RoundTrips,
}
use shadowchat.Platform.Memory.{MemoryDb, sample_platform}
use shadowchat.Crypto.{encrypt_text}
use shadowchat.UiStore.{warning}
use shadowchat.RoomStore.State.{RoomFrame, chat_frame, text_data, RoomState}
use shadowchat.RoomStore.Basics.{toast, line_open, short_name}
use shadowchat.RoomStore.Chat.{text_chat_message, send_chat_message}
use shadowchat.RoomStore.Inbox.{on_message}
use shadowchat.RoomStore.Setup.{placeholder}
use shadowchat.RoomStore.Broadcast.{Encrypts}
use shadowchat.RoomStore.Delivery.{chat_arrives}
use shadowchat.RoomStore.Unsent.{send_chat_message-unready}
use shadowchat.RoomStore.Tests.Samples.{env, ready_peer, room_of, with_peer}

abbrev alice : RoomState ℕ MemoryDb
alice = with_peer "bob" (ready_peer "bob") (room_of "alice")

abbrev bob : RoomState ℕ MemoryDb
bob = with_peer "alice" (ready_peer "alice") (room_of "bob")

bob_is_ready : line_open env (ready_peer "bob") ≡ true
unfolding line_open
bob_is_ready = refl

encrypts : Encrypts sample_platform env 3 "hi"
unfolding encrypt_text sample_crypto
encrypts n = (_, refl)

get_alice : Dict.get "alice" bob.peers ≡ some (ready_peer "alice")
unfolding Dict.get
get_alice = refl

chat_arrives_example :
    let t = send_chat_message sample_platform env "hi" alice in
    (t.messages ≡ alice.messages ++ (text_chat_message "drawn" "alice" "You" "hi" 100 ∷ []))
    × ((ciphertext : String) × (iv : String) × (sooner : List (String × RoomFrame)) × (later : List
          (String × RoomFrame))
        × (t.sent ≡ sooner ++ (("bob", chat_frame ciphertext iv) ∷ later))
        × ((on_message sample_platform env "alice" "r" "control"
              (text_data (some (chat_frame ciphertext iv)))
              bob).messages
            ≡ bob.messages
              ++ (text_chat_message "drawn" "alice" (short_name "alice") "hi" 100 ∷ [])))
chat_arrives_example =
    chat_arrives sample_platform env env sample_crypto-DecryptsAesGcm sample_codec-RoundTrips "hi"
      "r" "alice" "bob" "alice" "r" 3 (ready_peer "bob") (ready_peer "alice") [] [] alice bob refl
      refl refl refl bob_is_ready refl encrypts get_alice refl

abbrev waiting_alice : RoomState ℕ MemoryDb
waiting_alice = with_peer "bob" (placeholder "bob" true) (room_of "alice")

send_chat_message-unready_example :
    send_chat_message sample_platform env "hi" waiting_alice
    ≡ toast env warning "Secure channel not ready"
        "Key exchange still in progress. Please wait a moment and try again."
        (record waiting_alice { draws = 1 })
send_chat_message-unready_example =
    send_chat_message-unready sample_platform env "hi" "r" "alice" "bob" (placeholder "bob" true) []
      "Key exchange still in progress" waiting_alice refl refl refl (inl refl, tt)
      (unfold line_open in refl)
