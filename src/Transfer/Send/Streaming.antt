-- ===== src/Transfer/Send/Streaming.antt =====
-- What `streamOutgoing` puts on the data channels.
use shadowchat.Common.{
  ℕ, zero, suc, ◌+◌, ◌-◌, ◌≤◌, ◌<◌, ◌≡◌, refl, sym, ap, ◌∙◌, ◌⊎◌, inl, inr, List, [], ◌∷◌, ◌++◌,
  Option, none, some, String, Bool, true, false, arith, append-nil, append_assoc, Bool-cases,
  Option-cases,
}
use mathlib.Core.Option
use shadowchat.Common.Dict
use shadowchat.Common.Results.{ok, or_else, Result-cases}
use shadowchat.Platform.{Platform}
use shadowchat.Platform.Crypto.{Bytes}
use shadowchat.Platform.Tables.{StoredFileMeta, transferring}
use shadowchat.Storage.{get_file_meta}
use shadowchat.Transfer.State.{
  OutgoingTransferState, size, chunks_for, with_status, File, Coordinator, Event, notify, set_db,
  save_with,
}
use shadowchat.Transfer.Send.{
  World, Flow, continues, returns, raises, then_go, channel_label, not_active, make_packet,
  mark_sent, after_send, stream_round, stream_loop, finish_stream, stream_outgoing,
}

module _ {Key DB : Type 0} where
  -- The state in which a flow ends.
  abbrev pub final : Flow Key DB → Coordinator Key DB
  final (continues meta c) = c
  final (returns c) = c
  final (raises e meta c) = c

  notify-packets :
      (b : Bool) (e : Event) (c : Coordinator Key DB) → (notify b e c).packets ≡ c.packets
  notify-packets true e c = refl
  notify-packets false e c = refl

  notify-outgoing :
      (b : Bool) (e : Event) (c : Coordinator Key DB)
      → (notify b e c).active_outgoing ≡ c.active_outgoing
  notify-outgoing true e c = refl
  notify-outgoing false e c = refl

module _ {Key DB : Type 0} (p : Platform Key DB) (w : World) (id : String) (file : File)
    (key : Key) where
  -- The packet of chunk `i` with the IV that is drawn in its round.
  abbrev pub packet_at : ℕ → Bytes
  packet_at i = or_else (make_packet p id file key i (w i).random_iv) []

  -- `n` packets from chunk `lo` on, each with the label of its channel.
  abbrev pub labelled : ℕ → ℕ → List (String × Bytes)
  labelled lo zero = []
  labelled lo (suc n) = (channel_label lo, packet_at lo) ∷ labelled (lo + 1) n

  mark_sent-packets : (i : ℕ) (c : Coordinator Key DB) → (mark_sent p id i c).packets ≡ c.packets
  unfolding mark_sent
  mark_sent-packets i c = ground arith

  -- The state behind a packet that was sent.
  after_send-packets :
      (start i time now : ℕ) (meta : Option StoredFileMeta) (c : Coordinator Key DB)
      → (meta' : Option StoredFileMeta) × (c' : Coordinator Key DB) × (after_send p id file start i
            time now meta c
          ≡ continues meta' c')
        × (c'.packets ≡ c.packets)
  unfolding after_send
  after_send-packets start i time now meta c =
      (_, _, refl, notify-packets _ _ _ ∙ mark_sent-packets i c)

  -- In every round a packet goes out and the loop goes on, or none does and the loop ends.
  stream_round_cases :
      (start i time : ℕ) (meta : Option StoredFileMeta) (c : Coordinator Key DB)
      → ((meta' : Option StoredFileMeta) × (c' : Coordinator Key DB) × (stream_round p
              (w i)
              id
              file
              key
              start
              i
              time
              meta
              c
            ≡ continues meta' c')
          × (c'.packets ≡ c.packets ++ ((channel_label i, packet_at i) ∷ [])))
        ⊎ ((f : Flow Key DB) × (stream_round p (w i) id file key start i time meta c ≡ f)
            × ((k : Option StoredFileMeta → Coordinator Key DB → Flow Key DB) → then_go f k ≡ f)
            × (final f ≡ c))
  unfolding stream_round
  stream_round_cases start i time meta c = elim (Bool-cases (w i).halted_before) [
    | inl t ↦ inr (returns c, rw t refl, λ k. refl, refl)
    | inr f ↦ elim (Result-cases (make_packet p id file key i (w i).random_iv)) [
      | inr (e, q) ↦ inr (raises e meta c, rw (f, q, stream_round) refl, λ k. refl, refl)
      | inl (packet, q) ↦ elim (Bool-cases (w i).channel_open) [
        | inr closed ↦ inr (
          raises (not_active (channel_label i)) meta c,
          rw (f, q, closed, stream_round) refl,
          λ k. refl,
          refl,
        )
        | inl opened ↦ elim (Bool-cases (w i).halted_after) [
          | inl t ↦ inr (returns c, rw (f, q, opened, t, stream_round) refl, λ k. refl, refl)
          | inr g ↦ elim (Option-cases (w i).send_error) [
            | inr (x, t) ↦
                inr (raises x meta c, rw (f, q, opened, g, t, stream_round) refl, λ k. refl, refl)
            | inl n ↦
                let sent : Coordinator Key DB = record c {
                  packets = c.packets ++ ((channel_label i, packet) ∷ []);
                } in
                let (meta', c', e, same) = after_send-packets start i time (w i).now meta sent in
                inl (meta', c', rw (f, q, opened, g, n, stream_round) e, rw q same)
          ]
        ]
      ]
    ]
  ]

  stream_loop-packets :
      (start time rounds lo : ℕ) (meta : Option StoredFileMeta) (c : Coordinator Key DB)
      → (j : ℕ) × (j ≤ rounds)
        × ((final (stream_loop p w id file key start time rounds lo meta c)).packets
            ≡ c.packets ++ labelled lo j)
  unfolding stream_loop
  stream_loop-packets start time zero lo meta c = (0, omega arith, sym (append-nil c.packets))
  stream_loop-packets start time (suc rounds) lo meta c =
      elim (stream_round_cases start lo time meta c) [
        | inr (f, e, ends, same) ↦ (
          0,
          omega arith,
          rw (e, ends)
              (ap (λ (d : Coordinator Key DB). d.packets) same ∙ sym (append-nil c.packets)),
        )
        | inl (meta', c', e, sent) ↦
            let (j, h, rest) = stream_loop-packets start time rounds (lo + 1) meta' c' in
            (
              suc j,
              omega arith,
              rw e (rest ∙ ap (λ t. t ++ labelled (lo + 1) j) sent ∙ append_assoc c.packets _ _),
            )
      ]

  -- A round in which nobody pauses or cancels, the channel is open, the packet is made and sent.
  pub record IsSmooth (i : ℕ) : Type 0 where
    pub packet : Bytes
    pub made : make_packet p id file key i (w i).random_iv ≡ ok packet
    pub not_halted_before : (w i).halted_before ≡ false
    pub opened : (w i).channel_open ≡ true
    pub not_halted_after : (w i).halted_after ≡ false
    pub not_failed : (w i).send_error ≡ none

  stream_round_of_IsSmooth :
      (start i time : ℕ) (meta : Option StoredFileMeta) (c : Coordinator Key DB)
      → IsSmooth i
      → (meta' : Option StoredFileMeta) × (c' : Coordinator Key DB) × (stream_round p
            (w i)
            id
            file
            key
            start
            i
            time
            meta
            c
          ≡ continues meta' c')
        × (c'.packets ≡ c.packets ++ ((channel_label i, packet_at i) ∷ []))
  unfolding stream_round
  stream_round_of_IsSmooth start i time meta c s =
      let sent : Coordinator Key DB = record c {
        packets = c.packets ++ ((channel_label i, s.packet) ∷ []);
      } in
      let (meta', c', e, same) = after_send-packets start i time (w i).now meta sent in
      (
        meta',
        c',
        rw (s.not_halted_before, s.made, s.opened, s.not_halted_after, s.not_failed, stream_round)
            e,
        rw s.made same,
      )

  stream_loop_of_IsSmooth :
      (start time rounds lo : ℕ) (meta : Option StoredFileMeta) (c : Coordinator Key DB)
      → ((i : ℕ) → lo ≤ i → i < lo + rounds → IsSmooth i)
      → (meta' : Option StoredFileMeta) × (c' : Coordinator Key DB) × (stream_loop p w id file key
            start time rounds lo meta c
          ≡ continues meta' c')
        × (c'.packets ≡ c.packets ++ labelled lo rounds)
  unfolding stream_loop
  stream_loop_of_IsSmooth start time zero lo meta c h = (meta, c, refl, sym (append-nil c.packets))
  stream_loop_of_IsSmooth start time (suc rounds) lo meta c h =
      let (meta1, c1, e1, sent) =
        stream_round_of_IsSmooth start lo time meta c (h lo (omega arith) (omega arith)) in
      let (meta', c', e, rest) =
        stream_loop_of_IsSmooth start time rounds (lo + 1) meta1 c1
          (λ i a b. h i (omega arith) (omega arith)) in
      (
        meta',
        c',
        rw e1 e,
        rest ∙ ap (λ t. t ++ labelled (lo + 1) rounds) sent ∙ append_assoc c.packets _ _,
      )

module _ {Key DB : Type 0} (p : Platform Key DB) (w : World) (id : String) where
  finish_stream-packets :
      (file : File) (f : Flow Key DB) → (finish_stream p id file f).packets ≡ (final f).packets
  unfolding finish_stream
  finish_stream-packets file (returns c) = refl
  finish_stream-packets file (continues meta c) = notify-packets c.handlers.on_progress _ _
  finish_stream-packets file (raises e meta c) = notify-packets c.handlers.on_failed _ _

  finish_stream-gone :
      (file : File) (meta : Option StoredFileMeta) (c : Coordinator Key DB)
      → Dict.get id (finish_stream p id file (continues meta c)).active_outgoing ≡ none
  unfolding finish_stream
  finish_stream-gone file meta c =
      ap (Dict.get id) (notify-outgoing c.handlers.on_progress _ _)
      ∙ Dict.get-delete_self id c.active_outgoing

  module _ (o : OutgoingTransferState Key) (start time : ℕ) (c : Coordinator Key DB)
      (active : Dict.get id c.active_outgoing ≡ some o) where
    -- The loop's result in this call.
    abbrev loop_flow : Flow Key DB
    loop_flow =
        let meta = get_file_meta p.dexie id c.db in
        stream_loop p w id o.file o.file_key start time (chunks_for (size o.file) - start) start
          (Option.map (with_status transferring) meta)
          (set_db (save_with p.dexie (with_status transferring) meta c.db) c)

    stream_outgoing-finish :
        stream_outgoing p w id start time c ≡ finish_stream p id o.file loop_flow
    unfolding stream_outgoing
    stream_outgoing-finish = rw active refl

    -- Whatever happens around its waits, a call of `streamOutgoing` for an active transfer sends
    -- the packets of consecutive chunks from `startIndex` on, in order, each once and with the
    -- label of its index, and none beyond the last chunk.
    pub stream_outgoing-packets :
        (j : ℕ) × (j ≤ chunks_for (size o.file) - start)
        × ((stream_outgoing p w id start time c).packets
            ≡ c.packets ++ labelled p w id o.file o.file_key start j)
    stream_outgoing-packets =
        let (j, h, e) =
          stream_loop-packets p w id o.file o.file_key start time (chunks_for (size o.file) - start)
            start _ _ in
        (
          j,
          h,
          ap (λ (d : Coordinator Key DB). d.packets) stream_outgoing-finish
              ∙ finish_stream-packets o.file loop_flow
              ∙ e,
        )

    -- Where nobody pauses or cancels, the channels are open and every packet is made and sent, a
    -- call of `streamOutgoing` for an active transfer sends all chunks from `startIndex` on, and
    -- the transfer is no longer active.
    pub stream_outgoing_all :
        ((i : ℕ) → start ≤ i → i < chunks_for (size o.file) → IsSmooth p w id o.file o.file_key i)
        → ((stream_outgoing p w id start time c).packets
            ≡ c.packets
              ++ labelled p w id o.file o.file_key start (chunks_for (size o.file) - start))
          × (Dict.get id (stream_outgoing p w id start time c).active_outgoing ≡ none)
    stream_outgoing_all smooth =
        let (meta', c', e, sent) =
          stream_loop_of_IsSmooth p w id o.file o.file_key start time
            (chunks_for (size o.file) - start) start _ _ (λ i a b. smooth i a (omega arith)) in
        let end : stream_outgoing p w id start time c
            ≡ finish_stream p id o.file (continues meta' c') =
          stream_outgoing-finish ∙ ap (finish_stream p id o.file) e in
        (
          ap (λ (d : Coordinator Key DB). d.packets) end
              ∙ finish_stream-packets o.file (continues meta' c')
              ∙ sent,
          ap (λ (d : Coordinator Key DB). Dict.get id d.active_outgoing) end
              ∙ finish_stream-gone o.file meta' c',
        )
