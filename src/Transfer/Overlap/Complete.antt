-- ===== src/Transfer/Overlap/Complete.antt =====
-- A transfer from its first chunk to the report of the file, whatever the order of the packets and of
-- the steps of their handlers.
use shadowchat.Common.{
  ℕ, ◌+◌, ◌≤◌, ◌<◌, ◌≡◌, refl, sym, inl, inr, List, [], ◌∷◌, ◌++◌, none, some, String, true, false,
  arith, All, elem, concat, Bool-cases, append-nil, append_assoc, Option-cases,
}
use mathlib.Core.Path.{subst}
use shadowchat.Common.Dict
use shadowchat.Common.Members.{length_of_run}
use shadowchat.Common.Results.{ok}
use shadowchat.Platform.{Platform}
use shadowchat.Platform.Crypto.{Bytes}
use shadowchat.Platform.Tables.{KeepsRows, StoresChunks}
use shadowchat.Integrity.{compute_hash}
use shadowchat.Transfer.Chunk.{deserialize_chunk}
use shadowchat.Transfer.State.{IncomingTransferState, Coordinator, put_incoming}
use shadowchat.Transfer.Receive.Rebuild.{pieces, row, Decrypts}
use shadowchat.Transfer.Receive.Arrival.{Expected, Receiving, chunk_of, payload}
use shadowchat.Transfer.Overlap.{
  Stage, saving, mark_chunk, Traffic, Turn, arrives, resumes, id_of, stage_at, put_at, total_of,
  steps_left, resume, resume_held, resume_at, admit, take_packet, turn, play, finish, run_out,
  quiet,
}
use shadowchat.Transfer.Overlap.Ending.{All-stage_at, finish-quiet}
use shadowchat.Transfer.Overlap.Gathering.{Good, Gathering}
use shadowchat.Transfer.Overlap.Arrivals.{marked-Gathering, again-Gathering, gone-Gathering}
use shadowchat.Transfer.Overlap.Winning.{Reports, resume-Won}
use shadowchat.Transfer.Overlap.Phases.{whole, Phase, Good-id, resume-Gathering}

-- The indices of the packets that arrive.
abbrev pub arrivals : List Turn → List ℕ
arrivals [] = []
arrivals (arrives i ∷ us) = i ∷ arrivals us
arrivals (resumes i ∷ us) = arrivals us

-- No handler is left, the transfer is out of the map, and the completed file was reported, with its
-- name.
pub record IsFinished {Key DB : Type 0} (id : String) (name : String) (blob : Bytes)
    (t : Traffic Key DB) : Type 0 where
  pub over : t.running ≡ []
  pub gone : Dict.get id t.coordinator.active_incoming ≡ none
  pub reported : Reports id name blob t.coordinator.events

module _ {Key DB : Type 0} (p : Platform Key DB) (k : KeepsRows p.dexie)
    (works : StoresChunks p.dexie) (x : Expected Key) (part : ℕ → Bytes)
    (decrypts : (i : ℕ) → i < x.total → Decrypts p x.key (payload x) part i)
    (hash : compute_hash p.hasher (concat (pieces part 0 x.total)) ≡ ok x.meta.hash) where
  -- The transfer with its shared object.
  record Flow (sent : List ℕ) (t : Traffic Key DB) : Type 0 where
    object : IncomingTransferState Key
    has : Dict.get x.id t.held ≡ some object
    phase : Phase p k works x part decrypts hash sent object t.coordinator t.running

  resume_held-Flow :
      (i : ℕ) (s : Stage) (sent : List ℕ) (t : Traffic Key DB)
      → stage_at i t.running ≡ some s
      → Flow sent t
      → Flow sent (resume_held p i s (Dict.get (id_of s) t.held) t)
  unfolding resume_held
  resume_held-Flow i s sent t at f =
      let m = resume p s f.object t.coordinator in
      rw (named f.phase, f.has)
        (record {
          object = m.object;
          has =
              subst (λ id. Dict.get x.id (Dict.set id m.object t.held) ≡ some m.object)
                (sym (named f.phase)) (Dict.get-set_self x.id m.object t.held);
          phase = next f.phase;
        })
    where
      named :
          Phase p k works x part decrypts hash sent f.object t.coordinator t.running
          → id_of s ≡ x.id
      named (inl (rows, g)) =
          Good-id p k works x part decrypts hash s (
            All-stage_at (Good p k x (whole p k works x part decrypts hash)) i s t.running at
              g.good)
      named (inr w) = All-stage_at (λ s. id_of s ≡ x.id) i s t.running at w.ours

      next :
          Phase p k works x part decrypts hash sent f.object t.coordinator t.running
          → let m = resume p s f.object t.coordinator in
            Phase p k works x part decrypts hash sent m.object m.coordinator
              (put_at i m.next t.running)
      next (inl (rows, g)) =
          resume-Gathering p k works x part decrypts hash i s at
            (All-stage_at (Good p k x (whole p k works x part decrypts hash)) i s t.running at
              g.good)
            g
      next (inr w) = inr (
          resume-Won x (whole p k works x part decrypts hash) p i f.object t.coordinator t.running s
            at w)

  resume_at-Flow :
      (i : ℕ) (sent : List ℕ) (t : Traffic Key DB) → Flow sent t → Flow sent (resume_at p i t)
  unfolding resume_at
  resume_at-Flow i sent t f = elim (Option-cases (stage_at i t.running)) [
    | inl nobody ↦ rw (resume_at, nobody) f
    | inr (s, at) ↦ rw (resume_at, at) (resume_held-Flow i s sent t at f)
  ]

  finish-Flow :
      (n : ℕ) (sent : List ℕ) (t : Traffic Key DB) → Flow sent t → Flow sent (finish p n t)
  unfolding finish
  finish-Flow ℕ.zero sent t f = f
  finish-Flow (ℕ.suc n) sent t f = finish-Flow n sent (resume_at p 0 t) (resume_at-Flow 0 sent t f)

  -- When no handler is left and all chunks have arrived, the file was reported.
  Flow-IsFinished :
      (sent : List ℕ) (t : Traffic Key DB)
      → 0 < x.total
      → ((i : ℕ) → i < x.total → elem i sent ≡ true)
      → t.running ≡ []
      → Flow sent t
      → IsFinished x.id x.meta.file_name (whole p k works x part decrypts hash) t
  Flow-IsFinished sent t some_chunk every over f = go t.running over f.phase
    where
      unfinished :
          (rows : List ℕ)
          → Gathering p k x
              (whole p k works x part decrypts hash)
              sent
              rows
              f.object
              t.coordinator
              []
          → ⊥
      unfinished rows g = elim g.last_test [
        | inr l ↦ absurd (omega arith)
        | inl few ↦ elim g.covered [
          | inr done ↦ absurd (omega (arith, done.1))
          | inl seen ↦
              let stored : (i : ℕ) → 0 ≤ i → i < 0 + x.total → elem i rows ≡ true =
                λ i a b. ground (arith, seen.1 i (every i (omega arith)), g.ledger i) in
              absurd (omega (arith, length_of_run x.total 0 rows stored, g.tallied))
        ]
      ]

      go :
          (ss : List Stage)
          → ss ≡ []
          → Phase p k works x part decrypts hash sent f.object t.coordinator ss
          → IsFinished x.id x.meta.file_name (whole p k works x part decrypts hash) t
      go (s ∷ ss) e ph = cc
      go [] e (inl (rows, g)) = absurd (unfinished rows g)
      go [] e (inr w) = record {
        over = over;
        gone = w.gone;
        reported = elim w.ending [ inl a ↦ absurd a | inr r ↦ r ];
      }

  -- The traffic after a new chunk.
  abbrev with_chunk : ℕ → IncomingTransferState Key → Traffic Key DB → Traffic Key DB
  with_chunk i o t = record {
    coordinator = put_incoming x.id (mark_chunk i o) t.coordinator;
    held = Dict.set x.id (mark_chunk i o) t.held;
    running = t.running ++ (saving (row x.id (payload x) i) ∷ []);
  }

  admit_new :
      (i : ℕ) (o : IncomingTransferState Key) (t : Traffic Key DB)
      → o.paused ≡ false
      → o.cancelled ≡ false
      → elem i o.received_chunks ≡ false
      → admit p (chunk_of x i) (some o) t ≡ with_chunk i o t
  unfolding admit
  admit_new i o t running kept new = rw (running, kept, new) refl

  admit_again :
      (i : ℕ) (o : IncomingTransferState Key) (t : Traffic Key DB)
      → o.paused ≡ false
      → o.cancelled ≡ false
      → elem i o.received_chunks ≡ true
      → admit p (chunk_of x i) (some o) t ≡ t
  unfolding admit
  admit_again i o t running kept old = rw (running, kept, old) refl

  module _ (packet : ℕ → Bytes)
      (reads : (i : ℕ)
        → i < x.total
        → deserialize_chunk p.codec (packet i) ≡ some (chunk_of x i)) where
    admit-Flow :
        (i : ℕ) (sent : List ℕ) (t : Traffic Key DB)
        → i < x.total
        → Flow sent t
        → Flow
            (sent ++ (i ∷ []))
            (admit p (chunk_of x i) (Dict.get x.id t.coordinator.active_incoming) t)
    unfolding admit
    admit-Flow i sent t h f = go f.phase
      where
        go :
            Phase p k works x part decrypts hash sent f.object t.coordinator t.running
            → Flow
                (sent ++ (i ∷ []))
                (admit p (chunk_of x i) (Dict.get x.id t.coordinator.active_incoming) t)
        go (inr w) = rw w.gone (record { object = f.object; has = f.has; phase = inr w })
        go (inl (rows, g)) = elim g.covered [
          | inr left ↦ rw left.0 (record {
            object = f.object;
            has = f.has;
            phase = inl (rows, gone-Gathering p k x _ i left.0 g);
          })
          | inl seen ↦ elim (Bool-cases (elem i f.object.received_chunks)) [
            | inl again ↦
                rw (seen.0, admit_again i f.object t g.running g.kept again)
                  (record {
                    object = f.object;
                    has = f.has;
                    phase = inl (rows, again-Gathering p k x _ i again g);
                  })
            | inr new ↦
                rw (seen.0, admit_new i f.object t g.running g.kept new)
                  (record {
                    object = mark_chunk i f.object;
                    has = Dict.get-set_self x.id (mark_chunk i f.object) t.held;
                    phase = inl (rows, marked-Gathering p k x _ i h new seen.0 g);
                  })
          ]
        ]

    turn-Flow :
        (u : Turn) (sent : List ℕ) (t : Traffic Key DB)
        → All (λ i. i < x.total) (arrivals (u ∷ []))
        → Flow sent t
        → Flow (sent ++ arrivals (u ∷ [])) (turn p packet u t)
    unfolding turn take_packet
    turn-Flow (arrives i) sent t h f =
        rw (turn, take_packet, reads i h.0) (admit-Flow i sent t h.0 f)
    turn-Flow (resumes i) sent t h f = rw append-nil (resume_at-Flow i sent t f)

    play-Flow :
        (us : List Turn) (sent : List ℕ) (t : Traffic Key DB)
        → All (λ i. i < x.total) (arrivals us)
        → Flow sent t
        → Flow (sent ++ arrivals us) (play p packet us t)
    unfolding play
    play-Flow [] sent t h f = rw append-nil f
    play-Flow (arrives i ∷ us) sent t h f =
        rw (append_assoc sent (i ∷ []) (arrivals us)) at
          (play-Flow us (sent ++ (i ∷ [])) _ h.1 (turn-Flow (arrives i) sent t (h.0, tt) f))
    play-Flow (resumes i ∷ us) sent t h f =
        play-Flow us sent _ h (rw append-nil at (turn-Flow (resumes i) sent t tt f))

    quiet-Flow :
        (incoming : IncomingTransferState Key) (c : Coordinator Key DB)
        → 0 < x.total
        → Receiving p k x [] incoming c
        → Flow [] (quiet c)
    quiet-Flow incoming c some_chunk r = record {
      object = incoming;
      has = r.active;
      phase = inl (
        [],
        record {
          running = r.running;
          kept = r.kept;
          same_key = r.same_key;
          same_meta = r.same_meta;
          same_total = r.same_total;
          listens = r.listens;
          stored = r.stored;
          distinct = tt;
          below = tt;
          ledger = λ i. rw r.marked (omega arith);
          tallied = omega (arith, r.counted);
          good = tt;
          covered = inl (r.active, λ i h. cc);
          last_test = inl (omega (arith, r.counted));
          ready = λ h. absurd (omega arith);
        },
      );
    }

    -- A receiver that has the metadata of a transfer with one chunk at least gets its packets in any
    -- order, each of them once or several times, while the handlers of earlier ones take their steps in
    -- any order. Once the handlers have ended, the file was reported, with the parts in order.
    pub play-IsFinished :
        (us : List Turn) (incoming : IncomingTransferState Key) (c : Coordinator Key DB)
        → 0 < x.total
        → All (λ i. i < x.total) (arrivals us)
        → ((i : ℕ) → i < x.total → elem i (arrivals us) ≡ true)
        → Receiving p k x [] incoming c
        → IsFinished x.id x.meta.file_name
            (whole p k works x part decrypts hash)
            (run_out p (play p packet us (quiet c)))
    play-IsFinished us incoming c some_chunk h every r =
        let t : Traffic Key DB = play p packet us (quiet c) in
        let n : ℕ = total_of steps_left t.running in
        Flow-IsFinished (arrivals us) (finish p n t) some_chunk every
          (finish-quiet p n t (omega arith))
          (finish-Flow n (arrivals us) t
            (play-Flow us [] (quiet c) h (quiet-Flow incoming c some_chunk r)))
