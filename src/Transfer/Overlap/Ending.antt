-- ===== src/Transfer/Overlap/Ending.antt =====
-- The list of the running handlers, and that all of them end.
use shadowchat.Common.{
  ℕ, zero, suc, ◌+◌, ◌≤◌, ◌<◌, ◌≡◌, refl, List, [], ◌∷◌, ◌++◌, Option, none, some, arith, All, inl,
  inr, String, leb, Bool-cases,
}
use shadowchat.Common.Dict
use shadowchat.Platform.{Platform}
use shadowchat.Platform.Tables.{StoredFileMeta}
use shadowchat.Storage.{get_file_meta}
use shadowchat.Transfer.State.{IncomingTransferState, Coordinator, TransferProgress}
use shadowchat.Transfer.Receive.{chunk_progress}
use shadowchat.Transfer.Overlap.{
  Stage, saving, saved, reading, read, writing, written, checking, marking, fetching, clearing,
  closing, closed, Traffic, stage_at, put_at, steps_left, total_of, resume, resume_held, resume_at,
  finish, id_of, end_chunk, to_fetch,
}

-- What a next stage weighs; the end weighs nothing.
abbrev pub weight : (Stage → ℕ) → Option Stage → ℕ
weight f none = 0
weight f (some s) = f s

abbrev pub Next {κ} : (Stage → Type κ) → Option Stage → Type κ
Next P none = Unit
Next P (some s) = P s

pub total_of-put_at :
    (f : Stage → ℕ) (i : ℕ) (n : Option Stage) (s : Stage) (ss : List Stage)
    → stage_at i ss ≡ some s
    → total_of f (put_at i n ss) + f s ≡ total_of f ss + weight f n
total_of-put_at f i n s [] h = cc
total_of-put_at f zero none s (x ∷ ss) h = let e : x ≡ s = cc in rw e (omega arith)
total_of-put_at f zero (some n) s (x ∷ ss) h = let e : x ≡ s = cc in rw e (omega arith)
total_of-put_at f (suc i) n s (x ∷ ss) h = omega (arith, total_of-put_at f i n s ss h)

pub total_of-append :
    (f : Stage → ℕ) (ss : List Stage) (s : Stage)
    → total_of f (ss ++ (s ∷ [])) ≡ total_of f ss + f s
total_of-append f [] s = omega arith
total_of-append f (x ∷ ss) s = omega (arith, total_of-append f ss s)

module _ {κ} (P : Stage → Type κ) where
  pub All-stage_at : (i : ℕ) (s : Stage) (ss : List Stage) → stage_at i ss ≡ some s → All P ss → P s
  All-stage_at i s [] h a = cc
  All-stage_at zero s (x ∷ ss) h a = let e : x ≡ s = cc in rw (← e) a.0
  All-stage_at (suc i) s (x ∷ ss) h a = All-stage_at i s ss h a.1

  pub All-put_at :
      (i : ℕ) (n : Option Stage) (ss : List Stage) → Next P n → All P ss → All P (put_at i n ss)
  All-put_at i n [] h a = tt
  All-put_at zero none (x ∷ ss) h a = a.1
  All-put_at zero (some n) (x ∷ ss) h a = (h, a.1)
  All-put_at (suc i) n (x ∷ ss) h a = (a.0, All-put_at i n ss h a.1)

  pub All-append_one : (ss : List Stage) (s : Stage) → All P ss → P s → All P (ss ++ (s ∷ []))
  All-append_one [] s a h = (h, tt)
  All-append_one (x ∷ ss) s a h = (a.0, All-append_one ss s a.1 h)

some_left : (s : Stage) → 0 < steps_left s
some_left (saving row) = omega arith
some_left (saved id) = omega arith
some_left (reading id) = omega arith
some_left (read id meta) = omega arith
some_left (writing id meta progress) = omega arith
some_left (written id progress) = omega arith
some_left (checking id) = omega arith
some_left (marking id meta) = omega arith
some_left (fetching id meta) = omega arith
some_left (clearing id meta r) = omega arith
some_left (closing id meta r) = omega arith
some_left (closed id r) = omega arith

module _ {Key DB : Type 0} (p : Platform Key DB) where
  end_chunk-fewer :
      (id : String) (progress : TransferProgress) (o : IncomingTransferState Key)
      (c : Coordinator Key DB)
      → weight steps_left (end_chunk id progress o c).next < 7
  unfolding end_chunk
  end_chunk-fewer id progress o c = elim (Bool-cases (leb o.total_chunks o.chunks_received_count)) [
    | inl full ↦ rw full (omega arith)
    | inr more ↦ rw more (omega arith)
  ]

  -- Every step of a handler leaves it fewer.
  resume-fewer :
      (s : Stage) (o : IncomingTransferState Key) (c : Coordinator Key DB)
      → weight steps_left (resume p s o c).next < steps_left s
  unfolding resume
  resume-fewer (saving row) o c = omega arith
  resume-fewer (saved id) o c = omega arith
  resume-fewer (reading id) o c = omega arith
  resume-fewer (read id none) o c = omega (arith, end_chunk-fewer id (chunk_progress id o) o c)
  resume-fewer (read id (some meta)) o c = omega arith
  resume-fewer (writing id meta progress) o c = omega arith
  resume-fewer (written id progress) o c = end_chunk-fewer id progress o c
  resume-fewer (checking id) o c = go (get_file_meta p.dexie id c.db)
    where
      go : (meta : Option StoredFileMeta) → steps_left (to_fetch id meta) < 6
      go none = omega arith
      go (some meta) = omega arith
  resume-fewer (marking id meta) o c = omega arith
  resume-fewer (fetching id meta) o c = omega arith
  resume-fewer (clearing id none r) o c = omega arith
  resume-fewer (clearing id (some meta) r) o c = omega arith
  resume-fewer (closing id meta r) o c = omega arith
  resume-fewer (closed id r) o c = omega arith

  resume_held-fewer :
      (s : Stage) (ss : List Stage) (found : Option (IncomingTransferState Key))
      (t : Traffic Key DB)
      → t.running ≡ s ∷ ss
      → total_of steps_left (resume_held p 0 s found t).running < total_of steps_left (s ∷ ss)
  unfolding resume_held
  resume_held-fewer s ss none t h =
      rw h (omega (arith, total_of-put_at steps_left 0 none s (s ∷ ss) refl, some_left s))
  resume_held-fewer s ss (some o) t h = rw h (
      omega (
        arith,
        total_of-put_at steps_left 0 (resume p s o t.coordinator).next s (s ∷ ss) refl,
        resume-fewer s o t.coordinator,
      ))

  finish_from :
      (n : ℕ) (c : Coordinator Key DB) (held : Dict.Dict (IncomingTransferState Key))
      (ss : List Stage)
      → total_of steps_left ss ≤ n
      → (finish p n (record { coordinator = c; held = held; running = ss })).running ≡ []
  unfolding finish resume_at
  finish_from zero c held [] h = refl
  finish_from zero c held (s ∷ ss) h = absurd (omega (arith, some_left s))
  finish_from (suc n) c held [] h = finish_from n c held [] (omega arith)
  finish_from (suc n) c held (s ∷ ss) h =
      let t : Traffic Key DB = record { coordinator = c; held = held; running = s ∷ ss } in
      let next = resume_held p 0 s (Dict.get (id_of s) held) t in
      finish_from n next.coordinator next.held next.running
        (omega (arith, resume_held-fewer s ss (Dict.get (id_of s) held) t refl))

  -- All handlers end within as many steps as they have left.
  pub finish-quiet :
      (n : ℕ) (t : Traffic Key DB) → total_of steps_left t.running ≤ n → (finish p n t).running ≡ []
  finish-quiet n t h = finish_from n t.coordinator t.held t.running h
