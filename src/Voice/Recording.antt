-- ===== src/Voice/Recording.antt =====
-- A recording from `start` to `onstop`.
use shadowchat.Common.{
  ℕ, ◌-◌, ◌≡◌, refl, sym, ap, ◌∙◌, List, [], ◌∷◌, ◌++◌, none, some, String, Bool, true, false,
  concat, append_assoc, append-nil, ltb, Bool-cases, inl, inr, if◌then◌else◌,
}
use shadowchat.Common.Results.{Result, ok, throws}
use shadowchat.Platform.Crypto.{Bytes}
use shadowchat.Voice.{
  recording, Recorder, Media, resolved, rejected, mime_type, cleanup, is_recording, start_audio,
  start_recorder, start_stream, start, on_data_available, stop, on_stop, already_recording,
}

-- The recorder once `start` has succeeded, with its own type.
abbrev pub started : String → Media → Recorder → Recorder
started mime m r = record r {
  state = recording;
  recorder = some mime;
  stop_type = none;
  stream = true;
  audio = true;
  animating = true;
  chunks = [];
  start_time = m.now;
}

no_throw : {e : String} → ◌≡◌ {A = Result (Unit {0})} (throws e) (ok tt) → ⊥
no_throw h = cc

start_recorder-eq-ok :
    (m : Media) (a : Result String) (mime : String) (b : Result (Unit {0})) (r : Recorder)
    → a ≡ ok mime
    → (start_recorder (record m { audio_made = b }) a (record r { stream = true })).1 ≡ ok tt
    → (start_recorder (record m { audio_made = b }) a (record r { stream = true })).0
      ≡ started mime m r
unfolding start_recorder start_audio
start_recorder-eq-ok m a mime (throws e) r made h = absurd (no_throw (rw made at h))
start_recorder-eq-ok m a mime (ok x) r made h = rw made refl

start_stream-eq-ok :
    (m : Media) (g : Result (Unit {0})) (mime : String) (r : Recorder)
    → m.recorder_made (mime_type m) ≡ ok mime
    → (start_stream m g r).1 ≡ ok tt
    → (start_stream m g r).0 ≡ started mime m r
unfolding start_stream
start_stream-eq-ok m (throws e) mime r made h = absurd (no_throw h)
start_stream-eq-ok m (ok u) mime r made h =
    start_recorder-eq-ok m (m.recorder_made (mime_type m)) mime m.audio_made r made h

start-eq-ok :
    (m : Media) (mime : String) (r : Recorder)
    → m.recorder_made (mime_type m) ≡ ok mime
    → (start m r).1 ≡ ok tt
    → (start m r).0 ≡ started mime m r
unfolding start
start-eq-ok m mime r made = go (is_recording r.state)
  where
    go :
        (b : Bool)
        → (if b then (r, throws already_recording) else start_stream m m.granted r).1 ≡ ok tt
        → (if b then (r, throws already_recording) else start_stream m m.granted r).0
          ≡ started mime m r
    go true h = absurd (no_throw h)
    go false h = start_stream-eq-ok m m.granted mime r made h

-- The data events of a recording, one after the other.
abbrev pub feed : List Bytes → Recorder → Recorder
feed [] r = r
feed (d ∷ ds) r = feed ds (on_data_available d r)

abbrev with_chunks : List Bytes → Recorder → Recorder
with_chunks cs r = record r { chunks = cs }

concat-append_one : (xs : List Bytes) (y : Bytes) → concat (xs ++ (y ∷ [])) ≡ concat xs ++ y
concat-append_one [] y = append-nil y
concat-append_one (x ∷ xs) y =
    ap (λ t. x ++ t) (concat-append_one xs y) ∙ sym (append_assoc x (concat xs) y)

feed_lem :
    (ds : List Bytes) (r : Recorder)
    → (cs : List Bytes) × (feed ds r ≡ with_chunks cs r)
      × (concat cs ≡ concat r.chunks ++ concat ds)
unfolding on_data_available
feed_lem [] r = (r.chunks, refl, sym (append-nil (concat r.chunks)))
feed_lem ([] ∷ ds) r = feed_lem ds r
feed_lem ((b ∷ bs) ∷ ds) r =
    let (cs, e, same) = feed_lem ds (record r { chunks = r.chunks ++ ((b ∷ bs) ∷ []) }) in
    (
      cs,
      e,
      same
          ∙ ap (λ t. t ++ concat ds) (concat-append_one r.chunks (b ∷ bs))
          ∙ append_assoc (concat r.chunks) (b ∷ bs) (concat ds),
    )

-- After a `start` that succeeds with a recorder of the type `mime`, let data come before `stop` and
-- after it. Then the end of the recorder settles one promise: with all data in order, the recorder's
-- type and the duration, or, below one second, with a rejection.
pub on_stop-start :
    (m : Media) (mime : String) (ds late : List Bytes) (now : ℕ) (r : Recorder)
    → m.recorder_made (mime_type m) ≡ ok mime
    → (start m r).1 ≡ ok tt
    → (on_stop now (feed late (stop (feed ds (start m r).0)))).outcomes
      ≡ r.outcomes
        ++ ((if ltb (now - m.now) 1000
              then rejected "Recording too short"
              else resolved (concat ds ++ concat late) mime (now - m.now))
            ∷ [])
unfolding on_stop stop cleanup
on_stop-start m mime ds late now r made h =
    let (cs, e, same) = feed_lem ds (started mime m r) in
    let (all, e', same') = feed_lem late (stop (with_chunks cs (started mime m r))) in
    rw (start-eq-ok m mime r made h, e, e')
      (elim (Bool-cases (ltb (now - m.now) 1000)) [
        | inl short ↦ rw short refl
        | inr long ↦ rw (long, same', same) refl
      ])
