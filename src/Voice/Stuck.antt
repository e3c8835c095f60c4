-- ===== src/Voice/Stuck.antt =====
-- The recorder after an error of the browser's recorder.
use shadowchat.Common.{◌≡◌, refl, ap, ◌∙◌, none, Bool, true, false, if◌then◌else◌}
use shadowchat.Common.Results.{throws}
use shadowchat.Voice.{
  Recorder, Media, rejected, is_recording, settle_promise, cleanup, already_recording, no_recording,
  start, start_stream, stop, on_recorder_error,
}

error-state : (r : Recorder) → (on_recorder_error r).state ≡ r.state
unfolding on_recorder_error cleanup
error-state r = go r.stop_reject
  where
    go :
        (b : Bool)
        → (cleanup (if b then settle_promise (rejected "MediaRecorder error") r else r)).state
          ≡ r.state
    go true = refl
    go false = refl

error-recorder : (r : Recorder) → (on_recorder_error r).recorder ≡ none
unfolding on_recorder_error cleanup
error-recorder r = refl

-- After an error of the browser's recorder during a recording, `start` throws and `stop` rejects,
-- and neither changes anything else.
pub start-on_recorder_error :
    (m : Media) (r : Recorder)
    → is_recording r.state ≡ true
    → (start m (on_recorder_error r) ≡ (on_recorder_error r, throws already_recording))
      × (stop (on_recorder_error r) ≡ settle_promise (rejected no_recording) (on_recorder_error r))
unfolding start stop on_recorder_error cleanup
start-on_recorder_error m r h =
    let e : Recorder = on_recorder_error r in
    let still : is_recording e.state ≡ true = ap is_recording (error-state r) ∙ h in
    (ap (λ b. if b then (e, throws already_recording) else start_stream m m.granted e) still, refl)
