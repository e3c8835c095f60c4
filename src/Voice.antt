-- ===== src/Voice.antt =====
-- frontend/src/lib/engines/voice.ts: `VoiceRecorder`. What the browser's media calls give is an
-- argument, `Media`; a `Blob` is its bytes and its type.
pub mod Recording
pub mod Stuck
pub mod Waveform
pub mod Tests
use shadowchat.Common.{
  ℕ, zero, suc, ◌+◌, ◌-◌, ◌≤◌, ◌<◌, List, [], ◌∷◌, ◌++◌, Option, none, some, String, Bool, true,
  false, not, ltb, leb, if◌then◌else◌, length, concat,
}
use shadowchat.Common.Results.{Result, ok, throws}
use shadowchat.Platform.Crypto.{Bytes}

pub data RecorderState : Type 0 where
  idle recording stopped : RecorderState

-- How a promise of `stop` is settled: with the blob, its type and the duration in milliseconds.
pub data Outcome : Type 0 where
  resolved : Bytes → String → ℕ → Outcome
  rejected : String → Outcome

-- The fields, with the objects of the browser as flags; `recorder` is the recorder's own `mimeType`,
-- and `stop_type` the type that the `onstop` of the recorder uses, once `stop` has set it. `outcomes`
-- are the calls of `resolve` and `reject`, of which a promise takes the first.
pub record Recorder : Type 0 where
  pub state : RecorderState
  pub recorder : Option String
  pub stream : Bool
  pub audio : Bool
  pub animating : Bool
  pub chunks : List Bytes
  pub start_time : ℕ
  pub stop_reject : Bool
  pub stop_type : Option String
  pub outcomes : List Outcome

abbrev pub new_recorder : Recorder
new_recorder = record {
  state = idle;
  recorder = none;
  stream = false;
  audio = false;
  animating = false;
  chunks = [];
  start_time = 0;
  stop_reject = false;
  stop_type = none;
  outcomes = [];
}

-- How the calls in `start` end: the permission, the constructor of the recorder for the type that is
-- asked for, with the `mimeType` that the recorder then has, and what follows (its `start` and the
-- audio context).
pub record Media : Type 0 where
  pub granted : Result (Unit {0})
  pub supports_opus : Bool
  pub supports_webm : Bool
  pub recorder_made : String → Result String
  pub audio_made : Result (Unit {0})
  pub now : ℕ

abbrev pub mime_type : Media → String
mime_type m =
    if m.supports_opus
    then "audio/webm; codecs=opus"
    else if m.supports_webm
    then "audio/webm"
    else "audio/mp4"

abbrev pub settle_promise : Outcome → Recorder → Recorder
settle_promise o r = record r { outcomes = r.outcomes ++ (o ∷ []) }

unfoldable pub cleanup : Recorder → Recorder
cleanup r = record r { recorder = none; stream = false; audio = false; chunks = [] }

abbrev pub already_recording : String
already_recording = "Already recording"

-- The three awaits and constructors of `start`, one after the other; each failure cleans up.
unfoldable pub start_audio : Result (Unit {0}) → Recorder → Recorder × Result (Unit {0})
unfolding cleanup
start_audio (throws e) r = (cleanup r, throws e)
start_audio (ok u) r = (record r { audio = true; animating = true }, ok tt)

unfoldable pub start_recorder : Media → Result String → Recorder → Recorder × Result (Unit {0})
unfolding start_audio
start_recorder m (throws e) r = (cleanup r, throws e)
start_recorder m (ok mime) r = start_audio m.audio_made (record r {
  recorder = some mime;
  stop_type = none;
  chunks = [];
  state = recording;
  start_time = m.now;
})

unfoldable pub start_stream : Media → Result (Unit {0}) → Recorder → Recorder × Result (Unit {0})
unfolding start_recorder
start_stream m (throws e) r = (cleanup r, throws e)
start_stream m (ok u) r =
    start_recorder m (m.recorder_made (mime_type m)) (record r { stream = true })

abbrev pub is_recording : RecorderState → Bool
is_recording recording = true
is_recording _ = false

unfoldable pub start : Media → Recorder → Recorder × Result (Unit {0})
unfolding start_stream
start m r =
    if is_recording r.state then (r, throws already_recording) else start_stream m m.granted r

-- `ondataavailable`
unfoldable pub on_data_available : Bytes → Recorder → Recorder
on_data_available [] r = r
on_data_available (b ∷ bs) r = record r { chunks = r.chunks ++ ((b ∷ bs) ∷ []) }

-- `onerror` of the recorder.
unfoldable pub on_recorder_error : Recorder → Recorder
unfolding cleanup
on_recorder_error r =
    cleanup (if r.stop_reject then settle_promise (rejected "MediaRecorder error") r else r)

abbrev pub deviation : ℕ → ℕ
deviation b = (b - 128) + (128 - b)

-- The loop of `pollAmplitude`: the greatest deviation, in 128ths.
unfoldable pub peak : ℕ → List ℕ → ℕ
peak highest [] = highest
peak highest (b ∷ bs) = peak (if ltb highest (deviation b) then deviation b else highest) bs

-- One frame of `pollAmplitude`: what `onAmplitude` is told, if anything.
unfoldable pub poll_amplitude : List ℕ → Recorder → Option ℕ
unfolding peak
poll_amplitude samples r =
    if r.audio then (if is_recording r.state then some (peak 0 samples) else none) else none

abbrev pub no_recording : String
no_recording = "No active recording"

-- `stop` up to `recorder.stop()`.
unfoldable pub stop : Recorder → Recorder
stop r = elim r.recorder [
  | none ↦ settle_promise (rejected no_recording) r
  | some mime ↦
      if is_recording r.state
      then record r {
        state = stopped;
        animating = false;
        stop_reject = true;
        stop_type = some mime;
      }
      else settle_promise (rejected no_recording) r
]

-- The end of the recorder: `onstop`, where `stop` has set it.
unfoldable pub on_stop : ℕ → Recorder → Recorder
unfolding cleanup
on_stop now r = elim r.stop_type [
  | none ↦ r
  | some mime ↦
      let duration = now - r.start_time in
      if ltb duration 1000
      then settle_promise (rejected "Recording too short") (cleanup r)
      else settle_promise (resolved (concat r.chunks) mime duration) (cleanup r)
]

unfoldable pub cancel : Recorder → Recorder
unfolding cleanup
cancel r = cleanup (record r { state = stopped; animating = false })
