-- ===== src/Voice/Tests.antt =====
-- Runs of the voice recorder.
use shadowchat.Common.{◌≡◌, refl, [], ◌∷◌, true, false}
use shadowchat.Common.Results.{ok, throws}
use shadowchat.Voice.{
  Recorder, new_recorder, Media, resolved, rejected, settle_promise, already_recording,
  no_recording, start, start_stream, start_recorder, start_audio, stop, on_stop, on_recorder_error,
}
use shadowchat.Voice.Recording.{started, feed, on_stop-start}
use shadowchat.Voice.Stuck.{start-on_recorder_error}
use shadowchat.Voice.Waveform.{Audio, compute_waveform, Peaks, compute_waveform-Peaks}
use shadowchat.Common.{ℕ, ◌*◌, ◌/◌, List, some, length, concat, take, All}

abbrev media : Media
media = record {
  granted = ok tt;
  supports_opus = false;
  supports_webm = true;
  recorder_made = λ mime. ok "audio/webm;codecs=opus";
  audio_made = ok tt;
  now = 5000;
}

starts_well : (start media new_recorder).1 ≡ ok tt
unfolding start start_stream start_recorder start_audio
starts_well = refl

on_stop-start_example :
    (on_stop 7500 (
      feed
        ((3 ∷ []) ∷ [])
        (stop (feed ((1 ∷ 2 ∷ []) ∷ [] ∷ []) (start media new_recorder).0)))).outcomes
    ≡ resolved (1 ∷ 2 ∷ 3 ∷ []) "audio/webm;codecs=opus" 2500 ∷ []
on_stop-start_example =
    on_stop-start media "audio/webm;codecs=opus" ((1 ∷ 2 ∷ []) ∷ [] ∷ []) ((3 ∷ []) ∷ []) 7500
      new_recorder refl starts_well

abbrev busy : Recorder
busy = started "audio/webm" media new_recorder

start-on_recorder_error_example :
    (start media (on_recorder_error busy) ≡ (on_recorder_error busy, throws already_recording))
    × (stop (on_recorder_error busy)
        ≡ settle_promise (rejected no_recording) (on_recorder_error busy))
start-on_recorder_error_example = start-on_recorder_error media busy refl

-- A recording of seven samples, which are magnitudes.
abbrev audio : Audio ℕ
audio = record {
  context = ok tt;
  read = ok (some (1 ∷ []));
  decoded = λ bytes. ok (3 ∷ 1 ∷ 4 ∷ 1 ∷ 5 ∷ 9 ∷ 2 ∷ []);
}

compute_waveform-Peaks_example :
    let channel : List ℕ = 3 ∷ 1 ∷ 4 ∷ 1 ∷ 5 ∷ 9 ∷ 2 ∷ [] in
    (ms : List ℕ) × (ss : List (List ℕ)) × (compute_waveform (λ x. x) audio 3 ≡ (ok ms, true))
    × (length ss ≡ 3)
    × All (λ s. length s ≡ length channel / 3) ss
    × (concat ss ≡ take (3 * (length channel / 3)) channel)
    × Peaks (λ x. x) ms ss
compute_waveform-Peaks_example =
    compute_waveform-Peaks (λ x. x) audio 3 (1 ∷ []) (3 ∷ 1 ∷ 4 ∷ 1 ∷ 5 ∷ 9 ∷ 2 ∷ []) refl refl refl
