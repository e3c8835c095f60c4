-- ===== src/Voice/Waveform.antt =====
-- `computeWaveform` of frontend/src/lib/engines/voice.ts. The browser's audio context and file reader are
-- arguments, and so is `Math.abs` of a sample: magnitudes are exact, in units small enough for all
-- samples.
use shadowchat.Common.{
  ℕ, suc, ◌+◌, ◌*◌, ◌/◌, ◌≤◌, ◌≡◌, refl, sym, ap, ◌∙◌, List, [], ◌∷◌, ◌++◌, Option, none, some,
  String, Bool, true, false, ltb, ltb→lt, Bool-cases, ◌⊎◌, inl, inr, All, arith, length, take, drop,
  concat, length-take, length-drop, drop-drop, if◌then◌else◌,
}
use native.Mathlib.Nat.{mul-div-le}
use shadowchat.Common.Results.{Result, ok, throws}
use shadowchat.Platform.Crypto.{Bytes}

-- How `new AudioContext()`, the reader and `decodeAudioData` end. A result of the reader that is no
-- `ArrayBuffer` is `none`.
pub record Audio (Sample : Type 0) : Type 0 where
  pub context : Result (Unit {0})
  pub read : Result (Option Bytes)
  pub decoded : Bytes → Result (List Sample)

abbrev pub no_array_buffer : String
no_array_buffer = "Expected ArrayBuffer from FileReader"

module _ {Sample : Type 0} (magnitude : Sample → ℕ) where
  -- The inner loop.
  unfoldable pub loudest : ℕ → List Sample → ℕ
  loudest max [] = max
  loudest max (x ∷ xs) = loudest (if ltb max (magnitude x) then magnitude x else max) xs

  abbrev pub segment : ℕ → List Sample → ℕ → List Sample
  segment samples_per_bar channel i = take samples_per_bar (drop (i * samples_per_bar) channel)

  -- The outer loop, from the bar `i` on, for that many bars.
  unfoldable pub bars_from : ℕ → ℕ → List Sample → ℕ → List ℕ
  unfolding loudest
  bars_from ℕ.zero samples_per_bar channel i = []
  bars_from (ℕ.suc bars) samples_per_bar channel i =
      loudest 0 (segment samples_per_bar channel i) ∷ bars_from bars samples_per_bar channel (suc i)

  abbrev pub waveform : ℕ → List Sample → List ℕ
  waveform bars channel = bars_from bars (length channel / bars) channel 0

  abbrev pub decoded_waveform : ℕ → Result (List Sample) → Result (List ℕ)
  decoded_waveform bars (throws e) = throws e
  decoded_waveform bars (ok channel) = ok (waveform bars channel)

  abbrev pub loaded_waveform :
      (Bytes → Result (List Sample)) → ℕ → Result (Option Bytes) → Result (List ℕ)
  loaded_waveform decoded bars (throws e) = throws e
  loaded_waveform decoded bars (ok none) = throws no_array_buffer
  loaded_waveform decoded bars (ok (some bytes)) = decoded_waveform bars (decoded bytes)

  -- How the promise is settled, and whether an audio context was made, which is closed then.
  unfoldable pub compute_waveform : Audio Sample → ℕ → Result (List ℕ) × Bool
  unfolding bars_from
  compute_waveform a bars = elim a.context [
    | throws e ↦ (throws e, false)
    | ok u ↦ (loaded_waveform a.decoded bars a.read, true)
  ]

  -- A bar bounds its samples, and is one of their magnitudes or 0.
  abbrev pub IsReached : ℕ → List Sample → Type 0
  IsReached m [] = m ≡ 0
  IsReached m (x ∷ xs) = (m ≡ magnitude x) ⊎ IsReached m xs

  pub record IsPeak (m : ℕ) (samples : List Sample) : Type 0 where
    pub bounds : All (λ x. magnitude x ≤ m) samples
    pub reached : IsReached m samples

  abbrev pub Peaks : List ℕ → List (List Sample) → Type 0
  Peaks [] [] = Unit
  Peaks (m ∷ ms) (s ∷ ss) = IsPeak m s × Peaks ms ss
  Peaks [] (s ∷ ss) = ⊥
  Peaks (m ∷ ms) [] = ⊥

  IsReached-zero : (m : ℕ) (xs : List Sample) → m ≡ 0 → IsReached m xs
  IsReached-zero m [] e = e
  IsReached-zero m (x ∷ xs) e = inr (IsReached-zero m xs e)

  -- The loop from any bound so far.
  record Loud (max m : ℕ) (samples : List Sample) : Type 0 where
    above : max ≤ m
    bounds : All (λ x. magnitude x ≤ m) samples
    reached : (m ≡ max) ⊎ IsReached m samples

  loudest-Loud : (max : ℕ) (xs : List Sample) → Loud max (loudest max xs) xs
  unfolding loudest
  loudest-Loud max [] = record { above = omega arith; bounds = tt; reached = inl refl }
  loudest-Loud max (x ∷ xs) = elim (Bool-cases (ltb max (magnitude x))) [
    | inl louder ↦
        let h = loudest-Loud (magnitude x) xs in
        let over = ltb→lt max (magnitude x) louder in
        rw (louder, loudest)
          (record {
            above = omega (arith, h.above);
            bounds = (h.above, h.bounds);
            reached = inr h.reached;
          })
    | inr quieter ↦
        let h = loudest-Loud max xs in
        let under : magnitude x ≤ max = ground arith in
        rw (quieter, loudest)
          (record {
            above = h.above;
            bounds = (omega (arith, h.above), h.bounds);
            reached = elim h.reached [ inl e ↦ inl e | inr r ↦ inr (inr r) ];
          })
  ]

  loudest-IsPeak : (xs : List Sample) → IsPeak (loudest 0 xs) xs
  loudest-IsPeak xs =
      let h = loudest-Loud 0 xs in
      record {
        bounds = h.bounds;
        reached = elim h.reached [ inl e ↦ IsReached-zero (loudest 0 xs) xs e | inr r ↦ r ];
      }

  abbrev segments : ℕ → ℕ → List Sample → ℕ → List (List Sample)
  segments ℕ.zero samples_per_bar channel i = []
  segments (ℕ.suc bars) samples_per_bar channel i =
      segment samples_per_bar channel i ∷ segments bars samples_per_bar channel (suc i)

  bars_from-Peaks :
      (bars spb : ℕ) (channel : List Sample) (i : ℕ)
      → Peaks (bars_from bars spb channel i) (segments bars spb channel i)
  unfolding bars_from
  bars_from-Peaks ℕ.zero spb channel i = tt
  bars_from-Peaks (ℕ.suc bars) spb channel i =
      (loudest-IsPeak (segment spb channel i), bars_from-Peaks bars spb channel (suc i))

  length-segments :
      (bars spb : ℕ) (channel : List Sample) (i : ℕ) → length (segments bars spb channel i) ≡ bars
  length-segments ℕ.zero spb channel i = refl
  length-segments (ℕ.suc bars) spb channel i = ap suc (length-segments bars spb channel (suc i))

  segments-All :
      (bars spb : ℕ) (channel : List Sample) (i : ℕ)
      → (i + bars) * spb ≤ length channel
      → All (λ s. length s ≡ spb) (segments bars spb channel i)
  segments-All ℕ.zero spb channel i h = tt
  segments-All (ℕ.suc bars) spb channel i h = (
    omega (arith, length-take spb (drop (i * spb) channel), length-drop (i * spb) channel),
    segments-All bars spb channel (suc i) (omega arith),
  )

  take-nil : (k : ℕ) → take {A = Sample} k [] ≡ []
  take-nil ℕ.zero = refl
  take-nil (ℕ.suc k) = refl

  take_then :
      (m n k : ℕ) (xs : List Sample) → m + n ≡ k → take k xs ≡ take m xs ++ take n (drop m xs)
  take_then ℕ.zero n k xs e = ap (λ j. take j xs) (omega arith)
  take_then (ℕ.suc m) n k [] e = take-nil k ∙ sym (take-nil n)
  take_then (ℕ.suc m) n k (x ∷ xs) e =
      let f : k ≡ suc (m + n) = omega arith in
      ap (λ j. take j (x ∷ xs)) f ∙ ap (λ t. x ∷ t) (take_then m n (m + n) xs refl)

  concat-segments :
      (bars spb : ℕ) (channel : List Sample) (i : ℕ)
      → concat (segments bars spb channel i) ≡ take (bars * spb) (drop (i * spb) channel)
  concat-segments ℕ.zero spb channel i =
      let none_left : 0 ≡ 0 * spb = omega arith in
      ap (λ j. take j (drop (i * spb) channel)) none_left
  concat-segments (ℕ.suc bars) spb channel i =
      let next = drop-drop (i * spb) spb (suc i * spb) channel (omega arith) in
      ap (λ t. segment spb channel i ++ t)
        (concat-segments bars spb channel (suc i) ∙ ap (λ d. take (bars * spb) d) (sym next))
      ∙ sym (take_then spb (bars * spb) (suc bars * spb) (drop (i * spb) channel) (omega arith))

  -- Where the browser decodes the recording, the promise resolves and the audio context is closed. As
  -- many samples as the bars can share equally, from the first on, are cut into as many segments as there
  -- are bars, one after the other and equally long; and each bar bounds the magnitudes of its segment
  -- and is one of them, or 0.
  pub compute_waveform-Peaks :
      (a : Audio Sample) (bars : ℕ) (bytes : Bytes) (channel : List Sample)
      → a.context ≡ ok tt
      → a.read ≡ ok (some bytes)
      → a.decoded bytes ≡ ok channel
      → (ms : List ℕ) × (ss : List (List Sample)) × (compute_waveform a bars ≡ (ok ms, true))
        × (length ss ≡ bars)
        × All (λ s. length s ≡ length channel / bars) ss
        × (concat ss ≡ take (bars * (length channel / bars)) channel)
        × Peaks ms ss
  unfolding compute_waveform
  compute_waveform-Peaks a bars bytes channel made loaded decodes =
      let spb = length channel / bars in
      let at_first : 0 * spb ≡ 0 = omega arith in
      let none_before : drop (0 * spb) channel ≡ channel = ap (λ j. drop j channel) at_first in
      (
        waveform bars channel,
        segments bars spb channel 0,
        rw (made, loaded, decodes, compute_waveform) refl,
        length-segments bars spb channel 0,
        segments-All bars spb channel 0 (omega (arith, mul-div-le (length channel) bars)),
        concat-segments bars spb channel 0 ∙ ap (λ d. take (bars * spb) d) none_before,
        bars_from-Peaks bars spb channel 0,
      )
