-- ===== src/Sentiment.antt =====
-- app/sentiment.py: alerts on drops of the customer's sentiment between windows of 30 seconds, and its
-- trend. Decimal numbers are a parameter: `le` is <=, `of_ratio a b` the literal a / b.
pub mod Alerts
mod Examples
use mathlib.Core.List.{reverse}
use real_time_ai_call_audit.Store.{Outcome, ok, raise, ◌>>=◌, ◌>>◌, raise_if}
use real_time_ai_call_audit.Prelude.{
  ℕ, zero, suc, ◌+◌, ◌-◌, ◌*◌, ◌/◌, String, Bool, true, false, not, ◌&&◌, ◌||◌, Option, none, some,
  List, [], ◌∷◌, ◌++◌, map, if◌then◌else◌, ltb, leb, ◌==◌, length, is_some, ◌=?◌, one_of, text_len,
  sort_by, select,
}

pub record Decimals (D : Type 0) : Type 0 where
  pub le : D → D → Bool
  pub of_ratio : ℕ → ℕ → D
  pub add : D → D → D
  pub sub : D → D → D
  pub scale : D → ℕ → D
  pub div : D → ℕ → D
  pub negate : D → D

-- ValueError, by its message.
pub data SentimentError : Type 0 where
  not_mapping invalid_id duplicate_id invalid_role invalid_offset reversed_offsets invalid_score
        invalid_probability :
      SentimentError

-- A signal. What is no finite number, and an offset that is no natural number, is `none`; so is the
-- role or finality of another type.
pub record SentimentSignal (D : Type 0) : Type 0 where
  pub id : Option String
  pub role : Option String
  pub is_final : Option Bool
  pub start_ms : Option ℕ
  pub end_ms : Option ℕ
  pub signed_score : Option D
  pub top_class_probability : Option D

-- The summary of `customer_speech_trend`.
pub record Trend (D : Type 0) : Type 0 where
  pub first_mean : D
  pub first_speech_ms : ℕ
  pub last_mean : D
  pub last_speech_ms : ℕ
  pub trend_delta : D

abbrev pub window_ms : ℕ
window_ms = 30000

abbrev pub min_window_samples : ℕ
min_window_samples = 3

abbrev pub alert_cooldown_ms : ℕ
alert_cooldown_ms = 90000

abbrev pub trend_window_ms : ℕ
trend_window_ms = 60000

-- The samples, (score, probability), of the windows, by the windows' indices.
abbrev pub Samples : Type 0 → Type 0
Samples D = List (ℕ × List (D × D))

unfoldable pub window_at {ℓ} : {A : Type ℓ} → ℕ → List (ℕ × A) → Option A
window_at index [] = none
window_at index ((i, a) ∷ windows) =
    let rest = window_at index windows in if i == index then some a else rest

-- `windows.setdefault(index, []).append(sample)`
unfoldable pub add_sample {ℓ} : {A : Type ℓ} → ℕ → A → List (ℕ × List A) → List (ℕ × List A)
add_sample index sample [] = (index, sample ∷ []) ∷ []
add_sample index sample ((i, samples) ∷ windows) =
    let rest = add_sample index sample windows in
    if i == index then (i, samples ++ sample ∷ []) ∷ windows else (i, samples) ∷ rest

abbrev pub or_raise {ℓ} : {A : Type ℓ} → SentimentError → Option A → Outcome SentimentError A
or_raise e none = raise e
or_raise e (some a) = ok a

abbrev pub previous_window {ℓ} : {A : Type ℓ} → ℕ → List (ℕ × A) → Option A
previous_window zero windows = none
previous_window (suc index) windows = window_at index windows

module _ {D : Type 0} (d : Decimals D) where
  abbrev zero_of : D
  zero_of = d.of_ratio 0 1

  abbrev sum_of : D → List D → D
  sum_of total [] = total
  sum_of total (x ∷ xs) = sum_of (d.add total x) xs

  unfoldable pub decimal_mean : List D → D
  decimal_mean values = d.div (sum_of zero_of values) (length values)

  abbrev in_range : D → D → D → Bool
  in_range low high x = d.le low x && d.le x high

  abbrev score_of : Option D → Option D
  score_of none = none
  score_of (some x) =
      if in_range (d.negate (d.of_ratio 1 1)) (d.of_ratio 1 1) x then some x else none

  abbrev probability_of : Option D → Option D
  probability_of none = none
  probability_of (some x) = if in_range zero_of (d.of_ratio 1 1) x then some x else none

  -- `sentiment_drop` on validated windows.
  unfoldable pub sentiment_drop : List D → List D → Bool
  sentiment_drop previous current =
      leb min_window_samples (length previous)
      && leb min_window_samples (length current)
      && d.le (d.of_ratio 4 10) (d.sub (decimal_mean previous) (decimal_mean current))

  abbrev id_of : Option String → Option String
  id_of none = none
  id_of (some id) = if leb 1 (text_len id) && leb (text_len id) 128 then some id else none

  abbrev role_of : Option String → Option String
  role_of none = none
  role_of (some role) =
      if one_of role ("AGENT" ∷ "CUSTOMER" ∷ "UNKNOWN" ∷ "IVR" ∷ []) then some role else none

  -- The sample of a final signal of the customer, with the index of its window.
  unfoldable pub sample_of : SentimentSignal D → Outcome SentimentError (ℕ × D × D)
  sample_of signal = or_raise invalid_offset signal.start_ms >>= λ start_ms.
      or_raise invalid_offset signal.end_ms >>= λ end_ms.
      raise_if (ltb end_ms start_ms) reversed_offsets
      >> or_raise invalid_score (score_of signal.signed_score)
      >>= λ score.
          or_raise invalid_probability (probability_of signal.top_class_probability)
          >>= λ probability. ok (start_ms / window_ms, score, probability)

  -- The loop that collects the samples.
  unfoldable pub collect :
      List String
      → Samples D
      → List (Option (SentimentSignal D))
      → Outcome SentimentError (Samples D)
  collect seen windows [] = ok windows
  collect seen windows (none ∷ signals) = raise not_mapping
  collect seen windows (some signal ∷ signals) = or_raise invalid_id (id_of signal.id) >>= λ id.
      raise_if (one_of id seen) duplicate_id
      >> or_raise invalid_role (role_of signal.role)
      >>= λ role. or_raise invalid_role signal.is_final >>= λ is_final.
          elim (is_final && role =? "CUSTOMER") [
            | false ↦ collect (id ∷ seen) windows signals
            | true ↦ sample_of signal >>= λ sample.
                collect (id ∷ seen) (add_sample sample.0 (sample.1, sample.2) windows) signals
          ]

  -- The two windows drop, and the model was sure of them.
  unfoldable pub drops : List (D × D) → List (D × D) → Bool
  drops previous current =
      sentiment_drop (map (λ s. s.0) previous) (map (λ s. s.0) current)
      && d.le (d.of_ratio 7 10) (decimal_mean (map (λ s. s.1) (previous ++ current)))

  unfoldable pub alerts_at : Samples D → ℕ → Bool
  alerts_at windows index = elim (previous_window index windows) [
    | none ↦ false
    | some previous ↦ elim (window_at index windows) [
      | none ↦ false
      | some current ↦ drops previous current
    ]
  ]

  abbrev pub has_cooled : Option ℕ → ℕ → Bool
  has_cooled none alert_ms = true
  has_cooled (some last) alert_ms = leb (last + alert_cooldown_ms) alert_ms

  -- The loop over the windows' indices.
  unfoldable pub alerts_from : Samples D → Option ℕ → List ℕ → List ℕ
  alerts_from windows last [] = []
  alerts_from windows last (index ∷ indices) =
      elim (alerts_at windows index && has_cooled last (suc index * window_ms)) [
        | true ↦ suc index * window_ms ∷ alerts_from windows (some (suc index * window_ms)) indices
        | false ↦ alerts_from windows last indices
      ]

  unfoldable pub indices_of : Samples D → List ℕ
  indices_of windows = sort_by leb (map (λ w. w.0) windows)

  unfoldable pub sentiment_alert_times :
      List (Option (SentimentSignal D)) → Outcome SentimentError (List ℕ)
  sentiment_alert_times signals =
      collect [] [] signals >>= λ windows. ok (alerts_from windows none (indices_of windows))

  abbrev is_eligible : SentimentSignal D → Bool
  is_eligible signal = elim signal.role [
    | none ↦ false
    | some role ↦ elim signal.is_final [ none ↦ false | some final ↦ role =? "CUSTOMER" && final ]
  ]

  abbrev eligible_of : List (Option (SentimentSignal D)) → List (SentimentSignal D)
  eligible_of [] = []
  eligible_of (none ∷ signals) = eligible_of signals
  eligible_of (some signal ∷ signals) =
      let rest = eligible_of signals in if is_eligible signal then signal ∷ rest else rest

  -- The keys of the sort; a key that is no offset is refused.
  unfoldable pub start_keys :
      List (SentimentSignal D) → Outcome SentimentError (List (ℕ × SentimentSignal D))
  start_keys [] = ok []
  start_keys (signal ∷ signals) = or_raise invalid_offset signal.start_ms >>= λ start_ms.
      start_keys signals >>= λ keys. ok ((start_ms, signal) ∷ keys)

  -- Duration and score of one signal.
  unfoldable pub weight_of : SentimentSignal D → Outcome SentimentError (ℕ × D)
  weight_of signal = or_raise invalid_offset signal.start_ms >>= λ start_ms.
      or_raise invalid_offset signal.end_ms >>= λ end_ms.
      raise_if (ltb end_ms start_ms) reversed_offsets
      >> or_raise invalid_score (score_of signal.signed_score)
      >>= λ score. ok (end_ms - start_ms, score)

  -- The loop of `_windowed_mean`, with its `break`.
  unfoldable pub weigh : D → ℕ → List (SentimentSignal D) → Outcome SentimentError (D × ℕ)
  weigh weighted_sum total_duration_ms [] = ok (weighted_sum, total_duration_ms)
  weigh weighted_sum total_duration_ms (signal ∷ signals) = weight_of signal >>= λ weight.
      (let sum = d.add weighted_sum (d.scale weight.1 weight.0) in
        let total = total_duration_ms + weight.0 in
        let rest = weigh sum total signals in
        if leb trend_window_ms total then ok (sum, total) else rest)

  unfoldable pub windowed_mean : List (SentimentSignal D) → Outcome SentimentError (D × ℕ)
  windowed_mean signals = weigh zero_of 0 signals >>= λ weighed.
      ok (if weighed.1 == 0 then (zero_of, 0) else (d.div weighed.0 weighed.1, weighed.1))

  unfoldable pub trend_of : D × ℕ → D × ℕ → Option (Trend D)
  trend_of first last =
      if first.1 == 0 || last.1 == 0
      then none
      else some (record {
        first_mean = first.0;
        first_speech_ms = first.1;
        last_mean = last.0;
        last_speech_ms = last.1;
        trend_delta = d.sub last.0 first.0;
      })

  unfoldable pub ordered_trend :
      List (SentimentSignal D) → Outcome SentimentError (Option (Trend D))
  ordered_trend [] = ok none
  ordered_trend (signal ∷ signals) = windowed_mean (signal ∷ signals) >>= λ first.
      windowed_mean (reverse (signal ∷ signals)) >>= λ last. ok (trend_of first last)

  unfoldable pub customer_speech_trend :
      List (Option (SentimentSignal D)) → Outcome SentimentError (Option (Trend D))
  customer_speech_trend signals = start_keys (eligible_of signals) >>= λ keys.
      ordered_trend (map (λ k. k.1) (sort_by (λ a b. leb a.0 b.0) keys))
