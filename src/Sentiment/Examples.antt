-- ===== src/Sentiment/Examples.antt =====
-- Two windows of three signals each: the customer's mean score falls from 0.9 to 0.2. Decimal numbers
-- are hundredths here, and no score is negative.
use real_time_ai_call_audit.Store.{ok}
use real_time_ai_call_audit.Prelude.{
  ℕ, ◌+◌, ◌-◌, ◌*◌, ◌/◌, ◌≡◌, refl, String, true, Option, none, some, List, [], ◌∷◌, leb, All,
  one_of, ◌=?◌, text_len, sort_by, insert_by,
}
use real_time_ai_call_audit.Sentiment.{
  Decimals, SentimentSignal, Samples, window_at, add_sample, decimal_mean, sentiment_drop,
  sample_of, collect, drops, alerts_at, alerts_from, indices_of, sentiment_alert_times, start_keys,
  weight_of, weigh, windowed_mean, trend_of, ordered_trend, customer_speech_trend,
}
use real_time_ai_call_audit.Sentiment.Alerts.{IsSpaced, IsDrop, sentiment_alert_times-ok}

abbrev hundredths : Decimals ℕ
hundredths = record {
  le = leb;
  of_ratio = λ a b. a * 100 / b;
  add = λ a b. a + b;
  sub = λ a b. a - b;
  scale = λ a n. a * n;
  div = λ a n. a / n;
  negate = λ a. 0;
}

abbrev scored : String → ℕ → ℕ → Option (SentimentSignal ℕ)
scored id start score = some (record {
  id = some id;
  role = some "CUSTOMER";
  is_final = some true;
  start_ms = some start;
  end_ms = some (start + 1000);
  signed_score = some score;
  top_class_probability = some 80;
})

abbrev signals : List (Option (SentimentSignal ℕ))
signals =
    scored "a" 0 90
    ∷ scored "b" 5000 90
    ∷ scored "c" 9000 90
    ∷ scored "d" 31000 20
    ∷ scored "e" 35000 20
    ∷ scored "f" 39000 20
    ∷ []

alerts : sentiment_alert_times hundredths signals ≡ ok (60000 ∷ [])
unfolding sentiment_alert_times collect text_len one_of ◌=?◌ sample_of add_sample alerts_from
    indices_of sort_by insert_by alerts_at window_at drops sentiment_drop decimal_mean
alerts = refl

trend :
    customer_speech_trend hundredths signals
    ≡ ok (
        some (record {
          first_mean = 55;
          first_speech_ms = 6000;
          last_mean = 55;
          last_speech_ms = 6000;
          trend_delta = 0;
        }))
unfolding customer_speech_trend start_keys sort_by insert_by ordered_trend windowed_mean weigh
    weight_of trend_of ◌=?◌
trend = refl

sentiment_alert_times-ok_example :
    (windows : Samples ℕ) × (collect hundredths [] [] signals ≡ ok windows)
    × IsSpaced hundredths none (60000 ∷ [])
    × All (IsDrop hundredths windows) (60000 ∷ [])
sentiment_alert_times-ok_example = sentiment_alert_times-ok hundredths signals (60000 ∷ []) alerts
