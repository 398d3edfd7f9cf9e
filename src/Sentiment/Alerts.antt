-- ===== src/Sentiment/Alerts.antt =====
-- The alerts: spaced, and each on a drop between two full windows.
use real_time_ai_call_audit.Store.{ok, >>=-ok, ok-injective}
use real_time_ai_call_audit.Prelude.{
  ℕ, suc, ◌+◌, ◌*◌, ◌≤◌, ◌≡◌, refl, subst, inl, inr, true, Option, none, some, List, [], ◌∷◌, ◌++◌,
  map, leb, length, All, Bool-cases, Option-cases, arith,
}
use real_time_ai_call_audit.Sentiment.{
  Decimals, SentimentSignal, window_ms, Samples, window_at, previous_window, decimal_mean,
  sentiment_drop, collect, drops, alerts_at, alerts_from, indices_of, sentiment_alert_times,
}

module _ {D : Type 0} (d : Decimals D) where
  -- Each alert is at least the cooldown after the one before.
  abbrev pub IsSpaced : Option ℕ → List ℕ → Type 0
  IsSpaced last [] = Unit
  IsSpaced none (a ∷ alerts) = IsSpaced (some a) alerts
  IsSpaced (some last) (a ∷ alerts) = (last + 90000 ≤ a) × IsSpaced (some a) alerts

  -- The end of a window whose mean score is at least 0.4 below that of the window before, each with
  -- three samples or more, of a mean probability of at least 0.7.
  abbrev pub IsDrop : Samples D → ℕ → Type 0
  IsDrop windows alert =
      (index : ℕ) × (previous : List (D × D)) × (current : List (D × D)) × (alert
        ≡ suc index * 30000)
      × (previous_window index windows ≡ some previous)
      × (window_at index windows ≡ some current)
      × (3 ≤ length (map (λ s. s.0) previous))
      × (3 ≤ length (map (λ s. s.0) current))
      × (d.le (d.of_ratio 4 10) (
            d.sub (decimal_mean d (map (λ s. s.0) previous))
              (decimal_mean d (map (λ s. s.0) current)))
          ≡ true)
      × (d.le (d.of_ratio 7 10) (decimal_mean d (map (λ s. s.1) (previous ++ current))) ≡ true)

  drops_lem :
      (previous current : List (D × D))
      → drops d previous current ≡ true
      → (3 ≤ length (map (λ s. s.0) previous))
        × (3 ≤ length (map (λ s. s.0) current))
        × (d.le (d.of_ratio 4 10) (
              d.sub
                (decimal_mean d (map (λ s. s.0) previous))
                (decimal_mean d (map (λ s. s.0) current)))
            ≡ true)
        × (d.le (d.of_ratio 7 10) (decimal_mean d (map (λ s. s.1) (previous ++ current))) ≡ true)
  unfolding drops sentiment_drop
  drops_lem previous current h = ground arith

  drops-IsDrop :
      (windows : Samples D) (index : ℕ)
      → alerts_at d windows index ≡ true
      → IsDrop windows (suc index * window_ms)
  unfolding alerts_at drops sentiment_drop
  drops-IsDrop windows index h = elim (Option-cases (previous_window index windows)) [
    | inl e ↦ cc (rw (e, alerts_at) at h)
    | inr (previous, e) ↦ elim (Option-cases (window_at index windows)) [
      | inl e' ↦ cc (rw (e, e', alerts_at) at h)
      | inr (current, e') ↦
          (let (a, b, c, f) = drops_lem previous current (rw (e, e', alerts_at) at h) in
            (index, previous, current, refl, e, e', a, b, c, f))
    ]
  ]

  alerts_from_lem :
      (windows : Samples D) (last : Option ℕ) (indices : List ℕ)
      → IsSpaced last (alerts_from d windows last indices)
        × All (IsDrop windows) (alerts_from d windows last indices)
  unfolding alerts_from
  alerts_from_lem windows none [] = (tt, tt)
  alerts_from_lem windows (some last) [] = (tt, tt)
  alerts_from_lem windows none (index ∷ indices) = elim (Bool-cases (alerts_at d windows index)) [
    | inl e ↦
        (let (spaced, each) = alerts_from_lem windows (some (suc index * window_ms)) indices in
          rw (e, alerts_from) (spaced, (drops-IsDrop windows index e, each)))
    | inr e ↦ rw (e, alerts_from) (alerts_from_lem windows none indices)
  ]
  alerts_from_lem windows (some last) (index ∷ indices) =
      elim (Bool-cases (alerts_at d windows index)) [
        | inr e ↦ rw (e, alerts_from) (alerts_from_lem windows (some last) indices)
        | inl e ↦ elim (Bool-cases (leb (last + 90000) (suc index * window_ms))) [
          | inr e' ↦ rw (e, e', alerts_from) (alerts_from_lem windows (some last) indices)
          | inl e' ↦
              (let (spaced, each) =
                  alerts_from_lem windows (some (suc index * window_ms)) indices in
                let late : last + 90000 ≤ suc index * window_ms = ground arith in
                rw (e, e', alerts_from) ((late, spaced), (drops-IsDrop windows index e, each)))
        ]
      ]

  -- The alerts of a call are at least 90 seconds apart, in their order; each is the end of a 30-second
  -- window of the collected samples whose mean score is at least 0.4 below that of the window just
  -- before it, both with at least three samples, and with a mean probability of at least 0.7.
  pub sentiment_alert_times-ok :
      (signals : List (Option (SentimentSignal D))) (alerts : List ℕ)
      → sentiment_alert_times d signals ≡ ok alerts
      → (windows : Samples D) × (collect d [] [] signals ≡ ok windows)
        × IsSpaced none alerts
        × All (IsDrop windows) alerts
  unfolding sentiment_alert_times
  sentiment_alert_times-ok signals alerts e =
      let (windows, collected, e1) = >>=-ok (collect d [] [] signals) _ e in
      let (spaced, each) = alerts_from_lem windows none (indices_of d windows) in
      subst
        (λ xs.
          (ws : Samples D) × (collect d [] [] signals ≡ ok ws)
          × IsSpaced none xs
          × All (IsDrop ws) xs)
        (ok-injective e1) (windows, collected, spaced, each)
