-- ===== src/LiveCalls/Keys.antt =====
-- The rows of `exotel_live_sessions` under their primary key.
use real_time_ai_call_audit.Prelude.{
  ℕ, ◌≡◌, inl, inr, refl, ap, ◌∙◌, String, Bool, true, none, some, List, [], ◌∷◌, ◌++◌, map,
  if◌then◌else◌, All, Bool-cases, subst,
}
use real_time_ai_call_audit.LiveCalls.{LiveSession, has_key, find_session}

-- The rows are their keys' rows: the primary key.
abbrev pub Keyed : List LiveSession → Type 0
Keyed ss = All (λ s. find_session s.organisation_id s.integration_id s.call_key ss ≡ some s) ss

-- A change of a row keeps the key's columns.
abbrev pub KeepsKey : (LiveSession → LiveSession) → Type 0
KeepsKey g =
    (r : LiveSession)
    → ((g r).organisation_id ≡ r.organisation_id)
      × ((g r).integration_id ≡ r.integration_id)
      × ((g r).call_key ≡ r.call_key)

module _ (g : LiveSession → LiveSession) (keeps : KeepsKey g) where
  same_key :
      (org integration : ℕ) (key : String) (r : LiveSession)
      → has_key org integration key (g r) ≡ has_key org integration key r
  unfolding has_key
  same_key org integration key r = let (o, i, k) = keeps r in rw (o, i, k) refl

  pub find-map :
      (org integration : ℕ) (key : String) (ss : List LiveSession) (r : LiveSession)
      → find_session org integration key ss ≡ some r
      → find_session org integration key (map g ss) ≡ some (g r)
  unfolding find_session
  find-map org integration key [] r e = cc
  find-map org integration key (s ∷ ss) r e =
      let own = same_key org integration key s in
      elim (Bool-cases (has_key org integration key s)) [
        | inl hit ↦ let here : s ≡ r = cc (rw hit at e) in rw (own, hit) (ap (λ x. some (g x)) here)
        | inr miss ↦ rw (own, miss) (find-map org integration key ss r (rw miss at e))
      ]

  pub Keyed-map : (ss : List LiveSession) → Keyed ss → Keyed (map g ss)
  Keyed-map ss all = step ss all
    where
      step :
          (ts : List LiveSession)
          → All (λ s. find_session s.organisation_id s.integration_id s.call_key ss ≡ some s) ts
          → All
              (λ s. find_session s.organisation_id s.integration_id s.call_key (map g ss) ≡ some s)
              (map g ts)
      step [] h = tt
      step (t ∷ ts) h =
          let (o, i, k) = keeps t in
          let moved : find_session (g t).organisation_id (g t).integration_id (g t).call_key
                (map g ss)
              ≡ find_session t.organisation_id t.integration_id t.call_key (map g ss) =
            rw (o, i, k) refl in
          (moved ∙ find-map t.organisation_id t.integration_id t.call_key ss t h.0, step ts h.1)

pub find-append :
    (org integration : ℕ) (key : String) (ss ts : List LiveSession) (r : LiveSession)
    → find_session org integration key ss ≡ some r
    → find_session org integration key (ss ++ ts) ≡ some r
unfolding find_session
find-append org integration key [] ts r e = cc
find-append org integration key (s ∷ ss) ts r e =
    elim (Bool-cases (has_key org integration key s)) [
      | inl hit ↦ rw hit (rw hit at e)
      | inr miss ↦ rw miss (find-append org integration key ss ts r (rw miss at e))
    ]

pub find-last :
    (org integration : ℕ) (key : String) (ss : List LiveSession) (x : LiveSession)
    → find_session org integration key ss ≡ none
    → has_key org integration key x ≡ true
    → find_session org integration key (ss ++ x ∷ []) ≡ some x
unfolding find_session
find-last org integration key [] x e own = rw own refl
find-last org integration key (s ∷ ss) x e own = elim (Bool-cases (has_key org integration key s)) [
  | inl hit ↦ cc (rw hit at e)
  | inr miss ↦ rw miss (find-last org integration key ss x (rw miss at e) own)
]

pub where-KeepsKey :
    (p : LiveSession → Bool) (f : LiveSession → LiveSession)
    → KeepsKey f
    → KeepsKey (λ r. if p r then f r else r)
where-KeepsKey p f keeps r = elim (Bool-cases (p r)) [
  | inl hit ↦ rw hit (keeps r)
  | inr miss ↦ rw miss (refl, refl, refl)
]

pub find-All {κ} :
    (P : LiveSession → Type κ) (org integration : ℕ) (key : String) (ss : List LiveSession)
    (r : LiveSession)
    → All P ss
    → find_session org integration key ss ≡ some r
    → P r
unfolding find_session
find-All P org integration key [] r all e = cc
find-All P org integration key (s ∷ ss) r all e =
    elim (Bool-cases (has_key org integration key s)) [
      | inl hit ↦ let here : s ≡ r = cc (rw hit at e) in subst P here all.0
      | inr miss ↦ find-All P org integration key ss r all.1 (rw miss at e)
    ]
