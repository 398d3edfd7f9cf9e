-- ===== src/LiveCalls/Generations.antt =====
-- Within one generation a live session only moves forward, and an older generation is fenced off.
use real_time_ai_call_audit.Prelude.{
  ℕ, ◌<◌, ◌≡◌, ◌⊎◌, inl, inr, refl, sym, ◌∙◌, String, Bool, true, not, ◌&&◌, ◌||◌, some, List, [],
  ◌∷◌, ◌++◌, map, if◌then◌else◌, is_some, arith, All, any, take, select, sort_by, eq_iff,
  Bool-cases, Option-cases, All-append, All-take, All-sort_by, subst,
}
use real_time_ai_call_audit.Store.{ok, raise_if-ok, ok-injective}
use real_time_ai_call_audit.LiveCalls.{
  SessionState, unknown, live, draining, ended, incomplete, LiveSession, LiveTables, has_key,
  find_session, upsert_session, allowed_from, set_state, updates_row, update_exotel_session,
  is_stale, recover_stale_exotel_sessions, first_generation, next_generation, invalid_state,
  reserved_live, is_live, is_unknown, least_recent,
}
use real_time_ai_call_audit.LiveCalls.Keys.{
  Keyed, KeepsKey, find-map, Keyed-map, find-append, find-last, where-KeepsKey, find-All,
}

-- ENDED, INCOMPLETE and UNKNOWN are left only by a new generation.
abbrev pub rank : SessionState → ℕ
rank live = 0
rank draining = 1
rank _ = 2

-- A later generation, or the same one in the same state or in one of a higher rank.
abbrev pub Later : LiveSession → LiveSession → Type 0
Later r r' =
    (r.generation < r'.generation)
    ⊎ ((r.generation ≡ r'.generation) × ((rank r.state < rank r'.state) ⊎ (r.state ≡ r'.state)))

pub Later-trans : (a b c : LiveSession) → Later a b → Later b c → Later a c
Later-trans a b c (inl g) (inl h) = inl (omega arith)
Later-trans a b c (inl g) (inr h) = inl (omega (arith, h.0))
Later-trans a b c (inr g) (inl h) = inl (omega (arith, g.0))
Later-trans a b c (inr (g, inl s)) (inr (h, inl s')) = inr (g ∙ h, inl (omega arith))
Later-trans a b c (inr (g, inl s)) (inr (h, inr s')) = inr (g ∙ h, inl (rw (sym s') s))
Later-trans a b c (inr (g, inr s)) (inr (h, inl s')) = inr (g ∙ h, inl (rw s s'))
Later-trans a b c (inr (g, inr s)) (inr (h, inr s')) = inr (g ∙ h, inr (s ∙ s'))

moves : (to from : SessionState) → allowed_from to from ≡ true → (rank from < rank to) ⊎ (from ≡ to)
unfolding allowed_from
moves unknown from e = cc
moves live live e = inr refl
moves live unknown e = cc
moves live draining e = cc
moves live ended e = cc
moves live incomplete e = cc
moves draining live e = inl (omega arith)
moves draining unknown e = cc
moves draining draining e = cc
moves draining ended e = cc
moves draining incomplete e = cc
moves ended draining e = inl (omega arith)
moves ended live e = cc
moves ended unknown e = cc
moves ended ended e = cc
moves ended incomplete e = cc
moves incomplete live e = inl (omega arith)
moves incomplete draining e = inl (omega arith)
moves incomplete unknown e = cc
moves incomplete ended e = cc
moves incomplete incomplete e = cc

set_state-Later :
    (state : SessionState) (now : ℕ) (r : LiveSession)
    → allowed_from state r.state ≡ true
    → Later r (set_state state now r)
unfolding set_state
set_state-Later unknown now r e = inr (refl, inr refl)
set_state-Later live now r e = inr (refl, moves live r.state e)
set_state-Later draining now r e = inr (refl, moves draining r.state e)
set_state-Later ended now r e = inr (refl, moves ended r.state e)
set_state-Later incomplete now r e = inr (refl, moves incomplete r.state e)

set_state-KeepsKey : (state : SessionState) (now : ℕ) → KeepsKey (set_state state now)
unfolding set_state
set_state-KeepsKey unknown now r = (refl, refl, refl)
set_state-KeepsKey live now r = (refl, refl, refl)
set_state-KeepsKey draining now r = (refl, refl, refl)
set_state-KeepsKey ended now r = (refl, refl, refl)
set_state-KeepsKey incomplete now r = (refl, refl, refl)

-- What an operation leaves: rows with their keys, and every row as it was or later.
abbrev pub Forward : List LiveSession → List LiveSession → Type 0
Forward ss ss' =
    Keyed ss'
    × ((org integration : ℕ) (key : String) (r : LiveSession)
        → find_session org integration key ss ≡ some r
        → (r' : LiveSession) × (find_session org integration key ss' ≡ some r') × Later r r')

pub stays : (r : LiveSession) → Later r r
stays r = inr (refl, inr refl)

-- An UPDATE of the rows that pass `p` moves rows forward, if it does so on each row that is its key's.
where-Forward :
    (p : LiveSession → Bool) (f : LiveSession → LiveSession) (ss : List LiveSession)
    → KeepsKey f
    → Keyed ss
    → ((org integration : ℕ) (key : String) (r : LiveSession)
        → find_session org integration key ss ≡ some r
        → p r ≡ true
        → Later r (f r))
    → Forward ss (map (λ r. if p r then f r else r) ss)
where-Forward p f ss keeps keyed moves_on = (
  Keyed-map g kept ss keyed,
  λ org integration key r e. (
    g r,
    find-map g kept org integration key ss r e,
    elim (Bool-cases (p r)) [
      | inl hit ↦ rw hit (moves_on org integration key r e hit)
      | inr miss ↦ rw miss (stays r)
    ],
  ),
)
  where
    g : LiveSession → LiveSession
    g r = if p r then f r else r

    kept : KeepsKey g
    kept = where-KeepsKey p f keeps

pub update-Forward :
    (org integration : ℕ) (key : String) (generation : ℕ) (state : SessionState) (activity : Bool)
    (now : ℕ) (t : LiveTables) {r : Bool × LiveTables}
    → update_exotel_session org integration key generation state activity now t ≡ ok r
    → Keyed t.sessions
    → Forward t.sessions r.1.sessions
unfolding update_exotel_session
update-Forward org integration key generation state activity now t e keyed =
    let (_, e1) = raise_if-ok (is_unknown state) invalid_state _ e in
    let (_, e2) =
      raise_if-ok (is_live state && not activity || not (is_live state) && activity) reserved_live _
        e1 in
    subst (λ (q : Bool × LiveTables). Forward t.sessions q.1.sessions) (ok-injective e2)
      (where-Forward (updates_row org integration key generation state) (set_state state now)
        t.sessions (set_state-KeepsKey state now) keyed
        (λ o i k r found hit. set_state-Later state now r (ground arith)))

pub upsert-Forward :
    (org integration : ℕ) (key agent team : String) (now : ℕ) (t : LiveTables) {r : ℕ × LiveTables}
    → upsert_session org integration key agent team now t ≡ ok r
    → Keyed t.sessions
    → Forward t.sessions r.1.sessions
unfolding upsert_session has_key
upsert-Forward org integration key agent team now t {r} e keyed =
    elim (Option-cases (find_session org integration key t.sessions)) [
      | inl new_key ↦
          let x = first_generation org integration key agent team now in
          let same : (1, record t { sessions = t.sessions ++ x ∷ [] }) ≡ r =
            ok-injective (rw (new_key, upsert_session) at e) in
          let own : has_key org integration key x ≡ true =
            (let reflexive = (eq_iff key key).1 refl in rw reflexive (ground arith)) in
          subst (λ (q : ℕ × LiveTables). Forward t.sessions q.1.sessions) same
            (
              All-append _ t.sessions (x ∷ []) (olds t.sessions x keyed)
                  (find-last org integration key t.sessions x new_key own, tt),
              λ o i k s found. (s, find-append o i k t.sessions (x ∷ []) s found, stays s),
            )
      | inr (s, found) ↦ elim (Bool-cases (is_some s.call_content_purged_at)) [
        | inl gone ↦ cc (rw (found, gone, upsert_session) at e)
        | inr open_yet ↦
            subst (λ (q : ℕ × LiveTables). Forward t.sessions q.1.sessions)
              (ok-injective (rw (found, open_yet, upsert_session) at e))
              (where-Forward (has_key org integration key) (next_generation agent team now)
                t.sessions (λ x. (refl, refl, refl)) keyed
                (λ o i k x at_key hit. inl (omega arith)))
      ]
    ]
  where
    olds :
        (ts : List LiveSession) (x : LiveSession)
        → All
            (λ s. find_session s.organisation_id s.integration_id s.call_key t.sessions ≡ some s)
            ts
        → All
            (λ s.
              find_session s.organisation_id s.integration_id s.call_key (t.sessions ++ x ∷ [])
              ≡ some s)
            ts
    olds [] x h = tt
    olds (s ∷ ts) x h = (
      find-append s.organisation_id s.integration_id s.call_key t.sessions (x ∷ []) s h.0,
      olds ts x h.1,
    )

stale-allowed :
    (org now : ℕ) (r : LiveSession) (state : SessionState)
    → r.state ≡ state
    → is_stale org now r ≡ true
    → allowed_from incomplete state ≡ true
unfolding is_stale allowed_from
stale-allowed org now r live e h = refl
stale-allowed org now r draining e h = refl
stale-allowed org now r unknown e h = ground (arith, rw e at h)
stale-allowed org now r ended e h = ground (arith, rw e at h)
stale-allowed org now r incomplete e h = ground (arith, rw e at h)

module _ (ss : List LiveSession) (org now : ℕ) where
  abbrev IsOwn : LiveSession → Type 0
  IsOwn s = find_session s.organisation_id s.integration_id s.call_key ss ≡ some s

  -- Among rows that are their keys' rows, one whose key matches a row is that row.
  same_row :
      (s r : LiveSession)
      → IsOwn s
      → IsOwn r
      → has_key s.organisation_id s.integration_id s.call_key r ≡ true
      → s ≡ r
  unfolding has_key
  same_row s r own own' hit =
      let o : r.organisation_id ≡ s.organisation_id = ground arith in
      let i : r.integration_id ≡ s.integration_id = ground arith in
      let k : r.call_key ≡ s.call_key = (eq_iff r.call_key s.call_key).0 (ground arith) in
      let one : find_session r.organisation_id r.integration_id r.call_key ss
          ≡ find_session s.organisation_id s.integration_id s.call_key ss =
        rw (o, i, k) refl in
      cc (sym own ∙ sym one ∙ own')

  chosen :
      (locked : LiveSession → Bool) (ts : List LiveSession)
      → All IsOwn ts
      → All
          (λ s. IsOwn s × (is_stale org now s ≡ true))
          (select (λ r. is_stale org now r && not (locked r)) ts)
  unfolding select
  chosen locked [] all = tt
  chosen locked (s ∷ ts) all = elim (Bool-cases (is_stale org now s && not (locked s))) [
    | inl hit ↦ rw hit ((all.0, ground arith), chosen locked ts all.1)
    | inr miss ↦ rw miss (chosen locked ts all.1)
  ]

  matched_is_stale :
      (stale : List LiveSession) (r : LiveSession)
      → All (λ s. IsOwn s × (is_stale org now s ≡ true)) stale
      → IsOwn r
      → any (λ s. has_key s.organisation_id s.integration_id s.call_key r) stale ≡ true
      → is_stale org now r ≡ true
  matched_is_stale [] r all own h = cc
  matched_is_stale (s ∷ stale) r all own h =
      elim (Bool-cases (has_key s.organisation_id s.integration_id s.call_key r)) [
        | inl hit ↦
            let same : s ≡ r = same_row s r all.0.0 own hit in
            subst (λ x. is_stale org now x ≡ true) same all.0.1
        | inr miss ↦ matched_is_stale stale r all.1 own (rw miss at h)
      ]

pub recover-Forward :
    (locked : LiveSession → Bool) (org now : ℕ) (t : LiveTables)
    → Keyed t.sessions
    → Forward t.sessions (recover_stale_exotel_sessions locked org now t).sessions
unfolding recover_stale_exotel_sessions
recover-Forward locked org now t keyed =
    let found = select (λ r. is_stale org now r && not (locked r)) t.sessions in
    let P = λ (s : LiveSession). IsOwn t.sessions org now s × (is_stale org now s ≡ true) in
    let stale = take 200 (sort_by least_recent found) in
    let known =
      All-take least_recent P 200 (sort_by least_recent found)
        (All-sort_by least_recent P found (chosen t.sessions org now locked t.sessions keyed)) in
    where-Forward (λ r. any (λ s. has_key s.organisation_id s.integration_id s.call_key r) stale)
      (set_state incomplete now) t.sessions (set_state-KeepsKey incomplete now) keyed
      (λ o i k r at_key hit. set_state-Later incomplete now r (
        stale-allowed org now r r.state refl (
          matched_is_stale t.sessions org now stale r known
            (find-All (IsOwn t.sessions org now) o i k t.sessions r keyed at_key) hit)))
