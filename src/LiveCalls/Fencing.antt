-- ===== src/LiveCalls/Fencing.antt =====
-- Runs of the operations on live sessions: they move forward, and an older generation is fenced off.
use real_time_ai_call_audit.Prelude.{
  ℕ, ◌<◌, ◌≡◌, inl, inr, refl, ap, sym, ◌∙◌, String, Bool, true, false, not, ◌&&◌, ◌||◌, some, List,
  [], ◌∷◌, ◌++◌, map, ◌==◌, if◌then◌else◌, is_some, arith, All, any, eq_iff, Bool-cases,
  Option-cases, subst,
}
use real_time_ai_call_audit.Store.{Outcome, ok, raise, raise_if-ok, ok-injective}
use real_time_ai_call_audit.LiveCalls.{
  SessionState, LiveSession, LiveTables, LiveError, has_key, find_session, upsert_session,
  activate_exotel_session, set_state, updates_row, update_where, update_exotel_session,
  recover_stale_exotel_sessions, first_generation, next_generation, is_mapped, is_sole_member,
  is_tombstoned, mapping_inactive, identity_purged, invalid_state, reserved_live, is_live,
  is_unknown,
}
use real_time_ai_call_audit.LiveCalls.Keys.{Keyed, find-map, find-last, where-KeepsKey}
use real_time_ai_call_audit.LiveCalls.Generations.{
  Forward, Later-trans, update-Forward, upsert-Forward, recover-Forward, stays,
}

pub data Operation : Type 0 where
  activates : ℕ → ℕ → String → String → String → String → ℕ → Operation
  updates : ℕ → ℕ → String → ℕ → SessionState → Bool → ℕ → Operation
  recovers : (LiveSession → Bool) → ℕ → ℕ → Operation

abbrev tables_after : {A : Type 0} → LiveTables → Outcome LiveError (A × LiveTables) → LiveTables
tables_after t (ok r) = r.1
tables_after t (raise e) = t

abbrev pub perform : LiveTables → Operation → LiveTables
perform t (activates org integration key ref agent team now) =
    tables_after t (activate_exotel_session org integration key ref agent team now t)
perform t (updates org integration key generation state activity now) =
    tables_after t (update_exotel_session org integration key generation state activity now t)
perform t (recovers locked org now) = recover_stale_exotel_sessions locked org now t

unfoldable pub run_live : LiveTables → List Operation → LiveTables
run_live t [] = t
run_live t (op ∷ ops) = run_live (perform t op) ops

unmoved : (ss : List LiveSession) → Keyed ss → Forward ss ss
unmoved ss keyed = (keyed, λ o i k r e. (r, e, stays r))

activated :
    (org integration : ℕ) (key ref agent team : String) (now : ℕ) (t : LiveTables)
    {r : ℕ × LiveTables}
    → activate_exotel_session org integration key ref agent team now t ≡ ok r
    → upsert_session org integration key agent team now t ≡ ok r
unfolding activate_exotel_session
activated org integration key ref agent team now t e =
    let (_, e1) =
      raise_if-ok
        (not (is_mapped org integration ref agent team t.mappings)
          || not (is_sole_member org agent team t.memberships))
        mapping_inactive _ e in
    (raise_if-ok (is_tombstoned org key t.calls) identity_purged _ e1).1

after-Forward :
    {A : Type 0} (t : LiveTables) (o : Outcome LiveError (A × LiveTables))
    → Keyed t.sessions
    → ((r : A × LiveTables) → o ≡ ok r → Forward t.sessions r.1.sessions)
    → Forward t.sessions (tables_after t o).sessions
after-Forward t (ok r) keyed done = done r refl
after-Forward t (raise e) keyed done = unmoved t.sessions keyed

perform-Forward :
    (t : LiveTables) (op : Operation)
    → Keyed t.sessions
    → Forward t.sessions (perform t op).sessions
perform-Forward t (activates org integration key ref agent team now) keyed =
    after-Forward t (activate_exotel_session org integration key ref agent team now t) keyed (λ r e.
      upsert-Forward org integration key agent team now t
        (activated org integration key ref agent team now t e) keyed)
perform-Forward t (updates org integration key generation state activity now) keyed =
    after-Forward t (update_exotel_session org integration key generation state activity now t)
      keyed (λ r e. update-Forward org integration key generation state activity now t e keyed)
perform-Forward t (recovers locked org now) keyed = recover-Forward locked org now t keyed

-- In a table with one row for each key, over any activations, updates and recoveries, refused
-- ones included, no session's record is lost, each key keeps one row, and the row is of a later
-- generation, or of the same generation and in the same state or in one of a higher rank, where
-- LIVE is below DRAINING and DRAINING below ENDED and INCOMPLETE.
pub run_live-Forward :
    (t : LiveTables) (ops : List Operation)
    → Keyed t.sessions
    → Forward t.sessions (run_live t ops).sessions
unfolding run_live
run_live-Forward t [] keyed = unmoved t.sessions keyed
run_live-Forward t (op ∷ ops) keyed =
    let (kept, on) = perform-Forward t op keyed in
    let (kept', on') = run_live-Forward (perform t op) ops kept in
    (
      kept',
      λ o i k r e.
          (let (r1, e1, l1) = on o i k r e in
            let (r2, e2, l2) = on' o i k r1 e1 in (r2, e2, Later-trans r r1 r2 l1 l2)),
    )

find-has_key :
    (org integration : ℕ) (key : String) (ss : List LiveSession) (r : LiveSession)
    → find_session org integration key ss ≡ some r
    → has_key org integration key r ≡ true
unfolding find_session
find-has_key org integration key [] r e = cc
find-has_key org integration key (s ∷ ss) r e = elim (Bool-cases (has_key org integration key s)) [
  | inl hit ↦
      let here : s ≡ r = cc (rw hit at e) in
      subst (λ x. has_key org integration key x ≡ true) here hit
  | inr miss ↦ find-has_key org integration key ss r (rw miss at e)
]

bumped :
    (org integration : ℕ) (key agent team : String) (now : ℕ) (ss : List LiveSession)
    (s : LiveSession)
    → find_session org integration key ss ≡ some s
    → find_session org integration key (
        map (λ r. if has_key org integration key r then next_generation agent team now r else r) ss)
      ≡ some (next_generation agent team now s)
bumped org integration key agent team now ss s found =
    let g = λ (r : LiveSession).
      if has_key org integration key r then next_generation agent team now r else r in
    let hit = find-has_key org integration key ss s found in
    let at_s : g s ≡ next_generation agent team now s = rw hit refl in
    find-map g
      (where-KeepsKey (has_key org integration key) (next_generation agent team now)
        (λ x. (refl, refl, refl)))
      org integration key ss s found
    ∙ ap some at_s

upsert_generation :
    (org integration : ℕ) (key agent team : String) (now : ℕ) (t : LiveTables) {r : ℕ × LiveTables}
    → upsert_session org integration key agent team now t ≡ ok r
    → (s : LiveSession) × (find_session org integration key r.1.sessions ≡ some s)
      × (s.generation ≡ r.0)
unfolding upsert_session has_key
upsert_generation org integration key agent team now t {r} e =
    elim (Option-cases (find_session org integration key t.sessions)) [
      | inl new_key ↦
          let x = first_generation org integration key agent team now in
          let same : (1, record t { sessions = t.sessions ++ x ∷ [] }) ≡ r =
            ok-injective (rw (new_key, upsert_session) at e) in
          let own : has_key org integration key x ≡ true =
            (let reflexive = (eq_iff key key).1 refl in rw reflexive (ground arith)) in
          subst At same (x, find-last org integration key t.sessions x new_key own, refl)
      | inr (s, found) ↦ elim (Bool-cases (is_some s.call_content_purged_at)) [
        | inl gone ↦ cc (rw (found, gone, upsert_session) at e)
        | inr open_yet ↦ subst At (ok-injective (rw (found, open_yet, upsert_session) at e)) (
          next_generation agent team now s,
          bumped org integration key agent team now t.sessions s found,
          refl,
        )
      ]
    ]
  where
    At : ℕ × LiveTables → Type 0
    At q =
        (s : LiveSession) × (find_session org integration key q.1.sessions ≡ some s)
        × (s.generation ≡ q.0)

-- No row of a key is updated for a generation before its own.
fenced_rows :
    (org integration : ℕ) (key : String) (other : ℕ) (state : SessionState)
    (ss ts : List LiveSession) (r : LiveSession)
    → find_session org integration key ss ≡ some r
    → other < r.generation
    → All (λ s. find_session s.organisation_id s.integration_id s.call_key ss ≡ some s) ts
    → All (λ s. updates_row org integration key other state s ≡ false) ts
unfolding has_key
fenced_rows org integration key other state ss [] r e lt all = tt
fenced_rows org integration key other state ss (s ∷ ts) r e lt all = (
  elim (Bool-cases (has_key org integration key s)) [
    | inl hit ↦
        let same = own_row s hit all.0 in
        let later : (s.generation == other) ≡ false =
          (let g : s.generation ≡ r.generation = ap (λ (x : LiveSession). x.generation) same in
            ground (arith, g, lt)) in
        rw (hit, later) refl
    | inr miss ↦ rw miss refl
  ],
  fenced_rows org integration key other state ss ts r e lt all.1,
)
  where
    own_row :
        (x : LiveSession)
        → has_key org integration key x ≡ true
        → find_session x.organisation_id x.integration_id x.call_key ss ≡ some x
        → x ≡ r
    own_row x hit own =
        let o : x.organisation_id ≡ org = ground arith in
        let i : x.integration_id ≡ integration = ground arith in
        let k : x.call_key ≡ key = (eq_iff x.call_key key).0 (ground arith) in
        let moved : find_session x.organisation_id x.integration_id x.call_key ss
            ≡ find_session org integration key ss =
          rw (o, i, k) refl in
        cc (sym own ∙ moved ∙ e)

nothing_updated :
    (p : LiveSession → Bool) (f : LiveSession → LiveSession) (ss : List LiveSession)
    → All (λ s. p s ≡ false) ss
    → (any p ss ≡ false) × (map (λ r. if p r then f r else r) ss ≡ ss)
nothing_updated p f [] h = (refl, refl)
nothing_updated p f (s ∷ ss) h =
    let (none_hit, same) = nothing_updated p f ss h.1 in
    (rw h.0 none_hit, rw h.0 (ap (λ ys. s ∷ ys) same))

tables_kept :
    (p : LiveSession → Bool) (f : LiveSession → LiveSession) (t : LiveTables)
    → All (λ s. p s ≡ false) t.sessions
    → ◌≡◌ {A = Bool × LiveTables} (false, t) (any p t.sessions, update_where p f t)
tables_kept p f t h =
    let (no_row, kept) = nothing_updated p f t.sessions h in
    let same : t ≡ update_where p f t = ap (λ ss. record t { sessions = ss }) (sym kept) in
    rw no_row (ap (λ (q : LiveTables). pair q) same)
  where
    pair : LiveTables → Bool × LiveTables
    pair q = (false, q)

-- In a table with one row for each key, once a call is activated in a generation, then, whatever
-- activations, updates and recoveries follow, an update for an older generation of the call that
-- does not raise reports that it changed nothing, and changes nothing.
pub old_generation_fenced :
    (org integration : ℕ) (key ref agent team : String) (now generation : ℕ) (t t' : LiveTables)
    (ops : List Operation) (other : ℕ) (state : SessionState) (activity : Bool) (later : ℕ)
    (r : Bool × LiveTables)
    → Keyed t.sessions
    → activate_exotel_session org integration key ref agent team now t ≡ ok (generation, t')
    → other < generation
    → update_exotel_session org integration key other state activity later (run_live t' ops) ≡ ok r
    → r ≡ (false, run_live t' ops)
unfolding update_exotel_session
old_generation_fenced org integration key ref agent team now generation t t' ops other state
      activity later r keyed e lt u =
    let up = activated org integration key ref agent team now t e in
    let (keyed', _) = upsert-Forward org integration key agent team now t up keyed in
    let (s, found, same) = upsert_generation org integration key agent team now t up in
    let (keyed2, on) = run_live-Forward t' ops keyed' in
    let (s', found', after) = on org integration key s found in
    let (_, u1) = raise_if-ok (is_unknown state) invalid_state _ u in
    let (_, u2) =
      raise_if-ok (is_live state && not activity || not (is_live state) && activity) reserved_live _
        u1 in
    let older : other < s'.generation = elim after [
      | inl g ↦ omega (arith, g, lt, same)
      | inr g ↦ omega (arith, g.0, lt, same)
    ] in
    sym (ok-injective u2)
    ∙ sym (
        tables_kept (updates_row org integration key other state) (set_state state later)
          (run_live t' ops)
          (fenced_rows org integration key other state (run_live t' ops).sessions
            (run_live t' ops).sessions s' found' older keyed2))
