-- ===== src/Events/Reading.antt =====
-- What `read_events` returns: rows of the reader's own tenant behind its cursor, that it may see.
use real_time_ai_call_audit.Prelude.{
  ℕ, suc, zero, ◌≤◌, ◌<◌, ◌≡◌, ◌⊎◌, inl, inr, Bool, true, false, not, ◌&&◌, ◌||◌, none, some, List,
  [], ◌∷◌, ◌==◌, ltb, if◌then◌else◌, arith, length, All, take, select, sort_by, All-sort_by,
  All-take, Bool-cases,
}
use real_time_ai_call_audit.Store.{Outcome, ok, Call, Event, Outbox, find_call, raise_if-ok, >>=-ok}
use real_time_ai_call_audit.Auth.{Scope, can_access}
use real_time_ai_call_audit.Events.{
  EventError, find_counter, joins, access_predicate, event_rows, oldest_first, read_events,
  check_cursor, max_event_batch, no_teams,
}

-- The event's call exists, is not tombstoned, and the reader may access it.
abbrev pub Visible : List Call → Scope → Event → Type 0
Visible calls scope e =
    (c : Call) × (find_call e.organisation_id e.call_id calls ≡ some c)
    × (c.tombstoned_at ≡ none)
    × (can_access scope c.organisation_id c.agent_id c.team_id ≡ true)

abbrev pub IsReadable : List Call → Scope → ℕ → Event → Type 0
IsReadable calls scope after e =
    (e.organisation_id ≡ scope.organisation_id) × (after < e.sequence) × Visible calls scope e

abbrev seen : List Call → Scope → Event → Bool
seen calls scope = joins (λ c. can_access scope c.organisation_id c.agent_id c.team_id) calls

Visible-of_seen :
    (calls : List Call) (scope : Scope) (e : Event)
    → seen calls scope e ≡ true
    → Visible calls scope e
unfolding joins
Visible-of_seen calls scope e h = ground arith

select-length {ℓ} : {A : Type ℓ} (p : A → Bool) (xs : List A) → length (select p xs) ≤ length xs
unfolding select
select-length p [] = omega arith
select-length p (x ∷ xs) = ground (arith, select-length p xs)

take-length {ℓ} : {A : Type ℓ} (n : ℕ) (xs : List A) → length (take n xs) ≤ n
take-length zero xs = omega arith
take-length (suc n) [] = omega arith
take-length (suc n) (x ∷ xs) = omega (arith, take-length n xs)

batch_cases :
    (b : Bool) (rows batch : List Event)
    → ◌≡◌ {A = Outcome EventError (List Event)} (ok (if b then [] else rows)) (ok batch)
    → (batch ≡ []) ⊎ (batch ≡ rows)
batch_cases true rows batch e = inl (cc)
batch_cases false rows batch e = inr (cc)

module _ (calls : List Call) (scope : Scope) (after : ℕ) where
  abbrev wanted : Event → Bool
  wanted e =
      e.organisation_id == scope.organisation_id
      && ltb after e.sequence
      && joins (access_predicate scope) calls e

  selected : (es : List Event) → All (λ e. wanted e ≡ true) (select wanted es)
  unfolding select
  selected [] = tt
  selected (e ∷ es) = ground (arith, selected es)

  both :
      (es : List Event)
      → All (λ e. wanted e ≡ true) es
      → All (IsReadable calls scope after) (select (seen calls scope) es)
  unfolding select
  both [] h = tt
  both (e ∷ es) (w, h) = elim (Bool-cases (seen calls scope e)) [
    | inl visible ↦
        rw visible ((ground arith, ground arith, Visible-of_seen calls scope e visible), both es h)
    | inr hidden ↦ rw hidden (both es h)
  ]

  -- What the query selects, sorts and limits, and the loop filters.
  rows-IsReadable :
      (es : List Event) (n : ℕ)
      → All
          (IsReadable calls scope after)
          (select (seen calls scope) (event_rows calls scope after n es))
  unfolding event_rows
  rows-IsReadable es n = both (event_rows calls scope after n es) (
      All-take oldest_first (λ e. wanted e ≡ true) n (sort_by oldest_first (select wanted es))
        (All-sort_by oldest_first (λ e. wanted e ≡ true) (select wanted es) (selected es)))

  -- A batch that `read_events` returns is of at most `limit` events, and every one of them is the
  -- reader's own tenant's, lies behind the cursor, and belongs to a call that exists, is not
  -- tombstoned and that the reader may access. So no event of another tenant, of another agent (for
  -- an agent) or of another team (for a team leader) is ever returned.
  pub read_events-IsReadable :
      (o : Outbox) (limit : ℕ) (batch : List Event)
      → read_events calls o scope after limit ≡ ok batch
      → All (IsReadable calls scope after) batch
        × (length batch ≤ limit)
        × (limit ≤ max_event_batch)
  unfolding read_events event_rows
  read_events-IsReadable o limit batch e =
      let (_, e1) = raise_if-ok _ _ _ e in
      let (sized, e2) = raise_if-ok (limit == 0 || ltb max_event_batch limit) _ _ e1 in
      let (_, e3) = raise_if-ok _ _ _ e2 in
      let (exists, _, e4) =
        >>=-ok (check_cursor (find_counter scope.organisation_id o.counters) after) _ e3 in
      let bounded : limit ≤ max_event_batch = ground arith in
      elim (batch_cases (not exists || no_teams scope) rows batch e4) [
        | inl nothing ↦ rw nothing (tt, omega arith, bounded)
        | inr same ↦ rw same (
          rows-IsReadable o.events limit,
          omega (
            arith,
            select-length {0} (seen calls scope) (event_rows calls scope after limit o.events),
            take-length {0} limit (sort_by oldest_first (select wanted o.events)),
          ),
          bounded,
        )
      ]
    where
      rows : List Event
      rows = select (seen calls scope) (event_rows calls scope after limit o.events)
