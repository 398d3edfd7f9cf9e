-- ===== src/Store.antt =====
-- The tables of the PostgreSQL schema that the modelled modules share (columns that no modelled
-- statement reads or writes are left out), and the outcome of a fallible call.
-- A UUID is the number that it stands for; a timestamp is a number of seconds.
use real_time_ai_call_audit.Prelude.{
  ℕ, String, ◌≡◌, refl, Bool, true, false, Option, none, some, List, [], ◌∷◌, ◌==◌, ◌&&◌,
  if◌then◌else◌,
}

-- A call that raises leaves the database as it was: the transaction is rolled back.
pub data Outcome {ℓ} (E : Type 0) (A : Type ℓ) : Type ℓ where
  ok : A → Outcome E A
  raise : E → Outcome E A

infixl 5 ◌>>=◌ ◌>>◌
abbrev pub ◌>>=◌ {ℓ κ} :
    {E : Type 0} {A : Type ℓ} {B : Type κ} → Outcome E A → (A → Outcome E B) → Outcome E B
ok a >>= f = f a
raise e >>= f = raise e

abbrev pub ◌>>◌ {ℓ} : {E : Type 0} {B : Type ℓ} → Outcome E (Unit {0}) → Outcome E B → Outcome E B
m >> k = m >>= λ _. k

-- `if bad: raise e`.
abbrev pub raise_if : {E : Type 0} → Bool → E → Outcome E (Unit {0})
raise_if true e = raise e
raise_if false e = ok tt

-- calls
pub record Call : Type 0 where
  pub organisation_id : ℕ
  pub id : ℕ
  pub external_ref : String
  pub idempotency_key : String
  pub payload_sha256 : String
  pub agent_id : String
  pub team_id : String
  pub language : String
  pub processing_state : String
  pub transcript_revision : ℕ
  pub tombstoned_at : Option ℕ

-- jobs.state
pub data JobState : Type 0 where
  queued running waiting_handler done retry_wait failed : JobState

-- jobs
pub record Job : Type 0 where
  pub organisation_id : ℕ
  pub id : ℕ
  pub call_id : ℕ
  pub stage : String
  pub input_revision : ℕ
  pub state : JobState
  pub attempts : ℕ
  pub available_at : ℕ
  pub lease_token : Option ℕ
  pub lease_until : Option ℕ
  pub last_error_code : Option String

-- event_counters
pub record Counter : Type 0 where
  pub organisation_id : ℕ
  pub last_sequence : ℕ
  pub oldest_sequence : ℕ

-- events, with the two fields of the payload. `type` is always 'call.updated'.
pub record Event : Type 0 where
  pub organisation_id : ℕ
  pub sequence : ℕ
  pub call_id : ℕ
  pub processing_state : String
  pub transcript_revision : ℕ

-- The two tables of the event stream.
pub record Outbox : Type 0 where
  pub counters : List Counter
  pub events : List Event

-- The primary key (organisation_id, id) of a call.
unfoldable pub find_call : ℕ → ℕ → List Call → Option Call
find_call org call [] = none
find_call org call (c ∷ cs) =
    let rest = find_call org call cs in
    if c.organisation_id == org && c.id == call then some c else rest

-- Inversion of a chain that returned.
pub raise_if-ok {ℓ} :
    {E : Type 0} {B : Type ℓ} (c : Bool) (e : E) (m : Outcome E B) {b : B}
    → (raise_if c e >> m) ≡ ok b
    → (c ≡ false) × (m ≡ ok b)
raise_if-ok true e m h = cc
raise_if-ok false e m h = (refl, h)

pub >>=-ok {ℓ κ} :
    {E : Type 0} {A : Type ℓ} {B : Type κ} (m : Outcome E A) (f : A → Outcome E B) {b : B}
    → (m >>= f) ≡ ok b
    → (a : A) × (m ≡ ok a) × (f a ≡ ok b)
>>=-ok (ok a) f h = (a, refl, h)
>>=-ok (raise e) f h = cc

pub ok-injective {ℓ} :
    {E : Type 0} {A : Type ℓ} {a b : A} → ◌≡◌ {A = Outcome E A} (ok a) (ok b) → a ≡ b
ok-injective h = cc
