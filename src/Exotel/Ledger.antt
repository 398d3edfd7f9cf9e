-- ===== src/Exotel/Ledger.antt =====
-- The accounts of a stream's session over any deliveries: what was accepted and what is missing.
use real_time_ai_call_audit.Prelude.{
  ℕ, zero, suc, ◌+◌, ◌-◌, ◌≤◌, ◌<◌, ◌++◌, ap, ◌∙◌, ◌≡◌, ◌⊎◌, refl, true, List, [], ◌∷◌, arith,
  length, sum, map, inl, inr, is_some,
}
use real_time_ai_call_audit.Store.{Outcome, ok, raise}
use real_time_ai_call_audit.Intervals.{Interval}
use real_time_ai_call_audit.Exotel.{
  Decoders, Raw, Session, Accepted, nothing, lifecycle, media, accept, last_or_zero,
  max_stream_bytes, max_sequence_number,
}
use real_time_ai_call_audit.Exotel.Steps.{Step, connects, starts, streams, stops, accept-Step}

-- What the connection delivers, each event with the generation that it is for; a refused one leaves
-- the session as it is.
unfoldable pub deliver : Decoders → Session → List (Raw × ℕ) → List Accepted × Session
deliver d s [] = ([], s)
deliver d s (x ∷ xs) = elim (accept d x.0 x.1 s) [
  | raise e ↦ deliver d s xs
  | ok r ↦ (let later = deliver d r.1 xs in (r.0 ∷ later.0, later.1))
]

-- The `count` numbers from `start` on.
abbrev pub range : ℕ → ℕ → List ℕ
range start zero = []
range start (suc count) = start ∷ range (suc start) count

abbrev numbers_in : Interval → List ℕ
numbers_in g = range g.start (g.end - g.start)

-- The sequence numbers that an accepted event accounts for: those it reports missing, and its own.
abbrev pub sequences_of : Accepted → List ℕ
sequences_of nothing = []
sequences_of (lifecycle name sid n gaps) = numbers_in gaps ++ n ∷ []
sequences_of (media f) = numbers_in f.missing_sequences ++ f.sequence_number ∷ []

abbrev pub chunks_of : Accepted → List ℕ
chunks_of nothing = []
chunks_of (lifecycle name sid n gaps) = []
chunks_of (media f) = numbers_in f.missing_chunks ++ f.chunk ∷ []

abbrev pub bytes_of : Accepted → ℕ
bytes_of nothing = 0
bytes_of (lifecycle name sid n gaps) = 0
bytes_of (media f) = length f.pcm

abbrev pub all_of : (Accepted → List ℕ) → List Accepted → List ℕ
all_of f [] = []
all_of f (a ∷ later) = f a ++ all_of f later

range_join : (m n k m' l : ℕ) → m' ≡ m + n → l ≡ n + k → range m n ++ range m' k ≡ range m l
range_join m zero k m' l e e' =
    let here : m' ≡ m = omega (arith, e) in
    let all_left : l ≡ k = omega (arith, e') in rw (here, all_left) refl
range_join m (suc n) k m' l e e' =
    let one_more : l ≡ suc (n + k) = omega (arith, e') in
    rw one_more (ap (λ r. m ∷ r) (range_join (suc m) n k m' (n + k) (omega (arith, e)) refl))

-- From the number after `low` to `high`.
abbrev pub between : ℕ → ℕ → List ℕ
between low high = range (low + 1) (high - low)

between-append : (a b c : ℕ) → a ≤ b → b ≤ c → between a b ++ between b c ≡ between a c
between-append a b c h k =
    range_join (a + 1) (b - a) (c - b) (b + 1) (c - a) (omega (arith, h)) (omega (arith, h, k))

between_self : (a : ℕ) → [] ≡ between a a
between_self a = let nothing_left : a - a ≡ 0 = omega arith in rw nothing_left refl

-- A number behind the last one, with the gap before it.
gap_then : (low n : ℕ) → low < n → range (low + 1) (n - (low + 1)) ++ n ∷ [] ≡ between low n
gap_then low n h =
    range_join (low + 1) (n - (low + 1)) 1 n (n - low) (omega (arith, h)) (omega (arith, h))

-- The numbers that an accepted event accounts for are those that the session moves over.
abbrev pub Accounts : ℕ → ℕ → List ℕ → Type 0
Accounts low high numbers = (low ≤ high) × (numbers ≡ between low high)

Step-sequences :
    (s s' : Session) (a : Accepted)
    → Step s a s'
    → Accounts (last_or_zero s.last_sequence) (last_or_zero s'.last_sequence) (sequences_of a)
Step-sequences s s' a (connects c fresh) = (omega arith, between_self _)
Step-sequences s s' a (starts sid n c fresh next) = (omega (arith, next.0), gap_then _ n next.0)
Step-sequences s s' a (stops n c started next) = (omega (arith, next.0), gap_then _ n next.0)
Step-sequences s s' a (streams f c started next frame) = (
  omega (arith, next.0),
  ap (λ g. numbers_in g ++ f.sequence_number ∷ []) frame.2 ∙ gap_then _ f.sequence_number next.0,
)

Step-chunks :
    (s s' : Session) (a : Accepted)
    → Step s a s'
    → Accounts s.last_chunk s'.last_chunk (chunks_of a)
Step-chunks s s' a (connects c fresh) = (omega arith, between_self _)
Step-chunks s s' a (starts sid n c fresh next) = (omega arith, between_self _)
Step-chunks s s' a (stops n c started next) = (omega arith, between_self _)
Step-chunks s s' a (streams f c started next frame) = (
  omega (arith, frame.0),
  ap (λ g. numbers_in g ++ f.chunk ∷ []) frame.1 ∙ gap_then _ f.chunk frame.0,
)

Step-bytes :
    (s s' : Session) (a : Accepted) → Step s a s' → s'.total_bytes ≡ s.total_bytes + bytes_of a
Step-bytes s s' a (connects c fresh) = omega arith
Step-bytes s s' a (starts sid n c fresh next) = omega arith
Step-bytes s s' a (stops n c started next) = omega arith
Step-bytes s s' a (streams f c started next frame) = refl

-- What holds of a session at any time.
pub record SessionValid (s : Session) : Type 0 where
  pub within : s.total_bytes ≤ max_stream_bytes
  pub numbered : last_or_zero s.last_sequence ≤ max_sequence_number
  pub ordered : s.started ≡ true → s.connected ≡ true
  pub bound : s.started ≡ is_some s.stream_sid
  pub ended : s.stopped ≡ true → s.started ≡ true

Step-SessionValid : (s s' : Session) (a : Accepted) → Step s a s' → SessionValid s → SessionValid s'
Step-SessionValid s s' a (connects c fresh) v = record {
  within = v.within;
  numbered = v.numbered;
  ordered = λ e. refl;
  bound = v.bound;
  ended = v.ended;
}
Step-SessionValid s s' a (starts sid n c fresh next) v = record {
  within = v.within;
  numbered = next.1;
  ordered = λ e. c;
  bound = refl;
  ended = λ e. refl;
}
Step-SessionValid s s' a (stops n c started next) v = record {
  within = v.within;
  numbered = next.1;
  ordered = λ e. c;
  bound = v.bound;
  ended = λ e. started;
}
Step-SessionValid s s' a (streams f c started next frame) v = record {
  within = frame.8;
  numbered = next.1;
  ordered = v.ordered;
  bound = v.bound;
  ended = v.ended;
}

-- The three accounts of a run.
abbrev pub Balanced : Session → List Accepted × Session → Type 0
Balanced s r =
    Accounts (last_or_zero s.last_sequence) (last_or_zero r.1.last_sequence)
      (all_of sequences_of r.0)
    × Accounts s.last_chunk r.1.last_chunk (all_of chunks_of r.0)
    × (r.1.total_bytes ≡ s.total_bytes + sum (map bytes_of r.0))

Accounts-append :
    (a b c : ℕ) (xs ys : List ℕ) → Accounts a b xs → Accounts b c ys → Accounts a c (xs ++ ys)
Accounts-append a b c xs ys (h, e) (k, e') =
    (omega (arith, h, k), rw (e, e') (between-append a b c h k))

Outcome-cases :
    {E A : Type 0} (o : Outcome E A) → ((a : A) × (o ≡ ok a)) ⊎ ((e : E) × (o ≡ raise e))
Outcome-cases (ok a) = inl (a, refl)
Outcome-cases (raise e) = inr (e, refl)

-- Over any deliveries, refused ones included, the session's accounts balance: the sequence numbers
-- of the accepted events, each after those that it reports missing, are exactly the numbers after the
-- session's last one before up to its last one after, upwards and each once; so are the chunk numbers
-- of the accepted frames with the chunks that they report missing; and its bytes have grown by those
-- of the frames.
pub deliver-Balanced :
    (d : Decoders) (s : Session) (xs : List (Raw × ℕ)) → Balanced s (deliver d s xs)
unfolding deliver
deliver-Balanced d s [] =
    ((omega arith, between_self _), (omega arith, between_self _), omega arith)
deliver-Balanced d s (x ∷ xs) = elim (Outcome-cases (accept d x.0 x.1 s)) [
  | inl (r, e) ↦
      let (_, _, step) = accept-Step d x.0 x.1 s r.1 r.0 e in
      let (n, c, b) = deliver-Balanced d r.1 xs in
      rw (e, deliver)
        (
          Accounts-append _ _ _ _ _ (Step-sequences s r.1 r.0 step) n,
          Accounts-append _ _ _ _ _ (Step-chunks s r.1 r.0 step) c,
          omega (arith, b, Step-bytes s r.1 r.0 step),
        )
  | inr (x', e) ↦ rw (e, deliver) (deliver-Balanced d s xs)
]

-- Over any deliveries the session stays within its limits of bytes and numbers, it has a stream's
-- identity when it has started and not before, it starts only when connected, and it stops only when
-- started.
pub deliver-SessionValid :
    (d : Decoders) (s : Session) (xs : List (Raw × ℕ))
    → SessionValid s
    → SessionValid (deliver d s xs).1
unfolding deliver
deliver-SessionValid d s [] v = v
deliver-SessionValid d s (x ∷ xs) v = elim (Outcome-cases (accept d x.0 x.1 s)) [
  | inl (r, e) ↦
      let (_, _, step) = accept-Step d x.0 x.1 s r.1 r.0 e in
      rw (e, deliver) (deliver-SessionValid d r.1 xs (Step-SessionValid s r.1 r.0 step v))
  | inr (x', e) ↦ rw (e, deliver) (deliver-SessionValid d s xs v)
]
