-- ===== src/WordAlignment/Backtrack.antt =====
-- The backtrack through the table finds an alignment, and its errors are the edit distance.
use real_time_ai_call_audit.Prelude.{
  ℕ, suc, ◌+◌, ◌≡◌, refl, ap, ◌↔◌, Bool, true, ◌&&◌, Option, some, List, [], ◌∷◌, ◌++◌, ◌==◌, arith,
  length, inl, inr, Bool-cases,
}
use real_time_ai_call_audit.WordAlignment.{
  AlignmentOp, same, substitute, delete, insert, backtrack, reference_of, hypothesis_of, errors,
  IsHonest,
}
use real_time_ai_call_audit.WordAlignment.Table.{distance, distance-nil}

module _ {W : Type 0} (eq : W → W → Bool) (eq_iff : (a b : W) → (eq a b ≡ true) ↔ (a ≡ b))
    (t : ℕ → ℕ → ℕ) where
  -- The table holds the distances of all the prefixes of two reversed lists.
  abbrev Agrees : List W → List W → Type 0
  Agrees rs hs =
      (k l rs' hs' : List W)
      → k ++ rs' ≡ rs
      → l ++ hs' ≡ hs
      → t (length rs') (length hs') ≡ distance eq rs' hs'

  abbrev Finds : List W → List W → Option (List (AlignmentOp W)) → Type 0
  Finds rs hs found =
      (ops : List (AlignmentOp W)) × (found ≡ some ops)
      × (reference_of ops ≡ rs)
      × (hypothesis_of ops ≡ hs)
      × (errors ops ≡ distance eq rs hs)
      × IsHonest ops

  lose_reference : (r : W) (rs hs : List W) → Agrees (r ∷ rs) hs → Agrees rs hs
  lose_reference r rs hs a k l rs' hs' e f = a (r ∷ k) l rs' hs' (ap (λ x. r ∷ x) e) f

  lose_hypothesis : (h : W) (rs hs : List W) → Agrees rs (h ∷ hs) → Agrees rs hs
  lose_hypothesis h rs hs a k l rs' hs' e f = a k (h ∷ l) rs' hs' e (ap (λ x. h ∷ x) f)

  -- One round of the loop where both lists have words left.
  step :
      (r h : W) (rs hs : List W)
      → Finds rs hs (backtrack eq t rs hs)
      → Finds (r ∷ rs) hs (backtrack eq t (r ∷ rs) hs)
      → Finds rs (h ∷ hs) (backtrack eq t rs (h ∷ hs))
      → t (suc (length rs)) (suc (length hs)) ≡ distance eq (r ∷ rs) (h ∷ hs)
      → t (length rs) (length hs) ≡ distance eq rs hs
      → t (length rs) (suc (length hs)) ≡ distance eq rs (h ∷ hs)
      → t (suc (length rs)) (length hs) ≡ distance eq (r ∷ rs) hs
      → Finds (r ∷ rs) (h ∷ hs) (backtrack eq t (r ∷ rs) (h ∷ hs))
  unfolding backtrack
  step r h rs hs (ds, d0, d1, d2, d3, d4) (ls, l0, l1, l2, l3, l4) (us, u0, u1, u2, u3, u4) here
        diagonal above left =
      elim (Bool-cases
        (eq r h && (t (suc (length rs)) (suc (length hs)) == t (length rs) (length hs)))) [
          | inl matched ↦ (
            same r h ∷ ds,
            rw (matched, d0) refl,
            ground arith,
            ground arith,
            ground arith,
            (ground (arith, eq_iff r h), d4),
          )
          | inr unmatched ↦
              elim (Bool-cases
                (t (suc (length rs)) (suc (length hs)) == t (suc (length rs)) (length hs) + 1)) [
                  | inl inserted ↦ (
                    insert h ∷ ls,
                    rw (unmatched, inserted, l0) refl,
                    ground arith,
                    ground arith,
                    ground arith,
                    l4,
                  )
                  | inr kept ↦
                      elim (Bool-cases (
                        t (suc (length rs)) (suc (length hs))
                        == t (length rs) (suc (length hs)) + 1)) [
                          | inl deleted ↦ (
                            delete r ∷ us,
                            rw (unmatched, kept, deleted, u0) refl,
                            ground arith,
                            ground arith,
                            ground arith,
                            u4,
                          )
                          | inr both ↦ (
                            substitute r h ∷ ds,
                            rw (unmatched, kept, both, d0) refl,
                            ground arith,
                            ground arith,
                            unfold distance in ground arith,
                            d4,
                          )
                        ]
                ]
        ]

  pub backtrack-Finds : (rs hs : List W) → Agrees rs hs → Finds rs hs (backtrack eq t rs hs)
  unfolding backtrack distance
  backtrack-Finds [] [] a = ([], refl, refl, refl, refl, tt)
  backtrack-Finds [] (h ∷ hs) a =
      let (ops, f, r, g, e, o) = backtrack-Finds [] hs (lose_hypothesis h [] hs a) in
      let here = a [] [] [] (h ∷ hs) refl refl in
      let left = a [] (h ∷ []) [] hs refl refl in
      (insert h ∷ ops, ground arith, ground arith, ground arith, ground arith, o)
  backtrack-Finds (r ∷ rs) [] a =
      let (ops, f, q, g, e, o) = backtrack-Finds rs [] (lose_reference r rs [] a) in
      let here = a [] [] (r ∷ rs) [] refl refl in
      let above = a (r ∷ []) [] rs [] refl refl in
      let nil = distance-nil eq rs in
      let down : (t (suc (length rs)) 0 == t (length rs) 0 + 1) ≡ true = ground arith in
      (delete r ∷ ops, rw (down, f) refl, ground arith, ground arith, ground arith, o)
  backtrack-Finds (r ∷ rs) (h ∷ hs) a =
      let here = a [] [] (r ∷ rs) (h ∷ hs) refl refl in
      let diagonal = a (r ∷ []) (h ∷ []) rs hs refl refl in
      let above = a (r ∷ []) [] rs (h ∷ hs) refl refl in
      let left = a [] (h ∷ []) (r ∷ rs) hs refl refl in
      step r h rs hs
        (backtrack-Finds rs hs (lose_reference r rs hs (lose_hypothesis h (r ∷ rs) hs a)))
        (backtrack-Finds (r ∷ rs) hs (lose_hypothesis h (r ∷ rs) hs a))
        (backtrack-Finds rs (h ∷ hs) (lose_reference r rs (h ∷ hs) a)) here diagonal above left
