-- ===== src/Sequence/Runs.antt =====
-- Whole runs of sequence numbers through the validator.
use chronicle_rs.Base.{
  ℕ, ◌+◌, ◌%◌, ◌^◌, ◌≡◌, ◌≢◌, refl, List, [], ◌∷◌, some, inl, inr, Bool, true, false, ◌↔◌, arith,
}
use chronicle_rs.Sequence.{panic, SequenceValidator, new, seen, check, check_relaxed}

-- Whether the validator takes all numbers, each without an error.
unfoldable pub accepts : SequenceValidator → List ℕ → Bool
accepts v [] = true
accepts v (seq ∷ seqs) =
    let (v', result) = check v seq in
    let rest = accepts v' seqs in elim result [ inl _ ↦ false | inr _ ↦ rest ]

-- Each number is the one after the number before it, modulo 2^64.
unfoldable pub Consecutive : ℕ → List ℕ → Type 0
Consecutive prev [] = Unit
Consecutive prev (seq ∷ seqs) = (seq ≡ (prev + 1) % 2 ^ 64) × Consecutive seq seqs

accepts_from :
    (v : SequenceValidator) (prev : ℕ) (seqs : List ℕ)
    → v.policy ≡ panic
    → v.last_seq ≡ some prev
    → (accepts v seqs ≡ true) ↔ Consecutive prev seqs
unfolding accepts Consecutive check
accepts_from v prev [] p l = ground arith
accepts_from v prev (seq ∷ seqs) p l =
    let (to, from) = accepts_from (seen v seq) seq seqs p refl in ground arith

-- A strict validator takes a run exactly when it has no gap.
pub accepts-Consecutive :
    (first : ℕ) (seqs : List ℕ)
    → (accepts (new panic) (first ∷ seqs) ≡ true) ↔ Consecutive first seqs
unfolding accepts check new
accepts-Consecutive first seqs = accepts_from (seen (new panic) first) first seqs refl refl

-- With a policy that does not fail, `check` never fails and reports what `check_relaxed` reports.
pub check-relaxed :
    (v : SequenceValidator) (seq : ℕ)
    → v.policy ≢ panic
    → check v seq ≡ (let (v', found) = check_relaxed v seq in (v', inr found))
unfolding check check_relaxed
check-relaxed v seq lenient = ground arith
