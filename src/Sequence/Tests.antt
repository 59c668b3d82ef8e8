-- ===== src/Sequence/Tests.antt =====
-- Examples of the validator.
use chronicle_rs.Base.{◌≡◌, ◌≢◌, [], ◌∷◌, some, inr, true, ◌↔◌, arith}
use chronicle_rs.Sequence.{GapPolicy, SequenceValidator, new, check, check_relaxed}
use chronicle_rs.Sequence.Runs.{accepts, Consecutive, accepts-Consecutive, check-relaxed}

accepts-Consecutive_example :
    (accepts (new GapPolicy.panic) (7 ∷ 8 ∷ 9 ∷ []) ≡ true) ↔ Consecutive 7 (8 ∷ 9 ∷ [])
accepts-Consecutive_example = accepts-Consecutive 7 (8 ∷ 9 ∷ [])

abbrev lenient : SequenceValidator
lenient = record { last_seq = some 5; policy = GapPolicy.ignore }

not_strict : GapPolicy.ignore ≢ GapPolicy.panic
not_strict = ground arith

check-relaxed_example :
    check lenient 9 ≡ (let (v, found) = check_relaxed lenient 9 in (v, inr found))
check-relaxed_example = check-relaxed lenient 9 not_strict
