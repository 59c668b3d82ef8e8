-- ===== src/Sequence.antt =====
-- src/core/sequencer/mod.rs: validation of the sequence numbers of a stream. A result is the
-- validator after the call, with the error of `bail!` or the detection.
pub mod Runs
mod Tests
use chronicle_rs.Base.{
  ℕ, ◌+◌, ◌-◌, ◌%◌, ◌^◌, Option, none, some, ◌⊎◌, inl, inr, ◌==◌, if◌then◌else◌,
}

pub data GapPolicy : Type 0 where
  panic quarantine ignore : GapPolicy

pub data GapDetection : Type 0 where
  sequential : GapDetection
  gap : (from to : ℕ) → GapDetection

-- "sequence gap detected: {prev} -> {seq} (missing {n} messages)"
pub data SequenceError : Type 0 where
  gap_detected : (from to missing : ℕ) → SequenceError

pub record SequenceValidator : Type 0 where
  pub last_seq : Option ℕ
  pub policy : GapPolicy

unfoldable pub new : GapPolicy → SequenceValidator
new policy = record { last_seq = none; policy = policy }

unfoldable pub set_policy : SequenceValidator → GapPolicy → SequenceValidator
set_policy v policy = record v { policy = policy }

unfoldable pub reset : SequenceValidator → SequenceValidator
reset v = record v { last_seq = none }

-- `self.last_seq = Some(seq)`
abbrev pub seen : SequenceValidator → ℕ → SequenceValidator
seen v seq = record v { last_seq = some seq }

unfoldable pub check : SequenceValidator → ℕ → SequenceValidator × (SequenceError ⊎ GapDetection)
check v seq = elim v.last_seq [
  | none ↦ (seen v seq, inr sequential)
  | some prev ↦ if seq == (prev + 1) % 2 ^ 64 then (seen v seq, inr sequential) else elim v.policy [
    | panic ↦ (v, inl (gap_detected prev seq (seq - prev - 1)))
    | quarantine ↦ (seen v seq, inr (gap prev seq))
    | ignore ↦ (seen v seq, inr (gap prev seq))
  ]
]

unfoldable pub check_relaxed : SequenceValidator → ℕ → SequenceValidator × GapDetection
check_relaxed v seq = elim v.last_seq [
  | none ↦ (seen v seq, sequential)
  | some prev ↦
      if seq == (prev + 1) % 2 ^ 64 then (seen v seq, sequential) else (seen v seq, gap prev seq)
]
