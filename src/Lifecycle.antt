-- ===== src/Lifecycle.antt =====
-- src/lifecycle/policy.rs and src/lifecycle/segment_info.rs: when a segment is compressed. Times and
-- durations are nanoseconds, `now` is the clock, and of a path there is its extension.
mod Tests
use chronicle_rs.Base.{
  ℕ, ◌-◌, ◌*◌, ◌/◌, Option, none, some, Bool, true, false, ltb, leb, not, if◌then◌else◌,
}

pub data Extension : Type 0 where
  zst other : Extension

pub record SegmentInfo : Type 0 where
  pub extension : Extension
  pub segment_id : ℕ
  pub size_bytes : ℕ
  pub created_at : ℕ
  pub modified_at : ℕ
  pub last_accessed_at : Option ℕ
  pub is_sealed : Bool
  pub read_count : ℕ

pub data CompressionPolicy : Type 0 where
  never immediate : CompressionPolicy
  idle_after : (days : ℕ) (track_reads : Bool) → CompressionPolicy
  age_after : (days : ℕ) → CompressionPolicy
  size_threshold : (bytes : ℕ) → CompressionPolicy

-- A time in the future gives no duration, and counts as just now.
unfoldable pub age : ℕ → SegmentInfo → ℕ
age now info = now - info.created_at

unfoldable pub time_since_modified : ℕ → SegmentInfo → ℕ
time_since_modified now info = now - info.modified_at

-- Here a time in the future counts as not tracked.
unfoldable pub time_since_accessed : ℕ → SegmentInfo → Option ℕ
time_since_accessed now info = elim info.last_accessed_at [
  | none ↦ none
  | some accessed ↦ if ltb now accessed then none else some (now - accessed)
]

unfoldable pub is_idle : ℕ → SegmentInfo → ℕ → Bool
is_idle now info duration = elim (time_since_accessed now info) [
  | some idle_time ↦ leb duration idle_time
  | none ↦ leb duration (time_since_modified now info)
]

unfoldable pub is_compressed : SegmentInfo → Bool
is_compressed info = elim info.extension [ zst ↦ true | other ↦ false ]

-- `Duration::from_secs(days * 86400)`
unfoldable pub days_long : ℕ → ℕ
days_long days = days * 86400 * 1_000_000_000

unfoldable pub policy_holds : CompressionPolicy → ℕ → SegmentInfo → Bool
policy_holds never now info = false
policy_holds immediate now info = true
policy_holds (idle_after days track_reads) now info =
    if track_reads
    then is_idle now info (days_long days)
    else leb (days_long days) (time_since_modified now info)
policy_holds (age_after days) now info = leb (days_long days) (age now info)
policy_holds (size_threshold bytes) now info = leb bytes info.size_bytes

unfoldable pub should_compress : CompressionPolicy → ℕ → SegmentInfo → Bool
should_compress policy now info =
    if not info.is_sealed
    then false
    else if is_compressed info
    then false
    else policy_holds policy now info
