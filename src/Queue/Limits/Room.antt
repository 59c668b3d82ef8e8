-- ===== src/Queue/Limits/Room.antt =====
-- The test for room and the limits: it passes exactly where a record would keep to them.
use chronicle_rs.Base.{
  ℕ, ◌+◌, ◌-◌, ◌/◌, ◌≤◌, ◌≡◌, refl, subst, if◌then◌else◌, Bool, true, inl, inr, Bool-cases,
  Option-cases, ltb, arith,
}
use chronicle_rs.Capacity
use chronicle_rs.Capacity.{bytes_ok, segments_ok, head_after, next_position}
use chronicle_rs.Retention.{global_position}
use chronicle_rs.Queue.Writer.{QueueWriter, is_unlimited}
use chronicle_rs.Queue.Limits.{WithinLimits}
use chronicle_rs.Queue.Limits.Append.{capacity_of, bytes_within, segments_within}

-- The writer with its head behind a record of `n` bytes, in the next segment where this one is too
-- full, and with the slowest reader at `pos`.
abbrev pub behind : QueueWriter → (pos n : ℕ) → QueueWriter
behind w pos n =
    let full = ltb w.segment_size (w.write_offset + n) in
    record w {
      segment_id = if full then w.segment_id + 1 else w.segment_id;
      write_offset = if full then 64 + n else w.write_offset + n;
      min_reader_pos = pos;
    }

next_position_lem :
    (w : QueueWriter) (n : ℕ)
    → next_position (capacity_of w) n ≡ (
      (if ltb w.segment_size (w.write_offset + n) then w.segment_id + 1 else w.segment_id),
      (if ltb w.segment_size (w.write_offset + n) then 64 + n else w.write_offset + n),
    )
unfolding next_position
next_position_lem w n = elim (Bool-cases (ltb w.segment_size (w.write_offset + n))) [
  | inl full ↦ rw full refl
  | inr fits ↦ rw fits refl
]

-- The test for room, with the slowest reader at `pos`.
abbrev pub room_at : QueueWriter → (pos n : ℕ) → Bool
room_at w pos n = Capacity.has_capacity (capacity_of w) pos n

pub room-WithinLimits :
    (w : QueueWriter) (pos n : ℕ) → room_at w pos n ≡ true → WithinLimits (behind w pos n)
room-WithinLimits w pos n room = record {
  bytes = λ max_bytes limit.
      subst (λ p. global_position p.0 w.segment_size p.1 - pos ≤ max_bytes) (next_position_lem w n)
        (bytes_within (capacity_of w) pos n max_bytes limit room);
  segments = λ max_segments limit.
      subst (λ p. p.0 - pos / w.segment_size + 1 ≤ max_segments) (next_position_lem w n)
        (segments_within (capacity_of w) pos n max_segments limit room);
}

bytes_room :
    (w : QueueWriter) (pos n : ℕ)
    → WithinLimits (behind w pos n)
    → bytes_ok (capacity_of w) pos n ≡ true
unfolding bytes_ok head_after global_position next_position
bytes_room w pos n within = elim (Option-cases w.config.max_bytes) [
  | inl e ↦ rw e refl
  | inr (max_bytes, e) ↦ let close = within.bytes max_bytes e in rw e (ground arith)
]

segments_room :
    (w : QueueWriter) (pos n : ℕ)
    → WithinLimits (behind w pos n)
    → segments_ok (capacity_of w) pos n ≡ true
unfolding segments_ok next_position
segments_room w pos n within = elim (Option-cases w.config.max_segments) [
  | inl e ↦ rw e refl
  | inr (max_segments, e) ↦ let close = within.segments max_segments e in rw e (ground arith)
]

pub WithinLimits-room :
    (w : QueueWriter) (pos n : ℕ) → WithinLimits (behind w pos n) → room_at w pos n ≡ true
unfolding Capacity.has_capacity
WithinLimits-room w pos n within = rw (bytes_room w pos n within) (segments_room w pos n within)

-- Without limits there is nothing to exceed.
pub unlimited-WithinLimits :
    (w : QueueWriter) (pos n : ℕ) → is_unlimited w.config ≡ true → WithinLimits (behind w pos n)
unfolding is_unlimited
unlimited-WithinLimits w pos n free = record {
  bytes = λ max_bytes limit. absurd (ground arith);
  segments = λ max_segments limit. absurd (ground arith);
}
