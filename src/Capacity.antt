-- ===== src/Capacity.antt =====
-- `has_capacity` of src/core/writer.rs: the back pressure of the queue's writer.
-- `min_reader_pos` is the position of the slowest reader that counts, as the retention gives it.
mod Tests
use chronicle_rs.Base.{
  ℕ, ◌+◌, ◌-◌, ◌*◌, ◌/◌, ◌^◌, min, Option, none, some, Bool, true, ◌&&◌, ltb, leb, if◌then◌else◌,
}
use chronicle_rs.Store.{seg_data_offset}

-- The fields of the writer and of its configuration that the test reads.
pub record QueueWriter : Type 0 where
  pub segment_id : ℕ
  pub write_offset : ℕ
  pub segment_size : ℕ
  pub max_bytes : Option ℕ
  pub max_segments : Option ℕ

-- The segment and the offset behind the record.
unfoldable pub next_position : QueueWriter → ℕ → ℕ × ℕ
next_position w record_len =
    if ltb w.segment_size (w.write_offset + record_len)
    then (w.segment_id + 1, seg_data_offset + record_len)
    else (w.segment_id, w.write_offset + record_len)

unfoldable pub head_after : QueueWriter → ℕ → ℕ
head_after w record_len =
    let (next_segment, next_offset) = next_position w record_len in
    min (min (next_segment * w.segment_size) (2 ^ 64 - 1) + next_offset) (2 ^ 64 - 1)

unfoldable pub bytes_ok : QueueWriter → ℕ → ℕ → Bool
bytes_ok w min_reader_pos record_len = elim w.max_bytes [
  | some max_bytes ↦ leb (head_after w record_len - min_reader_pos) max_bytes
  | none ↦ true
]

unfoldable pub segments_ok : QueueWriter → ℕ → ℕ → Bool
segments_ok w min_reader_pos record_len = elim w.max_segments [
  | some max_segments ↦
      leb ((next_position w record_len).0 - min_reader_pos / w.segment_size + 1) max_segments
  | none ↦ true
]

unfoldable pub has_capacity : QueueWriter → ℕ → ℕ → Bool
has_capacity w min_reader_pos record_len =
    bytes_ok w min_reader_pos record_len && segments_ok w min_reader_pos record_len
