-- ===== src/Log.antt =====
-- src/core/log.rs: the append-only log over segments, its writer and its reader.
pub mod Laid
pub mod Session
pub mod Replay
pub mod Directory
pub mod RoundTrip
mod Tests
use chronicle_rs.Base.{
  ℕ, zero, suc, ◌+◌, ◌-◌, Bool, true, false, List, [], ◌∷◌, Option, none, some, Result, ok, err, io,
  not_found, corrupt, payload_too_large, guard, ◌>>=◌, ◌>>◌, ltb, leb, ◌==◌, if◌then◌else◌, length,
  lookup,
}
use chronicle_rs.Bytes.{Mem}
use chronicle_rs.Header.{max_payload_len}
use chronicle_rs.Store.{
  Dir, default_segment_size, seg_data_offset, discover_segments, next_segment_id,
  validate_segment_size,
}
use chronicle_rs.Writer
use chronicle_rs.Writer.{SegmentWriter, needs_roll, roll, record_len_of}
use chronicle_rs.Cursor.{SegmentCursor, MessageRef, open_cursor, next_header, read_payload}
use chronicle_rs.Cursor

pub record LogWriter : Type 0 where
  pub writer : SegmentWriter
  pub segment_size : ℕ

unfoldable pub open_writer : Dir → ℕ → Result LogWriter
open_writer dir segment_size = do
  size ← if segment_size == 0 then ok default_segment_size else validate_segment_size segment_size
  ok (record { writer = Writer.new dir (next_segment_id dir) size; segment_size = size })

pub record LogReader : Type 0 where
  pub cursor : SegmentCursor

-- The size of the first segment's file.
unfoldable pub size_of_first : Dir → List ℕ → Result ℕ
size_of_first dir [] = ok default_segment_size
size_of_first dir (id ∷ ids) = elim (lookup id dir.files) [
  | none ↦ err (io not_found)
  | some m ↦ ok (length m)
]

-- `open` of a directory that exists.
unfoldable pub open_reader : Dir → Result LogReader
unfolding size_of_first
open_reader dir = do
  let segments = discover_segments dir
  segment_size ← size_of_first dir segments
  ok (record { cursor = open_cursor dir segments segment_size })

pub record MessageView : Type 0 where
  pub seq : ℕ
  pub timestamp_ns : ℕ
  pub type_id : ℕ
  pub payload : List ℕ

unfoldable pub seek_segment : LogReader → ℕ → Result LogReader
seek_segment r segment_id = do
  cursor ← Cursor.seek_segment r.cursor segment_id seg_data_offset
  ok (record { cursor = cursor })

module _ (crc32 : List ℕ → ℕ) where
  unfoldable pub append : LogWriter → ℕ → ℕ → List ℕ → Result LogWriter
  append l type_id timestamp_ns payload = do
    let payload_len = length payload
    guard (leb payload_len max_payload_len) payload_too_large
    let record_len = record_len_of payload_len
    guard (leb record_len (l.segment_size - seg_data_offset)) payload_too_large
    writer ← if needs_roll l.writer record_len then roll l.writer else ok l.writer
    writer' ← Writer.append crc32 writer type_id timestamp_ns payload
    ok (record l { writer = writer' })

  unfoldable pub finish : LogWriter → Result LogWriter
  finish l = do writer ← Writer.finish l.writer; ok (record l { writer = writer })

  -- `none` is the cursor's loop out of fuel.
  unfoldable pub next : LogReader → Option (Result (Option MessageView × LogReader))
  next r = elim (next_header r.cursor) [
    | none ↦ none
    | some (err e) ↦ some (err e)
    | some (ok (none, cursor)) ↦ some (ok (none, record { cursor = cursor }))
    | some (ok (some ref, cursor)) ↦ some (do
      payload ← read_payload cursor ref.payload_offset ref.payload_len
      guard (ref.checksum == crc32 payload) (corrupt "checksum mismatch")
      ok (
        some (record {
          seq = ref.seq;
          timestamp_ns = ref.timestamp_ns;
          type_id = ref.type_id;
          payload = payload;
        }),
        record { cursor = cursor },
      ))
  ]
