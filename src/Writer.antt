-- ===== src/Writer.antt =====
-- src/core/segment_writer.rs: the writer of one segment at a time. `dir` is the directory that the
-- path names, `mmap` the open temporary segment. A release build: `debug_assert!` does nothing.
-- The state after an error is the one before the call.
pub mod Append
use Prim.Native.Nat.{bit_and}
use chronicle_rs.Base.{
  ℕ, ◌+◌, ◌-◌, ◌%◌, ◌^◌, Bool, true, false, List, [], ◌∷◌, Option, none, some, Result, ok, err,
  corrupt, payload_too_large, guard, ◌>>=◌, ◌>>◌, ltb, leb, ◌==◌, not, if◌then◌else◌, length,
  remove,
}
use chronicle_rs.Bytes.{Mem, write_range}
use chronicle_rs.Header.{
  header_size, record_align, max_payload_len, new_uncommitted, to_bytes, commit_len_for_payload,
  store_commit_len, align_up, MessageHeader,
}
use chronicle_rs.Store.{Dir, seg_data_offset, prepare_segment_temp, publish_segment, seal_segment}

pub record SegmentWriter : Type 0 where
  pub dir : Dir
  pub segment_id : ℕ
  pub segment_size : ℕ
  pub write_offset : ℕ
  pub seq : ℕ
  pub mmap : Option Mem
  pub segments_published : ℕ
  pub has_records : Bool

unfoldable pub new : Dir → ℕ → ℕ → SegmentWriter
new dir segment_id segment_size = record {
  dir = dir;
  segment_id = segment_id;
  segment_size = segment_size;
  write_offset = seg_data_offset;
  seq = 0;
  mmap = none;
  segments_published = 0;
  has_records = false;
}

unfoldable pub needs_roll : SegmentWriter → ℕ → Bool
needs_roll w record_len = ltb w.segment_size (w.write_offset + record_len)

unfoldable pub ensure_segment : SegmentWriter → Result SegmentWriter
ensure_segment w = elim w.mmap [
  | some m ↦ ok w
  | none ↦ do
    (dir, m) ← prepare_segment_temp w.dir w.segment_id w.segment_size
    ok (record w { dir = dir; write_offset = seg_data_offset; has_records = false; mmap = some m })
]

-- The record's length in the file.
unfoldable pub record_len_of : ℕ → ℕ
record_len_of payload_len = align_up (header_size + payload_len) record_align

-- The three writes of a record, in the code's order: payload, uncommitted header, commit word.
unfoldable pub put_payload : Mem → ℕ → List ℕ → Result Mem
put_payload m offset payload =
    if ltb 0 (length payload) then write_range m (offset + header_size) payload else ok m

unfoldable pub put_header : Mem → ℕ → MessageHeader → Result Mem
put_header m offset header = write_range m offset (to_bytes header)

unfoldable pub put_commit : Mem → ℕ → ℕ → Result Mem
put_commit m offset payload_len = do
  commit_len ← commit_len_for_payload payload_len
  ok (store_commit_len m offset commit_len)

unfoldable pub opened : SegmentWriter → Result Mem
opened w = elim w.mmap [ none ↦ err (corrupt "segment mmap missing") | some m ↦ ok m ]

unfoldable pub take_offset : ℕ → ℕ → Result ℕ
take_offset write_offset record_len =
    if ltb (write_offset + record_len) (2 ^ 64)
    then ok (write_offset + record_len)
    else err (corrupt "write offset overflow")

unfoldable pub seal_and_publish_current : SegmentWriter → Result SegmentWriter
seal_and_publish_current w = elim w.mmap [
  | none ↦ ok w
  | some m ↦ do
    sealed ← seal_segment m
    dir ← publish_segment w.dir w.segment_id sealed
    ok (record w { dir = dir; mmap = none; segments_published = w.segments_published + 1 })
]

-- `mmap.take()`, then the temporary file is removed.
unfoldable pub discard_empty : SegmentWriter → SegmentWriter
discard_empty w = elim w.mmap [
  | none ↦ w
  | some _ ↦ record w {
    dir = record { files = w.dir.files; temps = remove w.segment_id w.dir.temps };
    mmap = none;
  }
]

unfoldable pub roll : SegmentWriter → Result SegmentWriter
roll w = do
  w' ← if w.has_records then seal_and_publish_current w else ok (discard_empty w)
  ok (record w' {
    segment_id = w'.segment_id + 1;
    write_offset = seg_data_offset;
    has_records = false;
    mmap = none;
  })

unfoldable pub finish : SegmentWriter → Result SegmentWriter
finish w = if w.has_records then seal_and_publish_current w else ok (discard_empty w)

module _ (crc32 : List ℕ → ℕ) where
  unfoldable pub append : SegmentWriter → ℕ → ℕ → List ℕ → Result SegmentWriter
  append w type_id timestamp_ns payload = do
    let payload_len = length payload
    guard (leb payload_len max_payload_len) payload_too_large
    let record_len = record_len_of payload_len
    guard (leb record_len (w.segment_size - seg_data_offset)) payload_too_large
    w' ← ensure_segment w
    let offset = w'.write_offset
    m ← opened w'
    with_payload ← put_payload m offset payload
    let header = new_uncommitted w'.seq timestamp_ns type_id 0 (crc32 payload)
    with_header ← put_header with_payload offset header
    committed ← put_commit with_header offset payload_len
    write_offset ← take_offset offset record_len
    ok (record w' {
      mmap = some committed;
      seq = (w'.seq + 1) % 2 ^ 64;
      write_offset = write_offset;
      has_records = true;
    })
