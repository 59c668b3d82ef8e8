-- ===== src/Queue/Open.antt =====
-- `open_publisher_with_clock` of src/core/writer.rs: opening the queue for writing, with the
-- recovery of what a writer that is gone has left. The lock is held; threads and locks on memory
-- are outside. `none` is a scan out of fuel, as in the tail's own modules.
use Prim.Native.Nat.{bit_and}
use chronicle_rs.Base.{
  ℕ, ◌+◌, ◌-◌, ◌*◌, ◌%◌, ◌^◌, max, Bool, List, Option, none, some, Result, ok, err, ltb, ◌==◌, not,
  if◌then◌else◌, lookup,
}
use chronicle_rs.Bytes.{Mem}
use chronicle_rs.Store.{
  Dir, SegmentHeader, seg_data_offset, read_segment_header, open_segment, validate_segment_size,
}
use chronicle_rs.Store.Open.{prepare_segment}
use chronicle_rs.SeekIndex
use chronicle_rs.SeekIndex.{SeekIndexBuilder, mark_partial}
use chronicle_rs.Control.{ControlBlock, create}
use chronicle_rs.Reader.{SegmentIndex, load_index}
use chronicle_rs.Retention.{Sweep, min_live_reader_position}
use chronicle_rs.Tail.{scan_segment_tail, repair_unsealed_tail}
use chronicle_rs.Queue.{Queue, store_mapping, set_segment_index, wait_ready}
use chronicle_rs.Queue.Writer.{QueueWriter, WriterConfig, Outside}

-- The directory of the queue before it is opened.
pub record Stored : Type 0 where
  pub dir : Dir
  pub control : Option ControlBlock
  pub indexes : List (ℕ × List ℕ)
  pub index_file : Option (List ℕ)

abbrev pub default_index_stride_records : ℕ
default_index_stride_records = 4096

-- The steps of an opening: a failure, or a scan out of fuel, ends it.
infixl 5 ◌>>=◌
abbrev pub ◌>>=◌ {ℓ κ} :
    {X : Type ℓ} {Y : Type κ} → Option (Result X) → (X → Option (Result Y)) → Option (Result Y)
none >>= next = none
some (err failure) >>= next = some (err failure)
some (ok x) >>= next = next x

unfoldable pub is_sealed : SegmentHeader → Bool
is_sealed header = not (bit_and header.flags 1 == 0)

-- The control block that is there, or a new one, and the size of the segments.
unfoldable pub open_control : Option ControlBlock → ℕ → Option (Result (ControlBlock × ℕ))
open_control (some control) segment_size_bytes = do
  ready ← some (wait_ready control)
  segment_size ← some (validate_segment_size control.segment_size)
  some (ok (control, segment_size))
open_control none segment_size_bytes = do
  segment_size ← some (validate_segment_size segment_size_bytes)
  some (ok (create 0 seg_data_offset 0 segment_size_bytes, segment_size))

unfoldable pub next_epoch : ControlBlock → ℕ
next_epoch control = max ((control.writer_epoch + 1) % 2 ^ 64) 1

-- The segment before the control block's: repaired if it is there and not sealed.
unfoldable pub repair_previous : Dir → ℕ → ℕ → Option (Result Dir)
repair_previous d prev_segment segment_size = elim (lookup prev_segment d.files) [
  | none ↦ some (ok d)
  | some _ ↦ do
    mmap ← some (open_segment d prev_segment segment_size)
    header ← some (read_segment_header mmap)
    let repaired : Option (Result Dir) = (do
      mmap' ← repair_unsealed_tail mmap segment_size
      some (ok (store_mapping d prev_segment mmap')))
    if is_sealed header then some (ok d) else repaired
]

-- The directory, and the segment and offset that the scan begins with.
unfoldable pub resume : Dir → ControlBlock → SegmentIndex → ℕ → Option (Result (Dir × ℕ × ℕ))
resume d control index segment_size =
    let segment_id = index.current_segment % 2 ^ 32 in
    let caught_up : Option (Result (Dir × ℕ × ℕ)) = (do
      d' ← repair_previous d (control.current_segment - 1) segment_size
      some (ok (d', control.current_segment, control.write_offset))) in
    if ltb segment_id control.current_segment
    then caught_up
    else some (ok (d, segment_id, index.write_offset))

unfoldable pub open_or_prepare : Dir → ℕ → ℕ → Option (Result (Dir × Mem))
open_or_prepare d segment_id segment_size = elim (lookup segment_id d.files) [
  | some _ ↦ do mmap ← some (open_segment d segment_id segment_size); some (ok (d, mmap))
  | none ↦ some (prepare_segment d segment_id segment_size)
]

unfoldable pub repair_tail_and_roll : Dir → Mem → ℕ → ℕ → Option (Result (Dir × ℕ))
repair_tail_and_roll d mmap segment_id segment_size = do
  header ← some (read_segment_header mmap)
  let next_segment = (segment_id + 1) % 2 ^ 32
  let prepared : Option (Result (Dir × ℕ)) = (do
    (d', _) ← some (prepare_segment d next_segment segment_size)
    some (ok (d', next_segment)))
  let repaired : Option (Result (Dir × ℕ)) = (do
    mmap' ← repair_unsealed_tail mmap segment_size
    (d', _) ← some (prepare_segment (store_mapping d segment_id mmap') next_segment segment_size)
    some (ok (d', next_segment)))
  if is_sealed header then prepared else repaired

-- A sealed segment is left for the next one.
unfoldable pub skip_sealed : Dir → Mem → ℕ → ℕ → ℕ → Option (Result (Dir × ℕ × ℕ))
skip_sealed d mmap segment_id write_offset segment_size = do
  header ← some (read_segment_header mmap)
  let next_segment_id = (segment_id + 1) % 2 ^ 32
  let skipped : Option (Result (Dir × ℕ × ℕ)) = (do
    (d', _) ← open_or_prepare d next_segment_id segment_size
    some (ok (d', next_segment_id, seg_data_offset)))
  if is_sealed header then skipped else some (ok (d, segment_id, write_offset))

-- Where the writer goes on.
unfoldable pub recover : Dir → ControlBlock → SegmentIndex → ℕ → Option (Result (Dir × ℕ × ℕ))
recover dir control index segment_size = do
  (d, segment_id, scan_offset) ← resume dir control index segment_size
  (d', mmap) ← open_or_prepare d segment_id segment_size
  let scan : Option (Result (ℕ × Bool)) = (elim (scan_segment_tail mmap scan_offset segment_size) [
    | none ↦ none
    | some found ↦ some (ok found)
  ])
  (tail_offset, tail_partial) ← scan
  let rolled : Option (Result (Dir × ℕ × ℕ)) = (do
    (rolled_dir, next_segment) ← repair_tail_and_roll d' mmap segment_id segment_size
    mmap' ← some (open_segment rolled_dir next_segment segment_size)
    header ← some (read_segment_header mmap')
    some (ok (rolled_dir, next_segment, seg_data_offset)))
  if tail_partial then rolled else skip_sealed d' mmap segment_id tail_offset segment_size

unfoldable pub new_seek_index : ℕ → ℕ → ℕ → SeekIndexBuilder
new_seek_index segment_id segment_size write_offset =
    let builder =
      SeekIndex.new segment_id segment_size seg_data_offset default_index_stride_records in
    if ltb seg_data_offset write_offset then mark_partial builder else builder

unfoldable pub unwrap_or : Result ℕ → ℕ → ℕ
unwrap_or (ok x) other = x
unwrap_or (err _) other = other

module _ (crc32 : List ℕ → ℕ) where
  unfoldable pub new_writer : Outside → WriterConfig → ℕ → ℕ → ℕ → QueueWriter
  new_writer o config segment_size segment_id write_offset =
      let sweep : Sweep = record {
        head_segment = segment_id;
        head_offset = write_offset;
        segment_size = segment_size;
        now_ns = o.now_ns;
        config = config.retention;
      } in
      let head_global = segment_id * segment_size + write_offset in
      record {
        segment_id = segment_id;
        write_offset = write_offset;
        seq = 0;
        seek_index = new_seek_index segment_id segment_size write_offset;
        index_records_since_flush = 0;
        config = config;
        segment_size = segment_size;
        min_reader_pos = unwrap_or (min_live_reader_position crc32 sweep o.readers) head_global;
        rolls = 0;
        bytes_written = 0;
      }

  unfoldable pub open_publisher :
      Outside → Stored → WriterConfig → Option (Result (Queue × QueueWriter))
  open_publisher o stored config = do
    (control, segment_size) ← open_control stored.control config.segment_size_bytes
    let begun = record control { writer_epoch = next_epoch control; writer_heartbeat_ns = o.now_ns }
    index ← some (load_index stored.index_file)
    (dir, segment_id, write_offset) ← recover stored.dir begun index segment_size
    some (
        ok (
          record {
            dir = dir;
            control = set_segment_index begun segment_id write_offset;
            indexes = stored.indexes;
          },
          new_writer o config segment_size segment_id write_offset,
        ))
