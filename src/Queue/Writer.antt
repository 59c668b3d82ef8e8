-- ===== src/Queue/Writer.antt =====
-- src/core/writer.rs: appending to the queue, rolling to the next segment, back pressure and the
-- seek index. Files reach the disk by calls of the system, which are not modelled.
use chronicle_rs.Base.{
  ℕ, ◌+◌, ◌-◌, ◌%◌, ◌^◌, Bool, true, false, ◌&&◌, ◌||◌, List, [], ◌∷◌, Option, none, some, Result,
  ok, err, io, timed_out, corrupt, payload_too_large, queue_full, guard, ◌>>=◌, ◌>>◌, ltb, leb,
  ◌==◌, not, if◌then◌else◌, length, lookup, insert,
}
use chronicle_rs.Bytes.{Mem}
use chronicle_rs.Header.{max_payload_len, new_uncommitted}
use chronicle_rs.Store.{Dir, seg_data_offset, read_segment_header, seal_segment}
use chronicle_rs.Store.Open.{prepare_or_open_segment}
use chronicle_rs.SeekIndex
use chronicle_rs.SeekIndex.{SeekIndexBuilder, observe, reset, saturating_add}
use chronicle_rs.Capacity
use chronicle_rs.Retention.{RetentionConfig, Sweep, min_live_reader_position}
use chronicle_rs.Writer.{record_len_of, put_payload, put_header, put_commit, take_offset}
use chronicle_rs.Queue.{Queue, mapping, store_mapping, set_segment_index, notify}

pub data BackpressurePolicy : Type 0 where
  fail_fast : BackpressurePolicy
  block : (timeout : Option ℕ) → (poll_interval : ℕ) → BackpressurePolicy

-- The fields that decide something here.
pub record WriterConfig : Type 0 where
  pub segment_size_bytes : ℕ
  pub max_segments : Option ℕ
  pub max_bytes : Option ℕ
  pub backpressure : BackpressurePolicy
  pub index_flush_interval : ℕ
  pub index_flush_records : ℕ
  pub require_prealloc : Bool
  pub retention : RetentionConfig

pub record QueueWriter : Type 0 where
  pub segment_id : ℕ
  pub write_offset : ℕ
  pub seq : ℕ
  pub seek_index : SeekIndexBuilder
  pub index_records_since_flush : ℕ
  pub config : WriterConfig
  pub segment_size : ℕ
  pub min_reader_pos : ℕ
  pub rolls : ℕ
  pub bytes_written : ℕ

-- What a call meets outside the queue: the clock, the readers' metadata files, whether the next
-- segment came from the thread that prepares it within `prealloc_wait`, whether the interval of the
-- index is over, and the positions that the retention thread stores while the call polls: up to the
-- deadline, or, without one, up to a position that gives room.
pub record Outside : Type 0 where
  pub now_ns : ℕ
  pub readers : Option (List (List ℕ))
  pub prepared : Bool
  pub index_due : Bool
  pub positions : List ℕ

unfoldable pub has_capacity : QueueWriter → ℕ → Bool
has_capacity w record_len =
    Capacity.has_capacity
      (record {
        segment_id = w.segment_id;
        write_offset = w.write_offset;
        segment_size = w.segment_size;
        max_bytes = w.config.max_bytes;
        max_segments = w.config.max_segments;
      })
      w.min_reader_pos record_len

-- The rounds of `BackpressurePolicy::Block`.
unfoldable pub poll_capacity : List ℕ → QueueWriter → ℕ → Result QueueWriter
poll_capacity [] w record_len = err queue_full
poll_capacity (position ∷ positions) w record_len =
    let w' = record w { min_reader_pos = position } in
    let rest = poll_capacity positions w' record_len in
    if has_capacity w' record_len then ok w' else rest

unfoldable pub is_unlimited : WriterConfig → Bool
is_unlimited c = elim c.max_segments [
  | some _ ↦ false
  | none ↦ elim c.max_bytes [ some _ ↦ false | none ↦ true ]
]

unfoldable pub sweep_of : Outside → QueueWriter → Sweep
sweep_of o w = record {
  head_segment = w.segment_id;
  head_offset = w.write_offset;
  segment_size = w.segment_size;
  now_ns = o.now_ns;
  config = w.config.retention;
}

-- `acquire_preallocated`: whether a prepared segment is there.
unfoldable pub acquire_preallocated : Outside → QueueWriter → Result Bool
acquire_preallocated o w =
    if o.prepared
    then ok true
    else if w.config.require_prealloc
    then err (io timed_out)
    else ok false

-- The segment that `roll_segment` goes on with.
unfoldable pub next_mapping : Outside → Dir → QueueWriter → ℕ → Result Dir
next_mapping o d w next_segment = do
  prepared ← acquire_preallocated o w
  let checked : Result Dir = (do
    m ← mapping d next_segment
    header ← read_segment_header m
    guard (header.segment_id == next_segment) (corrupt "preallocated segment id mismatch")
    ok d)
  let opened : Result Dir = (do
    (d', m) ← prepare_or_open_segment d next_segment w.segment_size
    ok d')
  if prepared then checked else opened

-- `seek_index.flush` on the file of the builder's segment.
unfoldable pub flush_seek_index : QueueWriter → List (ℕ × List ℕ) → List (ℕ × List ℕ)
flush_seek_index w indexes =
    let id = w.seek_index.segment_id in
    elim (SeekIndex.flush w.seek_index (lookup id indexes)) [
      | none ↦ indexes
      | some file ↦ insert id file indexes
    ]

unfoldable pub roll_segment : Outside → Queue → QueueWriter → Result (Queue × QueueWriter)
roll_segment o q w = do
  let next_segment = (w.segment_id + 1) % 2 ^ 32
  dir ← next_mapping o q.dir w next_segment
  m ← mapping dir w.segment_id
  sealed ← seal_segment m
  ok (
    record {
      dir = store_mapping dir w.segment_id sealed;
      control = notify (set_segment_index q.control next_segment seg_data_offset) o.now_ns;
      indexes = flush_seek_index w q.indexes;
    },
    record w {
      segment_id = next_segment;
      write_offset = seg_data_offset;
      rolls = saturating_add w.rolls 1;
      seek_index = reset w.seek_index next_segment w.segment_size;
      index_records_since_flush = 0;
    },
  )

unfoldable pub flush_index : Queue → QueueWriter → Queue × QueueWriter
flush_index q w = (
  record q { indexes = flush_seek_index w q.indexes },
  record w { index_records_since_flush = 0 },
)

unfoldable pub index_is_due : Outside → QueueWriter → Bool
index_is_due o w =
    (ltb 0 w.config.index_flush_records
      && leb w.config.index_flush_records w.index_records_since_flush)
    || (not (w.config.index_flush_interval == 0) && o.index_due)

unfoldable pub maybe_flush_index : Outside → Queue → QueueWriter → Queue × QueueWriter
maybe_flush_index o q w = if index_is_due o w then flush_index q w else (q, w)

-- Payload, header and commit word, in the code's order.
unfoldable pub put_record : (List ℕ → ℕ) → Mem → ℕ → ℕ → ℕ → ℕ → List ℕ → Result Mem
put_record crc32 m offset seq type_id timestamp_ns payload = do
  with_payload ← put_payload m offset payload
  with_header ←
      put_header with_payload offset (new_uncommitted seq timestamp_ns type_id 0 (crc32 payload))
  put_commit with_header offset (length payload)

-- The writer's fields after a record.
unfoldable pub count_record : QueueWriter → ℕ → ℕ → ℕ → QueueWriter
count_record w timestamp_ns record_len write_offset = record w {
  seek_index = observe w.seek_index w.seq timestamp_ns w.write_offset;
  index_records_since_flush = saturating_add w.index_records_since_flush 1;
  seq = (w.seq + 1) % 2 ^ 64;
  write_offset = write_offset;
  bytes_written = saturating_add w.bytes_written record_len;
}

module _ (crc32 : List ℕ → ℕ) where
  -- The round of `BackpressurePolicy::FailFast`.
  unfoldable pub refresh_capacity : Outside → QueueWriter → ℕ → Result QueueWriter
  refresh_capacity o w record_len = elim (min_live_reader_position crc32 (sweep_of o w) o.readers) [
    | err _ ↦ err queue_full
    | ok position ↦
        let w' = record w { min_reader_pos = position } in
        if has_capacity w' record_len then ok w' else err queue_full
  ]

  unfoldable pub ensure_capacity : Outside → QueueWriter → ℕ → Result QueueWriter
  ensure_capacity o w record_len =
      if is_unlimited w.config
      then ok w
      else if has_capacity w record_len
      then ok w
      else elim w.config.backpressure [
        | fail_fast ↦ refresh_capacity o w record_len
        | block timeout poll_interval ↦ poll_capacity o.positions w record_len
      ]

  -- The end of an append, with room for the record in the segment. Waking waiters and the signal to
  -- the retention thread change nothing here.
  unfoldable pub append_record :
      Outside → Queue → QueueWriter → ℕ → List ℕ → ℕ → Result (Queue × QueueWriter)
  append_record o q w type_id payload timestamp_ns = do
    let record_len = record_len_of (length payload)
    m ← mapping q.dir w.segment_id
    m' ← put_record crc32 m w.write_offset w.seq type_id timestamp_ns payload
    write_offset ← take_offset w.write_offset record_len
    ok (
        maybe_flush_index o
          (record q {
            dir = store_mapping q.dir w.segment_id m';
            control = notify (record q.control { write_offset = write_offset }) o.now_ns;
          })
          (count_record w timestamp_ns record_len write_offset))

  -- `append_in_place_with_timestamp` with the closure that copies `payload`.
  unfoldable pub append_with_timestamp :
      Outside → Queue → QueueWriter → ℕ → List ℕ → ℕ → Result (Queue × QueueWriter)
  append_with_timestamp o q w type_id payload timestamp_ns = do
    guard (leb (length payload) max_payload_len) payload_too_large
    let record_len = record_len_of (length payload)
    guard (leb record_len (w.segment_size - seg_data_offset)) payload_too_large
    w1 ← ensure_capacity o w record_len
    let full = ltb w1.segment_size (w1.write_offset + record_len)
    (q2, w2) ← if full then roll_segment o q w1 else ok (q, w1)
    append_record o q2 w2 type_id payload timestamp_ns
