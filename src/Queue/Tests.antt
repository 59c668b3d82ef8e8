-- ===== src/Queue/Tests.antt =====
-- Examples of the live queue: segments of 256 bytes, which have room for two small records.
use chronicle_rs.Base.{
  lookup, ◌≡◌, ◌≢◌, refl, List, [], ◌∷◌, none, some, Result, ok, err, true, false, arith,
}
use chronicle_rs.Samples.{byte_sum, byte_sum-lt, order, trade, order-Fits, trade-Fits}
use chronicle_rs.SeekIndex.{SeekIndexEntry}
use chronicle_rs.Retention.{default_config}
use chronicle_rs.Log.Replay.Whole.{view}
use chronicle_rs.Queue.Writer
use chronicle_rs.Queue.Writer.{
  QueueWriter, WriterConfig, fail_fast, is_unlimited, append_with_timestamp, ensure_capacity,
  has_capacity, append_record, put_record,
}
use chronicle_rs.Queue.Limits.{WithinLimits}
use chronicle_rs.Queue.Limits.Append.{append-WithinLimits}
use chronicle_rs.Queue.{Queue, mapping}
use chronicle_rs.SeekIndex
use chronicle_rs.Control.{zeroed}
use chronicle_rs.Capacity
use chronicle_rs.Capacity.{bytes_ok, segments_ok, head_after, next_position}
use chronicle_rs.Writer.{put_payload, put_header, put_commit, take_offset, record_len_of}
use chronicle_rs.Header.{
  align_up, commit_len_for_payload, store_commit_len, to_bytes, new_uncommitted,
}
use chronicle_rs.Bytes.{zeros, write, write_range, le_bytes}
use chronicle_rs.Queue.Reader
use chronicle_rs.Queue.Open.{open_publisher}
use chronicle_rs.Queue.Subscribe.{open_subscriber, resume_strict}
use chronicle_rs.Queue.Fifo.{Call, send, receive, save, prepare, System, fifo, run}
use chronicle_rs.Queue.First.{nothing_stored}
use chronicle_rs.Queue.Start.{open-fifo}
use chronicle_rs.Queue.Seek.{find_entry_by_seq, scan_entries}
use chronicle_rs.Queue.Seek.Search.{find_entry_by_seq-scan}

abbrev small_config : WriterConfig
small_config = record {
  segment_size_bytes = 256;
  max_segments = none;
  max_bytes = none;
  backpressure = fail_fast;
  index_flush_interval = 0;
  index_flush_records = 1;
  require_prealloc = false;
  retention = default_config;
}

abbrev at_writer : Writer.Outside
at_writer = record {
  now_ns = 5;
  readers = none;
  prepared = false;
  index_due = false;
  positions = [];
}

abbrev at_reader : Reader.Outside
at_reader = record { now_ns = 7; lock_alive = true }

-- The third record does not fit the first segment.
abbrev some_calls : List Call
some_calls =
    send at_writer order
    ∷ receive at_reader
    ∷ prepare 1
    ∷ send at_writer trade
    ∷ send at_writer order
    ∷ receive at_reader
    ∷ save at_reader
    ∷ receive at_reader
    ∷ receive at_reader
    ∷ []

some_calls-fifo :
    fifo 0 [] some_calls
    ≡ some (view 0 order) ∷ some (view 1 trade) ∷ some (view 2 order) ∷ none ∷ []
unfolding fifo
some_calls-fifo = refl

order_plain : order.type_id ≢ 0xFFFF
order_plain = omega arith

trade_plain : trade.type_id ≢ 0xFFFF
trade_plain = omega arith

unlimited : is_unlimited small_config ≡ true
unfolding is_unlimited
unlimited = refl

open-fifo_example :
    (y : System) × (open_publisher byte_sum at_writer nothing_stored small_config
      ≡ some (ok (y.queue, y.writer)))
    × (open_subscriber byte_sum at_reader y.queue (114 ∷ []) none resume_strict ≡ ok y.reader)
    × (run byte_sum some_calls y ≡ some (ok (fifo 0 [] some_calls)))
open-fifo_example =
    open-fifo byte_sum at_writer at_reader small_config 114 [] resume_strict some_calls
      (omega arith) (omega arith) unlimited refl byte_sum-lt (omega arith)
      ((order-Fits, order_plain), ((trade-Fits, trade_plain), ((order-Fits, order_plain), tt)))

abbrev three_entries : List SeekIndexEntry
three_entries =
    record { seq = 0; timestamp_ns = 10; offset = 64 }
    ∷ record { seq = 5; timestamp_ns = 20; offset = 192 }
    ∷ record { seq = 9; timestamp_ns = 30; offset = 320 }
    ∷ []

find_entry_by_seq-scan_example :
    find_entry_by_seq three_entries 7 ≡ scan_entries (λ e. e.seq) none three_entries 7
find_entry_by_seq-scan_example = find_entry_by_seq-scan three_entries 7 (omega arith)

-- A queue with limits: 128 of its 192 bytes ahead of the reader are used by the record.
abbrev limited_writer : QueueWriter
limited_writer = record {
  segment_id = 0;
  write_offset = 64;
  seq = 0;
  seek_index = SeekIndex.new 0 256 64 4096;
  index_records_since_flush = 0;
  config = record small_config {
    max_bytes = some 192;
    max_segments = some 2;
    index_flush_records = 0;
  };
  segment_size = 256;
  min_reader_pos = 64;
  rolls = 0;
  bytes_written = 0;
}

abbrev blank_queue : Queue
blank_queue = record {
  dir = record { files = (0, zeros 256) ∷ []; temps = [] };
  control = zeroed;
  indexes = [];
}

abbrev after_append : Result (Queue × QueueWriter) → Queue × QueueWriter
after_append (ok after) = after
after_append (err failure) = (blank_queue, limited_writer)

abbrev limited_append : Result (Queue × QueueWriter)
limited_append =
    append_with_timestamp byte_sum at_writer blank_queue limited_writer 7 (1 ∷ 2 ∷ 3 ∷ []) 1000

limited_append-ok : limited_append ≡ ok (after_append limited_append)
unfolding append_with_timestamp ensure_capacity is_unlimited has_capacity Capacity.has_capacity
    bytes_ok segments_ok head_after next_position append_record mapping lookup put_record
    put_payload put_header put_commit take_offset record_len_of write_range align_up
    commit_len_for_payload store_commit_len to_bytes write le_bytes new_uncommitted
limited_append-ok = refl

append-WithinLimits_example : WithinLimits (after_append limited_append).1
append-WithinLimits_example =
    append-WithinLimits byte_sum at_writer blank_queue (after_append limited_append).0
      limited_writer (after_append limited_append).1 7 (1 ∷ 2 ∷ 3 ∷ []) 1000 (omega arith)
      limited_append-ok
