-- ===== src/Queue/Limits/Tests.antt =====
-- An example of a refusal: a reader at the first record of a segment that is too full for another,
-- and a limit of 192 bytes.
use chronicle_rs.Base.{
  ℕ, ◌≡◌, ◌⊎◌, ◌≤◌, ◌-◌, refl, List, [], ◌∷◌, ok, err, some, queue_full, false, arith,
}
use mathlib.Core.Logic.{◌↔◌}
use chronicle_rs.Bytes.{from_le}
use chronicle_rs.Control.{zeroed}
use chronicle_rs.Samples.{byte_sum}
use chronicle_rs.SeekIndex
use chronicle_rs.Header.{align_up}
use chronicle_rs.Writer.{record_len_of}
use chronicle_rs.Reader.{load_reader_meta}
use chronicle_rs.Retention.{
  default_config, is_live, is_expired, is_lagging, head_position, reader_position, global_position,
  min_live, min_live_reader_position, lower, unwrap_or,
}
use chronicle_rs.Queue.{Queue}
use chronicle_rs.Queue.Writer.{QueueWriter, Outside, fail_fast, sweep_of, append_with_timestamp}
use chronicle_rs.Queue.Limits.{WithinLimits}
use chronicle_rs.Queue.Limits.Room.{behind}
use chronicle_rs.Queue.Limits.Refused.{append-queue_full}

-- A reader's file of the 16-byte format: segment 0, offset 64.
abbrev reader_file : List ℕ
reader_file = 0 ∷ 0 ∷ 0 ∷ 0 ∷ 0 ∷ 0 ∷ 0 ∷ 0 ∷ 64 ∷ 0 ∷ 0 ∷ 0 ∷ 0 ∷ 0 ∷ 0 ∷ 0 ∷ []

abbrev around : Outside
around = record {
  now_ns = 1000;
  readers = some (reader_file ∷ []);
  prepared = false;
  index_due = false;
  positions = [];
}

abbrev full_writer : QueueWriter
full_writer = record {
  segment_id = 0;
  write_offset = 192;
  seq = 1;
  seek_index = SeekIndex.new 0 256 64 4096;
  index_records_since_flush = 0;
  config = record {
    segment_size_bytes = 256;
    max_segments = some 2;
    max_bytes = some 192;
    backpressure = fail_fast;
    index_flush_interval = 0;
    index_flush_records = 0;
    require_prealloc = false;
    retention = default_config;
  };
  segment_size = 256;
  min_reader_pos = 0;
  rolls = 0;
  bytes_written = 128;
}

abbrev queue : Queue
queue = record { dir = record { files = []; temps = [] }; control = zeroed; indexes = [] }

abbrev payload : List ℕ
payload = 1 ∷ 2 ∷ 3 ∷ []

fits : record_len_of 3 ≤ 256 - 64
unfolding record_len_of align_up
fits = omega arith

slowest : min_live_reader_position byte_sum (sweep_of around full_writer) around.readers ≡ ok 64
unfolding min_live_reader_position min_live lower unwrap_or load_reader_meta from_le is_live
    is_expired is_lagging head_position reader_position global_position sweep_of
slowest = refl

append-queue_full_example :
    (append_with_timestamp byte_sum around queue full_writer 7 payload 1000 ≡ err queue_full) ↔ (
      ¬ (
        WithinLimits (behind full_writer 0 (record_len_of 3))
        ⊎ WithinLimits (behind full_writer 64 (record_len_of 3))))
append-queue_full_example =
    append-queue_full byte_sum around queue full_writer 7 payload 1000 64 refl (ground arith) fits
      slowest
