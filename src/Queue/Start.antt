-- ===== src/Queue/Start.antt =====
-- A queue that is opened where there was none is running, with nothing before the reader.
use chronicle_rs.Base.{
  ℕ, zero, ◌^◌, ◌≤◌, ◌<◌, ◌≡◌, refl, sym, subst, List, [], ◌∷◌, ok, some, none, true, false, inl,
  length, arith, lookup,
}
use chronicle_rs.Store.Prepare.{fresh_segment, fresh_segment-IsFresh}
use chronicle_rs.Control.{create, create_stores, after_stores, bump}
use chronicle_rs.Queue.{set_segment_index, wait_ready}
use chronicle_rs.Queue.Writer.{WriterConfig, Outside, is_unlimited}
use chronicle_rs.Queue.Reader
use chronicle_rs.Queue.Reader.{QueueReader}
use chronicle_rs.Queue.Open.{open_publisher, new_writer}
use chronicle_rs.Queue.Subscribe.{StartMode, open_subscriber}
use chronicle_rs.Queue.Ahead.{HasRecords, fresh-HasRecords}
use chronicle_rs.Queue.Running.{IsRunning}
use chronicle_rs.Queue.Fifo.{Call, System, Good, fifo, run, run-fifo}
use chronicle_rs.Queue.First.{
  nothing_stored, first_files, first_queue, first_files_other, open_publisher_first,
  build_reader_first,
}

module _ (crc32 : List ℕ → ℕ) where
  -- What the two openings give is a running queue with nothing before the reader.
  opened-IsRunning :
      (o : Outside) (config : WriterConfig) (r : QueueReader) (size : ℕ)
      → 128 ≤ size
      → is_unlimited config ≡ true
      → config.require_prealloc ≡ false
      → r.segment_id ≡ 0
      → r.read_offset ≡ 64
      → r.segment_size ≡ size
      → IsRunning crc32 size (first_queue o size) (new_writer crc32 o config size 0 64) r 0 []
  unfolding new_writer set_segment_index bump lookup
  opened-IsRunning o config r size long free no_need id off same =
      let f = fresh_segment-IsFresh 0 size (omega arith) in
      record {
        k = zero;
        ahead = (
          id,
          subst (λ a. HasRecords crc32 size (first_files size) a r.read_offset 0 [] 64) (sym id)
              (subst (λ a. HasRecords crc32 size (first_files size) 0 a 0 [] 64) (sym off)
                (fresh-HasRecords crc32 size (first_files size) 0 0 (fresh_segment 0 size) refl
                  (omega arith) f)),
        );
        writer_size = refl;
        reader_size = same;
        number = refl;
        current = refl;
        unlimited = free;
        no_prealloc_needed = no_need;
        spare = λ i above. inl (first_files_other size i above);
      }

  -- The configuration sets no limit on bytes or segments, does not require prepared segments
  -- (`require_prealloc` is false, so that a roll makes the segment itself where none is prepared),
  -- and has segments of at least 128 and fewer than 2^63 bytes. A writer with it and a reader, in
  -- any start mode, that open an empty directory succeed, and from then on the queue is first in,
  -- first out: for every sequence of appends of messages that fit a segment and are not marked as
  -- padding, receives, commits of the reader's position and rounds of the thread that prepares
  -- segments, every call succeeds, and the receives give exactly the appended messages in order,
  -- numbered from 0, and nothing where the reader has caught up. There are fewer than 2^32 calls,
  -- and the checksum has 32 bits.
  pub open-fifo :
      (o : Outside) (ro : Reader.Outside) (config : WriterConfig) (b : ℕ) (reader : List ℕ)
      (mode : StartMode) (calls : List Call)
      → 128 ≤ config.segment_size_bytes
      → config.segment_size_bytes < 2 ^ 63
      → is_unlimited config ≡ true
      → config.require_prealloc ≡ false
      → ((bytes : List ℕ) → crc32 bytes < 2 ^ 32)
      → length calls < 2 ^ 32
      → Good config.segment_size_bytes calls
      → (y : System) × (open_publisher crc32 o nothing_stored config
          ≡ some (ok (y.queue, y.writer)))
        × (open_subscriber crc32 ro y.queue (b ∷ reader) none mode ≡ ok y.reader)
        × (run crc32 calls y ≡ some (ok (fifo 0 [] calls)))
  unfolding open_subscriber wait_ready create create_stores after_stores new_writer
      set_segment_index bump
  open-fifo o ro config b reader mode calls long small free no_need sum few good =
      let size : ℕ = config.segment_size_bytes in
      let (r, built, id, off, same) =
        build_reader_first crc32 ro (first_queue o size) b reader mode size long refl refl refl
          refl in
      let y : System = record {
        queue = first_queue o size;
        writer = new_writer crc32 o config size 0 64;
        reader = r;
      } in
      (
        y,
        open_publisher_first crc32 o config size long refl,
        built,
        run-fifo crc32 size calls y 0 []
            (opened-IsRunning o config r size long free no_need id off same) (omega arith) small sum
            (omega arith) (omega arith) tt good,
      )
