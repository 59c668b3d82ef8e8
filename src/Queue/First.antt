-- ===== src/Queue/First.antt =====
-- Opening an empty directory: what the first writer and the first reader find.
use chronicle_rs.Base.{
  ℕ, ◌+◌, ◌-◌, ◌≤◌, ◌<◌, ◌≡◌, refl, subst, List, [], ◌∷◌, ok, some, none, false, ◌==◌, length,
  arith, lookup, insert, keys, max, length-replicate,
}
use chronicle_rs.Bytes.{Mem, zeros}
use chronicle_rs.Store.{
  Dir, read_segment_header, validate_segment_size, discover_segments, nine_digits, sort,
  insert_sorted,
}
use chronicle_rs.Store.Open.{create_segment, prepare_segment}
use chronicle_rs.Store.Opened.{open_segment_lem}
use chronicle_rs.Store.Seal.{read-header_buf, header_of, write_segment_header-eq}
use chronicle_rs.Store.Prepare.{fresh_segment, fresh_segment-IsFresh, mmap_create_lem}
use chronicle_rs.Control.{create, create_stores, after_stores, ControlBlock}
use chronicle_rs.Reader.{ReaderMeta, load_index, load_reader_meta, store_reader_meta}
use chronicle_rs.Tail.{scan_segment_tail, scan_loop}
use chronicle_rs.Tail.Scan.{scan_loop-Laid}
use chronicle_rs.Queue.{Queue, set_segment_index}
use chronicle_rs.Queue.Writer.{WriterConfig, Outside}
use chronicle_rs.Queue.Reader
use chronicle_rs.Queue.Reader.{QueueReader}
use chronicle_rs.Queue.Open.{
  Stored, open_publisher, open_control, next_epoch, recover, resume, open_or_prepare, skip_sealed,
  is_sealed, new_writer,
}
use chronicle_rs.Queue.Subscribe.{
  StartMode, resume_strict, resume_snapshot, resume_latest, latest, earliest, build_reader,
  start_position, should_reset, reset_position, at_writer, at_oldest, find_oldest_segment,
}

-- Nothing is there yet but an empty directory.
abbrev pub nothing_stored : Stored
nothing_stored = record {
  dir = record { files = []; temps = [] };
  control = none;
  indexes = [];
  index_file = none;
}

abbrev pub first_files : ℕ → List (ℕ × Mem)
first_files size = (0, fresh_segment 0 size) ∷ []

abbrev pub first_dir : ℕ → Dir
first_dir size = record { files = first_files size; temps = [] }

fresh_reads :
    (size : ℕ) → 64 ≤ size → read_segment_header (fresh_segment 0 size) ≡ ok (header_of 0 0)
fresh_reads size long =
    let f = fresh_segment-IsFresh 0 size long in
    read-header_buf (fresh_segment 0 size) 0 0 (omega (arith, f.size_is)) (omega arith)
      (omega arith) f.header_is

prepare_first :
    (size : ℕ)
    → 64 ≤ size
    → prepare_segment nothing_stored.dir 0 size ≡ ok (first_dir size, fresh_segment 0 size)
unfolding prepare_segment create_segment insert
prepare_first size long =
    let room : 64 ≤ length (zeros size) = omega (arith, length-replicate {A = ℕ} size 0) in
    rw (prepare_segment, create_segment, mmap_create_lem size long)
      (rw (write_segment_header-eq (zeros size) 0 0 room) refl)

scan_fresh :
    (size : ℕ) → 64 ≤ size → scan_segment_tail (fresh_segment 0 size) 64 size ≡ some (64, false)
unfolding scan_segment_tail
scan_fresh size long =
    let f = fresh_segment-IsFresh 0 size long in
    subst (λ n. scan_loop (size + 1) (fresh_segment 0 size) n (max 64 64) ≡ some (64, false))
      f.size_is
      (scan_loop-Laid (λ bytes. 0) (size + 1) (fresh_segment 0 size) 64 0 64 (size - 64) [] refl tt
        f.data_is_zero (omega arith))

recover_first :
    (control : ControlBlock) (size : ℕ)
    → control.current_segment ≡ 0
    → 64 ≤ size
    → recover nothing_stored.dir control (record { current_segment = 0; write_offset = 64 }) size
      ≡ some (ok (first_dir size, 0, 64))
unfolding recover resume open_or_prepare lookup skip_sealed is_sealed
recover_first control size at_zero long =
    rw
      (
        recover,
        resume,
        at_zero,
        open_or_prepare,
        prepare_first size long,
        scan_fresh size long,
        skip_sealed,
        fresh_reads size long,
        is_sealed,
      )
      refl

abbrev pub meta_none : ReaderMeta
meta_none = record { segment_id = 0; offset = 64; last_heartbeat_ns = 0; generation = 0 }

oldest_first : (size : ℕ) → discover_segments (first_dir size) ≡ 0 ∷ []
unfolding discover_segments nine_digits sort insert_sorted keys
oldest_first size = refl

-- In each mode the reader begins at the first record of segment 0.
start_first :
    (mode : StartMode) (q : Queue) (size : ℕ)
    → q.dir ≡ first_dir size
    → q.control.current_segment ≡ 0
    → q.control.write_offset ≡ 64
    → start_position mode q meta_none ≡ meta_none
unfolding start_position should_reset reset_position at_writer at_oldest find_oldest_segment lookup
start_first resume_strict q size d c w = refl
start_first resume_snapshot q size d c w = rw (start_position, d) refl
start_first resume_latest q size d c w = rw (start_position, d) refl
start_first latest q size d c w = rw (start_position, reset_position, at_writer, c, w) refl
start_first earliest q size d c w =
    rw (start_position, reset_position, at_oldest, find_oldest_segment, d, oldest_first size) refl

-- The control block and the queue of the first writer.
abbrev pub first_control : Outside → ℕ → ControlBlock
first_control o size =
    let control = create 0 64 0 size in
    set_segment_index
      (record control { writer_epoch = next_epoch control; writer_heartbeat_ns = o.now_ns }) 0 64

abbrev pub first_queue : Outside → ℕ → Queue
first_queue o size = record { dir = first_dir size; control = first_control o size; indexes = [] }

pub size_lem : (size : ℕ) → 128 ≤ size → validate_segment_size size ≡ ok size
unfolding validate_segment_size
size_lem size long = ground arith

above_zero : (i : ℕ) → 0 < i → (0 == i) ≡ false
above_zero i h = ground arith

pub first_files_other : (size i : ℕ) → 0 < i → lookup i (first_files size) ≡ none
unfolding lookup
first_files_other size i h = rw (lookup, above_zero i h) refl

module _ (crc32 : List ℕ → ℕ) where
  pub open_publisher_first :
      (o : Outside) (config : WriterConfig) (size : ℕ)
      → 128 ≤ size
      → config.segment_size_bytes ≡ size
      → open_publisher crc32 o nothing_stored config
        ≡ some (ok (first_queue o size, new_writer crc32 o config size 0 64))
  unfolding open_publisher open_control load_index create create_stores after_stores
  open_publisher_first o config size long same =
      let control = create 0 64 0 size in
      rw (open_publisher, open_control, same, size_lem size long, load_index)
        (rw
          (recover_first
            (record control { writer_epoch = next_epoch control; writer_heartbeat_ns = o.now_ns })
            size refl (omega arith))
          refl)

  pub build_reader_first :
      (o : Reader.Outside) (q : Queue) (b : ℕ) (reader : List ℕ) (mode : StartMode) (size : ℕ)
      → 128 ≤ size
      → q.dir ≡ first_dir size
      → q.control.current_segment ≡ 0
      → q.control.write_offset ≡ 64
      → q.control.segment_size ≡ size
      → (r : QueueReader) × (build_reader crc32 o q (b ∷ reader) none mode ≡ ok r)
        × (r.segment_id ≡ 0)
        × (r.read_offset ≡ 64)
        × (r.segment_size ≡ size)
  unfolding build_reader load_reader_meta lookup
  build_reader_first o q b reader mode size long d c w sized =
      let meta = record meta_none { last_heartbeat_ns = o.now_ns } in
      let (file, stored) = store_reader_meta crc32 none meta in
      let f = fresh_segment-IsFresh 0 size (omega arith) in
      let opens =
        open_segment_lem (first_dir size) 0 size (fresh_segment 0 size) (header_of 0 0)
          (omega arith) refl f.size_is (fresh_reads size (omega arith)) refl in
      (
        record {
          segment_id = 0;
          read_offset = 64;
          meta = stored;
          meta_file = some file;
          segment_size = size;
        },
        simp (
          build_reader,
          sized,
          size_lem size long,
          load_reader_meta,
          start_first mode q size d c w,
          d,
          opens,
        ),
        refl,
        refl,
        refl,
      )
