-- ===== src/Queue/Subscribe.antt =====
-- src/core/reader.rs: opening the queue for reading, where the reader begins, and seeking.
use chronicle_rs.Base.{
  ℕ, ◌%◌, ◌^◌, max, Bool, true, false, List, [], ◌∷◌, Option, none, some, Result, ok, err,
  unsupported, corrupt, guard, ◌>>=◌, ◌>>◌, if◌then◌else◌, lookup,
}
use chronicle_rs.Store.{
  Dir, seg_data_offset, open_segment, discover_segments, validate_segment_size,
}
use chronicle_rs.Control.{check_ready}
use chronicle_rs.Reader.{ReaderMeta, load_reader_meta, store_reader_meta}
use chronicle_rs.Queue.{Queue, wait_ready}
use chronicle_rs.Queue.Reader.{QueueReader, Outside}

pub data StartMode : Type 0 where
  resume_strict resume_snapshot resume_latest latest earliest : StartMode

unfoldable pub find_oldest_segment : Dir → Result ℕ
find_oldest_segment d = elim (discover_segments d) [
  | [] ↦ err (corrupt "no segments found")
  | id ∷ _ ↦ ok id
]

-- Whether the saved position is dropped; `there` says that its segment exists.
unfoldable pub should_reset : StartMode → Bool → Bool
should_reset resume_strict there = false
should_reset resume_snapshot there = if there then false else true
should_reset resume_latest there = if there then false else true
should_reset latest there = true
should_reset earliest there = true

abbrev pub at : ReaderMeta → ℕ → ℕ → ReaderMeta
at meta segment_id offset = record meta { segment_id = segment_id; offset = offset }

unfoldable pub at_writer : Queue → ReaderMeta → ReaderMeta
at_writer q meta = at meta q.control.current_segment q.control.write_offset

unfoldable pub at_oldest : Queue → ReaderMeta → ReaderMeta
at_oldest q meta = elim (find_oldest_segment q.dir) [
  | ok id ↦ at meta id seg_data_offset
  | err _ ↦ at meta q.control.current_segment seg_data_offset
]

unfoldable pub reset_position : StartMode → Queue → ReaderMeta → ReaderMeta
reset_position latest q meta = at_writer q meta
reset_position resume_latest q meta = at_writer q meta
reset_position earliest q meta = at_oldest q meta
reset_position resume_snapshot q meta = at_oldest q meta
reset_position resume_strict q meta = meta

-- The position that the reader begins with.
unfoldable pub start_position : StartMode → Queue → ReaderMeta → ReaderMeta
start_position mode q meta =
    let there : Bool = elim (lookup meta.segment_id q.dir.files) [ none ↦ false | some _ ↦ true ] in
    let meta' = if should_reset mode there then reset_position mode q meta else meta in
    record meta' { offset = max meta'.offset seg_data_offset }

module _ (crc32 : List ℕ → ℕ) where
  -- `reader` is the reader's name, `meta_file` the file that belongs to it.
  unfoldable pub build_reader :
      Outside → Queue → List ℕ → Option (List ℕ) → StartMode → Result QueueReader
  build_reader o q [] meta_file mode = err (unsupported "reader name cannot be empty")
  build_reader o q (b ∷ reader) meta_file mode = do
    segment_size ← validate_segment_size q.control.segment_size
    meta ← load_reader_meta crc32 meta_file
    let meta' = record (start_position mode q meta) { last_heartbeat_ns = o.now_ns }
    let stored = store_reader_meta crc32 meta_file meta'
    guard (elim (lookup meta'.segment_id q.dir.files) [ none ↦ false | some _ ↦ true ])
        (corrupt "reader segment missing")
    mmap ← open_segment q.dir meta'.segment_id segment_size
    ok (record {
      segment_id = meta'.segment_id % 2 ^ 32;
      read_offset = meta'.offset;
      meta = stored.1;
      meta_file = some stored.0;
      segment_size = segment_size;
    })

  unfoldable pub open_subscriber :
      Outside → Queue → List ℕ → Option (List ℕ) → StartMode → Result QueueReader
  open_subscriber o q reader meta_file mode = do
    ready ← wait_ready q.control
    build_reader o q reader meta_file mode

  -- The control file exists, or not.
  unfoldable pub try_open_subscriber :
      Outside → Option Queue → List ℕ → Option (List ℕ) → StartMode → Result (Option QueueReader)
  try_open_subscriber o none reader meta_file mode = ok none
  try_open_subscriber o (some q) reader meta_file mode = do
    ready ← check_ready q.control
    let opened : Result (Option QueueReader) = (do
      r ← build_reader o q reader meta_file mode
      ok (some r))
    if ready then opened else ok none
