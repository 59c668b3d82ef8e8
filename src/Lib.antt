-- ===== src/Lib.antt =====
-- chronicle-rs: an append-only log and queue of messages in memory-mapped segment files, with the
-- order-book replay that is built on it.
--
-- The model follows the Rust sources. A mapped file is the list of its bytes, a directory a finite
-- map from segment ids to files, a fallible function a `Result` with the constructors of
-- core/error.rs, a method that changes its object a function from the state before to the state
-- after. Integers are natural numbers, wrapped or saturated where the code does it.
--
-- Parts, by file and source:
-- - Header: core/header.rs, the 64-byte header of a message and the commit word.
-- - Bytes: core/mmap.rs, ranges of a mapped file and little-endian integers.
-- - Store: core/segment_store.rs, headers of segments, preparation, sealing, publication, discovery.
-- - Writer: core/segment_writer.rs, `append`, `roll`, `finish`. The three writes of a record are in
--   the code's order: payload, uncommitted header, commit word.
-- - Cursor: core/segment_cursor.rs, `next_header` over a list of segments. Its loop has fuel for one
--   round more than there are segments; `none` is a loop out of fuel.
-- - Log: core/log.rs, the writer that rolls and the reader; Log/Session follows a session of appends,
--   Log/Replay a reader over what the session left, Log/RoundTrip puts the two together.
-- - Tail: `scan_segment_tail` of core/writer.rs and `repair_unsealed_tail` of core/segment.rs. Fuel
--   above the segment's size is enough, as a round advances by at least 64 bytes.
-- - Reader: core/segment.rs, the two checksummed slots of a reader's metadata and the index file.
-- - Retention: core/retention.rs, readers that count and segments that may go.
-- - Control: core/control.rs, the shared control block: the sequence lock as steps of a writer and a
--   reader in any interleaving, and the order of the initialising stores.
-- - SeekIndex: core/seek_index.rs, the sparse index, its builder and its file.
-- - Sequence: core/sequencer/mod.rs, the validator of sequence numbers.
-- - Book: venues/szse/l3/engine.rs with protocol/mod.rs, the level-3 order book, and in Book/Engine
--   the decoding of a message, the sequence check and the routing to workers.
-- - Protocol: protocol/mod.rs, the structures of book events, their bytes, and `write_l2_snapshot`.
-- - Replay: stream/replay/mod.rs, the replay into a level-2 book; Replay/L2 is the book and the levels
--   of an event, Replay/Engine the engine over any `StreamReader` with its warm starts. A replay
--   loop takes fuel, one round for a message and one for the end.
-- - Pipeline: stream/replay/transform.rs, pipeline.rs and sink.rs, filters and the run of a pipeline.
-- - Snapshots: stream/replay/snapshot.rs, snapshot files, the search for the latest, the retention.
-- - FanIn: ipc/fanin.rs, the merge of several queues by timestamp.
-- - Lifecycle: lifecycle/policy.rs and lifecycle/segment_info.rs, when a segment is compressed.
-- - Capacity: `has_capacity` of core/writer.rs, the back pressure of the queue's writer.
-- - Queue: core/writer.rs and core/reader.rs, the live queue. Queue/Writer is the append with its
--   roll and back pressure, Queue/Open the opening of a writer with its recovery, Queue/Reader the
--   read loop, Queue/Subscribe the opening of a reader, Queue/Seek the seeks. A call of one process
--   is one step. Queue/Ahead says what lies before a reader, Queue/Running ties the writer, the
--   reader and the files together, Queue/Fifo compares runs with a plain list, Queue/Limits holds
--   the back pressure against the configured limits. The read loop's fuel, the segments left times
--   the bytes of a segment and one, is above its number of rounds.
-- - Base: shared names, results, association lists; Bits: bit operations; Samples: example data.
--
-- The writer of the log (Log) drives a segment writer (Writer), which prepares and publishes files
-- (Store) and lays out records (Header, Bytes); the reader drives a cursor over the same files.
-- Retention reads the metadata that Reader stores. The engine of Book and Replay use Sequence and
-- Protocol; a warm start of Replay loads what Snapshots wrote.
--
-- Parameters: `crc32` (crate crc32fast), `hash` (the standard hasher that picks a worker), and the
-- source that a merge receives from. The build is a release build: `debug_assert!` does nothing.
-- Failures of the file system other than a missing or an existing file, and a crash in the middle of
-- a single store of a word, are outside the model.
--
-- Not modelled: of the live queue waiting, and calls that interleave inside an append; the
-- compressor, waiting and notification, leases and discovery of the bus, the time-series table,
-- extraction to parquet, and the command line.
pub mod Base
pub mod Bits
pub mod Bytes
pub mod Header
pub mod Store
pub mod Writer
pub mod Cursor
pub mod Log
pub mod Sequence
pub mod Book
pub mod Protocol
pub mod Queue
pub mod Reader
pub mod Replay
pub mod Pipeline
pub mod Retention
pub mod Control
pub mod SeekIndex
pub mod Snapshots
pub mod Tail
pub mod FanIn
pub mod Lifecycle
pub mod Capacity
pub mod Samples
