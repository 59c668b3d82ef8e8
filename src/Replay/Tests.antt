-- ===== src/Replay/Tests.antt =====
-- Examples of the replay: a snapshot of two bids and one ask, written into a buffer and replayed, and
-- a warm start from a file with the same levels.
use chronicle_rs.Base.{
  ℕ, ◌+◌, ◌^◌, ◌≡◌, ◌≤◌, ◌<◌, refl, List, [], ◌∷◌, ◌++◌, some, none, inr, ok, true, length, take,
  drop, lookup, insert, replicate, arith,
}
use chronicle_rs.Bytes.{le_bytes}
use chronicle_rs.Sequence.{GapPolicy, GapDetection, check}
use chronicle_rs.Protocol
use chronicle_rs.Protocol.{
  PriceLevelUpdate, SnapshotFields, L2Snapshot, type_book_event, snapshot_struct, l2_snapshot_size,
  write_l2_snapshot,
}
use chronicle_rs.Protocol.Snapshot.{snapshot_event, side_bytes, write_l2_snapshot_lem}
use chronicle_rs.Snapshots.Format.{SnapshotMetadata, SnapshotDir, to_header}
use chronicle_rs.Snapshots.Header.{IsSnapshotHeader}
use chronicle_rs.Snapshots.Retention.{SnapshotRetention}
use chronicle_rs.Snapshots.{write_snapshot}
use chronicle_rs.Snapshots.Stored.{Spared, newest-Spared}
use chronicle_rs.Replay.L2
use chronicle_rs.Replay.L2.{apply_snapshot, insert_levels}
use chronicle_rs.Replay.{ReplayState, StreamMessage, apply_message}
use chronicle_rs.Replay.View.{L2View, Refines, Replaces, after_result}
use chronicle_rs.Replay.Depth.{apply_message-Refines}
use chronicle_rs.Replay.Written.{FitsFields, applied_snapshot, apply_message-write_l2_snapshot}
use chronicle_rs.Replay.Engine
use chronicle_rs.Replay.Engine.{StreamReader, warm_start_from_snapshot}
use chronicle_rs.Replay.Engine.WarmStart.{payload_of, IsPayload, warm_start-write_snapshot}

abbrev level : ℕ → ℕ → PriceLevelUpdate
level price size = record { price = price; size = size }

abbrev bids : List PriceLevelUpdate
bids = level 100 5 ∷ level 99 7 ∷ []

abbrev asks : List PriceLevelUpdate
asks = level 101 2 ∷ []

abbrev fields : SnapshotFields
fields = record { venue_id = 1; market_id = 20; timestamp_ns = 77; price_scale = 2; size_scale = 0 }

abbrev fresh : ReplayState
fresh = record {
  sequencer = record { last_seq = some 4; policy = GapPolicy.panic };
  last_gap = none;
  l2_book = L2.new;
}

abbrev buffer : List ℕ
buffer = replicate 200 1

abbrev event_len : ℕ
event_len = l2_snapshot_size (length bids) (length asks)

abbrev filled : List ℕ
filled = snapshot_event 7 9 fields bids asks ++ drop event_len buffer

abbrev message : StreamMessage
message = record {
  seq = 5;
  timestamp_ns = 77;
  type_id = type_book_event;
  payload = take event_len filled;
}

fields_fit : FitsFields fields bids asks
fields_fit = omega arith

in_sequence : (check fresh.sequencer message.seq).1 ≡ inr GapDetection.sequential
unfolding check
in_sequence = refl

room_left : l2_snapshot_size (length bids) (length asks) ≤ length buffer
unfolding l2_snapshot_size
room_left = omega arith

apply_message-write_l2_snapshot_example :
    ((apply_message fresh message).1 ≡ inr (applied_snapshot 7 9 fields bids asks fields_fit 5))
    × ((apply_message fresh message).0.l2_book
        ≡ apply_snapshot fresh.l2_book
            (snapshot_struct fields (length bids) (length asks))
            bids
            asks)
apply_message-write_l2_snapshot_example =
    apply_message-write_l2_snapshot 7 9 fields bids asks fields_fit buffer filled event_len fresh
      message (write_l2_snapshot_lem 7 9 buffer fields bids asks room_left) refl refl in_sequence

-- The book that the snapshot leaves.
snapshot_book :
    (apply_snapshot fresh.l2_book
      (snapshot_struct fields (length bids) (length asks))
      bids
      asks).bids
    ≡ (100, 5) ∷ (99, 7) ∷ []
unfolding apply_snapshot insert_levels insert
snapshot_book = refl

abbrev empty_view : L2View
empty_view = record { bids = λ price. 0; asks = λ price. 0 }

empty-Refines : Refines fresh.l2_book empty_view
unfolding lookup
empty-Refines = record { bids_shown = λ price. refl; asks_shown = λ price. refl }

applied-Replaces : Replaces (apply_message fresh message).1
applied-Replaces =
    let result =
      apply_message-write_l2_snapshot 7 9 fields bids asks fields_fit buffer filled event_len fresh
        message (write_l2_snapshot_lem 7 9 buffer fields bids asks room_left) refl refl
        in_sequence in
    rw (result.0) tt

apply_message-Refines_example :
    Refines
      (apply_message fresh message).0.l2_book
      (after_result empty_view (apply_message fresh message).1)
apply_message-Refines_example =
    apply_message-Refines fresh empty_view message empty-Refines applied-Replaces

-- A reader that is at a number, and can be sent to any.
abbrev at_number : StreamReader
at_number = record { State = ℕ; next = λ at. (at, ok none); seek_seq = λ at seq. (seq, ok true) }

abbrev metadata : SnapshotMetadata
metadata = record {
  schema_version = 1;
  endianness = 0;
  book_mode = 0;
  venue_id = 1;
  market_id = 20;
  seq_num = 9;
  ingest_ts_ns_start = 10;
  ingest_ts_ns_end = 20;
  exchange_ts_ns_start = 10;
  exchange_ts_ns_end = 19;
  book_hash = replicate 16 3;
  flags = 0;
}

abbrev keep_two : SnapshotRetention
keep_two = record { max_snapshots = some 2; max_bytes = none; max_age = none }

abbrev earlier : SnapshotDir
earlier = record {
  files =
      (3, record { bytes = []; modified = none })
      ∷ (8, record { bytes = []; modified = none })
      ∷ [];
  temps = [];
}

abbrev structure : L2Snapshot
structure = record { price_scale = 2; size_scale = 0; pad0 = 0; bid_count = 2; ask_count = 1 }

abbrev stopped : Engine.Engine at_number
stopped = record { reader = 0; policy = GapPolicy.panic; state = fresh }

structure-IsPayload : IsPayload structure bids asks
structure-IsPayload = omega arith

metadata-IsSnapshotHeader :
    IsSnapshotHeader (to_header metadata (length (payload_of structure bids asks)))
unfolding to_header Protocol.snapshot_bytes side_bytes Protocol.level_bytes le_bytes
metadata-IsSnapshotHeader = ground arith

payload_small : 128 + length (payload_of structure bids asks) < 2 ^ 64
unfolding Protocol.snapshot_bytes side_bytes Protocol.level_bytes le_bytes
payload_small = omega arith

spared : Spared 50 metadata (payload_of structure bids asks) keep_two earlier
spared =
    newest-Spared 50 metadata (payload_of structure bids asks) keep_two earlier (omega arith) refl
      refl (cc)

warm_start-write_snapshot_example :
    let (e', result) =
      warm_start_from_snapshot at_number stopped
        (write_snapshot 50 keep_two earlier metadata (payload_of structure bids asks))
        9 in
    (result ≡ inr (to_header metadata (length (payload_of structure bids asks))))
    × (e'.state.l2_book ≡ apply_snapshot fresh.l2_book structure bids asks)
    × (e'.state.sequencer.last_seq ≡ some 9)
    × (e'.state.last_gap ≡ none)
    × (e'.reader ≡ 10)
warm_start-write_snapshot_example =
    warm_start-write_snapshot at_number stopped 50 keep_two earlier metadata structure bids asks
      true structure-IsPayload metadata-IsSnapshotHeader refl refl payload_small spared refl
