-- ===== src/Snapshots/Tests.antt =====
-- Examples of snapshot files: three files, one behind the limit, and a retention of two.
use chronicle_rs.Base.{
  ℕ, ◌≡◌, ◌<◌, ◌^◌, refl, List, [], ◌∷◌, ◌++◌, some, none, inr, replicate, map, arith,
}
use chronicle_rs.Bytes.{from_le, le_bytes}
use chronicle_rs.SeekIndex.{bytes_eq}
use chronicle_rs.Snapshots.Format.{
  SnapshotHeader, SnapshotMetadata, SnapshotFile, to_header, encode_header, decode_header,
  load_snapshot_header,
}
use chronicle_rs.Snapshots.{latest_from, better}
use chronicle_rs.Snapshots.Latest.{IsFrom, AllReached, latest_from-IsFrom}
use chronicle_rs.Snapshots.Retention
use chronicle_rs.Snapshots.Retention.{
  SnapshotEntry, SnapshotRetention, enforce_retention, sort_by_seq,
}
use chronicle_rs.Snapshots.Kept.{
  WithinLimits, Ascending, seq_of, sum_sizes, enforce_retention-WithinLimits,
}

abbrev metadata : ℕ → SnapshotMetadata
metadata seq = record {
  schema_version = 1;
  endianness = 0;
  book_mode = 0;
  venue_id = 1;
  market_id = 20;
  seq_num = seq;
  ingest_ts_ns_start = 10;
  ingest_ts_ns_end = 20;
  exchange_ts_ns_start = 10;
  exchange_ts_ns_end = 19;
  book_hash = replicate 16 3;
  flags = 0;
}

abbrev header : ℕ → SnapshotHeader
header seq = to_header (metadata seq) 0

abbrev file : ℕ → SnapshotFile
file seq = record { bytes = encode_header (header seq); modified = none }

abbrev files : List (ℕ × SnapshotFile)
files = (20, file 20) ∷ (30, file 30) ∷ (10, file 10) ∷ []

abbrev by_seq : SnapshotHeader → ℕ
by_seq h = h.seq_num

found_twenty : latest_from by_seq 25 none files ≡ inr (some (20, header 20))
unfolding latest_from better load_snapshot_header decode_header encode_header to_header le_bytes
    from_le bytes_eq
found_twenty = refl

latest_from-IsFrom_example :
    IsFrom by_seq 25 files (some (20, header 20))
    × AllReached by_seq 25 files (some (20, header 20))
latest_from-IsFrom_example = latest_from-IsFrom by_seq 25 files (some (20, header 20)) found_twenty

abbrev entry : ℕ → ℕ → SnapshotEntry
entry seq size = record { seq_num = seq; size = size; modified = none }

abbrev entries : List SnapshotEntry
entries = entry 3 50 ∷ entry 1 50 ∷ entry 2 70 ∷ []

abbrev limits : SnapshotRetention
limits = record { max_snapshots = some 2; max_bytes = some 100; max_age = none }

small_sizes : sum_sizes entries < 2 ^ 64
unfolding sum_sizes
small_sizes = omega arith

enforce_retention-WithinLimits_example :
    let (kept, removed) = enforce_retention 5 limits entries in
    WithinLimits limits kept
    × (removed ++ map seq_of kept ≡ map seq_of (sort_by_seq entries))
    × Ascending (sort_by_seq entries)
enforce_retention-WithinLimits_example =
    enforce_retention-WithinLimits 5 limits entries refl small_sizes

-- One goes for the number, and one for the bytes.
two_removed : (enforce_retention 5 limits entries).1 ≡ 1 ∷ 2 ∷ []
unfolding enforce_retention sort_by_seq Retention.insert_by_seq Retention.by_age Retention.by_count
    Retention.by_bytes Retention.trim_count Retention.trim_bytes Retention.total_size
two_removed = refl
