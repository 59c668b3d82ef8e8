-- ===== src/Snapshots/Format.antt =====
-- src/stream/replay/snapshot.rs: the header of a snapshot file, and loading a file. A directory holds
-- the finished files (`snapshot_<seq>.bin`) and the temporary ones, in the order in which `read_dir`
-- lists them.
use chronicle_rs.Base.{
  ℕ, ◌+◌, ◌^◌, List, [], ◌∷◌, ◌++◌, Option, none, some, ◌⊎◌, inl, inr, ◌==◌, ltb, leb, not,
  if◌then◌else◌, length, take, lookup,
}
use chronicle_rs.Bytes.{le_bytes, from_le, slice}
use chronicle_rs.SeekIndex.{bytes_eq}

-- `*b"CHRSNAP1"`
abbrev pub snapshot_magic : List ℕ
snapshot_magic = 67 ∷ 72 ∷ 82 ∷ 83 ∷ 78 ∷ 65 ∷ 80 ∷ 49 ∷ []

abbrev pub snapshot_version : ℕ
snapshot_version = 1

abbrev pub snapshot_header_len : ℕ
snapshot_header_len = 128

pub record SnapshotHeader : Type 0 where
  pub magic : List ℕ
  pub schema_version : ℕ
  pub header_len : ℕ
  pub endianness : ℕ
  pub book_mode : ℕ
  pub venue_id : ℕ
  pub market_id : ℕ
  pub seq_num : ℕ
  pub ingest_ts_ns_start : ℕ
  pub ingest_ts_ns_end : ℕ
  pub exchange_ts_ns_start : ℕ
  pub exchange_ts_ns_end : ℕ
  pub book_hash : List ℕ
  pub payload_len : ℕ
  pub flags : ℕ
  pub reserved : List ℕ

pub record SnapshotMetadata : Type 0 where
  pub schema_version : ℕ
  pub endianness : ℕ
  pub book_mode : ℕ
  pub venue_id : ℕ
  pub market_id : ℕ
  pub seq_num : ℕ
  pub ingest_ts_ns_start : ℕ
  pub ingest_ts_ns_end : ℕ
  pub exchange_ts_ns_start : ℕ
  pub exchange_ts_ns_end : ℕ
  pub book_hash : List ℕ
  pub flags : ℕ

unfoldable pub to_header : SnapshotMetadata → ℕ → SnapshotHeader
to_header m payload_len = record {
  magic = snapshot_magic;
  schema_version = m.schema_version;
  header_len = snapshot_header_len;
  endianness = m.endianness;
  book_mode = m.book_mode;
  venue_id = m.venue_id;
  market_id = m.market_id;
  seq_num = m.seq_num;
  ingest_ts_ns_start = m.ingest_ts_ns_start;
  ingest_ts_ns_end = m.ingest_ts_ns_end;
  exchange_ts_ns_start = m.exchange_ts_ns_start;
  exchange_ts_ns_end = m.exchange_ts_ns_end;
  book_hash = m.book_hash;
  payload_len = payload_len;
  flags = m.flags;
  reserved =
      0 ∷ 0 ∷ 0 ∷ 0 ∷ 0 ∷ 0 ∷ 0 ∷ 0 ∷ 0 ∷ 0 ∷ 0 ∷ 0 ∷ 0 ∷ 0 ∷ 0 ∷ 0 ∷ 0 ∷ 0 ∷ 0 ∷ 0 ∷ 0 ∷ 0 ∷ 0 ∷ 0
      ∷ 0 ∷ 0 ∷ 0 ∷ 0 ∷ 0 ∷ 0 ∷ 0 ∷ 0 ∷ [];
}

pub data SnapshotError : Type 0 where
  not_found unexpected_eof header_too_small magic_mismatch header_length_mismatch length_overflow :
      SnapshotError
  length_mismatch : (expected found : ℕ) → SnapshotError

-- The fields stand one behind the other, and fill the 128 bytes.
unfoldable pub encode_header : SnapshotHeader → List ℕ
encode_header h =
    h.magic
    ++ (le_bytes 2 h.schema_version
        ++ (le_bytes 2 h.header_len
            ++ (le_bytes 2 h.endianness
                ++ (le_bytes 2 h.book_mode
                    ++ (le_bytes 4 h.venue_id
                        ++ (le_bytes 4 h.market_id
                            ++ (le_bytes 8 h.seq_num
                                ++ (le_bytes 8 h.ingest_ts_ns_start
                                    ++ (le_bytes 8 h.ingest_ts_ns_end
                                        ++ (le_bytes 8 h.exchange_ts_ns_start
                                            ++ (le_bytes 8 h.exchange_ts_ns_end
                                                ++ (h.book_hash
                                                    ++ (le_bytes 8 h.payload_len
                                                        ++ (le_bytes 8 h.flags
                                                            ++ h.reserved))))))))))))))

unfoldable pub decode_header : List ℕ → SnapshotError ⊎ SnapshotHeader
decode_header buf =
    if ltb (length buf) snapshot_header_len
    then inl header_too_small
    else if not (bytes_eq (slice buf 0 8) snapshot_magic)
    then inl magic_mismatch
    else if not (from_le (slice buf 10 2) == snapshot_header_len)
    then inl header_length_mismatch
    else inr (record {
      magic = snapshot_magic;
      schema_version = from_le (slice buf 8 2);
      header_len = from_le (slice buf 10 2);
      endianness = from_le (slice buf 12 2);
      book_mode = from_le (slice buf 14 2);
      venue_id = from_le (slice buf 16 4);
      market_id = from_le (slice buf 20 4);
      seq_num = from_le (slice buf 24 8);
      ingest_ts_ns_start = from_le (slice buf 32 8);
      ingest_ts_ns_end = from_le (slice buf 40 8);
      exchange_ts_ns_start = from_le (slice buf 48 8);
      exchange_ts_ns_end = from_le (slice buf 56 8);
      book_hash = slice buf 64 16;
      payload_len = from_le (slice buf 80 8);
      flags = from_le (slice buf 88 8);
      reserved = slice buf 96 32;
    })

-- A file: its bytes, and the time of its last change where the system tells it.
pub record SnapshotFile : Type 0 where
  pub bytes : List ℕ
  pub modified : Option ℕ

pub record SnapshotDir : Type 0 where
  pub files : List (ℕ × SnapshotFile)
  pub temps : List (ℕ × SnapshotFile)

-- `file.read_exact(&mut buf)` of a header.
unfoldable pub load_snapshot_header : SnapshotFile → SnapshotError ⊎ SnapshotHeader
load_snapshot_header file =
    if ltb (length file.bytes) snapshot_header_len
    then inl unexpected_eof
    else decode_header (take snapshot_header_len file.bytes)

unfoldable pub load_snapshot : SnapshotDir → (seq_num : ℕ) → SnapshotError ⊎ SnapshotHeader × List ℕ
load_snapshot d seq_num = elim (lookup seq_num d.files) [
  | none ↦ inl not_found
  | some file ↦ elim (load_snapshot_header file) [
    | inl failure ↦ inl failure
    | inr header ↦
        let expected_len = snapshot_header_len + header.payload_len in
        if leb (2 ^ 64) expected_len
        then inl length_overflow
        else if not (length file.bytes == expected_len)
        then inl (length_mismatch expected_len (length file.bytes))
        else inr (header, slice file.bytes snapshot_header_len header.payload_len)
  ]
]
