-- ===== src/SeekIndex.antt =====
-- src/core/seek_index.rs: the sparse index of a segment, its builder and its file. A file is its
-- bytes, or `none` when it does not exist.
pub mod Codec
pub mod Builder
mod Tests
use chronicle_rs.Base.{
  ℕ, zero, suc, ◌+◌, ◌-◌, ◌^◌, min, max, List, [], ◌∷◌, ◌++◌, Option, none, some, Bool, true, false,
  ◌&&◌, Result, ok, err, io, not_found, unexpected_eof, corrupt, unsupported_version, guard, ◌>>=◌,
  ◌>>◌, ◌==◌, ltb, leb, if◌then◌else◌, length, drop,
}
use chronicle_rs.Bytes.{le_bytes, from_le, slice, write, zeros}

-- b"CHRIDX1\0"
abbrev pub index_magic : List ℕ
index_magic = 67 ∷ 72 ∷ 82 ∷ 73 ∷ 68 ∷ 88 ∷ 49 ∷ 0 ∷ []

abbrev pub index_version : ℕ
index_version = 1

abbrev pub index_header_len : ℕ
index_header_len = 80

abbrev pub index_flag_partial : ℕ
index_flag_partial = 1

-- The magic is a constant of the format, and no field here.
pub record SeekIndexHeader : Type 0 where
  pub version : ℕ
  pub header_len : ℕ
  pub flags : ℕ
  pub segment_id : ℕ
  pub segment_size : ℕ
  pub data_offset : ℕ
  pub entry_stride : ℕ
  pub min_seq : ℕ
  pub max_seq : ℕ
  pub min_ts_ns : ℕ
  pub max_ts_ns : ℕ
  pub entry_count : ℕ

pub record SeekIndexEntry : Type 0 where
  pub seq : ℕ
  pub timestamp_ns : ℕ
  pub offset : ℕ

pub record SeekIndexBuilder : Type 0 where
  pub segment_id : ℕ
  pub segment_size : ℕ
  pub data_offset : ℕ
  pub entry_stride : ℕ
  pub record_index : ℕ
  pub next_entry_at : ℕ
  pub min_seq : Option ℕ
  pub max_seq : Option ℕ
  pub min_ts_ns : Option ℕ
  pub max_ts_ns : Option ℕ
  pub entries : List SeekIndexEntry
  pub partial : Bool

unfoldable pub new : ℕ → ℕ → ℕ → ℕ → SeekIndexBuilder
new segment_id segment_size data_offset entry_stride = record {
  segment_id = segment_id;
  segment_size = segment_size;
  data_offset = data_offset;
  entry_stride = max entry_stride 1;
  record_index = 0;
  next_entry_at = 0;
  min_seq = none;
  max_seq = none;
  min_ts_ns = none;
  max_ts_ns = none;
  entries = [];
  partial = false;
}

unfoldable pub mark_partial : SeekIndexBuilder → SeekIndexBuilder
mark_partial b = record b { partial = true }

-- `cur.map_or(x, |cur| f(cur, x))`
unfoldable pub map_or : (ℕ → ℕ → ℕ) → Option ℕ → ℕ → ℕ
map_or f none x = x
map_or f (some cur) x = f cur x

unfoldable pub saturating_add : ℕ → ℕ → ℕ
saturating_add a b = min (a + b) (2 ^ 64 - 1)

unfoldable pub observe : SeekIndexBuilder → ℕ → ℕ → ℕ → SeekIndexBuilder
observe b seq timestamp_ns offset =
    let due = b.record_index == b.next_entry_at in
    record b {
      min_seq = some (map_or min b.min_seq seq);
      max_seq = some (map_or max b.max_seq seq);
      min_ts_ns = some (map_or min b.min_ts_ns timestamp_ns);
      max_ts_ns = some (map_or max b.max_ts_ns timestamp_ns);
      entries =
          if due
          then b.entries
            ++ (record { seq = seq; timestamp_ns = timestamp_ns; offset = offset } ∷ [])
          else b.entries;
      next_entry_at =
          if due then saturating_add b.next_entry_at b.entry_stride else b.next_entry_at;
      record_index = saturating_add b.record_index 1;
    }

unfoldable pub reset : SeekIndexBuilder → ℕ → ℕ → SeekIndexBuilder
reset b segment_id segment_size = record b {
  segment_id = segment_id;
  segment_size = segment_size;
  record_index = 0;
  next_entry_at = 0;
  min_seq = none;
  max_seq = none;
  min_ts_ns = none;
  max_ts_ns = none;
  entries = [];
  partial = false;
}

unfoldable pub encode_header : SeekIndexHeader → List ℕ
encode_header h =
    let b0 = write (zeros 80) 0 index_magic in
    let b1 = write b0 8 (le_bytes 2 h.version) in
    let b2 = write b1 10 (le_bytes 2 h.header_len) in
    let b3 = write b2 12 (le_bytes 4 h.flags) in
    let b4 = write b3 16 (le_bytes 8 h.segment_id) in
    let b5 = write b4 24 (le_bytes 8 h.segment_size) in
    let b6 = write b5 32 (le_bytes 4 h.data_offset) in
    let b7 = write b6 36 (le_bytes 4 h.entry_stride) in
    let b8 = write b7 40 (le_bytes 8 h.min_seq) in
    let b9 = write b8 48 (le_bytes 8 h.max_seq) in
    let b10 = write b9 56 (le_bytes 8 h.min_ts_ns) in
    let b11 = write b10 64 (le_bytes 8 h.max_ts_ns) in write b11 72 (le_bytes 8 h.entry_count)

unfoldable pub bytes_eq : List ℕ → List ℕ → Bool
bytes_eq [] [] = true
bytes_eq [] (y ∷ ys) = false
bytes_eq (x ∷ xs) [] = false
bytes_eq (x ∷ xs) (y ∷ ys) = (x == y) && bytes_eq xs ys

unfoldable pub decode_header : List ℕ → Result SeekIndexHeader
decode_header buf = do
  guard (leb index_header_len (length buf)) (corrupt "seek index header too small")
  guard (bytes_eq (slice buf 0 8) index_magic) (corrupt "seek index magic mismatch")
  let version = from_le (slice buf 8 2)
  guard (version == index_version) (unsupported_version version)
  let header_len = from_le (slice buf 10 2)
  guard (header_len == index_header_len) (corrupt "seek index header length mismatch")
  ok (record {
    version = version;
    header_len = header_len;
    flags = from_le (slice buf 12 4);
    segment_id = from_le (slice buf 16 8);
    segment_size = from_le (slice buf 24 8);
    data_offset = from_le (slice buf 32 4);
    entry_stride = from_le (slice buf 36 4);
    min_seq = from_le (slice buf 40 8);
    max_seq = from_le (slice buf 48 8);
    min_ts_ns = from_le (slice buf 56 8);
    max_ts_ns = from_le (slice buf 64 8);
    entry_count = from_le (slice buf 72 8);
  })

unfoldable pub encode_entry : SeekIndexEntry → List ℕ
encode_entry e =
    write (write (write (zeros 24) 0 (le_bytes 8 e.seq)) 8 (le_bytes 8 e.timestamp_ns)) 16
      (le_bytes 8 e.offset)

unfoldable pub encode_entries : List SeekIndexEntry → List ℕ
encode_entries [] = []
encode_entries (e ∷ es) = encode_entry e ++ encode_entries es

unfoldable pub or_zero : Option ℕ → ℕ
or_zero none = 0
or_zero (some x) = x

unfoldable pub header_of : SeekIndexBuilder → SeekIndexHeader
header_of b = record {
  version = index_version;
  header_len = index_header_len;
  flags = if b.partial then index_flag_partial else 0;
  segment_id = b.segment_id;
  segment_size = b.segment_size;
  data_offset = b.data_offset;
  entry_stride = b.entry_stride;
  min_seq = or_zero b.min_seq;
  max_seq = or_zero b.max_seq;
  min_ts_ns = or_zero b.min_ts_ns;
  max_ts_ns = or_zero b.max_ts_ns;
  entry_count = length b.entries;
}

-- The index file after the call; without entries none is written.
unfoldable pub flush : SeekIndexBuilder → Option (List ℕ) → Option (List ℕ)
flush b old = elim b.entries [
  | [] ↦ old
  | _ ∷ _ ↦ some (encode_header (header_of b) ++ encode_entries b.entries)
]

unfoldable pub load_index_header : Option (List ℕ) → Result (Option SeekIndexHeader)
load_index_header none = ok none
load_index_header (some file) =
    if ltb (length file) index_header_len
    then err (io unexpected_eof)
    else do header ← decode_header (slice file 0 index_header_len); ok (some header)

unfoldable pub decode_entry : List ℕ → SeekIndexEntry
decode_entry buf = record {
  seq = from_le (slice buf 0 8);
  timestamp_ns = from_le (slice buf 8 8);
  offset = from_le (slice buf 16 8);
}

-- The loop of `load_index_entries`: `read_exact` of 24 bytes `count` times.
unfoldable pub read_entries : ℕ → List ℕ → Result (List SeekIndexEntry)
read_entries zero rest = ok []
read_entries (suc count) rest = if ltb (length rest) 24 then err (io unexpected_eof) else do
  entries ← read_entries count (drop 24 rest)
  ok (decode_entry (slice rest 0 24) ∷ entries)

unfoldable pub load_index_entries : Option (List ℕ) → SeekIndexHeader → Result (List SeekIndexEntry)
load_index_entries none header = err (io not_found)
load_index_entries (some file) header =
    read_entries header.entry_count (drop header.header_len file)
