-- ===== src/Protocol/Layout.antt =====
-- The bytes of a structure are read back from where they stand.
use chronicle_rs.Base.{
  ℕ, zero, suc, ◌+◌, ◌^◌, ◌<◌, ◌≡◌, refl, ap, ◌∙◌, List, [], ◌∷◌, ◌++◌, some, length, length-append,
  drop, take, arith,
}
use chronicle_rs.Bytes.{le_bytes, slice}
use chronicle_rs.Bytes.Codec.{from_le-le_bytes}
use chronicle_rs.Protocol.{
  BookEventHeader, L2Snapshot, PriceLevelUpdate, read_header, read_snapshot, read_level,
  header_bytes, snapshot_bytes, level_bytes,
}

pub drop_behind :
    (front xs : List ℕ) (k n : ℕ) → n ≡ length front + k → drop n (front ++ xs) ≡ drop k xs
drop_behind [] xs k n e = let same : n ≡ k = omega arith in ap (λ m. drop m xs) same
drop_behind (x ∷ front) xs k zero e = absurd (omega arith)
drop_behind (x ∷ front) xs k (suc n) e = drop_behind front xs k n (omega arith)

-- A slice behind a prefix.
pub slice_behind :
    (front xs : List ℕ) (k n p : ℕ) → p ≡ length front + k → slice (front ++ xs) p n ≡ slice xs k n
slice_behind front xs k n p e = ap (take n) (drop_behind front xs k p e)

pub record FitsHeader (h : BookEventHeader) : Type 0 where
  pub schema_version_fits : h.schema_version < 2 ^ 16
  pub record_len_fits : h.record_len < 2 ^ 32
  pub endianness_fits : h.endianness < 2 ^ 8
  pub pad0_fits : h.pad0 < 2 ^ 8
  pub venue_id_fits : h.venue_id < 2 ^ 16
  pub market_id_fits : h.market_id < 2 ^ 32
  pub stream_id_fits : h.stream_id < 2 ^ 32
  pub ingest_fits : h.ingest_ts_ns < 2 ^ 64
  pub exchange_fits : h.exchange_ts_ns < 2 ^ 64
  pub seq_fits : h.seq < 2 ^ 64
  pub native_seq_fits : h.native_seq < 2 ^ 64
  pub event_type_fits : h.event_type < 2 ^ 8
  pub book_mode_fits : h.book_mode < 2 ^ 8
  pub flags_fits : h.flags < 2 ^ 16
  pub pad1_fits : h.pad1 < 2 ^ 32

pub read_header-header_bytes :
    (gap0 gap1 : ℕ) (h : BookEventHeader) (rest : List ℕ)
    → FitsHeader h
    → read_header (header_bytes gap0 gap1 h ++ rest) 0 ≡ some h
unfolding read_header header_bytes le_bytes
read_header-header_bytes gap0 gap1 h rest v = ground (
  arith,
  from_le-le_bytes 2 h.schema_version,
  from_le-le_bytes 4 h.record_len,
  from_le-le_bytes 1 h.endianness,
  from_le-le_bytes 1 h.pad0,
  from_le-le_bytes 2 h.venue_id,
  from_le-le_bytes 4 h.market_id,
  from_le-le_bytes 4 h.stream_id,
  from_le-le_bytes 8 h.ingest_ts_ns,
  from_le-le_bytes 8 h.exchange_ts_ns,
  from_le-le_bytes 8 h.seq,
  from_le-le_bytes 8 h.native_seq,
  from_le-le_bytes 1 h.event_type,
  from_le-le_bytes 1 h.book_mode,
  from_le-le_bytes 2 h.flags,
  from_le-le_bytes 4 h.pad1,
)

pub record FitsSnapshot (s : L2Snapshot) : Type 0 where
  pub price_scale_fits : s.price_scale < 2 ^ 8
  pub size_scale_fits : s.size_scale < 2 ^ 8
  pub pad0_fits : s.pad0 < 2 ^ 16
  pub bid_count_fits : s.bid_count < 2 ^ 32
  pub ask_count_fits : s.ask_count < 2 ^ 32

read_snapshot_start :
    (s : L2Snapshot) (rest : List ℕ)
    → FitsSnapshot s
    → read_snapshot (snapshot_bytes s ++ rest) 0 ≡ some s
unfolding read_snapshot snapshot_bytes le_bytes
read_snapshot_start s rest v = ground (
  arith,
  from_le-le_bytes 1 s.price_scale,
  from_le-le_bytes 1 s.size_scale,
  from_le-le_bytes 2 s.pad0,
  from_le-le_bytes 4 s.bid_count,
  from_le-le_bytes 4 s.ask_count,
)

abbrev pub FitsLevel : PriceLevelUpdate → Type 0
FitsLevel l = (l.price < 2 ^ 64) × (l.size < 2 ^ 64)

read_level_start :
    (l : PriceLevelUpdate) (rest : List ℕ)
    → FitsLevel l
    → read_level (level_bytes l ++ rest) 0 ≡ some l
unfolding read_level level_bytes le_bytes
read_level_start l rest v = ground (arith, from_le-le_bytes 8 l.price, from_le-le_bytes 8 l.size)

read_snapshot_behind :
    (front xs : List ℕ) (off : ℕ)
    → length front ≡ off
    → read_snapshot (front ++ xs) off ≡ read_snapshot xs 0
unfolding read_snapshot
read_snapshot_behind front xs off e = ground (
  arith,
  length-append front xs,
  slice_behind front xs 0 1 off,
  slice_behind front xs 1 1 (off + 1),
  slice_behind front xs 2 2 (off + 2),
  slice_behind front xs 4 4 (off + 4),
  slice_behind front xs 8 4 (off + 8),
)

read_level_behind :
    (front xs : List ℕ) (off : ℕ)
    → length front ≡ off
    → read_level (front ++ xs) off ≡ read_level xs 0
unfolding read_level
read_level_behind front xs off e = ground (
  arith,
  length-append front xs,
  slice_behind front xs 0 8 off,
  slice_behind front xs 8 8 (off + 8),
)

-- A structure that stands behind a prefix.
pub read_snapshot-snapshot_bytes :
    (front rest : List ℕ) (off : ℕ) (s : L2Snapshot)
    → length front ≡ off
    → FitsSnapshot s
    → read_snapshot (front ++ (snapshot_bytes s ++ rest)) off ≡ some s
read_snapshot-snapshot_bytes front rest off s e v =
    read_snapshot_behind front (snapshot_bytes s ++ rest) off e ∙ read_snapshot_start s rest v

pub read_level-level_bytes :
    (front rest : List ℕ) (off : ℕ) (l : PriceLevelUpdate)
    → length front ≡ off
    → FitsLevel l
    → read_level (front ++ (level_bytes l ++ rest)) off ≡ some l
read_level-level_bytes front rest off l e v =
    read_level_behind front (level_bytes l ++ rest) off e ∙ read_level_start l rest v

pub length-header_bytes :
    (gap0 gap1 : ℕ) (h : BookEventHeader) → length (header_bytes gap0 gap1 h) ≡ 64
unfolding header_bytes le_bytes
length-header_bytes gap0 gap1 h = refl

pub length-snapshot_bytes : (s : L2Snapshot) → length (snapshot_bytes s) ≡ 12
unfolding snapshot_bytes le_bytes
length-snapshot_bytes s = refl

pub length-level_bytes : (l : PriceLevelUpdate) → length (level_bytes l) ≡ 16
unfolding level_bytes le_bytes
length-level_bytes l = refl
