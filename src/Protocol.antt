-- ===== src/Protocol.antt =====
-- src/protocol/mod.rs: the structures of the book events and their bytes. A structure is `repr(C)`
-- and little-endian: `read_copy` takes its bytes at an offset. Fields that are padding are part of
-- the structure; the two gaps that the layout leaves in `BookEventHeader` (behind `schema_version`
-- and `stream_id`) hold unspecified bytes, which are arguments of `header_bytes`.
pub mod Layout
pub mod Snapshot
use chronicle_rs.Base.{
  ℕ, zero, suc, ◌+◌, ◌*◌, ◌%◌, ◌^◌, List, [], ◌∷◌, ◌++◌, Option, none, some, ltb, length,
  if◌then◌else◌,
}
use chronicle_rs.Bytes.{Mem, le_bytes, from_le, slice, write}

abbrev pub protocol_version : ℕ
protocol_version = 3

-- `TypeId::BookEvent`
abbrev pub type_book_event : ℕ
type_book_event = 0x1000

pub data BookEventType : Type 0 where
  snapshot diff reset heartbeat : BookEventType

-- `event_type as u8`
unfoldable pub event_code : BookEventType → ℕ
event_code snapshot = 1
event_code diff = 2
event_code reset = 3
event_code heartbeat = 4

pub data BookMode : Type 0 where
  l2 l3 : BookMode

-- `book_mode as u8`
unfoldable pub mode_code : BookMode → ℕ
mode_code l2 = 0
mode_code l3 = 1

-- `book_flags::ABSOLUTE`
abbrev pub flag_absolute : ℕ
flag_absolute = 1

pub record BookEventHeader : Type 0 where
  pub schema_version : ℕ
  pub record_len : ℕ
  pub endianness : ℕ
  pub pad0 : ℕ
  pub venue_id : ℕ
  pub market_id : ℕ
  pub stream_id : ℕ
  pub ingest_ts_ns : ℕ
  pub exchange_ts_ns : ℕ
  pub seq : ℕ
  pub native_seq : ℕ
  pub event_type : ℕ
  pub book_mode : ℕ
  pub flags : ℕ
  pub pad1 : ℕ

pub record L2Diff : Type 0 where
  pub update_id_first : ℕ
  pub update_id_last : ℕ
  pub update_id_prev : ℕ
  pub price_scale : ℕ
  pub size_scale : ℕ
  pub flags : ℕ
  pub bid_count : ℕ
  pub ask_count : ℕ

pub record L2Snapshot : Type 0 where
  pub price_scale : ℕ
  pub size_scale : ℕ
  pub pad0 : ℕ
  pub bid_count : ℕ
  pub ask_count : ℕ

pub record PriceLevelUpdate : Type 0 where
  pub price : ℕ
  pub size : ℕ

-- `size_of` of the structures.
abbrev pub event_header_size : ℕ
event_header_size = 64

abbrev pub l2_diff_size : ℕ
l2_diff_size = 32

abbrev pub l2_snapshot_struct_size : ℕ
l2_snapshot_struct_size = 12

abbrev pub price_level_size : ℕ
price_level_size = 16

unfoldable pub read_header : List ℕ → ℕ → Option BookEventHeader
read_header buf off =
    if ltb (length buf) (off + event_header_size)
    then none
    else some (record {
      schema_version = from_le (slice buf off 2);
      record_len = from_le (slice buf (off + 4) 4);
      endianness = from_le (slice buf (off + 8) 1);
      pad0 = from_le (slice buf (off + 9) 1);
      venue_id = from_le (slice buf (off + 10) 2);
      market_id = from_le (slice buf (off + 12) 4);
      stream_id = from_le (slice buf (off + 16) 4);
      ingest_ts_ns = from_le (slice buf (off + 24) 8);
      exchange_ts_ns = from_le (slice buf (off + 32) 8);
      seq = from_le (slice buf (off + 40) 8);
      native_seq = from_le (slice buf (off + 48) 8);
      event_type = from_le (slice buf (off + 56) 1);
      book_mode = from_le (slice buf (off + 57) 1);
      flags = from_le (slice buf (off + 58) 2);
      pad1 = from_le (slice buf (off + 60) 4);
    })

unfoldable pub read_diff : List ℕ → ℕ → Option L2Diff
read_diff buf off =
    if ltb (length buf) (off + l2_diff_size)
    then none
    else some (record {
      update_id_first = from_le (slice buf off 8);
      update_id_last = from_le (slice buf (off + 8) 8);
      update_id_prev = from_le (slice buf (off + 16) 8);
      price_scale = from_le (slice buf (off + 24) 1);
      size_scale = from_le (slice buf (off + 25) 1);
      flags = from_le (slice buf (off + 26) 2);
      bid_count = from_le (slice buf (off + 28) 2);
      ask_count = from_le (slice buf (off + 30) 2);
    })

unfoldable pub read_snapshot : List ℕ → ℕ → Option L2Snapshot
read_snapshot buf off =
    if ltb (length buf) (off + l2_snapshot_struct_size)
    then none
    else some (record {
      price_scale = from_le (slice buf off 1);
      size_scale = from_le (slice buf (off + 1) 1);
      pad0 = from_le (slice buf (off + 2) 2);
      bid_count = from_le (slice buf (off + 4) 4);
      ask_count = from_le (slice buf (off + 8) 4);
    })

unfoldable pub read_level : List ℕ → ℕ → Option PriceLevelUpdate
read_level buf off =
    if ltb (length buf) (off + price_level_size)
    then none
    else some (record { price = from_le (slice buf off 8); size = from_le (slice buf (off + 8) 8) })

-- `struct_to_bytes` of the structures that `write_l2_snapshot` writes.
unfoldable pub header_bytes : ℕ → ℕ → BookEventHeader → List ℕ
header_bytes gap0 gap1 h =
    le_bytes 2 h.schema_version
    ++ (le_bytes 2 gap0
        ++ (le_bytes 4 h.record_len
            ++ (le_bytes 1 h.endianness
                ++ (le_bytes 1 h.pad0
                    ++ (le_bytes 2 h.venue_id
                        ++ (le_bytes 4 h.market_id
                            ++ (le_bytes 4 h.stream_id
                                ++ (le_bytes 4 gap1
                                    ++ (le_bytes 8 h.ingest_ts_ns
                                        ++ (le_bytes 8 h.exchange_ts_ns
                                            ++ (le_bytes 8 h.seq
                                                ++ (le_bytes 8 h.native_seq
                                                    ++ (le_bytes 1 h.event_type
                                                        ++ (le_bytes 1 h.book_mode
                                                            ++ (le_bytes 2 h.flags
                                                            ++ le_bytes 4 h.pad1)))))))))))))))

unfoldable pub snapshot_bytes : L2Snapshot → List ℕ
snapshot_bytes s =
    le_bytes 1 s.price_scale
    ++ (le_bytes 1 s.size_scale
        ++ (le_bytes 2 s.pad0 ++ (le_bytes 4 s.bid_count ++ le_bytes 4 s.ask_count)))

unfoldable pub level_bytes : PriceLevelUpdate → List ℕ
level_bytes l = le_bytes 8 l.price ++ le_bytes 8 l.size

-- `l2_snapshot_size`
unfoldable pub l2_snapshot_size : ℕ → ℕ → ℕ
l2_snapshot_size bid_count ask_count =
    event_header_size + l2_snapshot_struct_size + (bid_count + ask_count) * price_level_size

-- The loops of `write_l2_snapshot` over one side: the buffer and the offset after them.
unfoldable pub write_levels : Mem → ℕ → List PriceLevelUpdate → Mem × ℕ
write_levels buf offset [] = (buf, offset)
write_levels buf offset (level ∷ levels) =
    write_levels (write buf offset (level_bytes level)) (offset + price_level_size) levels

-- What the caller passes to `write_l2_snapshot` besides the buffer and the levels.
pub record SnapshotFields : Type 0 where
  pub venue_id : ℕ
  pub market_id : ℕ
  pub timestamp_ns : ℕ
  pub price_scale : ℕ
  pub size_scale : ℕ

unfoldable pub snapshot_event_header : SnapshotFields → ℕ → BookEventHeader
snapshot_event_header s payload_len = record {
  schema_version = protocol_version;
  record_len = payload_len % 2 ^ 32;
  endianness = 0;
  pad0 = 0;
  venue_id = s.venue_id;
  market_id = s.market_id;
  stream_id = 0;
  ingest_ts_ns = s.timestamp_ns;
  exchange_ts_ns = s.timestamp_ns;
  seq = 0;
  native_seq = 0;
  event_type = event_code snapshot;
  book_mode = mode_code l2;
  flags = flag_absolute;
  pad1 = 0;
}

unfoldable pub snapshot_struct : SnapshotFields → ℕ → ℕ → L2Snapshot
snapshot_struct s bid_count ask_count = record {
  price_scale = s.price_scale;
  size_scale = s.size_scale;
  pad0 = 0;
  bid_count = bid_count % 2 ^ 32;
  ask_count = ask_count % 2 ^ 32;
}

-- `none` is the panic on a buffer that is too small. The gaps are the unspecified bytes.
unfoldable pub write_l2_snapshot :
    (gap0 gap1 : ℕ) → Mem → SnapshotFields → (bids asks : List PriceLevelUpdate) → Option (Mem × ℕ)
write_l2_snapshot gap0 gap1 buf s bids asks =
    let payload_len = l2_snapshot_size (length bids) (length asks) in
    if ltb (length buf) payload_len
    then none
    else (let with_header =
          write buf 0 (header_bytes gap0 gap1 (snapshot_event_header s payload_len)) in
        let with_snapshot =
          write with_header event_header_size
            (snapshot_bytes (snapshot_struct s (length bids) (length asks))) in
        let (with_bids, offset) =
          write_levels with_snapshot (event_header_size + l2_snapshot_struct_size) bids in
        some ((write_levels with_bids offset asks).0, payload_len))
