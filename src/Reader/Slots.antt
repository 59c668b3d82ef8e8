-- ===== src/Reader/Slots.antt =====
-- One slot of a reader's metadata: reading back what was written.
use chronicle_rs.Base.{ℕ, ◌^◌, ◌<◌, ◌≡◌, List, ok, some, length, arith}
use chronicle_rs.Bytes.{le_bytes, slice, write}
use chronicle_rs.Bytes.Slices.{length-write}
use chronicle_rs.Bytes.Codec.{from_le-le_bytes}
use chronicle_rs.Reader.{
  ReaderMeta, SegmentIndex, load_index, store_index, slot_fields, encode_reader_slot,
  parse_reader_slot,
}

-- The fields are 64-bit integers.
pub record IsMeta (m : ReaderMeta) : Type 0 where
  pub segment_id_fits : m.segment_id < 2 ^ 64
  pub offset_fits : m.offset < 2 ^ 64
  pub heartbeat_fits : m.last_heartbeat_ns < 2 ^ 64
  pub generation_fits : m.generation < 2 ^ 64

-- The writer's index is read back as it was stored.
pub load_index-store_index :
    (index : SegmentIndex)
    → index.current_segment < 2 ^ 64
    → index.write_offset < 2 ^ 64
    → load_index (some (store_index index)) ≡ ok index
unfolding load_index store_index le_bytes write
load_index-store_index index h k =
    ground (arith, from_le-le_bytes 8 index.current_segment, from_le-le_bytes 8 index.write_offset)

module _ (crc32 : List ℕ → ℕ) where
  pub length-encode_reader_slot : (m : ReaderMeta) → length (encode_reader_slot crc32 m) ≡ 40
  unfolding encode_reader_slot slot_fields
  length-encode_reader_slot m = simp length-write

  pub parse-encode :
      (m : ReaderMeta)
      → IsMeta m
      → crc32 (slice (slot_fields m) 0 32) < 2 ^ 32
      → parse_reader_slot crc32 (encode_reader_slot crc32 m) ≡ some m
  unfolding parse_reader_slot encode_reader_slot slot_fields le_bytes write
  parse-encode m v c = ground (
    arith,
    from_le-le_bytes 8 m.segment_id,
    from_le-le_bytes 8 m.offset,
    from_le-le_bytes 8 m.last_heartbeat_ns,
    from_le-le_bytes 8 m.generation,
    from_le-le_bytes 4 (crc32 (slice (slot_fields m) 0 32)),
  )
