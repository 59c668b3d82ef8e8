-- ===== src/Reader.antt =====
-- src/core/segment.rs, the metadata file of a reader and the index file of the writer. A file is
-- its bytes, or `none` when it does not exist; the checksum of `crc32fast` is the parameter `crc32`.
pub mod Slots
pub mod Recovery
mod Tests
use chronicle_rs.Base.{
  ℕ, ◌+◌, ◌-◌, ◌*◌, ◌%◌, ◌^◌, min, List, [], ◌∷◌, ◌++◌, Option, none, some, Result, ok, err, io,
  unexpected_eof, corrupt_metadata, ◌==◌, ltb, not, if◌then◌else◌, length, take,
}
use chronicle_rs.Bytes.{le_bytes, from_le, slice, write, zeros}
use chronicle_rs.Store.{seg_data_offset}

pub record SegmentIndex : Type 0 where
  pub current_segment : ℕ
  pub write_offset : ℕ

unfoldable pub load_index : Option (List ℕ) → Result SegmentIndex
load_index none = ok (record { current_segment = 0; write_offset = seg_data_offset })
load_index (some file) =
    if ltb (length file) 16
    then err (io unexpected_eof)
    else ok (record {
      current_segment = from_le (slice file 0 8);
      write_offset = from_le (slice file 8 8);
    })

-- The file that `store_index` leaves.
unfoldable pub store_index : SegmentIndex → List ℕ
store_index index =
    write (write (zeros 16) 0 (le_bytes 8 index.current_segment)) 8 (le_bytes 8 index.write_offset)

pub record ReaderMeta : Type 0 where
  pub segment_id : ℕ
  pub offset : ℕ
  pub last_heartbeat_ns : ℕ
  pub generation : ℕ

abbrev pub reader_meta_slot_size : ℕ
reader_meta_slot_size = 40

abbrev pub reader_meta_file_size : ℕ
reader_meta_file_size = 80

unfoldable pub select_reader_slot : Option ReaderMeta → Option ReaderMeta → Option ReaderMeta
select_reader_slot none none = none
select_reader_slot (some a) none = some a
select_reader_slot none (some b) = some b
select_reader_slot (some a) (some b) = if ltb a.generation b.generation then some b else some a

-- The first 32 bytes of a slot, on 40 zeros.
unfoldable pub slot_fields : ReaderMeta → List ℕ
slot_fields meta =
    write
      (write (write (write (zeros 40) 0 (le_bytes 8 meta.segment_id)) 8 (le_bytes 8 meta.offset)) 16
        (le_bytes 8 meta.last_heartbeat_ns))
      24 (le_bytes 8 meta.generation)

-- `set_len`: cut off, or filled up with zeros.
unfoldable pub set_len : List ℕ → ℕ → List ℕ
set_len file n = take n (file ++ zeros n)

unfoldable pub bytes_of : Option (List ℕ) → List ℕ
bytes_of none = []
bytes_of (some file) = file

unfoldable pub next_generation : ReaderMeta → ReaderMeta
next_generation meta = record meta { generation = min (meta.generation + 1) (2 ^ 64 - 1) }

unfoldable pub slot_offset : ReaderMeta → ℕ
slot_offset meta = (meta.generation % 2) * reader_meta_slot_size

module _ (crc32 : List ℕ → ℕ) where
  unfoldable pub encode_reader_slot : ReaderMeta → List ℕ
  encode_reader_slot meta =
      let buf = slot_fields meta in write buf 32 (le_bytes 4 (crc32 (slice buf 0 32)))

  unfoldable pub parse_reader_slot : List ℕ → Option ReaderMeta
  parse_reader_slot buf =
      if not (length buf == 40)
      then none
      else if not (crc32 (slice buf 0 32) == from_le (slice buf 32 4))
      then none
      else some (record {
        segment_id = from_le (slice buf 0 8);
        offset = from_le (slice buf 8 8);
        last_heartbeat_ns = from_le (slice buf 16 8);
        generation = from_le (slice buf 24 8);
      })

  -- The two slots of a file of full size.
  unfoldable pub load_slots : List ℕ → Result ReaderMeta
  load_slots file =
      elim (select_reader_slot (parse_reader_slot (slice file 0 reader_meta_slot_size))
        (parse_reader_slot (slice file reader_meta_slot_size reader_meta_slot_size))) [
          | some meta ↦ ok meta
          | none ↦ err (corrupt_metadata "no valid reader metadata slot")
        ]

  -- Files of 8 and of 16 bytes are older formats.
  unfoldable pub load_reader_meta : Option (List ℕ) → Result ReaderMeta
  load_reader_meta none =
      ok
        (record { segment_id = 0; offset = seg_data_offset; last_heartbeat_ns = 0; generation = 0 })
  load_reader_meta (some file) =
      if length file == 8
      then ok
          (record { segment_id = 0; offset = from_le file; last_heartbeat_ns = 0; generation = 0 })
      else if length file == 16
      then ok (record {
        segment_id = from_le (slice file 0 8);
        offset = from_le (slice file 8 8);
        last_heartbeat_ns = 0;
        generation = 0;
      })
      else if not (length file == reader_meta_file_size)
      then err (corrupt_metadata "reader metadata has unexpected size")
      else load_slots file

  -- The file and the caller's metadata after the call.
  unfoldable pub store_reader_meta : Option (List ℕ) → ReaderMeta → List ℕ × ReaderMeta
  store_reader_meta file meta =
      let sized = set_len (bytes_of file) reader_meta_file_size in
      let meta' = next_generation meta in
      (write sized (slot_offset meta') (encode_reader_slot meta'), meta')
