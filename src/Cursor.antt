-- ===== src/Cursor.antt =====
-- src/core/segment_cursor.rs: sequential reading over a list of segments.
pub mod Records
pub mod Steps
mod Tests
use mathlib.Core.Option
use chronicle_rs.Base.{
  ℕ, zero, suc, ◌+◌, ◌^◌, Bool, true, false, List, [], ◌∷◌, Option, none, some, Result, ok, err,
  corrupt, unsupported, guard, ◌>>=◌, ◌>>◌, ltb, leb, ◌==◌, if◌then◌else◌, length, get_elem?, drop,
  lookup, take,
}
use chronicle_rs.Bytes.{Mem, slice}
use chronicle_rs.Header.{
  header_size, record_align, max_payload_len, from_bytes, load_commit_len, payload_len_from_commit,
  align_up,
}
use chronicle_rs.Store.{Dir, seg_data_offset, open_segment}

pub record MessageRef : Type 0 where
  pub seq : ℕ
  pub timestamp_ns : ℕ
  pub type_id : ℕ
  pub payload_offset : ℕ
  pub payload_len : ℕ
  pub checksum : ℕ

pub record SegmentCursor : Type 0 where
  pub dir : Dir
  pub segments : List ℕ
  pub current_segment_idx : ℕ
  pub segment_size : ℕ
  pub current_mmap : Option Mem
  pub offset : ℕ

unfoldable pub open_cursor : Dir → List ℕ → ℕ → SegmentCursor
open_cursor dir segments segment_size = record {
  dir = dir;
  segments = segments;
  current_segment_idx = 0;
  segment_size = segment_size;
  current_mmap = none;
  offset = seg_data_offset;
}

unfoldable pub current_segment_id : SegmentCursor → Option ℕ
current_segment_id c = get_elem? c.segments c.current_segment_idx

unfoldable pub advance_segment : SegmentCursor → SegmentCursor
advance_segment c = record c {
  current_segment_idx = c.current_segment_idx + 1;
  current_mmap = none;
  offset = seg_data_offset;
}

-- The body of the loop of `next_header` over an open segment: `none` is the `continue` after
-- `advance_segment`, otherwise the record and the next offset.
unfoldable pub read_record : Mem → ℕ → Result (Option (MessageRef × ℕ))
read_record m start =
    if ltb (length m) (start + header_size)
    then ok none
    else if load_commit_len m start == 0
    then ok none
    else do
      payload_len ← payload_len_from_commit (load_commit_len m start)
      guard (leb payload_len max_payload_len) (corrupt "payload length exceeds max")
      let record_len = align_up (header_size + payload_len) record_align
      guard (leb (start + record_len) (length m)) (corrupt "record length out of bounds")
      header ← from_bytes (slice m start header_size)
      guard (ltb (start + record_len) (2 ^ 64)) (corrupt "read offset overflow")
      ok (
          some (
            record {
              seq = header.seq;
              timestamp_ns = header.timestamp_ns;
              type_id = header.type_id;
              payload_offset = start + header_size;
              payload_len = payload_len;
              checksum = header.checksum;
            },
            start + record_len,
          ))

-- `load_next_segment` from the ids that are left: segments that are gone are skipped.
unfoldable pub load_from : List ℕ → SegmentCursor → Result (Bool × SegmentCursor)
load_from [] c = ok (false, c)
load_from (id ∷ rest) c = elim (lookup id c.dir.files) [
  | none ↦
      load_from rest
        (record c { current_segment_idx = c.current_segment_idx + 1; offset = seg_data_offset })
  | some _ ↦ do
    m ← open_segment c.dir id c.segment_size
    ok (true, record c { current_mmap = some m })
]

unfoldable pub load_next_segment : SegmentCursor → Result (Bool × SegmentCursor)
unfolding load_from
load_next_segment c = load_from (drop c.current_segment_idx c.segments) c

-- The loop of `next_header`. Each round that goes on has left a segment behind, so `fuel` above
-- the number of segments left is enough; `none` means that it ran out.
unfoldable pub next_loop : ℕ → SegmentCursor → Option (Result (Option MessageRef × SegmentCursor))
next_loop zero c = none
next_loop (suc fuel) c =
    let go : SegmentCursor → Mem → Option (Result (Option MessageRef × SegmentCursor)) = λ c' m.
      elim (read_record m c'.offset) [
        | err e ↦ some (err e)
        | ok none ↦ next_loop fuel (advance_segment c')
        | ok (some (r, offset)) ↦ some (ok (some r, record c' { offset = offset }))
      ] in
    elim c.current_mmap [
      | some m ↦ go c m
      | none ↦ elim (load_next_segment c) [
        | err e ↦ some (err e)
        | ok (false, c') ↦ some (ok (none, c'))
        | ok (true, c') ↦ elim c'.current_mmap [ some m ↦ go c' m | none ↦ some (ok (none, c')) ]
      ]
    ]

unfoldable pub next_header : SegmentCursor → Option (Result (Option MessageRef × SegmentCursor))
unfolding next_loop
next_header c = next_loop (length c.segments + 1) c

-- The first `len` bytes of the caller's buffer.
unfoldable pub read_payload : SegmentCursor → ℕ → ℕ → Result (List ℕ)
read_payload c offset len = elim c.current_mmap [
  | none ↦ err (corrupt "no segment loaded")
  | some m ↦
      if ltb (length m) (offset + len)
      then err (corrupt "payload out of bounds")
      else ok (slice m offset len)
]

unfoldable pub position : ℕ → List ℕ → Option ℕ
position x [] = none
position x (y ∷ ys) = if y == x then some 0 else Option.map (λ n. n + 1) (position x ys)

unfoldable pub seek_segment : SegmentCursor → ℕ → ℕ → Result SegmentCursor
seek_segment c segment_id offset = elim (position segment_id c.segments) [
  | none ↦ err (unsupported "segment not found")
  | some idx ↦ do
    (_, c') ←
        load_next_segment
          (record c { current_segment_idx = idx; current_mmap = none; offset = offset })
    ok c'
]
