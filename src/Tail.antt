-- ===== src/Tail.antt =====
-- The end of an unsealed segment: `scan_segment_tail` of src/core/writer.rs and
-- `repair_unsealed_tail` of src/core/segment.rs. `segment_size` is the length of the mapping. A
-- round that goes on advances by at least 64 bytes, so the segment's size is fuel enough; `none`
-- means that the fuel ran out.
pub mod Scan
mod Tests
use Prim.Native.Nat.{bit_and}
use chronicle_rs.Base.{
  ℕ, zero, suc, ◌+◌, ◌-◌, ◌^◌, max, List, [], ◌∷◌, Option, none, some, Bool, true, false, Result,
  ok, err, ◌>>=◌, ◌==◌, ltb, leb, not, if◌then◌else◌,
}
use chronicle_rs.Bytes.{Mem, slice, write_range, zeros}
use chronicle_rs.Header.{
  header_size, record_align, max_payload_len, pad_type_id, new_uncommitted, to_bytes,
  load_commit_len, store_commit_len, payload_len_from_commit, commit_len_for_payload, align_up,
}
use chronicle_rs.Store.{seg_data_offset, read_segment_header, seal_segment}

-- What both loops make of the bytes at an offset.
pub data TailRound : Type 0 where
  no_room no_commit damaged : TailRound
  advance : (record_len : ℕ) → TailRound

unfoldable pub tail_round : Mem → ℕ → ℕ → TailRound
tail_round m segment_size offset =
    if ltb segment_size (offset + header_size)
    then no_room
    else if load_commit_len m offset == 0
    then no_commit
    else elim (payload_len_from_commit (load_commit_len m offset)) [
      | err _ ↦ damaged
      | ok payload_len ↦
          if ltb max_payload_len payload_len
          then damaged
          else if ltb segment_size (offset + align_up (header_size + payload_len) record_align)
          then damaged
          else advance (align_up (header_size + payload_len) record_align)
    ]

-- `bytes.iter().any(|&b| b != 0)`
unfoldable pub any_nonzero : List ℕ → Bool
any_nonzero [] = false
any_nonzero (b ∷ bs) = if b == 0 then any_nonzero bs else true

-- The loop of `scan_segment_tail`: the end of the records, and whether something unfinished
-- follows.
unfoldable pub scan_loop : ℕ → Mem → ℕ → ℕ → Option (ℕ × Bool)
scan_loop zero m segment_size offset = none
scan_loop (suc fuel) m segment_size offset = elim (tail_round m segment_size offset) [
  | no_room ↦ some (offset, false)
  | no_commit ↦ some (offset, any_nonzero (slice m offset header_size))
  | damaged ↦ some (offset, true)
  | advance record_len ↦ scan_loop fuel m segment_size (offset + record_len)
]

unfoldable pub scan_segment_tail : Mem → ℕ → ℕ → Option (ℕ × Bool)
unfolding scan_loop
scan_segment_tail m start_offset segment_size =
    scan_loop (segment_size + 1) m segment_size (max start_offset seg_data_offset)

-- The loop of `repair_unsealed_tail`, which ends with `end_offset` at the offset.
unfoldable pub repair_loop : ℕ → Mem → ℕ → ℕ → Option ℕ
repair_loop zero m segment_size offset = none
repair_loop (suc fuel) m segment_size offset = elim (tail_round m segment_size offset) [
  | no_room ↦ some offset
  | no_commit ↦ some offset
  | damaged ↦ some offset
  | advance record_len ↦ repair_loop fuel m segment_size (offset + record_len)
]

-- The padding record that fills the rest of the segment.
unfoldable pub put_pad : Mem → ℕ → ℕ → Result Mem
put_pad m segment_size end_offset = if ltb segment_size (end_offset + header_size) then ok m else do
  let payload_len = segment_size - end_offset - header_size
  commit_len ← commit_len_for_payload payload_len
  with_header ← write_range m end_offset (to_bytes (new_uncommitted 0 0 pad_type_id 0 0))
  cleared ←
      if ltb 0 payload_len
      then write_range with_header (end_offset + header_size) (zeros payload_len)
      else ok with_header
  ok (store_commit_len cleared end_offset commit_len)

unfoldable pub repair_unsealed_tail : Mem → ℕ → Option (Result Mem)
unfolding repair_loop
repair_unsealed_tail m segment_size = elim (read_segment_header m) [
  | err e ↦ some (err e)
  | ok header ↦
      if not (bit_and header.flags 1 == 0)
      then some (ok m)
      else elim (repair_loop (segment_size + 1) m segment_size seg_data_offset) [
        | none ↦ none
        | some end_offset ↦
            some (do padded ← put_pad m segment_size end_offset; seal_segment padded)
      ]
]
