-- ===== src/Writer/Append.antt =====
-- What one append leaves in the segment: the record where the offset stood, everything before it
-- as it was, zeros behind it.
use chronicle_rs.Base.{
  ℕ, ◌+◌, ◌-◌, ◌%◌, ◌^◌, ◌≤◌, ◌<◌, ◌≡◌, refl, sym, ap, ◌∙◌, List, [], ◌∷◌, true, some, ok, leb,
  length, drop, arith,
}
use chronicle_rs.Bytes.{Mem, le_bytes, slice, write, write_range, zeros}
use chronicle_rs.Bytes.Slices.{
  length-write, slice-write_self, slice-write_before, slice-write_after, slice-write_exact,
  slice-write_inside, drop-write, write-nil_bytes, drop-drop,
}
use chronicle_rs.Bytes.Codec.{length-le_bytes}
use chronicle_rs.Header.{
  MessageHeader, new_uncommitted, to_bytes, max_payload_len, commit_len_for_payload,
  store_commit_len,
}
use chronicle_rs.Header.Align.{align_up_bounds}
use chronicle_rs.Header.RoundTrip.{length-to_bytes, write_commit}
use chronicle_rs.Store.Prepare.{drop-zeros}
use chronicle_rs.Writer.{
  SegmentWriter, record_len_of, put_payload, put_header, put_commit, append, ensure_segment, opened,
  take_offset,
}

-- A message as a client hands it over.
pub record Msg : Type 0 where
  pub type_id : ℕ
  pub timestamp_ns : ℕ
  pub payload : List ℕ

abbrev pub msg_len : Msg → ℕ
msg_len p = record_len_of (length p.payload)

-- The message fits its types and the data area of a segment of `size` bytes.
pub record Fits (size : ℕ) (p : Msg) : Type 0 where
  pub type_id_fits : p.type_id < 2 ^ 16
  pub timestamp_fits : p.timestamp_ns < 2 ^ 64
  pub payload_fits : length p.payload ≤ max_payload_len
  pub record_fits : 64 + msg_len p ≤ size

pub record_len_bounds :
    (n : ℕ) → n ≤ max_payload_len → (64 + n ≤ record_len_of n) × (record_len_of n < n + 128)
unfolding record_len_of
record_len_bounds n h = omega (arith, align_up_bounds (64 + n) (omega arith))

pub put_payload_lem :
    (m : Mem) (off : ℕ) (payload : List ℕ)
    → length m < 2 ^ 64
    → off + 64 + length payload ≤ length m
    → put_payload m off payload ≡ ok (write m (off + 64) payload)
unfolding put_payload write_range
put_payload_lem m off [] small h = rw write-nil_bytes
put_payload_lem m off (b ∷ bs) small h = ground arith

pub put_header_lem :
    (m : Mem) (off : ℕ) (h : MessageHeader)
    → length m < 2 ^ 64
    → off + 64 ≤ length m
    → put_header m off h ≡ ok (write m off (to_bytes h))
unfolding put_header write_range
put_header_lem m off h small room = ground (arith, length-to_bytes h)

pub put_commit_lem :
    (m : Mem) (off n : ℕ)
    → n ≤ max_payload_len
    → put_commit m off n ≡ ok (write m off (le_bytes 4 (n + 1)))
unfolding put_commit commit_len_for_payload store_commit_len
put_commit_lem m off n h = ground arith

ensure_segment_mapped : (w : SegmentWriter) (m : Mem) → w.mmap ≡ some m → ensure_segment w ≡ ok w
unfolding ensure_segment
ensure_segment_mapped w m e = ground arith

opened_lem : (w : SegmentWriter) (m : Mem) → w.mmap ≡ some m → opened w ≡ ok m
unfolding opened
opened_lem w m e = ground arith

pub take_offset_lem : (off n : ℕ) → off + n < 2 ^ 64 → take_offset off n ≡ ok (off + n)
unfolding take_offset
take_offset_lem off n h = ground arith

module _ (crc32 : List ℕ → ℕ) where
  -- The header that a reader finds.
  abbrev pub committed : ℕ → Msg → MessageHeader
  committed seq p =
      let h = new_uncommitted seq p.timestamp_ns p.type_id 0 (crc32 p.payload) in
      record h { commit_len = length p.payload + 1 }

  -- A record of message `p`, numbered `seq`, stands at `off`.
  pub record RecordAt (m : Mem) (off seq : ℕ) (p : Msg) : Type 0 where
    pub header_there : slice m off 64 ≡ to_bytes (committed seq p)
    pub payload_there : slice m (off + 64) (length p.payload) ≡ p.payload
    pub within : off + msg_len p ≤ length m

  -- The three writes of an append.
  abbrev pub stage_payload : Mem → ℕ → Msg → Mem
  stage_payload m off p = write m (off + 64) p.payload

  abbrev pub stage_header : Mem → ℕ → ℕ → Msg → Mem
  stage_header m off seq p =
      write (stage_payload m off p) off
        (to_bytes (new_uncommitted seq p.timestamp_ns p.type_id 0 (crc32 p.payload)))

  abbrev pub stage_commit : Mem → ℕ → ℕ → Msg → Mem
  stage_commit m off seq p =
      write (stage_header m off seq p) off (le_bytes 4 (length p.payload + 1))

  pub length-stage_commit :
      (m : Mem) (off seq : ℕ) (p : Msg) → length (stage_commit m off seq p) ≡ length m
  length-stage_commit m off seq p = simp length-write

  -- What lies before the record is untouched, at every stage.
  pub stage_commit_before :
      (m : Mem) (off seq : ℕ) (p : Msg) (a n : ℕ)
      → a + n ≤ off
      → slice (stage_commit m off seq p) a n ≡ slice m a n
  stage_commit_before m off seq p a n h =
      slice-write_before _ off _ a n h
      ∙ slice-write_before _ off _ a n h
      ∙ slice-write_before m (off + 64) p.payload a n (omega arith)

  pub stage_commit-RecordAt :
      (m : Mem) (off seq : ℕ) (p : Msg)
      → length p.payload ≤ max_payload_len
      → off + msg_len p ≤ length m
      → RecordAt (stage_commit m off seq p) off seq p
  stage_commit-RecordAt m off seq p hp h = record {
    header_there =
        slice-write_inside _ off 0 off (le_bytes 4 (length p.payload + 1)) 64 (omega arith)
          (omega (arith, length-le_bytes 4 (length p.payload + 1)))
        ∙ ap (λ t. write t 0 (le_bytes 4 (length p.payload + 1)))
            (slice-write_exact (stage_payload m off p) off _ 64
              (length-to_bytes (new_uncommitted seq p.timestamp_ns p.type_id 0 (crc32 p.payload)))
              room)
        ∙ write_commit seq p.timestamp_ns p.type_id 0 (crc32 p.payload) (length p.payload + 1);
    payload_there =
        slice-write_after (stage_header m off seq p) off _ (off + 64) (length p.payload)
          (omega (arith, length-le_bytes 4 (length p.payload + 1)))
        ∙ slice-write_after (stage_payload m off p) off _ (off + 64) (length p.payload)
            (omega (arith, header_length))
        ∙ slice-write_self m (off + 64) p.payload (omega (arith, bounds));
    within = omega (arith, length-stage_commit m off seq p);
  }
    where
      bounds :
          (64 + length p.payload ≤ record_len_of (length p.payload))
          × (record_len_of (length p.payload) < length p.payload + 128)
      bounds = record_len_bounds (length p.payload) hp

      header_length :
          length (to_bytes (new_uncommitted seq p.timestamp_ns p.type_id 0 (crc32 p.payload))) ≡ 64
      header_length = length-to_bytes _

      room : off + 64 ≤ length (stage_payload m off p)
      room = omega (arith, bounds, length-write m (off + 64) p.payload)

  -- Zeros behind the record stay zeros.
  pub stage_commit_tail :
      (m : Mem) (off seq : ℕ) (p : Msg)
      → length p.payload ≤ max_payload_len
      → drop off m ≡ zeros (length m - off)
      → drop (off + msg_len p) (stage_commit m off seq p) ≡ zeros (length m - (off + msg_len p))
  stage_commit_tail m off seq p hp z =
      drop-write (stage_header m off seq p) off _ (off + msg_len p)
        (omega (arith, length-le_bytes 4 (length p.payload + 1), bounds))
      ∙ drop-write (stage_payload m off p) off _ (off + msg_len p)
          (omega (arith, bounds, length-to_bytes plain))
      ∙ drop-write m (off + 64) p.payload (off + msg_len p) (omega (arith, bounds))
      ∙ sym (drop-drop m (msg_len p) off (off + msg_len p) refl)
      ∙ ap (drop (msg_len p)) z
      ∙ drop-zeros (msg_len p) (length m - off)
      ∙ rest
    where
      plain : MessageHeader
      plain = new_uncommitted seq p.timestamp_ns p.type_id 0 (crc32 p.payload)

      bounds :
          (64 + length p.payload ≤ record_len_of (length p.payload))
          × (record_len_of (length p.payload) < length p.payload + 128)
      bounds = record_len_bounds (length p.payload) hp

      rest : zeros (length m - off - msg_len p) ≡ zeros (length m - (off + msg_len p))
      rest =
          let same : length m - off - msg_len p ≡ length m - (off + msg_len p) = omega arith in
          rw same

  pub append_lem :
      (w : SegmentWriter) (m : Mem) (p : Msg)
      → w.mmap ≡ some m
      → length m ≡ w.segment_size
      → w.segment_size < 2 ^ 63
      → Fits w.segment_size p
      → w.write_offset + msg_len p ≤ w.segment_size
      → append crc32 w p.type_id p.timestamp_ns p.payload
        ≡ ok (record w {
          mmap = some (stage_commit m w.write_offset w.seq p);
          seq = (w.seq + 1) % 2 ^ 64;
          write_offset = w.write_offset + msg_len p;
          has_records = true;
        })
  unfolding append
  append_lem w m p mapped size small fits room =
      let n : ℕ = length p.payload in
      let off : ℕ = w.write_offset in
      let plain = new_uncommitted w.seq p.timestamp_ns p.type_id 0 (crc32 p.payload) in
      let bounds = record_len_bounds n fits.payload_fits in
      let small_payload : leb n max_payload_len ≡ true = ground arith in
      let small_record : leb (msg_len p) (w.segment_size - 64) ≡ true = ground arith in
      rw small_payload (
        rw small_record (
          rw (ensure_segment_mapped w m mapped) (
            rw (opened_lem w m mapped) (
              rw (put_payload_lem m off p.payload (omega arith) (omega arith)) (
                rw
                  (put_header_lem (stage_payload m off p) off plain
                    (omega (arith, length-write m (off + 64) p.payload))
                    (omega (arith, length-write m (off + 64) p.payload)))
                  (rw (put_commit_lem (stage_header m off w.seq p) off n fits.payload_fits)
                    (rw (take_offset_lem off (msg_len p) (omega arith)))))))))

  -- With no segment open, an append works on the segment that `ensure_segment` opens.
  pub append_ensure :
      (w w' : SegmentWriter) (p : Msg)
      → ensure_segment w ≡ ok w'
      → ensure_segment w' ≡ ok w'
      → w'.segment_size ≡ w.segment_size
      → append crc32 w p.type_id p.timestamp_ns p.payload
        ≡ append crc32 w' p.type_id p.timestamp_ns p.payload
  unfolding append
  append_ensure w w' p e e' same = rw (e, e') (rw same)
