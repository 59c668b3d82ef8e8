-- ===== src/Cursor/Records.antt =====
-- One round of the cursor over a segment: it finds the record that an append left, and nothing
-- before the commit word is stored.
use chronicle_rs.Base.{
  ℕ, ◌+◌, ◌^◌, ◌≤◌, ◌<◌, ◌≡◌, refl, sym, ap, ◌∙◌, List, some, none, ok, true, false, ltb, leb, ◌==◌,
  length, take, drop, arith,
}
use chronicle_rs.Bytes.{Mem, from_le, slice, zeros}
use chronicle_rs.Bytes.Slices.{length-write, slice-slice, slice-write_exact, slice-write_before}
use chronicle_rs.Header.{
  new_uncommitted, to_bytes, from_bytes, load_commit_len, payload_len_from_commit, max_payload_len,
}
use chronicle_rs.Header.RoundTrip.{
  IsHeader, from_bytes-to_bytes, commit_word-to_bytes, length-to_bytes,
}
use chronicle_rs.Store.Prepare.{from_le-zeros}
use chronicle_rs.Writer.{record_len_of}
use chronicle_rs.Writer.Append.{
  Msg, msg_len, Fits, RecordAt, committed, record_len_bounds, stage_payload, stage_header,
}
use chronicle_rs.Cursor.{MessageRef, read_record}

-- Where the offset leaves no room for a header, the segment is at its end.
pub read_record_end : (m : Mem) (off : ℕ) → length m < off + 64 → read_record m off ≡ ok none
unfolding read_record
read_record_end m off h = ground arith

pub read_record_zero : (m : Mem) (off : ℕ) → load_commit_len m off ≡ 0 → read_record m off ≡ ok none
unfolding read_record
read_record_zero m off z = ground arith

-- In a tail of zeros there is no record.
pub read_record_tail : (m : Mem) (off k : ℕ) → drop off m ≡ zeros k → read_record m off ≡ ok none
unfolding load_commit_len
read_record_tail m off k z =
    read_record_zero m off (ap (λ t. from_le (take 4 t)) z ∙ from_le-zeros 4 k)

slice-slice_start : (m : Mem) (off : ℕ) → slice m off 4 ≡ slice (slice m off 64) 0 4
slice-slice_start m off =
    let same : off + 0 ≡ off = omega arith in
    sym (slice-slice m off 64 0 4 (omega arith) ∙ ap (λ a. slice m a 4) same)

module _ (crc32 : List ℕ → ℕ) where
  abbrev pub ref_of : ℕ → ℕ → Msg → MessageRef
  ref_of off seq p = record {
    seq = seq;
    timestamp_ns = p.timestamp_ns;
    type_id = p.type_id;
    payload_offset = off + 64;
    payload_len = length p.payload;
    checksum = crc32 p.payload;
  }

  committed-IsHeader :
      (size seq : ℕ) (p : Msg)
      → Fits size p
      → seq < 2 ^ 64
      → crc32 p.payload < 2 ^ 32
      → IsHeader (committed crc32 seq p)
  unfolding new_uncommitted
  committed-IsHeader size seq p f hs hc = omega arith

  pub commit_word_lem :
      (m : Mem) (off seq : ℕ) (p : Msg)
      → length p.payload ≤ max_payload_len
      → RecordAt crc32 m off seq p
      → load_commit_len m off ≡ length p.payload + 1
  unfolding load_commit_len
  commit_word_lem m off seq p hp r =
      ap from_le (slice-slice_start m off)
      ∙ ap (λ t. from_le (slice t 0 4)) r.header_there
      ∙ commit_word-to_bytes (committed crc32 seq p) (omega arith)

  pub payload_len_lem : (n : ℕ) → payload_len_from_commit (n + 1) ≡ ok n
  unfolding payload_len_from_commit
  payload_len_lem n = ground arith

  -- The cursor finds the record with all its fields, and the next offset behind it.
  pub read_record-RecordAt :
      (m : Mem) (off seq : ℕ) (p : Msg)
      → length m < 2 ^ 63
      → Fits (length m) p
      → seq < 2 ^ 64
      → crc32 p.payload < 2 ^ 32
      → RecordAt crc32 m off seq p
      → read_record m off ≡ ok (some (ref_of off seq p, off + msg_len p))
  unfolding read_record record_len_of new_uncommitted
  read_record-RecordAt m off seq p small f hs hc r =
      let n : ℕ = length p.payload in
      let bounds = record_len_bounds n f.payload_fits in
      let room : ltb (length m) (off + 64) ≡ false = ground (arith, r.within, bounds.0) in
      let word = commit_word_lem m off seq p f.payload_fits r in
      let nonzero : (n + 1 == 0) ≡ false = ground arith in
      let payload_ok : leb n max_payload_len ≡ true = ground arith in
      let inside : leb (off + msg_len p) (length m) ≡ true = ground arith in
      let no_wrap : ltb (off + msg_len p) (2 ^ 64) ≡ true = ground arith in
      let header =
        ap from_bytes r.header_there
        ∙ from_bytes-to_bytes (committed crc32 seq p) (committed-IsHeader (length m) seq p f hs hc)
            version in
      rw room (
        rw word (
          rw nonzero (rw (payload_len_lem n) (rw payload_ok (rw inside (rw header (rw no_wrap)))))))
    where
      version : (committed crc32 seq p).version ≡ 1
      version = unfold new_uncommitted in refl

  uncommitted_is_zero :
      (seq : ℕ) (p : Msg)
      → (new_uncommitted seq p.timestamp_ns p.type_id 0 (crc32 p.payload)).commit_len ≡ 0
  unfolding new_uncommitted
  uncommitted_is_zero seq p = refl

  uncommitted_zero :
      (seq : ℕ) (p : Msg)
      → (new_uncommitted seq p.timestamp_ns p.type_id 0 (crc32 p.payload)).commit_len < 2 ^ 32
  uncommitted_zero seq p = omega (arith, uncommitted_is_zero seq p)

  -- Until its commit word is stored, a record does not exist for a reader: neither after the
  -- payload nor after the header has been written.
  pub uncommitted_invisible :
      (m : Mem) (off seq k : ℕ) (p : Msg)
      → off + msg_len p ≤ length m
      → length p.payload ≤ max_payload_len
      → drop off m ≡ zeros k
      → (read_record (stage_payload crc32 m off p) off ≡ ok none)
        × (read_record (stage_header crc32 m off seq p) off ≡ ok none)
  unfolding load_commit_len
  uncommitted_invisible m off seq k p room hp z =
      let n : ℕ = length p.payload in
      let bounds = record_len_bounds n hp in
      let plain = new_uncommitted seq p.timestamp_ns p.type_id 0 (crc32 p.payload) in
      (
        read_record_zero _ off (
            ap from_le (slice-write_before m (off + 64) p.payload off 4 (omega arith))
            ∙ ap (λ t. from_le (take 4 t)) z
            ∙ from_le-zeros 4 k),
        read_record_zero _ off (
            ap from_le (slice-slice_start _ off)
            ∙ ap (λ t. from_le (slice t 0 4))
                (slice-write_exact (stage_payload crc32 m off p) off (to_bytes plain) 64
                  (length-to_bytes plain)
                  (omega (arith, bounds, length-write m (off + 64) p.payload)))
            ∙ commit_word-to_bytes plain (uncommitted_zero seq p)
            ∙ uncommitted_is_zero seq p),
      )
