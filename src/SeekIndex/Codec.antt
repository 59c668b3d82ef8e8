-- ===== src/SeekIndex/Codec.antt =====
-- The file of a seek index: what was flushed is loaded.
use chronicle_rs.Base.{
  ℕ, ◌^◌, ◌<◌, ◌≡◌, refl, List, [], ◌∷◌, ◌++◌, ok, length, length-append, drop, drop-append, take,
  take-append, subst, ltb, false, arith, All,
}
use chronicle_rs.Bytes.{le_bytes, write}
use chronicle_rs.Bytes.Slices.{length-write}
use chronicle_rs.Bytes.Codec.{from_le-le_bytes}
use chronicle_rs.SeekIndex.{
  SeekIndexHeader, SeekIndexEntry, index_version, index_header_len, encode_header, decode_header,
  bytes_eq, encode_entry, encode_entries, decode_entry, read_entries,
}

-- The fields fit their widths.
pub record IsIndexHeader (h : SeekIndexHeader) : Type 0 where
  pub version_is : h.version ≡ index_version
  pub header_len_is : h.header_len ≡ index_header_len
  pub flags_fits : h.flags < 2 ^ 32
  pub segment_id_fits : h.segment_id < 2 ^ 64
  pub segment_size_fits : h.segment_size < 2 ^ 64
  pub data_offset_fits : h.data_offset < 2 ^ 32
  pub entry_stride_fits : h.entry_stride < 2 ^ 32
  pub min_seq_fits : h.min_seq < 2 ^ 64
  pub max_seq_fits : h.max_seq < 2 ^ 64
  pub min_ts_fits : h.min_ts_ns < 2 ^ 64
  pub max_ts_fits : h.max_ts_ns < 2 ^ 64
  pub entry_count_fits : h.entry_count < 2 ^ 64

pub decode_header-encode_header :
    (h : SeekIndexHeader) → IsIndexHeader h → decode_header (encode_header h) ≡ ok h
unfolding decode_header encode_header le_bytes write bytes_eq
decode_header-encode_header h v = ground (
  arith,
  from_le-le_bytes 2 h.version,
  from_le-le_bytes 2 h.header_len,
  from_le-le_bytes 4 h.flags,
  from_le-le_bytes 8 h.segment_id,
  from_le-le_bytes 8 h.segment_size,
  from_le-le_bytes 4 h.data_offset,
  from_le-le_bytes 4 h.entry_stride,
  from_le-le_bytes 8 h.min_seq,
  from_le-le_bytes 8 h.max_seq,
  from_le-le_bytes 8 h.min_ts_ns,
  from_le-le_bytes 8 h.max_ts_ns,
  from_le-le_bytes 8 h.entry_count,
)

pub record IsEntry (e : SeekIndexEntry) : Type 0 where
  pub seq_fits : e.seq < 2 ^ 64
  pub timestamp_fits : e.timestamp_ns < 2 ^ 64
  pub offset_fits : e.offset < 2 ^ 64

decode_entry-encode_entry : (e : SeekIndexEntry) → IsEntry e → decode_entry (encode_entry e) ≡ e
unfolding decode_entry encode_entry le_bytes write
decode_entry-encode_entry e v = ground (
  arith,
  from_le-le_bytes 8 e.seq,
  from_le-le_bytes 8 e.timestamp_ns,
  from_le-le_bytes 8 e.offset,
)

length-encode_entry : (e : SeekIndexEntry) → length (encode_entry e) ≡ 24
unfolding encode_entry
length-encode_entry e = simp length-write

take_entry :
    (e : SeekIndexEntry) (rest : List ℕ) → take 24 (encode_entry e ++ rest) ≡ encode_entry e
take_entry e rest =
    subst (λ n. take n (encode_entry e ++ rest) ≡ encode_entry e) (length-encode_entry e)
      (take-append (encode_entry e) rest)

drop_entry : (e : SeekIndexEntry) (rest : List ℕ) → drop 24 (encode_entry e ++ rest) ≡ rest
drop_entry e rest =
    subst (λ n. drop n (encode_entry e ++ rest) ≡ rest) (length-encode_entry e)
      (drop-append (encode_entry e) rest)

-- Reading as many entries as were written, whatever follows them.
pub read_entries-encode_entries :
    (es : List SeekIndexEntry)
    → All IsEntry es
    → read_entries (length es) (encode_entries es) ≡ ok es
unfolding read_entries encode_entries
read_entries-encode_entries [] h = refl
read_entries-encode_entries (e ∷ es) (v, vs) =
    let rest : List ℕ = encode_entries es in
    let enough : ltb (length (encode_entry e ++ rest)) 24 ≡ false =
      ground (arith, length-append (encode_entry e) rest, length-encode_entry e) in
    rw
      (
        enough,
        take_entry e rest,
        drop_entry e rest,
        read_entries-encode_entries es vs,
        decode_entry-encode_entry e v,
      )
      refl

pub length-encode_header : (h : SeekIndexHeader) → length (encode_header h) ≡ 80
unfolding encode_header
length-encode_header h = simp length-write
