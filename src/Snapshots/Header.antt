-- ===== src/Snapshots/Header.antt =====
-- The header of a snapshot file is decoded as it was encoded.
use chronicle_rs.Base.{
  ℕ, ◌^◌, ◌<◌, ◌≡◌, subst, List, ◌++◌, inr, length, length-append, take, drop, take-append,
  take_all, arith,
}
use chronicle_rs.Bytes.{le_bytes}
use chronicle_rs.Bytes.Codec.{from_le-le_bytes}
use chronicle_rs.SeekIndex.{bytes_eq}
use chronicle_rs.Protocol.Layout.{drop_behind}
use chronicle_rs.Snapshots.Format.{
  SnapshotHeader, snapshot_magic, snapshot_header_len, encode_header, decode_header,
}

pub record IsSnapshotHeader (h : SnapshotHeader) : Type 0 where
  pub magic_is : h.magic ≡ snapshot_magic
  pub header_len_is : h.header_len ≡ snapshot_header_len
  pub schema_version_fits : h.schema_version < 2 ^ 16
  pub endianness_fits : h.endianness < 2 ^ 16
  pub book_mode_fits : h.book_mode < 2 ^ 16
  pub venue_id_fits : h.venue_id < 2 ^ 32
  pub market_id_fits : h.market_id < 2 ^ 32
  pub seq_num_fits : h.seq_num < 2 ^ 64
  pub ingest_start_fits : h.ingest_ts_ns_start < 2 ^ 64
  pub ingest_end_fits : h.ingest_ts_ns_end < 2 ^ 64
  pub exchange_start_fits : h.exchange_ts_ns_start < 2 ^ 64
  pub exchange_end_fits : h.exchange_ts_ns_end < 2 ^ 64
  pub book_hash_fits : length h.book_hash ≡ 16
  pub payload_len_fits : h.payload_len < 2 ^ 64
  pub flags_fits : h.flags < 2 ^ 64
  pub reserved_fits : length h.reserved ≡ 32

pub length-encode_header :
    (h : SnapshotHeader) → IsSnapshotHeader h → length (encode_header h) ≡ snapshot_header_len
unfolding encode_header le_bytes
length-encode_header h v = simp v.magic_is (
    omega (
      arith,
      length-append h.book_hash (le_bytes 8 h.payload_len ++ (le_bytes 8 h.flags ++ h.reserved)),
      v.book_hash_fits,
      v.reserved_fits,
    ))

pub decode_header-encode_header :
    (h : SnapshotHeader) → IsSnapshotHeader h → decode_header (encode_header h) ≡ inr h
unfolding decode_header encode_header le_bytes bytes_eq
decode_header-encode_header h v =
    let tail : List ℕ = le_bytes 8 h.payload_len ++ (le_bytes 8 h.flags ++ h.reserved) in
    let hash : take 16 (h.book_hash ++ tail) ≡ h.book_hash =
      subst (λ n. take n (h.book_hash ++ tail) ≡ h.book_hash) v.book_hash_fits
        (take-append h.book_hash tail) in
    let behind : drop 16 (h.book_hash ++ tail) ≡ tail =
      drop_behind h.book_hash tail 0 16 (omega (arith, v.book_hash_fits)) in
    let at_flags : drop 24 (h.book_hash ++ tail) ≡ drop 8 tail =
      drop_behind h.book_hash tail 8 24 (omega (arith, v.book_hash_fits)) in
    let at_reserved : drop 32 (h.book_hash ++ tail) ≡ drop 16 tail =
      drop_behind h.book_hash tail 16 32 (omega (arith, v.book_hash_fits)) in
    let reserved : take 32 h.reserved ≡ h.reserved =
      take_all 32 h.reserved (omega (arith, v.reserved_fits)) in
    simp v.magic_is (
      ground (
        arith,
        length-append h.book_hash tail,
        hash,
        behind,
        at_flags,
        at_reserved,
        reserved,
        from_le-le_bytes 2 h.schema_version,
        from_le-le_bytes 2 h.header_len,
        from_le-le_bytes 2 h.endianness,
        from_le-le_bytes 2 h.book_mode,
        from_le-le_bytes 4 h.venue_id,
        from_le-le_bytes 4 h.market_id,
        from_le-le_bytes 8 h.seq_num,
        from_le-le_bytes 8 h.ingest_ts_ns_start,
        from_le-le_bytes 8 h.ingest_ts_ns_end,
        from_le-le_bytes 8 h.exchange_ts_ns_start,
        from_le-le_bytes 8 h.exchange_ts_ns_end,
        from_le-le_bytes 8 h.payload_len,
        from_le-le_bytes 8 h.flags,
      ))
