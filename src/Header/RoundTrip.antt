-- ===== src/Header/RoundTrip.antt =====
-- The header's byte format: reading back what was written.
use chronicle_rs.Base.{
  ℕ, ◌^◌, ◌<◌, ◌≡◌, refl, List, [], ◌∷◌, ok, err, length, take_all, arith, sym, subst, ◌≢◌,
  unsupported_version,
}
use chronicle_rs.Bytes.{le_bytes, from_le, slice, write, zeros}
use chronicle_rs.Bytes.Slices.{write_all, length-write}
use chronicle_rs.Bytes.Codec.{from_le-le_bytes}
use chronicle_rs.Header.{
  MessageHeader, new_uncommitted, to_bytes, from_bytes, msg_version, version_offset,
  commit_len_for_payload, payload_len_from_commit,
}

-- The fields fit their widths, as the Rust types have it.
pub record IsHeader (h : MessageHeader) : Type 0 where
  pub commit_len_fits : h.commit_len < 2 ^ 32
  pub version_fits : h.version < 2 ^ 8
  pub pad0_length : length h.pad0 ≡ 3
  pub seq_fits : h.seq < 2 ^ 64
  pub timestamp_fits : h.timestamp_ns < 2 ^ 64
  pub type_id_fits : h.type_id < 2 ^ 16
  pub flags_fits : h.flags < 2 ^ 16
  pub checksum_fits : h.checksum < 2 ^ 32
  pub pad_length : length h.pad ≡ 32

pub length-to_bytes : (h : MessageHeader) → length (to_bytes h) ≡ 64
unfolding to_bytes
length-to_bytes h = simp length-write

three : (xs : List ℕ) → length xs ≡ 3 → (a b c : ℕ) × (xs ≡ a ∷ b ∷ c ∷ [])
three [] e = absurd (omega arith)
three (a ∷ []) e = absurd (omega arith)
three (a ∷ b ∷ []) e = absurd (omega arith)
three (a ∷ b ∷ c ∷ []) e = (a, b, c, refl)
three (a ∷ b ∷ c ∷ d ∷ r) e = absurd (omega arith)

from_le-one : (b : ℕ) → from_le (b ∷ []) ≡ b
unfolding from_le
from_le-one b = omega arith

-- With the padding spelled out the buffer computes, field by field.
fields_read_back :
    (commit_len a b c seq timestamp_ns type_id flags checksum : ℕ) (pad : List ℕ)
    → let h : MessageHeader = record {
      commit_len = commit_len;
      version = msg_version;
      pad0 = a ∷ b ∷ c ∷ [];
      seq = seq;
      timestamp_ns = timestamp_ns;
      type_id = type_id;
      flags = flags;
      checksum = checksum;
      pad = pad;
    } in
      IsHeader h → from_bytes (to_bytes h) ≡ ok h
unfolding from_bytes to_bytes le_bytes write
fields_read_back commit_len a b c seq timestamp_ns type_id flags checksum pad v = ground (
  arith,
  from_le-le_bytes 4 commit_len,
  from_le-le_bytes 8 seq,
  from_le-le_bytes 8 timestamp_ns,
  from_le-le_bytes 2 type_id,
  from_le-le_bytes 2 flags,
  from_le-le_bytes 4 checksum,
  write_all (zeros 32) pad,
  take_all 32 pad,
  from_le-one 1,
)

-- A header that fits its widths and has the current version is read back as it was written.
pub from_bytes-to_bytes :
    (h : MessageHeader) → IsHeader h → h.version ≡ msg_version → from_bytes (to_bytes h) ≡ ok h
from_bytes-to_bytes h v e =
    let (a, b, c, q) = three h.pad0 v.pad0_length in
    let same : h ≡ record {
      commit_len = h.commit_len;
      version = msg_version;
      pad0 = a ∷ b ∷ c ∷ [];
      seq = h.seq;
      timestamp_ns = h.timestamp_ns;
      type_id = h.type_id;
      flags = h.flags;
      checksum = h.checksum;
      pad = h.pad;
    } =
      ground arith in
    subst (λ g. from_bytes (to_bytes g) ≡ ok g) (sym same)
      (fields_read_back h.commit_len a b c h.seq h.timestamp_ns h.type_id h.flags h.checksum h.pad
        (subst IsHeader same v))

-- Bytes of any other version are refused with that version, whatever else they hold.
pub from_bytes_version :
    (bytes : List ℕ)
    → from_le (slice bytes version_offset 1) ≢ msg_version
    → from_bytes bytes ≡ err (unsupported_version (from_le (slice bytes version_offset 1)))
unfolding from_bytes
from_bytes_version bytes h = ground arith

-- The commit word stored over the zero of an encoded uncommitted header gives the encoding of the
-- committed header.
pub write_commit :
    (seq timestamp_ns type_id flags checksum c : ℕ)
    → let h = new_uncommitted seq timestamp_ns type_id flags checksum in
      write (to_bytes h) 0 (le_bytes 4 c) ≡ to_bytes (record h { commit_len = c })
unfolding to_bytes new_uncommitted write le_bytes
write_commit seq timestamp_ns type_id flags checksum c = refl

pub commit_word-to_bytes :
    (h : MessageHeader) → h.commit_len < 2 ^ 32 → from_le (slice (to_bytes h) 0 4) ≡ h.commit_len
unfolding to_bytes write le_bytes
commit_word-to_bytes h l = from_le-le_bytes 4 h.commit_len l

-- The commit length of a payload is never the zero that marks an uncommitted record, and gives the
-- payload length back.
pub payload_len-commit_len :
    (n c : ℕ)
    → commit_len_for_payload n ≡ ok c
    → (c ≢ 0) × (c < 2 ^ 32) × (payload_len_from_commit c ≡ ok n)
unfolding commit_len_for_payload payload_len_from_commit
payload_len-commit_len n c h = ground arith
