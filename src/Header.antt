-- ===== src/Header.antt =====
-- src/core/header.rs: the 64-byte message header, its byte format, and the commit length that
-- publishes a record. The checksum comes from the crate `crc32fast`: a parameter `crc32`.
pub mod Align
pub mod RoundTrip
mod Tests
use Prim.Native.Nat.{bit_and}
use chronicle_rs.Base.{
  ℕ, ◌+◌, ◌-◌, ◌^◌, List, [], ◌∷◌, Result, ok, err, corrupt, unsupported_version, payload_too_large,
  guard, ◌>>=◌, ◌>>◌, ltb, ◌==◌, not, length, if◌then◌else◌,
}
use chronicle_rs.Bytes.{Mem, le_bytes, from_le, slice, write, zeros}

abbrev pub header_size : ℕ
header_size = 64

abbrev pub record_align : ℕ
record_align = 64

abbrev pub max_payload_len : ℕ
max_payload_len = 2 ^ 32 - 1 - 1

abbrev pub pad_type_id : ℕ
pad_type_id = 0xFFFF

abbrev pub msg_version : ℕ
msg_version = 1

abbrev pub commit_len_offset : ℕ
commit_len_offset = 0

abbrev pub version_offset : ℕ
version_offset = 4

abbrev pub seq_offset : ℕ
seq_offset = 8

abbrev pub timestamp_offset : ℕ
timestamp_offset = 16

abbrev pub type_id_offset : ℕ
type_id_offset = 24

abbrev pub flags_offset : ℕ
flags_offset = 26

abbrev pub checksum_offset : ℕ
checksum_offset = 28

pub record MessageHeader : Type 0 where
  pub commit_len : ℕ
  pub version : ℕ
  pub pad0 : List ℕ
  pub seq : ℕ
  pub timestamp_ns : ℕ
  pub type_id : ℕ
  pub flags : ℕ
  pub checksum : ℕ
  pub pad : List ℕ

unfoldable pub new_uncommitted : ℕ → ℕ → ℕ → ℕ → ℕ → MessageHeader
new_uncommitted seq timestamp_ns type_id flags checksum = record {
  commit_len = 0;
  version = msg_version;
  pad0 = zeros 3;
  seq = seq;
  timestamp_ns = timestamp_ns;
  type_id = type_id;
  flags = flags;
  checksum = checksum;
  pad = zeros 32;
}

-- One write into the buffer for each field, in the order of the code.
unfoldable pub to_bytes : MessageHeader → List ℕ
to_bytes h =
    let b0 : Mem = write (zeros 64) commit_len_offset (le_bytes 4 h.commit_len) in
    let b1 : Mem = write b0 version_offset (h.version ∷ []) in
    let b2 : Mem = write b1 5 h.pad0 in
    let b3 : Mem = write b2 seq_offset (le_bytes 8 h.seq) in
    let b4 : Mem = write b3 timestamp_offset (le_bytes 8 h.timestamp_ns) in
    let b5 : Mem = write b4 type_id_offset (le_bytes 2 h.type_id) in
    let b6 : Mem = write b5 flags_offset (le_bytes 2 h.flags) in
    let b7 : Mem = write b6 checksum_offset (le_bytes 4 h.checksum) in write b7 32 h.pad

unfoldable pub from_bytes : List ℕ → Result MessageHeader
from_bytes bytes = do
  let commit_len = from_le (slice bytes commit_len_offset 4)
  let version = from_le (slice bytes version_offset 1)
  guard (version == msg_version) (unsupported_version version)
  ok (record {
    commit_len = commit_len;
    version = version;
    pad0 = slice bytes 5 3;
    seq = from_le (slice bytes seq_offset 8);
    timestamp_ns = from_le (slice bytes timestamp_offset 8);
    type_id = from_le (slice bytes type_id_offset 2);
    flags = from_le (slice bytes flags_offset 2);
    checksum = from_le (slice bytes checksum_offset 4);
    pad = slice bytes 32 32;
  })

unfoldable pub commit_len_for_payload : ℕ → Result ℕ
commit_len_for_payload payload_len =
    if ltb max_payload_len payload_len then err payload_too_large else ok (payload_len + 1)

unfoldable pub payload_len_from_commit : ℕ → Result ℕ
payload_len_from_commit commit_len =
    if commit_len == 0 then err (corrupt "commit length is zero") else ok (commit_len - 1)

-- The commit word at a record's offset: an aligned 32-bit atomic on a little-endian machine.
unfoldable pub load_commit_len : Mem → ℕ → ℕ
load_commit_len m off = from_le (slice m off 4)

unfoldable pub store_commit_len : Mem → ℕ → ℕ → Mem
store_commit_len m off commit_len = write m off (le_bytes 4 commit_len)

-- `align_up(val, align)`: `!x` on a 64-bit word is `2 ^ 64 - 1 - x`.
unfoldable pub align_up : ℕ → ℕ → ℕ
align_up val align = bit_and (val + align - 1) (2 ^ 64 - 1 - (align - 1))

module _ (crc32 : List ℕ → ℕ) where
  unfoldable pub validate_crc : MessageHeader → List ℕ → Result (Unit {0})
  validate_crc h payload =
      let expected = crc32 payload in
      if expected == h.checksum then ok tt else err (corrupt "crc mismatch")
