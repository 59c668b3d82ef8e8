-- ===== src/Header/Tests.antt =====
-- Examples of the header's format and of the alignment.
use chronicle_rs.Base.{◌+◌, ◌≡◌, ◌≤◌, ◌<◌, ◌%◌, refl, ok, arith}
use chronicle_rs.Bytes.{zeros}
use chronicle_rs.Header.{MessageHeader, to_bytes, from_bytes, align_up}
use chronicle_rs.Header.RoundTrip.{IsHeader, from_bytes-to_bytes}
use chronicle_rs.Header.Align.{align_up_bounds}

abbrev sample_header : MessageHeader
sample_header = record {
  commit_len = 4;
  version = 1;
  pad0 = zeros 3;
  seq = 300;
  timestamp_ns = 1000;
  type_id = 513;
  flags = 0;
  checksum = 7;
  pad = zeros 32;
}

sample_header-IsHeader : IsHeader sample_header
sample_header-IsHeader = omega arith

from_bytes-to_bytes_example : from_bytes (to_bytes sample_header) ≡ ok sample_header
from_bytes-to_bytes_example = from_bytes-to_bytes sample_header sample_header-IsHeader refl

align_up_bounds_example :
    (100 ≤ align_up 100 64) × (align_up 100 64 < 100 + 64) × (align_up 100 64 % 64 ≡ 0)
align_up_bounds_example = align_up_bounds 100 (omega arith)
