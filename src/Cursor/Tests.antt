-- ===== src/Cursor/Tests.antt =====
-- Examples of the cursor: one record in a segment of 256 bytes.
use chronicle_rs.Base.{◌+◌, ◌≡◌, refl, sym, subst, length, ok, none, some, arith}
use chronicle_rs.Bytes.{Mem, zeros}
use chronicle_rs.Writer.Append.{
  msg_len, Fits, length-stage_commit, record_len_bounds, stage_payload, stage_header, stage_commit,
  stage_commit-RecordAt,
}
use chronicle_rs.Cursor.{read_record}
use chronicle_rs.Cursor.Records.{ref_of, read_record-RecordAt, uncommitted_invisible}
use chronicle_rs.Samples.{byte_sum, byte_sum-lt, order, order-Fits}

abbrev blank : Mem
blank = zeros 256

uncommitted_invisible_example :
    (read_record (stage_payload byte_sum blank 64 order) 64 ≡ ok none)
    × (read_record (stage_header byte_sum blank 64 0 order) 64 ≡ ok none)
uncommitted_invisible_example =
    uncommitted_invisible byte_sum blank 64 0 192 order (omega (arith, record_len_bounds 3))
      (omega arith) refl

abbrev one_record : Mem
one_record = stage_commit byte_sum blank 64 0 order

one_record-length : length one_record ≡ 256
one_record-length = length-stage_commit byte_sum blank 64 0 order

read_record-RecordAt_example :
    read_record one_record 64 ≡ ok (some (ref_of byte_sum 64 0 order, 64 + msg_len order))
read_record-RecordAt_example =
    read_record-RecordAt byte_sum one_record 64 0 order (omega (arith, one_record-length))
      (subst (λ n. Fits n order) (sym one_record-length) order-Fits) (omega arith)
      (byte_sum-lt order.payload)
      (stage_commit-RecordAt byte_sum blank 64 0 order (omega arith)
        (omega (arith, record_len_bounds 3)))
