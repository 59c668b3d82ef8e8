-- ===== src/Tail/Tests.antt =====
-- Examples of the scan of a tail: one record in a segment of 256 bytes.
use chronicle_rs.Base.{◌+◌, ◌-◌, ◌≡◌, refl, sym, subst, [], ◌∷◌, some, false, length, arith}
use chronicle_rs.Bytes.{Mem, zeros}
use chronicle_rs.Writer.Append.{
  msg_len, Fits, stage_commit, stage_commit-RecordAt, stage_commit_tail, length-stage_commit,
  record_len_bounds,
}
use chronicle_rs.Tail.{scan_loop}
use chronicle_rs.Tail.Scan.{RepairEnds, repair_loop-total, scan_loop-Laid}
use chronicle_rs.Samples.{byte_sum, order, order-Fits}

abbrev one_record : Mem
one_record = stage_commit byte_sum (zeros 256) 64 0 order

one_record-length : length one_record ≡ 256
one_record-length = length-stage_commit byte_sum (zeros 256) 64 0 order

repair_loop-total_example : RepairEnds 257 one_record 256 64
repair_loop-total_example =
    repair_loop-total 257 one_record 256 64 (omega arith) (omega arith) (omega arith)

scan_loop-Laid_example :
    scan_loop 2 one_record (length one_record) 64 ≡ some (64 + msg_len order, false)
scan_loop-Laid_example =
    scan_loop-Laid byte_sum 2 one_record 64 0 (64 + msg_len order) (256 - (64 + msg_len order))
      (order ∷ [])
      (
        stage_commit-RecordAt byte_sum (zeros 256) 64 0 order (omega arith)
            (omega (arith, record_len_bounds 3)),
        refl,
      )
      (subst (λ n. Fits n order) (sym one_record-length) order-Fits, tt)
      (stage_commit_tail byte_sum (zeros 256) 64 0 order (omega arith) refl) (omega arith)
