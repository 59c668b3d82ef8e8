-- ===== src/Store/Tests.antt =====
-- Examples of the segment files: segment 3 of 128 bytes.
use chronicle_rs.Base.{◌%◌, ◌^◌, ◌≡◌, ok, arith, insert}
use chronicle_rs.Bytes.{Mem, write, zeros}
use chronicle_rs.Store.{header_buf, read_segment_header, seal_segment, prepare_segment_temp}
use chronicle_rs.Store.Seal.{
  header_of, read-write_segment_header, write_segment_header-eq, IsSealedFrom,
  seal_segment-IsSealedFrom,
}
use chronicle_rs.Store.Prepare.{IsFresh, prepare_segment_temp-IsFresh}
use chronicle_rs.Samples.{empty_dir}

abbrev unsealed : Mem
unsealed = write (zeros 128) 0 (header_buf 3 0)

unsealed_reads : read_segment_header unsealed ≡ ok (header_of 3 0)
unsealed_reads =
    (read-write_segment_header (zeros 128) unsealed 3 0 (omega arith) (omega arith) (omega arith)
      (write_segment_header-eq (zeros 128) 3 0 (omega arith))).0

seal_segment-IsSealedFrom_example :
    (m : Mem) × (seal_segment unsealed ≡ ok m) × IsSealedFrom unsealed (header_of 3 0) m
seal_segment-IsSealedFrom_example =
    seal_segment-IsSealedFrom unsealed (header_of 3 0) unsealed_reads (omega arith) (omega arith)

prepare_segment_temp-IsFresh_example :
    (m : Mem) × (prepare_segment_temp empty_dir 3 128
      ≡ ok (record empty_dir { temps = insert 3 tt empty_dir.temps }, m))
    × IsFresh (3 % 2 ^ 32) 128 m
prepare_segment_temp-IsFresh_example = prepare_segment_temp-IsFresh empty_dir 3 128 (omega arith)
