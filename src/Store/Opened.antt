-- ===== src/Store/Opened.antt =====
-- What opening a segment, or making it where it is missing, gives.
use chronicle_rs.Base.{
  ℕ, ◌%◌, ◌^◌, ◌≤◌, ◌<◌, ◌≡◌, ◌≢◌, refl, ok, err, io, not_found, none, some, true, false, ◌==◌,
  length, length-replicate, arith, lookup, insert, lookup-insert, lookup-insert_self,
}
use chronicle_rs.Bytes.{Mem, write, zeros}
use chronicle_rs.Store.{
  Dir, SegmentHeader, header_buf, mmap_open, open_segment, read_segment_header,
}
use chronicle_rs.Store.Seal.{write_segment_header-eq}
use chronicle_rs.Store.Prepare.{fresh_segment}
use chronicle_rs.Store.Open.{
  mmap_create_new, create_new_segment, open_or, prepare_or_open_segment, with_file,
}

pub open_segment_lem :
    (d : Dir) (id size : ℕ) (m : Mem) (h : SegmentHeader)
    → 0 < size
    → lookup id d.files ≡ some m
    → length m ≡ size
    → read_segment_header m ≡ ok h
    → h.segment_id ≡ id % 2 ^ 32
    → open_segment d id size ≡ ok m
unfolding open_segment mmap_open
open_segment_lem d id size m h pos there len reads number =
    let nonzero : (length m == 0) ≡ false = ground arith in
    let length_ok : (length m == size) ≡ true = ground arith in
    let id_ok : (h.segment_id == id % 2 ^ 32) ≡ true = ground arith in
    rw (open_segment, mmap_open, there, nonzero, length_ok, reads, id_ok) refl

pub open_segment_missing :
    (d : Dir) (id size : ℕ) → lookup id d.files ≡ none → open_segment d id size ≡ err (io not_found)
unfolding open_segment mmap_open
open_segment_missing d id size gone = rw (open_segment, mmap_open, gone) refl

-- A segment that is there is opened, and the directory stays.
pub prepare_or_open_there :
    (d : Dir) (id size : ℕ) (m : Mem)
    → open_segment d id size ≡ ok m
    → prepare_or_open_segment d id size ≡ ok (d, m)
unfolding prepare_or_open_segment open_or
prepare_or_open_there d id size m e = rw (prepare_or_open_segment, open_or, e) refl

create_new_segment_lem :
    (d : Dir) (id size : ℕ)
    → 64 ≤ size
    → lookup id d.files ≡ none
    → create_new_segment d id size
      ≡ ok (with_file d id (write (zeros size) 0 (header_buf (id % 2 ^ 32) 0)))
unfolding create_new_segment mmap_create_new
create_new_segment_lem d id size h gone =
    let long : 64 ≤ length (zeros size) = omega (arith, length-replicate {A = ℕ} size 0) in
    let nonzero : (size == 0) ≡ false = ground arith in
    rw (create_new_segment, mmap_create_new, nonzero, gone)
      (rw (write_segment_header-eq (zeros size) (id % 2 ^ 32) 0 long) refl)

-- A missing segment is made, and the other files stay.
pub prepare_or_open_new :
    (d : Dir) (id size : ℕ)
    → 64 ≤ size
    → lookup id d.files ≡ none
    → (d' : Dir) × (prepare_or_open_segment d id size ≡ ok (d', fresh_segment id size))
      × (lookup id d'.files ≡ some (fresh_segment id size))
      × ((i : ℕ) → i ≢ id → lookup i d'.files ≡ lookup i d.files)
unfolding prepare_or_open_segment open_or
prepare_or_open_new d id size h gone =
    let head : Mem = write (zeros size) 0 (header_buf (id % 2 ^ 32) 0) in
    let once = insert id head d.files in
    (
      record d { files = insert id (fresh_segment id size) once },
      rw (prepare_or_open_segment, open_or, open_segment_missing d id size gone)
          (rw (create_new_segment_lem d id size h gone) refl),
      lookup-insert_self id (fresh_segment id size) once,
      λ i other.
          ground (
            arith,
            lookup-insert id i (fresh_segment id size) once,
            lookup-insert id i head d.files,
          ),
    )
