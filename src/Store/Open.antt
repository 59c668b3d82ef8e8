-- ===== src/Store/Open.antt =====
-- src/core/segment_store.rs: segments that are created under their final name, or opened where they
-- are there already. A call gives the directory after it and the bytes of the file.
use chronicle_rs.Base.{
  ℕ, ◌%◌, ◌^◌, none, some, Result, ok, err, io, not_found, already_exists, ◌>>=◌, lookup, insert,
  ◌==◌, if◌then◌else◌, unsupported,
}
use chronicle_rs.Bytes.{Mem, zeros}
use chronicle_rs.Store.{Dir, mmap_create, open_segment, write_segment_header, prefault_mmap}

abbrev pub with_file : Dir → ℕ → Mem → Dir × Mem
with_file d id m = (record d { files = insert id m d.files }, m)

-- `MmapFile::create` truncates a file that is there.
unfoldable pub create_segment : Dir → ℕ → ℕ → Result (Dir × Mem)
create_segment d id segment_size = do
  mmap ← mmap_create segment_size
  mmap' ← write_segment_header mmap (id % 2 ^ 32) 0
  ok (with_file d id mmap')

unfoldable pub prepare_segment : Dir → ℕ → ℕ → Result (Dir × Mem)
prepare_segment d id segment_size = do
  (d', mmap) ← create_segment d id segment_size
  ok (with_file d' id (prefault_mmap mmap))

-- `MmapFile::create_new` does not replace a file.
unfoldable pub mmap_create_new : Dir → ℕ → ℕ → Result Mem
mmap_create_new d id len =
    if len == 0
    then err (unsupported "mmap length must be non-zero")
    else elim (lookup id d.files) [ some _ ↦ err (io already_exists) | none ↦ ok (zeros len) ]

-- A new file, with its header.
unfoldable pub create_new_segment : Dir → ℕ → ℕ → Result (Dir × Mem)
create_new_segment d id segment_size = do
  mmap ← mmap_create_new d id segment_size
  mmap' ← write_segment_header mmap (id % 2 ^ 32) 0
  ok (with_file d id mmap')

-- The file is opened; one that is missing is made by `make`, and opened after all if another
-- process has made it meanwhile.
unfoldable pub open_or : Dir → ℕ → ℕ → Result (Dir × Mem) → Result (Dir × Mem)
open_or d id segment_size made = elim (open_segment d id segment_size) [
  | ok mmap ↦ ok (d, mmap)
  | err (io not_found) ↦ elim made [
    | ok created ↦ ok created
    | err (io already_exists) ↦ do mmap ← open_segment d id segment_size; ok (d, mmap)
    | err e ↦ err e
  ]
  | err e ↦ err e
]

unfoldable pub open_or_create_segment : Dir → ℕ → ℕ → Result (Dir × Mem)
unfolding open_or
open_or_create_segment d id segment_size =
    open_or d id segment_size (create_new_segment d id segment_size)

unfoldable pub prepare_or_open_segment : Dir → ℕ → ℕ → Result (Dir × Mem)
unfolding open_or
prepare_or_open_segment d id segment_size = open_or d id segment_size (do
  (d', mmap) ← create_new_segment d id segment_size
  ok (with_file d' id (prefault_mmap mmap)))
