-- ===== src/Store.antt =====
-- src/core/segment_store.rs: segment files. A directory is the published segments `<id>.q` with
-- their bytes, and the ids of the temporary files `<id>.q.tmp`; the bytes of a temporary file are
-- those of its mapping, which the writer holds.
pub mod Seal
pub mod Prepare
pub mod Open
pub mod Opened
mod Tests
use Prim.Native.Nat.{bit_and, bit_or}
use chronicle_rs.Base.{
  ℕ, zero, suc, ◌+◌, ◌-◌, ◌*◌, ◌%◌, ◌^◌, Bool, true, false, List, [], ◌∷◌, Option, none, some,
  Result, ok, err, io, corrupt, unsupported, unsupported_version, not_found, already_exists, guard,
  ◌>>=◌, ◌>>◌, ltb, leb, ◌==◌, not, if◌then◌else◌, length, lookup, insert, remove, keys, min,
}
use chronicle_rs.Bytes.{Mem, le_bytes, from_le, slice, write, write_range, zeros}

abbrev pub default_segment_size : ℕ
default_segment_size = 128 * 1024 * 1024

abbrev pub seg_header_size : ℕ
seg_header_size = 64

abbrev pub seg_data_offset : ℕ
seg_data_offset = 64

abbrev pub seg_magic : ℕ
seg_magic = 0x53454730

abbrev pub seg_version : ℕ
seg_version = 2

abbrev pub seg_flag_sealed : ℕ
seg_flag_sealed = 1

pub record SegmentHeader : Type 0 where
  pub magic : ℕ
  pub version : ℕ
  pub segment_id : ℕ
  pub flags : ℕ
  pub pad : List ℕ

pub record Dir : Type 0 where
  pub files : List (ℕ × Mem)
  pub temps : List (ℕ × Unit {0})

-- `MmapFile::create`: a truncated file, extended with zeros to `len`.
unfoldable pub mmap_create : ℕ → Result Mem
mmap_create len =
    if len == 0 then err (unsupported "mmap length must be non-zero") else ok (zeros len)

-- `MmapFile::open` of a published segment.
unfoldable pub mmap_open : Dir → ℕ → Result Mem
mmap_open d id = elim (lookup id d.files) [
  | none ↦ err (io not_found)
  | some m ↦ if length m == 0 then err (unsupported "mmap length must be non-zero") else ok m
]

unfoldable pub read_segment_header : Mem → Result SegmentHeader
read_segment_header mmap = do
  guard (not (ltb (length mmap) seg_header_size)) (corrupt "segment too small for header")
  let buf = slice mmap 0 seg_header_size
  let magic = from_le (slice buf 0 4)
  let version = from_le (slice buf 4 4)
  let segment_id = from_le (slice buf 8 4)
  let flags = from_le (slice buf 12 4)
  guard (magic == seg_magic) (corrupt "segment magic mismatch")
  guard (version == seg_version) (unsupported_version version)
  ok (record {
    magic = magic;
    version = version;
    segment_id = segment_id;
    flags = flags;
    pad = zeros 48;
  })

unfoldable pub header_buf : ℕ → ℕ → List ℕ
header_buf segment_id flags =
    let b0 : Mem = write (zeros 64) 0 (le_bytes 4 seg_magic) in
    let b1 : Mem = write b0 4 (le_bytes 4 seg_version) in
    let b2 : Mem = write b1 8 (le_bytes 4 segment_id) in write b2 12 (le_bytes 4 flags)

unfoldable pub write_segment_header : Mem → ℕ → ℕ → Result Mem
unfolding header_buf
write_segment_header mmap segment_id flags = do
  guard (not (ltb (length mmap) seg_header_size)) (corrupt "segment too small for header")
  write_range mmap 0 (header_buf segment_id flags)

unfoldable pub seal_segment : Mem → Result Mem
seal_segment mmap = do
  header ← read_segment_header mmap
  let sealed = write_segment_header mmap header.segment_id (bit_or header.flags seg_flag_sealed)
  if not (bit_and header.flags seg_flag_sealed == 0) then ok mmap else sealed

unfoldable pub open_segment : Dir → ℕ → ℕ → Result Mem
open_segment d id segment_size = do
  mmap ← mmap_open d id
  guard (length mmap == segment_size) (corrupt "segment size mismatch")
  header ← read_segment_header mmap
  guard (header.segment_id == id % 2 ^ 32) (corrupt "segment id mismatch")
  ok mmap

abbrev pub page_size : ℕ
page_size = 4096

-- `while offset < len { slice[offset] = 0; offset += page_size; }`; `fuel` bounds the rounds.
unfoldable pub prefault_loop : ℕ → ℕ → Mem → Mem
prefault_loop zero offset m = m
prefault_loop (suc fuel) offset m =
    let rest = prefault_loop fuel (offset + page_size) (write m offset (0 ∷ [])) in
    if ltb offset (length m) then rest else m

-- Each round moves by a page, so as many rounds as there are bytes are enough.
unfoldable pub prefault_mmap : Mem → Mem
unfolding prefault_loop
prefault_mmap m = prefault_loop (length m) page_size m

unfoldable pub prepare_segment_temp : Dir → ℕ → ℕ → Result (Dir × Mem)
prepare_segment_temp d id segment_size = do
  mmap ← mmap_create segment_size
  mmap' ← write_segment_header mmap (id % 2 ^ 32) 0
  ok (record d { temps = insert id tt d.temps }, prefault_mmap mmap')

-- A rename that does not replace: `mmap` are the bytes of the temporary file.
unfoldable pub publish_segment : Dir → ℕ → Mem → Result Dir
publish_segment d id mmap = elim (lookup id d.temps) [
  | none ↦ err (io not_found)
  | some _ ↦ elim (lookup id d.files) [
    | some _ ↦ err (io already_exists)
    | none ↦ ok (record { files = insert id mmap d.files; temps = remove id d.temps })
  ]
]

unfoldable pub validate_segment_size : ℕ → Result ℕ
validate_segment_size size =
    if ltb size (seg_data_offset + 64) then err (unsupported "segment size too small") else ok size

-- `sort_unstable` on ids: the sorted list is the same whatever the algorithm.
unfoldable pub insert_sorted : ℕ → List ℕ → List ℕ
insert_sorted x [] = x ∷ []
insert_sorted x (y ∷ ys) = if leb x y then x ∷ y ∷ ys else y ∷ insert_sorted x ys

unfoldable pub sort : List ℕ → List ℕ
unfolding insert_sorted
sort [] = []
sort (x ∷ xs) = insert_sorted x (sort xs)

-- `parse_segment_filename` of the name that `segment_filename` gives to `id`: nine digits exactly.
unfoldable pub nine_digits : List ℕ → List ℕ
nine_digits [] = []
nine_digits (id ∷ ids) = if ltb id 1_000_000_000 then id ∷ nine_digits ids else nine_digits ids

unfoldable pub discover_segments : Dir → List ℕ
unfolding nine_digits sort
discover_segments d = sort (nine_digits (keys d.files))

unfoldable pub last : List ℕ → Option ℕ
last [] = none
last (x ∷ []) = some x
last (x ∷ y ∷ ys) = last (y ∷ ys)

-- `segments.last().map_or(0, |&id| id.saturating_add(1))`
unfoldable pub next_segment_id : Dir → ℕ
unfolding discover_segments last
next_segment_id d = elim (last (discover_segments d)) [
  | none ↦ 0
  | some id ↦ min (id + 1) (2 ^ 64 - 1)
]
