-- ===== src/Store/Seal.antt =====
-- The segment header: reading back what was written, and sealing.
use Prim.Native.Nat.{bit_and, bit_or}
use chronicle_rs.Base.{
  ℕ, ◌^◌, ◌≤◌, ◌<◌, ◌≡◌, refl, subst, ok, ◌==◌, length, drop, arith, Bool-cases, inl, inr,
}
use chronicle_rs.Bits.{bit_and-one, bit_or-one}
use chronicle_rs.Bytes.{Mem, le_bytes, slice, write, write_range, zeros}
use chronicle_rs.Bytes.Slices.{length-write, slice-write_self, drop-write}
use chronicle_rs.Bytes.Codec.{from_le-le_bytes}
use chronicle_rs.Store.{
  SegmentHeader, header_buf, read_segment_header, write_segment_header, seal_segment, seg_magic,
  seg_version,
}

pub length-header_buf : (id flags : ℕ) → length (header_buf id flags) ≡ 64
unfolding header_buf
length-header_buf id flags = simp length-write

abbrev pub header_of : ℕ → ℕ → SegmentHeader
header_of id flags = record {
  magic = seg_magic;
  version = seg_version;
  segment_id = id;
  flags = flags;
  pad = zeros 48;
}

-- A segment that starts with an encoded header has that header.
pub read-header_buf :
    (m : Mem) (id flags : ℕ)
    → 64 ≤ length m
    → id < 2 ^ 32
    → flags < 2 ^ 32
    → slice m 0 64 ≡ header_buf id flags
    → read_segment_header m ≡ ok (header_of id flags)
unfolding read_segment_header header_buf write le_bytes
read-header_buf m id flags h hi hf e = rw e (
    ground (
      arith,
      from_le-le_bytes 4 id,
      from_le-le_bytes 4 flags,
      from_le-le_bytes 4 seg_magic,
      from_le-le_bytes 4 seg_version,
    ))

pub write_segment_header-eq :
    (m : Mem) (id flags : ℕ)
    → 64 ≤ length m
    → write_segment_header m id flags ≡ ok (write m 0 (header_buf id flags))
unfolding write_segment_header write_range
write_segment_header-eq m id flags h = ground (arith, length-header_buf id flags)

pub slice-header_write :
    (m : Mem) (id flags : ℕ)
    → 64 ≤ length m
    → slice (write m 0 (header_buf id flags)) 0 64 ≡ header_buf id flags
slice-header_write m id flags h =
    subst (λ n. slice (write m 0 (header_buf id flags)) 0 n ≡ header_buf id flags)
      (length-header_buf id flags)
      (slice-write_self m 0 (header_buf id flags) (omega (arith, length-header_buf id flags)))

pub drop-header_write :
    (m : Mem) (id flags : ℕ) → drop 64 (write m 0 (header_buf id flags)) ≡ drop 64 m
drop-header_write m id flags =
    drop-write m 0 (header_buf id flags) 64 (omega (arith, length-header_buf id flags))

-- The header that was written is read back, and the data of the segment is untouched.
pub read-write_segment_header :
    (m m' : Mem) (id flags : ℕ)
    → 64 ≤ length m
    → id < 2 ^ 32
    → flags < 2 ^ 32
    → write_segment_header m id flags ≡ ok m'
    → (read_segment_header m' ≡ ok (header_of id flags))
      × (length m' ≡ length m)
      × (drop 64 m' ≡ drop 64 m)
read-write_segment_header m m' id flags h hi hf e =
    let same : write m 0 (header_buf id flags) ≡ m' = cc (write_segment_header-eq m id flags h) in
    rw (← same) (
      read-header_buf _ id flags (omega (arith, length-write m 0 (header_buf id flags))) hi hf
          (slice-header_write m id flags h),
      length-write m 0 (header_buf id flags),
      drop-header_write m id flags,
    )

long_enough : (m : Mem) (h : SegmentHeader) → read_segment_header m ≡ ok h → 64 ≤ length m
unfolding read_segment_header
long_enough m h e = ground arith

-- What sealing leaves: the sealed flag set, the segment's id, size and data as they were, and
-- nothing for a second call to do.
pub record IsSealedFrom (m : Mem) (h : SegmentHeader) (m' : Mem) : Type 0 where
  pub header : SegmentHeader
  pub reads : read_segment_header m' ≡ ok header
  pub sealed : bit_and header.flags 1 ≡ 1
  pub flags_fit : header.flags < 2 ^ 32
  pub same_id : header.segment_id ≡ h.segment_id
  pub same_length : length m' ≡ length m
  pub same_data : drop 64 m' ≡ drop 64 m
  pub again : seal_segment m' ≡ ok m'

pub seal_of_sealed :
    (m : Mem) (h : SegmentHeader)
    → read_segment_header m ≡ ok h
    → bit_and h.flags 1 ≡ 1
    → seal_segment m ≡ ok m
unfolding seal_segment
seal_of_sealed m h e set = ground arith

pub seal_of_unsealed :
    (m : Mem) (h : SegmentHeader)
    → read_segment_header m ≡ ok h
    → bit_and h.flags 1 ≡ 0
    → seal_segment m ≡ ok (write m 0 (header_buf h.segment_id (bit_or h.flags 1)))
unfolding seal_segment
seal_of_unsealed m h e clear =
    ground (arith, long_enough m h e, write_segment_header-eq m h.segment_id (bit_or h.flags 1))

seal-IsSealedFrom_unsealed :
    (m : Mem) (h : SegmentHeader)
    → read_segment_header m ≡ ok h
    → h.segment_id < 2 ^ 32
    → h.flags < 2 ^ 32
    → IsSealedFrom m h (write m 0 (header_buf h.segment_id (bit_or h.flags 1)))
seal-IsSealedFrom_unsealed m h e hi hf =
    let flags' : ℕ = bit_or h.flags 1 in
    let fits : flags' < 2 ^ 32 = omega (arith, bit_or-one h.flags) in
    let set : bit_and flags' 1 ≡ 1 = omega (arith, bit_or-one h.flags, bit_and-one flags') in
    let (reads, same_length, same_data) =
      read-write_segment_header m _ h.segment_id flags' (long_enough m h e) hi fits
        (write_segment_header-eq m h.segment_id flags' (long_enough m h e)) in
    record {
      header = header_of h.segment_id flags';
      reads = reads;
      sealed = set;
      flags_fit = fits;
      same_id = refl;
      same_length = same_length;
      same_data = same_data;
      again = seal_of_sealed _ _ reads set;
    }

-- `seal_segment` succeeds on every segment with a valid header, sealed or not: afterwards the
-- sealed flag is set, id, size and data are unchanged, and sealing again changes nothing.
pub seal_segment-IsSealedFrom :
    (m : Mem) (h : SegmentHeader)
    → read_segment_header m ≡ ok h
    → h.segment_id < 2 ^ 32
    → h.flags < 2 ^ 32
    → (m' : Mem) × (seal_segment m ≡ ok m') × IsSealedFrom m h m'
seal_segment-IsSealedFrom m h e hi hf = elim (Bool-cases (bit_and h.flags 1 == 0)) [
  | inr set ↦
      let sealed : bit_and h.flags 1 ≡ 1 = ground (arith, bit_and-one h.flags) in
      (
        m,
        seal_of_sealed m h e sealed,
        record {
          header = h;
          reads = e;
          sealed = sealed;
          flags_fit = hf;
          same_id = refl;
          same_length = refl;
          same_data = refl;
          again = seal_of_sealed m h e sealed;
        },
      )
  | inl clear ↦
      let unsealed : bit_and h.flags 1 ≡ 0 = ground arith in
      (_, seal_of_unsealed m h e unsealed, seal-IsSealedFrom_unsealed m h e hi hf)
]
