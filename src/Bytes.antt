-- ===== src/Bytes.antt =====
-- src/core/mmap.rs: a mapped file as its bytes, with the range-checked accesses of `MmapFile`, and
-- the little-endian integer encodings (`to_le_bytes`, `from_le_bytes`) that the formats use.
pub mod Slices
pub mod Codec
use chronicle_rs.Base.{
  ℕ, zero, suc, ◌+◌, ◌*◌, ◌/◌, ◌%◌, ◌^◌, List, [], ◌∷◌, Result, ok, err, corrupt, ltb, leb, length,
  take, drop, replicate, if◌then◌else◌,
}

-- A mapped file: its bytes. `MmapFile::len` is the length of the list.
abbrev pub Mem : Type 0
Mem = List ℕ

-- `v.to_le_bytes()` of an integer of `n` bytes.
unfoldable pub le_bytes : ℕ → ℕ → List ℕ
le_bytes zero v = []
le_bytes (suc n) v = v % 256 ∷ le_bytes n (v / 256)

-- `uN::from_le_bytes`.
unfoldable pub from_le : List ℕ → ℕ
from_le [] = 0
from_le (b ∷ bs) = b + 256 * from_le bs

-- `&m[off..off + n]`
abbrev pub slice : Mem → ℕ → ℕ → List ℕ
slice m off n = take n (drop off m)

unfoldable pub overlay : Mem → List ℕ → Mem
overlay [] bs = []
overlay (x ∷ m) [] = x ∷ m
overlay (x ∷ m) (b ∷ bs) = b ∷ overlay m bs

-- `m[off..off + bs.len()].copy_from_slice(bs)`
unfoldable pub write : Mem → ℕ → List ℕ → Mem
unfolding overlay
write m zero bs = overlay m bs
write [] (suc off) bs = []
write (x ∷ m) (suc off) bs = x ∷ write m off bs

-- `MmapFile::range`
unfoldable pub range : Mem → ℕ → ℕ → Result (List ℕ)
range m off n =
    if leb (2 ^ 64) (off + n)
    then err (corrupt "range overflow")
    else if ltb (length m) (off + n)
    then err (corrupt "range out of bounds")
    else ok (slice m off n)

-- `MmapFile::range_mut(off, bs.len())?.copy_from_slice(bs)`
unfoldable pub write_range : Mem → ℕ → List ℕ → Result Mem
write_range m off bs =
    if leb (2 ^ 64) (off + length bs)
    then err (corrupt "range overflow")
    else if ltb (length m) (off + length bs)
    then err (corrupt "range out of bounds")
    else ok (write m off bs)

-- A fresh file of `n` bytes after `set_len`.
abbrev pub zeros : ℕ → List ℕ
zeros n = replicate n 0
