-- ===== src/Store/Prepare.antt =====
-- A fresh segment: its header is written and every other byte is zero, prefaulting included.
use chronicle_rs.Base.{
  ℕ, zero, suc, ◌+◌, ◌-◌, ◌%◌, ◌^◌, ◌≤◌, ◌≡◌, refl, ap, ◌∙◌, [], ◌∷◌, ok, ltb, length, take, drop,
  length-replicate, arith, insert, Bool-cases, inl, inr,
}
use chronicle_rs.Bytes.{Mem, slice, write, overlay, zeros, from_le}
use chronicle_rs.Bytes.Slices.{length-write, slice-write_before}
use chronicle_rs.Store.{
  Dir, header_buf, prefault_loop, prefault_mmap, mmap_create, prepare_segment_temp, page_size,
}
use chronicle_rs.Store.Seal.{write_segment_header-eq, slice-header_write, drop-header_write}

write-zeros : (k o : ℕ) → write (zeros k) o (0 ∷ []) ≡ zeros k
unfolding write overlay
write-zeros zero zero = refl
write-zeros zero (suc o) = refl
write-zeros (suc zero) zero = refl
write-zeros (suc (suc k)) zero = refl
write-zeros (suc k) (suc o) = ap (◌∷◌ 0) (write-zeros k o)

-- A zero written into a tail of zeros changes nothing there.
zero_write_tail :
    (m : Mem) (a off k : ℕ) → a ≤ off → drop a m ≡ zeros k → drop a (write m off (0 ∷ [])) ≡ zeros k
unfolding write overlay
zero_write_tail m zero off k h e = ap (λ t. write t off (0 ∷ [])) e ∙ write-zeros k off
zero_write_tail m (suc a) zero k h e = absurd (omega arith)
zero_write_tail [] (suc a) (suc off) k h e = e
zero_write_tail (x ∷ m) (suc a) (suc off) k h e = zero_write_tail m a off k (omega arith) e

pub from_le-zeros : (n k : ℕ) → from_le (take n (zeros k)) ≡ 0
unfolding from_le
from_le-zeros zero k = refl
from_le-zeros (suc n) zero = refl
from_le-zeros (suc n) (suc k) = omega (arith, from_le-zeros n k)

pub drop-zeros : (n k : ℕ) → drop n (zeros k) ≡ zeros (k - n)
drop-zeros zero k = let same : k - 0 ≡ k = omega arith in rw same
drop-zeros (suc n) zero = let same : 0 - suc n ≡ 0 = omega arith in rw same
drop-zeros (suc n) (suc k) =
    let same : suc k - suc n ≡ k - n = omega arith in rw same (drop-zeros n k)

-- Prefaulting keeps the size, the header and a data area of zeros.
record Prefaulted (m m' : Mem) (k : ℕ) : Type 0 where
  same_length : length m' ≡ length m
  same_header : slice m' 0 64 ≡ slice m 0 64
  zero_data : drop 64 m' ≡ zeros k

prefault_loop-Prefaulted :
    (fuel off : ℕ) (m : Mem) (k : ℕ)
    → 64 ≤ off
    → drop 64 m ≡ zeros k
    → Prefaulted m (prefault_loop fuel off m) k
unfolding prefault_loop
prefault_loop-Prefaulted zero off m k h e = record {
  same_length = refl;
  same_header = refl;
  zero_data = e;
}
prefault_loop-Prefaulted (suc fuel) off m k h e = elim (Bool-cases (ltb off (length m))) [
  | inl more ↦ rw more (
      let next = write m off (0 ∷ []) in
      let rest =
        prefault_loop-Prefaulted fuel (off + page_size) next k (omega arith)
          (zero_write_tail m 64 off k h e) in
      record {
        same_length = rest.same_length ∙ length-write m off (0 ∷ []);
        same_header = rest.same_header ∙ slice-write_before m off (0 ∷ []) 0 64 h;
        zero_data = rest.zero_data;
      })
  | inr done ↦ rw done (record { same_length = refl; same_header = refl; zero_data = e })
]

pub mmap_create_lem : (size : ℕ) → 64 ≤ size → mmap_create size ≡ ok (zeros size)
unfolding mmap_create
mmap_create_lem size h = ground arith

prepare_segment_temp_steps :
    (d : Dir) (id size : ℕ)
    → 64 ≤ size
    → prepare_segment_temp d id size
      ≡ ok (
        record d { temps = insert id tt d.temps },
        prefault_mmap (write (zeros size) 0 (header_buf (id % 2 ^ 32) 0)),
      )
unfolding prepare_segment_temp
prepare_segment_temp_steps d id size h =
    let long : 64 ≤ length (zeros size) = omega (arith, length-replicate {A = ℕ} size 0) in
    rw (mmap_create_lem size h) (rw (write_segment_header-eq (zeros size) (id % 2 ^ 32) 0 long))

pub record IsFresh (id size : ℕ) (m : Mem) : Type 0 where
  pub size_is : length m ≡ size
  pub header_is : slice m 0 64 ≡ header_buf id 0
  pub data_is_zero : drop 64 m ≡ zeros (size - 64)

-- The bytes of a segment that was just prepared.
abbrev pub fresh_segment : ℕ → ℕ → Mem
fresh_segment id size = prefault_mmap (write (zeros size) 0 (header_buf (id % 2 ^ 32) 0))

pub fresh_segment-IsFresh :
    (id size : ℕ) → 64 ≤ size → IsFresh (id % 2 ^ 32) size (fresh_segment id size)
unfolding prefault_mmap
fresh_segment-IsFresh id size h =
    let head : Mem = write (zeros size) 0 (header_buf (id % 2 ^ 32) 0) in
    let size_zeros : length (zeros size) ≡ size = length-replicate size 0 in
    let long : 64 ≤ length (zeros size) = omega arith in
    let clean = drop-header_write (zeros size) (id % 2 ^ 32) 0 ∙ drop-zeros 64 size in
    let same_head = length-write (zeros size) 0 (header_buf (id % 2 ^ 32) 0) in
    let faulted =
      prefault_loop-Prefaulted (length head) page_size head (size - 64) (omega arith) clean in
    record {
      size_is = faulted.same_length ∙ same_head ∙ size_zeros;
      header_is = faulted.same_header ∙ slice-header_write (zeros size) (id % 2 ^ 32) 0 long;
      data_is_zero = faulted.zero_data;
    }

-- `prepare_segment_temp` gives a file of the size asked for, with the header of the id, not
-- sealed, and zeros in its data area.
pub prepare_segment_temp-IsFresh :
    (d : Dir) (id size : ℕ)
    → 64 ≤ size
    → (m : Mem) × (prepare_segment_temp d id size
        ≡ ok (record d { temps = insert id tt d.temps }, m))
      × IsFresh (id % 2 ^ 32) size m
prepare_segment_temp-IsFresh d id size h =
    (fresh_segment id size, prepare_segment_temp_steps d id size h, fresh_segment-IsFresh id size h)
