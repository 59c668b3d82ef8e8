-- ===== src/Reader/Recovery.antt =====
-- The two slots of a reader's metadata: a store goes to the slot that does not hold the newest
-- version, so that a write that is cut off leaves that version to be found.
use chronicle_rs.Base.{
  ℕ, ◌+◌, ◌-◌, ◌*◌, ◌%◌, ◌^◌, ◌<◌, ◌≡◌, ◌≢◌, refl, sym, ap, ◌∙◌, subst, min, List, ◌++◌, ok, none,
  some, length, take-append, arith, Option, Option-cases, ◌⊎◌, inl, inr, ◌==◌, if◌then◌else◌, take,
}
use chronicle_rs.Bytes.{from_le, slice, write, zeros}
use chronicle_rs.Bytes.Slices.{
  length-write, slice-write_self, slice-write_before, slice-write_after,
}
use chronicle_rs.Reader.{
  ReaderMeta, slot_fields, set_len, bytes_of, next_generation, slot_offset, encode_reader_slot,
  parse_reader_slot, select_reader_slot, load_slots, load_reader_meta, store_reader_meta,
}
use chronicle_rs.Reader.Slots.{IsMeta, length-encode_reader_slot, parse-encode}

parity : (g : ℕ) → (g % 2 ≡ 0) ⊎ (g % 2 ≡ 1)
parity g = elim (Option-cases (if g % 2 == 0 then some g else none)) [
  | inl h ↦ inr (ground arith)
  | inr (a, h) ↦ inl (ground arith)
]

-- The slot that a version with this generation goes to.
abbrev pub slot_of : List ℕ → ℕ → List ℕ
slot_of file g = slice file ((g % 2) * 40) 40

-- The slot that is written is the new one, and the other slot stays.
slot-write :
    (file buf : List ℕ) (g : ℕ)
    → length file ≡ 80
    → length buf ≡ 40
    → slot_of (write file ((g % 2) * 40) buf) g ≡ buf
slot-write file buf g hf hb =
    subst (λ n. slice (write file ((g % 2) * 40) buf) ((g % 2) * 40) n ≡ buf) hb
      (slice-write_self file ((g % 2) * 40) buf (omega arith))

other_slot-write :
    (file buf : List ℕ) (g k : ℕ)
    → length buf ≡ 40
    → g % 2 + k % 2 ≡ 1
    → slot_of (write file ((k % 2) * 40) buf) g ≡ slot_of file g
other_slot-write file buf g k hb apart = elim (parity g) [
  | inl even ↦ slice-write_before file ((k % 2) * 40) buf ((g % 2) * 40) 40 (omega arith)
  | inr odd ↦ slice-write_after file ((k % 2) * 40) buf ((g % 2) * 40) 40 (omega arith)
]

set_len-full : (file : List ℕ) → length file ≡ 80 → set_len file 80 ≡ file
unfolding set_len
set_len-full file h = subst (λ n. take n (file ++ zeros 80) ≡ file) h (take-append file (zeros 80))

module _ (crc32 : List ℕ → ℕ) where
  -- The newest version in a file is `m`: the other slot is unreadable or older.
  pub record IsNewest (file : List ℕ) (m : ReaderMeta) : Type 0 where
    pub size : length file ≡ 80
    pub newest : parse_reader_slot crc32 (slot_of file m.generation) ≡ some m
    pub older :
        (o : ReaderMeta)
        → parse_reader_slot crc32 (slot_of file (m.generation + 1)) ≡ some o
        → o.generation < m.generation

  select_newest :
      (m : ReaderMeta) (other : Option ReaderMeta)
      → ((o : ReaderMeta) → other ≡ some o → o.generation < m.generation)
      → (select_reader_slot (some m) other ≡ some m) × (select_reader_slot other (some m) ≡ some m)
  unfolding select_reader_slot
  select_newest m none h = (refl, refl)
  select_newest m (some o) h = let lt = h o refl in (ground arith, ground arith)

  slots_newest :
      (file : List ℕ) (m : ReaderMeta)
      → IsNewest file m
      → select_reader_slot
          (parse_reader_slot crc32 (slice file 0 40))
          (parse_reader_slot crc32 (slice file 40 40))
        ≡ some m
  slots_newest file m v =
      let (first, second) =
        select_newest m (parse_reader_slot crc32 (slot_of file (m.generation + 1))) v.older in
      elim (parity m.generation) [
        | inl even ↦
            let at : m.generation % 2 * 40 ≡ 0 = omega arith in
            let at' : (m.generation + 1) % 2 * 40 ≡ 40 = omega arith in
            let here =
              subst (λ k. parse_reader_slot crc32 (slice file k 40) ≡ some m) at v.newest in
            rw here (
              subst
                (λ k.
                  select_reader_slot (some m) (parse_reader_slot crc32 (slice file k 40)) ≡ some m)
                at' first)
        | inr odd ↦
            let at : m.generation % 2 * 40 ≡ 40 = omega arith in
            let at' : (m.generation + 1) % 2 * 40 ≡ 0 = omega arith in
            let here =
              subst (λ k. parse_reader_slot crc32 (slice file k 40) ≡ some m) at v.newest in
            rw here (
              subst
                (λ k.
                  select_reader_slot (parse_reader_slot crc32 (slice file k 40)) (some m) ≡ some m)
                at' second)
      ]

  -- Loading a file gives its newest version.
  pub load-IsNewest :
      (file : List ℕ) (m : ReaderMeta) → IsNewest file m → load_reader_meta crc32 (some file) ≡ ok m
  unfolding load_reader_meta load_slots
  load-IsNewest file m v = ground (arith, v.size, slots_newest file m v)

  -- A write of the next version that was cut off, so that its slot is unreadable, leaves the
  -- version before it to be loaded.
  pub load-torn :
      (file torn : List ℕ) (m : ReaderMeta)
      → IsNewest file m
      → m.generation + 1 < 2 ^ 64
      → length torn ≡ 40
      → parse_reader_slot crc32 torn ≡ none
      → load_reader_meta crc32 (some (write file (slot_offset (next_generation m)) torn)) ≡ ok m
  unfolding slot_offset next_generation
  load-torn file torn m v small ht bad =
      let g : ℕ = m.generation in
      let next : min (g + 1) (2 ^ 64 - 1) ≡ g + 1 = omega arith in
      rw next (
        load-IsNewest (write file (((g + 1) % 2) * 40) torn) m (record {
          size = length-write file (((g + 1) % 2) * 40) torn ∙ v.size;
          newest =
              ap (parse_reader_slot crc32) (other_slot-write file torn g (g + 1) ht (omega arith))
              ∙ v.newest;
          older = λ o e.
              let none_there =
                ap (parse_reader_slot crc32) (slot-write file torn (g + 1) v.size ht) in
              absurd (ground (arith, none_there));
        }))

  -- The file after a store, from any file of full size whose slots are not newer.
  stored-IsNewest :
      (file : List ℕ) (m : ReaderMeta)
      → length file ≡ 80
      → IsMeta m
      → crc32 (slice (slot_fields m) 0 32) < 2 ^ 32
      → ((o : ReaderMeta)
          → parse_reader_slot crc32 (slot_of file (m.generation + 1)) ≡ some o
          → o.generation < m.generation)
      → IsNewest (write file (slot_offset m) (encode_reader_slot crc32 m)) m
  unfolding slot_offset
  stored-IsNewest file m size v c older =
      let buf : List ℕ = encode_reader_slot crc32 m in
      let len : length buf ≡ 40 = length-encode_reader_slot crc32 m in
      let g : ℕ = m.generation in
      record {
        size = length-write file ((g % 2) * 40) buf ∙ size;
        newest =
            ap (parse_reader_slot crc32) (slot-write file buf g size len)
            ∙ parse-encode crc32 m v c;
        older = λ o e. older o (
            sym
              (ap (parse_reader_slot crc32) (other_slot-write file buf (g + 1) g len (omega arith)))
            ∙ e);
      }

  -- Storing metadata that was loaded from the file makes it, one generation up, the newest version.
  pub store-IsNewest :
      (file : List ℕ) (m₀ m : ReaderMeta)
      → IsNewest file m₀
      → m.generation ≡ m₀.generation
      → m₀.generation + 1 < 2 ^ 64
      → IsMeta m
      → crc32 (slice (slot_fields (next_generation m)) 0 32) < 2 ^ 32
      → let (file', m') = store_reader_meta crc32 (some file) m in IsNewest file' m'
  unfolding store_reader_meta bytes_of next_generation
  store-IsNewest file m₀ m v same small fits c =
      let m' : ReaderMeta = next_generation m in
      let up : m'.generation ≡ m₀.generation + 1 = omega arith in
      let turn : (m'.generation + 1) % 2 ≡ m₀.generation % 2 = omega arith in
      let before : slot_of file (m'.generation + 1) ≡ slot_of file m₀.generation =
        ap (λ k. slice file (k * 40) 40) turn in
      rw (set_len-full file v.size) (
        stored-IsNewest file m' v.size
          (record {
            segment_id_fits = fits.segment_id_fits;
            offset_fits = fits.offset_fits;
            heartbeat_fits = fits.heartbeat_fits;
            generation_fits = omega arith;
          })
          c
          (λ o e.
            let found = ap (parse_reader_slot crc32) before ∙ v.newest in
            ground (arith, found, up)))

  zero_slot : crc32 (zeros 32) ≢ 0 → parse_reader_slot crc32 (slice (zeros 80) 0 40) ≡ none
  unfolding parse_reader_slot from_le
  zero_slot h = ground arith

  -- A file that did not exist: a zeroed slot is no version, when its checksum is not 0.
  pub store-IsNewest_new :
      (m : ReaderMeta)
      → m.generation ≡ 0
      → IsMeta m
      → crc32 (zeros 32) ≢ 0
      → crc32 (slice (slot_fields (next_generation m)) 0 32) < 2 ^ 32
      → let (file', m') = store_reader_meta crc32 none m in IsNewest file' m'
  unfolding store_reader_meta bytes_of next_generation set_len
  store-IsNewest_new m h fits zero_sum c =
      let m' : ReaderMeta = next_generation m in
      stored-IsNewest (zeros 80) m' refl
        (record {
          segment_id_fits = fits.segment_id_fits;
          offset_fits = fits.offset_fits;
          heartbeat_fits = fits.heartbeat_fits;
          generation_fits = omega arith;
        })
        c
        (λ o e.
          let first : (m'.generation + 1) % 2 * 40 ≡ 0 = omega arith in
          let found =
            subst (λ k. parse_reader_slot crc32 (slice (zeros 80) k 40) ≡ some o) first e in
          let not_there = zero_slot zero_sum in absurd cc)
