-- ===== src/Reader/Tests.antt =====
-- Examples of a reader's metadata: a first store, a store that is cut off, a second store.
use chronicle_rs.Base.{ℕ, ◌≡◌, ◌≢◌, refl, List, none, some, ok, arith}
use chronicle_rs.Bytes.{write, zeros, from_le, slice}
use chronicle_rs.Reader.{
  ReaderMeta, load_index, store_index, load_reader_meta, store_reader_meta, slot_offset,
  next_generation, parse_reader_slot, slot_fields,
}
use chronicle_rs.Reader.Slots.{IsMeta, load_index-store_index}
use chronicle_rs.Reader.Recovery.{
  IsNewest, load-IsNewest, load-torn, store-IsNewest, store-IsNewest_new,
}
use chronicle_rs.Samples.{byte_sum, byte_sum-lt}

load_index-store_index_example :
    load_index (some (store_index (record { current_segment = 3; write_offset = 128 })))
    ≡ ok (record { current_segment = 3; write_offset = 128 })
load_index-store_index_example =
    load_index-store_index (record { current_segment = 3; write_offset = 128 }) (omega arith)
      (omega arith)

abbrev fresh_meta : ReaderMeta
fresh_meta = record { segment_id = 2; offset = 128; last_heartbeat_ns = 1000; generation = 0 }

fresh_meta-IsMeta : IsMeta fresh_meta
fresh_meta-IsMeta = omega arith

nonzero : byte_sum (zeros 32) ≢ 0
nonzero = omega arith

abbrev first_file : List ℕ
first_file = (store_reader_meta byte_sum none fresh_meta).0

abbrev first_meta : ReaderMeta
first_meta = (store_reader_meta byte_sum none fresh_meta).1

first-IsNewest : IsNewest byte_sum first_file first_meta
first-IsNewest =
    store-IsNewest_new byte_sum fresh_meta refl fresh_meta-IsMeta nonzero
      (byte_sum-lt (slice (slot_fields (next_generation fresh_meta)) 0 32))

load-IsNewest_example : load_reader_meta byte_sum (some first_file) ≡ ok first_meta
load-IsNewest_example = load-IsNewest byte_sum first_file first_meta first-IsNewest

first_generation : first_meta.generation ≡ 1
unfolding store_reader_meta next_generation
first_generation = refl

first_meta-IsMeta : IsMeta first_meta
unfolding store_reader_meta next_generation
first_meta-IsMeta = omega arith

-- The new slot was not reached at all.
torn_slot : parse_reader_slot byte_sum (zeros 40) ≡ none
unfolding parse_reader_slot from_le
torn_slot = refl

load-torn_example :
    load_reader_meta byte_sum
      (some (write first_file (slot_offset (next_generation first_meta)) (zeros 40)))
    ≡ ok first_meta
load-torn_example =
    load-torn byte_sum first_file (zeros 40) first_meta first-IsNewest
      (omega (arith, first_generation)) refl torn_slot

store-IsNewest_example :
    let (file, m) = store_reader_meta byte_sum (some first_file) first_meta in
    IsNewest byte_sum file m
store-IsNewest_example =
    store-IsNewest byte_sum first_file first_meta first_meta first-IsNewest refl
      (omega (arith, first_generation)) first_meta-IsMeta
      (byte_sum-lt (slice (slot_fields (next_generation first_meta)) 0 32))
