-- ===== src/SeekIndex/Tests.antt =====
-- Examples of the seek index: three records, an entry for every second one.
use chronicle_rs.Base.{ℕ, ◌+◌, ◌*◌, false, ◌≡◌, refl, [], ◌∷◌, List, none, some, ok, arith}
use chronicle_rs.SeekIndex.{
  SeekIndexEntry, SeekIndexBuilder, new, header_of, or_zero, flush, load_index_header,
  load_index_entries,
}
use chronicle_rs.SeekIndex.Builder.{
  observe_all, every, Covers, observe_all-entries, observe_all-Covers, load-flush,
}

abbrev record_at : ℕ → SeekIndexEntry
record_at i = record { seq = 100 + i; timestamp_ns = 1000 + i; offset = 64 + i * 64 }

abbrev three_records : List SeekIndexEntry
three_records = record_at 0 ∷ record_at 1 ∷ record_at 2 ∷ []

observe_all-entries_example :
    (observe_all (new 7 4096 64 2) three_records).entries ≡ every 2 0 three_records
observe_all-entries_example =
    observe_all-entries 7 4096 64 2 three_records (omega arith) (omega arith)

observe_all-Covers_example : Covers (observe_all (new 7 4096 64 2) three_records) (record_at 1)
observe_all-Covers_example = observe_all-Covers (new 7 4096 64 2) three_records 1 (record_at 1) refl

abbrev two_entries : SeekIndexBuilder
two_entries = record {
  segment_id = 7;
  segment_size = 4096;
  data_offset = 64;
  entry_stride = 2;
  record_index = 3;
  next_entry_at = 4;
  min_seq = some 100;
  max_seq = some 102;
  min_ts_ns = some 1000;
  max_ts_ns = some 1002;
  entries = record_at 0 ∷ record_at 2 ∷ [];
  partial = false;
}

load-flush_example :
    (load_index_header (flush two_entries none) ≡ ok (some (header_of two_entries)))
    × (load_index_entries (flush two_entries none) (header_of two_entries) ≡ ok two_entries.entries)
unfolding header_of or_zero
load-flush_example =
    load-flush two_entries none (omega arith) (omega arith) (omega arith, (omega arith, tt))
