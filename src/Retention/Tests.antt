-- ===== src/Retention/Tests.antt =====
-- Examples of a cleanup: five segments, a reader in the third, the writer in the fifth.
use chronicle_rs.Base.{
  ℕ, ◌≡◌, refl, List, [], ◌∷◌, some, ok, true, lookup, arith, if◌then◌else◌, none, zero, suc,
}
use chronicle_rs.Bytes.{Mem, from_le}
use chronicle_rs.Reader.{ReaderMeta, load_reader_meta}
use chronicle_rs.Retention.{
  Sweep, default_config, is_live, is_expired, is_lagging, head_position, reader_position,
  global_position, retention_candidates, cleanup_segments, min_live_reader_segment, min_live, lower,
  unwrap_or, kept_files, candidate_ids, may_go,
}
use chronicle_rs.Store.{sort, insert_sorted}
use chronicle_rs.Retention.Safety.{cleanup-keeps_unread, cleanup-keeps_head}
use chronicle_rs.Retention.Removal.{
  contains, LeftBehind, cleanup-removes_candidates, cleanup-removes_read,
}
use chronicle_rs.Samples.{byte_sum}

abbrev sweep : Sweep
sweep = record {
  head_segment = 4;
  head_offset = 64;
  segment_size = 4096;
  now_ns = 1000;
  config = default_config;
}

abbrev files : List (ℕ × Mem)
files = (0, []) ∷ (1, []) ∷ (2, []) ∷ (3, []) ∷ (4, []) ∷ []

abbrev kept : List (ℕ × Mem)
kept = (2, []) ∷ (3, []) ∷ (4, []) ∷ []

abbrev reader : ReaderMeta
reader = record { segment_id = 2; offset = 64; last_heartbeat_ns = 0; generation = 0 }

-- A file of the 16-byte format.
abbrev reader_file : List ℕ
reader_file = 2 ∷ 0 ∷ 0 ∷ 0 ∷ 0 ∷ 0 ∷ 0 ∷ 0 ∷ 64 ∷ 0 ∷ 0 ∷ 0 ∷ 0 ∷ 0 ∷ 0 ∷ 0 ∷ []

reader_loads : load_reader_meta byte_sum (some reader_file) ≡ ok reader
unfolding load_reader_meta from_le
reader_loads = refl

reader_lives : is_live sweep reader ≡ true
unfolding is_live is_expired is_lagging head_position reader_position global_position
reader_lives = refl

cleaned : cleanup_segments byte_sum sweep (some (reader_file ∷ [])) files ≡ ok (0 ∷ 1 ∷ [], kept)
unfolding cleanup_segments min_live_reader_segment min_live lower unwrap_or kept_files candidate_ids
    may_go sort insert_sorted load_reader_meta from_le is_live is_expired is_lagging head_position
    reader_position global_position
cleaned = refl

cleanup-keeps_unread_example : lookup 3 kept ≡ lookup 3 files
cleanup-keeps_unread_example =
    cleanup-keeps_unread byte_sum sweep (reader_file ∷ []) files kept (0 ∷ 1 ∷ []) 0 reader_file
      reader 3 cleaned refl reader_loads reader_lives (omega arith)

cleanup-keeps_head_example : lookup 4 kept ≡ lookup 4 files
cleanup-keeps_head_example =
    cleanup-keeps_head byte_sum sweep (some (reader_file ∷ [])) files kept (0 ∷ 1 ∷ []) 4 cleaned
      (omega arith)

cleanup-removes_candidates_example :
    (retention_candidates byte_sum sweep (some (reader_file ∷ [])) files ≡ ok (0 ∷ 1 ∷ []))
    × ((id : ℕ) → lookup id kept ≡ (if contains id (0 ∷ 1 ∷ []) then none else lookup id files))
cleanup-removes_candidates_example =
    cleanup-removes_candidates byte_sum sweep (some (reader_file ∷ [])) files kept (0 ∷ 1 ∷ [])
      cleaned

-- The only reader is in the third segment.
first_left : LeftBehind byte_sum sweep (reader_file ∷ []) 1
unfolding load_reader_meta from_le
first_left zero file meta at loads live = ground (arith, reader_loads)
first_left (suc i) file meta at loads live = absurd (ground arith)

cleanup-removes_read_example : lookup 1 kept ≡ none
cleanup-removes_read_example =
    cleanup-removes_read byte_sum sweep (reader_file ∷ []) files kept (0 ∷ 1 ∷ []) 1 cleaned
      (omega arith) first_left
