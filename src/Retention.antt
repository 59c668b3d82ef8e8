-- ===== src/Retention.antt =====
-- src/core/retention.rs: which segments may go. `readers` are the bytes of the `.meta` files under
-- `readers/`, or `none` without that directory; `files` the segments by id; `now_ns` the clock.
-- Removing a file that was just listed succeeds.
pub mod Safety
pub mod Removal
mod Tests
use chronicle_rs.Base.{
  ℕ, ◌+◌, ◌-◌, ◌*◌, ◌^◌, min, List, [], ◌∷◌, Option, none, some, Bool, true, false, ◌&&◌, not,
  Result, ok, err, ◌>>=◌, ◌==◌, ltb, if◌then◌else◌,
}
use chronicle_rs.Bytes.{Mem}
use chronicle_rs.Store.{sort}
use chronicle_rs.Reader.{ReaderMeta, load_reader_meta}

pub record RetentionConfig : Type 0 where
  pub reader_ttl_ns : ℕ
  pub max_reader_lag : ℕ

abbrev pub default_config : RetentionConfig
default_config = record { reader_ttl_ns = 30000000000; max_reader_lag = 10 * 1024 * 1024 * 1024 }

-- `segment.saturating_mul(segment_size).saturating_add(offset)`
unfoldable pub global_position : ℕ → ℕ → ℕ → ℕ
global_position segment_id segment_size offset =
    min (min (segment_id * segment_size) (2 ^ 64 - 1) + offset) (2 ^ 64 - 1)

-- The writer's head, the clock and the configuration of one call.
pub record Sweep : Type 0 where
  pub head_segment : ℕ
  pub head_offset : ℕ
  pub segment_size : ℕ
  pub now_ns : ℕ
  pub config : RetentionConfig

unfoldable pub head_position : Sweep → ℕ
head_position s = global_position s.head_segment s.segment_size s.head_offset

unfoldable pub reader_position : Sweep → ReaderMeta → ℕ
reader_position s meta = global_position meta.segment_id s.segment_size meta.offset

-- The first `continue`: a heartbeat that is too old.
unfoldable pub is_expired : Sweep → ReaderMeta → Bool
is_expired s meta =
    not (meta.last_heartbeat_ns == 0)
    && ltb s.config.reader_ttl_ns (s.now_ns - meta.last_heartbeat_ns)

-- The second `continue`: a reader too far behind.
unfoldable pub is_lagging : Sweep → ReaderMeta → Bool
is_lagging s meta =
    ltb (reader_position s meta) (head_position s)
    && ltb s.config.max_reader_lag (head_position s - reader_position s meta)

unfoldable pub is_live : Sweep → ReaderMeta → Bool
is_live s meta = if is_expired s meta then false else not (is_lagging s meta)

-- `Some(match min { Some(current) => current.min(x), None => x })`
unfoldable pub lower : Option ℕ → ℕ → Option ℕ
lower none x = some x
lower (some current) x = some (min current x)

unfoldable pub unwrap_or : Option ℕ → ℕ → ℕ
unwrap_or none d = d
unwrap_or (some x) d = x

-- `if id < min_segment && id < head_segment`
unfoldable pub may_go : Sweep → ℕ → ℕ → Bool
may_go s min_segment id = ltb id min_segment && ltb id s.head_segment

unfoldable pub candidate_ids : Sweep → ℕ → List (ℕ × Mem) → List ℕ
candidate_ids s min_segment [] = []
candidate_ids s min_segment ((id, m) ∷ files) =
    let rest = candidate_ids s min_segment files in
    if may_go s min_segment id then id ∷ rest else rest

-- The directory after the loop of `cleanup_segments`.
unfoldable pub kept_files : Sweep → ℕ → List (ℕ × Mem) → List (ℕ × Mem)
kept_files s min_segment [] = []
kept_files s min_segment ((id, m) ∷ files) =
    let rest = kept_files s min_segment files in
    if may_go s min_segment id then rest else (id, m) ∷ rest

module _ (crc32 : List ℕ → ℕ) where
  -- The loop over the readers, for the segment (`measure` is the segment id) and for the position.
  unfoldable pub min_live : Sweep → (ReaderMeta → ℕ) → List (List ℕ) → Option ℕ → Result (Option ℕ)
  min_live s measure [] acc = ok acc
  min_live s measure (file ∷ files) acc = do
    meta ← load_reader_meta crc32 (some file)
    min_live s measure files (if is_live s meta then lower acc (measure meta) else acc)

  unfoldable pub min_live_reader_segment : Sweep → Option (List (List ℕ)) → Result ℕ
  min_live_reader_segment s none = ok s.head_segment
  min_live_reader_segment s (some readers) = do
    found ← min_live s (λ meta. meta.segment_id) readers none
    ok (unwrap_or found s.head_segment)

  unfoldable pub min_live_reader_position : Sweep → Option (List (List ℕ)) → Result ℕ
  min_live_reader_position s none = ok (head_position s)
  min_live_reader_position s (some readers) = do
    found ← min_live s (reader_position s) readers none
    ok (unwrap_or found (head_position s))

  unfoldable pub retention_candidates :
      Sweep → Option (List (List ℕ)) → List (ℕ × Mem) → Result (List ℕ)
  retention_candidates s none files = ok []
  retention_candidates s (some readers) files = do
    min_segment ← min_live_reader_segment s (some readers)
    ok (sort (candidate_ids s min_segment files))

  -- The ids that were deleted, and the directory after the call.
  unfoldable pub cleanup_segments :
      Sweep → Option (List (List ℕ)) → List (ℕ × Mem) → Result (List ℕ × List (ℕ × Mem))
  cleanup_segments s none files = ok ([], files)
  cleanup_segments s (some readers) files = do
    min_segment ← min_live_reader_segment s (some readers)
    ok (sort (candidate_ids s min_segment files), kept_files s min_segment files)
