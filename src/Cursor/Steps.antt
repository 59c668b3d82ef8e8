-- ===== src/Cursor/Steps.antt =====
-- The rounds of the cursor's loop: a record, the end of a segment, the next segment, the end.
use chronicle_rs.Base.{ℕ, suc, ◌≡◌, refl, List, [], ◌∷◌, none, some, true, false, ok, drop, lookup}
use chronicle_rs.Bytes.{Mem}
use chronicle_rs.Store.{open_segment}
use chronicle_rs.Cursor.{
  MessageRef, SegmentCursor, advance_segment, read_record, load_from, load_next_segment, next_loop,
}

-- The cursor with its segment open.
abbrev pub opened_at : SegmentCursor → Mem → SegmentCursor
opened_at c m = record c { current_mmap = some m }

pub next_found :
    (fuel : ℕ) (c : SegmentCursor) (m : Mem) (r : MessageRef) (off : ℕ)
    → c.current_mmap ≡ some m
    → read_record m c.offset ≡ ok (some (r, off))
    → next_loop (suc fuel) c ≡ some (ok (some r, record c { offset = off }))
unfolding next_loop
next_found fuel c m r off h e = simp (next_loop, h, e)

pub next_advance :
    (fuel : ℕ) (c : SegmentCursor) (m : Mem)
    → c.current_mmap ≡ some m
    → read_record m c.offset ≡ ok none
    → next_loop (suc fuel) c ≡ next_loop fuel (advance_segment c)
unfolding next_loop
next_advance fuel c m h e = simp (next_loop, h, e)

load_hit :
    (c : SegmentCursor) (id : ℕ) (ids : List ℕ) (m : Mem)
    → drop c.current_segment_idx c.segments ≡ id ∷ ids
    → lookup id c.dir.files ≡ some m
    → open_segment c.dir id c.segment_size ≡ ok m
    → load_next_segment c ≡ ok (true, opened_at c m)
unfolding load_next_segment load_from
load_hit c id ids m e l o = rw (load_next_segment, e, load_from, l, o) refl

load_none :
    (c : SegmentCursor)
    → drop c.current_segment_idx c.segments ≡ []
    → load_next_segment c ≡ ok (false, c)
unfolding load_next_segment load_from
load_none c e = rw (load_next_segment, e) refl

pub next_end :
    (fuel : ℕ) (c : SegmentCursor)
    → c.current_mmap ≡ none
    → drop c.current_segment_idx c.segments ≡ []
    → next_loop (suc fuel) c ≡ some (ok (none, c))
unfolding next_loop
next_end fuel c h e = simp (next_loop, h, load_none c e)

-- A cursor between segments goes on as if the next one were open.
pub next_load :
    (fuel : ℕ) (c : SegmentCursor) (id : ℕ) (ids : List ℕ) (m : Mem)
    → c.current_mmap ≡ none
    → drop c.current_segment_idx c.segments ≡ id ∷ ids
    → lookup id c.dir.files ≡ some m
    → open_segment c.dir id c.segment_size ≡ ok m
    → next_loop (suc fuel) c ≡ next_loop (suc fuel) (opened_at c m)
unfolding next_loop
next_load fuel c id ids m h e l o = rw (next_loop, h, load_hit c id ids m e l o) refl
