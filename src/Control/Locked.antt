-- ===== src/Control/Locked.antt =====
-- The invariant of the sequence lock, and that the steps of the writer and of a reader keep it.
use chronicle_rs.Base.{
  ℕ, ◌+◌, ◌%◌, ◌^◌, ◌<◌, ◌≤◌, ◌≡◌, refl, sym, ap, subst, List, [], ◌∷◌, ◌&&◌, ◌==◌, arith, ◌⊎◌, inl,
  inr, Bool-cases,
}
use chronicle_rs.Control.{
  ControlBlock, WriterAt, idle, bumped, stored_segment, stored_offset, ReaderAt, at_start,
  loaded_start, loaded_segment, loaded_offset, returned, Shared, bump, begin_set, put_offset,
  step_writer, next_load,
}

-- The pair was current at some time.
unfoldable pub Published : ℕ × ℕ → List (ℕ × ℕ) → Type 0
Published p [] = ⊥
Published p (q ∷ qs) = (p ≡ q) ⊎ Published p qs

-- An even count of additions to `segment_gen` is a time at which no call is under way.
abbrev pub WriterOk : WriterAt → ControlBlock → List (ℕ × ℕ) → ℕ → Type 0
WriterOk idle b ps ticks = (ticks % 2 ≡ 0) × Published (b.current_segment, b.write_offset) ps
WriterOk (bumped x y) b ps ticks = ticks % 2 ≡ 1
WriterOk (stored_segment y) b ps ticks = ticks % 2 ≡ 1
WriterOk stored_offset b ps ticks = ticks % 2 ≡ 1

-- What the reader has loaded is current as long as the count is the one it started from.
abbrev pub ReaderOk : ReaderAt → ControlBlock → List (ℕ × ℕ) → ℕ → Type 0
ReaderOk at_start b ps ticks = Unit
ReaderOk (loaded_start g) b ps ticks = (g % 2 ≡ 0) × (g ≤ ticks)
ReaderOk (loaded_segment g x) b ps ticks =
    (g % 2 ≡ 0) × (g ≤ ticks) × (g ≡ ticks → x ≡ b.current_segment)
ReaderOk (loaded_offset g x y) b ps ticks =
    (g % 2 ≡ 0) × (g ≤ ticks) × (g ≡ ticks → Published (x, y) ps)
ReaderOk (returned x y) b ps ticks = Published (x, y) ps

pub record IsLocked (s : Shared) : Type 0 where
  pub counted : s.block.segment_gen ≡ s.ticks
  pub writer_ok : WriterOk s.writer s.block s.published s.ticks
  pub reader_ok : ReaderOk s.reader s.block s.published s.ticks

-- The reader is not disturbed by an addition to the count.
reader_tick :
    (r : ReaderAt) (b b' : ControlBlock) (ps ps' : List (ℕ × ℕ)) (ticks : ℕ)
    → ((p : ℕ × ℕ) → Published p ps → Published p ps')
    → ReaderOk r b ps ticks
    → ReaderOk r b' ps' (ticks + 1)
reader_tick at_start b b' ps ps' ticks keep h = tt
reader_tick (loaded_start g) b b' ps ps' ticks keep h = (h.0, omega arith)
reader_tick (loaded_segment g x) b b' ps ps' ticks keep (e, le, h) =
    (e, omega arith, λ q. absurd (omega arith))
reader_tick (loaded_offset g x y) b b' ps ps' ticks keep (e, le, h) =
    (e, omega arith, λ q. absurd (omega arith))
reader_tick (returned x y) b b' ps ps' ticks keep h = keep (x, y) h

-- Nor by the writer's stores while the count is odd.
reader_odd :
    (r : ReaderAt) (b b' : ControlBlock) (ps : List (ℕ × ℕ)) (ticks : ℕ)
    → ticks % 2 ≡ 1
    → ReaderOk r b ps ticks
    → ReaderOk r b' ps ticks
reader_odd at_start b b' ps ticks odd h = tt
reader_odd (loaded_start g) b b' ps ticks odd h = h
reader_odd (loaded_segment g x) b b' ps ticks odd (e, le, h) =
    (e, le, λ q. absurd (omega (arith, ap (λ t. t % 2) q)))
reader_odd (loaded_offset g x y) b b' ps ticks odd h = h
reader_odd (returned x y) b b' ps ticks odd h = h

-- A store of the offset alone leaves the segment.
reader_offset :
    (r : ReaderAt) (b : ControlBlock) (ps : List (ℕ × ℕ)) (p : ℕ × ℕ) (ticks offset : ℕ)
    → ReaderOk r b ps ticks
    → ReaderOk r (record b { write_offset = offset }) (p ∷ ps) ticks
unfolding Published
reader_offset at_start b ps p ticks offset h = tt
reader_offset (loaded_start g) b ps p ticks offset h = h
reader_offset (loaded_segment g x) b ps p ticks offset h = h
reader_offset (loaded_offset g x y) b ps p ticks offset (e, le, h) = (e, le, λ q. inr (h q))
reader_offset (returned x y) b ps p ticks offset h = inr h

pub writer-IsLocked :
    (w : WriterAt) (s : Shared)
    → s.writer ≡ w
    → (step_writer s).ticks < 2 ^ 32
    → IsLocked s
    → IsLocked (step_writer s)
unfolding step_writer bump Published
writer-IsLocked idle s e small v = rw (step_writer, e) v
writer-IsLocked (bumped x y) s e small v =
    let odd : s.ticks % 2 ≡ 1 = subst (λ w. WriterOk w s.block s.published s.ticks) e v.writer_ok in
    rw (step_writer, e)
      (record {
        counted = v.counted;
        writer_ok = odd;
        reader_ok =
            reader_odd s.reader s.block (record s.block { current_segment = x }) s.published s.ticks
              odd v.reader_ok;
      })
writer-IsLocked (stored_segment y) s e small v =
    let odd : s.ticks % 2 ≡ 1 = subst (λ w. WriterOk w s.block s.published s.ticks) e v.writer_ok in
    rw (step_writer, e)
      (record {
        counted = v.counted;
        writer_ok = odd;
        reader_ok =
            reader_odd s.reader s.block (record s.block { write_offset = y }) s.published s.ticks
              odd v.reader_ok;
      })
writer-IsLocked stored_offset s e small v =
    let odd : s.ticks % 2 ≡ 1 = subst (λ w. WriterOk w s.block s.published s.ticks) e v.writer_ok in
    let p : ℕ × ℕ = (s.block.current_segment, s.block.write_offset) in
    let room : s.ticks + 1 < 2 ^ 32 = ground arith in
    rw (step_writer, e)
      (record {
        counted = omega (arith, v.counted);
        writer_ok = (omega arith, inl refl);
        reader_ok =
            reader_tick s.reader s.block
              (record s.block { segment_gen = (s.block.segment_gen + 1) % 2 ^ 32 }) s.published
              (p ∷ s.published) s.ticks (λ q h. inr h) v.reader_ok;
      })

pub begin-IsLocked :
    (w : WriterAt) (s : Shared) (segment offset : ℕ)
    → s.writer ≡ w
    → (begin_set segment offset s).ticks < 2 ^ 32
    → IsLocked s
    → IsLocked (begin_set segment offset s)
unfolding begin_set bump
begin-IsLocked idle s segment offset e small v =
    let (even, _) = subst (λ w. WriterOk w s.block s.published s.ticks) e v.writer_ok in
    let room : s.ticks + 1 < 2 ^ 32 = ground arith in
    rw (begin_set, e)
      (record {
        counted = omega (arith, v.counted);
        writer_ok = omega arith;
        reader_ok =
            reader_tick s.reader s.block
              (record s.block { segment_gen = (s.block.segment_gen + 1) % 2 ^ 32 }) s.published
              s.published s.ticks (λ q h. h) v.reader_ok;
      })
begin-IsLocked (bumped x y) s segment offset e small v = rw (begin_set, e) v
begin-IsLocked (stored_segment y) s segment offset e small v = rw (begin_set, e) v
begin-IsLocked stored_offset s segment offset e small v = rw (begin_set, e) v

pub put-IsLocked :
    (w : WriterAt) (s : Shared) (offset : ℕ)
    → s.writer ≡ w
    → IsLocked s
    → IsLocked (put_offset offset s)
unfolding put_offset Published
put-IsLocked idle s offset e v =
    let (even, _) = subst (λ w. WriterOk w s.block s.published s.ticks) e v.writer_ok in
    let p : ℕ × ℕ = (s.block.current_segment, offset) in
    rw (put_offset, e)
      (record {
        counted = v.counted;
        writer_ok =
            subst
              (λ w. WriterOk w (record s.block { write_offset = offset }) (p ∷ s.published) s.ticks)
              (sym e) (even, inl refl);
        reader_ok = reader_offset s.reader s.block s.published p s.ticks offset v.reader_ok;
      })
put-IsLocked (bumped x y) s offset e v = rw (put_offset, e) v
put-IsLocked (stored_segment y) s offset e v = rw (put_offset, e) v
put-IsLocked stored_offset s offset e v = rw (put_offset, e) v

-- At an even count no call is under way, and the block's pair is current.
settled :
    (w : WriterAt) (b : ControlBlock) (ps : List (ℕ × ℕ)) (ticks : ℕ)
    → ticks % 2 ≡ 0
    → WriterOk w b ps ticks
    → Published (b.current_segment, b.write_offset) ps
settled idle b ps ticks even h = h.1
settled (bumped x y) b ps ticks even h = absurd (omega arith)
settled (stored_segment y) b ps ticks even h = absurd (omega arith)
settled stored_offset b ps ticks even h = absurd (omega arith)

pub load-Ok :
    (r : ReaderAt) (w : WriterAt) (b : ControlBlock) (ps : List (ℕ × ℕ)) (ticks : ℕ)
    → b.segment_gen ≡ ticks
    → WriterOk w b ps ticks
    → ReaderOk r b ps ticks
    → ReaderOk (next_load b r) b ps ticks
unfolding next_load
load-Ok at_start w b ps ticks c u h = elim (Bool-cases (b.segment_gen % 2 == 0)) [
  | inl even ↦ rw (next_load, even) (ground arith, omega (arith, c))
  | inr odd ↦ rw (next_load, odd) tt
]
load-Ok (loaded_start g) w b ps ticks c u (e, le) = (e, le, λ q. refl)
load-Ok (loaded_segment g x) w b ps ticks c u (e, le, h) = (
  e,
  le,
  λ q.
      subst (λ t. Published (t, b.write_offset) ps) (sym (h q))
        (settled w b ps ticks (omega (arith, ap (λ t. t % 2) q)) u),
)
load-Ok (loaded_offset g x y) w b ps ticks c u (e, le, h) =
    elim (Bool-cases ((g == b.segment_gen) && (b.segment_gen % 2 == 0))) [
      | inl same ↦ rw (next_load, same) (h (ground (arith, c)))
      | inr differ ↦ rw (next_load, differ) tt
    ]
load-Ok (returned x y) w b ps ticks c u h = tt
