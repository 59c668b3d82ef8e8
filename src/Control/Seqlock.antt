-- ===== src/Control/Seqlock.antt =====
-- The sequence lock over the pair of segment and offset: no reader returns a pair that was never
-- current, whatever the interleaving.
use chronicle_rs.Base.{ℕ, ◌^◌, ◌<◌, ◌≤◌, ◌≡◌, refl, subst, List, [], ◌∷◌, arith, inl}
use chronicle_rs.Control.{
  ControlBlock, WriterAt, idle, bumped, stored_segment, stored_offset, returned, Action,
  begin_index, set_write_offset, writer_step, reader_step, Shared, begin_set, put_offset,
  step_writer, act, run, shared,
}
use chronicle_rs.Control.Locked.{
  Published, ReaderOk, IsLocked, writer-IsLocked, begin-IsLocked, put-IsLocked, load-Ok,
}

act-IsLocked :
    (a : Action) (s : Shared) → (act a s).ticks < 2 ^ 32 → IsLocked s → IsLocked (act a s)
unfolding act
act-IsLocked (begin_index segment offset) s small v =
    begin-IsLocked s.writer s segment offset refl small v
act-IsLocked (set_write_offset offset) s small v = put-IsLocked s.writer s offset refl v
act-IsLocked writer_step s small v = writer-IsLocked s.writer s refl small v
act-IsLocked reader_step s small v = record {
  counted = v.counted;
  writer_ok = v.writer_ok;
  reader_ok =
      load-Ok s.reader s.writer s.block s.published s.ticks v.counted v.writer_ok v.reader_ok;
}

step_writer_ticks : (w : WriterAt) (s : Shared) → s.writer ≡ w → s.ticks ≤ (step_writer s).ticks
unfolding step_writer
step_writer_ticks idle s e = rw (step_writer, e) (omega arith)
step_writer_ticks (bumped x y) s e = rw (step_writer, e) (omega arith)
step_writer_ticks (stored_segment y) s e = rw (step_writer, e) (omega arith)
step_writer_ticks stored_offset s e = rw (step_writer, e) (omega arith)

act_ticks : (a : Action) (s : Shared) → s.ticks ≤ (act a s).ticks
unfolding act begin_set put_offset
act_ticks (begin_index segment offset) s = ground arith
act_ticks (set_write_offset offset) s = ground arith
act_ticks writer_step s = step_writer_ticks s.writer s refl
act_ticks reader_step s = omega arith

run_ticks : (schedule : List Action) (s : Shared) → s.ticks ≤ (run schedule s).ticks
unfolding run
run_ticks [] s = omega arith
run_ticks (a ∷ rest) s = omega (arith, act_ticks a s, run_ticks rest (act a s))

pub run-IsLocked :
    (schedule : List Action) (s : Shared)
    → (run schedule s).ticks < 2 ^ 32
    → IsLocked s
    → IsLocked (run schedule s)
unfolding run
run-IsLocked [] s small v = v
run-IsLocked (a ∷ rest) s small v =
    run-IsLocked rest (act a s) small (act-IsLocked a s (omega (arith, run_ticks rest (act a s))) v)

shared-IsLocked : (b : ControlBlock) → b.segment_gen ≡ 0 → IsLocked (shared b)
unfolding shared Published
shared-IsLocked b h = record { counted = h; writer_ok = (refl, inl refl); reader_ok = tt }

-- Whatever the interleaving of the writer's steps with a reader's, a pair that the reader returns
-- was current at some time: never the segment of one call with the offset of another. The counter
-- has 32 bits, and must not have gone around.
pub segment_index-Published :
    (schedule : List Action) (b : ControlBlock) (segment offset : ℕ)
    → b.segment_gen ≡ 0
    → (run schedule (shared b)).ticks < 2 ^ 32
    → (run schedule (shared b)).reader ≡ returned segment offset
    → Published (segment, offset) (run schedule (shared b)).published
segment_index-Published schedule b segment offset zero_gen small e =
    let s : Shared = run schedule (shared b) in
    let v : IsLocked s = run-IsLocked schedule (shared b) small (shared-IsLocked b zero_gen) in
    subst (λ r. ReaderOk r s.block s.published s.ticks) e v.reader_ok
