-- ===== src/Control/Tests.antt =====
-- Examples of the control block: a reader between two calls of the writer.
use chronicle_rs.Base.{◌≡◌, refl, List, [], ◌∷◌, ok, take, true, false, ltb, if◌then◌else◌, arith}
use chronicle_rs.Control.{
  create_stores, after_stores, zeroed, check_ready, Action, begin_index, writer_step, reader_step,
  shared, run, returned, step_writer, begin_set, next_load, bump,
}
use chronicle_rs.Control.Ready.{check_ready-create_stores}
use chronicle_rs.Control.Locked.{Published}
use chronicle_rs.Control.Seqlock.{segment_index-Published}

check_ready-create_stores_example :
    check_ready (after_stores (take 11 (create_stores 0 64 1 4096)) zeroed)
    ≡ ok (if ltb 11 12 then false else true)
check_ready-create_stores_example = check_ready-create_stores 0 64 1 4096 11

-- The writer goes to segment 1 while the reader is between its loads; the reader tries again.
abbrev schedule : List Action
schedule =
    reader_step
    ∷ reader_step
    ∷ begin_index 1 64
    ∷ writer_step
    ∷ reader_step
    ∷ reader_step
    ∷ reader_step
    ∷ writer_step
    ∷ writer_step
    ∷ reader_step
    ∷ reader_step
    ∷ reader_step
    ∷ reader_step
    ∷ []

ticks_small : (run schedule (shared zeroed)).ticks ≡ 2
unfolding run shared step_writer begin_set
ticks_small = refl

reads_new : (run schedule (shared zeroed)).reader ≡ returned 1 64
unfolding run shared next_load step_writer begin_set bump
reads_new = refl

segment_index-Published_example : Published (1, 64) (run schedule (shared zeroed)).published
segment_index-Published_example =
    segment_index-Published schedule zeroed 1 64 refl (omega (arith, ticks_small)) reads_new
