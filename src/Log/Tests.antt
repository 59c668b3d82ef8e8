-- ===== src/Log/Tests.antt =====
-- Examples of the log: two messages in segments of 256 bytes.
use chronicle_rs.Base.{◌≡◌, refl, [], ◌∷◌, some, ok, ◌>>=◌, arith, inl}
use chronicle_rs.Writer
use chronicle_rs.Log
use chronicle_rs.Log.{LogWriter, LogReader, open_writer, open_reader}
use chronicle_rs.Log.Session.Run.{Written, append-Written}
use chronicle_rs.Log.Session.Finish.{write_all, Finished, session-Finished}
use chronicle_rs.Log.Replay.Whole.{read_all, views}
use chronicle_rs.Log.RoundTrip.{read_all-session}
use chronicle_rs.Samples.{
  byte_sum, byte_sum-lt, empty_dir, order, two_messages, two_messages-fit, order-Fits,
}

read_all-session_example :
    (l : LogWriter) × (r : LogReader) × ((open_writer empty_dir 256 >>= λ l₀.
    write_all byte_sum l₀ two_messages)
      ≡ ok l)
    × (open_reader l.writer.dir ≡ ok r)
    × (read_all byte_sum 3 r ≡ some (ok (views 0 two_messages)))
read_all-session_example =
    read_all-session byte_sum byte_sum-lt 256 empty_dir two_messages refl (omega arith)
      (omega arith) (omega arith) two_messages-fit

session-Finished_example :
    (l : LogWriter) × ((open_writer empty_dir 256 >>= λ l₀. write_all byte_sum l₀ two_messages)
      ≡ ok l)
    × Finished byte_sum 256 l two_messages
session-Finished_example =
    session-Finished byte_sum 256 empty_dir two_messages refl (omega arith) (omega arith)
      (omega arith) two_messages-fit

abbrev fresh_writer : LogWriter
fresh_writer = record { writer = Writer.new empty_dir 0 256; segment_size = 256 }

fresh_writer-Written : Written byte_sum 256 fresh_writer []
unfolding Writer.new
fresh_writer-Written = record {
  chunks = [];
  cur = [];
  log_size = refl;
  writer_size = refl;
  holds = refl;
  current = inl (record { unmapped = refl; no_records = refl; at_start = refl }, refl, refl);
  all = refl;
}

append-Written_example :
    (l : LogWriter) × (Log.append byte_sum fresh_writer 7 1000 (1 ∷ 2 ∷ 3 ∷ []) ≡ ok l)
    × Written byte_sum 256 l (order ∷ [])
append-Written_example =
    append-Written byte_sum 256 (omega arith) fresh_writer [] order fresh_writer-Written
      (omega arith) order-Fits
