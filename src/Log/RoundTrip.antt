-- ===== src/Log/RoundTrip.antt =====
-- A session of the log writer, read back.
use chronicle_rs.Base.{
  ℕ, ◌+◌, ◌^◌, ◌<◌, ◌≤◌, ◌≡◌, refl, sym, ap, ◌∙◌, subst, List, [], ◌∷◌, some, ok, ◌>>=◌, length,
  length-append, lookup, keys, arith, All,
}
use chronicle_rs.Bytes.{Mem}
use chronicle_rs.Store.{Dir, default_segment_size, discover_segments}
use chronicle_rs.Writer.Append.{Msg, Fits}
use chronicle_rs.Cursor.{open_cursor}
use chronicle_rs.Log.{LogWriter, LogReader, open_writer, open_reader, size_of_first}
use chronicle_rs.Log.Laid.{joined, total, Holds, Holds-count}
use chronicle_rs.Log.Replay.{Between}
use chronicle_rs.Log.Replay.Whole.{read_all, views, read-Between}
use chronicle_rs.Log.Directory.{Holds-Ahead, discover-Holds}
use chronicle_rs.Log.Session.Finish.{write_all, session-Finished}

length-joined : (cs : List (List Msg)) → length (joined cs) ≡ total cs
length-joined [] = refl
length-joined (c ∷ cs) = omega (arith, length-append c (joined cs), length-joined cs)

open_reader_lem :
    (d : Dir) (ids : List ℕ) (n : ℕ)
    → discover_segments d ≡ ids
    → size_of_first d ids ≡ ok n
    → open_reader d ≡ ok (record { cursor = open_cursor d ids n })
unfolding open_reader
open_reader_lem d ids n e h = simp (open_reader, e, h)

first_size :
    (d : Dir) (i : ℕ) (ids : List ℕ) (m : Mem)
    → lookup i d.files ≡ some m
    → size_of_first d (i ∷ ids) ≡ ok (length m)
unfolding size_of_first
first_size d i ids m h = rw (size_of_first, h) refl

module _ (crc32 : List ℕ → ℕ) (sums : (bs : List ℕ) → crc32 bs < 2 ^ 32) where
  -- A fresh cursor stands before the first segment.
  start_Between :
      (d : Dir) (n last : ℕ) (cs : List (List Msg))
      → Holds crc32 n 0 0 d.files cs last
      → Between crc32 n d (open_cursor d (keys d.files) n) 0 cs
  unfolding open_cursor
  start_Between d n last cs h = record {
    dir_is = refl;
    size_is = refl;
    unmapped = refl;
    offset_is = refl;
    ahead = Holds-Ahead crc32 n d 0 0 last d.files cs h (λ k m found. found);
  }

  start_reads :
      (d : Dir) (n last : ℕ) (cs : List (List Msg))
      → n < 2 ^ 63
      → 0 < n
      → Holds crc32 n 0 0 d.files cs last
      → All (Fits n) (joined cs)
      → length (joined cs) < 2 ^ 64
      → read_all crc32 (length (joined cs) + 1) (record { cursor = open_cursor d (keys d.files) n })
        ≡ some (ok (views 0 (joined cs)))
  start_reads d n last cs small pos h fits few =
      read-Between crc32 n d small pos sums (length (joined cs) + 1)
        (open_cursor d (keys d.files) n) 0 cs (start_Between d n last cs h) fits (omega arith)
        (omega arith)

  -- Opening a reader on a directory that holds the messages, and reading to the end.
  reader_whole :
      (size : ℕ) (d : Dir) (fs : List (ℕ × Mem)) (cs : List (List Msg)) (last : ℕ)
      → d.files ≡ fs
      → size < 2 ^ 63
      → 0 < size
      → Holds crc32 size 0 0 d.files cs last
      → Holds crc32 size 0 0 fs cs last
      → last ≤ 1_000_000_000
      → All (Fits size) (joined cs)
      → length (joined cs) < 2 ^ 64
      → (r : LogReader) × (open_reader d ≡ ok r)
        × (read_all crc32 (length (joined cs) + 1) r ≡ some (ok (views 0 (joined cs))))
  unfolding size_of_first keys lookup
  reader_whole size d [] [] last e small pos hd h few_ids fits few =
      let found : discover_segments d ≡ [] =
        discover-Holds crc32 size d 0 0 last [] hd few_ids ∙ ap keys e in
      let n : ℕ = default_segment_size in
      let empty : Holds crc32 n 0 0 d.files [] last =
        subst (λ f. Holds crc32 n 0 0 f [] last) (sym e) h in
      (
        record { cursor = open_cursor d (keys d.files) n },
        open_reader_lem d [] n found refl
            ∙ ap (λ ids. ok (record { cursor = open_cursor d ids n })) (ap keys (sym e)),
        start_reads d n last [] (omega arith) (omega arith) empty tt few,
      )
  reader_whole size d [] (c ∷ cs) last e small pos hd h few_ids fits few = absurd h
  reader_whole size d (f ∷ fs) [] last e small pos hd h few_ids fits few = absurd h
  reader_whole size d ((i, m) ∷ fs) (c ∷ cs) last e small pos hd (id_is, seg, h) few_ids fits few =
      let found : discover_segments d ≡ keys d.files =
        discover-Holds crc32 size d 0 0 last (c ∷ cs) hd few_ids in
      let here : lookup i d.files ≡ some m = rw e (ground arith) in
      let first : size_of_first d (keys d.files) ≡ ok size =
        subst (λ f. size_of_first d (keys f) ≡ ok size) (sym e)
          (first_size d i (keys fs) m here ∙ ap ok seg.size_is) in
      (
        record { cursor = open_cursor d (keys d.files) size },
        open_reader_lem d (keys d.files) size found first,
        start_reads d size last (c ∷ cs) small pos hd fits few,
      )

  -- A session in a directory without segments, and a reader opened on what it leaves: opening,
  -- every append and `finish` succeed, and the reader gives exactly the messages, in order, with
  -- their times, types and payloads and numbered from 0, and then the end. The messages fit a
  -- segment each and are at most 10^9, so that the ids have the nine digits that a reader looks for.
  pub read_all-session :
      (size : ℕ) (d : Dir) (msgs : List Msg)
      → d.files ≡ []
      → 128 ≤ size
      → size < 2 ^ 63
      → length msgs ≤ 1_000_000_000
      → All (Fits size) msgs
      → (l : LogWriter) × (r : LogReader) × ((open_writer d size >>= λ l₀. write_all crc32 l₀ msgs)
          ≡ ok l)
        × (open_reader l.writer.dir ≡ ok r)
        × (read_all crc32 (length msgs + 1) r ≡ some (ok (views 0 msgs)))
  read_all-session size d msgs e big small few fits =
      let (l, written, f) = session-Finished crc32 size d msgs e big small (omega arith) fits in
      let files = l.writer.dir.files in
      let (ids, count) = Holds-count crc32 size 0 0 f.next_id files f.chunks f.holds in
      let same_length : length (joined f.chunks) ≡ length msgs = ap length f.all in
      let (r, opens, reads) =
        reader_whole size l.writer.dir files f.chunks f.next_id refl small (omega arith) f.holds
          f.holds (omega (arith, ids, count, length-joined f.chunks, same_length))
          (subst (All (Fits size)) (sym f.all) fits) (omega arith) in
      (
        l,
        r,
        written,
        opens,
        subst (λ ps. read_all crc32 (length ps + 1) r ≡ some (ok (views 0 ps))) f.all reads,
      )
