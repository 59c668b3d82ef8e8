-- ===== src/Queue/Rounds.antt =====
-- The rounds of the read loop: the end of a segment, the next one, a record.
use Prim.Native.Nat.{bit_and}
use chronicle_rs.Base.{
  ℕ, suc, ◌+◌, ◌%◌, ◌^◌, ◌≤◌, ◌<◌, ◌≡◌, refl, List, ok, some, none, true, false, leb, ◌==◌, length,
  arith, lookup, ==_iff, not-ltb,
}
use chronicle_rs.Bytes.{Mem, slice}
use chronicle_rs.Header.{pad_type_id}
use chronicle_rs.Store.{SegmentHeader, read_segment_header, open_segment}
use chronicle_rs.Writer.Append.{Msg}
use chronicle_rs.Cursor.{MessageRef, read_record}
use chronicle_rs.Cursor.Records.{ref_of}
use chronicle_rs.Log.Replay.Whole.{view}
use chronicle_rs.Queue.{Queue}
use chronicle_rs.Queue.Reader.{
  QueueReader, Outside, advance_segment, enter_segment, checked, next_loop, view_of, payload_at,
}
use chronicle_rs.Queue.Written.{mapping_lem}

-- The reader in the segment after its own.
abbrev pub entered : QueueReader → QueueReader
entered r = record r { segment_id = r.segment_id + 1; read_offset = 64 }

pub advance_at_head :
    (o : Outside) (q : Queue) (r : QueueReader) (m : Mem)
    → q.control.current_segment ≤ r.segment_id
    → advance_segment o q r m ≡ some (ok (false, q, r))
unfolding advance_segment
advance_at_head o q r m h =
    let no_more : leb q.control.current_segment r.segment_id ≡ true = ground arith in
    rw (advance_segment, no_more) refl

pub advance_to_next :
    (o : Outside) (q : Queue) (r : QueueReader) (m next_m : Mem) (h : SegmentHeader)
    → r.segment_id < q.control.current_segment
    → r.segment_id + 1 < 2 ^ 32
    → read_segment_header m ≡ ok h
    → bit_and h.flags 1 ≡ 1
    → lookup (r.segment_id + 1) q.dir.files ≡ some next_m
    → open_segment q.dir (r.segment_id + 1) r.segment_size ≡ ok next_m
    → advance_segment o q r m ≡ some (ok (true, q, entered r))
unfolding advance_segment enter_segment
advance_to_next o q r m next_m h before small reads sealed there opens =
    let more : leb q.control.current_segment r.segment_id ≡ false = ground arith in
    let number : (r.segment_id + 1) % 2 ^ 32 ≡ r.segment_id + 1 = omega arith in
    rw (advance_segment, more, reads, number, there, sealed, number, enter_segment, opens) refl

module _ (crc32 : List ℕ → ℕ) where
  pub next_none :
      (fuel : ℕ) (o : Outside) (q : Queue) (r : QueueReader) (m : Mem)
      → lookup r.segment_id q.dir.files ≡ some m
      → read_record m r.read_offset ≡ ok none
      → advance_segment o q r m ≡ some (ok (false, q, r))
      → next_loop crc32 (suc fuel) o q r ≡ some (ok (none, q, r))
  unfolding next_loop
  next_none fuel o q r m there reads stays =
      rw (next_loop, mapping_lem q.dir r.segment_id m there, reads, stays) refl

  pub next_advance :
      (fuel : ℕ) (o : Outside) (q : Queue) (r r' : QueueReader) (m : Mem)
      → lookup r.segment_id q.dir.files ≡ some m
      → read_record m r.read_offset ≡ ok none
      → advance_segment o q r m ≡ some (ok (true, q, r'))
      → next_loop crc32 (suc fuel) o q r ≡ next_loop crc32 fuel o q r'
  unfolding next_loop
  next_advance fuel o q r r' m there reads goes =
      simp (next_loop, mapping_lem q.dir r.segment_id m there, reads, goes)

  pub next_record :
      (fuel : ℕ) (o : Outside) (q : Queue) (r : QueueReader) (m : Mem) (ref : MessageRef) (off : ℕ)
      → lookup r.segment_id q.dir.files ≡ some m
      → read_record m r.read_offset ≡ ok (some (ref, off))
      → (ref.type_id == pad_type_id) ≡ false
      → next_loop crc32 (suc fuel) o q r
        ≡ some (checked crc32 q (record r { read_offset = off }) m ref)
  unfolding next_loop
  next_record fuel o q r m ref off there reads plain =
      simp (next_loop, mapping_lem q.dir r.segment_id m there, reads, plain)

  pub checked_lem :
      (q : Queue) (r : QueueReader) (m : Mem) (off s : ℕ) (p : Msg)
      → slice m (off + 64) (length p.payload) ≡ p.payload
      → checked crc32 q r m (ref_of crc32 off s p) ≡ ok (some (ref_of crc32 off s p), q, r)
  unfolding checked
  checked_lem q r m off s p there =
      let same : (crc32 p.payload == crc32 p.payload) ≡ true = (==_iff _ _).1 refl in
      simp (checked, there, same)

  -- The view of a record that was found.
  pub view_of_lem :
      (q : Queue) (r : QueueReader) (m : Mem) (off s : ℕ) (p : Msg)
      → lookup r.segment_id q.dir.files ≡ some m
      → slice m (off + 64) (length p.payload) ≡ p.payload
      → off + 64 + length p.payload ≤ length m
      → view_of q r (some (ref_of crc32 off s p)) ≡ ok (some (view s p))
  unfolding view_of payload_at
  view_of_lem q r m off s p found there room =
      let inside = not-ltb (length m) (off + 64 + length p.payload) room in
      simp (view_of, mapping_lem q.dir r.segment_id m found, payload_at, inside, there)
