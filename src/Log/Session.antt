-- ===== src/Log/Session.antt =====
-- The writer's state between two calls, and what one append and one publication do to it.
pub mod Steps
pub mod Run
pub mod Finish
use chronicle_rs.Base.{
  ℕ, zero, suc, ◌+◌, ◌-◌, ◌%◌, ◌^◌, ◌≤◌, ◌<◌, ◌≡◌, refl, sym, ap, ◌∙◌, subst, List, [], ◌∷◌, ◌++◌,
  ok, Option, none, some, Bool, true, false, Result, length, take, drop, arith, lookup, insert,
  lookup-insert, ◌==◌, if◌then◌else◌,
}
use chronicle_rs.Bytes.{Mem, slice, zeros}
use chronicle_rs.Store.{Dir, header_buf, read_segment_header, seal_segment, publish_segment}
use chronicle_rs.Store.Prepare.{IsFresh, prepare_segment_temp-IsFresh}
use chronicle_rs.Writer
use chronicle_rs.Writer.{SegmentWriter, ensure_segment}
use chronicle_rs.Writer.Append.{
  Msg, msg_len, Fits, RecordAt, record_len_bounds, append_lem, append_ensure, stage_commit,
  stage_commit_before, stage_commit-RecordAt, stage_commit_tail, length-stage_commit,
}
use chronicle_rs.Log.Laid.{Laid, Laid-le, Laid-frame, Laid-snoc, Big}

-- Between segments: nothing is open.
pub record IsIdle (w : SegmentWriter) : Type 0 where
  pub unmapped : w.mmap ≡ none
  pub no_records : w.has_records ≡ false
  pub at_start : w.write_offset ≡ 64

-- A segment is open and holds the messages `ps`, numbered from `s`; behind them it is zero.
pub record IsOpen (crc32 : List ℕ → ℕ) (w : SegmentWriter) (s : ℕ) (ps : List Msg) (m : Mem)
    : Type 0 where
  pub mapped : w.mmap ≡ some m
  pub records : w.has_records ≡ true
  pub size_is : length m ≡ w.segment_size
  pub head : slice m 0 64 ≡ header_buf (w.segment_id % 2 ^ 32) 0
  pub laid : Laid crc32 m 64 s ps w.write_offset
  pub tail : drop w.write_offset m ≡ zeros (length m - w.write_offset)
  pub temp : lookup w.segment_id w.dir.temps ≡ some tt
  pub big : Big ps
  pub number : w.seq ≡ s + length ps

Big-snoc :
    (ps : List Msg) (p : Msg) → Big ps → 64 + length p.payload ≤ msg_len p → Big (ps ++ (p ∷ []))
Big-snoc [] p b h = (h, tt)
Big-snoc (q ∷ ps) p (b, bs) h = (b, Big-snoc ps p bs h)

length_snoc : (ps : List Msg) (p : Msg) → length (ps ++ (p ∷ [])) ≡ length ps + 1
length_snoc [] p = omega arith
length_snoc (q ∷ ps) p = omega (arith, length_snoc ps p)

module _ (crc32 : List ℕ → ℕ) where
  -- The state after an append to the open segment.
  abbrev pub appended : SegmentWriter → Mem → Msg → SegmentWriter
  appended w m p = record w {
    mmap = some (stage_commit crc32 m w.write_offset w.seq p);
    seq = (w.seq + 1) % 2 ^ 64;
    write_offset = w.write_offset + msg_len p;
    has_records = true;
  }

  pub appended-IsOpen :
      (w : SegmentWriter) (s : ℕ) (ps : List Msg) (m : Mem) (p : Msg)
      → IsOpen crc32 (record w { has_records = true }) s ps m
      → w.seq + 1 < 2 ^ 64
      → Fits w.segment_size p
      → w.write_offset + msg_len p ≤ w.segment_size
      → IsOpen crc32
          (appended w m p)
          s
          (ps ++ (p ∷ []))
          (stage_commit crc32 m w.write_offset w.seq p)
  appended-IsOpen w s ps m p o small fits room =
      let off : ℕ = w.write_offset in
      let m' : Mem = stage_commit crc32 m off w.seq p in
      let same_length = length-stage_commit crc32 m off w.seq p in
      let (big, _) = record_len_bounds (length p.payload) fits.payload_fits in
      let lo = Laid-le crc32 m 64 s off ps o.laid in
      record {
        mapped = refl;
        records = refl;
        size_is = same_length ∙ o.size_is;
        head = stage_commit_before crc32 m off w.seq p 0 64 lo ∙ o.head;
        laid =
            Laid-snoc crc32 m' 64 s off ps p
              (Laid-frame crc32 m m' 64 s off ps
                (λ a n lo hi. stage_commit_before crc32 m off w.seq p a n hi) same_length
                (omega arith) o.big o.laid)
              (subst (λ t. RecordAt crc32 m' off t p) o.number
                (stage_commit-RecordAt crc32 m off w.seq p fits.payload_fits
                  (omega (arith, o.size_is))));
        tail =
            stage_commit_tail crc32 m off w.seq p fits.payload_fits o.tail
            ∙ ap (λ t. zeros (t - (off + msg_len p))) (sym same_length);
        temp = o.temp;
        big = Big-snoc ps p o.big big;
        number = omega (arith, o.number, length_snoc ps p);
      }
