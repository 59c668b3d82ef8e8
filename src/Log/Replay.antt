-- ===== src/Log/Replay.antt =====
-- Reading a log that a session left: where the reader stands, and what each call of `next` gives.
pub mod Whole
use chronicle_rs.Base.{
  ℕ, zero, suc, ◌+◌, ◌%◌, ◌^◌, ◌<◌, ◌≤◌, ◌≡◌, refl, sym, ap, ◌∙◌, subst, List, [], ◌∷◌, ◌++◌,
  Option, none, some, Result, ok, err, ◌>>=◌, length, take, drop, lookup, arith, ◌==◌, true, false,
  leb, ltb, All, if◌then◌else◌,
}
use chronicle_rs.Bytes.{Mem, slice, zeros}
use chronicle_rs.Header.{max_payload_len}
use chronicle_rs.Store.{Dir, open_segment, mmap_open}
use chronicle_rs.Store.Opened.{open_segment_lem}
use chronicle_rs.Writer.Append.{Msg, msg_len, Fits, RecordAt, record_len_bounds}
use chronicle_rs.Cursor.{
  MessageRef, SegmentCursor, advance_segment, next_loop, next_header, read_payload, read_record,
}
use chronicle_rs.Cursor.Records.{ref_of, read_record-RecordAt, read_record_tail}
use chronicle_rs.Cursor.Steps.{opened_at, next_found, next_advance, next_end, next_load}
use chronicle_rs.Log
use chronicle_rs.Log.{LogReader, MessageView}
use chronicle_rs.Log.Laid.{Laid, IsSegment}

pub next_header_fuel : (c : SegmentCursor) → next_header c ≡ next_loop (suc (length c.segments)) c
unfolding next_header
next_header_fuel c = ap (λ n. next_loop n c) {y = suc (length c.segments)} (omega arith)

drop_cons {ℓ} :
    {A : Type ℓ} {y : A} {ys : List A} (i : ℕ) (xs : List A)
    → drop i xs ≡ y ∷ ys
    → (k : ℕ) × (length xs ≡ suc k) × (drop (suc i) xs ≡ ys)
drop_cons zero [] h = absurd (ground arith)
drop_cons zero (x ∷ xs) h = (length xs, refl, ground arith)
drop_cons (suc i) [] h = absurd (ground arith)
drop_cons (suc i) (x ∷ xs) h = let (k, e, rest) = drop_cons i xs h in (length xs, refl, rest)

module _ (crc32 : List ℕ → ℕ) (size : ℕ) (d : Dir) where
  -- The segments `ids` of the directory hold the chunks, numbered from `s`.
  abbrev pub Ahead : ℕ → List ℕ → List (List Msg) → Type 0
  Ahead s [] [] = Unit
  Ahead s [] (c ∷ cs) = ⊥
  Ahead s (id ∷ ids) [] = ⊥
  Ahead s (id ∷ ids) (c ∷ cs) =
      (m : Mem) × (lookup id d.files ≡ some m)
      × IsSegment crc32 size id s c m
      × Ahead (s + length c) ids cs

  -- In a segment, before the messages `ps` of it.
  pub record At (c : SegmentCursor) (s : ℕ) (ps : List Msg) (cs : List (List Msg)) : Type 0 where
    pub dir_is : c.dir ≡ d
    pub size_is : c.segment_size ≡ size
    pub mem : Mem
    pub mapped : c.current_mmap ≡ some mem
    pub mem_size : length mem ≡ size
    pub end : ℕ
    pub laid : Laid crc32 mem c.offset s ps end
    pub rest : ℕ
    pub tail : drop end mem ≡ zeros rest
    pub left : ℕ
    pub segments_left : length c.segments ≡ suc left
    pub ahead : Ahead (s + length ps) (drop (suc c.current_segment_idx) c.segments) cs

  -- Between two segments.
  pub record Between (c : SegmentCursor) (s : ℕ) (cs : List (List Msg)) : Type 0 where
    pub dir_is : c.dir ≡ d
    pub size_is : c.segment_size ≡ size
    pub unmapped : c.current_mmap ≡ none
    pub offset_is : c.offset ≡ 64
    pub ahead : Ahead s (drop c.current_segment_idx c.segments) cs

  -- A call that finds the message `p`, and where it leaves the cursor.
  pub record Found (fuel : ℕ) (c : SegmentCursor) (s : ℕ) (p : Msg) (ps : List Msg)
      (cs : List (List Msg)) : Type 0 where
    pub after : SegmentCursor
    pub off : ℕ
    pub finds : next_loop fuel c ≡ some (ok (some (ref_of crc32 off s p), after))
    pub at : At after (s + 1) ps cs
    pub payload_there : slice at.mem (off + 64) (length p.payload) ≡ p.payload
    pub payload_within : off + 64 + length p.payload ≤ length at.mem

  pub At-Found :
      (fuel : ℕ) (c : SegmentCursor) (s : ℕ) (p : Msg) (ps : List Msg) (cs : List (List Msg))
      → size < 2 ^ 63
      → ((bs : List ℕ) → crc32 bs < 2 ^ 32)
      → Fits size p
      → s < 2 ^ 64
      → At c s (p ∷ ps) cs
      → Found (suc fuel) c s p ps cs
  At-Found fuel c s p ps cs small sums fits few a =
      let (record_at, behind) = a.laid in
      let bounds = record_len_bounds (length p.payload) fits.payload_fits in
      let reads =
        read_record-RecordAt crc32 a.mem c.offset s p (omega (arith, a.mem_size))
          (subst (λ n. Fits n p) (sym a.mem_size) fits) few (sums p.payload) record_at in
      let count : s + suc (length ps) ≡ s + 1 + length ps = omega arith in
      let after : SegmentCursor = record c { offset = c.offset + msg_len p } in
      record {
        after = after;
        off = c.offset;
        finds =
            next_found fuel c a.mem (ref_of crc32 c.offset s p) (c.offset + msg_len p) a.mapped
              reads;
        at = record {
          dir_is = a.dir_is;
          size_is = a.size_is;
          mem = a.mem;
          mapped = a.mapped;
          mem_size = a.mem_size;
          end = a.end;
          laid = behind;
          rest = a.rest;
          tail = a.tail;
          left = a.left;
          segments_left = a.segments_left;
          ahead =
              subst (λ n. Ahead n (drop (suc c.current_segment_idx) c.segments) cs) count a.ahead;
        };
        payload_there = record_at.payload_there;
        payload_within = omega (arith, record_at.within, bounds.0);
      }

  -- At the end of a segment the cursor goes on between this one and the next.
  pub At-over :
      (fuel : ℕ) (c : SegmentCursor) (s : ℕ) (cs : List (List Msg))
      → At c s [] cs
      → (next_loop (suc fuel) c ≡ next_loop fuel (advance_segment c))
        × Between (advance_segment c) s cs
  unfolding advance_segment
  At-over fuel c s cs a =
      let here : drop c.offset a.mem ≡ zeros a.rest =
        subst (λ o. drop o a.mem ≡ zeros a.rest) (sym a.laid) a.tail in
      let index : suc c.current_segment_idx ≡ c.current_segment_idx + 1 = omega arith in
      let count : s + 0 ≡ s = omega arith in
      (
        next_advance fuel c a.mem a.mapped (read_record_tail a.mem c.offset a.rest here),
        record {
          dir_is = a.dir_is;
          size_is = a.size_is;
          unmapped = refl;
          offset_is = refl;
          ahead =
              subst (λ n. Ahead n (drop (c.current_segment_idx + 1) c.segments) cs) count
                (subst (λ i. Ahead (s + 0) (drop i c.segments) cs) index a.ahead);
        },
      )

  load_next :
      (ids : List ℕ) (fuel : ℕ) (c : SegmentCursor) (s : ℕ) (ps : List Msg) (cs : List (List Msg))
      → 0 < size
      → Between c s (ps ∷ cs)
      → drop c.current_segment_idx c.segments ≡ ids
      → Ahead s ids (ps ∷ cs)
      → (c' : SegmentCursor) × (next_loop (suc fuel) c ≡ next_loop (suc fuel) c') × At c' s ps cs
  load_next [] fuel c s ps cs pos b e h = absurd h
  load_next (id ∷ ids) fuel c s ps cs pos b e (m, found, seg, more) =
      let (left, len, behind) = drop_cons c.current_segment_idx c.segments e in
      let there : lookup id c.dir.files ≡ some m =
        subst (λ t. lookup id t.files ≡ some m) (sym b.dir_is) found in
      let opens : open_segment c.dir id c.segment_size ≡ ok m =
        subst (λ n. open_segment c.dir id n ≡ ok m) (sym b.size_is)
          (open_segment_lem c.dir id size m seg.header pos there seg.size_is seg.header_reads
            seg.header_id) in
      (
        opened_at c m,
        next_load fuel c id ids m b.unmapped e there opens,
        record {
          dir_is = b.dir_is;
          size_is = b.size_is;
          mem = m;
          mapped = refl;
          mem_size = seg.size_is;
          end = seg.end;
          laid = subst (λ o. Laid crc32 m o s ps seg.end) (sym b.offset_is) seg.laid;
          rest = seg.rest;
          tail = seg.tail_zero;
          left = left;
          segments_left = len;
          ahead = subst (λ t. Ahead (s + length ps) t cs) (sym behind) more;
        },
      )

  -- Between two segments the cursor goes on in the next one.
  pub Between-load :
      (fuel : ℕ) (c : SegmentCursor) (s : ℕ) (ps : List Msg) (cs : List (List Msg))
      → 0 < size
      → Between c s (ps ∷ cs)
      → (c' : SegmentCursor) × (next_loop (suc fuel) c ≡ next_loop (suc fuel) c') × At c' s ps cs
  Between-load fuel c s ps cs pos b =
      load_next (drop c.current_segment_idx c.segments) fuel c s ps cs pos b refl b.ahead

  none-Ahead : (ids : List ℕ) (s : ℕ) → Ahead s ids [] → ids ≡ []
  none-Ahead [] s h = refl
  none-Ahead (id ∷ ids) s h = absurd h

  -- Behind the last segment there is nothing.
  pub Between-end :
      (fuel : ℕ) (c : SegmentCursor) (s : ℕ)
      → Between c s []
      → next_loop (suc fuel) c ≡ some (ok (none, c))
  Between-end fuel c s b =
      next_end fuel c b.unmapped (none-Ahead (drop c.current_segment_idx c.segments) s b.ahead)
