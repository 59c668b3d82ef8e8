-- ===== src/Queue/Sent.antt =====
-- A whole append of the live queue, with the roll that it may need.
use chronicle_rs.Base.{
  ℕ, suc, ◌+◌, ◌-◌, ◌%◌, ◌^◌, ◌≤◌, ◌<◌, ◌≡◌, refl, ◌∙◌, subst, List, [], ◌∷◌, ◌++◌, ok, some, none,
  true, false, inl, inr, Bool-cases, ltb, leb, length, arith, lookup, insert, lookup-insert_self,
  ◌>>=◌, if◌then◌else◌,
}
use chronicle_rs.Bytes.{Mem}
use chronicle_rs.Header.{max_payload_len}
use chronicle_rs.Store.{Dir, seal_segment}
use chronicle_rs.Writer.Append.{Msg, msg_len, Fits}
use chronicle_rs.SeekIndex.{reset, saturating_add}
use chronicle_rs.Control.{bump}
use chronicle_rs.Queue.{Queue, store_mapping, set_segment_index, notify}
use chronicle_rs.Queue.Writer.{
  QueueWriter, Outside, is_unlimited, append_record, append_with_timestamp, ensure_capacity,
  roll_segment, flush_seek_index, next_mapping,
}
use chronicle_rs.Queue.Reader.{QueueReader}
use chronicle_rs.Queue.Ahead.{HasRecords-seal}
use chronicle_rs.Queue.Ahead.Moves.{insert_other, Ahead-last, Ahead-roll}
use chronicle_rs.Queue.Running.{IsRunning, Spare-frame}
use chronicle_rs.Queue.Written.{
  mapping_lem, next_mapping_lem, insert_above, append_record-IsRunning,
}

-- The thread hands a segment over only after it has put it into the directory.
abbrev pub Handed : Outside → Queue → QueueWriter → Type 0
Handed o q w = lookup ((w.segment_id + 1) % 2 ^ 32) q.dir.files ≡ none → o.prepared ≡ false

-- What a roll that goes well gives.
abbrev rolled_queue : Outside → Queue → QueueWriter → Dir → Mem → ℕ → Queue
rolled_queue o q w d sealed next_segment = record {
  dir = store_mapping d w.segment_id sealed;
  control = notify (set_segment_index q.control next_segment 64) o.now_ns;
  indexes = flush_seek_index w q.indexes;
}

abbrev rolled_writer : QueueWriter → ℕ → QueueWriter
rolled_writer w next_segment = record w {
  segment_id = next_segment;
  write_offset = 64;
  rolls = saturating_add w.rolls 1;
  seek_index = reset w.seek_index next_segment w.segment_size;
  index_records_since_flush = 0;
}

roll_segment_lem :
    (o : Outside) (q : Queue) (w : QueueWriter) (d : Dir) (m sealed : Mem) (next_segment : ℕ)
    → (w.segment_id + 1) % 2 ^ 32 ≡ next_segment
    → next_mapping o q.dir w next_segment ≡ ok d
    → lookup w.segment_id d.files ≡ some m
    → seal_segment m ≡ ok sealed
    → roll_segment o q w
      ≡ ok (rolled_queue o q w d sealed next_segment, rolled_writer w next_segment)
unfolding roll_segment
roll_segment_lem o q w d m sealed next_segment number made there seal =
    rw (roll_segment, number, made, mapping_lem d w.segment_id m there, seal) refl

module _ (crc32 : List ℕ → ℕ) (size : ℕ) where
  -- A roll leaves the messages before the reader as they are.
  roll_segment-IsRunning :
      (o : Outside) (q : Queue) (w : QueueWriter) (r : QueueReader) (s : ℕ) (ps : List Msg)
      → IsRunning crc32 size q w r s ps
      → 64 ≤ size
      → w.segment_id + 1 < 2 ^ 32
      → Handed o q w
      → (q' : Queue) × (w' : QueueWriter) × (roll_segment o q w ≡ ok (q', w'))
        × IsRunning crc32 size q' w' r s ps
        × (w'.segment_id ≡ w.segment_id + 1)
        × (w'.write_offset ≡ 64)
        × (w'.seq ≡ w.seq)
  unfolding store_mapping notify set_segment_index bump
  roll_segment-IsRunning o q w r s ps v long small handed =
      let id : ℕ = w.segment_id in
      let number : (id + 1) % 2 ^ 32 ≡ id + 1 = omega arith in
      let (o', s', ps', last) =
        Ahead-last crc32 size v.k q.dir.files id w.write_offset r.segment_id r.read_offset s ps
          v.ahead in
      let (sealed, seal, _, _) =
        HasRecords-seal crc32 size q.dir.files id o' s' w.write_offset ps' last in
      let (d, fresh, made, there, is_fresh, others) =
        next_mapping_lem o q.dir w (id + 1) size long small v.writer_size v.no_prealloc_needed
          (subst (λ i. lookup i q.dir.files ≡ none → o.prepared ≡ false) number handed)
          (v.spare (id + 1) (omega arith)) in
      let kept = others id (omega arith) in
      let files = insert id sealed d.files in
      let before : (i : ℕ) → i < id → lookup i files ≡ lookup i q.dir.files =
        λ i below. insert_other id i sealed d.files below ∙ others i (omega arith) in
      (
        rolled_queue o q w d sealed (id + 1),
        rolled_writer w (id + 1),
        roll_segment_lem o q w d last.m sealed (id + 1) number made (kept ∙ last.there) seal,
        record {
          k = suc v.k;
          ahead =
              Ahead-roll crc32 size v.k q.dir.files files id w.write_offset r.segment_id
                r.read_offset s ps last.m sealed fresh last.there seal before
                (lookup-insert_self id sealed d.files)
                (insert_above id (id + 1) sealed d.files (omega arith) ∙ there) long is_fresh
                v.ahead;
          writer_size = v.writer_size;
          reader_size = v.reader_size;
          number = v.number;
          current = refl;
          unlimited = v.unlimited;
          no_prealloc_needed = v.no_prealloc_needed;
          spare = λ i above.
              Spare-frame size i q.dir.files files
                (insert_above id i sealed d.files (omega arith) ∙ others i (omega arith))
                (v.spare i (omega arith));
        },
        refl,
        refl,
        refl,
      )

  ensure_capacity_lem :
      (o : Outside) (w : QueueWriter) (n : ℕ)
      → is_unlimited w.config ≡ true
      → ensure_capacity crc32 o w n ≡ ok w
  unfolding ensure_capacity
  ensure_capacity_lem o w n free = rw (ensure_capacity, free) refl

  -- The guards of an append pass, and what is left is the roll and the record.
  append_steps :
      (o : Outside) (q : Queue) (w : QueueWriter) (p : Msg)
      → w.segment_size ≡ size
      → is_unlimited w.config ≡ true
      → Fits size p
      → append_with_timestamp crc32 o q w p.type_id p.payload p.timestamp_ns ≡ (
          (if ltb w.segment_size (w.write_offset + msg_len p)
            then roll_segment o q w
            else ok (q, w))
          >>= λ after. append_record crc32 o after.0 after.1 p.type_id p.payload p.timestamp_ns)
  unfolding append_with_timestamp
  append_steps o q w p same free fits =
      let small_payload : leb (length p.payload) max_payload_len ≡ true =
        ground (arith, fits.payload_fits) in
      let small_record : leb (msg_len p) (w.segment_size - 64) ≡ true =
        ground (arith, fits.record_fits) in
      rw
        (
          append_with_timestamp,
          small_payload,
          small_record,
          ensure_capacity_lem o w (msg_len p) free,
        )
        refl

  -- An append to the running queue succeeds and puts its message behind the others.
  pub append-IsRunning :
      (o : Outside) (q : Queue) (w : QueueWriter) (r : QueueReader) (s : ℕ) (ps : List Msg)
      (p : Msg)
      → IsRunning crc32 size q w r s ps
      → size < 2 ^ 63
      → w.seq + 1 < 2 ^ 64
      → w.segment_id + 1 < 2 ^ 32
      → Handed o q w
      → Fits size p
      → (q' : Queue) × (w' : QueueWriter) × (append_with_timestamp crc32 o q w p.type_id p.payload
            p.timestamp_ns
          ≡ ok (q', w'))
        × IsRunning crc32 size q' w' r s (ps ++ (p ∷ []))
        × (w'.segment_id ≤ w.segment_id + 1)
  append-IsRunning o q w r s ps p v small number ids handed fits =
      let steps = append_steps o q w p v.writer_size v.unlimited fits in
      elim (Bool-cases (ltb w.segment_size (w.write_offset + msg_len p))) [
        | inr room ↦
            let (q', w', e, v', same) =
              append_record-IsRunning crc32 size o q w r s ps p v small number fits
                (ground (arith, v.writer_size)) in
            (q', w', steps ∙ rw room e, v', omega arith)
        | inl full ↦
            let (q1, w1, rolled, v1, next_id, offset, seq) =
              roll_segment-IsRunning o q w r s ps v (omega (arith, fits.record_fits)) ids handed in
            let (q', w', e, v', same) =
              append_record-IsRunning crc32 size o q1 w1 r s ps p v1 small (omega arith) fits
                (omega (arith, fits.record_fits)) in
            (q', w', steps ∙ rw (full, rolled) e, v', omega arith)
      ]
