-- ===== src/Queue/Written.antt =====
-- An append to the running queue succeeds, rolls where the segment is full, and adds its message
-- behind the others.
use chronicle_rs.Base.{
  ℕ, ◌+◌, ◌%◌, ◌^◌, ◌≤◌, ◌<◌, ◌≡◌, ◌≢◌, refl, ap, ◌∙◌, List, [], ◌∷◌, ◌++◌, ok, some, none, true,
  false, inl, inr, Bool-cases, ◌==◌, length, arith, lookup, insert, lookup-insert, length-append,
}
use chronicle_rs.Bytes.{Mem}
use chronicle_rs.Bytes.Slices.{length-write}
use chronicle_rs.Header.{max_payload_len, new_uncommitted}
use chronicle_rs.Store.{Dir}
use chronicle_rs.Store.Seal.{read-header_buf, header_of}
use chronicle_rs.Store.Prepare.{IsFresh, fresh_segment, fresh_segment-IsFresh}
use chronicle_rs.Store.Opened.{open_segment_lem, prepare_or_open_there, prepare_or_open_new}
use chronicle_rs.Writer.Append.{
  Msg, msg_len, Fits, record_len_bounds, put_payload_lem, put_header_lem, put_commit_lem,
  take_offset_lem, stage_payload, stage_header, stage_commit,
}
use chronicle_rs.Queue.{Queue, mapping, store_mapping, notify}
use chronicle_rs.Queue.Writer.{
  QueueWriter, Outside, put_record, append_record, count_record, maybe_flush_index, flush_index,
  index_is_due, next_mapping, acquire_preallocated, flush_seek_index,
}
use chronicle_rs.Queue.Reader.{QueueReader}
use chronicle_rs.Queue.Ahead.Moves.{Ahead-append, Ahead-last}
use chronicle_rs.Queue.Running.{IsRunning, Spare, Spare-frame}

pub mapping_lem : (d : Dir) (id : ℕ) (m : Mem) → lookup id d.files ≡ some m → mapping d id ≡ ok m
unfolding mapping
mapping_lem d id m there = rw (mapping, there) refl

number_lem : (id : ℕ) → id < 2 ^ 32 → (id % 2 ^ 32 == id) ≡ true
number_lem id small = ground arith

-- The segment after the last one: there and fresh, whether it was made ahead or is made now. The
-- thread hands over only what it has made.
pub next_mapping_lem :
    (o : Outside) (d : Dir) (w : QueueWriter) (id size : ℕ)
    → 64 ≤ size
    → id < 2 ^ 32
    → w.segment_size ≡ size
    → w.config.require_prealloc ≡ false
    → (lookup id d.files ≡ none → o.prepared ≡ false)
    → Spare size d.files id
    → (d' : Dir) × (m : Mem) × (next_mapping o d w id ≡ ok d')
      × (lookup id d'.files ≡ some m)
      × IsFresh (id % 2 ^ 32) size m
      × ((i : ℕ) → i ≢ id → lookup i d'.files ≡ lookup i d.files)
unfolding next_mapping acquire_preallocated
next_mapping_lem o d w id size long small same free given (inl gone) =
    let (d', made, there, others) = prepare_or_open_new d id size long gone in
    (
      d',
      fresh_segment id size,
      rw (next_mapping, acquire_preallocated, given gone, free, same) (rw made refl),
      there,
      fresh_segment-IsFresh id size long,
      others,
    )
next_mapping_lem o d w id size long small same free given (inr (m, there, f)) =
    let reads =
      read-header_buf m (id % 2 ^ 32) 0 (omega (arith, f.size_is)) (omega arith) (omega arith)
        f.header_is in
    let opens = prepare_or_open_there d id size m (
      open_segment_lem d id size m (header_of (id % 2 ^ 32) 0) (omega arith) there f.size_is reads
        refl) in
    (
      d,
      m,
      elim (Bool-cases o.prepared) [
        | inl yes_there ↦
            rw (next_mapping, acquire_preallocated, yes_there)
              (rw (mapping_lem d id m there) (rw reads (rw (number_lem id small) refl)))
        | inr not_there ↦
            rw (next_mapping, acquire_preallocated, not_there, free, same) (rw opens refl)
      ],
      there,
      f,
      λ i other. refl,
    )

pub insert_above :
    (key asked : ℕ) (m : Mem) (files : List (ℕ × Mem))
    → key < asked
    → lookup asked (insert key m files) ≡ lookup asked files
insert_above key asked m files h = ground (arith, lookup-insert key asked m files)

module _ (crc32 : List ℕ → ℕ) where
  put_record_lem :
      (m : Mem) (off seq : ℕ) (p : Msg)
      → length m < 2 ^ 63
      → length p.payload ≤ max_payload_len
      → off + msg_len p ≤ length m
      → put_record crc32 m off seq p.type_id p.timestamp_ns p.payload
        ≡ ok (stage_commit crc32 m off seq p)
  unfolding put_record
  put_record_lem m off seq p small fits room =
      let n : ℕ = length p.payload in
      let plain = new_uncommitted seq p.timestamp_ns p.type_id 0 (crc32 p.payload) in
      let bounds = record_len_bounds n fits in
      rw (put_payload_lem m off p.payload (omega arith) (omega arith)) (
        rw
          (put_header_lem (stage_payload crc32 m off p) off plain
            (omega (arith, length-write m (off + 64) p.payload))
            (omega (arith, length-write m (off + 64) p.payload)))
          (put_commit_lem (stage_header crc32 m off seq p) off n fits))

  -- The queue and the writer after a record, before the index is looked at.
  abbrev queue_after : Outside → Queue → QueueWriter → Mem → Msg → Queue
  queue_after o q w m p = record q {
    dir = store_mapping q.dir w.segment_id (stage_commit crc32 m w.write_offset w.seq p);
    control = notify (record q.control { write_offset = w.write_offset + msg_len p }) o.now_ns;
  }

  abbrev writer_after : QueueWriter → Msg → QueueWriter
  writer_after w p = count_record w p.timestamp_ns (msg_len p) (w.write_offset + msg_len p)

  append_record_lem :
      (o : Outside) (q : Queue) (w : QueueWriter) (m : Mem) (p : Msg)
      → lookup w.segment_id q.dir.files ≡ some m
      → length m < 2 ^ 63
      → length p.payload ≤ max_payload_len
      → w.write_offset + msg_len p ≤ length m
      → append_record crc32 o q w p.type_id p.payload p.timestamp_ns
        ≡ ok (maybe_flush_index o (queue_after o q w m p) (writer_after w p))
  unfolding append_record
  append_record_lem o q w m p there small fits room = rw (mapping_lem q.dir w.segment_id m there) (
      rw (put_record_lem m w.write_offset w.seq p small fits room)
        (rw (take_offset_lem w.write_offset (msg_len p) (omega arith)) refl))

  module _ (size : ℕ) where
    -- The index file and its counter matter to nobody here.
    flush-IsRunning :
        (o : Outside) (q : Queue) (w : QueueWriter) (r : QueueReader) (s : ℕ) (ps : List Msg)
        → IsRunning crc32 size q w r s ps
        → (q' : Queue) × (w' : QueueWriter) × (maybe_flush_index o q w ≡ (q', w'))
          × IsRunning crc32 size q' w' r s ps
          × (w'.segment_id ≡ w.segment_id)
    unfolding maybe_flush_index flush_index
    flush-IsRunning o q w r s ps v = elim (Bool-cases (index_is_due o w)) [
      | inr no_need ↦ (q, w, rw (maybe_flush_index, no_need) refl, v, refl)
      | inl due ↦ (
        record q { indexes = flush_seek_index w q.indexes },
        record w { index_records_since_flush = 0 },
        rw (maybe_flush_index, due) refl,
        record {
          k = v.k;
          ahead = v.ahead;
          writer_size = v.writer_size;
          reader_size = v.reader_size;
          number = v.number;
          current = v.current;
          unlimited = v.unlimited;
          no_prealloc_needed = v.no_prealloc_needed;
          spare = v.spare;
        },
        refl,
      )
    ]

    -- A record goes behind the others, where the segment has room for it.
    pub append_record-IsRunning :
        (o : Outside) (q : Queue) (w : QueueWriter) (r : QueueReader) (s : ℕ) (ps : List Msg)
        (p : Msg)
        → IsRunning crc32 size q w r s ps
        → size < 2 ^ 63
        → w.seq + 1 < 2 ^ 64
        → Fits size p
        → w.write_offset + msg_len p ≤ size
        → (q' : Queue) × (w' : QueueWriter) × (append_record crc32 o q w p.type_id p.payload
              p.timestamp_ns
            ≡ ok (q', w'))
          × IsRunning crc32 size q' w' r s (ps ++ (p ∷ []))
          × (w'.segment_id ≡ w.segment_id)
    unfolding count_record store_mapping notify
    append_record-IsRunning o q w r s ps p v small few fits room =
        let (o', s', ps', last) =
          Ahead-last crc32 size v.k q.dir.files w.segment_id w.write_offset r.segment_id
            r.read_offset s ps v.ahead in
        let m : Mem = last.m in
        let after : IsRunning crc32 size (queue_after o q w m p) (writer_after w p) r s
            (ps ++ (p ∷ [])) =
          record {
            k = v.k;
            ahead =
                Ahead-append crc32 size v.k q.dir.files w.segment_id w.write_offset r.segment_id
                  r.read_offset s w.seq ps p m last.there v.number fits room v.ahead;
            writer_size = v.writer_size;
            reader_size = v.reader_size;
            number = omega (arith, v.number, length-append ps (p ∷ []));
            current = v.current;
            unlimited = v.unlimited;
            no_prealloc_needed = v.no_prealloc_needed;
            spare = λ id above.
                Spare-frame size id q.dir.files _
                  (insert_above w.segment_id id (stage_commit crc32 m w.write_offset w.seq p)
                    q.dir.files above)
                  (v.spare id above);
          } in
        let (q', w', flushed, v', same) =
          flush-IsRunning o (queue_after o q w m p) (writer_after w p) r s (ps ++ (p ∷ [])) after in
        (
          q',
          w',
          append_record_lem o q w m p last.there (omega (arith, last.size_is)) fits.payload_fits
                (omega (arith, last.size_is))
              ∙ ap ok flushed,
          v',
          same,
        )
