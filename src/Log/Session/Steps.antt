-- ===== src/Log/Session/Steps.antt =====
-- One append, to an idle writer and to an open segment, and the publication of a segment.
use chronicle_rs.Base.{
  ℕ, ◌+◌, ◌-◌, ◌%◌, ◌^◌, ◌≤◌, ◌<◌, ◌≡◌, refl, sym, ap, ◌∙◌, List, [], ◌∷◌, ◌++◌, ok, none, some,
  true, false, length, drop, arith, lookup, insert, remove, lookup-insert_self, insert_new,
}
use chronicle_rs.Bytes.{Mem, zeros}
use chronicle_rs.Store.{Dir, seal_segment, publish_segment}
use chronicle_rs.Store.Seal.{seal_segment-IsSealedFrom, read-header_buf, header_of}
use chronicle_rs.Bytes.Slices.{drop-drop}
use chronicle_rs.Store.Prepare.{IsFresh, prepare_segment_temp-IsFresh}
use chronicle_rs.Writer
use chronicle_rs.Writer.{SegmentWriter, ensure_segment, seal_and_publish_current}
use chronicle_rs.Writer.Append.{Msg, msg_len, Fits, append_lem, append_ensure, stage_commit}
use chronicle_rs.Log.Laid.{Laid-le, Laid-frame, IsSegment, slice_of_drop}
use chronicle_rs.Log.Session.{IsIdle, IsOpen, appended, appended-IsOpen}

-- The writer with a fresh segment open.
abbrev begun : SegmentWriter → Mem → SegmentWriter
begun w m = record w {
  dir = record { files = w.dir.files; temps = insert w.segment_id tt w.dir.temps };
  write_offset = 64;
  has_records = false;
  mmap = some m;
}

ensure_segment_idle :
    (w : SegmentWriter)
    → IsIdle w
    → 64 ≤ w.segment_size
    → (m : Mem) × (ensure_segment w ≡ ok (begun w m))
      × IsFresh (w.segment_id % 2 ^ 32) w.segment_size m
unfolding ensure_segment
ensure_segment_idle w i h =
    let (m, e, fresh) = prepare_segment_temp-IsFresh w.dir w.segment_id w.segment_size h in
    (m, rw i.unmapped (rw e), fresh)

ensure_segment-begun : (w : SegmentWriter) (m : Mem) → ensure_segment (begun w m) ≡ ok (begun w m)
unfolding ensure_segment
ensure_segment-begun w m = refl

publish_segment_lem :
    (d : Dir) (id : ℕ) (m : Mem)
    → lookup id d.temps ≡ some tt
    → lookup id d.files ≡ none
    → publish_segment d id m
      ≡ ok (record { files = d.files ++ ((id, m) ∷ []); temps = remove id d.temps })
unfolding publish_segment
publish_segment_lem d id m temp fresh = ground (arith, insert_new id m d.files)

-- The writer after its segment went out.
abbrev pub published : SegmentWriter → Mem → SegmentWriter
published w m = record w {
  dir = record {
    files = w.dir.files ++ ((w.segment_id, m) ∷ []);
    temps = remove w.segment_id w.dir.temps;
  };
  mmap = none;
  segments_published = w.segments_published + 1;
}

seal_and_publish_lem :
    (w : SegmentWriter) (m m' : Mem)
    → w.mmap ≡ some m
    → seal_segment m ≡ ok m'
    → lookup w.segment_id w.dir.temps ≡ some tt
    → lookup w.segment_id w.dir.files ≡ none
    → seal_and_publish_current w ≡ ok (published w m')
unfolding seal_and_publish_current
seal_and_publish_lem w m m' mapped sealed temp fresh =
    ground (arith, publish_segment_lem w.dir w.segment_id m')

drop_tail : (m m' : Mem) (e : ℕ) → 64 ≤ e → drop 64 m' ≡ drop 64 m → drop e m' ≡ drop e m
drop_tail m m' e h same =
    let split : e ≡ 64 + (e - 64) = omega arith in
    sym (drop-drop m' (e - 64) 64 e split)
    ∙ ap (drop (e - 64)) same
    ∙ drop-drop m (e - 64) 64 e split

module _ (crc32 : List ℕ → ℕ) where
  begun-IsOpen :
      (w : SegmentWriter) (m : Mem)
      → IsFresh (w.segment_id % 2 ^ 32) w.segment_size m
      → IsOpen crc32 (record (begun w m) { has_records = true }) w.seq [] m
  begun-IsOpen w m f = record {
    mapped = refl;
    records = refl;
    size_is = f.size_is;
    head = f.header_is;
    laid = refl;
    tail = f.data_is_zero ∙ ap (λ t. zeros (t - 64)) (sym f.size_is);
    temp = lookup-insert_self w.segment_id tt w.dir.temps;
    big = tt;
    number = omega arith;
  }

  -- An append to an idle writer opens a segment and puts the message first.
  pub append_idle :
      (w : SegmentWriter) (p : Msg)
      → IsIdle w
      → w.segment_size < 2 ^ 63
      → w.seq + 1 < 2 ^ 64
      → Fits w.segment_size p
      → (m : Mem) × (Writer.append crc32 w p.type_id p.timestamp_ns p.payload
          ≡ ok (appended crc32 (begun w m) m p))
        × IsOpen crc32
            (appended crc32 (begun w m) m p)
            w.seq
            (p ∷ [])
            (stage_commit crc32 m 64 w.seq p)
  append_idle w p i small number fits =
      let (m, e, fresh) = ensure_segment_idle w i (omega arith) in
      (
        m,
        append_ensure crc32 w (begun w m) p e (ensure_segment-begun w m) refl
            ∙ append_lem crc32 (begun w m) m p refl fresh.size_is small fits fits.record_fits,
        appended-IsOpen crc32 (begun w m) w.seq [] m p (begun-IsOpen w m fresh) number fits
            fits.record_fits,
      )

  -- An append to an open segment with room puts the message last.
  pub append-IsOpen :
      (w : SegmentWriter) (s : ℕ) (ps : List Msg) (m : Mem) (p : Msg)
      → IsOpen crc32 w s ps m
      → w.segment_size < 2 ^ 63
      → w.seq + 1 < 2 ^ 64
      → Fits w.segment_size p
      → w.write_offset + msg_len p ≤ w.segment_size
      → (Writer.append crc32 w p.type_id p.timestamp_ns p.payload ≡ ok (appended crc32 w m p))
        × IsOpen crc32
            (appended crc32 w m p)
            s
            (ps ++ (p ∷ []))
            (stage_commit crc32 m w.write_offset w.seq p)
  append-IsOpen w s ps m p o small number fits room = (
    append_lem crc32 w m p o.mapped o.size_is small fits room,
    appended-IsOpen crc32 w s ps m p
        (record {
          mapped = o.mapped;
          records = refl;
          size_is = o.size_is;
          head = o.head;
          laid = o.laid;
          tail = o.tail;
          temp = o.temp;
          big = o.big;
          number = o.number;
        })
        number fits room,
  )

  pub publish_open :
      (w : SegmentWriter) (s : ℕ) (ps : List Msg) (m : Mem)
      → IsOpen crc32 w s ps m
      → 0 < length ps
      → 64 ≤ w.segment_size
      → lookup w.segment_id w.dir.files ≡ none
      → (m' : Mem) × (seal_and_publish_current w ≡ ok (published w m'))
        × IsSegment crc32 w.segment_size w.segment_id s ps m'
  publish_open w s ps m o some_record h new_id =
      let id : ℕ = w.segment_id % 2 ^ 32 in
      let reads =
        read-header_buf m id 0 (omega (arith, o.size_is)) (omega arith) (omega arith) o.head in
      let (m', sealed, from) =
        seal_segment-IsSealedFrom m (header_of id 0) reads (omega arith) (omega arith) in
      let lo = Laid-le crc32 m 64 s w.write_offset ps o.laid in
      let same = slice_of_drop m m' from.same_data in
      (
        m',
        seal_and_publish_lem w m m' o.mapped sealed o.temp new_id,
        record {
          size_is = from.same_length ∙ o.size_is;
          header = from.header;
          header_reads = from.reads;
          header_id = from.same_id;
          end = w.write_offset;
          laid =
              Laid-frame crc32 m m' 64 s w.write_offset ps (λ a n lo hi. same a n lo)
                from.same_length (omega arith) o.big o.laid;
          rest = length m - w.write_offset;
          tail_zero = drop_tail m m' w.write_offset lo from.same_data ∙ o.tail;
          nonempty = some_record;
        },
      )
