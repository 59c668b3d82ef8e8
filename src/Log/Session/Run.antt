-- ===== src/Log/Session/Run.antt =====
-- A whole session of the log writer: every message that fits a segment is accepted, rolling where
-- it must, and after `finish` the directory holds exactly the messages, in order.
use chronicle_rs.Base.{
  ℕ, ◌+◌, ◌-◌, ◌^◌, ◌≤◌, ◌<◌, ◌≡◌, refl, sym, ap, ◌∙◌, subst, List, [], ◌∷◌, ◌++◌, ok, none, true,
  false, length, arith, leb, if◌then◌else◌, ◌⊎◌, inl, inr, append-nil, append_assoc, length-append,
  Bool-cases,
}
use chronicle_rs.Bytes.{Mem}
use chronicle_rs.Header.{max_payload_len}
use chronicle_rs.Writer
use chronicle_rs.Writer.{SegmentWriter, needs_roll, roll, discard_empty}
use chronicle_rs.Writer.Append.{Msg, msg_len, Fits}
use chronicle_rs.Log
use chronicle_rs.Log.{LogWriter, open_writer}
use chronicle_rs.Log.Laid.{
  joined, joined_snoc, total, total_snoc, IsSegment, Holds, Holds-next, Holds-new,
}
use chronicle_rs.Log.Session.{IsIdle, IsOpen}
use chronicle_rs.Log.Session.Steps.{append_idle, append-IsOpen, published, publish_open}

length-joined : (cs : List (List Msg)) → length (joined cs) ≡ total cs
length-joined [] = omega arith
length-joined (c ∷ cs) = omega (arith, length-append c (joined cs), length-joined cs)

room_left :
    (w : SegmentWriter) (n : ℕ) → needs_roll w n ≡ false → w.write_offset + n ≤ w.segment_size
unfolding needs_roll
room_left w n h = ground arith

no_roll :
    (w : SegmentWriter) (n : ℕ)
    → w.write_offset ≡ 64
    → 64 + n ≤ w.segment_size
    → needs_roll w n ≡ false
unfolding needs_roll
no_roll w n e h = ground arith

module _ (crc32 : List ℕ → ℕ) (size : ℕ) where
  -- What is open holds the messages `cur`, numbered from `s`.
  abbrev pub Current : SegmentWriter → ℕ → List Msg → Type 0
  Current w s cur =
      (IsIdle w × (cur ≡ []) × (w.seq ≡ s))
      ⊎ ((m : Mem) × IsOpen crc32 w s cur m × (0 < length cur))

  -- The log holds `msgs`: published chunks, then what is open.
  pub record Written (l : LogWriter) (msgs : List Msg) : Type 0 where
    pub chunks : List (List Msg)
    pub cur : List Msg
    pub log_size : l.segment_size ≡ size
    pub writer_size : l.writer.segment_size ≡ size
    pub holds : Holds crc32 size 0 0 l.writer.dir.files chunks l.writer.segment_id
    pub current : Current l.writer (total chunks) cur
    pub all : joined chunks ++ cur ≡ msgs

  abbrev rolled : SegmentWriter → Mem → SegmentWriter
  rolled w m = record (published w m) {
    segment_id = w.segment_id + 1;
    write_offset = 64;
    has_records = false;
    mmap = none;
  }

  roll_open :
      (w : SegmentWriter) (m : Mem)
      → w.has_records ≡ true
      → Writer.seal_and_publish_current w ≡ ok (published w m)
      → roll w ≡ ok (rolled w m)
  unfolding roll
  roll_open w m r e = ground arith

  log_append_steps :
      (l : LogWriter) (w w' : SegmentWriter) (p : Msg)
      → Fits l.segment_size p
      → (if needs_roll l.writer (msg_len p) then roll l.writer else ok l.writer) ≡ ok w
      → Writer.append crc32 w p.type_id p.timestamp_ns p.payload ≡ ok w'
      → Log.append crc32 l p.type_id p.timestamp_ns p.payload ≡ ok (record l { writer = w' })
  unfolding Log.append
  log_append_steps l w w' p fits r a =
      let small_payload : leb (length p.payload) max_payload_len ≡ true = ground arith in
      let small_record : leb (msg_len p) (l.segment_size - 64) ≡ true = ground arith in
      rw small_payload (rw small_record (rw r (rw a)))

  now_open :
      {w : SegmentWriter} {s t : ℕ} {m : Mem} (ps : List Msg)
      → s ≡ t
      → IsOpen crc32 w s ps m
      → 0 < length ps
      → Current w t ps
  now_open {w} {s} {t} {m} ps e o h = inr (m, subst (λ k. IsOpen crc32 w k ps m) e o, h)

  -- An idle writer takes the message into a new segment.
  from_idle :
      (l : LogWriter) (w : SegmentWriter) (cs : List (List Msg)) (p : Msg)
      → l.segment_size ≡ size
      → w.segment_size ≡ size
      → Holds crc32 size 0 0 w.dir.files cs w.segment_id
      → IsIdle w
      → w.seq ≡ total cs
      → size < 2 ^ 63
      → total cs + 1 < 2 ^ 64
      → Fits size p
      → (if needs_roll l.writer (msg_len p) then roll l.writer else ok l.writer) ≡ ok w
      → (l' : LogWriter) × (Log.append crc32 l p.type_id p.timestamp_ns p.payload ≡ ok l')
        × Written l' (joined cs ++ (p ∷ []))
  from_idle l w cs p ls ws holds idle number small few fits r =
      let fits' = subst (λ n. Fits n p) (sym ws) fits in
      let (m, appends, is_open) = append_idle crc32 w p idle (omega arith) (omega arith) fits' in
      (
        _,
        log_append_steps l w _ p (subst (λ n. Fits n p) (sym ls) fits) r appends,
        record {
          chunks = cs;
          cur = p ∷ [];
          log_size = ls;
          writer_size = ws;
          holds = holds;
          current = now_open _ number is_open (omega arith);
          all = refl;
        },
      )

  module _ (small : size < 2 ^ 63) where
    -- The message goes into the open segment, or into the next one if this one is full.
    from_open :
        (l : LogWriter) (cs : List (List Msg)) (cur : List Msg) (m : Mem) (p : Msg)
        → l.segment_size ≡ size
        → l.writer.segment_size ≡ size
        → Holds crc32 size 0 0 l.writer.dir.files cs l.writer.segment_id
        → IsOpen crc32 l.writer (total cs) cur m
        → 0 < length cur
        → total cs + length cur + 1 < 2 ^ 64
        → Fits size p
        → (l' : LogWriter) × (Log.append crc32 l p.type_id p.timestamp_ns p.payload ≡ ok l')
          × Written l' ((joined cs ++ cur) ++ (p ∷ []))
    from_open l cs cur m p ls ws holds o some_record few fits =
        let w : SegmentWriter = l.writer in
        let fits_w = subst (λ n. Fits n p) (sym ws) fits in
        let fits_l = subst (λ n. Fits n p) (sym ls) fits in
        elim (Bool-cases (needs_roll w (msg_len p))) [
          | inl full ↦
              let new_id =
                Holds-new crc32 size 0 0 w.segment_id w.segment_id w.dir.files cs holds
                  (omega arith) in
              let (m', out, seg) =
                publish_open crc32 w (total cs) cur m o some_record (omega arith) new_id in
              let seg' = subst (λ n. IsSegment crc32 n w.segment_id (total cs) cur m') ws seg in
              let rolls = roll_open w m' o.records out in
              let (l', e, v) =
                from_idle l (rolled w m') (cs ++ (cur ∷ [])) p ls ws
                  (Holds-next crc32 size w.segment_id w.dir.files cs cur m' holds seg')
                  (record { unmapped = refl; no_records = refl; at_start = refl })
                  (o.number ∙ sym (total_snoc cs cur)) small (omega (arith, total_snoc cs cur)) fits
                  (rw full rolls) in
              (l', e, subst (λ t. Written l' (t ++ (p ∷ []))) (joined_snoc cs cur) v)
          | inr room ↦
              let (appends, is_open) =
                append-IsOpen crc32 w (total cs) cur m p o (omega arith) (omega arith) fits_w
                  (room_left w (msg_len p) room) in
              (
                _,
                log_append_steps l w _ p fits_l (rw room refl) appends,
                record {
                  chunks = cs;
                  cur = cur ++ (p ∷ []);
                  log_size = ls;
                  writer_size = ws;
                  holds = holds;
                  current = now_open _ refl is_open (omega (arith, length-append cur (p ∷ [])));
                  all = sym (append_assoc (joined cs) cur (p ∷ []));
                },
              )
        ]

    -- Every message that fits is accepted, and the log then holds it last.
    pub append-Written :
        (l : LogWriter) (msgs : List Msg) (p : Msg)
        → Written l msgs
        → length msgs + 1 < 2 ^ 64
        → Fits size p
        → (l' : LogWriter) × (Log.append crc32 l p.type_id p.timestamp_ns p.payload ≡ ok l')
          × Written l' (msgs ++ (p ∷ []))
    append-Written l msgs p v few fits =
        let count = ap length v.all in
        let parts = length-append (joined v.chunks) v.cur in
        elim v.current [
          | inl (idle, none_yet, number) ↦ from_nothing idle none_yet number
          | inr (m, is_open, h) ↦ from_something m is_open h
        ]
      where
        few_in_all : total v.chunks + length v.cur + 1 < 2 ^ 64
        few_in_all =
            omega (
              arith,
              ap length v.all,
              length-append (joined v.chunks) v.cur,
              length-joined v.chunks,
            )

        from_something :
            (m : Mem)
            → IsOpen crc32 l.writer (total v.chunks) v.cur m
            → 0 < length v.cur
            → (l' : LogWriter) × (Log.append crc32 l p.type_id p.timestamp_ns p.payload ≡ ok l')
              × Written l' (msgs ++ (p ∷ []))
        from_something m o h =
            let (l', e, after) =
              from_open l v.chunks v.cur m p v.log_size v.writer_size v.holds o h few_in_all fits in
            (l', e, subst (λ t. Written l' (t ++ (p ∷ []))) v.all after)

        from_nothing :
            IsIdle l.writer
            → v.cur ≡ []
            → l.writer.seq ≡ total v.chunks
            → (l' : LogWriter) × (Log.append crc32 l p.type_id p.timestamp_ns p.payload ≡ ok l')
              × Written l' (msgs ++ (p ∷ []))
        from_nothing i c number =
            let stay : needs_roll l.writer (msg_len p) ≡ false =
              no_roll l.writer (msg_len p) i.at_start (omega (arith, v.writer_size)) in
            let (l', e, after) =
              from_idle l l.writer v.chunks p v.log_size v.writer_size v.holds i number small
                (omega (arith, few_in_all)) fits (rw stay refl) in
            (
              l',
              e,
              subst (λ t. Written l' (t ++ (p ∷ [])))
                  (sym (append-nil (joined v.chunks))
                    ∙ ap (λ t. joined v.chunks ++ t) (sym c)
                    ∙ v.all)
                  after,
            )
