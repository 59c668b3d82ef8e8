-- ===== src/Log/Session/Finish.antt =====
-- The end of a session of the log writer, and the session as a whole.
use chronicle_rs.Base.{
  ℕ, ◌+◌, ◌^◌, ◌≤◌, ◌<◌, ◌≡◌, refl, sym, ap, ◌∙◌, subst, List, [], ◌∷◌, ◌++◌, ok, true, Result,
  ◌>>=◌, length, arith, keys, inl, inr, append-nil, append_assoc, length-append, All,
}
use chronicle_rs.Bytes.{Mem}
use chronicle_rs.Store.{Dir, next_segment_id, validate_segment_size}
use chronicle_rs.Writer
use chronicle_rs.Writer.{SegmentWriter, discard_empty}
use chronicle_rs.Writer.Append.{Msg, Fits}
use chronicle_rs.Log
use chronicle_rs.Log.{LogWriter, open_writer}
use chronicle_rs.Log.Laid.{joined, joined_snoc, total, IsSegment, Holds, Holds-next, Holds-new}
use chronicle_rs.Log.Session.{IsIdle}
use chronicle_rs.Log.Session.Steps.{published, publish_open}
use chronicle_rs.Log.Session.Run.{Written, append-Written}

-- The messages one after the other, then `finish`.
unfoldable pub write_all : (List ℕ → ℕ) → LogWriter → List Msg → Result LogWriter
write_all crc32 l [] = Log.finish crc32 l
write_all crc32 l (p ∷ ps) = do
  l' ← Log.append crc32 l p.type_id p.timestamp_ns p.payload
  write_all crc32 l' ps

next_id_empty : (d : Dir) → d.files ≡ [] → next_segment_id d ≡ 0
unfolding next_segment_id keys
next_id_empty d e = ground arith

open_writer_lem :
    (d : Dir) (size : ℕ)
    → 128 ≤ size
    → open_writer d size
      ≡ ok (record { writer = Writer.new d (next_segment_id d) size; segment_size = size })
unfolding open_writer validate_segment_size
open_writer_lem d size h = ground arith

module _ (crc32 : List ℕ → ℕ) (size : ℕ) where
  -- The log holds all messages of the session in its published segments.
  pub record Finished (l : LogWriter) (msgs : List Msg) : Type 0 where
    pub chunks : List (List Msg)
    pub next_id : ℕ
    pub holds : Holds crc32 size 0 0 l.writer.dir.files chunks next_id
    pub all : joined chunks ≡ msgs

  finish_idle : (l : LogWriter) → IsIdle l.writer → Log.finish crc32 l ≡ ok l
  unfolding Log.finish Writer.finish discard_empty
  finish_idle l i = ground (arith, i.unmapped, i.no_records)

  finish_open :
      (l : LogWriter) (m : Mem)
      → l.writer.has_records ≡ true
      → Writer.seal_and_publish_current l.writer ≡ ok (published l.writer m)
      → Log.finish crc32 l ≡ ok (record l { writer = published l.writer m })
  unfolding Log.finish Writer.finish
  finish_open l m r e = ground arith

  -- `finish` succeeds, and publishes what is open.
  pub finish-Finished :
      (l : LogWriter) (msgs : List Msg)
      → 64 ≤ size
      → Written crc32 size l msgs
      → (l' : LogWriter) × (Log.finish crc32 l ≡ ok l') × Finished l' msgs
  finish-Finished l msgs big v = elim v.current [
    | inl (idle, none_open, _) ↦ (
      l,
      finish_idle l idle,
      record {
        chunks = v.chunks;
        next_id = l.writer.segment_id;
        holds = v.holds;
        all =
            sym (append-nil (joined v.chunks))
            ∙ ap (λ t. joined v.chunks ++ t) (sym none_open)
            ∙ v.all;
      },
    )
    | inr (m, o, some_record) ↦
        let w : SegmentWriter = l.writer in
        let ws = v.writer_size in
        let new_id =
          Holds-new crc32 size 0 0 w.segment_id w.segment_id w.dir.files v.chunks v.holds
            (omega arith) in
        let (m', out, seg) =
          publish_open crc32 w (total v.chunks) v.cur m o some_record (omega arith) new_id in
        (
          record l { writer = published w m' },
          finish_open l m' o.records out,
          record {
            chunks = v.chunks ++ (v.cur ∷ []);
            next_id = w.segment_id + 1;
            holds =
                Holds-next crc32 size w.segment_id w.dir.files v.chunks v.cur m' v.holds
                  (subst (λ n. IsSegment crc32 n w.segment_id (total v.chunks) v.cur m') ws seg);
            all = joined_snoc v.chunks v.cur ∙ v.all;
          },
        )
  ]

  write_all-Finished :
      (msgs before : List Msg) (l : LogWriter)
      → size < 2 ^ 63
      → 64 ≤ size
      → Written crc32 size l before
      → length before + length msgs < 2 ^ 64
      → All (Fits size) msgs
      → (l' : LogWriter) × (write_all crc32 l msgs ≡ ok l') × Finished l' (before ++ msgs)
  unfolding write_all
  write_all-Finished [] before l small big v few fits =
      let (l', e, f) = finish-Finished l before big v in
      (l', e, subst (Finished l') (sym (append-nil before)) f)
  write_all-Finished (p ∷ ps) before l small big v few (fit, fits) =
      let (l', e, after) = append-Written crc32 size small l before p v (omega arith) fit in
      let (l'', e', f) =
        write_all-Finished ps (before ++ (p ∷ [])) l' small big after
          (omega (arith, length-append before (p ∷ []))) fits in
      (l'', rw e e', subst (Finished l'') (append_assoc before (p ∷ []) ps) f)

  -- Opening a log in a directory without segments.
  open_writer_empty :
      (d : Dir)
      → d.files ≡ []
      → 128 ≤ size
      → (l : LogWriter) × (open_writer d size ≡ ok l) × Written crc32 size l []
  unfolding Writer.new
  open_writer_empty d e big =
      let first = next_id_empty d e in
      (
        record { writer = Writer.new d 0 size; segment_size = size },
        open_writer_lem d size big
            ∙ ap (λ n. ok (record { writer = Writer.new d n size; segment_size = size })) first,
        record {
          chunks = [];
          cur = [];
          log_size = refl;
          writer_size = refl;
          holds = subst (λ f. Holds crc32 size 0 0 f [] 0) (sym e) refl;
          current =
              inl (record { unmapped = refl; no_records = refl; at_start = refl }, refl, refl);
          all = refl;
        },
      )

  -- A session in a directory without segments, of messages that each fit a segment: opening,
  -- every append and `finish` succeed, and the published segments hold exactly the messages, in
  -- order and numbered from 0.
  pub session-Finished :
      (d : Dir) (msgs : List Msg)
      → d.files ≡ []
      → 128 ≤ size
      → size < 2 ^ 63
      → length msgs < 2 ^ 64
      → All (Fits size) msgs
      → (l : LogWriter) × ((open_writer d size >>= λ l₀. write_all crc32 l₀ msgs) ≡ ok l)
        × Finished l msgs
  session-Finished d msgs e big small few fits =
      let (l, o, v) = open_writer_empty d e big in
      let (l', w, f) = write_all-Finished msgs [] l small (omega arith) v (omega arith) fits in
      (l', rw o w, f)
