-- ===== src/Queue/Received.antt =====
-- `next` on the running queue: the first message that lies before the reader, or none.
use Prim.Native.Nat.{bit_and}
use chronicle_rs.Base.{
  ℕ, zero, suc, ◌+◌, ◌-◌, ◌^◌, ◌≤◌, ◌<◌, ◌≡◌, ◌≢◌, refl, sym, ap, ◌∙◌, subst, List, [], ◌∷◌, All,
  Option, ok, some, none, length, drop, arith, lookup,
}
use chronicle_rs.Bytes.{Mem}
use chronicle_rs.Header.{pad_type_id, max_payload_len}
use chronicle_rs.Store.{open_segment}
use chronicle_rs.Store.Opened.{open_segment_lem}
use chronicle_rs.Writer.Append.{Msg, msg_len, Fits, record_len_bounds}
use chronicle_rs.Cursor.{MessageRef, read_record}
use chronicle_rs.Cursor.Records.{ref_of, read_record-RecordAt, read_record_tail}
use chronicle_rs.Log.{MessageView}
use chronicle_rs.Log.Replay.Whole.{view}
use chronicle_rs.Queue.{Queue}
use chronicle_rs.Queue.Reader.{QueueReader, Outside, view_of, next_loop}
use chronicle_rs.Queue.Ahead.{Ahead, HasRecords, HasRecords-rest}
use chronicle_rs.Queue.Ahead.Moves.{Ahead-last_id}
use chronicle_rs.Queue.Rounds.{
  entered, advance_at_head, advance_to_next, next_none, next_advance, next_record, checked_lem,
  view_of_lem,
}

-- A message that fits, and that is not marked as padding.
abbrev pub Sendable : ℕ → Msg → Type 0
Sendable size p = Fits size p × (p.type_id ≢ pad_type_id)

-- A list's head as a reader gets it, and what is left.
abbrev pub first : ℕ → List Msg → Option MessageView
first s [] = none
first s (p ∷ ps) = some (view s p)

abbrev pub others : List Msg → List Msg
others [] = []
others (p ∷ ps) = ps

abbrev pub after_first : ℕ → List Msg → ℕ
after_first s [] = s
after_first s (p ∷ ps) = s + 1

module _ (crc32 : List ℕ → ℕ) (size : ℕ) where
  -- One call found the first message, or none, and the rest still lies ahead.
  pub record Receives (fuel : ℕ) (o : Outside) (q : Queue) (r : QueueReader) (last end s : ℕ)
      (ps : List Msg) : Type 0 where
    pub r' : QueueReader
    pub found : Option MessageRef
    pub gives : next_loop crc32 fuel o q r ≡ some (ok (found, q, r'))
    pub shows : view_of q r' found ≡ ok (first s ps)
    pub k' : ℕ
    pub ahead :
        Ahead crc32 size k' q.dir.files last end r'.segment_id r'.read_offset
          (after_first s ps)
          (others ps)
    pub same_size : r'.segment_size ≡ r.segment_size

  -- Where a message lies at the reader's offset, the call gives it.
  read_first :
      (fuel : ℕ) (o : Outside) (q : Queue) (r : QueueReader) (e s : ℕ) (p : Msg) (c : List Msg)
      → HasRecords crc32 size q.dir.files r.segment_id r.read_offset s (p ∷ c) e
      → size < 2 ^ 63
      → s < 2 ^ 64
      → crc32 p.payload < 2 ^ 32
      → Sendable size p
      → next_loop crc32 (suc fuel) o q r
        ≡ some (
            ok (
              some (ref_of crc32 r.read_offset s p),
              q,
              record r { read_offset = r.read_offset + msg_len p },
            ))
  read_first fuel o q r e s p c h small number sum (fits, plain) =
      let off : ℕ = r.read_offset in
      let fits' : Fits (length h.m) p = subst (λ n. Fits n p) (sym h.size_is) fits in
      let r' : QueueReader = record r { read_offset = off + msg_len p } in
      next_record crc32 fuel o q r h.m (ref_of crc32 off s p) (off + msg_len p) h.there
        (read_record-RecordAt crc32 h.m off s p (omega (arith, h.size_is)) fits' number sum
          h.laid.0)
        (ground arith)
      ∙ ap some (checked_lem crc32 q r' h.m off s p h.laid.0.payload_there)

  -- And `next` shows it.
  first_view :
      (q : Queue) (r : QueueReader) (e s off : ℕ) (p : Msg) (c : List Msg)
      → HasRecords crc32 size q.dir.files r.segment_id r.read_offset s (p ∷ c) e
      → length p.payload ≤ max_payload_len
      → view_of q (record r { read_offset = off }) (some (ref_of crc32 r.read_offset s p))
        ≡ ok (some (view s p))
  first_view q r e s off p c h fits =
      view_of_lem crc32 q (record r { read_offset = off }) h.m r.read_offset s p h.there
        h.laid.0.payload_there
        (omega (arith, h.laid.0.within, record_len_bounds (length p.payload) fits))

  -- At the end of the records there is nothing to read.
  read_end :
      (files : List (ℕ × Mem)) (id off s e : ℕ)
      → (h : HasRecords crc32 size files id off s [] e) → read_record h.m off ≡ ok none
  read_end files id off s e h =
      read_record_tail h.m off (length h.m - e) (ap (λ t. drop t h.m) h.laid ∙ h.tail)

  -- The next segment can be opened.
  next_opens :
      (k : ℕ) (q : Queue) (last end id s : ℕ) (ps : List Msg)
      → 64 ≤ size
      → Ahead crc32 size k q.dir.files last end id 64 s ps
      → (m : Mem) × (lookup id q.dir.files ≡ some m) × (open_segment q.dir id size ≡ ok m)
  next_opens zero q last end id s ps long (e, h) = (
    h.m,
    h.there,
    open_segment_lem q.dir id size h.m h.header (omega arith) h.there h.size_is h.reads h.header_id,
  )
  next_opens (suc k) q last end id s ps long (e, c, rest, eq, h, sealed, a) = (
    h.m,
    h.there,
    open_segment_lem q.dir id size h.m h.header (omega arith) h.there h.size_is h.reads h.header_id,
  )

  pub next_loop-Receives :
      (k fuel : ℕ) (o : Outside) (q : Queue) (r : QueueReader) (last end s : ℕ) (ps : List Msg)
      → 64 ≤ size
      → size < 2 ^ 63
      → ((bytes : List ℕ) → crc32 bytes < 2 ^ 32)
      → k < fuel
      → q.control.current_segment ≡ last
      → last < 2 ^ 32
      → r.segment_size ≡ size
      → s + length ps < 2 ^ 64
      → All (Sendable size) ps
      → Ahead crc32 size k q.dir.files last end r.segment_id r.read_offset s ps
      → Receives fuel o q r last end s ps
  next_loop-Receives k zero o q r last end s ps long small sum enough current ids same number good
        a =
      absurd (omega arith)
  next_loop-Receives zero (suc fuel) o q r last end s [] long small sum enough current ids same
        number good (e, h) =
      record {
        r' = r;
        found = none;
        shows = unfold view_of in refl;
        gives =
            next_none crc32 fuel o q r h.m h.there
              (read_end q.dir.files r.segment_id r.read_offset s end h)
              (advance_at_head o q r h.m (omega arith));
        k' = zero;
        ahead = (e, h);
        same_size = refl;
      }
  next_loop-Receives zero (suc fuel) o q r last end s (p ∷ ps) long small sum enough current ids
        same number (ready, good) (e, h) =
      record {
        r' = record r { read_offset = r.read_offset + msg_len p };
        found = some (ref_of crc32 r.read_offset s p);
        shows = first_view q r end s (r.read_offset + msg_len p) p ps h ready.0.payload_fits;
        gives = read_first fuel o q r end s p ps h small (omega arith) (sum p.payload) ready;
        k' = zero;
        ahead =
            (e, (HasRecords-rest crc32 size q.dir.files r.segment_id r.read_offset s end p ps h).0);
        same_size = refl;
      }
  next_loop-Receives (suc k) (suc fuel) o q r last end s ps long small sum enough current ids same
        number good (e, [], rest, eq, h, sealed, a) =
      let le =
        Ahead-last_id crc32 size k q.dir.files last end (r.segment_id + 1) 64 (s + 0) rest a in
      let start : s + 0 ≡ s = omega arith in
      let a' =
        subst (λ t. Ahead crc32 size k q.dir.files last end (r.segment_id + 1) 64 t rest) start a in
      let (m, there, opens) = next_opens k q last end (r.segment_id + 1) s rest long a' in
      let goes =
        advance_to_next o q r h.m m h.header (omega arith) (omega arith) h.reads sealed there
          (subst (λ n. open_segment q.dir (r.segment_id + 1) n ≡ ok m) (sym same) opens) in
      let rec' =
        next_loop-Receives k fuel o q (entered r) last end s rest long small sum (omega arith)
          current ids same (omega (arith, ap length eq)) (subst (All (Sendable size)) eq good) a' in
      subst (Receives (suc fuel) o q r last end s) (sym eq) (record {
        r' = rec'.r';
        found = rec'.found;
        shows = rec'.shows;
        gives =
            next_advance crc32 fuel o q r (entered r) h.m h.there
              (read_end q.dir.files r.segment_id r.read_offset s e h) goes
            ∙ rec'.gives;
        k' = rec'.k';
        ahead = rec'.ahead;
        same_size = rec'.same_size;
      })
  next_loop-Receives (suc k) (suc fuel) o q r last end s ps long small sum enough current ids same
        number good (e, p ∷ c, rest, eq, h, sealed, a) =
      let (ready, _) = subst (All (Sendable size)) eq good in
      let (h', same_header) =
        HasRecords-rest crc32 size q.dir.files r.segment_id r.read_offset s e p c h in
      let next_number : s + length (p ∷ c) ≡ s + 1 + length c = omega arith in
      subst (Receives (suc fuel) o q r last end s) (sym eq) (record {
        r' = record r { read_offset = r.read_offset + msg_len p };
        found = some (ref_of crc32 r.read_offset s p);
        shows = first_view q r e s (r.read_offset + msg_len p) p c h ready.0.payload_fits;
        gives =
            read_first fuel o q r e s p c h small (omega (arith, ap length eq)) (sum p.payload)
              ready;
        k' = suc k;
        ahead = (
          e,
          c,
          rest,
          refl,
          h',
          ap (λ t. bit_and t.flags 1) same_header ∙ sealed,
          subst (λ t. Ahead crc32 size k q.dir.files last end (r.segment_id + 1) 64 t rest)
              next_number a,
        );
        same_size = refl;
      })
