-- ===== src/Queue/Ahead.antt =====
-- What lies before a reader of the live queue: segments that hold messages, from the reader's
-- offset on, up to the writer's offset in the last one.
pub mod Moves
use Prim.Native.Nat.{bit_and}
use chronicle_rs.Base.{
  ◌<◌, ℕ, zero, suc, ◌+◌, ◌-◌, ◌%◌, ◌^◌, ◌≤◌, ◌≡◌, refl, sym, ap, ◌∙◌, subst, List, [], ◌∷◌, ◌++◌,
  ok, some, none, ◌==◌, true, false, if◌then◌else◌, length, take, drop, arith, lookup, insert,
  lookup-insert, lookup-insert_self, length-append,
}
use mathlib.Core.List.{append-nil, append_assoc}
use chronicle_rs.Bytes.{Mem, slice, zeros}
use chronicle_rs.Bytes.Slices.{drop-drop}
use chronicle_rs.Store.{SegmentHeader, read_segment_header, seal_segment}
use chronicle_rs.Store.Seal.{seal_segment-IsSealedFrom, read-header_buf, header_of}
use chronicle_rs.Store.Prepare.{IsFresh}
use chronicle_rs.Writer.Append.{
  Msg, msg_len, Fits, RecordAt, record_len_bounds, stage_commit, stage_commit_before,
  stage_commit-RecordAt, stage_commit_tail, length-stage_commit,
}
use chronicle_rs.Log.Laid.{Laid, Laid-le, Laid-frame, Laid-snoc, Big, slice_of_drop}

pub Big-snoc :
    (ps : List Msg) (p : Msg) → Big ps → 64 + length p.payload ≤ msg_len p → Big (ps ++ (p ∷ []))
Big-snoc [] p b h = (h, tt)
Big-snoc (q ∷ ps) p (b, bs) h = (b, Big-snoc ps p bs h)

-- Only the first 64 bytes of a file count for its header.
pub read_segment_header-frame :
    (m m' : Mem)
    → length m' ≡ length m
    → slice m' 0 64 ≡ slice m 0 64
    → read_segment_header m' ≡ read_segment_header m
unfolding read_segment_header
read_segment_header-frame m m' len same = rw len (rw same refl)

module _ (crc32 : List ℕ → ℕ) (size : ℕ) where
  -- The file of segment `id` holds the records of `ps`, numbered from `s`, between `off` and `e`,
  -- and zeros behind them.
  pub record HasRecords (files : List (ℕ × Mem)) (id off s : ℕ) (ps : List Msg) (e : ℕ)
      : Type 0 where
    pub m : Mem
    pub there : lookup id files ≡ some m
    pub size_is : length m ≡ size
    pub header : SegmentHeader
    pub reads : read_segment_header m ≡ ok header
    pub header_id : header.segment_id ≡ id % 2 ^ 32
    pub flags_fit : header.flags < 2 ^ 32
    pub lo : 64 ≤ off
    pub laid : Laid crc32 m off s ps e
    pub big : Big ps
    pub tail : drop e m ≡ zeros (length m - e)

  pub HasRecords-frame :
      (files files' : List (ℕ × Mem)) (id off s e : ℕ) (ps : List Msg)
      → lookup id files' ≡ lookup id files
      → (h : HasRecords files id off s ps e)
      → (h' : HasRecords files' id off s ps e) × (h'.header ≡ h.header)
  HasRecords-frame files files' id off s e ps same h = (
    record {
      m = h.m;
      there = same ∙ h.there;
      size_is = h.size_is;
      header = h.header;
      reads = h.reads;
      header_id = h.header_id;
      flags_fit = h.flags_fit;
      lo = h.lo;
      laid = h.laid;
      big = h.big;
      tail = h.tail;
    },
    refl,
  )

  -- The records behind the first one.
  pub HasRecords-rest :
      (files : List (ℕ × Mem)) (id off s e : ℕ) (p : Msg) (ps : List Msg)
      → (h : HasRecords files id off s (p ∷ ps) e)
      → (h' : HasRecords files id (off + msg_len p) (s + 1) ps e) × (h'.header ≡ h.header)
  HasRecords-rest files id off s e p ps h = (
    record {
      m = h.m;
      there = h.there;
      size_is = h.size_is;
      header = h.header;
      reads = h.reads;
      header_id = h.header_id;
      flags_fit = h.flags_fit;
      lo = omega (arith, h.lo);
      laid = h.laid.1;
      big = h.big.1;
      tail = h.tail;
    },
    refl,
  )

  -- A record that is added behind the others.
  pub HasRecords-snoc :
      (files : List (ℕ × Mem)) (id off s e n : ℕ) (ps : List Msg) (p : Msg)
      → (h : HasRecords files id off s ps e) → n ≡ s + length ps
      → Fits size p
      → e + msg_len p ≤ size
      → HasRecords
          (insert id (stage_commit crc32 h.m e n p) files)
          id
          off
          s
          (ps ++ (p ∷ []))
          (e + msg_len p)
  HasRecords-snoc files id off s e n ps p h number fits room =
      let m' : Mem = stage_commit crc32 h.m e n p in
      let same_length = length-stage_commit crc32 h.m e n p in
      let (big, _) = record_len_bounds (length p.payload) fits.payload_fits in
      let lo = Laid-le crc32 h.m off s e ps h.laid in
      record {
        m = m';
        there = lookup-insert_self id m' files;
        size_is = same_length ∙ h.size_is;
        header = h.header;
        reads =
            read_segment_header-frame h.m m' same_length
              (stage_commit_before crc32 h.m e n p 0 64 (omega (arith, h.lo)))
            ∙ h.reads;
        header_id = h.header_id;
        flags_fit = h.flags_fit;
        lo = h.lo;
        laid =
            Laid-snoc crc32 m' off s e ps p
              (Laid-frame crc32 h.m m' off s e ps
                (λ a n' lo' hi. stage_commit_before crc32 h.m e n p a n' hi) same_length h.lo h.big
                h.laid)
              (subst (λ t. RecordAt crc32 m' e t p) number
                (stage_commit-RecordAt crc32 h.m e n p fits.payload_fits
                  (omega (arith, h.size_is))));
        big = Big-snoc ps p h.big big;
        tail =
            stage_commit_tail crc32 h.m e n p fits.payload_fits h.tail
            ∙ ap (λ t. zeros (t - (e + msg_len p))) (sym same_length);
      }

  -- Sealing the file keeps the records.
  pub HasRecords-seal :
      (files : List (ℕ × Mem)) (id off s e : ℕ) (ps : List Msg)
      → (h : HasRecords files id off s ps e)
      → (m' : Mem) × (seal_segment h.m ≡ ok m')
        × (sealed : HasRecords (insert id m' files) id off s ps e) × (bit_and sealed.header.flags 1
            ≡ 1)
  HasRecords-seal files id off s e ps h =
      let (m', sealed, from) =
        seal_segment-IsSealedFrom h.m h.header h.reads (omega (arith, h.header_id)) h.flags_fit in
      let same = slice_of_drop h.m m' from.same_data in
      let lo : 64 ≤ e = omega (arith, h.lo, Laid-le crc32 h.m off s e ps h.laid) in
      let split : e ≡ 64 + (e - 64) = omega arith in
      (
        m',
        sealed,
        record {
          m = m';
          there = lookup-insert_self id m' files;
          size_is = from.same_length ∙ h.size_is;
          header = from.header;
          reads = from.reads;
          header_id = from.same_id ∙ h.header_id;
          flags_fit = from.flags_fit;
          lo = h.lo;
          laid =
              Laid-frame crc32 h.m m' off s e ps (λ a n lo' hi. same a n lo') from.same_length h.lo
                h.big h.laid;
          big = h.big;
          tail =
              sym (drop-drop m' (e - 64) 64 e split)
              ∙ ap (drop (e - 64)) from.same_data
              ∙ drop-drop h.m (e - 64) 64 e split
              ∙ h.tail
              ∙ ap (λ t. zeros (t - e)) (sym from.same_length);
        },
        from.sealed,
      )

  -- A fresh file holds no messages yet.
  pub fresh-HasRecords :
      (files : List (ℕ × Mem)) (id s : ℕ) (m : Mem)
      → lookup id files ≡ some m
      → 64 ≤ size
      → IsFresh (id % 2 ^ 32) size m
      → HasRecords files id 64 s [] 64
  fresh-HasRecords files id s m there long f = record {
    m = m;
    there = there;
    size_is = f.size_is;
    header = header_of (id % 2 ^ 32) 0;
    reads =
        read-header_buf m (id % 2 ^ 32) 0 (omega (arith, f.size_is)) (omega arith) (omega arith)
          f.header_is;
    header_id = refl;
    flags_fit = omega arith;
    lo = omega arith;
    laid = refl;
    big = tt;
    tail = f.data_is_zero ∙ ap (λ t. zeros (t - 64)) (sym f.size_is);
  }

  -- Before a reader at `off` in segment `id` lie the messages `ps`, numbered from `s`, in this
  -- segment and `k` more; the last segment is `last`, and its records end at `end`. All but the last
  -- are sealed.
  abbrev pub Ahead : ℕ → List (ℕ × Mem) → ℕ → ℕ → ℕ → ℕ → ℕ → List Msg → Type 0
  Ahead zero files last end id off s ps = (id ≡ last) × HasRecords files id off s ps end
  Ahead (suc k) files last end id off s ps =
      (e : ℕ) × (c : List Msg) × (rest : List Msg) × (ps ≡ c ++ rest)
      × (h : HasRecords files id off s c e) × (bit_and h.header.flags 1 ≡ 1)
      × Ahead k files last end (id + 1) 64 (s + length c) rest
