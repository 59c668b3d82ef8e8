-- ===== src/Log/Laid.antt =====
-- Records laid out one after the other in a segment, and segments one after the other in a
-- directory: what a session of the writer leaves, and what the reader goes by.
use chronicle_rs.Base.{
  ◌<◌, ℕ, suc, ◌+◌, ◌-◌, ◌%◌, ◌^◌, ◌≤◌, ◌≡◌, refl, sym, ap, ◌∙◌, subst, List, [], ◌∷◌, ◌++◌, ok,
  length, take, drop, arith, lookup, none, ◌==◌, false,
}
use mathlib.Core.List.{append-nil, append_assoc}
use chronicle_rs.Bytes.{Mem, slice, zeros}
use chronicle_rs.Bytes.Slices.{drop-drop}
use chronicle_rs.Store.{SegmentHeader, read_segment_header}
use chronicle_rs.Writer.Append.{Msg, msg_len, RecordAt}

-- The messages of all chunks, in order, and their number.
abbrev pub joined : List (List Msg) → List Msg
joined [] = []
joined (c ∷ cs) = c ++ joined cs

abbrev pub total : List (List Msg) → ℕ
total [] = 0
total (c ∷ cs) = length c + total cs

pub joined_snoc : (cs : List (List Msg)) (c : List Msg) → joined (cs ++ (c ∷ [])) ≡ joined cs ++ c
joined_snoc [] c = append-nil c
joined_snoc (d ∷ cs) c = ap (◌++◌ d) (joined_snoc cs c) ∙ sym (append_assoc d (joined cs) c)

pub total_snoc :
    (cs : List (List Msg)) (c : List Msg) → total (cs ++ (c ∷ [])) ≡ total cs + length c
total_snoc [] c = omega arith
total_snoc (d ∷ cs) c = omega (arith, total_snoc cs c)

-- Each record has room for its header and its payload.
abbrev pub Big : List Msg → Type 0
Big [] = Unit {0}
Big (p ∷ ps) = (64 + length p.payload ≤ msg_len p) × Big ps

module _ (crc32 : List ℕ → ℕ) where
  -- From `off` to `e` stand the records of the messages, numbered from `s`.
  abbrev pub Laid : Mem → ℕ → ℕ → List Msg → ℕ → Type 0
  Laid m off s [] e = off ≡ e
  Laid m off s (p ∷ ps) e = RecordAt crc32 m off s p × Laid m (off + msg_len p) (s + 1) ps e

  pub Laid-le : (m : Mem) (off s e : ℕ) (ps : List Msg) → Laid m off s ps e → off ≤ e
  Laid-le m off s e [] l = omega arith
  Laid-le m off s e (p ∷ ps) (r, l) = omega (arith, Laid-le m (off + msg_len p) (s + 1) e ps l)

  pub RecordAt-frame :
      (m m' : Mem) (off s e : ℕ) (p : Msg)
      → ((a n : ℕ) → 64 ≤ a → a + n ≤ e → slice m' a n ≡ slice m a n)
      → length m' ≡ length m
      → 64 ≤ off
      → 64 + length p.payload ≤ msg_len p
      → off + msg_len p ≤ e
      → RecordAt crc32 m off s p
      → RecordAt crc32 m' off s p
  RecordAt-frame m m' off s e p same len lo big hi r = record {
    header_there = same off 64 lo (omega arith) ∙ r.header_there;
    payload_there =
        same (off + 64) (length p.payload) (omega arith) (omega arith) ∙ r.payload_there;
    within = omega (arith, r.within);
  }

  -- What keeps the bytes of the records keeps the records.
  pub Laid-frame :
      (m m' : Mem) (off s e : ℕ) (ps : List Msg)
      → ((a n : ℕ) → 64 ≤ a → a + n ≤ e → slice m' a n ≡ slice m a n)
      → length m' ≡ length m
      → 64 ≤ off
      → Big ps
      → Laid m off s ps e
      → Laid m' off s ps e
  Laid-frame m m' off s e [] same len lo big l = l
  Laid-frame m m' off s e (p ∷ ps) same len lo (big, bigs) (r, l) = (
    RecordAt-frame m m' off s e p same len lo big (Laid-le m _ (s + 1) e ps l) r,
    Laid-frame m m' (off + msg_len p) (s + 1) e ps same len (omega arith) bigs l,
  )

  pub Laid-snoc :
      (m : Mem) (off s e : ℕ) (ps : List Msg) (p : Msg)
      → Laid m off s ps e
      → RecordAt crc32 m e (s + length ps) p
      → Laid m off s (ps ++ (p ∷ [])) (e + msg_len p)
  Laid-snoc m off s e [] p l r =
      let number : s + 0 ≡ s = omega arith in
      (
        subst (λ o. RecordAt crc32 m o s p) (sym l) (subst (λ t. RecordAt crc32 m e t p) number r),
        ap (λ o. o + msg_len p) l,
      )
  Laid-snoc m off s e (q ∷ ps) p (r, l) last =
      let number : s + suc (length ps) ≡ s + 1 + length ps = omega arith in
      (
        r,
        Laid-snoc m (off + msg_len q) (s + 1) e ps p l
            (subst (λ t. RecordAt crc32 m e t p) number last),
      )

  -- A published segment file.
  pub record IsSegment (size id s : ℕ) (ps : List Msg) (m : Mem) : Type 0 where
    pub size_is : length m ≡ size
    pub header : SegmentHeader
    pub header_reads : read_segment_header m ≡ ok header
    pub header_id : header.segment_id ≡ id % 2 ^ 32
    pub end : ℕ
    pub laid : Laid m 64 s ps end
    pub rest : ℕ
    pub tail_zero : drop end m ≡ zeros rest
    pub nonempty : 0 < length ps

  -- Files `id`, `id + 1`, … hold the chunks of messages, numbered on from `s`.
  abbrev pub Holds : ℕ → ℕ → ℕ → List (ℕ × Mem) → List (List Msg) → ℕ → Type 0
  Holds size s id [] [] last = id ≡ last
  Holds size s id [] (c ∷ cs) last = ⊥
  Holds size s id (f ∷ fs) [] last = ⊥
  Holds size s id ((i, m) ∷ fs) (c ∷ cs) last =
      (i ≡ id) × IsSegment size id s c m × Holds size (s + length c) (id + 1) fs cs last

  pub Holds-snoc :
      (size s id last : ℕ) (fs : List (ℕ × Mem)) (cs : List (List Msg)) (c : List Msg) (m : Mem)
      → Holds size s id fs cs last
      → IsSegment size last (s + total cs) c m
      → Holds size s id (fs ++ ((last, m) ∷ [])) (cs ++ (c ∷ [])) (last + 1)
  Holds-snoc size s id last [] [] c m h seg =
      let number : s + 0 ≡ s = omega arith in
      (
        sym h,
        subst (λ i. IsSegment size i s c m) (sym h)
            (subst (λ t. IsSegment size last t c m) number seg),
        ap (λ i. i + 1) h,
      )
  Holds-snoc size s id last [] (d ∷ cs) c m h seg = absurd h
  Holds-snoc size s id last (f ∷ fs) [] c m h seg = absurd h
  Holds-snoc size s id last ((i, n) ∷ fs) (d ∷ cs) c m (e, seg', h) seg =
      let number : s + total (d ∷ cs) ≡ s + length d + total cs = omega arith in
      (
        e,
        seg',
        Holds-snoc size (s + length d) (id + 1) last fs cs c m h
            (subst (λ t. IsSegment size last t c m) number seg),
      )

  -- The next chunk of a directory that starts at number 0.
  pub Holds-next :
      (size last : ℕ) (fs : List (ℕ × Mem)) (cs : List (List Msg)) (c : List Msg) (m : Mem)
      → Holds size 0 0 fs cs last
      → IsSegment size last (total cs) c m
      → Holds size 0 0 (fs ++ ((last, m) ∷ [])) (cs ++ (c ∷ [])) (last + 1)
  Holds-next size last fs cs c m h seg =
      let number : total cs ≡ 0 + total cs = omega arith in
      Holds-snoc size 0 0 last fs cs c m h (subst (λ t. IsSegment size last t c m) number seg)

  pub Holds-le :
      (size s id last : ℕ) (fs : List (ℕ × Mem)) (cs : List (List Msg))
      → Holds size s id fs cs last
      → id ≤ last
  Holds-le size s id last [] [] h = omega arith
  Holds-le size s id last [] (c ∷ cs) h = absurd h
  Holds-le size s id last (f ∷ fs) [] h = absurd h
  Holds-le size s id last ((i, m) ∷ fs) (c ∷ cs) (e, seg, h) =
      omega (arith, Holds-le size (s + length c) (id + 1) last fs cs h)

  -- Every file holds a message, so there are no more files than messages.
  pub Holds-count :
      (size s id last : ℕ) (fs : List (ℕ × Mem)) (cs : List (List Msg))
      → Holds size s id fs cs last
      → (last ≡ id + length fs) × (length fs ≤ total cs)
  Holds-count size s id last [] [] h = omega arith
  Holds-count size s id last [] (c ∷ cs) h = absurd h
  Holds-count size s id last (f ∷ fs) [] h = absurd h
  Holds-count size s id last ((i, m) ∷ fs) (c ∷ cs) (e, seg, h) =
      omega (arith, seg.nonempty, Holds-count size (s + length c) (id + 1) last fs cs h)

  pub Holds-new :
      (size s id last k : ℕ) (fs : List (ℕ × Mem)) (cs : List (List Msg))
      → Holds size s id fs cs last
      → last ≤ k
      → lookup k fs ≡ none
  unfolding lookup
  Holds-new size s id last k [] [] h le = refl
  Holds-new size s id last k [] (c ∷ cs) h le = absurd h
  Holds-new size s id last k (f ∷ fs) [] h le = absurd h
  Holds-new size s id last k ((i, m) ∷ fs) (c ∷ cs) (e, seg, h) le =
      let before = Holds-le size (s + length c) (id + 1) last fs cs h in
      let other : (i == k) ≡ false = ground arith in
      rw other (Holds-new size (s + length c) (id + 1) last k fs cs h le)

-- Records are kept by what keeps the data area.
pub slice_of_drop :
    (m m' : Mem) → drop 64 m' ≡ drop 64 m → (a n : ℕ) → 64 ≤ a → slice m' a n ≡ slice m a n
slice_of_drop m m' e a n h =
    let split : a ≡ 64 + (a - 64) = omega arith in
    ap (take n) (
      sym (drop-drop m' (a - 64) 64 a split)
      ∙ ap (drop (a - 64)) e
      ∙ drop-drop m (a - 64) 64 a split)
