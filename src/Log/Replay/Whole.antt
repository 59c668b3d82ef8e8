-- ===== src/Log/Replay/Whole.antt =====
-- A reader over the whole log: every message, in order.
use chronicle_rs.Base.{
  ℕ, zero, suc, ◌+◌, ◌^◌, ◌<◌, ◌≤◌, ◌≡◌, sym, ap, ◌∙◌, subst, List, [], ◌∷◌, ◌++◌, Option, none,
  some, Result, ok, err, ◌>>=◌, length, arith, ◌==◌, true, false, ltb, All,
}
use chronicle_rs.Bytes.{Mem, slice}
use chronicle_rs.Store.{Dir}
use chronicle_rs.Writer.Append.{Msg, Fits}
use chronicle_rs.Cursor.{SegmentCursor, advance_segment, next_loop, next_header, read_payload}
use chronicle_rs.Cursor.Records.{ref_of}
use chronicle_rs.Log
use chronicle_rs.Log.{LogReader, MessageView}
use chronicle_rs.Log.Laid.{joined}
use chronicle_rs.Log.Replay.{
  next_header_fuel, Ahead, At, Between, Found, At-Found, At-over, Between-load, Between-end,
}

-- Calls of `next` until it has no more; `none` is a loop out of fuel.
unfoldable pub read_all : (List ℕ → ℕ) → ℕ → LogReader → Option (Result (List MessageView))
read_all crc32 zero r = none
read_all crc32 (suc n) r = elim (Log.next crc32 r) [
  | none ↦ none
  | some (err e) ↦ some (err e)
  | some (ok (none, r')) ↦ some (ok [])
  | some (ok (some v, r')) ↦ elim (read_all crc32 n r') [
    | none ↦ none
    | some rest ↦ some (rest >>= λ vs. ok (v ∷ vs))
  ]
]

abbrev pub view : ℕ → Msg → MessageView
view s p = record {
  seq = s;
  timestamp_ns = p.timestamp_ns;
  type_id = p.type_id;
  payload = p.payload;
}

-- The messages as the reader gives them, numbered from `s`.
abbrev pub views : ℕ → List Msg → List MessageView
views s [] = []
views s (p ∷ ps) = view s p ∷ views (s + 1) ps

module _ (crc32 : List ℕ → ℕ) where
  next-view :
      (c c' : SegmentCursor) (m : Mem) (off s : ℕ) (p : Msg)
      → next_header c ≡ some (ok (some (ref_of crc32 off s p), c'))
      → c'.current_mmap ≡ some m
      → slice m (off + 64) (length p.payload) ≡ p.payload
      → off + 64 + length p.payload ≤ length m
      → Log.next crc32 (record { cursor = c }) ≡ some (ok (some (view s p), record { cursor = c' }))
  unfolding Log.next read_payload
  next-view c c' m off s p h mapped there within =
      let inside : ltb (length m) (off + 64 + length p.payload) ≡ false = ground arith in
      let sum_ok : (crc32 p.payload == crc32 p.payload) ≡ true = ground arith in
      simp (Log.next, read_payload, h, mapped, inside, there, sum_ok)

  next-none :
      (c c' : SegmentCursor)
      → next_header c ≡ some (ok (none, c'))
      → Log.next crc32 (record { cursor = c }) ≡ some (ok (none, record { cursor = c' }))
  unfolding Log.next
  next-none c c' h = simp (Log.next, h)

  read_some :
      (n : ℕ) (r r' : LogReader) (v : MessageView) (vs : List MessageView)
      → Log.next crc32 r ≡ some (ok (some v, r'))
      → read_all crc32 n r' ≡ some (ok vs)
      → read_all crc32 (suc n) r ≡ some (ok (v ∷ vs))
  unfolding read_all
  read_some n r r' v vs h e = simp (read_all, h, e)

  read_none :
      (n : ℕ) (r r' : LogReader)
      → Log.next crc32 r ≡ some (ok (none, r'))
      → read_all crc32 (suc n) r ≡ some (ok [])
  unfolding read_all
  read_none n r r' h = simp (read_all, h)

  module _ (size : ℕ) (d : Dir) (small : size < 2 ^ 63) (pos : 0 < size)
      (sums : (bs : List ℕ) → crc32 bs < 2 ^ 32) where
    Ahead-nonempty :
        (s : ℕ) (ids : List ℕ) (c : List Msg) (cs : List (List Msg))
        → Ahead crc32 size d s ids (c ∷ cs)
        → 0 < length c
    Ahead-nonempty s [] c cs h = absurd h
    Ahead-nonempty s (id ∷ ids) c cs (m, found, seg, more) = seg.nonempty

    -- What the next call finds, wherever the cursor stands.
    abbrev Finds : SegmentCursor → ℕ → Msg → List Msg → List (List Msg) → Type 0
    Finds c s p ps cs = Found crc32 size d (suc (length c.segments)) c s p ps cs

    found_over :
        (c : SegmentCursor) (s : ℕ) (p : Msg) (ps : List Msg) (cs : List (List Msg))
        → Fits size p
        → s < 2 ^ 64
        → At crc32 size d c s [] ((p ∷ ps) ∷ cs)
        → Finds c s p ps cs
    found_over c s p ps cs fits few a =
        let (over, between) = At-over crc32 size d (suc a.left) c s ((p ∷ ps) ∷ cs) a in
        let (c', load, a') =
          Between-load crc32 size d a.left (advance_segment c) s (p ∷ ps) cs pos between in
        let f = At-Found crc32 size d a.left c' s p ps cs small sums fits few a' in
        subst (λ n. Found crc32 size d (suc n) c s p ps cs) (sym a.segments_left)
          (record {
            after = f.after;
            off = f.off;
            finds = over ∙ load ∙ f.finds;
            at = f.at;
            payload_there = f.payload_there;
            payload_within = f.payload_within;
          })

    found-Between :
        (c : SegmentCursor) (s : ℕ) (p : Msg) (ps : List Msg) (cs : List (List Msg))
        → Fits size p
        → s < 2 ^ 64
        → Between crc32 size d c s ((p ∷ ps) ∷ cs)
        → Finds c s p ps cs
    found-Between c s p ps cs fits few b =
        let n : ℕ = length c.segments in
        let (c', load, a) = Between-load crc32 size d n c s (p ∷ ps) cs pos b in
        let f = At-Found crc32 size d n c' s p ps cs small sums fits few a in
        record {
          after = f.after;
          off = f.off;
          finds = load ∙ f.finds;
          at = f.at;
          payload_there = f.payload_there;
          payload_within = f.payload_within;
        }

    read_found :
        (n : ℕ) (c : SegmentCursor) (s : ℕ) (p : Msg) (ps : List Msg) (cs : List (List Msg))
        (vs : List MessageView)
        → (f : Finds c s p ps cs) → read_all crc32 n (record { cursor = f.after }) ≡ some (ok vs)
        → read_all crc32 (suc n) (record { cursor = c }) ≡ some (ok (view s p ∷ vs))
    read_found n c s p ps cs vs f rest =
        read_some n (record { cursor = c }) (record { cursor = f.after }) (view s p) vs
          (next-view c f.after f.at.mem f.off s p (next_header_fuel c ∙ f.finds) f.at.mapped
            f.payload_there f.payload_within)
          rest

    -- From a place in a segment the reader gives the rest of its messages and all that follow.
    read-At :
        (n : ℕ) (c : SegmentCursor) (s : ℕ) (ps : List Msg) (cs : List (List Msg))
        → At crc32 size d c s ps cs
        → All (Fits size) (ps ++ joined cs)
        → length (ps ++ joined cs) < n
        → s + length (ps ++ joined cs) < 2 ^ 64
        → read_all crc32 n (record { cursor = c }) ≡ some (ok (views s (ps ++ joined cs)))
    read-At zero c s ps cs a fits enough few = absurd (omega arith)
    read-At (suc n) c s (p ∷ ps) cs a (fit, fits) enough few =
        let f =
          At-Found crc32 size d (length c.segments) c s p ps cs small sums fit (omega arith) a in
        read_found n c s p ps cs (views (s + 1) (ps ++ joined cs)) f
          (read-At n f.after (s + 1) ps cs f.at fits (omega arith) (omega arith))
    read-At (suc n) c s [] [] a fits enough few =
        let (over, between) = At-over crc32 size d (suc a.left) c s [] a in
        let two : suc (length c.segments) ≡ suc (suc a.left) = ap suc a.segments_left in
        read_none n (record { cursor = c }) (record { cursor = advance_segment c })
          (next-none c (advance_segment c) (
            next_header_fuel c
            ∙ ap (λ k. next_loop k c) two
            ∙ over
            ∙ Between-end crc32 size d a.left (advance_segment c) s between))
    read-At (suc n) c s [] ([] ∷ cs) a fits enough few =
        absurd (omega (arith, Ahead-nonempty (s + 0) _ [] cs a.ahead))
    read-At (suc n) c s [] ((p ∷ ps) ∷ cs) a (fit, fits) enough few =
        let f = found_over c s p ps cs fit (omega arith) a in
        read_found n c s p ps cs (views (s + 1) (ps ++ joined cs)) f
          (read-At n f.after (s + 1) ps cs f.at fits (omega arith) (omega arith))

    -- From between two segments, at the start of the log for one.
    pub read-Between :
        (n : ℕ) (c : SegmentCursor) (s : ℕ) (cs : List (List Msg))
        → Between crc32 size d c s cs
        → All (Fits size) (joined cs)
        → length (joined cs) < n
        → s + length (joined cs) < 2 ^ 64
        → read_all crc32 n (record { cursor = c }) ≡ some (ok (views s (joined cs)))
    read-Between zero c s cs b fits enough few = absurd (omega arith)
    read-Between (suc n) c s [] b fits enough few =
        read_none n (record { cursor = c }) (record { cursor = c })
          (next-none c c (next_header_fuel c ∙ Between-end crc32 size d (length c.segments) c s b))
    read-Between (suc n) c s ([] ∷ cs) b fits enough few =
        absurd (omega (arith, Ahead-nonempty s _ [] cs b.ahead))
    read-Between (suc n) c s ((p ∷ ps) ∷ cs) b (fit, fits) enough few =
        let f = found-Between c s p ps cs fit (omega arith) b in
        read_found n c s p ps cs (views (s + 1) (ps ++ joined cs)) f
          (read-At n f.after (s + 1) ps cs f.at fits (omega arith) (omega arith))
