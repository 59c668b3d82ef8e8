-- ===== src/Replay/Written.antt =====
-- A snapshot that `write_l2_snapshot` writes, replayed.
use chronicle_rs.Base.{
  Option, ℕ, suc, ◌+◌, ◌*◌, ◌%◌, ◌^◌, ◌<◌, ◌≡◌, refl, ap, ap₂, sym, subst, ◌∙◌, List, [], ◌∷◌, ◌++◌,
  some, inl, inr, length, length-append, take, take-append, append_assoc, append-nil, All, arith,
  ltb, true, Bool-cases, drop,
}
use chronicle_rs.Bytes.{Mem}
use chronicle_rs.Sequence.{GapDetection, check}
use chronicle_rs.Protocol.{
  BookEventType, PriceLevelUpdate, SnapshotFields, type_book_event, header_bytes, snapshot_bytes,
  level_bytes, read_header, read_snapshot, read_level, snapshot_event_header, snapshot_struct,
  l2_snapshot_size, write_l2_snapshot, event_code, mode_code,
}
use chronicle_rs.Protocol.Layout.{
  FitsHeader, FitsSnapshot, FitsLevel, read_header-header_bytes, read_snapshot-snapshot_bytes,
  read_level-level_bytes, length-header_bytes, length-snapshot_bytes, length-level_bytes,
}
use chronicle_rs.Protocol.Snapshot.{
  side_bytes, length-side_bytes, snapshot_event, length-snapshot_event, l2_snapshot_size_lem,
  write_l2_snapshot_lem,
}
use chronicle_rs.Replay.L2.{
  L2Book, LevelsView, levels_view, levels_from, bids_iter, asks_iter, apply_snapshot,
}
use chronicle_rs.Replay
use chronicle_rs.Replay.{
  ReplayState, StreamMessage, AppliedMessage, replay_snapshot, replay_event, replayed,
  apply_message,
}

pub levels_from-side_bytes :
    (front rest : List ℕ) (off : ℕ) (ls : List PriceLevelUpdate)
    → length front ≡ off
    → All FitsLevel ls
    → levels_from (front ++ (side_bytes ls ++ rest)) off (length ls) ≡ ls
unfolding levels_from side_bytes
levels_from-side_bytes front rest off [] e v = refl
levels_from-side_bytes front rest off (l ∷ ls) e (v, vs) =
    let behind : List ℕ = side_bytes ls ++ rest in
    let front' : List ℕ = front ++ level_bytes l in
    let split : front ++ ((level_bytes l ++ side_bytes ls) ++ rest) ≡ front' ++ behind =
      ap (◌++◌ front) (append_assoc (level_bytes l) (side_bytes ls) rest)
      ∙ sym (append_assoc front (level_bytes l) behind) in
    let first = read_level-level_bytes front behind off l e v in
    let here : read_level (front' ++ behind) off ≡ some l =
      ap (λ b. read_level b off) (append_assoc front (level_bytes l) behind) ∙ first in
    let more =
      levels_from-side_bytes front' rest (off + 16) ls
        (omega (arith, length-append front (level_bytes l), length-level_bytes l, e)) vs in
    let read : levels_from (front' ++ behind) off (suc (length ls)) ≡ l ∷ ls =
      rw (levels_from, here) (ap (◌∷◌ l) more) in
    ap (λ b. levels_from b off (suc (length ls))) split ∙ read

same_parts :
    (a b : Mem) (m k : ℕ)
    → ◌≡◌ {A = Option (Mem × ℕ)} (some (a, m)) (some (b, k))
    → (b ≡ a) × (k ≡ m)
same_parts a b m k h = (cc, cc)

-- What the caller passes fits the structures.
pub record FitsFields (s : SnapshotFields) (bids asks : List PriceLevelUpdate) : Type 0 where
  pub venue_id_fits : s.venue_id < 2 ^ 16
  pub market_id_fits : s.market_id < 2 ^ 32
  pub timestamp_fits : s.timestamp_ns < 2 ^ 64
  pub price_scale_fits : s.price_scale < 2 ^ 8
  pub size_scale_fits : s.size_scale < 2 ^ 8
  pub bids_fit : All FitsLevel bids
  pub asks_fit : All FitsLevel asks
  pub bid_count_fits : length bids < 2 ^ 32
  pub ask_count_fits : length asks < 2 ^ 32

module _ (gap0 gap1 : ℕ) (s : SnapshotFields) (bids asks : List PriceLevelUpdate)
    (fits : FitsFields s bids asks) where
  abbrev n : ℕ
  n = l2_snapshot_size (length bids) (length asks)

  abbrev payload : List ℕ
  payload = snapshot_event gap0 gap1 s bids asks

  header_fits : FitsHeader (snapshot_event_header s n)
  unfolding snapshot_event_header event_code mode_code
  header_fits = ground arith

  snapshot_fits : FitsSnapshot (snapshot_struct s (length bids) (length asks))
  unfolding snapshot_struct
  snapshot_fits = ground arith

  decoded_header : read_header payload 0 ≡ some (snapshot_event_header s n)
  unfolding snapshot_event
  decoded_header = read_header-header_bytes gap0 gap1 (snapshot_event_header s n) _ header_fits

  decoded_snapshot : read_snapshot payload 64 ≡ some (snapshot_struct s (length bids) (length asks))
  unfolding snapshot_event
  decoded_snapshot =
      read_snapshot-snapshot_bytes (header_bytes gap0 gap1 (snapshot_event_header s n))
        (side_bytes bids ++ side_bytes asks) 64 (snapshot_struct s (length bids) (length asks))
        (length-header_bytes gap0 gap1 (snapshot_event_header s n)) snapshot_fits

  abbrev levels : LevelsView
  levels = record { buf = payload; offset = 76; bid_count = length bids; ask_count = length asks }

  decoded_view : levels_view payload 76 (length bids % 2 ^ 32) (length asks % 2 ^ 32) ≡ some levels
  unfolding levels_view
  decoded_view = ground (
    arith,
    length-snapshot_event gap0 gap1 s bids asks,
    l2_snapshot_size_lem (length bids) (length asks),
  )

  decoded_bids : bids_iter levels ≡ bids
  unfolding bids_iter snapshot_event
  decoded_bids =
      let h : List ℕ = header_bytes gap0 gap1 (snapshot_event_header s n) in
      let t : List ℕ = snapshot_bytes (snapshot_struct s (length bids) (length asks)) in
      ap (λ b. levels_from b 76 (length bids))
        (sym (append_assoc h t (side_bytes bids ++ side_bytes asks)))
      ∙ levels_from-side_bytes (h ++ t) (side_bytes asks) 76 bids
          (omega (
            arith,
            length-append h t,
            length-header_bytes gap0 gap1 (snapshot_event_header s n),
            length-snapshot_bytes (snapshot_struct s (length bids) (length asks)),
          ))
          fits.bids_fit

  decoded_asks : asks_iter levels ≡ asks
  unfolding asks_iter snapshot_event
  decoded_asks =
      let h : List ℕ = header_bytes gap0 gap1 (snapshot_event_header s n) in
      let t : List ℕ = snapshot_bytes (snapshot_struct s (length bids) (length asks)) in
      let front : List ℕ = (h ++ t) ++ side_bytes bids in
      let off : ℕ = 76 + length bids * 16 in
      let regroup : h ++ (t ++ (side_bytes bids ++ side_bytes asks))
          ≡ front ++ (side_bytes asks ++ []) =
        simp (append_assoc, append-nil) in
      ap (λ b. levels_from b off (length asks)) regroup
      ∙ levels_from-side_bytes front [] off asks
          (omega (
            arith,
            length-append h t,
            length-append (h ++ t) (side_bytes bids),
            length-side_bytes bids,
            length-header_bytes gap0 gap1 (snapshot_event_header s n),
            length-snapshot_bytes (snapshot_struct s (length bids) (length asks)),
          ))
          fits.asks_fit

  -- The result for such a payload.
  abbrev pub applied_snapshot : ℕ → AppliedMessage
  applied_snapshot seq = record {
    update = Replay.applied seq BookEventType.snapshot;
    book_event = some (record {
      header = snapshot_event_header s n;
      payload = Replay.snapshot_event (snapshot_struct s (length bids) (length asks)) levels;
    });
  }

  replay_snapshot_written :
      (book : L2Book) (seq : ℕ)
      → replay_snapshot book seq payload (snapshot_event_header s n) ≡ (
        apply_snapshot book (snapshot_struct s (length bids) (length asks)) bids asks,
        applied_snapshot seq,
      )
  unfolding replay_snapshot snapshot_struct
  replay_snapshot_written book seq =
      rw (replay_snapshot, decoded_snapshot, decoded_view, decoded_bids, decoded_asks) refl

  replay_event_written :
      (book : L2Book) (msg : StreamMessage)
      → msg.type_id ≡ type_book_event
      → msg.payload ≡ payload
      → replay_event book msg ≡ (
        apply_snapshot book (snapshot_struct s (length bids) (length asks)) bids asks,
        applied_snapshot msg.seq,
      )
  unfolding replay_event snapshot_event_header event_code mode_code
  replay_event_written book msg t p =
      simp (t, p, decoded_header) (replay_snapshot_written book msg.seq)

  too_small :
      (buf out : Mem) (len : ℕ)
      → ltb (length buf) n ≡ true
      → ¬ (write_l2_snapshot gap0 gap1 buf s bids asks ≡ some (out, len))
  unfolding write_l2_snapshot
  too_small buf out len small w = ground arith

  -- What was written is the event, in front of what the buffer had.
  written :
      (buf out : Mem) (len : ℕ)
      → write_l2_snapshot gap0 gap1 buf s bids asks ≡ some (out, len)
      → take len out ≡ payload
  written buf out len w = elim (Bool-cases (ltb (length buf) n)) [
    | inl small ↦ absurd (too_small buf out len small w)
    | inr room ↦
        let behind : List ℕ = drop n buf in
        let (as_out, as_len) =
          same_parts (payload ++ behind) out n len
            (sym (write_l2_snapshot_lem gap0 gap1 buf s bids asks (ground arith)) ∙ w) in
        ap₂ take as_len as_out
        ∙ subst (λ k. take k (payload ++ behind) ≡ payload)
            (length-snapshot_event gap0 gap1 s bids asks) (take-append payload behind)
  ]

  -- A snapshot event that `write_l2_snapshot` wrote, delivered in sequence, is applied: the book is
  -- then the one of the levels that were passed, with their scales, whatever it was before, and the
  -- result reports the event.
  pub apply_message-write_l2_snapshot :
      (buf out : Mem) (len : ℕ) (r : ReplayState) (msg : StreamMessage)
      → write_l2_snapshot gap0 gap1 buf s bids asks ≡ some (out, len)
      → msg.type_id ≡ type_book_event
      → msg.payload ≡ take len out
      → (check r.sequencer msg.seq).1 ≡ inr GapDetection.sequential
      → ((apply_message r msg).1 ≡ inr (applied_snapshot msg.seq))
        × ((apply_message r msg).0.l2_book
            ≡ apply_snapshot r.l2_book (snapshot_struct s (length bids) (length asks)) bids asks)
  unfolding apply_message replayed
  apply_message-write_l2_snapshot buf out len r msg w t p c =
      let event = replay_event_written r.l2_book msg t (p ∙ written buf out len w) in
      rw (apply_message, c) (ap (λ e. inr e.1) event, ap (λ e. e.0) event)
