-- ===== src/Replay/Engine/WarmStart.antt =====
-- A warm start from a snapshot that `write_snapshot` wrote.
use chronicle_rs.Base.{
  ◌-◌, ℕ, ◌+◌, ◌*◌, ◌^◌, ◌<◌, ◌≡◌, refl, ap, ◌∙◌, List, [], ◌++◌, none, some, inr, ok, Bool, length,
  length-append, append_assoc, append-nil, min, All, arith,
}
use chronicle_rs.Sequence.{check, reset}
use chronicle_rs.Protocol.{L2Snapshot, PriceLevelUpdate, read_snapshot, snapshot_bytes, mode_code}
use chronicle_rs.Protocol.Layout.{
  FitsSnapshot, FitsLevel, read_snapshot-snapshot_bytes, length-snapshot_bytes,
}
use chronicle_rs.Protocol.Snapshot.{side_bytes, length-side_bytes}
use chronicle_rs.Snapshots.Format.{SnapshotHeader, SnapshotMetadata, SnapshotDir, to_header}
use chronicle_rs.Snapshots.Header.{IsSnapshotHeader}
use chronicle_rs.Snapshots.Retention.{SnapshotRetention}
use chronicle_rs.Snapshots.{write_snapshot}
use chronicle_rs.Snapshots.Stored.{Spared, load_snapshot-write_snapshot}
use chronicle_rs.Replay.L2.{
  L2Book, LevelsView, levels_view, bids_iter, asks_iter, levels_from, apply_snapshot,
}
use chronicle_rs.Replay.Written.{levels_from-side_bytes}
use chronicle_rs.Replay.Engine.{
  StreamReader, Engine, apply_snapshot_payload, position_after, warm_start_from_snapshot,
}

-- The bytes of a snapshot: the structure, and the levels of the two sides.
abbrev pub payload_of : L2Snapshot → (bids asks : List PriceLevelUpdate) → List ℕ
payload_of s bids asks = snapshot_bytes s ++ (side_bytes bids ++ side_bytes asks)

-- The structure tells the numbers of levels, and all fits its widths.
pub record IsPayload (s : L2Snapshot) (bids asks : List PriceLevelUpdate) : Type 0 where
  pub fits : FitsSnapshot s
  pub bid_count_is : s.bid_count ≡ length bids
  pub ask_count_is : s.ask_count ≡ length asks
  pub bids_fit : All FitsLevel bids
  pub asks_fit : All FitsLevel asks

module _ (s : L2Snapshot) (bids asks : List PriceLevelUpdate) (v : IsPayload s bids asks) where
  abbrev payload : List ℕ
  payload = payload_of s bids asks

  abbrev levels : LevelsView
  levels = record { buf = payload; offset = 12; bid_count = length bids; ask_count = length asks }

  length-payload : length payload ≡ 12 + (16 * length bids + 16 * length asks)
  length-payload = omega (
    arith,
    length-append (snapshot_bytes s) (side_bytes bids ++ side_bytes asks),
    length-append (side_bytes bids) (side_bytes asks),
    length-snapshot_bytes s,
    length-side_bytes bids,
    length-side_bytes asks,
  )

  viewed : levels_view payload 12 (length bids) (length asks) ≡ some levels
  unfolding levels_view
  viewed = ground (arith, length-payload)

  viewed_bids : bids_iter levels ≡ bids
  unfolding bids_iter
  viewed_bids =
      levels_from-side_bytes (snapshot_bytes s) (side_bytes asks) 12 bids (length-snapshot_bytes s)
        v.bids_fit

  viewed_asks : asks_iter levels ≡ asks
  unfolding asks_iter
  viewed_asks =
      let front : List ℕ = snapshot_bytes s ++ side_bytes bids in
      let off : ℕ = 12 + length bids * 16 in
      let regroup : payload ≡ front ++ (side_bytes asks ++ []) = simp (append_assoc, append-nil) in
      ap (λ b. levels_from b off (length asks)) regroup
      ∙ levels_from-side_bytes front [] off asks
          (omega (
            arith,
            length-append (snapshot_bytes s) (side_bytes bids),
            length-snapshot_bytes s,
            length-side_bytes bids,
          ))
          v.asks_fit

  payload_applied :
      (book : L2Book) (header : SnapshotHeader)
      → header.schema_version ≡ 1
      → header.book_mode ≡ 0
      → apply_snapshot_payload book header payload ≡ inr (apply_snapshot book s bids asks)
  unfolding apply_snapshot_payload mode_code
  payload_applied book header version mode =
      let read : read_snapshot payload 0 ≡ some s =
        read_snapshot-snapshot_bytes [] (side_bytes bids ++ side_bytes asks) 0 s refl v.fits in
      simp (version, mode, read, v.bid_count_is, v.ask_count_is, viewed, viewed_bids, viewed_asks)
        refl

position_lem :
    (source : StreamReader) (e : Engine source) (header : SnapshotHeader) (sought : Bool)
    → (source.seek_seq e.reader (min (header.seq_num + 1) (2 ^ 64 - 1))).1 ≡ ok sought
    → let (e', result) = position_after source e header in
      (result ≡ inr header)
      × (e'.state.l2_book ≡ e.state.l2_book)
      × (e'.state.sequencer.last_seq ≡ some header.seq_num)
      × (e'.state.last_gap ≡ none)
      × (e'.reader ≡ (source.seek_seq e.reader (min (header.seq_num + 1) (2 ^ 64 - 1))).0)
unfolding position_after check reset
position_lem source e header sought h = rw (position_after, h) (refl, refl, refl, refl, refl)

-- A snapshot of schema version 1 and book mode 0 (level 2) is written with the book's levels as its
-- payload, whose lengths and numbers fit their fields, and the retention that ends the write does not
-- remove its number. If the reader can be sent to the number after it, then a warm start from it
-- succeeds: the book is the one of those levels, whatever it was before, no gap is remembered, the
-- last number is the snapshot's, and the reader stands where it was sent.
pub warm_start-write_snapshot :
    (source : StreamReader) (e : Engine source) (now : ℕ) (r : SnapshotRetention) (d : SnapshotDir)
    (m : SnapshotMetadata) (s : L2Snapshot) (bids asks : List PriceLevelUpdate) (sought : Bool)
    → IsPayload s bids asks
    → IsSnapshotHeader (to_header m (length (payload_of s bids asks)))
    → m.schema_version ≡ 1
    → m.book_mode ≡ 0
    → 128 + length (payload_of s bids asks) < 2 ^ 64
    → Spared now m (payload_of s bids asks) r d
    → (source.seek_seq e.reader (min (m.seq_num + 1) (2 ^ 64 - 1))).1 ≡ ok sought
    → let (e', result) =
        warm_start_from_snapshot source e
          (write_snapshot now r d m (payload_of s bids asks))
          m.seq_num in
      (result ≡ inr (to_header m (length (payload_of s bids asks))))
      × (e'.state.l2_book ≡ apply_snapshot e.state.l2_book s bids asks)
      × (e'.state.sequencer.last_seq ≡ some m.seq_num)
      × (e'.state.last_gap ≡ none)
      × (e'.reader ≡ (source.seek_seq e.reader (min (m.seq_num + 1) (2 ^ 64 - 1))).0)
unfolding warm_start_from_snapshot to_header
warm_start-write_snapshot source e now r d m s bids asks sought v h version mode small spared
      there =
    let payload : List ℕ = payload_of s bids asks in
    let header : SnapshotHeader = to_header m (length payload) in
    let loaded = load_snapshot-write_snapshot now m payload h r d small spared in
    let applied = payload_applied s bids asks v e.state.l2_book header version mode in
    let book : L2Book = apply_snapshot e.state.l2_book s bids asks in
    let state = e.state in
    let e' : Engine source = record e { state = record state { l2_book = book } } in
    rw (warm_start_from_snapshot, loaded, applied) (position_lem source e' header sought there)
