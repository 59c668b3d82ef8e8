-- ===== src/Replay/L2.antt =====
-- src/stream/replay/mod.rs: `L2Book`, and the levels of an event as `LevelsView` iterates over them.
-- A `BTreeMap` from prices to sizes is an association list.
use chronicle_rs.Base.{
  ℕ, zero, suc, ◌+◌, ◌*◌, ◌%◌, ◌^◌, List, [], ◌∷◌, Option, none, some, ◌==◌, ltb, leb, length,
  if◌then◌else◌, insert, remove,
}
use chronicle_rs.Protocol.{L2Diff, L2Snapshot, PriceLevelUpdate, price_level_size, read_level}

pub record L2Book : Type 0 where
  pub bids : List (ℕ × ℕ)
  pub asks : List (ℕ × ℕ)
  pub price_scale : ℕ
  pub size_scale : ℕ

abbrev pub new : L2Book
new = record { bids = []; asks = []; price_scale = 0; size_scale = 0 }

-- The loop of `apply_snapshot` over one side.
unfoldable pub insert_levels : List (ℕ × ℕ) → List PriceLevelUpdate → List (ℕ × ℕ)
insert_levels side [] = side
insert_levels side (level ∷ levels) =
    insert_levels (if level.size == 0 then side else insert level.price level.size side) levels

-- The loop of `apply_diff` over one side.
unfoldable pub update_levels : List (ℕ × ℕ) → List PriceLevelUpdate → List (ℕ × ℕ)
update_levels side [] = side
update_levels side (level ∷ levels) =
    update_levels
      (if level.size == 0 then remove level.price side else insert level.price level.size side)
      levels

unfoldable pub apply_snapshot : L2Book → L2Snapshot → (bids asks : List PriceLevelUpdate) → L2Book
apply_snapshot book snapshot bids asks = record {
  bids = insert_levels [] bids;
  asks = insert_levels [] asks;
  price_scale = snapshot.price_scale;
  size_scale = snapshot.size_scale;
}

unfoldable pub apply_diff : L2Book → L2Diff → (bids asks : List PriceLevelUpdate) → L2Book
apply_diff book diff bids asks = record {
  bids = update_levels book.bids bids;
  asks = update_levels book.asks asks;
  price_scale = diff.price_scale;
  size_scale = diff.size_scale;
}

pub record LevelsView : Type 0 where
  pub buf : List ℕ
  pub offset : ℕ
  pub bid_count : ℕ
  pub ask_count : ℕ

-- `LevelsView::new`, with its checked sum and product.
unfoldable pub levels_view : List ℕ → (offset bid_count ask_count : ℕ) → Option LevelsView
levels_view buf offset bid_count ask_count =
    let total = bid_count + ask_count in
    let total_bytes = total * price_level_size in
    if leb (2 ^ 64) total
    then none
    else if leb (2 ^ 64) total_bytes
    then none
    else if ltb (length buf) ((offset + total_bytes) % 2 ^ 64)
    then none
    else some (record { buf = buf; offset = offset; bid_count = bid_count; ask_count = ask_count })

-- What a `PriceLevelIter` yields: it ends at the first level that is not there.
unfoldable pub levels_from : List ℕ → (offset remaining : ℕ) → List PriceLevelUpdate
levels_from buf offset zero = []
levels_from buf offset (suc remaining) = elim (read_level buf offset) [
  | none ↦ []
  | some level ↦ level ∷ levels_from buf (offset + price_level_size) remaining
]

unfoldable pub bids_iter : LevelsView → List PriceLevelUpdate
bids_iter v = levels_from v.buf v.offset v.bid_count

unfoldable pub asks_iter : LevelsView → List PriceLevelUpdate
asks_iter v = levels_from v.buf (v.offset + v.bid_count * price_level_size) v.ask_count
