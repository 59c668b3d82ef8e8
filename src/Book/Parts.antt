-- ===== src/Book/Parts.antt =====
-- The data of the book, and the changes of its levels: `PriceLevel`, `add_to_level`,
-- `remove_from_level` of src/venues/szse/l3/engine.rs, with the types of src/protocol/mod.rs.
use chronicle_rs.Base.{
  ℕ, ◌+◌, ◌-◌, ◌^◌, min, List, [], ◌∷◌, ◌++◌, none, some, ◌==◌, ltb, if◌then◌else◌, lookup, insert,
  remove,
}

pub data L3Side : Type 0 where
  unknown buy sell : L3Side

pub data L3EventType : Type 0 where
  order_add order_cancel order_modify trade reset heartbeat : L3EventType

pub data UnknownOrderPolicy : Type 0 where
  fail skip : UnknownOrderPolicy

-- The errors that the handlers return.
pub data BookError : Type 0 where
  add_missing_order_id : BookError
  cancel_unknown_order modify_unknown_order trade_unknown_order unknown_event_type : ℕ → BookError

-- The fields of the event that the book reads.
pub record L3Event : Type 0 where
  pub event_type : ℕ
  pub side : ℕ
  pub ord_type : ℕ
  pub price_scale : ℕ
  pub size_scale : ℕ
  pub flags : ℕ
  pub order_id : ℕ
  pub bid_order_id : ℕ
  pub ask_order_id : ℕ
  pub price : ℕ
  pub qty : ℕ

abbrev pub price_is_market : ℕ
price_is_market = 1

pub record L3Order : Type 0 where
  pub side : L3Side
  pub price : ℕ
  pub qty : ℕ
  pub flags : ℕ
  pub ord_type : ℕ
  pub last_exchange_ts_ns : ℕ

pub record PriceLevel : Type 0 where
  pub total_qty : ℕ
  pub queue : List ℕ

abbrev pub Levels : Type 0
Levels = List (ℕ × PriceLevel)

pub record L3Book : Type 0 where
  pub orders : List (ℕ × L3Order)
  pub bids : Levels
  pub asks : Levels
  pub price_scale : ℕ
  pub size_scale : ℕ

unfoldable pub new : L3Book
new = record { orders = []; bids = []; asks = []; price_scale = 0; size_scale = 0 }

abbrev pub saturating_add : ℕ → ℕ → ℕ
saturating_add a b = min (a + b) (2 ^ 64 - 1)

unfoldable pub level_add : PriceLevel → ℕ → ℕ → PriceLevel
level_add l order_id qty = record {
  total_qty = saturating_add l.total_qty qty;
  queue = l.queue ++ (order_id ∷ []);
}

-- `queue.remove(pos)` of the first position that holds the id.
unfoldable pub remove_first : ℕ → List ℕ → List ℕ
remove_first x [] = []
remove_first x (y ∷ ys) = if y == x then ys else y ∷ remove_first x ys

unfoldable pub remove_qty : PriceLevel → ℕ → ℕ → PriceLevel
remove_qty l order_id qty = record {
  total_qty = l.total_qty - qty;
  queue = remove_first order_id l.queue;
}

-- `levels.entry(price).or_default()`
unfoldable pub level_entry : ℕ → Levels → PriceLevel
level_entry price levels = elim (lookup price levels) [
  | none ↦ record { total_qty = 0; queue = [] }
  | some l ↦ l
]

-- `add_to_level` on the side's levels.
unfoldable pub put_level : ℕ → ℕ → ℕ → Levels → Levels
put_level price order_id qty levels =
    insert price (level_add (level_entry price levels) order_id qty) levels

-- `remove_from_level` on the side's levels: an empty level goes.
unfoldable pub cut_level : ℕ → ℕ → ℕ → Levels → Levels
cut_level price order_id qty levels = elim (lookup price levels) [
  | none ↦ levels
  | some l ↦
      if (remove_qty l order_id qty).total_qty == 0
      then remove price levels
      else insert price (remove_qty l order_id qty) levels
]

-- `level.total_qty` moved from the old quantity to the new one.
unfoldable pub resize_level : ℕ → ℕ → ℕ → Levels → Levels
resize_level price old_qty qty levels =
    let l = level_entry price levels in
    insert price
      (record l {
        total_qty =
            if ltb old_qty qty
            then saturating_add l.total_qty (qty - old_qty)
            else l.total_qty - (old_qty - qty);
      })
      levels

-- One change of the levels of a side, `unknown` has none.
unfoldable pub on_side : L3Side → (Levels → Levels) → L3Book → L3Book
on_side unknown f b = b
on_side buy f b = record b { bids = f b.bids }
on_side sell f b = record b { asks = f b.asks }

unfoldable pub add_to_level : L3Book → L3Side → ℕ → ℕ → ℕ → L3Book
add_to_level b side price order_id qty = on_side side (put_level price order_id qty) b

unfoldable pub remove_from_level : L3Book → L3Side → ℕ → ℕ → ℕ → L3Book
remove_from_level b side price order_id qty = on_side side (cut_level price order_id qty) b
