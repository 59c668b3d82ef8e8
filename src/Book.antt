-- ===== src/Book.antt =====
-- src/venues/szse/l3/engine.rs, the order book of one symbol: hash maps and ordered maps are
-- association lists, integers of the code saturate at 2^64 - 1. A handler returns the book after
-- the call, an early return with an error included, and that error.
mod Parts
pub mod Engine
pub mod Sums
pub mod Totals
pub mod Balance
mod Tests
unfoldable pub use Parts.*
use Prim.Native.Nat.{bit_and}
use chronicle_rs.Base.{
  ℕ, ◌+◌, ◌-◌, ◌^◌, min, List, [], ◌∷◌, ◌++◌, Option, none, some, Bool, true, false, ◌||◌, not,
  ◌==◌, ltb, if◌then◌else◌, lookup, insert, remove,
}

unfoldable pub side_of : ℕ → L3Side
side_of n = if n == 1 then buy else if n == 2 then sell else unknown

-- `flags & PRICE_IS_MARKET != 0 || price == 0`
unfoldable pub off_levels : ℕ → ℕ → Bool
off_levels flags price = not (bit_and flags price_is_market == 0) || (price == 0)

unfoldable pub put_order : L3Book → ℕ → L3Order → L3Book
put_order b order_id order = record b { orders = insert order_id order b.orders }

unfoldable pub take_order : L3Book → ℕ → L3Book
take_order b order_id = record b { orders = remove order_id b.orders }

-- An id that the book does not know.
unfoldable pub unknown_order : L3Book → UnknownOrderPolicy → BookError → L3Book × Option BookError
unknown_order b fail e = (b, some e)
unknown_order b skip e = (b, none)

unfoldable pub on_order_add : L3Book → ℕ → L3Event → L3Book × Option BookError
on_order_add b exchange_ts_ns e =
    if e.order_id == 0
    then (b, some add_missing_order_id)
    else let order : L3Order = record {
      side = side_of e.side;
      price = e.price;
      qty = e.qty;
      flags = e.flags;
      ord_type = e.ord_type;
      last_exchange_ts_ns = exchange_ts_ns;
    } in
      let b' = put_order b e.order_id order in
      if off_levels e.flags e.price
      then (b', none)
      else (add_to_level b' (side_of e.side) e.price e.order_id e.qty, none)

-- What a cancel and a trade do to an order that was taken out of the map: it loses `qty`, and goes
-- back when something is left.
unfoldable pub reduce_order : L3Book → ℕ → ℕ → L3Order → ℕ → L3Book
reduce_order b exchange_ts_ns order_id order qty =
    let order' : L3Order = record order {
      qty = order.qty - qty;
      last_exchange_ts_ns = exchange_ts_ns;
    } in
    let b' = remove_from_level (take_order b order_id) order.side order.price order_id qty in
    if order'.qty == 0 then b' else put_order b' order_id order'

-- The quantity that a cancel or a trade takes: 0 stands for all of it.
unfoldable pub taken_qty : ℕ → ℕ → ℕ
taken_qty event_qty order_qty = if event_qty == 0 then order_qty else min event_qty order_qty

unfoldable pub on_order_cancel :
    L3Book → ℕ → L3Event → UnknownOrderPolicy → L3Book × Option BookError
on_order_cancel b exchange_ts_ns e policy =
    if e.order_id == 0 then (b, none) else elim (lookup e.order_id b.orders) [
      | none ↦ unknown_order b policy (cancel_unknown_order e.order_id)
      | some order ↦
          (reduce_order b exchange_ts_ns e.order_id order (taken_qty e.qty order.qty), none)
    ]

unfoldable pub modified : L3Order → ℕ → L3Event → L3Order
modified order exchange_ts_ns e = record order {
  last_exchange_ts_ns = exchange_ts_ns;
  qty = if e.qty == 0 then order.qty else e.qty;
  price = if e.price == 0 then order.price else e.price;
}

-- The levels after a modification of the order, which is out of the map; its side stays.
unfoldable pub move_level : L3Book → L3Event → L3Order → L3Order → L3Book
move_level b e old order =
    if off_levels e.flags order.price
    then if old.qty == 0 then b else remove_from_level b old.side old.price e.order_id old.qty
    else if not (old.price == order.price)
    then add_to_level (remove_from_level b old.side old.price e.order_id old.qty) order.side
        order.price e.order_id order.qty
    else if old.qty == order.qty
    then b
    else on_side order.side (resize_level order.price old.qty order.qty) b

unfoldable pub on_order_modify :
    L3Book → ℕ → L3Event → UnknownOrderPolicy → L3Book × Option BookError
on_order_modify b exchange_ts_ns e policy =
    if e.order_id == 0 then (b, none) else elim (lookup e.order_id b.orders) [
      | none ↦ unknown_order b policy (modify_unknown_order e.order_id)
      | some old ↦
          let order = modified old exchange_ts_ns e in
          (put_order (move_level (take_order b e.order_id) e old order) e.order_id order, none)
    ]

unfoldable pub decrement_order : L3Book → ℕ → ℕ → ℕ → UnknownOrderPolicy → L3Book × Option BookError
decrement_order b exchange_ts_ns order_id qty policy = elim (lookup order_id b.orders) [
  | none ↦ unknown_order b policy (trade_unknown_order order_id)
  | some order ↦ (reduce_order b exchange_ts_ns order_id order (taken_qty qty order.qty), none)
]

-- `self.decrement_order(..)?`, when the id is given, then the rest.
unfoldable pub decrement_then :
    L3Book
    → ℕ
    → ℕ
    → ℕ
    → UnknownOrderPolicy
    → (L3Book → L3Book × Option BookError)
    → L3Book × Option BookError
decrement_then b exchange_ts_ns order_id qty policy rest =
    if order_id == 0
    then rest b
    else let (b', result) = decrement_order b exchange_ts_ns order_id qty policy in
      elim result [ some e ↦ (b', some e) | none ↦ rest b' ]

unfoldable pub on_trade : L3Book → ℕ → L3Event → UnknownOrderPolicy → L3Book × Option BookError
on_trade b exchange_ts_ns e policy =
    decrement_then b exchange_ts_ns e.bid_order_id e.qty policy (λ b'.
      decrement_then b' exchange_ts_ns e.ask_order_id e.qty policy (λ b''.
        if e.bid_order_id == 0
        then if e.ask_order_id == 0
          then decrement_then b'' exchange_ts_ns e.order_id e.qty policy (λ c. (c, none))
          else (b'', none)
        else (b'', none)))

unfoldable pub cleared : L3Book → L3Book
cleared b = record b { orders = []; bids = []; asks = [] }

unfoldable pub event_kind : ℕ → Option L3EventType
event_kind n =
    if n == 1
    then some order_add
    else if n == 2
    then some order_cancel
    else if n == 3
    then some order_modify
    else if n == 4
    then some trade
    else if n == 5
    then some reset
    else if n == 6
    then some heartbeat
    else none

unfoldable pub apply_event : L3Book → ℕ → L3Event → UnknownOrderPolicy → L3Book × Option BookError
apply_event b₀ exchange_ts_ns e policy =
    let b = record b₀ { price_scale = e.price_scale; size_scale = e.size_scale } in
    elim (event_kind e.event_type) [
      | none ↦ (b, some (unknown_event_type e.event_type))
      | some order_add ↦ on_order_add b exchange_ts_ns e
      | some order_cancel ↦ on_order_cancel b exchange_ts_ns e policy
      | some order_modify ↦ on_order_modify b exchange_ts_ns e policy
      | some trade ↦ on_trade b exchange_ts_ns e policy
      | some reset ↦ (cleared b, none)
      | some heartbeat ↦ (b, none)
    ]
