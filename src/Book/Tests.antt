-- ===== src/Book/Tests.antt =====
-- Examples of the book: two orders at a price, then a partial cancel.
use chronicle_rs.Base.{
  ℕ, ◌+◌, ◌≡◌, refl, List, [], ◌∷◌, some, lookup, insert, remove, ◌==◌, if◌then◌else◌, arith,
}
use chronicle_rs.Book
use chronicle_rs.Book.{
  L3Book, L3Event, L3Order, PriceLevel, UnknownOrderPolicy, L3Side, apply_event,
}
use chronicle_rs.Book.Totals.{total_at}
use chronicle_rs.Book.Balance.{Balanced, resting, levels_of}
use chronicle_rs.Book.Balance.Events.{apply_event-Balanced}
use chronicle_rs.Book.Engine.{SzseL3Worker, L3Message, route}
use chronicle_rs.Book.Engine.Routing.{book_at, or_new, route-books}

abbrev resting_order : ℕ → L3Order
resting_order qty = record {
  side = L3Side.buy;
  price = 100;
  qty = qty;
  flags = 0;
  ord_type = 0;
  last_exchange_ts_ns = 1;
}

abbrev one_order : L3Book
one_order = record {
  orders = (10, resting_order 5) ∷ [];
  bids = (100, record { total_qty = 5; queue = 10 ∷ [] }) ∷ [];
  asks = [];
  price_scale = 3;
  size_scale = 0;
}

one_order_totals :
    (s : L3Side) (p : ℕ) → total_at p (levels_of s one_order) ≡ resting s p (resting_order 5) + 0
unfolding total_at resting lookup
one_order_totals L3Side.unknown p = ground arith
one_order_totals L3Side.buy p = ground arith
one_order_totals L3Side.sell p = ground arith

one_order-Balanced : Balanced one_order
unfolding lookup
one_order-Balanced = record { distinct = (refl, tt); totals = one_order_totals }

abbrev cancel : ℕ → L3Event
cancel qty = record {
  event_type = 2;
  side = 1;
  ord_type = 0;
  price_scale = 3;
  size_scale = 0;
  flags = 0;
  order_id = 10;
  bid_order_id = 0;
  ask_order_id = 0;
  price = 100;
  qty = qty;
}

apply_event-Balanced_example :
    Balanced (apply_event one_order 2 (cancel 3) UnknownOrderPolicy.fail).0
apply_event-Balanced_example =
    apply_event-Balanced one_order 2 (cancel 3) UnknownOrderPolicy.fail one_order-Balanced refl
      (λ h. absurd (omega arith)) (omega arith)

-- The cancel of a part takes the order out of the level's queue, though it still rests there.
partial_cancel :
    (apply_event one_order 2 (cancel 3) UnknownOrderPolicy.fail).0.bids
    ≡ (100, record { total_qty = 2; queue = [] }) ∷ []
unfolding apply_event Book.event_kind Book.on_order_cancel Book.reduce_order Book.taken_qty
    Book.take_order Book.remove_from_level Book.on_side Book.cut_level Book.remove_qty
    Book.remove_first Book.put_order lookup insert remove
partial_cancel = refl

-- An order at market that has a price, in the book of `one_order`: it goes into no level, but its
-- cancel takes its quantity from the level of the other order.
abbrev market_add : L3Event
market_add = record (cancel 4) { event_type = 1; order_id = 11; flags = 1 }

abbrev market_cancel : L3Event
market_cancel = record (cancel 4) { order_id = 11 }

abbrev with_market : L3Book
with_market = (apply_event one_order 2 market_add UnknownOrderPolicy.fail).0

market_cancel_takes_other :
    (apply_event with_market 3 market_cancel UnknownOrderPolicy.fail).0.bids
    ≡ (100, record { total_qty = 1; queue = 10 ∷ [] }) ∷ []
unfolding apply_event Book.event_kind Book.on_order_add Book.on_order_cancel Book.reduce_order
    Book.taken_qty Book.take_order Book.off_levels Book.side_of Book.remove_from_level Book.on_side
    Book.cut_level Book.remove_qty Book.remove_first Book.put_order lookup insert remove
market_cancel_takes_other = refl

abbrev message : L3Message
message = record {
  header = record {
    schema_version = 3;
    record_len = 128;
    endianness = 0;
    pad0 = 0;
    venue_id = 1;
    market_id = 1;
    stream_id = 2011;
    ingest_ts_ns = 3;
    exchange_ts_ns = 2;
    seq = 1;
    native_seq = 1;
    event_type = 2;
    book_mode = 1;
    flags = 0;
    pad1 = 0;
  };
  event = cancel 3;
}

abbrev identity : ℕ → ℕ
identity n = n

abbrev two_workers : List SzseL3Worker
two_workers = [] ∷ ((1, one_order) ∷ []) ∷ []

route-books_example :
    book_at identity (route identity two_workers message UnknownOrderPolicy.fail).0 1 ≡ (
      if 1 == 1
      then some
          (apply_event
            (or_new (book_at identity two_workers 1))
            2
            (cancel 3)
            UnknownOrderPolicy.fail).0
      else book_at identity two_workers 1)
route-books_example =
    route-books identity two_workers message UnknownOrderPolicy.fail 1 (omega arith)
