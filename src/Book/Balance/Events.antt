-- ===== src/Book/Balance/Events.antt =====
-- Every event keeps the book balanced.
use Prim.Native.Nat.{bit_and}
use chronicle_rs.Base.{
  ℕ, ◌+◌, ◌^◌, ◌<◌, ◌≤◌, ◌≡◌, refl, sym, ap, ◌∙◌, subst, none, some, lookup, ◌==◌, if◌then◌else◌,
  arith, Bool-cases, inl, inr, Option, Option-cases,
}
use chronicle_rs.Book
use chronicle_rs.Book.{
  L3Side, unknown, buy, sell, L3Order, L3Book, L3Event, UnknownOrderPolicy, fail, skip, BookError,
  add_to_level, put_order, take_order, reduce_order, move_level, off_levels, side_of, on_order_add,
  on_order_cancel, on_order_modify, on_trade, decrement_order, decrement_then, taken_qty,
  unknown_order, modified, cleared, apply_event, event_kind,
}
use chronicle_rs.Book.Sums.{sum-remove}
use chronicle_rs.Book.Totals.{total_at}
use chronicle_rs.Book.Balance.{levels_of, volume, Balanced}
use chronicle_rs.Book.Balance.Steps.{take-Lifted, reduce_order-Balanced}
use chronicle_rs.Book.Balance.Moves.{add_order-Balanced, move_level-Balanced}

levels_rescaled :
    (s : L3Side) (b : L3Book) (p q : ℕ)
    → levels_of s (record b { price_scale = p; size_scale = q }) ≡ levels_of s b
levels_rescaled unknown b p q = refl
levels_rescaled buy b p q = refl
levels_rescaled sell b p q = refl

rescaled-Balanced :
    (b : L3Book) (p q : ℕ) → Balanced b → Balanced (record b { price_scale = p; size_scale = q })
rescaled-Balanced b x y v = record {
  distinct = v.distinct;
  totals = λ s p. ap (total_at p) (levels_rescaled s b x y) ∙ v.totals s p;
}

cleared_shown : (s : L3Side) (p : ℕ) (b : L3Book) → total_at p (levels_of s (cleared b)) ≡ 0
unfolding cleared total_at lookup
cleared_shown unknown p b = refl
cleared_shown buy p b = refl
cleared_shown sell p b = refl

cleared-Balanced : (b : L3Book) → Balanced (cleared b)
unfolding cleared
cleared-Balanced b = record { distinct = tt; totals = λ s p. cleared_shown s p b }

-- An error on an unknown id leaves the book as it is.
unknown_order_book :
    (b : L3Book) (policy : UnknownOrderPolicy) (err : BookError)
    → (unknown_order b policy err).0 ≡ b
unfolding unknown_order
unknown_order_book b fail err = refl
unknown_order_book b skip err = refl

add_kind : (n : ℕ) → event_kind n ≡ some Book.order_add → n ≡ 1
unfolding event_kind
add_kind n h = ground arith

taken_qty-le : (n q : ℕ) → taken_qty n q ≤ q
unfolding taken_qty
taken_qty-le n q = ground arith

pub on_order_add-Balanced :
    (b : L3Book) (ts : ℕ) (e : L3Event)
    → Balanced b
    → bit_and e.flags 1 ≡ 0
    → lookup e.order_id b.orders ≡ none
    → volume b.orders + e.qty < 2 ^ 64
    → Balanced (on_order_add b ts e).0
unfolding on_order_add off_levels
on_order_add-Balanced b ts e v plain fresh room =
    let order : L3Order = record {
      side = side_of e.side;
      price = e.price;
      qty = e.qty;
      flags = e.flags;
      ord_type = e.ord_type;
      last_exchange_ts_ns = ts;
    } in
    let added = add_order-Balanced b e.order_id order v fresh room in
    elim (Bool-cases (e.order_id == 0)) [
      | inl missing ↦ rw missing v
      | inr given ↦ elim (Bool-cases (e.price == 0)) [ inl p ↦ ground arith | inr p ↦ ground arith ]
    ]

pub decrement_order-Balanced :
    (b : L3Book) (ts id qty : ℕ) (policy : UnknownOrderPolicy)
    → Balanced b
    → Balanced (decrement_order b ts id qty policy).0
unfolding decrement_order
decrement_order-Balanced b ts id qty policy v = elim (Option-cases (lookup id b.orders)) [
  | inl h ↦
      rw (decrement_order, h)
        (subst Balanced (sym (unknown_order_book b policy (BookError.trade_unknown_order id))) v)
  | inr (o, h) ↦
      rw (decrement_order, h)
        (reduce_order-Balanced b ts id (taken_qty qty o.qty) o v h (taken_qty-le qty o.qty))
]

pub on_order_cancel-Balanced :
    (b : L3Book) (ts : ℕ) (e : L3Event) (policy : UnknownOrderPolicy)
    → Balanced b
    → Balanced (on_order_cancel b ts e policy).0
unfolding on_order_cancel
on_order_cancel-Balanced b ts e policy v = elim (Bool-cases (e.order_id == 0)) [
  | inl missing ↦ rw missing v
  | inr given ↦ elim (Option-cases (lookup e.order_id b.orders)) [
    | inl h ↦
        rw (given, h)
          (subst Balanced
            (sym (unknown_order_book b policy (BookError.cancel_unknown_order e.order_id))) v)
    | inr (o, h) ↦
        rw (given, h)
          (reduce_order-Balanced b ts e.order_id (taken_qty e.qty o.qty) o v h
            (taken_qty-le e.qty o.qty))
  ]
]

pub on_order_modify-Balanced :
    (b : L3Book) (ts : ℕ) (e : L3Event) (policy : UnknownOrderPolicy)
    → Balanced b
    → bit_and e.flags 1 ≡ 0
    → volume b.orders + e.qty < 2 ^ 64
    → Balanced (on_order_modify b ts e policy).0
unfolding on_order_modify modified take_order
on_order_modify-Balanced b ts e policy v plain room = elim (Bool-cases (e.order_id == 0)) [
  | inl missing ↦ rw missing v
  | inr given ↦ elim (Option-cases (lookup e.order_id b.orders)) [
    | inl h ↦
        rw (given, h)
          (subst Balanced
            (sym (unknown_order_book b policy (BookError.modify_unknown_order e.order_id))) v)
    | inr (old, h) ↦
        let order : L3Order = modified old ts e in
        let all = sum-remove (λ o. o.qty) e.order_id old b.orders v.distinct h in
        rw (given, h)
          (move_level-Balanced (take_order b e.order_id) e old order
            (take-Lifted b e.order_id old v h) plain (ground arith) (λ changed. ground arith) refl
            (λ gone. ground arith))
  ]
]

decrement_then-Balanced :
    (b : L3Book) (ts id qty : ℕ) (policy : UnknownOrderPolicy)
    (rest : L3Book → L3Book × Option BookError)
    → Balanced b
    → ((c : L3Book) → Balanced c → Balanced (rest c).0)
    → Balanced (decrement_then b ts id qty policy rest).0
unfolding decrement_then
decrement_then-Balanced b ts id qty policy rest v next = elim (Bool-cases (id == 0)) [
  | inl missing ↦ rw missing (next b v)
  | inr given ↦
      let c : L3Book = (decrement_order b ts id qty policy).0 in
      let w : Balanced c = decrement_order-Balanced b ts id qty policy v in
      elim (Option-cases (decrement_order b ts id qty policy).1) [
        | inl h ↦ rw (given, h) (next c w)
        | inr (e, h) ↦ rw (given, h) w
      ]
]

-- The third leg of a trade, which is for trades that name neither side.
third_leg-Balanced :
    (b : L3Book) (ts : ℕ) (e : L3Event) (policy : UnknownOrderPolicy)
    → Balanced b
    → Balanced
        (if e.bid_order_id == 0
          then (if e.ask_order_id == 0
              then decrement_then b ts e.order_id e.qty policy (λ c. (c, none))
              else (b, none))
          else (b, none)).0
third_leg-Balanced b ts e policy v =
    let w = decrement_then-Balanced b ts e.order_id e.qty policy (λ c. (c, none)) v (λ c u. u) in
    elim (Bool-cases (e.bid_order_id == 0)) [
      | inr bid ↦ rw bid v
      | inl no_bid ↦ elim (Bool-cases (e.ask_order_id == 0)) [
        | inr ask ↦ rw (no_bid, ask) v
        | inl no_ask ↦ rw (no_bid, no_ask) w
      ]
    ]

pub on_trade-Balanced :
    (b : L3Book) (ts : ℕ) (e : L3Event) (policy : UnknownOrderPolicy)
    → Balanced b
    → Balanced (on_trade b ts e policy).0
unfolding on_trade
on_trade-Balanced b ts e policy v =
    decrement_then-Balanced b ts e.bid_order_id e.qty policy _ v (λ b' v'.
      decrement_then-Balanced b' ts e.ask_order_id e.qty policy _ v'
        (λ b'' v''. third_leg-Balanced b'' ts e policy v''))

-- A book whose levels show exactly what rests in them stays so under every event, an event that
-- fails included: as long as no event prices an order at market, an added id is new, and the
-- quantities do not reach the 64-bit bound at which the code's sums stop.
pub apply_event-Balanced :
    (b : L3Book) (ts : ℕ) (e : L3Event) (policy : UnknownOrderPolicy)
    → Balanced b
    → bit_and e.flags 1 ≡ 0
    → (e.event_type ≡ 1 → lookup e.order_id b.orders ≡ none)
    → volume b.orders + e.qty < 2 ^ 64
    → Balanced (apply_event b ts e policy).0
unfolding apply_event
apply_event-Balanced b₀ ts e policy v₀ plain fresh room =
    let b : L3Book = record b₀ { price_scale = e.price_scale; size_scale = e.size_scale } in
    let v : Balanced b = rescaled-Balanced b₀ e.price_scale e.size_scale v₀ in
    elim (Option-cases (event_kind e.event_type)) [
      | inl h ↦ rw (apply_event, h) v
      | inr (Book.order_add, h) ↦
          rw (apply_event, h)
            (on_order_add-Balanced b ts e v plain (fresh (add_kind e.event_type h)) room)
      | inr (Book.order_cancel, h) ↦ rw (apply_event, h) (on_order_cancel-Balanced b ts e policy v)
      | inr (Book.order_modify, h) ↦
          rw (apply_event, h) (on_order_modify-Balanced b ts e policy v plain room)
      | inr (Book.trade, h) ↦ rw (apply_event, h) (on_trade-Balanced b ts e policy v)
      | inr (Book.reset, h) ↦ rw (apply_event, h) (cleared-Balanced b)
      | inr (Book.heartbeat, h) ↦ rw (apply_event, h) v
    ]
