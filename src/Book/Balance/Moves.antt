-- ===== src/Book/Balance/Moves.antt =====
-- The balance of a book after the addition of an order and after a modification.
use Prim.Native.Nat.{bit_and}
use chronicle_rs.Base.{
  ℕ, ◌+◌, ◌^◌, ◌<◌, ◌≤◌, ◌≡◌, ◌≢◌, refl, none, lookup, ◌==◌, if◌then◌else◌, arith, true, Bool-cases,
  inl, inr,
}
use chronicle_rs.Book.{
  L3Side, unknown, buy, sell, L3Order, L3Book, L3Event, on_side, resize_level, add_to_level,
  remove_from_level, put_order, move_level, off_levels,
}
use chronicle_rs.Book.Totals.{total_at}
use chronicle_rs.Book.Balance.{
  same, levels_of, resting, volume, Balanced, resting-le, shown-add, shown-remove, shown-resize,
}
use chronicle_rs.Book.Balance.Steps.{
  Lifted, put-Balanced, resting_zero, orders-add, orders-remove, orders-on_side,
}

-- A level shows at most the quantity of all orders.
total-le :
    (b : L3Book) (id : ℕ) (o : L3Order) (s : L3Side) (p : ℕ)
    → Lifted b id o
    → total_at p (levels_of s b) ≤ resting s p o + volume b.orders
total-le b id o s p l = omega (arith, l.totals s p, resting-le s p b.orders)

add-put_order :
    (b : L3Book) (t : L3Side) (q id n : ℕ) (o : L3Order)
    → add_to_level (put_order b id o) t q id n ≡ put_order (add_to_level b t q id n) id o
unfolding add_to_level put_order on_side
add-put_order b unknown q id n o = refl
add-put_order b buy q id n o = refl
add-put_order b sell q id n o = refl

resting_none : (s : L3Side) (p : ℕ) (o : L3Order) → resting s p (record o { qty = 0 }) ≡ 0
unfolding resting
resting_none s p o = ground arith

new-Lifted :
    (b : L3Book) (id : ℕ) (o : L3Order)
    → Balanced b
    → lookup id b.orders ≡ none
    → Lifted b id (record o { qty = 0 })
new-Lifted b id o v h = record {
  distinct = v.distinct;
  absent = h;
  totals = λ s p. omega (arith, v.totals s p, resting_none s p o);
}

unpriced : (s : L3Side) (p : ℕ) (o : L3Order) → o.price ≡ 0 → resting s p o ≡ 0
unfolding resting
unpriced s p o h = ground arith

added_shown :
    (b : L3Book) (id n : ℕ) (old order : L3Order) (s : L3Side) (p : ℕ)
    → total_at order.price (levels_of s b) + order.qty < 2 ^ 64
    → order.price ≢ 0
    → total_at p (levels_of s (add_to_level b order.side order.price id order.qty))
      ≡ total_at p (levels_of s b) + resting s p order
unfolding resting
added_shown b id n old order s p room h =
    ground (arith, shown-add s order.side p order.price id order.qty b)

pub add_order-Balanced :
    (b : L3Book) (id : ℕ) (o : L3Order)
    → Balanced b
    → lookup id b.orders ≡ none
    → volume b.orders + o.qty < 2 ^ 64
    → Balanced (
        if o.price == 0
        then put_order b id o
        else add_to_level (put_order b id o) o.side o.price id o.qty)
add_order-Balanced b id o v h room =
    let old : L3Order = record o { qty = 0 } in
    let l : Lifted b id old = new-Lifted b id o v h in
    let c : L3Book = add_to_level b o.side o.price id o.qty in
    elim (Bool-cases (o.price == 0)) [
      | inl e ↦ rw e (
          put-Balanced b b id old o l refl
            (λ s p. omega (arith, resting_none s p o, unpriced s p o (ground arith))))
      | inr e ↦
          rw (e, add-put_order b o.side o.price id o.qty o)
            (put-Balanced b c id old o l (orders-add b o.side o.price id o.qty) (λ s p. omega (
              arith,
              resting_none s p o,
              added_shown b id o.qty old o s p
                  (omega (arith, total-le b id old s o.price l, resting_none s o.price o))
                  (ground arith),
            )))
    ]

-- The level of an order that leaves it.
removed_shown :
    (b : L3Book) (id : ℕ) (old : L3Order) (s : L3Side) (p : ℕ)
    → Lifted b id old
    → total_at p (levels_of s (remove_from_level b old.side old.price id old.qty)) + resting s p old
      ≡ total_at p (levels_of s b)
unfolding resting
removed_shown b id old s p l =
    ground (
      arith,
      shown-remove s old.side p old.price id old.qty b,
      l.totals s p,
      resting_zero s b.orders,
    )

-- The levels of a priced order that moves to another price.
moved_shown :
    (b : L3Book) (id : ℕ) (old order : L3Order) (s : L3Side) (p : ℕ)
    → Lifted b id old
    → volume b.orders + order.qty < 2 ^ 64
    → order.price ≢ 0
    → total_at p (
          levels_of s (
            add_to_level
              (remove_from_level b old.side old.price id old.qty)
              order.side
              order.price
              id
              order.qty))
        + resting s p old
      ≡ total_at p (levels_of s b) + resting s p order
moved_shown b id old order s p l room h =
    let c : L3Book = remove_from_level b old.side old.price id old.qty in
    let small : total_at order.price (levels_of s c) + order.qty < 2 ^ 64 = omega (
      arith,
      removed_shown b id old s order.price l,
      l.totals s order.price,
      resting-le s order.price b.orders,
    ) in
    omega (arith, removed_shown b id old s p l, added_shown c id order.qty old order s p small h)

-- The levels of an order whose quantity changes where it rests.
resized_shown :
    (b : L3Book) (id : ℕ) (old order : L3Order) (s : L3Side) (p : ℕ)
    → Lifted b id old
    → old.qty + volume b.orders + order.qty < 2 ^ 64
    → order.price ≢ 0
    → order.side ≡ old.side
    → old.price ≡ order.price
    → total_at p (levels_of s (on_side order.side (resize_level order.price old.qty order.qty) b))
        + resting s p old
      ≡ total_at p (levels_of s b) + resting s p order
unfolding resting
resized_shown b id old order s p l room h side price =
    let small : total_at order.price (levels_of s b) + order.qty < 2 ^ 64 =
      ground (arith, l.totals s order.price, resting-le s order.price b.orders) in
    let shown : same s order.side ≡ true → old.qty ≤ total_at order.price (levels_of s b) =
      λ e. ground (arith, l.totals s order.price) in
    ground
      (arith, shown-resize s order.side p order.price old.qty order.qty b shown small, l.totals s p)

orders-move :
    (b : L3Book) (e : L3Event) (old order : L3Order) → (move_level b e old order).orders ≡ b.orders
unfolding move_level
orders-move b e old order =
    let c : L3Book = remove_from_level b old.side old.price e.order_id old.qty in
    ground (
      arith,
      orders-remove b old.side old.price e.order_id old.qty,
      orders-add c order.side order.price e.order_id order.qty,
      orders-on_side order.side (resize_level order.price old.qty order.qty) b,
    )

same_resting :
    (s : L3Side) (p : ℕ) (old order : L3Order)
    → order.side ≡ old.side
    → old.price ≡ order.price
    → old.qty ≡ order.qty
    → resting s p old ≡ resting s p order
unfolding resting
same_resting s p old order side price qty = rw (side, price, qty) refl

move_shown :
    (b : L3Book) (e : L3Event) (old order : L3Order) (s : L3Side) (p : ℕ)
    → Lifted b e.order_id old
    → bit_and e.flags 1 ≡ 0
    → volume b.orders + order.qty < 2 ^ 64
    → (old.qty ≢ order.qty → old.qty + volume b.orders + order.qty < 2 ^ 64)
    → order.side ≡ old.side
    → (order.price ≡ 0 → old.price ≡ 0)
    → total_at p (levels_of s (move_level b e old order)) + resting s p old
      ≡ total_at p (levels_of s b) + resting s p order
unfolding move_level off_levels
move_shown b e old order s p l plain room room' side unpriced_too =
    elim (Bool-cases (order.price == 0)) [
      | inl none_left ↦
          ground (arith, unpriced s p order, unpriced s p old, removed_shown b e.order_id old s p l)
      | inr priced ↦
          let h : order.price ≢ 0 = ground arith in
          elim (Bool-cases (old.price == order.price)) [
            | inr differ ↦ ground (arith, moved_shown b e.order_id old order s p l room h)
            | inl stays ↦ elim (Bool-cases (old.qty == order.qty)) [
              | inl equal ↦
                  ground (arith, same_resting s p old order side (ground arith) (ground arith))
              | inr changed ↦ ground (
                arith,
                resized_shown b e.order_id old order s p l (room' (ground arith)) h side
                    (ground arith),
              )
            ]
          ]
    ]

pub move_level-Balanced :
    (b : L3Book) (e : L3Event) (old order : L3Order)
    → Lifted b e.order_id old
    → bit_and e.flags 1 ≡ 0
    → volume b.orders + order.qty < 2 ^ 64
    → (old.qty ≢ order.qty → old.qty + volume b.orders + order.qty < 2 ^ 64)
    → order.side ≡ old.side
    → (order.price ≡ 0 → old.price ≡ 0)
    → Balanced (put_order (move_level b e old order) e.order_id order)
move_level-Balanced b e old order l plain room room' side unpriced_too =
    put-Balanced b (move_level b e old order) e.order_id old order l (orders-move b e old order)
      (λ s p. move_shown b e old order s p l plain room room' side unpriced_too)
