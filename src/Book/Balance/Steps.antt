-- ===== src/Book/Balance/Steps.antt =====
-- What the parts of the handlers leave of the orders and of the levels, and the balance of a book
-- after a reduction, an addition and a modification of an order.
use chronicle_rs.Base.{
  ℕ, ◌+◌, ◌-◌, ◌≤◌, ◌≡◌, refl, sym, ap, ◌∙◌, subst, List, [], ◌∷◌, none, some, lookup, ◌==◌,
  if◌then◌else◌, arith, lookup-remove, Bool-cases, inl, inr,
}
use chronicle_rs.Book.{
  L3Side, unknown, buy, sell, L3Order, Levels, L3Book, on_side, put_level, cut_level, add_to_level,
  remove_from_level, put_order, take_order, reduce_order,
}
use chronicle_rs.Book.Sums.{
  sum_by, Distinct, sum-insert, sum-remove, insert-Distinct, remove-Distinct,
}
use chronicle_rs.Book.Totals.{total_at}
use chronicle_rs.Book.Balance.{same, levels_of, resting, Balanced, shown-remove}

pub orders-on_side :
    (t : L3Side) (f : Levels → Levels) (b : L3Book) → (on_side t f b).orders ≡ b.orders
unfolding on_side
orders-on_side unknown f b = refl
orders-on_side buy f b = refl
orders-on_side sell f b = refl

pub orders-add :
    (b : L3Book) (t : L3Side) (q id n : ℕ) → (add_to_level b t q id n).orders ≡ b.orders
unfolding add_to_level
orders-add b t q id n = orders-on_side t (put_level q id n) b

pub orders-remove :
    (b : L3Book) (t : L3Side) (q id n : ℕ) → (remove_from_level b t q id n).orders ≡ b.orders
unfolding remove_from_level
orders-remove b t q id n = orders-on_side t (cut_level q id n) b

levels-put_order :
    (s : L3Side) (b : L3Book) (k : ℕ) (o : L3Order) → levels_of s (put_order b k o) ≡ levels_of s b
unfolding put_order
levels-put_order unknown b k o = refl
levels-put_order buy b k o = refl
levels-put_order sell b k o = refl

levels-take_order : (s : L3Side) (b : L3Book) (k : ℕ) → levels_of s (take_order b k) ≡ levels_of s b
unfolding take_order
levels-take_order unknown b k = refl
levels-take_order buy b k = refl
levels-take_order sell b k = refl

-- A book without the order `id`, whose levels still show it, and which gets it back changed.
pub record Lifted (b : L3Book) (id : ℕ) (o : L3Order) : Type 0 where
  pub distinct : Distinct b.orders
  pub absent : lookup id b.orders ≡ none
  pub totals :
      (s : L3Side) (p : ℕ)
      → total_at p (levels_of s b) ≡ resting s p o + sum_by (resting s p) b.orders

pub take-Lifted :
    (b : L3Book) (id : ℕ) (o : L3Order)
    → Balanced b
    → lookup id b.orders ≡ some o
    → Lifted (take_order b id) id o
unfolding take_order
take-Lifted b id o v h = record {
  distinct = remove-Distinct id b.orders v.distinct;
  absent = ground (arith, lookup-remove id id b.orders);
  totals = λ s p.
      ap (total_at p) (levels-take_order s b id)
      ∙ v.totals s p
      ∙ sum-remove (resting s p) id o b.orders v.distinct h;
}

-- The book balances again when the levels show the changed order in place of the old one.
pub put-Balanced :
    (b c : L3Book) (id : ℕ) (o o' : L3Order)
    → Lifted b id o
    → c.orders ≡ b.orders
    → ((s : L3Side) (p : ℕ)
        → total_at p (levels_of s c) + resting s p o ≡ total_at p (levels_of s b) + resting s p o')
    → Balanced (put_order c id o')
unfolding put_order
put-Balanced b c id o o' v e moved =
    let absent : lookup id c.orders ≡ none = rw e v.absent in
    record {
      distinct = insert-Distinct id o' c.orders absent (subst Distinct (sym e) v.distinct);
      totals = λ s p.
          ap (total_at p) (levels-put_order s c id o')
          ∙ omega (
            arith,
            moved s p,
            v.totals s p,
            sum-insert (resting s p) id o' c.orders absent,
            ap (sum_by (resting s p)) e,
          );
    }

-- An order that leaves the book leaves its level as well.
pub drop-Balanced :
    (b c : L3Book) (id : ℕ) (o : L3Order)
    → Lifted b id o
    → c.orders ≡ b.orders
    → ((s : L3Side) (p : ℕ)
        → total_at p (levels_of s c) + resting s p o ≡ total_at p (levels_of s b))
    → Balanced c
drop-Balanced b c id o v e moved = record {
  distinct = subst Distinct (sym e) v.distinct;
  totals = λ s p. omega (arith, moved s p, v.totals s p, ap (sum_by (resting s p)) e);
}

-- No order rests at price 0.
pub resting_zero : (s : L3Side) (m : List (ℕ × L3Order)) → sum_by (resting s 0) m ≡ 0
unfolding resting
resting_zero s [] = refl
resting_zero s ((k, o) ∷ m) = omega (arith, resting_zero s m)

resting_reduced :
    (s : L3Side) (p n ts : ℕ) (o : L3Order)
    → n ≤ o.qty
    → resting s p (record o { qty = o.qty - n; last_exchange_ts_ns = ts })
        + (if p == 0 then 0 else if same s o.side then (if o.price == p then n else 0) else 0)
      ≡ resting s p o
unfolding resting
resting_reduced s p n ts o h = ground arith

-- The levels after an order lost `n` show what is left of it.
reduced_shown :
    (b : L3Book) (ts id n : ℕ) (o : L3Order) (s : L3Side) (p : ℕ)
    → Lifted b id o
    → n ≤ o.qty
    → total_at p (levels_of s (remove_from_level b o.side o.price id n)) + resting s p o
      ≡ total_at p (levels_of s b)
        + resting s p (record o { qty = o.qty - n; last_exchange_ts_ns = ts })
unfolding resting
reduced_shown b ts id n o s p l h =
    ground (arith, shown-remove s o.side p o.price id n b, l.totals s p, resting_zero s b.orders)

resting_gone : (s : L3Side) (p : ℕ) (o : L3Order) → o.qty ≡ 0 → resting s p o ≡ 0
unfolding resting
resting_gone s p o h = ground arith

pub reduce_order-Balanced :
    (b : L3Book) (ts id n : ℕ) (o : L3Order)
    → Balanced b
    → lookup id b.orders ≡ some o
    → n ≤ o.qty
    → Balanced (reduce_order b ts id o n)
unfolding reduce_order
reduce_order-Balanced b ts id n o v h le =
    let o' : L3Order = record o { qty = o.qty - n; last_exchange_ts_ns = ts } in
    let b' : L3Book = take_order b id in
    let c : L3Book = remove_from_level b' o.side o.price id n in
    let l : Lifted b' id o = take-Lifted b id o v h in
    let e : c.orders ≡ b'.orders = orders-remove b' o.side o.price id n in
    let moved : (s : L3Side) (p : ℕ)
        → total_at p (levels_of s c) + resting s p o
          ≡ total_at p (levels_of s b') + resting s p o' =
      λ s p. reduced_shown b' ts id n o s p l le in
    elim (Bool-cases (o'.qty == 0)) [
      | inl gone ↦ rw gone (
          drop-Balanced b' c id o l e
            (λ s p. omega (arith, moved s p, resting_gone s p o' (ground arith))))
      | inr left ↦ rw left (put-Balanced b' c id o o' l e moved)
    ]
