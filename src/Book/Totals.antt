-- ===== src/Book/Totals.antt =====
-- The quantity that a side's levels show at a price, under each change of a level.
use chronicle_rs.Base.{
  ℕ, ◌+◌, ◌-◌, ◌^◌, ◌<◌, ◌≤◌, ◌≡◌, none, some, lookup, insert, remove, lookup-insert, lookup-remove,
  ◌==◌, if◌then◌else◌, arith, ltb, Option-cases, inl, inr,
}
use chronicle_rs.Book.{
  Levels, PriceLevel, level_add, level_entry, put_level, cut_level, resize_level, remove_qty,
  saturating_add,
}

-- The total quantity shown at a price: a missing level shows none.
unfoldable pub total_at : ℕ → Levels → ℕ
total_at p levels = elim (lookup p levels) [ none ↦ 0 | some l ↦ l.total_qty ]

pub total_at-insert :
    (p q : ℕ) (l : PriceLevel) (levels : Levels)
    → total_at p (insert q l levels) ≡ (if q == p then l.total_qty else total_at p levels)
unfolding total_at
total_at-insert p q l levels = ground (arith, lookup-insert q p l levels)

total_at-remove :
    (p q : ℕ) (levels : Levels)
    → total_at p (remove q levels) ≡ (if q == p then 0 else total_at p levels)
unfolding total_at
total_at-remove p q levels = ground (arith, lookup-remove q p levels)

total-entry : (q : ℕ) (levels : Levels) → (level_entry q levels).total_qty ≡ total_at q levels
unfolding total_at level_entry
total-entry q levels = ground arith

pub total_at-put :
    (p q id n : ℕ) (levels : Levels)
    → total_at q levels + n < 2 ^ 64
    → total_at p (put_level q id n levels)
      ≡ (if q == p then total_at q levels + n else total_at p levels)
unfolding put_level level_add
total_at-put p q id n levels h = ground (
  arith,
  total-entry q levels,
  total_at-insert p q (level_add (level_entry q levels) id n) levels,
)

pub total_at-cut :
    (p q id n : ℕ) (levels : Levels)
    → total_at p (cut_level q id n levels)
      ≡ (if q == p then total_at q levels - n else total_at p levels)
unfolding cut_level remove_qty total_at
total_at-cut p q id n levels = elim (Option-cases (lookup q levels)) [
  | inl h ↦ ground arith
  | inr (l, h) ↦
      ground (arith, lookup-remove q p levels, lookup-insert q p (remove_qty l id n) levels)
]

pub total_at-resize :
    (p q old n : ℕ) (levels : Levels)
    → old ≤ total_at q levels
    → total_at q levels + n < 2 ^ 64
    → total_at p (resize_level q old n levels)
      ≡ (if q == p then total_at q levels + n - old else total_at p levels)
unfolding resize_level
total_at-resize p q old n levels h room =
    let l : PriceLevel = level_entry q levels in
    let l' : PriceLevel = record l {
      total_qty =
          if ltb old n then saturating_add l.total_qty (n - old) else l.total_qty - (old - n);
    } in
    ground (arith, total-entry q levels, total_at-insert p q l' levels)
