-- ===== src/Book/Balance.antt =====
-- The levels of a book against its orders: what a level shows is what rests there.
pub mod Steps
pub mod Moves
pub mod Events
use chronicle_rs.Base.{
  ℕ, ◌+◌, ◌-◌, ◌^◌, ◌<◌, ◌≤◌, ◌≡◌, refl, List, [], ◌∷◌, none, some, lookup, insert, remove, ◌==◌,
  if◌then◌else◌, arith, Bool, true, false, lookup-remove,
}
use chronicle_rs.Book.{
  L3Side, unknown, buy, sell, L3Order, Levels, L3Book, on_side, put_level, cut_level, resize_level,
  add_to_level, remove_from_level,
}
use chronicle_rs.Book.Sums.{sum_by, Distinct}
use chronicle_rs.Book.Totals.{total_at, total_at-put, total_at-cut, total_at-resize}

abbrev pub same : L3Side → L3Side → Bool
same buy buy = true
same sell sell = true
same s t = false

abbrev pub levels_of : L3Side → L3Book → Levels
levels_of unknown b = []
levels_of buy b = b.bids
levels_of sell b = b.asks

-- What an order adds to the level of a side at a price: an order without a price is in no level.
unfoldable pub resting : L3Side → ℕ → L3Order → ℕ
resting s p o =
    if p == 0 then 0 else if same s o.side then (if o.price == p then o.qty else 0) else 0

-- The quantity of all orders.
abbrev pub volume : List (ℕ × L3Order) → ℕ
volume m = sum_by (λ o. o.qty) m

-- Each level shows the sum of the quantities of the orders that rest in it.
pub record Balanced (b : L3Book) : Type 0 where
  pub distinct : Distinct b.orders
  pub totals : (s : L3Side) (p : ℕ) → total_at p (levels_of s b) ≡ sum_by (resting s p) b.orders

pub resting-le : (s : L3Side) (p : ℕ) (m : List (ℕ × L3Order)) → sum_by (resting s p) m ≤ volume m
unfolding resting
resting-le s p [] = omega arith
resting-le s p ((k, o) ∷ m) = ground (arith, resting-le s p m)

pub shown-on_side :
    (s t : L3Side) (f : Levels → Levels) (b : L3Book)
    → levels_of s (on_side t f b) ≡ (if same s t then f (levels_of s b) else levels_of s b)
unfolding on_side
shown-on_side unknown unknown f b = refl
shown-on_side unknown buy f b = refl
shown-on_side unknown sell f b = refl
shown-on_side buy unknown f b = refl
shown-on_side buy buy f b = refl
shown-on_side buy sell f b = refl
shown-on_side sell unknown f b = refl
shown-on_side sell buy f b = refl
shown-on_side sell sell f b = refl

pub shown-add :
    (s t : L3Side) (p q id n : ℕ) (b : L3Book)
    → total_at q (levels_of s b) + n < 2 ^ 64
    → total_at p (levels_of s (add_to_level b t q id n))
      ≡ total_at p (levels_of s b) + (if same s t then (if q == p then n else 0) else 0)
unfolding add_to_level
shown-add s t p q id n b h =
    ground (arith, shown-on_side s t (put_level q id n) b, total_at-put p q id n (levels_of s b))

pub shown-remove :
    (s t : L3Side) (p q id n : ℕ) (b : L3Book)
    → total_at p (levels_of s (remove_from_level b t q id n))
      ≡ total_at p (levels_of s b) - (if same s t then (if q == p then n else 0) else 0)
unfolding remove_from_level
shown-remove s t p q id n b =
    ground (arith, shown-on_side s t (cut_level q id n) b, total_at-cut p q id n (levels_of s b))

pub shown-resize :
    (s t : L3Side) (p q old n : ℕ) (b : L3Book)
    → (same s t ≡ true → old ≤ total_at q (levels_of s b))
    → total_at q (levels_of s b) + n < 2 ^ 64
    → total_at p (levels_of s (on_side t (resize_level q old n) b))
      ≡ total_at p (levels_of s b)
        + (if same s t then (if q == p then n else 0) else 0)
        - (if same s t then (if q == p then old else 0) else 0)
shown-resize s t p q old n b h room =
    ground
      (arith, shown-on_side s t (resize_level q old n) b, total_at-resize p q old n (levels_of s b))
