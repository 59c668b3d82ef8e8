-- ===== src/FanIn/Tests.antt =====
-- Examples of the merge: three sources, one without a message, two with equal times.
use chronicle_rs.Base.{ℕ, ◌≡◌, refl, List, [], ◌∷◌, Option, none, some, Result, ok, get_elem?, set}
use chronicle_rs.FanIn.{PendingMessage, FanInReader, take_earliest}
use chronicle_rs.FanIn.Order.{Before, take_earliest-least}

-- A source is the list of what it will give.
abbrev pop : List PendingMessage → Result (Option PendingMessage) × List PendingMessage
pop [] = (ok none, [])
pop (m ∷ ms) = (ok (some m), ms)

abbrev at_time : ℕ → PendingMessage
at_time t = record { seq = 0; timestamp_ns = t; type_id = 1; payload = [] }

abbrev three_sources : FanInReader (List PendingMessage) pop
three_sources = record {
  sources = [] ∷ [] ∷ [] ∷ [];
  pending = none ∷ some (at_time 5) ∷ some (at_time 5) ∷ [];
}

take_earliest-least_example :
    (i : ℕ) × (best : PendingMessage) × (take_earliest (List PendingMessage) pop three_sources ≡ (
      ok (some (record { source = i; message = best })),
      record three_sources { pending = set three_sources.pending i none },
    ))
    × ((k : ℕ) (other : PendingMessage)
        → get_elem? three_sources.pending k ≡ some (some other)
        → Before (i, best.timestamp_ns) (k, other.timestamp_ns))
take_earliest-least_example =
    take_earliest-least (List PendingMessage) pop three_sources 2 (at_time 5) refl
