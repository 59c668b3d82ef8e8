-- ===== src/Replay/View.antt =====
-- The level-2 book as a function from prices to sizes, and what snapshots and diffs do to it.
use chronicle_rs.Base.{
  ℕ, zero, suc, ◌≡◌, refl, List, [], ◌∷◌, Option, none, some, ◌⊎◌, inl, inr, ◌==◌, if◌then◌else◌,
  Bool, false, ◌+◌, ◌/◌, ◌%◌, lookup, insert, remove, lookup-insert, lookup-remove, arith, ◌≢◌,
  Bool-cases,
}
use chronicle_rs.Sequence.{SequenceError}
use chronicle_rs.Protocol.{L2Diff, L2Snapshot, PriceLevelUpdate}
use chronicle_rs.Replay.L2.{
  L2Book, insert_levels, update_levels, apply_snapshot, apply_diff, bids_iter, asks_iter,
}
use chronicle_rs.Replay.{
  AppliedMessage, BookEvent, BookEventPayload, snapshot_event, diff_event, reset_event,
  heartbeat_event, unsupported_payload,
}

-- The abstract book: the size that rests at each price, 0 for none, and nothing of how it is kept.
pub record L2View : Type 0 where
  pub bids : ℕ → ℕ
  pub asks : ℕ → ℕ

-- The last size that the updates give for a price.
unfoldable pub given : List PriceLevelUpdate → ℕ → Option ℕ
given [] price = none
given (l ∷ ls) price = elim (given ls price) [
  | some size ↦ some size
  | none ↦ if l.price == price then some l.size else none
]

unfoldable pub nonempty : List PriceLevelUpdate → List PriceLevelUpdate
nonempty [] = []
nonempty (l ∷ ls) = if l.size == 0 then nonempty ls else l ∷ nonempty ls

unfoldable pub or_else : Option ℕ → ℕ → ℕ
or_else none size = size
or_else (some size) other = size

-- The sizes that the updates give for a price, added up.
unfoldable pub given_sum : List PriceLevelUpdate → ℕ → ℕ
given_sum [] price = 0
given_sum (l ∷ ls) price = (if l.price == price then l.size else 0) + given_sum ls price

-- The flag `DELTA`, of value 2.
unfoldable pub is_delta : L2Diff → Bool
is_delta d = d.flags / 2 % 2 == 1

-- A snapshot shows the sizes that it gives, apart from zeros, and nothing else; a diff replaces
-- the sizes for which it gives one, or, with the flag `DELTA`, adds to them
-- (docs/DESIGN-research.md).
unfoldable pub after_event : L2View → BookEventPayload → L2View
after_event v (snapshot_event s levels) = record {
  bids = λ price. or_else (given (nonempty (bids_iter levels)) price) 0;
  asks = λ price. or_else (given (nonempty (asks_iter levels)) price) 0;
}
after_event v (diff_event d levels) =
    if is_delta d
    then record {
      bids = λ price. v.bids price + given_sum (bids_iter levels) price;
      asks = λ price. v.asks price + given_sum (asks_iter levels) price;
    }
    else record {
      bids = λ price. or_else (given (bids_iter levels) price) (v.bids price);
      asks = λ price. or_else (given (asks_iter levels) price) (v.asks price);
    }
after_event v reset_event = v
after_event v heartbeat_event = v
after_event v unsupported_payload = v

-- What a reported result does to the abstract book.
unfoldable pub after_result : L2View → SequenceError ⊎ AppliedMessage → L2View
after_result v (inl failure) = v
after_result v (inr done) = elim done.book_event [ none ↦ v | some e ↦ after_event v e.payload ]

abbrev PayloadReplaces : BookEventPayload → Type 0
PayloadReplaces (diff_event d levels) = is_delta d ≡ false
PayloadReplaces (snapshot_event s levels) = Unit
PayloadReplaces reset_event = Unit
PayloadReplaces heartbeat_event = Unit
PayloadReplaces unsupported_payload = Unit

abbrev EventReplaces : Option BookEvent → Type 0
EventReplaces none = Unit
EventReplaces (some e) = PayloadReplaces e.payload

-- A diff that is reported does not have the flag `DELTA`.
abbrev pub Replaces : SequenceError ⊎ AppliedMessage → Type 0
Replaces (inl failure) = Unit
Replaces (inr done) = EventReplaces done.book_event

abbrev shown : ℕ → Option ℕ
shown zero = none
shown (suc n) = some (suc n)

-- A side of the book holds the sizes of the view, and no level that is empty.
abbrev pub Shows : List (ℕ × ℕ) → (ℕ → ℕ) → Type 0
Shows side sizes = (price : ℕ) → lookup price side ≡ shown (sizes price)

pub record Refines (book : L2Book) (view : L2View) : Type 0 where
  pub bids_shown : Shows book.bids view.bids
  pub asks_shown : Shows book.asks view.asks

update_step :
    (side : List (ℕ × ℕ)) (sizes : ℕ → ℕ) (l : PriceLevelUpdate)
    → Shows side sizes
    → Shows
        (if l.size == 0 then remove l.price side else insert l.price l.size side)
        (λ price. if l.price == price then l.size else sizes price)
update_step side sizes l h price =
    ground
      (arith, h price, lookup-remove l.price price side, lookup-insert l.price price l.size side)

insert_step :
    (side : List (ℕ × ℕ)) (sizes : ℕ → ℕ) (l : PriceLevelUpdate)
    → l.size ≢ 0
    → Shows side sizes
    → Shows (insert l.price l.size side) (λ price. if l.price == price then l.size else sizes price)
insert_step side sizes l n h price =
    ground (arith, h price, lookup-insert l.price price l.size side)

update_levels-Shows :
    (side : List (ℕ × ℕ)) (sizes : ℕ → ℕ) (ls : List PriceLevelUpdate)
    → Shows side sizes
    → Shows (update_levels side ls) (λ price. or_else (given ls price) (sizes price))
unfolding update_levels given or_else
update_levels-Shows side sizes [] h price = h price
update_levels-Shows side sizes (l ∷ ls) h price =
    let sizes' : ℕ → ℕ = λ q. if l.price == q then l.size else sizes q in
    let side' : List (ℕ × ℕ) =
      if l.size == 0 then remove l.price side else insert l.price l.size side in
    ground (arith, update_levels-Shows side' sizes' ls (update_step side sizes l h) price)

insert_levels-Shows :
    (side : List (ℕ × ℕ)) (sizes : ℕ → ℕ) (ls : List PriceLevelUpdate)
    → Shows side sizes
    → Shows (insert_levels side ls) (λ price. or_else (given (nonempty ls) price) (sizes price))
unfolding insert_levels given nonempty or_else
insert_levels-Shows side sizes [] h price = h price
insert_levels-Shows side sizes (l ∷ ls) h price = elim (Bool-cases (l.size == 0)) [
  | inl none_left ↦ rw none_left (insert_levels-Shows side sizes ls h price)
  | inr some_left ↦
      let sizes' : ℕ → ℕ = λ q. if l.price == q then l.size else sizes q in
      let side' : List (ℕ × ℕ) = insert l.price l.size side in
      rw some_left (
        ground (
          arith,
          insert_levels-Shows side' sizes' ls (insert_step side sizes l (ground arith) h) price,
        ))
]

pub apply_snapshot-Refines :
    (book : L2Book) (s : L2Snapshot) (bids asks : List PriceLevelUpdate)
    → Refines (apply_snapshot book s bids asks) (record {
      bids = λ price. or_else (given (nonempty bids) price) 0;
      asks = λ price. or_else (given (nonempty asks) price) 0;
    })
unfolding apply_snapshot lookup
apply_snapshot-Refines book s bids asks = record {
  bids_shown = insert_levels-Shows [] (λ _. 0) bids (λ _. refl);
  asks_shown = insert_levels-Shows [] (λ _. 0) asks (λ _. refl);
}

pub apply_diff-Refines :
    (book : L2Book) (view : L2View) (d : L2Diff) (bids asks : List PriceLevelUpdate)
    → Refines book view
    → Refines (apply_diff book d bids asks) (record {
      bids = λ price. or_else (given bids price) (view.bids price);
      asks = λ price. or_else (given asks price) (view.asks price);
    })
unfolding apply_diff
apply_diff-Refines book view d bids asks r = record {
  bids_shown = update_levels-Shows book.bids view.bids bids r.bids_shown;
  asks_shown = update_levels-Shows book.asks view.asks asks r.asks_shown;
}
