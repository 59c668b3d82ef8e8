-- ===== src/FanIn/Order.antt =====
-- The order of the merge: the earliest pending message, and of equals the first source's.
use chronicle_rs.Base.{
  ℕ, zero, suc, ◌+◌, ◌<◌, ◌≤◌, ◌≡◌, refl, subst, List, [], ◌∷◌, Option, none, some, Result, ok, ◌⊎◌,
  inl, inr, get_elem?, set, arith, ltb, ◌==◌, ◌||◌, ◌&&◌, if◌then◌else◌, Bool, Bool-cases,
}
use chronicle_rs.FanIn.{PendingMessage, select_from, FanInReader, take_earliest}

-- By timestamp, then by index.
abbrev pub Before : ℕ × ℕ → ℕ × ℕ → Type 0
Before (i, s) (j, t) = (s < t) ⊎ ((s ≡ t) × (i ≤ j))

-- The best so far is at most `x`.
abbrev pub Beats : Option (ℕ × ℕ) → ℕ × ℕ → Type 0
Beats none x = ⊥
Beats (some b) x = Before b x

select_keeps :
    (pending : List (Option PendingMessage)) (index : ℕ) (b x : ℕ × ℕ)
    → Before b x
    → Beats (select_from index (some b) pending) x
unfolding select_from
select_keeps [] index b x h = h
select_keeps (none ∷ pending) index b x h = select_keeps pending (index + 1) b x h
select_keeps (some msg ∷ pending) index (i, t) (j, u) h =
    elim (Bool-cases (ltb msg.timestamp_ns t || ((msg.timestamp_ns == t) && ltb index i))) [
      | inl wins ↦
          rw wins (select_keeps pending (index + 1) (index, msg.timestamp_ns) (j, u) (ground arith))
      | inr loses ↦ rw loses (select_keeps pending (index + 1) (i, t) (j, u) h)
    ]

-- Each pending message is beaten by the choice, or is the choice.
select-Beats :
    (pending : List (Option PendingMessage)) (index j : ℕ) (best : Option (ℕ × ℕ))
    (msg : PendingMessage)
    → get_elem? pending j ≡ some (some msg)
    → Beats (select_from index best pending) (index + j, msg.timestamp_ns)
unfolding select_from
select-Beats [] index j best msg h = absurd (ground arith)
select-Beats (none ∷ pending) index zero best msg h = absurd (ground arith)
select-Beats (none ∷ pending) index (suc j) best msg h =
    let shift : index + 1 + j ≡ index + suc j = omega arith in
    subst (λ k. Beats (select_from (index + 1) best pending) (k, msg.timestamp_ns)) shift
      (select-Beats pending (index + 1) j best msg h)
select-Beats (some m ∷ pending) index zero none msg h =
    select_keeps pending (index + 1) (index, m.timestamp_ns) (index + 0, msg.timestamp_ns)
      (ground arith)
select-Beats (some m ∷ pending) index zero (some (i, t)) msg h =
    elim (Bool-cases (ltb m.timestamp_ns t || ((m.timestamp_ns == t) && ltb index i))) [
      | inl wins ↦ rw wins (
          select_keeps pending (index + 1) (index, m.timestamp_ns) (index + 0, msg.timestamp_ns)
            (ground arith))
      | inr loses ↦
          rw loses
            (select_keeps pending (index + 1) (i, t) (index + 0, msg.timestamp_ns) (ground arith))
    ]
select-Beats (some m ∷ pending) index (suc j) none msg h =
    let shift : index + 1 + j ≡ index + suc j = omega arith in
    subst
      (λ k.
        Beats (select_from (index + 1) (some (index, m.timestamp_ns)) pending)
          (k, msg.timestamp_ns))
      shift (select-Beats pending (index + 1) j (some (index, m.timestamp_ns)) msg h)
select-Beats (some m ∷ pending) index (suc j) (some (i, t)) msg h =
    let shift : index + 1 + j ≡ index + suc j = omega arith in
    let best : Option (ℕ × ℕ) =
      if ltb m.timestamp_ns t || ((m.timestamp_ns == t) && ltb index i)
      then some (index, m.timestamp_ns)
      else some (i, t) in
    subst (λ k. Beats (select_from (index + 1) best pending) (k, msg.timestamp_ns)) shift
      (select-Beats pending (index + 1) j best msg h)

-- The choice is a pending message, or the best there was before.
abbrev Found : List (Option PendingMessage) → ℕ → ℕ × ℕ → Type 0
Found pending index (i, t) =
    (j : ℕ) × (msg : PendingMessage) × (get_elem? pending j ≡ some (some msg))
    × (i ≡ index + j)
    × (t ≡ msg.timestamp_ns)

Found-later :
    (pending : List (Option PendingMessage)) (o : Option PendingMessage) (index : ℕ) (c : ℕ × ℕ)
    → Found pending (index + 1) c
    → Found (o ∷ pending) index c
Found-later pending o index (i, t) (j, msg, h, e, f) = (suc j, msg, h, omega arith, f)

select-Found :
    (pending : List (Option PendingMessage)) (index : ℕ) (best : Option (ℕ × ℕ)) (c : ℕ × ℕ)
    → select_from index best pending ≡ some c
    → (best ≡ some c) ⊎ Found pending index c
unfolding select_from
select-Found [] index best c h = inl h
select-Found (none ∷ pending) index best c h = elim (select-Found pending (index + 1) best c h) [
  | inl e ↦ inl e
  | inr f ↦ inr (Found-later pending none index c f)
]
select-Found (some m ∷ pending) index none (i, t) h =
    elim (select-Found pending (index + 1) (some (index, m.timestamp_ns)) (i, t) h) [
      | inl e ↦ inr (zero, m, refl, ground arith, ground arith)
      | inr f ↦ inr (Found-later pending (some m) index (i, t) f)
    ]
select-Found (some m ∷ pending) index (some (b, u)) (i, t) h =
    let wins : Bool = ltb m.timestamp_ns u || ((m.timestamp_ns == u) && ltb index b) in
    elim (select-Found pending (index + 1)
      (if wins then some (index, m.timestamp_ns) else some (b, u)) (i, t) h) [
        | inr f ↦ inr (Found-later pending (some m) index (i, t) f)
        | inl e ↦ elim (Bool-cases wins) [
          | inl w ↦ inr (zero, m, refl, ground arith, ground arith)
          | inr w ↦ inl (ground arith)
        ]
      ]

chosen : (o : Option (ℕ × ℕ)) (x : ℕ × ℕ) → Beats o x → (c : ℕ × ℕ) × (o ≡ some c)
chosen none x h = absurd h
chosen (some c) x h = (c, refl)

module _ (Source : Type 0) (recv : Source → Result (Option PendingMessage) × Source) where
  take_lem :
      (r : FanInReader Source recv) (i t : ℕ) (msg : PendingMessage)
      → select_from 0 none r.pending ≡ some (i, t)
      → get_elem? r.pending i ≡ some (some msg)
      → take_earliest Source recv r ≡ (
        ok (some (record { source = i; message = msg })),
        record r { pending = set r.pending i none },
      )
  unfolding take_earliest
  take_lem r i t msg h k = rw (take_earliest, h, k) refl

  -- When a message is pending, one is returned and taken out: the one with the least timestamp, and
  -- of those with that timestamp the one of the first source.
  pub take_earliest-least :
      (r : FanInReader Source recv) (j : ℕ) (msg : PendingMessage)
      → get_elem? r.pending j ≡ some (some msg)
      → (i : ℕ) × (best : PendingMessage) × (take_earliest Source recv r ≡ (
        ok (some (record { source = i; message = best })),
        record r { pending = set r.pending i none },
      ))
        × ((k : ℕ) (other : PendingMessage)
            → get_elem? r.pending k ≡ some (some other)
            → Before (i, best.timestamp_ns) (k, other.timestamp_ns))
  take_earliest-least r j msg h =
      let ((i, t), found) =
        chosen (select_from 0 none r.pending) (0 + j, msg.timestamp_ns)
          (select-Beats r.pending 0 j none msg h) in
      elim (select-Found r.pending 0 none (i, t) found) [
        | inl e ↦ absurd (ground arith)
        | inr (k, best, at, same, ts) ↦
            let index : k ≡ i = omega arith in
            let here : get_elem? r.pending i ≡ some (some best) =
              subst (λ n. get_elem? r.pending n ≡ some (some best)) index at in
            (
              i,
              best,
              take_lem r i t best found here,
              λ k' other h'.
                  let start : 0 + k' ≡ k' = omega arith in
                  let beats =
                    subst (λ o. Beats o (0 + k', other.timestamp_ns)) found
                      (select-Beats r.pending 0 k' none other h') in
                  subst (λ u. Before (i, u) (k', other.timestamp_ns)) ts
                    (subst (λ n. Before (i, t) (n, other.timestamp_ns)) start beats),
            )
      ]
