-- ===== src/Queue/Seek/Search.antt =====
-- The binary search for an index entry against the scan over all of them.
use chronicle_rs.Base.{
  ℕ, zero, suc, ◌+◌, ◌-◌, ◌/◌, ◌≤◌, ◌<◌, ◌≡◌, refl, ◌∙◌, sym, List, [], ◌∷◌, Option, none, some,
  false, inl, inr, Bool-cases, All, leb, ltb, ◌==◌, if◌then◌else◌, length, get_elem?, arith,
}
use chronicle_rs.SeekIndex.{SeekIndexEntry}
use chronicle_rs.Queue.Seek.{search_loop, find_entry_by_seq, scan_entries}

-- The sequence numbers do not fall.
abbrev pub IsSorted : List SeekIndexEntry → Type 0
IsSorted [] = Unit
IsSorted (e ∷ es) = All (λ x. e.seq ≤ x.seq) es × IsSorted es

-- How many entries at the front have a number of at most `t`.
unfoldable reach : List SeekIndexEntry → ℕ → ℕ
reach [] t = 0
reach (e ∷ es) t = if leb e.seq t then suc (reach es t) else 0

reach-le : (es : List SeekIndexEntry) (t : ℕ) → reach es t ≤ length es
unfolding reach
reach-le [] t = omega arith
reach-le (e ∷ es) t = ground (arith, reach-le es t)

All-get :
    (k i : ℕ) (es : List SeekIndexEntry) (x : SeekIndexEntry)
    → All (λ y. k ≤ y.seq) es
    → get_elem? es i ≡ some x
    → k ≤ x.seq
All-get k i [] x a h = absurd (cc)
All-get k zero (e ∷ es) x (a, as') h = ground arith
All-get k (suc i) (e ∷ es) x (a, as') h = All-get k i es x as' h

-- An entry lies within reach exactly when its number is at most `t`.
reach-get :
    (i t : ℕ) (es : List SeekIndexEntry) (x : SeekIndexEntry)
    → IsSorted es
    → get_elem? es i ≡ some x
    → ((x.seq ≤ t → i < reach es t) × (t < x.seq → reach es t ≤ i))
unfolding reach
reach-get i t [] x s h = absurd (cc)
reach-get zero t (e ∷ es) x (low, s) h = (λ le. ground arith, λ lt. ground arith)
reach-get (suc i) t (e ∷ es) x (low, s) h =
    let (above, below) = reach-get i t es x s h in
    let first = All-get e.seq i es x low h in
    (λ le. let more = above le in ground arith, λ lt. let less = below lt in ground arith)

get_some :
    (es : List SeekIndexEntry) (i : ℕ)
    → i < length es
    → (x : SeekIndexEntry) × (get_elem? es i ≡ some x)
get_some [] i h = absurd (omega arith)
get_some (e ∷ es) zero h = (e, refl)
get_some (e ∷ es) (suc i) h = get_some es i (omega arith)

-- The loop ends at the reach.
search_loop-reach :
    (fuel : ℕ) (es : List SeekIndexEntry) (t lo hi : ℕ)
    → IsSorted es
    → lo ≤ reach es t
    → reach es t ≤ hi
    → hi ≤ length es
    → hi ≤ lo + fuel
    → search_loop fuel es t lo hi ≡ reach es t
unfolding search_loop
search_loop-reach zero es t lo hi s low high fits enough = omega arith
search_loop-reach (suc fuel) es t lo hi s low high fits enough = elim (Bool-cases (ltb lo hi)) [
  | inr done ↦ let over : hi ≤ lo = ground arith in rw (search_loop, done) (omega arith)
  | inl more ↦
      let range : lo < hi = ground arith in
      let mid : ℕ = (lo + hi) / 2 in
      let (x, there) = get_some es mid (omega arith) in
      let (above, below) = reach-get mid t es x s there in
      elim (Bool-cases (leb x.seq t)) [
        | inl le ↦
            let right = above (ground arith) in
            rw (search_loop, more, there, le)
              (search_loop-reach fuel es t (mid + 1) hi s (omega arith) high fits (omega arith))
        | inr gt ↦
            let left = below (ground arith) in
            rw (search_loop, more, there, gt)
              (search_loop-reach fuel es t lo mid s low left (omega arith) (omega arith))
      ]
]

scan_above :
    (es : List SeekIndexEntry) (t : ℕ) (best : Option SeekIndexEntry) (k : ℕ)
    → t < k
    → All (λ x. k ≤ x.seq) es
    → scan_entries (λ e. e.seq) best es t ≡ best
unfolding scan_entries
scan_above [] t best k h a = refl
scan_above (e ∷ es) t best k h (a, as') =
    let over : leb e.seq t ≡ false = ground arith in
    rw (scan_entries, over) (scan_above es t best k h as')

-- What a search from the reach gives.
abbrev found_at : List SeekIndexEntry → ℕ → Option SeekIndexEntry → Option SeekIndexEntry
found_at es n best = if n == 0 then best else get_elem? es (n - 1)

found_at_next :
    (e : SeekIndexEntry) (es : List SeekIndexEntry) (n : ℕ) (best : Option SeekIndexEntry)
    → found_at es n (some e) ≡ found_at (e ∷ es) (suc n) best
found_at_next e es zero best = refl
found_at_next e es (suc n) best = ground arith

scan-reach :
    (es : List SeekIndexEntry) (t : ℕ) (best : Option SeekIndexEntry)
    → IsSorted es
    → scan_entries (λ e. e.seq) best es t ≡ found_at es (reach es t) best
unfolding scan_entries reach
scan-reach [] t best s = refl
scan-reach (e ∷ es) t best (low, s) = elim (Bool-cases (leb e.seq t)) [
  | inl le ↦
      rw (scan_entries, reach, le)
        (scan-reach es t (some e) s ∙ found_at_next e es (reach es t) best)
  | inr gt ↦
      let over : t < e.seq = ground arith in
      rw (scan_entries, reach, gt) (scan_above es t best e.seq over low)
]

-- On entries whose sequence numbers do not fall, the binary search of `find_entry_by_seq` gives the
-- entry that a scan over all entries gives, as `find_entry_by_timestamp` does it: the last one with
-- a number of at most the target, or none.
pub find_entry_by_seq-scan :
    (entries : List SeekIndexEntry) (target_seq : ℕ)
    → IsSorted entries
    → find_entry_by_seq entries target_seq ≡ scan_entries (λ e. e.seq) none entries target_seq
unfolding find_entry_by_seq
find_entry_by_seq-scan entries target_seq s =
    let n : ℕ = length entries in
    let ends : search_loop n entries target_seq 0 n ≡ reach entries target_seq =
      search_loop-reach n entries target_seq 0 n s (omega arith) (reach-le entries target_seq)
        (omega arith) (omega arith) in
    rw ends (sym (scan-reach entries target_seq none s))
