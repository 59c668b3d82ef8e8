-- ===== src/Snapshots/Kept.antt =====
-- `enforce_retention` removes the oldest snapshots, down to the limits.
use chronicle_rs.Base.{
  ℕ, ◌+◌, ◌-◌, ◌^◌, ◌<◌, ◌≤◌, ◌≡◌, refl, ap, ◌∙◌, List, [], ◌∷◌, ◌++◌, Option, none, some, length,
  append_assoc, map, ltb, leb, Bool-cases, inl, inr, arith, All,
}
use chronicle_rs.Snapshots.Retention.{
  SnapshotEntry, SnapshotRetention, insert_by_seq, sort_by_seq, trim_count, trim_bytes, total_size,
  by_age, by_count, by_bytes, enforce_retention,
}

abbrev pub seq_of : SnapshotEntry → ℕ
seq_of e = e.seq_num

-- The sizes of the files, added up without a bound.
unfoldable pub sum_sizes : List SnapshotEntry → ℕ
sum_sizes [] = 0
sum_sizes (e ∷ es) = e.size + sum_sizes es

-- What is removed, and then what stays, is the whole list in order.
abbrev Splits : List SnapshotEntry → List SnapshotEntry × List ℕ → Type 0
Splits es (kept, removed) = removed ++ map seq_of kept ≡ map seq_of es

trim_count-Splits : (k : ℕ) (es : List SnapshotEntry) → Splits es (trim_count k es)
unfolding trim_count
trim_count-Splits k [] = refl
trim_count-Splits k (e ∷ es) = elim (Bool-cases (ltb k (length (e ∷ es)))) [
  | inl more ↦ rw more (ap (◌∷◌ e.seq_num) (trim_count-Splits k es))
  | inr fits ↦ rw fits refl
]

length-trim_count : (k : ℕ) (es : List SnapshotEntry) → length (trim_count k es).0 ≤ k
unfolding trim_count
length-trim_count k [] = omega arith
length-trim_count k (e ∷ es) = ground (arith, length-trim_count k es)

trim_bytes-Splits : (m t : ℕ) (es : List SnapshotEntry) → Splits es (trim_bytes m t es)
unfolding trim_bytes
trim_bytes-Splits m t [] = refl
trim_bytes-Splits m t (e ∷ es) = elim (Bool-cases (ltb m t)) [
  | inl more ↦ rw more (ap (◌∷◌ e.seq_num) (trim_bytes-Splits m (t - e.size) es))
  | inr fits ↦ rw fits refl
]

sum-trim_bytes :
    (m : ℕ) (es : List SnapshotEntry) (t : ℕ)
    → t ≡ sum_sizes es
    → sum_sizes (trim_bytes m t es).0 ≤ m
unfolding trim_bytes sum_sizes
sum-trim_bytes m [] t h = omega arith
sum-trim_bytes m (e ∷ es) t h = ground (arith, sum-trim_bytes m es (t - e.size))

length-trim_bytes : (m t : ℕ) (es : List SnapshotEntry) → length (trim_bytes m t es).0 ≤ length es
unfolding trim_bytes
length-trim_bytes m t [] = omega arith
length-trim_bytes m t (e ∷ es) = ground (arith, length-trim_bytes m (t - e.size) es)

total_size-eq-sum : (es : List SnapshotEntry) → sum_sizes es < 2 ^ 64 → total_size es ≡ sum_sizes es
unfolding total_size sum_sizes
total_size-eq-sum [] h = refl
total_size-eq-sum (e ∷ es) h = omega (arith, total_size-eq-sum es (omega arith))

sum-insert :
    (e : SnapshotEntry) (es : List SnapshotEntry)
    → sum_sizes (insert_by_seq e es) ≡ e.size + sum_sizes es
unfolding insert_by_seq sum_sizes
sum-insert e [] = refl
sum-insert e (f ∷ fs) = ground (arith, sum-insert e fs)

sum-sort : (es : List SnapshotEntry) → sum_sizes (sort_by_seq es) ≡ sum_sizes es
unfolding sort_by_seq sum_sizes
sum-sort [] = refl
sum-sort (e ∷ es) = omega (arith, sum-insert e (sort_by_seq es), sum-sort es)

sum-trim_count : (k : ℕ) (es : List SnapshotEntry) → sum_sizes (trim_count k es).0 ≤ sum_sizes es
unfolding trim_count sum_sizes
sum-trim_count k [] = omega arith
sum-trim_count k (e ∷ es) = ground (arith, sum-trim_count k es)

by_count-Splits : (k : Option ℕ) (es : List SnapshotEntry) → Splits es (by_count k es)
unfolding by_count
by_count-Splits none es = refl
by_count-Splits (some k) es = trim_count-Splits k es

by_bytes-Splits : (m : Option ℕ) (es : List SnapshotEntry) → Splits es (by_bytes m es)
unfolding by_bytes
by_bytes-Splits none es = refl
by_bytes-Splits (some m) es = trim_bytes-Splits m (total_size es) es

sum-by_count : (k : Option ℕ) (es : List SnapshotEntry) → sum_sizes (by_count k es).0 ≤ sum_sizes es
unfolding by_count
sum-by_count none es = omega arith
sum-by_count (some k) es = sum-trim_count k es

length-by_bytes : (m : Option ℕ) (es : List SnapshotEntry) → length (by_bytes m es).0 ≤ length es
unfolding by_bytes
length-by_bytes none es = omega arith
length-by_bytes (some m) es = length-trim_bytes m (total_size es) es

-- Neighbours in order.
abbrev pub Ascending : List SnapshotEntry → Type 0
Ascending [] = Unit {0}
Ascending (e ∷ es) = All (λ f. e.seq_num ≤ f.seq_num) es × Ascending es

All-insert :
    (n : ℕ) (e : SnapshotEntry) (es : List SnapshotEntry)
    → n ≤ e.seq_num
    → All (λ f. n ≤ f.seq_num) es
    → All (λ f. n ≤ f.seq_num) (insert_by_seq e es)
unfolding insert_by_seq
All-insert n e [] h a = (h, tt)
All-insert n e (f ∷ fs) h (a, later) = elim (Bool-cases (leb e.seq_num f.seq_num)) [
  | inl le ↦ rw le (h, (a, later))
  | inr gt ↦ rw gt (a, All-insert n e fs h later)
]

All-le :
    (n m : ℕ) (es : List SnapshotEntry)
    → n ≤ m
    → All (λ f. m ≤ f.seq_num) es
    → All (λ f. n ≤ f.seq_num) es
All-le n m [] h a = tt
All-le n m (e ∷ es) h (a, later) = (omega arith, All-le n m es h later)

insert-Ascending :
    (e : SnapshotEntry) (es : List SnapshotEntry) → Ascending es → Ascending (insert_by_seq e es)
unfolding insert_by_seq
insert-Ascending e [] a = (tt, tt)
insert-Ascending e (f ∷ fs) (a, later) = elim (Bool-cases (leb e.seq_num f.seq_num)) [
  | inl le ↦ rw le ((ground arith, All-le e.seq_num f.seq_num fs (ground arith) a), (a, later))
  | inr gt ↦ rw gt (All-insert f.seq_num e fs (ground arith) a, insert-Ascending e fs later)
]

pub sort-Ascending : (es : List SnapshotEntry) → Ascending (sort_by_seq es)
unfolding sort_by_seq
sort-Ascending [] = tt
sort-Ascending (e ∷ es) = insert-Ascending e (sort_by_seq es) (sort-Ascending es)

-- The limits hold for what stays; without a limit on the age, what is removed and then what stays
-- is the directory's list in the order of the numbers, so that the oldest go first.
pub record WithinLimits (r : SnapshotRetention) (kept : List SnapshotEntry) : Type 0 where
  pub count_within : (k : ℕ) → r.max_snapshots ≡ some k → length kept ≤ k
  pub bytes_within : (m : ℕ) → r.max_bytes ≡ some m → sum_sizes kept ≤ m

within_count :
    (c : Option ℕ) (m : Option ℕ) (es : List SnapshotEntry) (k : ℕ)
    → c ≡ some k
    → length (by_bytes m (by_count c es).0).0 ≤ k
unfolding by_count
within_count none m es k h = absurd (ground arith)
within_count (some j) m es k h =
    ground (arith, length-by_bytes m (trim_count j es).0, length-trim_count j es)

within_bytes :
    (b : Option ℕ) (es : List SnapshotEntry) (m : ℕ)
    → sum_sizes es < 2 ^ 64
    → b ≡ some m
    → sum_sizes (by_bytes b es).0 ≤ m
unfolding by_bytes
within_bytes none es m small h = absurd (ground arith)
within_bytes (some n) es m small h =
    ground (arith, sum-trim_bytes n es (total_size es), total_size-eq-sum es)

-- Where the age is not limited and the sizes add up to less than 2^64, what stays is within the
-- limits on number and bytes; the numbers of the removed ones, followed by those of the ones that
-- stay, are the sorted list of all, so that nothing stays that is older than a removed one.
pub enforce_retention-WithinLimits :
    (now : ℕ) (r : SnapshotRetention) (entries : List SnapshotEntry)
    → r.max_age ≡ none
    → sum_sizes entries < 2 ^ 64
    → let (kept, removed) = enforce_retention now r entries in
      WithinLimits r kept
      × (removed ++ map seq_of kept ≡ map seq_of (sort_by_seq entries))
      × Ascending (sort_by_seq entries)
unfolding enforce_retention by_age
enforce_retention-WithinLimits now r entries ageless small =
    let sorted : List SnapshotEntry = sort_by_seq entries in
    let counted : List SnapshotEntry × List ℕ = by_count r.max_snapshots sorted in
    let sized : List SnapshotEntry × List ℕ = by_bytes r.max_bytes counted.0 in
    let small' : sum_sizes counted.0 < 2 ^ 64 =
      omega (arith, sum-by_count r.max_snapshots sorted, sum-sort entries) in
    simp ageless (
      record {
        count_within = λ k h. within_count r.max_snapshots r.max_bytes sorted k h;
        bytes_within = λ m h. within_bytes r.max_bytes counted.0 m small' h;
      },
      append_assoc counted.1 sized.1 (map seq_of sized.0)
          ∙ ap (◌++◌ counted.1) (by_bytes-Splits r.max_bytes counted.0)
          ∙ by_count-Splits r.max_snapshots sorted,
      sort-Ascending entries,
    )
