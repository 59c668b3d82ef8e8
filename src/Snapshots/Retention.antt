-- ===== src/Snapshots/Retention.antt =====
-- src/stream/replay/snapshot.rs, `enforce_retention`: which snapshots are removed, by age, by number
-- and by size. A removal by the file system does not fail here.
use chronicle_rs.Base.{
  ℕ, ◌+◌, ◌-◌, ◌%◌, ◌^◌, List, [], ◌∷◌, ◌++◌, Option, none, some, Bool, true, false, ltb, leb,
  if◌then◌else◌, length, remove,
}
use chronicle_rs.Snapshots.Format.{SnapshotFile, SnapshotDir}

pub record SnapshotEntry : Type 0 where
  pub seq_num : ℕ
  pub size : ℕ
  pub modified : Option ℕ

unfoldable pub load_snapshot_entries : List (ℕ × SnapshotFile) → List SnapshotEntry
load_snapshot_entries [] = []
load_snapshot_entries ((seq_num, file) ∷ files) =
    record { seq_num = seq_num; size = length file.bytes; modified = file.modified }
    ∷ load_snapshot_entries files

pub record SnapshotRetention : Type 0 where
  pub max_snapshots : Option ℕ
  pub max_bytes : Option ℕ
  pub max_age : Option ℕ

-- `elapsed > max_age`, where the clock has not gone back behind the file's time.
unfoldable pub too_old : (now max_age : ℕ) → SnapshotEntry → Bool
too_old now max_age e = elim e.modified [
  | none ↦ false
  | some modified ↦ if ltb now modified then false else ltb max_age (now - modified)
]

-- `entries.retain`: the entries that stay, and those removed.
unfoldable pub retain_young : (now max_age : ℕ) → List SnapshotEntry → List SnapshotEntry × List ℕ
retain_young now max_age [] = ([], [])
retain_young now max_age (e ∷ es) =
    let (kept, removed) = retain_young now max_age es in
    if too_old now max_age e then (kept, e.seq_num ∷ removed) else (e ∷ kept, removed)

-- `sort_by_key(|entry| entry.seq_num)`, which is stable.
unfoldable pub insert_by_seq : SnapshotEntry → List SnapshotEntry → List SnapshotEntry
insert_by_seq e [] = e ∷ []
insert_by_seq e (f ∷ fs) = if leb e.seq_num f.seq_num then e ∷ f ∷ fs else f ∷ insert_by_seq e fs

unfoldable pub sort_by_seq : List SnapshotEntry → List SnapshotEntry
sort_by_seq [] = []
sort_by_seq (e ∷ es) = insert_by_seq e (sort_by_seq es)

-- The loop that removes the first entry while there are more than `max_snapshots`.
unfoldable pub trim_count : ℕ → List SnapshotEntry → List SnapshotEntry × List ℕ
trim_count max_snapshots [] = ([], [])
trim_count max_snapshots (e ∷ es) =
    let (kept, removed) = trim_count max_snapshots es in
    if ltb max_snapshots (length (e ∷ es)) then (kept, e.seq_num ∷ removed) else (e ∷ es, [])

unfoldable pub total_size : List SnapshotEntry → ℕ
total_size [] = 0
total_size (e ∷ es) = (e.size + total_size es) % 2 ^ 64

-- The loop that removes the first entry while the sizes add up to more than `max_bytes`.
unfoldable pub trim_bytes : (max_bytes total : ℕ) → List SnapshotEntry → List SnapshotEntry × List ℕ
trim_bytes max_bytes total [] = ([], [])
trim_bytes max_bytes total (e ∷ es) =
    let (kept, removed) = trim_bytes max_bytes (total - e.size) es in
    if ltb max_bytes total then (kept, e.seq_num ∷ removed) else (e ∷ es, [])

-- A limit that is not set removes nothing.
unfoldable pub by_age : (now : ℕ) → Option ℕ → List SnapshotEntry → List SnapshotEntry × List ℕ
by_age now none entries = (entries, [])
by_age now (some max_age) entries = retain_young now max_age entries

unfoldable pub by_count : Option ℕ → List SnapshotEntry → List SnapshotEntry × List ℕ
by_count none entries = (entries, [])
by_count (some max_snapshots) entries = trim_count max_snapshots entries

unfoldable pub by_bytes : Option ℕ → List SnapshotEntry → List SnapshotEntry × List ℕ
by_bytes none entries = (entries, [])
by_bytes (some max_bytes) entries = trim_bytes max_bytes (total_size entries) entries

-- `enforce_retention`: the entries that stay, and those removed, in order.
unfoldable pub enforce_retention :
    (now : ℕ) → SnapshotRetention → List SnapshotEntry → List SnapshotEntry × List ℕ
enforce_retention now r entries =
    let (young, old) = by_age now r.max_age entries in
    let (counted, over) = by_count r.max_snapshots (sort_by_seq young) in
    let (sized, large) = by_bytes r.max_bytes counted in (sized, old ++ (over ++ large))

unfoldable pub remove_all : List ℕ → List (ℕ × SnapshotFile) → List (ℕ × SnapshotFile)
remove_all [] files = files
remove_all (s ∷ ss) files = remove_all ss (remove s files)

-- With no limit at all the directory is not even read.
unfoldable pub is_unlimited : SnapshotRetention → Bool
is_unlimited r = elim r.max_snapshots [
  | some _ ↦ false
  | none ↦ elim r.max_bytes [
    | some _ ↦ false
    | none ↦ elim r.max_age [ some _ ↦ false | none ↦ true ]
  ]
]

unfoldable pub apply_retention : (now : ℕ) → SnapshotRetention → SnapshotDir → SnapshotDir × List ℕ
apply_retention now r d =
    if is_unlimited r
    then (d, [])
    else (let removed = (enforce_retention now r (load_snapshot_entries d.files)).1 in
        (record d { files = remove_all removed d.files }, removed))
