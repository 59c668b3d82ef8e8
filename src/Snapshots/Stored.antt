-- ===== src/Snapshots/Stored.antt =====
-- A snapshot that was written is loaded again, unless the retention removes it at once.
use chronicle_rs.Base.{
  ℕ, zero, suc, ◌+◌, ◌^◌, ◌<◌, ◌≡◌, ◌≢◌, refl, ap, subst, ◌∙◌, List, [], ◌∷◌, ◌++◌, Option, none,
  some, inl, inr, length, length-append, take, drop, take-append, drop-append, take_all, lookup,
  insert, remove, lookup-remove, lookup-insert_self, insert_new, ltb, leb, ◌==◌, ==_iff, true,
  false, Bool-cases, arith, All, append-nil,
}
use chronicle_rs.Snapshots.Format.{
  SnapshotHeader, SnapshotMetadata, SnapshotFile, SnapshotDir, to_header, encode_header,
  load_snapshot_header, load_snapshot,
}
use chronicle_rs.Snapshots.Header.{
  IsSnapshotHeader, length-encode_header, decode_header-encode_header,
}
use chronicle_rs.Snapshots.Retention.{
  SnapshotEntry, SnapshotRetention, load_snapshot_entries, insert_by_seq, sort_by_seq, trim_count,
  by_age, by_count, by_bytes, enforce_retention, remove_all, is_unlimited, apply_retention,
}
use chronicle_rs.Snapshots.{write_snapshot}

abbrev Older : ℕ → List SnapshotEntry → Type 0
Older n es = All (λ e. e.seq_num < n) es

insert_last :
    (e x : SnapshotEntry) (es : List SnapshotEntry)
    → e.seq_num < x.seq_num
    → insert_by_seq e (es ++ (x ∷ [])) ≡ insert_by_seq e es ++ (x ∷ [])
unfolding insert_by_seq
insert_last e x [] h = ground arith
insert_last e x (f ∷ es) h = elim (Bool-cases (leb e.seq_num f.seq_num)) [
  | inl le ↦ rw le refl
  | inr gt ↦ rw gt (ap (◌∷◌ f) (insert_last e x es h))
]

-- The newest entry is sorted to the end.
sort_last :
    (x : SnapshotEntry) (es : List SnapshotEntry)
    → Older x.seq_num es
    → sort_by_seq (es ++ (x ∷ [])) ≡ sort_by_seq es ++ (x ∷ [])
unfolding sort_by_seq insert_by_seq
sort_last x [] h = refl
sort_last x (e ∷ es) (h, hs) =
    ap (insert_by_seq e) (sort_last x es hs) ∙ insert_last e x (sort_by_seq es) h

insert-Older :
    (n : ℕ) (e : SnapshotEntry) (es : List SnapshotEntry)
    → e.seq_num < n
    → Older n es
    → Older n (insert_by_seq e es)
unfolding insert_by_seq
insert-Older n e [] h hs = (h, tt)
insert-Older n e (f ∷ es) h (k, hs) = elim (Bool-cases (leb e.seq_num f.seq_num)) [
  | inl le ↦ rw le (h, (k, hs))
  | inr gt ↦ rw gt (k, insert-Older n e es h hs)
]

sort-Older : (n : ℕ) (es : List SnapshotEntry) → Older n es → Older n (sort_by_seq es)
unfolding sort_by_seq
sort-Older n [] h = tt
sort-Older n (e ∷ es) (h, hs) = insert-Older n e (sort_by_seq es) h (sort-Older n es hs)

-- A limit of at least one removes only what is older than the last entry.
trim_count_last :
    (k : ℕ) (x : SnapshotEntry) (es : List SnapshotEntry)
    → Older x.seq_num es
    → All (λ s. s ≢ x.seq_num) (trim_count (suc k) (es ++ (x ∷ []))).1
unfolding trim_count
trim_count_last k x [] h = elim (Bool-cases (ltb (suc k) (suc zero))) [
  | inl more ↦ absurd (ground arith)
  | inr fits ↦ rw fits tt
]
trim_count_last k x (e ∷ es) (h, hs) =
    elim (Bool-cases (ltb (suc k) (suc (length (es ++ (x ∷ [])))))) [
      | inl more ↦ rw more (omega arith, trim_count_last k x es hs)
      | inr fits ↦ rw fits tt
    ]

by_count_last :
    (c : Option ℕ) (x : SnapshotEntry) (es : List SnapshotEntry)
    → c ≢ some 0
    → Older x.seq_num es
    → All (λ s. s ≢ x.seq_num) (by_count c (es ++ (x ∷ []))).1
unfolding by_count
by_count_last none x es h older = tt
by_count_last (some zero) x es h older = absurd (h refl)
by_count_last (some (suc k)) x es h older = trim_count_last k x es older

lookup-remove_all :
    (key : ℕ) (ss : List ℕ) (files : List (ℕ × SnapshotFile))
    → All (λ s. s ≢ key) ss
    → lookup key (remove_all ss files) ≡ lookup key files
unfolding remove_all
lookup-remove_all key [] files h = refl
lookup-remove_all key (s ∷ ss) files (h, hs) =
    lookup-remove_all key ss (remove s files) hs ∙ ground (arith, lookup-remove s key files)

entries_append :
    (files more : List (ℕ × SnapshotFile))
    → load_snapshot_entries (files ++ more)
      ≡ load_snapshot_entries files ++ load_snapshot_entries more
unfolding load_snapshot_entries
entries_append [] more = refl
entries_append ((seq, file) ∷ files) more =
    ap (◌∷◌ (record { seq_num = seq; size = length file.bytes; modified = file.modified }))
      (entries_append files more)

abbrev pub AllBefore : ℕ → List (ℕ × SnapshotFile) → Type 0
AllBefore n files = All (λ f. f.0 < n) files

entries-Older :
    (n : ℕ) (files : List (ℕ × SnapshotFile))
    → AllBefore n files
    → Older n (load_snapshot_entries files)
unfolding load_snapshot_entries
entries-Older n [] h = tt
entries-Older n (f ∷ files) (h, hs) = (h, entries-Older n files hs)

lookup_new : (n : ℕ) (files : List (ℕ × SnapshotFile)) → AllBefore n files → lookup n files ≡ none
unfolding lookup
lookup_new n [] h = refl
lookup_new n (f ∷ files) (h, hs) = ground (arith, lookup_new n files hs)

-- The numbers that are removed where only the number of snapshots is limited.
removed_not-newest :
    (r : SnapshotRetention) (now n : ℕ) (file : SnapshotFile) (files : List (ℕ × SnapshotFile))
    → r.max_age ≡ none
    → r.max_bytes ≡ none
    → r.max_snapshots ≢ some 0
    → AllBefore n files
    → All
        (λ s. s ≢ n)
        (enforce_retention now r (load_snapshot_entries (files ++ ((n, file) ∷ [])))).1
unfolding enforce_retention by_age by_bytes load_snapshot_entries
removed_not-newest r now n file files ageless sizeless room older =
    let x : SnapshotEntry = record {
      seq_num = n;
      size = length file.bytes;
      modified = file.modified;
    } in
    let es : List SnapshotEntry = load_snapshot_entries files in
    let es-older : Older n es = entries-Older n files older in
    let sorted : sort_by_seq (load_snapshot_entries (files ++ ((n, file) ∷ [])))
        ≡ sort_by_seq es ++ (x ∷ []) =
      ap sort_by_seq (entries_append files ((n, file) ∷ [])) ∙ sort_last x es es-older in
    simp (ageless, sizeless, append-nil, sorted)
      (by_count_last r.max_snapshots x (sort_by_seq es) room (sort-Older n es es-older))

-- The file that is written, and its header.
abbrev file_of : ℕ → SnapshotMetadata → List ℕ → SnapshotFile
file_of now m payload = record {
  bytes = encode_header (to_header m (length payload)) ++ payload;
  modified = some now;
}

-- The directory between the write and the retention.
abbrev pub published : ℕ → SnapshotMetadata → List ℕ → SnapshotDir → SnapshotDir
published now m payload d = record {
  files = insert m.seq_num (file_of now m payload) d.files;
  temps = remove m.seq_num (insert m.seq_num (file_of now m payload) d.temps);
}

-- The retention that follows the write does not remove what was written.
abbrev pub Spared : ℕ → SnapshotMetadata → List ℕ → SnapshotRetention → SnapshotDir → Type 0
Spared now m payload r d =
    All (λ s. s ≢ m.seq_num) (apply_retention now r (published now m payload d)).1

module _ (now : ℕ) (m : SnapshotMetadata) (payload : List ℕ)
    (v : IsSnapshotHeader (to_header m (length payload))) where
  abbrev header : SnapshotHeader
  header = to_header m (length payload)

  abbrev bytes : List ℕ
  bytes = encode_header header ++ payload

  length-bytes : length bytes ≡ 128 + length payload
  length-bytes =
      omega (arith, length-append (encode_header header) payload, length-encode_header header v)

  take-bytes : take 128 bytes ≡ encode_header header
  take-bytes =
      subst (λ k. take k bytes ≡ encode_header header) (length-encode_header header v)
        (take-append (encode_header header) payload)

  drop-bytes : drop 128 bytes ≡ payload
  drop-bytes =
      subst (λ k. drop k bytes ≡ payload) (length-encode_header header v)
        (drop-append (encode_header header) payload)

  header_loaded : load_snapshot_header (file_of now m payload) ≡ inr header
  unfolding load_snapshot_header
  header_loaded =
      let enough : ltb (length bytes) 128 ≡ false = ground (arith, length-bytes) in
      rw (load_snapshot_header, enough, take-bytes) (decode_header-encode_header header v)

  load_written :
      (d : SnapshotDir)
      → 128 + length payload < 2 ^ 64
      → lookup m.seq_num d.files ≡ some (file_of now m payload)
      → load_snapshot d m.seq_num ≡ inr (header, payload)
  unfolding load_snapshot to_header
  load_written d small found =
      let all : take (length payload) (drop 128 bytes) ≡ payload =
        ap (take (length payload)) drop-bytes ∙ take_all (length payload) payload (omega arith) in
      let no_overflow : leb (2 ^ 64) (128 + length payload) ≡ false = ground arith in
      let as_long : (length bytes == 128 + length payload) ≡ true =
        (==_iff (length bytes) (128 + length payload)).1 length-bytes in
      rw (load_snapshot, found, header_loaded, no_overflow, as_long, all) refl

  lookup_written :
      (r : SnapshotRetention) (d : SnapshotDir)
      → Spared now m payload r d
      → lookup m.seq_num (write_snapshot now r d m payload).files ≡ some (file_of now m payload)
  unfolding write_snapshot apply_retention
  lookup_written r d spared =
      let file : SnapshotFile = file_of now m payload in
      let there : lookup m.seq_num (insert m.seq_num file d.files) ≡ some file =
        lookup-insert_self m.seq_num file d.files in
      elim (Bool-cases (is_unlimited r)) [
        | inl unlimited ↦ rw (write_snapshot, apply_retention, unlimited) there
        | inr limited ↦
            let removed : List ℕ =
              (enforce_retention now r (load_snapshot_entries (insert m.seq_num file d.files))).1 in
            rw (write_snapshot, apply_retention, limited)
              (lookup-remove_all m.seq_num removed (insert m.seq_num file d.files)
                  (rw (apply_retention, limited) at spared)
                ∙ there)
      ]

  -- A snapshot that the retention after its write does not remove is loaded as it was written: its
  -- header, with the length of the payload, and the payload.
  pub load_snapshot-write_snapshot :
      (r : SnapshotRetention) (d : SnapshotDir)
      → 128 + length payload < 2 ^ 64
      → Spared now m payload r d
      → load_snapshot (write_snapshot now r d m payload) m.seq_num ≡ inr (header, payload)
  load_snapshot-write_snapshot r d small spared =
      load_written (write_snapshot now r d m payload) small (lookup_written r d spared)

-- A limit on the number alone, of at least one, spares the newest.
pub newest-Spared :
    (now : ℕ) (m : SnapshotMetadata) (payload : List ℕ) (r : SnapshotRetention) (d : SnapshotDir)
    → AllBefore m.seq_num d.files
    → r.max_age ≡ none
    → r.max_bytes ≡ none
    → r.max_snapshots ≢ some 0
    → Spared now m payload r d
unfolding apply_retention
newest-Spared now m payload r d older ageless sizeless room =
    let file : SnapshotFile = file_of now m payload in
    let added : insert m.seq_num file d.files ≡ d.files ++ ((m.seq_num, file) ∷ []) =
      insert_new m.seq_num file d.files (lookup_new m.seq_num d.files older) in
    elim (Bool-cases (is_unlimited r)) [
      | inl unlimited ↦ rw (apply_retention, unlimited) tt
      | inr limited ↦
          rw (apply_retention, limited, added)
            (removed_not-newest r now m.seq_num file d.files ageless sizeless room older)
    ]
