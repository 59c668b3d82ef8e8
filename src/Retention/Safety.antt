-- ===== src/Retention/Safety.antt =====
-- What a cleanup keeps: the head, and all that a live reader may still read.
use chronicle_rs.Base.{
  ℕ, zero, suc, ◌≤◌, ◌≡◌, refl, sym, ap, ◌∙◌, subst, List, [], ◌∷◌, Option, none, some, true, Error,
  ok, err, >>=-eq-ok, Result-cases, if◌then◌else◌, get_elem?, lookup, arith, inl, inr, Bool-cases,
}
use chronicle_rs.Bytes.{Mem}
use chronicle_rs.Store.{sort}
use chronicle_rs.Reader.{ReaderMeta, load_reader_meta}
use chronicle_rs.Retention.{
  Sweep, is_live, lower, unwrap_or, may_go, candidate_ids, kept_files, min_live,
  min_live_reader_segment, cleanup_segments,
}

ok_injective {ℓ} : {A : Type ℓ} {a b : A} → ok a ≡ ok b → a ≡ b
ok_injective e = ground arith

some_injective {ℓ} : {A : Type ℓ} {a b : A} → some a ≡ some b → a ≡ b
some_injective e = ground arith

none-some {ℓ} : {A : Type ℓ} {a : A} → none ≡ some a → ⊥
none-some e = ground arith

-- The directory after a sweep, by id.
pub lookup-kept_files :
    (s : Sweep) (low id : ℕ) (files : List (ℕ × Mem))
    → lookup id (kept_files s low files) ≡ (if may_go s low id then none else lookup id files)
unfolding kept_files lookup
lookup-kept_files s low id [] = ground arith
lookup-kept_files s low id ((j, m) ∷ files) =
    ground (arith, lookup-kept_files s low id files, ap (may_go s low))

-- `x` is at most the minimum so far.
abbrev pub AtMost : Option ℕ → ℕ → Type 0
AtMost none x = ⊥
AtMost (some y) x = y ≤ x

lower-AtMost : (acc : Option ℕ) (x y : ℕ) → AtMost acc x → AtMost (lower acc y) x
unfolding lower
lower-AtMost none x y h = absurd h
lower-AtMost (some a) x y h = omega arith

lower_self : (acc : Option ℕ) (x : ℕ) → AtMost (lower acc x) x
unfolding lower
lower_self none x = omega arith
lower_self (some a) x = omega arith

unwrap-AtMost : (o : Option ℕ) (d x : ℕ) → AtMost o x → unwrap_or o d ≤ x
unfolding unwrap_or
unwrap-AtMost none d x h = absurd h
unwrap-AtMost (some a) d x h = h

module _ (crc32 : List ℕ → ℕ) (s : Sweep) (measure : ReaderMeta → ℕ) where
  min_live-acc :
      (readers : List (List ℕ)) (acc r : Option ℕ) (x : ℕ)
      → min_live crc32 s measure readers acc ≡ ok r
      → AtMost acc x
      → AtMost r x
  unfolding min_live
  min_live-acc [] acc r x e h = subst (λ o. AtMost o x) (ok_injective e) h
  min_live-acc (file ∷ files) acc r x e h =
      let (meta, loaded, rest) =
        >>=-eq-ok (load_reader_meta crc32 (some file))
          (λ meta.
            min_live crc32 s measure files
              (if is_live s meta then lower acc (measure meta) else acc))
          e in
      min_live-acc files (if is_live s meta then lower acc (measure meta) else acc) r x rest
        (elim (Bool-cases (is_live s meta)) [
          | inl live ↦ rw live (lower-AtMost acc x (measure meta) h)
          | inr dead ↦ rw dead h
        ])

  -- The minimum is at most the measure of each live reader.
  pub min_live-AtMost :
      (readers : List (List ℕ)) (acc r : Option ℕ) (i : ℕ) (file : List ℕ) (meta : ReaderMeta)
      → min_live crc32 s measure readers acc ≡ ok r
      → get_elem? readers i ≡ some file
      → load_reader_meta crc32 (some file) ≡ ok meta
      → is_live s meta ≡ true
      → AtMost r (measure meta)
  unfolding min_live
  min_live-AtMost [] acc r i file meta e at l live = absurd (none-some at)
  min_live-AtMost (f ∷ files) acc r zero file meta e at l live =
      let (meta', loaded, rest) =
        >>=-eq-ok (load_reader_meta crc32 (some f))
          (λ meta.
            min_live crc32 s measure files
              (if is_live s meta then lower acc (measure meta) else acc))
          e in
      let same_file : f ≡ file = some_injective at in
      let same_meta : meta' ≡ meta =
        ok_injective (sym loaded ∙ ap (λ t. load_reader_meta crc32 (some t)) same_file ∙ l) in
      min_live-acc files (if is_live s meta' then lower acc (measure meta') else acc) r
        (measure meta) rest (rw (same_meta, live) (lower_self acc (measure meta)))
  min_live-AtMost (f ∷ files) acc r (suc i) file meta e at l live =
      let (meta', loaded, rest) =
        >>=-eq-ok (load_reader_meta crc32 (some f))
          (λ meta.
            min_live crc32 s measure files
              (if is_live s meta then lower acc (measure meta) else acc))
          e in
      min_live-AtMost files (if is_live s meta' then lower acc (measure meta') else acc) r i file
        meta rest at l live

module _ (crc32 : List ℕ → ℕ) where
  cleanup_nothing :
      (s : Sweep) (files : List (ℕ × Mem)) → cleanup_segments crc32 s none files ≡ ok ([], files)
  unfolding cleanup_segments
  cleanup_nothing s files = refl

  cleanup_found :
      (s : Sweep) (readers : List (List ℕ)) (files : List (ℕ × Mem)) (found : Option ℕ)
      → min_live crc32 s (λ meta. meta.segment_id) readers none ≡ ok found
      → let low = unwrap_or found s.head_segment in
        cleanup_segments crc32 s (some readers) files
        ≡ ok (sort (candidate_ids s low files), kept_files s low files)
  unfolding cleanup_segments min_live_reader_segment
  cleanup_found s readers files found h = rw (cleanup_segments, min_live_reader_segment, h) refl

  cleanup_failed :
      (s : Sweep) (readers : List (List ℕ)) (files : List (ℕ × Mem)) (failure : Error)
      → min_live crc32 s (λ meta. meta.segment_id) readers none ≡ err failure
      → cleanup_segments crc32 s (some readers) files ≡ err failure
  unfolding cleanup_segments min_live_reader_segment
  cleanup_failed s readers files failure h = rw (cleanup_segments, min_live_reader_segment, h) refl

  -- The minimum that a cleanup goes by, and the directory after it.
  pub cleanup_lem :
      (s : Sweep) (readers : List (List ℕ)) (files files' : List (ℕ × Mem)) (deleted : List ℕ)
      → cleanup_segments crc32 s (some readers) files ≡ ok (deleted, files')
      → (found : Option ℕ) × (min_live crc32 s (λ meta. meta.segment_id) readers none ≡ ok found)
        × (files' ≡ kept_files s (unwrap_or found s.head_segment) files)
  cleanup_lem s readers files files' deleted e =
      elim (Result-cases (min_live crc32 s (λ meta. meta.segment_id) readers none)) [
        | inl (found, h) ↦
            (found, h, ap (λ r. r.1) (ok_injective (sym e ∙ cleanup_found s readers files found h)))
        | inr (failure, h) ↦ absurd (ground (arith, cleanup_failed s readers files failure h))
      ]

  -- A segment that a live reader may still read is there after a cleanup as it was before.
  pub cleanup-keeps_unread :
      (s : Sweep) (readers : List (List ℕ)) (files files' : List (ℕ × Mem)) (deleted : List ℕ)
      (i : ℕ) (file : List ℕ) (meta : ReaderMeta) (id : ℕ)
      → cleanup_segments crc32 s (some readers) files ≡ ok (deleted, files')
      → get_elem? readers i ≡ some file
      → load_reader_meta crc32 (some file) ≡ ok meta
      → is_live s meta ≡ true
      → meta.segment_id ≤ id
      → lookup id files' ≡ lookup id files
  unfolding may_go
  cleanup-keeps_unread s readers files files' deleted i file meta id e at l live h =
      let (found, m, kept) = cleanup_lem s readers files files' deleted e in
      let bound = unwrap-AtMost found s.head_segment meta.segment_id (
        min_live-AtMost crc32 s (λ meta. meta.segment_id) readers none found i file meta m at l
          live) in
      let now = lookup-kept_files s (unwrap_or found s.head_segment) id files in
      ground (arith, now, ap (lookup id) kept)

  -- The segment that the writer appends to, and all above it, stay.
  pub cleanup-keeps_head :
      (s : Sweep) (readers : Option (List (List ℕ))) (files files' : List (ℕ × Mem))
      (deleted : List ℕ) (id : ℕ)
      → cleanup_segments crc32 s readers files ≡ ok (deleted, files')
      → s.head_segment ≤ id
      → lookup id files' ≡ lookup id files
  unfolding may_go
  cleanup-keeps_head s none files files' deleted id e h =
      ap (lookup id) (ap (λ r. r.1) (ok_injective (sym e ∙ cleanup_nothing s files)))
  cleanup-keeps_head s (some readers) files files' deleted id e h =
      let (found, m, kept) = cleanup_lem s readers files files' deleted e in
      let now = lookup-kept_files s (unwrap_or found s.head_segment) id files in
      ground (arith, now, ap (lookup id) kept)
