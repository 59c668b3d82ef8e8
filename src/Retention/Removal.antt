-- ===== src/Retention/Removal.antt =====
-- What a cleanup removes: what it reports, which is what `retention_candidates` names, and all that
-- lies below the head and below every live reader.
use chronicle_rs.Base.{
  ℕ, zero, suc, ◌<◌, ◌≡◌, refl, sym, ap, ◌∙◌, subst, List, [], ◌∷◌, Option, none, some, Bool, true,
  false, ◌||◌, ◌==◌, ok, >>=-eq-ok, if◌then◌else◌, get_elem?, lookup, arith, inl, inr, Bool-cases,
}
use chronicle_rs.Bytes.{Mem}
use chronicle_rs.Store.{sort, insert_sorted}
use chronicle_rs.Reader.{ReaderMeta, load_reader_meta}
use chronicle_rs.Retention.{
  Sweep, is_live, lower, unwrap_or, may_go, candidate_ids, kept_files, min_live,
  min_live_reader_segment, retention_candidates, cleanup_segments,
}
use chronicle_rs.Retention.Safety.{cleanup_lem, lookup-kept_files}

unfoldable pub contains : ℕ → List ℕ → Bool
contains x [] = false
contains x (y ∷ ys) = (y == x) || contains x ys

contains-insert_sorted :
    (x y : ℕ) (ys : List ℕ) → contains x (insert_sorted y ys) ≡ ((y == x) || contains x ys)
unfolding contains insert_sorted
contains-insert_sorted x y [] = refl
contains-insert_sorted x y (z ∷ zs) = ground (arith, contains-insert_sorted x y zs)

contains-sort : (x : ℕ) (ys : List ℕ) → contains x (sort ys) ≡ contains x ys
unfolding contains sort
contains-sort x [] = refl
contains-sort x (y ∷ ys) =
    contains-insert_sorted x y (sort ys) ∙ ap (λ b. (y == x) || b) (contains-sort x ys)

candidate-may_go :
    (s : Sweep) (low id : ℕ) (files : List (ℕ × Mem))
    → contains id (candidate_ids s low files) ≡ true
    → may_go s low id ≡ true
unfolding candidate_ids contains may_go
candidate-may_go s low id [] h = absurd (cc)
candidate-may_go s low id ((j, m) ∷ files) h = ground (arith, candidate-may_go s low id files)

-- Where a file is there, its id is a candidate exactly if it may go.
lookup-candidate_ids :
    (s : Sweep) (low id : ℕ) (files : List (ℕ × Mem))
    → (if contains id (candidate_ids s low files) then none else lookup id files)
      ≡ (if may_go s low id then none else lookup id files)
unfolding candidate_ids contains lookup may_go
lookup-candidate_ids s low id [] = ground arith
lookup-candidate_ids s low id ((j, m) ∷ files) =
    ground (arith, lookup-candidate_ids s low id files, candidate-may_go s low id files)

-- `x` lies below the minimum so far.
abbrev Above : Option ℕ → ℕ → Type 0
Above none x = Unit
Above (some y) x = x < y

lower-Above : (acc : Option ℕ) (x y : ℕ) → Above acc x → x < y → Above (lower acc y) x
unfolding lower
lower-Above none x y h below = below
lower-Above (some a) x y h below = omega arith

unwrap-Above : (o : Option ℕ) (d x : ℕ) → Above o x → x < d → x < unwrap_or o d
unfolding unwrap_or
unwrap-Above none d x h below = below
unwrap-Above (some a) d x h below = h

module _ (crc32 : List ℕ → ℕ) where
  -- Every live reader has left the segment behind.
  abbrev pub LeftBehind : Sweep → List (List ℕ) → ℕ → Type 0
  LeftBehind s readers id =
      (i : ℕ) (file : List ℕ) (meta : ReaderMeta)
      → get_elem? readers i ≡ some file
      → load_reader_meta crc32 (some file) ≡ ok meta
      → is_live s meta ≡ true
      → id < meta.segment_id

  min_live-Above :
      (s : Sweep) (readers : List (List ℕ)) (acc r : Option ℕ) (id : ℕ)
      → min_live crc32 s (λ meta. meta.segment_id) readers acc ≡ ok r
      → Above acc id
      → LeftBehind s readers id
      → Above r id
  unfolding min_live
  min_live-Above s [] acc r id e h left = subst (λ o. Above o id) (ground arith) h
  min_live-Above s (file ∷ files) acc r id e h left =
      let (meta, loaded, rest) =
        >>=-eq-ok (load_reader_meta crc32 (some file))
          (λ meta.
            min_live crc32 s (λ meta. meta.segment_id) files
              (if is_live s meta then lower acc meta.segment_id else acc))
          e in
      min_live-Above s files (if is_live s meta then lower acc meta.segment_id else acc) r id rest
        (elim (Bool-cases (is_live s meta)) [
          | inl live ↦
              rw live (lower-Above acc id meta.segment_id h (left zero file meta refl loaded live))
          | inr dead ↦ rw dead h
        ])
        (λ i. left (suc i))

  -- A cleanup that succeeds deletes exactly the candidates: its list is the one that
  -- `retention_candidates` gives for the same directory, the segments on the list are gone from the
  -- directory after it, and every other segment is as it was.
  pub cleanup-removes_candidates :
      (s : Sweep) (readers : Option (List (List ℕ))) (files files' : List (ℕ × Mem))
      (deleted : List ℕ)
      → cleanup_segments crc32 s readers files ≡ ok (deleted, files')
      → (retention_candidates crc32 s readers files ≡ ok deleted)
        × ((id : ℕ) → lookup id files' ≡ (if contains id deleted then none else lookup id files))
  unfolding retention_candidates cleanup_segments contains
  cleanup-removes_candidates s none files files' deleted e = (ground arith, λ id. ground arith)
  cleanup-removes_candidates s (some readers) files files' deleted e =
      let (low, found, rest) = >>=-eq-ok (min_live_reader_segment crc32 s (some readers)) _ e in
      let listed : sort (candidate_ids s low files) ≡ deleted = ground arith in
      let left : kept_files s low files ≡ files' = ground arith in
      (
        rw found (ap ok listed),
        λ id.
            rw (sym left, sym listed)
              (lookup-kept_files s low id files
                ∙ sym (lookup-candidate_ids s low id files)
                ∙ ap (λ b. if b then none else lookup id files)
                    (sym (contains-sort id (candidate_ids s low files)))),
      )

  -- A cleanup that succeeds, in a queue with a directory of readers, removes every segment that lies
  -- below the writer's head and that every live reader has left behind; so does one without any live
  -- reader, which removes all below the head.
  pub cleanup-removes_read :
      (s : Sweep) (readers : List (List ℕ)) (files files' : List (ℕ × Mem)) (deleted : List ℕ)
      (id : ℕ)
      → cleanup_segments crc32 s (some readers) files ≡ ok (deleted, files')
      → id < s.head_segment
      → LeftBehind s readers id
      → lookup id files' ≡ none
  unfolding may_go
  cleanup-removes_read s readers files files' deleted id e below left =
      let (found, m, kept) = cleanup_lem crc32 s readers files files' deleted e in
      let above =
        unwrap-Above found s.head_segment id (min_live-Above s readers none found id m tt left)
          below in
      let now = lookup-kept_files s (unwrap_or found s.head_segment) id files in
      ground (arith, now, ap (lookup id) kept)
