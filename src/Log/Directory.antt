-- ===== src/Log/Directory.antt =====
-- The directory that a session leaves, as a reader finds it.
use chronicle_rs.Base.{
  ℕ, ◌+◌, ◌≤◌, ◌≡◌, refl, sym, ap, ◌∙◌, subst, List, [], ◌∷◌, some, length, lookup, keys, arith,
  ◌==◌, true, false, ltb, leb,
}
use chronicle_rs.Bytes.{Mem}
use chronicle_rs.Store.{Dir, nine_digits, insert_sorted, sort, discover_segments}
use chronicle_rs.Writer.Append.{Msg}
use chronicle_rs.Log.Laid.{IsSegment, Holds, Holds-le}
use chronicle_rs.Log.Replay.{Ahead}

module _ (crc32 : List ℕ → ℕ) (size : ℕ) where
  pub nine_digits-Holds :
      (s id last : ℕ) (fs : List (ℕ × Mem)) (cs : List (List Msg))
      → Holds crc32 size s id fs cs last
      → last ≤ 1_000_000_000
      → nine_digits (keys fs) ≡ keys fs
  unfolding nine_digits keys
  nine_digits-Holds s id last [] cs h small = refl
  nine_digits-Holds s id last (f ∷ fs) [] h small = absurd h
  nine_digits-Holds s id last ((i, m) ∷ fs) (c ∷ cs) (e, seg, h) small =
      let before = Holds-le crc32 size (s + length c) (id + 1) last fs cs h in
      let fits : ltb i 1_000_000_000 ≡ true = ground arith in
      rw fits (ap (◌∷◌ i) (nine_digits-Holds (s + length c) (id + 1) last fs cs h small))

  insert_first :
      (s id last : ℕ) (fs : List (ℕ × Mem)) (cs : List (List Msg))
      → Holds crc32 size s (id + 1) fs cs last
      → insert_sorted id (keys fs) ≡ id ∷ keys fs
  unfolding insert_sorted keys
  insert_first s id last [] cs h = refl
  insert_first s id last (f ∷ fs) [] h = absurd h
  insert_first s id last ((i, m) ∷ fs) (c ∷ cs) (e, seg, h) =
      let lower : leb id i ≡ true = ground arith in rw lower refl

  pub sort-Holds :
      (s id last : ℕ) (fs : List (ℕ × Mem)) (cs : List (List Msg))
      → Holds crc32 size s id fs cs last
      → sort (keys fs) ≡ keys fs
  unfolding sort keys
  sort-Holds s id last [] cs h = refl
  sort-Holds s id last (f ∷ fs) [] h = absurd h
  sort-Holds s id last ((i, m) ∷ fs) (c ∷ cs) (e, seg, h) =
      rw (sort-Holds (s + length c) (id + 1) last fs cs h) (
        insert_first (s + length c) i last fs cs
          (subst (λ k. Holds crc32 size (s + length c) (k + 1) fs cs last) (sym e) h))

  lookup-Holds :
      (s id last k : ℕ) (fs : List (ℕ × Mem)) (cs : List (List Msg)) (m : Mem)
      → Holds crc32 size s id fs cs last
      → lookup k fs ≡ some m
      → id ≤ k
  unfolding lookup
  lookup-Holds s id last k [] cs m h found = absurd (ground arith)
  lookup-Holds s id last k (f ∷ fs) [] m h found = absurd h
  lookup-Holds s id last k ((i, n) ∷ fs) (c ∷ cs) m (e, seg, h) found =
      ground (arith, lookup-Holds (s + length c) (id + 1) last k fs cs m h)

  -- The files of a part of the directory, when the whole agrees with that part.
  pub Holds-Ahead :
      (d : Dir) (s id last : ℕ) (fs : List (ℕ × Mem)) (cs : List (List Msg))
      → Holds crc32 size s id fs cs last
      → ((k : ℕ) (m : Mem) → lookup k fs ≡ some m → lookup k d.files ≡ some m)
      → Ahead crc32 size d s (keys fs) cs
  unfolding lookup keys
  Holds-Ahead d s id last [] [] h agree = tt
  Holds-Ahead d s id last [] (c ∷ cs) h agree = absurd h
  Holds-Ahead d s id last (f ∷ fs) [] h agree = absurd h
  Holds-Ahead d s id last ((i, m) ∷ fs) (c ∷ cs) (e, seg, h) agree =
      let here : lookup i ((i, m) ∷ fs) ≡ some m = ground arith in
      (
        m,
        agree i m here,
        subst (λ k. IsSegment crc32 size k s c m) (sym e) seg,
        Holds-Ahead d (s + length c) (id + 1) last fs cs h (λ k n found.
            let above = lookup-Holds (s + length c) (id + 1) last k fs cs n h found in
            let other : (i == k) ≡ false = ground arith in
            let same : lookup k ((i, m) ∷ fs) ≡ some n = rw other found in agree k n same),
      )

  pub discover-Holds :
      (d : Dir) (s id last : ℕ) (cs : List (List Msg))
      → Holds crc32 size s id d.files cs last
      → last ≤ 1_000_000_000
      → discover_segments d ≡ keys d.files
  unfolding discover_segments
  discover-Holds d s id last cs h small =
      ap sort (nine_digits-Holds s id last d.files cs h small) ∙ sort-Holds s id last d.files cs h
