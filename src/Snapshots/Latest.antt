-- ===== src/Snapshots/Latest.antt =====
-- The search for the latest snapshot: nothing within the limit beats what it finds.
use chronicle_rs.Base.{
  ℕ, suc, ◌≤◌, ◌≡◌, refl, sym, ap, ◌∙◌, subst, List, [], ◌∷◌, Option, none, some, ◌⊎◌, inl, inr,
  get_elem?, ltb, if◌then◌else◌, Bool-cases, Sum-cases, arith, All,
}
use chronicle_rs.Snapshots.Format.{
  SnapshotHeader, SnapshotError, SnapshotFile, load_snapshot_header,
}
use chronicle_rs.Snapshots.{better, latest_from}

abbrev pub Found : Type 0
Found = Option (ℕ × SnapshotHeader)

module _ (key : SnapshotHeader → ℕ) (limit : ℕ) where
  -- What was found is at least as late as `n`.
  abbrev pub Reaches : Found → ℕ → Type 0
  Reaches none n = ⊥
  Reaches (some (seq, header)) n = n ≤ key header

  -- What was found is one of the files, and within the limit.
  abbrev pub IsFrom : List (ℕ × SnapshotFile) → Found → Type 0
  IsFrom files none = Unit {0}
  IsFrom files (some (seq, header)) =
      (i : ℕ) × (file : SnapshotFile) × (get_elem? files i ≡ some (seq, file))
      × (load_snapshot_header file ≡ inr header)
      × (key header ≤ limit)

  -- Every file within the limit is reached.
  abbrev pub AllReached : List (ℕ × SnapshotFile) → Found → Type 0
  AllReached files found =
      All
        (λ f.
          (header : SnapshotHeader)
          → load_snapshot_header f.1 ≡ inr header
          → key header ≤ limit
          → Reaches found (key header))
        files

  abbrev next_best : Found → ℕ → SnapshotHeader → Found
  next_best best seq header =
      if ltb limit (key header)
      then best
      else if better key best header
      then some (seq, header)
      else best

  next-Reaches :
      (best : Found) (seq : ℕ) (header : SnapshotHeader) (n : ℕ)
      → Reaches best n
      → Reaches (next_best best seq header) n
  unfolding better
  next-Reaches none seq header n h = absurd h
  next-Reaches (some (s, current)) seq header n h = ground arith

  next_self :
      (best : Found) (seq : ℕ) (header : SnapshotHeader)
      → key header ≤ limit
      → Reaches (next_best best seq header) (key header)
  unfolding better
  next_self none seq header h = ground arith
  next_self (some (s, current)) seq header h = ground arith

  next-cases :
      (best : Found) (seq : ℕ) (header : SnapshotHeader)
      → (next_best best seq header ≡ best)
        ⊎ ((next_best best seq header ≡ some (seq, header)) × (key header ≤ limit))
  next-cases best seq header = elim (Bool-cases (ltb limit (key header))) [
    | inl beyond ↦ rw beyond (inl refl)
    | inr within ↦ elim (Bool-cases (better key best header)) [
      | inl newer ↦ rw (within, newer) (inr (refl, ground arith))
      | inr older ↦ rw (within, older) (inl refl)
    ]
  ]

  same_header :
      (a b : SnapshotHeader) → ◌≡◌ {A = SnapshotError ⊎ SnapshotHeader} (inr a) (inr b) → a ≡ b
  same_header a b h = cc

  same_found : (a b : Found) → ◌≡◌ {A = SnapshotError ⊎ Found} (inr a) (inr b) → a ≡ b
  same_found a b h = cc

  -- A search that succeeds has loaded the header of the first file.
  latest_step :
      (seq : ℕ) (file : SnapshotFile) (files : List (ℕ × SnapshotFile)) (best found : Found)
      → latest_from key limit best ((seq, file) ∷ files) ≡ inr found
      → (header : SnapshotHeader) × (load_snapshot_header file ≡ inr header)
        × (latest_from key limit (next_best best seq header) files ≡ inr found)
  unfolding latest_from
  latest_step seq file files best found h = elim (Sum-cases (load_snapshot_header file)) [
    | inl (failure, e) ↦ absurd (ground arith)
    | inr (header, e) ↦ (header, e, rw (latest_from, e) at h)
  ]

  kept-Reaches :
      (files : List (ℕ × SnapshotFile)) (best found : Found) (n : ℕ)
      → latest_from key limit best files ≡ inr found
      → Reaches best n
      → Reaches found n
  unfolding latest_from
  kept-Reaches [] best found n h r = subst (λ b. Reaches b n) (same_found best found h) r
  kept-Reaches ((seq, file) ∷ files) best found n h r =
      let (header, e, rest) = latest_step seq file files best found h in
      kept-Reaches files (next_best best seq header) found n rest (next-Reaches best seq header n r)

  all_reached :
      (files : List (ℕ × SnapshotFile)) (best found : Found)
      → latest_from key limit best files ≡ inr found
      → AllReached files found
  unfolding latest_from
  all_reached [] best found h = tt
  all_reached ((seq, file) ∷ files) best found h =
      let (header, e, rest) = latest_step seq file files best found h in
      (
        λ other o within.
            let same : header ≡ other = same_header header other (sym e ∙ o) in
            kept-Reaches files (next_best best seq header) found (key other) rest (
              subst (λ n. Reaches (next_best best seq header) n) (ap key same)
                (next_self best seq header (rw same within))),
        all_reached files (next_best best seq header) found rest,
      )

  IsFrom-cons :
      (f : ℕ × SnapshotFile) (files : List (ℕ × SnapshotFile)) (found : Found)
      → IsFrom files found
      → IsFrom (f ∷ files) found
  IsFrom-cons f files none h = tt
  IsFrom-cons f files (some (seq, header)) (i, file, at, l, within) = (suc i, file, at, l, within)

  -- The result is the best so far, or one of the files.
  found-IsFrom :
      (files : List (ℕ × SnapshotFile)) (best found : Found)
      → latest_from key limit best files ≡ inr found
      → (found ≡ best) ⊎ IsFrom files found
  unfolding latest_from
  found-IsFrom [] best found h = inl (sym (same_found best found h))
  found-IsFrom ((seq, file) ∷ files) best found h =
      let (header, e, rest) = latest_step seq file files best found h in
      elim (found-IsFrom files (next_best best seq header) found rest) [
        | inr there ↦ inr (IsFrom-cons (seq, file) files found there)
        | inl same ↦ elim (next-cases best seq header) [
          | inl kept ↦ inl (same ∙ kept)
          | inr (new, within) ↦
              inr
                (subst (IsFrom ((seq, file) ∷ files)) (sym (same ∙ new)) (0, file, refl, e, within))
        ]
      ]

  -- A search that succeeds has found a file within the limit that no other within it exceeds; it
  -- finds nothing only if there is none within the limit.
  pub latest_from-IsFrom :
      (files : List (ℕ × SnapshotFile)) (found : Found)
      → latest_from key limit none files ≡ inr found
      → IsFrom files found × AllReached files found
  latest_from-IsFrom files found h = (
    elim (found-IsFrom files none found h) [
      | inl nothing ↦ subst (IsFrom files) (sym nothing) tt
      | inr there ↦ there
    ],
    all_reached files none found h,
  )
