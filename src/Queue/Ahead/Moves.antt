-- ===== src/Queue/Ahead/Moves.antt =====
-- What the writer's moves make of the messages before a reader: an append adds one behind, a roll
-- leaves them as they are.
use Prim.Native.Nat.{bit_and}
use chronicle_rs.Base.{
  ◌<◌, ℕ, zero, suc, ◌+◌, ◌%◌, ◌^◌, ◌≤◌, ◌≡◌, sym, ap, ◌∙◌, subst, List, [], ◌∷◌, ◌++◌, ok, some,
  length, arith, lookup, insert, lookup-insert, lookup-insert_self, length-append,
}
use mathlib.Core.List.{append-nil, append_assoc}
use chronicle_rs.Bytes.{Mem}
use chronicle_rs.Store.{seal_segment}
use chronicle_rs.Store.Prepare.{IsFresh}
use chronicle_rs.Writer.Append.{Msg, msg_len, Fits, stage_commit}
use chronicle_rs.Queue.Ahead.{
  HasRecords, HasRecords-frame, HasRecords-snoc, HasRecords-seal, fresh-HasRecords, Ahead,
}

pub insert_other :
    (key asked : ℕ) (m : Mem) (files : List (ℕ × Mem))
    → asked < key
    → lookup asked (insert key m files) ≡ lookup asked files
insert_other key asked m files h = ground (arith, lookup-insert key asked m files)

module _ (crc32 : List ℕ → ℕ) (size : ℕ) where
  pub Ahead-last_id :
      (k : ℕ) (files : List (ℕ × Mem)) (last end id off s : ℕ) (ps : List Msg)
      → Ahead crc32 size k files last end id off s ps
      → id + k ≡ last
  Ahead-last_id zero files last end id off s ps (e, h) = omega arith
  Ahead-last_id (suc k) files last end id off s ps (e, c, rest, eq, h, sealed, a) =
      omega (arith, Ahead-last_id k files last end (id + 1) 64 (s + length c) rest a)

  -- The last segment with its records.
  pub Ahead-last :
      (k : ℕ) (files : List (ℕ × Mem)) (last end id off s : ℕ) (ps : List Msg)
      → Ahead crc32 size k files last end id off s ps
      → (o' : ℕ) × (s' : ℕ) × (ps' : List Msg) × HasRecords crc32 size files last o' s' ps' end
  Ahead-last zero files last end id off s ps (e, h) =
      (off, s, ps, subst (λ i. HasRecords crc32 size files i off s ps end) e h)
  Ahead-last (suc k) files last end id off s ps (e, c, rest, eq, h, sealed, a) =
      Ahead-last k files last end (id + 1) 64 (s + length c) rest a

  -- What keeps the files that are there keeps what lies ahead.
  pub Ahead-frame :
      (k : ℕ) (files files' : List (ℕ × Mem)) (last end id off s : ℕ) (ps : List Msg)
      → ((i : ℕ) (m : Mem) → lookup i files ≡ some m → lookup i files' ≡ some m)
      → Ahead crc32 size k files last end id off s ps
      → Ahead crc32 size k files' last end id off s ps
  Ahead-frame zero files files' last end id off s ps same (e, h) = (
    e,
    (HasRecords-frame crc32 size files files' id off s end ps (same id h.m h.there ∙ sym h.there)
        h).0,
  )
  Ahead-frame (suc k) files files' last end id off s ps same (e, c, rest, eq, h, sealed, a) =
      let (h', same_header) =
        HasRecords-frame crc32 size files files' id off s e c (same id h.m h.there ∙ sym h.there)
          h in
      (
        e,
        c,
        rest,
        eq,
        h',
        ap (λ t. bit_and t.flags 1) same_header ∙ sealed,
        Ahead-frame k files files' last end (id + 1) 64 (s + length c) rest same a,
      )

  pub Ahead-append :
      (k : ℕ) (files : List (ℕ × Mem)) (last end id off s n : ℕ) (ps : List Msg) (p : Msg) (m : Mem)
      → lookup last files ≡ some m
      → n ≡ s + length ps
      → Fits size p
      → end + msg_len p ≤ size
      → Ahead crc32 size k files last end id off s ps
      → Ahead crc32 size k
          (insert last (stage_commit crc32 m end n p) files)
          last
          (end + msg_len p)
          id
          off
          s
          (ps ++ (p ∷ []))
  Ahead-append zero files last end id off s n ps p m there number fits room (e, h) =
      let same : h.m ≡ m = cc in
      (
        e,
        subst
            (λ t.
              HasRecords crc32 size (insert last (stage_commit crc32 t end n p) files) id off s
                (ps ++ (p ∷ [])) (end + msg_len p))
            same
            (subst
              (λ i.
                HasRecords crc32 size (insert i (stage_commit crc32 h.m end n p) files) id off s
                  (ps ++ (p ∷ [])) (end + msg_len p))
              e (HasRecords-snoc crc32 size files id off s end n ps p h number fits room)),
      )
  Ahead-append (suc k) files last end id off s n ps p m there number fits room
        (e, c, rest, eq, h, sealed, a) =
      let le = Ahead-last_id k files last end (id + 1) 64 (s + length c) rest a in
      let new : Mem = stage_commit crc32 m end n p in
      let (h', same_header) =
        HasRecords-frame crc32 size files (insert last new files) id off s e c
          (insert_other last id new files (omega arith)) h in
      let count : length ps ≡ length c + length rest = ap length eq ∙ length-append c rest in
      (
        e,
        c,
        rest ++ (p ∷ []),
        ap (λ t. t ++ (p ∷ [])) eq ∙ append_assoc c rest (p ∷ []),
        h',
        ap (λ t. bit_and t.flags 1) same_header ∙ sealed,
        Ahead-append k files last end (id + 1) 64 (s + length c) n rest p m there (omega arith) fits
            room a,
      )

  -- The last segment is sealed, and a fresh one follows.
  pub Ahead-roll :
      (k : ℕ) (files files' : List (ℕ × Mem)) (last end id off s : ℕ) (ps : List Msg)
      (m m' fresh : Mem)
      → lookup last files ≡ some m
      → seal_segment m ≡ ok m'
      → ((i : ℕ) → i < last → lookup i files' ≡ lookup i files)
      → lookup last files' ≡ some m'
      → lookup (last + 1) files' ≡ some fresh
      → 64 ≤ size
      → IsFresh ((last + 1) % 2 ^ 32) size fresh
      → Ahead crc32 size k files last end id off s ps
      → Ahead crc32 size (suc k) files' (last + 1) 64 id off s ps
  Ahead-roll zero files files' last end id off s ps m m' fresh there seal same put next long f
        (e, h) =
      let (sealed_m, seal', h', sealed) = HasRecords-seal crc32 size files id off s end ps h in
      let here : h.m ≡ m = cc in
      let equal : sealed_m ≡ m' = cc in
      let looked : lookup id files' ≡ some sealed_m =
        ap (λ i. lookup i files') e ∙ put ∙ ap some (sym equal) in
      let (h'', same_header) =
        HasRecords-frame crc32 size (insert id sealed_m files) files' id off s end ps
          (looked ∙ sym (lookup-insert_self id sealed_m files)) h' in
      (
        end,
        ps,
        [],
        sym (append-nil ps),
        h'',
        ap (λ t. bit_and t.flags 1) same_header ∙ sealed,
        (
          ap (λ i. i + 1) e,
          subst (λ i. HasRecords crc32 size files' (i + 1) 64 (s + length ps) [] 64) (sym e)
              (fresh-HasRecords crc32 size files' (last + 1) (s + length ps) fresh next long f),
        ),
      )
  Ahead-roll (suc k) files files' last end id off s ps m m' fresh there seal same put next long f
        (e, c, rest, eq, h, sealed, a) =
      let le = Ahead-last_id k files last end (id + 1) 64 (s + length c) rest a in
      let (h', same_header) =
        HasRecords-frame crc32 size files files' id off s e c (same id (omega arith)) h in
      (
        e,
        c,
        rest,
        eq,
        h',
        ap (λ t. bit_and t.flags 1) same_header ∙ sealed,
        Ahead-roll k files files' last end (id + 1) 64 (s + length c) rest m m' fresh there seal
            same put next long f a,
      )
