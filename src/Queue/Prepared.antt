-- ===== src/Queue/Prepared.antt =====
-- The thread that prepares segments, and the reader's commits, leave the messages as they are.
use chronicle_rs.Base.{
  ℕ, ◌%◌, ◌^◌, ◌≤◌, ◌≡◌, refl, sym, ap, ◌∙◌, ◌⊎◌, subst, List, some, none, inl, inr, Option-cases,
  Bool-cases, ◌==◌, arith, lookup, insert, remove, lookup-insert, lookup-insert_self,
}
use chronicle_rs.Bytes.{Mem}
use chronicle_rs.Store.{Dir, publish_segment}
use chronicle_rs.Store.Prepare.{IsFresh, prepare_segment_temp-IsFresh}
use chronicle_rs.Writer.Append.{Msg}
use chronicle_rs.Queue.{Queue, preallocate}
use chronicle_rs.Queue.Writer.{QueueWriter}
use chronicle_rs.Queue.Reader.{QueueReader, Outside, commit, save_meta}
use chronicle_rs.Queue.Ahead.Moves.{Ahead-frame}
use chronicle_rs.Queue.Running.{IsRunning, Spare, Spare-frame}

insert_keeps :
    (key : ℕ) (new : Mem) (files : List (ℕ × Mem))
    → lookup key files ≡ none
    → (i : ℕ) (m : Mem) → lookup i files ≡ some m
    → lookup i (insert key new files) ≡ some m
insert_keeps key new files gone i m there = ground (arith, lookup-insert key i new files)

Spare-insert :
    (size key : ℕ) (new : Mem) (files : List (ℕ × Mem))
    → IsFresh (key % 2 ^ 32) size new
    → (i : ℕ) → Spare size files i
    → Spare size (insert key new files) i
Spare-insert size key new files f i s = elim (Bool-cases (key == i)) [
  | inr other ↦
      let same : lookup i (insert key new files) ≡ lookup i files =
        ground (arith, lookup-insert key i new files) in
      Spare-frame size i files _ same s
  | inl here ↦
      let equal : key ≡ i = ground arith in
      inr (
        new,
        ap (λ t. lookup t (insert key new files)) (sym equal) ∙ lookup-insert_self key new files,
        subst (λ t. IsFresh (t % 2 ^ 32) size new) equal f,
      )
]

-- Either nothing happens, or a fresh file appears where there was none.
preallocate_cases :
    (q : Queue) (id size : ℕ)
    → 64 ≤ size
    → (preallocate q id size ≡ q)
      ⊎ ((d : Dir) × (m : Mem) × (preallocate q id size ≡ record q { dir = d })
          × (d.files ≡ insert id m q.dir.files)
          × (lookup id q.dir.files ≡ none)
          × IsFresh (id % 2 ^ 32) size m)
unfolding preallocate publish_segment
preallocate_cases q id size long =
    let (m, made, f) = prepare_segment_temp-IsFresh q.dir id size long in
    let temp = lookup-insert_self id tt q.dir.temps in
    elim (Option-cases (lookup id q.dir.files)) [
      | inr (old, there) ↦ inl (rw (preallocate, made, publish_segment, temp, there) refl)
      | inl gone ↦ inr (
        record { files = insert id m q.dir.files; temps = remove id (insert id tt q.dir.temps) },
        m,
        rw (preallocate, made, publish_segment, temp, gone) refl,
        refl,
        gone,
        f,
      )
    ]

module _ (crc32 : List ℕ → ℕ) (size : ℕ) where
  with_file-IsRunning :
      (q : Queue) (w : QueueWriter) (r : QueueReader) (s : ℕ) (ps : List Msg) (d : Dir) (id : ℕ)
      (m : Mem)
      → IsRunning crc32 size q w r s ps
      → d.files ≡ insert id m q.dir.files
      → lookup id q.dir.files ≡ none
      → IsFresh (id % 2 ^ 32) size m
      → IsRunning crc32 size (record q { dir = d }) w r s ps
  with_file-IsRunning q w r s ps d id m v files gone f = record {
    k = v.k;
    ahead =
        Ahead-frame crc32 size v.k q.dir.files d.files w.segment_id w.write_offset r.segment_id
          r.read_offset s ps
          (λ i old there. ap (lookup i) files ∙ insert_keeps id m q.dir.files gone i old there)
          v.ahead;
    writer_size = v.writer_size;
    reader_size = v.reader_size;
    number = v.number;
    current = v.current;
    unlimited = v.unlimited;
    no_prealloc_needed = v.no_prealloc_needed;
    spare = λ i above.
        subst (λ t. Spare size t i) (sym files)
          (Spare-insert size id m q.dir.files f i (v.spare i above));
  }

  pub preallocate-IsRunning :
      (q : Queue) (w : QueueWriter) (r : QueueReader) (s : ℕ) (ps : List Msg) (id : ℕ)
      → 64 ≤ size
      → IsRunning crc32 size q w r s ps
      → IsRunning crc32 size (preallocate q id size) w r s ps
  preallocate-IsRunning q w r s ps id long v = elim (preallocate_cases q id size long) [
    | inl same ↦ subst (λ t. IsRunning crc32 size t w r s ps) (sym same) v
    | inr (d, m, made, files, gone, f) ↦
        subst (λ t. IsRunning crc32 size t w r s ps) (sym made)
          (with_file-IsRunning q w r s ps d id m v files gone f)
  ]

  pub commit-IsRunning :
      (o : Outside) (q : Queue) (w : QueueWriter) (r : QueueReader) (s : ℕ) (ps : List Msg)
      → IsRunning crc32 size q w r s ps
      → IsRunning crc32 size q w (commit crc32 o r) s ps
  unfolding commit save_meta
  commit-IsRunning o q w r s ps v = record {
    k = v.k;
    ahead = v.ahead;
    writer_size = v.writer_size;
    reader_size = v.reader_size;
    number = v.number;
    current = v.current;
    unlimited = v.unlimited;
    no_prealloc_needed = v.no_prealloc_needed;
    spare = v.spare;
  }
