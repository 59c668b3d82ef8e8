-- ===== src/Queue/Running.antt =====
-- The live queue between two calls: the writer, the reader and the messages between them.
use chronicle_rs.Base.{
  ℕ, ◌+◌, ◌%◌, ◌^◌, ◌<◌, ◌≡◌, ◌⊎◌, inl, inr, ◌∙◌, List, true, false, some, none, lookup, length,
}
use chronicle_rs.Bytes.{Mem}
use chronicle_rs.Store.Prepare.{IsFresh}
use chronicle_rs.Writer.Append.{Msg}
use chronicle_rs.Queue.{Queue}
use chronicle_rs.Queue.Writer.{QueueWriter, is_unlimited}
use chronicle_rs.Queue.Reader.{QueueReader}
use chronicle_rs.Queue.Ahead.{Ahead}

-- A segment that nobody has written to: missing, or made ahead.
abbrev pub Spare : ℕ → List (ℕ × Mem) → ℕ → Type 0
Spare size files id =
    (lookup id files ≡ none)
    ⊎ ((m : Mem) × (lookup id files ≡ some m) × IsFresh (id % 2 ^ 32) size m)

-- The writer has no limits and needs no prepared segments; `ps` are the messages that it has
-- written and that lie before the reader, numbered from `s`.
pub record IsRunning (crc32 : List ℕ → ℕ) (size : ℕ) (q : Queue) (w : QueueWriter) (r : QueueReader)
    (s : ℕ) (ps : List Msg) : Type 0 where
  pub k : ℕ
  pub ahead :
      Ahead crc32 size k q.dir.files w.segment_id w.write_offset r.segment_id r.read_offset s ps
  pub writer_size : w.segment_size ≡ size
  pub reader_size : r.segment_size ≡ size
  pub number : w.seq ≡ s + length ps
  pub current : q.control.current_segment ≡ w.segment_id
  pub unlimited : is_unlimited w.config ≡ true
  pub no_prealloc_needed : w.config.require_prealloc ≡ false
  pub spare : (id : ℕ) → w.segment_id < id → Spare size q.dir.files id

pub Spare-frame :
    (size id : ℕ) (files files' : List (ℕ × Mem))
    → lookup id files' ≡ lookup id files
    → Spare size files id
    → Spare size files' id
Spare-frame size id files files' same (inl gone) = inl (same ∙ gone)
Spare-frame size id files files' same (inr (m, there, f)) = inr (m, same ∙ there, f)
