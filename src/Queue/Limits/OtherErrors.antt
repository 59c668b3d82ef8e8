-- ===== src/Queue/Limits/OtherErrors.antt =====
-- Behind the test for room nothing fails with `QueueFull`: the roll and the writes of a record fail
-- with errors of their own.
use chronicle_rs.Base.{
  ℕ, ◌+◌, ◌%◌, ◌^◌, ◌≡◌, ap, List, Bool, true, false, Result, Error, ok, err, queue_full, guard,
  ◌>>=◌, if◌then◌else◌, length, arith, ◌==◌,
}
use chronicle_rs.Bytes.{Mem, write_range}
use chronicle_rs.Header.{commit_len_for_payload}
use chronicle_rs.Store.{
  Dir, mmap_open, read_segment_header, write_segment_header, seal_segment, open_segment,
}
use chronicle_rs.Store.Open.{mmap_create_new, create_new_segment, open_or, prepare_or_open_segment}
use chronicle_rs.Writer.{put_payload, put_header, put_commit, take_offset, record_len_of}
use chronicle_rs.Queue.{Queue, mapping}
use chronicle_rs.Queue.Writer.{
  QueueWriter, Outside, acquire_preallocated, next_mapping, roll_segment, put_record, append_record,
}

abbrev pub NotFull {ℓ} : {X : Type ℓ} → Result X → Type ℓ
NotFull r = ¬ (r ≡ err queue_full)

abbrev failure_or {ℓ} : {X : Type ℓ} → Error → Result X → Error
failure_or other (err failure) = failure
failure_or other (ok x) = other

pub bind-NotFull {ℓ κ} :
    {X : Type ℓ} {Y : Type κ} (r : Result X) (next : X → Result Y)
    → NotFull r
    → ((x : X) → NotFull (next x))
    → NotFull (r >>= next)
bind-NotFull (err failure) next h k e = h (ap err (ap (failure_or failure) e))
bind-NotFull (ok x) next h k e = k x e

ok-NotFull {ℓ} : {X : Type ℓ} (x : X) → NotFull (ok x)
ok-NotFull x e = cc

guard-NotFull : (b : Bool) (failure : Error) → ¬ (failure ≡ queue_full) → NotFull (guard b failure)
guard-NotFull true failure h e = cc
guard-NotFull false failure h e = h (ap (failure_or failure) e)

if-NotFull {ℓ} :
    {X : Type ℓ} (b : Bool) (x y : Result X) → NotFull x → NotFull y → NotFull (if b then x else y)
if-NotFull true x y h k = h
if-NotFull false x y h k = k

mapping-NotFull : (d : Dir) (id : ℕ) → NotFull (mapping d id)
unfolding mapping
mapping-NotFull d id e = ground arith

read_segment_header-NotFull : (m : Mem) → NotFull (read_segment_header m)
unfolding read_segment_header
read_segment_header-NotFull m e = ground arith

write_range-NotFull : (m : Mem) (off : ℕ) (bs : List ℕ) → NotFull (write_range m off bs)
unfolding write_range
write_range-NotFull m off bs e = ground arith

write_segment_header-NotFull : (m : Mem) (id flags : ℕ) → NotFull (write_segment_header m id flags)
unfolding write_segment_header
write_segment_header-NotFull m id flags =
    bind-NotFull (guard _ _) _ (guard-NotFull _ _ (λ e. cc)) λ _. write_range-NotFull m 0 _

seal_segment-NotFull : (m : Mem) → NotFull (seal_segment m)
unfolding seal_segment
seal_segment-NotFull m =
    bind-NotFull (read_segment_header m) _ (read_segment_header-NotFull m)
      λ header. if-NotFull _ _ _ (ok-NotFull m) (write_segment_header-NotFull m _ _)

open_segment-NotFull : (d : Dir) (id size : ℕ) → NotFull (open_segment d id size)
unfolding open_segment mmap_open
open_segment-NotFull d id size =
    bind-NotFull (mmap_open d id) _ (λ e. ground arith)
      λ m. bind-NotFull (guard (length m == size) _) _ (guard-NotFull _ _ (λ e. cc)) λ _.
        bind-NotFull (read_segment_header m) _ (read_segment_header-NotFull m)
          λ header. bind-NotFull (guard _ _) _ (guard-NotFull _ _ (λ e. cc)) λ _. ok-NotFull m

open_or-NotFull :
    (d : Dir) (id size : ℕ) (made : Result (Dir × Mem))
    → NotFull made
    → NotFull (open_or d id size made)
unfolding open_or
open_or-NotFull d id size made h e = ground (arith, open_segment-NotFull d id size)

create_new_segment-NotFull : (d : Dir) (id size : ℕ) → NotFull (create_new_segment d id size)
unfolding create_new_segment mmap_create_new
create_new_segment-NotFull d id size =
    bind-NotFull (mmap_create_new d id size) _ (λ e. ground arith)
      λ m.
        bind-NotFull (write_segment_header m (id % 2 ^ 32) 0) _ (write_segment_header-NotFull m _ _)
          λ m'. ok-NotFull _

prepare_or_open_segment-NotFull :
    (d : Dir) (id size : ℕ) → NotFull (prepare_or_open_segment d id size)
unfolding prepare_or_open_segment
prepare_or_open_segment-NotFull d id size = open_or-NotFull d id size _ (
    bind-NotFull (create_new_segment d id size) _ (create_new_segment-NotFull d id size)
      λ made. ok-NotFull _)

next_mapping-NotFull :
    (o : Outside) (d : Dir) (w : QueueWriter) (id : ℕ) → NotFull (next_mapping o d w id)
unfolding next_mapping acquire_preallocated
next_mapping-NotFull o d w id =
    bind-NotFull (acquire_preallocated o w) _ (λ e. ground arith)
      λ prepared.
        if-NotFull prepared _ _
          (bind-NotFull (mapping d id) _ (mapping-NotFull d id) λ m.
            bind-NotFull (read_segment_header m) _ (read_segment_header-NotFull m)
              λ header. bind-NotFull (guard _ _) _ (guard-NotFull _ _ (λ e. cc)) λ _. ok-NotFull d)
          (bind-NotFull (prepare_or_open_segment d id w.segment_size) _
            (prepare_or_open_segment-NotFull d id w.segment_size) λ opened. ok-NotFull _)

roll_segment-NotFull : (o : Outside) (q : Queue) (w : QueueWriter) → NotFull (roll_segment o q w)
unfolding roll_segment
roll_segment-NotFull o q w =
    bind-NotFull (next_mapping o q.dir w ((w.segment_id + 1) % 2 ^ 32)) _
      (next_mapping-NotFull o q.dir w ((w.segment_id + 1) % 2 ^ 32))
      λ d.
        bind-NotFull (mapping d w.segment_id) _ (mapping-NotFull d w.segment_id)
          λ m. bind-NotFull (seal_segment m) _ (seal_segment-NotFull m) λ sealed. ok-NotFull _

pub rolled-NotFull :
    (full : Bool) (o : Outside) (q : Queue) (w : QueueWriter)
    → NotFull (if full then roll_segment o q w else ok (q, w))
rolled-NotFull full o q w = if-NotFull full _ _ (roll_segment-NotFull o q w) (ok-NotFull _)

module _ (crc32 : List ℕ → ℕ) where
  put_record-NotFull :
      (m : Mem) (offset seq type_id timestamp_ns : ℕ) (payload : List ℕ)
      → NotFull (put_record crc32 m offset seq type_id timestamp_ns payload)
  unfolding put_record put_payload put_header put_commit commit_len_for_payload
  put_record-NotFull m offset seq type_id timestamp_ns payload =
      bind-NotFull (put_payload m offset payload) _
        (if-NotFull _ _ _ (write_range-NotFull m _ _) (ok-NotFull m))
        λ m1. bind-NotFull (put_header m1 offset _) _ (write_range-NotFull m1 _ _) λ m2.
          bind-NotFull (commit_len_for_payload (length payload)) _ (λ e. ground arith)
            λ n. ok-NotFull _

  pub append_record-NotFull :
      (o : Outside) (q : Queue) (w : QueueWriter) (type_id : ℕ) (payload : List ℕ)
      (timestamp_ns : ℕ)
      → NotFull (append_record crc32 o q w type_id payload timestamp_ns)
  unfolding append_record take_offset
  append_record-NotFull o q w type_id payload timestamp_ns =
      bind-NotFull (mapping q.dir w.segment_id) _ (mapping-NotFull q.dir w.segment_id) λ m.
        bind-NotFull (put_record crc32 m w.write_offset w.seq type_id timestamp_ns payload) _
          (put_record-NotFull m w.write_offset w.seq type_id timestamp_ns payload)
          λ m'.
            bind-NotFull (take_offset w.write_offset (record_len_of (length payload))) _
              (λ e. ground arith) λ offset. ok-NotFull _
