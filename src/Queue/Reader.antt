-- ===== src/Queue/Reader.antt =====
-- src/core/reader.rs: reading the live queue: the next record, the step to the next segment, the
-- writer's state as a reader sees it, commits and batches.
use Prim.Native.Nat.{bit_and}
use chronicle_rs.Base.{
  ℕ, zero, suc, ◌+◌, ◌-◌, ◌*◌, ◌%◌, ◌^◌, Bool, true, false, List, [], ◌∷◌, Option, none, some,
  Result, ok, err, corrupt, guard, ◌>>=◌, ◌>>◌, ltb, leb, ◌==◌, not, if◌then◌else◌, lookup, length,
}
use chronicle_rs.Bytes.{Mem, slice}
use chronicle_rs.Header.{header_size, pad_type_id, load_commit_len}
use chronicle_rs.Store.{seg_data_offset, read_segment_header, open_segment}
use chronicle_rs.Reader.{ReaderMeta, store_reader_meta}
use chronicle_rs.Tail.{repair_unsealed_tail}
use chronicle_rs.Cursor.{MessageRef, read_record}
use chronicle_rs.Log.{MessageView}
use chronicle_rs.Queue.{Queue, mapping, store_mapping}

-- `meta_file` is the reader's metadata file.
pub record QueueReader : Type 0 where
  pub segment_id : ℕ
  pub read_offset : ℕ
  pub meta : ReaderMeta
  pub meta_file : Option (List ℕ)
  pub segment_size : ℕ

pub data DisconnectReason : Type 0 where
  writer_lock_lost heartbeat_stale segment_missing : DisconnectReason

abbrev pub writer_ttl_ns : ℕ
writer_ttl_ns = 5_000_000_000

-- What a call meets outside the queue: the clock, and whether the lock's owner lives.
pub record Outside : Type 0 where
  pub now_ns : ℕ
  pub lock_alive : Bool

unfoldable pub writer_dead_reason : Outside → Queue → ℕ → Option DisconnectReason
writer_dead_reason o q ttl_ns =
    let heartbeat = q.control.writer_heartbeat_ns in
    if o.lock_alive
    then if heartbeat == 0
      then none
      else if ltb ttl_ns (o.now_ns - heartbeat)
      then some heartbeat_stale
      else none
    else if heartbeat == 0
    then some writer_lock_lost
    else if ltb ttl_ns (o.now_ns - heartbeat)
    then some writer_lock_lost
    else none

unfoldable pub writer_dead : Outside → Queue → Bool
writer_dead o q = elim (writer_dead_reason o q writer_ttl_ns) [ none ↦ false | some _ ↦ true ]

unfoldable pub detect_disconnect : Outside → Queue → QueueReader → ℕ → Option DisconnectReason
detect_disconnect o q r ttl_ns = elim (lookup r.segment_id q.dir.files) [
  | none ↦ some segment_missing
  | some _ ↦ writer_dead_reason o q ttl_ns
]

-- The end of `advance_segment`, with the next segment there and the current one sealed.
unfoldable pub enter_segment : Queue → QueueReader → ℕ → Result (Bool × Queue × QueueReader)
enter_segment q r next_segment = do
  m ← open_segment q.dir next_segment r.segment_size
  ok (true, q, record r { segment_id = next_segment; read_offset = seg_data_offset })

-- The repair of a dead writer's segment; `none` is the repair's scan out of fuel.
unfoldable pub repair_and_enter :
    Queue → QueueReader → Mem → ℕ → Option (Result (Bool × Queue × QueueReader))
repair_and_enter q r m next_segment = elim (repair_unsealed_tail m r.segment_size) [
  | none ↦ none
  | some (err e) ↦ some (err e)
  | some (ok m') ↦
      some (enter_segment (record q { dir = store_mapping q.dir r.segment_id m' }) r next_segment)
]

-- `advance_segment`, with the bytes of the reader's segment.
unfoldable pub advance_segment :
    Outside → Queue → QueueReader → Mem → Option (Result (Bool × Queue × QueueReader))
advance_segment o q r m =
    let next_segment = (r.segment_id + 1) % 2 ^ 32 in
    if leb q.control.current_segment r.segment_id
    then some (ok (false, q, r))
    else elim (read_segment_header m) [
      | err e ↦ some (err e)
      | ok header ↦ elim (lookup next_segment q.dir.files) [
        | none ↦ some (ok (false, q, r))
        | some _ ↦
            if not (bit_and header.flags 1 == 0)
            then some (enter_segment q r next_segment)
            else if writer_dead o q
            then repair_and_enter q r m next_segment
            else some (ok (false, q, r))
      ]
    ]

unfoldable pub peek_committed : Queue → QueueReader → Result Bool
peek_committed q r = do
  m ← mapping q.dir r.segment_id
  ok (
      if ltb (r.segment_size - header_size) r.read_offset
      then false
      else not (load_commit_len m r.read_offset == 0))

unfoldable pub payload_at : Mem → ℕ → ℕ → Result (List ℕ)
payload_at m offset len =
    if ltb (length m) (offset + len)
    then err (corrupt "payload out of bounds")
    else ok (slice m offset len)

-- The message that `next` makes of what `next_ref` has found.
unfoldable pub view_of : Queue → QueueReader → Option MessageRef → Result (Option MessageView)
view_of q r none = ok none
view_of q r (some ref) = do
  m ← mapping q.dir r.segment_id
  payload ← payload_at m ref.payload_offset ref.payload_len
  ok (
      some (record {
        seq = ref.seq;
        timestamp_ns = ref.timestamp_ns;
        type_id = ref.type_id;
        payload = payload;
      }))

module _ (crc32 : List ℕ → ℕ) where
  -- The end of a round of `next_ref`: a record that is no padding.
  unfoldable pub checked :
      Queue → QueueReader → Mem → MessageRef → Result (Option MessageRef × Queue × QueueReader)
  checked q r m ref = do
    let payload = slice m ref.payload_offset ref.payload_len
    guard (crc32 payload == ref.checksum) (corrupt "crc mismatch")
    ok (some ref, q, r)

  -- The loop of `next_ref`. The mapping has the segment's size. `none` means that the fuel ran out.
  unfoldable pub next_loop :
      ℕ → Outside → Queue → QueueReader → Option (Result (Option MessageRef × Queue × QueueReader))
  next_loop zero o q r = none
  next_loop (suc fuel) o q r = elim (mapping q.dir r.segment_id) [
    | err e ↦ some (err e)
    | ok m ↦ elim (read_record m r.read_offset) [
      | err e ↦ some (err e)
      | ok none ↦ elim (advance_segment o q r m) [
        | none ↦ none
        | some (err e) ↦ some (err e)
        | some (ok (false, q', r')) ↦ some (ok (none, q', r'))
        | some (ok (true, q', r')) ↦ next_loop fuel o q' r'
      ]
      | ok (some (ref, offset)) ↦
          let r' = record r { read_offset = offset } in
          elim (ref.type_id == pad_type_id) [
            | true ↦ next_loop fuel o q r'
            | false ↦ some (checked q r' m ref)
          ]
    ]
  ]

  -- Rounds enough: a round that goes on moves by at least 64 bytes or to the next segment.
  unfoldable pub rounds : Queue → QueueReader → ℕ
  rounds q r = (q.control.current_segment - r.segment_id + 1) * (r.segment_size + 1)

  unfoldable pub next_ref :
      Outside → Queue → QueueReader → Option (Result (Option MessageRef × Queue × QueueReader))
  unfolding next_loop rounds
  next_ref o q r = next_loop (rounds q r) o q r

  unfoldable pub next :
      Outside → Queue → QueueReader → Option (Result (Option MessageView × Queue × QueueReader))
  unfolding next_ref
  next o q r = elim (next_ref o q r) [
    | none ↦ none
    | some (err e) ↦ some (err e)
    | some (ok (found, q', r')) ↦ some (do view ← view_of q' r' found; ok (view, q', r'))
  ]

  -- `drain_available`, at most `max` messages.
  unfoldable pub drain_available :
      ℕ → Outside → Queue → QueueReader → Option (Result (List MessageView × Queue × QueueReader))
  drain_available zero o q r = some (ok ([], q, r))
  drain_available (suc max) o q r = elim (next o q r) [
    | none ↦ none
    | some (err e) ↦ some (err e)
    | some (ok (none, q', r')) ↦ some (ok ([], q', r'))
    | some (ok (some view, q', r')) ↦ elim (drain_available max o q' r') [
      | none ↦ none
      | some (err e) ↦ some (err e)
      | some (ok (views, q'', r'')) ↦ some (ok (view ∷ views, q'', r''))
    ]
  ]

  unfoldable pub save_meta : QueueReader → ReaderMeta → QueueReader
  save_meta r meta =
      let (file, meta') = store_reader_meta crc32 r.meta_file meta in
      record r { meta = meta'; meta_file = some file }

  unfoldable pub commit : Outside → QueueReader → QueueReader
  commit o r = save_meta r (record r.meta {
    segment_id = r.segment_id;
    offset = r.read_offset;
    last_heartbeat_ns = o.now_ns;
  })

  unfoldable pub maybe_heartbeat : Outside → QueueReader → QueueReader
  maybe_heartbeat o r =
      if ltb 1_000_000_000 (o.now_ns - r.meta.last_heartbeat_ns)
      then save_meta r (record r.meta { last_heartbeat_ns = o.now_ns })
      else r
