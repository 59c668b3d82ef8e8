-- ===== src/Queue/Limits.antt =====
-- The limits of the writer's configuration: how far an append may get ahead of the slowest reader.
pub mod Append
pub mod Room
pub mod Refused
pub mod OtherErrors
mod Tests
use chronicle_rs.Base.{
  ℕ, ◌+◌, ◌-◌, ◌/◌, ◌%◌, ◌^◌, ◌≤◌, ◌<◌, ◌≡◌, refl, sym, ◌∙◌, subst, List, [], ◌∷◌, ok, err,
  queue_full, payload_too_large, guard, if◌then◌else◌, some, none, true, false, ◌⊎◌, inl, inr,
  Bool-cases, Result-cases, Option-cases, >>=-eq-ok, ltb, leb, length, arith, Option, Result, Error,
  ap,
}
use chronicle_rs.Capacity
use chronicle_rs.Capacity.{bytes_ok, segments_ok, head_after, next_position}
use chronicle_rs.Retention.{global_position, min_live_reader_position}
use chronicle_rs.Writer.{record_len_of, take_offset}
use chronicle_rs.Header.{max_payload_len}
use chronicle_rs.Store.{seal_segment}
use chronicle_rs.Queue.{Queue, mapping}
use chronicle_rs.Queue.Writer.{
  QueueWriter, Outside, BackpressurePolicy, fail_fast, block, has_capacity, is_unlimited,
  poll_capacity, refresh_capacity, ensure_capacity, sweep_of, roll_segment, append_record,
  put_record, next_mapping, append_with_timestamp, maybe_flush_index, flush_index, count_record,
  index_is_due,
}

-- The writer's head is at most as far from the slowest reader's position as the configuration says,
-- in bytes and in segments.
pub record WithinLimits (w : QueueWriter) : Type 0 where
  pub bytes :
      (max_bytes : ℕ)
      → w.config.max_bytes ≡ some max_bytes
      → global_position w.segment_id w.segment_size w.write_offset - w.min_reader_pos ≤ max_bytes
  pub segments :
      (max_segments : ℕ)
      → w.config.max_segments ≡ some max_segments
      → w.segment_id - w.min_reader_pos / w.segment_size + 1 ≤ max_segments

-- What only looks at the readers changes no more than their position.
pub record Looked (w w' : QueueWriter) : Type 0 where
  pub same_segment : w'.segment_id ≡ w.segment_id
  pub same_offset : w'.write_offset ≡ w.write_offset
  pub same_size : w'.segment_size ≡ w.segment_size
  pub same_config : w'.config ≡ w.config

poll_capacity-ok :
    (positions : List ℕ) (w w' : QueueWriter) (n : ℕ)
    → poll_capacity positions w n ≡ ok w'
    → Looked w w' × (has_capacity w' n ≡ true)
unfolding poll_capacity
poll_capacity-ok [] w w' n h = absurd (cc)
poll_capacity-ok (position ∷ positions) w w' n h =
    let moved : QueueWriter = record w { min_reader_pos = position } in
    elim (Bool-cases (has_capacity moved n)) [
      | inl room ↦
          let same : moved ≡ w' = cc in
          subst (λ t. Looked w t × (has_capacity t n ≡ true)) same
            (
              record {
                same_segment = refl;
                same_offset = refl;
                same_size = refl;
                same_config = refl;
              },
              room,
            )
      | inr full ↦
          let (looked, room) = poll_capacity-ok positions moved w' n (ground arith) in
          (
            record {
              same_segment = looked.same_segment;
              same_offset = looked.same_offset;
              same_size = looked.same_size;
              same_config = looked.same_config;
            },
            room,
          )
    ]

-- `maybe_flush_index` leaves the limits' fields alone.
maybe_flush_index-Looked :
    (o : Outside) (q : Queue) (w : QueueWriter)
    → Looked w (maybe_flush_index o q w).1
      × ((maybe_flush_index o q w).1.min_reader_pos ≡ w.min_reader_pos)
unfolding maybe_flush_index flush_index
maybe_flush_index-Looked o q w = elim (Bool-cases (index_is_due o w)) [
  | inl due ↦
      rw (maybe_flush_index, due)
        (
          record { same_segment = refl; same_offset = refl; same_size = refl; same_config = refl },
          refl,
        )
  | inr early ↦
      rw (maybe_flush_index, early)
        (
          record { same_segment = refl; same_offset = refl; same_size = refl; same_config = refl },
          refl,
        )
]

-- The writer of a result, or the one before.
abbrev pub result_writer : QueueWriter → Result (Queue × QueueWriter) → QueueWriter
result_writer w (ok (q, w')) = w'
result_writer w (err failure) = w

-- The fields after a roll that went well.
pub roll_segment-ok :
    (o : Outside) (q q' : Queue) (w w' : QueueWriter)
    → roll_segment o q w ≡ ok (q', w')
    → (w'.segment_id ≡ (w.segment_id + 1) % 2 ^ 32)
      × (w'.write_offset ≡ 64)
      × (w'.segment_size ≡ w.segment_size)
      × (w'.config ≡ w.config)
      × (w'.min_reader_pos ≡ w.min_reader_pos)
unfolding roll_segment
roll_segment-ok o q q' w w' h =
    let (d, e1, h1) = >>=-eq-ok (next_mapping o q.dir w ((w.segment_id + 1) % 2 ^ 32)) _ h in
    let (m, e2, h2) = >>=-eq-ok (mapping d w.segment_id) _ h1 in
    let (sealed, e3, h3) = >>=-eq-ok (seal_segment m) _ h2 in
    let same = ap (result_writer w) h3 in
    (
      sym (ap (λ t. t.segment_id) same),
      sym (ap (λ t. t.write_offset) same),
      sym (ap (λ t. t.segment_size) same),
      sym (ap (λ t. t.config) same),
      sym (ap (λ t. t.min_reader_pos) same),
    )

take_offset-ok : (a n e : ℕ) → take_offset a n ≡ ok e → e ≡ a + n
unfolding take_offset
take_offset-ok a n e h = ground arith

module _ (crc32 : List ℕ → ℕ) where
  -- A refresh is a poll of one position.
  refresh_capacity-poll :
      (o : Outside) (w : QueueWriter) (n position : ℕ)
      → min_live_reader_position crc32 (sweep_of o w) o.readers ≡ ok position
      → refresh_capacity crc32 o w n ≡ poll_capacity (position ∷ []) w n
  unfolding refresh_capacity poll_capacity
  refresh_capacity-poll o w n position e = rw (refresh_capacity, e) refl

  refresh_capacity-err :
      (o : Outside) (w : QueueWriter) (n : ℕ) (failure : Error)
      → min_live_reader_position crc32 (sweep_of o w) o.readers ≡ err failure
      → refresh_capacity crc32 o w n ≡ err queue_full
  unfolding refresh_capacity
  refresh_capacity-err o w n failure e = rw (refresh_capacity, e) refl

  refresh_capacity-ok :
      (o : Outside) (w w' : QueueWriter) (n : ℕ)
      → refresh_capacity crc32 o w n ≡ ok w'
      → Looked w w' × (has_capacity w' n ≡ true)
  refresh_capacity-ok o w w' n h =
      elim (Result-cases (min_live_reader_position crc32 (sweep_of o w) o.readers)) [
        | inr (failure, e) ↦ let full = refresh_capacity-err o w n failure e in absurd (cc)
        | inl (position, e) ↦
            poll_capacity-ok (position ∷ []) w w' n
              (sym (refresh_capacity-poll o w n position e) ∙ h)
      ]

  -- With limits, an append goes on only where there is room.
  pub ensure_capacity-ok :
      (o : Outside) (w w' : QueueWriter) (n : ℕ)
      → ensure_capacity crc32 o w n ≡ ok w'
      → Looked w w' × ((is_unlimited w.config ≡ true) ⊎ (has_capacity w' n ≡ true))
  unfolding ensure_capacity
  ensure_capacity-ok o w w' n h =
      let self : Looked w w = record {
        same_segment = refl;
        same_offset = refl;
        same_size = refl;
        same_config = refl;
      } in
      elim (Bool-cases (is_unlimited w.config)) [
        | inl free ↦ let same : w ≡ w' = cc in (subst (Looked w) same self, inl free)
        | inr limited ↦ elim (Bool-cases (has_capacity w n)) [
          | inl room ↦
              let same : w ≡ w' = cc in
              subst (λ t. Looked w t × ((is_unlimited w.config ≡ true) ⊎ (has_capacity t n ≡ true)))
                same (self, inr room)
          | inr full ↦
              let (looked, room) = waited o w w' n w.config.backpressure refl limited full h in
              (looked, inr room)
        ]
      ]
    where
      waited :
          (o : Outside) (w w' : QueueWriter) (n : ℕ) (policy : BackpressurePolicy)
          → w.config.backpressure ≡ policy
          → is_unlimited w.config ≡ false
          → has_capacity w n ≡ false
          → ensure_capacity crc32 o w n ≡ ok w'
          → Looked w w' × (has_capacity w' n ≡ true)
      waited o w w' n fail_fast e limited full h =
          refresh_capacity-ok o w w' n (rw (limited, full, e) at h)
      waited o w w' n (block timeout poll_interval) e limited full h =
          poll_capacity-ok o.positions w w' n (rw (limited, full, e) at h)

  pub append_record-ok :
      (o : Outside) (q q' : Queue) (w w' : QueueWriter) (type_id : ℕ) (payload : List ℕ)
      (timestamp_ns : ℕ)
      → append_record crc32 o q w type_id payload timestamp_ns ≡ ok (q', w')
      → (w'.segment_id ≡ w.segment_id)
        × (w'.write_offset ≡ w.write_offset + record_len_of (length payload))
        × (w'.segment_size ≡ w.segment_size)
        × (w'.config ≡ w.config)
        × (w'.min_reader_pos ≡ w.min_reader_pos)
  unfolding append_record count_record
  append_record-ok o q q' w w' type_id payload timestamp_ns h =
      let (m, e1, h1) = >>=-eq-ok (mapping q.dir w.segment_id) _ h in
      let (m', e2, h2) =
        >>=-eq-ok (put_record crc32 m w.write_offset w.seq type_id timestamp_ns payload) _ h1 in
      let (offset, e3, h3) =
        >>=-eq-ok (take_offset w.write_offset (record_len_of (length payload))) _ h2 in
      let moved = take_offset-ok w.write_offset (record_len_of (length payload)) offset e3 in
      let same = ap (result_writer w) h3 in
      let (looked, position) = maybe_flush_index-Looked o _ _ in
      (
        sym (ap (λ t. t.segment_id) same) ∙ looked.same_segment,
        sym (ap (λ t. t.write_offset) same) ∙ looked.same_offset ∙ moved,
        sym (ap (λ t. t.segment_size) same) ∙ looked.same_size,
        sym (ap (λ t. t.config) same) ∙ looked.same_config,
        sym (ap (λ t. t.min_reader_pos) same) ∙ position,
      )
