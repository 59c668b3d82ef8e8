-- ===== src/Queue/Limits/Refused.antt =====
-- An append that fails fast is refused exactly where it would exceed the limits.
use chronicle_rs.Base.{
  ℕ, ◌+◌, ◌-◌, ◌≤◌, ◌≡◌, refl, sym, ◌∙◌, subst, List, ok, err, queue_full, if◌then◌else◌, true,
  false, ◌⊎◌, ◌↔◌, inl, inr, Bool-cases, Result-cases, ltb, leb, length, arith, ap, Result, Error,
}
use chronicle_rs.Header.{max_payload_len}
use chronicle_rs.Retention.{min_live_reader_position}
use chronicle_rs.Writer.{record_len_of}
use chronicle_rs.Queue.{Queue}
use chronicle_rs.Queue.Writer.{
  QueueWriter, Outside, fail_fast, has_capacity, is_unlimited, sweep_of, ensure_capacity,
  refresh_capacity, append_with_timestamp, roll_segment,
}
use chronicle_rs.Queue.Limits.{WithinLimits}
use chronicle_rs.Queue.Limits.OtherErrors.{
  NotFull, bind-NotFull, rolled-NotFull, append_record-NotFull,
}
use chronicle_rs.Queue.Limits.Room.{
  behind, room_at, room-WithinLimits, WithinLimits-room, unlimited-WithinLimits,
}

module _ (crc32 : List ℕ → ℕ) where
  -- The record keeps to the limits, seen from the position that the writer holds, or from `pos`.
  abbrev HasRoom : QueueWriter → (pos n : ℕ) → Type 0
  HasRoom w pos n = WithinLimits (behind w w.min_reader_pos n) ⊎ WithinLimits (behind w pos n)

  -- The test for room goes on where there is room, and refuses where there is none.
  abbrev Decides : QueueWriter → (pos n : ℕ) → Result QueueWriter → Type 0
  Decides w pos n (ok w') = HasRoom w pos n
  Decides w pos n (err failure) = (failure ≡ queue_full) × ¬ HasRoom w pos n

  -- Failing fast is one look at the readers.
  ensure_capacity-refresh :
      (o : Outside) (w : QueueWriter) (pos n : ℕ)
      → w.config.backpressure ≡ fail_fast
      → min_live_reader_position crc32 (sweep_of o w) o.readers ≡ ok pos
      → is_unlimited w.config ≡ false
      → has_capacity w n ≡ false
      → ensure_capacity crc32 o w n
        ≡ (if room_at w pos n then ok (record w { min_reader_pos = pos }) else err queue_full)
  unfolding ensure_capacity refresh_capacity has_capacity
  ensure_capacity-refresh o w pos n fast found limited full =
      let looks : ensure_capacity crc32 o w n ≡ refresh_capacity crc32 o w n =
        rw (ensure_capacity, limited, full) (simp fast refl) in
      looks ∙ rw (refresh_capacity, found) refl

  no-HasRoom :
      (w : QueueWriter) (pos n : ℕ)
      → room_at w w.min_reader_pos n ≡ false
      → room_at w pos n ≡ false
      → ¬ HasRoom w pos n
  no-HasRoom w pos n full tight (inl within) =
      let room = WithinLimits-room w w.min_reader_pos n within in absurd (cc)
  no-HasRoom w pos n full tight (inr within) =
      let room = WithinLimits-room w pos n within in absurd (cc)

  refreshed-Decides :
      (w : QueueWriter) (pos n : ℕ)
      → room_at w w.min_reader_pos n ≡ false
      → Decides w pos n
          (if room_at w pos n then ok (record w { min_reader_pos = pos }) else err queue_full)
  refreshed-Decides w pos n full = elim (Bool-cases (room_at w pos n)) [
    | inl room ↦ rw room (inr (room-WithinLimits w pos n room))
    | inr tight ↦ rw tight (refl, no-HasRoom w pos n full tight)
  ]

  ensure_capacity-Decides :
      (o : Outside) (w : QueueWriter) (pos n : ℕ)
      → w.config.backpressure ≡ fail_fast
      → min_live_reader_position crc32 (sweep_of o w) o.readers ≡ ok pos
      → Decides w pos n (ensure_capacity crc32 o w n)
  unfolding ensure_capacity has_capacity
  ensure_capacity-Decides o w pos n fast found = elim (Bool-cases (is_unlimited w.config)) [
    | inl free ↦ rw (ensure_capacity, free) (inl (unlimited-WithinLimits w w.min_reader_pos n free))
    | inr limited ↦ elim (Bool-cases (has_capacity w n)) [
      | inl room ↦
          rw (ensure_capacity, limited, room) (inl (room-WithinLimits w w.min_reader_pos n room))
      | inr full ↦
          subst (Decides w pos n) (sym (ensure_capacity-refresh o w pos n fast found limited full))
            (refreshed-Decides w pos n full)
    ]
  ]

  -- Where the test for room refuses, the append does.
  append-err :
      (o : Outside) (q : Queue) (w : QueueWriter) (type_id : ℕ) (payload : List ℕ)
      (timestamp_ns : ℕ) (failure : Error)
      → length payload ≤ max_payload_len
      → record_len_of (length payload) ≤ w.segment_size - 64
      → ensure_capacity crc32 o w (record_len_of (length payload)) ≡ err failure
      → append_with_timestamp crc32 o q w type_id payload timestamp_ns ≡ err failure
  unfolding append_with_timestamp
  append-err o q w type_id payload timestamp_ns failure short fits refused =
      let short' : leb (length payload) max_payload_len ≡ true = ground arith in
      let fits' : leb (record_len_of (length payload)) (w.segment_size - 64) ≡ true =
        ground arith in
      rw (append_with_timestamp, short', fits', refused) refl

  -- Behind the test an append fails, if at all, with another error.
  append-NotFull :
      (o : Outside) (q : Queue) (w w1 : QueueWriter) (type_id : ℕ) (payload : List ℕ)
      (timestamp_ns : ℕ)
      → length payload ≤ max_payload_len
      → record_len_of (length payload) ≤ w.segment_size - 64
      → ensure_capacity crc32 o w (record_len_of (length payload)) ≡ ok w1
      → NotFull (append_with_timestamp crc32 o q w type_id payload timestamp_ns)
  unfolding append_with_timestamp
  append-NotFull o q w w1 type_id payload timestamp_ns short fits passed =
      let n : ℕ = record_len_of (length payload) in
      let short' : leb (length payload) max_payload_len ≡ true = ground arith in
      let fits' : leb n (w.segment_size - 64) ≡ true = ground arith in
      let full = ltb w1.segment_size (w1.write_offset + n) in
      rw (append_with_timestamp, short', fits', passed)
        (bind-NotFull (if full then roll_segment o q w1 else ok (q, w1)) _
          (rolled-NotFull full o q w1)
          λ r. append_record-NotFull crc32 o r.0 r.1 type_id payload timestamp_ns)

  -- An append under `FailFast`, of a payload that fits a segment, where the readers' metadata give
  -- `pos` as the position of the slowest live reader (of the head, without one), fails with
  -- `QueueFull` exactly if its record would exceed a limit, seen both from the position that the
  -- writer last looked at and from `pos`. So it is not refused as long as there is room.
  pub append-queue_full :
      (o : Outside) (q : Queue) (w : QueueWriter) (type_id : ℕ) (payload : List ℕ)
      (timestamp_ns pos : ℕ)
      → w.config.backpressure ≡ fail_fast
      → length payload ≤ max_payload_len
      → record_len_of (length payload) ≤ w.segment_size - 64
      → min_live_reader_position crc32 (sweep_of o w) o.readers ≡ ok pos
      → let n = record_len_of (length payload) in
        (append_with_timestamp crc32 o q w type_id payload timestamp_ns ≡ err queue_full)
        ↔ (¬ (WithinLimits (behind w w.min_reader_pos n) ⊎ WithinLimits (behind w pos n)))
  append-queue_full o q w type_id payload timestamp_ns pos fast short fits found =
      let n : ℕ = record_len_of (length payload) in
      let decided = ensure_capacity-Decides o w pos n fast found in
      elim (Result-cases (ensure_capacity crc32 o w n)) [
        | inl (w1, e) ↦
            let room : HasRoom w pos n = subst (Decides w pos n) e decided in
            (
              λ h. absurd (append-NotFull o q w w1 type_id payload timestamp_ns short fits e h),
              λ none_left. absurd (none_left room),
            )
        | inr (failure, e) ↦
            let (full, none_left) = subst (Decides w pos n) e decided in
            (
              λ h. none_left,
              λ h.
                  append-err o q w type_id payload timestamp_ns queue_full short fits
                    (e ∙ ap err full),
            )
      ]
