-- ===== src/Queue/Limits/Append.antt =====
-- An append keeps to the limits.
use chronicle_rs.Base.{
  ℕ, ◌+◌, ◌-◌, ◌/◌, ◌%◌, ◌^◌, ◌≤◌, ◌<◌, ◌≡◌, refl, sym, ◌∙◌, subst, List, ok, some,
  payload_too_large, guard, if◌then◌else◌, ◌&&◌, Bool, true, false, ◌⊎◌, inl, inr, >>=-eq-ok, ltb,
  leb, length, arith, ap,
}
use chronicle_rs.Header.{max_payload_len}
use chronicle_rs.Capacity
use chronicle_rs.Capacity.{bytes_ok, segments_ok, head_after, next_position}
use chronicle_rs.Retention.{global_position}
use chronicle_rs.Writer.{record_len_of}
use chronicle_rs.Queue.{Queue}
use chronicle_rs.Queue.Writer.{
  QueueWriter, WriterConfig, Outside, has_capacity, is_unlimited, ensure_capacity, roll_segment,
  append_with_timestamp,
}
use chronicle_rs.Queue.Limits.{
  WithinLimits, result_writer, roll_segment-ok, ensure_capacity-ok, append_record-ok,
}

abbrev pub capacity_of : QueueWriter → Capacity.QueueWriter
capacity_of w = record {
  segment_id = w.segment_id;
  write_offset = w.write_offset;
  segment_size = w.segment_size;
  max_bytes = w.config.max_bytes;
  max_segments = w.config.max_segments;
}

-- The roll, where the segment is full.
roll_if-ok :
    (full : Bool) (o : Outside) (q q2 : Queue) (w w2 : QueueWriter)
    → (if full then roll_segment o q w else ok (q, w)) ≡ ok (q2, w2)
    → (w2.segment_id ≡ (if full then (w.segment_id + 1) % 2 ^ 32 else w.segment_id))
      × (w2.write_offset ≡ (if full then 64 else w.write_offset))
      × (w2.segment_size ≡ w.segment_size)
      × (w2.config ≡ w.config)
      × (w2.min_reader_pos ≡ w.min_reader_pos)
roll_if-ok true o q q2 w w2 h = roll_segment-ok o q q2 w w2 h
roll_if-ok false o q q2 w w2 h =
    let same : w2 ≡ w = sym (ap (result_writer w) h) in
    (
      ap (λ t. t.segment_id) same,
      ap (λ t. t.write_offset) same,
      ap (λ t. t.segment_size) same,
      ap (λ t. t.config) same,
      ap (λ t. t.min_reader_pos) same,
    )

leb→le : (a b : ℕ) → leb a b ≡ true → a ≤ b
leb→le a b h = ground arith

and-true : (a b : Bool) → (a && b) ≡ true → (a ≡ true) × (b ≡ true)
and-true true b h = (refl, h)
and-true false b h = absurd (cc)

-- The position behind a record, as the test for room computes it.
next_position-roll :
    (w : QueueWriter) (n id off : ℕ)
    → w.segment_id + 1 < 2 ^ 32
    → id ≡ (
        if ltb w.segment_size (w.write_offset + n)
        then (w.segment_id + 1) % 2 ^ 32
        else w.segment_id)
    → off ≡ (if ltb w.segment_size (w.write_offset + n) then 64 else w.write_offset)
    → (id ≡ (next_position (capacity_of w) n).0) × (off + n ≡ (next_position (capacity_of w) n).1)
unfolding next_position
next_position-roll w n id off small h1 h2 = ground arith

pub bytes_within :
    (c : Capacity.QueueWriter) (pos n max_bytes : ℕ)
    → c.max_bytes ≡ some max_bytes
    → Capacity.has_capacity c pos n ≡ true
    → global_position (next_position c n).0 c.segment_size (next_position c n).1 - pos ≤ max_bytes
unfolding Capacity.has_capacity bytes_ok head_after global_position next_position
bytes_within c pos n max_bytes limit room =
    let (first, _) = and-true (bytes_ok c pos n) (segments_ok c pos n) room in
    leb→le _ _ (rw limit at first)

pub segments_within :
    (c : Capacity.QueueWriter) (pos n max_segments : ℕ)
    → c.max_segments ≡ some max_segments
    → Capacity.has_capacity c pos n ≡ true
    → (next_position c n).0 - pos / c.segment_size + 1 ≤ max_segments
unfolding Capacity.has_capacity segments_ok next_position
segments_within c pos n max_segments limit room =
    let (_, second) = and-true (bytes_ok c pos n) (segments_ok c pos n) room in
    leb→le _ _ (rw limit at second)

bytes_limited :
    (c : WriterConfig) (max_bytes : ℕ) → c.max_bytes ≡ some max_bytes → is_unlimited c ≡ false
unfolding is_unlimited
bytes_limited c max_bytes limit = ground arith

segments_limited :
    (c : WriterConfig) (max_segments : ℕ)
    → c.max_segments ≡ some max_segments
    → is_unlimited c ≡ false
unfolding is_unlimited
segments_limited c max_segments limit = ground arith

-- With a limit, the test has passed.
passed : (a b : Bool) → (a ≡ true) ⊎ (b ≡ true) → a ≡ false → b ≡ true
passed a b (inl h) limited = absurd (cc)
passed a b (inr h) limited = h

-- Where the test passed before, the limits hold behind the record.
within :
    (w w' : QueueWriter) (n : ℕ)
    → w'.segment_id ≡ (next_position (capacity_of w) n).0
    → w'.write_offset ≡ (next_position (capacity_of w) n).1
    → w'.segment_size ≡ w.segment_size
    → w'.config ≡ w.config
    → w'.min_reader_pos ≡ w.min_reader_pos
    → (is_unlimited w.config ≡ true) ⊎ (has_capacity w n ≡ true)
    → WithinLimits w'
unfolding has_capacity
within w w' n id off size config pos room = record {
  bytes = λ max_bytes limit.
      let here : w.config.max_bytes ≡ some max_bytes = ap (λ c. c.max_bytes) (sym config) ∙ limit in
      let test = passed _ _ room (bytes_limited w.config max_bytes here) in
      rw (id, off, size, pos) (bytes_within (capacity_of w) w.min_reader_pos n max_bytes here test);
  segments = λ max_segments limit.
      let here : w.config.max_segments ≡ some max_segments =
        ap (λ c. c.max_segments) (sym config) ∙ limit in
      let test = passed _ _ room (segments_limited w.config max_segments here) in
      rw (id, size, pos)
        (segments_within (capacity_of w) w.min_reader_pos n max_segments here test);
}

module _ (crc32 : List ℕ → ℕ) where
  -- Under every policy of back pressure, an append that succeeds keeps to the configured limits: its
  -- head, behind the record, is at most `max_bytes` bytes and `max_segments` segments ahead of the
  -- position of the slowest reader that the writer last looked at. Segment ids stay below 2^32.
  pub append-WithinLimits :
      (o : Outside) (q q' : Queue) (w w' : QueueWriter) (type_id : ℕ) (payload : List ℕ)
      (timestamp_ns : ℕ)
      → w.segment_id + 1 < 2 ^ 32
      → append_with_timestamp crc32 o q w type_id payload timestamp_ns ≡ ok (q', w')
      → WithinLimits w'
  unfolding append_with_timestamp
  append-WithinLimits o q q' w w' type_id payload timestamp_ns small h =
      let n : ℕ = record_len_of (length payload) in
      let (_, _, h1) =
        >>=-eq-ok (guard (leb (length payload) max_payload_len) payload_too_large) _ h in
      let (_, _, h2) = >>=-eq-ok (guard (leb n (w.segment_size - 64)) payload_too_large) _ h1 in
      let (w1, e3, h3) = >>=-eq-ok (ensure_capacity crc32 o w n) _ h2 in
      let full = ltb w1.segment_size (w1.write_offset + n) in
      let ((q2, w2), e4, h4) = >>=-eq-ok (if full then roll_segment o q w1 else ok (q, w1)) _ h3 in
      let (looked, room) = ensure_capacity-ok crc32 o w w1 n e3 in
      let (id', off', size', config', pos') = roll_if-ok full o q q2 w1 w2 e4 in
      let (id, off, size, config, pos) =
        append_record-ok crc32 o q2 q' w2 w' type_id payload timestamp_ns h4 in
      let (at, behind) =
        next_position-roll w1 n w2.segment_id w2.write_offset (omega (arith, looked.same_segment))
          id' off' in
      within w1 w' n (id ∙ at) (off ∙ behind) (size ∙ size') (config ∙ config') (pos ∙ pos') (
        subst (λ c. (is_unlimited c ≡ true) ⊎ (has_capacity w1 n ≡ true)) (sym looked.same_config)
          room)
