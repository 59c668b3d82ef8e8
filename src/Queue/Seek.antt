-- ===== src/Queue/Seek.antt =====
-- src/core/reader.rs: seeking a message by number or by time: the choice of a segment and of an
-- index entry, opening the segment, and the scan. In a result `none` is the read loop out of fuel.
pub mod Search
use chronicle_rs.Base.{
  ℕ, zero, suc, ◌+◌, ◌-◌, ◌/◌, ◌%◌, ◌^◌, max, Bool, true, false, ◌&&◌, List, [], ◌∷◌, Option, none,
  some, Result, ok, err, io, not_found, corrupt, ◌>>=◌, leb, ltb, ◌==◌, if◌then◌else◌, length,
  get_elem?, lookup,
}
use chronicle_rs.Store.{Dir, seg_data_offset, open_segment, discover_segments}
use chronicle_rs.SeekIndex.{SeekIndexHeader, SeekIndexEntry, load_index_header, load_index_entries}
use chronicle_rs.Header.{header_size}
use chronicle_rs.Cursor.{MessageRef}
use chronicle_rs.Queue.{Queue}
use chronicle_rs.Queue.Reader.{QueueReader, Outside, next_ref, rounds}

unfoldable pub load_seek_headers : List (ℕ × List ℕ) → List ℕ → Result (List SeekIndexHeader)
load_seek_headers indexes [] = ok []
load_seek_headers indexes (id ∷ ids) = do
  found ← load_index_header (lookup id indexes)
  rest ← load_seek_headers indexes ids
  ok (elim found [ none ↦ rest | some header ↦ header ∷ rest ])

-- The first header with the test, or the other.
unfoldable pub first_with : (SeekIndexHeader → Bool) → List SeekIndexHeader → Option SeekIndexHeader
first_with test [] = none
first_with test (h ∷ headers) = if test h then some h else first_with test headers

unfoldable pub last_header : SeekIndexHeader → List SeekIndexHeader → SeekIndexHeader
last_header h [] = h
last_header h (h' ∷ headers) = last_header h' headers

unfoldable pub or_else : Option SeekIndexHeader → Option SeekIndexHeader → Option SeekIndexHeader
or_else none other = other
or_else (some h) other = some h

-- Both selections of the code, over the bounds that each compares with.
unfoldable pub select_header :
    (SeekIndexHeader → ℕ)
    → (SeekIndexHeader → ℕ)
    → List SeekIndexHeader
    → ℕ
    → Option SeekIndexHeader
select_header lower upper [] target = none
select_header lower upper (h ∷ headers) target =
    let final = last_header h headers in
    let within = first_with (λ x. leb (lower x) target && leb target (upper x)) (h ∷ headers) in
    let above = first_with (λ x. leb target (upper x)) (h ∷ headers) in
    if leb target (lower h)
    then some h
    else if ltb (upper final) target
    then some final
    else or_else within (or_else above (some final))

unfoldable pub select_header_for_seq : List SeekIndexHeader → ℕ → Option SeekIndexHeader
unfolding select_header
select_header_for_seq headers target_seq =
    select_header (λ h. h.min_seq) (λ h. h.max_seq) headers target_seq

unfoldable pub select_header_for_timestamp : List SeekIndexHeader → ℕ → Option SeekIndexHeader
unfolding select_header
select_header_for_timestamp headers target_ts_ns =
    select_header (λ h. h.min_ts_ns) (λ h. h.max_ts_ns) headers target_ts_ns

-- The loop of `find_entry_by_seq`: a round halves the range, so as many rounds as there are entries
-- are enough.
unfoldable pub search_loop : ℕ → List SeekIndexEntry → ℕ → ℕ → ℕ → ℕ
search_loop zero entries target_seq lo hi = lo
search_loop (suc fuel) entries target_seq lo hi = elim (ltb lo hi) [
  | false ↦ lo
  | true ↦ elim (get_elem? entries ((lo + hi) / 2)) [
    | none ↦ lo
    | some entry ↦ elim (leb entry.seq target_seq) [
      | true ↦ search_loop fuel entries target_seq ((lo + hi) / 2 + 1) hi
      | false ↦ search_loop fuel entries target_seq lo ((lo + hi) / 2)
    ]
  ]
]

unfoldable pub find_entry_by_seq : List SeekIndexEntry → ℕ → Option SeekIndexEntry
unfolding search_loop
find_entry_by_seq entries target_seq =
    let lo = search_loop (length entries) entries target_seq 0 (length entries) in
    if lo == 0 then none else get_elem? entries (lo - 1)

-- The loop of `find_entry_by_timestamp`, over the key that is compared.
unfoldable pub scan_entries :
    (SeekIndexEntry → ℕ) → Option SeekIndexEntry → List SeekIndexEntry → ℕ → Option SeekIndexEntry
scan_entries key best [] target = best
scan_entries key best (entry ∷ entries) target =
    let best' = if leb (key entry) target then some entry else best in
    scan_entries key best' entries target

unfoldable pub find_entry_by_timestamp : List SeekIndexEntry → ℕ → Option SeekIndexEntry
unfolding scan_entries
find_entry_by_timestamp entries target_ts_ns =
    scan_entries (λ e. e.timestamp_ns) none entries target_ts_ns

-- The segment that a seek opens, and where it begins there.
unfoldable pub resolve_segment : Dir → ℕ → ℕ → ℕ → Result (ℕ × ℕ)
resolve_segment d segment_id offset segment_size = elim (open_segment d segment_id segment_size) [
  | ok m ↦ ok (segment_id, max offset seg_data_offset)
  | err (io not_found) ↦ elim (discover_segments d) [
    | [] ↦ err (corrupt "no segments found")
    | oldest ∷ _ ↦ do
      m ← open_segment d oldest segment_size
      ok (oldest, if oldest == segment_id then max offset seg_data_offset else seg_data_offset)
  ]
  | err e ↦ err e
]

unfoldable pub open_segment_for_seek : Queue → QueueReader → ℕ → ℕ → Result QueueReader
open_segment_for_seek q r segment_id offset = do
  (resolved_segment, read_offset) ← resolve_segment q.dir segment_id offset r.segment_size
  let id = resolved_segment % 2 ^ 32
  ok (record r {
    segment_id = id;
    read_offset = read_offset;
    meta = record r.meta { segment_id = id; offset = read_offset };
  })

-- The segment and the offset that a seek begins with. `select` and `find` choose the header and the
-- entry; `oldest` is the first segment.
unfoldable pub seek_start :
    (List SeekIndexHeader → ℕ → Option SeekIndexHeader)
    → (List SeekIndexEntry → ℕ → Option SeekIndexEntry)
    → Queue
    → (oldest : ℕ) → (segments : List ℕ) → ℕ
    → Result (ℕ × ℕ)
seek_start select find q oldest segments target = do
  headers ← load_seek_headers q.indexes segments
  let indexed : SeekIndexHeader → Result (ℕ × ℕ) = λ header. do
    entries ← load_index_entries (lookup header.segment_id q.indexes) header
    ok (
      header.segment_id,
      elim (find entries target) [
        | none ↦ header.data_offset
        | some entry ↦ max entry.offset seg_data_offset
      ],
    )
  elim (select headers target) [
    | none ↦ ok (oldest, seg_data_offset)
    | some header ↦ indexed header
  ]

-- The reader stands before the record that was found.
unfoldable pub stop_at : QueueReader → MessageRef → QueueReader
stop_at r ref = record r {
  read_offset = ref.payload_offset - header_size;
  meta = record r.meta { segment_id = r.segment_id; offset = ref.payload_offset - header_size };
}

module _ (crc32 : List ℕ → ℕ) where
  -- `scan_to_seq` and `scan_to_timestamp`, over the key that is compared.
  unfoldable pub scan_to :
      (MessageRef → ℕ)
      → ℕ
      → Outside
      → Queue
      → QueueReader
      → ℕ
      → Option (Result (Bool × Queue × QueueReader))
  scan_to key zero o q r target = none
  scan_to key (suc fuel) o q r target = elim (next_ref crc32 o q r) [
    | none ↦ none
    | some (err e) ↦ some (err e)
    | some (ok (none, q', r')) ↦ some (ok (false, q', r'))
    | some (ok (some ref, q', r')) ↦ elim (leb target (key ref)) [
      | true ↦ some (ok (true, q', stop_at r' ref))
      | false ↦ scan_to key fuel o q' r' target
    ]
  ]

  -- The end of both seeks. A message takes at least 64 bytes, so the rounds of the read loop are
  -- rounds enough here, too.
  unfoldable pub seek_from :
      (MessageRef → ℕ)
      → Outside
      → Queue
      → QueueReader
      → Result (ℕ × ℕ)
      → ℕ
      → Option (Result (Bool × Queue × QueueReader))
  unfolding scan_to
  seek_from key o q r (err e) target = some (err e)
  seek_from key o q r (ok (segment_id, offset)) target =
      elim (open_segment_for_seek q r segment_id offset) [
        | err e ↦ some (err e)
        | ok r' ↦ scan_to key (rounds crc32 q r') o q r' target
      ]

  unfoldable pub seek_seq :
      Outside → Queue → QueueReader → ℕ → Option (Result (Bool × Queue × QueueReader))
  seek_seq o q r target_seq = elim (discover_segments q.dir) [
    | [] ↦ some (ok (false, q, r))
    | oldest ∷ segments ↦
        seek_from (λ ref. ref.seq) o q r
          (seek_start select_header_for_seq find_entry_by_seq q oldest (oldest ∷ segments)
            target_seq)
          target_seq
  ]

  unfoldable pub seek_timestamp :
      Outside → Queue → QueueReader → ℕ → Option (Result (Bool × Queue × QueueReader))
  seek_timestamp o q r target_ts_ns = elim (discover_segments q.dir) [
    | [] ↦ some (ok (false, q, r))
    | oldest ∷ segments ↦
        seek_from (λ ref. ref.timestamp_ns) o q r
          (seek_start select_header_for_timestamp find_entry_by_timestamp q oldest
            (oldest ∷ segments) target_ts_ns)
          target_ts_ns
  ]
