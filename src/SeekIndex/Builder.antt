-- ===== src/SeekIndex/Builder.antt =====
-- What the builder of a seek index has after a run of records, and what its file gives back.
use chronicle_rs.Base.{
  ℕ, zero, suc, ◌+◌, ◌-◌, ◌^◌, ◌<◌, ◌≤◌, ◌≡◌, refl, sym, ap, ◌∙◌, subst, min, max, List, [], ◌∷◌,
  ◌++◌, Option, none, some, ok, length, length-append, take, drop, take-append, drop-append, arith,
  All, ltb, false, append-nil, append_assoc, get_elem?,
}
use chronicle_rs.SeekIndex.{
  SeekIndexEntry, SeekIndexBuilder, new, observe, saturating_add, map_or, header_of, encode_header,
  encode_entries, read_entries, flush, load_index_header, load_index_entries,
}
use chronicle_rs.SeekIndex.Codec.{
  IsIndexHeader, decode_header-encode_header, IsEntry, read_entries-encode_entries,
  length-encode_header,
}

-- The records, one after the other.
unfoldable pub observe_all : SeekIndexBuilder → List SeekIndexEntry → SeekIndexBuilder
observe_all b [] = b
observe_all b (r ∷ rs) = observe_all (observe b r.seq r.timestamp_ns r.offset) rs

-- Every `stride`-th record, after the next `skip` ones.
unfoldable pub every : (stride skip : ℕ) → List SeekIndexEntry → List SeekIndexEntry
every stride skip [] = []
every stride zero (r ∷ rs) = r ∷ every stride (stride - 1) rs
every stride (suc skip) (r ∷ rs) = every stride skip rs

observe_due :
    (b : SeekIndexBuilder) (r : SeekIndexEntry)
    → b.next_entry_at ≡ b.record_index
    → b.next_entry_at + b.entry_stride < 2 ^ 64
    → 1 ≤ b.entry_stride
    → let b' = observe b r.seq r.timestamp_ns r.offset in
      (b'.entries ≡ b.entries ++ (r ∷ []))
      × (b'.next_entry_at ≡ b.next_entry_at + b.entry_stride)
      × (b'.record_index ≡ b.record_index + 1)
      × (b'.entry_stride ≡ b.entry_stride)
unfolding observe saturating_add
observe_due b r h room s = ground arith

observe_between :
    (b : SeekIndexBuilder) (r : SeekIndexEntry)
    → b.record_index < b.next_entry_at
    → b.next_entry_at < 2 ^ 64
    → let b' = observe b r.seq r.timestamp_ns r.offset in
      (b'.entries ≡ b.entries)
      × (b'.next_entry_at ≡ b.next_entry_at)
      × (b'.record_index ≡ b.record_index + 1)
      × (b'.entry_stride ≡ b.entry_stride)
unfolding observe saturating_add
observe_between b r h room = ground arith

entries_from :
    (b : SeekIndexBuilder) (skip : ℕ) (rs : List SeekIndexEntry)
    → b.next_entry_at ≡ b.record_index + skip
    → 1 ≤ b.entry_stride
    → skip ≤ b.entry_stride
    → b.record_index + length rs + b.entry_stride < 2 ^ 64
    → (observe_all b rs).entries ≡ b.entries ++ every b.entry_stride skip rs
unfolding observe_all every
entries_from b skip [] h s le room = sym (append-nil b.entries)
entries_from b zero (r ∷ rs) h s le room =
    let b' : SeekIndexBuilder = observe b r.seq r.timestamp_ns r.offset in
    let (es, at, index, stride) = observe_due b r (omega arith) (omega arith) s in
    entries_from b' (b.entry_stride - 1) rs (omega arith) (omega arith) (omega arith) (omega arith)
    ∙ rw (es, stride)
        (append_assoc b.entries (r ∷ []) (every b.entry_stride (b.entry_stride - 1) rs))
entries_from b (suc skip) (r ∷ rs) h s le room =
    let b' : SeekIndexBuilder = observe b r.seq r.timestamp_ns r.offset in
    let (es, at, index, stride) = observe_between b r (omega arith) (omega arith) in
    entries_from b' skip rs (omega arith) (omega arith) (omega arith) (omega arith)
    ∙ rw (es, stride) refl

-- A builder that has seen the records of a segment holds every `entry_stride`-th of them, from the
-- first on.
pub observe_all-entries :
    (id size data_offset stride : ℕ) (rs : List SeekIndexEntry)
    → 1 ≤ stride
    → stride + length rs < 2 ^ 64
    → (observe_all (new id size data_offset stride) rs).entries ≡ every stride 0 rs
unfolding new
observe_all-entries id size data_offset stride rs h room =
    let b : SeekIndexBuilder = new id size data_offset stride in
    let same : max stride 1 ≡ stride = omega arith in
    entries_from b 0 rs refl (omega arith) (omega arith) (omega arith) ∙ ap (λ t. every t 0 rs) same

-- `o` is at most `x`, and is there; likewise at least.
abbrev pub Below : Option ℕ → ℕ → Type 0
Below none x = ⊥
Below (some y) x = y ≤ x

abbrev pub Above : Option ℕ → ℕ → Type 0
Above none x = ⊥
Above (some y) x = x ≤ y

-- The bounds of a builder cover a record.
pub record Covers (b : SeekIndexBuilder) (r : SeekIndexEntry) : Type 0 where
  pub min_seq_le : Below b.min_seq r.seq
  pub max_seq_ge : Above b.max_seq r.seq
  pub min_ts_le : Below b.min_ts_ns r.timestamp_ns
  pub max_ts_ge : Above b.max_ts_ns r.timestamp_ns

min-Below : (o : Option ℕ) (x y : ℕ) → Below o y → Below (some (map_or min o x)) y
unfolding map_or
min-Below none x y h = absurd h
min-Below (some a) x y h = omega arith

max-Above : (o : Option ℕ) (x y : ℕ) → Above o y → Above (some (map_or max o x)) y
unfolding map_or
max-Above none x y h = absurd h
max-Above (some a) x y h = omega arith

min_self : (o : Option ℕ) (x : ℕ) → Below (some (map_or min o x)) x
unfolding map_or
min_self none x = omega arith
min_self (some a) x = omega arith

max_self : (o : Option ℕ) (x : ℕ) → Above (some (map_or max o x)) x
unfolding map_or
max_self none x = omega arith
max_self (some a) x = omega arith

observe-Covers :
    (b : SeekIndexBuilder) (r q : SeekIndexEntry)
    → Covers b q
    → Covers (observe b r.seq r.timestamp_ns r.offset) q
unfolding observe
observe-Covers b r q v = record {
  min_seq_le = min-Below b.min_seq r.seq q.seq v.min_seq_le;
  max_seq_ge = max-Above b.max_seq r.seq q.seq v.max_seq_ge;
  min_ts_le = min-Below b.min_ts_ns r.timestamp_ns q.timestamp_ns v.min_ts_le;
  max_ts_ge = max-Above b.max_ts_ns r.timestamp_ns q.timestamp_ns v.max_ts_ge;
}

observed-Covers :
    (b : SeekIndexBuilder) (r : SeekIndexEntry) → Covers (observe b r.seq r.timestamp_ns r.offset) r
unfolding observe
observed-Covers b r = record {
  min_seq_le = min_self b.min_seq r.seq;
  max_seq_ge = max_self b.max_seq r.seq;
  min_ts_le = min_self b.min_ts_ns r.timestamp_ns;
  max_ts_ge = max_self b.max_ts_ns r.timestamp_ns;
}

kept-Covers :
    (b : SeekIndexBuilder) (q : SeekIndexEntry) (rs : List SeekIndexEntry)
    → Covers b q
    → Covers (observe_all b rs) q
unfolding observe_all
kept-Covers b q [] v = v
kept-Covers b q (r ∷ rs) v =
    kept-Covers (observe b r.seq r.timestamp_ns r.offset) q rs (observe-Covers b r q v)

-- The bounds of a builder cover every record that it has seen, whether it has an entry or not.
pub observe_all-Covers :
    (b : SeekIndexBuilder) (rs : List SeekIndexEntry) (i : ℕ) (r : SeekIndexEntry)
    → get_elem? rs i ≡ some r
    → Covers (observe_all b rs) r
unfolding observe_all
observe_all-Covers b [] i r h = absurd (ground arith)
observe_all-Covers b (q ∷ rs) zero r h =
    kept-Covers (observe b q.seq q.timestamp_ns q.offset) r rs (
      subst (Covers (observe b q.seq q.timestamp_ns q.offset)) (ground arith) (observed-Covers b q))
observe_all-Covers b (q ∷ rs) (suc i) r h =
    observe_all-Covers (observe b q.seq q.timestamp_ns q.offset) rs i r h

flush_lem :
    (b : SeekIndexBuilder) (old : Option (List ℕ))
    → 0 < length b.entries
    → flush b old ≡ some (encode_header (header_of b) ++ encode_entries b.entries)
unfolding flush
flush_lem b old h = ground arith

-- What `flush` writes is what the loaders give back: the header, and all the entries.
pub load-flush :
    (b : SeekIndexBuilder) (old : Option (List ℕ))
    → 0 < length b.entries
    → IsIndexHeader (header_of b)
    → All IsEntry b.entries
    → (load_index_header (flush b old) ≡ ok (some (header_of b)))
      × (load_index_entries (flush b old) (header_of b) ≡ ok b.entries)
unfolding load_index_header load_index_entries read_entries header_of
load-flush b old h v es =
    let header : List ℕ = encode_header (header_of b) in
    let rest : List ℕ = encode_entries b.entries in
    let len : length header ≡ 80 = length-encode_header (header_of b) in
    let enough : ltb (length (header ++ rest)) 80 ≡ false =
      ground (arith, length-append header rest, len) in
    let first : take 80 (header ++ rest) ≡ header =
      subst (λ n. take n (header ++ rest) ≡ header) len (take-append header rest) in
    let behind : drop 80 (header ++ rest) ≡ rest =
      subst (λ n. drop n (header ++ rest) ≡ rest) len (drop-append header rest) in
    (
      rw (flush_lem b old h, enough, first, decode_header-encode_header (header_of b) v) refl,
      rw (flush_lem b old h, behind) (read_entries-encode_entries b.entries es),
    )
