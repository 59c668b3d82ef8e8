-- ===== src/Book/Engine.antt =====
-- src/venues/szse/l3/engine.rs, the engine of one channel: decoding, the sequence check and the
-- routing of a symbol to its worker. `hash` is the standard library's `DefaultHasher` on a symbol.
-- A call returns the engine after it, changed by what went before an error, and its result.
pub mod Routing
pub mod Applied
mod Tests
use chronicle_rs.Base.{
  ℕ, ◌+◌, ◌-◌, ◌%◌, List, [], ◌∷◌, Option, none, some, ◌⊎◌, inl, inr, ◌==◌, ltb, not, if◌then◌else◌,
  length, get_elem?, set, replicate, lookup, insert,
}
use chronicle_rs.Bytes.{from_le, slice}
use chronicle_rs.Sequence
use chronicle_rs.Sequence.{
  GapPolicy, SequenceError, GapDetection, SequenceValidator, set_policy, check,
}
use chronicle_rs.Protocol.{BookEventHeader, event_header_size, read_header}
use chronicle_rs.Book
use chronicle_rs.Book.{L3Event, L3Book, UnknownOrderPolicy, BookError, apply_event}

pub data DecodePolicy : Type 0 where
  fail_decode skip_non_l3 : DecodePolicy

pub record ReconstructPolicy : Type 0 where
  pub gap : GapPolicy
  pub decode : DecodePolicy
  pub unknown_order : UnknownOrderPolicy

abbrev pub default_policy : ReconstructPolicy
default_policy = record {
  gap = GapPolicy.panic;
  decode = fail_decode;
  unknown_order = UnknownOrderPolicy.fail;
}

pub data ApplyStatus : Type 0 where
  applied skipped : ApplyStatus

pub data EngineError : Type 0 where
  non_book_event unsupported_book_mode unsupported_event_type record_len_mismatch
        payload_too_short :
      ℕ → EngineError
  header_too_small event_too_small : EngineError
  unexpected_channel : (channel expected : ℕ) → EngineError
  sequence : SequenceError → EngineError
  book : BookError → EngineError

pub record L3Message : Type 0 where
  pub header : BookEventHeader
  pub event : L3Event

-- A message of the stream, as far as the engine looks at it.
pub record StreamMessage : Type 0 where
  pub type_id : ℕ
  pub payload : List ℕ

abbrev pub l3_event_size : ℕ
l3_event_size = 64

-- `read_copy`: the struct is `repr(C)`, little-endian.
unfoldable pub read_event : List ℕ → ℕ → Option L3Event
read_event buf off =
    if ltb (length buf) (off + l3_event_size)
    then none
    else some (record {
      event_type = from_le (slice buf off 1);
      side = from_le (slice buf (off + 1) 1);
      ord_type = from_le (slice buf (off + 2) 1);
      price_scale = from_le (slice buf (off + 4) 1);
      size_scale = from_le (slice buf (off + 5) 1);
      flags = from_le (slice buf (off + 8) 4);
      order_id = from_le (slice buf (off + 16) 8);
      bid_order_id = from_le (slice buf (off + 24) 8);
      ask_order_id = from_le (slice buf (off + 32) 8);
      price = from_le (slice buf (off + 40) 8);
      qty = from_le (slice buf (off + 48) 8);
    })

-- A message that is not for the engine.
unfoldable pub other_message : DecodePolicy → EngineError → EngineError ⊎ Option L3Message
other_message skip_non_l3 e = inr none
other_message fail_decode e = inl e

unfoldable pub decode_event : List ℕ → BookEventHeader → EngineError ⊎ Option L3Message
decode_event payload header =
    let expected_len = event_header_size + l3_event_size in
    if not (header.record_len == expected_len)
    then inl (record_len_mismatch header.record_len)
    else if ltb (length payload) expected_len
    then inl (payload_too_short (length payload))
    else elim (read_event payload event_header_size) [
      | none ↦ inl event_too_small
      | some event ↦ inr (some (record { header = header; event = event }))
    ]

unfoldable pub decode_l3_message : StreamMessage → DecodePolicy → EngineError ⊎ Option L3Message
decode_l3_message msg policy =
    if not (msg.type_id == 0x1000)
    then other_message policy (non_book_event msg.type_id)
    else elim (read_header msg.payload 0) [
      | none ↦ inl header_too_small
      | some header ↦
          if not (header.book_mode == 1)
          then other_message policy (unsupported_book_mode header.book_mode)
          else if not (header.event_type == 2)
          then other_message policy (unsupported_event_type header.event_type)
          else decode_event msg.payload header
    ]

-- `SzseL3Worker`: its books by symbol.
abbrev pub SzseL3Worker : Type 0
SzseL3Worker = List (ℕ × L3Book)

-- `SzseL3Worker::book_mut`: the symbol's book, a new one at first.
unfoldable pub book_of : SzseL3Worker → ℕ → L3Book
book_of worker symbol = elim (lookup symbol worker) [ none ↦ Book.new | some b ↦ b ]

unfoldable pub worker_apply :
    SzseL3Worker → L3Message → UnknownOrderPolicy → SzseL3Worker × Option BookError
worker_apply worker msg policy =
    let symbol = msg.header.market_id in
    let (b, result) =
      apply_event (book_of worker symbol) msg.header.exchange_ts_ns msg.event policy in
    (insert symbol b worker, result)

unfoldable pub new_workers : ℕ → List SzseL3Worker
new_workers worker_count = replicate (if worker_count == 0 then 1 else worker_count) []

pub record SzseL3Engine : Type 0 where
  pub policy : ReconstructPolicy
  pub sequencer : SequenceValidator
  pub workers : List SzseL3Worker
  pub channel_id : Option ℕ

unfoldable pub new_engine : ℕ → SzseL3Engine
unfolding Sequence.new
new_engine worker_count = record {
  policy = default_policy;
  sequencer = Sequence.new GapPolicy.panic;
  workers = new_workers worker_count;
  channel_id = none;
}

unfoldable pub set_channel_id : SzseL3Engine → ℕ → SzseL3Engine
set_channel_id e channel_id = record e { channel_id = some channel_id }

-- The channel check: an engine without a channel takes the message's.
unfoldable pub take_channel : SzseL3Engine → ℕ → SzseL3Engine × Option EngineError
take_channel e stream_id = elim e.channel_id [
  | none ↦ (record e { channel_id = some stream_id }, none)
  | some expected ↦
      if stream_id == expected then (e, none) else (e, some (unexpected_channel stream_id expected))
]

module _ (hash : ℕ → ℕ) where
  unfoldable pub worker_index : ℕ → ℕ → ℕ
  worker_index symbol worker_count = hash symbol % worker_count

  -- `dispatcher.route`; an engine has a worker, so the index is in range.
  unfoldable pub route :
      List SzseL3Worker → L3Message → UnknownOrderPolicy → List SzseL3Worker × Option BookError
  route workers msg policy =
      let idx = worker_index msg.header.market_id (length workers) in
      elim (get_elem? workers idx) [
        | none ↦ (workers, none)
        | some worker ↦
            let (worker', result) = worker_apply worker msg policy in
            (set workers idx worker', result)
      ]

  -- The sequence check and the routing of a decoded message.
  unfoldable pub sequence_and_route :
      SzseL3Engine → L3Message → SzseL3Engine × (EngineError ⊎ ApplyStatus)
  sequence_and_route e l3 =
      let (sequencer, checked) = check (set_policy e.sequencer e.policy.gap) l3.header.seq in
      let e' = record e { sequencer = sequencer } in
      elim checked [
        | inl err ↦ (e', inl (sequence err))
        | inr _ ↦
            let (workers, result) = route e.workers l3 e.policy.unknown_order in
            let e'' = record e' { workers = workers } in
            elim result [ none ↦ (e'', inr applied) | some err ↦ (e'', inl (book err)) ]
      ]

  unfoldable pub apply_message :
      SzseL3Engine → StreamMessage → SzseL3Engine × (EngineError ⊎ ApplyStatus)
  apply_message e msg = elim (decode_l3_message msg e.policy.decode) [
    | inl err ↦ (e, inl err)
    | inr none ↦ (e, inr skipped)
    | inr (some l3) ↦
        let (e', wrong) = take_channel e l3.header.stream_id in
        elim wrong [ some err ↦ (e', inl err) | none ↦ sequence_and_route e' l3 ]
  ]
