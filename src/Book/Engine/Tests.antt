-- ===== src/Book/Engine/Tests.antt =====
-- An example of the engine of venues/szse/l3/engine.rs: one order is added.
use chronicle_rs.Base.{ℕ, ◌≡◌, refl, List, [], ◌∷◌, ◌++◌, some, inr, replicate, lookup, insert}
use chronicle_rs.Bytes.{le_bytes, from_le}
use chronicle_rs.Sequence.{GapPolicy, set_policy, check}
use chronicle_rs.Protocol
use chronicle_rs.Book
use chronicle_rs.Book.{apply_event}
use chronicle_rs.Book.Engine
use chronicle_rs.Book.Engine.{
  SzseL3Engine, StreamMessage, L3Message, decode_l3_message, apply_message, applied, new_engine,
}
use chronicle_rs.Book.Engine.Applied.{Took, apply_message-applied}

abbrev zeros : ℕ → List ℕ
zeros n = replicate n 0

-- Stream 2011, symbol 1, number 8; a purchase of 5 at 100 under id 10.
abbrev added : StreamMessage
added = record {
  type_id = 0x1000;
  payload =
      zeros 4
      ++ le_bytes 4 128
      ++ zeros 4
      ++ le_bytes 4 1
      ++ le_bytes 4 2011
      ++ zeros 12
      ++ le_bytes 8 77
      ++ le_bytes 8 8
      ++ zeros 8
      ++ (2 ∷ 1 ∷ [])
      ++ zeros 6
      ++ (1 ∷ 1 ∷ [])
      ++ zeros 14
      ++ le_bytes 8 10
      ++ zeros 16
      ++ le_bytes 8 100
      ++ le_bytes 8 5
      ++ zeros 8;
}

abbrev engine : SzseL3Engine
engine = record (new_engine 2) {
  sequencer = record { last_seq = some 7; policy = GapPolicy.panic };
}

abbrev by_number : ℕ → ℕ
by_number n = n

apply_added : (apply_message by_number engine added).1 ≡ inr applied
unfolding apply_message Engine.sequence_and_route Engine.take_channel decode_l3_message
    Engine.decode_event Protocol.read_header Engine.read_event Engine.route Engine.worker_index
    Engine.worker_apply Engine.book_of new_engine Engine.new_workers set_policy check from_le
    le_bytes apply_event Book.event_kind Book.on_order_add Book.off_levels Book.side_of
    Book.add_to_level Book.put_order Book.new lookup insert
apply_added = refl

apply_message-applied_example :
    (l3 : L3Message) × (decode_l3_message added engine.policy.decode ≡ inr (some l3))
    × ((apply_message by_number engine added).0.channel_id ≡ some l3.header.stream_id)
    × ((channel : ℕ) → engine.channel_id ≡ some channel → channel ≡ l3.header.stream_id)
    × Took by_number engine l3 (apply_message by_number engine added).0 7
unfolding new_engine
apply_message-applied_example = apply_message-applied by_number engine added 7 refl refl apply_added
