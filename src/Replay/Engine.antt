-- ===== src/Replay/Engine.antt =====
-- src/stream/replay/mod.rs, `ReplayEngine`, over any `StreamReader` (src/stream/mod.rs), and its
-- warm starts from the snapshots of src/stream/replay/snapshot.rs. A call gives the engine after it,
-- changed by what went before an error, and its result. `none` is a replay loop out of fuel.
pub mod WarmStart
use chronicle_rs.Base.{
  ℕ, zero, suc, ◌+◌, ◌-◌, ◌^◌, min, List, Option, none, some, ◌⊎◌, inl, inr, Bool, true, false,
  Error, Result, ok, err, ◌==◌, ltb, leb, not, ◌&&◌, if◌then◌else◌,
}
use chronicle_rs.Sequence
use chronicle_rs.Sequence.{GapPolicy, SequenceError, SequenceValidator, set_policy, reset, check}
use chronicle_rs.Protocol.{BookEventHeader, l2_snapshot_struct_size, mode_code, read_snapshot}
use chronicle_rs.Protocol
use chronicle_rs.Snapshots.Format.{
  SnapshotHeader, SnapshotError, SnapshotDir, snapshot_version, load_snapshot,
}
use chronicle_rs.Snapshots.{
  latest_snapshot_before_seq, latest_snapshot_before_exchange_ts, latest_snapshot_before_ingest_ts,
}
use chronicle_rs.Replay.L2
use chronicle_rs.Replay.L2.{L2Book, apply_snapshot, levels_view, bids_iter, asks_iter}
use chronicle_rs.Replay.{
  StreamMessage, ReplayUpdate, BookEvent, AppliedMessage, ReplayState, apply_message,
}

-- The trait `StreamReader`, as far as the engine calls it.
pub record StreamReader : Type 1 where
  pub State : Type 0
  pub next : State → State × Result (Option StreamMessage)
  pub seek_seq : State → ℕ → State × Result Bool

pub data ReplayError : Type 0 where
  reader_failed : Error → ReplayError
  sequence_failed : SequenceError → ReplayError
  snapshot_failed : SnapshotError → ReplayError
  unsupported_schema unsupported_book_mode : ℕ → ReplayError
  payload_too_small missing_levels venue_mismatch : ReplayError

pub record ReplayEngine (State : Type 0) : Type 0 where
  pub reader : State
  pub policy : GapPolicy
  pub state : ReplayState

-- `apply_snapshot_payload`
unfoldable pub apply_snapshot_payload : L2Book → SnapshotHeader → List ℕ → ReplayError ⊎ L2Book
apply_snapshot_payload book header payload =
    if not (header.schema_version == snapshot_version)
    then inl (unsupported_schema header.schema_version)
    else if not (header.book_mode == mode_code Protocol.l2)
    then inl (unsupported_book_mode header.book_mode)
    else elim (read_snapshot payload 0) [
      | none ↦ inl payload_too_small
      | some s ↦ elim (levels_view payload l2_snapshot_struct_size s.bid_count s.ask_count) [
        | none ↦ inl missing_levels
        | some levels ↦ inr (apply_snapshot book s (bids_iter levels) (asks_iter levels))
      ]
    ]

-- `applied.book_event` has a time of at least `target_ts_ns`.
unfoldable pub reaches : (BookEventHeader → ℕ) → ℕ → AppliedMessage → Bool
reaches key target_ts_ns done = elim done.book_event [
  | none ↦ false
  | some event ↦ leb target_ts_ns (key event.header)
]

module _ (source : StreamReader) where
  open source use {State, next, seek_seq}

  abbrev pub Engine : Type 0
  Engine = ReplayEngine State

  unfoldable pub new : State → Engine
  unfolding Sequence.new
  new reader = record {
    reader = reader;
    policy = GapPolicy.panic;
    state = record { sequencer = Sequence.new GapPolicy.panic; last_gap = none; l2_book = L2.new };
  }

  unfoldable pub set_gap_policy : Engine → GapPolicy → Engine
  set_gap_policy e policy =
      let state = e.state in
      record e {
        policy = policy;
        state = record state { sequencer = set_policy state.sequencer policy };
      }

  -- A round: the next message, if there is one, applied.
  unfoldable pub step : Engine → Engine × (ReplayError ⊎ Option AppliedMessage)
  step e =
      let (reader, read) = next e.reader in
      let e' = record e { reader = reader } in
      elim read [
        | err failure ↦ (e', inl (reader_failed failure))
        | ok none ↦ (e', inr none)
        | ok (some msg) ↦
            let (state, result) = apply_message e.state msg in
            let e'' = record e' { state = state } in
            elim result [
              | inl failure ↦ (e'', inl (sequence_failed failure))
              | inr done ↦ (e'', inr (some done))
            ]
      ]

  -- `ReplayEngine::next`
  unfoldable pub next_update : Engine → Engine × (ReplayError ⊎ Option ReplayUpdate)
  next_update e =
      let (e', result) = step e in
      elim result [
        | inl failure ↦ (e', inl failure)
        | inr none ↦ (e', inr none)
        | inr (some done) ↦ (e', inr (some done.update))
      ]

  -- `replay_until_exchange_ts` and `replay_until_ingest_ts`, which differ in the time they read.
  unfoldable pub replay_until :
      (BookEventHeader → ℕ)
      → (fuel target_ts_ns : ℕ) → Engine
      → Option (Engine × (ReplayError ⊎ Bool))
  replay_until key zero target_ts_ns e = none
  replay_until key (suc fuel) target_ts_ns e =
      let (e', result) = step e in
      elim result [
        | inl failure ↦ some (e', inl failure)
        | inr none ↦ some (e', inr false)
        | inr (some done) ↦ elim (reaches key target_ts_ns done) [
          | true ↦ some (e', inr true)
          | false ↦ replay_until key fuel target_ts_ns e'
        ]
      ]

  -- The validator expects what follows the snapshot; the reader is sent there, and whether it finds
  -- the place is not looked at.
  unfoldable pub position_after : Engine → SnapshotHeader → Engine × (ReplayError ⊎ SnapshotHeader)
  position_after e header =
      let state = e.state in
      let (sequencer, checked) = check (reset state.sequencer) header.seq_num in
      elim checked [
        | inl failure ↦ (
          record e { state = record state { sequencer = sequencer } },
          inl (sequence_failed failure),
        )
        | inr _ ↦
            let (reader, sought) = seek_seq e.reader (min (header.seq_num + 1) (2 ^ 64 - 1)) in
            let e' = record e {
              reader = reader;
              state = record state { sequencer = sequencer; last_gap = none };
            } in
            elim sought [
              | err failure ↦ (e', inl (reader_failed failure))
              | ok _ ↦ (e', inr header)
            ]
      ]

  -- `warm_start_from_snapshot_path`, for the file of a number.
  unfoldable pub warm_start_from_snapshot :
      Engine → SnapshotDir → ℕ → Engine × (ReplayError ⊎ SnapshotHeader)
  warm_start_from_snapshot e d seq_num = elim (load_snapshot d seq_num) [
    | inl failure ↦ (e, inl (snapshot_failed failure))
    | inr (header, payload) ↦ elim (apply_snapshot_payload e.state.l2_book header payload) [
      | inl failure ↦ (e, inl failure)
      | inr book ↦
          let state = e.state in
          position_after (record e { state = record state { l2_book = book } }) header
    ]
  ]

  -- `warm_start_latest_snapshot`, for the directory of the venue and market.
  unfoldable pub warm_start_latest_snapshot :
      Engine → SnapshotDir → Engine × (ReplayError ⊎ Option SnapshotHeader)
  warm_start_latest_snapshot e d = elim (latest_snapshot_before_seq d (2 ^ 64 - 1)) [
    | inl failure ↦ (e, inl (snapshot_failed failure))
    | inr none ↦ (e, inr none)
    | inr (some (seq_num, found)) ↦
        let (e', result) = warm_start_from_snapshot e d seq_num in
        elim result [ inl failure ↦ (e', inl failure) | inr header ↦ (e', inr (some header)) ]
  ]

  -- What follows the choice of a snapshot in `warm_start_to_exchange_ts` and its kin.
  unfoldable pub warm_start_to :
      (BookEventHeader → ℕ)
      → (fuel : ℕ) → Engine
      → SnapshotDir
      → (venue_id market_id target_ts_ns : ℕ) → SnapshotError ⊎ Option (ℕ × SnapshotHeader)
      → Option (Engine × (ReplayError ⊎ Bool))
  warm_start_to key fuel e d venue_id market_id target_ts_ns chosen = elim chosen [
    | inl failure ↦ some (e, inl (snapshot_failed failure))
    | inr none ↦ some (e, inr false)
    | inr (some (seq_num, found)) ↦
        let (e', result) = warm_start_from_snapshot e d seq_num in
        elim result [
          | inl failure ↦ some (e', inl failure)
          | inr header ↦
              if (header.venue_id == venue_id) && (header.market_id == market_id)
              then replay_until key fuel target_ts_ns e'
              else some (e', inl venue_mismatch)
        ]
  ]

  unfoldable pub warm_start_to_exchange_ts :
      (fuel : ℕ)
      → Engine
      → SnapshotDir
      → (venue_id market_id target_ts_ns : ℕ) → Option (Engine × (ReplayError ⊎ Bool))
  warm_start_to_exchange_ts fuel e d venue_id market_id target_ts_ns =
      warm_start_to (λ h. h.exchange_ts_ns) fuel e d venue_id market_id target_ts_ns
        (latest_snapshot_before_exchange_ts d target_ts_ns)

  unfoldable pub warm_start_to_ingest_ts :
      (fuel : ℕ)
      → Engine
      → SnapshotDir
      → (venue_id market_id target_ts_ns : ℕ) → Option (Engine × (ReplayError ⊎ Bool))
  warm_start_to_ingest_ts fuel e d venue_id market_id target_ts_ns =
      warm_start_to (λ h. h.ingest_ts_ns) fuel e d venue_id market_id target_ts_ns
        (latest_snapshot_before_ingest_ts d target_ts_ns)
