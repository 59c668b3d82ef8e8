-- ===== src/Replay.antt =====
-- src/stream/replay/mod.rs: the replay of book events into a level-2 book. `apply_message` changes
-- the validator, the last gap and the book; its result is the error of the validator, or the update
-- and the event.
pub mod L2
pub mod View
pub mod Depth
pub mod Written
pub mod Engine
mod Tests
use chronicle_rs.Base.{
  ℕ, ◌+◌, ◌*◌, List, Option, none, some, ◌⊎◌, inl, inr, Bool, true, false, ◌==◌, not, if◌then◌else◌,
}
use chronicle_rs.Sequence.{GapPolicy, GapDetection, SequenceError, SequenceValidator, check}
use chronicle_rs.Protocol.{
  BookEventHeader, BookEventType, L2Diff, L2Snapshot, type_book_event, event_code, mode_code,
  event_header_size, l2_diff_size, l2_snapshot_struct_size, read_header, read_diff, read_snapshot,
}
use chronicle_rs.Protocol
use chronicle_rs.Replay.L2.{
  L2Book, LevelsView, apply_snapshot, apply_diff, levels_view, bids_iter, asks_iter,
}

-- What the replay reads of a message.
pub record StreamMessage : Type 0 where
  pub seq : ℕ
  pub timestamp_ns : ℕ
  pub type_id : ℕ
  pub payload : List ℕ

pub data SkipReason : Type 0 where
  non_book_event unsupported_mode unsupported_event corrupt gap : SkipReason

pub data ReplayUpdate : Type 0 where
  applied : (seq : ℕ) (event_type : BookEventType) → ReplayUpdate
  skipped : (seq : ℕ) (reason : SkipReason) → ReplayUpdate

pub data BookEventPayload : Type 0 where
  snapshot_event : L2Snapshot → LevelsView → BookEventPayload
  diff_event : L2Diff → LevelsView → BookEventPayload
  reset_event heartbeat_event unsupported_payload : BookEventPayload

pub record BookEvent : Type 0 where
  pub header : BookEventHeader
  pub payload : BookEventPayload

pub record AppliedMessage : Type 0 where
  pub update : ReplayUpdate
  pub book_event : Option BookEvent

-- What a message changes.
pub record ReplayState : Type 0 where
  pub sequencer : SequenceValidator
  pub last_gap : Option (ℕ × ℕ)
  pub l2_book : L2Book

abbrev pub skip : ℕ → SkipReason → Option BookEvent → AppliedMessage
skip seq reason event = record { update = skipped seq reason; book_event = event }

abbrev pub unsupported : BookEventHeader → Option BookEvent
unsupported header = some (record { header = header; payload = unsupported_payload })

-- The branch of a snapshot.
unfoldable pub replay_snapshot : L2Book → ℕ → List ℕ → BookEventHeader → L2Book × AppliedMessage
replay_snapshot book seq payload header = elim (read_snapshot payload event_header_size) [
  | none ↦ (book, skip seq corrupt (unsupported header))
  | some s ↦
      elim (levels_view payload (event_header_size + l2_snapshot_struct_size) s.bid_count
        s.ask_count) [
          | none ↦ (book, skip seq corrupt (unsupported header))
          | some levels ↦ (
            apply_snapshot book s (bids_iter levels) (asks_iter levels),
            record {
              update = applied seq BookEventType.snapshot;
              book_event = some (record { header = header; payload = snapshot_event s levels });
            },
          )
        ]
]

-- The branch of a diff.
unfoldable pub replay_diff : L2Book → ℕ → List ℕ → BookEventHeader → L2Book × AppliedMessage
replay_diff book seq payload header = elim (read_diff payload event_header_size) [
  | none ↦ (book, skip seq corrupt (unsupported header))
  | some d ↦ elim (levels_view payload (event_header_size + l2_diff_size) d.bid_count d.ask_count) [
    | none ↦ (book, skip seq corrupt (unsupported header))
    | some levels ↦ (
      apply_diff book d (bids_iter levels) (asks_iter levels),
      record {
        update = applied seq BookEventType.diff;
        book_event = some (record { header = header; payload = diff_event d levels });
      },
    )
  ]
]

-- `apply_message` behind the check of the sequence.
unfoldable pub replay_event : L2Book → StreamMessage → L2Book × AppliedMessage
replay_event book msg =
    if not (msg.type_id == type_book_event)
    then (book, skip msg.seq non_book_event none)
    else elim (read_header msg.payload 0) [
      | none ↦ (book, skip msg.seq corrupt none)
      | some header ↦
          if not (header.book_mode == mode_code Protocol.l2)
          then (book, skip msg.seq unsupported_mode (unsupported header))
          else if header.event_type == event_code BookEventType.snapshot
          then replay_snapshot book msg.seq msg.payload header
          else if header.event_type == event_code BookEventType.diff
          then replay_diff book msg.seq msg.payload header
          else (book, skip msg.seq unsupported_event (unsupported header))
    ]

-- `self.policy == GapPolicy::Quarantine`
unfoldable pub quarantines : GapPolicy → Bool
quarantines GapPolicy.panic = false
quarantines GapPolicy.quarantine = true
quarantines GapPolicy.ignore = false

unfoldable pub replayed :
    ReplayState → StreamMessage → ReplayState × (SequenceError ⊎ AppliedMessage)
replayed s msg =
    let (book, done) = replay_event s.l2_book msg in (record s { l2_book = book }, inr done)

unfoldable pub apply_message :
    ReplayState → StreamMessage → ReplayState × (SequenceError ⊎ AppliedMessage)
apply_message s msg =
    let (sequencer, checked) = check s.sequencer msg.seq in
    let s' = record s { sequencer = sequencer } in
    elim checked [
      | inl failure ↦ (s', inl failure)
      | inr GapDetection.sequential ↦ replayed s' msg
      | inr (GapDetection.gap from to) ↦
          let s'' = record s' { last_gap = some (from, to) } in
          if quarantines sequencer.policy
          then (s'', inr (skip msg.seq gap none))
          else replayed s'' msg
    ]
