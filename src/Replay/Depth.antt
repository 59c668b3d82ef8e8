-- ===== src/Replay/Depth.antt =====
-- The replay keeps its book to the abstract view, whatever message arrives.
use chronicle_rs.Base.{
  ℕ, List, none, inl, inr, ◌==◌, if◌then◌else◌, Bool-cases, Option-cases, Sum-cases, Bool, true,
  false, not, ◌+◌,
}
use chronicle_rs.Protocol
use chronicle_rs.Sequence.{GapDetection, check}
use chronicle_rs.Protocol.{
  BookEventType, mode_code, event_code, type_book_event, read_header, read_snapshot, read_diff,
  BookEventHeader, event_header_size, l2_snapshot_struct_size, l2_diff_size, L2Diff, L2Snapshot,
  PriceLevelUpdate,
}
use chronicle_rs.Replay.L2.{levels_view, L2Book, bids_iter, asks_iter}
use chronicle_rs.Replay.{
  skip, unsupported, unsupported_mode, unsupported_event, non_book_event, ReplayState,
  StreamMessage, AppliedMessage, replay_snapshot, replay_diff, replay_event, replayed, quarantines,
  apply_message,
}
use chronicle_rs.Replay.View.{
  L2View, Refines, Replaces, after_event, after_result, apply_snapshot-Refines, apply_diff-Refines,
}

-- A step that is reported keeps the book and the abstract book together.
abbrev Follows : L2View → L2Book × AppliedMessage → Type 0
Follows view (book, done) = Replaces (inr done) → Refines book (after_result view (inr done))

replay_snapshot-Follows :
    (book : L2Book) (view : L2View) (seq : ℕ) (payload : List ℕ) (header : BookEventHeader)
    → Refines book view
    → Follows view (replay_snapshot book seq payload header)
unfolding replay_snapshot after_result after_event
replay_snapshot-Follows book view seq payload header r =
    elim (Option-cases (read_snapshot payload event_header_size)) [
      | inl e ↦ rw (replay_snapshot, e) λ _. r
      | inr (s, e) ↦
          rw (replay_snapshot, e)
            (elim (Option-cases (
              levels_view payload (event_header_size + l2_snapshot_struct_size) s.bid_count
                s.ask_count)) [
                  | inl f ↦ rw f λ _. r
                  | inr (levels, f) ↦
                      rw f λ _. apply_snapshot-Refines book s (bids_iter levels) (asks_iter levels)
                ])
    ]

replay_diff-Follows :
    (book : L2Book) (view : L2View) (seq : ℕ) (payload : List ℕ) (header : BookEventHeader)
    → Refines book view
    → Follows view (replay_diff book seq payload header)
unfolding replay_diff after_result after_event
replay_diff-Follows book view seq payload header r =
    elim (Option-cases (read_diff payload event_header_size)) [
      | inl e ↦ rw (replay_diff, e) λ _. r
      | inr (d, e) ↦
          rw (replay_diff, e)
            (elim (Option-cases
              (levels_view payload (event_header_size + l2_diff_size) d.bid_count d.ask_count)) [
                | inl f ↦ rw f λ _. r
                | inr (levels, f) ↦ rw f λ replaces.
                    rw replaces
                      (apply_diff-Refines book view d (bids_iter levels) (asks_iter levels) r)
              ])
    ]

Follows-if :
    (view : L2View) (b : Bool) (x y : L2Book × AppliedMessage)
    → Follows view x
    → Follows view y
    → Follows view (if b then x else y)
Follows-if view true x y f g = f
Follows-if view false x y f g = g

replay_event-Follows :
    (book : L2Book) (view : L2View) (msg : StreamMessage)
    → Refines book view
    → Follows view (replay_event book msg)
unfolding replay_event after_result after_event
replay_event-Follows book view msg r =
    Follows-if view (not (msg.type_id == type_book_event)) (book, skip msg.seq non_book_event none)
      _ (λ _. r)
      (elim (Option-cases (read_header msg.payload 0)) [
        | inl e ↦ rw e λ _. r
        | inr (header, e) ↦ rw e (decoded header)
      ])
  where
    decoded :
        (header : BookEventHeader)
        → Follows view (
            if not (header.book_mode == mode_code Protocol.l2)
            then (book, skip msg.seq unsupported_mode (unsupported header))
            else if header.event_type == event_code BookEventType.snapshot
            then replay_snapshot book msg.seq msg.payload header
            else if header.event_type == event_code BookEventType.diff
            then replay_diff book msg.seq msg.payload header
            else (book, skip msg.seq unsupported_event (unsupported header)))
    decoded header =
        let other : L2Book × AppliedMessage =
          (book, skip msg.seq unsupported_event (unsupported header)) in
        let as_diff : L2Book × AppliedMessage = replay_diff book msg.seq msg.payload header in
        let as_snapshot : L2Book × AppliedMessage =
          replay_snapshot book msg.seq msg.payload header in
        let or_diff : L2Book × AppliedMessage =
          if header.event_type == event_code BookEventType.diff then as_diff else other in
        let or_snapshot : L2Book × AppliedMessage =
          if header.event_type == event_code BookEventType.snapshot then as_snapshot else or_diff in
        Follows-if view (not (header.book_mode == mode_code Protocol.l2))
          (book, skip msg.seq unsupported_mode (unsupported header)) or_snapshot (λ _. r)
          (Follows-if view (header.event_type == event_code BookEventType.snapshot) as_snapshot
            or_diff (replay_snapshot-Follows book view msg.seq msg.payload header r)
            (Follows-if view (header.event_type == event_code BookEventType.diff) as_diff other
              (replay_diff-Follows book view msg.seq msg.payload header r) (λ _. r)))

-- Whatever message arrives, unless a diff with the flag `DELTA` is reported for it, and on every
-- branch, an error of the sequence included, the book keeps to the abstract book: a reported snapshot
-- shows its last nonzero sizes and nothing else, a reported diff replaces the sizes for which it gives
-- one, and else nothing changes. No level is empty.
pub apply_message-Refines :
    (s : ReplayState) (view : L2View) (msg : StreamMessage)
    → Refines s.l2_book view
    → Replaces (apply_message s msg).1
    → Refines (apply_message s msg).0.l2_book (after_result view (apply_message s msg).1)
unfolding apply_message replayed after_result
apply_message-Refines s view msg r replaces = elim (Sum-cases (check s.sequencer msg.seq).1) [
  | inl (failure, e) ↦ rw (apply_message, e) r
  | inr (GapDetection.sequential, e) ↦
      rw (apply_message, e)
        (replay_event-Follows s.l2_book view msg r (rw (apply_message, e) at replaces))
  | inr (GapDetection.gap from to, e) ↦
      elim (Bool-cases (quarantines (check s.sequencer msg.seq).0.policy)) [
        | inl q ↦ rw (apply_message, e, q) r
        | inr q ↦
            rw (apply_message, e, q)
              (replay_event-Follows s.l2_book view msg r (rw (apply_message, e, q) at replaces))
      ]
]
