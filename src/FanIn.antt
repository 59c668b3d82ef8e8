-- ===== src/FanIn.antt =====
-- src/ipc/fanin.rs: the merge of several queues by timestamp. A source is what a `Subscriber` is to
-- it: a state `Source` with `recv`, a parameter; the payload is the owned copy.
pub mod Order
mod Tests
use chronicle_rs.Base.{
  ℕ, zero, suc, ◌+◌, List, [], ◌∷◌, ◌++◌, Option, none, some, Bool, true, false, ◌||◌, ◌&&◌, Result,
  ok, err, corrupt, unsupported, ◌==◌, ltb, if◌then◌else◌, length, get_elem?, set, map,
}

pub record PendingMessage : Type 0 where
  pub seq : ℕ
  pub timestamp_ns : ℕ
  pub type_id : ℕ
  pub payload : List ℕ

pub record MergedMessage : Type 0 where
  pub source : ℕ
  pub message : PendingMessage

-- The selection loop: `best` is the index and the timestamp of the best message so far.
unfoldable pub select_from : ℕ → Option (ℕ × ℕ) → List (Option PendingMessage) → Option (ℕ × ℕ)
select_from index best [] = best
select_from index best (none ∷ pending) = select_from (index + 1) best pending
select_from index none (some msg ∷ pending) =
    select_from (index + 1) (some (index, msg.timestamp_ns)) pending
select_from index (some (best_index, best_ts)) (some msg ∷ pending) =
    select_from (index + 1)
      (if ltb msg.timestamp_ns best_ts || ((msg.timestamp_ns == best_ts) && ltb index best_index)
        then some (index, msg.timestamp_ns)
        else some (best_index, best_ts))
      pending

module _ (Source : Type 0) (recv : Source → Result (Option PendingMessage) × Source) where
  pub record FanInReader : Type 0 where
    pub sources : List Source
    pub pending : List (Option PendingMessage)

  unfoldable pub new : List Source → Result FanInReader
  new [] = err (unsupported "fan-in requires at least one source")
  new (s ∷ sources) =
      ok (record { sources = s ∷ sources; pending = none ∷ map (λ _. none) sources })

  unfoldable pub add_source : FanInReader → Source → FanInReader
  add_source r source = record {
    sources = r.sources ++ (source ∷ []);
    pending = r.pending ++ (none ∷ []);
  }

  -- The first loop of `next`, with what it did before an error.
  unfoldable pub fill :
      List Source
      → List (Option PendingMessage)
      → Result (Unit {0}) × List Source × List (Option PendingMessage)
  fill [] pending = (ok tt, [], pending)
  fill (s ∷ sources) [] = (ok tt, s ∷ sources, [])
  fill (s ∷ sources) (some msg ∷ pending) =
      let (result, sources', pending') = fill sources pending in
      (result, s ∷ sources', some msg ∷ pending')
  fill (s ∷ sources) (none ∷ pending) =
      let (received, s') = recv s in
      let (result, sources', pending') = fill sources pending in
      elim received [
        | err e ↦ (err e, s' ∷ sources, none ∷ pending)
        | ok none ↦ (result, s' ∷ sources', none ∷ pending')
        | ok (some msg) ↦ (result, s' ∷ sources', some msg ∷ pending')
      ]

  -- The selection and the `take` of the chosen message.
  unfoldable pub take_earliest : FanInReader → Result (Option MergedMessage) × FanInReader
  unfolding select_from
  take_earliest r = elim (select_from 0 none r.pending) [
    | none ↦ (ok none, r)
    | some (index, _) ↦ elim (get_elem? r.pending index) [
      | some (some msg) ↦ (
        ok (some (record { source = index; message = msg })),
        record r { pending = set r.pending index none },
      )
      | some none ↦ (err (corrupt "pending message missing"), r)
      | none ↦ (err (corrupt "pending message missing"), r)
    ]
  ]

  unfoldable pub next : FanInReader → Result (Option MergedMessage) × FanInReader
  next r =
      let (result, sources, pending) = fill r.sources r.pending in
      let r' : FanInReader = record { sources = sources; pending = pending } in
      elim result [ err e ↦ (err e, r') | ok _ ↦ take_earliest r' ]
