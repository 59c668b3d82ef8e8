-- ===== src/Pipeline.antt =====
-- src/stream/replay/transform.rs, pipeline.rs and sink.rs: filters on a stream of messages, their
-- chain, and the run of a pipeline into a sink. A source is what its `next` gives up to the end.
-- The progress lines of the log and the duration are left out, and so are transforms and sinks from
-- outside this code.
pub mod Stages
pub mod Run
mod Tests
use chronicle_rs.Base.{
  ℕ, ◌+◌, ◌%◌, ◌^◌, List, [], ◌∷◌, ◌++◌, Option, none, some, Bool, true, false, ◌&&◌, Result, ok,
  err, ◌==◌, ltb, leb, if◌then◌else◌,
}
use chronicle_rs.Replay.{StreamMessage}

-- `Sampler` panics on an interval of 0.
pub data Transform : Type 0 where
  identity : Transform
  time_range_filter : (start_ns end_ns : ℕ) → Transform
  type_filter : (types : List ℕ) → Transform
  sampler : (interval count : ℕ) → Transform

-- `types.contains(&x)`
unfoldable pub contains : List ℕ → ℕ → Bool
contains [] x = false
contains (y ∷ types) x = if y == x then true else contains types x

-- The message that goes on, and the transform after the call.
unfoldable pub transform : Transform → StreamMessage → Option StreamMessage × Transform
transform identity msg = (some msg, identity)
transform (time_range_filter start_ns end_ns) msg = (
  if leb start_ns msg.timestamp_ns && ltb msg.timestamp_ns end_ns then some msg else none,
  time_range_filter start_ns end_ns,
)
transform (type_filter types) msg =
    (if contains types msg.type_id then some msg else none, type_filter types)
transform (sampler interval count) msg =
    let count' = (count + 1) % 2 ^ 64 in
    (if count' % interval == 0 then some msg else none, sampler interval count')

-- `TransformChain::transform`: the first that filters out ends it.
unfoldable pub transform_chain :
    List Transform → StreamMessage → Option StreamMessage × List Transform
transform_chain [] msg = (some msg, [])
transform_chain (t ∷ transforms) msg =
    let (out, t') = transform t msg in
    elim out [
      | none ↦ (none, t' ∷ transforms)
      | some m ↦ let (out', transforms') = transform_chain transforms m in (out', t' ∷ transforms')
    ]

pub data Sink : Type 0 where
  null_sink : Sink
  vec_sink : (messages : List StreamMessage) → Sink

unfoldable pub write_sink : Sink → StreamMessage → Sink
write_sink null_sink msg = null_sink
write_sink (vec_sink messages) msg = vec_sink (messages ++ (msg ∷ []))

pub record ReplayStats : Type 0 where
  pub messages_read : ℕ
  pub messages_written : ℕ
  pub messages_filtered : ℕ

pub record ReplayPipeline : Type 0 where
  pub transforms : List Transform
  pub sink : Option Sink

unfoldable pub from_source : ReplayPipeline
from_source = record { transforms = []; sink = none }

-- `TransformChain::add`, as `filter_time_range`, `filter_types` and `sample` call it.
unfoldable pub add : ReplayPipeline → Transform → ReplayPipeline
add p t = record p { transforms = p.transforms ++ (t ∷ []) }

unfoldable pub filter_time_range : ReplayPipeline → ℕ → ℕ → ReplayPipeline
unfolding add
filter_time_range p start_ns end_ns = add p (time_range_filter start_ns end_ns)

unfoldable pub filter_types : ReplayPipeline → List ℕ → ReplayPipeline
unfolding add
filter_types p types = add p (type_filter types)

unfoldable pub sample : ReplayPipeline → ℕ → ReplayPipeline
unfolding add
sample p interval = add p (sampler interval 0)

unfoldable pub set_sink : ReplayPipeline → Sink → ReplayPipeline
set_sink p sink = record p { sink = some sink }

-- One message of the loop of `run`, behind the transforms.
unfoldable pub deliver :
    Option StreamMessage → Option Sink → ReplayStats → Option Sink × ReplayStats
deliver none sink stats = (sink, record stats { messages_filtered = stats.messages_filtered + 1 })
deliver (some msg) none stats = (none, stats)
deliver (some msg) (some sink) stats =
    (some (write_sink sink msg), record stats { messages_written = stats.messages_written + 1 })

-- The loop of `run`.
unfoldable pub run_loop :
    List (Result StreamMessage) → ReplayPipeline → ReplayStats → Result (Option Sink × ReplayStats)
run_loop [] p stats = ok (p.sink, stats)
run_loop (err e ∷ source) p stats = err e
run_loop (ok msg ∷ source) p stats =
    let (out, transforms) = transform_chain p.transforms msg in
    let (sink, stats') =
      deliver out p.sink (record stats { messages_read = stats.messages_read + 1 }) in
    run_loop source (record { transforms = transforms; sink = sink }) stats'

unfoldable pub run :
    List (Result StreamMessage) → ReplayPipeline → Result (Option Sink × ReplayStats)
unfolding run_loop
run source p =
    run_loop source p (record { messages_read = 0; messages_written = 0; messages_filtered = 0 })
