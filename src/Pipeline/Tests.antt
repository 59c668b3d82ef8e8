-- ===== src/Pipeline/Tests.antt =====
-- Examples of a pipeline: every second message of a time range.
use chronicle_rs.Base.{ℕ, ◌≡◌, refl, List, [], ◌∷◌, some, ok, map, arith}
use chronicle_rs.Replay.{StreamMessage}
use chronicle_rs.Pipeline.{
  Transform, time_range_filter, sampler, vec_sink, from_source, add, filter_time_range, sample,
  set_sink, run,
}
use chronicle_rs.Pipeline.Stages.{filter, every, stage, stages}
use chronicle_rs.Pipeline.Run.{Ends, run-stages}

abbrev at_time : ℕ → StreamMessage
at_time t = record { seq = t; timestamp_ns = t; type_id = 1; payload = [] }

abbrev five_messages : List StreamMessage
five_messages = map at_time (1 ∷ 2 ∷ 3 ∷ 4 ∷ 9 ∷ [])

abbrev second_of_range : List Transform
second_of_range = time_range_filter 2 9 ∷ sampler 2 0 ∷ []

second_of_range-stages : stages second_of_range five_messages ≡ at_time 3 ∷ []
unfolding stages stage filter every
second_of_range-stages = refl

-- The builder's calls give this pipeline.
built :
    set_sink (sample (filter_time_range from_source 2 9) 2) (vec_sink [])
    ≡ record { transforms = second_of_range; sink = some (vec_sink []) }
unfolding set_sink sample filter_time_range add from_source
built = refl

run-stages_example :
    Ends []
      (stages second_of_range five_messages)
      5
      (record { messages_read = 0; messages_written = 0; messages_filtered = 0 })
      (run
        (map ok five_messages)
        (record { transforms = second_of_range; sink = some (vec_sink []) }))
run-stages_example = run-stages five_messages second_of_range (omega arith)
