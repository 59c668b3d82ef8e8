-- ===== src/Pipeline/Run.antt =====
-- The run of a pipeline gives what the stages give.
use chronicle_rs.Base.{
  ℕ, ◌+◌, ◌≡◌, refl, sym, ap, ◌∙◌, List, [], ◌∷◌, ◌++◌, map, Option, none, some, inl, inr,
  Option-cases, Result, ok, length, arith, append-nil, append_assoc,
}
use chronicle_rs.Replay.{StreamMessage}
use chronicle_rs.Pipeline.{
  Transform, identity, time_range_filter, type_filter, sampler, transform_chain, Sink, vec_sink,
  write_sink, ReplayStats, ReplayPipeline, deliver, run_loop, run,
}
use chronicle_rs.Pipeline.Stages.{
  filter, every, stage, stages, CountsTo, listed, transform_chain-stages,
}

stage-nil : (t : Transform) → stage t [] ≡ []
unfolding stage filter every
stage-nil identity = refl
stage-nil (time_range_filter a b) = refl
stage-nil (type_filter types) = refl
stage-nil (sampler interval count) = refl

stages-nil : (ts : List Transform) → stages ts [] ≡ []
unfolding stages
stages-nil [] = refl
stages-nil (t ∷ ts) = ap (stages ts) (stage-nil t) ∙ stages-nil ts

run_step_none :
    (msgs : List (Result StreamMessage)) (m : StreamMessage) (p : ReplayPipeline) (st : ReplayStats)
    → (transform_chain p.transforms m).0 ≡ none
    → run_loop (ok m ∷ msgs) p st
      ≡ run_loop msgs
          (record { transforms = (transform_chain p.transforms m).1; sink = p.sink })
          (record st {
            messages_read = st.messages_read + 1;
            messages_filtered = st.messages_filtered + 1;
          })
unfolding run_loop deliver
run_step_none msgs m p st e = simp (run_loop, e)

run_step_some :
    (msgs : List (Result StreamMessage)) (m x : StreamMessage) (p : ReplayPipeline)
    (got : List StreamMessage) (st : ReplayStats)
    → (transform_chain p.transforms m).0 ≡ some x
    → p.sink ≡ some (vec_sink got)
    → run_loop (ok m ∷ msgs) p st
      ≡ run_loop msgs
          (record {
            transforms = (transform_chain p.transforms m).1;
            sink = some (vec_sink (got ++ (x ∷ [])));
          })
          (record st {
            messages_read = st.messages_read + 1;
            messages_written = st.messages_written + 1;
          })
unfolding run_loop deliver write_sink
run_step_some msgs m x p got st e sinks = simp (run_loop, e, sinks)

-- A run that begins with the counters `st` and `got` in its sink ends with `out` behind, and has
-- counted all `n` messages.
pub record Ends (got out : List StreamMessage) (n : ℕ) (st : ReplayStats)
    (result : Result (Option Sink × ReplayStats)) : Type 0 where
  pub stats : ReplayStats
  pub gives : result ≡ ok (some (vec_sink (got ++ out)), stats)
  pub read : stats.messages_read ≡ st.messages_read + n
  pub written : stats.messages_written ≡ st.messages_written + length out
  pub counted :
      stats.messages_written + stats.messages_filtered
      ≡ st.messages_written + st.messages_filtered + n

run_loop-Ends :
    (msgs : List StreamMessage) (p : ReplayPipeline) (got : List StreamMessage) (st : ReplayStats)
    → p.sink ≡ some (vec_sink got)
    → CountsTo (length msgs) p.transforms
    → Ends got (stages p.transforms msgs) (length msgs) st (run_loop (map ok msgs) p st)
unfolding run_loop
run_loop-Ends [] p got st sinks c =
    let empty = stages-nil p.transforms in
    record {
      stats = st;
      gives = rw (empty, append-nil got) (ap (λ t. ok (t, st)) sinks);
      read = omega arith;
      written = omega (arith, ap length empty);
      counted = omega arith;
    }
run_loop-Ends (m ∷ ms) p got st sinks c =
    let (here, counts) = transform_chain-stages (length ms) p.transforms m ms c in
    let ts = (transform_chain p.transforms m).1 in
    elim (Option-cases (transform_chain p.transforms m).0) [
      | inl gone ↦
          let p' : ReplayPipeline = record { transforms = ts; sink = p.sink } in
          let st' : ReplayStats = record st {
            messages_read = st.messages_read + 1;
            messages_filtered = st.messages_filtered + 1;
          } in
          let same : stages p.transforms (m ∷ ms) ≡ stages ts ms =
            here ∙ ap (λ t. listed t ++ stages ts ms) gone in
          let later = run_loop-Ends ms p' got st' sinks counts in
          record {
            stats = later.stats;
            gives =
                run_step_none (map ok ms) m p st gone
                ∙ later.gives
                ∙ ap (λ t. ok (some (vec_sink (got ++ t)), later.stats)) (sym same);
            read = omega (arith, later.read);
            written = omega (arith, later.written, ap length same);
            counted = omega (arith, later.counted);
          }
      | inr (x, there) ↦
          let p' : ReplayPipeline = record {
            transforms = ts;
            sink = some (vec_sink (got ++ (x ∷ [])));
          } in
          let st' : ReplayStats = record st {
            messages_read = st.messages_read + 1;
            messages_written = st.messages_written + 1;
          } in
          let same : stages p.transforms (m ∷ ms) ≡ x ∷ stages ts ms =
            here ∙ ap (λ t. listed t ++ stages ts ms) there in
          let later = run_loop-Ends ms p' (got ++ (x ∷ [])) st' refl counts in
          let joined = append_assoc got (x ∷ []) (stages ts ms) ∙ ap (◌++◌ got) (sym same) in
          record {
            stats = later.stats;
            gives =
                run_step_some (map ok ms) m x p got st there sinks
                ∙ later.gives
                ∙ ap (λ t. ok (some (vec_sink t), later.stats)) joined;
            read = omega (arith, later.read);
            written = omega (arith, later.written, ap length same);
            counted = omega (arith, later.counted);
          }
    ]

-- A pipeline over a source without errors, into a sink that keeps its messages: taking each message
-- through all transforms gives what whole lists give that go through one transform after the other,
-- time ranges and types as filters, a sampler as every n-th message. All messages are counted as
-- read, those in the sink as written, and written and filtered make up the messages read. No
-- sampler has interval 0, and no counter wraps.
pub run-stages :
    (msgs : List StreamMessage) (transforms : List Transform)
    → CountsTo (length msgs) transforms
    → Ends []
        (stages transforms msgs)
        (length msgs)
        (record { messages_read = 0; messages_written = 0; messages_filtered = 0 })
        (run (map ok msgs) (record { transforms = transforms; sink = some (vec_sink []) }))
unfolding run
run-stages msgs transforms c =
    run_loop-Ends msgs (record { transforms = transforms; sink = some (vec_sink []) }) []
      (record { messages_read = 0; messages_written = 0; messages_filtered = 0 }) refl c
