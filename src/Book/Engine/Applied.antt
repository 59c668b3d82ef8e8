-- ===== src/Book/Engine/Applied.antt =====
-- src/venues/szse/l3/engine.rs, `SzseL3Engine::apply_message` under the gap policy `Panic`, the
-- engine's default.
use chronicle_rs.Base.{
  ℕ, ◌+◌, ◌%◌, ◌^◌, ◌≡◌, refl, Option, none, some, ◌⊎◌, inl, inr, arith, Option-cases, subst, sym,
  ap, ◌∙◌,
}
use chronicle_rs.Sequence.{GapPolicy, set_policy, check}
use chronicle_rs.Book.Engine.{
  SzseL3Engine, StreamMessage, L3Message, EngineError, applied, decode_l3_message, take_channel,
  route, sequence_and_route, apply_message,
}

-- What an applied message has done to the engine.
abbrev pub Took : (ℕ → ℕ) → SzseL3Engine → L3Message → SzseL3Engine → ℕ → Type 0
Took hash e l3 e' last =
    (l3.header.seq ≡ (last + 1) % 2 ^ 64)
    × (e'.sequencer.last_seq ≡ some l3.header.seq)
    × (e'.workers ≡ (route hash e.workers l3 e.policy.unknown_order).0)

sequence-applied :
    (hash : ℕ → ℕ) (e : SzseL3Engine) (l3 : L3Message) (last : ℕ)
    → e.policy.gap ≡ GapPolicy.panic
    → e.sequencer.last_seq ≡ some last
    → (sequence_and_route hash e l3).1 ≡ inr applied
    → Took hash e l3 (sequence_and_route hash e l3).0 last
unfolding sequence_and_route check set_policy
sequence-applied hash e l3 last strict known h = ground arith

taken :
    (e : SzseL3Engine) (stream_id : ℕ)
    → (take_channel e stream_id).1 ≡ none
    → ((take_channel e stream_id).0.channel_id ≡ some stream_id)
      × ((channel : ℕ) → e.channel_id ≡ some channel → channel ≡ stream_id)
unfolding take_channel
taken e stream_id h = ground arith

take_channel-rest :
    (e : SzseL3Engine) (stream_id : ℕ)
    → ((take_channel e stream_id).0.policy ≡ e.policy)
      × ((take_channel e stream_id).0.sequencer ≡ e.sequencer)
      × ((take_channel e stream_id).0.workers ≡ e.workers)
unfolding take_channel
take_channel-rest e stream_id = ground arith

sequence-channel :
    (hash : ℕ → ℕ) (e : SzseL3Engine) (l3 : L3Message)
    → (sequence_and_route hash e l3).0.channel_id ≡ e.channel_id
unfolding sequence_and_route
sequence-channel hash e l3 = ground arith

decoded-cases :
    (r : EngineError ⊎ Option L3Message)
    → ((err : EngineError) × (r ≡ inl err))
      ⊎ ((r ≡ inr none) ⊎ ((l3 : L3Message) × (r ≡ inr (some l3))))
decoded-cases (inl err) = inl (err, refl)
decoded-cases (inr none) = inr (inl refl)
decoded-cases (inr (some l3)) = inr (inr (l3, refl))

apply_message-sequenced :
    (hash : ℕ → ℕ) (e : SzseL3Engine) (msg : StreamMessage) (l3 : L3Message)
    → decode_l3_message msg e.policy.decode ≡ inr (some l3)
    → (take_channel e l3.header.stream_id).1 ≡ none
    → apply_message hash e msg ≡ sequence_and_route hash (take_channel e l3.header.stream_id).0 l3
unfolding apply_message
apply_message-sequenced hash e msg l3 d t = rw (apply_message, d, t) refl

sequenced-Took :
    (hash : ℕ → ℕ) (e : SzseL3Engine) (l3 : L3Message) (last : ℕ)
    → e.policy.gap ≡ GapPolicy.panic
    → e.sequencer.last_seq ≡ some last
    → (sequence_and_route hash (take_channel e l3.header.stream_id).0 l3).1 ≡ inr applied
    → Took hash e l3 (sequence_and_route hash (take_channel e l3.header.stream_id).0 l3).0 last
sequenced-Took hash e l3 last strict known h =
    let taken = (take_channel e l3.header.stream_id).0 in
    let (policy, sequencer, workers) = take_channel-rest e l3.header.stream_id in
    let (number, seen, routed) = sequence-applied hash taken l3 last (cc) (cc) h in
    (number, seen, cc)

apply_message-undecoded :
    (hash : ℕ → ℕ) (e : SzseL3Engine) (msg : StreamMessage)
    → ((err : EngineError) × (decode_l3_message msg e.policy.decode ≡ inl err))
      ⊎ (decode_l3_message msg e.policy.decode ≡ inr none)
    → ¬ ((apply_message hash e msg).1 ≡ inr applied)
unfolding apply_message
apply_message-undecoded hash e msg (inl (err, d)) h = ground arith
apply_message-undecoded hash e msg (inr d) h = ground arith

apply_message-refused :
    (hash : ℕ → ℕ) (e : SzseL3Engine) (msg : StreamMessage) (l3 : L3Message) (err : EngineError)
    → decode_l3_message msg e.policy.decode ≡ inr (some l3)
    → (take_channel e l3.header.stream_id).1 ≡ some err
    → ¬ ((apply_message hash e msg).1 ≡ inr applied)
unfolding apply_message
apply_message-refused hash e msg l3 err d t h = ground arith

-- Under the policy that refuses gaps, a message that an engine with a last sequence number applies
-- decodes to an event, is of the engine's channel where the engine has one, and has the next
-- number, which becomes the last; the workers are those after routing the event.
pub apply_message-applied :
    (hash : ℕ → ℕ) (e : SzseL3Engine) (msg : StreamMessage) (last : ℕ)
    → e.policy.gap ≡ GapPolicy.panic
    → e.sequencer.last_seq ≡ some last
    → (apply_message hash e msg).1 ≡ inr applied
    → (l3 : L3Message) × (decode_l3_message msg e.policy.decode ≡ inr (some l3))
      × ((apply_message hash e msg).0.channel_id ≡ some l3.header.stream_id)
      × ((channel : ℕ) → e.channel_id ≡ some channel → channel ≡ l3.header.stream_id)
      × Took hash e l3 (apply_message hash e msg).0 last
apply_message-applied hash e msg last strict known h =
    elim (decoded-cases (decode_l3_message msg e.policy.decode)) [
      | inl (err, d) ↦ absurd (apply_message-undecoded hash e msg (inl (err, d)) h)
      | inr (inl d) ↦ absurd (apply_message-undecoded hash e msg (inr d) h)
      | inr (inr (l3, d)) ↦ elim (Option-cases (take_channel e l3.header.stream_id).1) [
        | inl t ↦
            let sequenced = apply_message-sequenced hash e msg l3 d t in
            let (channel, same) = taken e l3.header.stream_id t in
            (
              l3,
              d,
              ap (λ r. r.0.channel_id) sequenced
                  ∙ sequence-channel hash (take_channel e l3.header.stream_id).0 l3
                  ∙ channel,
              same,
              subst (λ r. Took hash e l3 r.0 last) (sym sequenced)
                  (sequenced-Took hash e l3 last strict known (cc)),
            )
        | inr (err, t) ↦ absurd (apply_message-refused hash e msg l3 err d t h)
      ]
    ]
