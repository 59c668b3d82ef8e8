-- ===== src/Pipeline/Stages.antt =====
-- A pipeline that takes one message at a time through all its transforms, against whole lists that
-- go through one transform after the other.
use chronicle_rs.Base.{
  ℕ, suc, ◌+◌, ◌%◌, ◌^◌, ◌<◌, ◌≡◌, refl, ap, ◌∙◌, List, [], ◌∷◌, ◌++◌, Option, none, some, Bool,
  true, false, inl, inr, Option-cases, ◌&&◌, ◌==◌, ltb, leb, if◌then◌else◌, arith,
}
use chronicle_rs.Replay.{StreamMessage}
use chronicle_rs.Pipeline.{
  Transform, identity, time_range_filter, type_filter, sampler, contains, transform,
  transform_chain,
}

-- The messages with a test.
unfoldable pub filter : (StreamMessage → Bool) → List StreamMessage → List StreamMessage
filter test [] = []
filter test (m ∷ ms) = if test m then m ∷ filter test ms else filter test ms

-- Every message whose place, counted on from `count`, is a multiple of `interval`.
unfoldable pub every : ℕ → ℕ → List StreamMessage → List StreamMessage
every interval count [] = []
every interval count (m ∷ ms) =
    let rest = every interval (count + 1) ms in
    if (count + 1) % interval == 0 then m ∷ rest else rest

-- What a transform leaves of a whole list.
unfoldable pub stage : Transform → List StreamMessage → List StreamMessage
unfolding filter every
stage identity ms = ms
stage (time_range_filter start_ns end_ns) ms =
    filter (λ m. leb start_ns m.timestamp_ns && ltb m.timestamp_ns end_ns) ms
stage (type_filter types) ms = filter (λ m. contains types m.type_id) ms
stage (sampler interval count) ms = every interval count ms

unfoldable pub stages : List Transform → List StreamMessage → List StreamMessage
unfolding stage
stages [] ms = ms
stages (t ∷ ts) ms = stages ts (stage t ms)

-- No counter wraps within `n` messages, and no interval is 0.
abbrev pub CountsTo : ℕ → List Transform → Type 0
CountsTo n [] = Unit {0}
CountsTo n (identity ∷ ts) = CountsTo n ts
CountsTo n (time_range_filter start_ns end_ns ∷ ts) = CountsTo n ts
CountsTo n (type_filter types ∷ ts) = CountsTo n ts
CountsTo n (sampler interval count ∷ ts) = ((0 < interval) × (count + n < 2 ^ 64)) × CountsTo n ts

abbrev pub listed : Option StreamMessage → List StreamMessage
listed none = []
listed (some m) = m ∷ []

listed_if :
    (b : Bool) (m : StreamMessage) (ms : List StreamMessage)
    → (if b then m ∷ ms else ms) ≡ listed (if b then some m else none) ++ ms
listed_if true m ms = refl
listed_if false m ms = refl

CountsTo-first :
    (n : ℕ) (t : Transform) (ts : List Transform) → CountsTo n (t ∷ ts) → CountsTo n (t ∷ [])
CountsTo-first n identity ts c = tt
CountsTo-first n (time_range_filter a b) ts c = tt
CountsTo-first n (type_filter types) ts c = tt
CountsTo-first n (sampler interval count) ts (c, cs) = (c, tt)

CountsTo-rest : (n : ℕ) (t : Transform) (ts : List Transform) → CountsTo n (t ∷ ts) → CountsTo n ts
CountsTo-rest n identity ts c = c
CountsTo-rest n (time_range_filter a b) ts c = c
CountsTo-rest n (type_filter types) ts c = c
CountsTo-rest n (sampler interval count) ts (c, cs) = cs

CountsTo-join :
    (n : ℕ) (t : Transform) (ts : List Transform)
    → CountsTo n (t ∷ [])
    → CountsTo n ts
    → CountsTo n (t ∷ ts)
CountsTo-join n identity ts c cs = cs
CountsTo-join n (time_range_filter a b) ts c cs = cs
CountsTo-join n (type_filter types) ts c cs = cs
CountsTo-join n (sampler interval count) ts (c, end) cs = (c, cs)

CountsTo-less : (n : ℕ) (ts : List Transform) → CountsTo (suc n) ts → CountsTo n ts
CountsTo-less n [] c = tt
CountsTo-less n (identity ∷ ts) c = CountsTo-less n ts c
CountsTo-less n (time_range_filter a b ∷ ts) c = CountsTo-less n ts c
CountsTo-less n (type_filter types ∷ ts) c = CountsTo-less n ts c
CountsTo-less n (sampler interval count ∷ ts) ((pos, small), cs) =
    ((pos, omega arith), CountsTo-less n ts cs)

-- A transform takes the first message of a list and leaves itself for the rest.
transform-stage :
    (n : ℕ) (t : Transform) (m : StreamMessage) (ms : List StreamMessage)
    → CountsTo (suc n) (t ∷ [])
    → (stage t (m ∷ ms) ≡ listed (transform t m).0 ++ stage (transform t m).1 ms)
      × CountsTo n ((transform t m).1 ∷ [])
unfolding transform stage filter every
transform-stage n identity m ms c = (refl, tt)
transform-stage n (time_range_filter a b) m ms c =
    let test : StreamMessage → Bool = λ x. leb a x.timestamp_ns && ltb x.timestamp_ns b in
    (listed_if (test m) m (filter test ms), tt)
transform-stage n (type_filter types) m ms c =
    let test : StreamMessage → Bool = λ x. contains types x.type_id in
    (listed_if (test m) m (filter test ms), tt)
transform-stage n (sampler interval count) m ms ((pos, small), end) =
    let same : (count + 1) % 2 ^ 64 ≡ count + 1 = omega arith in
    (
      rw same (listed_if ((count + 1) % interval == 0) m (every interval (count + 1) ms)),
      ((pos, omega arith), tt),
    )

-- So does a chain.
pub transform_chain-stages :
    (n : ℕ) (ts : List Transform) (m : StreamMessage) (ms : List StreamMessage)
    → CountsTo (suc n) ts
    → (stages ts (m ∷ ms) ≡ listed (transform_chain ts m).0 ++ stages (transform_chain ts m).1 ms)
      × CountsTo n (transform_chain ts m).1
unfolding transform_chain stages
transform_chain-stages n [] m ms c = (refl, tt)
transform_chain-stages n (t ∷ ts) m ms c =
    let (first, here) = transform-stage n t m ms (CountsTo-first (suc n) t ts c) in
    let rest = CountsTo-rest (suc n) t ts c in
    let onward = ap (stages ts) first in
    elim (Option-cases (transform t m).0) [
      | inl gone ↦ (
        onward ∙ rw (transform_chain, gone) refl,
        rw (transform_chain, gone)
            (CountsTo-join n (transform t m).1 ts here (CountsTo-less n ts rest)),
      )
      | inr (m', there) ↦
          let (later, counts) = transform_chain-stages n ts m' (stage (transform t m).1 ms) rest in
          (
            onward ∙ rw (transform_chain, there) later,
            rw (transform_chain, there)
                (CountsTo-join n (transform t m).1 (transform_chain ts m').1 here counts),
          )
    ]
