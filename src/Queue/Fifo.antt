-- ===== src/Queue/Fifo.antt =====
-- The live queue as a first-in first-out list: what a reader gets from any sequence of calls of the
-- writer, of one reader and of the thread that prepares segments.
use native.Mathlib.Nat.{mul-add}
use chronicle_rs.Base.{
  ℕ, ◌+◌, ◌-◌, ◌*◌, ◌%◌, ◌^◌, ◌≤◌, ◌<◌, ◌≡◌, refl, sym, ◌∙◌, subst, List, [], ◌∷◌, ◌++◌, All,
  Option, ok, err, some, none, false, Result, length, arith, lookup, length-append,
}
use chronicle_rs.Writer.Append.{Msg}
use chronicle_rs.Log.{MessageView}
use chronicle_rs.Queue.{Queue, preallocate}
use chronicle_rs.Queue.Writer
use chronicle_rs.Queue.Writer.{QueueWriter, append_with_timestamp}
use chronicle_rs.Queue.Reader
use chronicle_rs.Queue.Reader.{QueueReader, next, next_ref, next_loop, rounds, commit}
use chronicle_rs.Queue.Ahead.Moves.{Ahead-last_id}
use chronicle_rs.Queue.Running.{IsRunning}
use chronicle_rs.Queue.Sent.{Handed, append-IsRunning}
use chronicle_rs.Queue.Received.{Sendable, first, others, after_first, next_loop-Receives}
use chronicle_rs.Queue.Prepared.{preallocate-IsRunning, commit-IsRunning}

-- A call, with what it meets outside the queue.
pub data Call : Type 0 where
  send : Writer.Outside → Msg → Call
  receive : Reader.Outside → Call
  save : Reader.Outside → Call
  prepare : ℕ → Call

pub record System : Type 0 where
  pub queue : Queue
  pub writer : QueueWriter
  pub reader : QueueReader

-- The thread hands a segment over only if it has put it into the directory.
unfoldable pub handed : Writer.Outside → System → Writer.Outside
handed o y = record o {
  prepared = elim (lookup ((y.writer.segment_id + 1) % 2 ^ 32) y.queue.dir.files) [
    | none ↦ false
    | some _ ↦ o.prepared
  ];
}

-- A queue as a plain list: a receive takes the first message, with its number.
unfoldable pub fifo : ℕ → List Msg → List Call → List (Option MessageView)
fifo s ps [] = []
fifo s ps (send o p ∷ calls) = fifo s (ps ++ (p ∷ [])) calls
fifo s ps (receive o ∷ calls) = first s ps ∷ fifo (after_first s ps) (others ps) calls
fifo s ps (save o ∷ calls) = fifo s ps calls
fifo s ps (prepare id ∷ calls) = fifo s ps calls

module _ (crc32 : List ℕ → ℕ) where
  -- What the receives of the calls give, in order.
  unfoldable pub run : List Call → System → Option (Result (List (Option MessageView)))
  run [] y = some (ok [])
  run (send o p ∷ calls) y =
      elim (append_with_timestamp crc32 (handed o y) y.queue y.writer p.type_id p.payload
        p.timestamp_ns) [
          | err e ↦ some (err e)
          | ok (queue, writer) ↦ run calls (record y { queue = queue; writer = writer })
        ]
  run (receive o ∷ calls) y = elim (next crc32 o y.queue y.reader) [
    | none ↦ none
    | some (err e) ↦ some (err e)
    | some (ok (got, queue, reader)) ↦
        elim (run calls (record y { queue = queue; reader = reader })) [
          | none ↦ none
          | some (err e) ↦ some (err e)
          | some (ok gots) ↦ some (ok (got ∷ gots))
        ]
  ]
  run (save o ∷ calls) y = run calls (record y { reader = commit crc32 o y.reader })
  run (prepare id ∷ calls) y =
      run calls (record y { queue = preallocate y.queue id y.writer.segment_size })

-- The calls send only messages that fit.
abbrev pub Good : ℕ → List Call → Type 0
Good size [] = Unit {0}
Good size (send o p ∷ calls) = Sendable size p × Good size calls
Good size (receive o ∷ calls) = Good size calls
Good size (save o ∷ calls) = Good size calls
Good size (prepare id ∷ calls) = Good size calls

handed-Handed : (o : Writer.Outside) (y : System) → Handed (handed o y) y.queue y.writer
unfolding handed
handed-Handed o y gone = rw (handed, gone) refl

le-mul : (a n : ℕ) → a ≤ a * (n + 1)
le-mul a n = omega (arith, mul-add a n 1)

All-snoc :
    (size : ℕ) (ps : List Msg) (p : Msg)
    → All (Sendable size) ps
    → Sendable size p
    → All (Sendable size) (ps ++ (p ∷ []))
All-snoc size [] p a b = (b, tt)
All-snoc size (x ∷ ps) p (a, as') b = (a, All-snoc size ps p as' b)

All-others : (size : ℕ) (ps : List Msg) → All (Sendable size) ps → All (Sendable size) (others ps)
All-others size [] a = tt
All-others size (p ∷ ps) (a, rest) = rest

after_first-length : (s : ℕ) (ps : List Msg) → after_first s ps + length (others ps) ≡ s + length ps
after_first-length s [] = refl
after_first-length s (p ∷ ps) = omega arith

module _ (crc32 : List ℕ → ℕ) (size : ℕ) where
  -- One call of `next` on the running queue.
  receive-IsRunning :
      (o : Reader.Outside) (q : Queue) (w : QueueWriter) (r : QueueReader) (s : ℕ) (ps : List Msg)
      → 64 ≤ size
      → size < 2 ^ 63
      → ((bytes : List ℕ) → crc32 bytes < 2 ^ 32)
      → w.seq < 2 ^ 64
      → w.segment_id < 2 ^ 32
      → All (Sendable size) ps
      → IsRunning crc32 size q w r s ps
      → (r' : QueueReader) × (next crc32 o q r ≡ some (ok (first s ps, q, r')))
        × IsRunning crc32 size q w r' (after_first s ps) (others ps)
  unfolding next next_ref rounds
  receive-IsRunning o q w r s ps long small sum number ids good v =
      let last =
        Ahead-last_id crc32 size v.k q.dir.files w.segment_id w.write_offset r.segment_id
          r.read_offset s ps v.ahead in
      let fuel : ℕ = (q.control.current_segment - r.segment_id + 1) * (r.segment_size + 1) in
      let enough : v.k < fuel =
        omega (
          arith,
          le-mul (q.control.current_segment - r.segment_id + 1) r.segment_size,
          v.current,
        ) in
      let got =
        next_loop-Receives crc32 size v.k fuel o q r w.segment_id w.write_offset s ps long small sum
          enough v.current ids v.reader_size (omega (arith, v.number)) good v.ahead in
      (
        got.r',
        rw (next, next_ref, got.gives, got.shows) refl,
        record {
          k = got.k';
          ahead = got.ahead;
          writer_size = v.writer_size;
          reader_size = got.same_size ∙ v.reader_size;
          number = v.number ∙ sym (after_first-length s ps);
          current = v.current;
          unlimited = v.unlimited;
          no_prealloc_needed = v.no_prealloc_needed;
          spare = v.spare;
        },
      )

  -- The live queue is first in, first out: whatever the sequence of appends, receives, commits of
  -- the reader's position and prepared segments, all calls succeed, and the receives give exactly
  -- the messages in the order of the appends, numbered on from `s`, and none where the reader has
  -- caught up. The queue starts with the messages `ps` before the reader.
  pub run-fifo :
      (calls : List Call) (y : System) (s : ℕ) (ps : List Msg)
      → IsRunning crc32 size y.queue y.writer y.reader s ps
      → 64 ≤ size
      → size < 2 ^ 63
      → ((bytes : List ℕ) → crc32 bytes < 2 ^ 32)
      → y.writer.seq + length calls < 2 ^ 64
      → y.writer.segment_id + length calls < 2 ^ 32
      → All (Sendable size) ps
      → Good size calls
      → run crc32 calls y ≡ some (ok (fifo s ps calls))
  unfolding run fifo
  run-fifo [] y s ps v long small sum number ids good rest = refl
  run-fifo (send o p ∷ calls) y s ps v long small sum number ids good (ready, rest) =
      let (q', w', e, v', next_id) =
        append-IsRunning crc32 size (handed o y) y.queue y.writer y.reader s ps p v small
          (omega arith) (omega arith) (handed-Handed o y) ready.0 in
      rw (run, e)
        (run-fifo calls (record y { queue = q'; writer = w' }) s (ps ++ (p ∷ [])) v' long small sum
          (omega (arith, v.number, v'.number, length-append ps (p ∷ []))) (omega arith)
          (All-snoc size ps p good ready) rest)
  run-fifo (receive o ∷ calls) y s ps v long small sum number ids good rest =
      let (r', e, v') =
        receive-IsRunning o y.queue y.writer y.reader s ps long small sum (omega arith)
          (omega arith) good v in
      let later =
        run-fifo calls (record y { reader = r' }) (after_first s ps) (others ps) v' long small sum
          (omega arith) (omega arith) (All-others size ps good) rest in
      rw (run, e, later) refl
  run-fifo (save o ∷ calls) y s ps v long small sum number ids good rest =
      run-fifo calls (record y { reader = commit crc32 o y.reader }) s ps
        (commit-IsRunning crc32 size o y.queue y.writer y.reader s ps v) long small sum
        (omega arith) (omega arith) good rest
  run-fifo (prepare id ∷ calls) y s ps v long small sum number ids good rest =
      run-fifo calls (record y { queue = preallocate y.queue id y.writer.segment_size }) s ps
        (subst (λ n. IsRunning crc32 size (preallocate y.queue id n) y.writer y.reader s ps)
          (sym v.writer_size)
          (preallocate-IsRunning crc32 size y.queue y.writer y.reader s ps id long v))
        long small sum (omega arith) (omega arith) good rest
