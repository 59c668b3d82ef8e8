-- ===== src/Control.antt =====
-- src/core/control.rs: the control block that a writer shares with its readers. A load or a store is
-- one step, in one order that all see (sequential consistency, which the orderings of the code
-- stand for on the machines it runs on).
pub mod Ready
pub mod Locked
pub mod Seqlock
mod Tests
use chronicle_rs.Base.{
  ℕ, ◌+◌, ◌*◌, ◌%◌, ◌^◌, List, [], ◌∷◌, Bool, true, false, Result, ok, err, corrupt_metadata,
  unsupported_version, ◌==◌, ◌&&◌, not, if◌then◌else◌, zero, suc,
}

abbrev pub ctrl_magic : ℕ
ctrl_magic = 0x4348524E

abbrev pub ctrl_version : ℕ
ctrl_version = 3

pub record ControlBlock : Type 0 where
  pub magic : ℕ
  pub version : ℕ
  pub init_state : ℕ
  pub writer_epoch : ℕ
  pub segment_size : ℕ
  pub segment_gen : ℕ
  pub current_segment : ℕ
  pub write_offset : ℕ
  pub writer_heartbeat_ns : ℕ
  pub notify_seq : ℕ
  pub waiters_pending : ℕ

-- `mmap.as_mut_slice().fill(0)`
abbrev pub zeroed : ControlBlock
zeroed = record {
  magic = 0;
  version = 0;
  init_state = 0;
  writer_epoch = 0;
  segment_size = 0;
  segment_gen = 0;
  current_segment = 0;
  write_offset = 0;
  writer_heartbeat_ns = 0;
  notify_seq = 0;
  waiters_pending = 0;
}

-- The stores of `create`, in the code's order.
unfoldable pub create_stores : ℕ → ℕ → ℕ → ℕ → List (ControlBlock → ControlBlock)
create_stores current_segment write_offset writer_epoch segment_size =
    (λ b. record b { init_state = 1 })
    ∷ (λ b. record b { version = ctrl_version })
    ∷ (λ b. record b { segment_size = segment_size })
    ∷ (λ b. record b { segment_gen = 0 })
    ∷ (λ b. record b { current_segment = current_segment })
    ∷ (λ b. record b { write_offset = write_offset })
    ∷ (λ b. record b { writer_epoch = writer_epoch })
    ∷ (λ b. record b { writer_heartbeat_ns = 0 })
    ∷ (λ b. record b { notify_seq = 0 })
    ∷ (λ b. record b { waiters_pending = 0 })
    ∷ (λ b. record b { magic = ctrl_magic })
    ∷ (λ b. record b { init_state = 2 })
    ∷ []

unfoldable pub after_stores : List (ControlBlock → ControlBlock) → ControlBlock → ControlBlock
after_stores [] b = b
after_stores (store ∷ stores) b = after_stores stores (store b)

unfoldable pub create : ℕ → ℕ → ℕ → ℕ → ControlBlock
create current_segment write_offset writer_epoch segment_size =
    after_stores (create_stores current_segment write_offset writer_epoch segment_size) zeroed

unfoldable pub check_ready : ControlBlock → Result Bool
check_ready b =
    if not (b.init_state == 2)
    then ok false
    else if not (b.magic == ctrl_magic)
    then err (corrupt_metadata "control.meta magic mismatch")
    else if not (b.version == ctrl_version)
    then err (unsupported_version b.version)
    else ok true

-- How far the writer is in `set_segment_index`.
pub data WriterAt : Type 0 where
  idle : WriterAt
  bumped : (segment offset : ℕ) → WriterAt
  stored_segment : (offset : ℕ) → WriterAt
  stored_offset : WriterAt

-- How far a reader is in `segment_index`: what its last loads gave.
pub data ReaderAt : Type 0 where
  at_start : ReaderAt
  loaded_start : (start : ℕ) → ReaderAt
  loaded_segment : (start segment : ℕ) → ReaderAt
  loaded_offset : (start segment offset : ℕ) → ReaderAt
  returned : (segment offset : ℕ) → ReaderAt

-- One step of the writer or of the reader: the writer may begin a call of `set_segment_index` or
-- call `set_write_offset`.
pub data Action : Type 0 where
  begin_index : (segment offset : ℕ) → Action
  set_write_offset : ℕ → Action
  writer_step reader_step : Action

-- The block and the two program counters; `published` are the pairs that the writer has made
-- current, the newest first, and `ticks` counts the additions to `segment_gen`.
pub record Shared : Type 0 where
  pub block : ControlBlock
  pub writer : WriterAt
  pub reader : ReaderAt
  pub published : List (ℕ × ℕ)
  pub ticks : ℕ

-- `segment_gen.fetch_add(1)`, on 32 bits.
unfoldable pub bump : ControlBlock → ControlBlock
bump b = record b { segment_gen = (b.segment_gen + 1) % 2 ^ 32 }

unfoldable pub begin_set : ℕ → ℕ → Shared → Shared
begin_set segment offset s = elim s.writer [
  | idle ↦ record s { block = bump s.block; writer = bumped segment offset; ticks = s.ticks + 1 }
  | _ ↦ s
]

unfoldable pub put_offset : ℕ → Shared → Shared
put_offset offset s = elim s.writer [
  | idle ↦ record s {
    block = record s.block { write_offset = offset };
    published = (s.block.current_segment, offset) ∷ s.published;
  }
  | _ ↦ s
]

unfoldable pub step_writer : Shared → Shared
step_writer s = elim s.writer [
  | idle ↦ s
  | bumped segment offset ↦ record s {
    block = record s.block { current_segment = segment };
    writer = stored_segment offset;
  }
  | stored_segment offset ↦ record s {
    block = record s.block { write_offset = offset };
    writer = stored_offset;
  }
  | stored_offset ↦ record s {
    block = bump s.block;
    writer = idle;
    published = (s.block.current_segment, s.block.write_offset) ∷ s.published;
    ticks = s.ticks + 1;
  }
]

-- The reader's next load, and what it makes of it; after it returned, it calls again.
unfoldable pub next_load : ControlBlock → ReaderAt → ReaderAt
next_load b at_start = if b.segment_gen % 2 == 0 then loaded_start b.segment_gen else at_start
next_load b (loaded_start start) = loaded_segment start b.current_segment
next_load b (loaded_segment start segment) = loaded_offset start segment b.write_offset
next_load b (loaded_offset start segment offset) =
    if (start == b.segment_gen) && (b.segment_gen % 2 == 0)
    then returned segment offset
    else at_start
next_load b (returned segment offset) = at_start

unfoldable pub act : Action → Shared → Shared
act (begin_index segment offset) s = begin_set segment offset s
act (set_write_offset offset) s = put_offset offset s
act writer_step s = step_writer s
act reader_step s = record s { reader = next_load s.block s.reader }

unfoldable pub run : List Action → Shared → Shared
unfolding act
run [] s = s
run (a ∷ rest) s = run rest (act a s)

-- A created block, before the first call of either side.
unfoldable pub shared : ControlBlock → Shared
shared b = record {
  block = b;
  writer = idle;
  reader = at_start;
  published = (b.current_segment, b.write_offset) ∷ [];
  ticks = 0;
}
