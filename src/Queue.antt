-- ===== src/Queue.antt =====
-- The live queue of core/writer.rs and core/reader.rs: what its processes share. A mapping of a
-- segment shows the bytes of its file, whoever writes them, so a handle holds the segment's id and
-- each access looks the file up. A call of one process is one step here; what a failed call leaves
-- behind is not modelled. Removing a file that is still mapped is outside the model.
pub mod Writer
pub mod Ahead
pub mod Running
pub mod Written
pub mod Sent
pub mod Rounds
pub mod Received
pub mod Prepared
pub mod Fifo
pub mod Open
pub mod Subscribe
pub mod First
pub mod Start
pub mod Seek
pub mod Limits
mod Tests
pub mod Reader
use chronicle_rs.Base.{
  ℕ, ◌+◌, ◌%◌, ◌^◌, List, Option, none, some, Result, ok, err, io, not_found, corrupt_metadata,
  unsupported_version, guard, ◌>>=◌, ◌>>◌, ◌==◌, lookup, insert,
}
use chronicle_rs.Bytes.{Mem}
use chronicle_rs.Store.{Dir, prepare_segment_temp, publish_segment}
use chronicle_rs.Control.{ControlBlock, ctrl_magic, ctrl_version, bump}

-- The directory, the control block, and the seek index files by segment.
pub record Queue : Type 0 where
  pub dir : Dir
  pub control : ControlBlock
  pub indexes : List (ℕ × List ℕ)

unfoldable pub mapping : Dir → ℕ → Result Mem
mapping d id = elim (lookup id d.files) [ none ↦ err (io not_found) | some m ↦ ok m ]

unfoldable pub store_mapping : Dir → ℕ → Mem → Dir
store_mapping d id m = record d { files = insert id m d.files }

-- `wait_ready` once the block is initialised: until then it waits.
unfoldable pub wait_ready : ControlBlock → Result (Unit {0})
wait_ready b = do
  guard (b.magic == ctrl_magic) (corrupt_metadata "control.meta magic mismatch")
  guard (b.version == ctrl_version) (unsupported_version b.version)

-- The stores of `set_segment_index`, with no reader between them.
unfoldable pub set_segment_index : ControlBlock → ℕ → ℕ → ControlBlock
set_segment_index b segment offset =
    bump (record (bump b) { current_segment = segment; write_offset = offset })

-- The heartbeat, and `notify_seq.fetch_add(1)` on 32 bits; waking a waiter changes no state.
unfoldable pub notify : ControlBlock → ℕ → ControlBlock
notify b now_ns = record b {
  writer_heartbeat_ns = now_ns;
  notify_seq = (b.notify_seq + 1) % 2 ^ 32;
}

-- A round of the thread that prepares segments. A failure leaves the directory as it was.
unfoldable pub preallocate : Queue → ℕ → ℕ → Queue
preallocate q id segment_size = elim (prepare_segment_temp q.dir id segment_size) [
  | err _ ↦ q
  | ok (dir, m) ↦ elim (publish_segment dir id m) [ err _ ↦ q | ok dir' ↦ record q { dir = dir' } ]
]
