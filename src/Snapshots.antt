-- ===== src/Snapshots.antt =====
-- src/stream/replay/snapshot.rs: writing a snapshot of a venue and market, and the search for the
-- latest one. Failures of the file system other than a missing file are outside the model, and so
-- are files that the code does not write.
pub mod Format
pub mod Retention
pub mod Header
pub mod Latest
pub mod Kept
pub mod Stored
mod Tests
use chronicle_rs.Base.{
  ℕ, zero, suc, ◌+◌, ◌-◌, ◌%◌, ◌^◌, min, List, [], ◌∷◌, ◌++◌, Option, none, some, ◌⊎◌, inl, inr,
  Bool, true, false, ◌||◌, ◌==◌, ltb, leb, not, if◌then◌else◌, length, take, drop, lookup, insert,
  remove,
}
use chronicle_rs.Snapshots.Format.{
  SnapshotHeader, SnapshotMetadata, SnapshotError, SnapshotFile, SnapshotDir, to_header,
  encode_header, load_snapshot_header,
}
use chronicle_rs.Snapshots.Retention.{SnapshotRetention, apply_retention}

-- The file is written under a temporary name and then renamed, over an older one if there is one.
unfoldable pub write_snapshot :
    (now : ℕ) → SnapshotRetention → SnapshotDir → SnapshotMetadata → List ℕ → SnapshotDir
write_snapshot now r d m payload =
    let file : SnapshotFile = record {
      bytes = encode_header (to_header m (length payload)) ++ payload;
      modified = some now;
    } in
    let written : SnapshotDir = record d { temps = insert m.seq_num file d.temps } in
    let published : SnapshotDir = record written {
      files = insert m.seq_num file d.files;
      temps = remove m.seq_num written.temps;
    } in
    (apply_retention now r published).0

-- `latest_snapshot_before_seq` and its kin, which differ in the field `key` that they compare: the
-- loop over the entries, with the best one so far.
module _ (key : SnapshotHeader → ℕ) where
  unfoldable pub better : Option (ℕ × SnapshotHeader) → SnapshotHeader → Bool
  better none header = true
  better (some (seq, current)) header = ltb (key current) (key header)

  unfoldable pub latest_from :
      ℕ
      → Option (ℕ × SnapshotHeader)
      → List (ℕ × SnapshotFile)
      → SnapshotError ⊎ Option (ℕ × SnapshotHeader)
  latest_from limit best [] = inr best
  latest_from limit best ((seq, file) ∷ files) = elim (load_snapshot_header file) [
    | inl failure ↦ inl failure
    | inr header ↦
        latest_from limit
          (if ltb limit (key header)
            then best
            else if better best header
            then some (seq, header)
            else best)
          files
  ]

unfoldable pub latest_snapshot_before_seq :
    SnapshotDir → ℕ → SnapshotError ⊎ Option (ℕ × SnapshotHeader)
latest_snapshot_before_seq d seq_num = latest_from (λ h. h.seq_num) seq_num none d.files

unfoldable pub latest_snapshot_before_exchange_ts :
    SnapshotDir → ℕ → SnapshotError ⊎ Option (ℕ × SnapshotHeader)
latest_snapshot_before_exchange_ts d ts_ns =
    latest_from (λ h. h.exchange_ts_ns_end) ts_ns none d.files

unfoldable pub latest_snapshot_before_ingest_ts :
    SnapshotDir → ℕ → SnapshotError ⊎ Option (ℕ × SnapshotHeader)
latest_snapshot_before_ingest_ts d ts_ns = latest_from (λ h. h.ingest_ts_ns_end) ts_ns none d.files
