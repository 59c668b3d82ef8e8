-- ===== src/Lifecycle/Tests.antt =====
-- Examples of the compression policy: a sealed segment, not read for ten days, and the same one too
-- early, open, or compressed.
use chronicle_rs.Base.{ℕ, ◌*◌, ◌≡◌, refl, some, true, false}
use chronicle_rs.Lifecycle.{
  SegmentInfo, Extension, CompressionPolicy, should_compress, is_compressed, policy_holds, is_idle,
  time_since_accessed, days_long,
}

abbrev day : ℕ
day = 86400 * 1_000_000_000

abbrev info : SegmentInfo
info = record {
  extension = Extension.other;
  segment_id = 0;
  size_bytes = 1000;
  created_at = 0;
  modified_at = 0;
  last_accessed_at = some 0;
  is_sealed = true;
  read_count = 1;
}

due : should_compress (CompressionPolicy.idle_after 7 true) (10 * day) info ≡ true
unfolding should_compress is_compressed policy_holds is_idle time_since_accessed days_long
due = refl

too_early : should_compress (CompressionPolicy.idle_after 11 true) (10 * day) info ≡ false
unfolding should_compress is_compressed policy_holds is_idle time_since_accessed days_long
too_early = refl

still_open :
    should_compress CompressionPolicy.immediate 0 (record info { is_sealed = false }) ≡ false
unfolding should_compress
still_open = refl

done_before :
    should_compress CompressionPolicy.immediate 0 (record info { extension = Extension.zst })
    ≡ false
unfolding should_compress is_compressed
done_before = refl
