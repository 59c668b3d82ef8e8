-- ===== src/Capacity/Tests.antt =====
-- An example of the writer's capacity: at most 8192 bytes ahead of the slowest reader.
use chronicle_rs.Base.{◌≡◌, refl, some, true}
use chronicle_rs.Capacity.{
  QueueWriter, has_capacity, bytes_ok, segments_ok, head_after, next_position,
}

abbrev writer : QueueWriter
writer = record {
  segment_id = 2;
  write_offset = 4032;
  segment_size = 4096;
  max_bytes = some 8192;
  max_segments = some 3;
}

room : has_capacity writer 4352 128 ≡ true
unfolding has_capacity bytes_ok segments_ok head_after next_position
room = refl
