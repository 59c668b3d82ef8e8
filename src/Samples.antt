-- ===== src/Samples.antt =====
-- Data of the examples: a checksum, messages, directories.
use chronicle_rs.Base.{ℕ, ◌+◌, ◌%◌, ◌^◌, ◌<◌, List, [], ◌∷◌, arith, All}
use chronicle_rs.Store.{Dir}
use chronicle_rs.Writer.Append.{Msg, Fits, record_len_bounds}

-- A checksum in place of crc32.
abbrev pub byte_sum : List ℕ → ℕ
byte_sum [] = 1
byte_sum (b ∷ bs) = (b + byte_sum bs) % 2 ^ 32

pub byte_sum-lt : (bs : List ℕ) → byte_sum bs < 2 ^ 32
byte_sum-lt [] = omega arith
byte_sum-lt (b ∷ bs) = omega arith

abbrev pub empty_dir : Dir
empty_dir = record { files = []; temps = [] }

abbrev pub order : Msg
order = record { type_id = 7; timestamp_ns = 1000; payload = 1 ∷ 2 ∷ 3 ∷ [] }

abbrev pub trade : Msg
trade = record { type_id = 8; timestamp_ns = 1001; payload = [] }

abbrev pub two_messages : List Msg
two_messages = order ∷ trade ∷ []

pub order-Fits : Fits 256 order
order-Fits = record {
  type_id_fits = omega arith;
  timestamp_fits = omega arith;
  payload_fits = omega arith;
  record_fits = omega (arith, record_len_bounds 3);
}

pub trade-Fits : Fits 256 trade
trade-Fits = record {
  type_id_fits = omega arith;
  timestamp_fits = omega arith;
  payload_fits = omega arith;
  record_fits = omega (arith, record_len_bounds 0);
}

pub two_messages-fit : All (Fits 256) two_messages
two_messages-fit = (order-Fits, (trade-Fits, tt))
