-- ===== src/Tests/NetTests.antt =====
-- Frames with a one-byte length field, and one with the eight-byte field that never ends.
use ttstringgolangiot.Base.{ℕ, ◌≡◌, ◌≢◌, refl, none, some, List, [], ◌∷◌, true, arith}
use ttstringgolangiot.Net.Frame.{Config, Table, buffered, pack_loop, pack, read_length_field_length}
use ttstringgolangiot.Net.Frame.Step.{IsPacket}
use ttstringgolangiot.Net.Frame.Stream.{deliver, deliver_frames}
use ttstringgolangiot.Net.Frame.Total.{pack_total, pack_loop_diverges}

abbrev byte_config : Config
byte_config = record {
  max_frame_length = 16;
  length_field_offset = 0;
  length_field_length = 1;
  initial_bytes_to_strip = 1;
}

abbrev long_config : Config
long_config = record {
  max_frame_length = 16;
  length_field_offset = 0;
  length_field_length = 8;
  initial_bytes_to_strip = 0;
}

abbrev two_packets : List (List ℕ)
two_packets = (2 ∷ 7 ∷ 8 ∷ []) ∷ (1 ∷ 9 ∷ []) ∷ []

abbrev three_reads : List (List ℕ)
three_reads = (2 ∷ []) ∷ (7 ∷ 8 ∷ 1 ∷ []) ∷ (9 ∷ []) ∷ []

abbrev no_table : Table
no_table = []

first-IsPacket : IsPacket byte_config (2 ∷ 7 ∷ 8 ∷ [])
unfolding read_length_field_length
first-IsPacket = record {
  payload = 2;
  whole = refl;
  field = refl;
  filled = omega arith;
  fits = omega arith;
  room = omega arith;
}

second-IsPacket : IsPacket byte_config (1 ∷ 9 ∷ [])
unfolding read_length_field_length
second-IsPacket = record {
  payload = 1;
  whole = refl;
  field = refl;
  filled = omega arith;
  fits = omega arith;
  room = omega arith;
}

deliver_frames_example :
    (t' : Table) × (deliver byte_config no_table "a" three_reads
      ≡ some (t', (7 ∷ 8 ∷ []) ∷ (9 ∷ []) ∷ []))
    × (buffered t' "a" ≡ [])
deliver_frames_example =
    deliver_frames byte_config two_packets three_reads no_table "a"
      (first-IsPacket, (second-IsPacket, tt)) (omega arith, (omega arith, (omega arith, tt))) refl
      refl

pack_total_example : pack byte_config no_table "a" (2 ∷ 7 ∷ 8 ∷ []) ≢ none
pack_total_example = pack_total byte_config no_table "a" (2 ∷ 7 ∷ 8 ∷ []) (omega arith)

-- 2^64 - 8, and one byte more.
abbrev endless : List ℕ
endless = 255 ∷ 255 ∷ 255 ∷ 255 ∷ 255 ∷ 255 ∷ 255 ∷ 248 ∷ 0 ∷ []

pack_loop_diverges_example : pack_loop long_config 1000 true endless [] ≡ none
pack_loop_diverges_example =
    pack_loop_diverges long_config 1000 true endless [] refl refl refl (omega arith) refl
