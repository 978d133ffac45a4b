-- ===== src/Bus/Protocol/Examples.antt =====
-- The theorems on frames, applied to a message of three bytes.
use axiotick.Common.{ℕ, ◌+◌, ◌≤◌, ◌≡◌, ◌⊎◌, refl, bit_and, none, some, List, [], ◌∷◌, drop, arith}
use axiotick.Bus.Crc.{compute_crc32, crc_bytes, crc_rounds}
use axiotick.Bus.Protocol.{
  DecodedHeader, ok, err_proto, order_message, encode_message, encode_message_v2, decode_header,
  payload_ptr, check_frame,
}
use axiotick.Bus.Protocol.FramesV1.{written_v1, decode_header-encode_message}
use axiotick.Bus.Protocol.Frames.{
  written_v2, decode_header-encode_message_v2, decode_header_truncated,
}
use axiotick.Bus.Protocol.Within.{decode_header_within}

abbrev message : List ℕ
message = 7 ∷ 8 ∷ 9 ∷ []

abbrev blank : DecodedHeader
blank = record {
  header = record { version = 0; type = 0; size = 0; timestamp_ns = 0; flags = 0; crc32 = 0 };
  header_size = 0;
}

-- A frame with its checksum.
abbrev frame : List ℕ
frame = encode_message_v2 order_message (some message) 3 1000 1

decode_header-encode_message_v2_example :
    (decode_header (some frame) 27 (some blank)
      ≡ (ok, some (written_v2 order_message message 1000 1)))
    × (payload_ptr (some frame) 27 24 ≡ some message)
decode_header-encode_message_v2_example =
    decode_header-encode_message_v2 order_message message 1000 1 blank (omega arith) (omega arith)
      (omega arith)

decode_header_truncated_example : (decode_header (some frame) 26 (some blank)).0 ≡ err_proto
decode_header_truncated_example =
    decode_header_truncated order_message message 1000 1 26 blank (omega arith) (omega arith)
      (omega arith) (omega arith)

decode_header-encode_message_example :
    (decode_header (some (encode_message order_message (some message) 3 1000)) 19 (some blank)
      ≡ (ok, some (written_v1 order_message message 1000)))
    × (payload_ptr (some (encode_message order_message (some message) 3 1000)) 19 16 ≡ some message)
decode_header-encode_message_example =
    decode_header-encode_message order_message message 1000 blank (omega arith) (omega arith)

decode_header_within_example :
    let d = written_v2 order_message message 1000 1 in
    (d.header_size + d.header.size ≤ 27)
    × (((d.header.version ≡ 1) × (d.header_size ≡ 16))
        ⊎ ((d.header.version ≡ 2) × (d.header_size ≡ 24)))
    × ((bit_and d.header.flags 1 ≡ 0)
        ⊎ (compute_crc32 (some (drop d.header_size frame)) d.header.size ≡ d.header.crc32))
decode_header_within_example =
    decode_header_within frame 27 blank (written_v2 order_message message 1000 1)
      decode_header-encode_message_v2_example.0

-- The checksum of "123456789" is the one that CRC-32 is tested by.
check_value : compute_crc32 (some (49 ∷ 50 ∷ 51 ∷ 52 ∷ 53 ∷ 54 ∷ 55 ∷ 56 ∷ 57 ∷ [])) 9 ≡ 0xCBF43926
unfolding compute_crc32 crc_bytes crc_rounds
check_value = refl

-- A frame for a null pointer has zeros behind its header and the checksum 0, and is not read back.
null_refused :
    (decode_header (some (encode_message_v2 order_message none 4 1000 1)) 28 (some blank)).0
    ≡ err_proto
unfolding decode_header encode_message_v2 check_frame compute_crc32 crc_bytes crc_rounds
null_refused = refl
