-- ===== src/Bus/Protocol/FramesV1.antt =====
-- Frames of version 1 of backend/modules/bus/src/message_protocol.cpp, written and read back.
use axiotick.Common.{
  ℕ, ◌+◌, ◌-◌, ◌%◌, ◌^◌, ◌<◌, ◌≡◌, refl, ap, ◌∙◌, false, if◌then◌else◌, ltb, some, List, length,
  drop, arith,
}
use axiotick.Bus.Protocol.{
  ok, err_proto, MessageType, type_code, DecodedHeader, encode_message, check_frame, decode_header,
  decoded_v1, payload_ptr, field,
}
use axiotick.Bus.Protocol.Frames.{
  value_of-bytes_of_2, value_of-bytes_of_4, value_of-bytes_of_8, take_all, type_code_small,
}

-- The header that a frame of version 1 has.
abbrev pub written_v1 : MessageType → List ℕ → ℕ → DecodedHeader
written_v1 type bytes timestamp_ns = record {
  header = record {
    version = 1;
    type = type_code type;
    size = length bytes;
    timestamp_ns = timestamp_ns;
    flags = 0;
    crc32 = 0;
  };
  header_size = 16;
}

decoded_v1-encode_message :
    (type : MessageType) (bytes : List ℕ) (timestamp_ns : ℕ)
    → length bytes < 2 ^ 32
    → timestamp_ns < 2 ^ 64
    → decoded_v1 (encode_message type (some bytes) (length bytes) timestamp_ns)
      ≡ written_v1 type bytes timestamp_ns
unfolding encode_message
decoded_v1-encode_message type bytes timestamp_ns sized timed =
    let whole : length bytes % 2 ^ 32 ≡ length bytes = omega arith in
    rw
      (
        value_of-bytes_of_2 (type_code type) (type_code_small type),
        value_of-bytes_of_4 (length bytes % 2 ^ 32) (omega arith),
        value_of-bytes_of_8 timestamp_ns timed,
      )
      (rw whole refl)

version_v1 :
    (type : MessageType) (bytes : List ℕ) (size timestamp_ns : ℕ)
    → field 0 2 (encode_message type (some bytes) size timestamp_ns) ≡ 1
unfolding encode_message
version_v1 type bytes size timestamp_ns = refl

behind_v1 :
    (type : MessageType) (bytes : List ℕ) (timestamp_ns : ℕ)
    → drop 16 (encode_message type (some bytes) (length bytes) timestamp_ns) ≡ bytes
unfolding encode_message
behind_v1 type bytes timestamp_ns = take_all bytes

-- What `decode_header` comes to on a frame that starts with version 1.
decode_header_v1 :
    (frame : List ℕ) (size : ℕ) (out d : DecodedHeader)
    → field 0 2 frame ≡ 1
    → decoded_v1 frame ≡ d
    → decode_header (some frame) size (some out)
      ≡ (if ltb size 16 then (err_proto, some out) else (check_frame frame size d, some d))
unfolding decode_header
decode_header_v1 frame size out d e decoded =
    let answer = λ (d : DecodedHeader).
      if ltb size 16 then (err_proto, some out) else (check_frame frame size d, some d) in
    let read : decode_header (some frame) size (some out) ≡ answer (decoded_v1 frame) =
      ground (arith, e) in
    read ∙ ap answer decoded

check_frame-written_v1 :
    (type : MessageType) (frame bytes : List ℕ) (timestamp_ns : ℕ)
    → check_frame frame (16 + length bytes) (written_v1 type bytes timestamp_ns) ≡ ok
unfolding check_frame
check_frame-written_v1 type frame bytes timestamp_ns =
    let fits : ltb (16 + length bytes - 16) (length bytes) ≡ false = ground arith in rw fits refl

-- A frame of version 1 is read back: `decode_header` answers ok with the fields that were written
-- and no flags, and `payload_ptr` points to the message.
pub decode_header-encode_message :
    (type : MessageType) (bytes : List ℕ) (timestamp_ns : ℕ) (out : DecodedHeader)
    → length bytes < 2 ^ 32
    → timestamp_ns < 2 ^ 64
    → let frame = encode_message type (some bytes) (length bytes) timestamp_ns in
      (decode_header (some frame) (16 + length bytes) (some out)
        ≡ (ok, some (written_v1 type bytes timestamp_ns)))
      × (payload_ptr (some frame) (16 + length bytes) 16 ≡ some bytes)
unfolding decode_header payload_ptr
decode_header-encode_message type bytes timestamp_ns out sized timed =
    let frame = encode_message type (some bytes) (length bytes) timestamp_ns in
    let long : ltb (16 + length bytes) 16 ≡ false = ground arith in
    let decoded = decoded_v1-encode_message type bytes timestamp_ns sized timed in
    let checked = check_frame-written_v1 type frame bytes timestamp_ns in
    let version = version_v1 type bytes (length bytes) timestamp_ns in
    (
      decode_header_v1 frame (16 + length bytes) out (written_v1 type bytes timestamp_ns) version
            decoded
          ∙ rw (long, checked) refl,
      rw (long, behind_v1 type bytes timestamp_ns) refl,
    )
