-- ===== src/Bus/Protocol/Frames.antt =====
-- Frames of backend/modules/bus/src/message_protocol.cpp, written and read back.
use axiotick.Common.{
  ℕ, ◌+◌, ◌-◌, ◌%◌, ◌^◌, ◌<◌, ◌≡◌, refl, ap, ◌∙◌, inl, inr, Bool-cases, true, false, bit_and,
  if◌then◌else◌, ltb, ◌==◌, Option, some, List, [], ◌∷◌, length, take, drop, arith,
}
use axiotick.Bus.Crc.{compute_crc32, compute_crc32_below}
use axiotick.Bus.Protocol.{
  ArgentumStatus, ok, err_proto, MessageType, type_code, DecodedHeader, bytes_of, value_of,
  encode_message_v2, check_frame, decode_header, decoded_v2, payload_ptr, field,
}

pub value_of-bytes_of_2 : (n : ℕ) → n < 2 ^ 16 → value_of (bytes_of 2 n) ≡ n
value_of-bytes_of_2 n h = omega arith

pub value_of-bytes_of_4 : (n : ℕ) → n < 2 ^ 32 → value_of (bytes_of 4 n) ≡ n
value_of-bytes_of_4 n h = omega arith

pub value_of-bytes_of_8 : (n : ℕ) → n < 2 ^ 64 → value_of (bytes_of 8 n) ≡ n
value_of-bytes_of_8 n h = omega arith

pub take_all : {A : Type 0} (xs : List A) → take (length xs) xs ≡ xs
take_all [] = refl
take_all (x ∷ xs) = ap (λ (ys : List _). x ∷ ys) (take_all xs)

pub type_code_small : (type : MessageType) → type_code type < 2 ^ 16
type_code_small type = ground arith

-- The header that a frame of version 2 has.
abbrev pub written_v2 : MessageType → List ℕ → ℕ → ℕ → DecodedHeader
written_v2 type bytes timestamp_ns flags = record {
  header = record {
    version = 2;
    type = type_code type;
    size = length bytes;
    timestamp_ns = timestamp_ns;
    flags = flags;
    crc32 = if bit_and flags 1 == 0 then 0 else compute_crc32 (some bytes) (length bytes);
  };
  header_size = 24;
}

decoded_v2-encode_message_v2 :
    (type : MessageType) (bytes : List ℕ) (timestamp_ns flags : ℕ)
    → length bytes < 2 ^ 32
    → timestamp_ns < 2 ^ 64
    → flags < 2 ^ 32
    → decoded_v2 (encode_message_v2 type (some bytes) (length bytes) timestamp_ns flags)
      ≡ written_v2 type bytes timestamp_ns flags
unfolding encode_message_v2
decoded_v2-encode_message_v2 type bytes timestamp_ns flags sized timed flagged =
    let crc = if bit_and flags 1 == 0 then 0 else compute_crc32 (some bytes) (length bytes) in
    let summed : crc < 2 ^ 32 = ground (arith, compute_crc32_below (some bytes) (length bytes)) in
    let whole : length bytes % 2 ^ 32 ≡ length bytes = omega arith in
    rw
      (
        value_of-bytes_of_2 (type_code type) (type_code_small type),
        value_of-bytes_of_4 (length bytes % 2 ^ 32) (omega arith),
        value_of-bytes_of_8 timestamp_ns timed,
        value_of-bytes_of_4 flags flagged,
        value_of-bytes_of_4 crc summed,
      )
      (rw whole refl)

-- The version that a reader sees first.
version_v2 :
    (type : MessageType) (bytes : List ℕ) (size timestamp_ns flags : ℕ)
    → field 0 2 (encode_message_v2 type (some bytes) size timestamp_ns flags) ≡ 2
unfolding encode_message_v2
version_v2 type bytes size timestamp_ns flags = refl

behind_v2 :
    (type : MessageType) (bytes : List ℕ) (timestamp_ns flags : ℕ)
    → drop 24 (encode_message_v2 type (some bytes) (length bytes) timestamp_ns flags) ≡ bytes
unfolding encode_message_v2
behind_v2 type bytes timestamp_ns flags = take_all bytes

check_frame-written_v2 :
    (type : MessageType) (frame bytes : List ℕ) (timestamp_ns flags : ℕ)
    → drop 24 frame ≡ bytes
    → check_frame frame (24 + length bytes) (written_v2 type bytes timestamp_ns flags) ≡ ok
unfolding check_frame
check_frame-written_v2 type frame bytes timestamp_ns flags e =
    let fits : ltb (24 + length bytes - 24) (length bytes) ≡ false = ground arith in
    rw (e, fits) (ground arith)

-- What `decode_header` comes to on a frame that starts with version 2.
decode_header_v2 :
    (frame : List ℕ) (size : ℕ) (out d : DecodedHeader)
    → field 0 2 frame ≡ 2
    → decoded_v2 frame ≡ d
    → decode_header (some frame) size (some out)
      ≡ (if ltb size 24 then (err_proto, some out) else (check_frame frame size d, some d))
unfolding decode_header
decode_header_v2 frame size out d e decoded =
    let answer = λ (d : DecodedHeader).
      if ltb size 24 then (err_proto, some out) else (check_frame frame size d, some d) in
    let read : decode_header (some frame) size (some out) ≡ answer (decoded_v2 frame) =
      ground (arith, e) in
    read ∙ ap answer decoded

-- A frame of version 2 is read back: `decode_header` answers ok with the fields that were written,
-- with the checksum where the flags ask for one, and `payload_ptr` points to the message.
pub decode_header-encode_message_v2 :
    (type : MessageType) (bytes : List ℕ) (timestamp_ns flags : ℕ) (out : DecodedHeader)
    → length bytes < 2 ^ 32
    → timestamp_ns < 2 ^ 64
    → flags < 2 ^ 32
    → let frame = encode_message_v2 type (some bytes) (length bytes) timestamp_ns flags in
      (decode_header (some frame) (24 + length bytes) (some out)
        ≡ (ok, some (written_v2 type bytes timestamp_ns flags)))
      × (payload_ptr (some frame) (24 + length bytes) 24 ≡ some bytes)
unfolding decode_header payload_ptr
decode_header-encode_message_v2 type bytes timestamp_ns flags out sized timed flagged =
    let frame = encode_message_v2 type (some bytes) (length bytes) timestamp_ns flags in
    let longer : ltb (24 + length bytes) 24 ≡ false = ground arith in
    let behind = behind_v2 type bytes timestamp_ns flags in
    let decoded = decoded_v2-encode_message_v2 type bytes timestamp_ns flags sized timed flagged in
    let checked = check_frame-written_v2 type frame bytes timestamp_ns flags behind in
    let version = version_v2 type bytes (length bytes) timestamp_ns flags in
    (
      decode_header_v2 frame (24 + length bytes) out (written_v2 type bytes timestamp_ns flags)
            version decoded
          ∙ rw (longer, checked) refl,
      rw (longer, behind) refl,
    )

-- A frame of version 2 that is cut off anywhere is refused.
pub decode_header_truncated :
    (type : MessageType) (bytes : List ℕ) (timestamp_ns flags size : ℕ) (out : DecodedHeader)
    → length bytes < 2 ^ 32
    → timestamp_ns < 2 ^ 64
    → flags < 2 ^ 32
    → size < 24 + length bytes
    → (decode_header
        (some (encode_message_v2 type (some bytes) (length bytes) timestamp_ns flags))
        size
        (some out)).0
      ≡ err_proto
unfolding decode_header check_frame
decode_header_truncated type bytes timestamp_ns flags size out sized timed flagged cut =
    let frame = encode_message_v2 type (some bytes) (length bytes) timestamp_ns flags in
    let decoded = decoded_v2-encode_message_v2 type bytes timestamp_ns flags sized timed flagged in
    let version = version_v2 type bytes (length bytes) timestamp_ns flags in
    ap (λ (a : ArgentumStatus × Option DecodedHeader). a.0)
      (decode_header_v2 frame size out (written_v2 type bytes timestamp_ns flags) version decoded)
    ∙ (elim (Bool-cases (ltb size 24)) [
      | inl short ↦ rw short refl
      | inr long ↦
          let lacks : ltb (size - 24) (length bytes) ≡ true = ground (arith, cut, long) in
          rw (long, check_frame, lacks) refl
    ])
