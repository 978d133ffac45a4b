-- ===== src/Bus/Protocol.antt =====
-- backend/modules/bus/src/message_protocol.cpp, on a machine whose words begin with the lowest byte.
-- Memory is a list of bytes; a pointer is `none` if it is null, and the bytes it points to.
pub mod Frames
pub mod FramesV1
pub mod Within
mod Examples
use axiotick.Common.{
  ℕ, zero, suc, ◌+◌, ◌-◌, ◌*◌, ◌/◌, ◌%◌, ◌^◌, bit_and, not, ◌&&◌, if◌then◌else◌, ltb, ◌==◌, Option,
  none, some, List, [], ◌∷◌, ◌++◌, take, drop,
}
use axiotick.Bus.Crc.{compute_crc32}

pub data ArgentumStatus : Type 0 where
  ok err_parse err_io err_range : ArgentumStatus
  err_timeout err_proto err_nomem err_invalid : ArgentumStatus

pub data MessageType : Type 0 where
  tick_message order_message trade_message : MessageType

abbrev pub type_code : MessageType → ℕ
type_code tick_message = 1
type_code order_message = 2
type_code trade_message = 3

-- `MessageHeader`; a header of version 1 has no flags and no checksum.
pub record MessageHeader : Type 0 where
  pub version : ℕ
  pub type : ℕ
  pub size : ℕ
  pub timestamp_ns : ℕ
  pub flags : ℕ
  pub crc32 : ℕ

pub record DecodedHeader : Type 0 where
  pub header : MessageHeader
  pub header_size : ℕ

-- A word of so many bytes in memory, and its value.
abbrev pub bytes_of : ℕ → ℕ → List ℕ
bytes_of zero n = []
bytes_of (suc width) n = n % 256 ∷ bytes_of width (n / 256)

abbrev pub value_of : List ℕ → ℕ
value_of [] = 0
value_of (b ∷ bytes) = b + 256 * value_of bytes

abbrev pub field : ℕ → ℕ → List ℕ → ℕ
field offset width bytes = value_of (take width (drop offset bytes))

-- The memory of `MessageHeaderV1` and of `MessageHeaderV2`.
abbrev pub header_v1 : MessageHeader → List ℕ
header_v1 h =
    bytes_of 2 h.version ++ bytes_of 2 h.type ++ bytes_of 4 h.size ++ bytes_of 8 h.timestamp_ns

abbrev pub header_v2 : MessageHeader → List ℕ
header_v2 h = header_v1 h ++ bytes_of 4 h.flags ++ bytes_of 4 h.crc32

abbrev pub zeros : ℕ → List ℕ
zeros zero = []
zeros (suc n) = 0 ∷ zeros n

-- What stands behind the header: the buffer's zeros where there is nothing to copy.
abbrev pub payload : Option (List ℕ) → ℕ → List ℕ
payload none size = zeros size
payload (some bytes) size = take size bytes

unfoldable pub encode_message : MessageType → Option (List ℕ) → ℕ → ℕ → List ℕ
encode_message type source size timestamp_ns =
    header_v1 (record {
      version = 1;
      type = type_code type;
      size = size % 2 ^ 32;
      timestamp_ns = timestamp_ns;
      flags = 0;
      crc32 = 0;
    })
    ++ payload source size

unfoldable pub encode_message_v2 : MessageType → Option (List ℕ) → ℕ → ℕ → ℕ → List ℕ
encode_message_v2 type source size timestamp_ns flags =
    header_v2 (record {
      version = 2;
      type = type_code type;
      size = size % 2 ^ 32;
      timestamp_ns = timestamp_ns;
      flags = flags;
      crc32 = if bit_and flags 1 == 0 then 0 else compute_crc32 source size;
    })
    ++ payload source size

-- The two headers that `decode_header` reads.
abbrev pub decoded_v1 : List ℕ → DecodedHeader
decoded_v1 bytes = record {
  header = record {
    version = field 0 2 bytes;
    type = field 2 2 bytes;
    size = field 4 4 bytes;
    timestamp_ns = field 8 8 bytes;
    flags = 0;
    crc32 = 0;
  };
  header_size = 16;
}

abbrev pub decoded_v2 : List ℕ → DecodedHeader
decoded_v2 bytes = record {
  header = record {
    version = field 0 2 bytes;
    type = field 2 2 bytes;
    size = field 4 4 bytes;
    timestamp_ns = field 8 8 bytes;
    flags = field 16 4 bytes;
    crc32 = field 20 4 bytes;
  };
  header_size = 24;
}

-- What follows the choice of the version.
unfoldable pub check_frame : List ℕ → ℕ → DecodedHeader → ArgentumStatus
check_frame bytes size d =
    let found = compute_crc32 (some (drop d.header_size bytes)) d.header.size in
    if ltb (size - d.header_size) d.header.size
    then err_proto
    else if not (bit_and d.header.flags 1 == 0) && not (found == d.header.crc32)
    then err_proto
    else ok

unfoldable pub decode_header :
    Option (List ℕ) → ℕ → Option DecodedHeader → ArgentumStatus × Option DecodedHeader
unfolding check_frame
decode_header none size out = (err_invalid, out)
decode_header (some bytes) size none = (err_invalid, none)
decode_header (some bytes) size (some out) =
    let version = field 0 2 bytes in
    if ltb size 16
    then (err_proto, some out)
    else if version == 1
    then (check_frame bytes size (decoded_v1 bytes), some (decoded_v1 bytes))
    else if version == 2
    then if ltb size 24
      then (err_proto, some out)
      else (check_frame bytes size (decoded_v2 bytes), some (decoded_v2 bytes))
    else (err_proto, some out)

unfoldable pub payload_ptr : Option (List ℕ) → ℕ → ℕ → Option (List ℕ)
payload_ptr none size header_size = none
payload_ptr (some bytes) size header_size =
    if ltb size header_size then none else some (drop header_size bytes)
