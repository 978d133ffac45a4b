-- ===== src/Bus/Crc.antt =====
-- The CRC-32 of backend/modules/bus/src/message_protocol.cpp. A byte is a number below 256, and a
-- `uint32_t` a number below 2 ^ 32.
use axiotick.Common.{
  ℕ, zero, suc, ◌/◌, ◌^◌, ◌<◌, bit_and, bit_and_mask, bit_xor, bit_xor_below, if◌then◌else◌, ◌==◌,
  Option, none, some, List, [], ◌∷◌, take, arith,
}

-- The inner loop of `init_crc32_table`.
unfoldable pub crc_rounds : ℕ → ℕ → ℕ
crc_rounds zero c = c
crc_rounds (suc j) c = crc_rounds j (if bit_and c 1 == 0 then c / 2 else bit_xor 0xEDB88320 (c / 2))

abbrev pub crc32_table : ℕ → ℕ
crc32_table i = crc_rounds 8 i

-- The loop of `compute_crc32`.
unfoldable pub crc_bytes : ℕ → List ℕ → ℕ
crc_bytes c [] = c
crc_bytes c (b ∷ bytes) =
    crc_bytes (bit_xor (crc32_table (bit_and (bit_xor c b) 255)) (c / 256)) bytes

unfoldable pub compute_crc32 : Option (List ℕ) → ℕ → ℕ
unfolding crc_bytes
compute_crc32 none size = 0
compute_crc32 (some bytes) size =
    if size == 0 then 0 else bit_xor (crc_bytes 0xFFFFFFFF (take size bytes)) 0xFFFFFFFF

crc_rounds_below : (j c : ℕ) → c < 2 ^ 32 → crc_rounds j c < 2 ^ 32
unfolding crc_rounds
crc_rounds_below zero c h = h
crc_rounds_below (suc j) c h =
    crc_rounds_below j (if bit_and c 1 == 0 then c / 2 else bit_xor 0xEDB88320 (c / 2))
      (ground (arith, bit_xor_below 32 0xEDB88320 (c / 2) (omega arith) (omega arith)))

crc_bytes_below : (bytes : List ℕ) (c : ℕ) → c < 2 ^ 32 → crc_bytes c bytes < 2 ^ 32
unfolding crc_bytes
crc_bytes_below [] c h = h
crc_bytes_below (b ∷ bytes) c h =
    let index = bit_and (bit_xor c b) 255 in
    let small : index < 2 ^ 32 = omega (arith, bit_and_mask 8 (bit_xor c b)) in
    crc_bytes_below bytes (bit_xor (crc32_table index) (c / 256)) (
      bit_xor_below 32 (crc32_table index) (c / 256) (crc_rounds_below 8 index small) (omega arith))

pub compute_crc32_below : (source : Option (List ℕ)) (size : ℕ) → compute_crc32 source size < 2 ^ 32
unfolding compute_crc32
compute_crc32_below none size = omega arith
compute_crc32_below (some bytes) size =
    let crc = crc_bytes 0xFFFFFFFF (take size bytes) in
    ground (
      arith,
      bit_xor_below 32 crc 0xFFFFFFFF (crc_bytes_below (take size bytes) 0xFFFFFFFF (omega arith))
          (omega arith),
    )
