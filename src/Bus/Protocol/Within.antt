-- ===== src/Bus/Protocol/Within.antt =====
-- What an answer of ok by `decode_header` of backend/modules/bus/src/message_protocol.cpp means.
use axiotick.Common.{
  ℕ, ◌+◌, ◌-◌, ◌≤◌, ◌≡◌, ◌⊎◌, refl, subst, ap, inl, inr, Bool-cases, bit_and, ltb, ◌==◌, Option,
  some, List, drop, arith,
}
use mathlib.Core.Option.{some-injective}
use axiotick.Bus.Crc.{compute_crc32}
use axiotick.Bus.Protocol.{
  ArgentumStatus, ok, err_proto, DecodedHeader, check_frame, decode_header, decoded_v1, decoded_v2,
  field,
}

check_frame-ok :
    (bytes : List ℕ) (size : ℕ) (d : DecodedHeader)
    → check_frame bytes size d ≡ ok
    → (d.header.size ≤ size - d.header_size)
      × ((bit_and d.header.flags 1 ≡ 0)
          ⊎ (compute_crc32 (some (drop d.header_size bytes)) d.header.size ≡ d.header.crc32))
unfolding check_frame
check_frame-ok bytes size d e = (ground (arith, e), ground (arith, e))

-- What an answer of ok says of the header that comes with it.
abbrev IsFound : List ℕ → ℕ → DecodedHeader → Type 0
IsFound bytes size d =
    (d.header_size ≤ size)
    × (((d.header.version ≡ 1) × (d.header_size ≡ 16))
        ⊎ ((d.header.version ≡ 2) × (d.header_size ≡ 24)))
    × (check_frame bytes size d ≡ ok)

-- An answer is sound if its header is, where it is ok.
abbrev IsSound : List ℕ → ℕ → ArgentumStatus × Option DecodedHeader → Type 0
IsSound bytes size a = (d : DecodedHeader) → a.0 ≡ ok → a.1 ≡ some d → IsFound bytes size d

found-IsSound :
    (bytes : List ℕ) (size : ℕ) (d : DecodedHeader)
    → (check_frame bytes size d ≡ ok → IsFound bytes size d)
    → IsSound bytes size (check_frame bytes size d, some d)
found-IsSound bytes size d holds d' fine same =
    subst (IsFound bytes size) (some-injective d d' same) (holds fine)

refused-IsSound :
    (bytes : List ℕ) (size : ℕ) (out : DecodedHeader) → IsSound bytes size (err_proto, some out)
refused-IsSound bytes size out d fine same = absurd (ground (arith, fine))

decode_header-IsSound :
    (bytes : List ℕ) (size : ℕ) (out : DecodedHeader)
    → IsSound bytes size (decode_header (some bytes) size (some out))
unfolding decode_header
decode_header-IsSound bytes size out =
    let version = field 0 2 bytes in
    elim (Bool-cases (ltb size 16)) [
      | inl tiny ↦ rw (decode_header, tiny) (refused-IsSound bytes size out)
      | inr holds_v1 ↦ elim (Bool-cases (version == 1)) [
        | inl first ↦
            rw (decode_header, holds_v1, first)
              (found-IsSound bytes size (decoded_v1 bytes)
                (λ fine. (ground (arith, holds_v1), inl (ground (arith, first), refl), fine)))
        | inr other ↦ elim (Bool-cases (version == 2)) [
          | inr unknown ↦
              rw (decode_header, holds_v1, other, unknown) (refused-IsSound bytes size out)
          | inl second ↦ elim (Bool-cases (ltb size 24)) [
            | inl short ↦
                rw (decode_header, holds_v1, other, second, short) (refused-IsSound bytes size out)
            | inr holds_v2 ↦
                rw (decode_header, holds_v1, other, second, holds_v2)
                  (found-IsSound bytes size (decoded_v2 bytes)
                    (λ fine. (ground (arith, holds_v2), inr (ground (arith, second), refl), fine)))
          ]
        ]
      ]
    ]

-- Where `decode_header` answers ok, the frame and its payload lie in the memory that it was given,
-- the version and the header's size agree, and the payload has its checksum if the flags ask for one.
pub decode_header_within :
    (bytes : List ℕ) (size : ℕ) (out d : DecodedHeader)
    → decode_header (some bytes) size (some out) ≡ (ok, some d)
    → (d.header_size + d.header.size ≤ size)
      × (((d.header.version ≡ 1) × (d.header_size ≡ 16))
          ⊎ ((d.header.version ≡ 2) × (d.header_size ≡ 24)))
      × ((bit_and d.header.flags 1 ≡ 0)
          ⊎ (compute_crc32 (some (drop d.header_size bytes)) d.header.size ≡ d.header.crc32))
unfolding decode_header
decode_header_within bytes size out d e =
    let (enough, version, checked) =
      decode_header-IsSound bytes size out d
        (ap (λ (a : ArgentumStatus × Option DecodedHeader). a.0) e)
        (ap (λ (a : ArgentumStatus × Option DecodedHeader). a.1) e) in
    let (fits, sound) = check_frame-ok bytes size d checked in
    (omega (arith, enough, fits), version, sound)
