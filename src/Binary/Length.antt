-- ===== src/Binary/Length.antt =====
-- `encode_length` and `decode_length` of routeros_binary.py. Bytes are numbers below 256.
pub mod Suffix
pub mod Fields
pub mod RoundTrip
use mikrotik_openvpn_gui.Common.{
  ℕ, ◌+◌, ◌*◌, ◌%◌, ◌^◌, bit_and, bit_or, List, [], ◌∷◌, ltb, leb, ◌==◌, if◌then◌else◌, length,
  get_or, take, drop,
}
use mikrotik_openvpn_gui.Common.Int.{ℤ, pos, negsuc}
use mikrotik_openvpn_gui.Common.Bits.{shl, shr}
use mikrotik_openvpn_gui.Binary.Error.{
  Result, ok, err, negative_length, length_too_large, truncated_length, truncated_two_byte,
  truncated_three_byte, truncated_four_byte, truncated_five_byte, reserved_prefix,
}

-- `length.to_bytes(4, "big")` of a length below 2 ** 32
abbrev big_endian4 : ℕ → List ℕ
big_endian4 n = shr n 24 % 256 ∷ shr n 16 % 256 ∷ shr n 8 % 256 ∷ n % 256 ∷ []

encode_natural : ℕ → Result (List ℕ)
encode_natural n =
    if ltb n 0x80
    then ok (n ∷ [])
    else if ltb n 0x4000
    then ok (bit_or (shr n 8) 0x80 ∷ bit_and n 0xFF ∷ [])
    else if ltb n 0x200000
    then ok (bit_or (shr n 16) 0xC0 ∷ bit_and (shr n 8) 0xFF ∷ bit_and n 0xFF ∷ [])
    else if ltb n 0x10000000
    then ok (
        bit_or (shr n 24) 0xE0
        ∷ bit_and (shr n 16) 0xFF
        ∷ bit_and (shr n 8) 0xFF
        ∷ bit_and n 0xFF
        ∷ [])
    else if leb 0x100000000 n
    then err length_too_large
    else ok (0xF0 ∷ big_endian4 n)

unfoldable pub encode_length : ℤ → Result (List ℕ)
unfolding encode_natural
encode_length (negsuc n) = err negative_length
encode_length (pos n) = encode_natural n

-- `data[i]`; the code tests the bounds before it reads.
abbrev pub byte_at : List ℕ → ℕ → ℕ
byte_at bytes i = get_or bytes i 0

-- `int.from_bytes(data, "big")`
abbrev from_big_endian : ℕ → List ℕ → ℕ
from_big_endian acc [] = acc
from_big_endian acc (b ∷ rest) = from_big_endian (acc * 256 + b) rest

-- The branches on the first byte, with `offset` already past it.
decode_after : List ℕ → ℕ → ℕ → Result (ℕ × ℕ)
decode_after bytes first offset =
    if ltb first 0x80
    then ok (first, offset)
    else if ltb first 0xC0
    then (if leb (length bytes) offset
        then err truncated_two_byte
        else ok (bit_or (shl (bit_and first 0x3F) 8) (byte_at bytes offset), offset + 1))
    else if ltb first 0xE0
    then (if leb (length bytes) (offset + 1)
        then err truncated_three_byte
        else ok (
          bit_or (bit_or (shl (bit_and first 0x1F) 16) (shl (byte_at bytes offset) 8))
              (byte_at bytes (offset + 1)),
          offset + 2,
        ))
    else if ltb first 0xF0
    then (if leb (length bytes) (offset + 2)
        then err truncated_four_byte
        else ok (
          bit_or
              (bit_or (bit_or (shl (bit_and first 0x0F) 24) (shl (byte_at bytes offset) 16))
                (shl (byte_at bytes (offset + 1)) 8))
              (byte_at bytes (offset + 2)),
          offset + 3,
        ))
    else if first == 0xF0
    then (if ltb (length bytes) (offset + 4)
        then err truncated_five_byte
        else ok (from_big_endian 0 (take 4 (drop offset bytes)), offset + 4))
    else err reserved_prefix

unfoldable pub decode_length : List ℕ → ℕ → Result (ℕ × ℕ)
unfolding decode_after
decode_length bytes offset =
    if leb (length bytes) offset
    then err truncated_length
    else decode_after bytes (byte_at bytes offset) (offset + 1)
