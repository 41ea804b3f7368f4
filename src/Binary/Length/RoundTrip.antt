-- ===== src/Binary/Length/RoundTrip.antt =====
-- A length that `encode_length` writes is read back by `decode_length`.
use native.Mathlib.Decide.{dec_lt}
use mikrotik_openvpn_gui.Common.{
  ℕ, ◌+◌, ◌*◌, ◌/◌, ◌%◌, ◌<◌, ◌≤◌, ◌≡◌, refl, List, [], ◌∷◌, ◌++◌, arith, length, drop-append,
}
use mikrotik_openvpn_gui.Common.Int.{pos}
use mikrotik_openvpn_gui.Binary.Error.{ok, err, length_too_large}
use mikrotik_openvpn_gui.Binary.Length.{encode_length, decode_length}
use mikrotik_openvpn_gui.Binary.Length.Suffix.{decode_suffix, decode_length-suffix}
use mikrotik_openvpn_gui.Binary.Length.Fields.{
  two_byte_mark, three_byte_mark, four_byte_mark, low_byte, low_six, low_five, low_four, join_two,
  join_three, join_four,
}

-- What is proved of each size of encoding.
abbrev Decodes : ℕ → List ℕ → Type 0
Decodes n bytes =
    (encode_length (pos n) ≡ ok bytes)
    × ((after : List ℕ) → decode_suffix (bytes ++ after) ≡ ok (n, length bytes))

one_byte : (n : ℕ) → n < 0x80 → Decodes n (n ∷ [])
unfolding encode_length decode_suffix
one_byte n h = (ground arith, λ after. ground arith)

decode_two :
    (x b : ℕ) (after : List ℕ)
    → x < 64
    → b < 256
    → decode_suffix ((x + 0x80) ∷ b ∷ after) ≡ ok (x * 256 + b, 2)
unfolding decode_suffix
decode_two x b after hx hb = ground (arith, low_six (x + 0x80), join_two x b hb)

decode_three :
    (x b c : ℕ) (after : List ℕ)
    → x < 32
    → b < 256
    → c < 256
    → decode_suffix ((x + 0xC0) ∷ b ∷ c ∷ after) ≡ ok (x * 65536 + b * 256 + c, 3)
unfolding decode_suffix
decode_three x b c after hx hb hc = ground (arith, low_five (x + 0xC0), join_three x b c hb hc)

decode_four :
    (x b c d : ℕ) (after : List ℕ)
    → x < 16
    → b < 256
    → c < 256
    → d < 256
    → decode_suffix ((x + 0xE0) ∷ b ∷ c ∷ d ∷ after)
      ≡ ok (x * 16777216 + b * 65536 + c * 256 + d, 4)
unfolding decode_suffix
decode_four x b c d after hx hb hc hd =
    ground (arith, low_four (x + 0xE0), join_four x b c d hb hc hd)

two_bytes : (n : ℕ) → 0x80 ≤ n → n < 0x4000 → Decodes n ((n / 256 + 0x80) ∷ n % 256 ∷ [])
unfolding encode_length
two_bytes n low high = (
  ground (arith, two_byte_mark (n / 256), low_byte n),
  λ after. ground (arith, decode_two (n / 256) (n % 256) after),
)

three_bytes :
    (n : ℕ)
    → 0x4000 ≤ n
    → n < 0x200000
    → Decodes n ((n / 65536 + 0xC0) ∷ n / 256 % 256 ∷ n % 256 ∷ [])
unfolding encode_length
three_bytes n low high = (
  ground (arith, three_byte_mark (n / 65536), low_byte (n / 256), low_byte n),
  λ after. ground (arith, decode_three (n / 65536) (n / 256 % 256) (n % 256) after),
)

four_bytes :
    (n : ℕ)
    → 0x200000 ≤ n
    → n < 0x10000000
    → Decodes n ((n / 16777216 + 0xE0) ∷ n / 65536 % 256 ∷ n / 256 % 256 ∷ n % 256 ∷ [])
unfolding encode_length
four_bytes n low high = (
  ground
      (arith, four_byte_mark (n / 16777216), low_byte (n / 65536), low_byte (n / 256), low_byte n),
  λ after.
      ground (arith, decode_four (n / 16777216) (n / 65536 % 256) (n / 256 % 256) (n % 256) after),
)

five_bytes :
    (n : ℕ)
    → 0x10000000 ≤ n
    → n < 0x100000000
    → Decodes n (0xF0 ∷ n / 16777216 % 256 ∷ n / 65536 % 256 ∷ n / 256 % 256 ∷ n % 256 ∷ [])
unfolding encode_length decode_suffix
five_bytes n low high = (ground arith, λ after. ground arith)

-- The encoding of a length below 2 ** 32 exists, and is read back.
pub encode_length_total : (n : ℕ) → n < 0x100000000 → (bytes : List ℕ) × Decodes n bytes
encode_length_total n h = elim (dec_lt n 0x80) [
  | yes a ↦ (_, one_byte n a)
  | no a ↦ elim (dec_lt n 0x4000) [
    | yes b ↦ (_, two_bytes n (omega arith) b)
    | no b ↦ elim (dec_lt n 0x200000) [
      | yes c ↦ (_, three_bytes n (omega arith) c)
      | no c ↦ elim (dec_lt n 0x10000000) [
        | yes d ↦ (_, four_bytes n (omega arith) d)
        | no d ↦ (_, five_bytes n (omega arith) h)
      ]
    ]
  ]
]

-- Every length below 2 ** 32 is encoded, and `decode_length` at the place where the encoding
-- stands, whatever bytes are before and after it, returns the length and the offset behind it.
pub decode_length-encode_length :
    (n : ℕ) (before after : List ℕ)
    → n < 0x100000000
    → (bytes : List ℕ) × (encode_length (pos n) ≡ ok bytes)
      × (decode_length (before ++ (bytes ++ after)) (length before)
          ≡ ok (n, length before + length bytes))
decode_length-encode_length n before after h =
    let (bytes, decodes) = encode_length_total n h in
    let (writes, reads) = decodes in
    (
      bytes,
      writes,
      rw (decode_length-suffix, drop-append (length before) before (bytes ++ after) refl, reads),
    )

-- A length of 2 ** 32 or more is refused.
pub encode_length_too_large :
    (n : ℕ) → 0x100000000 ≤ n → encode_length (pos n) ≡ err length_too_large
unfolding encode_length
encode_length_too_large n h = ground arith
