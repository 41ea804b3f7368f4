-- ===== src/Binary/Length/Fields.antt =====
-- The bit operations of the length encoding, as arithmetic.
use mikrotik_openvpn_gui.Common.{
  ℕ, zero, suc, ◌+◌, ◌*◌, ◌%◌, ◌<◌, bit_and, bit_or, ◌≡◌, refl, Bool, true, ◌&&◌, arith, ◌==◌,
}
use mikrotik_openvpn_gui.Common.Bits.{shl, bit_or-shl, bit_and-mask}

-- Two functions agree on every number below `n`.
agree : (ℕ → ℕ) → (ℕ → ℕ) → ℕ → Bool
agree f g zero = true
agree f g (suc n) = agree f g n && f n == g n

agree_at : (f g : ℕ → ℕ) (n x : ℕ) → x < n → agree f g n ≡ true → f x ≡ g x
unfolding agree
agree_at f g (suc n) x below e = ground (arith, agree_at f g n x)
agree_at f g zero x below e = absurd (omega arith)

pub two_byte_mark : (x : ℕ) → x < 64 → bit_or x 0x80 ≡ x + 0x80
unfolding agree
two_byte_mark x h = agree_at (λ t. bit_or t 0x80) (λ t. t + 0x80) 64 x h refl

pub three_byte_mark : (x : ℕ) → x < 32 → bit_or x 0xC0 ≡ x + 0xC0
unfolding agree
three_byte_mark x h = agree_at (λ t. bit_or t 0xC0) (λ t. t + 0xC0) 32 x h refl

pub four_byte_mark : (x : ℕ) → x < 16 → bit_or x 0xE0 ≡ x + 0xE0
unfolding agree
four_byte_mark x h = agree_at (λ t. bit_or t 0xE0) (λ t. t + 0xE0) 16 x h refl

pub low_byte : (n : ℕ) → bit_and n 0xFF ≡ n % 256
low_byte n = bit_and-mask 8 n

pub low_six : (n : ℕ) → bit_and n 0x3F ≡ n % 64
low_six n = bit_and-mask 6 n

pub low_five : (n : ℕ) → bit_and n 0x1F ≡ n % 32
low_five n = bit_and-mask 5 n

pub low_four : (n : ℕ) → bit_and n 0x0F ≡ n % 16
low_four n = bit_and-mask 4 n

pub join_two : (a b : ℕ) → b < 256 → bit_or (shl a 8) b ≡ a * 256 + b
join_two a b h = bit_or-shl 8 a b h

pub join_three :
    (a b c : ℕ)
    → b < 256
    → c < 256
    → bit_or (bit_or (shl a 16) (shl b 8)) c ≡ a * 65536 + b * 256 + c
join_three a b c hb hc =
    let high : bit_or (shl a 16) (shl b 8) ≡ shl (a * 256 + b) 8 =
      omega (arith, bit_or-shl 16 a (b * 256) (omega arith)) in
    rw high (omega (arith, bit_or-shl 8 (a * 256 + b) c hc))

pub join_four :
    (a b c d : ℕ)
    → b < 256
    → c < 256
    → d < 256
    → bit_or (bit_or (bit_or (shl a 24) (shl b 16)) (shl c 8)) d
      ≡ a * 16777216 + b * 65536 + c * 256 + d
join_four a b c d hb hc hd =
    let top : bit_or (shl a 24) (shl b 16) ≡ shl (a * 256 + b) 16 =
      omega (arith, bit_or-shl 24 a (b * 65536) (omega arith)) in
    rw top (omega (arith, join_three (a * 256 + b) c d hc hd))
