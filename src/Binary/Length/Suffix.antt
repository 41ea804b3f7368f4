-- ===== src/Binary/Length/Suffix.antt =====
-- `decode_length` at an offset, as a function of the bytes from that offset on.
use mikrotik_openvpn_gui.Common.{
  ℕ, ◌+◌, ◌-◌, ◌<◌, ◌≤◌, ◌++◌, bit_and, bit_or, List, [], ◌∷◌, ltb, ◌==◌, if◌then◌else◌, length,
  drop, get_or, ◌≡◌, refl, sym, ap, ◌∙◌, arith, length-drop, get_or-drop, drop-drop, drop-append_le,
}
use mikrotik_openvpn_gui.Common.Bits.{shl}
use mikrotik_openvpn_gui.Binary.Error.{
  Result, ok, err, Result-cases, truncated_length, truncated_two_byte, truncated_three_byte,
  truncated_four_byte, truncated_five_byte, reserved_prefix,
}
use mikrotik_openvpn_gui.Binary.Length.{decode_length, from_big_endian}

two_bytes : ℕ → List ℕ → Result (ℕ × ℕ)
two_bytes first [] = err truncated_two_byte
two_bytes first (b ∷ _) = ok (bit_or (shl (bit_and first 0x3F) 8) b, 2)

three_bytes : ℕ → List ℕ → Result (ℕ × ℕ)
three_bytes first (b ∷ c ∷ _) = ok (bit_or (bit_or (shl (bit_and first 0x1F) 16) (shl b 8)) c, 3)
three_bytes first _ = err truncated_three_byte

four_bytes : ℕ → List ℕ → Result (ℕ × ℕ)
four_bytes first (b ∷ c ∷ d ∷ _) =
    ok (bit_or (bit_or (bit_or (shl (bit_and first 0x0F) 24) (shl b 16)) (shl c 8)) d, 4)
four_bytes first _ = err truncated_four_byte

five_bytes : List ℕ → Result (ℕ × ℕ)
five_bytes (a ∷ b ∷ c ∷ d ∷ _) = ok (from_big_endian 0 (a ∷ b ∷ c ∷ d ∷ []), 5)
five_bytes _ = err truncated_five_byte

-- The length that a list of bytes begins with, and the number of bytes that it takes.
unfoldable pub decode_suffix : List ℕ → Result (ℕ × ℕ)
unfolding two_bytes three_bytes four_bytes five_bytes
decode_suffix [] = err truncated_length
decode_suffix (first ∷ tail) =
    if ltb first 0x80
    then ok (first, 1)
    else if ltb first 0xC0
    then two_bytes first tail
    else if ltb first 0xE0
    then three_bytes first tail
    else if ltb first 0xF0
    then four_bytes first tail
    else if first == 0xF0
    then five_bytes tail
    else err reserved_prefix

abbrev pub shift : ℕ → Result (ℕ × ℕ) → Result (ℕ × ℕ)
shift offset (ok (n, k)) = ok (n, offset + k)
shift offset (err e) = err e

module _ (bytes : List ℕ) (offset : ℕ) where
  suffix_read :
      (t : List ℕ) → drop offset bytes ≡ t → (i : ℕ) → get_or bytes (offset + i) 0 ≡ get_or t i 0
  suffix_read t e i = rw (← e) (get_or-drop offset i (offset + i) bytes 0 refl)

  suffix_length : (t : List ℕ) → drop offset bytes ≡ t → length bytes - offset ≡ length t
  suffix_length t e = sym (length-drop offset bytes) ∙ ap length e

  suffix_drop : (t : List ℕ) → drop offset bytes ≡ t → drop (offset + 1) bytes ≡ drop 1 t
  suffix_drop t e = sym (drop-drop offset 1 (offset + 1) bytes refl) ∙ ap (drop 1) e

  decode_at :
      (t : List ℕ)
      → drop offset bytes ≡ t
      → decode_length bytes offset ≡ shift offset (decode_suffix t)
  unfolding decode_length decode_suffix
  decode_at [] e = ground (arith, suffix_length [] e)
  decode_at (a ∷ []) e = ground (arith, suffix_length (a ∷ []) e, suffix_read (a ∷ []) e 0)
  decode_at (a ∷ b ∷ []) e =
      let t : List ℕ = a ∷ b ∷ [] in
      ground (arith, suffix_length t e, suffix_read t e 0, suffix_read t e 1)
  decode_at (a ∷ b ∷ c ∷ []) e =
      let t : List ℕ = a ∷ b ∷ c ∷ [] in
      ground (arith, suffix_length t e, suffix_read t e 0, suffix_read t e 1, suffix_read t e 2)
  decode_at (a ∷ b ∷ c ∷ d ∷ []) e =
      let t : List ℕ = a ∷ b ∷ c ∷ d ∷ [] in
      ground (
        arith,
        suffix_length t e,
        suffix_read t e 0,
        suffix_read t e 1,
        suffix_read t e 2,
        suffix_read t e 3,
      )
  decode_at (a ∷ b ∷ c ∷ d ∷ f ∷ rest) e =
      let t : List ℕ = a ∷ b ∷ c ∷ d ∷ f ∷ rest in
      rw (suffix_drop t e) (
        ground (
          arith,
          suffix_length t e,
          suffix_read t e 0,
          suffix_read t e 1,
          suffix_read t e 2,
          suffix_read t e 3,
        ))

-- `decode_length` reads nothing before its offset.
pub decode_length-suffix :
    (bytes : List ℕ) (offset : ℕ)
    → decode_length bytes offset ≡ shift offset (decode_suffix (drop offset bytes))
decode_length-suffix bytes offset = decode_at bytes offset (drop offset bytes) refl

-- A length takes at least one byte and at most five, all of them there.
pub decode_suffix_bounds :
    (s : List ℕ) {n k : ℕ} → decode_suffix s ≡ ok (n, k) → (0 < k) × (k ≤ 5) × (k ≤ length s)
unfolding decode_suffix
decode_suffix_bounds [] h = ground arith
decode_suffix_bounds (a ∷ []) h = ground arith
decode_suffix_bounds (a ∷ b ∷ []) h = ground arith
decode_suffix_bounds (a ∷ b ∷ c ∷ []) h = ground arith
decode_suffix_bounds (a ∷ b ∷ c ∷ d ∷ []) h = ground arith
decode_suffix_bounds (a ∷ b ∷ c ∷ d ∷ e ∷ rest) h = ground arith

-- More bytes behind a length that is there do not change it.
pub decode_suffix-append :
    (s t : List ℕ) {n k : ℕ} → decode_suffix s ≡ ok (n, k) → decode_suffix (s ++ t) ≡ ok (n, k)
unfolding decode_suffix
decode_suffix-append [] t h = ground arith
decode_suffix-append (a ∷ []) t h = ground arith
decode_suffix-append (a ∷ b ∷ []) t h = ground arith
decode_suffix-append (a ∷ b ∷ c ∷ []) t h = ground arith
decode_suffix-append (a ∷ b ∷ c ∷ d ∷ []) t h = ground arith
decode_suffix-append (a ∷ b ∷ c ∷ d ∷ e ∷ rest) t h = ground arith

-- `decode_length` moves forward, by at most five bytes, and stays inside the bytes.
pub decode_length_bounds :
    (bytes : List ℕ) (offset : ℕ) {n next : ℕ}
    → decode_length bytes offset ≡ ok (n, next)
    → (offset < next) × (next ≤ offset + 5) × (next ≤ length bytes)
decode_length_bounds bytes offset h = grind (
  arith,
  decode_length-suffix bytes offset,
  length-drop offset bytes,
  Result-cases (decode_suffix (drop offset bytes)),
  decode_suffix_bounds (drop offset bytes),
)

-- More bytes behind a length that is there do not change what `decode_length` returns.
pub decode_length-append :
    (bytes more : List ℕ) (offset : ℕ) {n next : ℕ}
    → decode_length bytes offset ≡ ok (n, next)
    → decode_length (bytes ++ more) offset ≡ ok (n, next)
decode_length-append bytes more offset h =
    let bounds = decode_length_bounds bytes offset h in
    rw (decode_length-suffix (bytes ++ more) offset, drop-append_le offset bytes more (omega arith))
      (grind (
        arith,
        decode_length-suffix bytes offset,
        Result-cases (decode_suffix (drop offset bytes)),
        decode_suffix-append (drop offset bytes) more,
      ))
