-- ===== src/Binary/Words/Bounds.antt =====
-- `decode_words` ends on every input, and what it accepts is within its limits.
use mikrotik_openvpn_gui.Common.{
  ℕ, zero, suc, ◌+◌, ◌-◌, ◌<◌, ◌≤◌, ◌≡◌, ◌≢◌, some, none, List, [], ◌∷◌, ◌++◌, arith, length, All,
  All-append, slice, drop, length-take, length-drop, Option-cases, inl, inr, ◌⊎◌,
}
use mikrotik_openvpn_gui.Binary.Error.{Result, ok, Result-cases}
use mikrotik_openvpn_gui.Binary.Length.{decode_length}
use mikrotik_openvpn_gui.Binary.Length.Suffix.{decode_length_bounds}
use mikrotik_openvpn_gui.Binary.Words.{decode_loop, decode_words, max_word_size}
use mikrotik_openvpn_gui.Binary.Words.RoundTrip.{Fits}

length-slice :
    (bytes : List ℕ) (from size : ℕ)
    → from + size ≤ length bytes
    → length (slice bytes from (from + size)) ≡ size
length-slice bytes from size h =
    omega (arith, length-take (from + size - from) (drop from bytes), length-drop from bytes)

-- With more fuel than bytes that are left the loop ends.
loop_ends :
    (fuel : ℕ) (bytes : List ℕ) (offset : ℕ) (words : List (List ℕ))
    → offset ≤ length bytes
    → length bytes < fuel + offset
    → decode_loop fuel bytes offset words ≢ none
unfolding decode_loop
loop_ends zero bytes offset words inside enough = absurd (omega arith)
loop_ends (suc fuel) bytes offset words inside enough =
    elim (Result-cases (decode_length bytes offset)) [
      | inl ((size, next), e) ↦
          let bounds = decode_length_bounds bytes offset e in
          ground (
            arith,
            e,
            loop_ends fuel bytes (next + size) (words ++ slice bytes next (next + size) ∷ []),
          )
      | inr (e, h) ↦ ground (arith, h)
    ]

-- `decode_words` returns words or raises, whatever the bytes are.
pub decode_words_total :
    (bytes : List ℕ) → (r : Result (List (List ℕ))) × (decode_words bytes ≡ some r)
unfolding decode_words
decode_words_total bytes = elim (Option-cases (decode_loop (length bytes + 1) bytes 0 [])) [
  | inl e ↦ absurd (loop_ends (length bytes + 1) bytes 0 [] (omega arith) (omega arith) e)
  | inr found ↦ found
]

-- A round that returns words in the end has met the terminator, or has taken a word that fits.
loop_round :
    (fuel : ℕ) (bytes : List ℕ) (offset : ℕ) (words : List (List ℕ)) {read : List (List ℕ)}
    {size next : ℕ}
    → decode_length bytes offset ≡ ok (size, next)
    → decode_loop (suc fuel) bytes offset words ≡ some (ok read)
    → (words ≡ read)
      ⊎ ((0 < size)
          × (size ≤ max_word_size)
          × (next + size ≤ length bytes)
          × (decode_loop fuel bytes (next + size) (words ++ slice bytes next (next + size) ∷ [])
              ≡ some (ok read)))
unfolding decode_loop
loop_round fuel bytes offset words e h = ground (arith, e)

loop-Fits :
    (fuel : ℕ) (bytes : List ℕ) (offset : ℕ) (words : List (List ℕ)) {read : List (List ℕ)}
    → All Fits words
    → decode_loop fuel bytes offset words ≡ some (ok read)
    → All Fits read
loop-Fits zero bytes offset words fits h = unfold decode_loop in cc
loop-Fits (suc fuel) bytes offset words fits h = elim (Result-cases (decode_length bytes offset)) [
  | inl ((size, next), e) ↦ elim (loop_round fuel bytes offset words e h) [
    | inl same ↦ rw (← same) fits
    | inr (positive, small, inside, rest) ↦
        let word = slice bytes next (next + size) in
        let word_fits : Fits word = rw (length-slice bytes next size inside) (positive, small) in
        loop-Fits fuel bytes (next + size) (words ++ word ∷ [])
          (All-append Fits words (word ∷ []) fits (word_fits, tt)) rest
  ]
  | inr (e, x) ↦ unfold decode_loop in ground (arith, x)
]

-- Every word of a sentence that `decode_words` accepts has at least one byte and at most
-- `MAX_WORD_SIZE`.
pub decode_words-Fits :
    (bytes : List ℕ) (words : List (List ℕ)) → decode_words bytes ≡ some (ok words) → All Fits words
unfolding decode_words
decode_words-Fits bytes words h = loop-Fits (length bytes + 1) bytes 0 [] tt h
