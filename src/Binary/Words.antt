-- ===== src/Binary/Words.antt =====
-- `encode_word`, `encode_sentence` and `decode_words` of routeros_binary.py. A word is its bytes: a
-- `str` is its UTF-8 encoding.
pub mod RoundTrip
pub mod Bounds
use mikrotik_openvpn_gui.Common.{
  ℕ, zero, suc, ◌+◌, Option, none, some, List, [], ◌∷◌, ◌++◌, ltb, leb, ◌==◌, if◌then◌else◌, true,
  false, length, slice,
}
use mikrotik_openvpn_gui.Common.Int.{pos}
use mikrotik_openvpn_gui.Binary.Error.{
  Result, ok, err, ◌>>=◌, data_after_terminator, truncated_word, missing_terminator, word_limit,
}
use mikrotik_openvpn_gui.Binary.Length.{encode_length, decode_length}

abbrev pub max_word_size : ℕ
max_word_size = 65536

unfoldable pub encode_word : List ℕ → Result (List ℕ)
encode_word payload = do header ← encode_length (pos (length payload)); ok (header ++ payload)

encode_words : List (List ℕ) → Result (List ℕ)
unfolding encode_word
encode_words [] = ok []
encode_words (word ∷ rest) = do
  first ← encode_word word
  more ← encode_words rest
  ok (first ++ more)

unfoldable pub encode_sentence : List (List ℕ) → Result (List ℕ)
unfolding encode_words
encode_sentence words = do body ← encode_words words; ok (body ++ 0 ∷ [])

-- The `while` loop, with fuel; `none` means that the fuel ran out.
decode_loop : ℕ → List ℕ → ℕ → List (List ℕ) → Option (Result (List (List ℕ)))
decode_loop zero bytes offset words = none
decode_loop (suc fuel) bytes offset words = elim (ltb offset (length bytes)) [
  | true ↦ elim (decode_length bytes offset) [
    | ok (size, next) ↦
        let rest =
          decode_loop fuel bytes (next + size) (words ++ slice bytes next (next + size) ∷ []) in
        if size == 0
        then (if next == length bytes then some (ok words) else some (err data_after_terminator))
        else if ltb (length bytes) (next + size)
        then some (err truncated_word)
        else if ltb max_word_size size
        then some (err word_limit)
        else rest
    | err e ↦ some (err e)
  ]
  | false ↦ some (err missing_terminator)
]

-- Each round reads at least one byte.
unfoldable pub decode_words : List ℕ → Option (Result (List (List ℕ)))
unfolding decode_loop
decode_words bytes = decode_loop (length bytes + 1) bytes 0 []
