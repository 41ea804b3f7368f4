-- ===== src/Binary/Words/RoundTrip.antt =====
-- A sentence that `encode_sentence` writes is read back by `decode_words`.
use mikrotik_openvpn_gui.Common.{
  ℕ, zero, suc, ◌+◌, ◌<◌, ◌≤◌, ◌≡◌, refl, some, List, [], ◌∷◌, ◌++◌, arith, length, All, drop, take,
  slice, length-append, length-drop, drop-append, drop-drop, take-append, append_assoc, append-nil,
  ap, ◌∙◌, sym, ◌-◌,
}
use mikrotik_openvpn_gui.Binary.Error.{ok}
use mikrotik_openvpn_gui.Binary.Length.{decode_length}
use mikrotik_openvpn_gui.Binary.Length.Suffix.{
  decode_suffix, shift, decode_length-suffix, decode_suffix_bounds,
}
use mikrotik_openvpn_gui.Binary.Length.RoundTrip.{encode_length_total}
use mikrotik_openvpn_gui.Binary.Words.{
  encode_words, encode_sentence, decode_loop, decode_words, max_word_size,
}

-- What `decode_words` accepts as a word.
abbrev pub Fits : List ℕ → Type 0
Fits word = (0 < length word) × (length word ≤ max_word_size)

-- One word is read off the front of what is left.
module _ (bytes header payload rest : List ℕ) (offset : ℕ)
    (here : drop offset bytes ≡ header ++ (payload ++ rest)) (inside : offset ≤ length bytes) where
  after_word : drop (offset + length header + length payload) bytes ≡ rest
  after_word =
      sym (drop-drop offset (length header + length payload) _ bytes (omega arith))
      ∙ ap (drop (length header + length payload)) here
      ∙ sym (
          drop-drop (length header) (length payload) (length header + length payload)
            (header ++ (payload ++ rest)) refl)
      ∙ ap (drop (length payload)) (drop-append (length header) header (payload ++ rest) refl)
      ∙ drop-append (length payload) payload rest refl

  word_inside : offset + length header + length payload + length rest ≡ length bytes
  word_inside = omega (
    arith,
    length-drop offset bytes,
    ap length here,
    length-append header (payload ++ rest),
    length-append payload rest,
  )

  word_slice :
      slice bytes (offset + length header) (offset + length header + length payload) ≡ payload
  word_slice =
      ap
        (λ (l : List ℕ).
          take (offset + length header + length payload - (offset + length header)) l)
        (sym (drop-drop offset (length header) _ bytes refl)
          ∙ ap (drop (length header)) here
          ∙ drop-append (length header) header (payload ++ rest) refl)
      ∙ take-append _ payload rest (omega arith)

-- The loop at the front of an encoded word takes it and goes on behind it.
loop_word :
    (fuel : ℕ) (bytes header payload rest : List ℕ) (offset : ℕ) (words : List (List ℕ))
    → drop offset bytes ≡ header ++ (payload ++ rest)
    → offset ≤ length bytes
    → 0 < length header
    → Fits payload
    → decode_suffix (header ++ (payload ++ rest)) ≡ ok (length payload, length header)
    → decode_loop (suc fuel) bytes offset words
      ≡ decode_loop fuel bytes (offset + length header + length payload) (words ++ payload ∷ [])
unfolding decode_loop
loop_word fuel bytes header payload rest offset words here inside some_header fits reads =
    let decoded : decode_length bytes offset ≡ ok (length payload, offset + length header) =
      decode_length-suffix bytes offset ∙ ap (shift offset) (ap decode_suffix here ∙ reads) in
    ground (
      arith,
      decoded,
      word_inside bytes header payload rest offset here inside,
      word_slice bytes header payload rest offset here inside,
    )

-- The terminator ends the loop.
loop_end :
    (fuel : ℕ) (bytes : List ℕ) (offset : ℕ) (words : List (List ℕ))
    → drop offset bytes ≡ 0 ∷ []
    → offset ≤ length bytes
    → decode_loop (suc fuel) bytes offset words ≡ some (ok words)
unfolding decode_loop decode_suffix
loop_end fuel bytes offset words here inside =
    let decoded : decode_length bytes offset ≡ ok (0, offset + 1) =
      decode_length-suffix bytes offset ∙ ap (λ l. shift offset (decode_suffix l)) here in
    ground (arith, decoded, length-drop offset bytes, ap length here)

-- The loop reads `body`, the encoding of `words`, and the terminator, wherever they stand.
abbrev Runs : List (List ℕ) → List ℕ → Type 0
Runs words body =
    (fuel : ℕ) (bytes : List ℕ) (offset : ℕ) (before : List (List ℕ))
    → drop offset bytes ≡ body ++ 0 ∷ []
    → offset ≤ length bytes
    → length words < fuel
    → decode_loop fuel bytes offset before ≡ some (ok (before ++ words))

abbrev Decodes : List (List ℕ) → List ℕ → Type 0
Decodes words body = (encode_words words ≡ ok body) × (length words ≤ length body) × Runs words body

loop_nil :
    (fuel : ℕ) (bytes : List ℕ) (offset : ℕ) (before : List (List ℕ))
    → drop offset bytes ≡ 0 ∷ []
    → offset ≤ length bytes
    → 0 < fuel
    → decode_loop fuel bytes offset before ≡ some (ok (before ++ []))
loop_nil zero bytes offset before here inside enough = absurd (omega arith)
loop_nil (suc fuel) bytes offset before here inside enough =
    rw append-nil (loop_end fuel bytes offset before here inside)

loop_cons :
    (header word body : List ℕ) (rest : List (List ℕ)) (fuel : ℕ) (bytes : List ℕ) (offset : ℕ)
    (before : List (List ℕ))
    → 0 < length header
    → Fits word
    → ((after : List ℕ) → decode_suffix (header ++ after) ≡ ok (length word, length header))
    → Runs rest body
    → drop offset bytes ≡ header ++ word ++ body ++ 0 ∷ []
    → offset ≤ length bytes
    → suc (length rest) < fuel
    → decode_loop fuel bytes offset before ≡ some (ok (before ++ (word ∷ rest)))
loop_cons header word body rest zero bytes offset before positive fit reads runs here inside
      enough =
    absurd (omega arith)
loop_cons header word body rest (suc fuel) bytes offset before positive fit reads runs here inside
      enough =
    let tail : List ℕ = body ++ 0 ∷ [] in
    let here' : drop offset bytes ≡ header ++ (word ++ tail) = simp append_assoc at here in
    loop_word fuel bytes header word tail offset before here' inside positive fit
      (reads (word ++ tail))
    ∙ runs fuel bytes (offset + length header + length word) (before ++ word ∷ [])
        (after_word bytes header word tail offset here' inside)
        (omega (arith, word_inside bytes header word tail offset here' inside)) (omega arith)
    ∙ simp append_assoc

encode_words_total : (words : List (List ℕ)) → All Fits words → (body : List ℕ) × Decodes words body
unfolding encode_words
encode_words_total [] fits = (
  [],
  (
    refl,
    omega arith,
    λ fuel bytes offset before here inside enough.
        loop_nil fuel bytes offset before here inside enough,
  ),
)
encode_words_total (word ∷ rest) (fit, fits) =
    let (header, written) = encode_length_total (length word) (omega arith) in
    let (writes, reads) = written in
    let (body, decodes) = encode_words_total rest fits in
    let (encodes, short, runs) = decodes in
    let some_header = (decode_suffix_bounds (header ++ (word ++ [])) (reads (word ++ []))).0 in
    (
      header ++ word ++ body,
      (
        rw (writes, encodes),
        omega (arith, length-append (header ++ word) body, length-append header word),
        λ fuel bytes offset before here inside enough.
            loop_cons header word body rest fuel bytes offset before some_header fit reads runs here
              inside enough,
      ),
    )

-- Any sentence of words that `decode_words` accepts is encoded, and read back word for word.
pub decode_words-encode_sentence :
    (words : List (List ℕ))
    → All Fits words
    → (bytes : List ℕ) × (encode_sentence words ≡ ok bytes) × (decode_words bytes ≡ some (ok words))
unfolding encode_sentence decode_words
decode_words-encode_sentence words fits =
    let (body, decodes) = encode_words_total words fits in
    let (encodes, short, runs) = decodes in
    (
      body ++ 0 ∷ [],
      rw encodes,
      runs (length (body ++ 0 ∷ []) + 1) (body ++ 0 ∷ []) 0 [] refl (omega arith)
          (omega (arith, length-append body (0 ∷ []))),
    )
