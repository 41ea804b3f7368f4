-- ===== src/Binary/Reply/Limits.antt =====
-- A reply that is parsed is within the limits.
use mikrotik_openvpn_gui.Common.{ℕ, ◌+◌, ◌≤◌, ◌≡◌, inl, inr, List, [], ◌∷◌, arith, length, All}
use mikrotik_openvpn_gui.Binary.Error.{ok, Result-cases}
use mikrotik_openvpn_gui.Binary.Words.{max_word_size}
use mikrotik_openvpn_gui.Binary.Reader.{max_reply_words}
use mikrotik_openvpn_gui.Binary.Reply.{
  ParsedReply, check_field, parse_word, parse_words, parse_reply,
}
use mikrotik_openvpn_gui.Broker.Cache.{Cache}

abbrev pub IsShort : List ℕ → Type 0
IsShort word = length word ≤ max_word_size

module _ (decode : List ℕ → List ℕ) where
  parse_word-bounds :
      (count : ℕ) (raw : List ℕ) (attributes next : Cache (List ℕ))
      → parse_word decode count raw attributes ≡ ok next
      → (count ≤ max_reply_words) × IsShort raw × (length next + 1 ≤ max_reply_words)
  unfolding parse_word
  parse_word-bounds count raw attributes next h = elim (Result-cases (check_field raw)) [
    | inr (x, e) ↦ absurd (ground (arith, e))
    | inl (b, e) ↦ (ground (arith, e), ground (arith, e), ground (arith, e))
  ]

  parse_words-bounds :
      (count : ℕ) (words : List (List ℕ)) (attributes final : Cache (List ℕ))
      → count ≤ max_reply_words + 1
      → length attributes + 1 ≤ max_reply_words
      → parse_words decode count words attributes ≡ ok final
      → (count + length words ≤ max_reply_words + 1)
        × All IsShort words
        × (length final + 1 ≤ max_reply_words)
  unfolding parse_words
  parse_words-bounds count [] attributes final low few h = (omega arith, tt, ground arith)
  parse_words-bounds count (raw ∷ words) attributes final low few h =
      elim (Result-cases (parse_word decode count raw attributes)) [
        | inr (x, e) ↦ absurd (ground (arith, e))
        | inl (next, e) ↦
            let first = parse_word-bounds count raw attributes next e in
            let step : parse_words decode (count + 1) words next ≡ ok final = ground (arith, e) in
            let rest =
              parse_words-bounds (count + 1) words next final (omega (arith, first.0)) first.2
                step in
            (omega (arith, rest.0), (first.1, rest.1), rest.2)
      ]

  -- A reply that is parsed had at most MAX_REPLY_WORDS words, none of them behind the first longer
  -- than MAX_WORD_SIZE, and has fewer attributes than that.
  pub parse_reply-bounds :
      (first : List ℕ) (words : List (List ℕ)) (reply : ParsedReply)
      → parse_reply decode (first ∷ words) ≡ ok reply
      → (1 + length words ≤ max_reply_words)
        × All IsShort words
        × (length reply.attributes + 1 ≤ max_reply_words)
  unfolding parse_reply
  parse_reply-bounds [] words reply h = cc
  parse_reply-bounds (c ∷ first) words reply h =
      elim (Result-cases (parse_words decode 2 words [])) [
        | inr (x, e) ↦ absurd (ground (arith, e))
        | inl (final, e) ↦
            let same : reply.attributes ≡ final = ground (arith, e) in
            let found = parse_words-bounds 2 words [] final (omega arith) (omega arith) e in
            rw same (omega (arith, found.0), found.1, found.2)
      ]
