-- ===== src/Binary/Tests.antt =====
-- Runs of the Binary API code at concrete inputs, and the theorems there.
use mikrotik_openvpn_gui.Common.{
  ℕ, ◌+◌, ◌≤◌, ◌<◌, ◌≡◌, refl, some, none, List, [], ◌∷◌, ◌++◌, arith, length, All,
}
use mikrotik_openvpn_gui.Common.Int.{pos}
use mikrotik_openvpn_gui.Binary.Error.{Result, ok}
use mikrotik_openvpn_gui.Binary.Length.{encode_length, decode_length}
use mikrotik_openvpn_gui.Binary.Length.RoundTrip.{decode_length-encode_length}
use mikrotik_openvpn_gui.Binary.Length.Suffix.{decode_length_bounds}
use mikrotik_openvpn_gui.Binary.Words.{encode_sentence, decode_words}
use mikrotik_openvpn_gui.Binary.Words.RoundTrip.{Fits, decode_words-encode_sentence}
use mikrotik_openvpn_gui.Binary.Words.Bounds.{decode_words-Fits, decode_words_total}
use mikrotik_openvpn_gui.Binary.Reader.{
  max_reply_words, Reader, feed, complete_sentence, limit_of, Fed,
}
use mikrotik_openvpn_gui.Binary.Reader.Scan.{complete_sentence_resume, extend}
use mikrotik_openvpn_gui.Binary.Reply.{
  ParsedReply, parse_reply, parse_words, parse_word, check_field,
}
use mikrotik_openvpn_gui.Binary.Reply.Limits.{IsShort, parse_reply-bounds}
use mikrotik_openvpn_gui.Binary.Reader.Feed.{feed-Ends, Ends}

encode_300 : encode_length (pos 300) ≡ ok (0x81 ∷ 0x2C ∷ [])
unfolding encode_length
encode_300 = refl

decode_300 : decode_length (7 ∷ 0x81 ∷ 0x2C ∷ []) 1 ≡ ok (300, 3)
unfolding decode_length
decode_300 = refl

abbrev two_words : List (List ℕ)
two_words = (1 ∷ 2 ∷ []) ∷ (9 ∷ []) ∷ []

abbrev two_words_bytes : List ℕ
two_words_bytes = 2 ∷ 1 ∷ 2 ∷ 1 ∷ 9 ∷ 0 ∷ []

encode_two : encode_sentence two_words ≡ ok two_words_bytes
unfolding encode_sentence encode_length
encode_two = refl

decode_two : decode_words two_words_bytes ≡ some (ok two_words)
unfolding decode_words decode_length
decode_two = refl

abbrev small_reader : Reader
small_reader = record {
  buffer = [];
  scan_offset = 0;
  words = [];
  max_word_size = 65536;
  max_sentence_size = 100;
  max_words = 10;
}

abbrev partial_reader : Reader
partial_reader = record small_reader { buffer = 2 ∷ 1 ∷ 2 ∷ 1 ∷ [] }

feed_runs :
    feed (2 ∷ 1 ∷ 2 ∷ 1 ∷ 9 ∷ 0 ∷ 3 ∷ 4 ∷ []) none none small_reader
    ≡ some (ok (two_words ∷ [], record small_reader { buffer = 3 ∷ 4 ∷ [] }))
unfolding feed complete_sentence decode_length
feed_runs = refl

decode_length-encode_length_example :
    (bytes : List ℕ) × (encode_length (pos 300) ≡ ok bytes)
    × (decode_length ((7 ∷ []) ++ (bytes ++ 5 ∷ [])) 1 ≡ ok (300, 1 + length bytes))
decode_length-encode_length_example =
    decode_length-encode_length 300 (7 ∷ []) (5 ∷ []) (omega arith)

abbrev inner_bytes : List ℕ
inner_bytes = 7 ∷ 0x81 ∷ 0x2C ∷ []

decode_length_bounds_example : (1 < 3) × (3 ≤ 1 + 5) × (3 ≤ length inner_bytes)
decode_length_bounds_example = decode_length_bounds inner_bytes 1 {n = 300} {next = 3} decode_300

decode_words-encode_sentence_example :
    (bytes : List ℕ) × (encode_sentence two_words ≡ ok bytes)
    × (decode_words bytes ≡ some (ok two_words))
decode_words-encode_sentence_example = decode_words-encode_sentence two_words (omega arith)

decode_words-Fits_example : All Fits two_words
decode_words-Fits_example = decode_words-Fits two_words_bytes two_words decode_two

decode_words_total_example : (r : Result (List (List ℕ))) × (decode_words (0xF8 ∷ []) ≡ some r)
decode_words_total_example = decode_words_total (0xF8 ∷ [])

partial_scan :
    complete_sentence 100 partial_reader
    ≡ some (ok (none, record partial_reader { scan_offset = 3; words = (1 ∷ 2 ∷ []) ∷ [] }))
unfolding complete_sentence decode_length
partial_scan = refl

complete_sentence_resume_example :
    complete_sentence 100 (extend partial_reader (9 ∷ 0 ∷ []))
    ≡ complete_sentence 100
        (extend (record partial_reader { scan_offset = 3; words = (1 ∷ 2 ∷ []) ∷ [] }) (9 ∷ 0 ∷ []))
complete_sentence_resume_example =
    complete_sentence_resume 100 partial_reader
      (record partial_reader { scan_offset = 3; words = (1 ∷ 2 ∷ []) ∷ [] }) (9 ∷ 0 ∷ [])
      (omega arith) partial_scan

feed-Ends_example :
    (a : Result Fed) × (feed (2 ∷ 1 ∷ []) none none small_reader ≡ some a)
    × Ends 10 (limit_of small_reader none) a
feed-Ends_example = feed-Ends (2 ∷ 1 ∷ []) none none small_reader (omega arith)

abbrev tag_reply : List (List ℕ)
tag_reply = (33 ∷ 114 ∷ 101 ∷ []) ∷ (61 ∷ 97 ∷ 61 ∷ 98 ∷ []) ∷ (46 ∷ 116 ∷ []) ∷ []

abbrev tag_parsed : ParsedReply
tag_parsed = record {
  kind = 114 ∷ 101 ∷ [];
  attributes = (97 ∷ [], 98 ∷ []) ∷ (46 ∷ 116 ∷ [], []) ∷ [];
}

parse_runs : parse_reply (λ cs. cs) tag_reply ≡ ok tag_parsed
unfolding parse_reply parse_words parse_word check_field
parse_runs = refl

parse_reply-bounds_example :
    (1 + 2 ≤ max_reply_words)
    × All IsShort ((61 ∷ 97 ∷ 61 ∷ 98 ∷ []) ∷ (46 ∷ 116 ∷ []) ∷ [])
    × (2 + 1 ≤ max_reply_words)
parse_reply-bounds_example =
    parse_reply-bounds (λ cs. cs) (33 ∷ 114 ∷ 101 ∷ [])
      ((61 ∷ 97 ∷ 61 ∷ 98 ∷ []) ∷ (46 ∷ 116 ∷ []) ∷ []) tag_parsed parse_runs
