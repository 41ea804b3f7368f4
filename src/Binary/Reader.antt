-- ===== src/Binary/Reader.antt =====
-- `SentenceReader` of routeros_binary.py. A reader that raises is dropped by its connection, so an
-- error carries no state; `list(reader.feed(...))` runs the generator to its end.
pub mod Scan
pub mod Feed
pub mod Growth
use mikrotik_openvpn_gui.Common.{
  ℕ, zero, suc, ◌+◌, ◌-◌, ◌*◌, ◌^◌, ◌||◌, min, Bool, true, false, Option, none, some, List, [], ◌∷◌,
  ◌++◌, ltb, leb, ◌==◌, if◌then◌else◌, length, slice, take, drop,
}
use mikrotik_openvpn_gui.Binary.Error.{
  Result, ok, err, is_truncated, word_limit, response_limit, sentence_word_limit, reader_limits,
}
use mikrotik_openvpn_gui.Binary.Length.{decode_length}

pub record Reader : Type 0 where
  pub buffer : List ℕ
  pub scan_offset : ℕ
  pub words : List (List ℕ)
  pub max_word_size : ℕ
  pub max_sentence_size : ℕ
  pub max_words : ℕ

abbrev pub max_sentence_bytes : ℕ
max_sentence_bytes = 4 * 2 ^ 20

abbrev pub max_reply_words : ℕ
max_reply_words = 4096

-- `SentenceReader.__init__`
pub new_reader : ℕ → ℕ → ℕ → Result Reader
new_reader word_size sentence_size word_count =
    if ltb word_size 1 || (ltb sentence_size 1 || ltb word_count 1)
    then err reader_limits
    else ok (record {
      buffer = [];
      scan_offset = 0;
      words = [];
      max_word_size = word_size;
      max_sentence_size = sentence_size;
      max_words = word_count;
    })

-- A sentence with its size, or `none` where more bytes are needed.
abbrev pub Scanned : Type 0
Scanned = Option (List (List ℕ) × ℕ) × Reader

-- The reader behind a word that is complete.
abbrev pub push_word : ℕ → ℕ → Reader → Reader
push_word next end r = record r {
  words = r.words ++ slice r.buffer next end ∷ [];
  scan_offset = end;
}

-- One round of the `while` loop of `_complete_sentence`: it returns or raises, or goes on.
pub data Step (A S : Type 0) : Type 0 where
  done : Result A → Step A S
  more : S → Step A S

pub scan_step : ℕ → Reader → Step Scanned Reader
scan_step limit r = elim (decode_length r.buffer r.scan_offset) [
  | err e ↦ if is_truncated e then done (ok (none, r)) else done (err e)
  | ok (size, next) ↦
      if ltb limit next
      then done (err response_limit)
      else if size == 0
      then done (ok (some (r.words, next), record r { words = []; scan_offset = 0 }))
      else if ltb r.max_word_size size
      then done (err word_limit)
      else if leb r.max_words (length r.words)
      then done (err sentence_word_limit)
      else if ltb limit (next + size)
      then done (err response_limit)
      else if ltb (length r.buffer) (next + size)
      then done (ok (none, r))
      else more (push_word next (next + size) r)
]

-- The loop, with fuel; the outer `none` means that it ran out.
scan : ℕ → ℕ → Reader → Option (Result Scanned)
unfolding scan_step
scan zero limit r = none
scan (suc fuel) limit r = elim (scan_step limit r) [
  | done result ↦ some result
  | more r' ↦ scan fuel limit r'
]

-- Each round but the last moves `scan_offset` forward.
unfoldable pub complete_sentence : ℕ → Reader → Option (Result Scanned)
unfolding scan
complete_sentence limit r = scan (length r.buffer + 1) limit r

abbrev pub limit_of : Reader → Option ℕ → ℕ
limit_of r none = r.max_sentence_size
limit_of r (some m) = min r.max_sentence_size m

abbrev reached : Option ℕ → ℕ → Bool
reached none emitted = false
reached (some m) emitted = leb m emitted

-- The local variables of `feed`: what was yielded, and what follows the cursor.
pub record Feeding : Type 0 where
  pub reader : Reader
  pub view : List ℕ
  pub out : List (List (List ℕ))

abbrev pub Fed : Type 0
Fed = List (List (List ℕ)) × Reader

-- A round that found a sentence yields it; with `max_sentences` yielded, it stores the rest.
emit : ℕ → Option ℕ → List (List ℕ) → ℕ → Feeding → Step Fed Feeding
emit limit max_sentences words size f =
    let r = f.reader in
    let kept = record r { buffer = drop size r.buffer } in
    let out = f.out ++ words ∷ [] in
    if reached max_sentences (length out)
    then (if ltb limit (length kept.buffer + length f.view)
        then done (err response_limit)
        else done (ok (out, record kept { buffer = kept.buffer ++ f.view })))
    else more (record { reader = kept; view = f.view; out = out })

-- A round that found none takes bytes from the view, as many as the limit leaves room for.
refill : ℕ → Feeding → Step Fed Feeding
refill limit f =
    let r = f.reader in
    let room = min (limit - length r.buffer) (length f.view) in
    if leb limit (length r.buffer)
    then done (err response_limit)
    else if length f.view == 0
    then done (ok (f.out, r))
    else more (record {
      reader = record r { buffer = r.buffer ++ take room f.view };
      view = drop room f.view;
      out = f.out;
    })

pub feed_step : ℕ → Option ℕ → Feeding → Option (Step Fed Feeding)
unfolding emit refill
feed_step limit max_sentences f = elim (complete_sentence limit f.reader) [
  | none ↦ none
  | some (err e) ↦ some (done (err e))
  | some (ok (some (words, size), r)) ↦
      some (emit limit max_sentences words size (record f { reader = r }))
  | some (ok (none, r)) ↦ some (refill limit (record f { reader = r }))
]

-- The `while` loop of `feed`, with fuel.
pub feed_loop : ℕ → ℕ → Option ℕ → Feeding → Option (Result Fed)
unfolding feed_step
feed_loop zero limit max_sentences f = none
feed_loop (suc fuel) limit max_sentences f = elim (feed_step limit max_sentences f) [
  | none ↦ none
  | some (done result) ↦ some result
  | some (more f') ↦ feed_loop fuel limit max_sentences f'
]

-- A round takes bytes from the view into the buffer, or a sentence out of the buffer.
unfoldable pub feed : List ℕ → Option ℕ → Option ℕ → Reader → Option (Result Fed)
unfolding feed_loop
feed bytes max_sentence_size max_sentences r =
    let limit = limit_of r max_sentence_size in
    if ltb limit 1
    then some (err response_limit)
    else feed_loop (2 * length bytes + length r.buffer + 1) limit max_sentences
        (record { reader = r; view = bytes; out = [] })
