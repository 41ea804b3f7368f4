-- ===== src/Binary/Connection.antt =====
-- `RouterOSBinaryConnection` of routeros_binary.py. What the socket gives is what each `recv`
-- returns or raises. `str` of a number and `decode("utf-8", "replace")` are parameters. The inner
-- `Option` is for the fuel of the loops.
pub mod Commands
pub mod Reads
pub mod Answers
pub mod ReadOnly
pub mod Calls
mod Tests
use mikrotik_openvpn_gui.Common.{
  ℕ, zero, suc, ◌+◌, ◌-◌, ◌*◌, ◌^◌, min, Bool, true, false, not, ◌&&◌, ◌||◌, Option, none, some,
  List, [], ◌∷◌, ◌++◌, ltb, ◌==◌, if◌then◌else◌, length,
}
use mikrotik_openvpn_gui.Common.Int.{pos}
use mikrotik_openvpn_gui.Gateway.Value.{codes, same_codes}
use mikrotik_openvpn_gui.Broker.Cache.{find}
use mikrotik_openvpn_gui.Binary.Error.{
  BinaryError, Result, ok, err, response_limit, not_open, closed_by_router, closed_meanwhile,
  receive_failed, send_failed, dial_failed, legacy_challenge, reply_limit, response_word_limit,
  tag_mismatch, rejected,
}
use mikrotik_openvpn_gui.Binary.Length.{encode_length}
use mikrotik_openvpn_gui.Binary.Words.{encode_sentence, max_word_size}
use mikrotik_openvpn_gui.Binary.Reader.{Reader, Fed, feed, max_sentence_bytes, max_reply_words}
use mikrotik_openvpn_gui.Binary.Reply.{ParsedReply, parse_reply}
use mikrotik_openvpn_gui.Binary.Query.{Query, approved, print_fields, listen_fields, utf8_words}

abbrev pub max_response_bytes : ℕ
max_response_bytes = 16 * 2 ^ 20

abbrev pub max_response_replies : ℕ
max_response_replies = 10000

abbrev pub max_response_words : ℕ
max_response_words = 65536

-- `SentenceReader()`
abbrev pub fresh_reader : Reader
fresh_reader = record {
  buffer = [];
  scan_offset = 0;
  words = [];
  max_word_size = max_word_size;
  max_sentence_size = max_sentence_bytes;
  max_words = max_reply_words;
}

-- `sent` is what was given to `sendall`, oldest first.
pub record Connection : Type 0 where
  pub is_open : Bool
  pub tag : ℕ
  pub reader : Reader
  pub sent : List (List ℕ)

unfoldable pub new_connection : Connection
new_connection = record { is_open = false; tag = 0; reader = fresh_reader; sent = [] }

-- What `recv` does: it returns bytes, none at the end of the stream; it raises; or it returns after
-- another thread has closed the connection.
pub data Received : Type 0 where
  chunk : List ℕ → Received
  failed left_behind : Received

-- The socket: what each `recv` from now on does, without an end.
abbrev pub Socket : Type 0
Socket = ℕ → Received

abbrev pub later : Socket → Socket
later arriving n = arriving (suc n)

abbrev pub Run {ℓ} : Type ℓ → Type ℓ
Run A = Option (Result A)

abbrev pub and_then {ℓ κ} : {A : Type ℓ} {B : Type κ} → Run A → (A → Run B) → Run B
and_then none f = none
and_then (some (err e)) f = some (err e)
and_then (some (ok a)) f = f a

-- A sentence, the connection behind it, and what is still to be received.
abbrev pub Read : Type 0
Read = List (List ℕ) × Connection × Socket

unfoldable pub close : Connection → Connection
close c = record c { is_open = false; reader = fresh_reader }

-- The sum in `_sentence_wire_size`; a length that cannot be encoded raises.
unfoldable pub words_size : List (List ℕ) → Result ℕ
words_size [] = ok 0
words_size (word ∷ rest) = elim (encode_length (pos (length word))) [
  | err e ↦ err e
  | ok header ↦ elim (words_size rest) [
    | err e ↦ err e
    | ok size ↦ ok (length word + length header + size)
  ]
]

unfoldable pub sentence_wire_size : List (List ℕ) → Result ℕ
unfolding words_size
sentence_wire_size sentence = elim (words_size sentence) [ err e ↦ err e | ok size ↦ ok (1 + size) ]

-- `list(self._reader.feed(data, max_sentence_size=limit, max_sentences=1))`, of which the first
abbrev pub first_of : Fed → Option (List (List ℕ)) × Reader
first_of ([], r) = (none, r)
first_of (sentence ∷ more, r) = (some sentence, r)

unfoldable pub feed_one : ℕ → List ℕ → Reader → Run (Option (List (List ℕ)) × Reader)
feed_one limit bytes r =
    and_then (feed bytes (some limit) (some 1) r) (λ fed. some (ok (first_of fed)))

-- A sentence that was found, with the last test of its size.
unfoldable pub accept : Option ℕ → List (List ℕ) → Connection → Socket → Run Read
accept none sentence c arriving = some (ok (sentence, c, arriving))
accept (some most) sentence c arriving = elim (sentence_wire_size sentence) [
  | err e ↦ some (err e)
  | ok size ↦ if ltb most size then some (err response_limit) else some (ok (sentence, c, arriving))
]

-- The size that `recv` is asked for.
abbrev pub recv_size : Option ℕ → ℕ → ℕ
recv_size none received = 4096
recv_size (some most) received = min 4096 (most - received)

-- The loop of `_read_sentence`, with fuel; each round takes one thing from the socket. `none`
-- means that the fuel ran out.
unfoldable pub read_loop : ℕ → Option ℕ → ℕ → ℕ → Connection → Socket → Run Read
unfolding feed_one accept
read_loop zero most limit received c arriving = none
read_loop (suc fuel) most limit received c arriving =
    if not c.is_open
    then some (err not_open)
    else and_then (feed_one limit [] c.reader) (λ buffered. elim buffered.0 [
      | some sentence ↦ accept most sentence (record c { reader = buffered.1 }) arriving
      | none ↦
          if ltb (recv_size most received) 1 then some (err response_limit) else elim (arriving 0) [
            | failed ↦ some (err receive_failed)
            | left_behind ↦ some (err closed_meanwhile)
            | chunk bytes ↦
                if length bytes == 0
                then some (err closed_by_router)
                else if ltb (recv_size most received) (length bytes)
                then some (err response_limit)
                else and_then (feed_one limit bytes buffered.1) (λ parsed. elim parsed.0 [
                  | some sentence ↦
                      accept most sentence (record c { reader = parsed.1 }) (later arriving)
                  | none ↦
                      read_loop fuel most limit (received + length bytes)
                        (record c { reader = parsed.1 }) (later arriving)
                ])
          ]
    ])

-- Each round that goes on puts a byte into the buffer, which stays below the limit.
unfoldable pub read_sentence : Option ℕ → Connection → Socket → Run Read
unfolding read_loop
read_sentence none c arriving =
    read_loop (max_sentence_bytes + 1) none max_sentence_bytes (length c.reader.buffer) c arriving
read_sentence (some most) c arriving =
    if ltb most 1 || ltb most (length c.reader.buffer)
    then some (err response_limit)
    else read_loop (min max_sentence_bytes most + 1) (some most) (min max_sentence_bytes most)
        (length c.reader.buffer) c arriving

-- `reply.attributes.get(name) == text`
abbrev pub has_tag : List ℕ → ParsedReply → Bool
has_tag text reply = elim (find (codes ".tag") reply.attributes) [
  | none ↦ false
  | some value ↦ same_codes value text
]

abbrev pub is_kind : ParsedReply → List ℕ → Bool
is_kind reply name = same_codes reply.kind name

abbrev pub is_rejection : ParsedReply → Bool
is_rejection reply = is_kind reply (codes "trap") || is_kind reply (codes "fatal")

abbrev pub is_last : ParsedReply → Bool
is_last reply = is_kind reply (codes "done") || is_kind reply (codes "empty")

-- `_send`; `sends` says whether `sendall` goes through.
unfoldable pub send : Bool → List (List ℕ) → Connection → Result Connection
send sends sentence c = if not c.is_open then err not_open else elim (encode_sentence sentence) [
  | err e ↦ err e
  | ok bytes ↦ if sends then ok (record c { sent = c.sent ++ bytes ∷ [] }) else err send_failed
]

module _ (decode : List ℕ → List ℕ) (show_tag : ℕ → List ℕ) where
  -- The loop of `_request`, with what it may still read: replies, bytes and words.
  unfoldable pub request_loop :
      ℕ
      → ℕ
      → ℕ
      → List ParsedReply
      → Connection
      → Socket
      → Run (List ParsedReply × Connection × Socket)
  unfolding read_sentence
  request_loop zero bytes word_count replies c arriving = some (err reply_limit)
  request_loop (suc left) bytes word_count replies c arriving =
      and_then (read_sentence (some (max_response_bytes - bytes)) c arriving) (λ read.
        elim (sentence_wire_size read.0) [
          | err e ↦ some (err e)
          | ok size ↦
              if ltb (max_response_bytes - bytes) size
              then some (err response_limit)
              else if ltb max_response_words (word_count + length read.0)
              then some (err response_word_limit)
              else and_then (some (parse_reply decode read.0)) (λ reply.
                let rest =
                  request_loop left (bytes + size) (word_count + length read.0)
                    (replies ++ reply ∷ []) read.1 read.2 in
                if not (has_tag (show_tag c.tag) reply)
                then some (err tag_mismatch)
                else if is_rejection reply
                then some (err rejected)
                else if is_last reply
                then some (ok (replies ++ reply ∷ [], read.1, read.2))
                else rest)
        ])
