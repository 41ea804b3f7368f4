-- ===== src/Binary/Connection/Answers.antt =====
-- What `_request` and `execute` return, and what they leave of the connection.
use mikrotik_openvpn_gui.Common.{
  ℕ, zero, suc, ◌+◌, ◌-◌, ◌≤◌, ◌≡◌, ◌⊎◌, inl, inr, refl, sym, ap, ◌∙◌, Bool, true, false, not,
  Option, none, some, List, [], ◌∷◌, ◌++◌, arith, ltb, if◌then◌else◌, length, Bool-cases,
  append_assoc,
}
use mikrotik_openvpn_gui.Binary.Error.{
  Result, ok, err, Result-cases, response_limit, response_word_limit, tag_mismatch, rejected,
  BinaryError,
}
use mikrotik_openvpn_gui.Binary.Reader.Feed.{IsSound}
use mikrotik_openvpn_gui.Binary.Words.{encode_sentence}
use mikrotik_openvpn_gui.Binary.Reply.{ParsedReply, parse_reply}
use mikrotik_openvpn_gui.Binary.Query.{Query, approved, print_fields}
use mikrotik_openvpn_gui.Binary.Connection.{
  Connection, Socket, Run, and_then, Read, fresh_reader, close, send, request_loop, read_sentence,
  sentence_wire_size, has_tag, is_last, is_rejection, max_response_replies, max_response_bytes,
  max_response_words,
}
use mikrotik_openvpn_gui.Binary.Connection.Commands.{tagged, request, execute}
use mikrotik_openvpn_gui.Binary.Connection.Reads.{
  Follows, Follows-trans, Ending, Reads, and_then-Ending, branch-Ending, Ending-map,
  read_sentence-Reads,
}

-- The replies to one request: each carries its tag and is no rejection, and the last one, only, is a
-- reply that ends an answer.
abbrev pub IsWhole : List ℕ → List ParsedReply → Type 0
IsWhole text [] = ⊥
IsWhole text (reply ∷ replies) =
    (has_tag text reply ≡ true)
    × (is_rejection reply ≡ false)
    × (((is_last reply ≡ true) × (replies ≡ [])) ⊎ ((is_last reply ≡ false) × IsWhole text replies))

-- A call that returns in every case, with `P` of what it returns.
abbrev pub Returns : {A : Type 0} → (A → Type 0) → Option A → Type 0
Returns P none = ⊥
Returns P (some a) = P a

-- What `_send` does where it does not raise.
abbrev pub Given : List (List ℕ) → Connection → Connection → Type 0
Given sentence c out =
    (bytes : List ℕ) × (encode_sentence sentence ≡ ok bytes)
    × (out ≡ record c { sent = c.sent ++ bytes ∷ [] })

pub send-ok :
    (sends : Bool) (sentence : List (List ℕ)) (c out : Connection)
    → send sends sentence c ≡ ok out
    → Given sentence c out
unfolding send
send-ok sends sentence c out h = elim (Result-cases (encode_sentence sentence)) [
  | inr (x, e) ↦ absurd (ground (arith, e))
  | inl (bytes, e) ↦ (bytes, e, ground (arith, e))
]

pub fresh_reader-IsSound : IsSound fresh_reader
fresh_reader-IsSound = record { inside = omega arith; few_words = omega arith }

pub Returns-map :
    {A : Type 0} (P Q : A → Type 0) (call : Option A)
    → ((a : A) → P a → Q a)
    → Returns P call
    → Returns Q call
Returns-map P Q none f h = h
Returns-map P Q (some a) f h = f a h

pub branch-Returns :
    {A : Type 0} (P : A → Type 0) (b : Bool) (x y : Option A)
    → Returns P x
    → Returns P y
    → Returns P (if b then x else y)
branch-Returns P true x y h k = h
branch-Returns P false x y h k = k

module _ (decode : List ℕ → List ℕ) (show_tag : ℕ → List ℕ) where
  -- What the loop adds to the replies that it was given.
  abbrev Adds : ℕ → List ParsedReply → Connection → List ParsedReply × Connection × Socket → Type 0
  Adds left replies c (all, after, rest) =
      (new : List ParsedReply) × Follows c after
      × (all ≡ replies ++ new)
      × IsWhole (show_tag c.tag) new
      × (length new ≤ left)

  request_loop-Ending :
      (left bytes word_count : ℕ) (replies : List ParsedReply) (c : Connection) (arriving : Socket)
      → IsSound c.reader
      → Ending
          (Adds left replies c)
          (request_loop decode show_tag left bytes word_count replies c arriving)
  unfolding request_loop
  request_loop-Ending zero bytes word_count replies c arriving sound = tt
  request_loop-Ending (suc left) bytes word_count replies c arriving sound =
      and_then-Ending (Reads c) (Adds (suc left) replies c)
        (read_sentence (some (max_response_bytes - bytes)) c arriving) _
        (read_sentence-Reads (some (max_response_bytes - bytes)) c arriving sound)
        (λ read follows. taken read follows (λ size reply.
          request_loop-Ending left (bytes + size) (word_count + length read.0)
            (replies ++ reply ∷ []) read.1 read.2 follows.sound_reader))
    where
      -- One reply that belongs to the answer, and those that follow.
      adds :
          (read : Read) (reply : ParsedReply) (a : List ParsedReply × Connection × Socket)
          → Follows c read.1
          → has_tag (show_tag c.tag) reply ≡ true
          → is_rejection reply ≡ false
          → is_last reply ≡ false
          → Adds left (replies ++ reply ∷ []) read.1 a
          → Adds (suc left) replies c a
      adds read reply (all, after, rest) follows tag accepted last (new, f, same, whole, few) = (
        reply ∷ new,
        Follows-trans c read.1 after follows f,
        same ∙ append_assoc replies (reply ∷ []) new,
        (tag, accepted, inr (last, rw follows.same_tag at whole)),
        omega (arith, few),
      )

      judged :
          (read : Read) (reply : ParsedReply) (later : Run (List ParsedReply × Connection × Socket))
          → Follows c read.1
          → Ending (Adds left (replies ++ reply ∷ []) read.1) later
          → Ending (Adds (suc left) replies c) (
              if not (has_tag (show_tag c.tag) reply)
              then some (err tag_mismatch)
              else if is_rejection reply
              then some (err rejected)
              else if is_last reply
              then some (ok (replies ++ reply ∷ [], read.1, read.2))
              else later)
      judged read reply later follows next = elim (Bool-cases (has_tag (show_tag c.tag) reply)) [
        | inr d ↦ rw d tt
        | inl d ↦ elim (Bool-cases (is_rejection reply)) [
          | inl e ↦ rw (d, e) tt
          | inr e ↦ elim (Bool-cases (is_last reply)) [
            | inl f ↦ rw (d, e, f) (reply ∷ [], follows, refl, (d, e, inl (f, refl)), omega arith)
            | inr f ↦
                rw (d, e, f)
                  (Ending-map (Adds left (replies ++ reply ∷ []) read.1) (Adds (suc left) replies c)
                    later (λ a. adds read reply a follows d e f) next)
          ]
        ]
      ]

      taken :
          (read : Read)
          → Follows c read.1
          → ((size : ℕ) (reply : ParsedReply)
              → Ending (Adds left (replies ++ reply ∷ []) read.1) (
                  request_loop decode show_tag left
                    (bytes + size)
                    (word_count + length read.0)
                    (replies ++ reply ∷ [])
                    read.1
                    read.2))
          → Ending (Adds (suc left) replies c) (elim (sentence_wire_size read.0) [
            | err e ↦ some (err e)
            | ok size ↦
                if ltb (max_response_bytes - bytes) size
                then some (err response_limit)
                else if ltb max_response_words (word_count + length read.0)
                then some (err response_word_limit)
                else and_then (some (parse_reply decode read.0)) (λ reply.
                  if not (has_tag (show_tag c.tag) reply)
                  then some (err tag_mismatch)
                  else if is_rejection reply
                  then some (err rejected)
                  else if is_last reply
                  then some (ok (replies ++ reply ∷ [], read.1, read.2))
                  else request_loop decode show_tag left
                      (bytes + size)
                      (word_count + length read.0)
                      (replies ++ reply ∷ [])
                      read.1
                      read.2)
          ])
      taken read follows next = elim (Result-cases (sentence_wire_size read.0)) [
        | inr (x, e) ↦ rw e tt
        | inl (size, e) ↦ rw e (
            branch-Ending (Adds (suc left) replies c) (ltb (max_response_bytes - bytes) size) _ _ tt
              (branch-Ending (Adds (suc left) replies c)
                (ltb max_response_words (word_count + length read.0)) _ _ tt
                (elim (Result-cases (parse_reply decode read.0)) [
                  | inr (x, d) ↦ rw d tt
                  | inl (reply, d) ↦ rw d (judged read reply _ follows (next size reply))
                ])))
      ]

  -- What `sendall` was given: nothing, or the sentence that `texts` and the tag make.
  abbrev pub Sends : List (List ℕ) → Connection → Connection → Type 0
  Sends texts c after =
      (after.sent ≡ c.sent)
      ⊎ ((bytes : List ℕ) × (encode_sentence (tagged decode show_tag texts (c.tag + 1)) ≡ ok bytes)
          × (after.sent ≡ c.sent ++ bytes ∷ []))

  -- An answer leaves the connection open, anything else leaves it closed, with a reader that is new.
  abbrev pub Settles : Connection → Result (List ParsedReply × Socket) × Connection → Type 0
  Settles c (ok (replies, rest), after) =
      (after.is_open ≡ c.is_open)
      × (after.tag ≡ c.tag + 1)
      × IsWhole (show_tag (c.tag + 1)) replies
      × (length replies ≤ max_response_replies)
  Settles c (err e, after) = (after.is_open ≡ false) × (after.reader ≡ fresh_reader)

  abbrev pub Requests :
      List (List ℕ) → Connection → Result (List ParsedReply × Socket) × Connection → Type 0
  Requests texts c called = Settles c called × Sends texts c called.1 × IsSound called.1.reader

  answered :
      (c : Connection) (texts : List (List ℕ)) (out : Connection)
      → Given (tagged decode show_tag texts (c.tag + 1)) (record c { tag = c.tag + 1 }) out
      → (loop : Run (List ParsedReply × Connection × Socket))
      → Ending (Adds max_response_replies [] out) loop
      → Returns (Requests texts c) (elim loop [
        | none ↦ none
        | some (err e) ↦ some (err e, close out)
        | some (ok (replies, after, rest)) ↦ some (ok (replies, rest), after)
      ])
  unfolding close
  answered c texts out given none h = h
  answered c texts out (bytes, e, same) (some (err x)) h =
      ((refl, refl), inr (bytes, e, ap (λ d. d.sent) same), fresh_reader-IsSound)
  answered c texts out (bytes, e, same) (some (ok (replies, after, rest)))
        (new, f, all, whole, few) =
      (
        (
          f.same_open ∙ ap (λ d. d.is_open) same,
          f.same_tag ∙ ap (λ d. d.tag) same,
          rw (all, ap (λ d. d.tag) (sym same)) whole,
          rw all few,
        ),
        inr (bytes, e, f.same_sent ∙ ap (λ d. d.sent) same),
        f.sound_reader,
      )

  pub request-Requests :
      (sends : Bool) (texts : List (List ℕ)) (c : Connection) (arriving : Socket)
      → IsSound c.reader
      → Returns (Requests texts c) (request decode show_tag sends texts c arriving)
  unfolding request close send
  request-Requests sends texts c arriving sound =
      let numbered : Connection = record c { tag = c.tag + 1 } in
      let sentence = tagged decode show_tag texts (c.tag + 1) in
      elim (Result-cases (send sends sentence numbered)) [
        | inr (x, e) ↦ rw (e, request) ((refl, refl), inl refl, fresh_reader-IsSound)
        | inl (out, e) ↦
            let given = send-ok sends sentence numbered out e in
            rw (e, request)
              (answered c texts out given
                (request_loop decode show_tag max_response_replies 0 0 [] out arriving)
                (request_loop-Ending max_response_replies 0 0 [] out arriving (rw (given.2) sound)))
      ]

  -- `execute` refuses a call before it changes anything, or it sends the path with its query and
  -- settles.
  abbrev pub Executes :
      List ℕ → Query → Connection → Result (List ParsedReply × Socket) × Connection → Type 0
  Executes path query c called =
      ((refusal : BinaryError) × (approved print_fields path query ≡ err refusal)
        × (called ≡ (err refusal, c)))
      ⊎ ((words : List (List ℕ)) × (approved print_fields path query ≡ ok words)
          × Requests (path ∷ words) c called)

  -- `execute` returns or raises, whatever the socket gives. It refuses the call and changes nothing;
  -- or it gets replies that all carry the request's tag, the last one, only, ends the answer, and
  -- none is a rejection; or it leaves the connection closed with a new reader.
  pub execute-Executes :
      (sends : Bool) (path : List ℕ) (query : Query) (c : Connection) (arriving : Socket)
      → IsSound c.reader
      → Returns (Executes path query c) (execute decode show_tag sends path query c arriving)
  unfolding execute
  execute-Executes sends path query c arriving sound =
      elim (Result-cases (approved print_fields path query)) [
        | inl (words, e) ↦
            rw (e, execute)
              (Returns-map (Requests (path ∷ words) c) (Executes path query c)
                (request decode show_tag sends (path ∷ words) c arriving)
                (λ called r. inr (words, e, r))
                (request-Requests sends (path ∷ words) c arriving sound))
        | inr (refusal, e) ↦ rw (e, execute) (inl (refusal, e, refl))
      ]
