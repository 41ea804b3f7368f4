-- ===== src/Binary/Connection/Commands.antt =====
-- `connect`, `_request`, `execute` and `listen` of `RouterOSBinaryConnection`. Texts that are sent have
-- no surrogates. A `sendall` that raises counts as not sent.
use mikrotik_openvpn_gui.Common.{
  ℕ, zero, suc, ◌+◌, Bool, true, false, not, Option, none, some, List, [], ◌∷◌, ◌++◌, if◌then◌else◌,
}
use mikrotik_openvpn_gui.Gateway.Value.{codes}
use mikrotik_openvpn_gui.Broker.Cache.{find}
use mikrotik_openvpn_gui.Binary.Error.{
  BinaryError, Result, ok, err, dial_failed, legacy_challenge, tag_mismatch, rejected,
}
use mikrotik_openvpn_gui.Binary.Reply.{ParsedReply, parse_reply}
use mikrotik_openvpn_gui.Binary.Query.{Query, approved, print_fields, listen_fields, utf8_words}
use mikrotik_openvpn_gui.Binary.Connection.{
  Connection, Socket, close, send, request_loop, read_sentence, has_tag, is_kind, is_rejection,
  max_response_replies,
}

-- What a call returns or raises, and the connection after it.
abbrev pub Called : Type 0 → Type 0
Called A = Option (Result A × Connection)

-- Whether the caller can go on with the generator of `listen`.
pub data Stream : Type 0 where
  running finished : Stream
  broken : BinaryError → Stream

-- The first reply that is done, its `ret`, and whether that is a text that is not empty.
abbrev pub is_challenge : List ParsedReply → Bool
is_challenge [] = false
is_challenge (reply ∷ replies) =
    let rest = is_challenge replies in
    if is_kind reply (codes "done")
    then elim (find (codes "ret") reply.attributes) [
      | none ↦ false
      | some [] ↦ false
      | some (c ∷ cs) ↦ true
    ]
    else rest

module _ (decode : List ℕ → List ℕ) (show_tag : ℕ → List ℕ) where
  -- The sentence with the word of its tag.
  abbrev pub tagged : List (List ℕ) → ℕ → List (List ℕ)
  tagged texts tag = utf8_words (texts ++ (codes ".tag=" ++ show_tag tag) ∷ [])

  unfoldable pub request :
      Bool → List (List ℕ) → Connection → Socket → Called (List ParsedReply × Socket)
  unfolding close send request_loop
  request sends texts c arriving =
      let numbered : Connection = record c { tag = c.tag + 1 } in
      elim (send sends (tagged texts (c.tag + 1)) numbered) [
        | err e ↦ some (err e, close numbered)
        | ok out ↦ elim (request_loop decode show_tag max_response_replies 0 0 [] out arriving) [
          | none ↦ none
          | some (err e) ↦ some (err e, close out)
          | some (ok (replies, after, rest)) ↦ some (ok (replies, rest), after)
        ]
      ]

  unfoldable pub execute :
      Bool → List ℕ → Query → Connection → Socket → Called (List ParsedReply × Socket)
  unfolding request
  execute sends path query c arriving = elim (approved print_fields path query) [
    | err e ↦ some (err e, c)
    | ok words ↦ request sends (path ∷ words) c arriving
  ]

  -- `dials` says whether the socket and its TLS session open.
  unfoldable pub connect : Bool → Bool → List ℕ → List ℕ → Connection → Socket → Called (Socket)
  unfolding request close
  connect dials sends username password c arriving =
      if c.is_open
      then some (ok arriving, c)
      else if not dials
      then some (err dial_failed, c)
      else elim (request sends
          (codes "/login" ∷ (codes "=name=" ++ username) ∷ (codes "=password=" ++ password) ∷ [])
          (record c { is_open = true }) arriving) [
            | none ↦ none
            | some (err e, after) ↦ some (err e, after)
            | some (ok (replies, rest), after) ↦
                if is_challenge replies
                then some (err legacy_challenge, close after)
                else some (ok rest, after)
          ]

  -- As many rounds of the loop of `listen` as the caller lets it run, with what it yields.
  unfoldable pub listen_loop :
      ℕ → Connection → Socket → Option (List ParsedReply × Stream × Connection)
  unfolding read_sentence close
  listen_loop zero c arriving = some ([], running, c)
  listen_loop (suc rounds) c arriving = elim (read_sentence none c arriving) [
    | none ↦ none
    | some (err e) ↦ some ([], broken e, close c)
    | some (ok (sentence, after, rest)) ↦ elim (parse_reply decode sentence) [
      | err e ↦ some ([], broken e, close after)
      | ok reply ↦
          let later = listen_loop rounds after rest in
          if not (has_tag (show_tag c.tag) reply)
          then some ([], broken tag_mismatch, close after)
          else if is_rejection reply
          then some ([], broken rejected, close after)
          else if is_kind reply (codes "done")
          then some ([], finished, after)
          else if is_kind reply (codes "re")
          then elim later [
            | none ↦ none
            | some (replies, end, last) ↦ some (reply ∷ replies, end, last)
          ]
          else later
    ]
  ]

  unfoldable pub listen :
      ℕ
      → Bool
      → List ℕ
      → Query
      → Connection
      → Socket
      → Option (List ParsedReply × Stream × Connection)
  unfolding listen_loop send close
  listen rounds sends path query c arriving = elim (approved listen_fields path query) [
    | err e ↦ some ([], broken e, c)
    | ok words ↦
        let numbered : Connection = record c { tag = c.tag + 1 } in
        elim (send sends (tagged ((path ++ codes "/listen") ∷ words) (c.tag + 1)) numbered) [
          | err e ↦ some ([], broken e, close numbered)
          | ok out ↦ listen_loop rounds out arriving
        ]
  ]
