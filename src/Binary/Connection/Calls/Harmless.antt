-- ===== src/Binary/Connection/Calls/Harmless.antt =====
-- All that a run of calls sends.
use mikrotik_openvpn_gui.Common.{
  ℕ, zero, suc, ◌+◌, ◌≡◌, inl, inr, ap, Bool, true, not, Option, none, some, List, [], ◌∷◌, ◌++◌,
  if◌then◌else◌, All, All-append,
}
use mikrotik_openvpn_gui.Gateway.Value.{codes}
use mikrotik_openvpn_gui.Binary.Error.{
  Result, ok, err, Result-cases, legacy_challenge, tag_mismatch, rejected,
}
use mikrotik_openvpn_gui.Binary.Reader.Feed.{IsSound}
use mikrotik_openvpn_gui.Binary.Words.{encode_sentence}
use mikrotik_openvpn_gui.Binary.Reply.{ParsedReply, parse_reply}
use mikrotik_openvpn_gui.Binary.Query.{Query, approved, print_fields, listen_fields}
use mikrotik_openvpn_gui.Binary.Connection.ReadOnly.{
  IsReadOnly, login, execute-IsReadOnly, listen-IsReadOnly,
}
use mikrotik_openvpn_gui.Binary.Connection.{
  Connection, new_connection, Socket, Run, Read, close, send, read_sentence, has_tag, is_kind,
  is_rejection,
}
use mikrotik_openvpn_gui.Binary.Connection.Commands.{
  Called, Stream, finished, broken, tagged, request, execute, connect, listen, listen_loop,
  is_challenge,
}
use mikrotik_openvpn_gui.Binary.Connection.Reads.{Ending, Reads, read_sentence-Reads}
use mikrotik_openvpn_gui.Binary.Connection.Answers.{
  Returns, Returns-map, branch-Returns, Sends, Requests, send-ok, fresh_reader-IsSound,
  request-Requests,
}
use mikrotik_openvpn_gui.Binary.Connection.Calls.{
  Call, do_connect, do_execute, do_listen, do_close, after_call, run_call, run_calls,
}

module _ (decode : List ℕ → List ℕ) (show_tag : ℕ → List ℕ) where
  -- Bytes of a sentence that changes nothing, with a tag.
  abbrev pub IsHarmless : List ℕ → Type 0
  IsHarmless bytes =
      (texts : List (List ℕ)) × (tag : ℕ) × IsReadOnly texts
      × (encode_sentence (tagged decode show_tag texts tag) ≡ ok bytes)

  -- The reader is sound and all that was sent is harmless.
  abbrev pub IsClean : Connection → Type 0
  IsClean c = IsSound c.reader × All IsHarmless c.sent

  sent-All :
      (texts : List (List ℕ)) (c after : Connection)
      → IsReadOnly texts
      → All IsHarmless c.sent
      → Sends decode show_tag texts c after
      → All IsHarmless after.sent
  sent-All texts c after harmless all (inl same) = rw same all
  sent-All texts c after harmless all (inr (bytes, e, same)) =
      rw same (All-append IsHarmless c.sent (bytes ∷ []) all ((texts, c.tag + 1, harmless, e), tt))

  request-IsClean :
      (sends : Bool) (texts : List (List ℕ)) (c : Connection) (arriving : Socket)
      → IsReadOnly texts
      → IsClean c
      → Returns (λ called. IsClean called.1) (request decode show_tag sends texts c arriving)
  request-IsClean sends texts c arriving harmless clean =
      Returns-map (Requests decode show_tag texts c) (λ called. IsClean called.1)
        (request decode show_tag sends texts c arriving)
        (λ called r. (r.2, sent-All texts c called.1 harmless clean.1 r.1))
        (request-Requests decode show_tag sends texts c arriving clean.0)

  execute-IsClean :
      (sends : Bool) (path : List ℕ) (query : Query) (c : Connection) (arriving : Socket)
      → IsClean c
      → Returns (λ called. IsClean called.1) (execute decode show_tag sends path query c arriving)
  unfolding execute
  execute-IsClean sends path query c arriving clean =
      elim (Result-cases (approved print_fields path query)) [
        | inr (x, e) ↦ rw (e, execute) clean
        | inl (words, e) ↦
            rw (e, execute)
              (request-IsClean sends (path ∷ words) c arriving
                (execute-IsReadOnly path query words e) clean)
      ]

  -- The end of `connect`.
  challenged :
      (call : Called (List ParsedReply × Socket))
      → Returns (λ called. IsClean called.1) call
      → Returns {A = Result (Socket) × Connection}
          (λ called. IsClean called.1)
          (elim call [
            | none ↦ none
            | some (err e, after) ↦ some (err e, after)
            | some (ok (replies, rest), after) ↦
                if is_challenge replies
                then some (err legacy_challenge, close after)
                else some (ok rest, after)
          ])
  unfolding close
  challenged none h = h
  challenged (some (err e, after)) h = h
  challenged (some (ok (replies, rest), after)) h =
      branch-Returns (λ called. IsClean called.1) (is_challenge replies)
        (some (err legacy_challenge, close after)) (some (ok rest, after))
        (fresh_reader-IsSound, h.1) h

  connect-IsClean :
      (dials sends : Bool) (username password : List ℕ) (c : Connection) (arriving : Socket)
      → IsClean c
      → Returns
          (λ called. IsClean called.1)
          (connect decode show_tag dials sends username password c arriving)
  unfolding connect close
  connect-IsClean dials sends username password c arriving clean =
      let texts =
        codes "/login" ∷ (codes "=name=" ++ username) ∷ (codes "=password=" ++ password) ∷ [] in
      branch-Returns (λ called. IsClean called.1) c.is_open _ _ clean
        (branch-Returns (λ called. IsClean called.1) (not dials) _ _ clean
          (challenged (request decode show_tag sends texts (record c { is_open = true }) arriving) (
            request-IsClean sends texts (record c { is_open = true }) arriving
              (login username password) clean)))

  listen_loop-IsClean :
      (rounds : ℕ) (c : Connection) (arriving : Socket)
      → IsClean c
      → Returns (λ run. IsClean run.2) (listen_loop decode show_tag rounds c arriving)
  unfolding listen_loop close
  listen_loop-IsClean zero c arriving clean = clean
  listen_loop-IsClean (suc rounds) c arriving clean =
      go (read_sentence none c arriving) (read_sentence-Reads none c arriving clean.0)
        (listen_loop-IsClean rounds)
    where
      Clean : List ParsedReply × Stream × Connection → Type 0
      Clean run = IsClean run.2

      yielded :
          (reply : ParsedReply) (later : Option (List ParsedReply × Stream × Connection))
          → Returns Clean later
          → Returns Clean (elim later [
            | none ↦ none
            | some (replies, end, last) ↦ some (reply ∷ replies, end, last)
          ])
      yielded reply none h = h
      yielded reply (some (replies, end, last)) h = h

      judged :
          (reply : ParsedReply) (after : Connection)
          (later : Option (List ParsedReply × Stream × Connection))
          → IsClean after
          → Returns Clean later
          → Returns Clean (
              if not (has_tag (show_tag c.tag) reply)
              then some ([], broken tag_mismatch, close after)
              else if is_rejection reply
              then some ([], broken rejected, close after)
              else if is_kind reply (codes "done")
              then some ([], finished, after)
              else if is_kind reply (codes "re")
              then elim later [
                | none ↦ none
                | some (replies, end, last) ↦ some (reply ∷ replies, end, last)
              ]
              else later)
      judged reply after later k h =
          branch-Returns Clean (not (has_tag (show_tag c.tag) reply)) _ _
            (fresh_reader-IsSound, k.1)
            (branch-Returns Clean (is_rejection reply) _ _ (fresh_reader-IsSound, k.1)
              (branch-Returns Clean (is_kind reply (codes "done")) _ _ k
                (branch-Returns Clean (is_kind reply (codes "re")) _ _ (yielded reply later h) h)))

      go :
          (read : Run Read)
          → Ending (Reads c) read
          → ((after : Connection) (rest : Socket)
              → IsClean after
              → Returns Clean (listen_loop decode show_tag rounds after rest))
          → Returns Clean (elim read [
            | none ↦ none
            | some (err e) ↦ some ([], broken e, close c)
            | some (ok (sentence, after, rest)) ↦ elim (parse_reply decode sentence) [
              | err e ↦ some ([], broken e, close after)
              | ok reply ↦
                  let later = listen_loop decode show_tag rounds after rest in
                  if not (has_tag (show_tag c.tag) reply)
                  then some ([], broken tag_mismatch, close after)
                  else if is_rejection reply
                  then some ([], broken rejected, close after)
                  else if is_kind reply (codes "done")
                  then some ([], finished, after)
                  else if is_kind reply (codes "re")
                  then elim later [
                    | none ↦ none
                    | some (replies, end, last) ↦ some (reply ∷ replies, end, last)
                  ]
                  else later
            ]
          ])
      go none h again = h
      go (some (err e)) h again = (fresh_reader-IsSound, clean.1)
      go (some (ok (sentence, after, rest))) f again =
          let k : IsClean after = (f.sound_reader, rw f.same_sent clean.1) in
          elim (Result-cases (parse_reply decode sentence)) [
            | inr (x, e) ↦ rw e (fresh_reader-IsSound, k.1)
            | inl (reply, e) ↦ rw e (
                judged reply after (listen_loop decode show_tag rounds after rest) k
                  (again after rest k))
          ]

  listen-IsClean :
      (rounds : ℕ) (sends : Bool) (path : List ℕ) (query : Query) (c : Connection)
      (arriving : Socket)
      → IsClean c
      → Returns (λ run. IsClean run.2) (listen decode show_tag rounds sends path query c arriving)
  unfolding listen close
  listen-IsClean rounds sends path query c arriving clean =
      elim (Result-cases (approved listen_fields path query)) [
        | inr (x, e) ↦ rw (e, listen) clean
        | inl (words, e) ↦
            let texts = (path ++ codes "/listen") ∷ words in
            let numbered : Connection = record c { tag = c.tag + 1 } in
            let sentence = tagged decode show_tag texts (c.tag + 1) in
            elim (Result-cases (send sends sentence numbered)) [
              | inr (x, d) ↦ rw (e, listen, d) (fresh_reader-IsSound, clean.1)
              | inl (out, d) ↦
                  let (bytes, encoded, same) = send-ok sends sentence numbered out d in
                  rw (e, listen, d)
                    (listen_loop-IsClean rounds out arriving (
                      rw same clean.0,
                      sent-All texts c out (listen-IsReadOnly path query words e) clean.1
                          (inr (bytes, encoded, ap (λ b. b.sent) same)),
                    ))
            ]
      ]

  called :
      {A : Type 0} (call : Option (A × Connection))
      → Returns (λ called. IsClean called.1) call
      → Returns IsClean (after_call call)
  called none h = h
  called (some (a, c)) h = h

  streamed :
      (run : Option (List ParsedReply × Stream × Connection))
      → Returns (λ run. IsClean run.2) run
      → Returns IsClean (elim run [ none ↦ none | some (replies, stream, after) ↦ some after ])
  streamed none h = h
  streamed (some (replies, stream, after)) h = h

  run_call-IsClean :
      (call : Call) (c : Connection) → IsClean c → Returns IsClean (run_call decode show_tag call c)
  unfolding run_call close
  run_call-IsClean (do_connect dials sends username password arriving) c clean =
      called (connect decode show_tag dials sends username password c arriving)
        (connect-IsClean dials sends username password c arriving clean)
  run_call-IsClean (do_execute sends path query arriving) c clean =
      called (execute decode show_tag sends path query c arriving)
        (execute-IsClean sends path query c arriving clean)
  run_call-IsClean (do_listen rounds sends path query arriving) c clean =
      streamed (listen decode show_tag rounds sends path query c arriving)
        (listen-IsClean rounds sends path query c arriving clean)
  run_call-IsClean do_close c clean = (fresh_reader-IsSound, clean.1)

  run_calls-IsClean :
      (calls : List Call) (c : Connection)
      → IsClean c
      → Returns IsClean (run_calls decode show_tag calls c)
  unfolding run_calls
  run_calls-IsClean [] c clean = clean
  run_calls-IsClean (call ∷ calls) c clean =
      go (run_call decode show_tag call c) (run_call-IsClean call c clean) (run_calls-IsClean calls)
    where
      go :
          (next : Option Connection)
          → Returns IsClean next
          → ((after : Connection)
              → IsClean after
              → Returns IsClean (run_calls decode show_tag calls after))
          → Returns IsClean
              (elim next [ none ↦ none | some after ↦ run_calls decode show_tag calls after ])
      go none h again = h
      go (some after) h again = again after h

  -- Every run of calls on a new connection returns, whatever the router sends, and all the bytes that
  -- it gives to the socket are sentences of a login, of a print of the interfaces or of the active
  -- sessions, or of a listen to the active sessions, with at most a short list of allowed properties.
  pub run_calls-IsHarmless :
      (calls : List Call)
      → Returns (λ c. All IsHarmless c.sent) (run_calls decode show_tag calls new_connection)
  unfolding new_connection
  run_calls-IsHarmless calls =
      Returns-map IsClean (λ c. All IsHarmless c.sent)
        (run_calls decode show_tag calls new_connection) (λ c clean. clean.1)
        (run_calls-IsClean calls new_connection (fresh_reader-IsSound, tt))
