-- ===== src/Binary/Connection/Calls.antt =====
-- Runs of calls on one connection.
pub mod Harmless
use mikrotik_openvpn_gui.Common.{
  ℕ, zero, suc, ◌+◌, ◌≡◌, inl, inr, ap, Bool, true, not, Option, none, some, List, [], ◌∷◌, ◌++◌,
  if◌then◌else◌, All, All-append,
}
use mikrotik_openvpn_gui.Gateway.Value.{codes}
use mikrotik_openvpn_gui.Binary.Error.{
  Result, ok, err, Result-cases, legacy_challenge, tag_mismatch, rejected,
}
use mikrotik_openvpn_gui.Binary.Reader.Feed.{IsSound}
use mikrotik_openvpn_gui.Binary.Words.{encode_sentence}
use mikrotik_openvpn_gui.Binary.Reply.{ParsedReply, parse_reply}
use mikrotik_openvpn_gui.Binary.Query.{Query, approved, print_fields, listen_fields}
use mikrotik_openvpn_gui.Binary.Connection.ReadOnly.{
  IsReadOnly, login, execute-IsReadOnly, listen-IsReadOnly,
}
use mikrotik_openvpn_gui.Binary.Connection.{
  Connection, new_connection, Socket, Run, Read, close, send, read_sentence, has_tag, is_kind,
  is_rejection,
}
use mikrotik_openvpn_gui.Binary.Connection.Commands.{
  Called, Stream, finished, broken, tagged, request, execute, connect, listen, listen_loop,
  is_challenge,
}
use mikrotik_openvpn_gui.Binary.Connection.Reads.{Ending, Reads, read_sentence-Reads}
use mikrotik_openvpn_gui.Binary.Connection.Answers.{
  Returns, Returns-map, branch-Returns, Sends, Requests, send-ok, fresh_reader-IsSound,
  request-Requests,
}

-- A call, with what the socket and the caller do in it.
pub data Call : Type 0 where
  do_connect : (dials sends : Bool) (username password : List ℕ) (arriving : Socket) → Call
  do_execute : (sends : Bool) (path : List ℕ) (query : Query) (arriving : Socket) → Call
  do_listen : (rounds : ℕ) (sends : Bool) (path : List ℕ) (query : Query) (arriving : Socket) → Call
  do_close : Call

abbrev pub after_call : {A : Type 0} → Option (A × Connection) → Option Connection
after_call none = none
after_call (some (a, c)) = some c

module _ (decode : List ℕ → List ℕ) (show_tag : ℕ → List ℕ) where
  unfoldable pub run_call : Call → Connection → Option Connection
  unfolding connect execute listen close
  run_call (do_connect dials sends username password arriving) c =
      after_call (connect decode show_tag dials sends username password c arriving)
  run_call (do_execute sends path query arriving) c =
      after_call (execute decode show_tag sends path query c arriving)
  run_call (do_listen rounds sends path query arriving) c =
      elim (listen decode show_tag rounds sends path query c arriving) [
        | none ↦ none
        | some (replies, stream, after) ↦ some after
      ]
  run_call do_close c = some (close c)

  unfoldable pub run_calls : List Call → Connection → Option Connection
  unfolding run_call
  run_calls [] c = some c
  run_calls (call ∷ calls) c = elim (run_call call c) [
    | none ↦ none
    | some after ↦ run_calls calls after
  ]
