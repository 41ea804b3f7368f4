-- ===== src/Binary/Connection/Tests.antt =====
-- The connection at concrete inputs: texts decode to their bytes, and a tag is one digit.
use mikrotik_openvpn_gui.Common.{ℕ, zero, suc, ◌+◌, ◌≡◌, refl, true, some, List, [], ◌∷◌, ◌++◌, All}
use mikrotik_openvpn_gui.Gateway.Value.{codes}
use mikrotik_openvpn_gui.Binary.Error.{ok}
use mikrotik_openvpn_gui.Binary.Query.{Query, words, word, validated_query, interface_print_fields}
use mikrotik_openvpn_gui.Binary.Query.Approved.{IsNarrow, validated_query-IsNarrow}
use mikrotik_openvpn_gui.Binary.Connection.{
  Connection, read_sentence, Received, Socket, chunk, failed, new_connection, fresh_reader,
}
use mikrotik_openvpn_gui.Binary.Connection.Commands.{execute}
use mikrotik_openvpn_gui.Binary.Connection.Reads.{Ending, ReadsWithin, read_sentence-Ending}
use mikrotik_openvpn_gui.Binary.Connection.Answers.{
  fresh_reader-IsSound, Returns, Executes, execute-Executes,
}
use mikrotik_openvpn_gui.Binary.Connection.Calls.{
  Call, do_connect, do_execute, do_listen, do_close, run_calls,
}
use mikrotik_openvpn_gui.Binary.Connection.Calls.Harmless.{IsHarmless, run_calls-IsHarmless}

abbrev bytes_as_text : List ℕ → List ℕ
bytes_as_text cs = cs

abbrev digit : ℕ → List ℕ
digit n = (48 + n) ∷ []

abbrev counters_query : Query
counters_query = words (word (codes ".proplist=name,rx-byte") ∷ [])

abbrev open_connection : Connection
open_connection = record { is_open = true; tag = 0; reader = fresh_reader; sent = [] }

-- A reply that is done, in two pieces.
abbrev socket_of : List Received → Socket
socket_of [] n = failed
socket_of (next ∷ arriving) zero = next
socket_of (next ∷ arriving) (suc n) = socket_of arriving n

abbrev done_chunks : Socket
done_chunks = socket_of (chunk (5 ∷ codes "!done") ∷ chunk ((6 ∷ codes ".tag=1") ++ 0 ∷ []) ∷ [])

abbrev session : List Call
session =
    do_connect true true (codes "eve") (codes "secret") done_chunks
    ∷ do_execute true (codes "/interface/print") counters_query (socket_of [])
    ∷ do_execute true (codes "/system/reboot") counters_query (socket_of [])
    ∷ do_listen 2 true (codes "/ppp/active") (words []) (socket_of [])
    ∷ do_close
    ∷ []

validated :
    validated_query interface_print_fields counters_query ≡ ok (codes ".proplist=name,rx-byte" ∷ [])
unfolding validated_query
validated = refl

validated_query-IsNarrow_example :
    IsNarrow interface_print_fields (codes ".proplist=name,rx-byte" ∷ [])
validated_query-IsNarrow_example =
    validated_query-IsNarrow interface_print_fields counters_query
      (codes ".proplist=name,rx-byte" ∷ []) validated

execute-Executes_example :
    Returns
      (Executes bytes_as_text digit (codes "/interface/print") counters_query open_connection)
      (execute bytes_as_text digit true
        (codes "/interface/print")
        counters_query
        open_connection
        done_chunks)
execute-Executes_example =
    execute-Executes bytes_as_text digit true (codes "/interface/print") counters_query
      open_connection done_chunks fresh_reader-IsSound

read_sentence-Ending_example :
    Ending
      (ReadsWithin (some 100) open_connection)
      (read_sentence (some 100) open_connection done_chunks)
read_sentence-Ending_example =
    read_sentence-Ending (some 100) open_connection done_chunks fresh_reader-IsSound

run_calls-IsHarmless_example :
    Returns
      (λ c. All (IsHarmless bytes_as_text digit) c.sent)
      (run_calls bytes_as_text digit session new_connection)
run_calls-IsHarmless_example = run_calls-IsHarmless bytes_as_text digit session
