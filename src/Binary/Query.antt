-- ===== src/Binary/Query.antt =====
-- The allowlists and `_validated_query` of `RouterOSBinaryConnection` (routeros_binary.py).
pub mod Approved
use mikrotik_openvpn_gui.Common.{
  is_empty, ℕ, suc, ◌+◌, ◌*◌, ◌/◌, ◌%◌, Bool, true, false, not, ◌&&◌, ◌||◌, Option, none, some,
  List, [], ◌∷◌, ◌++◌, ltb, ◌==◌, if◌then◌else◌, length, String,
}
use mikrotik_openvpn_gui.Gateway.Value.{codes, same_codes, utf8_length}
use mikrotik_openvpn_gui.Gateway.Limits.{text_among}
use mikrotik_openvpn_gui.Binary.Error.{
  Result, ok, err, path_without_slash, path_not_allowed, query_not_allowed,
}

abbrev pub max_query_word_bytes : ℕ
max_query_word_bytes = 512

abbrev pub active_session_fields : List String
active_session_fields =
    ".id" ∷ "name" ∷ "address" ∷ "caller-id" ∷ "uptime" ∷ "encoding" ∷ "service" ∷ "rx-byte"
    ∷ "tx-byte" ∷ "rx-packet" ∷ "tx-packet" ∷ []

abbrev pub interface_print_fields : List String
interface_print_fields = ".id" ∷ "name" ∷ "rx-byte" ∷ "tx-byte" ∷ "rx-packet" ∷ "tx-packet" ∷ []

-- The fields that a path allows, where it is in the table.
abbrev pub print_fields : List ℕ → Option (List String)
print_fields path =
    if same_codes path (codes "/interface/print")
    then some interface_print_fields
    else if same_codes path (codes "/ppp/active/print")
    then some active_session_fields
    else none

abbrev pub listen_fields : List ℕ → Option (List String)
listen_fields path =
    if same_codes path (codes "/ppp/active") then some active_session_fields else none

-- A word of the argument: a text by its code points, or something else.
pub data QueryWord : Type 0 where
  word : List ℕ → QueryWord
  not_text : QueryWord

-- The argument: a text or bytes, something that cannot be iterated, or words.
pub data Query : Type 0 where
  bare_text not_iterable : Query
  words : List QueryWord → Query

-- What stands behind a prefix, where the text has it.
abbrev pub behind : List ℕ → List ℕ → Option (List ℕ)
behind [] cs = some cs
behind (p ∷ ps) [] = none
behind (p ∷ ps) (c ∷ cs) = if p == c then behind ps cs else none

-- `text.split(",")`
abbrev pub split_commas : List ℕ → List (List ℕ)
split_commas [] = [] ∷ []
split_commas (c ∷ cs) = elim (split_commas cs) [
  | [] ↦ (c ∷ []) ∷ []
  | part ∷ parts ↦ if c == 44 then [] ∷ part ∷ parts else (c ∷ part) ∷ parts
]

-- `field not in` the fields before it
abbrev pub field_in : List ℕ → List (List ℕ) → Bool
field_in field [] = false
field_in field (other ∷ fields) = if same_codes field other then true else field_in field fields

-- No field is empty or outside the allowed ones.
abbrev pub all_allowed : List String → List (List ℕ) → Bool
all_allowed allowed [] = true
all_allowed allowed (field ∷ fields) =
    not (is_empty field) && (text_among field allowed && all_allowed allowed fields)

-- `len(fields) == len(set(fields))`
abbrev pub all_distinct : List (List ℕ) → Bool
all_distinct [] = true
all_distinct (field ∷ fields) = not (field_in field fields) && all_distinct fields

-- The tests of a single word that is a text.
unfoldable pub validated_word : List String → List ℕ → Result (List (List ℕ))
validated_word allowed cs =
    if ltb max_query_word_bytes (length cs) then err query_not_allowed else elim (utf8_length cs) [
      | none ↦ err query_not_allowed
      | some size ↦ elim (behind (codes ".proplist=") cs) [
        | none ↦ err query_not_allowed
        | some rest ↦
            if ltb max_query_word_bytes size
            then err query_not_allowed
            else if all_allowed allowed (split_commas rest) && all_distinct (split_commas rest)
            then ok (cs ∷ [])
            else err query_not_allowed
      ]
    ]

unfoldable pub validated_query : List String → Query → Result (List (List ℕ))
unfolding validated_word
validated_query allowed bare_text = err query_not_allowed
validated_query allowed not_iterable = err query_not_allowed
validated_query allowed (words []) = ok []
validated_query allowed (words (not_text ∷ [])) = err query_not_allowed
validated_query allowed (words (word cs ∷ [])) = validated_word allowed cs
validated_query allowed (words (first ∷ second ∷ more)) = err query_not_allowed

-- `path.startswith("/")`, the table of paths, and the query: what `execute` and `listen` do first.
unfoldable pub approved : (List ℕ → Option (List String)) → List ℕ → Query → Result (List (List ℕ))
unfolding validated_query
approved table [] query = err path_without_slash
approved table (c ∷ path) query =
    if not (c == 47) then err path_without_slash else elim (table (c ∷ path)) [
      | none ↦ err path_not_allowed
      | some allowed ↦ validated_query allowed query
    ]

-- `text.encode("utf-8")` of a text without surrogates
abbrev pub utf8_bytes : List ℕ → List ℕ
utf8_bytes [] = []
utf8_bytes (c ∷ cs) =
    let rest = utf8_bytes cs in
    if ltb c 128
    then c ∷ rest
    else if ltb c 2048
    then (192 + c / 64) ∷ (128 + c % 64) ∷ rest
    else if ltb c 65536
    then (224 + c / 4096) ∷ (128 + c / 64 % 64) ∷ (128 + c % 64) ∷ rest
    else (240 + c / 262144) ∷ (128 + c / 4096 % 64) ∷ (128 + c / 64 % 64) ∷ (128 + c % 64) ∷ rest

abbrev pub utf8_words : List (List ℕ) → List (List ℕ)
utf8_words [] = []
utf8_words (cs ∷ texts) = utf8_bytes cs ∷ utf8_words texts
