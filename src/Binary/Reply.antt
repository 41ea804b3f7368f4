-- ===== src/Binary/Reply.antt =====
-- `parse_reply` of routeros_binary.py. `decode("utf-8", "replace")` is a parameter.
pub mod Limits
use mikrotik_openvpn_gui.Common.{
  ℕ, suc, ◌+◌, ◌-◌, ◌*◌, Bool, true, false, not, ◌&&◌, ◌||◌, Option, none, some, List, [], ◌∷◌, ltb,
  ◌==◌, if◌then◌else◌, length, drop,
}
use mikrotik_openvpn_gui.Binary.Error.{
  Result, ok, err, ◌>>=◌, no_reply_kind, kind_limit, reply_word_limit, word_limit, field_name_limit,
  field_value_limit, attribute_limit,
}
use mikrotik_openvpn_gui.Binary.Words.{max_word_size}
use mikrotik_openvpn_gui.Binary.Reader.{max_reply_words}
use mikrotik_openvpn_gui.Broker.Cache.{Cache, put}

abbrev pub max_reply_kind_bytes : ℕ
max_reply_kind_bytes = 32

abbrev pub max_field_name_bytes : ℕ
max_field_name_bytes = 128

abbrev pub max_field_value_bytes : ℕ
max_field_value_bytes = 4096

pub record ParsedReply : Type 0 where
  pub kind : List ℕ
  pub attributes : Cache (List ℕ)

-- `s.partition("=")`: what stands before the first sign, and behind it, where there is one.
abbrev pub partition : List ℕ → List ℕ × Option (List ℕ)
partition [] = ([], none)
partition (c ∷ cs) =
    let rest = partition cs in if c == 61 then ([], some cs) else (c ∷ rest.0, rest.1)

-- The text without the sign that it starts with.
abbrev pub without_sign : List ℕ → List ℕ
without_sign [] = []
without_sign (c ∷ cs) = if c == 61 then cs else c ∷ cs

-- The size tests of a word's name and value.
unfoldable pub check_field : List ℕ → Result Bool
check_field raw =
    let parts = partition (without_sign raw) in
    elim parts.1 [
      | none ↦ if ltb max_field_name_bytes (length raw) then err field_name_limit else ok true
      | some value ↦
          if ltb max_field_name_bytes (length parts.0)
          then err field_name_limit
          else if ltb max_field_value_bytes (length value)
          then err field_value_limit
          else ok true
    ]

-- `attributes[key] = value`, or `attributes[text] = ""` for a text without a separator
abbrev pub add_attribute : List ℕ → Cache (List ℕ) → Cache (List ℕ)
add_attribute text attributes =
    let parts = partition (without_sign text) in
    elim parts.1 [ none ↦ put text [] attributes | some value ↦ put parts.0 value attributes ]

module _ (decode : List ℕ → List ℕ) where
  unfoldable pub parse_word : ℕ → List ℕ → Cache (List ℕ) → Result (Cache (List ℕ))
  unfolding check_field
  parse_word count raw attributes =
      if ltb max_reply_words count
      then err reply_word_limit
      else if ltb max_word_size (length raw)
      then err word_limit
      else do
        _ ← check_field raw
        let next = add_attribute (decode raw) attributes
        if ltb (max_reply_words - 1) (length next) then err attribute_limit else ok next

  unfoldable pub parse_words : ℕ → List (List ℕ) → Cache (List ℕ) → Result (Cache (List ℕ))
  unfolding parse_word
  parse_words count [] attributes = ok attributes
  parse_words count (raw ∷ words) attributes = do
    next ← parse_word count raw attributes
    parse_words (count + 1) words next

  unfoldable pub parse_reply : List (List ℕ) → Result ParsedReply
  unfolding parse_words
  parse_reply [] = err no_reply_kind
  parse_reply ([] ∷ words) = err no_reply_kind
  parse_reply ((c ∷ first) ∷ words) =
      if not (c == 33)
      then err no_reply_kind
      else if ltb max_reply_kind_bytes (length (c ∷ first))
      then err kind_limit
      else do
        attributes ← parse_words 2 words []
        ok (record { kind = drop 1 (decode (c ∷ first)); attributes = attributes })
