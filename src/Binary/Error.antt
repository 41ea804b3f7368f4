-- ===== src/Binary/Error.antt =====
-- The exceptions of routeros_binary.py, one constructor for each message that it raises, and the
-- results of functions that may raise them.
use mikrotik_openvpn_gui.Common.{Bool, true, false, ◌≡◌, refl, ◌⊎◌, inl, inr}

pub data BinaryError : Type 0 where
  negative_length length_too_large : BinaryError
  truncated_length truncated_two_byte truncated_three_byte : BinaryError
  truncated_four_byte truncated_five_byte reserved_prefix : BinaryError
  data_after_terminator truncated_word missing_terminator word_limit : BinaryError
  no_reply_kind kind_limit reply_word_limit : BinaryError
  field_name_limit field_value_limit attribute_limit : BinaryError
  response_limit sentence_word_limit reader_limits : BinaryError
  reply_limit response_word_limit tag_mismatch rejected : BinaryError
  path_without_slash path_not_allowed query_not_allowed : BinaryError
  not_open closed_by_router closed_meanwhile legacy_challenge : BinaryError
  receive_failed send_failed dial_failed : BinaryError

-- `str(error).startswith("truncated")`
abbrev pub is_truncated : BinaryError → Bool
is_truncated BinaryError.truncated_length = true
is_truncated BinaryError.truncated_two_byte = true
is_truncated BinaryError.truncated_three_byte = true
is_truncated BinaryError.truncated_four_byte = true
is_truncated BinaryError.truncated_five_byte = true
is_truncated BinaryError.truncated_word = true
is_truncated _ = false

pub data Result {ℓ} (A : Type ℓ) : Type ℓ where
  ok : A → Result A
  err : BinaryError → Result A

infixl 5 ◌>>=◌
abbrev pub ◌>>=◌ {ℓ κ} : {A : Type ℓ} {B : Type κ} → Result A → (A → Result B) → Result B
ok a >>= f = f a
err e >>= f = err e

pub Result-cases {ℓ} :
    {A : Type ℓ} (r : Result A) → ((a : A) × (r ≡ ok a)) ⊎ ((e : BinaryError) × (r ≡ err e))
Result-cases (ok a) = inl (a, refl)
Result-cases (err e) = inr (e, refl)
