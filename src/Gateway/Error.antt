-- ===== src/Gateway/Error.antt =====
-- The exceptions of telemetry_gateway.py, one constructor for each message.
use mikrotik_openvpn_gui.Common.{◌≡◌, refl, ◌⊎◌, inl, inr}

pub data GatewayError : Type 0 where
  text_type text_limit text_encoding counter_invalid number_type number_limit : GatewayError
  sequence_invalid flag_type unsupported_event session_limit interface_limit : GatewayError
  reset_scope reset_fields not_serializable frame_limit replay_budget : GatewayError
  unauthorized client_limit not_active : GatewayError

pub data Outcome {ℓ} (A : Type ℓ) : Type ℓ where
  ok : A → Outcome A
  err : GatewayError → Outcome A

infixl 5 ◌>>=◌
abbrev pub ◌>>=◌ {ℓ κ} : {A : Type ℓ} {B : Type κ} → Outcome A → (A → Outcome B) → Outcome B
ok a >>= f = f a
err e >>= f = err e

pub Outcome-cases {ℓ} :
    {A : Type ℓ} (r : Outcome A) → ((a : A) × (r ≡ ok a)) ⊎ ((e : GatewayError) × (r ≡ err e))
Outcome-cases (err e) = inr (e, refl)
Outcome-cases (ok a) = inl (a, refl)
