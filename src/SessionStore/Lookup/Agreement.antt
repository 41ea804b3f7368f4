-- ===== src/SessionStore/Lookup/Agreement.antt =====
-- The three ways to ask whether a session holds give the same answer.
use text.Mathlib.Text.{◌==◌ as str_eq}
use mikrotik_openvpn_gui.Common.{
  ℕ, ◌≡◌, inl, inr, String, Bool, true, false, Option, none, some, arith, if◌then◌else◌,
  Option-cases,
}
use mikrotik_openvpn_gui.Common.Dict.{lookup}
use mikrotik_openvpn_gui.SessionStore.State.{Folding, SessionStore}
use mikrotik_openvpn_gui.SessionStore.Lookup.{
  touched, get_locked, get, is_active_nonblocking, cached_role_session,
}

abbrev pub is_some {ℓ} : {A : Type ℓ} → Option A → Bool
is_some none = false
is_some (some _) = true

module _ (folding : Folding) where
  -- With no one else at work, `get` finds a session exactly when `is_active_nonblocking` says that it
  -- is active; and where the delivery lock is free, `cached_role_session` answers that there is none
  -- exactly when it is not active.
  pub get-is_active :
      (sid : String) (touch : Bool) (interval now ticks : ℕ) (s : SessionStore)
      → str_eq sid "" ≡ false
      → let live = is_active_nonblocking folding sid true now ticks s in
        let cached = (cached_role_session folding sid false interval now ticks s).0 in
        (is_some (get folding sid touch true (λ x. x) now ticks s).0 ≡ live)
        × ((if cached.0 then is_some cached.1 else live) ≡ live)
  unfolding get get_locked is_active_nonblocking cached_role_session touched
  get-is_active sid touch interval now ticks s named = elim (Option-cases (lookup sid s.sessions)) [
    | inl e ↦ ground (arith, e)
    | inr (session, e) ↦ ground (arith, e)
  ]
