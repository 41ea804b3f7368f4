-- ===== src/SessionStore/Revoke/Escape.antt =====
-- `create` against `revoke_account_sessions`: a login that is under way while its account is revoked.
use text.Mathlib.Text.{◌==◌ as str_eq}
use mikrotik_openvpn_gui.Common.{◌≡◌, ◌⊎◌, String, Bool, true, false, if◌then◌else◌}
use mikrotik_openvpn_gui.SessionStore.State.{Folding, SessionStore}
use mikrotik_openvpn_gui.SessionStore.Create.{Created, authorization_changed, limit_reached}
use mikrotik_openvpn_gui.SessionStore.Revoke.{Locks, revoke_account_sessions}

-- Where a revocation comes, seen from a login: before `create` is called, while `create` waits in
-- `purge`, or between its two guards.
pub data Moment : Type 0 where
  on_the_way in_purge before_commit : Moment

-- What other threads do at each moment.
abbrev pub Others : Type 0
Others = Moment → SessionStore → SessionStore

abbrev pub is_at : Moment → Moment → Bool
is_at on_the_way on_the_way = true
is_at in_purge in_purge = true
is_at before_commit before_commit = true
is_at _ _ = false

-- The revocation comes at `moment`, between what other threads do.
abbrev pub strike : (SessionStore → SessionStore) → Moment → Others → Others → Others
strike revoking moment before after at s =
    if is_at at moment then after at (revoking (before at s)) else before at s

-- What the login ends with: a login that is at its commit may also find that its account has all its
-- sessions.
abbrev pub EndsRefused : Moment → Created → Type 0
EndsRefused before_commit answer = (answer ≡ authorization_changed) ⊎ (answer ≡ limit_reached)
EndsRefused _ answer = answer ≡ authorization_changed

module _ (folding : Folding) where
  -- The store behind a revocation of the account.
  abbrev pub revoking :
      Locks
      → (SessionStore → SessionStore)
      → (SessionStore → SessionStore)
      → String
      → SessionStore
      → SessionStore
  revoking locks starting others username s =
      (revoke_account_sessions folding locks starting others false username s).1
