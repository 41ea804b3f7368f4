-- ===== src/SessionStore/Roles.antt =====
-- `revalidate_role` of `SessionStore`.
pub mod Below
pub mod Growth
use text.Mathlib.Text.{◌==◌ as str_eq}
use mikrotik_openvpn_gui.Common.{
  ℕ, String, Bool, true, false, not, ◌&&◌, ◌||◌, Option, none, some, List, [], ◌∷◌, if◌then◌else◌,
}
use mikrotik_openvpn_gui.Common.Dict.{lookup, insert, contains}
use mikrotik_openvpn_gui.Gateway.Limits.{among}
use mikrotik_openvpn_gui.Gateway.Principal.{normalize_role, role_capabilities}
use mikrotik_openvpn_gui.SessionStore.State.{
  Session, Folding, SessionStore, drop_session, mark_account, is_invalidating,
}
use mikrotik_openvpn_gui.SessionStore.Lookup.{get, get_locked, is_fresh}
use mikrotik_openvpn_gui.SessionStore.Revoke.{Locks, revoke_account_sessions}

-- `left <= right` of two sets
abbrev pub is_subset : List String → List String → Bool
is_subset [] right = true
is_subset (x ∷ left) right = among x right && is_subset left right

-- `_role_is_subset`
unfoldable pub role_is_subset : String → String → Bool
role_is_subset left right =
    let lower = role_capabilities left in
    let upper = role_capabilities right in
    among "*" upper || (not (among "*" lower) && is_subset lower upper)

-- What the resolver answers: an exception, no such account, or its role.
pub data Resolved : Type 0 where
  unverified missing : Resolved
  resolved : String → Resolved

-- The role that a session is left with, or `none` where it must go.
unfoldable pub settled_role : String → String → Option String
settled_role current found =
    let now = normalize_role current in
    let next = normalize_role found in
    if role_is_subset next now
    then some next
    else if not (role_is_subset now next)
    then none
    else some current

module _ (folding : Folding) where
  -- The end of `revalidate_role`, of a session that is still there: its new role is written before
  -- the last look at the store.
  unfoldable pub apply_role :
      (SessionStore → SessionStore)
      → String
      → String
      → ℕ
      → Session
      → SessionStore
      → Option Session × SessionStore
  apply_role between sid found ticks session s = elim (settled_role session.role found) [
    | none ↦ (none, drop_session sid s)
    | some role ↦
        let session' : Session = record session { role = role } in
        let stored : SessionStore =
          between (record s { sessions = insert sid session' s.sessions }) in
        if not (contains sid stored.sessions) || is_invalidating folding sid session' stored
        then (none, stored)
        else (some session', record stored { role_checked = insert sid ticks stored.role_checked })
  ]

  -- What follows the resolver's answer.
  unfoldable pub resolve_role :
      Locks
      → (SessionStore → SessionStore)
      → String
      → Resolved
      → ℕ
      → ℕ
      → SessionStore
      → Option Session × SessionStore
  unfolding apply_role
  resolve_role locks between sid unverified now ticks s = (none, drop_session sid s)
  resolve_role locks between sid missing now ticks s =
      let looked = get_locked folding sid false now ticks s in
      elim looked.0 [
        | none ↦ (none, looked.1)
        | some session ↦
            let key = folding.fold session.username in
            (
              none,
              (revoke_account_sessions folding locks (λ x. x) between true key
                  (mark_account key looked.1)).1,
            )
      ]
  resolve_role locks between sid (resolved found) now ticks s =
      let looked = get_locked folding sid false now ticks s in
      elim looked.0 [
        | none ↦ (none, looked.1)
        | some session ↦ apply_role between sid found ticks session looked.1
      ]

  -- The part that runs with the session's delivery lock held.
  unfoldable pub revalidate_locked :
      Locks
      → (SessionStore → SessionStore)
      → (SessionStore → SessionStore)
      → String
      → (Session → Resolved)
      → ℕ
      → ℕ
      → ℕ
      → SessionStore
      → Option Session × SessionStore
  unfolding resolve_role
  revalidate_locked locks resolving between sid resolver interval now ticks s =
      let looked = get_locked folding sid false now ticks s in
      elim looked.0 [
        | none ↦ (none, looked.1)
        | some session ↦
            if not (str_eq session.auth_method "routeros")
            then (some session, looked.1)
            else if is_fresh sid session interval ticks looked.1
            then (some session, looked.1)
            else resolve_role locks between sid (resolver session) now ticks (resolving looked.1)
      ]

  -- `revalidate_role`; `busy` says whether another thread holds the delivery lock, and `locks`
  -- which locks a revocation of the account gets.
  unfoldable pub revalidate_role :
      Locks
      → (SessionStore → SessionStore)
      → (SessionStore → SessionStore)
      → (SessionStore → SessionStore)
      → Bool
      → String
      → (Session → Resolved)
      → ℕ
      → ℕ
      → ℕ
      → SessionStore
      → Option Session × SessionStore
  unfolding revalidate_locked
  revalidate_role locks waiting resolving between busy sid resolver interval now ticks s =
      let looked = get folding sid false true waiting now ticks s in
      elim looked.0 [
        | none ↦ (none, looked.1)
        | some session ↦
            if not (str_eq session.auth_method "routeros")
            then (some session, looked.1)
            else if is_fresh sid session interval ticks looked.1 && not busy
            then (some session, looked.1)
            else revalidate_locked locks resolving between sid resolver interval now ticks
                (waiting looked.1)
      ]
