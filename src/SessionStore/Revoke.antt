-- ===== src/SessionStore/Revoke.antt =====
-- The ways in which `SessionStore` revokes sessions: `destroy`, `revoke`, `revoke_by_reference`,
-- `revoke_account_sessions`, `revoke_account_sessions_except` and `revoke_all_except`.
pub mod Complete
pub mod Watched
pub mod Escape
use text.Mathlib.Text.{◌==◌ as str_eq}
use mikrotik_openvpn_gui.Common.{
  ℕ, suc, String, Bool, true, false, not, ◌&&◌, ◌||◌, Option, none, some, List, [], ◌∷◌,
  if◌then◌else◌, length,
}
use mikrotik_openvpn_gui.Common.Dict.{Dict, lookup, contains}
use mikrotik_openvpn_gui.SessionStore.State.{
  Session, Folding, SessionStore, drop_session, drop_sessions, mark_invalidating,
  clear_invalidating, mark_account, clear_account, schedule_retry, is_invalidating,
}
use mikrotik_openvpn_gui.SessionStore.Lookup.{present}

-- Which locks `revoke_account_sessions` gets: a caller on the event loop does not wait for the lock on
-- the set of sessions, nor for the delivery locks.
pub data Locks : Type 0 where
  all_acquired set_taken checks_taken : Locks

-- `revoke`, and `destroy` without its result: the session is denied while the call waits.
unfoldable pub revoke : (SessionStore → SessionStore) → String → SessionStore → Bool × SessionStore
revoke others sid s =
    if not (contains sid s.sessions)
    then (false, s)
    else let waited = others (mark_invalidating (sid ∷ []) s) in
      (contains sid waited.sessions, clear_invalidating (sid ∷ []) (drop_session sid waited))

unfoldable pub destroy : (SessionStore → SessionStore) → String → SessionStore → SessionStore
unfolding revoke
destroy others sid s = (revoke others sid s).1

unfoldable pub revoke_by_reference :
    (SessionStore → SessionStore)
    → (SessionStore → SessionStore)
    → String
    → SessionStore
    → Bool × SessionStore
revoke_by_reference between others reference s =
    if str_eq reference "" then (false, s) else elim (lookup reference s.revocation_sessions) [
      | none ↦ (false, s)
      | some sid ↦ if str_eq sid "" then (false, s) else revoke others sid (between s)
    ]

-- `revoke_all_except`
abbrev pub other_ids : String → Dict Session → List String
other_ids sid [] = []
other_ids sid ((k, _) ∷ d) = if str_eq k sid then other_ids sid d else k ∷ other_ids sid d

unfoldable pub sweep : (SessionStore → SessionStore) → List String → SessionStore → ℕ × SessionStore
sweep others candidates s =
    let waited = others (mark_invalidating candidates s) in
    let gone = present candidates waited.sessions in
    (length gone, clear_invalidating candidates (drop_sessions gone waited))

unfoldable pub revoke_all_except :
    (SessionStore → SessionStore) → String → SessionStore → ℕ × SessionStore
unfolding sweep
revoke_all_except others sid s = sweep others (other_ids sid s.sessions) s

module _ (folding : Folding) where
  open folding use {fold, account_key}

  -- A session of the account that RouterOS vouches for.
  abbrev pub is_account_session : String → Session → Bool
  is_account_session key session =
      str_eq session.auth_method "routeros" && str_eq (fold session.username) key

  abbrev pub account_ids : String → Dict Session → List String
  account_ids key [] = []
  account_ids key ((sid, session) ∷ d) =
      if is_account_session key session then sid ∷ account_ids key d else account_ids key d

  -- The sweep of `revoke_account_sessions`: the account was marked before. The sessions are taken
  -- anew after the wait. Where a lock is not acquired, a retry is queued, and the account stays marked.
  unfoldable pub sweep_account :
      Locks → (SessionStore → SessionStore) → String → SessionStore → Option ℕ × SessionStore
  sweep_account set_taken others key s = (none, schedule_retry key s)
  sweep_account checks_taken others key s =
      let candidates = account_ids key s.sessions in
      (none, clear_invalidating candidates (schedule_retry key (mark_invalidating candidates s)))
  sweep_account all_acquired others key s =
      let candidates = account_ids key s.sessions in
      let waited = others (mark_invalidating candidates s) in
      let current = account_ids key waited.sessions in
      (
        some (length current),
        clear_account key (clear_invalidating candidates (drop_sessions current waited)),
      )

  -- `revoke_account_sessions`; `starting` is what happens in the wait for the lock on the set of
  -- sessions, and `marked` says whether the caller marked the account.
  unfoldable pub revoke_account_sessions :
      Locks
      → (SessionStore → SessionStore)
      → (SessionStore → SessionStore)
      → Bool
      → String
      → SessionStore
      → Option ℕ × SessionStore
  unfolding sweep_account
  revoke_account_sessions locks starting others marked username s =
      let key = account_key username in
      if str_eq key ""
      then (some 0, s)
      else sweep_account locks others key (starting (if marked then s else mark_account key s))

  abbrev pub account_ids_except : String → String → Dict Session → List String
  account_ids_except key keep [] = []
  account_ids_except key keep ((sid, session) ∷ d) =
      if not (str_eq sid keep) && is_account_session key session
      then sid ∷ account_ids_except key keep d
      else account_ids_except key keep d

  -- `revoke_account_sessions_except`; `none` where the caller's own session does not hold.
  unfoldable pub revoke_account_sessions_except :
      (SessionStore → SessionStore) → String → String → SessionStore → Option ℕ × SessionStore
  revoke_account_sessions_except others username keep s =
      let key = account_key username in
      if str_eq key "" || str_eq keep "" then (some 0, s) else elim (lookup keep s.sessions) [
        | none ↦ (none, s)
        | some caller ↦
            if not (is_account_session key caller) || is_invalidating folding keep caller s
            then (none, s)
            else let swept = sweep others (account_ids_except key keep s.sessions) s in
              (some swept.0, swept.1)
      ]
