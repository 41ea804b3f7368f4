-- ===== src/SessionStore/Lookup.antt =====
-- `get`, `is_active_nonblocking`, `cached_role_session`, `active`, `purge` and
-- `dispatch_if_active_authorization_ref` of `SessionStore`.
pub mod Agreement
use text.Mathlib.Text.{◌==◌ as str_eq}
use mikrotik_openvpn_gui.Common.{
  ℕ, suc, ◌+◌, ◌-◌, String, Bool, true, false, not, ◌&&◌, ◌||◌, Option, none, some, List, [], ◌∷◌,
  ltb, leb, if◌then◌else◌,
}
use mikrotik_openvpn_gui.Common.Dict.{Dict, lookup, insert, erase, contains}
use mikrotik_openvpn_gui.SessionStore.State.{
  Session, Folding, SessionStore, is_expired, drop_session, drop_sessions, mark_invalidating,
  clear_invalidating, is_invalidating,
}

-- `touch`, where it is asked for.
unfoldable pub touched : Bool → ℕ → ℕ → Session → Session
touched touch now ticks session =
    if touch then record session { last_seen = now; last_seen_monotonic = ticks } else session

-- `0 <= elapsed < max(0, interval_seconds)`
unfoldable pub is_fresh : String → Session → ℕ → ℕ → SessionStore → Bool
is_fresh sid session interval ticks s =
    let checked : ℕ = elim (lookup sid s.role_checked) [
      | none ↦ session.created_monotonic
      | some at ↦ at
    ] in
    leb checked ticks && ltb ticks (checked + interval)

abbrev pub expired_ids : ℕ → ℕ → SessionStore → Dict Session → List String
expired_ids now ticks s [] = []
expired_ids now ticks s ((sid, session) ∷ d) =
    if is_expired now ticks session s
    then sid ∷ expired_ids now ticks s d
    else expired_ids now ticks s d

abbrev pub present : List String → Dict Session → List String
present [] d = []
present (sid ∷ sids) d = if contains sid d then sid ∷ present sids d else present sids d

-- `purge`: its result and the store. The order in which it drops sessions makes no difference.
unfoldable pub purge :
    (SessionStore → SessionStore) → ℕ → ℕ → SessionStore → List String × SessionStore
purge others now ticks s =
    let expired = expired_ids now ticks s s.sessions in
    let waited = others (mark_invalidating expired s) in
    let gone = present expired waited.sessions in
    (gone, clear_invalidating expired (drop_sessions gone waited))

module _ (folding : Folding) where
  -- The second look of `get`, with the session's delivery lock held.
  unfoldable pub get_locked : String → Bool → ℕ → ℕ → SessionStore → Option Session × SessionStore
  get_locked sid touch now ticks s = elim (lookup sid s.sessions) [
    | none ↦ (none, s)
    | some session ↦
        if is_invalidating folding sid session s
        then (none, s)
        else if is_expired now ticks session s
        then (none, drop_session sid s)
        else (
          some (touched touch now ticks session),
          record s { sessions = insert sid (touched touch now ticks session) s.sessions },
        )
  ]

  -- `get`: `acquired` is false where the call may not wait for a delivery lock that is taken;
  -- `others` is what happens to the store in the wait.
  unfoldable pub get :
      String
      → Bool
      → Bool
      → (SessionStore → SessionStore)
      → ℕ
      → ℕ
      → SessionStore
      → Option Session × SessionStore
  unfolding get_locked
  get sid touch acquired others now ticks s =
      if str_eq sid "" then (none, s) else elim (lookup sid s.sessions) [
        | none ↦ (none, s)
        | some session ↦
            if is_invalidating folding sid session s
            then (none, s)
            else if not (is_expired now ticks session s)
            then (
              some (touched touch now ticks session),
              record s { sessions = insert sid (touched touch now ticks session) s.sessions },
            )
            else if not acquired
            then (none, s)
            else get_locked sid touch now ticks (others s)
      ]

  -- `is_active_nonblocking`; `acquired` says whether the store's lock was free.
  unfoldable pub is_active_nonblocking : String → Bool → ℕ → ℕ → SessionStore → Bool
  is_active_nonblocking sid acquired now ticks s =
      if str_eq sid "" || not acquired then false else elim (lookup sid s.sessions) [
        | none ↦ false
        | some session ↦
            if is_invalidating folding sid session s
            then false
            else not (is_expired now ticks session s)
      ]

  -- `cached_role_session`; `busy` says whether another thread holds the session's delivery lock. The
  -- first component is false at a miss of the cache.
  unfoldable pub cached_role_session :
      String → Bool → ℕ → ℕ → ℕ → SessionStore → (Bool × Option Session) × SessionStore
  unfolding is_fresh
  cached_role_session sid busy interval now ticks s = elim (lookup sid s.sessions) [
    | none ↦ ((true, none), s)
    | some session ↦
        if is_invalidating folding sid session s
        then ((true, none), s)
        else if busy
        then ((false, none), s)
        else if is_expired now ticks session s
        then ((true, none), drop_session sid s)
        else if not (str_eq session.auth_method "routeros")
        then ((true, some session), s)
        else if is_fresh sid session interval ticks s
        then ((true, some session), s)
        else ((false, none), s)
  ]

  abbrev pub active_sessions : SessionStore → Dict Session → List Session
  active_sessions s [] = []
  active_sessions s ((sid, session) ∷ d) =
      if is_invalidating folding sid session s
      then active_sessions s d
      else session ∷ active_sessions s d

  unfoldable pub active :
      (SessionStore → SessionStore) → ℕ → ℕ → SessionStore → List Session × SessionStore
  unfolding purge
  active others now ticks s =
      let swept = (purge others now ticks s).1 in (active_sessions swept swept.sessions, swept)

  -- The loop of `dispatch_if_active_authorization_ref`, over the sessions that are left of it.
  unfoldable pub dispatch_loop : String → ℕ → ℕ → Dict Session → SessionStore → Bool × SessionStore
  dispatch_loop reference now ticks [] s = (false, s)
  dispatch_loop reference now ticks ((sid, session) ∷ d) s =
      let rest = dispatch_loop reference now ticks d s in
      if str_eq session.auth_method "routeros" && str_eq session.authorization_ref reference
      then (if is_invalidating folding sid session s
          then (false, s)
          else if is_expired now ticks session s
          then (false, drop_session sid s)
          else (true, s))
      else rest

  -- True where it dispatches.
  unfoldable pub dispatch_if_active : String → ℕ → ℕ → SessionStore → Bool × SessionStore
  unfolding dispatch_loop
  dispatch_if_active reference now ticks s =
      if str_eq reference "" then (false, s) else dispatch_loop reference now ticks s.sessions s
