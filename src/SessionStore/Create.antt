-- ===== src/SessionStore/Create.antt =====
-- `create` and `rotate` of `SessionStore`. The new identifiers and tokens are those of a session that
-- the caller gives; what `before_commit` and other threads do before the commit is `others`.
pub mod Capacity
use text.Mathlib.Text.{◌==◌ as str_eq}
use mikrotik_openvpn_gui.Common.{
  ℕ, suc, ◌+◌, ◌-◌, String, Bool, true, false, not, ◌&&◌, ◌||◌, Option, none, some, List, [], ◌∷◌,
  ltb, leb, ◌==◌, if◌then◌else◌,
}
use mikrotik_openvpn_gui.Common.Dict.{Dict, lookup, insert, contains}
use mikrotik_openvpn_gui.Gateway.Principal.{normalize_role}
use mikrotik_openvpn_gui.SessionStore.State.{
  Session, Folding, SessionStore, count_of, is_expired, drop_session, mark_invalidating,
  clear_invalidating,
}
use mikrotik_openvpn_gui.SessionStore.Lookup.{purge}

-- What `create` ends with.
pub data Created : Type 0 where
  created : Session → Created
  authorization_changed limit_reached : Created

-- What a caller gives, the user agent cut to 256 characters, and the random texts that are drawn.
pub record Login : Type 0 where
  pub username : String
  pub password : String
  pub role : String
  pub source_address : String
  pub user_agent : String
  pub session_id : String
  pub csrf_token : String
  pub revocation_ref : String
  pub authorization_ref : String

-- `Session(…)`: the role is normalized, and all clocks start now.
unfoldable pub new_session : Login → ℕ → ℕ → Session
new_session login now ticks = record {
  session_id = login.session_id;
  username = login.username;
  password = login.password;
  csrf_token = login.csrf_token;
  revocation_ref = login.revocation_ref;
  authorization_ref = login.authorization_ref;
  created_at = now;
  last_seen = now;
  created_monotonic = ticks;
  last_seen_monotonic = ticks;
  reauthenticated_at = now;
  role = normalize_role login.role;
  source_address = login.source_address;
  user_agent = login.user_agent;
  auth_method = "routeros";
}

module _ (folding : Folding) where
  open folding use {fold, account_key}

  -- `sum(existing.username.casefold() == username.casefold() for …)`
  abbrev pub account_sessions : String → Dict Session → ℕ
  account_sessions folded [] = 0
  account_sessions folded ((_, session) ∷ d) =
      if str_eq (fold session.username) folded
      then suc (account_sessions folded d)
      else account_sessions folded d

  -- The guard against a login whose account was revoked in the meantime.
  abbrev pub is_changed : String → Option ℕ → SessionStore → Bool
  is_changed key expected s = ltb 0 (count_of key s.invalidating_usernames) || elim expected [
    | none ↦ false
    | some generation ↦ not (count_of key s.generations == generation)
  ]

  -- Installs a session in all three tables.
  unfoldable pub install : Session → ℕ → SessionStore → SessionStore
  install session ticks s = record s {
    sessions = insert session.session_id session s.sessions;
    revocation_sessions = insert session.revocation_ref session.session_id s.revocation_sessions;
    role_checked = insert session.session_id ticks s.role_checked;
  }

  -- The guards, which `create` runs twice.
  unfoldable pub create_guard : String → Option ℕ → SessionStore → Option Created
  create_guard username expected s =
      if is_changed (account_key username) expected s
      then some authorization_changed
      else if leb s.max_sessions_per_account (account_sessions (fold username) s.sessions)
      then some limit_reached
      else none

  unfoldable pub create :
      (SessionStore → SessionStore)
      → (SessionStore → SessionStore)
      → Login
      → Option ℕ
      → ℕ
      → ℕ
      → SessionStore
      → Created × SessionStore
  unfolding create_guard
  create purging others login expected now ticks s =
      let swept = (purge purging now ticks s).1 in
      elim (create_guard login.username expected swept) [
        | some refused ↦ (refused, swept)
        | none ↦
            let later = others swept in
            elim (create_guard login.username expected later) [
              | some refused ↦ (refused, later)
              | none ↦
                  let session = new_session login now ticks in
                  (created session, install session ticks later)
            ]
      ]

  -- `existing` of `rotate`, under the store's lock.
  unfoldable pub rotate_existing : String → ℕ → ℕ → SessionStore → Option Session × SessionStore
  rotate_existing sid now ticks s = elim (lookup sid s.sessions) [
    | none ↦ (none, s)
    | some existing ↦
        if ltb 0 (count_of (account_key existing.username) s.invalidating_usernames)
        then (none, s)
        else if is_expired now ticks existing s
        then (none, drop_session sid s)
        else (some existing, s)
  ]

  -- The commit of `rotate`. A session that is still there under its identifier is the same object.
  unfoldable pub rotate_commit :
      String → Session → Session → ℕ → SessionStore → Option Session × SessionStore
  unfolding install
  rotate_commit sid existing replacement ticks s =
      if not (contains sid s.sessions)
        || (ltb 1 (count_of sid s.invalidating)
            || ltb 0 (count_of (account_key existing.username) s.invalidating_usernames))
      then (none, s)
      else (some replacement, install replacement ticks (drop_session sid s))

  -- The replacement has the username and the addresses of the session that it stands for.
  abbrev pub replacing : Session → Login → Login
  replacing existing login = record login {
    username = existing.username;
    source_address = existing.source_address;
    user_agent = existing.user_agent;
  }

  -- `rotate`: `waiting` is what happens in the wait for the delivery lock.
  unfoldable pub rotate :
      (SessionStore → SessionStore)
      → (SessionStore → SessionStore)
      → String
      → Login
      → ℕ
      → ℕ
      → SessionStore
      → Option Session × SessionStore
  unfolding rotate_existing rotate_commit
  rotate waiting others sid login now ticks s =
      let none_routeros : Bool = elim (lookup sid s.sessions) [
        | none ↦ true
        | some session ↦ not (str_eq session.auth_method "routeros")
      ] in
      if str_eq sid "" || none_routeros
      then (none, s)
      else let looked = rotate_existing sid now ticks (waiting (mark_invalidating (sid ∷ []) s)) in
        let ended : Option Session × SessionStore = elim looked.0 [
          | none ↦ (none, looked.1)
          | some existing ↦
              rotate_commit sid existing (new_session (replacing existing login) now ticks) ticks
                (others looked.1)
        ] in
        (ended.0, clear_invalidating (sid ∷ []) ended.1)
