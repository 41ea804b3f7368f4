-- ===== src/SessionStore/State.antt =====
-- The state of `SessionStore`, its expiry test, and the bookkeeping that its operations share. A
-- clock reading is a number of ticks; session identifiers are not used again.
use mikrotik_openvpn_gui.Common.{
  ℕ, ◌+◌, ◌-◌, String, Bool, ◌||◌, Option, none, some, List, [], ◌∷◌, ltb, leb, ◌==◌, if◌then◌else◌,
}
use mikrotik_openvpn_gui.Common.Dict.{Dict, lookup, insert, erase, contains}

pub record Session : Type 0 where
  pub session_id : String
  pub username : String
  pub password : String
  pub csrf_token : String
  pub revocation_ref : String
  pub authorization_ref : String
  pub created_at : ℕ
  pub last_seen : ℕ
  pub created_monotonic : ℕ
  pub last_seen_monotonic : ℕ
  pub reauthenticated_at : ℕ
  pub role : String
  pub source_address : String
  pub user_agent : String
  pub auth_method : String

-- `casefold()`, and `strip().casefold()`, of a username.
pub record Folding : Type 0 where
  pub fold : String → String
  pub account_key : String → String

pub record SessionStore : Type 0 where
  pub idle_seconds : ℕ
  pub absolute_seconds : ℕ
  pub max_sessions_per_account : ℕ
  pub sessions : Dict Session
  pub revocation_sessions : Dict String
  pub role_checked : Dict ℕ
  pub invalidating : Dict ℕ
  pub invalidating_usernames : Dict ℕ
  pub generations : Dict ℕ
  pub pending_retries : Dict ℕ

-- `__init__`; `none` where it raises.
unfoldable pub new_store : ℕ → ℕ → ℕ → Option SessionStore
new_store idle absolute max_sessions =
    if max_sessions == 0
    then none
    else some (record {
      idle_seconds = idle;
      absolute_seconds = absolute;
      max_sessions_per_account = max_sessions;
      sessions = [];
      revocation_sessions = [];
      role_checked = [];
      invalidating = [];
      invalidating_usernames = [];
      generations = [];
      pending_retries = [];
    })

-- `counts.get(key, 0)`
abbrev pub count_of : String → Dict ℕ → ℕ
count_of k counts = elim (lookup k counts) [ none ↦ 0 | some n ↦ n ]

-- `_is_expired`; `now` is the wall clock, `ticks` the monotonic one.
unfoldable pub is_expired : ℕ → ℕ → Session → SessionStore → Bool
is_expired now ticks session s =
    leb (session.last_seen + s.idle_seconds) now
    || (leb (session.created_at + s.absolute_seconds) now
        || (leb (session.last_seen_monotonic + s.idle_seconds) ticks
            || leb (session.created_monotonic + s.absolute_seconds) ticks))

-- `_drop_session_locked`
unfoldable pub drop_session : String → SessionStore → SessionStore
drop_session sid s = elim (lookup sid s.sessions) [
  | none ↦ record s { role_checked = erase sid s.role_checked }
  | some session ↦ record s {
    sessions = erase sid s.sessions;
    revocation_sessions = erase session.revocation_ref s.revocation_sessions;
    role_checked = erase sid s.role_checked;
  }
]

unfoldable pub drop_sessions : List String → SessionStore → SessionStore
unfolding drop_session
drop_sessions [] s = s
drop_sessions (sid ∷ sids) s = drop_sessions sids (drop_session sid s)

abbrev pub count_up : String → Dict ℕ → Dict ℕ
count_up k counts = insert k (count_of k counts + 1) counts

-- A count that would come to 0 is removed.
abbrev pub count_down : String → Dict ℕ → Dict ℕ
count_down k counts =
    if leb (count_of k counts) 1 then erase k counts else insert k (count_of k counts - 1) counts

abbrev pub count_all_up : List String → Dict ℕ → Dict ℕ
count_all_up [] counts = counts
count_all_up (k ∷ names) counts = count_all_up names (count_up k counts)

abbrev pub count_all_down : List String → Dict ℕ → Dict ℕ
count_all_down [] counts = counts
count_all_down (k ∷ names) counts = count_all_down names (count_down k counts)

-- `_mark_invalidating_locked` and `_clear_invalidating_locked`
unfoldable pub mark_invalidating : List String → SessionStore → SessionStore
mark_invalidating sids s = record s { invalidating = count_all_up sids s.invalidating }

unfoldable pub clear_invalidating : List String → SessionStore → SessionStore
clear_invalidating sids s = record s { invalidating = count_all_down sids s.invalidating }

-- `_mark_account_invalidating_locked` and `_clear_account_invalidating_locked`
unfoldable pub mark_account : String → SessionStore → SessionStore
mark_account key s = record s {
  generations =
      if count_of key s.invalidating_usernames == 0
      then count_up key s.generations
      else s.generations;
  invalidating_usernames = count_up key s.invalidating_usernames;
}

unfoldable pub clear_account : String → SessionStore → SessionStore
clear_account key s = record s { invalidating_usernames = count_down key s.invalidating_usernames }

-- `_schedule_account_revocation_retry`, less the worker that it starts
unfoldable pub schedule_retry : String → SessionStore → SessionStore
schedule_retry key s = record s { pending_retries = count_up key s.pending_retries }

module _ (folding : Folding) where
  open folding use {fold, account_key}

  -- `_session_is_invalidating_locked`
  unfoldable pub is_invalidating : String → Session → SessionStore → Bool
  is_invalidating sid session s =
      contains sid s.invalidating
      || ltb 0 (count_of (fold session.username) s.invalidating_usernames)

  unfoldable pub account_revocation_generation : String → SessionStore → ℕ
  account_revocation_generation username s = count_of (account_key username) s.generations
