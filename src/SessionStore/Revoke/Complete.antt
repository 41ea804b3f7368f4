-- ===== src/SessionStore/Revoke/Complete.antt =====
-- A revocation leaves no session of the account behind, or the account denied and a retry queued.
use text.Mathlib.Text.{◌==◌ as str_eq}
use text.Mathlib.TextEquality.{eq_iff}
use mikrotik_openvpn_gui.Common.{
  ℕ, ◌+◌, ◌<◌, ◌≢◌, Option, some, ◌≡◌, refl, ap, ◌∙◌, String, Bool, true, false, ◌&&◌, none, List,
  [], ◌∷◌, arith, if◌then◌else◌,
}
use mikrotik_openvpn_gui.Common.Dict.{Dict, lookup, erase, lookup-insert}
use mikrotik_openvpn_gui.Gateway.Limits.{among}
use mikrotik_openvpn_gui.SessionStore.State.{
  Session, Folding, SessionStore, drop_session, drop_sessions, clear_account, clear_invalidating,
  mark_account, mark_invalidating, count_of, count_up, schedule_retry, is_invalidating,
}
use mikrotik_openvpn_gui.SessionStore.Revoke.{
  Locks, all_acquired, set_taken, checks_taken, is_account_session, account_ids, sweep_account,
  revoke_account_sessions,
}

abbrev without_id : String → List String → List String
without_id k [] = []
without_id k (x ∷ xs) = if str_eq x k then without_id k xs else x ∷ without_id k xs

abbrev without_ids : List String → List String → List String
without_ids [] xs = xs
without_ids (k ∷ ks) xs = without_ids ks (without_id k xs)

unfoldable pub erase_all : List String → Dict Session → Dict Session
erase_all [] d = d
erase_all (k ∷ ks) d = erase_all ks (erase k d)

erase_absent : (k : String) (d : Dict Session) → lookup k d ≡ none → erase k d ≡ d
erase_absent k [] h = refl
erase_absent k ((j, v) ∷ d) h = ground (arith, erase_absent k d)

drop_session-sessions :
    (sid : String) (s : SessionStore) → (drop_session sid s).sessions ≡ erase sid s.sessions
unfolding drop_session
drop_session-sessions sid s = ground (arith, erase_absent sid s.sessions)

pub drop_sessions-sessions :
    (sids : List String) (s : SessionStore)
    → (drop_sessions sids s).sessions ≡ erase_all sids s.sessions
unfolding drop_sessions erase_all
drop_sessions-sessions [] s = refl
drop_sessions-sessions (sid ∷ sids) s =
    drop_sessions-sessions sids (drop_session sid s)
    ∙ ap (erase_all sids) (drop_session-sessions sid s)

-- Every name of `xs` is one of `ks`.
abbrev covers : List String → List String → Bool
covers ks [] = true
covers ks (x ∷ xs) = among x ks && covers ks xs

covers-without_id :
    (k : String) (ks xs : List String)
    → covers (k ∷ ks) xs ≡ true
    → covers ks (without_id k xs) ≡ true
covers-without_id k ks [] h = refl
covers-without_id k ks (x ∷ xs) h =
    ground (arith, eq_iff x k, eq_iff k x, covers-without_id k ks xs)

without_ids-covers : (ks xs : List String) → covers ks xs ≡ true → without_ids ks xs ≡ []
without_ids-covers [] [] h = refl
without_ids-covers [] (x ∷ xs) h = cc
without_ids-covers (k ∷ ks) xs h =
    without_ids-covers ks (without_id k xs) (covers-without_id k ks xs h)

covers-more : (k : String) (ks xs : List String) → covers ks xs ≡ true → covers (k ∷ ks) xs ≡ true
covers-more k ks [] h = refl
covers-more k ks (x ∷ xs) h = ground (arith, covers-more k ks xs)

covers_refl : (xs : List String) → covers xs xs ≡ true
covers_refl [] = refl
covers_refl (x ∷ xs) = ground (arith, eq_iff x x, covers-more x xs xs (covers_refl xs))

module _ (folding : Folding) where
  account_ids-erase :
      (key k : String) (d : Dict Session)
      → account_ids folding key (erase k d) ≡ without_id k (account_ids folding key d)
  account_ids-erase key k [] = refl
  account_ids-erase key k ((j, v) ∷ d) = ground (arith, account_ids-erase key k d)

  account_ids-erase_all :
      (key : String) (ks : List String) (d : Dict Session)
      → account_ids folding key (erase_all ks d) ≡ without_ids ks (account_ids folding key d)
  unfolding erase_all
  account_ids-erase_all key [] d = refl
  account_ids-erase_all key (k ∷ ks) d =
      account_ids-erase_all key ks (erase k d) ∙ ap (without_ids ks) (account_ids-erase key k d)

  -- Every session of the account is denied.
  abbrev pub IsDenied : String → SessionStore → Type 0
  IsDenied key s =
      (sid : String) (session : Session)
      → is_account_session folding key session ≡ true
      → is_invalidating folding sid session s ≡ true

  -- A revocation that has a result left no session of the account. One that has none did not get its
  -- locks: the account stays marked, its sessions are denied, and a retry is queued.
  abbrev pub Revokes : Locks → String → Option ℕ × SessionStore → Type 0
  Revokes locks key (some n, s) = account_ids folding key s.sessions ≡ []
  Revokes locks key (none, s) =
      (locks ≢ all_acquired)
      × (0 < count_of key s.invalidating_usernames)
      × IsDenied key s
      × (0 < count_of key s.pending_retries)

  marked-IsDenied :
      (key : String) (s : SessionStore) → 0 < count_of key s.invalidating_usernames → IsDenied key s
  unfolding is_invalidating
  marked-IsDenied key s h sid session e =
      ground (arith, h, e, eq_iff (folding.fold session.username) key)

  count_up-lt : (key : String) (counts : Dict ℕ) → 0 < count_of key (count_up key counts)
  count_up-lt key counts =
      ground (arith, eq_iff key key, lookup-insert key key (count_of key counts + 1) counts)

  sweep_account-Revokes :
      (locks : Locks) (others : SessionStore → SessionStore) (key : String) (s : SessionStore)
      → 0 < count_of key s.invalidating_usernames
      → Revokes locks key (sweep_account folding locks others key s)
  unfolding sweep_account clear_account clear_invalidating mark_invalidating schedule_retry
  sweep_account-Revokes set_taken others key s h =
      (λ p. cc, h, marked-IsDenied key _ h, count_up-lt key s.pending_retries)
  sweep_account-Revokes checks_taken others key s h =
      (λ p. cc, h, marked-IsDenied key _ h, count_up-lt key s.pending_retries)
  sweep_account-Revokes all_acquired others key s h =
      let waited = others (mark_invalidating (account_ids folding key s.sessions) s) in
      let current = account_ids folding key waited.sessions in
      ap (account_ids folding key) (drop_sessions-sessions current waited)
      ∙ account_ids-erase_all key current waited.sessions
      ∙ without_ids-covers current current (covers_refl current)

  -- Other threads take no mark of the account away but their own.
  abbrev pub KeepsMark : String → (SessionStore → SessionStore) → Type 0
  KeepsMark key starting =
      (s : SessionStore)
      → 0 < count_of key s.invalidating_usernames
      → 0 < count_of key (starting s).invalidating_usernames

  marked_lem :
      (key : String) (marked : Bool) (s : SessionStore)
      → (marked ≡ true → 0 < count_of key s.invalidating_usernames)
      → 0 < count_of key (if marked then s else mark_account key s).invalidating_usernames
  unfolding mark_account
  marked_lem key true s h = h refl
  marked_lem key false s h = count_up-lt key s.invalidating_usernames

  -- A revocation of an account that returns a number leaves no session of that account that RouterOS
  -- vouches for, whatever other threads did while it waited. It returns none only where it does not get
  -- its locks: then the account stays marked, each of its sessions is denied, and a retry is queued, if
  -- the account was marked where the caller says so and other threads leave a mark there.
  pub revoke_account_sessions-Revokes :
      (locks : Locks) (starting others : SessionStore → SessionStore) (marked : Bool)
      (username : String) (s : SessionStore)
      → str_eq (folding.account_key username) "" ≡ false
      → (marked ≡ true → 0 < count_of (folding.account_key username) s.invalidating_usernames)
      → KeepsMark (folding.account_key username) starting
      → Revokes locks
          (folding.account_key username)
          (revoke_account_sessions folding locks starting others marked username s)
  unfolding revoke_account_sessions
  revoke_account_sessions-Revokes locks starting others marked username s named told keeps =
      let key = folding.account_key username in
      rw (named, revoke_account_sessions)
        (sweep_account-Revokes locks others key
          (starting (if marked then s else mark_account key s))
          (keeps _ (marked_lem key marked s told)))
