-- ===== src/SessionStore/Create/Capacity.antt =====
-- No account has more sessions than the limit.
use text.Mathlib.Text.{◌==◌ as str_eq}
use text.Mathlib.TextEquality.{eq_iff}
use mikrotik_openvpn_gui.Common.{
  ℕ, ◌+◌, ◌≤◌, ◌≡◌, inl, inr, ap, String, true, not, ◌||◌, Option, none, some, List, [], ◌∷◌, arith,
  if◌then◌else◌, Bool-cases, Option-cases, ltb,
}
use mikrotik_openvpn_gui.Common.Dict.{Dict, lookup, insert, erase, contains, contains-lookup}
use mikrotik_openvpn_gui.SessionStore.State.{
  Session, Folding, SessionStore, count_of, is_expired, drop_session, drop_sessions,
  mark_invalidating, clear_invalidating,
}
use mikrotik_openvpn_gui.SessionStore.Lookup.{purge, present, expired_ids}
use mikrotik_openvpn_gui.SessionStore.Create.{
  Login, new_session, account_sessions, install, create_guard, create, rotate_existing,
  rotate_commit, replacing, rotate,
}

module _ (folding : Folding) where
  open folding use {fold}

  account_sessions-insert :
      (sid name : String) (session : Session) (d : Dict Session)
      → account_sessions folding name (insert sid session d)
        ≤ account_sessions folding name d + (if str_eq (fold session.username) name then 1 else 0)
  account_sessions-insert sid name session [] = ground arith
  account_sessions-insert sid name session ((k, v) ∷ d) =
      ground (arith, account_sessions-insert sid name session d)

  account_sessions-erase :
      (sid name : String) (d : Dict Session)
      → account_sessions folding name (erase sid d) ≤ account_sessions folding name d
  account_sessions-erase sid name [] = omega arith
  account_sessions-erase sid name ((k, v) ∷ d) = ground (arith, account_sessions-erase sid name d)

  -- A session that goes makes room for one of its account.
  account_sessions-erase_found :
      (sid : String) (session : Session) (d : Dict Session)
      → lookup sid d ≡ some session
      → account_sessions folding (fold session.username) (erase sid d) + 1
        ≤ account_sessions folding (fold session.username) d
  account_sessions-erase_found sid session [] h = cc
  account_sessions-erase_found sid session ((k, v) ∷ d) h = ground (
    arith,
    account_sessions-erase sid (fold session.username) d,
    account_sessions-erase_found sid session d,
    eq_iff (fold v.username) (fold session.username),
  )

  -- No account has more sessions than the limit.
  abbrev pub IsCapped : SessionStore → Type 0
  IsCapped s =
      (name : String) → account_sessions folding name s.sessions ≤ s.max_sessions_per_account

  abbrev pub KeepsCapped : (SessionStore → SessionStore) → Type 0
  KeepsCapped others = (s : SessionStore) → IsCapped s → IsCapped (others s)

  drop_session-IsCapped :
      (sid : String) (s : SessionStore) → IsCapped s → IsCapped (drop_session sid s)
  unfolding drop_session
  drop_session-IsCapped sid s h name =
      ground (arith, h name, account_sessions-erase sid name s.sessions)

  drop_sessions-IsCapped :
      (sids : List String) (s : SessionStore) → IsCapped s → IsCapped (drop_sessions sids s)
  unfolding drop_sessions
  drop_sessions-IsCapped [] s h = h
  drop_sessions-IsCapped (sid ∷ sids) s h =
      drop_sessions-IsCapped sids (drop_session sid s) (drop_session-IsCapped sid s h)

  purge-IsCapped :
      (others : SessionStore → SessionStore) (now ticks : ℕ) (s : SessionStore)
      → KeepsCapped others
      → IsCapped s
      → IsCapped (purge others now ticks s).1
  unfolding purge mark_invalidating clear_invalidating
  purge-IsCapped others now ticks s keeps h =
      let expired = expired_ids now ticks s s.sessions in
      let waited = others (mark_invalidating expired s) in
      drop_sessions-IsCapped (present expired waited.sessions) waited (keeps _ h)

  -- Where the guard lets a login through, there is room for it.
  install-IsCapped :
      (login : Login) (expected : Option ℕ) (now ticks : ℕ) (s : SessionStore)
      → create_guard folding login.username expected s ≡ none
      → IsCapped s
      → IsCapped (install folding (new_session login now ticks) ticks s)
  unfolding install new_session create_guard
  install-IsCapped login expected now ticks s free h name = ground (
    arith,
    h name,
    account_sessions-insert login.session_id name (new_session login now ticks) s.sessions,
    eq_iff (fold login.username) name,
  )

  -- `create` leaves no account with more sessions than the limit, if what other threads do meanwhile
  -- leaves none.
  pub create-IsCapped :
      (purging others : SessionStore → SessionStore) (login : Login) (expected : Option ℕ)
      (now ticks : ℕ) (s : SessionStore)
      → KeepsCapped purging
      → KeepsCapped others
      → IsCapped s
      → IsCapped (create folding purging others login expected now ticks s).1
  unfolding create
  create-IsCapped purging others login expected now ticks s k1 k2 h =
      let swept = (purge purging now ticks s).1 in
      let one = purge-IsCapped purging now ticks s k1 h in
      elim (Option-cases (create_guard folding login.username expected swept)) [
        | inr (refused, e) ↦ rw (e, create) one
        | inl e ↦
            elim (Option-cases (create_guard folding login.username expected (others swept))) [
              | inr (refused, f) ↦ rw (e, create, f) (k2 swept one)
              | inl f ↦
                  rw (e, create, f)
                    (install-IsCapped login expected now ticks (others swept) f (k2 swept one))
            ]
      ]

  -- The username of the session `sid` never changes.
  abbrev pub KeepsUsername : String → (SessionStore → SessionStore) → Type 0
  KeepsUsername sid others =
      (s : SessionStore) (x y : Session)
      → lookup sid s.sessions ≡ some x
      → lookup sid (others s).sessions ≡ some y
      → y.username ≡ x.username

  -- The replacement takes the place of the session that goes.
  rotate_commit-IsCapped :
      (sid : String) (existing y : Session) (login : Login) (now ticks : ℕ) (s : SessionStore)
      → lookup sid s.sessions ≡ some y
      → y.username ≡ existing.username
      → IsCapped s
      → IsCapped (
          install folding
            (new_session (replacing folding existing login) now ticks)
            ticks
            (drop_session sid s))
  unfolding install new_session drop_session
  rotate_commit-IsCapped sid existing y login now ticks s there same h name =
      let replacement = new_session (replacing folding existing login) now ticks in
      let room = account_sessions-erase_found sid y s.sessions there in
      ground (
        arith,
        h name,
        same,
        there,
        room,
        account_sessions-erase sid name s.sessions,
        account_sessions-insert login.session_id name replacement (erase sid s.sessions),
        eq_iff (fold existing.username) name,
        ap fold same,
      )

  rotate_existing-IsCapped :
      (sid : String) (now ticks : ℕ) (s : SessionStore)
      → IsCapped s
      → IsCapped (rotate_existing folding sid now ticks s).1
  unfolding rotate_existing
  rotate_existing-IsCapped sid now ticks s h = elim (Option-cases (lookup sid s.sessions)) [
    | inl e ↦ rw (e, rotate_existing) h
    | inr (x, e) ↦
        elim (Bool-cases
          (ltb 0 (count_of (folding.account_key x.username) s.invalidating_usernames))) [
            | inl i ↦ rw (e, rotate_existing, i) h
            | inr i ↦ elim (Bool-cases (is_expired now ticks x s)) [
              | inl o ↦ rw (e, rotate_existing, i, o) (drop_session-IsCapped sid s h)
              | inr o ↦ rw (e, rotate_existing, i, o) h
            ]
          ]
  ]

  rotate_existing-lookup :
      (sid : String) (now ticks : ℕ) (s : SessionStore) (x : Session)
      → (rotate_existing folding sid now ticks s).0 ≡ some x
      → lookup sid (rotate_existing folding sid now ticks s).1.sessions ≡ some x
  unfolding rotate_existing
  rotate_existing-lookup sid now ticks s x h = elim (Option-cases (lookup sid s.sessions)) [
    | inl e ↦ absurd (ground (arith, e))
    | inr (y, e) ↦ ground (arith, e)
  ]

  rotate_later-IsCapped :
      (sid : String) (existing : Session) (login : Login) (now ticks : ℕ) (s : SessionStore)
      → ((y : Session) → lookup sid s.sessions ≡ some y → y.username ≡ existing.username)
      → IsCapped s
      → IsCapped
          (rotate_commit folding sid existing
            (new_session (replacing folding existing login) now ticks)
            ticks
            s).1
  unfolding rotate_commit
  rotate_later-IsCapped sid existing login now ticks s same h =
      elim (Bool-cases (
        not (contains sid s.sessions)
        || (ltb 1 (count_of sid s.invalidating)
            || ltb 0
                (count_of (folding.account_key existing.username) s.invalidating_usernames)))) [
                  | inl gone ↦ rw (gone, rotate_commit) h
                  | inr free ↦ elim (Option-cases (lookup sid s.sessions)) [
                    | inl e ↦ absurd (ground (arith, e, contains-lookup sid s.sessions))
                    | inr (y, e) ↦
                        rw (free, rotate_commit)
                          (rotate_commit-IsCapped sid existing y login now ticks s e (same y e) h)
                  ]
                ]

  -- `rotate` leaves no account with more sessions than the limit, also at the limit, if what other
  -- threads do meanwhile leaves none and changes no username.
  pub rotate-IsCapped :
      (waiting others : SessionStore → SessionStore) (sid : String) (login : Login) (now ticks : ℕ)
      (s : SessionStore)
      → KeepsCapped waiting
      → KeepsCapped others
      → KeepsUsername sid others
      → IsCapped s
      → IsCapped (rotate folding waiting others sid login now ticks s).1
  unfolding rotate mark_invalidating clear_invalidating
  rotate-IsCapped waiting others sid login now ticks s k1 k2 same h =
      let waited = waiting (mark_invalidating (sid ∷ []) s) in
      let looked = rotate_existing folding sid now ticks waited in
      let one = rotate_existing-IsCapped sid now ticks waited (k1 _ h) in
      elim (Bool-cases (
        str_eq sid "" || (elim (lookup sid s.sessions) [
          | none ↦ true
          | some session ↦ not (str_eq session.auth_method "routeros")
        ]))) [
          | inl absent ↦ rw (absent, rotate) h
          | inr there ↦ elim (Option-cases looked.0) [
            | inl e ↦ rw (there, rotate, e) one
            | inr (x, e) ↦
                rw (there, rotate, e)
                  (rotate_later-IsCapped sid x login now ticks (others looked.1)
                    (λ y. same looked.1 x y (rotate_existing-lookup sid now ticks waited x e))
                    (k2 looked.1 one))
          ]
        ]
