-- ===== src/SessionStore/Roles/Growth.antt =====
-- `revalidate_role` and the capabilities of a live session.
use mathlib.Core.Path.{subst}
use text.Mathlib.Text.{◌==◌ as str_eq}
use text.Mathlib.TextEquality.{eq_iff}
use mikrotik_openvpn_gui.Common.{
  ℕ, ◌≡◌, inl, inr, refl, sym, ◌∙◌, String, Bool, true, false, not, ◌&&◌, ◌||◌, Option, some, List,
  [], ◌∷◌, arith, Bool-cases, Option-cases,
}
use mikrotik_openvpn_gui.Common.Dict.{
  Dict, lookup, insert, erase, contains, lookup-erase, lookup-insert,
}
use mikrotik_openvpn_gui.SessionStore.State.{
  Session, Folding, SessionStore, is_expired, drop_session, drop_sessions, mark_account,
  mark_invalidating, clear_account, schedule_retry, clear_invalidating, is_invalidating,
}
use mikrotik_openvpn_gui.SessionStore.Lookup.{touched, get, get_locked, is_fresh}
use mikrotik_openvpn_gui.SessionStore.Revoke.{
  Locks, all_acquired, set_taken, checks_taken, account_ids, sweep_account, revoke_account_sessions,
}
use mikrotik_openvpn_gui.SessionStore.Roles.{
  Resolved, unverified, missing, resolved, settled_role, apply_role, resolve_role,
  revalidate_locked, revalidate_role,
}
use mikrotik_openvpn_gui.SessionStore.Roles.Below.{Below, settled_role-Below}

-- The session `sid`, where the store has it, may do no more than the role `base`.
abbrev pub AtMost : String → String → SessionStore → Type 0
AtMost base sid s = (x : Session) → lookup sid s.sessions ≡ some x → Below x.role base

-- So may the session that a call returns.
abbrev pub ReturnsAtMost : String → String → Option Session × SessionStore → Type 0
ReturnsAtMost base sid (result, s) =
    ((x : Session) → result ≡ some x → Below x.role base) × AtMost base sid s

-- What other threads do gives the session no more than that.
abbrev pub KeepsAtMost : String → String → (SessionStore → SessionStore) → Type 0
KeepsAtMost base sid others = (s : SessionStore) → AtMost base sid s → AtMost base sid (others s)

lookup-erase-some :
    (k j : String) (d : Dict Session) (x : Session)
    → lookup j (erase k d) ≡ some x
    → lookup j d ≡ some x
lookup-erase-some k j d x h = ground (arith, lookup-erase k j d)

drop_session-AtMost :
    (base sid k : String) (s : SessionStore)
    → AtMost base sid s
    → AtMost base sid (drop_session k s)
unfolding drop_session
drop_session-AtMost base sid k s h x e = elim (Option-cases (lookup k s.sessions)) [
  | inl d ↦ h x (ground (arith, d))
  | inr (y, d) ↦ h x (lookup-erase-some k sid s.sessions x (ground (arith, d)))
]

drop_sessions-AtMost :
    (base sid : String) (sids : List String) (s : SessionStore)
    → AtMost base sid s
    → AtMost base sid (drop_sessions sids s)
unfolding drop_sessions
drop_sessions-AtMost base sid [] s h = h
drop_sessions-AtMost base sid (k ∷ sids) s h =
    drop_sessions-AtMost base sid sids (drop_session k s) (drop_session-AtMost base sid k s h)

-- A session is written under its identifier.
written-AtMost :
    (base sid : String) (y : Session) (s t : SessionStore)
    → t.sessions ≡ insert sid y s.sessions
    → Below y.role base
    → AtMost base sid t
written-AtMost base sid y s t e low x found =
    let same : y ≡ x =
      ground (arith, e, found, lookup-insert sid sid y s.sessions, eq_iff sid sid) in
    rw (sym same) low

touched-role :
    (touch : Bool) (now ticks : ℕ) (session : Session)
    → (touched touch now ticks session).role ≡ session.role
unfolding touched
touched-role true now ticks session = refl
touched-role false now ticks session = refl

touched-ReturnsAtMost :
    (base sid : String) (touch : Bool) (now ticks : ℕ) (session : Session) (s : SessionStore)
    → Below session.role base
    → ReturnsAtMost base sid (
      some (touched touch now ticks session),
      record s { sessions = insert sid (touched touch now ticks session) s.sessions },
    )
touched-ReturnsAtMost base sid touch now ticks session s h =
    let y = touched touch now ticks session in
    let low : Below y.role base =
      subst (λ r. Below r base) (sym (touched-role touch now ticks session)) h in
    (
      λ x p. let same : y ≡ x = ground (arith, p) in rw (sym same) low,
      written-AtMost base sid y s (record s { sessions = insert sid y s.sessions }) refl low,
    )

module _ (folding : Folding) (base sid : String) where
  get_locked-ReturnsAtMost :
      (touch : Bool) (now ticks : ℕ) (s : SessionStore)
      → AtMost base sid s
      → ReturnsAtMost base sid (get_locked folding sid touch now ticks s)
  unfolding get_locked
  get_locked-ReturnsAtMost touch now ticks s h = elim (Option-cases (lookup sid s.sessions)) [
    | inl e ↦ rw (e, get_locked) (λ x p. cc, h)
    | inr (session, e) ↦ elim (Bool-cases (is_invalidating folding sid session s)) [
      | inl i ↦ rw (e, get_locked, i) (λ x p. cc, h)
      | inr i ↦ elim (Bool-cases (is_expired now ticks session s)) [
        | inl o ↦ rw (e, get_locked, i, o) (λ x p. cc, drop_session-AtMost base sid sid s h)
        | inr o ↦
            rw (e, get_locked, i, o)
              (touched-ReturnsAtMost base sid touch now ticks session s (h session e))
      ]
    ]
  ]

  get-ReturnsAtMost :
      (touch acquired : Bool) (others : SessionStore → SessionStore) (now ticks : ℕ)
      (s : SessionStore)
      → KeepsAtMost base sid others
      → AtMost base sid s
      → ReturnsAtMost base sid (get folding sid touch acquired others now ticks s)
  unfolding get
  get-ReturnsAtMost touch acquired others now ticks s keeps h = elim (Bool-cases (str_eq sid "")) [
    | inl z ↦ rw (z, get) (λ x p. cc, h)
    | inr z ↦ elim (Option-cases (lookup sid s.sessions)) [
      | inl e ↦ rw (z, get, e) (λ x p. cc, h)
      | inr (session, e) ↦ elim (Bool-cases (is_invalidating folding sid session s)) [
        | inl i ↦ rw (z, get, e, i) (λ x p. cc, h)
        | inr i ↦ elim (Bool-cases (is_expired now ticks session s)) [
          | inl o ↦ elim (Bool-cases acquired) [
            | inl a ↦
                rw (z, get, e, i, o, a)
                  (get_locked-ReturnsAtMost touch now ticks (others s) (keeps s h))
            | inr a ↦ rw (z, get, e, i, o, a) (λ x p. cc, h)
          ]
          | inr o ↦
              rw (z, get, e, i, o)
                (touched-ReturnsAtMost base sid touch now ticks session s (h session e))
        ]
      ]
    ]
  ]

  apply_role-ReturnsAtMost :
      (between : SessionStore → SessionStore) (found : String) (ticks : ℕ) (session : Session)
      (s : SessionStore)
      → KeepsAtMost base sid between
      → Below session.role base
      → AtMost base sid s
      → ReturnsAtMost base sid (apply_role folding between sid found ticks session s)
  unfolding apply_role
  apply_role-ReturnsAtMost between found ticks session s keeps low h =
      elim (Option-cases (settled_role session.role found)) [
        | inl e ↦ rw (e, apply_role) (λ x p. cc, drop_session-AtMost base sid sid s h)
        | inr (role, e) ↦
            let lower : Below role base = λ capability m.
              low capability (settled_role-Below session.role found role e capability m) in
            let session' : Session = record session { role = role } in
            let written : SessionStore = record s { sessions = insert sid session' s.sessions } in
            let kept = keeps written (written-AtMost base sid session' s written refl lower) in
            elim (Bool-cases (
              not (contains sid (between written).sessions)
              || is_invalidating folding sid session' (between written))) [
                | inl gone ↦ rw (e, apply_role, gone) (λ x p. cc, kept)
                | inr there ↦
                    rw (e, apply_role, there)
                      (
                        λ x p. let same : session' ≡ x = ground (arith, p) in rw (sym same) lower,
                        kept,
                      )
              ]
      ]

  sweep_account-AtMost :
      (locks : Locks) (others : SessionStore → SessionStore) (key : String) (s : SessionStore)
      → KeepsAtMost base sid others
      → AtMost base sid s
      → AtMost base sid (sweep_account folding locks others key s).1
  unfolding sweep_account schedule_retry mark_invalidating clear_account clear_invalidating
  sweep_account-AtMost set_taken others key s keeps h = h
  sweep_account-AtMost checks_taken others key s keeps h = h
  sweep_account-AtMost all_acquired others key s keeps h =
      let waited = others (mark_invalidating (account_ids folding key s.sessions) s) in
      drop_sessions-AtMost base sid (account_ids folding key waited.sessions) waited (keeps _ h)

  revoke-AtMost :
      (locks : Locks) (others : SessionStore → SessionStore) (username : String) (s : SessionStore)
      → KeepsAtMost base sid others
      → AtMost base sid s
      → AtMost base sid (revoke_account_sessions folding locks (λ x. x) others true username s).1
  unfolding revoke_account_sessions
  revoke-AtMost locks others username s keeps h =
      elim (Bool-cases (str_eq (folding.account_key username) "")) [
        | inl e ↦ rw (e, revoke_account_sessions) h
        | inr e ↦
            rw (e, revoke_account_sessions)
              (sweep_account-AtMost locks others (folding.account_key username) s keeps h)
      ]

  resolve_role-ReturnsAtMost :
      (locks : Locks) (between : SessionStore → SessionStore) (answer : Resolved) (now ticks : ℕ)
      (s : SessionStore)
      → KeepsAtMost base sid between
      → AtMost base sid s
      → ReturnsAtMost base sid (resolve_role folding locks between sid answer now ticks s)
  unfolding resolve_role mark_account
  resolve_role-ReturnsAtMost locks between unverified now ticks s keeps h =
      (λ x p. cc, drop_session-AtMost base sid sid s h)
  resolve_role-ReturnsAtMost locks between missing now ticks s keeps h =
      let looked = get_locked folding sid false now ticks s in
      let low = get_locked-ReturnsAtMost false now ticks s h in
      elim (Option-cases looked.0) [
        | inl e ↦ rw (e, resolve_role) (λ x p. cc, low.1)
        | inr (session, e) ↦
            let key = folding.fold session.username in
            rw (e, resolve_role)
              (λ x p. cc, revoke-AtMost locks between key (mark_account key looked.1) keeps low.1)
      ]
  resolve_role-ReturnsAtMost locks between (resolved found) now ticks s keeps h =
      let looked = get_locked folding sid false now ticks s in
      let low = get_locked-ReturnsAtMost false now ticks s h in
      elim (Option-cases looked.0) [
        | inl e ↦ rw (e, resolve_role) (λ x p. cc, low.1)
        | inr (session, e) ↦
            rw (e, resolve_role)
              (apply_role-ReturnsAtMost between found ticks session looked.1 keeps (low.0 session e)
                low.1)
      ]

  revalidate_locked-ReturnsAtMost :
      (locks : Locks) (resolving between : SessionStore → SessionStore)
      (resolver : Session → Resolved) (interval now ticks : ℕ) (s : SessionStore)
      → KeepsAtMost base sid resolving
      → KeepsAtMost base sid between
      → AtMost base sid s
      → ReturnsAtMost base sid
          (revalidate_locked folding locks resolving between sid resolver interval now ticks s)
  unfolding revalidate_locked
  revalidate_locked-ReturnsAtMost locks resolving between resolver interval now ticks s first keeps
        h =
      let looked = get_locked folding sid false now ticks s in
      let low = get_locked-ReturnsAtMost false now ticks s h in
      elim (Option-cases looked.0) [
        | inl e ↦ rw (e, revalidate_locked) (λ x p. cc, low.1)
        | inr (session, e) ↦
            let itself : (x : Session) → some session ≡ some x → Below x.role base =
              λ x p. low.0 x (e ∙ p) in
            elim (Bool-cases (str_eq session.auth_method "routeros")) [
              | inr m ↦ rw (e, revalidate_locked, m) (itself, low.1)
              | inl m ↦ elim (Bool-cases (is_fresh sid session interval ticks looked.1)) [
                | inl f ↦ rw (e, revalidate_locked, m, f) (itself, low.1)
                | inr f ↦
                    rw (e, revalidate_locked, m, f)
                      (resolve_role-ReturnsAtMost locks between (resolver session) now ticks
                        (resolving looked.1) keeps (first looked.1 low.1))
              ]
            ]
      ]

  -- Whatever the router says of the account, and whatever other threads do that gives the session
  -- `sid` no more than the role `base` allows: if the session may do no more than `base`, then neither
  -- may the session that `revalidate_role` returns, nor what the store has under `sid` after it.
  pub revalidate_role-ReturnsAtMost :
      (locks : Locks) (waiting resolving between : SessionStore → SessionStore) (busy : Bool)
      (resolver : Session → Resolved) (interval now ticks : ℕ) (s : SessionStore)
      → KeepsAtMost base sid waiting
      → KeepsAtMost base sid resolving
      → KeepsAtMost base sid between
      → AtMost base sid s
      → ReturnsAtMost base sid (
          revalidate_role folding locks waiting resolving between busy sid resolver interval now
            ticks s)
  unfolding revalidate_role
  revalidate_role-ReturnsAtMost locks waiting resolving between busy resolver interval now ticks s
        start first keeps h =
      let looked = get folding sid false true waiting now ticks s in
      let low = get-ReturnsAtMost false true waiting now ticks s start h in
      elim (Option-cases looked.0) [
        | inl e ↦ rw (e, revalidate_role) (λ x p. cc, low.1)
        | inr (session, e) ↦
            let itself : (x : Session) → some session ≡ some x → Below x.role base =
              λ x p. low.0 x (e ∙ p) in
            elim (Bool-cases (str_eq session.auth_method "routeros")) [
              | inr m ↦ rw (e, revalidate_role, m) (itself, low.1)
              | inl m ↦
                  elim (Bool-cases (is_fresh sid session interval ticks looked.1 && not busy)) [
                    | inl f ↦ rw (e, revalidate_role, m, f) (itself, low.1)
                    | inr f ↦
                        rw (e, revalidate_role, m, f)
                          (revalidate_locked-ReturnsAtMost locks resolving between resolver interval
                            now ticks (waiting looked.1) first keeps (start looked.1 low.1))
                  ]
            ]
      ]
