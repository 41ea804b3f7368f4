-- ===== src/SessionStore/Revoke/Watched.antt =====
-- What the generation of an account shows of the revocations since it was read.
use text.Mathlib.TextEquality.{eq_iff}
use mikrotik_openvpn_gui.Common.{
  ℕ, ◌+◌, ◌≤◌, ◌≡◌, ◌⊎◌, inl, inr, refl, ◌∙◌, String, List, [], ◌∷◌, arith,
}
use mikrotik_openvpn_gui.Common.Dict.{lookup-insert}
use mikrotik_openvpn_gui.SessionStore.State.{
  SessionStore, count_of, drop_session, drop_sessions, mark_account, mark_invalidating,
  clear_invalidating,
}
use mikrotik_openvpn_gui.SessionStore.Lookup.{purge, expired_ids}

-- The account's generation is at least `g`.
abbrev pub IsPast : String → ℕ → SessionStore → Type 0
IsPast key g s = g ≤ count_of key s.generations

-- The account's generation is at least `g`, and above it where the account is marked.
abbrev pub IsWatched : String → ℕ → SessionStore → Type 0
IsWatched key g s =
    IsPast key g s × ((count_of key s.invalidating_usernames ≡ 0) ⊎ IsPast key (g + 1) s)

abbrev pub Keeps : (SessionStore → Type 0) → (SessionStore → SessionStore) → Type 0
Keeps P others = (s : SessionStore) → P s → P (others s)

drop_session-generations :
    (sid : String) (s : SessionStore) → (drop_session sid s).generations ≡ s.generations
unfolding drop_session
drop_session-generations sid s = ground arith

pub drop_sessions-generations :
    (sids : List String) (s : SessionStore) → (drop_sessions sids s).generations ≡ s.generations
unfolding drop_sessions
drop_sessions-generations [] s = refl
drop_sessions-generations (sid ∷ sids) s =
    drop_sessions-generations sids (drop_session sid s) ∙ drop_session-generations sid s

drop_session-invalidating_usernames :
    (sid : String) (s : SessionStore)
    → (drop_session sid s).invalidating_usernames ≡ s.invalidating_usernames
unfolding drop_session
drop_session-invalidating_usernames sid s = ground arith

drop_sessions-invalidating_usernames :
    (sids : List String) (s : SessionStore)
    → (drop_sessions sids s).invalidating_usernames ≡ s.invalidating_usernames
unfolding drop_sessions
drop_sessions-invalidating_usernames [] s = refl
drop_sessions-invalidating_usernames (sid ∷ sids) s =
    drop_sessions-invalidating_usernames sids (drop_session sid s)
    ∙ drop_session-invalidating_usernames sid s

-- The first mark since the account was idle takes its generation past `g`.
pub mark_account-IsPast :
    (key : String) (g : ℕ) (s : SessionStore)
    → IsWatched key g s
    → IsPast key (g + 1) (mark_account key s)
unfolding mark_account
mark_account-IsPast key g s watched = elim watched.1 [
  | inl idle ↦ ground (
    arith,
    idle,
    watched.0,
    eq_iff key key,
    lookup-insert key key (count_of key s.generations + 1) s.generations,
  )
  | inr past ↦ ground (
    arith,
    past,
    eq_iff key key,
    lookup-insert key key (count_of key s.generations + 1) s.generations,
  )
]

pub purge-IsPast :
    (key : String) (g : ℕ) (others : SessionStore → SessionStore) (now ticks : ℕ) (s : SessionStore)
    → IsPast key g (others (mark_invalidating (expired_ids now ticks s s.sessions) s))
    → IsPast key g (purge others now ticks s).1
unfolding purge clear_invalidating
purge-IsPast key g others now ticks s h = rw (drop_sessions-generations) h

pub purge-IsWatched :
    (key : String) (g : ℕ) (others : SessionStore → SessionStore) (now ticks : ℕ) (s : SessionStore)
    → IsWatched key g (others (mark_invalidating (expired_ids now ticks s s.sessions) s))
    → IsWatched key g (purge others now ticks s).1
unfolding purge clear_invalidating
purge-IsWatched key g others now ticks s h =
    rw (drop_sessions-generations, drop_sessions-invalidating_usernames) h
