-- ===== src/SessionStore/Tests.antt =====
-- The session store at concrete inputs: usernames are folded already, and no other thread is at work.
use mikrotik_openvpn_gui.Common.{
  ◌≡◌, refl, sym, true, false, some, none, [], ◌∷◌, arith, if◌then◌else◌,
}
use mikrotik_openvpn_gui.Common.Dict.{lookup}
use mikrotik_openvpn_gui.SessionStore.State.{
  Session, Folding, SessionStore, mark_account, clear_account, account_revocation_generation,
  clear_invalidating, drop_sessions, mark_invalidating,
}
use mikrotik_openvpn_gui.SessionStore.Lookup.{
  get, is_active_nonblocking, cached_role_session, purge,
}
use mikrotik_openvpn_gui.SessionStore.Lookup.Agreement.{is_some, get-is_active}
use mikrotik_openvpn_gui.SessionStore.Create.{
  Login, created, create, create_guard, new_session, rotate,
}
use mikrotik_openvpn_gui.SessionStore.Create.Capacity.{IsCapped, create-IsCapped, rotate-IsCapped}
use mikrotik_openvpn_gui.SessionStore.Revoke.{checks_taken, revoke_account_sessions}
use mikrotik_openvpn_gui.SessionStore.Revoke.Complete.{Revokes, revoke_account_sessions-Revokes}
use mikrotik_openvpn_gui.SessionStore.Revoke.Escape.{Others}
use mikrotik_openvpn_gui.SessionStore.Roles.{resolved, revalidate_role}
use mikrotik_openvpn_gui.SessionStore.Roles.Below.{Below}
use mikrotik_openvpn_gui.SessionStore.Roles.Growth.{ReturnsAtMost, revalidate_role-ReturnsAtMost}

abbrev folded : Folding
folded = record { fold = λ name. name; account_key = λ name. name }

abbrev eve_live : Session
eve_live = record {
  session_id = "s1";
  username = "eve";
  password = "p";
  csrf_token = "c1";
  revocation_ref = "r1";
  authorization_ref = "a1";
  created_at = 100;
  last_seen = 100;
  created_monotonic = 10;
  last_seen_monotonic = 10;
  reauthenticated_at = 100;
  role = "auditor";
  source_address = "";
  user_agent = "";
  auth_method = "routeros";
}

abbrev eve_store : SessionStore
eve_store = record {
  idle_seconds = 1800;
  absolute_seconds = 28800;
  max_sessions_per_account = 1;
  sessions = ("s1", eve_live) ∷ [];
  revocation_sessions = ("r1", "s1") ∷ [];
  role_checked = ("s1", 10) ∷ [];
  invalidating = [];
  invalidating_usernames = [];
  generations = [];
  pending_retries = [];
}

abbrev eve_login : Login
eve_login = record {
  username = "eve";
  password = "q";
  role = "owner";
  source_address = "";
  user_agent = "";
  session_id = "s2";
  csrf_token = "c2";
  revocation_ref = "r2";
  authorization_ref = "a2";
}

get-is_active_example :
    let live = is_active_nonblocking folded "s1" true 200 20 eve_store in
    let cached = (cached_role_session folded "s1" false 15 200 20 eve_store).0 in
    (is_some (get folded "s1" true true (λ x. x) 200 20 eve_store).0 ≡ live)
    × ((if cached.0 then is_some cached.1 else live) ≡ live)
get-is_active_example = get-is_active folded "s1" true 15 200 20 eve_store refl

eve_at_most : (x : Session) → lookup "s1" eve_store.sessions ≡ some x → Below x.role "auditor"
eve_at_most x e = let same : eve_live ≡ x = ground (arith, e) in rw (sym same) (λ capability m. m)

-- The router now says that the account is an owner: the session stays an auditor.
revalidate_role-ReturnsAtMost_example : ReturnsAtMost "auditor" "s1" (
    revalidate_role folded checks_taken
      (λ x. x)
      (λ x. x)
      (λ x. x)
      false
      "s1"
      (λ x. resolved "owner")
      15
      200
      40
      eve_store)
revalidate_role-ReturnsAtMost_example =
    revalidate_role-ReturnsAtMost folded "auditor" "s1" checks_taken (λ x. x) (λ x. x) (λ x. x)
      false (λ x. resolved "owner") 15 200 40 eve_store (λ s h. h) (λ s h. h) (λ s h. h) eve_at_most

revoke_account_sessions-Revokes_example :
    Revokes folded checks_taken "eve"
      (revoke_account_sessions folded checks_taken (λ x. x) (λ x. x) false "eve" eve_store)
revoke_account_sessions-Revokes_example =
    revoke_account_sessions-Revokes folded checks_taken (λ x. x) (λ x. x) false "eve" eve_store refl
      (λ p. cc) (λ s h. h)

abbrev idle_others : Others
idle_others at s = s

-- The account has room for a second session, and the revocation comes between the two guards.
abbrev roomy_store : SessionStore
roomy_store = record eve_store { max_sessions_per_account = 2 }

eve_store-IsCapped : IsCapped folded eve_store
eve_store-IsCapped name = ground arith

create-IsCapped_example :
    IsCapped folded (create folded (λ x. x) (λ x. x) eve_login none 200 20 eve_store).1
create-IsCapped_example =
    create-IsCapped folded (λ x. x) (λ x. x) eve_login none 200 20 eve_store (λ s h. h) (λ s h. h)
      eve_store-IsCapped

rotate-IsCapped_example :
    IsCapped folded (rotate folded (λ x. x) (λ x. x) "s1" eve_login 200 20 eve_store).1
rotate-IsCapped_example =
    rotate-IsCapped folded (λ x. x) (λ x. x) "s1" eve_login 200 20 eve_store (λ s h. h) (λ s h. h)
      (λ s x y e f. ground (arith, e, f)) eve_store-IsCapped

-- A second revocation that begins while the first is still at work does not take the generation on:
-- a login that read it in between is let through after both.
abbrev between_revocations : SessionStore
between_revocations = record eve_store {
  sessions = [];
  revocation_sessions = [];
  role_checked = [];
  invalidating_usernames = ("eve", 1) ∷ [];
  generations = ("eve", 1) ∷ [];
}

overlapping_revocations :
    let g = account_revocation_generation folded "eve" between_revocations in
    let both = clear_account "eve" (clear_account "eve" (mark_account "eve" between_revocations)) in
    (create folded (λ x. x) (λ x. x) eve_login (some g) 200 20 both).0
    ≡ created (new_session eve_login 200 20)
unfolding create create_guard purge account_revocation_generation mark_account clear_account
    clear_invalidating drop_sessions mark_invalidating
overlapping_revocations = refl
