-- ===== src/Limiter/Tests.antt =====
-- The rate limiter at concrete inputs.
use mikrotik_openvpn_gui.Common.{
  ◌+◌, ◌≡◌, refl, true, false, none, some, List, [], ◌∷◌, arith, not, ltb,
}
use mikrotik_openvpn_gui.Limiter.Attempts.{Limiter, reserve, finish}
use mikrotik_openvpn_gui.Limiter.Attempts.Bound.{
  IsBounded, run, Call, begin_attempt, end_attempt, end_time, run-IsBounded,
}
use mikrotik_openvpn_gui.Limiter.Audit.{
  reserve_login_audit, complete_login_audit, LoginAudit, AdminAudit, reserve_admin_audit,
  complete_admin_audit, admin_interval,
}
use mikrotik_openvpn_gui.Limiter.Audit.Account.{
  AuditCall, limited, written, pending, run_login, limited_calls, run_login-pending, granted,
  Spaced, granted-Spaced, reserve_admin_audit_again,
}

abbrev fresh : Limiter
fresh = record {
  limit = 2;
  window_seconds = 300;
  max_tracked_identities = 10;
  max_in_flight = 3;
  attempts = [];
  reservations = [];
}

abbrev two_failures : List Call
two_failures =
    begin_attempt "t1" "eve" 10
    ∷ end_attempt "t1" (some true) 11
    ∷ begin_attempt "t2" "eve" 12
    ∷ end_attempt "t2" (some true) 13
    ∷ begin_attempt "t3" "eve" 14
    ∷ []

-- The third attempt is refused.
third_refused : (run two_failures fresh).reservations ≡ []
unfolding run reserve finish
third_refused = refl

fresh-IsBounded : IsBounded 0 fresh
fresh-IsBounded = record {
  within = λ k. omega arith;
  room = omega arith;
  unique_attempts = tt;
  unique_reservations = tt;
}

run-IsBounded_example : IsBounded (end_time 0 two_failures) (run two_failures fresh)
run-IsBounded_example = run-IsBounded 0 two_failures fresh (omega arith) fresh-IsBounded

abbrev no_audit : LoginAudit
no_audit = record {
  interval = 60;
  last_at = none;
  suppressed = 0;
  writing = false;
  reserved_count = 0;
  suppressed_during = 0;
}

abbrev audit_calls : List AuditCall
audit_calls =
    limited 5 ∷ limited 6 ∷ written false ∷ limited 7 ∷ limited 70 ∷ written true ∷ limited 71 ∷ []

-- The second event, written at 70, tells of the four logins before it; the last one is pending.
run_login_tells : (run_login audit_calls none no_audit).1 ≡ 4
unfolding run_login reserve_login_audit complete_login_audit
run_login_tells = refl

run_login-pending_example :
    pending (run_login audit_calls none no_audit).0 + (run_login audit_calls none no_audit).1
    ≡ pending no_audit + limited_calls audit_calls
run_login-pending_example =
    run_login-pending audit_calls none no_audit (refl, λ h. refl) (omega arith)

granted-Spaced_example : Spaced 60 none (granted audit_calls no_audit)
granted-Spaced_example = granted-Spaced audit_calls no_audit

abbrev no_admin_audit : AdminAudit
no_admin_audit = record { last_at = none; writing = false }

first_granted : (reserve_admin_audit 5 no_admin_audit).1 ≡ true
unfolding reserve_admin_audit
first_granted = refl

reserve_admin_audit_again_example :
    let after = complete_admin_audit true (reserve_admin_audit 5 no_admin_audit).0 in
    (reserve_admin_audit 64 after).1 ≡ not (ltb 64 (5 + admin_interval))
reserve_admin_audit_again_example = reserve_admin_audit_again 5 64 true no_admin_audit first_granted
