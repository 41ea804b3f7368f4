-- ===== src/Limiter/Audit/Account.antt =====
-- Every limited login is counted in exactly one audit event, or is still pending; audit writes are
-- an interval apart.
use mikrotik_openvpn_gui.Common.{
  ℕ, suc, ◌+◌, ◌≤◌, ◌≡◌, Bool, true, Option, none, some, List, [], ◌∷◌, arith, if◌then◌else◌, not,
  ltb,
}
use mikrotik_openvpn_gui.Limiter.Audit.{
  LoginAudit, AdminAudit, reserve_login_audit, complete_login_audit, reserve_admin_audit,
  complete_admin_audit, max_suppressed, admin_interval,
}

-- A limited login arrives, or the write of an audit event ends.
pub data AuditCall : Type 0 where
  limited : ℕ → AuditCall
  written : Bool → AuditCall

-- The limited logins that no written event has told of.
abbrev pub pending : LoginAudit → ℕ
pending a = a.suppressed + (if a.writing then a.reserved_count + a.suppressed_during + 1 else 0)

-- The limited logins that an event tells of once it is written: the count that it was given, and its
-- own.
abbrev pub told : Bool → Option ℕ → ℕ
told succeeded none = 0
told succeeded (some count) = if succeeded then count + 1 else 0

-- The event that the caller writes: the answer of `reserve` to it, while the write goes on.
abbrev pub event_after : Option ℕ → Option ℕ → Option ℕ
event_after none event = event
event_after (some count) event = some count

-- A run of calls, from the event that is being written, with the number of limited logins that the
-- written events told of.
unfoldable pub run_login : List AuditCall → Option ℕ → LoginAudit → LoginAudit × ℕ
run_login [] event a = (a, 0)
run_login (limited now ∷ calls) event a =
    let (next, slot) = reserve_login_audit now a in run_login calls (event_after slot event) next
run_login (written succeeded ∷ calls) event a =
    let (final, count) = run_login calls none (complete_login_audit succeeded a) in
    (final, told succeeded event + count)

abbrev pub limited_calls : List AuditCall → ℕ
limited_calls [] = 0
limited_calls (limited _ ∷ calls) = suc (limited_calls calls)
limited_calls (written _ ∷ calls) = limited_calls calls

-- The event that is being written has the count that the limiter set aside for it, and no count stands
-- beside it.
abbrev pub IsHeld : Option ℕ → LoginAudit → Type 0
IsHeld event a =
    (event ≡ (if a.writing then some a.reserved_count else none))
    × (a.writing ≡ true → a.suppressed ≡ 0)

reserve-IsHeld :
    (now : ℕ) (event : Option ℕ) (a : LoginAudit)
    → IsHeld event a
    → let (next, slot) = reserve_login_audit now a in IsHeld (event_after slot event) next
unfolding reserve_login_audit
reserve-IsHeld now event a held = (ground (arith, held.0), λ w. ground (arith, held.1))

-- As long as the counts stay below their cap, each limited login is either pending or told of by
-- exactly one audit event that was written with the count that `reserve` returned for it, whatever
-- writes fail.
pub run_login-pending :
    (calls : List AuditCall) (event : Option ℕ) (a : LoginAudit)
    → IsHeld event a
    → pending a + limited_calls calls ≤ max_suppressed
    → pending (run_login calls event a).0 + (run_login calls event a).1
      ≡ pending a + limited_calls calls
unfolding run_login
run_login-pending [] event a held small = omega arith
run_login-pending (limited now ∷ calls) event a held small =
    let step = reserve_login_audit now a in
    let counted : pending step.0 ≡ pending a + 1 =
      unfold reserve_login_audit in ground (arith, held.1) in
    omega (
      arith,
      run_login-pending calls (event_after step.1 event) step.0 (reserve-IsHeld now event a held)
          (omega arith),
    )
run_login-pending (written succeeded ∷ calls) event a held small =
    let next = complete_login_audit succeeded a in
    let counted : pending next + told succeeded event ≡ pending a =
      unfold complete_login_audit in ground (arith, held.0, held.1) in
    let held' : IsHeld none next = unfold complete_login_audit in ground arith in
    omega (arith, run_login-pending calls none next held' (omega arith))

-- The times at which `reserve_rate_limited_login_audit` lets an event be written.
pub granted : List AuditCall → LoginAudit → List ℕ
granted [] a = []
granted (limited now ∷ calls) a =
    let (next, slot) = reserve_login_audit now a in
    let rest = granted calls next in elim slot [ none ↦ rest | some _ ↦ now ∷ rest ]
granted (written succeeded ∷ calls) a = granted calls (complete_login_audit succeeded a)

abbrev pub NotBefore : ℕ → Option ℕ → ℕ → Type 0
NotBefore interval none now = Unit
NotBefore interval (some last) now = last + interval ≤ now

-- Each time is at least an interval after the one before it.
abbrev pub Spaced : ℕ → Option ℕ → List ℕ → Type 0
Spaced interval last [] = Unit
Spaced interval last (now ∷ times) = NotBefore interval last now × Spaced interval (some now) times

-- One limited login either leaves the last time alone, or moves it on by an interval.
limited_step :
    (now : ℕ) (a : LoginAudit) (times : List ℕ)
    → Spaced (reserve_login_audit now a).0.interval (reserve_login_audit now a).0.last_at times
    → Spaced a.interval a.last_at
        (elim (reserve_login_audit now a).1 [ none ↦ times | some _ ↦ now ∷ times ])
unfolding reserve_login_audit
limited_step now a times h = ground arith

-- Two audit events for limited logins are let through at least an interval apart, in every run of
-- calls, whether the writes succeed or fail.
pub granted-Spaced :
    (calls : List AuditCall) (a : LoginAudit) → Spaced a.interval a.last_at (granted calls a)
unfolding granted complete_login_audit
granted-Spaced [] a = tt
granted-Spaced (written succeeded ∷ calls) a =
    let next = complete_login_audit succeeded a in
    let rest = granted-Spaced calls next in
    let same : (next.interval ≡ a.interval) × (next.last_at ≡ a.last_at) = ground arith in
    rw (same.0, same.1) at rest
granted-Spaced (limited now ∷ calls) a =
    let step = reserve_login_audit now a in
    let rest = granted-Spaced calls step.0 in limited_step now a (granted calls step.0) rest

-- After an audit event of a limited admin account is written, the next one is let through only an
-- interval later. After a write that failed, the next call is let through.
pub reserve_admin_audit_again :
    (first next : ℕ) (succeeded : Bool) (a : AdminAudit)
    → (reserve_admin_audit first a).1 ≡ true
    → let after = complete_admin_audit succeeded (reserve_admin_audit first a).0 in
      (reserve_admin_audit next after).1
      ≡ (if succeeded then not (ltb next (first + admin_interval)) else true)
unfolding reserve_admin_audit complete_admin_audit
reserve_admin_audit_again first next succeeded a h = ground arith
