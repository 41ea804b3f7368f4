-- ===== src/Limiter/Audit.antt =====
-- The audit slots of `LoginRateLimiter`: at most one audit write for each interval.
pub mod Account
use mikrotik_openvpn_gui.Common.{
  ℕ, ◌+◌, Bool, true, false, ◌&&◌, Option, none, some, ltb, if◌then◌else◌, min, not,
}

abbrev pub max_suppressed : ℕ
max_suppressed = 1000000000

pub record LoginAudit : Type 0 where
  pub interval : ℕ
  pub last_at : Option ℕ
  pub suppressed : ℕ
  pub writing : Bool
  pub reserved_count : ℕ
  pub suppressed_during : ℕ

-- `previous is not None and current - previous < interval`
abbrev pub too_soon : Option ℕ → ℕ → ℕ → Bool
too_soon none current interval = false
too_soon (some previous) current interval = ltb current (previous + interval)

-- `reserve_rate_limited_login_audit`
unfoldable pub reserve_login_audit : ℕ → LoginAudit → LoginAudit × Option ℕ
reserve_login_audit current a =
    if a.writing
    then (record a { suppressed_during = min (a.suppressed_during + 1) max_suppressed }, none)
    else if too_soon a.last_at current a.interval
    then (record a { suppressed = min (a.suppressed + 1) max_suppressed }, none)
    else (
      record a {
        suppressed = 0;
        last_at = some current;
        writing = true;
        reserved_count = a.suppressed;
        suppressed_during = 0;
      },
      some a.suppressed,
    )

-- `complete_rate_limited_login_audit`
unfoldable pub complete_login_audit : Bool → LoginAudit → LoginAudit
complete_login_audit succeeded a = if not a.writing then a else record a {
  suppressed =
      if succeeded
      then a.suppressed_during
      else min (a.reserved_count + a.suppressed_during + 1) max_suppressed;
  writing = false;
  reserved_count = 0;
  suppressed_during = 0;
}

abbrev pub admin_interval : ℕ
admin_interval = 60

pub record AdminAudit : Type 0 where
  pub last_at : Option ℕ
  pub writing : Bool

-- `reserve_admin_account_rate_limited_audit`
unfoldable pub reserve_admin_audit : ℕ → AdminAudit → AdminAudit × Bool
reserve_admin_audit current a =
    if a.writing
    then (a, false)
    else if too_soon a.last_at current admin_interval
    then (a, false)
    else (record a { last_at = some current; writing = true }, true)

-- `complete_admin_account_rate_limited_audit`
unfoldable pub complete_admin_audit : Bool → AdminAudit → AdminAudit
complete_admin_audit succeeded a =
    if not a.writing
    then a
    else if succeeded
    then record a { writing = false }
    else record a { writing = false; last_at = none }
