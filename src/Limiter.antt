-- ===== src/Limiter.antt =====
-- `LoginRateLimiter` of security.py. Clock readings and intervals are natural numbers of ticks; a
-- comparison with `current - interval` is written as a sum, since clocks do not go below 0 here.
-- The token that `secrets` makes for a reservation is an argument.
pub mod Attempts
pub mod Audit
mod Tests
