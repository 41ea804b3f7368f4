-- ===== src/SessionStore.antt =====
-- `SessionStore` of security.py. A critical section under the store's lock is one function. Where a
-- call lets go of the lock, to wait for another one or to call back, what other threads do to the
-- store in between is an argument, a function on stores.
pub mod State
pub mod Lookup
pub mod Create
pub mod Revoke
pub mod Roles
mod Tests
