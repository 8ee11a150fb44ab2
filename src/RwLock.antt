-- ===== src/RwLock.antt =====
-- src/rwlock.rs: the raw reader-writer lock. `State` is its word, `Lock` and `Unlock` the ways to
-- take and to release it, `Wake` what wakes its waiters up, and `Spec` what it is without contention.
pub mod State
pub mod Wake
pub mod Woken
pub mod Waking
pub mod Unlock
pub mod Lock
pub mod Spec
pub mod Alone
pub mod Refinement
pub mod Roles
pub mod Exclusion
pub mod Count
pub mod Trying
pub mod Releasing
pub mod Client
