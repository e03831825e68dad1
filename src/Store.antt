-- ===== src/Store.antt =====
-- services/frontend-service/src/ui/utils/store.tsx: the stores of the page, as state that is
-- passed on. `get` reads the state and `set` returns it with the given fields replaced.
pub mod Cart
pub mod Locks
pub mod Overview
pub mod Rollout
pub mod Dialog
