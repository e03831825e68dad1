-- ===== src/EnvironmentCard.antt =====
-- services/frontend-service/src/ui/components: EnvironmentCard/EnvironmentCard.tsx,
-- LockDisplay/LockDisplay.tsx and EnvironmentLockDisplay/EnvironmentLockDisplay.tsx.
pub mod Accepted
pub mod Additions
pub mod Planned
pub mod Removals
pub mod Shown
pub mod View
use kuberpult.Prelude.{
  ℕ, ◌*◌, ◌+◌, String, Bool, true, false, Option, none, some, List, [], ◌∷◌, ltb, if◌then◌else◌,
  map, truthy, get_or, concat, opt_truthy, ◌||◌,
}
use kuberpult.Api.{
  Environment, EnvironmentGroup, Action, BatchAction, create_environment_lock,
  delete_environment_lock, delete_environment_application_lock,
}
use kuberpult.Store.Cart.{Cart, add_action, append_action}
use kuberpult.Store.Locks.{DisplayLock}

abbrev pub add_lock_action : Environment → BatchAction
add_lock_action env = record {
  action =
      some
        (create_environment_lock (record { environment = env.name; lock_id = ""; message = "" }));
}

-- `addLock` of `EnvironmentCard` and of `EnvironmentGroupCard`
unfoldable pub add_lock : Environment → Cart → Cart
unfolding add_action
add_lock env = add_action (add_lock_action env)

unfoldable pub add_group_lock : EnvironmentGroup → Cart → Cart
unfolding append_action
add_group_lock group = append_action (map add_lock_action group.environments)

abbrev pub delete_lock_action : DisplayLock → BatchAction
delete_lock_action lock =
    let app = get_or lock.application "" in
    if truthy app
    then record {
      action = some (
          delete_environment_application_lock
            (record { environment = lock.environment; lock_id = lock.lock_id; application = app }));
    }
    else record {
      action = some (
          delete_environment_lock
            (record { environment = lock.environment; lock_id = lock.lock_id }));
    }

-- `deleteLock` of `LockDisplay`
unfoldable pub delete_lock : DisplayLock → Cart → Cart
unfolding add_action
delete_lock lock = add_action (delete_lock_action lock)

-- `deleteLock` of `EnvironmentLockDisplay`
unfoldable pub delete_environment_lock_by_id : (env lock_id : String) → Cart → Cart
unfolding add_action
delete_environment_lock_by_id env lock_id = add_action (record {
  action = some (delete_environment_lock (record { environment = env; lock_id = lock_id }));
})

-- `isOutdated` at the time `now`
abbrev pub milliseconds_per_day : ℕ
milliseconds_per_day = 86400000

unfoldable pub is_outdated : (now : ℕ) → Option ℕ → Bool
is_outdated now none = true
is_outdated now (some date_added) = ltb (date_added + 2 * milliseconds_per_day) now

-- `author` and `kind` of `DisplayLockRenderer`; a missing name or address is printed as "undefined".
unfoldable pub author : DisplayLock → String
author lock =
    if opt_truthy lock.author_email || opt_truthy lock.author_name
    then concat (
        get_or lock.author_name "undefined" ∷ "<" ∷ get_or lock.author_email "undefined" ∷ ">" ∷ [])
    else "unknown"

unfoldable pub kind : DisplayLock → String
kind lock = if opt_truthy lock.application then "App" else "Environment"
