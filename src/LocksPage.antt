-- ===== src/LocksPage.antt =====
-- services/frontend-service/src/ui: Pages/Locks/LocksPage.tsx and components/LocksTable/LocksTable.tsx.
pub mod Accepted
pub mod Clicks
pub mod Shown
pub mod View
use kuberpult.Prelude.{
  ℕ, String, Bool, true, false, Option, none, some, List, [], ◌∷◌, if◌then◌else◌, map, flat_map,
  filter, truthy, fold,
}
use kuberpult.Api.{Environment, EnvironmentApplication, EnvironmentGroup}
use kuberpult.Store.Locks.{
  DisplayLock, values, environments, environment_lock_row, application_lock_row,
}
use kuberpult.Store.Locks.Sort.{
  Sorting, oldest_to_newest, newest_to_oldest, sort_locks, application_row_values,
  environment_row_values, Value,
}
use kuberpult.Store.Overview.{search_custom_filter}

-- `envLocks`
unfoldable pub env_locks : List EnvironmentGroup → List DisplayLock
unfolding environments environment_lock_row sort_locks
env_locks groups = sort_locks environment_row_values oldest_to_newest (
    flat_map (λ (env : Environment). map (environment_lock_row env) (values env.locks))
      (environments groups))

-- `appLocks`, for the parameter `application` of the page's address
module _ (includes : String → String → Bool) where
  unfoldable pub app_locks : Option String → List EnvironmentGroup → List DisplayLock
  unfolding environments application_lock_row sort_locks search_custom_filter
  app_locks app_name groups = sort_locks application_row_values oldest_to_newest (
      filter (λ (l : DisplayLock). truthy (search_custom_filter includes app_name l.application))
        (flat_map
          (λ (env : Environment).
            flat_map
              (λ (app : EnvironmentApplication).
                map (application_lock_row env app) (values app.locks))
              (values env.applications))
          (environments groups)))

-- The state of a `LocksTable`; sorting reorders the rows of the page, which the table shares.
pub record Table : Type 0 where
  pub sort : Sorting
  pub locks : List DisplayLock

abbrev pub opposite : Sorting → Sorting
opposite oldest_to_newest = newest_to_oldest
opposite newest_to_oldest = oldest_to_newest

abbrev pub opened : List DisplayLock → Table
opened locks = record { sort = newest_to_oldest; locks = locks }

-- `sortOnClick`, for rows with the given values
unfoldable pub sort_on_click : (DisplayLock → List Value) → Table → Table
unfolding sort_locks
sort_on_click values_of t = record {
  sort = opposite t.sort;
  locks = sort_locks values_of t.sort t.locks;
}
