-- ===== src/Store/Locks.antt =====
-- The locks of store.tsx: the rows that the page shows, and the selections among them.
pub mod Sort
pub mod Similar
pub mod Lookup
use kuberpult.Prelude.{
  ℕ, String, Bool, false, ◌&&◌, ◌||◌, not, Option, none, some, List, [], ◌∷◌, ◌==◌, map, opt_eq,
  is_some, get_or, concat, any, find, filter, flat_map,
}
use mathlib.Core.Option
use kuberpult.Api.{
  Actor, Lock, Environment, EnvironmentApplication, EnvironmentGroup, Action, BatchAction, deploy,
  delete_environment_lock, delete_environment_application_lock,
}

-- The optional fields are `none` where the object has no such key or holds `undefined` there.
pub record DisplayLock : Type 0 where
  pub date : Option ℕ
  pub environment : String
  pub application : Option String
  pub message : String
  pub lock_id : String
  pub author_name : Option String
  pub author_email : Option String

pub record AllLocks : Type 0 where
  pub environment_locks : List DisplayLock
  pub app_locks : List DisplayLock

-- `displayLockUniqueId`; a missing application is printed as "undefined".
unfoldable pub display_lock_unique_id : DisplayLock → String
display_lock_unique_id l =
    concat ("dl-" ∷ l.lock_id ∷ "-" ∷ l.environment ∷ "-" ∷ get_or l.application "undefined" ∷ [])

-- The object literals of `useAllLocks`.
unfoldable pub environment_lock_row : Environment → Lock → DisplayLock
environment_lock_row env lock = record {
  date = lock.created_at;
  environment = env.name;
  application = none;
  message = lock.message;
  lock_id = lock.lock_id;
  author_name = Option.map (λ (a : Actor). a.name) lock.created_by;
  author_email = Option.map (λ (a : Actor). a.email) lock.created_by;
}

unfoldable pub application_lock_row : Environment → EnvironmentApplication → Lock → DisplayLock
unfolding environment_lock_row
application_lock_row env app lock = record (environment_lock_row env lock) {
  application = some app.name;
}

-- `Object.values`
abbrev pub values {ℓ} : {A : Type ℓ} → List (String × A) → List A
values [] = []
values ((k, v) ∷ entries) = v ∷ values entries

-- `useEnvironments`, from the groups of the overview
unfoldable pub environments : List EnvironmentGroup → List Environment
environments = flat_map (λ g. g.environments)

-- The two arrays that the loop of `useAllLocks` fills.
unfoldable pub environment_locks_of : Environment → List DisplayLock
unfolding environment_lock_row
environment_locks_of env = map (environment_lock_row env) (values env.locks)

unfoldable pub app_locks_of : Environment → List DisplayLock
unfolding application_lock_row
app_locks_of env =
    flat_map (λ app. map (application_lock_row env app) (values app.locks))
      (values env.applications)

-- `useAllLocks`
unfoldable pub all_locks : List Environment → AllLocks
unfolding environment_locks_of app_locks_of
all_locks envs = record {
  environment_locks = flat_map environment_locks_of envs;
  app_locks = flat_map app_locks_of envs;
}

-- Whether a planned action deploys over this environment lock, or over this application lock.
unfoldable pub deploys_to_environment : DisplayLock → Option Action → Bool
deploys_to_environment l (some (deploy r)) = l.environment == r.environment
deploys_to_environment l _ = false

unfoldable pub deploys_application : DisplayLock → Option Action → Bool
deploys_application l (some (deploy r)) =
    l.environment == r.environment && opt_eq l.application (some r.application)
deploys_application l _ = false

-- `useLocksConflictingWithActions`
unfoldable pub locks_conflicting_with_actions : List BatchAction → AllLocks → AllLocks
unfolding deploys_to_environment deploys_application
locks_conflicting_with_actions actions locks = record {
  environment_locks =
      filter (λ l. any (λ a. deploys_to_environment l a.action) actions) locks.environment_locks;
  app_locks = filter (λ l. any (λ a. deploys_application l a.action) actions) locks.app_locks;
}

-- `useFilteredEnvironmentLockIDs`
unfoldable pub filtered_environment_lock_ids : String → List Environment → List String
filtered_environment_lock_ids env_name envs =
    map (λ lock. lock.lock_id)
      (flat_map (λ env. values env.locks)
        (filter (λ env. env_name == "" || env.name == env_name) envs))

-- `useEnvironmentLock`: the inner loop over one environment, and the loop over all. `none` is the
-- error that the lock is not found.
unfoldable pub environment_lock_in : String → Environment → Option DisplayLock
unfolding environment_lock_row
environment_lock_in lock_id env =
    Option.map (environment_lock_row env)
      (find (λ lock. lock.lock_id == lock_id) (values env.locks))

unfoldable pub environment_lock : String → List Environment → Option DisplayLock
unfolding environment_lock_in
environment_lock lock_id [] = none
environment_lock lock_id (env ∷ envs) = elim (environment_lock_in lock_id env) [
  | none ↦ environment_lock lock_id envs
  | some lock ↦ some lock
]

pub record DeleteActionData : Type 0 where
  pub env : String
  pub app : Option String
  pub lock_id : String

-- `extractDeleteActionData`
unfoldable pub extract_delete_action_data : Option Action → Option DeleteActionData
extract_delete_action_data (some (delete_environment_application_lock r)) =
    some (record { env = r.environment; app = some r.application; lock_id = r.lock_id })
extract_delete_action_data (some (delete_environment_lock r)) =
    some (record { env = r.environment; app = none; lock_id = r.lock_id })
extract_delete_action_data _ = none

-- The test in `isInCart`: whether the action with this data deletes the lock.
unfoldable pub deletes_lock : DisplayLock → Option DeleteActionData → Bool
deletes_lock l none = false
deletes_lock l (some d) =
    l.lock_id == d.lock_id && opt_eq l.application d.app && l.environment == d.env

-- `isInCart`
unfoldable pub is_in_cart : List BatchAction → DisplayLock → Bool
unfolding deletes_lock extract_delete_action_data
is_in_cart actions l =
    is_some (find (λ a. deletes_lock l (extract_delete_action_data a.action)) actions)

-- The two tests after `isInCart` in `useLocksSimilarTo`.
unfoldable pub is_similar_environment_lock : DeleteActionData → DisplayLock → Bool
is_similar_environment_lock d l =
    l.lock_id == d.lock_id && (not (l.environment == d.env) || is_some d.app)

unfoldable pub is_similar_app_lock : DeleteActionData → DisplayLock → Bool
is_similar_app_lock d l =
    l.lock_id == d.lock_id && (not (l.environment == d.env) || not (opt_eq l.application d.app))

unfoldable pub similar_to : DeleteActionData → List BatchAction → AllLocks → AllLocks
unfolding is_in_cart is_similar_environment_lock is_similar_app_lock
similar_to d actions locks = record {
  environment_locks =
      filter (λ l. not (is_in_cart actions l) && is_similar_environment_lock d l)
        locks.environment_locks;
  app_locks = filter (λ l. not (is_in_cart actions l) && is_similar_app_lock d l) locks.app_locks;
}

-- `useLocksSimilarTo`; `none` is a call without an action.
unfoldable pub locks_similar_to : Option BatchAction → List BatchAction → AllLocks → AllLocks
unfolding extract_delete_action_data similar_to
locks_similar_to none actions locks = record { environment_locks = []; app_locks = [] }
locks_similar_to (some item) actions locks = elim (extract_delete_action_data item.action) [
  | none ↦ record { environment_locks = []; app_locks = [] }
  | some d ↦ similar_to d actions locks
]
