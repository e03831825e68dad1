-- ===== src/ReleaseDialog.antt =====
-- services/frontend-service/src/ui/components/ReleaseDialog/ReleaseDialog.tsx: what the dialog shows
-- of an environment, and what its buttons plan.
pub mod Accepted
pub mod Additions
pub mod Planned
pub mod Shown
pub mod View
use kuberpult.Prelude.{
  ℕ, String, Bool, true, false, ◌&&◌, not, Option, none, some, List, [], ◌∷◌, ◌==◌, eqb,
  if◌then◌else◌, map, flat_map, filter, get_or, concat,
}
use mathlib.Core.Option
use kuberpult.Api.{
  Environment, EnvironmentApplication, Release, Lock, DeploymentMetaData, Action, BatchAction,
  deploy, create_environment_application_lock, delete_environment_application_lock, LockBehavior,
}
use kuberpult.Store.Cart.{Cart, add_action}
use kuberpult.Store.Locks.{values}
use kuberpult.Store.Overview.{lookup}

-- `deleteAppLock`
unfoldable pub delete_app_lock : Environment → String → Lock → Cart → Cart
unfolding add_action
delete_app_lock env app lock = add_action (record {
  action = some (
      delete_environment_application_lock
        (record { environment = env.name; application = app; lock_id = lock.lock_id }));
})

abbrev pub create_app_lock_action : Environment → String → BatchAction
create_app_lock_action env app = record {
  action = some (
      create_environment_application_lock
        (record { environment = env.name; application = app; lock_id = ""; message = "" }));
}

abbrev pub deploy_action : Environment → String → Release → BatchAction
deploy_action env app release = record {
  action = some (
      deploy (record {
        environment = env.name;
        application = app;
        version = release.version;
        ignore_all_locks = false;
        lock_behavior = LockBehavior.ignore;
      }));
}

-- `createAppLock`
unfoldable pub create_app_lock : Environment → String → Cart → Cart
unfolding add_action
create_app_lock env app = add_action (create_app_lock_action env app)

-- `deployAndLockClick`
unfoldable pub deploy_and_lock_click : Environment → String → Release → Cart → Cart
unfolding add_action create_app_lock
deploy_and_lock_click env app release cart =
    if eqb release.version 0
    then cart
    else create_app_lock env app (add_action (deploy_action env app release) cart)

-- Whether the button "Deploy & Lock" is disabled.
unfoldable pub deploy_disabled : Environment → String → Release → Bool
deploy_disabled env app release = elim (lookup app env.applications) [
  | none ↦ false
  | some application ↦ eqb application.version release.version
]

-- `getDeploymentMetadata`: the text, and the time that follows it.
unfoldable pub get_deployment_metadata : Environment → String → Release → String × Option String
get_deployment_metadata env app release = elim (lookup app env.applications) [
  | none ↦ ("", none)
  | some application ↦
      let deployed_by =
        get_or
          (Option.map (λ (d : DeploymentMetaData). d.deploy_author)
            application.deployment_meta_data)
          "unknown" in
      let deployed_unix =
        get_or
          (Option.map (λ (d : DeploymentMetaData). d.deploy_time) application.deployment_meta_data)
          "" in
      if not (eqb application.version release.version)
      then ("", none)
      else if deployed_unix == ""
      then (concat ("Deployed by " ∷ deployed_by ∷ []), none)
      else (concat ("Deployed by " ∷ deployed_by ∷ " " ∷ []), some deployed_unix)
]

-- The locks that an item of the list shows, and the queued version that `EnvironmentList` passes.
unfoldable pub shown_app_locks : Environment → String → List Lock
shown_app_locks env app =
    flat_map (λ (a : EnvironmentApplication). values a.locks)
      (filter (λ (a : EnvironmentApplication). a.name == app) (values env.applications))

unfoldable pub queued_version : Environment → String → ℕ
queued_version env app =
    get_or
      (Option.map (λ (a : EnvironmentApplication). a.queued_version) (lookup app env.applications))
      0
