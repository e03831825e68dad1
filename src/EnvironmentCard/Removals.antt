-- ===== src/EnvironmentCard/Removals.antt =====
-- Which action the buttons of the locks plan, said by the kind of the lock.
use kuberpult.Prelude.{
  ◌≡◌, refl, ap, String, Option, none, some, ◌==◌, if◌then◌else◌, map, Bool-cases, inl, inr,
}
use kuberpult.Api.{
  BatchAction, Environment, EnvironmentGroup, create_environment_lock, delete_environment_lock,
  delete_environment_application_lock,
}
use kuberpult.Store.Cart.{add_action, append_action}
use kuberpult.Store.Locks.{DisplayLock}
use kuberpult.EnvironmentCard.{
  delete_lock, delete_lock_action, delete_environment_lock_by_id, add_lock, add_group_lock,
}

-- The lock of an environment with this id is deleted.
abbrev pub environment_removal : (env lock_id : String) → BatchAction
environment_removal env lock_id = record {
  action = some (delete_environment_lock (record { environment = env; lock_id = lock_id }));
}

-- The lock of an application in an environment is deleted.
abbrev pub application_removal : (env lock_id app : String) → BatchAction
application_removal env lock_id app = record {
  action = some (
      delete_environment_application_lock
        (record { environment = env; application = app; lock_id = lock_id }));
}

-- A row that names no application is one of an environment lock.
abbrev removal_for : (env lock_id : String) → Option String → BatchAction
removal_for env lock_id none = environment_removal env lock_id
removal_for env lock_id (some app) =
    if app == "" then environment_removal env lock_id else application_removal env lock_id app

abbrev pub removal : DisplayLock → BatchAction
removal l = removal_for l.environment l.lock_id l.application

-- A new lock of an environment, whose id and message are yet to come.
abbrev pub new_lock : Environment → BatchAction
new_lock env = record {
  action =
      some
        (create_environment_lock (record { environment = env.name; lock_id = ""; message = "" }));
}

delete_lock_action-removal :
    (l : DisplayLock) (application : Option String)
    → delete_lock_action (record l { application = application })
      ≡ removal (record l { application = application })
delete_lock_action-removal l none = refl
delete_lock_action-removal l (some app) = elim (Bool-cases (app == "")) [
  | inl unnamed ↦ rw unnamed refl
  | inr named ↦ rw named refl
]

pub delete_lock-removal : (l : DisplayLock) → delete_lock l ≡ add_action (removal l)
unfolding delete_lock
delete_lock-removal l = ap add_action (delete_lock_action-removal l l.application)

pub delete_environment_lock_by_id-removal :
    (env lock_id : String)
    → delete_environment_lock_by_id env lock_id ≡ add_action (environment_removal env lock_id)
unfolding delete_environment_lock_by_id
delete_environment_lock_by_id-removal env lock_id = refl

pub add_lock-new_lock : (env : Environment) → add_lock env ≡ add_action (new_lock env)
unfolding add_lock
add_lock-new_lock env = refl

pub add_group_lock-new_lock :
    (group : EnvironmentGroup)
    → add_group_lock group ≡ append_action (map new_lock group.environments)
unfolding add_group_lock
add_group_lock-new_lock group = refl
