-- ===== src/SideBar/Details.antt =====
-- `getActionDetails` of services/frontend-service/src/ui/components/SideBar/SideBar.tsx.
use kuberpult.Prelude.{
  ℕ, ◌≡◌, refl, String, Option, none, some, List, [], ◌∷◌, ◌==◌, find, get_or, concat, arith, ◌↔◌,
}
use mathlib.Core.Option
use kuberpult.Api.{
  Action, DeployRequest, create_environment_lock, delete_environment_lock,
  create_environment_application_lock, delete_environment_application_lock, deploy,
  prepare_undeploy, delete_env_from_app,
}
use kuberpult.Store.Locks.{DisplayLock}

pub data ActionTypes : Type 0 where
  deploy_action prepare_undeploy_action undeploy_action create_environment_lock_action : ActionTypes
  delete_environment_lock_action create_application_lock_action : ActionTypes
  delete_application_lock_action delete_env_from_app_action unknown : ActionTypes

pub record ActionDetails : Type 0 where
  pub type : ActionTypes
  pub name : String
  pub summary : String
  pub dialog_title : String
  pub tooltip : String
  pub environment : Option String
  pub application : Option String
  pub lock_id : Option String
  pub lock_message : Option String
  pub version : Option ℕ

-- `locks.find((lock) => lock.lockId === lockId)?.message`
unfoldable pub message_of : String → List DisplayLock → Option String
message_of lock_id locks =
    Option.map (λ (l : DisplayLock). l.message) (find (λ l. l.lock_id == lock_id) locks)

-- A text in quotes after a message; a missing message is printed as "undefined".
abbrev quoted : Option String → String
quoted message = concat ("\"" ∷ get_or message "undefined" ∷ "\"" ∷ [])

-- The optional fields that an object literal leaves out.
abbrev plain : ActionTypes → String → String → String → String → ActionDetails
plain type name dialog_title summary tooltip = record {
  type = type;
  name = name;
  summary = summary;
  dialog_title = dialog_title;
  tooltip = tooltip;
  environment = none;
  application = none;
  lock_id = none;
  lock_message = none;
  version = none;
}

-- `String(n)` of a number is a parameter.
module _ (number_text : ℕ → String) where
  unfoldable pub get_action_details :
      Option Action → List DisplayLock → List DisplayLock → ActionDetails
  unfolding message_of
  get_action_details (some (create_environment_lock r)) app_locks env_locks =
      record (plain create_environment_lock_action "Create Env Lock"
        "Are you sure you want to add this environment lock?"
        (concat ("Create new environment lock on " ∷ r.environment ∷ []))
        "An environment lock will prevent automated process from changing the deployed version - note that kuberpult users can still deploy despite locks.") {
          environment = some r.environment;
        }
  get_action_details (some (delete_environment_lock r)) app_locks env_locks =
      record (plain delete_environment_lock_action "Delete Env Lock"
        "Are you sure you want to delete this environment lock?"
        (concat (
          "Delete environment lock on "
          ∷ r.environment
          ∷ " with the message: "
          ∷ quoted (message_of r.lock_id env_locks)
          ∷ []))
        "This will only remove the lock, it will not automatically deploy anything.") {
          environment = some r.environment;
          lock_id = some r.lock_id;
          lock_message = message_of r.lock_id env_locks;
        }
  get_action_details (some (create_environment_application_lock r)) app_locks env_locks =
      record (plain create_application_lock_action "Create App Lock"
        "Are you sure you want to add this application lock?"
        (concat
          ("Create new application lock for \"" ∷ r.application ∷ "\" on " ∷ r.environment ∷ []))
        "An app lock will prevent automated process from changing the deployed version - note that kuberpult users can still deploy despite locks.") {
          environment = some r.environment;
          application = some r.application;
        }
  get_action_details (some (delete_environment_application_lock r)) app_locks env_locks =
      record (plain delete_application_lock_action "Delete App Lock"
        "Are you sure you want to delete this application lock?"
        (concat (
          "Delete application lock for \""
          ∷ r.application
          ∷ "\" on "
          ∷ r.environment
          ∷ " with the message: "
          ∷ quoted (message_of r.lock_id app_locks)
          ∷ []))
        "This will only remove the lock, it will not automatically deploy anything.") {
          environment = some r.environment;
          application = some r.application;
          lock_id = some r.lock_id;
          lock_message = message_of r.lock_id app_locks;
        }
  get_action_details (some (deploy r)) app_locks env_locks =
      record (plain deploy_action "Deploy" "Please be aware:"
        (concat (
          "Deploy version "
          ∷ number_text r.version
          ∷ " of \""
          ∷ r.application
          ∷ "\" to "
          ∷ r.environment
          ∷ []))
        "") {
          environment = some r.environment;
          application = some r.application;
          version = some r.version;
        }
  get_action_details (some (prepare_undeploy r)) app_locks env_locks =
      record (plain prepare_undeploy_action "Prepare Undeploy"
        "Are you sure you want to start undeploy?"
        (concat ("Prepare undeploy version for Application \"" ∷ r.application ∷ "\"" ∷ []))
        "The new version will go through the same cycle as any other versions (e.g. development->staging->production). The behavior is similar to any other version that is created normally.") {
          application = some r.application;
        }
  get_action_details (some (Action.undeploy r)) app_locks env_locks =
      record (plain undeploy_action "Undeploy" "Are you sure you want to undeploy this application?"
        (concat ("Undeploy and delete Application \"" ∷ r.application ∷ "\"" ∷ []))
        "This application will be deleted permanently") { application = some r.application }
  get_action_details (some (delete_env_from_app r)) app_locks env_locks =
      record (plain delete_env_from_app_action "Delete an Environment from App"
        "Are you sure you want to delete environments from this application?"
        (concat (
          "Delete environment \"" ∷ r.environment ∷ "\" from application \"" ∷ r.application ∷ "\""
          ∷ []))
        "These environments will be deleted permanently from this application") {
          application = some r.application;
        }
  get_action_details _ app_locks env_locks = plain unknown "invalid" "invalid" "invalid" "invalid"

  -- The details of a planned action carry a version exactly if it is a deployment, and then they
  -- carry that version, with the application and the environment that it deploys to.
  pub get_action_details-version_iff :
      (action : Option Action) (app_locks env_locks : List DisplayLock) (v : ℕ)
      → let details = get_action_details action app_locks env_locks in
        (details.version ≡ some v) ↔ (
          (r : DeployRequest) × (action ≡ some (deploy r))
          × (r.version ≡ v)
          × (details.application ≡ some r.application)
          × (details.environment ≡ some r.environment))
  unfolding get_action_details
  get_action_details-version_iff (some (deploy r)) app_locks env_locks v =
      (λ e. (r, refl, ground arith, refl, refl), λ (s, e, f, _, _). cc)
  get_action_details-version_iff action app_locks env_locks v = (λ e. cc, λ (s, e, f, _, _). cc)
