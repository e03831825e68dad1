-- ===== src/ReleaseDialog/Additions.antt =====
-- The buttons of the dialog add actions to the cart.
use kuberpult.Prelude.{refl, String, [], ◌∷◌, some, eqb, Bool-cases, inl, inr}
use kuberpult.Api.{Environment, Release, Lock, delete_environment_application_lock}
use kuberpult.Store.Cart.{append_action}
use kuberpult.Store.Cart.Additions.{Adds}
use kuberpult.ReleaseDialog.{
  delete_app_lock, create_app_lock, create_app_lock_action, deploy_and_lock_click, deploy_action,
}

pub Adds-delete_app_lock :
    (env : Environment) (app : String) (lock : Lock) → Adds (delete_app_lock env app lock)
unfolding delete_app_lock append_action
Adds-delete_app_lock env app lock = (
  record {
    action = some (
        delete_environment_application_lock
          (record { environment = env.name; application = app; lock_id = lock.lock_id }));
  }
      ∷ [],
  λ cart. refl,
)

pub Adds-create_app_lock : (env : Environment) (app : String) → Adds (create_app_lock env app)
unfolding create_app_lock append_action
Adds-create_app_lock env app = (create_app_lock_action env app ∷ [], λ cart. refl)

-- A release without a version adds nothing.
pub Adds-deploy_and_lock_click :
    (env : Environment) (app : String) (r : Release) → Adds (deploy_and_lock_click env app r)
unfolding deploy_and_lock_click append_action
Adds-deploy_and_lock_click env app r = elim (Bool-cases (eqb r.version 0)) [
  | inl none_given ↦ ([], λ cart. rw none_given refl)
  | inr given ↦
      (deploy_action env app r ∷ create_app_lock_action env app ∷ [], λ cart. rw given refl)
]
