-- ===== src/Store/Cart.antt =====
-- The planned actions of store.tsx, with the side bar and the snackbar that changing them touches.
pub mod Additions
pub mod Slots
pub mod Invariant
pub mod Plan
pub mod Planning
pub mod Deletion
use kuberpult.Prelude.{
  ℕ, ◌+◌, String, Bool, true, false, ◌&&◌, Option, none, some, List, [], ◌∷◌, ◌++◌, ◌==◌, ltb,
  if◌then◌else◌, length, any, fold, filter, Ordering,
}
use kuberpult.Api.{
  Action, BatchAction, create_environment_lock, delete_environment_lock,
  create_environment_application_lock, delete_environment_application_lock, deploy,
  prepare_undeploy,
}

abbrev pub max_batch_actions : ℕ
max_batch_actions = 100

pub data SnackbarStatus : Type 0 where
  success warn error : SnackbarStatus

pub record Snackbar : Type 0 where
  pub show : Bool
  pub status : SnackbarStatus
  pub content : String

-- The stores behind `UpdateAction`, `UpdateSidebar` and `UpdateSnackbar`.
pub record Cart : Type 0 where
  pub actions : List BatchAction
  pub sidebar_shown : Bool
  pub snackbar : Snackbar

-- The initial values of the three stores.
abbrev pub empty : Cart
empty = record {
  actions = [];
  sidebar_shown = false;
  snackbar = record { show = false; status = success; content = "" };
}

abbrev show_snackbar : SnackbarStatus → String → Cart → Cart
show_snackbar status content cart = record cart {
  snackbar = record { show = true; status = status; content = content };
}

-- `showSnackbarSuccess`, `showSnackbarError`, `showSnackbarWarn`
unfoldable pub show_snackbar_success : String → Cart → Cart
show_snackbar_success = show_snackbar success

unfoldable pub show_snackbar_error : String → Cart → Cart
show_snackbar_error = show_snackbar error

unfoldable pub show_snackbar_warn : String → Cart → Cart
show_snackbar_warn = show_snackbar warn

-- The callbacks of the `some` calls in `addAction`, by the case of the action that is added; the
-- second argument is the action of a member of the cart.
creates_environment_lock : (environment : String) → Option Action → Bool
creates_environment_lock env (some (create_environment_lock r)) = r.environment == env
creates_environment_lock env _ = false

deletes_environment_lock : (environment lock_id : String) → Option Action → Bool
deletes_environment_lock env lock_id (some (delete_environment_lock r)) =
    r.environment == env && r.lock_id == lock_id
deletes_environment_lock env lock_id _ = false

creates_application_lock : (application environment : String) → Option Action → Bool
creates_application_lock app env (some (create_environment_application_lock r)) =
    r.application == app && r.environment == env
creates_application_lock app env _ = false

deletes_application_lock : (environment lock_id : String) → Option Action → Bool
deletes_application_lock env lock_id (some (delete_environment_application_lock r)) =
    r.environment == env && r.lock_id == lock_id
deletes_application_lock env lock_id _ = false

deploys : (application environment : String) → Option Action → Bool
deploys app env (some (deploy r)) = r.application == app && r.environment == env
deploys app env _ = false

undeploys : (application : String) → Option Action → Bool
undeploys app (some (Action.undeploy r)) = r.application == app
undeploys app _ = false

prepares_undeploy : (application : String) → Option Action → Bool
prepares_undeploy app (some (prepare_undeploy r)) = r.application == app
prepares_undeploy app _ = false

-- The `switch` of `addAction`: whether it returns because of a duplicate.
pub is_duplicate : Option Action → List BatchAction → Bool
unfolding creates_environment_lock deletes_environment_lock creates_application_lock
    deletes_application_lock deploys undeploys prepares_undeploy
is_duplicate (some (create_environment_lock r)) actions =
    any (λ act. creates_environment_lock r.environment act.action) actions
is_duplicate (some (delete_environment_lock r)) actions =
    any (λ act. deletes_environment_lock r.environment r.lock_id act.action) actions
is_duplicate (some (create_environment_application_lock r)) actions =
    any (λ act. creates_application_lock r.application r.environment act.action) actions
is_duplicate (some (delete_environment_application_lock r)) actions =
    any (λ act. deletes_application_lock r.environment r.lock_id act.action) actions
is_duplicate (some (deploy r)) actions =
    any (λ act. deploys r.application r.environment act.action) actions
is_duplicate (some (Action.undeploy r)) actions =
    any (λ act. undeploys r.application act.action) actions
is_duplicate (some (prepare_undeploy r)) actions =
    any (λ act. prepares_undeploy r.application act.action) actions
is_duplicate _ actions = false

-- `addAction`
unfoldable pub add_action : BatchAction → Cart → Cart
unfolding is_duplicate show_snackbar_error
add_action action cart =
    if ltb max_batch_actions (length cart.actions + 1)
    then show_snackbar_error "Maximum number of actions is 100" cart
    else if is_duplicate action.action cart.actions
    then cart
    else record cart { actions = cart.actions ++ action ∷ []; sidebar_shown = true }

-- `appendAction`
unfoldable pub append_action : List BatchAction → Cart → Cart
unfolding add_action
append_action = fold add_action

-- `deleteAllActions`
unfoldable pub delete_all_actions : Cart → Cart
delete_all_actions cart = record cart { actions = [] }

-- `updateActions`
unfoldable pub update_actions : List BatchAction → Cart → Cart
unfolding append_action delete_all_actions
update_actions actions cart = append_action actions (delete_all_actions cart)

-- A comparison that is not 0 is truthy.
abbrev pub nonzero : Ordering → Bool
nonzero Ordering.eq = false
nonzero _ = true

module _ (stringify : BatchAction → String) (locale_compare : String → String → Ordering) where
  -- `deleteAction`; `JSON.stringify` and `String.prototype.localeCompare` are parameters.
  unfoldable pub delete_action : BatchAction → Cart → Cart
  delete_action action cart = record cart {
    actions =
        filter (λ act. nonzero (locale_compare (stringify act) (stringify action))) cart.actions;
  }
