-- ===== src/ServiceLane/Menu.antt =====
-- ServiceLane.tsx, DotsMenu.tsx and EnvSelectionDialog.tsx: the menu of a lane and the dialog in
-- which environments are selected for removal. An event carries the index of its button.
pub mod Carts
pub mod Removal
pub mod Selection
use kuberpult.Prelude.{
  ℕ, String, Bool, true, false, Option, none, some, List, [], ◌∷◌, ◌++◌, ◌==◌, eqb, ltb,
  if◌then◌else◌, any, length, map, get_elem?, truthy, get_or, is_some,
}
use kuberpult.Api.{
  Action, BatchAction, UndeploySummary, PrepareUndeployRequest, UndeployRequest,
  DeleteEnvironmentFromAppRequest, prepare_undeploy, delete_env_from_app, Application, Environment,
  EnvironmentGroup,
}
use kuberpult.Store.Cart.{Cart, add_action, append_action, show_snackbar_error, show_snackbar_warn}
use kuberpult.Store.Overview.{EnvironmentGroupExtended}

-- `deriveUndeployMessage`
unfoldable pub derive_undeploy_message : UndeploySummary → Option String
derive_undeploy_message UndeploySummary.undeploy = some "Delete Forever"
derive_undeploy_message UndeploySummary.normal = some "Prepare Undeploy Release"
derive_undeploy_message UndeploySummary.mixed = none
derive_undeploy_message _ = none

-- `prepareUndeployOrUndeploy`
unfoldable pub prepare_undeploy_or_undeploy : String → UndeploySummary → Cart → Cart
unfolding add_action show_snackbar_error
prepare_undeploy_or_undeploy application UndeploySummary.undeploy cart =
    add_action (record { action = some (Action.undeploy (record { application = application })) })
      cart
prepare_undeploy_or_undeploy application UndeploySummary.normal cart =
    add_action (record { action = some (prepare_undeploy (record { application = application })) })
      cart
prepare_undeploy_or_undeploy application UndeploySummary.mixed cart =
    show_snackbar_error
      "Internal Error: Cannot prepare to undeploy or actual undeploy in mixed state." cart
prepare_undeploy_or_undeploy application _ cart =
    show_snackbar_error
      "Internal Error: Cannot prepare to undeploy or actual undeploy in unknown state." cart

-- The state that a lane and its two children keep, and the cart.
pub record Lane : Type 0 where
  pub menu_open : Bool
  pub show_env_selection_dialog : Bool
  pub selected_envs : List String
  pub cart : Cart

abbrev pub delete_env_from_app_action : String → String → BatchAction
delete_env_from_app_action application env = record {
  action = some (delete_env_from_app (record { application = application; environment = env }));
}

-- `confirmEnvAppDelete`
unfoldable pub confirm_env_app_delete : String → (envs selected_envs : List String) → Lane → Lane
unfolding append_action show_snackbar_warn
confirm_env_app_delete application envs selected_envs lane =
    if eqb (length selected_envs) (length envs)
    then record lane {
      cart =
          show_snackbar_warn "If you want to delete all environments, use 'prepare undeploy'"
            lane.cart;
      show_env_selection_dialog = false;
    }
    else record lane {
      cart = append_action (map (delete_env_from_app_action application) selected_envs) lane.cart;
      show_env_selection_dialog = false;
    }

-- The first occurrence of the text removed, `copy.splice(indexOf, 1)`.
abbrev pub remove_first : String → List String → List String
remove_first x [] = []
remove_first x (y ∷ ys) = if y == x then ys else y ∷ remove_first x ys

-- `addTeam` of the dialog: the environment of a checkbox is selected or not any more.
unfoldable pub toggle : String → List String → List String
toggle env selected =
    if any (λ e. e == env) selected then remove_first env selected else selected ++ env ∷ []

-- What can be clicked.
pub data Click : Type 0 where
  open_menu leave_menu : Click
  menu_button : ℕ → Click
  checkbox : ℕ → Click
  confirm cancel : Click

-- The buttons of the menu, by what they do; "View History" changes the page's address only.
abbrev pub click_menu_button : String → UndeploySummary → ℕ → Lane → Lane
click_menu_button application summary i lane =
    if eqb i 1
    then record lane { show_env_selection_dialog = true }
    else if eqb i 2
    then (if is_some (derive_undeploy_message summary)
        then record lane { cart = prepare_undeploy_or_undeploy application summary lane.cart }
        else lane)
    else lane

-- The handlers; the menu's buttons are there only while it is open, and the dialog's likewise.
unfoldable pub click : Application → (envs : List String) → Click → Lane → Lane
unfolding derive_undeploy_message prepare_undeploy_or_undeploy confirm_env_app_delete toggle
click app envs open_menu lane = record lane { menu_open = true }
click app envs leave_menu lane = record lane { menu_open = false }
click app envs (menu_button i) lane =
    if lane.menu_open
    then record (click_menu_button app.name app.undeploy_summary i lane) { menu_open = false }
    else lane
click app envs (checkbox i) lane = elim (get_elem? envs i) [
  | none ↦ lane
  | some env ↦
      if lane.show_env_selection_dialog
      then record lane { selected_envs = toggle env lane.selected_envs }
      else lane
]
click app envs confirm lane =
    if lane.show_env_selection_dialog
    then record (confirm_env_app_delete app.name envs lane.selected_envs lane) {
      selected_envs = [];
    }
    else lane
click app envs cancel lane =
    if lane.show_env_selection_dialog
    then record lane { show_env_selection_dialog = false; selected_envs = [] }
    else lane
