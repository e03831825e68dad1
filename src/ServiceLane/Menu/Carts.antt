-- ===== src/ServiceLane/Menu/Carts.antt =====
-- What the clicks in a lane do to the cart.
use kuberpult.Prelude.{
  ℕ, String, Option, none, some, List, eqb, length, if_both, is_some, get_elem?, map, if◌then◌else◌,
}
use kuberpult.Api.{Action, prepare_undeploy, Application, UndeploySummary}
use kuberpult.Store.Cart.{Cart, show_snackbar_error, show_snackbar_warn}
use kuberpult.Store.Cart.Invariant.{IsValid, add_action-IsValid, append_action-IsValid}
use kuberpult.ServiceLane.Menu.{
  Lane, Click, open_menu, leave_menu, menu_button, checkbox, confirm, cancel, click,
  click_menu_button, prepare_undeploy_or_undeploy, confirm_env_app_delete, derive_undeploy_message,
  delete_env_from_app_action, toggle,
}

abbrev KeepsValid : (Cart → Cart) → Type 0
KeepsValid f = (cart : Cart) → IsValid cart → IsValid (f cart)

warned-IsValid : (message : String) → KeepsValid (show_snackbar_warn message)
unfolding show_snackbar_warn
warned-IsValid message cart v = record { within = v.within; distinct = v.distinct }

failed-IsValid : (message : String) → KeepsValid (show_snackbar_error message)
unfolding show_snackbar_error
failed-IsValid message cart v = record { within = v.within; distinct = v.distinct }

undeploy-IsValid :
    (app : String) (summary : UndeploySummary)
    → KeepsValid (prepare_undeploy_or_undeploy app summary)
unfolding prepare_undeploy_or_undeploy
undeploy-IsValid app UndeploySummary.undeploy cart v =
    add_action-IsValid (record { action = some (Action.undeploy (record { application = app })) })
      cart v
undeploy-IsValid app UndeploySummary.normal cart v =
    add_action-IsValid (record { action = some (prepare_undeploy (record { application = app })) })
      cart v
undeploy-IsValid app UndeploySummary.mixed cart v = failed-IsValid _ cart v
undeploy-IsValid app other cart v = failed-IsValid _ cart v

abbrev IsValidLane : Lane → Type 0
IsValidLane lane = IsValid lane.cart

menu_button-IsValid :
    (name : String) (summary : UndeploySummary) (i : ℕ) (lane : Lane)
    → IsValidLane lane
    → IsValidLane (click_menu_button name summary i lane)
menu_button-IsValid name summary i lane v = if_both IsValidLane (eqb i 1) _ _ v (
    if_both IsValidLane (eqb i 2) _ _
      (if_both IsValidLane (is_some (derive_undeploy_message summary)) _ _
        (undeploy-IsValid name summary lane.cart v) v)
      v)

confirm-IsValid :
    (name : String) (envs selected_envs : List String) (lane : Lane)
    → IsValidLane lane
    → IsValidLane (confirm_env_app_delete name envs selected_envs lane)
unfolding confirm_env_app_delete
confirm-IsValid name envs selected_envs lane v =
    if_both IsValidLane (eqb (length selected_envs) (length envs)) _ _
      (warned-IsValid _ lane.cart v)
      (append_action-IsValid (map (delete_env_from_app_action name) selected_envs) lane.cart v)

-- Whatever is clicked in a lane, a valid cart stays valid.
pub click-IsValid :
    (app : Application) (envs : List String) (c : Click) (lane : Lane)
    → IsValid lane.cart
    → IsValid (click app envs c lane).cart
unfolding click
click-IsValid app envs open_menu lane v = v
click-IsValid app envs leave_menu lane v = v
click-IsValid app envs (menu_button i) lane v =
    if_both IsValidLane lane.menu_open _ _
      (menu_button-IsValid app.name app.undeploy_summary i lane v) v
click-IsValid app envs (checkbox i) lane v =
    elim (get_elem? envs i)
      as (λ (o : Option String). IsValidLane (elim o [
        | none ↦ lane
        | some env ↦
            if lane.show_env_selection_dialog
            then record lane { selected_envs = toggle env lane.selected_envs }
            else lane
      ])) [ none ↦ v | some env ↦ if_both IsValidLane lane.show_env_selection_dialog _ _ v v ]
click-IsValid app envs confirm lane v =
    if_both IsValidLane lane.show_env_selection_dialog _ _
      (confirm-IsValid app.name envs lane.selected_envs lane v) v
click-IsValid app envs cancel lane v = if_both IsValidLane lane.show_env_selection_dialog _ _ v v
