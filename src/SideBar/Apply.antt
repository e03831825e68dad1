-- ===== src/SideBar/Apply.antt =====
-- The component `SideBar` with its callbacks, and `ProcessBatch` as a request that is answered later.
-- The callbacks close over the state of the last render; the events of the model are those that
-- come after a render. `ProcessBatch` sends the actions as they are at the call.
pub mod Consistency
pub mod Progress
pub mod Requests
use kuberpult.Prelude.{
  ℕ, ◌≡◌, String, Bool, true, false, ◌&&◌, ◌||◌, not, Option, none, some, List, [], ◌∷◌, ◌++◌, ◌==◌,
  eqb, ltb, if◌then◌else◌, truthy, map, filter, length, concat, Ordering,
}
use kuberpult.Api.{
  Action, BatchAction, create_environment_lock, create_environment_application_lock,
}
use kuberpult.Store.Cart.{
  Cart, append_action, delete_action, delete_all_actions, show_snackbar_success,
  show_snackbar_error,
}

-- The state of the component and the stores that it works on; `sent` lists the requests so far.
pub record SideBar : Type 0 where
  pub cart : Cart
  pub lock_message : String
  pub show_spinner : Bool
  pub show_confirmation_dialog : Bool
  pub sent : List (List BatchAction)

-- The test of `lockCreationList`.
abbrev pub creates_lock : Option Action → Bool
creates_lock (some (create_environment_lock r)) = true
creates_lock (some (create_environment_application_lock r)) = true
creates_lock _ = false

abbrev pub lock_creation_list : List BatchAction → List BatchAction
lock_creation_list = filter (λ (a : BatchAction). creates_lock a.action)

-- The assignments of `applyActions` to the actions, which are those of the store.
unfoldable pub set_message : String → Option Action → Option Action
set_message message (some (create_environment_lock r)) =
    some (create_environment_lock (record r { message = message }))
set_message message (some (create_environment_application_lock r)) =
    some (create_environment_application_lock (record r { message = message }))
set_message message action = action

unfoldable pub set_lock_id : String → Option Action → Option Action
set_lock_id lock_id (some (create_environment_lock r)) =
    some (create_environment_lock (record r { lock_id = lock_id }))
set_lock_id lock_id (some (create_environment_application_lock r)) =
    some (create_environment_application_lock (record r { lock_id = lock_id }))
set_lock_id lock_id action = action

abbrev pub update_actions_by : (Option Action → Option Action) → Cart → Cart
update_actions_by f cart = record cart {
  actions = map (λ (a : BatchAction). record a { action = f a.action }) cart.actions;
}

-- The two parts of `applyActions`: the message, and the request if the user is authenticated.
unfoldable pub apply_message : SideBar → SideBar
unfolding set_message
apply_message s =
    if truthy s.lock_message
    then record s {
      cart = update_actions_by (set_message s.lock_message) s.cart;
      lock_message = "";
    }
    else s

unfoldable pub send_batch : (lock_id : String) → SideBar → SideBar
unfolding set_lock_id
send_batch lock_id s =
    let cart = update_actions_by (set_lock_id lock_id) s.cart in
    record s {
      cart = cart;
      show_spinner = true;
      sent = s.sent ++ cart.actions ∷ [];
      show_confirmation_dialog = false;
    }

-- `applyActions`; what `randomLockId` returns is an argument.
unfoldable pub apply_actions : (auth_ready : Bool) (lock_id : String) → SideBar → SideBar
unfolding apply_message send_batch
apply_actions auth_ready lock_id s =
    if auth_ready then send_batch lock_id (apply_message s) else apply_message s

-- The `then` and the `catch` of the request, each with the `finally`.
unfoldable pub batch_succeeded : SideBar → SideBar
unfolding delete_all_actions show_snackbar_success
batch_succeeded s = record s {
  cart = show_snackbar_success "Actions were applied successfully" (delete_all_actions s.cart);
  show_spinner = false;
}

abbrev pub grpc_error_permission_denied : ℕ
grpc_error_permission_denied = 7

unfoldable pub batch_failed : (code : ℕ) (message : String) → SideBar → SideBar
unfolding show_snackbar_error
batch_failed code message s = record s {
  cart =
      show_snackbar_error
        (if eqb code grpc_error_permission_denied
          then message
          else "Actions were not applied. Please try again")
        s.cart;
  show_spinner = false;
}

-- `newLockExists` and `canApply`
abbrev pub new_lock_exists : SideBar → Bool
new_lock_exists s = not (eqb (length (lock_creation_list s.cart.actions)) 0)

unfoldable pub can_apply : SideBar → Bool
can_apply s = ltb 0 (length s.cart.actions) && (not (new_lock_exists s) || truthy s.lock_message)

-- The button "Apply" is disabled unless `canApply`, and the dialog's buttons are there only while it
-- is open.
unfoldable pub click_apply : SideBar → SideBar
unfolding can_apply
click_apply s = if can_apply s then record s { show_confirmation_dialog = true } else s

unfoldable pub cancel_confirmation : SideBar → SideBar
cancel_confirmation s = record s { show_confirmation_dialog = false }

unfoldable pub update_message : String → SideBar → SideBar
update_message message s = record s { lock_message = message }

unfoldable pub confirm : (auth_ready : Bool) (lock_id : String) → SideBar → SideBar
unfolding apply_actions
confirm auth_ready lock_id s =
    if s.show_confirmation_dialog then apply_actions auth_ready lock_id s else s

-- `title`
module _ (number_text : ℕ → String) where
  unfoldable pub title : SideBar → String
  title s =
      let n = length s.cart.actions in
      if ltb 0 n then concat ("Planned Actions (" ∷ number_text n ∷ ")" ∷ []) else "Planned Actions"

-- What can happen to the component: its buttons and its field, the removal of a planned action from its
-- list, actions that its list or other components add, and the two answers of a request.
pub data Event : Type 0 where
  clicks_apply cancels : Event
  types : (message : String) → Event
  confirms : (auth_ready : Bool) (lock_id : String) → Event
  plans : List BatchAction → Event
  removes : BatchAction → Event
  succeeds : Event
  fails : (code : ℕ) (message : String) → Event

module _ (stringify : BatchAction → String) (locale_compare : String → String → Ordering) where
  unfoldable pub step : Event → SideBar → SideBar
  unfolding click_apply cancel_confirmation update_message confirm batch_succeeded batch_failed
      append_action delete_action
  step clicks_apply s = click_apply s
  step cancels s = cancel_confirmation s
  step (types message) s = update_message message s
  step (confirms auth_ready lock_id) s = confirm auth_ready lock_id s
  step (plans actions) s = record s { cart = append_action actions s.cart }
  step (removes a) s = record s { cart = delete_action stringify locale_compare a s.cart }
  step succeeds s = batch_succeeded s
  step (fails code message) s = batch_failed code message s
