-- ===== src/SideBar/View.antt =====
-- What SideBar.tsx renders.
use kuberpult.Prelude.{
  String, Bool, false, ◌||◌, Option, none, some, List, [], ◌∷◌, ◌++◌, ◌&&◌, if◌then◌else◌, concat,
  map, not, eqb, ltb, length, get_or, opt_truthy,
}
use kuberpult.Api.{FrontendConfig, BatchAction, Overview}
use kuberpult.Store.Cart.{Cart, delete_action}
use kuberpult.Store.Locks.{
  DisplayLock, AllLocks, environments, all_locks, locks_conflicting_with_actions, locks_similar_to,
}
use kuberpult.Store.Overview.{release}
use kuberpult.View.{Html, text_node, element, button, children, div, titled, plain, when, Runtime}
use kuberpult.View.Widgets.{confirmation_dialog, spinner}
use kuberpult.Chips.View.{release_version_with_links, display_lock_inline_renderer}
use kuberpult.SideBar.Apply.{SideBar, new_lock_exists, can_apply, title}
use kuberpult.SideBar.DeleteAll.{handle_add_all}
use kuberpult.SideBar.Details.{get_action_details}

-- How an action is written as JSON, and the events: a change of the cart, a click on the button that
-- hides the side bar, typing into the message, and the clicks on "Apply" and on the two buttons of the
-- dialog.
module _ {E : Type 0} (rt : Runtime) (config : FrontendConfig) (stringify : BatchAction → String)
    (plans : (Cart → Cart) → E) (toggles types applies confirms cancels : E) (o : Overview) where
  -- `deleteAllSection`, for the locks that are similar.
  unfoldable pub delete_all_section : (lock_id : Option String) → AllLocks → List (Html E)
  delete_all_section lock_id similar =
      if eqb (length similar.environment_locks) 0 && eqb (length similar.app_locks) 0
      then []
      else div (
          titled "div"
            (concat (
              "Other locks are detected by Lock Id ("
              ∷ get_or lock_id "undefined"
              ∷ "). This means these locks were created with the same \"Apply\" of the planned actions."
              ∷ []))
            (text_node "There are other similar locks." ∷ [])
          ∷ button " Delete them all! " false
              (some (plans (λ cart. (handle_add_all similar cart).0)))
          ∷ [])
        ∷ []

  -- `SideBarListItem`
  unfoldable pub side_bar_list_item : (actions : List BatchAction) → BatchAction → List (Html E)
  side_bar_list_item actions action =
      let locks = all_locks (environments o.environment_groups) in
      let details =
        get_action_details rt.number_text action.action locks.app_locks locks.environment_locks in
      let application = get_or details.application "" in
      titled "div" details.tooltip (
        div (text_node details.name ∷ [])
          ∷ div (text_node details.summary ∷ [])
          ∷ (elim (release application (get_or details.version 0) o) [
            | none ↦ []
            | some r ↦
                when (opt_truthy details.application)
                  (release_version_with_links rt config application r)
          ])
        ++ delete_all_section details.lock_id (locks_similar_to (some action) actions locks))
      ∷ element "div" none (some (plans (delete_action stringify rt.locale_compare action)))
          (children [])
      ∷ []

  -- `SideBarList`
  unfoldable pub side_bar_list : (actions : List BatchAction) → List (Html E)
  side_bar_list actions =
      map (λ (action : BatchAction). div (side_bar_list_item actions action)) actions

  -- `appLocksRendered` and `envLocksRendered`
  unfoldable pub locks_rendered : (heading : String) → List DisplayLock → List (Html E)
  locks_rendered heading locks =
      if eqb (length locks) 0
      then []
      else plain "h4" (text_node heading ∷ [])
        ∷ plain "ul" (
            map
              (λ (lock : DisplayLock).
                plain "li" (display_lock_inline_renderer rt config lock ∷ []))
              locks)
        ∷ []

  -- `confirmationDialog`
  unfoldable pub confirmation_dialog_of : (open_dialog : Bool) → (conflicting : AllLocks) → Html E
  confirmation_dialog_of open_dialog conflicting =
      if ltb 0 (length conflicting.environment_locks) || ltb 0 (length conflicting.app_locks)
      then div (
          confirmation_dialog confirms cancels open_dialog
            "Please Confirm the Deployment over Locks" "Confirm Deployment"
            (div (
              text_node
                "You are attempting to deploy apps, although there are locks present. Please check the locks and be sure you really want to ignore them."
              ∷ div (
                  locks_rendered "Conflicting Environment Locks:" conflicting.environment_locks
                  ++ locks_rendered "Conflicting App Locks:" conflicting.app_locks)
              ∷ []))
          ∷ [])
      else div (
          confirmation_dialog confirms cancels open_dialog "Please Confirm the Planned Actions"
            "Confirm Planned Actions"
            (div (text_node "Are you sure you want to apply all planned actions?" ∷ []))
          ∷ [])

  -- The footer of the side bar.
  unfoldable pub footer : SideBar → Html E
  footer s =
      let locks = all_locks (environments o.environment_groups) in
      div (
        button "Apply" (not (can_apply s)) (some applies)
          ∷ when s.show_spinner (spinner "Submitting changes")
        ++ confirmation_dialog_of s.show_confirmation_dialog
            (locks_conflicting_with_actions s.cart.actions locks)
          ∷ [])

  -- `SideBar`; the field for the message of new locks shows what is typed, and typing raises an event.
  unfoldable pub side_bar : SideBar → Html E
  side_bar s = plain "aside" (
      plain "nav" (
        div (
            button "" false (some toggles)
            ∷ plain "h1" (text_node (title rt.number_text s) ∷ [])
            ∷ [])
          ∷ plain "nav" (div (side_bar_list s.cart.actions) ∷ [])
          ∷ when (new_lock_exists s) (
              element "TextField" (some "Lock Message") (some types)
                (children (text_node s.lock_message ∷ [])))
        ++ footer s ∷ [])
      ∷ [])
