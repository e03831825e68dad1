-- ===== src/SideBar/Accepted.antt =====
-- The events of the side bar.
use kuberpult.Prelude.{String, Bool, true, false, Option, none, some, List, [], ◌∷◌, arith}
use kuberpult.Api.{FrontendConfig, BatchAction, Overview, Release}
use kuberpult.Store.Cart.{Cart, delete_action}
use kuberpult.Store.Cart.Additions.{Adds}
use kuberpult.Store.Locks.{DisplayLock, AllLocks}
use kuberpult.View.{Html, children, element, text_node, when, Runtime}
use kuberpult.View.Accepts.{Accepts, AcceptsAll, AcceptsAll-append, AcceptsAll-map, AcceptsAll-when}
use kuberpult.View.Widgets.{confirmation_dialog, spinner}
use kuberpult.Chips.View.{release_version_with_links}
use kuberpult.Chips.Accepted.{release_with_links-Accepts, inline_items-AcceptsAll}
use kuberpult.SideBar.Apply.{SideBar, new_lock_exists}
use kuberpult.SideBar.DeleteAll.Additions.{Adds-handle_add_all}
use kuberpult.SideBar.View.{
  delete_all_section, side_bar_list_item, side_bar_list, locks_rendered, confirmation_dialog_of,
  footer, side_bar,
}

-- The field for the message of new locks.
abbrev message_field : {E : Type 0} → E → String → Html E
message_field types message =
    element "TextField" (some "Lock Message") (some types) (children (text_node message ∷ []))

module _ {E : Type 0} (Q : E → Type 0) (rt : Runtime) (config : FrontendConfig)
    (stringify : BatchAction → String) (plans : (Cart → Cart) → E)
    (toggles types applies confirms cancels : E) (o : Overview)
    (accepts : (change : Cart → Cart) → Adds change → Q (plans change))
    (accepts_deletion : (a : BatchAction) → Q (plans (delete_action stringify rt.locale_compare a)))
    (accepts_toggling : Q toggles) (accepts_typing : Q types) (accepts_applying : Q applies)
    (accepts_confirming : Q confirms) (accepts_cancelling : Q cancels) where
  section-AcceptsAll :
      (lock_id : Option String) (similar : AllLocks)
      → AcceptsAll Q (
          children (
            delete_all_section rt config stringify plans toggles types applies confirms cancels o
              lock_id similar))
  unfolding delete_all_section
  section-AcceptsAll lock_id similar = ground (arith, accepts _ (Adds-handle_add_all similar))

  -- The release that an item is about, if it is about one.
  release_of_item-AcceptsAll :
      (b : Bool) (app : String) (r : Option Release)
      → AcceptsAll Q (
          children (elim r [
            | none ↦ []
            | some r ↦ when b (release_version_with_links {E = E} rt config app r)
          ]))
  release_of_item-AcceptsAll b app none = tt
  release_of_item-AcceptsAll true app (some r) = (release_with_links-Accepts Q rt config app r, tt)
  release_of_item-AcceptsAll false app (some r) = tt

  item-AcceptsAll :
      (actions : List BatchAction) (a : BatchAction)
      → AcceptsAll Q (
          children (
            side_bar_list_item rt config stringify plans toggles types applies confirms cancels o
              actions a))
  unfolding side_bar_list_item
  item-AcceptsAll actions a = (
    (
      (tt, tt),
      (
        (tt, tt),
        AcceptsAll-append Q _ _ (release_of_item-AcceptsAll _ _ _) (section-AcceptsAll _ _),
      ),
    ),
    ((accepts_deletion a, tt), tt),
  )

  locks-AcceptsAll :
      (heading : String) (ls : List DisplayLock)
      → AcceptsAll Q (
          children (
            locks_rendered rt config stringify plans toggles types applies confirms cancels o
              heading ls))
  unfolding locks_rendered
  locks-AcceptsAll heading ls = ground (arith, inline_items-AcceptsAll Q rt config ls)

  dialog-Accepts :
      (is_open : Bool) (conflicting : AllLocks)
      → Accepts Q (
          confirmation_dialog_of rt config stringify plans toggles types applies confirms cancels o
            is_open conflicting)
  unfolding confirmation_dialog_of confirmation_dialog
  dialog-Accepts is_open conflicting = ground (
    arith,
    accepts_confirming,
    accepts_cancelling,
    AcceptsAll-append Q
        (locks_rendered rt config stringify plans toggles types applies confirms cancels o
          "Conflicting Environment Locks:" conflicting.environment_locks)
        _ (locks-AcceptsAll "Conflicting Environment Locks:" conflicting.environment_locks)
        (locks-AcceptsAll "Conflicting App Locks:" conflicting.app_locks),
  )

  footer-Accepts :
      (s : SideBar)
      → Accepts Q (footer rt config stringify plans toggles types applies confirms cancels o s)
  unfolding footer spinner
  footer-Accepts s = (
    accepts_applying,
    AcceptsAll-append Q (when s.show_spinner (spinner "Submitting changes")) _
        (AcceptsAll-when Q s.show_spinner (spinner "Submitting changes") (tt, ((tt, tt), tt)))
        (dialog-Accepts s.show_confirmation_dialog _, tt),
  )

  pub side_bar-Accepts :
      (s : SideBar)
      → Accepts Q (side_bar rt config stringify plans toggles types applies confirms cancels o s)
  unfolding side_bar side_bar_list
  side_bar-Accepts s = (
    (
      (accepts_toggling, ((tt, tt), tt)),
      (
        (AcceptsAll-map Q _ s.cart.actions (item-AcceptsAll s.cart.actions), tt),
        AcceptsAll-append Q (when (new_lock_exists s) (message_field types s.lock_message)) _
            (AcceptsAll-when Q (new_lock_exists s) (message_field types s.lock_message)
              (accepts_typing, (tt, tt)))
            (footer-Accepts s, tt),
      ),
    ),
    tt,
  )
