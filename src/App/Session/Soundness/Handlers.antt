-- ===== src/App/Session/Soundness/Handlers.antt =====
-- What the handlers of the clicks keep.
use kuberpult.Prelude.{
  ◌≤◌, ◌≡◌, refl, String, Bool, false, Option, none, some, List, length, length-append, arith,
  Bool-cases, inl, inr, find, ◌==◌,
}
use kuberpult.Api.{Application}
use kuberpult.Store.Cart.{Cart}
use kuberpult.Store.Cart.Additions.{Adds}
use kuberpult.Store.Cart.Invariant.{IsValid, append_action-IsValid, delete_action-IsValid}
use kuberpult.Store.Locks.{values}
use kuberpult.View.{Runtime}
use kuberpult.App.Session.{
  Session, Clicked, clicked, plans, types, applies, confirms, cancels, cart_of, overview_of,
  side_bar_of, lane_of, set_lane,
}
use kuberpult.App.Session.Clicks.{handle, click_lane}
use kuberpult.App.Session.Soundness.{
  IsSound, IsValid-actions, set_cart-IsSound, set_side_bar-IsSound, set_lane-IsSound,
  set_params-IsSound, quiet-IsSound, tables-IsSound,
}
use kuberpult.App.View.{Readers}
use kuberpult.App.View.Accepted.{Covers}
use kuberpult.ServiceLane.Menu.{Lane, Click}
use kuberpult.ServiceLane.Menu
use kuberpult.ServiceLane.Menu.Carts.{click-IsValid}
use kuberpult.ServiceLane.Menu.Selection.{click-IsSelection}
use kuberpult.ServiceLane.View.{lane_environments}
use kuberpult.SideBar.Apply.{
  SideBar, Event, clicks_apply, apply_message, send_batch, apply_actions, confirm, can_apply, step,
  click_apply, cancel_confirmation, update_message,
}
use kuberpult.SideBar.Apply
use kuberpult.SideBar.Apply.Consistency.{step-IsConsistent}

-- Confirming takes no request back, and sends none before the sign-in is settled.
confirm-length :
    (ready : Bool) (id : String) (b : SideBar) → length b.sent ≤ length (confirm ready id b).sent
unfolding confirm apply_actions send_batch apply_message
confirm-length ready id b = grind (arith, length-append)

confirm-unready : (id : String) (b : SideBar) → (confirm false id b).sent ≡ b.sent
unfolding confirm apply_actions send_batch apply_message
confirm-unready id b = ground arith

module _ (rt : Runtime) (readers : Readers) where
  click_lane-IsSound :
      (name : String) (c : Click) (s : Session)
      → IsSound s
      → IsSound (click_lane rt readers name c s)
  unfolding click_lane
  click_lane-IsSound name c s o =
      elim (find (λ (a : Application). a.name == name) (values (overview_of s).applications))
        as (λ (found : Option Application). IsSound (elim found [
          | none ↦ s
          | some a ↦
              set_lane name
                (Menu.click a (lane_environments name (overview_of s)) c (lane_of s name)) s
        ])) [
          | none ↦ o
          | some a ↦
              let envs = lane_environments name (overview_of s) in
              set_lane-IsSound name (Menu.click a envs c (lane_of s name)) s
                (click-IsValid a envs c (lane_of s name) o.consistent.cart_valid)
                (click-IsSelection a envs c (lane_of s name) (o.selections name)) o
        ]

  -- A click is harmless if its handler keeps the page sound, whatever is typed and whatever id is drawn.
  module _ (choose : String → List String → List String) where
    abbrev pub Harmless : Clicked → Type 0
    Harmless e =
        (text lock_id : String) (s : Session)
        → IsSound s
        → IsSound (handle rt readers choose text lock_id e s)

    plans-Harmless :
        (change : Cart → Cart)
        → ((cart : Cart) → IsValid cart → IsValid (change cart))
        → Harmless (plans change)
    unfolding handle
    plans-Harmless change keeps text id s o =
        set_cart-IsSound (change (cart_of s)) s (keeps (cart_of s) o.consistent.cart_valid) o

    additions : (change : Cart → Cart) → Adds change → Harmless (plans change)
    additions change (actions, adds) =
        plans-Harmless change λ cart v. rw (adds cart) (append_action-IsValid actions cart v)

    confirms-Harmless : Harmless confirms
    unfolding handle step
    confirms-Harmless text id s o =
        let ready = s.startup.auth.auth_ready in
        let b = side_bar_of s in
        let longer = confirm-length ready id b in
        set_side_bar-IsSound (confirm ready id b) s
          (step-IsConsistent readers.stringify rt.locale_compare (Apply.confirms ready id) b
            o.consistent)
          (elim (Bool-cases ready) [
            | inl settled ↦ λ later. settled
            | inr unready ↦ λ later. o.authorised (rw (unready, confirm-unready id b) at later)
          ])
          (omega (arith, longer, o.answered_sent)) o

    -- The clicks on the side bar that send nothing.
    applies-Harmless : Harmless applies
    unfolding handle step click_apply
    applies-Harmless text id s o =
        quiet-IsSound (click_apply (side_bar_of s)) s
          (step-IsConsistent readers.stringify rt.locale_compare clicks_apply (side_bar_of s)
            o.consistent)
          (ground arith) o

    cancels-Harmless : Harmless cancels
    unfolding handle step cancel_confirmation
    cancels-Harmless text id s o =
        quiet-IsSound (cancel_confirmation (side_bar_of s)) s
          (step-IsConsistent readers.stringify rt.locale_compare Apply.cancels (side_bar_of s)
            o.consistent)
          refl o

    types-Harmless : Harmless types
    unfolding handle step update_message
    types-Harmless text id s o =
        quiet-IsSound (update_message text (side_bar_of s)) s
          (step-IsConsistent readers.stringify rt.locale_compare (Apply.types text) (side_bar_of s)
            o.consistent)
          refl o

    pub Harmless-Covers : Covers Harmless rt readers clicked
    unfolding handle
    Harmless-Covers = record {
      additions = additions;
      deletions =
          λ a. plans-Harmless _ (delete_action-IsValid readers.stringify rt.locale_compare a);
      openings = λ name version text id s o. set_params-IsSound rt readers _ s o;
      closing = λ text id s o. set_params-IsSound rt readers _ s o;
      lane_clicks = λ name c text id s o. click_lane-IsSound name c s o;
      sorting_environment_locks = λ text id s o. tables-IsSound _ s.application_table s o;
      sorting_application_locks = λ text id s o. tables-IsSound s.environment_table _ s o;
      teams = λ team text id s o. set_params-IsSound rt readers _ s o;
      searching = λ text id s o. set_params-IsSound rt readers _ s o;
      toggling = λ text id s o.
          set_cart-IsSound _ s (IsValid-actions _ (cart_of s) refl o.consistent.cart_valid) o;
      typing = types-Harmless;
      applying = applies-Harmless;
      confirming = confirms-Harmless;
      cancelling = cancels-Harmless;
    }
