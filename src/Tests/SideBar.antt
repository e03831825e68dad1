-- ===== src/Tests/SideBar.antt =====
-- The side bar on a few actions.
use mathlib.Core.List.{Memᴰ}
use kuberpult.Prelude.{
  ◌≡◌, refl, List, [], ◌∷◌, ◌++◌, All, fold, arith, true, false, none, some, truthy,
}
use kuberpult.Api.{BatchAction}
use kuberpult.Store.Cart.{Cart, empty, add_action}
use kuberpult.Store.Locks.{locks_similar_to, all_locks}
use kuberpult.SideBar.DeleteAll.{delete_app_lock_action, handle_add_all}
use kuberpult.SideBar.DeleteAll.Laws.{
  similar_locks, after_click, after_click-eq-none, delete_app_lock_shadowed,
}
use kuberpult.SideBar.Apply.{
  SideBar, confirm, can_apply, step, Event, clicks_apply, types, plans, removes, succeeds, confirms,
}
use kuberpult.SideBar.Apply.Consistency.{IsConsistent, steps-IsConsistent}
use kuberpult.SideBar.Apply.Requests.{IsPrepared, batch, confirm_sends, success_discards}
use kuberpult.Store.Cart.Slots.{claims, eq_slot}
use kuberpult.Tests.Data.{deploying, locking, unlocking, envs, row_of, text_of, compare_texts}

abbrev ready : SideBar
ready = record {
  cart = record empty { actions = locking "north" ∷ deploying "north" 3 ∷ [] };
  lock_message = "release";
  show_spinner = false;
  show_confirmation_dialog = true;
  sent = [];
}

abbrev fresh : SideBar
fresh = record {
  cart = empty;
  lock_message = "";
  show_spinner = false;
  show_confirmation_dialog = false;
  sent = [];
}

abbrev session : List Event
session =
    plans (locking "north" ∷ locking "south" ∷ [])
    ∷ types "release"
    ∷ clicks_apply
    ∷ confirms true "id"
    ∷ plans (deploying "north" 3 ∷ [])
    ∷ removes (locking "south")
    ∷ []

steps-IsConsistent_example : IsConsistent (fold (step text_of compare_texts) session fresh)
steps-IsConsistent_example =
    steps-IsConsistent text_of compare_texts session fresh
      (record { cart_valid = record { within = omega arith; distinct = tt }; sent_sendable = tt })

confirm_sends_example :
    ((confirm true "id" ready).sent ≡ [] ++ batch "id" "release" ready.cart.actions ∷ [])
    × All
        (λ (a : BatchAction). IsPrepared "id" "release" a.action)
        (batch "id" "release" ready.cart.actions)
    × (truthy "release" ≡ true)
unfolding can_apply
confirm_sends_example = confirm_sends true "id" ready refl refl refl

success_discards_example :
    let requested = (confirm true "id" ready).cart.actions in
    let meanwhile =
      step text_of compare_texts (plans (locking "south" ∷ [])) (confirm true "id" ready) in
    let answered = step text_of compare_texts succeeds meanwhile in
    (meanwhile.cart.actions ≡ requested ++ locking "south" ∷ [])
    × (answered.cart.actions ≡ [])
    × (answered.sent ≡ [] ++ requested ∷ [])
unfolding confirm claims eq_slot
success_discards_example =
    success_discards text_of compare_texts "id" (locking "south") ready refl (omega arith) refl

abbrev unlocks : Cart
unlocks = record empty { actions = unlocking "north" "a" ∷ [] }

after_click-eq-none_example :
    ((after_click (unlocking "north" "a") envs unlocks).1 ≡ none)
    × ((similar_locks
          (unlocking "north" "a")
          envs
          (after_click (unlocking "north" "a") envs unlocks).0).environment_locks
        ≡ [])
unfolding locks_similar_to all_locks handle_add_all add_action
after_click-eq-none_example =
    after_click-eq-none (unlocking "north" "a") envs unlocks (((refl, refl), refl), tt)
      ((refl, refl), tt) (omega arith)

delete_app_lock_shadowed_example :
    add_action
      (delete_app_lock_action "cart" (row_of "north" "a" (some "cart") none))
      (record empty {
        actions = delete_app_lock_action "shop" (row_of "north" "a" (some "shop") none) ∷ [];
      })
    ≡ record empty {
      actions = delete_app_lock_action "shop" (row_of "north" "a" (some "shop") none) ∷ [];
    }
delete_app_lock_shadowed_example =
    delete_app_lock_shadowed
      (record empty {
        actions = delete_app_lock_action "shop" (row_of "north" "a" (some "shop") none) ∷ [];
      })
      (row_of "north" "a" (some "shop") none) (row_of "north" "a" (some "cart") none) "shop" "cart"
      (omega arith) (Memᴰ.head refl) refl refl
