-- ===== src/ReleaseDialog/Planned.antt =====
-- What the buttons of the dialog plan.
use kuberpult.Prelude.{
  ◌≡◌, refl, ◌≢◌, ◌≤◌, ◌<◌, ◌+◌, String, true, false, [], ◌∷◌, any, length, eqb, arith,
  length-append,
}
use kuberpult.Api.{Environment, Release, BatchAction}
use kuberpult.Store.Cart.{Cart, add_action, append_action}
use kuberpult.Store.Cart.Slots.{conflicts}
use kuberpult.Store.Cart.Invariant.{add_action-actions}
use kuberpult.Store.Cart.Planning.{append_action-planned}
use kuberpult.ReleaseDialog.{
  create_app_lock_action, deploy_action, create_app_lock, deploy_and_lock_click,
}

length-add_action :
    (a : BatchAction) (cart : Cart) → length (add_action a cart).actions ≤ length cart.actions + 1
length-add_action a cart =
    ground (arith, add_action-actions a cart, length-append cart.actions (a ∷ []))

-- If fewer than 98 actions are planned, "Deploy & Lock" on a release with a version leaves a cart in
-- which the deployment of the application to the environment is planned, and a lock of the two.
pub deploy_and_lock_click-planned :
    (env : Environment) (app : String) (release : Release) (cart : Cart)
    → release.version ≢ 0
    → length cart.actions < 98
    → (any
          (conflicts (deploy_action env app release))
          (deploy_and_lock_click env app release cart).actions
        ≡ true)
      × (any
            (conflicts (create_app_lock_action env app))
            (deploy_and_lock_click env app release cart).actions
          ≡ true)
unfolding deploy_and_lock_click create_app_lock append_action
deploy_and_lock_click-planned env app release cart versioned room =
    let nonzero : eqb release.version 0 ≡ false = ground (arith, versioned) in
    let deployed = add_action (deploy_action env app release) cart in
    let (d, (l, rest)) =
      append_action-planned (deploy_action env app release ∷ create_app_lock_action env app ∷ [])
        cart ((_, refl), ((_, refl), tt))
        (omega (
          arith,
          room,
          length-add_action (deploy_action env app release) cart,
          length-add_action (create_app_lock_action env app) deployed,
        )) in
    simp nonzero (d, l)
