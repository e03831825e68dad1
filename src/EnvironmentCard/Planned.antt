-- ===== src/EnvironmentCard/Planned.antt =====
-- What the buttons on environments and locks plan.
use kuberpult.Prelude.{◌≡◌, refl, ◌<◌, true, List, [], ◌∷◌, All, any, length, map, All-of_map}
use kuberpult.Api.{Environment, EnvironmentGroup}
use kuberpult.Store.Cart.{Cart, max_batch_actions}
use kuberpult.Store.Cart.Slots.{conflicts}
use kuberpult.Store.Cart.Planning.{append_action-planned, ClaimsSlot}
use kuberpult.EnvironmentCard.{add_lock_action, add_group_lock}

add_lock_action-ClaimsSlot : (envs : List Environment) → All ClaimsSlot (map add_lock_action envs)
add_lock_action-ClaimsSlot [] = tt
add_lock_action-ClaimsSlot (e ∷ envs) = ((_, refl), add_lock_action-ClaimsSlot envs)

-- If the cart is not full after the button of a group is clicked, a lock is planned for each of
-- its environments.
pub add_group_lock-planned :
    (group : EnvironmentGroup) (cart : Cart)
    → length (add_group_lock group cart).actions < max_batch_actions
    → All
        (λ env. any (conflicts (add_lock_action env)) (add_group_lock group cart).actions ≡ true)
        group.environments
unfolding add_group_lock
add_group_lock-planned group cart room =
    All-of_map (λ a. any (conflicts a) (add_group_lock group cart).actions ≡ true) add_lock_action
      group.environments
      (append_action-planned (map add_lock_action group.environments) cart
        (add_lock_action-ClaimsSlot group.environments) room)
