-- ===== src/EnvironmentCard/Additions.antt =====
-- The buttons on environments and locks add actions to the cart.
use kuberpult.Prelude.{refl, [], ◌∷◌, map, some, String}
use kuberpult.Api.{Environment, EnvironmentGroup, delete_environment_lock}
use kuberpult.Store.Cart.{append_action}
use kuberpult.Store.Cart.Additions.{Adds}
use kuberpult.Store.Locks.{DisplayLock}
use kuberpult.EnvironmentCard.{
  add_lock, add_lock_action, add_group_lock, delete_lock, delete_lock_action,
  delete_environment_lock_by_id,
}

pub Adds-add_lock : (env : Environment) → Adds (add_lock env)
unfolding add_lock append_action
Adds-add_lock env = (add_lock_action env ∷ [], λ cart. refl)

pub Adds-add_group_lock : (group : EnvironmentGroup) → Adds (add_group_lock group)
unfolding add_group_lock
Adds-add_group_lock group = (map add_lock_action group.environments, λ cart. refl)

pub Adds-delete_lock : (lock : DisplayLock) → Adds (delete_lock lock)
unfolding delete_lock append_action
Adds-delete_lock lock = (delete_lock_action lock ∷ [], λ cart. refl)

pub Adds-delete_environment_lock_by_id :
    (env id : String) → Adds (delete_environment_lock_by_id env id)
unfolding delete_environment_lock_by_id append_action
Adds-delete_environment_lock_by_id env id = (
  record { action = some (delete_environment_lock (record { environment = env; lock_id = id })) }
      ∷ [],
  λ cart. refl,
)
