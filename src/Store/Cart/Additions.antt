-- ===== src/Store/Cart/Additions.antt =====
-- Changes of the cart that add actions: what the buttons of the page do to it.
use kuberpult.Prelude.{◌≡◌, refl, List, [], ◌∷◌}
use kuberpult.Api.{BatchAction}
use kuberpult.Store.Cart.{Cart, add_action, append_action}

-- The change adds some actions, the same whatever is in the cart.
abbrev pub Adds : (Cart → Cart) → Type 0
Adds change =
    (actions : List BatchAction) × ((cart : Cart) → change cart ≡ append_action actions cart)

pub Adds-add_action : (a : BatchAction) → Adds (add_action a)
unfolding append_action
Adds-add_action a = (a ∷ [], λ cart. refl)

pub Adds-append_action : (actions : List BatchAction) → Adds (append_action actions)
Adds-append_action actions = (actions, λ cart. refl)
