-- ===== src/SideBar/DeleteAll/Additions.antt =====
-- "Delete them all!" adds actions to the cart, also where it throws halfway.
use kuberpult.Prelude.{
  ◌≡◌, refl, Option, none, some, List, [], ◌∷◌, ◌++◌, Option-cases, inl, inr, ap, sym,
}
use kuberpult.Api.{BatchAction}
use kuberpult.Store.Cart.{Cart, append_action}
use kuberpult.Store.Cart.Additions.{Adds}
use kuberpult.Store.Cart.Planning.{append_action-append}
use kuberpult.Store.Locks.{DisplayLock, AllLocks}
use kuberpult.SideBar.DeleteAll.{
  Missing, Outcome, add_each, and_then, handle_add_all, check_app_lock, check_env_lock,
  app_lock_action, delete_env_lock_action,
}

-- What a loop adds, and the error that it throws, which do not depend on the cart.
abbrev Runs : (Cart → Outcome) → Type 0
Runs loop =
    (actions : List BatchAction) × (e : Option Missing) × ((cart : Cart)
      → loop cart ≡ (append_action actions cart, e))

Runs-add_each :
    (check : DisplayLock → Option Missing) (action : DisplayLock → BatchAction)
    (locks : List DisplayLock)
    → Runs (add_each check action locks)
unfolding add_each append_action
Runs-add_each check action [] = ([], none, λ cart. refl)
Runs-add_each check action (l ∷ locks) = elim (Option-cases (check l)) [
  | inr (e, fails) ↦ ([], some e, λ cart. rw (add_each, fails) refl)
  | inl passes ↦
      let (actions, e, same) = Runs-add_each check action locks in
      (action l ∷ actions, e, λ cart. rw (add_each, passes) (same _))
]

Runs-and_then :
    (first rest : Cart → Outcome)
    → Runs first
    → Runs rest
    → Runs (λ cart. and_then (first cart) rest)
Runs-and_then first rest (xs, some e, same) h = (xs, some e, λ cart. rw (same cart) refl)
Runs-and_then first rest (xs, none, same) (ys, e, same_rest) = (
  xs ++ ys,
  e,
  λ cart. rw (same cart, same_rest) (ap (λ c. (c, e)) (sym (append_action-append xs ys cart))),
)

pub Adds-handle_add_all : (similar : AllLocks) → Adds (λ cart. (handle_add_all similar cart).0)
unfolding handle_add_all
Adds-handle_add_all similar =
    let (actions, e, same) =
      Runs-and_then _ _ (Runs-add_each check_app_lock app_lock_action similar.app_locks)
        (Runs-add_each check_env_lock delete_env_lock_action similar.environment_locks) in
    (actions, λ cart. ap (λ (o : Outcome). o.0) (same cart))
