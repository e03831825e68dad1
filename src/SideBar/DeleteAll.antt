-- ===== src/SideBar/DeleteAll.antt =====
-- `handleAddAll` of SideBarListItem: the button that plans the deletion of all similar locks.
pub mod Additions
pub mod Laws
use kuberpult.Prelude.{
  ◌≡◌, refl, Bool, String, Option, none, some, List, [], ◌∷◌, ◌++◌, ◌==◌, truthy, opt_truthy,
  if◌then◌else◌, map, get_or, fold, All, All-imp, arith, ap, sym,
}
use kuberpult.Api.{BatchAction, delete_environment_lock, delete_environment_application_lock}
use kuberpult.Store.Cart.{Cart, add_action, append_action}
use kuberpult.Store.Cart.Planning.{append_action-append}
use kuberpult.Store.Locks.{DisplayLock, AllLocks}

-- The errors that the loops throw.
pub data Missing : Type 0 where
  environment lock_id application : Missing

-- What an action handler returns: the state that it leaves, and the error that it threw.
abbrev pub Outcome : Type 0
Outcome = Cart × Option Missing

-- The `newAction` of the two loops.
unfoldable pub delete_app_lock_action : String → DisplayLock → BatchAction
delete_app_lock_action app l = record {
  action = some (
      delete_environment_application_lock
        (record { environment = l.environment; application = app; lock_id = l.lock_id }));
}

unfoldable pub delete_env_lock_action : DisplayLock → BatchAction
delete_env_lock_action l = record {
  action =
      some (delete_environment_lock (record { environment = l.environment; lock_id = l.lock_id }));
}

-- The checks of the loops; a text that is empty or missing is falsy.
abbrev check_app_lock : DisplayLock → Option Missing
check_app_lock l =
    if truthy l.environment
    then (if truthy l.lock_id
        then (if opt_truthy l.application then none else some application)
        else some lock_id)
    else some environment

abbrev check_env_lock : DisplayLock → Option Missing
check_env_lock l =
    if truthy l.environment
    then (if truthy l.lock_id then none else some lock_id)
    else some environment

-- A loop that throws at the first row that fails its check.
add_each :
    (DisplayLock → Option Missing) → (DisplayLock → BatchAction) → List DisplayLock → Cart → Outcome
add_each check action [] cart = (cart, none)
add_each check action (l ∷ locks) cart =
    let added = add_each check action locks (add_action (action l) cart) in
    elim (check l) [ none ↦ added | some e ↦ (cart, some e) ]

abbrev pub app_lock_action : DisplayLock → BatchAction
app_lock_action l = delete_app_lock_action (get_or l.application "") l

-- The statements after a loop that may throw.
abbrev and_then : Outcome → (Cart → Outcome) → Outcome
and_then (cart, none) rest = rest cart
and_then (cart, some e) rest = (cart, some e)

-- `handleAddAll`
unfoldable pub handle_add_all : AllLocks → Cart → Outcome
unfolding add_each delete_app_lock_action delete_env_lock_action
handle_add_all similar cart =
    and_then (add_each check_app_lock app_lock_action similar.app_locks cart)
      (add_each check_env_lock delete_env_lock_action similar.environment_locks)

-- A row without an empty text, which an application lock's row names its application in.
abbrev pub IsComplete : DisplayLock → Type 0
IsComplete l = (truthy l.environment ≡ Bool.true) × (truthy l.lock_id ≡ Bool.true)

abbrev pub IsCompleteAppLock : DisplayLock → Type 0
IsCompleteAppLock l = IsComplete l × (opt_truthy l.application ≡ Bool.true)

add_each-eq :
    (check : DisplayLock → Option Missing) (action : DisplayLock → BatchAction)
    (locks : List DisplayLock) (cart : Cart)
    → All (λ l. check l ≡ none) locks
    → add_each check action locks cart ≡ (append_action (map action locks) cart, none)
unfolding add_each append_action
add_each-eq check action [] cart h = refl
add_each-eq check action (l ∷ locks) cart (e, h) =
    rw (e, add_each) (add_each-eq check action locks (add_action (action l) cart) h)

-- The actions that the handler plans for complete rows.
abbrev pub deletions : AllLocks → List BatchAction
deletions similar =
    map app_lock_action similar.app_locks ++ map delete_env_lock_action similar.environment_locks

pub handle_add_all-eq :
    (similar : AllLocks) (cart : Cart)
    → All IsCompleteAppLock similar.app_locks
    → All IsComplete similar.environment_locks
    → handle_add_all similar cart ≡ (append_action (deletions similar) cart, none)
unfolding handle_add_all
handle_add_all-eq similar cart apps envs =
    rw
      (
        handle_add_all,
        add_each-eq check_app_lock app_lock_action similar.app_locks cart
            (All-imp IsCompleteAppLock (λ l. check_app_lock l ≡ none) (λ l h. ground arith) _ apps),
        add_each-eq check_env_lock delete_env_lock_action similar.environment_locks
            (append_action (map app_lock_action similar.app_locks) cart)
            (All-imp IsComplete (λ l. check_env_lock l ≡ none) (λ l h. ground arith) _ envs),
      )
      (ap (λ c. (c, none)) (sym (append_action-append _ _ cart)))
