-- ===== src/SideBar/DeleteAll/Laws.antt =====
-- What "Delete them all!" achieves, and the application locks that it misses.
use kuberpult.Prelude.{
  ◌≡◌, refl, ◌<◌, true, false, ◌&&◌, not, String, Option, none, some, List, [], ◌∷◌, ◌++◌, map,
  eq_iff, arith, length, any, any-append, is_some-find, All, All-every, All-map, All-append,
  All-filter_mem, filter_none, any_of_mem, All-imp2, Option-cases, inl, inr, All-of_map,
  All-append_right,
}
use mathlib.Core.List.{Memᴰ}
use kuberpult.Api.{Action, BatchAction, Environment, delete_environment_lock}
use kuberpult.Store.Cart.{Cart, max_batch_actions, add_action}
use kuberpult.Store.Cart.Slots.{
  application_lock_deletion, conflicts_iff, slot_of, eq_slot, claims, conflicts,
}
use kuberpult.Store.Cart.Invariant.{add_action_duplicate}
use kuberpult.Store.Cart.Planning.{append_action-prefix, append_action-planned, ClaimsSlot}
use kuberpult.Store.Locks.{
  DisplayLock, AllLocks, all_locks, is_in_cart, deletes_lock, extract_delete_action_data,
  locks_similar_to, similar_to, DeleteActionData, is_similar_environment_lock,
}
use kuberpult.Store.Locks.Similar.{all_locks_kinds}
use kuberpult.SideBar.DeleteAll.{
  delete_env_lock_action, delete_app_lock_action, app_lock_action, deletions, handle_add_all,
  handle_add_all-eq, IsComplete, IsCompleteAppLock, Outcome,
}

is_in_cart-eq-any :
    (actions : List BatchAction) (l : DisplayLock)
    → is_in_cart actions l
      ≡ any (λ (a : BatchAction). deletes_lock l (extract_delete_action_data a.action)) actions
unfolding is_in_cart
is_in_cart-eq-any actions l = is_some-find _ actions

-- A lock whose deletion is planned stays in the cart when more is planned.
is_in_cart-append :
    (xs ys : List BatchAction) (l : DisplayLock)
    → is_in_cart xs l ≡ true
    → is_in_cart (xs ++ ys) l ≡ true
is_in_cart-append xs ys l h =
    rw (is_in_cart-eq-any, any-append) (ground (arith, is_in_cart-eq-any xs l))

claims_env_deletion :
    (l : DisplayLock) (o : Option Action)
    → l.application ≡ none
    → claims (slot_of (delete_env_lock_action l).action) (slot_of o)
      ≡ deletes_lock l (extract_delete_action_data o)
unfolding claims eq_slot deletes_lock extract_delete_action_data delete_env_lock_action
claims_env_deletion l (some (delete_environment_lock r)) e = ground (
  arith,
  eq_iff r.environment l.environment,
  eq_iff l.environment r.environment,
  eq_iff r.lock_id l.lock_id,
  eq_iff l.lock_id r.lock_id,
)
claims_env_deletion l o e = ground arith

planned_env_deletion :
    (l : DisplayLock) (actions : List BatchAction)
    → l.application ≡ none
    → any (conflicts (delete_env_lock_action l)) actions ≡ true
    → is_in_cart actions l ≡ true
planned_env_deletion l actions e h = rw is_in_cart-eq-any (from_any actions h)
  where
    from_any :
        (xs : List BatchAction)
        → any (conflicts (delete_env_lock_action l)) xs ≡ true
        → any (λ (a : BatchAction). deletes_lock l (extract_delete_action_data a.action)) xs ≡ true
    from_any [] k = k
    from_any (a ∷ xs) k = ground (arith, claims_env_deletion l a.action e, from_any xs)

deletions-ClaimsSlot : (similar : AllLocks) → All ClaimsSlot (deletions similar)
unfolding delete_env_lock_action delete_app_lock_action
deletions-ClaimsSlot similar =
    All-append ClaimsSlot (map app_lock_action similar.app_locks) _
      (All-map ClaimsSlot app_lock_action similar.app_locks
        (All-every _ (λ l. (_, refl)) similar.app_locks))
      (All-map ClaimsSlot delete_env_lock_action similar.environment_locks
        (All-every _ (λ l. (_, refl)) similar.environment_locks))

module _ (d : DeleteActionData) (locks : AllLocks) (xs more : List BatchAction) where
  -- If all similar environment locks are planned for deletion now, then none is similar any more.
  no_more_similar :
      All (λ (l : DisplayLock). l.application ≡ none) locks.environment_locks
      → All
          (λ l. any (conflicts (delete_env_lock_action l)) (xs ++ more) ≡ true)
          (similar_to d xs locks).environment_locks
      → (similar_to d (xs ++ more) locks).environment_locks ≡ []
  unfolding similar_to
  no_more_similar kinds planned = filter_none _ locks.environment_locks (
      All-imp2 _ _ _ not_similar locks.environment_locks kinds
        (All-filter_mem _ _ locks.environment_locks planned))
    where
      not_similar :
          (l : DisplayLock)
          → l.application ≡ none
          → ((not (is_in_cart xs l) && is_similar_environment_lock d l) ≡ true
              → any (conflicts (delete_env_lock_action l)) (xs ++ more) ≡ true)
          → (not (is_in_cart (xs ++ more) l) && is_similar_environment_lock d l) ≡ false
      not_similar l e h =
          ground (arith, is_in_cart-append xs more l, planned_env_deletion l (xs ++ more) e, h)

-- What the side bar shows as similar to the planned action.
abbrev pub similar_locks : BatchAction → List Environment → Cart → AllLocks
similar_locks item envs cart = locks_similar_to (some item) cart.actions (all_locks envs)

-- What a click on the button returns.
abbrev pub after_click : BatchAction → List Environment → Cart → Outcome
after_click item envs cart = handle_add_all (similar_locks item envs cart) cart

no_more_similar_to :
    (item : BatchAction) (locks : AllLocks) (xs more : List BatchAction)
    → All (λ (l : DisplayLock). l.application ≡ none) locks.environment_locks
    → All
        (λ l. any (conflicts (delete_env_lock_action l)) (xs ++ more) ≡ true)
        (locks_similar_to (some item) xs locks).environment_locks
    → (locks_similar_to (some item) (xs ++ more) locks).environment_locks ≡ []
unfolding locks_similar_to
no_more_similar_to item locks xs more kinds planned =
    elim (Option-cases (extract_delete_action_data item.action)) [
      | inl other ↦ rw (locks_similar_to, other)
      | inr (d, e) ↦
          rw (locks_similar_to, e)
            (no_more_similar d locks xs more kinds (rw (locks_similar_to, e) at planned))
    ]

-- If every row that the button concerns has its texts, and the cart is not full after the click,
-- then the click throws nothing, and no environment lock is left that is similar to the planned
-- action.
pub after_click-eq-none :
    (item : BatchAction) (envs : List Environment) (cart : Cart)
    → All IsCompleteAppLock (similar_locks item envs cart).app_locks
    → All IsComplete (similar_locks item envs cart).environment_locks
    → length (after_click item envs cart).0.actions < max_batch_actions
    → ((after_click item envs cart).1 ≡ none)
      × ((similar_locks item envs (after_click item envs cart).0).environment_locks ≡ [])
after_click-eq-none item envs cart apps rows room =
    let similar = similar_locks item envs cart in
    let e = handle_add_all-eq similar cart apps rows in
    let (more, f) = append_action-prefix (deletions similar) cart in
    let all_planned =
      append_action-planned (deletions similar) cart (deletions-ClaimsSlot similar)
        (rw e at room) in
    let planned =
      All-of_map _ delete_env_lock_action similar.environment_locks
        (All-append_right _ (map app_lock_action similar.app_locks) _ all_planned) in
    rw e (
      refl,
      rw f (
          no_more_similar_to item (all_locks envs) cart.actions more (all_locks_kinds envs).0
            (rw f at planned)),
    )

-- While the cart is not full, `addAction` takes the deletion of an application lock for a duplicate
-- if the deletion of a lock with the same id in the same environment is planned, whatever its
-- application: the cart stays as it is.
pub delete_app_lock_shadowed :
    (cart : Cart) (planned other : DisplayLock) (a b : String)
    → length cart.actions < max_batch_actions
    → Memᴰ (delete_app_lock_action a planned) cart.actions
    → planned.environment ≡ other.environment
    → planned.lock_id ≡ other.lock_id
    → add_action (delete_app_lock_action b other) cart ≡ cart
unfolding delete_app_lock_action
delete_app_lock_shadowed cart planned other a b room m e f = add_action_duplicate _ cart room (
    any_of_mem (conflicts (delete_app_lock_action b other)) cart.actions m (
      (conflicts_iff (delete_app_lock_action b other) (delete_app_lock_action a planned)).1
        (application_lock_deletion other.environment other.lock_id, refl, rw (e, f) refl)))
