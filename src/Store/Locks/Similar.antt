-- ===== src/Store/Locks/Similar.antt =====
-- `useLocksSimilarTo`, and the locks of one id as its comment describes them.
use kuberpult.Prelude.{
  ◌≡◌, refl, true, ◌&&◌, not, none, some, List, arith, ◌==◌, All, All-map, All-flat_map, All-imp,
  is_some, find_of_mem, filter, All-every, filter_congr,
}
use mathlib.Core.List.{Memᴰ}
use kuberpult.Api.{Environment, BatchAction}
use kuberpult.Store.Locks.{
  DisplayLock, AllLocks, similar_to, DeleteActionData, values, all_locks, environment_locks_of,
  app_locks_of, environment_lock_row, application_lock_row, deletes_lock, is_in_cart,
  extract_delete_action_data, is_similar_environment_lock, is_similar_app_lock, locks_similar_to,
}

-- In the rows of `useAllLocks` an environment lock has no application, and an application lock has
-- one.
pub all_locks_kinds :
    (envs : List Environment)
    → All (λ (l : DisplayLock). l.application ≡ none) (all_locks envs).environment_locks
      × All (λ (l : DisplayLock). is_some l.application ≡ true) (all_locks envs).app_locks
unfolding all_locks
all_locks_kinds envs =
    (All-flat_map _ environment_locks_of envs env_rows, All-flat_map _ app_locks_of envs app_rows)
  where
    env_rows :
        (env : Environment)
        → All (λ (l : DisplayLock). l.application ≡ none) (environment_locks_of env)
    env_rows env =
        All-map _ (environment_lock_row env) (values env.locks)
          (All-every _ (λ lock. refl) (values env.locks))

    app_rows :
        (env : Environment)
        → All (λ (l : DisplayLock). is_some l.application ≡ true) (app_locks_of env)
    app_rows env = All-flat_map _ _ (values env.applications) λ app.
        All-map _ (application_lock_row env app) (values app.locks)
          (All-every _ (λ lock. refl) (values app.locks))

module _ (item : BatchAction) (actions : List BatchAction) (d : DeleteActionData)
    (planned : Memᴰ item actions) (deletes : extract_delete_action_data item.action ≡ some d) where
  -- The lock that the planned action deletes is in the cart.
  own_lock_in_cart :
      (l : DisplayLock) → deletes_lock l (some d) ≡ true → is_in_cart actions l ≡ true
  unfolding is_in_cart
  own_lock_in_cart l h =
      let (found, e) =
        find_of_mem (λ (a : BatchAction). deletes_lock l (extract_delete_action_data a.action))
          actions planned (rw deletes h) in
      rw e

  similar_environment_lock-eq :
      (l : DisplayLock)
      → l.application ≡ none
      → (not (is_in_cart actions l) && is_similar_environment_lock d l)
        ≡ (l.lock_id == d.lock_id && not (is_in_cart actions l))
  unfolding is_similar_environment_lock deletes_lock
  similar_environment_lock-eq l e = ground (arith, own_lock_in_cart l)

  similar_app_lock-eq :
      (l : DisplayLock)
      → (not (is_in_cart actions l) && is_similar_app_lock d l)
        ≡ (l.lock_id == d.lock_id && not (is_in_cart actions l))
  unfolding is_similar_app_lock deletes_lock
  similar_app_lock-eq l = ground (arith, own_lock_in_cart l)

  locks_similar_to-eq-similar_to :
      (locks : AllLocks) → locks_similar_to (some item) actions locks ≡ similar_to d actions locks
  unfolding locks_similar_to
  locks_similar_to-eq-similar_to locks = rw (locks_similar_to, deletes)

  -- For a planned action that deletes a lock, the similar locks are, in order, exactly the locks of
  -- the overview with the same lock id whose deletion is not planned.
  pub locks_similar_to-eq-filter :
      (envs : List Environment)
      → let locks = all_locks envs in
        let similar = locks_similar_to (some item) actions locks in
        (similar.environment_locks
          ≡ filter
              (λ l. l.lock_id == d.lock_id && not (is_in_cart actions l))
              locks.environment_locks)
        × (similar.app_locks
            ≡ filter (λ l. l.lock_id == d.lock_id && not (is_in_cart actions l)) locks.app_locks)
  unfolding similar_to
  locks_similar_to-eq-filter envs =
      let (no_app, _) = all_locks_kinds envs in
      rw locks_similar_to-eq-similar_to (
        filter_congr _ _ (all_locks envs).environment_locks
            (All-imp _ _ similar_environment_lock-eq (all_locks envs).environment_locks no_app),
        filter_congr _ _ (all_locks envs).app_locks
            (All-every _ similar_app_lock-eq (all_locks envs).app_locks),
      )
