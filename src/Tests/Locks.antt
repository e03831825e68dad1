-- ===== src/Tests/Locks.antt =====
-- The locks of the test data.
use mathlib.Core.List.{Memᴰ, Perm}
use kuberpult.Prelude.{◌≡◌, refl, List, [], ◌∷◌, All, IsSorted, ◌&&◌, not, none, some, ◌==◌, filter}
use kuberpult.Store.Locks.{
  DisplayLock, all_locks, locks_similar_to, is_in_cart, extract_delete_action_data,
}
use kuberpult.Api.{BatchAction}
use kuberpult.Store.Locks.Sort.{
  sort_locks, newest_to_oldest, oldest_to_newest, environment_row_values, InOrder, ShowsDateFirst,
  sort_locks-IsSorted,
}
use kuberpult.Store.Locks.Similar.{locks_similar_to-eq-filter}
use kuberpult.LocksPage.{opened}
use kuberpult.LocksPage.Clicks.{IsOrdered, clicks, clicks-IsOrdered}
use kuberpult.Tests.Data.{envs, row_of, unlocking}

abbrev rows : List DisplayLock
rows = row_of "north" "a" none (some 10) ∷ row_of "south" "a" none (some 20) ∷ []

rows_dated : All (ShowsDateFirst environment_row_values) rows
rows_dated = ((10, refl, _, refl), ((20, refl, _, refl), tt))

sort_locks-IsSorted_example :
    IsSorted (InOrder newest_to_oldest) (sort_locks environment_row_values newest_to_oldest rows)
    × Perm (sort_locks environment_row_values newest_to_oldest rows) rows
sort_locks-IsSorted_example =
    sort_locks-IsSorted environment_row_values newest_to_oldest rows rows_dated

clicks-IsOrdered_example : IsOrdered environment_row_values rows (
    clicks environment_row_values 3
      (opened (sort_locks environment_row_values oldest_to_newest rows)))
clicks-IsOrdered_example = clicks-IsOrdered environment_row_values 3 rows rows_dated

abbrev actions : List BatchAction
actions = unlocking "north" "a" ∷ []

locks_similar_to-eq-filter_example :
    ((locks_similar_to (some (unlocking "north" "a")) actions (all_locks envs)).environment_locks
      ≡ filter
          (λ (l : DisplayLock). l.lock_id == "a" && not (is_in_cart actions l))
          (all_locks envs).environment_locks)
    × ((locks_similar_to (some (unlocking "north" "a")) actions (all_locks envs)).app_locks
        ≡ filter
            (λ (l : DisplayLock). l.lock_id == "a" && not (is_in_cart actions l))
            (all_locks envs).app_locks)
unfolding extract_delete_action_data
locks_similar_to-eq-filter_example =
    locks_similar_to-eq-filter (unlocking "north" "a") actions
      (record { env = "north"; app = none; lock_id = "a" }) (Memᴰ.head refl) refl envs
