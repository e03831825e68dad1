-- ===== src/LocksPage/Clicks.antt =====
-- In which order a table of locks stands.
use mathlib.Core.List.{Perm}
use mathlib.Core.List.Perm
use kuberpult.Prelude.{ℕ, zero, suc, ◌≡◌, refl, sym, subst, List, All, IsSorted, sort_by-All}
use kuberpult.Store.Locks.{DisplayLock}
use kuberpult.Store.Locks.Sort.{
  Sorting, oldest_to_newest, newest_to_oldest, sort_locks, Value, ShowsDateFirst, InOrder,
  sort_locks-IsSorted, compare_locks,
}
use kuberpult.LocksPage.{Table, opposite, opened, sort_on_click}

opposite-opposite : (s : Sorting) → opposite (opposite s) ≡ s
opposite-opposite oldest_to_newest = refl
opposite-opposite newest_to_oldest = refl

module _ (values_of : DisplayLock → List Value) where
  -- `n` clicks on the sort button
  abbrev pub clicks : ℕ → Table → Table
  clicks zero t = t
  clicks (suc n) t = clicks n (sort_on_click values_of t)

  -- The rows stand in the order that the next click replaces: the state names the order to come.
  pub record IsOrdered (locks : List DisplayLock) (t : Table) : Type 0 where
    pub dated : All (ShowsDateFirst values_of) t.locks
    pub in_order : IsSorted (InOrder (opposite t.sort)) t.locks
    pub same_rows : Perm t.locks locks

  opened-IsOrdered :
      (locks : List DisplayLock)
      → All (ShowsDateFirst values_of) locks
      → IsOrdered locks (opened (sort_locks values_of oldest_to_newest locks))
  unfolding sort_locks
  opened-IsOrdered locks h =
      let (sorted, same) = sort_locks-IsSorted values_of oldest_to_newest locks h in
      record {
        dated =
            sort_by-All (compare_locks values_of oldest_to_newest) (ShowsDateFirst values_of) locks
              h;
        in_order = sorted;
        same_rows = same;
      }

  sort_on_click-IsOrdered :
      (locks : List DisplayLock) (t : Table)
      → IsOrdered locks t
      → IsOrdered locks (sort_on_click values_of t)
  unfolding sort_on_click sort_locks
  sort_on_click-IsOrdered locks t o =
      let (sorted, same) = sort_locks-IsSorted values_of t.sort t.locks o.dated in
      record {
        dated =
            sort_by-All (compare_locks values_of t.sort) (ShowsDateFirst values_of) t.locks o.dated;
        in_order =
            subst (λ s. IsSorted (InOrder s) (sort_locks values_of t.sort t.locks))
              (sym (opposite-opposite t.sort)) sorted;
        same_rows = Perm.trans same o.same_rows;
      }

  clicks_keep :
      (n : ℕ) (locks : List DisplayLock) (t : Table)
      → IsOrdered locks t
      → IsOrdered locks (clicks n t)
  clicks_keep zero locks t o = o
  clicks_keep (suc n) locks t o =
      clicks_keep n locks (sort_on_click values_of t) (sort_on_click-IsOrdered locks t o)

  -- A table of the locks page, whose rows all have a date and show it first, has all its locks, and
  -- after any number of clicks on the sort button they stand in the order opposite to the one that
  -- its state names, earliest first at the beginning.
  pub clicks-IsOrdered :
      (n : ℕ) (locks : List DisplayLock)
      → All (ShowsDateFirst values_of) locks
      → IsOrdered locks (clicks n (opened (sort_locks values_of oldest_to_newest locks)))
  clicks-IsOrdered n locks h =
      clicks_keep n locks (opened (sort_locks values_of oldest_to_newest locks))
        (opened-IsOrdered locks h)
