-- ===== src/LocksPage/Shown.antt =====
-- What can be clicked on the page of the locks.
use kuberpult.Prelude.{
  ◌≡◌, refl, ap, String, Bool, true, false, none, some, Option, List, [], ◌∷◌, ◌++◌, map, get_or, ℕ,
  opt_truthy, append-nil,
}
use kuberpult.Store.Cart.{Cart, add_action}
use kuberpult.Store.Locks.{DisplayLock}
use kuberpult.View.{text_node, text_nodes, when, div, offered, offered_by, children, Runtime}
use kuberpult.View.Offers.{offered_by-append}
use kuberpult.View.Widgets.{formatted_date}
use kuberpult.App.{GlobalLoadingState, everything_loaded}
use kuberpult.EnvironmentCard.Removals.{removal, delete_lock-removal}
use kuberpult.EnvironmentCard.View.{lock_display}
use kuberpult.LocksPage.{Table}
use kuberpult.LocksPage.View.{locks_table, locks_page}

module _ {E : Type 0} (rt : Runtime) (plans : (Cart → Cart) → E) where
  date-offered :
      (d : Option ℕ)
      → offered_by
          (children (elim d [ none ↦ [] | some date ↦ formatted_date {E = E} rt date ∷ [] ]))
        ≡ []
  unfolding offered formatted_date
  date-offered none = refl
  date-offered (some date) = refl

  texts-offered : (s : Option String) → offered_by (children (text_nodes {E = E} s)) ≡ []
  unfolding offered
  texts-offered none = refl
  texts-offered (some s) = refl

  when-offered :
      (b : Bool) (s : String) → offered_by (children (when b (div {E = E} (text_node s ∷ [])))) ≡ []
  unfolding offered
  when-offered true s = refl
  when-offered false s = refl

  lock_display-offered :
      (l : DisplayLock) → offered (lock_display rt plans l) ≡ plans (add_action (removal l)) ∷ []
  unfolding lock_display offered
  lock_display-offered l =
      rw
        (
          offered_by-append,
          offered_by-append,
          date-offered l.date,
          when-offered (opt_truthy l.application) (get_or l.application ""),
          texts-offered l.author_name,
          texts-offered l.author_email,
          delete_lock-removal l,
        )
        refl

  rows-offered :
      (ls : List DisplayLock)
      → offered_by (children (map (lock_display rt plans) ls))
        ≡ map (λ l. plans (add_action (removal l))) ls
  unfolding offered
  rows-offered [] = refl
  rows-offered (l ∷ ls) =
      rw (lock_display-offered l) (ap (λ es. plans (add_action (removal l)) ∷ es) (rows-offered ls))

  -- Once everything is loaded, the page of the locks offers to sort the environment locks, then in
  -- the order of their rows the removal of each of these, and the same for the application locks. A
  -- removal plans one action: for a row with an application, to delete the lock with the row's id of
  -- this application in the row's environment, and else to delete the lock with that id of the
  -- environment.
  pub locks_page-offered :
      (sorts_environments sorts_applications : E) (environment_table application_table : Table)
      (l : GlobalLoadingState)
      → everything_loaded l ≡ true
      → offered (
          locks_page rt plans sorts_environments sorts_applications environment_table
            application_table l)
        ≡ sorts_environments ∷ map (λ l. plans (add_action (removal l))) environment_table.locks
          ++ sorts_applications ∷ map (λ l. plans (add_action (removal l))) application_table.locks
  unfolding locks_page locks_table offered
  locks_page-offered sorts_environments sorts_applications environment_table application_table l
        loaded =
      rw (locks_page, loaded)
        (simp
          (append-nil, rows-offered environment_table.locks, rows-offered application_table.locks))
