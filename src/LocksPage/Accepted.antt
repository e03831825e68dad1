-- ===== src/LocksPage/Accepted.antt =====
-- The events of the page of the locks.
use kuberpult.Prelude.{String, false, some, List, ◌==◌, arith, Bool-cases, inl, inr}
use kuberpult.Store.Cart.{Cart}
use kuberpult.Store.Cart.Additions.{Adds}
use kuberpult.View.{button, Runtime}
use kuberpult.View.Accepts.{Accepts, AcceptsAll-map, AcceptsAll-when}
use kuberpult.App.{GlobalLoadingState, everything_loaded}
use kuberpult.App.Loading.{loading_state_spinner-Accepts}
use kuberpult.EnvironmentCard.Accepted.{lock_display-Accepts}
use kuberpult.LocksPage.{Table}
use kuberpult.LocksPage.View.{column_header, locks_table, locks_page}

module _ {E : Type 0} (Q : E → Type 0) (rt : Runtime) (plans : (Cart → Cart) → E)
    (accepts : (change : Cart → Cart) → Adds change → Q (plans change)) where
  locks_table-Accepts :
      (sorts : E) (header : String) (headers : List String) (t : Table)
      → Q sorts
      → Accepts Q (locks_table rt plans sorts header headers t)
  unfolding locks_table
  locks_table-Accepts sorts header headers t q = ground (
    arith,
    AcceptsAll-map Q (column_header rt plans sorts) headers
        (λ s. (tt, AcceptsAll-when Q (s == "Date") (button "" false (some sorts)) q)),
    AcceptsAll-map Q _ t.locks (lock_display-Accepts Q rt plans accepts),
  )

  pub locks_page-Accepts :
      (sorts_environments sorts_applications : E) (environment_table application_table : Table)
      (l : GlobalLoadingState)
      → Q sorts_environments
      → Q sorts_applications
      → Accepts Q (
          locks_page rt plans sorts_environments sorts_applications environment_table
            application_table l)
  unfolding locks_page
  locks_page-Accepts se sa te ta l qe qa = elim (Bool-cases (everything_loaded l)) [
    | inr waits ↦ rw (locks_page, waits) (loading_state_spinner-Accepts Q l)
    | inl loaded ↦
        rw (locks_page, loaded)
          (locks_table-Accepts se _ _ te qe, (locks_table-Accepts sa _ _ ta qa, tt))
  ]
