-- ===== src/LocksPage/View.antt =====
-- What LocksTable.tsx and LocksPage.tsx render.
use kuberpult.Prelude.{String, false, some, List, [], ◌∷◌, ◌==◌, if◌then◌else◌, map, not}
use kuberpult.Store.Cart.{Cart}
use kuberpult.View.{Html, text_node, button, div, plain, when, Runtime}
use kuberpult.App.{GlobalLoadingState, everything_loaded}
use kuberpult.App.Loading.{loading_state_spinner}
use kuberpult.EnvironmentCard.View.{lock_display}
use kuberpult.LocksPage.{Table}

abbrev pub environment_field_headers : List String
environment_field_headers =
    "Date" ∷ "Environment" ∷ "Lock Id" ∷ "Message" ∷ "Author Name" ∷ "Author Email" ∷ "" ∷ []

abbrev pub application_field_headers : List String
application_field_headers =
    "Date" ∷ "Environment" ∷ "Application" ∷ "Lock Id" ∷ "Message" ∷ "Author Name" ∷ "Author Email"
    ∷ "" ∷ []

module _ {E : Type 0} (rt : Runtime) (plans : (Cart → Cart) → E) where
  -- The header of a column; `sorts` is a click on the button that sorts the table, whose icon shows
  -- the table's direction.
  abbrev pub column_header : (sorts : E) → String → Html E
  column_header sorts s = div (text_node s ∷ when (s == "Date") (button "" false (some sorts)))

  -- `LocksTable`
  unfoldable pub locks_table :
      (sorts : E) (header_title : String) (column_headers : List String) → Table → Html E
  locks_table sorts header_title column_headers t =
      let head = plain "thead" (
        plain "tr" (plain "th" (div (text_node header_title ∷ []) ∷ []) ∷ [])
        ∷ plain "tr" (plain "th" (div (map (column_header sorts) column_headers) ∷ []) ∷ [])
        ∷ []) in
      let body =
        plain "tbody" (plain "tr" (plain "td" (map (lock_display rt plans) t.locks) ∷ []) ∷ []) in
      div (div (plain "table" (head ∷ body ∷ []) ∷ []) ∷ [])

  -- `LocksPage`, with the tables of the environment locks and of the application locks.
  unfoldable pub locks_page :
      (sorts_environments sorts_applications : E)
      → (environment_table application_table : Table) → GlobalLoadingState
      → Html E
  locks_page sorts_environments sorts_applications environment_table application_table l =
      if not (everything_loaded l)
      then loading_state_spinner l
      else plain "main" (
          locks_table sorts_environments "Environment Locks" environment_field_headers
            environment_table
          ∷ locks_table sorts_applications "Application Locks" application_field_headers
              application_table
          ∷ [])
