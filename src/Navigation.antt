-- ===== src/Navigation.antt =====
-- services/frontend-service/src/ui: App/PageRoutes.tsx, components/NavigationBar/NavigationBar.tsx,
-- components/navigation/navListItem.tsx, components/snackbar/snackbar.tsx and
-- `useNavigateWithSearchParams` of utils/store.tsx.
use kuberpult.Prelude.{
  ℕ, String, Bool, true, false, Option, none, some, List, [], ◌∷◌, concat, get_or, map,
  if◌then◌else◌,
}
use kuberpult.Store.Cart.{Snackbar, SnackbarStatus, warn}
use kuberpult.View.{Html, button, link, children, div, plain, bold}

-- The pages, and the page that the router is sent to.
pub data Route : Type 0 where
  environments_route locks_route home_route releases_route : Route
  navigate : (replace : Bool) (to : String) → Route

-- `routes`
abbrev pub routes : List (String × Route)
routes =
    ("/ui/environments/*", environments_route)
    ∷ ("/ui/locks/*", locks_route)
    ∷ ("/ui/home/*", home_route)
    ∷ ("/ui/home/releases/:appName", releases_route)
    ∷ ("/*", navigate true "/ui/home")
    ∷ []

-- `navURL` of `useNavigateWithSearchParams`, for the query of the page's address
unfoldable pub nav_url : (to : String) (search : Option String) → String
nav_url to search = concat (to ∷ get_or search "" ∷ [])

-- The address that a click on "View History" leads to.
unfoldable pub history_url : (application : String) (search : Option String) → String
history_url application = nav_url (concat ("releases/" ∷ application ∷ []))

-- Whether an item of the navigation is marked; `startsWith` is an argument.
unfoldable pub is_activated : (starts_with : String → String → Bool) (pathname to : String) → Bool
is_activated starts_with pathname to = starts_with pathname (concat ("/" ∷ to ∷ []))

module _ {E : Type 0} where
  -- `NavListItem`
  unfoldable pub nav_list_item : (search : Option String) (to : String) → Html E
  nav_list_item search to = div (div [] ∷ link to (nav_url to search) (children (div [] ∷ [])) ∷ [])

  -- `NavigationBar`
  unfoldable pub navigation_bar : (search : Option String) → Html E
  navigation_bar search = plain "aside" (
      div []
      ∷ div (
          plain "NavList"
            (map (nav_list_item search) ("ui/home" ∷ "ui/environments" ∷ "ui/locks" ∷ []))
          ∷ [])
      ∷ [])

  -- `Snackbar`
  unfoldable pub snackbar_view : Snackbar → Html E
  snackbar_view s =
      plain "aside" (div (div (bold s.content ∷ []) ∷ div (button "" false none ∷ []) ∷ []) ∷ [])

-- The effect of `Snackbar` after a render, for the component of the Material library that it holds:
-- the milliseconds after which it closes, if it is opened, and the store afterwards.
pub data Timeout : Type 0 where
  never : Timeout
  after : ℕ → Timeout

abbrev pub timeout_of : SnackbarStatus → Timeout
timeout_of warn = never
timeout_of _ = after 5000

unfoldable pub show_effect : Snackbar → Option Timeout × Snackbar
show_effect s =
    if s.show then (some (timeout_of s.status), record s { show = false }) else (none, s)
