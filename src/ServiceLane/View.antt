-- ===== src/ServiceLane/View.antt =====
-- What ServiceLane.tsx, DotsMenu.tsx, EnvSelectionDialog.tsx and Pages/Home/Home.tsx render.
use kuberpult.Prelude.{
  ℕ, ◌+◌, String, Bool, true, false, Option, none, some, List, [], ◌∷◌, ◌==◌, if◌then◌else◌, concat,
  map, flat_map, not, eqb, leb, length, truthy, any,
}
use kuberpult.Api.{FrontendConfig, Environment, Application, Overview}
use kuberpult.Store.Cart.{Cart}
use kuberpult.Store.Locks.{}
use kuberpult.Store.Overview.{
  Result, throws, returns, deployed_releases, releases_for_app, versions_for_app,
  currently_exists_at_group, EnvironmentGroupExtended, filtered_application_locks, filtered_apps,
  searched_applications,
}
use kuberpult.Store.Rollout.{RolloutStatusApplication}
use kuberpult.View.{Html, text_node, element, button, children, div, titled, plain, when, Runtime}
use kuberpult.View.Results.{map_result, and_then, each}
use kuberpult.View.Widgets.{confirmation_dialog}
use kuberpult.View.Widgets
use kuberpult.Chips.View.{warning_boxes}
use kuberpult.ReleaseCard.View.{release_card}
use kuberpult.ServiceLane.Display.{ℤ, pos, negsuc, get_releases_to_display, diffs}
use kuberpult.ServiceLane.Menu.{
  Lane, Click, open_menu, leave_menu, menu_button, checkbox, confirm, cancel,
  derive_undeploy_message,
}
use kuberpult.App.{GlobalLoadingState, everything_loaded}
use kuberpult.App.Loading.{loading_state_spinner}

-- The versions of the cards, unless one is `undefined`.
abbrev pub all_present : List (Option ℕ) → Option (List ℕ)
all_present [] = some []
all_present (none ∷ xs) = none
all_present (some x ∷ xs) = elim (all_present xs) [ none ↦ none | some ys ↦ some (x ∷ ys) ]

abbrev pub zip : List ℕ → List ℤ → List (ℕ × ℤ)
zip (x ∷ xs) (y ∷ ys) = (x, y) ∷ zip xs ys
zip _ _ = []

abbrev pub nonzero : ℤ → Bool
nonzero (pos n) = not (eqb n 0)
nonzero (negsuc n) = true

abbrev pub with_index : {A : Type 0} → ℕ → List A → List (ℕ × A)
with_index i [] = []
with_index i (x ∷ xs) = (i, x) ∷ with_index (i + 1) xs

-- `envs`, by name
unfoldable pub lane_environments : (app : String) → Overview → List String
lane_environments app o =
    map (λ (e : Environment). e.name)
      (flat_map (λ (g : EnvironmentGroupExtended). g.environments)
        (currently_exists_at_group app o.environment_groups))

module _ {E : Type 0} (rt : Runtime) (clicks : (app : String) → Click → E) where
  abbrev pub integer_text : ℤ → String
  integer_text (pos n) = rt.number_text n
  integer_text (negsuc n) = concat ("-" ∷ rt.number_text (n + 1) ∷ [])

  -- `DiffElement`
  unfoldable pub diff_element : (diff : ℤ) (title : String) → Html E
  diff_element diff title =
      titled "div" title
        (div [] ∷ div [] ∷ div (text_node (integer_text diff) ∷ []) ∷ div [] ∷ div [] ∷ [])

  -- `AppLockSummary`
  unfoldable pub app_lock_summary : (app : String) (num_locks : ℕ) → Html E
  app_lock_summary app num_locks =
      titled "div"
        (concat (
          "\""
          ∷ app
          ∷ "\" has "
          ∷ rt.number_text num_locks
          ∷ " application "
          ∷ (if eqb num_locks 1 then "lock" else "locks")
          ∷ ". Click on a tile to see details."
          ∷ []))
        (div (text_node " " ∷ []) ∷ [])

  -- The labels of `buttons`
  unfoldable pub menu_labels : Application → List String
  menu_labels application =
      "View History"
      ∷ "Remove environment from app"
      ∷ (elim (derive_undeploy_message application.undeploy_summary) [
        | none ↦ []
        | some s ↦ s ∷ []
      ])

  -- `DotsMenu`; that the mouse leaves the open menu is an event of its element.
  unfoldable pub dots_menu : Application → (is_open : Bool) → Html E
  dots_menu application is_open =
      if not is_open
      then div (button "⋮" false (some (clicks application.name open_menu)) ∷ [])
      else element "div" none (some (clicks application.name leave_menu)) (
          children (
            plain "ul" (
              map
                (λ (entry : ℕ × String). plain "li" (
                  button (entry.1) false (some (clicks application.name (menu_button (entry.0))))
                  ∷ []))
                (with_index 0 (menu_labels application)))
            ∷ []))

  -- `EnvSelectionDialog`
  unfoldable pub env_selection_dialog :
      (app : String) (envs : List String) (is_open : Bool) (selected_envs : List String) → Html E
  env_selection_dialog app envs is_open selected_envs =
      confirmation_dialog (clicks app confirm) (clicks app cancel) is_open
        "Select all environments to be removed:" "Remove app from environments"
        (div (
          map
            (λ (entry : ℕ × String). div (
              Widgets.checkbox (some (clicks app (checkbox (entry.0))))
                (any (λ e. e == entry.1) selected_envs) (entry.1)
              ∷ []))
            (with_index 0 envs)))

module _ {E : Type 0} (rt : Runtime) (config : FrontendConfig) (plans : (Cart → Cart) → E)
    (opens : (app : String) (version : ℕ) → E) (clicks : (app : String) → Click → E)
    (rollout : String → Bool × RolloutStatusApplication) where
  -- A card of `releases_lane` with its diff.
  unfoldable pub release_with_diff : Overview → (app : String) → ℕ × ℤ → Result (Html E)
  release_with_diff o app (rel, diff) =
      map_result
        (λ card. div (
          card
          ∷ when (nonzero diff) (
              diff_element rt clicks diff (
                concat (
                  "There are "
                  ∷ integer_text rt clicks diff
                  ∷ " more releases hidden. Click on History to view more"
                  ∷ [])))))
        (release_card rt config plans opens o rollout app rel)

  -- `releases_lane`; a card without a version throws.
  unfoldable pub releases_lane :
      Overview → (app : String) (all_releases : List ℕ) → Result (List (Html E))
  releases_lane o app all_releases =
      elim (all_present
        (get_releases_to_display (deployed_releases app o.environment_groups) all_releases)) [
          | none ↦
              throws (concat ("Release cannot be found for app " ∷ app ∷ " version undefined" ∷ []))
          | some releases ↦
              each (release_with_diff o app) (zip releases (diffs all_releases releases))
        ]

  -- What `ServiceLane` renders around its cards.
  abbrev pub lane_view : Overview → Lane → Application → List (Html E) → Html E
  lane_view o lane application cards =
      let app_locks = filtered_application_locks (some application.name) o.environment_groups in
      let team =
        if truthy application.team
        then concat (application.team ∷ " | " ∷ [])
        else "<No Team> | " in
      div (
        env_selection_dialog rt clicks application.name (lane_environments application.name o)
          lane.show_env_selection_dialog lane.selected_envs
        ∷ div (
            div (
              text_node (concat (team ∷ application.name ∷ []))
              ∷ when (leb 1 (length app_locks))
                  (div (app_lock_summary rt clicks application.name (length app_locks) ∷ [])))
            ∷ div (dots_menu rt clicks application lane.menu_open ∷ [])
            ∷ [])
        ∷ div (warning_boxes rt config application ∷ [])
        ∷ div cards
        ∷ [])

  -- `ServiceLane`; reading the versions sorts the releases in the store.
  unfoldable pub service_lane : Overview → Lane → Application → Result (Html E)
  service_lane o lane application =
      let sorted = (releases_for_app application.name o).1 in
      and_then (versions_for_app application.name o) λ all_releases.
        map_result (lane_view sorted lane application)
          (releases_lane sorted application.name all_releases)

  -- `Home`, for the state of each lane, the teams in the page's address and its parameter
  -- `application`
  unfoldable pub home :
      Overview
      → (lanes : String → Lane) (teams : List String) (app_name : String) → GlobalLoadingState
      → Result (Html E)
  home o lanes teams app_name l =
      let apps =
        searched_applications rt.includes rt.locale_compare (filtered_apps rt.trim teams o)
          app_name in
      if not (everything_loaded l)
      then returns (loading_state_spinner l)
      else map_result (plain "main")
          (each (λ (app : Application). service_lane o (lanes app.name) app) apps)
