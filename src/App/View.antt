-- ===== src/App/View.antt =====
-- What App/index.tsx, App/PageRoutes.tsx and components/TopAppBar/TopAppBar.tsx render.
pub mod Accepted
pub mod Shown
use kuberpult.Prelude.{
  ℕ, String, Bool, true, false, ◌&&◌, not, Option, none, some, List, [], ◌∷◌, ◌++◌, ◌==◌,
  if◌then◌else◌, concat, eqb, length, truthy,
}
use kuberpult.Api.{FrontendConfig, Overview, BatchAction}
use kuberpult.Store.Cart.{Cart}
use kuberpult.Store.Dialog.{Params, release_dialog_params}
use kuberpult.Store.Overview.{Result, throws, returns, all_warnings, team_names, lookup}
use kuberpult.Store.Rollout.{RolloutStatusStore, rollout_status}
use kuberpult.View.{Html, text_node, element, button, children, div, span, plain, Runtime}
use kuberpult.View.Results.{map_result, and_then}
use kuberpult.App.{GlobalLoadingState}
use kuberpult.Authentication.{
  FrontendConfigStore, AzureAuthSub, azure_auth_provider, use_azure_auth,
}
use kuberpult.EnvironmentCard.View.{environments_page}
use kuberpult.Dates.{date_format}
use kuberpult.LocksPage.{Table}
use kuberpult.LocksPage.View.{locks_page}
use kuberpult.Navigation.{
  Route, environments_route, locks_route, home_route, releases_route, navigate, navigation_bar,
  snackbar_view,
}
use kuberpult.ReleaseCard.View.{releases_page}
use kuberpult.ReleaseDialog.View.{release_dialog}
use kuberpult.Search.{home_teams, app_name_param}
use kuberpult.Search.View.{dropdown, textfield}
use kuberpult.ServiceLane.Menu.{Lane, Click}
use kuberpult.ServiceLane.View.{home}
use kuberpult.SideBar.Apply.{SideBar}
use kuberpult.SideBar.View.{side_bar}

-- The events of the page, by what is clicked.
pub record Events (E : Type 0) : Type 0 where
  pub plans : (Cart → Cart) → E
  pub opens : (app : String) (version : ℕ) → E
  pub closes : E
  pub clicks : (app : String) → Click → E
  pub sorts_environment_locks : E
  pub sorts_application_locks : E
  pub changes_teams : String → E
  pub searches : E
  pub toggles : E
  pub types : E
  pub applies : E
  pub confirms : E
  pub cancels : E

-- What is read besides: `split(',')` of a text, `Number` of a text, `JSON.stringify` of an action, and
-- the parts of a time with `toDateString` of it.
pub record Readers : Type 0 where
  pub split : String → List String
  pub read_number : String → Option ℕ
  pub stringify : BatchAction → String
  pub get_month : ℕ → ℕ
  pub get_date : ℕ → ℕ
  pub get_full_year : ℕ → ℕ
  pub date_string : ℕ → String

-- The stores and the states of the components; the route is the one that the router has matched,
-- `last_part` the end of the page's path, and `href`
-- its address.
pub record Frontend : Type 0 where
  pub config : FrontendConfigStore
  pub auth : AzureAuthSub
  pub is_authenticated : Bool
  pub overview : Overview
  pub overview_loaded : Bool
  pub rollout : RolloutStatusStore
  pub side_bar : SideBar
  pub lanes : String → Lane
  pub environment_table : Table
  pub application_table : Table
  pub params : Params
  pub search : Option String
  pub route : Option Route
  pub last_part : String
  pub href : String

-- The second part of what `useGlobalLoadingState` returns.
unfoldable pub global_loading_state : Frontend → GlobalLoadingState
global_loading_state f = record {
  config_ready = f.config.config_ready;
  is_authenticated = f.is_authenticated;
  azure_auth_enabled = use_azure_auth f.config.configs;
  overview_loaded = f.overview_loaded;
}

module _ {E : Type 0} (rt : Runtime) (readers : Readers) (ev : Events E) where
  -- `TopAppBar`
  unfoldable pub top_app_bar : Frontend → Html E
  top_app_bar f =
      let query = lookup "application" f.params in
      let warnings = all_warnings f.overview in
      let rendered_warnings =
        if eqb (length warnings) 0
        then text_node ""
        else div (
            text_node "There are "
            ∷ text_node (rt.number_text (length warnings))
            ∷ text_node " warnings total."
            ∷ []) in
      let version = f.config.configs.kuberpult_version in
      div (
        div (
          div (span (text_node "Kuberpult v" ∷ text_node version ∷ []) ∷ [])
          ∷ div (rendered_warnings ∷ [])
          ∷ div (
              textfield rt.includes ev.searches f.href (some "Application Name") (some "search")
                query
              ∷ dropdown readers.split ev.changes_teams "Teams"
                  (team_names rt.trim rt.locale_compare f.overview) f.params
              ∷ [])
          ∷ div (
              plain "strong" (text_node "Planned Actions" ∷ [])
              ∷ button "" false (some ev.toggles)
              ∷ side_bar rt f.config.configs readers.stringify ev.plans ev.toggles ev.types
                  ev.applies ev.confirms ev.cancels f.overview f.side_bar
              ∷ [])
          ∷ [])
        ∷ [])

  -- `PageRoutes`, for the route that is matched
  unfoldable pub page_routes : Frontend → Result (List (Html E))
  page_routes f =
      let config = f.config.configs in
      let l = global_loading_state f in
      let shown = map_result (λ (page : Html E). page ∷ []) in
      elim f.route [
        | none ↦ returns []
        | some route ↦ elim route [
          | environments_route ↦
              shown (environments_page rt config ev.plans f.overview.environment_groups l)
          | locks_route ↦ returns (
              locks_page rt ev.plans ev.sorts_environment_locks ev.sorts_application_locks
                f.environment_table f.application_table l
              ∷ [])
          | home_route ↦ shown (
              home rt config ev.plans ev.opens ev.clicks (λ app. rollout_status app f.rollout)
                f.overview f.lanes (home_teams readers.split f.params) (app_name_param f.params) l)
          | releases_route ↦ shown (
              releases_page rt config ev.plans ev.opens
                (date_format rt.number_text readers.get_month readers.get_date
                  readers.get_full_year)
                readers.date_string f.last_part f.overview l)
          | navigate _ _ ↦ returns []
        ]
      ]

  -- The dialog of `App`
  unfoldable pub dialog_of : Frontend → Result (List (Html E))
  dialog_of f =
      elim (release_dialog_params rt.number_text readers.read_number f.overview f.params) [
        | none ↦ returns []
        | some (app, version) ↦
            if truthy app && not (eqb version 0)
            then map_result (λ (dialog : Html E). dialog ∷ [])
                (release_dialog rt f.config.configs ev.plans f.overview ev.closes app version)
            else returns []
      ]

  -- `App`
  unfoldable pub app : Frontend → Result (Html E)
  app f = azure_auth_provider f.config f.is_authenticated f.auth (
      and_then (dialog_of f) λ dialog.
        map_result
          (λ page. div (
            dialog
            ++ navigation_bar f.search
              ∷ div (top_app_bar f ∷ page ++ snackbar_view f.side_bar.cart.snackbar ∷ [])
              ∷ []))
          (page_routes f))
