-- ===== src/App/View/Accepted.antt =====
-- What the whole page offers to click.
use kuberpult.Prelude.{
  ℕ, ◌≡◌, String, Bool, Option, some, List, [], ◌∷◌, arith, All, Bool-cases, inl, inr, Option-cases,
  truthy, not, eqb, ◌&&◌,
}
use kuberpult.Api.{BatchAction}
use kuberpult.Store.Cart.{Cart, delete_action}
use kuberpult.Store.Cart.Additions.{Adds}
use kuberpult.Store.Dialog.{Params, release_dialog_params}
use kuberpult.Store.Overview.{Result, returns, throws, team_names, lookup}
use kuberpult.View.{Html, offered, Runtime}
use kuberpult.View.Accepts.{
  Accepts, AcceptsAll-append, AcceptsAll-map, AcceptsResult, AcceptsResults, All-offered,
  AcceptsResults-map_result, AcceptsResults-and_then,
}
use kuberpult.View.Results.{map_result}
use kuberpult.View.Widgets.{spinner, checkbox}
use kuberpult.App.View.{Events, Readers, Frontend, top_app_bar, page_routes, dialog_of, app}
use kuberpult.Authentication.{
  FrontendConfigStore, AzureAuthSub, azure_auth_provider, acquire_token_view,
}
use kuberpult.EnvironmentCard.Accepted.{environments_page-AcceptsResult}
use kuberpult.LocksPage.Accepted.{locks_page-Accepts}
use kuberpult.Navigation.{
  environments_route, locks_route, home_route, releases_route, navigate, navigation_bar,
  nav_list_item, snackbar_view,
}
use kuberpult.ReleaseCard.Accepted.{releases_page-AcceptsResult}
use kuberpult.ReleaseDialog.Accepted.{release_dialog-AcceptsResult}
use kuberpult.Search.View.{textfield, dropdown, dropdown_select}
use kuberpult.ServiceLane.Accepted.{home-AcceptsResult}
use kuberpult.ServiceLane.Menu.{Click}
use kuberpult.SideBar.Accepted.{side_bar-Accepts}

-- The property holds of every event that stands for a click, and of a change of the cart if it adds
-- actions, the same whatever the cart is, or deletes one.
pub record Covers {E : Type 0} (Q : E → Type 0) (rt : Runtime) (readers : Readers) (ev : Events E)
    : Type 0 where
  pub additions : (change : Cart → Cart) → Adds change → Q (ev.plans change)
  pub deletions :
      (a : BatchAction) → Q (ev.plans (delete_action readers.stringify rt.locale_compare a))
  pub openings : (name : String) (version : ℕ) → Q (ev.opens name version)
  pub closing : Q ev.closes
  pub lane_clicks : (name : String) (click : Click) → Q (ev.clicks name click)
  pub sorting_environment_locks : Q ev.sorts_environment_locks
  pub sorting_application_locks : Q ev.sorts_application_locks
  pub teams : (team : String) → Q (ev.changes_teams team)
  pub searching : Q ev.searches
  pub toggling : Q ev.toggles
  pub typing : Q ev.types
  pub applying : Q ev.applies
  pub confirming : Q ev.confirms
  pub cancelling : Q ev.cancels

module _ {E : Type 0} (Q : E → Type 0) where
  navigation_bar-Accepts : (search : Option String) → Accepts Q (navigation_bar {E = E} search)
  unfolding navigation_bar nav_list_item
  navigation_bar-Accepts search = ground arith

  snackbar-Accepts : (s : _) → Accepts Q (snackbar_view {E = E} s)
  unfolding snackbar_view
  snackbar-Accepts s = ground arith

  textfield-Accepts :
      (includes : String → String → Bool) (types : E) (href : String)
      (label icon value : Option String)
      → Q types
      → Accepts Q (textfield includes types href label icon value)
  unfolding textfield
  textfield-Accepts includes types href label icon value q = ground (arith, q)

  dropdown-Accepts :
      (split : String → List String) (changes : String → E) (label : String) (teams : List String)
      (params : Params)
      → ((team : String) → Q (changes team))
      → Accepts Q (dropdown split changes label teams params)
  unfolding dropdown dropdown_select checkbox
  dropdown-Accepts split changes label teams params q = (
    (
      (tt, tt),
      (
        (
          tt,
          (
            (q "", (tt, tt)),
            AcceptsAll-map Q _ teams (λ (team : String). (q team, ((tt, (tt, tt)), tt))),
          ),
        ),
        tt,
      ),
    ),
    tt,
  )

  provider-AcceptsResult :
      (c : FrontendConfigStore) (is_authenticated : Bool) (s : AzureAuthSub)
      (rest : Result (Html E))
      → AcceptsResult Q rest
      → AcceptsResult Q (azure_auth_provider c is_authenticated s rest)
  unfolding azure_auth_provider acquire_token_view spinner
  provider-AcceptsResult c is_authenticated s rest h = ground (arith, h)

module _ {E : Type 0} (Q : E → Type 0) (rt : Runtime) (readers : Readers) (ev : Events E)
    (c : Covers Q rt readers ev) where
  top_app_bar-Accepts : (f : Frontend) → Accepts Q (top_app_bar rt readers ev f)
  unfolding top_app_bar
  top_app_bar-Accepts f = ground (
    arith,
    textfield-Accepts Q rt.includes ev.searches f.href (some "Application Name") (some "search")
        (lookup "application" f.params) c.searching,
    dropdown-Accepts Q readers.split ev.changes_teams "Teams"
        (team_names rt.trim rt.locale_compare f.overview) f.params c.teams,
    side_bar-Accepts Q rt f.config.configs readers.stringify ev.plans ev.toggles ev.types ev.applies
        ev.confirms ev.cancels f.overview c.additions c.deletions c.toggling c.typing c.applying
        c.confirming c.cancelling f.side_bar,
    c.toggling,
  )

  page-AcceptsResults :
      (r : Result (Html E))
      → AcceptsResult Q r
      → AcceptsResults Q (map_result (λ page. page ∷ []) r)
  page-AcceptsResults (throws message) a = tt
  page-AcceptsResults (returns page) a = (a, tt)

  page_routes-AcceptsResults : (f : Frontend) → AcceptsResults Q (page_routes rt readers ev f)
  unfolding page_routes
  page_routes-AcceptsResults f = elim (Option-cases f.route) [
    | inl unmatched ↦ rw (page_routes, unmatched) tt
    | inr (environments_route, e) ↦
        rw (page_routes, e)
          (page-AcceptsResults _ (
            environments_page-AcceptsResult Q rt ev.plans c.additions f.config.configs
              f.overview.environment_groups _))
    | inr (locks_route, e) ↦
        rw (page_routes, e)
          (
            locks_page-Accepts Q rt ev.plans c.additions _ _ f.environment_table f.application_table
                _ c.sorting_environment_locks c.sorting_application_locks,
            tt,
          )
    | inr (home_route, e) ↦
        rw (page_routes, e)
          (page-AcceptsResults _ (
            home-AcceptsResult Q rt f.config.configs ev.plans ev.opens ev.clicks _ c.additions
              c.openings c.lane_clicks f.overview f.lanes _ _ _))
    | inr (releases_route, e) ↦
        rw (page_routes, e)
          (page-AcceptsResults _ (
            releases_page-AcceptsResult Q rt f.config.configs ev.plans ev.opens c.additions
              c.openings _ _ f.last_part f.overview _))
    | inr (navigate replace to, e) ↦ rw (page_routes, e) tt
  ]

  dialog_of-AcceptsResults : (f : Frontend) → AcceptsResults Q (dialog_of rt readers ev f)
  unfolding dialog_of
  dialog_of-AcceptsResults f =
      elim (Option-cases
        (release_dialog_params rt.number_text readers.read_number f.overview f.params)) [
          | inl closed ↦ rw (dialog_of, closed) tt
          | inr ((name, version), opened) ↦ elim (Bool-cases (truthy name && not (eqb version 0))) [
            | inr hidden ↦ rw (dialog_of, opened, hidden) tt
            | inl shown ↦
                rw (dialog_of, opened, shown)
                  (page-AcceptsResults _ (
                    release_dialog-AcceptsResult Q rt f.config.configs ev.plans c.additions
                      f.overview ev.closes name version c.closing))
          ]
        ]

  app-AcceptsResult : (f : Frontend) → AcceptsResult Q (app rt readers ev f)
  unfolding app
  app-AcceptsResult f = provider-AcceptsResult Q f.config f.is_authenticated f.auth _ (
      AcceptsResults-and_then Q _ _ (dialog_of-AcceptsResults f) λ dialog shown.
        AcceptsResults-map_result Q _ _ (page_routes-AcceptsResults f) λ page accepted.
          AcceptsAll-append Q dialog _ shown (
            navigation_bar-Accepts Q f.search,
            (
              (
                top_app_bar-Accepts f,
                AcceptsAll-append Q page (snackbar_view f.side_bar.cart.snackbar ∷ []) accepted
                    (snackbar-Accepts Q f.side_bar.cart.snackbar, tt),
              ),
              tt,
            ),
          ))

  -- Whatever state the page is rendered in, every event that it offers is covered: each click either
  -- changes the cart by adding actions, or by deleting one, or is one of the other events.
  pub app-All :
      (f : Frontend) (page : Html E) → app rt readers ev f ≡ returns page → All Q (offered page)
  app-All f page e = All-offered Q page (rw e at (app-AcceptsResult f))
