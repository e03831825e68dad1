-- ===== src/EnvironmentCard/View.antt =====
-- What EnvironmentCard.tsx, LockDisplay.tsx and the page of the environments
-- (Pages/Environments/EnvironmentsPage.tsx) render.
use kuberpult.Prelude.{
  String, false, none, some, List, [], ◌∷◌, ◌++◌, if◌then◌else◌, concat, not, eqb, length, get_or,
  opt_truthy,
}
use kuberpult.Api.{FrontendConfig, Environment, EnvironmentGroup}
use kuberpult.Store.Cart.{Cart}
use kuberpult.Store.Locks.{DisplayLock, environments, filtered_environment_lock_ids}
use kuberpult.Store.Overview.{Result, returns}
use kuberpult.View.{Html, text_node, button, div, titled, plain, text_nodes, when, Runtime}
use kuberpult.View.Results.{map_result, each}
use kuberpult.View.Widgets.{formatted_date}
use kuberpult.Chips.View.{environment_lock_display}
use kuberpult.EnvironmentCard.{add_lock, add_group_lock, delete_lock}
use kuberpult.App.{GlobalLoadingState, everything_loaded}
use kuberpult.App.Loading.{loading_state_spinner}

module _ {E : Type 0} (rt : Runtime) (plans : (Cart → Cart) → E) where
  -- `LockDisplay`
  unfoldable pub lock_display : DisplayLock → Html E
  lock_display lock =
      let field = λ (s : String). div (text_node s ∷ []) in
      div (
        div (
          div (
            elim lock.date [ none ↦ [] | some date ↦ formatted_date rt date ∷ [] ]
            ++ field lock.environment
              ∷ when (opt_truthy lock.application) (field (get_or lock.application ""))
            ++ field lock.lock_id
              ∷ field lock.message
              ∷ div (text_nodes lock.author_name)
              ∷ div (text_nodes lock.author_email)
              ∷ button "" false (some (plans (delete_lock lock)))
              ∷ [])
          ∷ [])
        ∷ [])

module _ {E : Type 0} (rt : Runtime) (config : FrontendConfig) (plans : (Cart → Cart) → E)
    (groups : List EnvironmentGroup) where
  -- What `EnvironmentCard` renders around the locks.
  abbrev pub card_view : Environment → List (Html E) → Html E
  card_view environment locks = div (
      div (titled "div" "Name of the environment" (text_node environment.name ∷ []) ∷ [])
      ∷ div (
          when (not (eqb (length locks) 0)) (div locks)
          ++ div (
              button (concat ("Add Environment Lock in " ∷ environment.name ∷ [])) false
                (some (plans (add_lock environment)))
              ∷ [])
            ∷ [])
      ∷ [])

  -- `EnvironmentCard`
  unfoldable pub environment_card : Environment → Result (Html E)
  environment_card environment = map_result (card_view environment) (
      each (environment_lock_display rt config plans groups environment.name)
        (filtered_environment_lock_ids environment.name (environments groups)))

  -- What `EnvironmentGroupCard` renders around its cards.
  abbrev pub group_card_view : EnvironmentGroup → List (Html E) → Html E
  group_card_view group cards = div (
      div (
        div (
          titled "div" "Name of the environment group" (text_node group.environment_group_name ∷ [])
          ∷ [])
        ∷ div (
            button
              (concat ("Add Lock for each environment in " ∷ group.environment_group_name ∷ []))
              false (some (plans (add_group_lock group)))
            ∷ [])
        ∷ [])
      ∷ div cards
      ∷ div []
      ∷ [])

  -- `EnvironmentGroupCard`
  unfoldable pub environment_group_card : EnvironmentGroup → Result (Html E)
  environment_group_card group =
      map_result (group_card_view group) (each environment_card group.environments)

  -- `EnvironmentsPage`
  unfoldable pub environments_page : GlobalLoadingState → Result (Html E)
  environments_page l =
      let envs = environments groups in
      if not (everything_loaded l)
      then returns (loading_state_spinner l)
      else if not (eqb (length groups) (length envs))
      then map_result (plain "main") (each environment_group_card groups)
      else map_result (λ (cards : List (Html E)). plain "main" (div cards ∷ []))
          (each environment_card envs)
