-- ===== src/ReleaseDialog/View.antt =====
-- What ReleaseDialog.tsx renders.
use kuberpult.Prelude.{
  ℕ, String, false, Option, none, some, List, [], ◌∷◌, ◌++◌, ◌==◌, eqb, if◌then◌else◌, concat, map,
  not,
}
use kuberpult.Api.{
  FrontendConfig, Environment, EnvironmentApplication, EnvironmentGroup, Lock, Release, Overview,
}
use kuberpult.Store.Cart.{Cart}
use kuberpult.Store.Overview.{
  Result, returns, lookup, release_or_throw, release_optional, team_from_application,
}
use kuberpult.View.{
  Html, text_node, element, button, children, div, span, titled, plain, when, Runtime,
}
use kuberpult.View.Results.{and_then, map_result, each}
use kuberpult.View.Widgets.{formatted_date}
use kuberpult.Links.View.{
  source_link_view, manifest_link_view, argo_app_link_view, argo_team_link_view,
}
use kuberpult.Chips.{ChipProps}
use kuberpult.Chips.View.{release_version_view, environment_chip}
use kuberpult.ReleaseDialog.{
  delete_app_lock, create_app_lock, deploy_and_lock_click, deploy_disabled, get_deployment_metadata,
  shown_app_locks, queued_version,
}

abbrev pub undeploy_tooltip_explanation : String
undeploy_tooltip_explanation =
    "This is the \"undeploy\" version. It is essentially an empty manifest. Deploying this means removing all kubernetes entities like deployments from the given environment. You must deploy this to all environments before kuberpult allows to delete the app entirely."

abbrev deploy_tooltip : String
deploy_tooltip =
    "When doing manual deployments, it is usually best to also lock the app. If you omit the lock, an automatic release train or another person may deploy an unintended version. If you do not want a lock, you can remove it from the \"planned actions\"."

-- The properties of the chip of an item.
abbrev pub single_chip : Environment → ChipProps
single_chip env = record {
  env = some env;
  group_name_override = none;
  number_envs_deployed = 0;
  number_envs_in_group = 0;
}

module _ {E : Type 0} (rt : Runtime) (config : FrontendConfig) (plans : (Cart → Cart) → E) where
  -- `AppLock`
  unfoldable pub app_lock : Environment → (app : String) → Lock → Html E
  app_lock env app lock =
      element "div"
        (some (
          concat (
            "App Lock Message: \"" ∷ lock.message ∷ "\" | ID: \"" ∷ lock.lock_id
            ∷ "\"  | Click to unlock. " ∷ [])))
        (some (plans (delete_app_lock env app lock))) (children (button "" false none ∷ []))

  -- `DeployedVersion`
  unfoldable pub deployed_version_view :
      Option EnvironmentApplication → (app : String) → Environment → Option Release → Html E
  deployed_version_view (some application) app env (some other_release) = span (
      release_version_view rt config other_release
      ∷ text_node (rt.first_line other_release.source_message)
      ∷ [])
  deployed_version_view _ app env _ = span (
      text_node "\""
      ∷ text_node app
      ∷ text_node "\" has no version deployed on \""
      ∷ text_node env.name
      ∷ text_node "\""
      ∷ [])

  -- `queueInfo`
  unfoldable pub queue_info : (queued_version : ℕ) → List (Html E)
  queue_info queued = when (not (eqb queued 0)) (
      titled "div"
        (concat (
          "An attempt was made to deploy version "
          ∷ rt.number_text queued
          ∷ " either by a release train, or when a new version was created. However, there was a lock present at the time, so kuberpult did not deploy this version. "
          ∷ []))
        (text_node "Version "
          ∷ text_node (rt.number_text queued)
          ∷ text_node " was not deployed, because of a lock."
          ∷ []))

  -- The two elements of `getDeploymentMetadata`.
  unfoldable pub metadata_view : Environment → (app : String) → Release → Html E
  metadata_view env app release =
      let metadata = get_deployment_metadata env app release in
      div (
        div (text_node (metadata.0) ∷ [])
        ∷ div (elim (metadata.1) [
          | none ↦ []
          | some seconds ↦ formatted_date rt (rt.date_of_seconds seconds) ∷ []
        ])
        ∷ [])

  module _ (o : Overview) where
    -- What `EnvironmentListItem` renders around its chip.
    abbrev pub item_view :
        Environment
        → (app : String) → Release
        → (queued_version : ℕ) → Option Release
        → Html E
        → Html E
    item_view env app release queued other_release chip = plain "li" (
        div (chip ∷ div (map (app_lock env app) (shown_app_locks env app)) ∷ [])
        ∷ div (
            div (
              titled "div"
                  (concat (
                    "Shows the version that is currently deployed on "
                    ∷ env.name
                    ∷ ". "
                    ∷ (if release.undeploy_version then undeploy_tooltip_explanation else "")
                    ∷ []))
                  (deployed_version_view (lookup app env.applications) app env other_release ∷ [])
                ∷ queue_info queued
              ++ metadata_view env app release ∷ [])
            ∷ div (
                div (
                  button "Add lock" false (some (plans (create_app_lock env app)))
                  ∷ titled "div" deploy_tooltip (
                      button "Deploy & Lock" (deploy_disabled env app release)
                        (some (plans (deploy_and_lock_click env app release)))
                      ∷ [])
                  ∷ [])
                ∷ [])
            ∷ [])
        ∷ [])

    -- `EnvironmentListItem`
    unfoldable pub environment_list_item :
        (app : String) → Release → (queued_version : ℕ) → Environment → Result (Html E)
    environment_list_item app release queued env =
        and_then (release_optional app env o) λ other_release.
          map_result (item_view env app release queued other_release)
            (environment_chip rt config plans o.environment_groups app false (single_chip env))

    -- `EnvironmentList`
    unfoldable pub environment_list : (app : String) → Release → Result (Html E)
    environment_list app release = map_result div (
        each
          (λ (group : EnvironmentGroup). map_result (plain "ul") (
            each
              (λ (env : Environment).
                environment_list_item app release (queued_version env app) env)
              group.environments))
          o.environment_groups)

    -- `ReleaseDialog`; `close` is what `useCloseReleaseDialog` returns.
    unfoldable pub release_dialog : (close : E) (app : String) (version : ℕ) → Result (Html E)
    release_dialog close app version =
        and_then (release_or_throw rt.number_text app version o) λ release.
          let team = team_from_application rt.trim app o in
          let source_message = span (text_node release.source_message ∷ []) in
          let created = span (
            text_node "Created "
            ∷ (elim release.created_at [
              | none ↦ text_node "at an unknown date"
              | some created_at ↦ formatted_date rt created_at
            ])
            ∷ text_node " by "
            ∷ text_node
                (if release.source_author == "" then "an unknown author" else release.source_author)
            ∷ text_node " "
            ∷ []) in
          let links = span (
            source_link_view rt config "Source" release.source_commit_id
            ++ text_node " " ∷ manifest_link_view rt config "Manifest" app release.version) in
          let names = div (
            text_node "App: "
            ∷ argo_app_link_view rt config app
            ∷ argo_team_link_view rt config team) in
          let bar = div (
            div (div (source_message ∷ []) ∷ div (created ∷ links ∷ []) ∷ names ∷ [])
            ∷ button "" false (some close)
            ∷ []) in
          let dialog = λ (list : Html E).
            div (div (element "Dialog" none (some close) (children (bar ∷ list ∷ [])) ∷ []) ∷ []) in
          if app == "" then returns (div []) else map_result dialog (environment_list app release)
