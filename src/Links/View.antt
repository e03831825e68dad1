-- ===== src/Links/View.antt =====
-- What the components of Links.tsx render.
use kuberpult.Prelude.{ℕ, String, Option, none, some, List, [], ◌∷◌, if◌then◌else◌, opt_truthy}
use kuberpult.Api.{FrontendConfig}
use kuberpult.View.{Html, text_node, link, children, span, Runtime}
use kuberpult.Links.{
  derive_argo_app_link, derive_argo_app_env_link, argo_team_link, display_source_link,
  display_manifest_link,
}

module _ {E : Type 0} (rt : Runtime) (config : FrontendConfig) where
  -- `ArgoTeamLink`
  unfoldable pub argo_team_link_view : (team : Option String) → List (Html E)
  argo_team_link_view team =
      elim (argo_team_link rt.ends_with_slash rt.encode config.argo_base_url team) [
        | none ↦ []
        | some (name, none) ↦ span (text_node name ∷ []) ∷ []
        | some (name, some href) ↦
            span (
              text_node " | Team: "
              ∷ link "Opens the team in ArgoCd" href (children (text_node name ∷ []))
              ∷ [])
            ∷ []
      ]

  -- `ArgoAppLink`
  unfoldable pub argo_app_link_view : (app : String) → Html E
  argo_app_link_view app =
      if opt_truthy config.argo_base_url
      then link "Opens this app in ArgoCd for all environments"
          (derive_argo_app_link rt.ends_with_slash config.argo_base_url app)
          (children (text_node app ∷ []))
      else span (text_node app ∷ [])

  -- `ArgoAppEnvLink`
  unfoldable pub argo_app_env_link_view : (app env : String) → Html E
  argo_app_env_link_view app env =
      if opt_truthy config.argo_base_url
      then link "Opens the app in ArgoCd for this environment"
          (derive_argo_app_env_link rt.ends_with_slash config.argo_base_url app env)
          (children (text_node env ∷ []))
      else span (text_node env ∷ [])

  -- `DisplaySourceLink`
  unfoldable pub source_link_view : (display_string commit_id : String) → List (Html E)
  source_link_view display_string commit_id =
      elim (display_source_link rt.replace rt.number_text (some config.source_repo_url)
        (some config.branch) commit_id) [
          | none ↦ []
          | some href ↦
              link "Opens the commit for this release in the source repository" href
                (children (text_node display_string ∷ []))
              ∷ []
        ]

  -- `DisplayManifestLink`
  unfoldable pub manifest_link_view : (display_string app : String) (version : ℕ) → List (Html E)
  manifest_link_view display_string app version =
      elim (display_manifest_link rt.replace rt.number_text (some config.manifest_repo_url)
        (some config.branch) app version) [
          | none ↦ []
          | some href ↦
              link "Opens the release directory in the manifest repository for this release" href
                (children (text_node display_string ∷ []))
              ∷ []
        ]
