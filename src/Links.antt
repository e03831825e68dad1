-- ===== src/Links.antt =====
-- services/frontend-service/src/ui/utils/Links.tsx: the addresses that the page links to. `endsWith`
-- with a slash, `encodeURIComponent` and `replace` of a placeholder are arguments.
pub mod Slash
pub mod View
use kuberpult.Prelude.{
  ℕ, String, Bool, true, false, ◌&&◌, not, Option, none, some, List, [], ◌∷◌, ◌==◌, eqb,
  if◌then◌else◌, truthy, opt_truthy, get_or, concat, is_some,
}

module _ (ends_with_slash : String → Bool) where
  -- `baseUrlSlash`
  abbrev pub base_url_slash : String → String
  base_url_slash base_url =
      if ends_with_slash base_url then base_url else concat (base_url ∷ "/" ∷ [])

  -- `deriveArgoAppLink`
  unfoldable pub derive_argo_app_link : Option String → (app : String) → String
  derive_argo_app_link base_url app =
      if opt_truthy base_url
      then concat (base_url_slash (get_or base_url "") ∷ "applications?search=-" ∷ app ∷ [])
      else ""

  -- `deriveArgoAppEnvLink`
  unfoldable pub derive_argo_app_env_link : Option String → (app env : String) → String
  derive_argo_app_env_link base_url app env =
      if opt_truthy base_url
      then concat
          (base_url_slash (get_or base_url "") ∷ "applications?search=" ∷ env ∷ "-" ∷ app ∷ [])
      else ""

  -- `deriveArgoTeamLink`
  unfoldable pub derive_argo_team_link :
      (encode : String → String) → Option String → (team : String) → String
  derive_argo_team_link encode base_url team =
      if opt_truthy base_url
      then concat (
          base_url_slash (get_or base_url "")
          ∷ "applications?&labels="
          ∷ encode "com.freiheit.kuberpult/team="
          ∷ team
          ∷ [])
      else ""

  -- `ArgoTeamLink`: nothing, the team as plain text (`none` beside it), or a link.
  unfoldable pub argo_team_link :
      (encode : String → String)
      → Option String
      → (team : Option String) → Option (String × Option String)
  unfolding derive_argo_team_link
  argo_team_link encode base_url team =
      let name = get_or team "" in
      if not (opt_truthy team)
      then none
      else if not (opt_truthy base_url)
      then some (name, none)
      else some (name, some (derive_argo_team_link encode base_url name))

module _ (replace : (placeholder value text : String) → String) (number_text : ℕ → String) where
  -- `deriveSourceCommitLink`
  unfoldable pub derive_source_commit_link :
      (base_url branch : Option String) (commit : String) → Option String
  derive_source_commit_link base_url branch commit =
      if opt_truthy base_url && opt_truthy branch
      then some
          (replace "{commit}" commit (replace "{branch}" (get_or branch "") (get_or base_url "")))
      else none

  -- `deriveReleaseDirLink`
  unfoldable pub derive_release_dir_link :
      (base_url branch : Option String) (app : String) (version : ℕ) → Option String
  derive_release_dir_link base_url branch app version =
      if opt_truthy base_url && opt_truthy branch
      then some (
          replace "{dir}" (concat ("applications/" ∷ app ∷ "/releases/" ∷ number_text version ∷ []))
            (replace "{branch}" (get_or branch "") (get_or base_url "")))
      else none

  -- `DisplaySourceLink` and `DisplayManifestLink`: the address, if there is a link.
  unfoldable pub display_source_link :
      (source_repo branch : Option String) (commit_id : String) → Option String
  unfolding derive_source_commit_link
  display_source_link source_repo branch commit_id =
      let link = derive_source_commit_link source_repo branch commit_id in
      if opt_truthy link then link else none

  unfoldable pub display_manifest_link :
      (manifest_repo branch : Option String) (app : String) (version : ℕ) → Option String
  unfolding derive_release_dir_link
  display_manifest_link manifest_repo branch app version =
      let link = derive_release_dir_link manifest_repo branch app version in
      if opt_truthy link && not (eqb version 0) then link else none
