-- ===== src/Chips.antt =====
-- services/frontend-service/src/ui/components: chip/EnvironmentGroupChip.tsx,
-- ReleaseVersion/ReleaseVersion.tsx and ServiceLane/Warnings.tsx, as the texts that they show.
pub mod Accepted
pub mod Groups
pub mod Shown
pub mod Silent
pub mod View
use kuberpult.Prelude.{
  ℕ, String, Bool, true, false, ◌&&◌, not, Option, none, some, List, [], ◌∷◌, ◌==◌, eqb, ltb, leb,
  if◌then◌else◌, length, concat, truthy, get_or, map, opt_truthy,
}
use kuberpult.Api.{
  Environment, Release, UnusualDeploymentOrder, UpstreamNotDeployed, Warning, unset,
  unusual_deployment_order, upstream_not_deployed, EnvironmentGroup,
}
use kuberpult.Store.Overview.{EnvironmentGroupExtended, currently_deployed_at_group}

-- The properties that `EnvironmentGroupChip` gives to `EnvironmentChip`; `none` is an environment
-- that the group does not have.
pub record ChipProps : Type 0 where
  pub env : Option Environment
  pub group_name_override : Option String
  pub number_envs_deployed : ℕ
  pub number_envs_in_group : ℕ

abbrev pub head {ℓ} : {A : Type ℓ} → List A → Option A
head [] = none
head (x ∷ xs) = some x

-- `EnvironmentGroupChip`
unfoldable pub environment_group_chip : EnvironmentGroupExtended → ChipProps
environment_group_chip g =
    if leb 2 (length g.environments)
    then record {
      env = head g.environments;
      group_name_override = some g.environment_group_name;
      number_envs_deployed = length g.environments;
      number_envs_in_group = g.number_of_envs_in_group;
    }
    else record {
      env = head g.environments;
      group_name_override = none;
      number_envs_deployed = 1;
      number_envs_in_group = g.number_of_envs_in_group;
    }

-- The numbers that a chip shows in `EnvironmentChip`: none, the environments of the group, or also
-- how many of them have the version.
pub data Numbers : Type 0 where
  nothing : Numbers
  all_of : ℕ → Numbers
  some_of : (deployed in_group : ℕ) → Numbers

unfoldable pub numbers : (deployed in_group : ℕ) → Numbers
numbers deployed in_group =
    if not (eqb deployed 0) && not (eqb in_group 0)
    then (if eqb deployed in_group then all_of in_group else some_of deployed in_group)
    else nothing

module _ (number_text : ℕ → String) where
  -- `numberString`
  unfoldable pub number_string : Numbers → String
  number_string nothing = ""
  number_string (all_of n) = concat ("(" ∷ number_text n ∷ ")" ∷ [])
  number_string (some_of n m) = concat ("(" ∷ number_text n ∷ "/" ∷ number_text m ∷ ")" ∷ [])

  -- `ReleaseVersion`; `prefix` is `substring(0, 8)`.
  unfoldable pub release_version : (prefix : String → String) → Release → String
  release_version prefix r =
      if r.undeploy_version
      then "undeploy"
      else if not (r.display_version == "")
      then r.display_version
      else if not (r.source_commit_id == "")
      then prefix r.source_commit_id
      else concat ("#" ∷ number_text r.version ∷ [])

-- `name` of `EnvironmentChip`
unfoldable pub chip_name : Option String → Environment → String
chip_name group_name_override env =
    if opt_truthy group_name_override then get_or group_name_override "" else env.name

-- The chips of `EnvironmentGroupChipList`
unfoldable pub group_chips : (app : String) (version : ℕ) → List EnvironmentGroup → List ChipProps
unfolding currently_deployed_at_group environment_group_chip
group_chips app version groups =
    map environment_group_chip (currently_deployed_at_group app version groups)

abbrev tooltip_texts : (this_environment upstream_environment : String) → List String
tooltip_texts this_environment upstream_environment =
    this_environment ∷ " may be overridden with the next release train from " ∷ upstream_environment
    ∷ " to " ∷ this_environment ∷ ". Suggestion: Create a lock on " ∷ this_environment
    ∷ " or deploy the same version to both environments." ∷ []

-- `WarningBox`: the text and the tooltip.
unfoldable pub warning_box : Warning → String × String
warning_box (unusual_deployment_order w) = (
  concat (
      "Warning: " ∷ w.this_environment ∷ " is not locked and has a newer version than "
      ∷ w.upstream_environment ∷ "! ⓘ" ∷ []),
  concat (tooltip_texts w.this_environment w.upstream_environment),
)
warning_box (upstream_not_deployed w) = (
  concat (
      "Warning: " ∷ w.upstream_environment ∷ " has no version deployed, but " ∷ w.this_environment
      ∷ " does! ⓘ" ∷ []),
  concat (tooltip_texts w.this_environment w.upstream_environment),
)
warning_box unset = ("Could not render Warning", "")
