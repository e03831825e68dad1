-- ===== src/ReleaseCard.antt =====
-- services/frontend-service/src/ui/components/ReleaseCard/ReleaseCard.tsx: how the rollout status of
-- a release is put together for its card.
pub mod Accepted
pub mod Shown
pub mod Status
pub mod View
use Prim.Native.String.{compare as compare_text}
use mathlib.Core.Option
use kuberpult.Prelude.{
  ℕ, String, Bool, true, false, ◌&&◌, not, Option, none, some, List, [], ◌∷◌, ◌==◌, eqb,
  if◌then◌else◌, map, flat_map, sort_by, compare, Ordering, get_or,
}
use kuberpult.Api.{
  Environment, EnvironmentApplication, StreamStatusResponse, RolloutStatus, unknown, succesful,
  progressing,
}
use kuberpult.Store.Overview.{lookup, EnvironmentGroupExtended}
use kuberpult.Store.Rollout.{RolloutStatusApplication}

-- `rolloutStatusPriority.indexOf(status) + 1`: 0 for a status that the list does not have, since
-- `indexOf` is -1 then and never `undefined`.
abbrev pub priority_of : RolloutStatus → ℕ
priority_of RolloutStatus.error = 1
priority_of RolloutStatus.progressing = 2
priority_of RolloutStatus.unknown = 3
priority_of RolloutStatus.succesful = 4
priority_of RolloutStatus.unrecognized = 0

abbrev is_successful : RolloutStatus → Bool
is_successful RolloutStatus.succesful = true
is_successful _ = false

abbrev same_version : ℕ → Option ℕ → Bool
same_version v none = false
same_version v (some w) = eqb v w

-- The callback of `map`: what the card shows for an environment.
unfoldable pub status_of : String → RolloutStatusApplication → Environment → StreamStatusResponse
status_of app rollout_status env = elim (lookup env.name rollout_status) [
  | none ↦ record {
    environment = env.name;
    application = app;
    version = 0;
    rollout_status = RolloutStatus.unknown;
  }
  | some status ↦
      if is_successful status.rollout_status
        && not (
            same_version status.version (
              Option.map (λ (a : EnvironmentApplication). a.version) (lookup app env.applications)))
      then record status { rollout_status = RolloutStatus.progressing }
      else status
]

abbrev pub by_environment : StreamStatusResponse → StreamStatusResponse → Ordering
by_environment a b = compare_text a.environment b.environment

abbrev pub by_priority : StreamStatusResponse → StreamStatusResponse → Ordering
by_priority a b = compare (priority_of a.rollout_status) (priority_of b.rollout_status)

abbrev pub first {ℓ} : {A : Type ℓ} → List A → Option A
first [] = none
first (x ∷ xs) = some x

-- The environments of all groups, with their status.
abbrev pub statuses :
    String → List EnvironmentGroupExtended → RolloutStatusApplication → List StreamStatusResponse
statuses app deployed_at rollout_status =
    flat_map (λ (g : EnvironmentGroupExtended). map (status_of app rollout_status) g.environments)
      deployed_at

-- `calculateDeploymentStatus`
unfoldable pub calculate_deployment_status :
    (app : String) (deployed_at : List EnvironmentGroupExtended) (rollout_enabled : Bool)
    (rollout_status : RolloutStatusApplication)
    → List StreamStatusResponse × Option StreamStatusResponse
unfolding status_of sort_by
calculate_deployment_status app deployed_at false rollout_status = ([], none)
calculate_deployment_status app deployed_at true rollout_status =
    let rollout_envs = sort_by by_environment (statuses app deployed_at rollout_status) in
    (rollout_envs, first (sort_by by_priority rollout_envs))

-- `RolloutStatusIcon` and `RolloutStatusDescription`
unfoldable pub rollout_status_icon : RolloutStatus → String
rollout_status_icon RolloutStatus.succesful = "✓"
rollout_status_icon RolloutStatus.progressing = "↻"
rollout_status_icon RolloutStatus.error = "!"
rollout_status_icon _ = "?"

unfoldable pub rollout_status_description : RolloutStatus → String
rollout_status_description RolloutStatus.succesful = "✓ Done"
rollout_status_description RolloutStatus.progressing = "↻ In progress"
rollout_status_description RolloutStatus.error = "! Failed"
rollout_status_description _ = "? Unkwown"
