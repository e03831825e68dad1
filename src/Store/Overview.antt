-- ===== src/Store/Overview.antt =====
-- The selections of store.tsx from the overview: applications, environments and releases.
pub mod Deployed
use kuberpult.Prelude.{
  ℕ, String, Bool, true, false, ◌&&◌, ◌||◌, not, Option, none, some, List, [], ◌∷◌, ◌==◌, ◌++◌, map,
  length, ltb, eqb, if◌then◌else◌, is_some, get_or, concat, any, find, filter, flat_map, sort_by,
  unique, compare, Ordering, truthy, opt_truthy,
}
use mathlib.Core.Option
use kuberpult.Api.{
  Environment, EnvironmentApplication, EnvironmentGroup, Application, Release, Overview, Warning,
  Priority, prod, pre_prod, upstream, other, unrecognized,
}
use kuberpult.Store.Locks.{DisplayLock, values, environments, application_lock_row}
use kuberpult.Store.Locks.Sort.{filtered_row_values, newest_to_oldest, sort_locks}

-- `entries[key]` on an object that is used as a map.
abbrev pub lookup {ℓ} : {A : Type ℓ} → String → List (String × A) → Option A
lookup key [] = none
lookup key ((k, v) ∷ entries) = if k == key then some v else lookup key entries

-- What a function returns, or the message of the error that it throws.
pub data Result {ℓ} (A : Type ℓ) : Type ℓ where
  throws : String → Result A
  returns : A → Result A

-- `useAllWarnings`
unfoldable pub all_warnings : Overview → List Warning
all_warnings o = flat_map (λ (a : Application). a.warnings) (values o.applications)

-- `trim` on texts is an argument.
module _ (trim : String → String) where
  -- `useTeamFromApplication`
  unfoldable pub team_from_application : String → Overview → Option String
  team_from_application app o =
      Option.map (λ (a : Application). trim a.team) (lookup app o.applications)

  -- The team of an application, as the dropdown lists it.
  abbrev pub shown_team : Application → String
  shown_team a = if truthy (trim a.team) then trim a.team else "<No Team>"

  -- `useFilteredApps`
  unfoldable pub filtered_apps : List String → Overview → List Application
  filtered_apps teams o =
      filter (λ (a : Application). eqb (length teams) 0 || any (λ t. t == shown_team a) teams)
        (values o.applications)

  -- `useTeamNames`
  unfoldable pub team_names : (locale_compare : String → String → Ordering) → Overview → List String
  unfolding unique sort_by
  team_names locale_compare o =
      unique (λ a b. a == b) (sort_by locale_compare (map shown_team (values o.applications)))

-- `useEnvironmentNames`
unfoldable pub environment_names : List EnvironmentGroup → List String
unfolding environments
environment_names groups = map (λ (env : Environment). env.name) (environments groups)

-- `Priority[...]` in lower case
abbrev priority_text : Priority → String
priority_text prod = "prod"
priority_text pre_prod = "pre_prod"
priority_text upstream = "upstream"
priority_text other = "other"
priority_text unrecognized = "unrecognized"

-- `getPriorityClassName`
unfoldable pub get_priority_class_name : Option Environment → String
get_priority_class_name env = concat (
    "environment-priority-"
    ∷ priority_text (get_or (Option.map (λ (e : Environment). e.priority) env) unrecognized)
    ∷ [])

-- `useSearchedApplications`; the tests `includes` and `localeCompare` on texts are arguments.
module _ (includes : String → String → Bool) (locale_compare : String → String → Ordering) where
  abbrev pub compare_applications : Application → Application → Ordering
  compare_applications a b =
      if a.team == b.team then locale_compare a.name b.name else locale_compare a.team b.team

  unfoldable pub searched_applications : List Application → String → List Application
  unfolding sort_by
  searched_applications applications app_name =
      sort_by compare_applications
        (filter (λ (a : Application). app_name == "" || includes a.name app_name) applications)

module _ (includes : String → String → Bool) where
  -- `searchCustomFilter`
  unfoldable pub search_custom_filter : (query_content value : Option String) → String
  search_custom_filter (some query) (some value) =
      if truthy value && truthy query then (if includes value query then value else "") else value
  search_custom_filter none (some value) = value
  search_custom_filter query none = ""

-- `useFilteredApplicationLocks`, for the parameter of the page's address
unfoldable pub filtered_application_locks : Option String → List EnvironmentGroup → List DisplayLock
unfolding environments application_lock_row sort_locks
filtered_application_locks app_name groups =
    let final_locks =
      flat_map
        (λ (env : Environment).
          flat_map
            (λ (app : EnvironmentApplication).
              map (application_lock_row env app) (values app.locks))
            (values env.applications))
        (environments groups) in
    let name = get_or app_name "" in
    sort_locks filtered_row_values newest_to_oldest (
      filter (λ (l : DisplayLock). is_some app_name && get_or l.application "" == name) final_locks)

-- `useRelease`
unfoldable pub release : String → ℕ → Overview → Option Release
release application version o = elim (lookup application o.applications) [
  | none ↦ none
  | some a ↦ find (λ (r : Release). eqb r.version version) a.releases
]

-- `useReleaseOrThrow`
unfoldable pub release_or_throw : (ℕ → String) → String → ℕ → Overview → Result Release
unfolding release
release_or_throw number_text application version o = elim (release application version o) [
  | none ↦ throws (
      concat
        ("Release cannot be found for app " ∷ application ∷ " version " ∷ number_text version ∷ []))
  | some r ↦ returns r
]

-- `useReleaseOptional`; the releases of an application that the overview does not have are an error.
unfoldable pub release_optional : String → Environment → Overview → Result (Option Release)
release_optional application env o = elim (lookup application o.applications) [
  | none ↦ throws "Cannot read properties of undefined (reading 'releases')"
  | some a ↦ elim (lookup application env.applications) [
    | none ↦ returns none
    | some x ↦ returns (find (λ (r : Release). eqb r.version x.version) a.releases)
  ]
]

abbrev pub descending : ℕ → ℕ → Ordering
descending a b = compare b a

abbrev pub deployed_version : String → Environment → Option ℕ
deployed_version application env =
    Option.map (λ (a : EnvironmentApplication). a.version) (lookup application env.applications)

abbrev pub versions_of : String → List Environment → List ℕ
versions_of application [] = []
versions_of application (env ∷ envs) =
    let rest = versions_of application envs in
    elim (deployed_version application env) [ none ↦ rest | some v ↦ v ∷ rest ]

-- `useDeployedReleases`
unfoldable pub deployed_releases : String → List EnvironmentGroup → List ℕ
unfolding environments unique sort_by
deployed_releases application groups =
    filter (λ v. not (eqb v 0))
      (sort_by descending (unique eqb (versions_of application (environments groups))))

pub record EnvironmentGroupExtended : Type 0 where
  pub environment_group_name : String
  pub environments : List Environment
  pub distance_to_upstream : ℕ
  pub number_of_envs_in_group : ℕ

-- The loop of `useCurrentlyDeployedAtGroup` and of `useCurrentlyExistsAtGroup`.
abbrev pub groups_with :
    (Environment → Bool) → List EnvironmentGroup → List EnvironmentGroupExtended
groups_with p [] = []
groups_with p (g ∷ groups) =
    let rest = groups_with p groups in
    let envs = filter p g.environments in
    if ltb 0 (length envs)
    then record {
      environment_group_name = g.environment_group_name;
      environments = envs;
      distance_to_upstream = g.distance_to_upstream;
      number_of_envs_in_group = length g.environments;
    }
      ∷ rest
    else rest

abbrev pub deploys_version : String → ℕ → Environment → Bool
deploys_version application version env = elim (deployed_version application env) [
  | none ↦ false
  | some v ↦ eqb v version
]

unfoldable pub currently_deployed_at_group :
    String → ℕ → List EnvironmentGroup → List EnvironmentGroupExtended
currently_deployed_at_group application version = groups_with (deploys_version application version)

unfoldable pub currently_exists_at_group :
    String → List EnvironmentGroup → List EnvironmentGroupExtended
currently_exists_at_group application =
    groups_with (λ (env : Environment). is_some (lookup application env.applications))

-- `useReleasesForApp` sorts the releases in the store.
abbrev pub sort_releases : List Release → List Release
sort_releases = sort_by (λ (a b : Release). compare b.version a.version)

abbrev pub with_sorted_releases : String → List (String × Application) → List (String × Application)
with_sorted_releases app [] = []
with_sorted_releases app ((k, a) ∷ entries) =
    let rest = with_sorted_releases app entries in
    if k == app
    then (k, record a { releases = sort_releases a.releases }) ∷ entries
    else (k, a) ∷ rest

-- The releases, and the store afterwards.
unfoldable pub releases_for_app : String → Overview → Option (List Release) × Overview
releases_for_app app o = (
  Option.map (λ (a : Application). sort_releases a.releases) (lookup app o.applications),
  record o { applications = with_sorted_releases app o.applications },
)

-- `useVersionsForApp`, which reads the list that `useReleasesForApp` returns.
unfoldable pub versions_for_app : String → Overview → Result (List ℕ)
unfolding releases_for_app
versions_for_app app o = elim ((releases_for_app app o).0) [
  | none ↦ throws "Cannot read properties of undefined (reading 'map')"
  | some rs ↦ returns (map (λ (r : Release). r.version) rs)
]
