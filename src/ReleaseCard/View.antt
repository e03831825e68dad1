-- ===== src/ReleaseCard/View.antt =====
-- What ReleaseCard.tsx, ReleaseCardMini/ReleaseCardMini.tsx, Releases/Releases.tsx and
-- Pages/Releases/ReleasesPage.tsx render.
use kuberpult.Prelude.{
  ℕ, String, Bool, true, false, Option, none, some, List, [], ◌∷◌, ◌++◌, if◌then◌else◌, concat, map,
  not, length, get_or, ltb, truthy,
}
use kuberpult.Api.{FrontendConfig, Release, Overview, StreamStatusResponse}
use kuberpult.Store.Cart.{Cart}
use kuberpult.Store.Locks.{values}
use kuberpult.Store.Overview.{
  Result, returns, release_or_throw, currently_deployed_at_group, releases_for_app,
}
use kuberpult.Store.Rollout.{RolloutStatusApplication}
use kuberpult.View.{
  Html, text_node, element, children, div, span, titled, plain, bold, when, Runtime,
}
use kuberpult.View.Results.{map_result, and_then, each}
use kuberpult.View.Widgets.{formatted_date}
use kuberpult.Chips.View.{
  environment_group_chip_list, release_version_view, release_version_with_links, tooltip,
}
use kuberpult.ReleaseCard.{
  calculate_deployment_status, rollout_status_icon, rollout_status_description, first,
}
use kuberpult.ReleaseDialog.View.{undeploy_tooltip_explanation}
use kuberpult.Dates.{group_by_date}
use kuberpult.App.{GlobalLoadingState, everything_loaded}
use kuberpult.App.Loading.{loading_state_spinner}

module _ {E : Type 0} (rt : Runtime) (config : FrontendConfig) (plans : (Cart → Cart) → E)
    (opens : (app : String) (version : ℕ) → E) (o : Overview) where
  -- `tooltipContents`
  unfoldable pub tooltip_contents : Release → (rollout_envs : List StreamStatusResponse) → Html E
  tooltip_contents r rollout_envs = div (
      when (truthy r.source_message) (bold r.source_message)
      ++ when (truthy r.source_author)
          (div (span (text_node "Author:" ∷ []) ∷ text_node " " ∷ text_node r.source_author ∷ []))
      ++ (elim r.created_at [
        | none ↦ []
        | some date ↦ div (span (text_node "Created " ∷ []) ∷ formatted_date rt date ∷ []) ∷ []
      ])
      ++ when (ltb 0 (length rollout_envs)) (
          plain "table" (
            plain "thead" (
              plain "tr" (
                plain "th" (text_node "Environment" ∷ [])
                ∷ plain "th" (text_node "Rollout" ∷ [])
                ∷ [])
              ∷ [])
            ∷ plain "tbody" (
                map
                  (λ (env : StreamStatusResponse). plain "tr" (
                    plain "td" (text_node env.environment ∷ [])
                    ∷ plain "td"
                        (span (text_node (rollout_status_description env.rollout_status) ∷ []) ∷ [])
                    ∷ []))
                  rollout_envs)
            ∷ [])))

  -- What `ReleaseCard` renders around its chips.
  abbrev pub release_card_view :
      (app : String) (version : ℕ)
      → Release
      → List StreamStatusResponse × Option StreamStatusResponse
      → Html E
      → Html E
  release_card_view app version r (rollout_envs, most_interesting) chips =
      tooltip rt config (tooltip_contents r rollout_envs) (
        div (
          div (chips ∷ [])
          ∷ div (
              element "div" none (some (opens app version)) (
                children (
                  div (
                      div (
                        text_node (
                          if r.undeploy_version
                          then "Undeploy Version"
                          else rt.first_line r.source_message)
                        ∷ [])
                      ∷ release_version_view rt config r
                      ∷ [])
                    ∷ (elim most_interesting [
                      | none ↦ []
                      | some status ↦
                          div
                            (span (text_node (rollout_status_icon status.rollout_status) ∷ []) ∷ [])
                          ∷ []
                    ])
                  ++ div [] ∷ []))
              ∷ [])
          ∷ []))

  -- `ReleaseCard`; `enabled` and `rollout_status` are what `useRolloutStatus` returns.
  unfoldable pub release_card :
      (rollout : String → Bool × RolloutStatusApplication) (app : String) (version : ℕ)
      → Result (Html E)
  release_card rollout app version =
      let (enabled, rollout_status) = rollout app in
      let status =
        calculate_deployment_status app
          (currently_deployed_at_group app version o.environment_groups) enabled rollout_status in
      and_then (release_or_throw rt.number_text app version o) λ r.
        map_result (release_card_view app version r status)
          (environment_group_chip_list rt config plans o.environment_groups app version true)

  -- What `ReleaseCardMini` renders around its chips.
  abbrev pub release_card_mini_view : (app : String) (version : ℕ) → Release → Html E → Html E
  release_card_mini_view app version r chips = element "div" none (some (opens app version)) (
      children (
        div (
          titled "div" (if r.undeploy_version then undeploy_tooltip_explanation else "") (
            div
              (text_node (if r.undeploy_version then "Undeploy Version" else r.source_message) ∷ [])
            ∷ div (chips ∷ [])
            ∷ [])
          ∷ div (release_version_with_links rt config app r ∷ [])
          ∷ div (
              text_node (concat (r.source_author ∷ " | " ∷ []))
              ∷ (elim r.created_at [ none ↦ [] | some date ↦ formatted_date rt date ∷ [] ]))
          ∷ [])
        ∷ []))

  -- `ReleaseCardMini`
  unfoldable pub release_card_mini : (app : String) (version : ℕ) → Result (Html E)
  release_card_mini app version = and_then (release_or_throw rt.number_text app version o) λ r.
      map_result (release_card_mini_view app version r)
        (environment_group_chip_list rt config plans o.environment_groups app version false)

-- What `dateFormat` and `toDateString` write for a time.
module _ {E : Type 0} (rt : Runtime) (config : FrontendConfig) (plans : (Cart → Cart) → E)
    (opens : (app : String) (version : ℕ) → E) (date_format date_string : ℕ → String) where
  -- The date over the releases of a day.
  abbrev pub group_date : List Release → String
  group_date releases = elim (first releases) [
    | none ↦ ""
    | some r ↦ elim r.created_at [ none ↦ "" | some date ↦ date_format date ]
  ]

  -- `Releases`; the releases are sorted in the store before the cards are rendered.
  unfoldable pub releases_view : (app : String) → Overview → Result (Html E)
  releases_view app o =
      let (releases, sorted) = releases_for_app app o in
      map_result
        (λ groups. div (plain "h1" (text_node (concat ("Releases | " ∷ app ∷ [])) ∷ []) ∷ groups))
        (each
          (λ (group : List Release).
            map_result (λ cards. div (div (text_node (group_date group) ∷ []) ∷ cards))
              (each
                (λ (r : Release).
                  map_result (λ card. div (card ∷ []))
                    (release_card_mini rt config plans opens sorted app r.version))
                group))
          (values (group_by_date date_string [] (get_or releases []))))

  -- `ReleasesPage`, for the last part of the page's path
  unfoldable pub releases_page : (app : String) → Overview → GlobalLoadingState → Result (Html E)
  releases_page app o l =
      if not (everything_loaded l)
      then returns (loading_state_spinner l)
      else map_result (λ releases. plain "main" (releases ∷ [])) (releases_view app o)
