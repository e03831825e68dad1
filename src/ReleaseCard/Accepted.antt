-- ===== src/ReleaseCard/Accepted.antt =====
-- The events of the cards of releases, and of the page of an application's releases.
use kuberpult.Prelude.{
  ℕ, String, Bool, true, false, Option, List, [], ◌∷◌, arith, Bool-cases, inl, inr, get_or,
}
use kuberpult.Api.{FrontendConfig, Release, Overview, StreamStatusResponse}
use kuberpult.Store.Cart.{Cart}
use kuberpult.Store.Cart.Additions.{Adds}
use kuberpult.Store.Locks.{values}
use kuberpult.Store.Overview.{releases_for_app}
use kuberpult.Store.Rollout.{RolloutStatusApplication}
use kuberpult.View.{Html, plain, span, text_node, Runtime}
use kuberpult.View.Accepts.{
  Accepts, AcceptsAll-map, AcceptsResult, AcceptsResult-and_then, AcceptsResult-map_result,
  AcceptsResults-map_result, AcceptsResults-each,
}
use kuberpult.View.Widgets.{formatted_date}
use kuberpult.Chips.View.{tooltip}
use kuberpult.Chips.Accepted.{
  chip_list-AcceptsResult, release_version-Accepts, release_with_links-Accepts,
}
use kuberpult.Dates.{group_by_date}
use kuberpult.App.{GlobalLoadingState, everything_loaded}
use kuberpult.App.Loading.{loading_state_spinner-Accepts}
use kuberpult.ReleaseCard.{rollout_status_description}
use kuberpult.ReleaseCard.View.{
  tooltip_contents, release_card_view, release_card, release_card_mini, releases_view,
  releases_page,
}

-- A row of the card's tooltip.
abbrev rollout_row : {E : Type 0} → StreamStatusResponse → Html E
rollout_row env = plain "tr" (
    plain "td" (text_node env.environment ∷ [])
    ∷ plain "td" (span (text_node (rollout_status_description env.rollout_status) ∷ []) ∷ [])
    ∷ [])

module _ {E : Type 0} (Q : E → Type 0) (rt : Runtime) (config : FrontendConfig)
    (plans : (Cart → Cart) → E) (opens : (app : String) (version : ℕ) → E)
    (accepts : (change : Cart → Cart) → Adds change → Q (plans change))
    (accepts_opening : (app : String) (version : ℕ) → Q (opens app version)) where
  tooltip_contents-Accepts :
      (o : Overview) (r : Release) (envs : List StreamStatusResponse)
      → Accepts Q (tooltip_contents rt config plans opens o r envs)
  unfolding tooltip_contents formatted_date
  tooltip_contents-Accepts o r envs =
      ground (
        arith,
        AcceptsAll-map Q (rollout_row {E = E}) envs (λ env. ((tt, tt), (((tt, tt), tt), tt))),
      )

  card_view-Accepts :
      (o : Overview) (app : String) (version : ℕ) (r : Release)
      (status : List StreamStatusResponse × Option StreamStatusResponse) (chips : Html E)
      → Accepts Q chips
      → Accepts Q (release_card_view rt config plans opens o app version r status chips)
  unfolding tooltip
  card_view-Accepts o app version r (envs, interesting) chips accepted = ground (
    arith,
    accepted,
    accepts_opening app version,
    release_version-Accepts Q rt config r,
    tooltip_contents-Accepts o r envs,
  )

  pub release_card-AcceptsResult :
      (o : Overview) (rollout : String → Bool × RolloutStatusApplication) (app : String)
      (version : ℕ)
      → AcceptsResult Q (release_card rt config plans opens o rollout app version)
  unfolding release_card
  release_card-AcceptsResult o rollout app version = AcceptsResult-and_then Q _ _ λ r.
      AcceptsResult-map_result Q _ _
        (chip_list-AcceptsResult Q rt config plans accepts o.environment_groups app version true)
        (card_view-Accepts o app version r _)

  card_mini-AcceptsResult :
      (o : Overview) (app : String) (version : ℕ)
      → AcceptsResult Q (release_card_mini rt config plans opens o app version)
  unfolding release_card_mini formatted_date
  card_mini-AcceptsResult o app version = AcceptsResult-and_then Q _ _ λ r.
      AcceptsResult-map_result Q _ _
        (chip_list-AcceptsResult Q rt config plans accepts o.environment_groups app version false)
        λ chips accepted. ground (
          arith,
          accepted,
          accepts_opening app version,
          release_with_links-Accepts Q rt config app r,
        )

  releases_view-AcceptsResult :
      (date_format date_string : ℕ → String) (app : String) (o : Overview)
      → AcceptsResult Q (releases_view rt config plans opens date_format date_string app o)
  unfolding releases_view
  releases_view-AcceptsResult date_format date_string app o =
      let sorted = (releases_for_app app o).1 in
      let releases = get_or ((releases_for_app app o).0) [] in
      AcceptsResults-map_result Q _ _
        (AcceptsResults-each Q _ (values (group_by_date date_string [] releases)) λ group.
          AcceptsResults-map_result Q _ _
            (AcceptsResults-each Q _ group λ r.
              AcceptsResult-map_result Q _ _ (card_mini-AcceptsResult sorted app r.version)
                λ card accepted. (accepted, tt))
            λ cards accepted. ((tt, tt), accepted))
        λ groups accepted. ((tt, tt), accepted)

  pub releases_page-AcceptsResult :
      (date_format date_string : ℕ → String) (app : String) (o : Overview) (l : GlobalLoadingState)
      → AcceptsResult Q (releases_page rt config plans opens date_format date_string app o l)
  unfolding releases_page
  releases_page-AcceptsResult date_format date_string app o l =
      elim (Bool-cases (everything_loaded l)) [
        | inr waits ↦ rw (releases_page, waits) (loading_state_spinner-Accepts Q l)
        | inl loaded ↦
            rw (releases_page, loaded)
              (AcceptsResult-map_result Q _ _
                (releases_view-AcceptsResult date_format date_string app o)
                λ releases accepted. (accepted, tt))
      ]
