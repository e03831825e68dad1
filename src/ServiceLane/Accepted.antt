-- ===== src/ServiceLane/Accepted.antt =====
-- The events of the home page.
use kuberpult.Prelude.{
  ℕ, String, Bool, true, false, List, arith, Bool-cases, inl, inr, Option-cases,
}
use kuberpult.Api.{FrontendConfig, Application, Overview}
use kuberpult.Store.Cart.{Cart}
use kuberpult.Store.Cart.Additions.{Adds}
use kuberpult.Store.Overview.{
  deployed_releases, releases_for_app, filtered_apps, searched_applications,
}
use kuberpult.Store.Rollout.{RolloutStatusApplication}
use kuberpult.View.{Html, children, Runtime}
use kuberpult.View.Accepts.{
  Accepts, AcceptsAll, AcceptsAll-map, AcceptsAll-when, AcceptsResult, AcceptsResults,
  AcceptsResult-and_then, AcceptsResult-map_result, AcceptsResults-map_result, AcceptsResults-each,
}
use kuberpult.View.Widgets.{confirmation_dialog}
use kuberpult.View.Widgets
use kuberpult.Chips.Accepted.{warning_boxes-Accepts}
use kuberpult.ReleaseCard.Accepted.{release_card-AcceptsResult}
use kuberpult.ServiceLane.Display.{ℤ, get_releases_to_display, diffs}
use kuberpult.ServiceLane.Menu.{Lane, Click, open_menu, leave_menu, menu_button, confirm, cancel}
use kuberpult.ServiceLane.Menu
use kuberpult.ServiceLane.View.{
  all_present, zip, with_index, diff_element, app_lock_summary, dots_menu, env_selection_dialog,
  menu_labels, lane_environments, release_with_diff, releases_lane, lane_view, service_lane, home,
  nonzero,
}
use kuberpult.App.{GlobalLoadingState, everything_loaded}
use kuberpult.App.Loading.{loading_state_spinner-Accepts}

module _ {E : Type 0} (Q : E → Type 0) (rt : Runtime) (clicks : (app : String) → Click → E)
    (accepts_click : (app : String) (click : Click) → Q (clicks app click)) where
  dots_menu-Accepts : (a : Application) (is_open : Bool) → Accepts Q (dots_menu rt clicks a is_open)
  unfolding dots_menu
  dots_menu-Accepts a false = (accepts_click a.name open_menu, tt)
  dots_menu-Accepts a true = (
    accepts_click a.name leave_menu,
    (
      AcceptsAll-map Q _ (with_index 0 (menu_labels rt clicks a))
          (λ (entry : ℕ × String). (accepts_click a.name (menu_button (entry.0)), tt)),
      tt,
    ),
  )

  env_selection_dialog-Accepts :
      (app : String) (envs : List String) (is_open : Bool) (selected : List String)
      → Accepts Q (env_selection_dialog rt clicks app envs is_open selected)
  unfolding env_selection_dialog confirmation_dialog Widgets.checkbox
  env_selection_dialog-Accepts app envs false selected = tt
  env_selection_dialog-Accepts app envs true selected = (
    (tt, tt),
    (
      tt,
      (
        (
          AcceptsAll-map Q _ (with_index 0 envs) (λ (entry : ℕ × String).
              ((accepts_click app (Menu.checkbox (entry.0)), (tt, (tt, tt))), tt)),
          tt,
        ),
        (tt, (((accepts_click app cancel, tt), ((accepts_click app confirm, tt), tt)), tt)),
      ),
    ),
  )

  diff-Accepts : (diff : ℤ) (title : String) → Accepts Q (diff_element rt clicks diff title)
  unfolding diff_element
  diff-Accepts diff title = ground arith

module _ {E : Type 0} (Q : E → Type 0) (rt : Runtime) (config : FrontendConfig)
    (plans : (Cart → Cart) → E) (opens : (app : String) (version : ℕ) → E)
    (clicks : (app : String) → Click → E) (rollout : String → Bool × RolloutStatusApplication)
    (accepts : (change : Cart → Cart) → Adds change → Q (plans change))
    (accepts_opening : (app : String) (version : ℕ) → Q (opens app version))
    (accepts_click : (app : String) (click : Click) → Q (clicks app click)) where
  with_diff-AcceptsResult :
      (o : Overview) (app : String) (x : ℕ × ℤ)
      → AcceptsResult Q (release_with_diff rt config plans opens clicks rollout o app x)
  unfolding release_with_diff
  with_diff-AcceptsResult o app (rel, diff) =
      AcceptsResult-map_result Q _ _
        (release_card-AcceptsResult Q rt config plans opens accepts accepts_opening o rollout app
          rel)
        λ card accepted. (
          accepted,
          AcceptsAll-when Q (nonzero diff) (diff_element rt clicks diff _)
              (diff-Accepts Q rt clicks accepts_click diff _),
        )

  lane-AcceptsResults :
      (o : Overview) (app : String) (releases : List ℕ)
      → AcceptsResults Q (releases_lane rt config plans opens clicks rollout o app releases)
  unfolding releases_lane
  lane-AcceptsResults o app releases =
      elim (Option-cases (
        all_present
          (get_releases_to_display (deployed_releases app o.environment_groups) releases))) [
            | inl missing ↦ rw (releases_lane, missing) tt
            | inr (shown, present) ↦
                rw (releases_lane, present)
                  (AcceptsResults-each Q _ (zip shown (diffs releases shown))
                    (with_diff-AcceptsResult o app))
          ]

  lane_view-Accepts :
      (o : Overview) (lane : Lane) (a : Application) (cards : List (Html E))
      → AcceptsAll Q (children cards)
      → Accepts Q (lane_view rt config plans opens clicks rollout o lane a cards)
  unfolding app_lock_summary
  lane_view-Accepts o lane a cards accepted = (
    env_selection_dialog-Accepts Q rt clicks accepts_click a.name (lane_environments a.name o)
        lane.show_env_selection_dialog lane.selected_envs,
    ground (
      arith,
      accepted,
      dots_menu-Accepts Q rt clicks accepts_click a lane.menu_open,
      warning_boxes-Accepts Q rt config a,
    ),
  )

  service_lane-AcceptsResult :
      (o : Overview) (lane : Lane) (a : Application)
      → AcceptsResult Q (service_lane rt config plans opens clicks rollout o lane a)
  unfolding service_lane
  service_lane-AcceptsResult o lane a =
      let sorted = (releases_for_app a.name o).1 in
      AcceptsResult-and_then Q _ _ λ releases.
        AcceptsResults-map_result Q _ _ (lane-AcceptsResults sorted a.name releases)
          (lane_view-Accepts sorted lane a)

  pub home-AcceptsResult :
      (o : Overview) (lanes : String → Lane) (teams : List String) (app_name : String)
      (l : GlobalLoadingState)
      → AcceptsResult Q (home rt config plans opens clicks rollout o lanes teams app_name l)
  unfolding home
  home-AcceptsResult o lanes teams app_name l = elim (Bool-cases (everything_loaded l)) [
    | inr waits ↦ rw (home, waits) (loading_state_spinner-Accepts Q l)
    | inl loaded ↦
        rw (home, loaded)
          (AcceptsResults-map_result Q _ _
            (AcceptsResults-each Q _
              (searched_applications rt.includes rt.locale_compare (filtered_apps rt.trim teams o)
                app_name)
              (λ (a : Application). service_lane-AcceptsResult o (lanes a.name) a))
            λ lanes accepted. accepted)
  ]
