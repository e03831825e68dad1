-- ===== src/EnvironmentCard/Accepted.antt =====
-- The events of the page of the environments, and of a lock that LockDisplay.tsx shows.
use kuberpult.Prelude.{not, eqb, length, List, arith, Bool-cases, inl, inr}
use kuberpult.Api.{FrontendConfig, Environment, EnvironmentGroup}
use kuberpult.Store.Cart.{Cart}
use kuberpult.Store.Cart.Additions.{Adds}
use kuberpult.Store.Locks.{DisplayLock, environments, filtered_environment_lock_ids}
use kuberpult.View.{Runtime}
use kuberpult.View.Accepts.{
  Accepts, AcceptsAll-append, AcceptsAll-when, AcceptsResult, AcceptsResults-map_result,
  AcceptsResults-each,
}
use kuberpult.View.Widgets.{formatted_date}
use kuberpult.Chips.Accepted.{environment_lock_display-AcceptsResult}
use kuberpult.EnvironmentCard.Additions.{Adds-add_lock, Adds-add_group_lock, Adds-delete_lock}
use kuberpult.EnvironmentCard.View.{
  lock_display, environment_card, environment_group_card, environments_page,
}
use kuberpult.App.{GlobalLoadingState, everything_loaded}
use kuberpult.App.Loading.{loading_state_spinner-Accepts}

module _ {E : Type 0} (Q : E → Type 0) (rt : Runtime) (plans : (Cart → Cart) → E)
    (accepts : (change : Cart → Cart) → Adds change → Q (plans change)) where
  pub lock_display-Accepts : (l : DisplayLock) → Accepts Q (lock_display rt plans l)
  unfolding lock_display formatted_date
  lock_display-Accepts l = ground (arith, accepts _ (Adds-delete_lock l))

  module _ (config : FrontendConfig) (groups : List EnvironmentGroup) where
    card-AcceptsResult :
        (env : Environment) → AcceptsResult Q (environment_card rt config plans groups env)
    unfolding environment_card
    card-AcceptsResult env =
        AcceptsResults-map_result Q _ _
          (AcceptsResults-each Q _ (filtered_environment_lock_ids env.name (environments groups))
            (environment_lock_display-AcceptsResult Q rt config plans accepts groups env.name))
          λ locks accepted. (
            ((tt, tt), tt),
            (
              AcceptsAll-append Q _ _ (AcceptsAll-when Q (not (eqb (length locks) 0)) _ accepted)
                  ((accepts _ (Adds-add_lock env), tt), tt),
              tt,
            ),
          )

    group_card-AcceptsResult :
        (group : EnvironmentGroup)
        → AcceptsResult Q (environment_group_card rt config plans groups group)
    unfolding environment_group_card
    group_card-AcceptsResult group =
        AcceptsResults-map_result Q _ _
          (AcceptsResults-each Q _ group.environments card-AcceptsResult)
          λ cards accepted. (
            (((tt, tt), tt), ((accepts _ (Adds-add_group_lock group), tt), tt)),
            (accepted, (tt, tt)),
          )

    pub environments_page-AcceptsResult :
        (l : GlobalLoadingState) → AcceptsResult Q (environments_page rt config plans groups l)
    unfolding environments_page
    environments_page-AcceptsResult l = elim (Bool-cases (everything_loaded l)) [
      | inr waits ↦ rw (environments_page, waits) (loading_state_spinner-Accepts Q l)
      | inl loaded ↦ elim (Bool-cases (eqb (length groups) (length (environments groups)))) [
        | inl same ↦
            rw (environments_page, loaded, same)
              (AcceptsResults-map_result Q _ _
                (AcceptsResults-each Q _ (environments groups) card-AcceptsResult)
                λ cards accepted. (accepted, tt))
        | inr grouped ↦
            rw (environments_page, loaded, grouped)
              (AcceptsResults-map_result Q _ _
                (AcceptsResults-each Q _ groups group_card-AcceptsResult)
                λ cards accepted. accepted)
      ]
    ]
