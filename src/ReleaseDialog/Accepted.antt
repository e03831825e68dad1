-- ===== src/ReleaseDialog/Accepted.antt =====
-- The events of the release dialog.
use kuberpult.Prelude.{ℕ, String, false, Option, none, some, ◌==◌, arith}
use kuberpult.Api.{
  FrontendConfig, Environment, EnvironmentApplication, EnvironmentGroup, Release, Overview,
}
use kuberpult.Store.Cart.{Cart}
use kuberpult.Store.Cart.Additions.{Adds}
use kuberpult.Store.Overview.{team_from_application, lookup}
use kuberpult.View.{Html, children, Runtime}
use kuberpult.View.Accepts.{
  Accepts, AcceptsAll, AcceptsAll-append, AcceptsAll-map, AcceptsResult, AcceptsResult-if,
  AcceptsResult-and_then, AcceptsResult-map_result, AcceptsResults-map_result, AcceptsResults-each,
}
use kuberpult.View.Widgets.{formatted_date}
use kuberpult.Chips.Accepted.{
  environment_chip-AcceptsResult, release_version-Accepts, links-AcceptsAll, argo_app_link-Accepts,
  argo_team_link-AcceptsAll,
}
use kuberpult.ReleaseDialog.{shown_app_locks, queued_version}
use kuberpult.ReleaseDialog.Additions.{
  Adds-delete_app_lock, Adds-create_app_lock, Adds-deploy_and_lock_click,
}
use kuberpult.ReleaseDialog.View.{
  single_chip, app_lock, deployed_version_view, queue_info, metadata_view, item_view,
  environment_list_item, environment_list, release_dialog,
}

module _ {E : Type 0} (Q : E → Type 0) (rt : Runtime) (config : FrontendConfig)
    (plans : (Cart → Cart) → E) (accepts : (change : Cart → Cart) → Adds change → Q (plans change))
    (o : Overview) where
  deployed_version-Accepts :
      (a : Option EnvironmentApplication) (app : String) (env : Environment) (r : Option Release)
      → Accepts Q (deployed_version_view rt config plans a app env r)
  unfolding deployed_version_view
  deployed_version-Accepts (some a) app env (some r) =
      (release_version-Accepts Q rt config r, (tt, tt))
  deployed_version-Accepts (some a) app env none = ground arith
  deployed_version-Accepts none app env r = ground arith

  queue_info-AcceptsAll : (queued : ℕ) → AcceptsAll Q (children (queue_info rt config plans queued))
  unfolding queue_info
  queue_info-AcceptsAll queued = ground arith

  metadata-Accepts :
      (env : Environment) (app : String) (r : Release)
      → Accepts Q (metadata_view rt config plans env app r)
  unfolding metadata_view formatted_date
  metadata-Accepts env app r = ground arith

  app_lock-Accepts :
      (env : Environment) (app : String) (l : _) → Accepts Q (app_lock rt config plans env app l)
  unfolding app_lock
  app_lock-Accepts env app l = (accepts _ (Adds-delete_app_lock env app l), (tt, tt))

  item_view-Accepts :
      (env : Environment) (app : String) (r : Release) (queued : ℕ) (other : Option Release)
      (chip : Html E)
      → Accepts Q chip
      → Accepts Q (item_view rt config plans o env app r queued other chip)
  item_view-Accepts env app r queued other chip accepted = (
    (accepted, (AcceptsAll-map Q _ (shown_app_locks env app) (app_lock-Accepts env app), tt)),
    (
      (
        (
          (deployed_version-Accepts (lookup app env.applications) app env other, tt),
          AcceptsAll-append Q (queue_info rt config plans queued) _ (queue_info-AcceptsAll queued)
              (metadata-Accepts env app r, tt),
        ),
        (
          (
            (
              accepts _ (Adds-create_app_lock env app),
              ((accepts _ (Adds-deploy_and_lock_click env app r), tt), tt),
            ),
            tt,
          ),
          tt,
        ),
      ),
      tt,
    ),
  )

  item-AcceptsResult :
      (app : String) (r : Release) (queued : ℕ) (env : Environment)
      → AcceptsResult Q (environment_list_item rt config plans o app r queued env)
  unfolding environment_list_item
  item-AcceptsResult app r queued env = AcceptsResult-and_then Q _ _ λ other.
      AcceptsResult-map_result Q _ _
        (environment_chip-AcceptsResult Q rt config plans accepts o.environment_groups app false
          (single_chip env))
        (item_view-Accepts env app r queued other)

  list-AcceptsResult :
      (app : String) (r : Release) → AcceptsResult Q (environment_list rt config plans o app r)
  unfolding environment_list
  list-AcceptsResult app r =
      AcceptsResults-map_result Q _ _
        (AcceptsResults-each Q _ o.environment_groups λ (group : EnvironmentGroup).
          AcceptsResults-map_result Q _ _
            (AcceptsResults-each Q _ group.environments
              (λ (env : Environment). item-AcceptsResult app r (queued_version env app) env))
            λ items accepted. accepted)
        λ groups accepted. accepted

  pub release_dialog-AcceptsResult :
      (close : E) (app : String) (version : ℕ)
      → Q close
      → AcceptsResult Q (release_dialog rt config plans o close app version)
  unfolding release_dialog formatted_date
  release_dialog-AcceptsResult close app version closes = AcceptsResult-and_then Q _ _ λ r.
      AcceptsResult-if Q (app == "") _ _ (tt) (
        AcceptsResult-map_result Q _ _ (list-AcceptsResult app r) λ list accepted. ground (
          arith,
          accepted,
          closes,
          links-AcceptsAll Q rt config r.source_commit_id app r.version,
          argo_app_link-Accepts Q rt config app,
          argo_team_link-AcceptsAll Q rt config (team_from_application rt.trim app o),
        ))
