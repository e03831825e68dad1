-- ===== src/ServiceLane/Empty.antt =====
-- The lane of an application that has no release.
use kuberpult.Prelude.{
  ℕ, ◌≡◌, refl, ap, String, Bool, false, none, some, List, [], ◌∷◌, any, map, concat, sort_by,
}
use kuberpult.Api.{FrontendConfig, Application, Overview}
use kuberpult.Store.Cart.{Cart}
use kuberpult.Store.Overview.{
  lookup, throws, sort_releases, releases_for_app, versions_for_app, deployed_releases,
}
use kuberpult.Store.Rollout.{RolloutStatusApplication}
use kuberpult.View.{Runtime}
use kuberpult.ServiceLane.Display.{
  important_releases, with_history, get_releases_to_display, same_version,
}
use kuberpult.ServiceLane.Menu.{Lane, Click}
use kuberpult.ServiceLane.View.{all_present, releases_lane, service_lane}

no_undefined : (vs : List ℕ) → any (same_version none) (map some vs) ≡ false
no_undefined [] = refl
no_undefined (v ∷ vs) = no_undefined vs

-- The first card has no version.
nothing_present : (deployed : List ℕ) → all_present (get_releases_to_display deployed []) ≡ none
unfolding get_releases_to_display important_releases with_history
nothing_present deployed =
    rw (get_releases_to_display, important_releases, no_undefined deployed) refl

module _ {E : Type 0} (rt : Runtime) (config : FrontendConfig) (plans : (Cart → Cart) → E)
    (opens : (app : String) (version : ℕ) → E) (clicks : (app : String) → Click → E)
    (rollout : String → Bool × RolloutStatusApplication) where
  lane-throws :
      (o : Overview) (app : String)
      → releases_lane rt config plans opens clicks rollout o app []
        ≡ throws (concat ("Release cannot be found for app " ∷ app ∷ " version undefined" ∷ []))
  unfolding releases_lane
  lane-throws o app =
      rw (releases_lane, nothing_present (deployed_releases app o.environment_groups)) refl

  -- The lane of an application that is stored under its name and has no release throws an error,
  -- whatever is deployed.
  pub service_lane-throws :
      (o : Overview) (lane : Lane) (a : Application)
      → lookup a.name o.applications ≡ some a
      → a.releases ≡ []
      → service_lane rt config plans opens clicks rollout o lane a
        ≡ throws (concat ("Release cannot be found for app " ∷ a.name ∷ " version undefined" ∷ []))
  unfolding service_lane versions_for_app releases_for_app sort_by
  service_lane-throws o lane a known empty =
      let sorted : sort_releases a.releases ≡ [] = ap sort_releases empty in
      rw (service_lane, versions_for_app, known, sorted, lane-throws _ a.name) refl
