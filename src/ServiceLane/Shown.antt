-- ===== src/ServiceLane/Shown.antt =====
-- When the home page is rendered without an error.
use kuberpult.Prelude.{
  ℕ, ◌≡◌, refl, sym, ap, ◌∙◌, ◌<◌, String, Bool, true, false, some, List, [], ◌∷◌, ◌==◌, eqb, any,
  map, length, All, All-imp, All-map, All-filter, All-of_sort_by, sort_by-All, any-false, false-any,
  compare, Ordering, find-none, arith, Bool-cases, inl, inr, Option-cases, find,
}
use mathlib.Core.Bool.{false≢true}
use kuberpult.Api.{FrontendConfig, Application, Environment, Release, Overview}
use kuberpult.Store.Cart.{Cart}
use kuberpult.Store.Locks.{values, environments}
use kuberpult.Store.Overview.{
  lookup, release, sort_releases, releases_for_app, versions_for_app, deployed_releases,
  filtered_apps, searched_applications,
}
use kuberpult.Store.Rollout.{RolloutStatusApplication}
use kuberpult.View.{Runtime}
use kuberpult.View.Results.{Returns, Returns-map_result, Returns-each}
use kuberpult.App.{GlobalLoadingState, everything_loaded}
use kuberpult.ReleaseCard.Shown.{
  HasRelease, lookup-with_sorted_releases, sorted-HasRelease, Returns-release_card,
}
use kuberpult.ServiceLane.Display.{ℤ, get_releases_to_display, diffs}
use kuberpult.ServiceLane.Menu.{Lane, Click}
use kuberpult.ServiceLane.View.{all_present, release_with_diff, releases_lane, service_lane, home}
use kuberpult.ServiceLane.Display.Members.{displayed-AllShown, all_present-map, All-zip}

abbrev has_version : ℕ → Release → Bool
has_version v r = eqb r.version v

-- What the lane of an application relies on: the application is stored under its name, it has a
-- release, and the versions that are deployed are among its releases.
abbrev pub IsDisplayable : Overview → Application → Type 0
IsDisplayable o a =
    (lookup a.name o.applications ≡ some a)
    × (0 < length a.releases)
    × All (λ v. any (has_version v) a.releases ≡ true)
        (deployed_releases a.name o.environment_groups)

found-sorted :
    (v : ℕ) (rs : List Release)
    → any (has_version v) rs ≡ true
    → (r : Release) × (find (has_version v) (sort_releases rs) ≡ some r)
found-sorted v rs h = elim (Option-cases (find (has_version v) (sort_releases rs))) [
  | inl missing ↦
      let unsorted =
        All-of_sort_by _ (λ r. has_version v r ≡ false) rs
          (any-false (has_version v) (sort_releases rs)
            (find-none (has_version v) (sort_releases rs) missing)) in
      let no_version = false-any (has_version v) rs unsorted in cc
  | inr found ↦ found
]

-- Sorting the releases of the application keeps its versions.
deployed-HasRelease :
    (o : Overview) (a : Application)
    → lookup a.name o.applications ≡ some a
    → (v : ℕ) → any (has_version v) a.releases ≡ true
    → HasRelease ((releases_for_app a.name o).1) a.name v
unfolding releases_for_app release
deployed-HasRelease o a e v h =
    let (r, found) = found-sorted v a.releases h in
    (r, rw (release, lookup-with_sorted_releases a.name o.applications a e) found)

no_member :
    (rs : List Release) → All (λ (r : Release). true ≡ false) rs → 0 < length rs → true ≡ false
no_member [] k h = absurd (omega (arith, h))
no_member (r ∷ rs) (k, _) h = k

abbrev by_version : Release → Release → Ordering
by_version a b = compare b.version a.version

sorted-nonempty :
    (rs : List Release)
    → 0 < length rs
    → (r : Release) × (rest : List Release) × (sort_releases rs ≡ r ∷ rest)
sorted-nonempty rs h = go (sort_releases rs) refl
  where
    go :
        (sorted : List Release)
        → sort_releases rs ≡ sorted
        → (r : Release) × (rest : List Release) × (sort_releases rs ≡ r ∷ rest)
    go [] e =
        let none_left = All-of_sort_by by_version (λ (r : Release). true ≡ false) rs (rw e tt) in
        absurd (false≢true (sym (no_member rs none_left h)))
    go (r ∷ rest) e = (r, rest, e)

module _ {E : Type 0} (rt : Runtime) (config : FrontendConfig) (plans : (Cart → Cart) → E)
    (opens : (app : String) (version : ℕ) → E) (clicks : (app : String) → Click → E)
    (rollout : String → Bool × RolloutStatusApplication) where
  Returns-releases_lane :
      (o : Overview) (app : String) (latest : ℕ) (rest : List ℕ)
      → All (λ (env : Environment). (env.name == "") ≡ false) (environments o.environment_groups)
      → All (HasRelease o app) (latest ∷ rest)
      → All (HasRelease o app) (deployed_releases app o.environment_groups)
      → Returns (releases_lane rt config plans opens clicks rollout o app (latest ∷ rest))
  unfolding releases_lane release_with_diff
  Returns-releases_lane o app latest rest named h k =
      let (shown, e, found) =
        displayed-AllShown (HasRelease o app) (deployed_releases app o.environment_groups) latest
          rest h k in
      let present : all_present
            (get_releases_to_display (deployed_releases app o.environment_groups) (latest ∷ rest))
          ≡ some shown =
        ap all_present e ∙ all_present-map (HasRelease o app) shown in
      rw (releases_lane, present)
        (Returns-each _ _ (
          All-imp (λ (x : ℕ × ℤ). HasRelease o app (x.0)) _
            (λ x known.
              Returns-map_result _ _
                (Returns-release_card rt config plans opens o rollout app (x.0) named known))
            _ (All-zip (HasRelease o app) shown (diffs (latest ∷ rest) shown) found)))

  Returns-service_lane :
      (o : Overview) (lane : Lane) (a : Application)
      → All (λ (env : Environment). (env.name == "") ≡ false) (environments o.environment_groups)
      → IsDisplayable o a
      → Returns (service_lane rt config plans opens clicks rollout o lane a)
  unfolding service_lane versions_for_app releases_for_app
  Returns-service_lane o lane a named (known, some_release, deployed) =
      let (r, rest, sorted) = sorted-nonempty a.releases some_release in
      let versions =
        All-map (HasRelease ((releases_for_app a.name o).1) a.name) (λ (r : Release). r.version)
          (sort_releases a.releases) (sorted-HasRelease a.name o a known) in
      rw (service_lane, versions_for_app, known, sorted)
        (Returns-map_result _ _ (
          Returns-releases_lane ((releases_for_app a.name o).1) a.name r.version
            (map (λ (r : Release). r.version) rest) named (rw sorted at versions)
            (All-imp (λ v. any (has_version v) a.releases ≡ true) _ (deployed-HasRelease o a known)
              _ deployed)))

  -- If every environment has a name, and every application is stored under its name, has a release
  -- and has all of its deployed versions among its releases, then the home page is rendered without
  -- an error, whatever the states of the lanes, the chosen teams and the searched name are.
  pub Returns-home :
      (o : Overview) (lanes : String → Lane) (teams : List String) (app_name : String)
      (l : GlobalLoadingState)
      → All (λ (env : Environment). (env.name == "") ≡ false) (environments o.environment_groups)
      → All (IsDisplayable o) (values o.applications)
      → Returns (home rt config plans opens clicks rollout o lanes teams app_name l)
  unfolding home filtered_apps searched_applications
  Returns-home o lanes teams app_name l named displayable =
      elim (Bool-cases (everything_loaded l)) [
        | inl loaded ↦
            rw (home, loaded)
              (Returns-map_result _ _ (
                Returns-each _
                  (searched_applications rt.includes rt.locale_compare
                    (filtered_apps rt.trim teams o) app_name)
                  (All-imp (IsDisplayable o) _ (λ a. Returns-service_lane o (lanes a.name) a named)
                    _
                    (sort_by-All _ (IsDisplayable o) _ (
                      All-filter (IsDisplayable o) _ _
                        (All-filter (IsDisplayable o) _ _ displayable))))))
        | inr waits ↦ rw (home, waits) (_, refl)
      ]
