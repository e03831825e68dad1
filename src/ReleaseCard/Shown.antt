-- ===== src/ReleaseCard/Shown.antt =====
-- When the cards of releases are rendered without an error.
use kuberpult.Prelude.{
  ℕ, ◌≡◌, refl, ap, String, Bool, true, false, some, List, [], ◌∷◌, ◌==◌, eqb, All, All-imp,
  All-append, All-of_mem, find_of_mem, find, Bool-cases, inl, inr, Option-cases, get_or, eqb_iff,
}
use mathlib.Core.Option
use mathlib.Core.Bool.{false≢true}
use kuberpult.Api.{FrontendConfig, Application, Environment, Release, Overview}
use kuberpult.Store.Cart.{Cart}
use kuberpult.Store.Locks.{values, environments}
use kuberpult.Store.Overview.{
  lookup, release, release_or_throw, sort_releases, with_sorted_releases, releases_for_app,
}
use kuberpult.Store.Rollout.{RolloutStatusApplication}
use kuberpult.View.{Runtime}
use kuberpult.View.Results.{Returns, Returns-map_result, Returns-each}
use kuberpult.Chips.Shown.{Returns-chip_list}
use kuberpult.Dates.{push, group_by_date}
use kuberpult.App.{GlobalLoadingState, everything_loaded}
use kuberpult.ReleaseCard.View.{release_card, release_card_mini, releases_view, releases_page}

-- The overview has the version of the application.
abbrev pub HasRelease : Overview → String → ℕ → Type 0
HasRelease o app version = (r : Release) × (release app version o ≡ some r)

pub lookup-with_sorted_releases :
    (app : String) (entries : List (String × Application)) (a : Application)
    → lookup app entries ≡ some a
    → lookup app (with_sorted_releases app entries)
      ≡ some (record a { releases = sort_releases a.releases })
lookup-with_sorted_releases app [] a e = cc
lookup-with_sorted_releases app ((k, b) ∷ entries) a e = elim (Bool-cases (k == app)) [
  | inl here ↦
      let same : some b ≡ some a = rw here at e in
      rw (here, here)
        (ap (Option.map (λ (a : Application). record a { releases = sort_releases a.releases }))
          same)
  | inr later ↦
      let rest : lookup app entries ≡ some a = rw later at e in
      rw (later, later) (lookup-with_sorted_releases app entries a rest)
]

-- A member of a list of releases is found by its version.
found_by_version :
    (rs : List Release)
    → All
        (λ (r : Release).
          (s : Release) × (find (λ (s : Release). eqb s.version r.version) rs ≡ some s))
        rs
found_by_version rs = All-of_mem _ rs λ r m.
    find_of_mem (λ (s : Release). eqb s.version r.version) rs m
      ((eqb_iff r.version r.version).1 refl)

-- The overview in which the releases were sorted has each release of the application.
pub sorted-HasRelease :
    (app : String) (o : Overview) (a : Application)
    → lookup app o.applications ≡ some a
    → All
        (λ (r : Release). HasRelease ((releases_for_app app o).1) app r.version)
        (sort_releases a.releases)
unfolding releases_for_app release
sorted-HasRelease app o a e =
    let known = lookup-with_sorted_releases app o.applications a e in
    All-imp
      (λ (r : Release).
        (s : Release) × (find (λ (s : Release). eqb s.version r.version) (sort_releases a.releases)
          ≡ some s))
      _ (λ r (s, found). (s, rw (release, known) found)) (sort_releases a.releases)
      (found_by_version (sort_releases a.releases))

-- The same for the releases that `Releases` shows, if any.
shown_releases-HasRelease :
    (app : String) (o : Overview)
    → All
        (λ (r : Release). HasRelease ((releases_for_app app o).1) app r.version)
        (get_or ((releases_for_app app o).0) [])
unfolding releases_for_app
shown_releases-HasRelease app o = elim (Option-cases (lookup app o.applications)) [
  | inl missing ↦ rw missing tt
  | inr (a, found) ↦ rw found (sorted-HasRelease app o a found)
]

module _ (date_string : ℕ → String) (P : Release → Type 0) where
  push-All :
      (key : String) (r : Release) (groups : List (String × List Release))
      → P r
      → All (All P) (values groups)
      → All (All P) (values (push date_string key r groups))
  push-All key r [] p h = ((p, tt), tt)
  push-All key r ((k, rs) ∷ groups) p (q, h) = elim (Bool-cases (k == key)) [
    | inl same ↦ rw same (All-append P rs (r ∷ []) q (p, tt), h)
    | inr other ↦ rw other (q, push-All key r groups p h)
  ]

  group_by_date-All :
      (rs : List Release) (groups : List (String × List Release))
      → All (All P) (values groups)
      → All P rs
      → All (All P) (values (group_by_date date_string groups rs))
  unfolding group_by_date
  group_by_date-All [] groups h k = h
  group_by_date-All (r ∷ rs) groups h (p, k) = elim (Option-cases r.created_at) [
    | inl undated ↦ rw (group_by_date, undated) (group_by_date-All rs groups h k)
    | inr (d, dated) ↦
        rw (group_by_date, dated) (group_by_date-All rs _ (push-All (date_string d) r groups p h) k)
  ]

module _ {E : Type 0} (rt : Runtime) (config : FrontendConfig) (plans : (Cart → Cart) → E)
    (opens : (app : String) (version : ℕ) → E) where
  -- The card of a release of the overview, whose environments have names.
  pub Returns-release_card :
      (o : Overview) (rollout : String → Bool × RolloutStatusApplication) (app : String)
      (version : ℕ)
      → All (λ (env : Environment). (env.name == "") ≡ false) (environments o.environment_groups)
      → HasRelease o app version
      → Returns (release_card rt config plans opens o rollout app version)
  unfolding release_card release_or_throw
  Returns-release_card o rollout app version named (r, e) =
      rw (release_card, release_or_throw, e)
        (Returns-map_result _ _
          (Returns-chip_list rt config plans o.environment_groups app version true (λ _. named)))

  Returns-release_card_mini :
      (o : Overview) (app : String) (version : ℕ)
      → HasRelease o app version
      → Returns (release_card_mini rt config plans opens o app version)
  unfolding release_card_mini release_or_throw
  Returns-release_card_mini o app version (r, e) =
      rw (release_card_mini, release_or_throw, e)
        (Returns-map_result _ _ (
          Returns-chip_list rt config plans o.environment_groups app version false
            (λ small. absurd (false≢true small))))

  -- The cards of an application, under whatever dates.
  Returns-releases_view :
      (date_format date_string : ℕ → String) (app : String) (o : Overview)
      → Returns (releases_view rt config plans opens date_format date_string app o)
  unfolding releases_view
  Returns-releases_view date_format date_string app o =
      let sorted = (releases_for_app app o).1 in
      let releases = get_or ((releases_for_app app o).0) [] in
      let HasCard : Release → Type 0 = λ (r : Release). HasRelease sorted app r.version in
      Returns-map_result _ _ (
        Returns-each _ (values (group_by_date date_string [] releases)) (
          All-imp (All HasCard) _
            (λ group known. Returns-map_result _ _ (
              Returns-each _ group (
                All-imp HasCard _
                  (λ r found.
                    Returns-map_result _ _ (Returns-release_card_mini sorted app r.version found))
                  group known)))
            (values (group_by_date date_string [] releases))
            (group_by_date-All date_string HasCard releases [] tt
              (shown_releases-HasRelease app o))))

  -- The page of the releases of an application is rendered without an error, whatever the overview
  -- and the application are.
  pub Returns-releases_page :
      (date_format date_string : ℕ → String) (app : String) (o : Overview) (l : GlobalLoadingState)
      → Returns (releases_page rt config plans opens date_format date_string app o l)
  unfolding releases_page
  Returns-releases_page date_format date_string app o l = elim (Bool-cases (everything_loaded l)) [
    | inl loaded ↦
        rw (releases_page, loaded)
          (Returns-map_result _ _ (Returns-releases_view date_format date_string app o))
    | inr waits ↦ rw (releases_page, waits) (_, refl)
  ]
