-- ===== src/ReleaseDialog/Shown.antt =====
-- When the release dialog is rendered without an error.
use kuberpult.Prelude.{
  ℕ, ◌≡◌, refl, String, none, some, List, ◌==◌, All, All-imp, All-of_flat_map, Bool-cases, inl, inr,
  Option-cases,
}
use kuberpult.Api.{FrontendConfig, Environment, EnvironmentGroup, Release, Lock, Overview}
use kuberpult.Store.Cart.{Cart}
use kuberpult.Store.Locks.{values, environments}
use kuberpult.Store.Locks.Lookup.{IsFound, every_lock-IsFound}
use kuberpult.Store.Overview.{lookup, release, release_optional, release_or_throw}
use kuberpult.View.{Runtime}
use kuberpult.View.Results.{Returns, Returns-map_result, Returns-and_then, Returns-each}
use kuberpult.Chips.Shown.{Returns-big_chip}
use kuberpult.ReleaseDialog.{queued_version}
use kuberpult.ReleaseDialog.View.{
  item_view, single_chip, environment_list_item, environment_list, release_dialog,
}

-- The locks of the environment are found.
abbrev LocksAreFound : List EnvironmentGroup → Environment → Type 0
LocksAreFound groups env =
    All (λ (l : Lock). IsFound (environments groups) l.lock_id) (values env.locks)

every_group-LocksAreFound :
    (groups : List EnvironmentGroup)
    → All (λ (g : EnvironmentGroup). All (LocksAreFound groups) g.environments) groups
unfolding environments
every_group-LocksAreFound groups =
    All-of_flat_map (LocksAreFound groups) (λ (g : EnvironmentGroup). g.environments) groups
      (every_lock-IsFound (environments groups))

-- A release that is found belongs to an application that is found.
known_application :
    (app : String) (version : ℕ) (r : Release) (o : Overview)
    → release app version o ≡ some r
    → (a : _) × (lookup app o.applications ≡ some a)
unfolding release
known_application app version r o e = elim (Option-cases (lookup app o.applications)) [
  | inl missing ↦ let gone : release app version o ≡ none = rw (release, missing) refl in cc
  | inr found ↦ found
]

module _ {E : Type 0} (rt : Runtime) (config : FrontendConfig) (plans : (Cart → Cart) → E)
    (o : Overview) where
  Returns-release_optional :
      (app : String) (env : Environment) (a : _)
      → lookup app o.applications ≡ some a
      → Returns (release_optional app env o)
  unfolding release_optional
  Returns-release_optional app env a e = elim (Option-cases (lookup app env.applications)) [
    | inl missing ↦ rw (release_optional, e, missing) (_, refl)
    | inr (x, found) ↦ rw (release_optional, e, found) (_, refl)
  ]

  Returns-item :
      (app : String) (r : Release) (queued : ℕ) (env : Environment) (a : _)
      → lookup app o.applications ≡ some a
      → LocksAreFound o.environment_groups env
      → Returns (environment_list_item rt config plans o app r queued env)
  unfolding environment_list_item
  Returns-item app r queued env a e found =
      Returns-and_then _ _ (Returns-release_optional app env a e) λ other_release _.
        Returns-map_result (item_view rt config plans o env app r queued other_release) _ (
          Returns-big_chip rt config plans o.environment_groups app env (single_chip env) refl
            found)

  Returns-list :
      (app : String) (r : Release) (a : _)
      → lookup app o.applications ≡ some a
      → Returns (environment_list rt config plans o app r)
  unfolding environment_list
  Returns-list app r a e = Returns-map_result _ _ (
      Returns-each _ o.environment_groups (
        All-imp (λ (g : EnvironmentGroup). All (LocksAreFound o.environment_groups) g.environments)
          _
          (λ g found. Returns-map_result _ _ (
            Returns-each _ g.environments (
              All-imp (LocksAreFound o.environment_groups) _
                (λ env. Returns-item app r (queued_version env app) env a e) g.environments found)))
          o.environment_groups (every_group-LocksAreFound o.environment_groups)))

  -- The dialog of a release that the overview has is rendered without an error.
  pub Returns-release_dialog :
      (close : E) (app : String) (version : ℕ) (r : Release)
      → release app version o ≡ some r
      → Returns (release_dialog rt config plans o close app version)
  unfolding release_dialog release_or_throw
  Returns-release_dialog close app version r e =
      let (a, known) = known_application app version r o e in
      elim (Bool-cases (app == "")) [
        | inl unnamed ↦ rw (release_dialog, release_or_throw, e, unnamed) (_, refl)
        | inr named ↦
            rw (release_dialog, release_or_throw, e, named)
              (Returns-map_result _ _ (Returns-list app r a known))
      ]
