-- ===== src/Chips/Accepted.antt =====
-- The events of links, release versions, warnings, chips and displays of locks.
use kuberpult.Prelude.{
  Option-cases, Bool-cases, inl, inr, arith, ℕ, String, Bool, Option, List, [], ◌∷◌, ◌++◌, ◌==◌,
  map, is_some,
}
use kuberpult.Api.{FrontendConfig, EnvironmentGroup, Release, Application, Warning, unset, Lock}
use kuberpult.Store.Cart.{Cart}
use kuberpult.Store.Cart.Additions.{Adds}
use kuberpult.Store.Locks.{DisplayLock, environment_lock, environments, values}
use kuberpult.View.{children, text_node, plain, Runtime}
use kuberpult.View.Accepts.{
  Accepts, AcceptsAll, AcceptsAll-append, AcceptsAll-map, Accepts-if, AcceptsResult,
  AcceptsResult-map_result, AcceptsResults-map_result, AcceptsResults-each,
}
use kuberpult.Links.View.{
  argo_team_link_view, argo_app_link_view, argo_app_env_link_view, source_link_view,
  manifest_link_view,
}
use kuberpult.EnvironmentCard.Additions.{Adds-delete_environment_lock_by_id}
use kuberpult.Chips.{ChipProps, group_chips, chip_name}
use kuberpult.Chips.View.{
  tooltip, release_version_view, release_version_with_links, warning_box_view, warning_boxes,
  display_lock_renderer, display_lock_inline_renderer, lock_button, environment_lock_display,
  environment_chip, environment_group_chip_view, environment_group_chip_list,
}

-- What only shows something accepts any property.
module _ {E : Type 0} (Q : E → Type 0) (rt : Runtime) (config : FrontendConfig) where
  pub source_link-AcceptsAll :
      (s commit : String) → AcceptsAll Q (children (source_link_view {E = E} rt config s commit))
  unfolding source_link_view
  source_link-AcceptsAll s commit = ground arith

  pub manifest_link-AcceptsAll :
      (s app : String) (version : ℕ)
      → AcceptsAll Q (children (manifest_link_view {E = E} rt config s app version))
  unfolding manifest_link_view
  manifest_link-AcceptsAll s app version = ground arith

  pub argo_app_link-Accepts : (app : String) → Accepts Q (argo_app_link_view {E = E} rt config app)
  unfolding argo_app_link_view
  argo_app_link-Accepts app = ground arith

  argo_app_env_link-Accepts :
      (app env : String) → Accepts Q (argo_app_env_link_view {E = E} rt config app env)
  unfolding argo_app_env_link_view
  argo_app_env_link-Accepts app env = ground arith

  pub release_version-Accepts : (r : Release) → Accepts Q (release_version_view {E = E} rt config r)
  unfolding release_version_view
  release_version-Accepts r = ground arith

  -- The two links of a release.
  pub links-AcceptsAll :
      (commit app : String) (version : ℕ)
      → AcceptsAll Q (
          children (
            source_link_view {E = E} rt config "Source" commit
            ++ text_node " " ∷ manifest_link_view rt config "Manifest" app version))
  links-AcceptsAll commit app version =
      AcceptsAll-append Q (source_link_view rt config "Source" commit)
        (text_node " " ∷ manifest_link_view rt config "Manifest" app version)
        (source_link-AcceptsAll "Source" commit)
        (tt, manifest_link-AcceptsAll "Manifest" app version)

  pub release_with_links-Accepts :
      (app : String) (r : Release) → Accepts Q (release_version_with_links {E = E} rt config app r)
  unfolding release_version_with_links
  release_with_links-Accepts app r = (
    (release_version-Accepts r, (tt, tt)),
    (links-AcceptsAll r.source_commit_id app r.version, tt),
  )

  warning_box-Accepts : (w : Warning) → Accepts Q (warning_box_view {E = E} rt config w)
  unfolding warning_box_view
  warning_box-Accepts unset = (tt, tt)
  warning_box-Accepts w = (tt, tt)

  pub warning_boxes-Accepts : (a : Application) → Accepts Q (warning_boxes {E = E} rt config a)
  unfolding warning_boxes
  warning_boxes-Accepts a = AcceptsAll-map Q _ a.warnings (λ w. (warning_box-Accepts w, tt))

  inline-Accepts : (l : DisplayLock) → Accepts Q (display_lock_inline_renderer {E = E} rt config l)
  unfolding display_lock_inline_renderer
  inline-Accepts l = ground arith

  pub argo_team_link-AcceptsAll :
      (team : Option String) → AcceptsAll Q (children (argo_team_link_view {E = E} rt config team))
  unfolding argo_team_link_view
  argo_team_link-AcceptsAll team = ground arith

  pub inline_items-AcceptsAll :
      (ls : List DisplayLock)
      → AcceptsAll Q (
          children (
            map
              (λ (l : DisplayLock).
                plain "li" (display_lock_inline_renderer {E = E} rt config l ∷ []))
              ls))
  inline_items-AcceptsAll ls = AcceptsAll-map Q _ ls (λ l. (inline-Accepts l, tt))

  display_lock-Accepts : (l : DisplayLock) → Accepts Q (display_lock_renderer {E = E} rt config l)
  unfolding display_lock_renderer
  display_lock-Accepts l = ground arith

-- What unlocks accepts a property that additions to the cart have.
module _ {E : Type 0} (Q : E → Type 0) (rt : Runtime) (config : FrontendConfig)
    (plans : (Cart → Cart) → E) (accepts : (change : Cart → Cart) → Adds change → Q (plans change))
    (groups : List EnvironmentGroup) where
  pub environment_lock_display-AcceptsResult :
      (env id : String) → AcceptsResult Q (environment_lock_display rt config plans groups env id)
  unfolding environment_lock_display lock_button tooltip
  environment_lock_display-AcceptsResult env id =
      elim (Option-cases (environment_lock id (environments groups))) [
        | inl missing ↦ rw (environment_lock_display, missing) tt
        | inr (lock, found) ↦
            rw (environment_lock_display, found)
              (
                ((accepts _ (Adds-delete_environment_lock_by_id env id), tt), tt),
                ((display_lock-Accepts Q rt config lock, tt), tt),
              )
      ]

  pub environment_chip-AcceptsResult :
      (app : String) (small : Bool) (c : ChipProps)
      → AcceptsResult Q (environment_chip rt config plans groups app small c)
  unfolding environment_chip
  environment_chip-AcceptsResult app small c = elim (Option-cases c.env) [
    | inl missing ↦ rw (environment_chip, missing) tt
    | inr (env, shown) ↦ elim (Bool-cases small) [
      | inl is_small ↦ elim (Bool-cases (chip_name c.group_name_override env == "")) [
        | inl unnamed ↦ rw (environment_chip, shown, is_small, unnamed) tt
        | inr named ↦ rw (environment_chip, shown, is_small, named) (ground arith)
      ]
      | inr big ↦
          rw (environment_chip, shown, big)
            (AcceptsResults-map_result Q _ _
              (AcceptsResults-each Q _ (values env.locks)
                (λ (lock : Lock). environment_lock_display-AcceptsResult env.name lock.lock_id))
              λ displays accepted. ground (
                arith,
                argo_app_env_link-Accepts Q rt config app (chip_name c.group_name_override env),
              ))
    ]
  ]

  pub chip_list-AcceptsResult :
      (app : String) (version : ℕ) (small : Bool)
      → AcceptsResult Q (environment_group_chip_list rt config plans groups app version small)
  unfolding environment_group_chip_list environment_group_chip_view
  chip_list-AcceptsResult app version small =
      AcceptsResults-map_result Q _ _
        (AcceptsResults-each Q _ (group_chips app version groups) (λ (c : ChipProps).
          AcceptsResult-map_result Q _ _ (environment_chip-AcceptsResult app small c)
            λ chip accepted.
              Accepts-if Q (is_some c.group_name_override) _ _ (accepted, tt) accepted))
        λ chips accepted. (tt, AcceptsAll-append Q chips (text_node " " ∷ []) accepted (tt, tt))
