-- ===== src/Chips/Silent.antt =====
-- Links, release versions and locks that are only shown offer nothing to click.
use kuberpult.Prelude.{
  ◌≡◌, refl, ℕ, String, some, List, [], ◌∷◌, ◌==◌, map, Bool-cases, inl, inr, Option-cases,
  opt_truthy,
}
use kuberpult.Api.{FrontendConfig, Release}
use kuberpult.Store.Locks.{DisplayLock}
use kuberpult.View.{offered, offered_by, children, Runtime, plain}
use kuberpult.View.Offers.{offered_by-append}
use kuberpult.Links.{display_source_link, display_manifest_link}
use kuberpult.Links.View.{source_link_view, manifest_link_view}
use kuberpult.Chips.View.{
  release_version_view, release_version_with_links, display_lock_inline_renderer,
}
use kuberpult.SideBar.View.{}

module _ {E : Type 0} (rt : Runtime) (config : FrontendConfig) where
  source_link-offered :
      (s commit : String) → offered_by (children (source_link_view {E = E} rt config s commit)) ≡ []
  unfolding source_link_view offered
  source_link-offered s commit =
      elim (Option-cases (
        display_source_link rt.replace rt.number_text (some config.source_repo_url)
          (some config.branch) commit)) [
            | inl none_given ↦ rw (source_link_view, none_given) refl
            | inr (href, given) ↦ rw (source_link_view, given) refl
          ]

  manifest_link-offered :
      (s app : String) (version : ℕ)
      → offered_by (children (manifest_link_view {E = E} rt config s app version)) ≡ []
  unfolding manifest_link_view offered
  manifest_link-offered s app version =
      elim (Option-cases (
        display_manifest_link rt.replace rt.number_text (some config.manifest_repo_url)
          (some config.branch) app version)) [
            | inl none_given ↦ rw (manifest_link_view, none_given) refl
            | inr (href, given) ↦ rw (manifest_link_view, given) refl
          ]

  version-offered : (r : Release) → offered (release_version_view {E = E} rt config r) ≡ []
  unfolding release_version_view offered
  version-offered r = elim (Bool-cases r.undeploy_version) [
    | inl undeploy ↦ rw (release_version_view, undeploy) refl
    | inr deploys ↦ elim (Bool-cases (r.display_version == "")) [
      | inr named ↦ rw (release_version_view, deploys, named) refl
      | inl unnamed ↦ elim (Bool-cases (r.source_commit_id == "")) [
        | inr commit ↦ rw (release_version_view, deploys, unnamed, commit) refl
        | inl no_commit ↦ rw (release_version_view, deploys, unnamed, no_commit) refl
      ]
    ]
  ]

  pub release-offered :
      (app : String) (r : Release)
      → offered (release_version_with_links {E = E} rt config app r) ≡ []
  unfolding release_version_with_links offered
  release-offered app r =
      rw
        (
          version-offered r,
          offered_by-append,
          source_link-offered "Source" r.source_commit_id,
          manifest_link-offered "Manifest" app r.version,
        )
        refl

  inline-offered :
      (l : DisplayLock) → offered (display_lock_inline_renderer {E = E} rt config l) ≡ []
  unfolding display_lock_inline_renderer offered
  inline-offered l = elim (Bool-cases (opt_truthy l.application)) [
    | inl app ↦ rw (display_lock_inline_renderer, app) refl
    | inr env ↦ rw (display_lock_inline_renderer, env) refl
  ]

  pub items-offered :
      (ls : List DisplayLock)
      → offered_by (
          children (
            map
              (λ (l : DisplayLock).
                plain "li" (display_lock_inline_renderer {E = E} rt config l ∷ []))
              ls))
        ≡ []
  unfolding offered
  items-offered [] = refl
  items-offered (l ∷ ls) = rw (inline-offered l, items-offered ls) refl
