-- ===== src/App/View/Shown.antt =====
-- When the whole page is rendered without an error.
use kuberpult.Prelude.{
  ℕ, ◌≡◌, refl, String, Bool, false, ◌&&◌, not, none, some, ◌==◌, eqb, All, truthy, Bool-cases, inl,
  inr, Option-cases, sym,
}
use kuberpult.Api.{Environment, Release, Overview}
use kuberpult.Store.Dialog.{release_dialog_params, valid_params}
use kuberpult.Store.Locks.{values, environments}
use kuberpult.Store.Overview.{release, Result}
use kuberpult.View.{Html, Runtime}
use kuberpult.View.Results.{Returns, Returns-map_result, Returns-and_then}
use kuberpult.App.View.{Events, Readers, Frontend, page_routes, dialog_of, app}
use kuberpult.Authentication.{
  azure_auth_provider, acquire_token_view, FrontendConfigStore, AzureAuthSub, use_azure_auth,
}
use kuberpult.EnvironmentCard.Shown.{Returns-environments_page}
use kuberpult.Navigation.{environments_route, locks_route, home_route, releases_route, navigate}
use kuberpult.ReleaseCard.Shown.{Returns-releases_page}
use kuberpult.ReleaseDialog.Shown.{Returns-release_dialog}
use kuberpult.ServiceLane.Shown.{IsDisplayable, Returns-home}

-- Every environment has a name, and every application can be displayed.
abbrev pub IsComplete : Overview → Type 0
IsComplete o =
    All (λ (env : Environment). (env.name == "") ≡ false) (environments o.environment_groups)
    × All (IsDisplayable o) (values o.applications)

Returns-provider :
    {E : Type 0} (c : FrontendConfigStore) (is_authenticated : Bool) (s : AzureAuthSub)
    (rest : Result (Html E))
    → Returns rest
    → Returns (azure_auth_provider c is_authenticated s rest)
unfolding azure_auth_provider acquire_token_view
Returns-provider c is_authenticated s rest h = elim (Bool-cases c.config_ready) [
  | inr waits ↦ rw (azure_auth_provider, waits) (_, refl)
  | inl ready ↦ elim (Bool-cases (use_azure_auth c.configs)) [
    | inr off ↦ rw (azure_auth_provider, ready, off) h
    | inl on ↦ elim (Bool-cases is_authenticated) [
      | inr out ↦ rw (azure_auth_provider, ready, on, out) (_, refl)
      | inl signed ↦ elim (Bool-cases s.auth_ready) [
        | inr no_token ↦ rw (azure_auth_provider, ready, on, signed, no_token) (_, refl)
        | inl token ↦ rw (azure_auth_provider, ready, on, signed, token) h
      ]
    ]
  ]
]

module _ {E : Type 0} (rt : Runtime) (readers : Readers) (ev : Events E) where
  named_release :
      (o : Overview) (text_app text_version : String) (n : ℕ)
      → readers.read_number text_version ≡ some n
      → (name : String) (version : ℕ)
      → valid_params rt.number_text readers.read_number o text_app text_version
        ≡ some (name, version)
      → (r : Release) × (release name version o ≡ some r)
  unfolding valid_params
  named_release o text_app text_version n read name version e =
      elim (Option-cases (release text_app n o)) [
        | inl missing ↦
            let closed : valid_params rt.number_text readers.read_number o text_app text_version
                ≡ none =
              rw (valid_params, read, missing) refl in
            cc
        | inr (r, found) ↦
            let opened : valid_params rt.number_text readers.read_number o text_app text_version
                ≡ some (text_app, n) =
              rw (valid_params, read, found) refl in
            let same_app : text_app ≡ name = cc in
            let same_version : n ≡ version = cc in (r, rw (sym same_app, sym same_version) found)
      ]

  -- The parameters of the address only ever name a release that the overview has.
  valid_release :
      (o : Overview) (text_app text_version : String) (name : String) (version : ℕ)
      → valid_params rt.number_text readers.read_number o text_app text_version
        ≡ some (name, version)
      → (r : Release) × (release name version o ≡ some r)
  unfolding valid_params
  valid_release o text_app text_version name version e =
      elim (Option-cases (readers.read_number text_version)) [
        | inl unread ↦
            let closed : valid_params rt.number_text readers.read_number o text_app text_version
                ≡ none =
              rw (valid_params, unread) refl in
            cc
        | inr (n, read) ↦ named_release o text_app text_version n read name version e
      ]

  Returns-dialog_of : (f : Frontend) → Returns (dialog_of rt readers ev f)
  unfolding dialog_of release_dialog_params
  Returns-dialog_of f =
      elim (Option-cases
        (release_dialog_params rt.number_text readers.read_number f.overview f.params)) [
          | inl closed ↦ rw (dialog_of, closed) (_, refl)
          | inr ((name, version), opened) ↦
              let (r, found) = valid_release f.overview _ _ name version opened in
              elim (Bool-cases (truthy name && not (eqb version 0))) [
                | inl shown ↦
                    rw (dialog_of, opened, shown)
                      (Returns-map_result _ _ (
                        Returns-release_dialog rt f.config.configs ev.plans f.overview ev.closes
                          name version r found))
                | inr hidden ↦ rw (dialog_of, opened, hidden) (_, refl)
              ]
        ]

  Returns-page_routes :
      (f : Frontend) → IsComplete f.overview → Returns (page_routes rt readers ev f)
  unfolding page_routes
  Returns-page_routes f (named, displayable) = elim (Option-cases f.route) [
    | inl unmatched ↦ rw (page_routes, unmatched) (_, refl)
    | inr (environments_route, e) ↦
        rw (page_routes, e) (Returns-map_result _ _ (Returns-environments_page rt _ _ _ _))
    | inr (locks_route, e) ↦ rw (page_routes, e) (_, refl)
    | inr (home_route, e) ↦
        rw (page_routes, e)
          (Returns-map_result _ _ (Returns-home rt _ _ _ _ _ _ _ _ _ _ named displayable))
    | inr (releases_route, e) ↦
        rw (page_routes, e) (Returns-map_result _ _ (Returns-releases_page rt _ _ _ _ _ _ _ _))
    | inr (navigate replace to, e) ↦ rw (page_routes, e) (_, refl)
  ]

  -- If every environment has a name, and every application is stored under its name, has a release
  -- and has all of its deployed versions among its releases, then the whole page is rendered without
  -- an error, whatever the address, the page that it leads to and the states of the components are.
  pub Returns-app : (f : Frontend) → IsComplete f.overview → Returns (app rt readers ev f)
  unfolding app
  Returns-app f complete = Returns-provider f.config f.is_authenticated f.auth _ (
      Returns-and_then (dialog_of rt readers ev f) _ (Returns-dialog_of f)
        λ dialog _. Returns-map_result _ _ (Returns-page_routes f complete))
