-- ===== src/Store/Dialog.antt =====
-- The release dialog of store.tsx, which the parameters of the page's address open and close.
use kuberpult.Prelude.{
  ℕ, ◌≡◌, refl, ap, ◌∙◌, String, Option, none, some, List, [], ◌∷◌, ◌==◌, if◌then◌else◌, is_some,
  get_or, arith, eq_iff, Option-cases, inl, inr,
}
use kuberpult.Api.{Overview}
use kuberpult.Store.Overview.{lookup, release}
use kuberpult.Store.Rollout.{put, lookup-put}

-- `URLSearchParams`, as far as these functions use it: each name once.
abbrev pub Params : Type 0
Params = List (String × String)

abbrev pub delete : String → Params → Params
delete name [] = []
delete name ((k, v) ∷ params) =
    if k == name then delete name params else (k, v) ∷ delete name params

-- How a version is written as text, and how a text is read as a number: `none` is `NaN`, or a number
-- that is no version.
module _ (number_text : ℕ → String) (read_number : String → Option ℕ) where
  -- `useOpenReleaseDialog`
  unfoldable pub open_release_dialog : (app : String) (version : ℕ) → Params → Params
  open_release_dialog app version params =
      put "dialog-version" (number_text version) (put "dialog-app" app params)

  -- `useReleaseDialogParams`, for the values of the two parameters; `none` is a pair of `null`.
  unfoldable pub valid_params : Overview → (app version_text : String) → Option (String × ℕ)
  unfolding release
  valid_params o app version_text = elim (read_number version_text) [
    | none ↦ none
    | some version ↦ if is_some (release app version o) then some (app, version) else none
  ]

  unfoldable pub release_dialog_params : Overview → Params → Option (String × ℕ)
  unfolding valid_params
  release_dialog_params o params =
      valid_params o (get_or (lookup "dialog-app" params) "")
        (get_or (lookup "dialog-version" params) "")

-- `useCloseReleaseDialog`
unfoldable pub close_release_dialog : Params → Params
close_release_dialog params = delete "dialog-version" (delete "dialog-app" params)

pub lookup-delete :
    (name other : String) (params : Params)
    → lookup other (delete name params) ≡ (if name == other then none else lookup other params)
lookup-delete name other [] = ground arith
lookup-delete name other ((k, v) ∷ params) =
    ground
      (arith, lookup-delete name other params, eq_iff k name, eq_iff name other, eq_iff k other)

module _ (number_text : ℕ → String) (read_number : String → Option ℕ) where
  read_back :
      (o : Overview) (app : String) (version : ℕ)
      → read_number (number_text version) ≡ some version
      → valid_params number_text read_number o app (number_text version)
        ≡ (if is_some (release app version o) then some (app, version) else none)
  unfolding valid_params
  read_back o app version reads = rw (reads, valid_params) refl

  -- If the version is read back from its text, then after the dialog of a release is opened,
  -- the parameters name this release exactly if the overview has it, and else none.
  pub release_dialog_params-open :
      (app : String) (version : ℕ) (o : Overview) (params : Params)
      → read_number (number_text version) ≡ some version
      → release_dialog_params number_text read_number o
          (open_release_dialog number_text read_number app version params)
        ≡ (if is_some (release app version o) then some (app, version) else none)
  unfolding release_dialog_params open_release_dialog
  release_dialog_params-open app version o params reads =
      let text = number_text version in
      let named : Params = put "dialog-app" app params in
      let app_kept : lookup "dialog-app" (put "dialog-version" text named) ≡ some app =
        lookup-put "dialog-version" text "dialog-app" named
        ∙ lookup-put "dialog-app" app "dialog-app" params in
      let version_kept : lookup "dialog-version" (put "dialog-version" text named) ≡ some text =
        lookup-put "dialog-version" text "dialog-version" named in
      ap
        (λ x.
          valid_params number_text read_number o (get_or x "")
            (get_or (lookup "dialog-version" (put "dialog-version" text named)) ""))
        app_kept
      ∙ ap (λ x. valid_params number_text read_number o app (get_or x "")) version_kept
      ∙ read_back o app version reads

module _ (number_text : ℕ → String) (read_number : String → Option ℕ) where
  no_release :
      (o : Overview) (text : String)
      → lookup "" o.applications ≡ none
      → valid_params number_text read_number o "" text ≡ none
  unfolding valid_params release
  no_release o text h = elim (Option-cases (read_number text)) [
    | inl e ↦ rw (e, valid_params) refl
    | inr (n, e) ↦
        let gone : release "" n o ≡ none = rw (h, release) refl in rw (e, gone, valid_params) refl
  ]

  -- If no application has an empty name, then after the dialog is closed the parameters name no release.
  pub release_dialog_params-close :
      (o : Overview) (params : Params)
      → lookup "" o.applications ≡ none
      → release_dialog_params number_text read_number o (close_release_dialog params) ≡ none
  unfolding release_dialog_params close_release_dialog release
  release_dialog_params-close o params h =
      let app_gone : lookup "dialog-app" (close_release_dialog params) ≡ none =
        lookup-delete "dialog-version" "dialog-app" (delete "dialog-app" params)
        ∙ lookup-delete "dialog-app" "dialog-app" params in
      ap
        (λ x.
          valid_params number_text read_number o (get_or x "")
            (get_or (lookup "dialog-version" (close_release_dialog params)) ""))
        app_gone
      ∙ no_release o _ h
