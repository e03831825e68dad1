-- ===== src/Links/Slash.antt =====
-- The slash at the end of the address of Argo CD.
use kuberpult.Prelude.{
  ◌≡◌, refl, String, Bool, true, false, some, [], ◌∷◌, ◌==◌, truthy, concat, eq_iff, Bool-cases,
  inl, inr,
}
use kuberpult.Links.{derive_argo_app_link, derive_argo_app_env_link, derive_argo_team_link}

abbrev with_slash : String → String
with_slash u = concat (u ∷ "/" ∷ [])

module _ (ends_with_slash : String → Bool) (empty : ends_with_slash "" ≡ false) where
  truthy_slash : (s : String) → ends_with_slash s ≡ true → truthy s ≡ true
  truthy_slash s h = elim (Bool-cases (s == "")) [
    | inl e ↦ let same : ends_with_slash s ≡ false = rw ((eq_iff s "").0 e) empty in cc
    | inr d ↦ rw d refl
  ]

  -- If an empty text does not end with a slash, an address of Argo CD that is not empty and lacks the
  -- slash at its end gives the same three links as the address with the slash, if that ends with one.
  pub argo_links-eq :
      (encode : String → String) (base_url app env team : String)
      → truthy base_url ≡ true
      → ends_with_slash base_url ≡ false
      → ends_with_slash (concat (base_url ∷ "/" ∷ [])) ≡ true
      → (derive_argo_app_link ends_with_slash (some base_url) app
          ≡ derive_argo_app_link ends_with_slash (some (concat (base_url ∷ "/" ∷ []))) app)
        × (derive_argo_app_env_link ends_with_slash (some base_url) app env
            ≡ derive_argo_app_env_link ends_with_slash
                (some (concat (base_url ∷ "/" ∷ [])))
                app
                env)
        × (derive_argo_team_link ends_with_slash encode (some base_url) team
            ≡ derive_argo_team_link ends_with_slash encode
                (some (concat (base_url ∷ "/" ∷ [])))
                team)
  unfolding derive_argo_app_link derive_argo_app_env_link derive_argo_team_link
  argo_links-eq encode base_url app env team known lacks ends =
      let slashed = truthy_slash (with_slash base_url) ends in
      (
        simp (known, lacks, ends, slashed),
        simp (known, lacks, ends, slashed),
        simp (known, lacks, ends, slashed),
      )
