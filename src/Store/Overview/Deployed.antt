-- ===== src/Store/Overview/Deployed.antt =====
-- What is deployed where: the versions of the lanes, and the environments of the chips.
use kuberpult.Prelude.{
  ℕ, ◌≡◌, refl, ◌∙◌, ap, ◌≤◌, ◌<◌, String, Bool, true, false, ◌&&◌, ◌||◌, not, Option, none, some,
  List, [], ◌∷◌, ◌++◌, eqb, eqb_iff, ltb, any, filter, flat_map, length, All, arith, Bool-cases,
  inl, inr, sort_by, sort_onto, insert_by, sort_by-IsSorted, IsSorted, All-every, All-filter,
  unique, unique_onto, filter-append, length-filter-le, filter-All,
}
use kuberpult.Api.{Environment, EnvironmentGroup}
use kuberpult.Store.Locks.{environments}
use kuberpult.Store.Overview.{
  descending, deployed_version, versions_of, deployed_releases, EnvironmentGroupExtended,
  groups_with, deploys_version, currently_deployed_at_group,
}

abbrev is_version : ℕ → List ℕ → Bool
is_version v = any (eqb v)

any-insert_by :
    (v x : ℕ) (ys : List ℕ)
    → is_version v (insert_by descending x ys) ≡ (eqb v x || is_version v ys)
unfolding insert_by
any-insert_by v x [] = refl
any-insert_by v x (y ∷ ys) = ground (arith, any-insert_by v x ys)

any-sort_onto :
    (v : ℕ) (sorted xs : List ℕ)
    → is_version v (sort_onto descending sorted xs) ≡ (is_version v sorted || is_version v xs)
unfolding sort_onto
any-sort_onto v sorted [] = ground arith
any-sort_onto v sorted (x ∷ xs) =
    ground (arith, any-sort_onto v (insert_by descending x sorted) xs, any-insert_by v x sorted)

is_version_eq : (v x : ℕ) (xs : List ℕ) → eqb v x ≡ true → is_version v xs ≡ is_version x xs
is_version_eq v x xs h = ap (λ w. is_version w xs) (omega (arith, (eqb_iff v x).0 h))

any-unique_onto :
    (v : ℕ) (seen xs : List ℕ)
    → (is_version v seen || is_version v (unique_onto eqb seen xs))
      ≡ (is_version v seen || is_version v xs)
unfolding unique_onto
any-unique_onto v seen [] = refl
any-unique_onto v seen (x ∷ xs) =
    ground
      (arith, any-unique_onto v seen xs, any-unique_onto v (x ∷ seen) xs, is_version_eq v x seen)

any-filter_nonzero :
    (v : ℕ) (xs : List ℕ)
    → is_version v (filter (λ w. not (eqb w 0)) xs) ≡ (not (eqb v 0) && is_version v xs)
any-filter_nonzero v [] = ground arith
any-filter_nonzero v (x ∷ xs) = ground (arith, any-filter_nonzero v xs)

any-versions_of :
    (v : ℕ) (application : String) (envs : List Environment)
    → is_version v (versions_of application envs) ≡ any (deploys_version application v) envs
any-versions_of v application [] = refl
any-versions_of v application (env ∷ envs) =
    let rest = versions_of application envs in
    let ih = any-versions_of v application envs in
    elim (deployed_version application env)
      as (λ (o : Option ℕ). is_version v (elim o [ none ↦ rest | some w ↦ w ∷ rest ]) ≡ (
        elim o [ none ↦ false | some w ↦ eqb w v ] || any (deploys_version application v) envs)) [
          | none ↦ ih
          | some w ↦ ground (arith, ih)
        ]

IsSorted-filter :
    (p : ℕ → Bool) (xs : List ℕ)
    → IsSorted (λ a b. b ≤ a) xs
    → IsSorted (λ a b. b ≤ a) (filter p xs)
IsSorted-filter p [] s = tt
IsSorted-filter p (x ∷ xs) (h, s) = elim (Bool-cases (p x)) [
  | inl b ↦ rw b (All-filter (λ y. y ≤ x) p xs h, IsSorted-filter p xs s)
  | inr b ↦ rw b (IsSorted-filter p xs s)
]

-- The deployed releases of an application run from high to low versions, and a version is one of
-- them exactly if it is not 0 and some environment of some group has the application in it.
pub deployed_releases-IsSorted :
    (application : String) (groups : List EnvironmentGroup)
    → IsSorted (λ a b. b ≤ a) (deployed_releases application groups)
      × ((v : ℕ)
          → any (eqb v) (deployed_releases application groups)
            ≡ (not (eqb v 0) && any (deploys_version application v) (environments groups)))
unfolding deployed_releases sort_by unique
deployed_releases-IsSorted application groups =
    let versions = versions_of application (environments groups) in
    (
      IsSorted-filter (λ v. not (eqb v 0)) _
          (sort_by-IsSorted descending (λ v. v ≡ v) (λ a b. b ≤ a) (λ x y p q e. ground arith)
            (λ x y p q e. ground arith) (λ x y z h k. omega arith) (unique eqb versions)
            (All-every (λ v. v ≡ v) (λ v. refl) (unique eqb versions))),
      λ v.
          any-filter_nonzero v _
          ∙ ap (λ b. not (eqb v 0) && b)
              (any-sort_onto v [] _
                ∙ any-unique_onto v [] versions
                ∙ any-versions_of v application (environments groups)),
    )

none_left : (envs : List Environment) → ltb 0 (length envs) ≡ false → envs ≡ []
none_left [] h = refl
none_left (env ∷ envs) h = ground arith

module _ (p : Environment → Bool) where
  abbrev pub IsGroupWith : EnvironmentGroupExtended → Type 0
  IsGroupWith g =
      (0 < length g.environments)
      × (length g.environments ≤ g.number_of_envs_in_group)
      × All (λ env. p env ≡ true) g.environments

  groups_with-environments :
      (groups : List EnvironmentGroup)
      → flat_map (λ (g : EnvironmentGroupExtended). g.environments) (groups_with p groups)
        ≡ filter p (flat_map (λ (g : EnvironmentGroup). g.environments) groups)
  groups_with-environments [] = refl
  groups_with-environments (g ∷ groups) =
      elim (Bool-cases (ltb 0 (length (filter p g.environments)))) [
        | inl b ↦
            rw (b, filter-append)
              (ap (λ xs. filter p g.environments ++ xs) (groups_with-environments groups))
        | inr b ↦
            rw (b, filter-append, none_left (filter p g.environments) b)
              (groups_with-environments groups)
      ]

  groups_with-All : (groups : List EnvironmentGroup) → All IsGroupWith (groups_with p groups)
  groups_with-All [] = tt
  groups_with-All (g ∷ groups) = elim (Bool-cases (ltb 0 (length (filter p g.environments)))) [
    | inl b ↦ rw b (
      (ground arith, length-filter-le p g.environments, filter-All p g.environments),
      groups_with-All groups,
    )
    | inr b ↦ rw b (groups_with-All groups)
  ]

-- What `useCurrentlyDeployedAtGroup` returns: of all groups the environments that the version is
-- deployed to, in the order of the overview.
pub currently_deployed_at_group-environments :
    (application : String) (version : ℕ) (groups : List EnvironmentGroup)
    → (flat_map
          (λ (g : EnvironmentGroupExtended). g.environments)
          (currently_deployed_at_group application version groups)
        ≡ filter (deploys_version application version) (environments groups))
      × All
          (IsGroupWith (deploys_version application version))
          (currently_deployed_at_group application version groups)
unfolding currently_deployed_at_group environments
currently_deployed_at_group-environments application version groups =
    let p = deploys_version application version in
    (groups_with-environments p groups, groups_with-All p groups)
