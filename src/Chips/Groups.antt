-- ===== src/Chips/Groups.antt =====
-- What the chips of a version say of the groups.
use kuberpult.Prelude.{
  ℕ, ◌≡◌, refl, ◌<◌, ◌≤◌, String, Bool, true, false, none, some, List, [], ◌∷◌, leb, ltb, eqb,
  length, length-filter-le, filter, find, any, map, arith, Bool-cases, inl, inr, if◌then◌else◌,
  subst,
}
use kuberpult.Api.{Environment, EnvironmentGroup}
use kuberpult.Store.Overview.{currently_deployed_at_group, groups_with, deploys_version}
use kuberpult.Chips.{ChipProps, environment_group_chip, all_of, some_of, numbers, group_chips, head}

numbers-eq :
    (deployed in_group : ℕ)
    → 0 < deployed
    → deployed ≤ in_group
    → numbers deployed in_group
      ≡ (if eqb deployed in_group then all_of in_group else some_of deployed in_group)
unfolding numbers
numbers-eq deployed in_group some_deployed fits = ground (arith, some_deployed, fits)

module _ (p : Environment → Bool) where
  -- How many environments of the group have the version.
  abbrev count : EnvironmentGroup → ℕ
  count g = length (filter p g.environments)

  -- The chip of a group shows the first environment of it that has the version. It has the group's name
  -- if several have it, and numbers the environments of the group, and those that have it if these are
  -- not all.
  abbrev pub IsChipOf : EnvironmentGroup → ChipProps → Type 0
  IsChipOf g c =
      (c.env ≡ find p g.environments)
      × (c.group_name_override ≡ (if leb 2 (count g) then some g.environment_group_name else none))
      × (numbers c.number_envs_deployed c.number_envs_in_group ≡ (
          if eqb (count g) (length g.environments)
          then all_of (length g.environments)
          else some_of (count g) (length g.environments)))

  -- One chip for each group, in their order.
  abbrev pub AreChipsOf : List EnvironmentGroup → List ChipProps → Type 0
  AreChipsOf [] [] = Unit
  AreChipsOf (g ∷ groups) (c ∷ chips) = IsChipOf g c × AreChipsOf groups chips
  AreChipsOf _ _ = true ≡ false

  head-filter : (xs : List Environment) → head (filter p xs) ≡ find p xs
  head-filter [] = refl
  head-filter (x ∷ xs) = elim (Bool-cases (p x)) [
    | inl b ↦ rw b refl
    | inr b ↦ rw b (head-filter xs)
  ]

  any-length : (xs : List Environment) → any p xs ≡ ltb 0 (length (filter p xs))
  any-length [] = refl
  any-length (x ∷ xs) = ground (arith, any-length xs)

  IsChipOf-chip :
      (g : EnvironmentGroup)
      → ltb 0 (count g) ≡ true
      → IsChipOf g (
          environment_group_chip (record {
            environment_group_name = g.environment_group_name;
            environments = filter p g.environments;
            distance_to_upstream = g.distance_to_upstream;
            number_of_envs_in_group = length g.environments;
          }))
  unfolding environment_group_chip
  IsChipOf-chip g some_env =
      let fits = length-filter-le p g.environments in
      let shown = numbers-eq (count g) (length g.environments) (ground arith) fits in
      elim (Bool-cases (leb 2 (count g))) [
        | inl several ↦ rw several (head-filter g.environments, refl, shown)
        | inr one ↦ rw one (
          head-filter g.environments,
          refl,
          let single : count g ≡ 1 = ground (arith, one, some_env) in
              subst
                (λ n. numbers n (length g.environments) ≡ (
                  if eqb (count g) (length g.environments)
                  then all_of (length g.environments)
                  else some_of (count g) (length g.environments)))
                single shown,
        )
      ]

  AreChipsOf-groups_with :
      (groups : List EnvironmentGroup)
      → AreChipsOf
          (filter (λ g. any p g.environments) groups)
          (map environment_group_chip (groups_with p groups))
  AreChipsOf-groups_with [] = tt
  AreChipsOf-groups_with (g ∷ groups) = elim (Bool-cases (ltb 0 (count g))) [
    | inl shown ↦
        rw (any-length g.environments, shown) (IsChipOf-chip g shown, AreChipsOf-groups_with groups)
    | inr hidden ↦ rw (any-length g.environments, hidden) (AreChipsOf-groups_with groups)
  ]

-- A version has one chip for each group that has an environment with it, in the order of the groups, and
-- no other chips. The chip shows the first such environment of its group, under the group's name if
-- there are several; it says how many environments the group has, and how many of them have the
-- version unless all do.
pub group_chips-AreChipsOf :
    (app : String) (version : ℕ) (groups : List EnvironmentGroup)
    → AreChipsOf
        (deploys_version app version)
        (filter (λ (g : EnvironmentGroup). any (deploys_version app version) g.environments) groups)
        (group_chips app version groups)
unfolding group_chips currently_deployed_at_group
group_chips-AreChipsOf app version groups =
    AreChipsOf-groups_with (deploys_version app version) groups
