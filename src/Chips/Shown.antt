-- ===== src/Chips/Shown.antt =====
-- When the chips of a release are rendered without an error.
use kuberpult.Prelude.{
  ℕ, ◌≡◌, refl, ◌<◌, String, Bool, true, false, Option, none, some, List, [], ◌∷◌, ◌==◌, leb,
  length, flat_map, All, All-imp, All-imp2, All-map, All-filter, All-of_flat_map, arith, Bool-cases,
  inl, inr,
}
use kuberpult.Api.{FrontendConfig, Environment, EnvironmentGroup, Lock}
use kuberpult.Store.Cart.{Cart}
use kuberpult.Store.Locks.{values, environments}
use kuberpult.Store.Locks.Lookup.{IsFound, every_lock-IsFound}
use kuberpult.Store.Overview.{
  EnvironmentGroupExtended, currently_deployed_at_group, deploys_version,
}
use kuberpult.Store.Overview.Deployed.{IsGroupWith, currently_deployed_at_group-environments}
use kuberpult.View.{Runtime}
use kuberpult.View.Results.{Returns, Returns-map_result, Returns-each}
use kuberpult.Chips.{ChipProps, environment_group_chip, group_chips, head, chip_name}
use kuberpult.Chips.View.{
  environment_lock_display, environment_chip, environment_group_chip_view,
  environment_group_chip_list,
}

-- The chip shows an environment, and one with a property.
abbrev pub ShowsSuch : (Environment → Type 0) → ChipProps → Type 0
ShowsSuch Q c = (env : Environment) × (c.env ≡ some env) × Q env

head-some :
    (Q : Environment → Type 0) (envs : List Environment)
    → 0 < length envs
    → All Q envs
    → (env : Environment) × (head envs ≡ some env) × Q env
head-some Q [] h a = absurd (omega (arith, h))
head-some Q (env ∷ envs) h (q, _) = (env, refl, q)

ShowsSuch-of_group :
    (Q : Environment → Type 0) (g : EnvironmentGroupExtended)
    → 0 < length g.environments
    → All Q g.environments
    → ShowsSuch Q (environment_group_chip g)
unfolding environment_group_chip
ShowsSuch-of_group Q g one h = elim (Bool-cases (leb 2 (length g.environments))) [
  | inl b ↦ rw b (head-some Q g.environments one h)
  | inr b ↦ rw b (head-some Q g.environments one h)
]

-- What holds of every environment holds of those that the chips show.
pub group_chips-ShowsSuch :
    (Q : Environment → Type 0) (app : String) (version : ℕ) (groups : List EnvironmentGroup)
    → All Q (environments groups)
    → All (ShowsSuch Q) (group_chips app version groups)
unfolding group_chips
group_chips-ShowsSuch Q app version groups h =
    let gs = currently_deployed_at_group app version groups in
    let p = deploys_version app version in
    let (same, sized) = currently_deployed_at_group-environments app version groups in
    let shown : All Q (flat_map (λ (g : EnvironmentGroupExtended). g.environments) gs) =
      rw same (All-filter Q p (environments groups) h) in
    All-map (ShowsSuch Q) environment_group_chip gs (
      All-imp2 (IsGroupWith p) (λ (g : EnvironmentGroupExtended). All Q g.environments)
        (λ g. ShowsSuch Q (environment_group_chip g))
        (λ g sized_g h_g. ShowsSuch-of_group Q g sized_g.0 h_g) gs sized
        (All-of_flat_map Q (λ (g : EnvironmentGroupExtended). g.environments) gs shown))

chip_name-named :
    (override : Option String) (env : Environment)
    → (env.name == "") ≡ false
    → (chip_name override env == "") ≡ false
unfolding chip_name
chip_name-named none env h = h
chip_name-named (some name) env h = ground (arith, h)

module _ {E : Type 0} (rt : Runtime) (config : FrontendConfig) (plans : (Cart → Cart) → E)
    (groups : List EnvironmentGroup) where
  pub Returns-lock_display :
      (env id : String)
      → IsFound (environments groups) id
      → Returns (environment_lock_display rt config plans groups env id)
  unfolding environment_lock_display
  Returns-lock_display env id (l, e, _, _) = rw (environment_lock_display, e) (_, refl)

  -- A big chip of an environment whose locks are found.
  pub Returns-big_chip :
      (app : String) (env : Environment) (c : ChipProps)
      → c.env ≡ some env
      → All (λ (l : Lock). IsFound (environments groups) l.lock_id) (values env.locks)
      → Returns (environment_chip rt config plans groups app false c)
  unfolding environment_chip
  Returns-big_chip app env c e h = rw e (
      Returns-map_result _ _ (
        Returns-each _ (values env.locks) (
          All-imp (λ (l : Lock). IsFound (environments groups) l.lock_id) _
            (λ l. Returns-lock_display env.name l.lock_id) (values env.locks) h)))

  -- A small chip of an environment that has a name.
  Returns-small_chip :
      (app : String) (env : Environment) (c : ChipProps)
      → c.env ≡ some env
      → (env.name == "") ≡ false
      → Returns (environment_chip rt config plans groups app true c)
  unfolding environment_chip chip_name
  Returns-small_chip app env c e h =
      let named = chip_name-named c.group_name_override env h in
      rw (environment_chip, e, named) (_, refl)

  -- The chips of a release are rendered, if they are big, or if each environment has a name.
  pub Returns-chip_list :
      (app : String) (version : ℕ) (small : Bool)
      → (small ≡ true → All (λ (env : Environment). (env.name == "") ≡ false) (environments groups))
      → Returns (environment_group_chip_list rt config plans groups app version small)
  unfolding environment_group_chip_list environment_group_chip_view
  Returns-chip_list app version true named = Returns-map_result _ _ (
      Returns-each _ (group_chips app version groups) (
        All-imp (ShowsSuch (λ (env : Environment). (env.name == "") ≡ false)) _
          (λ c (env, e, h). Returns-map_result _ _ (Returns-small_chip app env c e h)) _
          (group_chips-ShowsSuch _ app version groups (named refl))))
  Returns-chip_list app version false named = Returns-map_result _ _ (
      Returns-each _ (group_chips app version groups) (
        All-imp
          (ShowsSuch (λ (env : Environment).
            All (λ (l : Lock). IsFound (environments groups) l.lock_id) (values env.locks)))
          _ (λ c (env, e, h). Returns-map_result _ _ (Returns-big_chip app env c e h)) _
          (group_chips-ShowsSuch _ app version groups (every_lock-IsFound (environments groups)))))
