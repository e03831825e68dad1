-- ===== src/EnvironmentCard/Shown.antt =====
-- What the page of the environments shows and what can be clicked on it.
use mathlib.Core.Bool.{false≢true}
use kuberpult.Prelude.{
  ◌≡◌, refl, ap, String, true, false, List, [], ◌∷◌, ◌++◌, flat_map, All-imp, All-every, arith,
  Bool-cases, inl, inr, if◌then◌else◌, eqb, length, append-nil, sym, ◌∙◌, Bool, All,
  All-of_flat_map, filter, map, eq_refl, eq_iff, ◌||◌, ◌==◌,
}
use kuberpult.Api.{Lock, FrontendConfig, Environment, EnvironmentGroup}
use kuberpult.Store.Cart.{Cart, add_action, append_action}
use kuberpult.Store.Locks.{values, environments, filtered_environment_lock_ids}
use kuberpult.Store.Locks.Lookup.{IsFound, filtered_environment_lock_ids-IsFound}
use kuberpult.View.{Html, children, offered, offered_by, Runtime}
use kuberpult.View.Offers.{Offers, Offers-each, Offers-map_result}
use kuberpult.View.Results.{Returns}
use kuberpult.Chips.View.{environment_lock_display, lock_button, tooltip, display_lock_renderer}
use kuberpult.EnvironmentCard.{add_lock, add_group_lock, delete_environment_lock_by_id}
use kuberpult.EnvironmentCard.Removals.{
  environment_removal, new_lock, delete_environment_lock_by_id-removal, add_lock-new_lock,
  add_group_lock-new_lock,
}
use kuberpult.EnvironmentCard.View.{
  card_view, environment_card, environment_group_card, environments_page,
}
use kuberpult.App.{GlobalLoadingState, everything_loaded}

-- Whether a card with this name lists the locks of the environment.
abbrev bears : String → Environment → Bool
bears name env = name == "" || env.name == name

-- Every environment has a name, and no two have the same.
abbrev pub AreNamed : List Environment → Type 0
AreNamed [] = Unit
AreNamed (env ∷ envs) =
    ((env.name == "") ≡ false)
    × All (λ (other : Environment). (other.name == env.name) ≡ false) envs
    × AreNamed envs

bears_none :
    (name : String) (envs : List Environment)
    → (name == "") ≡ false
    → All (λ (other : Environment). (other.name == name) ≡ false) envs
    → filter (bears name) envs ≡ []
bears_none name [] named h = refl
bears_none name (env ∷ envs) named (other, h) =
    ground (arith, named, other, bears_none name envs named h)

distinct_sym : (a b : String) → (a == b) ≡ false → (b == a) ≡ false
distinct_sym a b f = elim (Bool-cases (b == a)) [
  | inr apart ↦ apart
  | inl same ↦ absurd (false≢true (sym f ∙ (eq_iff a b).1 (sym ((eq_iff b a).0 same))))
]

bears_other :
    (env : Environment) (envs xs : List Environment)
    → All (λ (other : Environment). (other.name == env.name) ≡ false) xs
    → All (λ (other : Environment). filter (bears other.name) envs ≡ other ∷ []) xs
    → All (λ (other : Environment). (other.name == "") ≡ false) xs
    → All (λ (other : Environment). filter (bears other.name) (env ∷ envs) ≡ other ∷ []) xs
bears_other env envs [] apart h n = tt
bears_other env envs (x ∷ xs) (a, apart) (p, h) (m, n) =
    (ground (arith, m, distinct_sym x.name env.name a, p), bears_other env envs xs apart h n)

named : (envs : List Environment) → AreNamed envs → All (λ env. (env.name == "") ≡ false) envs
named [] a = tt
named (env ∷ envs) (n, apart, a) = (n, named envs a)

-- Only the environment of a card has its name.
bears_own :
    (envs : List Environment)
    → AreNamed envs
    → All (λ (env : Environment). filter (bears env.name) envs ≡ env ∷ []) envs
bears_own [] a = tt
bears_own (env ∷ envs) (n, apart, a) = (
  ground (arith, n, eq_refl env.name, bears_none env.name envs n apart),
  bears_other env envs envs apart (bears_own envs a) (named envs a),
)

flat_map-cong :
    {A E : Type 0} (f g : A → List E) (xs : List A)
    → All (λ x. f x ≡ g x) xs
    → flat_map f xs ≡ flat_map g xs
flat_map-cong f g [] h = refl
flat_map-cong f g (x ∷ xs) (e, h) = rw e (ap (λ ys. g x ++ ys) (flat_map-cong f g xs h))

module _ {E : Type 0} (rt : Runtime) (config : FrontendConfig) (plans : (Cart → Cart) → E)
    (groups : List EnvironmentGroup) where
  -- The deletion of each lock of the environment, and a new one.
  abbrev card_events : Environment → List E
  card_events env =
      flat_map (λ id. plans (delete_environment_lock_by_id env.name id) ∷ [])
        (filtered_environment_lock_ids env.name (environments groups))
      ++ plans (add_lock env) ∷ []

  -- A new lock of each environment of the group, and what the cards offer.
  abbrev group_events : EnvironmentGroup → List E
  group_events group = plans (add_group_lock group) ∷ flat_map card_events group.environments

  Offers-lock_display :
      (env id : String)
      → IsFound (environments groups) id
      → Offers
          (environment_lock_display rt config plans groups env id)
          (plans (delete_environment_lock_by_id env id) ∷ [])
  unfolding environment_lock_display lock_button offered tooltip display_lock_renderer
  Offers-lock_display env id (l, e, _, _) = rw (environment_lock_display, e) (_, refl, refl)

  card_view-offered :
      (env : Environment) (locks : List (Html E)) (es : List E)
      → offered_by (children locks) ≡ es
      → offered (card_view rt config plans groups env locks) ≡ es ++ plans (add_lock env) ∷ []
  unfolding offered
  card_view-offered env [] es o = ap (λ xs. xs ++ plans (add_lock env) ∷ []) o
  card_view-offered env (lock ∷ locks) es o =
      let some_locks : eqb (length (lock ∷ locks)) 0 ≡ false = ground arith in
      rw some_locks (simp append-nil (ap (λ xs. xs ++ plans (add_lock env) ∷ []) o))

  Offers-environment_card :
      (env : Environment) → Offers (environment_card rt config plans groups env) (card_events env)
  unfolding environment_card
  Offers-environment_card env =
      Offers-map_result _ _ _ _
        (Offers-each _ _ _ (
          All-imp (IsFound (environments groups)) _ (Offers-lock_display env.name) _
            (filtered_environment_lock_ids-IsFound env.name (environments groups))))
        (λ locks. card_view-offered env locks _)

  Offers-group_card :
      (group : EnvironmentGroup)
      → Offers (environment_group_card rt config plans groups group) (group_events group)
  unfolding environment_group_card offered
  Offers-group_card group =
      Offers-map_result _ _ _ _
        (Offers-each _ card_events group.environments
          (All-every _ Offers-environment_card group.environments))
        λ cards o. ap (λ xs. plans (add_group_lock group) ∷ xs) (simp append-nil o)

  environments_page-Offers_ids :
      (l : GlobalLoadingState)
      → everything_loaded l ≡ true
      → Offers (environments_page rt config plans groups l) (
          if eqb (length groups) (length (environments groups))
          then flat_map card_events (environments groups)
          else flat_map group_events groups)
  unfolding environments_page offered
  environments_page-Offers_ids l loaded =
      elim (Bool-cases (eqb (length groups) (length (environments groups)))) [
        | inl same ↦
            rw (environments_page, loaded, same)
              (Offers-map_result _ _ _ _
                (Offers-each _ card_events (environments groups)
                  (All-every _ Offers-environment_card (environments groups)))
                λ cards o. rw append-nil o)
        | inr grouped ↦
            rw (environments_page, loaded, grouped)
              (Offers-map_result _ _ _ _
                (Offers-each _ group_events groups (All-every _ Offers-group_card groups))
                λ cards o. o)
      ]

  -- The page is always rendered without an error.
  pub Returns-environments_page :
      (l : GlobalLoadingState) → Returns (environments_page rt config plans groups l)
  unfolding environments_page
  Returns-environments_page l = elim (Bool-cases (everything_loaded l)) [
    | inl loaded ↦ let (page, e, _) = environments_page-Offers_ids l loaded in (page, e)
    | inr waits ↦ rw (environments_page, waits) (_, refl)
  ]

  -- What a card offers if it has the name of no other: the removal of each lock of its environment, and
  -- a new lock.
  abbrev pub own_events : Environment → List E
  own_events env =
      map (λ (l : Lock). plans (add_action (environment_removal env.name l.lock_id)))
        (values env.locks)
      ++ plans (add_action (new_lock env)) ∷ []

  abbrev pub own_group_events : EnvironmentGroup → List E
  own_group_events group =
      plans (append_action (map new_lock group.environments))
      ∷ flat_map own_events group.environments

  id_events :
      (name : String) (locks : List Lock)
      → flat_map
          (λ id. plans (delete_environment_lock_by_id name id) ∷ [])
          (map (λ l. l.lock_id) locks)
        ≡ map (λ (l : Lock). plans (add_action (environment_removal name l.lock_id))) locks
  id_events name [] = refl
  id_events name (l ∷ locks) = rw (delete_environment_lock_by_id-removal name l.lock_id) (
      ap (λ es. plans (add_action (environment_removal name l.lock_id)) ∷ es)
        (id_events name locks))

  card_events-own :
      (env : Environment)
      → filter (bears env.name) (environments groups) ≡ env ∷ []
      → card_events env ≡ own_events env
  unfolding filtered_environment_lock_ids
  card_events-own env alone =
      let ids : filtered_environment_lock_ids env.name (environments groups)
          ≡ map (λ (l : Lock). l.lock_id) (values env.locks) =
        ap
          (λ found.
            map (λ (l : Lock). l.lock_id) (flat_map (λ (e : Environment). values e.locks) found))
          alone
        ∙ rw append-nil refl in
      rw (ids, id_events env.name (values env.locks), add_lock-new_lock env) refl

  cards-own :
      AreNamed (environments groups)
      → All (λ env. card_events env ≡ own_events env) (environments groups)
  cards-own named =
      All-imp _ _ card_events-own (environments groups) (bears_own (environments groups) named)

  groups-own :
      AreNamed (environments groups)
      → All (λ (g : EnvironmentGroup). group_events g ≡ own_group_events g) groups
  unfolding environments
  groups-own named =
      All-imp
        (λ (g : EnvironmentGroup). All (λ env. card_events env ≡ own_events env) g.environments) _
        (λ (g : EnvironmentGroup) cards.
          rw (add_group_lock-new_lock g, flat_map-cong card_events own_events g.environments cards)
            refl)
        groups
        (All-of_flat_map _ (λ (g : EnvironmentGroup). g.environments) groups (cards-own named))

  -- If every environment has a name, and no two have the same, then, once everything is loaded, the
  -- page of the environments is rendered without an error. If the groups are as many as the
  -- environments, it offers for each environment, in the order of the overview, the removal of each of
  -- its own locks and a new lock; and else for each group a new lock in all of its environments, and
  -- then the same for each of these. To remove a lock plans the deletion of the lock with its id in the
  -- environment, and a new lock the creation of one in the environment.
  pub environments_page-Offers :
      (l : GlobalLoadingState)
      → everything_loaded l ≡ true
      → AreNamed (environments groups)
      → Offers (environments_page rt config plans groups l) (
          if eqb (length groups) (length (environments groups))
          then flat_map own_events (environments groups)
          else flat_map own_group_events groups)
  environments_page-Offers l loaded named =
      rw
        (
          sym (flat_map-cong card_events own_events (environments groups) (cards-own named)),
          sym (flat_map-cong group_events own_group_events groups (groups-own named)),
        )
        (environments_page-Offers_ids l loaded)
