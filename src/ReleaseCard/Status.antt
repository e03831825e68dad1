-- ===== src/ReleaseCard/Status.antt =====
-- Which status a card reports.
use mathlib.Core.List.{Perm, Memᴰ}
use kuberpult.Prelude.{
  ◌≡◌, refl, ◌≤◌, String, true, false, Option, none, some, List, [], ◌∷◌, All, arith, sort_by,
  sort_by-IsSorted, sort_by-perm, IsSorted, All-every, inl, inr, Option-cases, subst,
  All-of_sort_by, sort_by-All, All-of_mem, ℕ, ◌&&◌, not, eqb, if◌then◌else◌, Bool-cases, Bool, ◌++◌,
  map, flat_map,
}
use kuberpult.Api.{Environment, RolloutStatus, StreamStatusResponse}
use kuberpult.Store.Overview.{lookup, deployed_version, deploys_version, EnvironmentGroupExtended}
use kuberpult.Store.Rollout.{RolloutStatusApplication}
use kuberpult.ReleaseCard.{
  status_of, is_successful, same_version, priority_of, by_priority, by_environment, first, statuses,
  calculate_deployment_status,
}

-- One status is at least as interesting as another.
abbrev pub AtLeast : StreamStatusResponse → StreamStatusResponse → Type 0
AtLeast a b = priority_of a.rollout_status ≤ priority_of b.rollout_status

-- The status that the card marks, among those that it lists.
abbrev pub IsMarked : List StreamStatusResponse → Option StreamStatusResponse → Type 0
IsMarked rollout_envs none = rollout_envs ≡ []
IsMarked rollout_envs (some best) = Memᴰ best rollout_envs × All (AtLeast best) rollout_envs

abbrev Leads : List StreamStatusResponse → StreamStatusResponse → Type 0
Leads xs best = Memᴰ best xs × All (AtLeast best) xs

no_first : (ys : List StreamStatusResponse) → first ys ≡ none → ys ≡ []
no_first [] e = refl
no_first (y ∷ ys) e = cc

first_leads :
    (xs ys : List StreamStatusResponse) (best : StreamStatusResponse)
    → All (λ a. Memᴰ a xs) ys
    → IsSorted AtLeast ys
    → first ys ≡ some best
    → Memᴰ best xs × All (AtLeast best) ys
first_leads xs [] best m s e = cc
first_leads xs (y ∷ ys) best (m, ms) (h, s) e =
    let same : y ≡ best = cc in
    subst (λ b. Memᴰ b xs × All (AtLeast b) (y ∷ ys)) same (m, (omega arith, h))

IsSorted-envs : (xs : List StreamStatusResponse) → IsSorted AtLeast (sort_by by_priority xs)
IsSorted-envs xs =
    sort_by-IsSorted by_priority (λ a. a ≡ a) AtLeast (λ x y p q e. ground arith)
      (λ x y p q e. ground arith) (λ x y z h k. omega arith) xs
      (All-every (λ a. a ≡ a) (λ a. refl) xs)

empty_sort : (xs : List StreamStatusResponse) → sort_by by_priority xs ≡ [] → xs ≡ []
empty_sort [] e = refl
empty_sort (x ∷ xs) e =
    let absurd : All (λ a. true ≡ false) (sort_by by_priority (x ∷ xs)) = rw e tt in
    let (contradiction, others) = All-of_sort_by by_priority (λ a. true ≡ false) (x ∷ xs) absurd in
    cc

IsMarked-first : (xs : List StreamStatusResponse) → IsMarked xs (first (sort_by by_priority xs))
IsMarked-first xs =
    let ys = sort_by by_priority xs in
    elim (Option-cases (first ys)) [
      | inl e ↦ rw e (empty_sort xs (no_first ys e))
      | inr (best, e) ↦
          let members =
            sort_by-All by_priority (λ a. Memᴰ a xs) xs
              (All-of_mem (λ a. Memᴰ a xs) xs (λ a m. m)) in
          let (m, least) = first_leads xs ys best members (IsSorted-envs xs) e in
          rw e (m, All-of_sort_by by_priority (AtLeast best) xs least)
    ]

-- The status to be shown for one that is known: a success is one only of the version that is deployed.
abbrev pub shown_status : RolloutStatus → (is_deployed : Bool) → RolloutStatus
shown_status RolloutStatus.succesful false = RolloutStatus.progressing
shown_status status is_deployed = status

-- What a card says of an environment, for what is known of it.
abbrev pub IsReport :
    String → Environment → Option StreamStatusResponse → StreamStatusResponse → Type 0
IsReport app env none report = report ≡ record {
  environment = env.name;
  application = app;
  version = 0;
  rollout_status = RolloutStatus.unknown;
}
IsReport app env (some known) report = report ≡ record known {
  rollout_status = shown_status known.rollout_status (deploys_version app known.version env);
}

-- One report for each environment, in their order.
abbrev pub AreReports :
    String → RolloutStatusApplication → List Environment → List StreamStatusResponse → Type 0
AreReports app known [] [] = Unit
AreReports app known (env ∷ envs) (report ∷ reports) =
    IsReport app env (lookup env.name known) report × AreReports app known envs reports
AreReports app known _ _ = true ≡ false

reported :
    (status : StreamStatusResponse) (r : RolloutStatus) (deployed : Option ℕ)
    → (if is_successful r && not (same_version status.version deployed)
        then record status { rollout_status = RolloutStatus.progressing }
        else record status { rollout_status = r })
      ≡ record status {
        rollout_status =
            shown_status r (elim deployed [ none ↦ false | some v ↦ eqb v status.version ]);
      }
reported status RolloutStatus.succesful none = refl
reported status RolloutStatus.succesful (some v) = elim (Bool-cases (eqb status.version v)) [
  | inl same ↦ let back : eqb v status.version ≡ true = ground (arith, same) in rw (same, back) refl
  | inr other ↦
      let back : eqb v status.version ≡ false = ground (arith, other) in rw (other, back) refl
]
reported status RolloutStatus.error deployed = refl
reported status RolloutStatus.progressing deployed = refl
reported status RolloutStatus.unknown deployed = refl
reported status RolloutStatus.unrecognized deployed = refl

module _ (app : String) (known : RolloutStatusApplication) where
  IsReport-status_of :
      (env : Environment) → IsReport app env (lookup env.name known) (status_of app known env)
  unfolding status_of
  IsReport-status_of env = elim (Option-cases (lookup env.name known)) [
    | inl unheard ↦ rw (unheard, status_of) refl
    | inr (status, heard) ↦
        rw (heard, status_of) (reported status status.rollout_status (deployed_version app env))
  ]

  AreReports-append :
      (envs others : List Environment) (reports : List StreamStatusResponse)
      → AreReports app known others reports
      → AreReports app known (envs ++ others) (map (status_of app known) envs ++ reports)
  AreReports-append [] others reports a = a
  AreReports-append (env ∷ envs) others reports a =
      (IsReport-status_of env, AreReports-append envs others reports a)

  AreReports-statuses :
      (deployed_at : List EnvironmentGroupExtended)
      → AreReports app known
          (flat_map (λ (g : EnvironmentGroupExtended). g.environments) deployed_at)
          (statuses app deployed_at known)
  AreReports-statuses [] = tt
  AreReports-statuses (g ∷ deployed_at) =
      AreReports-append g.environments _ _ (AreReports-statuses deployed_at)

-- With rollout information, a card lists in some order one report for each environment of the groups:
-- the status that is known of the environment, but that a success of another version than the one
-- that the environment has counts as progressing, and an unknown status if none is known. It marks one
-- of these that is at least as interesting as all of them by the order of `rolloutStatusPriority`, in
-- which a status that this does not have comes first; it marks none exactly if it lists none.
pub calculate_deployment_status-IsMarked :
    (app : String) (deployed_at : List EnvironmentGroupExtended)
    (rollout_status : RolloutStatusApplication)
    → (reports : List StreamStatusResponse) × AreReports app rollout_status
        (flat_map (λ (g : EnvironmentGroupExtended). g.environments) deployed_at)
        reports
      × Perm ((calculate_deployment_status app deployed_at true rollout_status).0) reports
      × IsMarked
          ((calculate_deployment_status app deployed_at true rollout_status).0)
          ((calculate_deployment_status app deployed_at true rollout_status).1)
unfolding calculate_deployment_status
calculate_deployment_status-IsMarked app deployed_at rollout_status = (
  statuses app deployed_at rollout_status,
  AreReports-statuses app rollout_status deployed_at,
  sort_by-perm by_environment (statuses app deployed_at rollout_status),
  IsMarked-first (sort_by by_environment (statuses app deployed_at rollout_status)),
)
