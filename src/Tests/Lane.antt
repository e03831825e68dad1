-- ===== src/Tests/Lane.antt =====
-- A lane of the home page, its releases and its menu.
use mathlib.Core.List.{Perm}
use kuberpult.Prelude.{
  String, ℕ, ◌≡◌, refl, ◌≤◌, List, [], ◌∷◌, IsSorted, true, false, ◌&&◌, not, some, filter, arith,
  any, eqb, ltb, leb, length, map, flat_map, fold, if◌then◌else◌,
}
use kuberpult.Api.{RolloutStatus, EnvironmentGroup, StreamStatusResponse}
use kuberpult.Store.Locks.{environments}
use kuberpult.Store.Overview.{
  deployed_releases, currently_deployed_at_group, deploys_version, EnvironmentGroupExtended,
}
use kuberpult.Store.Overview.Deployed.{deployed_releases-IsSorted}
use kuberpult.Store.Rollout.{
  RolloutStatusApplication, initial, received, Update, update, status_at, last_heard,
  status_at-fold,
}
use kuberpult.Store.Cart.{empty}
use kuberpult.ServiceLane.Display.{get_releases_to_display, get_number_of_releases_between, pos}
use kuberpult.ServiceLane.Display.Counting.{
  IsHistory, available, length-get_releases_to_display, get_number_of_releases_between-count,
}
use kuberpult.ServiceLane.Display.Order.{get_releases_to_display-IsHistory}
use kuberpult.ServiceLane.Menu.{Lane}
use kuberpult.ReleaseCard.{calculate_deployment_status}
use kuberpult.ReleaseCard.Status.{IsMarked, AreReports, calculate_deployment_status-IsMarked}
use kuberpult.Chips.{group_chips}
use kuberpult.Chips.Groups.{AreChipsOf, group_chips-AreChipsOf}
use kuberpult.Tests.Data.{groups, status_in}

abbrev history : List ℕ
history = 9 ∷ 8 ∷ 7 ∷ 6 ∷ 5 ∷ 4 ∷ 3 ∷ 2 ∷ 1 ∷ []

history-IsHistory : IsHistory history
history-IsHistory = ground arith

deployed-IsHistory : IsHistory (7 ∷ 5 ∷ [])
deployed-IsHistory = ground arith

get_releases_to_display-IsHistory_example :
    (shown : List ℕ) × (get_releases_to_display (7 ∷ 5 ∷ []) history ≡ map some shown)
    × IsHistory shown
get_releases_to_display-IsHistory_example =
    get_releases_to_display-IsHistory (7 ∷ 5 ∷ []) 9 (8 ∷ 7 ∷ 6 ∷ 5 ∷ 4 ∷ 3 ∷ 2 ∷ 1 ∷ [])
      history-IsHistory deployed-IsHistory (refl, (refl, tt))

length-get_releases_to_display_example :
    length (get_releases_to_display (7 ∷ 5 ∷ []) history)
    ≡ (if leb (available (7 ∷ 5 ∷ []) 9 5 history) 6 then available (7 ∷ 5 ∷ []) 9 5 history else 6)
length-get_releases_to_display_example =
    length-get_releases_to_display (7 ∷ 5 ∷ []) (8 ∷ 7 ∷ 6 ∷ 5 ∷ 4 ∷ 3 ∷ 2 ∷ 1 ∷ []) 9 5
      history-IsHistory refl refl (omega arith)

get_number_of_releases_between-count_example :
    get_number_of_releases_between history 7 3
    ≡ pos (length (filter (λ v. ltb 3 v && ltb v 7) history))
get_number_of_releases_between-count_example =
    get_number_of_releases_between-count history 7 3 history-IsHistory refl refl (omega arith)

abbrev updates : List Update
updates =
    received (status_in "north" RolloutStatus.error)
    ∷ received (status_in "south" RolloutStatus.progressing)
    ∷ received (status_in "north" RolloutStatus.succesful)
    ∷ []

status_at-fold_example :
    status_at "shop" "north" (fold update updates initial)
    ≡ last_heard "shop" "north" (status_at "shop" "north" initial) updates
status_at-fold_example = status_at-fold "shop" "north" updates initial

deployed_releases-IsSorted_example :
    IsSorted (λ a b. b ≤ a) (deployed_releases "shop" groups)
    × ((v : ℕ)
        → any (eqb v) (deployed_releases "shop" groups)
          ≡ (not (eqb v 0) && any (deploys_version "shop" v) (environments groups)))
deployed_releases-IsSorted_example = deployed_releases-IsSorted "shop" groups

group_chips-AreChipsOf_example :
    AreChipsOf
      (deploys_version "shop" 3)
      (filter (λ (g : EnvironmentGroup). any (deploys_version "shop" 3) g.environments) groups)
      (group_chips "shop" 3 groups)
group_chips-AreChipsOf_example = group_chips-AreChipsOf "shop" 3 groups

abbrev rollout : RolloutStatusApplication
rollout = ("north", status_in "north" RolloutStatus.succesful) ∷ []

abbrev deployed_at : List EnvironmentGroupExtended
deployed_at = currently_deployed_at_group "shop" 3 groups

calculate_deployment_status-IsMarked_example :
    (reports : List StreamStatusResponse) × AreReports "shop" rollout
      (flat_map (λ (g : EnvironmentGroupExtended). g.environments) deployed_at)
      reports
    × Perm ((calculate_deployment_status "shop" deployed_at true rollout).0) reports
    × IsMarked
        ((calculate_deployment_status "shop" deployed_at true rollout).0)
        ((calculate_deployment_status "shop" deployed_at true rollout).1)
calculate_deployment_status-IsMarked_example =
    calculate_deployment_status-IsMarked "shop" deployed_at rollout

abbrev closed : Lane
closed = record {
  menu_open = false;
  show_env_selection_dialog = false;
  selected_envs = [];
  cart = empty;
}

abbrev both : List String
both = "north" ∷ "south" ∷ []

abbrev one : List String
one = "south" ∷ []
