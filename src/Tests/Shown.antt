-- ===== src/Tests/Shown.antt =====
-- Pages that are rendered.
use kuberpult.Prelude.{
  ℕ, ◌≡◌, refl, String, true, false, none, some, [], ◌∷◌, ◌++◌, ◌==◌, if◌then◌else◌, map, flat_map,
  arith, eqb, length, concat,
}
use kuberpult.Api.{FrontendConfig, Application}
use kuberpult.Store.Cart.{Cart, empty, add_action}
use kuberpult.Store.Locks.{environments}
use kuberpult.Store.Overview.{throws, deployed_releases}
use kuberpult.Store.Rollout.{initial}
use kuberpult.View.{Runtime, offered}
use kuberpult.View.Offers.{Offers}
use kuberpult.View.Results.{Returns}
use kuberpult.App.{GlobalLoadingState, everything_loaded}
use kuberpult.App.View.{Events, Readers, Frontend, app}
use kuberpult.App.View.Shown.{Returns-app}
use kuberpult.EnvironmentCard.Removals.{removal}
use kuberpult.EnvironmentCard.View.{environments_page}
use kuberpult.EnvironmentCard.Shown.{own_events, own_group_events, environments_page-Offers}
use kuberpult.LocksPage.{Table, opened}
use kuberpult.LocksPage.View.{locks_page}
use kuberpult.LocksPage.Shown.{locks_page-offered}
use kuberpult.Navigation.{home_route}
use kuberpult.ServiceLane.Menu.{Lane, Click}
use kuberpult.ServiceLane.View.{service_lane}
use kuberpult.ServiceLane.Empty.{service_lane-throws}
use kuberpult.SideBar.Apply.{SideBar, can_apply, new_lock_exists}
use kuberpult.SideBar.View.{side_bar}
use kuberpult.SideBar.Shown.{item_events, dialog_events, side_bar-offered}
use kuberpult.Tests.Data.{
  groups, shop, overview, deploying, unlocking, row_of, digit, read_digit, text_of, compare_texts,
}

abbrev pub runtime : Runtime
runtime = record {
  number_text = digit;
  date_text = λ n. "a date";
  date_of_seconds = λ s. 0;
  now = 100;
  first_line = λ s. s;
  commit_prefix = λ s. s;
  first_upper = λ s. s;
  ends_with_slash = λ s. false;
  encode = λ s. s;
  replace = λ placeholder value s. s;
  trim = λ s. s;
  includes = λ s t. s == t;
  locale_compare = compare_texts;
}

abbrev pub config : FrontendConfig
config = record {
  argo_base_url = none;
  azure_auth = none;
  source_repo_url = "";
  kuberpult_version = "1";
  branch = "";
  manifest_repo_url = "";
}

-- What was clicked, as a text, or a change of the cart.
data Clicked : Type 0 where
  plans : (Cart → Cart) → Clicked
  opens : (app : String) (version : ℕ) → Clicked
  clicks : (app : String) → Click → Clicked
  named : String → Clicked

abbrev events : Events Clicked
events = record {
  plans = plans;
  opens = opens;
  closes = named "close";
  clicks = clicks;
  sorts_environment_locks = named "sort environment locks";
  sorts_application_locks = named "sort application locks";
  changes_teams = named;
  searches = named "search";
  toggles = named "toggle";
  types = named "type";
  applies = named "apply";
  confirms = named "confirm";
  cancels = named "cancel";
}

abbrev pub readers : Readers
readers = record {
  split = λ s. if s == "" then [] else s ∷ [];
  read_number = read_digit;
  stringify = text_of;
  get_month = λ t. 4;
  get_date = λ t. t;
  get_full_year = λ t. 2023;
  date_string = digit;
}

abbrev lane : Lane
lane = record {
  menu_open = true;
  show_env_selection_dialog = false;
  selected_envs = [];
  cart = empty;
}

abbrev bar : SideBar
bar = record {
  cart = record empty { actions = deploying "north" 2 ∷ unlocking "south" "a" ∷ [] };
  lock_message = "";
  show_spinner = false;
  show_confirmation_dialog = true;
  sent = [];
}

abbrev table : Table
table = opened (row_of "north" "a" none none ∷ [])

abbrev frontend : Frontend
frontend = record {
  config = record { configs = config; config_ready = true };
  auth = record { auth_header = []; auth_ready = true };
  is_authenticated = false;
  overview = overview;
  overview_loaded = true;
  rollout = initial;
  side_bar = bar;
  lanes = λ name. lane;
  environment_table = table;
  application_table = table;
  params = ("dialog-app", "shop") ∷ ("dialog-version", "3") ∷ [];
  search = none;
  route = some home_route;
  last_part = "home";
  href = "https://localhost/ui/home";
}

abbrev loaded : GlobalLoadingState
loaded = record {
  config_ready = true;
  is_authenticated = false;
  azure_auth_enabled = false;
  overview_loaded = true;
}

Returns-app_example : Returns (app runtime readers events frontend)
unfolding environments deployed_releases
Returns-app_example =
    Returns-app runtime readers events frontend
      ((refl, (refl, tt)), ((refl, omega arith, (refl, (refl, tt))), tt))

environments_page-Offers_example : Offers (environments_page runtime config plans groups loaded) (
    if eqb (length groups) (length (environments groups))
    then flat_map (own_events runtime config plans groups) (environments groups)
    else flat_map (own_group_events runtime config plans groups) groups)
unfolding everything_loaded environments
environments_page-Offers_example =
    environments_page-Offers runtime config plans groups loaded refl
      (refl, (refl, tt), (refl, tt, tt))

side_bar-offered_example :
    offered (
      side_bar runtime config text_of plans
        (named "toggle")
        (named "type")
        (named "apply")
        (named "confirm")
        (named "cancel")
        overview
        bar)
    ≡ named "toggle"
        ∷ flat_map
            (item_events runtime config text_of plans
              (named "toggle")
              (named "type")
              (named "apply")
              (named "confirm")
              (named "cancel")
              overview
              bar.cart.actions)
            bar.cart.actions
      ++ (if new_lock_exists bar then named "type" ∷ [] else [])
      ++ (if can_apply bar then named "apply" ∷ [] else [])
      ++ dialog_events runtime config text_of plans
          (named "toggle")
          (named "type")
          (named "apply")
          (named "confirm")
          (named "cancel")
          overview
          true
side_bar-offered_example =
    side_bar-offered runtime config text_of plans (named "toggle") (named "type") (named "apply")
      (named "confirm") (named "cancel") overview bar

locks_page-offered_example :
    offered (
      locks_page runtime plans
        (named "sort environment locks")
        (named "sort application locks")
        table
        table
        loaded)
    ≡ named "sort environment locks" ∷ map (λ l. plans (add_action (removal l))) table.locks
      ++ named "sort application locks" ∷ map (λ l. plans (add_action (removal l))) table.locks
unfolding everything_loaded
locks_page-offered_example =
    locks_page-offered runtime plans (named "sort environment locks")
      (named "sort application locks") table table loaded refl

abbrev empty_shop : Application
empty_shop = record shop { releases = [] }

service_lane-throws_example :
    service_lane runtime config plans opens clicks
      (λ app. (false, []))
      (record overview { applications = ("shop", empty_shop) ∷ [] })
      lane
      empty_shop
    ≡ throws (concat ("Release cannot be found for app " ∷ "shop" ∷ " version undefined" ∷ []))
service_lane-throws_example =
    service_lane-throws runtime config plans opens clicks (λ app. (false, []))
      (record overview { applications = ("shop", empty_shop) ∷ [] }) lane empty_shop refl refl
