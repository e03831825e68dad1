-- ===== src/App/Session.antt =====
-- The page as a whole, from its start: one cart and one overview that all components share, the
-- states of the components, and what clicks and the outside world do to them. A click is one that
-- the page offers as it is rendered at that moment; ui/App/index.tsx and ui/utils/store.tsx tie the
-- handlers together.
pub mod Clicks
pub mod Closed
pub mod Planned
pub mod World
pub mod Soundness
use mathlib.Core.Option
use mathlib.Core.List.{Memᴰ}
use kuberpult.Prelude.{
  ℕ, ◌+◌, ◌≡◌, String, Bool, true, false, ◌&&◌, not, Option, none, some, List, [], ◌∷◌, ◌==◌,
  if◌then◌else◌, find, get_or, is_some, length, ltb,
}
use kuberpult.Api.{BatchAction, Overview, Application, EnvironmentGroup}
use kuberpult.Store.Cart.{Cart}
use kuberpult.Store.Dialog.{Params, open_release_dialog, close_release_dialog}
use kuberpult.Store.Locks.{values}
use kuberpult.Store.Locks.Sort.{environment_row_values, application_row_values}
use kuberpult.Store.Overview.{lookup, releases_for_app}
use kuberpult.View.{Runtime}
use kuberpult.App.{Page, message}
use kuberpult.App.Startup.{Startup, started}
use kuberpult.App.Startup
use kuberpult.App.View.{Events, Readers, Frontend}
use kuberpult.LocksPage.{Table, env_locks, app_locks, opened, sort_on_click}
use kuberpult.Navigation.{Route, locks_route, show_effect}
use kuberpult.Search.{handle_change, selected_teams, set_query_param}
use kuberpult.ServiceLane.Menu.{Lane, Click}
use kuberpult.ServiceLane.Menu
use kuberpult.ServiceLane.View.{lane_environments}
use kuberpult.SideBar.Apply.{
  SideBar, update_message, click_apply, confirm, cancel_confirmation, batch_succeeded, batch_failed,
}

-- The states of a lane's components.
pub record LaneState : Type 0 where
  pub menu_open : Bool
  pub show_env_selection_dialog : Bool
  pub selected_envs : List String

abbrev pub closed_lane : LaneState
closed_lane = record { menu_open = false; show_env_selection_dialog = false; selected_envs = [] }

-- What is clicked, with the change of the cart where that is all that a click does.
pub data Clicked : Type 0 where
  plans : (Cart → Cart) → Clicked
  opens : (app : String) (version : ℕ) → Clicked
  closes : Clicked
  clicks_lane : (app : String) → Click → Clicked
  sorts_environment_locks sorts_application_locks : Clicked
  changes_teams : String → Clicked
  searches toggles types applies confirms cancels : Clicked

abbrev pub clicked : Events Clicked
clicked = record {
  plans = plans;
  opens = opens;
  closes = closes;
  clicks = clicks_lane;
  sorts_environment_locks = sorts_environment_locks;
  sorts_application_locks = sorts_application_locks;
  changes_teams = changes_teams;
  searches = searches;
  toggles = toggles;
  types = types;
  applies = applies;
  confirms = confirms;
  cancels = cancels;
}

-- The stores, of which `startup` has the cart and the overview, and the states of the components.
-- `sent` lists the requests, and `answered` is how many of them have an answer.
pub record Session : Type 0 where
  pub startup : Startup
  pub lock_message : String
  pub show_spinner : Bool
  pub show_confirmation_dialog : Bool
  pub sent : List (List BatchAction)
  pub answered : ℕ
  pub lanes : String → LaneState
  pub environment_table : Table
  pub application_table : Table
  pub params : Params
  pub route : Option Route
  pub last_part : String
  pub href : String

abbrev pub cart_of : Session → Cart
cart_of s = s.startup.page.cart

abbrev pub set_cart : Cart → Session → Session
set_cart cart s = record s {
  startup = record s.startup { page = record s.startup.page { cart = cart } };
}

-- `emptyOverview`, until there is an overview
abbrev pub overview_of : Session → Overview
overview_of s =
    get_or s.startup.page.overview
      (record { applications = []; environment_groups = []; git_revision = "" })

-- `SideBar` and a lane, with the cart that they share.
abbrev pub side_bar_of : Session → SideBar
side_bar_of s = record {
  cart = cart_of s;
  lock_message = s.lock_message;
  show_spinner = s.show_spinner;
  show_confirmation_dialog = s.show_confirmation_dialog;
  sent = s.sent;
}

abbrev pub set_side_bar : SideBar → Session → Session
set_side_bar b s = record (set_cart b.cart s) {
  lock_message = b.lock_message;
  show_spinner = b.show_spinner;
  show_confirmation_dialog = b.show_confirmation_dialog;
  sent = b.sent;
}

abbrev pub lane_of : Session → String → Lane
lane_of s app =
    let l = s.lanes app in
    record {
      menu_open = l.menu_open;
      show_env_selection_dialog = l.show_env_selection_dialog;
      selected_envs = l.selected_envs;
      cart = cart_of s;
    }

abbrev pub set_lane : (app : String) → Lane → Session → Session
set_lane app lane s = record (set_cart lane.cart s) {
  lanes = λ other.
      if other == app
      then record {
        menu_open = lane.menu_open;
        show_env_selection_dialog = lane.show_env_selection_dialog;
        selected_envs = lane.selected_envs;
      }
      else s.lanes other;
}

-- A page that starts, with the title of its window and its address; every lane is closed.
unfoldable pub session_started : (title : String) (params : Params) (href : String) → Session
unfolding started
session_started title params href = record {
  startup = started title;
  lock_message = "";
  show_spinner = false;
  show_confirmation_dialog = false;
  sent = [];
  answered = 0;
  lanes = λ app. closed_lane;
  environment_table = opened [];
  application_table = opened [];
  params = params;
  route = none;
  last_part = "";
  href = href;
}
