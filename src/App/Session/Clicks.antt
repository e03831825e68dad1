-- ===== src/App/Session/Clicks.antt =====
-- The handlers of the clicks on the whole page, over the stores that the components share.
use kuberpult.Prelude.{
  String, Bool, true, false, not, Option, none, some, List, ◌==◌, if◌then◌else◌, find,
}
use kuberpult.Api.{Application}
use kuberpult.Store.Dialog.{Params, open_release_dialog, close_release_dialog}
use kuberpult.Store.Locks.{values}
use kuberpult.Store.Locks.Sort.{environment_row_values, application_row_values}
use kuberpult.Store.Overview.{lookup}
use kuberpult.View.{Runtime}
use kuberpult.App.Session.{
  Session, Clicked, plans, opens, closes, clicks_lane, sorts_environment_locks,
  sorts_application_locks, changes_teams, searches, toggles, types, applies, confirms, cancels,
  cart_of, set_cart, overview_of, side_bar_of, set_side_bar, lane_of, set_lane,
}
use kuberpult.App.View.{Readers, Frontend}
use kuberpult.LocksPage.{env_locks, app_locks, sort_on_click}
use kuberpult.Search.{handle_change, selected_teams, set_query_param}
use kuberpult.ServiceLane.Menu.{Click}
use kuberpult.ServiceLane.Menu
use kuberpult.ServiceLane.View.{lane_environments}
use kuberpult.SideBar.Apply.{update_message, click_apply, confirm, cancel_confirmation}

abbrev pub same_option : Option String → Option String → Bool
same_option none none = true
same_option (some s) (some t) = s == t
same_option _ _ = false

module _ (rt : Runtime) (readers : Readers) where
  -- The memoised rows of the page of the locks, which are sorted anew where their dependencies change.
  unfoldable pub refresh_environments : Session → Session
  unfolding env_locks
  refresh_environments s = record s {
    environment_table = record s.environment_table {
      locks = env_locks (overview_of s).environment_groups;
    };
  }

  unfoldable pub refresh_applications : Session → Session
  unfolding app_locks
  refresh_applications s = record s {
    application_table = record s.application_table {
      locks =
          app_locks rt.includes (lookup "application" s.params) (overview_of s).environment_groups;
    };
  }

  -- The parameters of the address are set.
  unfoldable pub set_params : Params → Session → Session
  set_params params s =
      let moved : Session = record s { params = params } in
      if same_option (lookup "application" params) (lookup "application" s.params)
      then moved
      else refresh_applications moved

  -- How the page is rendered.
  unfoldable pub frontend_of : (search_of : Params → Option String) → Session → Frontend
  frontend_of search_of s = record {
    config = s.startup.config;
    auth = s.startup.auth;
    is_authenticated = s.startup.is_authenticated;
    overview = overview_of s;
    overview_loaded = s.startup.page.overview_loaded;
    rollout = s.startup.page.rollout;
    side_bar = side_bar_of s;
    lanes = lane_of s;
    environment_table = s.environment_table;
    application_table = s.application_table;
    params = s.params;
    search = search_of s.params;
    route = s.route;
    last_part = s.last_part;
    href = s.href;
  }

  -- A click in the lane of an application.
  unfoldable pub click_lane : (app : String) → Click → Session → Session
  unfolding Menu.click
  click_lane app click s =
      elim (find (λ (a : Application). a.name == app) (values (overview_of s).applications)) [
        | none ↦ s
        | some a ↦
            set_lane app
              (Menu.click a (lane_environments app (overview_of s)) click (lane_of s app)) s
      ]

  -- The handler of a click. `text` is what stands in the field that is typed into, `lock_id` what
  -- `randomLockId` returns; `choose` is how the Material list selects an entry that is clicked.
  unfoldable pub handle :
      (choose : String → List String → List String) (text lock_id : String)
      → Clicked
      → Session
      → Session
  handle choose text lock_id (plans change) s = set_cart (change (cart_of s)) s
  handle choose text lock_id (opens app version) s =
      set_params (open_release_dialog rt.number_text readers.read_number app version s.params) s
  handle choose text lock_id closes s = set_params (close_release_dialog s.params) s
  handle choose text lock_id (clicks_lane app click) s = click_lane app click s
  handle choose text lock_id sorts_environment_locks s = record s {
    environment_table = sort_on_click environment_row_values s.environment_table;
  }
  handle choose text lock_id sorts_application_locks s = record s {
    application_table = sort_on_click application_row_values s.application_table;
  }
  handle choose text lock_id (changes_teams team) s =
      set_params (handle_change (choose team (selected_teams readers.split s.params)) s.params) s
  handle choose text lock_id searches s = set_params (set_query_param text s.params) s
  handle choose text lock_id toggles s =
      set_cart (record (cart_of s) { sidebar_shown = not (cart_of s).sidebar_shown }) s
  handle choose text lock_id types s = set_side_bar (update_message text (side_bar_of s)) s
  handle choose text lock_id applies s = set_side_bar (click_apply (side_bar_of s)) s
  handle choose text lock_id confirms s =
      set_side_bar (confirm s.startup.auth.auth_ready lock_id (side_bar_of s)) s
  handle choose text lock_id cancels s = set_side_bar (cancel_confirmation (side_bar_of s)) s
