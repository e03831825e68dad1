-- ===== src/App/Session/World.antt =====
-- What happens to the page from outside, and the runs of the page: in each step something happens,
-- or something is clicked that the page offers as it is rendered.
use mathlib.Core.Option
use mathlib.Core.List.{Memᴰ}
use kuberpult.Prelude.{
  ℕ, ◌+◌, ◌≡◌, String, Bool, true, false, ◌&&◌, not, Option, some, List, ◌==◌, if◌then◌else◌, ltb,
  length, [],
}
use kuberpult.Api.{Overview}
use kuberpult.Store.Dialog.{Params}
use kuberpult.Store.Overview.{returns, releases_for_app}
use kuberpult.View.{Html, Runtime, offered}
use kuberpult.App.{message}
use kuberpult.App.Session.{
  Session, Clicked, clicked, closed_lane, cart_of, set_cart, side_bar_of, set_side_bar,
}
use kuberpult.App.Session.Clicks.{
  refresh_environments, refresh_applications, set_params, frontend_of, handle,
}
use kuberpult.App.Startup.{Startup, Streams}
use kuberpult.App.Startup
use kuberpult.App.View.{Readers, app}
use kuberpult.LocksPage.{opened}
use kuberpult.Navigation.{Route, locks_route, show_effect}
use kuberpult.SideBar.Apply.{batch_succeeded, batch_failed}

-- The configuration, the sign-in and the streams; the answers of the batch service; the effect of
-- the snackbar; the page of the locks, which is rendered with its rows sorted anew; the list of an application's releases, which is sorted in the store where a lane or
-- the page of the releases is rendered; a lane that is not shown any more, which loses its state; and
-- the router, which links and "View History" lead to.
pub data Outside : Type 0 where
  starts : Startup.Event → Outside
  succeeds : Outside
  fails : (code : ℕ) (text : String) → Outside
  shows_snackbar : Outside
  renders_locks : Outside
  reads_releases : (app : String) → Outside
  unmounts_lane : (app : String) → Outside
  navigates : Option Route → Params → (last_part href : String) → Outside

-- Whether a new overview comes.
abbrev pub brings_overview : Startup.Event → Option Streams → Bool
brings_overview (Startup.overview_sends (message o)) (some streams) = not streams.of_overview.over
brings_overview _ _ = false

abbrev pub is_locks_route : Option Route → Bool
is_locks_route (some locks_route) = true
is_locks_route _ = false

module _ (rt : Runtime) (readers : Readers) (utf8_to_base64 : String → String)
    (stringify : String → ℕ → String → String) where
  abbrev pub refresh : Session → Session
  refresh s = refresh_applications rt readers (refresh_environments rt readers s)

  unfoldable pub after_start : Startup.Event → Session → Session
  unfolding Startup.step
  after_start e s =
      let moved : Session = record s {
        startup = Startup.step utf8_to_base64 stringify e s.startup;
      } in
      if brings_overview e s.startup.streams then refresh moved else moved

  -- The page of the locks, which opens both of its tables.
  unfoldable pub open_tables : Session → Session
  open_tables s =
      refresh (record s { environment_table = opened []; application_table = opened [] })

  unfoldable pub navigate_to : Option Route → Params → (last_part href : String) → Session → Session
  unfolding open_tables set_params
  navigate_to route params last_part href s =
      let moved : Session = record s { route = route; last_part = last_part; href = href } in
      if is_locks_route route && not (is_locks_route s.route)
      then open_tables (record moved { params = params })
      else set_params rt readers params moved

  unfoldable pub happen : Outside → Session → Session
  happen (starts e) s = after_start e s
  happen succeeds s =
      if ltb s.answered (length s.sent)
      then record (set_side_bar (batch_succeeded (side_bar_of s)) s) { answered = s.answered + 1 }
      else s
  happen (fails code text) s =
      if ltb s.answered (length s.sent)
      then record (set_side_bar (batch_failed code text (side_bar_of s)) s) {
        answered = s.answered + 1;
      }
      else s
  happen shows_snackbar s =
      set_cart (record (cart_of s) { snackbar = (show_effect (cart_of s).snackbar).1 }) s
  happen renders_locks s = refresh s
  happen (reads_releases app) s = record s {
    startup = record s.startup {
      page = record s.startup.page {
        overview =
            Option.map (λ (o : Overview). (releases_for_app app o).1) s.startup.page.overview;
      };
    };
  }
  happen (unmounts_lane app) s = record s {
    lanes = λ other. if other == app then closed_lane else s.lanes other;
  }
  happen (navigates route params last_part href) s = navigate_to route params last_part href s

  -- `search_of` is how the router writes the parameters, `choose` how the Material list selects.
  module _ (search_of : Params → Option String) (choose : String → List String → List String) where
    pub data Step (s t : Session) : Type 0 where
      happens : (e : Outside) → t ≡ happen e s → Step s t
      clicks :
          (page : Html Clicked) (e : Clicked) (text lock_id : String)
          → app rt readers clicked (frontend_of rt readers search_of s) ≡ returns page
          → Memᴰ e (offered page)
          → t ≡ handle rt readers choose text lock_id e s
          → Step s t

    pub data Reach (s : Session) : Session → Type 0 where
      here : Reach s s
      next : {t u : Session} → Reach s t → Step t u → Reach s u
