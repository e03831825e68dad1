-- ===== src/App/Session/Planned.antt =====
-- What the outside world does to the planned actions.
use kuberpult.Prelude.{
  ℕ, ◌≡◌, refl, String, Bool, true, false, ◌&&◌, Option, List, [], length, arith, ltb,
  if◌then◌else◌,
}
use kuberpult.Api.{BatchAction}
use kuberpult.Store.Dialog.{Params}
use kuberpult.View.{Runtime}
use kuberpult.App.Session.{Session, cart_of}
use kuberpult.App.Session.Clicks.{refresh_environments, refresh_applications, set_params}
use kuberpult.App.Session.World.{
  refresh, Outside, starts, succeeds, fails, shows_snackbar, renders_locks, reads_releases,
  unmounts_lane, navigates, after_start, open_tables, navigate_to, happen,
}
use kuberpult.App.Startup
use kuberpult.App.Startup.Carried.{step-actions}
use kuberpult.App.View.{Readers}
use kuberpult.Navigation.{Route}
use kuberpult.SideBar.Apply.{batch_succeeded, batch_failed}

abbrev planned : Session → List BatchAction
planned s = (cart_of s).actions

abbrev pub is_success : Outside → Bool
is_success succeeds = true
is_success _ = false

module _ (rt : Runtime) (readers : Readers) (utf8_to_base64 : String → String)
    (stringify : String → ℕ → String → String) where
  after_start-planned :
      (e : Startup.Event) (s : Session)
      → planned (after_start rt readers utf8_to_base64 stringify e s) ≡ planned s
  unfolding after_start refresh_environments refresh_applications
  after_start-planned e s = ground (arith, step-actions utf8_to_base64 stringify e s.startup)

  refresh-planned :
      (s : Session) → planned (refresh rt readers utf8_to_base64 stringify s) ≡ planned s
  unfolding refresh_environments refresh_applications
  refresh-planned s = refl

  navigate_to-planned :
      (route : Option Route) (params : Params) (last_part href : String) (s : Session)
      → planned (navigate_to rt readers utf8_to_base64 stringify route params last_part href s)
        ≡ planned s
  unfolding navigate_to open_tables set_params refresh_environments refresh_applications
  navigate_to-planned route params last_part href s = ground arith

  -- Whatever happens to the page without a click leaves the planned actions as they are, but that the
  -- success of a request that has no answer yet deletes them.
  pub happen-planned :
      (e : Outside) (s : Session)
      → (cart_of (happen rt readers utf8_to_base64 stringify e s)).actions
        ≡ (if is_success e && ltb s.answered (length s.sent) then [] else (cart_of s).actions)
  unfolding happen batch_succeeded batch_failed
  happen-planned (starts e) s = after_start-planned e s
  happen-planned succeeds s = ground arith
  happen-planned (fails code text) s = ground arith
  happen-planned shows_snackbar s = refl
  happen-planned renders_locks s = refresh-planned s
  happen-planned (reads_releases app) s = refl
  happen-planned (unmounts_lane app) s = refl
  happen-planned (navigates route params last_part href) s =
      navigate_to-planned route params last_part href s
