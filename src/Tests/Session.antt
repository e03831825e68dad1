-- ===== src/Tests/Session.antt =====
-- A visit of the page: its start, a lock that is planned with a click, and the request that is sent.
use mathlib.Core.Option.{some-injective}
use mathlib.Core.List.{Memᴰ}
use kuberpult.Prelude.{
  ℕ, ◌≡◌, refl, String, true, Option, none, some, List, [], ◌∷◌, length, get_elem?, is_some, arith,
  ◌&&◌, if◌then◌else◌, ltb, sym, zero, suc,
}
use kuberpult.Api.{BatchAction, create_environment_lock}
use kuberpult.App.{message, everything_loaded, receive, overview_handlers}
use kuberpult.App.Session.{
  Session, Clicked, clicked, plans, applies, types, confirms, session_started, cart_of,
}
use kuberpult.App.Session.Clicks.{frontend_of, handle, refresh_applications, refresh_environments}
use kuberpult.App.Session.Closed.{Step-closed}
use kuberpult.App.Session.Planned.{is_success, happen-planned}
use kuberpult.App.Session.Soundness.{IsSound}
use kuberpult.App.Session.Soundness.Reached.{Reach-IsSound, Reach-authenticated}
use kuberpult.App.Session.World.{
  Outside, starts, succeeds, navigates, happen, happens, clicks, Reach, here, next, navigate_to,
  after_start,
}
use kuberpult.App.Startup.{
  after_acquire, answers, signs_in, acquires, overview_sends, config_answers, subscribe,
  overview_sent,
}
use kuberpult.App.View.{app, dialog_of, page_routes, top_app_bar, global_loading_state}
use kuberpult.Authentication.{
  use_azure_auth, acquire_token, azure_auth_provider, acquire_token_view, provider_effect,
}
use kuberpult.Chips.View.{environment_lock_display}
use kuberpult.EnvironmentCard.{add_group_lock}
use kuberpult.EnvironmentCard.View.{
  environments_page, environment_group_card, environment_card, lock_display,
}
use kuberpult.Navigation.{environments_route, snackbar_view, navigation_bar, nav_list_item}
use kuberpult.Search.View.{textfield, dropdown, dropdown_select}
use kuberpult.SideBar.Apply.{
  can_apply, title, update_message, click_apply, confirm, apply_actions, apply_message, send_batch,
  set_message, set_lock_id,
}
use kuberpult.SideBar.Details.{get_action_details}
use kuberpult.SideBar.View.{
  side_bar, footer, side_bar_list, side_bar_list_item, delete_all_section, confirmation_dialog_of,
  locks_rendered,
}
use kuberpult.Store.Cart.{append_action, add_action}
use kuberpult.Store.Dialog.{Params, release_dialog_params}
use kuberpult.Store.Locks.{
  filtered_environment_lock_ids, environment_lock, environments, locks_conflicting_with_actions,
  all_locks, locks_similar_to, environment_locks_of, app_locks_of, extract_delete_action_data,
}
use kuberpult.Store.Overview.{team_names, lookup, all_warnings, release, returns, throws}
use kuberpult.Tests.Data.{overview, group}
use kuberpult.Tests.Runs.{config}
use kuberpult.Tests.Shown.{runtime, readers}
use kuberpult.View.{Html, text_node, offered}
use kuberpult.View.Results.{each}
use kuberpult.View.Widgets.{checkbox, confirmation_dialog}

abbrev utf8 : String → String
utf8 s = s

abbrev json : String → ℕ → String → String
json msg code text = text

abbrev search_of : Params → Option String
search_of params = none

abbrev choose : String → List String → List String
choose team teams = team ∷ teams

abbrev and_then_happens : Outside → Session → Session
and_then_happens = happen runtime readers utf8 json

abbrev and_clicked : Clicked → Session → Session
and_clicked = handle runtime readers choose "why" "id"

abbrev start : Session
start = session_started "kuberpult" [] "https://localhost/ui"

abbrev signed_in : Session
signed_in = and_then_happens (starts (acquires [] none (some "token"))) (
    and_then_happens (starts signs_in)
      (and_then_happens (starts (answers (some config.configs))) start))

abbrev environments_shown : Session
environments_shown =
    and_then_happens (navigates (some environments_route) [] "environments" "https://localhost/ui")
      (and_then_happens (starts (overview_sends (message overview))) signed_in)

abbrev page_of : Session → Html Clicked
page_of s = elim (app runtime readers clicked (frontend_of runtime readers search_of s)) [
  | returns page ↦ page
  | throws text ↦ text_node text
]

abbrev locks_planned : Session
locks_planned = and_clicked (plans (add_group_lock group)) environments_shown

abbrev reason_typed : Session
reason_typed = and_clicked types locks_planned

abbrev applied : Session
applied = and_clicked applies reason_typed

abbrev confirmed : Session
confirmed = and_clicked confirms applied

-- The event that the page offers at an index can be clicked.
offered_at :
    (events : List Clicked) (n : ℕ) {e : Clicked} → get_elem? events n ≡ some e → Memᴰ e events
offered_at [] n p = cc
offered_at (x ∷ events) zero p = Memᴰ.head (sym (some-injective _ _ p))
offered_at (x ∷ events) (suc n) p = Memᴰ.tail (offered_at events n p)

abbrev Clickable : Clicked → Session → Type 0
Clickable e s =
    (app runtime readers clicked (frontend_of runtime readers search_of s) ≡ returns (page_of s))
    × Memᴰ e (offered (page_of s))

-- In this visit, everything that is clicked is offered.
all_offered :
    Clickable (plans (add_group_lock group)) environments_shown
    × Clickable types locks_planned
    × Clickable applies reason_typed
    × Clickable confirms applied
unfolding app dialog_of page_routes top_app_bar global_loading_state azure_auth_provider
    acquire_token_view after_acquire acquire_token offered frontend_of happen navigate_to
    after_start provider_effect session_started config_answers subscribe refresh_applications
    refresh_environments overview_sent release_dialog_params environments_page everything_loaded
    receive overview_handlers each environment_group_card environment_card lock_display textfield
    dropdown dropdown_select checkbox side_bar footer side_bar_list side_bar_list_item
    delete_all_section confirmation_dialog_of confirmation_dialog locks_rendered snackbar_view
    navigation_bar nav_list_item filtered_environment_lock_ids environment_lock
    environment_lock_display environments team_names all_warnings can_apply
    locks_conflicting_with_actions all_locks title handle add_group_lock append_action add_action
    update_message click_apply get_action_details locks_similar_to environment_locks_of app_locks_of
    extract_delete_action_data release
all_offered = (
  (refl, offered_at _ 5 refl),
  (refl, offered_at _ 7 refl),
  (refl, offered_at _ 8 refl),
  (refl, offered_at _ 10 refl),
)

abbrev Visited : Session → Type 0
Visited = Reach runtime readers utf8 json search_of choose start

visit : Visited confirmed
visit =
    next
      (next
        (next
          (next
            (next
              (next
                (next
                  (next (next here (happens (starts (answers (some config.configs))) refl))
                    (happens (starts signs_in) refl))
                  (happens (starts (acquires [] none (some "token"))) refl))
                (happens (starts (overview_sends (message overview))) refl))
              (happens
                (navigates (some environments_route) [] "environments" "https://localhost/ui")
                refl))
            (clicks _ (plans (add_group_lock group)) "why" "id" all_offered.0.0 all_offered.0.1
              refl))
          (clicks _ types "why" "id" all_offered.1.0 all_offered.1.1 refl))
        (clicks _ applies "why" "id" all_offered.2.0 all_offered.2.1 refl))
      (clicks _ confirms "why" "id" all_offered.3.0 all_offered.3.1 refl)

Reach-IsSound_example : IsSound (and_then_happens succeeds confirmed)
Reach-IsSound_example =
    Reach-IsSound runtime readers utf8 json search_of choose "kuberpult" [] "https://localhost/ui"
      (and_then_happens succeeds confirmed) (next visit (happens succeeds refl))

abbrev lock_request : String → BatchAction
lock_request env = record {
  action =
      some
        (create_environment_lock (record { environment = env; lock_id = "id"; message = "why" }));
}

-- The visit sends one request, for a lock of each environment of the group, and it is signed in.
visit_sends :
    (confirmed.sent ≡ (lock_request "north" ∷ lock_request "south" ∷ []) ∷ [])
    × (use_azure_auth confirmed.startup.config.configs ≡ true)
unfolding happen handle after_start navigate_to session_started config_answers subscribe
    refresh_applications refresh_environments overview_sent receive overview_handlers after_acquire
    acquire_token add_group_lock append_action add_action update_message click_apply can_apply
    confirm apply_actions apply_message send_batch set_message set_lock_id
visit_sends = (refl, refl)

Reach-authenticated_example :
    (confirmed.startup.is_authenticated ≡ true)
    × (is_some (lookup "Authorization" confirmed.startup.auth.auth_header) ≡ true)
Reach-authenticated_example =
    Reach-authenticated runtime readers utf8 json search_of choose "kuberpult" []
      "https://localhost/ui" confirmed visit (rw (visit_sends.0) (omega arith)) (visit_sends.1)

happen-planned_example : (cart_of (and_then_happens succeeds confirmed)).actions ≡ (
    if is_success succeeds && ltb confirmed.answered (length confirmed.sent)
    then []
    else (cart_of confirmed).actions)
happen-planned_example = happen-planned runtime readers utf8 json succeeds confirmed

Step-closed_example :
    (e : Outside) × (and_then_happens (starts (answers (some config.configs))) start
      ≡ and_then_happens e start)
unfolding session_started
Step-closed_example =
    Step-closed runtime readers utf8 json search_of choose start _ refl
      (happens (starts (answers (some config.configs))) refl)
