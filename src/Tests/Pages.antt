-- ===== src/Tests/Pages.antt =====
-- The release dialog, the buttons of environments, the streams and the dates.
use kuberpult.Prelude.{
  String, Bool, ◌==◌, ℕ, ◌≡◌, refl, List, [], ◌∷◌, ◌++◌, true, false, none, some, filter, arith,
  fold, is_some, if◌then◌else◌, concat,
}
use kuberpult.Api.{StreamStatusResponse, RolloutStatus}
use kuberpult.Store.Cart.{empty}
use kuberpult.Store.Overview.{release}
use kuberpult.Store.Rollout.{initial}
use kuberpult.Store.Dialog.{
  Params, open_release_dialog, release_dialog_params, release_dialog_params-open,
}
use kuberpult.App.{
  Page, Signal, message, failure, Subscription, receive, rollout_handlers, GlobalLoadingState,
  Handlers,
}
use kuberpult.App.Streams.{messages, receive-messages}
use kuberpult.Dates.{relative_date, group_by_date}
use kuberpult.Dates.Rounding.{IsClose, relative_date-IsClose}
use kuberpult.Dates.Grouping.{group_of, is_of_day, group_by_date-filter}
use kuberpult.Tests.Data.{overview, release_of, status_in, digit, read_digit}

abbrev params : Params
params = ("teams", "a") ∷ []

release_dialog_params-open_example :
    release_dialog_params digit read_digit overview
      (open_release_dialog digit read_digit "shop" 3 params)
    ≡ (if is_some (release "shop" 3 overview) then some ("shop", 3) else none)
release_dialog_params-open_example =
    release_dialog_params-open digit read_digit "shop" 3 overview params refl

abbrev handlers : Handlers StreamStatusResponse
handlers = rollout_handlers (λ m code text. concat (m ∷ ": " ∷ text ∷ []))

abbrev page : Page
page = record {
  overview = none;
  overview_loaded = false;
  panic_error = "";
  rollout = initial;
  cart = empty;
}

abbrev signals : List (Signal StreamStatusResponse)
signals = failure 14 "gone" ∷ message (status_in "north" RolloutStatus.progressing) ∷ []

abbrev subscribed : ℕ → Subscription
subscribed attempt = record { attempt = attempt; over = false; page = page }

receive-messages_example :
    ((fold (receive handlers) signals (subscribed 0)).over ≡ false)
    × ((fold (receive handlers) signals (subscribed 0)).page
        ≡ fold handlers.on_message (messages signals) page)
receive-messages_example = receive-messages handlers signals (subscribed 0) refl (omega arith)

abbrev loading : GlobalLoadingState
loading = record {
  config_ready = true;
  is_authenticated = false;
  azure_auth_enabled = true;
  overview_loaded = true;
}

relative_date-IsClose_example : IsClose 5400000 (relative_date 5400000)
relative_date-IsClose_example = relative_date-IsClose 5400000

group_by_date-filter_example :
    group_of digit "3" (
      group_by_date digit []
        (release_of 9 (some 3) ∷ release_of 8 (some 2) ∷ release_of 7 (some 3) ∷ []))
    ≡ []
      ++ filter
          (is_of_day digit "3")
          (release_of 9 (some 3) ∷ release_of 8 (some 2) ∷ release_of 7 (some 3) ∷ [])
group_by_date-filter_example =
    group_by_date-filter digit "3"
      (release_of 9 (some 3) ∷ release_of 8 (some 2) ∷ release_of 7 (some 3) ∷ []) []

-- A test for the slash that is enough for the two addresses.
abbrev ends_with_slash : String → Bool
ends_with_slash s = s == "https://argo/"
