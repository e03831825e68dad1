-- ===== src/Tests/Runs.antt =====
-- Runs of the cart, the side bar, a stream, the sign-in and the team filter.
use kuberpult.Prelude.{
  ℕ, ◌≡◌, refl, ◌<◌, ◌≤◌, String, true, false, none, some, List, [], ◌∷◌, ◌++◌, ◌==◌, if◌then◌else◌,
  arith, fold, filter, leb,
}
use kuberpult.Store.Cart.{empty}
use kuberpult.Store.Cart.Plan.{Primitive, adds, removes}
use kuberpult.Store.Cart.Plan.Refinement.{Refines, changes-Refines}
use kuberpult.Store.Dialog.{Params}
use kuberpult.Store.Overview.{lookup}
use kuberpult.Store.Rollout.{initial}
use kuberpult.App.{Page, Signal, message, failure, Handlers, Subscription, receive}
use kuberpult.App.Streams.{failures}
use kuberpult.App.Backoff.{Draws, signals_of, waited, stream_ends}
use kuberpult.Authentication.{FrontendConfigStore, signed_out}
use kuberpult.Authentication.Tokens.{
  Event, renders, acquires, step, last_token, IsSignedInWith, steps-IsSignedInWith,
}
use kuberpult.Search.{handle_change, home_teams, is_named}
use kuberpult.Search.Filter.{is_cleared, home_teams-handle_change}
use kuberpult.SideBar.Apply.{SideBar}
use kuberpult.SideBar.Apply
use kuberpult.SideBar.Apply.Progress.{sending, filled, sending-empties}
use kuberpult.Tests.Data.{deploying, locking, text_of, compare_texts}

abbrev session : List Primitive
session =
    adds (deploying "north" 3)
    ∷ adds (deploying "north" 2)
    ∷ adds (locking "south")
    ∷ removes (deploying "north" 1)
    ∷ []

changes-Refines_example : Refines text_of compare_texts session empty
changes-Refines_example =
    changes-Refines text_of compare_texts session empty
      (record { within = omega arith; distinct = tt })

abbrev planned : SideBar
planned = record {
  cart = record empty { actions = locking "north" ∷ deploying "north" 3 ∷ [] };
  lock_message = "";
  show_spinner = false;
  show_confirmation_dialog = false;
  sent = [];
}

sending-empties_example :
    let e = fold (Apply.step text_of compare_texts) (sending "release" "id") planned in
    (e.sent ≡ [] ++ filled "release" "id" planned.cart.actions ∷ [])
    × (e.cart.actions ≡ [])
    × (e.show_spinner ≡ false)
    × (e.show_confirmation_dialog ≡ false)
sending-empties_example =
    sending-empties text_of compare_texts planned "release" "id" (omega arith) refl

abbrev page : Page
page = record {
  overview = none;
  overview_loaded = false;
  panic_error = "";
  rollout = initial;
  cart = empty;
}

abbrev handlers : Handlers ℕ
handlers = record {
  on_message = λ n page. page;
  on_error = λ code text page. record page { panic_error = text };
}

abbrev fails : Signal ℕ × ℕ
fails = (failure 14 "gone", 500)

abbrev draws : Draws ℕ
draws = fails ∷ fails ∷ fails ∷ (message 1, 0) ∷ fails ∷ fails ∷ fails ∷ fails ∷ fails ∷ fails ∷ []

abbrev subscribed : Subscription
subscribed = record { attempt = 0; over = false; page = page }

stream_ends_example :
    let e = fold (receive handlers) (signals_of draws) subscribed in
    (e.over ≡ leb 9 (failures (signals_of draws)))
    × (e.over ≡ true
        → (255000 ≤ waited handlers draws subscribed) × (waited handlers draws subscribed < 263000))
stream_ends_example = stream_ends handlers draws subscribed refl refl (
  (omega arith),
  (
    omega arith,
    (
      omega arith,
      (
        omega arith,
        (
          omega arith,
          (omega arith, (omega arith, (omega arith, (omega arith, (omega arith, tt))))),
        ),
      ),
    ),
  ),
)

abbrev pub config : FrontendConfigStore
config = record {
  configs = record {
    argo_base_url = none;
    azure_auth = some (record {
      enabled = true;
      client_id = "id";
      tenant_id = "tenant";
      cloud_instance = "cloud";
      redirect_url = "";
    });
    source_repo_url = "";
    kuberpult_version = "1";
    branch = "";
    manifest_repo_url = "";
  };
  config_ready = true;
}

abbrev sign_in : List Event
sign_in =
    renders config ∷ acquires [] none none ∷ acquires [] none (some "token") ∷ renders config ∷ []

steps-IsSignedInWith_example :
    IsSignedInWith (last_token (λ s. s) sign_in none) (fold (step (λ s. s)) sign_in signed_out)
steps-IsSignedInWith_example =
    steps-IsSignedInWith (λ s. s) sign_in ((λ _. refl), (tt, (tt, ((λ _. refl), tt))))

-- A text that has no comma is its own only part.
abbrev whole : String → List String
whole s = s ∷ []

abbrev address : Params
address = ("application", "shop") ∷ []

home_teams-handle_change_example :
    (home_teams whole (handle_change ("" ∷ "sre" ∷ []) address)
      ≡ (if is_cleared ("" ∷ "sre" ∷ []) then [] else filter is_named ("" ∷ "sre" ∷ [])))
    × ((other : String)
        → ("teams" == other) ≡ false
        → lookup other (handle_change ("" ∷ "sre" ∷ []) address) ≡ lookup other address)
home_teams-handle_change_example =
    home_teams-handle_change whole ("" ∷ "sre" ∷ []) address refl refl
