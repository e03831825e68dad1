-- ===== src/App/Startup.antt =====
-- The effects of App/index.tsx, from the start of the page: the configuration, the sign-in and the two
-- streams, which begin anew whenever the headers of the requests change.
pub mod Carried
pub mod Order
use kuberpult.Prelude.{
  ℕ, String, Bool, true, false, ◌&&◌, not, Option, none, some, List, [], ◌∷◌, ◌==◌, if◌then◌else◌,
  concat,
}
use kuberpult.Api.{FrontendConfig, Overview, StreamStatusResponse}
use kuberpult.Store.Cart.{empty}
use kuberpult.Store.Rollout.{initial}
use kuberpult.Authentication.{
  FrontendConfigStore, AzureAuthSub, Account, signed_out, use_azure_auth, provider_effect,
  acquire_token,
}
use kuberpult.App.{
  Page, Signal, Handlers, Subscription, receive, overview_handlers, rollout_handlers,
  GlobalLoadingState,
}

-- How often a stream has failed since it began, and whether it is over.
pub record Retries : Type 0 where
  pub attempt : ℕ
  pub over : Bool

pub record Streams : Type 0 where
  pub of_overview : Retries
  pub of_rollout : Retries

-- What `App` keeps and subscribes to; `config_called` is whether `GetConfig` has no answer yet.
pub record Startup : Type 0 where
  pub config : FrontendConfigStore
  pub config_called : Bool
  pub is_authenticated : Bool
  pub auth : AzureAuthSub
  pub page : Page
  pub title : String
  pub streams : Option Streams

-- The effect that names the window.
unfoldable pub document_title : FrontendConfig → (title : String) → String
document_title configs title =
    if configs.kuberpult_version == ""
    then title
    else concat ("Kuberpult v" ∷ configs.kuberpult_version ∷ [])

-- The configuration before the server's is known.
abbrev pub unconfigured : FrontendConfig
unconfigured = record {
  argo_base_url = none;
  azure_auth = none;
  source_repo_url = "";
  kuberpult_version = "0";
  branch = "";
  manifest_repo_url = "";
}

-- The page after its first effects.
unfoldable pub started : (title : String) → Startup
started title = record {
  config = record { configs = unconfigured; config_ready = false };
  config_called = true;
  is_authenticated = false;
  auth = signed_out;
  page = record {
    overview = none;
    overview_loaded = false;
    panic_error = "";
    rollout = initial;
    cart = empty;
  };
  title = document_title unconfigured title;
  streams = none;
}

-- The two `subscribe` effects.
unfoldable pub subscribe : AzureAuthSub → Option Streams
subscribe auth =
    let begun : Retries = record { attempt = 0; over = false } in
    if auth.auth_ready then some (record { of_overview = begun; of_rollout = begun }) else none

-- The store of the sign-in is set to another value, so the effects run again.
abbrev pub set_auth : AzureAuthSub → Startup → Startup
set_auth auth s = record s { auth = auth; streams = subscribe auth }

-- The answer of `GetConfig`; an error is only written to the console.
unfoldable pub config_answers : Option FrontendConfig → Startup → Startup
config_answers none s = record s { config_called = false }
config_answers (some configs) s = record s {
  config_called = false;
  config = record { configs = configs; config_ready = true };
  title = document_title configs s.title;
}

-- Whether `AzureAuthProvider` renders `AcquireToken`.
abbrev pub renders_acquire_token : Startup → Bool
renders_acquire_token s =
    s.config.config_ready && use_azure_auth s.config.configs && s.is_authenticated

-- `receive` on a stream of the page.
abbrev pub received : {M : Type 0} → Handlers M → Signal M → Retries → Page → Subscription
received h signal r page =
    receive h signal (record { attempt = r.attempt; over = r.over; page = page })

abbrev pub retries_of : Subscription → Retries
retries_of s = record { attempt = s.attempt; over = s.over }

-- What happens: the server answers the call for the configuration, the library of the sign-in finds
-- the user authenticated, `AzureAuthProvider` is rendered, `AcquireToken` has requested a token, or a
-- stream sends a signal. The source has no way to sign out, so no event takes the user away, and a stream
-- of the server has no end but an error.
pub data Event : Type 0 where
  answers : Option FrontendConfig → Event
  signs_in : Event
  renders : Event
  acquires : List Account → (silent popup : Option String) → Event
  overview_sends : Signal Overview → Event
  rollout_sends : Signal StreamStatusResponse → Event

module _ (utf8_to_base64 : String → String) (stringify : String → ℕ → String → String) where
  unfoldable pub after_acquire : List Account → (silent popup : Option String) → Startup → Startup
  after_acquire accounts none none s = s
  after_acquire accounts (some t) popup s =
      set_auth (acquire_token utf8_to_base64 accounts (some t) popup s.auth) s
  after_acquire accounts none (some t) s =
      set_auth (acquire_token utf8_to_base64 accounts none (some t) s.auth) s

  unfoldable pub overview_sent : Signal Overview → Option Streams → Startup → Startup
  overview_sent signal none s = s
  overview_sent signal (some streams) s =
      let r = received (overview_handlers stringify) signal streams.of_overview s.page in
      record s { page = r.page; streams = some (record streams { of_overview = retries_of r }) }

  unfoldable pub rollout_sent : Signal StreamStatusResponse → Option Streams → Startup → Startup
  rollout_sent signal none s = s
  rollout_sent signal (some streams) s =
      let r = received (rollout_handlers stringify) signal streams.of_rollout s.page in
      record s { page = r.page; streams = some (record streams { of_rollout = retries_of r }) }

  unfoldable pub step : Event → Startup → Startup
  step (answers answer) s = if s.config_called then config_answers answer s else s
  step signs_in s = record s { is_authenticated = true }
  step renders s =
      let auth = provider_effect s.config s.auth in
      if auth.auth_ready && not s.auth.auth_ready then set_auth auth s else record s { auth = auth }
  step (acquires accounts silent popup) s =
      if renders_acquire_token s then after_acquire accounts silent popup s else s
  step (overview_sends signal) s = overview_sent signal s.streams s
  step (rollout_sends signal) s = rollout_sent signal s.streams s

-- What `useGlobalLoadingState` reads.
unfoldable pub loading_state : Startup → GlobalLoadingState
loading_state s = record {
  config_ready = s.config.config_ready;
  is_authenticated = s.is_authenticated;
  azure_auth_enabled = use_azure_auth s.config.configs;
  overview_loaded = s.page.overview_loaded;
}
